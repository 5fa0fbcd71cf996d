-- ===== src/AbuseGuard/Blocking.antt =====
-- A key in a cooldown does not reach the handler (gateway/internal/middleware/abuse.go).
use sentrymesh.Base.{ℕ, ◌<◌, String, true, some, lookup, ◌≡◌, refl, arith, sub}
use sentrymesh.Identity.{Identity}
use sentrymesh.Abuse.{Repository, Tracker, register_key}
use sentrymesh.Abuse.Cooldown.{CoolsUntil, check_blocks}
use sentrymesh.Abuse.Persistence.{IsSaved, register_key-reloads}
use sentrymesh.AbuseGuard.{Handler, Luck, retry_seconds, abuse_guard}

module _ (r : Repository) (key_of : ℕ → String) {World : Type 0} (next : Handler World) where
  -- A request of a key before the end of its cooldown, when the database answers and holds the key's
  -- state, does not reach the handler, whose world stays as it is, and is answered 429 with the
  -- seconds that are left.
  pub abuse_guard-blocks :
      (luck : Luck) (principal : Identity) (u : ℕ) (t : Tracker r) (w : World)
      → luck.up ≡ true
      → IsSaved r (key_of principal.key_id) principal.key_id t
      → CoolsUntil r (key_of principal.key_id) u t
      → luck.now < u
      → let answer = abuse_guard r key_of next luck (some principal) (t, w) in
        (answer.0.status ≡ 429) × (answer.0.retry ≡ retry_seconds (sub u luck.now)) × (answer.2 ≡ w)
  unfolding abuse_guard
  abuse_guard-blocks luck principal u t w up saved cools early =
      let key = key_of principal.key_id in
      let t' = register_key r true key principal.key_id t in
      let reloaded : lookup key t'.states ≡ some saved.1 =
        register_key-reloads r key principal.key_id t saved.0 saved.1 saved.2 saved.4 in
      let same : saved.1.cooldown_until ≡ u = ground (arith, saved.3, cools.1, cools.2) in
      let blocked = check_blocks r true key u luck.now t' early (saved.1, reloaded, same) in
      rw up (rw (blocked.0, blocked.1) (refl, refl, refl))
