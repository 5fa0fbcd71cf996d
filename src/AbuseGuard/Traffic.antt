-- ===== src/AbuseGuard/Traffic.antt =====
-- The two middlewares together (TrafficGuard of gateway/internal/middleware/abuse.go): which requests
-- reach a handler, and what each leaves in the tracker and the limiter.
use sentrymesh.Base.{ℕ, String, Bool, true, false, some, ◌≡◌, refl, ◌==◌, if_elim}
use sentrymesh.Identity.{Identity}
use sentrymesh.Abuse.{Repository, Tracker, register_key, add, check}
use sentrymesh.RateLimit.{Limiter, allow}
use sentrymesh.AbuseGuard.{
  Handler, Luck, Response, too_many, event, rate_limit_exceeded, retry_seconds, abuse_points,
  charge_for, abuse_guard, rate_limit, traffic_guard,
}

module _ (r : Repository) (key_of : ℕ → String) {World : Type 0} (next : Handler World) where
  -- The key, and what the tracker's check of it gives.
  abbrev pub checks : Luck → Identity → Tracker r → (Bool × ℕ × ℕ) × Tracker r
  checks luck principal t =
      let key = key_of principal.key_id in
      check r luck.up key luck.now (register_key r luck.up key principal.key_id t)

  abbrev pub allows : Luck → Identity → Limiter → (Bool × ℕ) × Limiter
  allows luck principal l = allow (key_of principal.key_id) luck.now l

  -- What an outcome means: in a cooldown the limiter and the handler are left alone; beyond the rate
  -- the handler is left alone and the key is charged one point; else the handler answers, and the key
  -- is charged by its status.
  pub data Traffic (luck : Luck) (principal : Identity) (t : Tracker r) (l : Limiter) (w : World)
      : Response × Tracker r × (Limiter × World) → Type 0 where
    cooling :
        (response : Response)
        → (checks luck principal t).0.0 ≡ true
        → response.status ≡ 429
        → Traffic luck principal t l w (response, (checks luck principal t).1, (l, w))
    limited :
        (response : Response)
        → (checks luck principal t).0.0 ≡ false
        → (allows luck principal l).0.0 ≡ false
        → response.status ≡ 429
        → Traffic luck principal t l w (
          response,
          (add r luck.up (key_of principal.key_id) 1 luck.after (checks luck principal t).1).1,
          ((allows luck principal l).1, w),
        )
    served :
        (response : Response)
        → (checks luck principal t).0.0 ≡ false
        → (allows luck principal l).0.0 ≡ true
        → response.status ≡ (next (some principal) w).0.status
        → Traffic luck principal t l w (
          response,
          (charge_for r key_of next luck principal
              (next (some principal) w).0
              (checks luck principal t).1).1,
          ((allows luck principal l).1, (next (some principal) w).1),
        )

  -- A charge keeps the status of the answer.
  charge_for-status :
      {W : Type 0} (other : Handler W) (luck : Luck) (principal : Identity) (response : Response)
      (t : Tracker r)
      → (charge_for r key_of other luck principal response t).0.status ≡ response.status
  unfolding charge_for
  charge_for-status other luck principal response t =
      if_elim (λ (o : Response × Tracker r). o.0.status ≡ response.status)
        ((abuse_points luck.path response.status).0 == 0) (λ e. refl) (λ e. refl)

  -- Every request of an authenticated key is blocked in its cooldown, refused beyond its rate, or
  -- served; only when it is served does it reach the handler.
  pub traffic_guard-Traffic :
      (luck : Luck) (principal : Identity) (t : Tracker r) (l : Limiter) (w : World)
      → Traffic luck principal t l w (traffic_guard r key_of next luck (some principal) (t, (l, w)))
  unfolding traffic_guard abuse_guard rate_limit charge_for abuse_points
  traffic_guard-Traffic luck principal t l w =
      let T = Traffic luck principal t l w in
      let seconds = retry_seconds (allows luck principal l).0.1 in
      let late =
        too_many seconds (event luck.now luck.path principal (rate_limit_exceeded seconds)) in
      let C = λ (o : Response × (Limiter × World)).
        ((checks luck principal t).0.0 ≡ false)
        → T (
          (charge_for r key_of next luck principal o.0 (checks luck principal t).1).0,
          (charge_for r key_of next luck principal o.0 (checks luck principal t).1).1,
          o.1,
        ) in
      if_elim T (checks luck principal t).0.0 (λ blocked. cooling _ blocked refl)
        (λ free.
          if_elim C (allows luck principal l).0.0
            (λ ok f. served _ f ok (charge_for-status next luck principal _ _))
            (λ over f.
              limited _ f over
                (charge_for-status next luck principal late (checks luck principal t).1))
            free)
