-- ===== src/AbuseGuard.antt =====
-- gateway/internal/middleware/abuse.go and ratelimit.go: the middlewares in front of the handlers of
-- API keys, over the abuse tracker and the rate limiter, and TrafficGuard, which chains them. A
-- handler takes the identity of the request's context and its own world. The text "api_key:%d" of a
-- key's id is the parameter `key_of`.
pub mod Blocking
pub mod Traffic
mod Tests
use sentrymesh.Base.{
  ℕ, ◌+◌, ◌/◌, max, String, Bool, true, false, List, [], ◌∷◌, ◌++◌, Option, none, some, str_eq,
  ◌==◌, if◌then◌else◌, second,
}
use sentrymesh.Identity.{Identity}
use sentrymesh.Abuse.{Repository, Tracker, register_key, add, check}
use sentrymesh.RateLimit.{Limiter, allow}

pub data Reason : Type 0 where
  no_reason rate_limit_violation chat_security_block rag_security_block : Reason

unfoldable pub abuse_points : String → ℕ → ℕ × Reason
abuse_points path status =
    if status == 429
    then (1, rate_limit_violation)
    else if status == 403
    then if str_eq path "/v1/chat/completions"
      then (3, chat_security_block)
      else if str_eq path "/v1/rag/chat"
      then (3, rag_security_block)
      else (0, no_reason)
    else (0, no_reason)

-- Rounds half a second up, as Duration.Round does.
unfoldable pub retry_seconds : ℕ → ℕ
retry_seconds retry = max ((retry + second / 2) / second) 1

-- The event types, with their details.
pub data Happening : Type 0 where
  cooldown_blocked : ℕ → ℕ → Happening  -- "ABUSE_COOLDOWN_BLOCKED": score, seconds
  score_updated : ℕ → ℕ → Reason → ℕ → Happening
  -- "ABUSE_SCORE_UPDATED": score, points, reason, status
  cooldown_started : ℕ → ℕ → Reason → Happening
  -- "ABUSE_COOLDOWN_STARTED": score, end, trigger
  rate_limit_exceeded : ℕ → Happening  -- "RATE_LIMIT_EXCEEDED": seconds

-- audit.AbuseEvent, with the principal's fields together
pub record AbuseEvent : Type 0 where
  pub timestamp : ℕ
  pub principal : Identity
  pub path : String
  pub happening : Happening

-- A request's answer, and the audit events that were asked for meanwhile.
pub record Response : Type 0 where
  pub status : ℕ
  pub retry : ℕ
  pub events : List AbuseEvent

abbrev pub Handler : Type 0 → Type 0
Handler World = Option Identity → World → Response × World

-- The path, whether the database answers, and the time before and after the handler.
pub record Luck : Type 0 where
  pub path : String
  pub up : Bool
  pub now : ℕ
  pub after : ℕ

abbrev pub event : ℕ → String → Identity → Happening → AbuseEvent
event now path principal happening = record {
  timestamp = now;
  principal = principal;
  path = path;
  happening = happening;
}

abbrev pub unauthorized : Response
unauthorized = record { status = 401; retry = 0; events = [] }

abbrev pub too_many : ℕ → AbuseEvent → Response
too_many seconds e = record { status = 429; retry = seconds; events = e ∷ [] }

module _ (key_of : ℕ → String) {World : Type 0} (next : Handler World) where
  unfoldable pub rate_limit : Luck → Handler (Limiter × World)
  unfolding retry_seconds
  rate_limit luck none (l, w) = (unauthorized, (l, w))
  rate_limit luck (some principal) (l, w) =
      let allowed = allow (key_of principal.key_id) luck.now l in
      let served = next (some principal) w in
      let seconds = retry_seconds allowed.0.1 in
      if allowed.0.0 then (served.0, (allowed.1, served.1)) else (
        too_many seconds (event luck.now luck.path principal (rate_limit_exceeded seconds)),
        (allowed.1, w),
      )

module _ (r : Repository) (key_of : ℕ → String) {World : Type 0} (next : Handler World) where
  -- The events of a charge, from what `tracker.Add` returned.
  abbrev pub charge_events : Luck → Identity → ℕ × Reason → ℕ → ℕ × ℕ × Bool → List AbuseEvent
  charge_events luck principal points status (score, cooldown_until, entered) =
      event luck.after luck.path principal (score_updated score points.0 points.1 status)
      ∷ (if entered
          then event luck.after luck.path principal (cooldown_started score cooldown_until points.1)
            ∷ []
          else [])

  -- What happens after the handler has answered.
  unfoldable pub charge_for : Luck → Identity → Response → Tracker r → Response × Tracker r
  unfolding abuse_points
  charge_for luck principal response t =
      let points = abuse_points luck.path response.status in
      let (score, charged) = add r luck.up (key_of principal.key_id) points.0 luck.after t in
      if points.0 == 0 then (response, t) else (
        record response {
          events = response.events ++ charge_events luck principal points response.status score;
        },
        charged,
      )

  -- `checked` is what `tracker.Check` returns, with the tracker.
  abbrev pub after_check :
      Luck → Identity → (Bool × ℕ × ℕ) × Tracker r → World → Response × Tracker r × World
  after_check luck principal (checked, t) w =
      let seconds = retry_seconds checked.1 in
      let served = next (some principal) w in
      let charged = charge_for luck principal served.0 t in
      if checked.0
      then (
        too_many seconds (event luck.now luck.path principal (cooldown_blocked checked.2 seconds)),
        t,
        w,
      )
      else (charged.0, charged.1, served.1)

  unfoldable pub abuse_guard :
      Luck → Option Identity → Tracker r × World → Response × Tracker r × World
  unfolding retry_seconds charge_for
  abuse_guard luck none (t, w) = (unauthorized, t, w)
  abuse_guard luck (some principal) (t, w) =
      let key = key_of principal.key_id in
      after_check luck principal
        (check r luck.up key luck.now (register_key r luck.up key principal.key_id t)) w

module _ (r : Repository) (key_of : ℕ → String) {World : Type 0} (next : Handler World) where
  unfoldable pub traffic_guard :
      Luck
      → Option Identity
      → Tracker r × (Limiter × World)
      → Response × Tracker r × (Limiter × World)
  unfolding abuse_guard rate_limit
  traffic_guard luck = abuse_guard r key_of (rate_limit key_of next luck) luck
