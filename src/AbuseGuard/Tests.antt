-- ===== src/AbuseGuard/Tests.antt =====
-- Runs of the middlewares, and their theorems at a key in a cooldown.
use sentrymesh.Base.{
  ℕ, String, ◌≡◌, refl, arith, true, [], ◌∷◌, Option, none, some, lookup, sub, second,
  if◌then◌else◌, ◌==◌, ◌*◌, ◌+◌,
}
use sentrymesh.Abuse.{Repository, StoredState, State, Tracker, stored_of}
use sentrymesh.Abuse.Cooldown.{CoolsUntil}
use sentrymesh.Abuse.Persistence.{IsSaved}
use sentrymesh.Identity.{Identity, sales}
use sentrymesh.RateLimit.{new_limiter}
use sentrymesh.AbuseGuard.{
  Handler, Luck, chat_security_block, abuse_points, retry_seconds, abuse_guard, traffic_guard,
}
use sentrymesh.AbuseGuard.Traffic.{Traffic, traffic_guard-Traffic}
use sentrymesh.AbuseGuard.Blocking.{abuse_guard-blocks}

points_lem : abuse_points "/v1/chat/completions" 403 ≡ (3, chat_security_block)
unfolding abuse_points
points_lem = refl

-- A client that waits as long as it is told comes back within the cooldown.
rounding_lem : retry_seconds (7 * second + 499999999) ≡ 7
unfolding retry_seconds
rounding_lem = refl

abbrev plain : Repository
plain = record {
  Db = ℕ → Option StoredState;
  load = λ up db id. if up then db id else none;
  save = λ up db s. if up then (λ id. if id == s.key_id then some s else db id) else db;
}

abbrev cooling : State
cooling = record { score = 6; last_updated = 100; cooldown_until = 130 }

abbrev tracker : Tracker plain
tracker = record {
  config = record { threshold = 5; cooldown = 30; decay_every = 10 };
  states = ("api_key:1", cooling) ∷ [];
  key_ids = ("api_key:1", 1) ∷ [];
  store = some (λ id. some (stored_of 1 cooling));
}

abbrev principal : Identity
principal = record {
  user_id = "u";
  role = sales;
  team = "t";
  scopes = [];
  key_id = 1;
  key_name = "k";
}

abbrev key_of : ℕ → String
key_of id = "api_key:1"

-- The handler counts its calls.
abbrev serve : Handler ℕ
serve who w = (record { status = 200; retry = 0; events = [] }, w + 1)

abbrev luck : Luck
luck = record { path = "/v1/rag/chat"; up = true; now = 110; after = 111 }

saved : IsSaved plain "api_key:1" 1 tracker
unfolding lookup
saved = ((λ id. some (stored_of 1 cooling)), cooling, refl, refl, refl)

cools : CoolsUntil plain "api_key:1" 130 tracker
unfolding lookup
cools = (cooling, refl, refl)

abuse_guard-blocks_example :
    let answer = abuse_guard plain key_of serve luck (some principal) (tracker, 4) in
    (answer.0.status ≡ 429) × (answer.0.retry ≡ retry_seconds (sub 130 110)) × (answer.2 ≡ 4)
abuse_guard-blocks_example =
    abuse_guard-blocks plain key_of serve luck principal 130 tracker 4 refl saved cools
      (omega arith)

-- The bucket of this limiter holds one token.
traffic_guard-Traffic_example :
    Traffic plain key_of serve luck principal tracker
      (new_limiter 1 1)
      4
      (traffic_guard plain key_of serve luck (some principal) (tracker, (new_limiter 1 1, 4)))
traffic_guard-Traffic_example =
    traffic_guard-Traffic plain key_of serve luck principal tracker (new_limiter 1 1) 4
