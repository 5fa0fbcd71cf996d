-- ===== src/Auth/Keys.antt =====
-- gateway/internal/api/keys.go: the handlers that list, create and revoke API keys, over the store of
-- gateway/internal/auth/store.go. The details of an audit event are left out.
use sentrymesh.Base.{
  ℕ, ◌+◌, ◌-◌, ◌*◌, ◌%◌, ◌^◌, String, Bool, List, [], ◌∷◌, ◌++◌, Option, none, some, ltb,
  if◌then◌else◌, Result, ok, err,
}
use sentrymesh.Identity.{Identity}
use sentrymesh.Auth.{
  Env, Error, Store, KeyRecord, create, revoke_by_id, find_by_name, find_by_id, list,
}

pub record CreateKeyRequest : Type 0 where
  pub name : String
  pub user_id : String
  pub role : String
  pub team : String
  pub scopes : List String
  pub expires_in : ℕ  -- a number of hours, with 0 for all that are not positive

pub data EventType : Type 0 where
  api_key_created : EventType  -- "API_KEY_CREATED"
  api_key_revoked : EventType  -- "API_KEY_REVOKED"

-- audit.AuthEvent
pub record AuthEvent : Type 0 where
  pub timestamp : ℕ
  pub event_type : EventType
  pub key_id : ℕ
  pub key_name : String
  pub actor : Identity

pub record World : Type 0 where
  pub store : Store
  pub events : List AuthEvent

-- What the world decides in one request: whether the database answers each of its two statements,
-- whether the audit store works, the time, and the key that GenerateRawKey draws.
pub record Luck : Type 0 where
  pub first : Bool
  pub second : Bool
  pub audit : Bool
  pub now : ℕ
  pub raw_key : Option String

pub data Body : Type 0 where
  failure : Body
  keys : List KeyRecord → Body
  created : String → String → Body  -- the name and the raw key
  revoked : ℕ → Body

pub record Response : Type 0 where
  pub status : ℕ
  pub body : Body

abbrev pub fails : ℕ → Response
fails status = record { status = status; body = failure }

abbrev pub succeeds : Body → Response
succeeds body = record { status = 200; body = body }

abbrev pub hour : ℕ
hour = 3600 * 10 ^ 9

-- `time.Duration(req.ExpiresIn) * time.Hour` wraps around in 64 bits.
unfoldable pub expiry : ℕ → ℕ → Option ℕ
expiry now hours =
    let span = (hours * hour) % 2 ^ 64 in
    if ltb 0 hours
    then some (if ltb span (2 ^ 63) then now + span else now - (2 ^ 64 - span))
    else none

abbrev pub requested : CreateKeyRequest → Identity
requested req = record {
  user_id = req.user_id;
  role = req.role;
  team = req.team;
  scopes = req.scopes;
  key_id = 0;
  key_name = "";
}

abbrev pub event_of : Luck → EventType → KeyRecord → Identity → AuthEvent
event_of luck event_type key actor = record {
  timestamp = luck.now;
  event_type = event_type;
  key_id = key.id;
  key_name = key.name;
  actor = actor;
}

-- A failed write is only logged.
abbrev pub write_auth_event : Luck → AuthEvent → List AuthEvent → List AuthEvent
write_auth_event luck e events = if luck.audit then events ++ e ∷ [] else events

-- The audit event of a creation, for the newest key of the name.
abbrev pub audit_creation :
    Luck → Identity → Result Error KeyRecord → List AuthEvent → List AuthEvent
audit_creation luck actor (err _) events = events
audit_creation luck actor (ok key) events =
    write_auth_event luck (event_of luck api_key_created key actor) events

unfoldable pub list_keys_handler : Bool → Store → Response
list_keys_handler up s = elim (list up s) [ err _ ↦ fails 500 | ok items ↦ succeeds (keys items) ]

module _ (env : Env) where
  abbrev pub after_create :
      Luck
      → Identity
      → CreateKeyRequest
      → String
      → List AuthEvent
      → Result Error (Unit {0}) × Store
      → Response × World
  after_create luck actor req raw_key events (err _, s) =
      (fails 500, record { store = s; events = events })
  after_create luck actor req raw_key events (ok _, s) = (
    succeeds (created req.name raw_key),
    record {
      store = s;
      events = audit_creation luck actor (find_by_name luck.second req.name s) events;
    },
  )

  -- `none` is a missing identity, a body that does not decode, and a failed GenerateRawKey.
  unfoldable pub create_key_handler :
      Luck → Option Identity → Option CreateKeyRequest → World → Response × World
  unfolding expiry
  create_key_handler luck none body w = (fails 401, w)
  create_key_handler luck (some actor) none w = (fails 400, w)
  create_key_handler luck (some actor) (some req) w = elim luck.raw_key [
    | none ↦ (fails 500, w)
    | some raw_key ↦ after_create luck actor req raw_key w.events (
        create env luck.first luck.now req.name raw_key (requested req)
          (expiry luck.now req.expires_in) w.store)
  ]

  abbrev pub after_revoke :
      Luck
      → Identity
      → ℕ
      → KeyRecord
      → List AuthEvent
      → Result Error (Unit {0}) × Store
      → Response × World
  after_revoke luck actor id key events (err _, s) =
      (fails 404, record { store = s; events = events })
  after_revoke luck actor id key events (ok _, s) = (
    succeeds (revoked id),
    record {
      store = s;
      events = write_auth_event luck (event_of luck api_key_revoked key actor) events;
    },
  )

  abbrev pub revoke_found : Luck → Identity → ℕ → Result Error KeyRecord → World → Response × World
  revoke_found luck actor id (err _) w = (fails 404, w)
  revoke_found luck actor id (ok key) w =
      after_revoke luck actor id key w.events (revoke_by_id env luck.second luck.now id w.store)

  -- `none` is a missing identity, and a path value that is no number.
  unfoldable pub revoke_key_handler : Luck → Option Identity → Option ℕ → World → Response × World
  revoke_key_handler luck none path_id w = (fails 401, w)
  revoke_key_handler luck (some actor) none w = (fails 400, w)
  revoke_key_handler luck (some actor) (some id) w =
      revoke_found luck actor id (find_by_id luck.first id w.store) w
