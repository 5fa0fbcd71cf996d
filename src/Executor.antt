-- ===== src/Executor.antt =====
-- gateway/internal/executor/executor.go: the simulated execution of an approved tool call.
use sentrymesh.Base.{String, [], ◌∷◌, Bool, lookup, str_eq, if◌then◌else◌, Result, ok, err}
use sentrymesh.Json.{Arguments, text, as_string}

pub data Error : Type 0 where
  cancelled : Error  -- ctx.Err()
  no_executor : String → Error  -- "tool %q has no executor"

pub record Output : Type 0 where
  pub tool : String
  pub status : String
  pub output : Arguments

-- `cancelled` says whether `ctx.Done()` is closed when the call is made.
unfoldable pub execute : Bool → String → Arguments → Result Error Output
execute cancelled? tool arguments =
    if cancelled?
    then err cancelled
    else if str_eq tool "send_email"
    then ok (record {
      tool = tool;
      status = "EXECUTED";
      output =
          ("to", text (as_string (lookup "to" arguments)))
          ∷ ("subject", text (as_string (lookup "subject" arguments)))
          ∷ ("message", text "simulated email sent")
          ∷ [];
    })
    else if str_eq tool "update_customer"
    then ok (record {
      tool = tool;
      status = "EXECUTED";
      output =
          ("customer_id", text (as_string (lookup "customer_id" arguments)))
          ∷ ("message", text "simulated customer update applied")
          ∷ [];
    })
    else err (no_executor tool)
