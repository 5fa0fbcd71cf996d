-- ===== src/Approval/Tests.antt =====
-- Runs of the approval store, and its theorems at concrete tables.
use mathlib.Core.List.{Perm}
use sentrymesh.Base.{◌≡◌, refl, ◌↔◌, true, List, [], ◌∷◌, none, some, ok, filter, map}
use sentrymesh.Tools.{external_needs_approval}
use sentrymesh.Sql.{affected, update_rows}
use sentrymesh.Sql.Order.{IsDesc}
use sentrymesh.Approval.{
  Codec, approved, executed, Request, Store, new_store, new_request, create, insert_row, find,
  set_status, claim_execution, finish_execution, fail_execution, list_active,
}
use sentrymesh.Approval.Postgres.{Jsonb}
use sentrymesh.Approval.Calls
use sentrymesh.Approval.Agreement.{answers_postgres-agree}
use sentrymesh.Approval.Lifecycle.{
  key, Inv, new_store-Inv, Op, creates, resolves, claims, finishes, fails, approve, reject, step,
  run, Moves, step-Moves, run-Inv,
}
use sentrymesh.Approval.Listing.{is_open, list_active-open}
use sentrymesh.Approval.Races.{claim_execution_iff}

abbrev plain : Codec
plain = record { marshal = λ a. some "{}"; unmarshal = λ s. some [] }

abbrev mail : Op
mail = creates plain true 5 "send_email" [] 60 external_needs_approval

-- A pending request under id 1, then an approved one, then an executed one.
abbrev held : Store
held = run new_store (mail ∷ [])

abbrev granted : Store
granted = run new_store (mail ∷ resolves true 1 approve ∷ [])

abbrev performed : List Op
performed =
    mail
    ∷ resolves true 1 approve
    ∷ claims true 1
    ∷ fails true 1
    ∷ claims true 1
    ∷ finishes true 9 1
    ∷ []

abbrev done : Request
done = record (new_request 1 5 "send_email" "{}" 60 external_needs_approval) {
  status = executed;
  executed_at = some 9;
}

performed_lem : find 1 (run new_store performed).rows ≡ some done
unfolding run step new_store create find set_status claim_execution finish_execution fail_execution
    update_rows
performed_lem = refl

history-Inv : (os : List Op) → Inv (run new_store os)
history-Inv os = run-Inv new_store os new_store-Inv

step-Moves_example : Moves (find 1 held.rows) (find 1 (step held (resolves true 1 reject)).rows)
step-Moves_example = step-Moves held (resolves true 1 reject) 1 (history-Inv (mail ∷ []))

list_active-open_example :
    (l : List Request) × (list_active true held ≡ ok l)
    × IsDesc key l
    × Perm l (filter is_open held.rows)
list_active-open_example = list_active-open held (history-Inv (mail ∷ []))

approved_once : (set_status true 1 approved held).0 ≡ ok tt
unfolding run step new_store create find set_status affected
approved_once = refl

claim_execution_iff_example : ((claim_execution true 1 granted).0 ≡ ok true) ↔ (
    (r : Request) × (find 1 granted.rows ≡ some r) × (r.status ≡ approved) × (r.executed_at ≡ none))
claim_execution_iff_example =
    claim_execution_iff 1 granted (history-Inv (mail ∷ resolves true 1 approve ∷ []))

claimed_once : (claim_execution true 1 granted).0 ≡ ok true
unfolding run step new_store create find set_status claim_execution affected update_rows
claimed_once = refl

-- Columns that take every text and keep it.
abbrev verbatim : Jsonb
verbatim = record { accepts = λ s. true; canon = λ s. s }

abbrev story : List Calls.Call
story =
    Calls.creates true 5 "send_email" [] 60 external_needs_approval
    ∷ Calls.resolves true 1 approved
    ∷ Calls.claims true 1
    ∷ Calls.finishes true 9 1
    ∷ Calls.lists_active true
    ∷ []

answers_postgres-agree_example :
    Calls.answers_postgres plain verbatim (Calls.stored plain verbatim new_store) story
    ≡ map (Calls.reread plain verbatim) (Calls.answers plain verbatim new_store story)
unfolding Calls.serve create new_store set_status claim_execution finish_execution update_rows
    affected insert_row
answers_postgres-agree_example =
    answers_postgres-agree plain verbatim new_store story
      ((λ doc e. refl), (tt, (tt, (refl, (tt, tt)))))
