-- ===== src/Execution/Tests.antt =====
-- Runs of the execute handler, alone and interleaved, and its theorems at concrete states.
use sentrymesh.Base.{ℕ, ◌≤◌, ◌≡◌, refl, ◌≢◌, arith, true, false, List, [], ◌∷◌, none, some, ok}
use sentrymesh.Identity.{Identity, admin}
use sentrymesh.Executor.{Output, execute}
use sentrymesh.Tools.{external_needs_approval}
use sentrymesh.Sql.{affected, update_rows}
use sentrymesh.Approval.{
  Codec, approved, executing, executed, Request, new_store, new_request, create, find, get,
  set_status, claim_execution, fail_execution,
}
use sentrymesh.Approval.Lifecycle.{
  Inv, Op, creates, resolves, approve, run, step, run-Inv, new_store-Inv,
}
use sentrymesh.Execution.{
  Env, World, Call, entry, started, responded, enter, check_item, run_tool, advance,
}
use sentrymesh.Execution.System.{System, turn, other, creation, resolution, Reach, start, later}
use sentrymesh.Execution.Turns.{status_at, holds}
use sentrymesh.Execution.Invariant.{count_runs}
use sentrymesh.Execution.Safety.{runs_at_most_once, claims_exclusive, WasApproved, run-WasApproved}
use sentrymesh.Execution.Orphans.{
  IsOrphan, here, next, IsOrphan-stays, cancelled_strands, executing_conflict,
}
use sentrymesh.Execution.Handler.{
  drive, all_in, call_by, handler_executes, Refused, handler_refuses,
}

abbrev plain : Codec
plain = record { marshal = λ a. some "{}"; unmarshal = λ s. some [] }

abbrev fine : Env
fine = record { cancelled = false; db = true; audit = true; now = 40 }

abbrev cut : Env
cut = record { cancelled = true; db = true; audit = true; now = 41 }

abbrev root : Identity
root = record {
  user_id = "u_0";
  role = admin;
  team = "security";
  scopes = [];
  key_id = 1;
  key_name = "root";
}

abbrev mail : Op
mail = creates plain true 5 "send_email" [] 60 external_needs_approval

abbrev granted : List Op
granted = mail ∷ resolves true 1 approve ∷ []

abbrev world_after : List Op → World
world_after os = record { store = run new_store os; events = []; runs = [] }

abbrev item : Request
item = record (new_request 1 5 "send_email" "{}" 60 external_needs_approval) { status = approved }

item_found : find 1 (run new_store granted).rows ≡ some item
unfolding run step new_store create find set_status update_rows
item_found = refl

granted-Inv : Inv (run new_store granted)
granted-Inv = run-Inv new_store granted new_store-Inv

result_of : (o : Output) × (execute false "send_email" [] ≡ ok o)
unfolding execute
result_of = (_, refl)

handler_executes_example :
    let (w', p') = drive plain (call_by root 1) (all_in fine) (world_after granted) entry in
    (p' ≡ responded 200)
    × (w'.runs ≡ 1 ∷ [])
    × (find 1 w'.store.rows ≡ some (record item { status = executed; executed_at = some 40 }))
handler_executes_example =
    handler_executes plain fine root 1 item [] result_of.0 (world_after granted) granted-Inv refl
      refl item_found refl refl refl result_of.1

none_at_2 : find 2 (run new_store granted).rows ≡ none
unfolding run step new_store create find set_status update_rows
none_at_2 = refl

handler_refuses_example :
    ((drive plain (call_by root 2) (fine ∷ []) (world_after granted) entry).0 ≡ world_after granted)
    × Refused (drive plain (call_by root 2) (fine ∷ []) (world_after granted) entry).1
unfolding run step new_store create find set_status update_rows
handler_refuses_example =
    handler_refuses plain (call_by root 2) fine [] (world_after granted)
      (λ id q e f. absurd (no_row id q e f))
  where
    no_row :
        (id : ℕ) (q : Request)
        → some 2 ≡ some id
        → find id (run new_store granted).rows ≡ some q
        → ⊥
    no_row id q e f = ground (arith, none_at_2)

abbrev calls : ℕ → Call
calls i = call_by root 1

-- Handlers 0 and 1 race for request 1; 0 wins the claim and runs the tool.
raced :
    (s : System) × Reach plain calls s × (count_runs 1 s.world.runs ≡ 1) × (holds (s.pc 0) ≡ some 1)
unfolding advance enter check_item run_tool run step new_store create find get set_status
    claim_execution update_rows affected execute
raced = (
  _,
  later
      (later
        (later
          (later
            (later
              (later
                (later
                  (later start
                    (other (creation plain true 5 "send_email" [] 60 external_needs_approval)))
                  (other (resolution true 1 approve)))
                (turn 0 fine))
              (turn 1 fine))
            (turn 0 fine))
          (turn 1 fine))
        (turn 0 fine))
      (turn 0 fine),
  refl,
  refl,
)

runs_at_most_once_example : count_runs 1 raced.0.world.runs ≤ 1
runs_at_most_once_example = runs_at_most_once raced.1 1

raced_ran : count_runs 1 raced.0.world.runs ≢ 0
raced_ran e = omega (arith, raced.2)

run-WasApproved_example : WasApproved plain calls 1 raced.0 raced.1
run-WasApproved_example = run-WasApproved raced.1 1 raced_ran

-- Handler 0 is cancelled between its claim and the run of the tool.
stranded :
    (s : System) × Reach plain calls s
    × (status_at 1 s.world.store ≡ some executing)
    × ((i : ℕ) → holds (s.pc i) ≢ some 1)
unfolding advance enter check_item run_tool run step new_store create find get set_status
    claim_execution update_rows affected execute fail_execution
stranded = (
  _,
  later
      (later
        (later
          (later
            (later
              (later
                (later start
                  (other (creation plain true 5 "send_email" [] 60 external_needs_approval)))
                (other (resolution true 1 approve)))
              (turn 0 fine))
            (turn 0 fine))
          (turn 0 fine))
        (turn 0 cut))
      (turn 0 cut),
  refl,
  λ i h. ground arith,
)

IsOrphan-stays_example : IsOrphan 1 (record (stranded.0) {
  world = record (stranded.0.world) {
    store = step stranded.0.world.store (resolves true 1 approve);
  };
})
IsOrphan-stays_example =
    IsOrphan-stays 1 stranded.1 (stranded.2, stranded.3)
      (next here (other (resolution true 1 approve)))

cancelled_strands_example :
    let (w₁, p₁) = advance plain cut (call_by root 1) raced.0.world (started root 1 item) in
    let (w₂, p₂) = advance plain cut (call_by root 1) w₁ p₁ in
    (p₂ ≡ responded 500) × (status_at 1 w₂.store ≡ some executing) × (w₂.runs ≡ raced.0.world.runs)
cancelled_strands_example =
    cancelled_strands plain cut cut (call_by root 1) root 1 item raced.0.world refl refl
      (claims_exclusive raced.1 0 0 1 raced.3 raced.3).1

executing_conflict_example :
    enter fine (record { principal = some root; path_id = some 1 }) stranded.0.world ≡ responded 409
executing_conflict_example = executing_conflict fine root 1 stranded.0.world refl refl stranded.2
