-- ===== src/Async/Failing.antt =====
-- gateway/internal/audit/failing.go: the repository that injects failures, as a store of the queue.
use sentrymesh.Base.{◌≡◌, ◌≢◌, refl, sym, Bool, true, false, List, [], ◌∷◌, if◌then◌else◌}
use sentrymesh.Async.{write_each, write_batch}
use sentrymesh.Async.Delivery.{write_each-done}

module _ {ℓ} (Event : Type ℓ) where
  -- `FailWrites`, whether the store within is a BatchWriter, and its answers.
  unfoldable pub failing_write_batch : Bool → Bool → List Bool → List Event → Bool × List Event
  failing_write_batch fail_writes atomic answers events =
      if fail_writes then (false, []) else write_batch Event atomic answers events

module _ {ℓ} {Event : Type ℓ} where
  paired : (r : Bool × List Event) {b : Bool} {l : List Event} → r.0 ≡ b → r.1 ≡ l → r ≡ (b, l)
  paired r h k = rw (sym h, sym k) refl

  split_call :
      (b : Bool) (answers : List Bool) (events : List Event)
      → events ≢ []
      → (write_each Event answers events).0 ≡ b
      → (given : List Bool) × (write_batch Event true given events
          ≡ write_each Event answers events)
  unfolding write_batch
  split_call b answers [] some_event h = absurd (some_event refl)
  split_call true answers (e ∷ events) some_event h = (
    true ∷ [],
    sym (paired (write_each Event answers (e ∷ events)) h (write_each-done answers (e ∷ events) h)),
  )
  split_call false answers (e ∷ events) some_event h =
      (false ∷ answers, sym (paired (write_each Event answers (e ∷ events)) h refl))

  -- FailingRepository is a BatchWriter. What it does with a batch that is not empty, over a store
  -- with or without WriteBatch, is what a BatchWriter of the queue may do.
  pub failing_write_batch-answers :
      (fail_writes atomic : Bool) (answers : List Bool) (events : List Event)
      → events ≢ []
      → (given : List Bool) × (write_batch Event true given events
          ≡ failing_write_batch Event fail_writes atomic answers events)
  unfolding failing_write_batch write_batch
  failing_write_batch-answers true atomic answers [] some_event = absurd (some_event refl)
  failing_write_batch-answers true atomic answers (e ∷ events) some_event = ([], refl)
  failing_write_batch-answers false true answers events some_event = (answers, refl)
  failing_write_batch-answers false false answers events some_event =
      split_call _ answers events some_event refl
