-- ===== src/Async/Tests.antt =====
-- Runs of the asynchronous audit repository, and its theorems at them.
use mathlib.Core.List.{Sublist}
use sentrymesh.Base.{ℕ, suc, length, ◌≡◌, refl, arith, List, [], ◌∷◌, true, false}
use sentrymesh.Async.{
  AsyncOptions, waiting, finished, persisting, AsyncRepository, Action, writes, closes, receives,
  stops, attempts, new_async, write, close, collect, receive, tick, stop, write_batch, write_each,
  attempt, step, run, accepted,
}
use sentrymesh.Async.Closing.{drain_actions, close_finishes}
use sentrymesh.Async.Delivery.{contents, run_loses_none, retry_repeats}
use sentrymesh.Async.Queue.{IsSound}
use sentrymesh.Async.Drain.{new_async-IsSound, run-IsSound}

abbrev small : AsyncOptions
small = record { queue_size = 2; batch_size = 2 }

-- Three events, one write that waits, a failed attempt, a close, and the drain.
abbrev day : List (Action ℕ)
day =
    writes 1
    ∷ writes 2
    ∷ writes 3
    ∷ receives
    ∷ writes 3
    ∷ receives
    ∷ attempts []
    ∷ attempts (true ∷ [])
    ∷ closes
    ∷ writes 4
    ∷ stops
    ∷ receives
    ∷ receives
    ∷ attempts (true ∷ [])
    ∷ []

day_lem : accepted ℕ day (new_async ℕ small true) ≡ 1 ∷ 2 ∷ 3 ∷ []
unfolding accepted step write close collect receive tick stop attempt write_batch
day_lem = refl

-- The same day over a store that fails the last batch after it wrote an event of it.
abbrev bad_day : List (Action ℕ)
bad_day = writes 1 ∷ writes 2 ∷ receives ∷ receives ∷ attempts (false ∷ true ∷ []) ∷ writes 3 ∷ []

bad_day_lem : contents (run ℕ bad_day (new_async ℕ small true)) ≡ 1 ∷ 1 ∷ 2 ∷ 3 ∷ []
unfolding run step write receive collect attempt write_batch write_each
bad_day_lem = refl

run_loses_none_example :
    Sublist
      (accepted ℕ bad_day (new_async ℕ small true))
      (contents (run ℕ bad_day (new_async ℕ small true)))
run_loses_none_example = run_loses_none bad_day (new_async ℕ small true)

run-IsSound_example : IsSound (run ℕ day (new_async ℕ small true))
run-IsSound_example =
    run-IsSound day (new_async ℕ small true) (omega arith)
      (new_async-IsSound small true (omega arith))

abbrev busy : AsyncRepository ℕ
busy = record (new_async ℕ small false) { batch = 1 ∷ 2 ∷ []; phase = persisting waiting }

retry_repeats_example :
    (attempt ℕ (true ∷ true ∷ []) (attempt ℕ (true ∷ []) busy)).written ≡ 1 ∷ 1 ∷ 2 ∷ []
retry_repeats_example = retry_repeats busy waiting (1 ∷ []) [] 2 refl refl refl

-- Two events in the queue, when Close is called.
abbrev idle : AsyncRepository ℕ
idle = record (new_async ℕ small true) { queue = 1 ∷ 2 ∷ [] }

close_finishes_example :
    (run ℕ (closes ∷ stops ∷ drain_actions (suc (length idle.queue))) idle).phase ≡ finished
close_finishes_example = close_finishes idle refl refl
