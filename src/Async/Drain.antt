-- ===== src/Async/Drain.antt =====
-- The same over the attempts to persist a batch, over whole runs, and at the end of one
-- (gateway/internal/audit/async.go).
use sentrymesh.Base.{◌<◌, ◌≡◌, refl, sym, subst, arith, Bool, List, [], ◌∷◌, ◌++◌, if_elim}
use sentrymesh.Async.{
  AsyncOptions, Phase, waiting, draining, finished, persisting, AsyncRepository, Action, writes,
  closes, ticks, receives, stops, attempts, new_async, write, close, collect, receive, tick, stop,
  write_batch, attempt, step, run,
}
use sentrymesh.Async.Queue.{
  FitsNext, FitsPhase, IsSound, write-IsSound, close-IsSound, receive_from, tick_in, stop_in,
}

module _ {Event : Type 0} where
  -- A state with the batch written, and one in which an attempt left only a part of it.
  settled-FitsPhase :
      (p : Phase) (w : List Event) (a : AsyncRepository Event)
      → FitsPhase p a
      → FitsPhase p (record a { written = w })
  settled-FitsPhase waiting w a h = h
  settled-FitsPhase draining w a h = h
  settled-FitsPhase finished w a h = h
  settled-FitsPhase (persisting waiting) w a h = h
  settled-FitsPhase (persisting draining) w a h = h
  settled-FitsPhase (persisting finished) w a h = h
  settled-FitsPhase (persisting (persisting q)) w a h = h

  emptied-FitsPhase :
      (p : Phase) (a : AsyncRepository Event)
      → 0 < a.options.batch_size
      → FitsNext p a
      → FitsPhase p (record a { batch = []; phase = p })
  emptied-FitsPhase waiting a pos f = pos
  emptied-FitsPhase draining a pos f = (f, pos)
  emptied-FitsPhase finished a pos f = (f.0, f.1, refl)
  emptied-FitsPhase (persisting _) a pos f = elim f [ ]

  attempt_in :
      (p : Phase) (answers : List Bool) (a : AsyncRepository Event)
      → 0 < a.options.batch_size
      → IsSound (record a { phase = p })
      → IsSound (attempt Event answers (record a { phase = p }))
  unfolding attempt
  attempt_in waiting answers a pos s = s
  attempt_in draining answers a pos s = s
  attempt_in finished answers a pos s = s
  attempt_in (persisting p) answers a pos s =
      let result = write_batch Event a.atomic answers a.batch in
      let w = a.written ++ result.1 in
      if_elim IsSound result.0
        (λ h. record {
          fits =
              settled-FitsPhase p w (record a { batch = []; phase = p })
                (emptied-FitsPhase p (record a { phase = persisting p }) pos s.fits.1);
          bounded = s.bounded;
        })
        (λ h. record {
          fits = settled-FitsPhase (persisting p) w (record a { phase = persisting p }) s.fits;
          bounded = s.bounded;
        })

  step-IsSound :
      (o : Action Event) (a : AsyncRepository Event)
      → 0 < a.options.batch_size
      → IsSound a
      → IsSound (step Event o a)
  unfolding step
  step-IsSound (writes e) a pos s = write-IsSound e a s
  step-IsSound closes a pos s = close-IsSound a s
  step-IsSound ticks a pos s = tick_in a.phase a pos s
  step-IsSound receives a pos s = receive_from a.queue a.phase a pos s
  step-IsSound stops a pos s = stop_in a.phase a.closed a s
  step-IsSound (attempts answers) a pos s = attempt_in a.phase answers a pos s

  step-options :
      (o : Action Event) (a : AsyncRepository Event) → (step Event o a).options ≡ a.options
  unfolding step write close tick receive collect stop attempt
  step-options (writes e) a = ground arith
  step-options closes a = refl
  step-options ticks a = ground arith
  step-options receives a = ground arith
  step-options stops a = ground arith
  step-options (attempts answers) a = ground arith

  -- In every run from a sound state, with a batch size above 0, the queue stays within its capacity
  -- and the batch within its size, whatever the store answers; the goroutine drains only a closed
  -- repository, and it only ends on a closed one with nothing left in the queue or the batch.
  pub run-IsSound :
      (os : List (Action Event)) (a : AsyncRepository Event)
      → 0 < a.options.batch_size
      → IsSound a
      → IsSound (run Event os a)
  unfolding run
  run-IsSound [] a pos s = s
  run-IsSound (o ∷ os) a pos s =
      run-IsSound os (step Event o a) (subst (λ x. 0 < x.batch_size) (sym (step-options o a)) pos)
        (step-IsSound o a pos s)

  pub new_async-IsSound :
      (options : AsyncOptions) (atomic : Bool)
      → 0 < options.batch_size
      → IsSound (new_async Event options atomic)
  new_async-IsSound options atomic pos = record { fits = pos; bounded = omega arith }
