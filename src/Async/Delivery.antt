-- ===== src/Async/Delivery.antt =====
-- What reaches the audit store of the events that were acknowledged
-- (gateway/internal/audit/async.go and batch.go).
use mathlib.Core.List.{Sublist, append-nil, append_assoc, sublist-append_left}
use mathlib.Core.List.Sublist
use sentrymesh.Base.{
  ◌≡◌, refl, sym, ap, subst, All, ◌∙◌, arith, Bool, true, false, List, [], ◌∷◌, ◌++◌, length, map,
  is_empty, ltb, leb, if◌then◌else◌, if_elim, Bool-cases, inl, inr,
}
use sentrymesh.Async.{
  Phase, waiting, draining, finished, persisting, AsyncRepository, Action, writes, closes, ticks,
  receives, stops, attempts, write, close, flush, collect, receive, tick, stop, write_each,
  write_batch, attempt, step, run, acknowledged, accepted,
}

module _ {ℓ} {Event : Type ℓ} where
  -- All events that the repository holds, in the order in which they came.
  abbrev pub contents : AsyncRepository Event → List Event
  contents a = a.written ++ (a.batch ++ a.queue)

  shift : (xs ys : List Event) (e : Event) → xs ++ (e ∷ ys) ≡ (xs ++ (e ∷ [])) ++ ys
  shift [] ys e = refl
  shift (x ∷ xs) ys e = ap (λ r. x ∷ r) (shift xs ys e)

  flush-contents : (p : Phase) (a : AsyncRepository Event) → contents (flush Event p a) ≡ contents a
  flush-contents p a =
      if_elim (λ (x : AsyncRepository Event). contents x ≡ contents a) (is_empty a.batch)
        (λ e. refl) (λ e. refl)

  collect-contents :
      (e : Event) (rest : List Event) (a : AsyncRepository Event)
      → contents (collect Event e rest a) ≡ a.written ++ (a.batch ++ (e ∷ rest))
  unfolding collect
  collect-contents e rest a =
      let a' = record a { queue = rest; batch = a.batch ++ e ∷ [] } in
      let moved : contents a' ≡ a.written ++ (a.batch ++ (e ∷ rest)) =
        ap (λ r. a.written ++ r) (sym (shift a.batch rest e)) in
      if_elim (λ (x : AsyncRepository Event). contents x ≡ a.written ++ (a.batch ++ (e ∷ rest)))
        (leb a.options.batch_size (length a'.batch)) (λ h. flush-contents a.phase a' ∙ moved)
        (λ h. moved)

  receive_from :
      (q : List Event) (p : Phase) (a : AsyncRepository Event)
      → contents (receive Event (record a { queue = q; phase = p })) ≡ a.written ++ (a.batch ++ q)
  unfolding receive
  receive_from [] waiting a = refl
  receive_from [] draining a = flush-contents finished (record a { queue = []; phase = draining })
  receive_from [] finished a = refl
  receive_from [] (persisting p) a = refl
  receive_from (e ∷ q) waiting a =
      collect-contents e q (record a { queue = e ∷ q; phase = waiting })
  receive_from (e ∷ q) draining a =
      collect-contents e q (record a { queue = e ∷ q; phase = draining })
  receive_from (e ∷ q) finished a = refl
  receive_from (e ∷ q) (persisting p) a = refl

  write-contents :
      (e : Event) (a : AsyncRepository Event)
      → contents (write Event e a) ≡ contents a ++ acknowledged Event (writes e) a
  unfolding write
  write-contents e a = elim (Bool-cases a.closed) [
    | inl shut ↦ rw shut (sym (append-nil (contents a)))
    | inr is_open ↦ elim (Bool-cases (ltb (length a.queue) a.options.queue_size)) [
      | inl room ↦
          rw (is_open, room)
            (sym (
              append_assoc a.written (a.batch ++ a.queue) (e ∷ [])
              ∙ ap (λ r. a.written ++ r) (append_assoc a.batch a.queue (e ∷ []))))
      | inr full ↦ rw (is_open, full) (sym (append-nil (contents a)))
    ]
  ]

  -- A call of the store writes the whole batch, or fails and writes nothing.
  abbrev pub IsAtomic : Bool → Action Event → Type ℓ
  IsAtomic atomic (attempts answers) =
      (events : List Event)
      → (write_batch Event atomic answers events).1
        ≡ (if (write_batch Event atomic answers events).0 then events else [])
  IsAtomic atomic _ = Unit

  attempt_in :
      (p : Phase) (answers : List Bool) (a : AsyncRepository Event)
      → IsAtomic a.atomic (attempts answers)
      → contents (attempt Event answers (record a { phase = p })) ≡ contents a
  unfolding attempt
  attempt_in (persisting p) answers a clean =
      let result = write_batch Event a.atomic answers a.batch in
      whole result.0 result.1 (clean a.batch)
    where
      whole :
          (b : Bool) (w : List Event)
          → w ≡ (if b then a.batch else [])
          → let a' = record a { written = a.written ++ w; phase = persisting p } in
            contents (if b then record a' { batch = []; phase = p } else a') ≡ contents a
      whole true w e = append_assoc a.written w a.queue ∙ ap (λ r. a.written ++ (r ++ a.queue)) e
      whole false w e =
          ap (λ r. r ++ (a.batch ++ a.queue)) (ap (λ r. a.written ++ r) e ∙ append-nil a.written)
  attempt_in waiting answers a clean = refl
  attempt_in draining answers a clean = refl
  attempt_in finished answers a clean = refl

  tick_in :
      (p : Phase) (a : AsyncRepository Event)
      → contents (tick Event (record a { phase = p })) ≡ contents a
  unfolding tick
  tick_in waiting a = flush-contents waiting (record a { phase = waiting })
  tick_in draining a = refl
  tick_in finished a = refl
  tick_in (persisting p) a = refl

  stop_in :
      (p : Phase) (shut : Bool) (a : AsyncRepository Event)
      → contents (stop Event (record a { phase = p; closed = shut })) ≡ contents a
  unfolding stop
  stop_in p false a = refl
  stop_in waiting true a = refl
  stop_in draining true a = refl
  stop_in finished true a = refl
  stop_in (persisting p) true a = refl

  step-contents :
      (o : Action Event) (a : AsyncRepository Event)
      → IsAtomic a.atomic o
      → contents (step Event o a) ≡ contents a ++ acknowledged Event o a
  unfolding step close tick stop
  step-contents (writes e) a clean = write-contents e a
  step-contents closes a clean = sym (append-nil (contents a))
  step-contents ticks a clean = tick_in a.phase a ∙ sym (append-nil (contents a))
  step-contents receives a clean = receive_from a.queue a.phase a ∙ sym (append-nil (contents a))
  step-contents stops a clean = stop_in a.phase a.closed a ∙ sym (append-nil (contents a))
  step-contents (attempts answers) a clean =
      attempt_in a.phase answers a clean ∙ sym (append-nil (contents a))

  step-atomic : (o : Action Event) (a : AsyncRepository Event) → (step Event o a).atomic ≡ a.atomic
  unfolding step write close tick receive collect stop attempt
  step-atomic (writes e) a = ground arith
  step-atomic closes a = refl
  step-atomic ticks a = ground arith
  step-atomic receives a = ground arith
  step-atomic stops a = ground arith
  step-atomic (attempts answers) a = ground arith

  -- When each call of the store writes the whole batch or nothing, what the store, the batch and the
  -- queue hold after a run is what they held before, followed by the events that Write acknowledged.
  pub run-contents :
      (os : List (Action Event)) (a : AsyncRepository Event)
      → All (IsAtomic a.atomic) os
      → contents (run Event os a) ≡ contents a ++ accepted Event os a
  unfolding run accepted
  run-contents [] a clean = sym (append-nil (contents a))
  run-contents (o ∷ os) a clean =
      run-contents os (step Event o a)
        (subst (λ b. All (IsAtomic b) os) (sym (step-atomic o a)) clean.1)
      ∙ ap (λ r. r ++ accepted Event os (step Event o a)) (step-contents o a clean.0)
      ∙ append_assoc (contents a) (acknowledged Event o a) (accepted Event os (step Event o a))

  -- A call that succeeds has written all events, over any store.
  pub write_each-done :
      (answers : List Bool) (events : List Event)
      → (write_each Event answers events).0 ≡ true
      → (write_each Event answers events).1 ≡ events
  unfolding write_each
  write_each-done answers [] h = refl
  write_each-done [] (e ∷ events) h = cc
  write_each-done (false ∷ answers) (e ∷ events) h = cc
  write_each-done (true ∷ answers) (e ∷ events) h =
      ap (λ r. e ∷ r) (write_each-done answers events h)

  write_batch-done :
      (atomic : Bool) (answers : List Bool) (events : List Event)
      → (write_batch Event atomic answers events).0 ≡ true
      → (write_batch Event atomic answers events).1 ≡ events
  unfolding write_batch write_each
  write_batch-done true [] [] h = refl
  write_batch-done true [] (e ∷ events) h = cc
  write_batch-done true (true ∷ kept) events h = refl
  write_batch-done true (false ∷ kept) [] h = refl
  write_batch-done true (false ∷ kept) (e ∷ events) h = cc
  write_batch-done false answers events h = write_each-done answers events h

  attempt-Sublist :
      (p : Phase) (answers : List Bool) (a : AsyncRepository Event)
      → Sublist (contents a) (contents (attempt Event answers (record a { phase = p })))
  unfolding attempt
  attempt-Sublist waiting answers a = Sublist.refl _
  attempt-Sublist draining answers a = Sublist.refl _
  attempt-Sublist finished answers a = Sublist.refl _
  attempt-Sublist (persisting p) answers a =
      let result = write_batch Event a.atomic answers a.batch in
      if_elim (λ (x : AsyncRepository Event). Sublist (contents a) (contents x)) result.0
        (λ done.
          subst (λ r. Sublist (contents a) r)
            (sym (
              append_assoc a.written result.1 a.queue
              ∙ ap (λ r. a.written ++ (r ++ a.queue))
                  (write_batch-done a.atomic answers a.batch done)))
            (Sublist.refl (contents a)))
        (λ failed.
          Sublist.append (sublist-append_left a.written result.1)
            (Sublist.refl (a.batch ++ a.queue)))

  calm :
      (o : Action Event) (a : AsyncRepository Event)
      → contents (step Event o a) ≡ contents a ++ acknowledged Event o a
      → Sublist (contents a ++ acknowledged Event o a) (contents (step Event o a))
  calm o a e = subst (λ l. Sublist l (contents (step Event o a))) e (Sublist.refl _)

  step-Sublist :
      (o : Action Event) (a : AsyncRepository Event)
      → Sublist (contents a ++ acknowledged Event o a) (contents (step Event o a))
  unfolding step
  step-Sublist (attempts answers) a =
      subst (λ l. Sublist l (contents (attempt Event answers a))) (sym (append-nil (contents a)))
        (attempt-Sublist a.phase answers a)
  step-Sublist (writes e) a = calm (writes e) a (step-contents (writes e) a tt)
  step-Sublist closes a = calm closes a (step-contents closes a tt)
  step-Sublist ticks a = calm ticks a (step-contents ticks a tt)
  step-Sublist receives a = calm receives a (step-contents receives a tt)
  step-Sublist stops a = calm stops a (step-contents stops a tt)

  -- Over any store, whatever calls fail and whatever a failed call leaves behind: what the store, the
  -- batch and the queue held before a run, followed by the events that Write acknowledged in it, is a
  -- subsequence of what they hold after it: no event is lost, and their order is kept.
  pub run_loses_none :
      (os : List (Action Event)) (a : AsyncRepository Event)
      → Sublist (contents a ++ accepted Event os a) (contents (run Event os a))
  unfolding run accepted
  run_loses_none [] a =
      subst (λ l. Sublist l (contents a)) (sym (append-nil (contents a))) (Sublist.refl _)
  run_loses_none (o ∷ os) a =
      let later = accepted Event os (step Event o a) in
      subst (λ l. Sublist l (contents (run Event os (step Event o a))))
        (append_assoc (contents a) (acknowledged Event o a) later)
        (Sublist.trans (Sublist.append (step-Sublist o a) (Sublist.refl later))
          (run_loses_none os (step Event o a)))

  -- One call of Write per event, with a failure after the first of a batch.
  write_each-prefix :
      (first rest : List Event) (e : Event)
      → write_each Event (map (λ x. true) first) (first ++ (e ∷ rest)) ≡ (false, first)
  unfolding write_each
  write_each-prefix [] rest e = refl
  write_each-prefix (x ∷ first) rest e = rw (write_each-prefix first rest e) refl

  write_each-all :
      (events : List Event) → write_each Event (map (λ x. true) events) events ≡ (true, events)
  unfolding write_each
  write_each-all [] = refl
  write_each-all (x ∷ events) = rw (write_each-all events) refl

  -- Over a store that is no BatchWriter, a retry writes again what the failed attempt had written:
  -- when an attempt writes the first events of the batch and fails at the next one, and the next
  -- attempt succeeds, the store has those first events twice.
  pub retry_repeats :
      (a : AsyncRepository Event) (p : Phase) (first rest : List Event) (e : Event)
      → a.atomic ≡ false
      → a.phase ≡ persisting p
      → a.batch ≡ first ++ (e ∷ rest)
      → (attempt Event (map (λ x. true) a.batch) (attempt Event (map (λ x. true) first) a)).written
        ≡ a.written ++ (first ++ (first ++ (e ∷ rest)))
  unfolding attempt write_batch
  retry_repeats a p first rest e single busy held =
      rw (busy, single, held, write_each-prefix first rest e, write_each-all (first ++ (e ∷ rest)))
        (append_assoc a.written first (first ++ (e ∷ rest)))
