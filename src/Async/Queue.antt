-- ===== src/Async/Queue.antt =====
-- What holds of the phases of the goroutine, the queue and the batch, over the steps of the
-- writers and of the select (gateway/internal/audit/async.go).
use sentrymesh.Base.{
  suc, ◌≤◌, ◌<◌, ◌≡◌, refl, sym, ◌∙◌, arith, Bool, true, false, List, [], ◌∷◌, ◌++◌, length,
  length-append, is_empty, ltb, leb, if_elim,
}
use mathlib.Core.Bool.{true≢false}
use sentrymesh.Async.{
  Phase, waiting, draining, finished, persisting, AsyncRepository, write, close, flush, collect,
  receive, tick, stop,
}

module _ {Event : Type 0} where
  -- What goes with a phase that a flush goes on to, and with the phase that the goroutine is in.
  abbrev pub FitsNext : Phase → AsyncRepository Event → Type 0
  FitsNext waiting a = Unit
  FitsNext draining a = a.closed ≡ true
  FitsNext finished a = (a.closed ≡ true) × (a.queue ≡ [])
  FitsNext (persisting p) a = ⊥

  abbrev pub FitsPhase : Phase → AsyncRepository Event → Type 0
  FitsPhase waiting a = length a.batch < a.options.batch_size
  FitsPhase draining a = (a.closed ≡ true) × (length a.batch < a.options.batch_size)
  FitsPhase finished a = (a.closed ≡ true) × (a.queue ≡ []) × (a.batch ≡ [])
  FitsPhase (persisting p) a = (length a.batch ≤ a.options.batch_size) × FitsNext p a

  -- The batch has room until it is persisted, the queue stays within its capacity, and the
  -- goroutine drains only a closed repository and leaves nothing behind.
  pub record IsSound (a : AsyncRepository Event) : Type 0 where
    pub fits : FitsPhase a.phase a
    pub bounded : length a.queue ≤ a.options.queue_size

  open-FitsNext :
      (p : Phase) (q : List Event) (a : AsyncRepository Event)
      → a.closed ≡ false
      → FitsNext p a
      → FitsNext p (record a { queue = q })
  open-FitsNext waiting q a is_open f = tt
  open-FitsNext draining q a is_open f = f
  open-FitsNext finished q a is_open f = absurd (true≢false (sym f.0 ∙ is_open))
  open-FitsNext (persisting _) q a is_open f = elim f [ ]

  open-FitsPhase :
      (p : Phase) (q : List Event) (a : AsyncRepository Event)
      → a.closed ≡ false
      → FitsPhase p a
      → FitsPhase p (record a { queue = q })
  open-FitsPhase waiting q a is_open f = f
  open-FitsPhase draining q a is_open f = f
  open-FitsPhase finished q a is_open f = absurd (true≢false (sym f.0 ∙ is_open))
  open-FitsPhase (persisting p) q a is_open f = (f.0, open-FitsNext p q a is_open f.1)

  pub write-IsSound :
      (e : Event) (a : AsyncRepository Event) → IsSound a → IsSound (write Event e a)
  unfolding write
  write-IsSound e a s =
      if_elim IsSound a.closed (λ h. s)
        (λ h.
          if_elim IsSound (ltb (length a.queue) a.options.queue_size)
            (λ room. record {
              fits = open-FitsPhase a.phase (a.queue ++ e ∷ []) a h s.fits;
              bounded = ground (arith, length-append a.queue (e ∷ []));
            })
            (λ full. s))

  close-FitsNext :
      (p : Phase) (a : AsyncRepository Event) → FitsNext p a → FitsNext p (close Event a)
  unfolding close
  close-FitsNext waiting a f = tt
  close-FitsNext draining a f = refl
  close-FitsNext finished a f = (refl, f.1)
  close-FitsNext (persisting _) a f = elim f [ ]

  pub close-IsSound : (a : AsyncRepository Event) → IsSound a → IsSound (close Event a)
  unfolding close
  close-IsSound a s = record { fits = go a.phase s.fits; bounded = s.bounded }
    where
      go : (p : Phase) → FitsPhase p a → FitsPhase p (close Event a)
      go waiting f = f
      go draining f = (refl, f.1)
      go finished f = (refl, f.1, f.2)
      go (persisting p) f = (f.0, close-FitsNext p a f.1)

  landed :
      (p : Phase) (a : AsyncRepository Event)
      → FitsNext p a
      → a.batch ≡ []
      → 0 < a.options.batch_size
      → FitsPhase p a
  landed waiting a f e pos = rw e pos
  landed draining a f e pos = (f, rw e pos)
  landed finished a f e pos = (f.0, f.1, e)
  landed (persisting _) a f e pos = elim f [ ]

  empty_lem : (events : List Event) → is_empty events ≡ true → events ≡ []
  empty_lem [] h = refl
  empty_lem (e ∷ events) h = cc

  -- A flush from a state that fits the phase to come.
  flush-IsSound :
      (p : Phase) (a : AsyncRepository Event)
      → length a.batch ≤ a.options.batch_size
      → FitsNext p a
      → 0 < a.options.batch_size
      → length a.queue ≤ a.options.queue_size
      → IsSound (flush Event p a)
  flush-IsSound p a small next pos bounded =
      if_elim IsSound (is_empty a.batch)
        (λ h. record {
          fits = moved p (landed p a next (empty_lem a.batch h) pos);
          bounded = bounded;
        })
        (λ h. record { fits = (small, kept p next); bounded = bounded })
    where
      moved : (q : Phase) → FitsPhase q a → FitsPhase q (record a { phase = p })
      moved waiting f = f
      moved draining f = f
      moved finished f = f
      moved (persisting waiting) f = f
      moved (persisting draining) f = f
      moved (persisting finished) f = f
      moved (persisting (persisting q)) f = f

      kept : (q : Phase) → FitsNext q a → FitsNext q (record a { phase = persisting p })
      kept waiting f = f
      kept draining f = f
      kept finished f = f
      kept (persisting q) f = f

  -- The oldest event moves from a non-empty queue into a batch that has room.
  abbrev moved_one : Event → List Event → AsyncRepository Event → AsyncRepository Event
  moved_one e rest a = record a { queue = rest; batch = a.batch ++ e ∷ [] }

  collect-IsSound :
      (e : Event) (rest : List Event) (a : AsyncRepository Event)
      → 0 < a.options.batch_size
      → suc (length rest) ≤ a.options.queue_size
      → length a.batch < a.options.batch_size
      → FitsNext a.phase (moved_one e rest a)
      → (length (a.batch ++ e ∷ []) < a.options.batch_size → FitsPhase a.phase (moved_one e rest a))
      → IsSound (collect Event e rest a)
  unfolding collect
  collect-IsSound e rest a pos bounded room next stays =
      if_elim IsSound (leb a.options.batch_size (length (a.batch ++ e ∷ [])))
        (λ full.
          flush-IsSound a.phase (moved_one e rest a)
            (ground (arith, length-append a.batch (e ∷ []))) next pos (omega (arith, bounded)))
        (λ less. record { fits = stays (ground arith); bounded = omega (arith, bounded) })

  pub receive_from :
      (q : List Event) (p : Phase) (a : AsyncRepository Event)
      → 0 < a.options.batch_size
      → IsSound (record a { queue = q; phase = p })
      → IsSound (receive Event (record a { queue = q; phase = p }))
  unfolding receive
  receive_from [] waiting a pos s = s
  receive_from [] draining a pos s =
      flush-IsSound finished (record a { queue = []; phase = draining }) (omega (arith, s.fits.1))
        (s.fits.0, refl) pos s.bounded
  receive_from [] finished a pos s = s
  receive_from [] (persisting p) a pos s = s
  receive_from (e ∷ q) waiting a pos s =
      collect-IsSound e q (record a { queue = e ∷ q; phase = waiting }) pos s.bounded s.fits tt
        (λ h. h)
  receive_from (e ∷ q) draining a pos s =
      collect-IsSound e q (record a { queue = e ∷ q; phase = draining }) pos s.bounded s.fits.1
        s.fits.0 (λ h. (s.fits.0, h))
  receive_from (e ∷ q) finished a pos s = s
  receive_from (e ∷ q) (persisting p) a pos s = s

  pub tick_in :
      (p : Phase) (a : AsyncRepository Event)
      → 0 < a.options.batch_size
      → IsSound (record a { phase = p })
      → IsSound (tick Event (record a { phase = p }))
  unfolding tick
  tick_in waiting a pos s =
      flush-IsSound waiting (record a { phase = waiting }) (omega (arith, s.fits)) tt pos s.bounded
  tick_in draining a pos s = s
  tick_in finished a pos s = s
  tick_in (persisting p) a pos s = s

  pub stop_in :
      (p : Phase) (shut : Bool) (a : AsyncRepository Event)
      → IsSound (record a { phase = p; closed = shut })
      → IsSound (stop Event (record a { phase = p; closed = shut }))
  unfolding stop
  stop_in p false a s = s
  stop_in waiting true a s = record { fits = (refl, s.fits); bounded = s.bounded }
  stop_in draining true a s = s
  stop_in finished true a s = s
  stop_in (persisting p) true a s = s
