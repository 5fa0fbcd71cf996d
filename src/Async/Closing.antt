-- ===== src/Async/Closing.antt =====
-- Close lets the goroutine end (gateway/internal/audit/async.go).
use sentrymesh.Base.{
  ℕ, zero, suc, ◌≡◌, refl, true, List, [], ◌∷◌, ◌++◌, length, is_empty, leb, if_elim,
}
use sentrymesh.Async.{
  waiting, draining, finished, AsyncRepository, Action, closes, receives, stops, attempts, close,
  collect, receive, stop, write_batch, attempt, step, run,
}

module _ {ℓ} {Event : Type ℓ} where
  -- A number of receives, each with an attempt after it that the store carries out.
  unfoldable pub drain_actions : ℕ → List (Action Event)
  drain_actions zero = []
  drain_actions (suc n) = receives ∷ attempts (true ∷ []) ∷ drain_actions n

  drains :
      (q : List Event) (a : AsyncRepository Event)
      → (run Event
          (drain_actions (suc (length q)))
          (record a { queue = q; phase = draining; atomic = true })).phase
        ≡ finished
  unfolding run drain_actions step receive collect attempt write_batch
  drains [] a =
      if_elim (λ (x : AsyncRepository Event). (attempt Event (true ∷ []) x).phase ≡ finished)
        (is_empty a.batch) (λ e. refl) (λ e. refl)
  drains (e ∷ q) a =
      let P = λ (x : AsyncRepository Event).
        (run Event (drain_actions (suc (length q))) (attempt Event (true ∷ []) x)).phase
        ≡ finished in
      if_elim P (leb a.options.batch_size (length (a.batch ++ e ∷ [])))
        (λ full.
          if_elim P (is_empty (a.batch ++ e ∷ []))
            (λ h. drains q (record a { batch = a.batch ++ e ∷ [] }))
            (λ h. drains q (record a { batch = []; written = a.written ++ (a.batch ++ e ∷ []) })))
        (λ less. drains q (record a { batch = a.batch ++ e ∷ [] }))

  -- After Close, a goroutine that waits over a BatchWriter comes to its end: one receive for each
  -- queued event and one more, with an attempt that succeeds after each, are enough.
  pub close_finishes :
      (a : AsyncRepository Event)
      → a.atomic ≡ true
      → a.phase ≡ waiting
      → (run Event (closes ∷ stops ∷ drain_actions (suc (length a.queue))) a).phase ≡ finished
  unfolding run step close stop
  close_finishes a atomic idle = rw (atomic, idle) (drains a.queue (record a { closed = true }))
