-- ===== src/Async.antt =====
-- gateway/internal/audit/async.go and batch.go: the bounded queue in front of the audit store, as
-- steps of its writers and of the goroutine that batches and persists. The channel is a list with
-- the oldest event first. A step that is not enabled changes nothing. The durations are left out:
-- a tick, and each attempt to write, may come at any time. The counters are left out: they are raised
-- apart from the sends and the writes that they count, and nothing but AsyncStats reads them.
-- NewAsyncRepository refuses sizes that are not positive; a theorem that relies on it says so.
pub mod Queue
pub mod Drain
pub mod Closing
pub mod Delivery
pub mod Failing
mod Tests
use sentrymesh.Base.{
  ℕ, suc, ◌+◌, Bool, true, false, not, ◌&&◌, List, [], ◌∷◌, ◌++◌, length, is_empty, ltb, leb, ◌==◌,
  if◌then◌else◌,
}

pub record AsyncOptions : Type 0 where
  pub queue_size : ℕ
  pub batch_size : ℕ

-- Where the goroutine is: in the outer select, in the loop that drains the queue after `stop`, in
-- `persistWithRetry`, from which it goes on to the phase given, or gone.
pub data Phase : Type 0 where
  waiting draining finished : Phase
  persisting : Phase → Phase

module _ {ℓ} (Event : Type ℓ) where
  -- `written` is what the store has, in order; `atomic` whether it is a BatchWriter.
  pub record AsyncRepository : Type ℓ where
    pub options : AsyncOptions
    pub atomic : Bool
    pub written : List Event
    pub queue : List Event
    pub batch : List Event
    pub closed : Bool
    pub phase : Phase

  pub data Action : Type ℓ where
    writes : Event → Action
    closes ticks receives stops : Action
    attempts : List Bool → Action

  abbrev pub new_async : AsyncOptions → Bool → AsyncRepository
  new_async options atomic = record {
    options = options;
    atomic = atomic;
    written = [];
    queue = [];
    batch = [];
    closed = false;
    phase = waiting;
  }

  -- Whether Write is sent into the channel at once.
  abbrev pub has_room : AsyncRepository → Bool
  has_room a = not a.closed && ltb (length a.queue) a.options.queue_size

  -- A Write that finds the channel full waits: when it gets in, it is one more such
  -- step, and when its context ends first, there is none.
  unfoldable pub write : Event → AsyncRepository → AsyncRepository
  write event a =
      if a.closed
      then a
      else if ltb (length a.queue) a.options.queue_size
      then record a { queue = a.queue ++ event ∷ [] }
      else a

  unfoldable pub close : AsyncRepository → AsyncRepository
  close a = record a { closed = true }

  -- `flush`, before the phase `next`
  abbrev pub flush : Phase → AsyncRepository → AsyncRepository
  flush next a =
      if is_empty a.batch then record a { phase = next } else record a { phase = persisting next }

  -- One event from the channel.
  unfoldable pub collect : Event → List Event → AsyncRepository → AsyncRepository
  collect event rest a =
      let a' = record a { queue = rest; batch = a.batch ++ event ∷ [] } in
      if leb a.options.batch_size (length a'.batch) then flush a.phase a' else a'

  unfoldable pub receive : AsyncRepository → AsyncRepository
  unfolding collect
  receive a = elim a.queue [
    | [] ↦ elim a.phase [ draining ↦ flush finished a | _ ↦ a ]
    | event ∷ rest ↦ elim a.phase [
      | waiting ↦ collect event rest a
      | draining ↦ collect event rest a
      | _ ↦ a
    ]
  ]

  unfoldable pub tick : AsyncRepository → AsyncRepository
  tick a = elim a.phase [ waiting ↦ flush waiting a | _ ↦ a ]

  unfoldable pub stop : AsyncRepository → AsyncRepository
  stop a = if a.closed then elim a.phase [ waiting ↦ record a { phase = draining } | _ ↦ a ] else a

  -- `writeBatch`, with the store's answer to each call: whether it succeeded, and what it wrote. No
  -- more answers are failures.
  unfoldable pub write_each : List Bool → List Event → Bool × List Event
  write_each answers [] = (true, [])
  write_each [] (event ∷ events) = (false, [])
  write_each (false ∷ answers) (event ∷ events) = (false, [])
  write_each (true ∷ answers) (event ∷ events) =
      let rest = write_each answers events in (rest.0, event ∷ rest.1)

  -- A BatchWriter writes all events, or fails. It may then have written none, or some of the first
  -- ones, or all: FailingRepository may write them one by one, and a transaction may have been
  -- committed when its answer is lost. The further answers say how many.
  unfoldable pub write_batch : Bool → List Bool → List Event → Bool × List Event
  unfolding write_each
  write_batch true [] events = (is_empty events, [])
  write_batch true (true ∷ kept) events = (true, events)
  write_batch true (false ∷ kept) events = (is_empty events, (write_each kept events).1)
  write_batch false answers events = write_each answers events

  -- One turn of the loop of `persistWithRetry`, and the reset of the batch after its success: the batch
  -- is the goroutine's own.
  unfoldable pub attempt : List Bool → AsyncRepository → AsyncRepository
  unfolding write_batch
  attempt answers a = elim a.phase [
    | persisting next ↦
        let result = write_batch a.atomic answers a.batch in
        let a' = record a { written = a.written ++ result.1 } in
        if result.0 then record a' { batch = []; phase = next } else a'
    | _ ↦ a
  ]

  unfoldable pub step : Action → AsyncRepository → AsyncRepository
  unfolding write close tick receive stop attempt
  step (writes event) a = write event a
  step closes a = close a
  step ticks a = tick a
  step receives a = receive a
  step stops a = stop a
  step (attempts answers) a = attempt answers a

  unfoldable pub run : List Action → AsyncRepository → AsyncRepository
  unfolding step
  run [] a = a
  run (o ∷ os) a = run os (step o a)

  -- The events that Write acknowledges in a run.
  abbrev pub acknowledged : Action → AsyncRepository → List Event
  acknowledged (writes event) a = if has_room a then event ∷ [] else []
  acknowledged _ a = []

  unfoldable pub accepted : List Action → AsyncRepository → List Event
  unfolding step
  accepted [] a = []
  accepted (o ∷ os) a = acknowledged o a ++ accepted os (step o a)
