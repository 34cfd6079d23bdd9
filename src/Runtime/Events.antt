-- ===== src/Runtime/Events.antt =====
-- mininet_ai/runtime/events.py: the bounded FIFO bus `InMemoryRuntimeEventBus`. `E` stands for
-- `RuntimeEvent`. As for the message channel, a call with the lock held is one step, the sink is a
-- callback of the caller, and `receive` is one step for each time that it holds the lock.
pub mod Order
mod Tests
use mininet_ai.Prelude.{
  ℕ, ◌+◌, Bool, true, false, Option, none, some, List, [], ◌∷◌, ◌++◌, leb, length, if◌then◌else◌,
}

pub record EventBus (E W : Type 0) : Type 0 where
  pub capacity : ℕ
  pub events : List E
  pub closed : Bool
  pub sink_state : W

pub data PublishError : Type 0 where
  bus_closed bus_full sink_raised : PublishError

abbrev pub Sink : Type 0 → Type 0 → Type 0
Sink E W = Option (E → W → Bool × W)

-- `InMemoryRuntimeEventBus(capacity=…)`; `none` is the `ValueError`
unfoldable pub new_bus : {E W : Type 0} → ℕ → W → Option (EventBus E W)
new_bus capacity w =
    if leb capacity 0
    then none
    else some (record { capacity = capacity; events = []; closed = false; sink_state = w })

-- What one pass of the loop of `receive` finds.
pub data Poll (E : Type 0) : Type 0 where
  got : E → Poll E
  exhausted blocked : Poll E

pub data Received (E : Type 0) : Type 0 where
  delivered : E → Received E
  nothing waiting : Received E

pub data Op (E : Type 0) : Type 0 where
  publish_op : E → Op E
  poll_op close_op : Op E

pub record Round (E : Type 0) : Type 0 where
  pub now : ℕ
  pub others : List (Op E)

abbrev pub delivery : {E : Type 0} → Poll E → List E
delivery (got e) = e ∷ []
delivery _ = []

abbrev pub deadline : ℕ → Option ℕ → Option ℕ
deadline start none = none
deadline start (some timeout) = some (start + timeout)

module _ {E W : Type 0} (sink : Sink E W) where
  abbrev pub write : E → W → Bool × W
  write e w = elim sink [ none ↦ (true, w) | some f ↦ f e w ]

  unfoldable pub publish : E → EventBus E W → Option PublishError × EventBus E W
  publish e b =
      if b.closed
      then (some bus_closed, b)
      else if leb b.capacity (length b.events)
      then (some bus_full, b)
      else let (returned, w) = write e b.sink_state in
        if returned
        then (none, record b { events = b.events ++ e ∷ []; sink_state = w })
        else (some sink_raised, record b { sink_state = w })

  unfoldable pub close : EventBus E W → EventBus E W
  close b = record b { closed = true }

  -- one pass of the loop of `receive`, by the queue
  abbrev pub take_first : List E → EventBus E W → Poll E × EventBus E W
  take_first [] b = if b.closed then (exhausted, b) else (blocked, b)
  take_first (e ∷ rest) b = (got e, record b { events = rest })

  unfoldable pub poll : EventBus E W → Poll E × EventBus E W
  poll b = take_first b.events b

  unfoldable pub step : Op E → EventBus E W → List E × EventBus E W
  unfolding publish poll close
  step (publish_op e) b = ([], (publish e b).1)
  step poll_op b = (delivery (poll b).0, (poll b).1)
  step close_op b = ([], close b)

  -- the events handed out by an interleaving of the threads' steps
  unfoldable pub run : List (Op E) → EventBus E W → List E × EventBus E W
  run [] b = ([], b)
  run (op ∷ ops) b = let (out, b') = step op b in let (outs, b'') = run ops b' in (out ++ outs, b'')

  -- The loop of `receive`. The rounds are the waits that the scheduler grants.
  unfoldable pub receive_loop : Option ℕ → List (Round E) → EventBus E W → Received E × EventBus E W
  receive_loop limit [] b =
      let (p, b') = poll b in
      elim p [ got e ↦ (delivered e, b') | exhausted ↦ (nothing, b') | blocked ↦ (waiting, b') ]
  receive_loop limit (r ∷ rounds) b =
      let (p, b') = poll b in
      let woken = receive_loop limit rounds (run r.others b').1 in
      elim p [
        | got e ↦ (delivered e, b')
        | exhausted ↦ (nothing, b')
        | blocked ↦ elim limit [
          | none ↦ woken
          | some d ↦ if leb d r.now then (nothing, b') else woken
        ]
      ]

  -- `receive` at a timeout that is not negative, called at the time `start`
  unfoldable pub receive : ℕ → Option ℕ → List (Round E) → EventBus E W → Received E × EventBus E W
  receive start timeout = receive_loop (deadline start timeout)
