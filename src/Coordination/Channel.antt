-- ===== src/Coordination/Channel.antt =====
-- mininet_ai/coordination/channel.py: the bounded FIFO channel `InMemoryMessageChannel`.
-- `M` stands for `CoordinationMessage`, of which the channel reads `message_id` and equality.
-- The sink is a callback of the caller: `sink m w` is whether `write(m)` returned, and the sink's
-- state after it. The set of accepted identifiers is a list. A method runs with the lock held, so
-- a thread's call is one step, and `receive` is one step for each time that it holds the lock.
pub mod Delivery
pub mod Receive
mod Tests
use mininet_ai.Prelude.{
  ℕ, zero, suc, ◌+◌, ◌-◌, String, Bool, true, false, ◌||◌, Option, none, some, List, [], ◌∷◌, ◌++◌,
  leb, length, find, contains, if◌then◌else◌,
}
use mathlib.Core.Logic.{ite}

pub record Channel (M W : Type 0) : Type 0 where
  pub capacity : ℕ
  pub messages : List M
  pub accepted_ids : List String
  pub closed : Bool
  pub sink_state : W

-- `code` and `message_id` of a `MessageChannelError`; `sink_raised` passes on the sink's exception.
pub data SendError : Type 0 where
  closed_error duplicate full : String → SendError
  sink_raised : SendError

abbrev pub Sink : Type 0 → Type 0 → Type 0
Sink M W = Option (M → W → Bool × W)

-- What one pass of the loop of `receive` finds.
pub data Poll (M : Type 0) : Type 0 where
  got : M → Poll M
  exhausted blocked : Poll M

-- How `receive` ends. `waiting` is a call that has not returned.
pub data Received (M : Type 0) : Type 0 where
  delivered : M → Received M
  nothing waiting : Received M

-- `InMemoryMessageChannel(capacity=…)`; `none` is the `ValueError`
unfoldable pub new_channel : {M W : Type 0} → ℕ → W → Option (Channel M W)
new_channel capacity w =
    if leb capacity 0
    then none
    else some (record {
      capacity = capacity;
      messages = [];
      accepted_ids = [];
      closed = false;
      sink_state = w;
    })

-- the test of the generator in `receive`
abbrev pub eligible : {M : Type 0} → (M → String) → Option (List String) → M → Bool
eligible message_id none m = true
eligible message_id (some ids) m = contains ids (message_id m)

-- `deque.remove`: the first item that is equal
unfoldable pub remove : {M : Type 0} → Discrete M → M → List M → List M
remove same m [] = []
remove same m (x ∷ xs) = let rest = x ∷ remove same m xs in ite (same x m) xs rest

-- What a thread may do to the channel while it has the lock.
pub data Op (M : Type 0) : Type 0 where
  send_op : M → Op M
  poll_op : Option (List String) → Op M
  close_op : Op M

abbrev pub delivery : {M : Type 0} → Poll M → List M
delivery (got m) = m ∷ []
delivery _ = []

-- A wait of `receive`: the clock before it, and what the other threads did during it.
pub record Round (M : Type 0) : Type 0 where
  pub now : ℕ
  pub others : List (Op M)

abbrev pub deadline : ℕ → Option ℕ → Option ℕ
deadline start none = none
deadline start (some timeout) = some (start + timeout)

module _ {M W : Type 0} (message_id : M → String) (same : Discrete M) (sink : Sink M W) where
  -- `self._sink.write(message)`, if there is a sink
  abbrev pub write : M → W → Bool × W
  write m w = elim sink [ none ↦ (true, w) | some f ↦ f m w ]

  -- the last four statements of `send`
  abbrev pub accept : M → Channel M W → Option SendError × Channel M W
  accept m c =
      let (returned, w) = write m c.sink_state in
      if returned
      then (
        none,
        record c {
          messages = c.messages ++ m ∷ [];
          accepted_ids = message_id m ∷ c.accepted_ids;
          sink_state = w;
        },
      )
      else (some sink_raised, record c { sink_state = w })

  unfoldable pub send : M → Channel M W → Option SendError × Channel M W
  send m c =
      if c.closed
      then (some (closed_error (message_id m)), c)
      else if contains c.accepted_ids (message_id m)
      then (some (duplicate (message_id m)), c)
      else if leb c.capacity (length c.messages)
      then (some (full (message_id m)), c)
      else accept m c

  unfoldable pub close : Channel M W → Channel M W
  close c = record c { closed = true }

  -- one pass of the loop of `receive`
  unfoldable pub poll : Option (List String) → Channel M W → Poll M × Channel M W
  poll ids c = elim (find (eligible message_id ids) c.messages) [
    | some m ↦ (got m, record c { messages = remove same m c.messages })
    | none ↦ if c.closed then (exhausted, c) else (blocked, c)
  ]

  -- the messages handed out by one step, and the channel after it
  unfoldable pub step : Op M → Channel M W → List M × Channel M W
  unfolding send poll close
  step (send_op m) c = ([], (send m c).1)
  step (poll_op ids) c = (delivery (poll ids c).0, (poll ids c).1)
  step close_op c = ([], close c)

  -- the messages handed out by an interleaving of the threads' steps
  unfoldable pub run : List (Op M) → Channel M W → List M × Channel M W
  run [] c = ([], c)
  run (op ∷ ops) c = let (out, c') = step op c in let (outs, c'') = run ops c' in (out ++ outs, c'')

  -- The loop of `receive`, at a deadline. The rounds are the waits that the scheduler grants.
  unfoldable pub receive_loop :
      Option ℕ → Option (List String) → List (Round M) → Channel M W → Received M × Channel M W
  receive_loop limit ids [] c =
      let (p, c') = poll ids c in
      elim p [ got m ↦ (delivered m, c') | exhausted ↦ (nothing, c') | blocked ↦ (waiting, c') ]
  receive_loop limit ids (r ∷ rounds) c =
      let (p, c') = poll ids c in
      let woken = receive_loop limit ids rounds (run r.others c').1 in
      elim p [
        | got m ↦ (delivered m, c')
        | exhausted ↦ (nothing, c')
        | blocked ↦ elim limit [
          | none ↦ woken
          | some d ↦ if leb d r.now then (nothing, c') else woken
        ]
      ]

  -- `receive` at a timeout that is not negative, called at the time `start`
  unfoldable pub receive :
      ℕ → Option ℕ → Option (List String) → List (Round M) → Channel M W → Received M × Channel M W
  receive start timeout ids = receive_loop (deadline start timeout) ids
