-- ===== src/Runtime/Events/Order.antt =====
-- runtime/events.py: the bus is a FIFO queue, and no `receive` waits past its deadline or on a
-- closed bus.
use mininet_ai.Prelude.{
  ℕ, ◌+◌, ◌≤◌, ◌≡◌, ◌≢◌, refl, sym, ◌∙◌, ap, Bool, true, Option, none, some, List, [], ◌∷◌, ◌++◌,
  any, append-nil, append_assoc, arith, leb, length, length-append, ◌⊎◌, inl, inr,
}
use mininet_ai.Runtime.Events.{
  EventBus, Sink, Op, publish_op, poll_op, close_op, Round, new_bus, publish, poll, take_first,
  close, step, run, receive, receive_loop, deadline, waiting, delivery,
}

module _ {E W : Type 0} (sink : Sink E W) where
  -- the event that a step appends to the queue, if its `publish` returns
  abbrev pub accepted_by : Op E → EventBus E W → List E
  accepted_by (publish_op e) b = elim (publish sink e b).0 [ none ↦ e ∷ [] | some _ ↦ [] ]
  accepted_by _ b = []

  -- the events that were published, in the order of the calls
  abbrev pub accepted : List (Op E) → EventBus E W → List E
  accepted [] b = []
  accepted (op ∷ ops) b = let rest = accepted ops (step sink op b).1 in accepted_by op b ++ rest

  poll_queue :
      (q : List E) (b : EventBus E W)
      → b.events ≡ q
      → delivery (take_first sink q b).0 ++ (take_first sink q b).1.events ≡ q
  poll_queue [] b h = ground arith
  poll_queue (e ∷ q) b h = refl

  step_queue :
      (op : Op E) (b : EventBus E W)
      → (step sink op b).0 ++ (step sink op b).1.events ≡ b.events ++ accepted_by op b
  unfolding step
  step_queue (publish_op e) b = unfold publish in ground (arith, append-nil b.events)
  step_queue poll_op b = unfold poll in poll_queue b.events b refl ∙ sym (append-nil b.events)
  step_queue close_op b = unfold close in sym (append-nil b.events)

  -- What the bus hands out, followed by what is still queued, is what was queued at the start
  -- followed by what was published since, in the order of the calls: nothing is lost, repeated or
  -- reordered, whatever the interleaving.
  pub fifo :
      (ops : List (Op E)) (b : EventBus E W)
      → (run sink ops b).0 ++ (run sink ops b).1.events ≡ b.events ++ accepted ops b
  unfolding run
  fifo [] b = sym (append-nil b.events)
  fifo (op ∷ ops) b =
      let (out, b') = step sink op b in
      append_assoc out (run sink ops b').0 (run sink ops b').1.events
      ∙ ap (◌++◌ out) (fifo ops b')
      ∙ sym (append_assoc out b'.events (accepted ops b'))
      ∙ ap (λ q. q ++ accepted ops b') (step_queue op b)
      ∙ append_assoc b.events (accepted_by op b) (accepted ops b')

  step_bounded :
      (op : Op E) (b : EventBus E W)
      → length b.events ≤ b.capacity
      → length (step sink op b).1.events ≤ (step sink op b).1.capacity
  unfolding step
  step_bounded (publish_op e) b h =
      unfold publish in ground (arith, length-append b.events (e ∷ []))
  step_bounded poll_op b h = unfold poll in ground arith
  step_bounded close_op b h = unfold close in h

  run_bounded :
      (ops : List (Op E)) (b : EventBus E W)
      → length b.events ≤ b.capacity
      → length (run sink ops b).1.events ≤ (run sink ops b).1.capacity
  unfolding run
  run_bounded [] b h = h
  run_bounded (op ∷ ops) b h = run_bounded ops (step sink op b).1 (step_bounded op b h)

  -- From a new bus, what is handed out followed by what is queued is what was published, in the
  -- order of the calls, and the queue is never longer than the capacity.
  pub bounded_fifo :
      (capacity : ℕ) (w : W) (b : EventBus E W) (ops : List (Op E))
      → new_bus capacity w ≡ some b
      → ((run sink ops b).0 ++ (run sink ops b).1.events ≡ accepted ops b)
        × (length (run sink ops b).1.events ≤ (run sink ops b).1.capacity)
  unfolding new_bus
  bounded_fifo capacity w b ops h =
      let empty : b.events ≡ [] = ground arith in
      (fifo ops b ∙ ap (λ q. q ++ accepted ops b) empty, run_bounded ops b (ground arith))

  -- is the deadline past in one of the rounds?
  abbrev pub passes : ℕ → List (Round E) → Bool
  passes d = any (λ r. leb d r.now)

  receive_loop_returns :
      (d : ℕ) (rounds : List (Round E)) (b : EventBus E W)
      → passes d rounds ≡ true
      → (receive_loop sink (some d) rounds b).0 ≢ waiting
  unfolding receive_loop
  receive_loop_returns d [] b h = ground arith
  receive_loop_returns d (r ∷ rounds) b h =
      ground (arith, receive_loop_returns d rounds (run sink r.others (poll sink b).1).1)

  receive_closed :
      (limit : Option ℕ) (rounds : List (Round E)) (b : EventBus E W)
      → b.closed ≡ true
      → (receive_loop sink limit rounds b).0 ≢ waiting
  unfolding receive_loop poll
  receive_closed limit [] b h = ground arith
  receive_closed limit (r ∷ rounds) b h = ground arith

  -- A `receive` returns once it wakes at or after its deadline, and on a closed bus it returns
  -- without a wait, at any timeout or none.
  pub receive_returns :
      (start : ℕ) (timeout : Option ℕ) (rounds : List (Round E)) (b : EventBus E W)
      → (b.closed ≡ true) ⊎ ((t : ℕ) × (timeout ≡ some t) × (passes (start + t) rounds ≡ true))
      → (receive sink start timeout rounds b).0 ≢ waiting
  unfolding receive
  receive_returns start timeout rounds b (inl h) =
      receive_closed (deadline start timeout) rounds b h
  receive_returns start timeout rounds b (inr (t, e, h)) =
      rw e (receive_loop_returns (start + t) rounds b h)
