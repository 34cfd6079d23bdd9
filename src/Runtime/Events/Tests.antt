-- ===== src/Runtime/Events/Tests.antt =====
-- Runs of the event bus at fixed inputs, and the theorems applied there. An event is a number.
use mininet_ai.Prelude.{
  ℕ, ◌≤◌, ◌≡◌, refl, true, false, some, List, [], ◌∷◌, ◌++◌, nat_beq, if◌then◌else◌, length,
}
use mininet_ai.Runtime.Events.{
  EventBus, Sink, Op, publish_op, poll_op, close_op, Round, new_bus, publish, poll, close, step,
  run, receive, receive_loop, delivered,
}
use mininet_ai.Runtime.Events.Order.{accepted, bounded_fifo}

-- a sink that records what it is given, and raises at the event 9
abbrev recorder : Sink ℕ (List ℕ)
recorder = some (λ e w. if nat_beq e 9 then (false, w) else (true, e ∷ w))

abbrev start : EventBus ℕ (List ℕ)
start = record { capacity = 2; events = []; closed = false; sink_state = [] }

abbrev script : List (Op ℕ)
script =
    publish_op 5
    ∷ publish_op 9
    ∷ publish_op 6
    ∷ publish_op 7
    ∷ poll_op
    ∷ publish_op 8
    ∷ close_op
    ∷ publish_op 4
    ∷ poll_op
    ∷ []

script_delivers :
    ((run recorder script start).0 ≡ 5 ∷ 6 ∷ []) × ((run recorder script start).1.events ≡ 8 ∷ [])
unfolding run step publish poll close
script_delivers = (refl, refl)

script_accepts : accepted recorder script start ≡ 5 ∷ 6 ∷ 8 ∷ []
unfolding step publish poll close
script_accepts = refl

bounded_fifo_example :
    ((run recorder script start).0 ++ (run recorder script start).1.events
      ≡ accepted recorder script start)
    × (length (run recorder script start).1.events ≤ (run recorder script start).1.capacity)
unfolding new_bus
bounded_fifo_example = bounded_fifo recorder 2 [] start script refl

abbrev patient : List (Round ℕ)
patient = record { now = 3; others = [] } ∷ record { now = 7; others = publish_op 5 ∷ [] } ∷ []

patient_receives : (receive recorder 2 (some 6) patient start).0 ≡ delivered 5
unfolding receive receive_loop run step publish poll
patient_receives = refl
