-- ===== src/Coordination/Channel/Tests.antt =====
-- Runs of the channel at fixed inputs, and the theorems applied there. A message is a number.
use native.Mathlib.Decide.{ℕ_discrete}
use mininet_ai.Prelude.{
  ℕ, ◌≡◌, ◌≢◌, refl, true, false, none, some, List, [], ◌∷◌, String, nat_beq, if◌then◌else◌,
}
use mininet_ai.Coordination.Channel.{
  Channel, Op, send_op, poll_op, close_op, Round, Sink, new_channel, send, poll, run, step, receive,
  receive_loop, remove, delivered, waiting, nothing, duplicate, full, closed_error, sink_raised,
}
use mininet_ai.Coordination.Channel.Delivery.{DeliveredOnce, delivery_at_most_once}
use mininet_ai.Coordination.Channel.Receive.{receive_returns_by_deadline}

abbrev label : ℕ → String
label n = if nat_beq n 1 then "one" else if nat_beq n 2 then "two" else "other"

-- a sink that records what it is given, and raises at the message 9
abbrev recorder : Sink ℕ (List ℕ)
recorder = some (λ m w. if nat_beq m 9 then (false, w) else (true, m ∷ w))

abbrev start : Channel ℕ (List ℕ)
start = record { capacity = 2; messages = []; accepted_ids = []; closed = false; sink_state = [] }

abbrev script : List (Op ℕ)
script =
    send_op 1
    ∷ send_op 2
    ∷ send_op 1
    ∷ send_op 3
    ∷ poll_op (some ("two" ∷ []))
    ∷ send_op 9
    ∷ close_op
    ∷ poll_op none
    ∷ poll_op none
    ∷ []

script_delivers : (run label ℕ_discrete recorder script start).0 ≡ 2 ∷ 1 ∷ []
unfolding run step send poll remove ℕ_discrete
script_delivers = refl

script_records : (run label ℕ_discrete recorder script start).1.sink_state ≡ 2 ∷ 1 ∷ []
unfolding run step send poll remove ℕ_discrete
script_records = refl

abbrev two_queued : Channel ℕ (List ℕ)
two_queued = record start { messages = 1 ∷ 2 ∷ []; accepted_ids = "two" ∷ "one" ∷ [] }

send_errors :
    ((send label ℕ_discrete recorder 1 two_queued).0 ≡ some (duplicate "one"))
    × ((send label ℕ_discrete recorder 3 two_queued).0 ≡ some (full "other"))
    × ((send label ℕ_discrete recorder 9 start).0 ≡ some sink_raised)
    × ((send label ℕ_discrete recorder 9 (record start { closed = true })).0
        ≡ some (closed_error "other"))
unfolding send
send_errors = (refl, refl, refl, refl)

abbrev patient : List (Round ℕ)
patient = record { now = 3; others = send_op 2 ∷ [] } ∷ record { now = 7; others = [] } ∷ []

patient_times_out :
    (receive label ℕ_discrete recorder 2 (some 5) (some ("one" ∷ [])) patient start).0 ≡ nothing
unfolding receive receive_loop run step send poll remove ℕ_discrete
patient_times_out = refl

patient_receives :
    (receive label ℕ_discrete recorder 2 none (some ("two" ∷ [])) patient start).0 ≡ delivered 2
unfolding receive receive_loop run step send poll remove ℕ_discrete
patient_receives = refl

delivery_at_most_once_example :
    DeliveredOnce label
      (run label ℕ_discrete recorder script start).0
      (run label ℕ_discrete recorder script start).1
unfolding new_channel
delivery_at_most_once_example =
    delivery_at_most_once label ℕ_discrete recorder 2 [] start script refl

receive_returns_by_deadline_example :
    (receive label ℕ_discrete recorder 2 (some 5) none patient start).0 ≢ waiting
receive_returns_by_deadline_example =
    receive_returns_by_deadline label ℕ_discrete recorder 2 5 none patient start refl
