-- ===== src/Runtime/Continuous/Tests.antt =====
-- Runs of the runtime's queues at fixed inputs, and the theorems applied there.
use mininet_ai.Prelude.{
  Bool, true, any, map, count, ◌++◌, ◌==◌, arith, ℕ, ◌+◌, String, ◌≡◌, refl, false, none, some,
  List, [], ◌∷◌, length,
}
use mininet_ai.Prelude.Dict.{lookup, insert}
use mininet_ai.Runtime.Continuous.Types.{
  AgentInstance, RuntimeEvent, Payloads, WorkItem, ContinuousRuntime, new_runtime, DeploymentPlan,
  Overflow, drop_oldest, coalesce, reject, Trigger, manual_trigger, event_trigger,
  execution_agent_id,
}
use mininet_ai.Runtime.Continuous.Enqueue.{
  same_coalesce_key, report_issue, push, make_room, offer, enqueue,
}
use mininet_ai.Runtime.Continuous.Dispatch.{
  item_for, dispatch, find_matches, match_agents, match_triggers, selects,
}
use mininet_ai.Runtime.Continuous.Steps.{
  all_items, Op, start_op, enqueue_op, close_op, stop_op, take_op, receive_op, step, run,
  start_runtime, begin_stop, receive_event, after_enqueue, enqueue_next, end_dispatch, take_item,
  close_workers, drop_items,
}
use mininet_ai.Runtime.Continuous.Quiet.{losses, refusals, refused, lost}
use mininet_ai.Runtime.Continuous.Limits.{IsBounded}
use mininet_ai.Runtime.Continuous.Bounds.{queues-IsBounded, new-IsBounded}
use mininet_ai.Runtime.Continuous.Replay.{no_replay}
use mininet_ai.Runtime.Continuous.Accounts.{no_silent_loss}
use mininet_ai.Runtime.Continuous.Items.{issue_name, item_name}
use mininet_ai.Runtime.Continuous.Fates.{offer_coalesces}
use mininet_ai.Runtime.Continuous.Tracing.{found_in}

-- The JSON of a payload is the agent that it names, with a text.
abbrev payloads : Payloads (String × String)
payloads = record {
  as_manual = λ p. some p;
  as_interval = λ p. some p;
  interval_intent = λ name p. name;
  event_intent = λ e. e.type_name;
}

abbrev alarm : Trigger
alarm = event_trigger (record {
  name = "alarm";
  event = "runtime.failure";
  source = none;
  subject = none;
  cooldown = 10;
})

abbrev agent : String → ℕ → Overflow → AgentInstance
agent id queue_capacity overflow = record {
  id = id;
  deployment = "lab";
  targets = [];
  triggers = manual_trigger "manual" ∷ alarm ∷ [];
  scenario = false;
  queue_capacity = queue_capacity;
  overflow = overflow;
}

abbrev plan : DeploymentPlan
plan = record {
  agents = agent "a" 1 drop_oldest ∷ agent "b" 2 coalesce ∷ agent "c" 1 reject ∷ [];
  max_queued_events = 3;
  graph = none;
}

abbrev manual : String → ℕ → RuntimeEvent (String × String)
manual to sequence = record {
  event_id = "event";
  type_name = "intent.manual";
  source = "operator";
  subject = none;
  observed_at = sequence;
  sequence = sequence;
  payload = (to, "do it");
}

abbrev failure : ℕ → RuntimeEvent (String × String)
failure at = record {
  event_id = "failure";
  type_name = "runtime.failure";
  source = "probe";
  subject = none;
  observed_at = at;
  sequence = at;
  payload = ("", "");
}

-- an event that is received, and its items that are enqueued
abbrev deliver :
    RuntimeEvent (String × String) → List (Op (String × String)) → List (Op (String × String))
deliver event ops = receive_op event ∷ enqueue_op ∷ enqueue_op ∷ enqueue_op ∷ ops

-- `a` drops its oldest item, `b` coalesces, `c` refuses, and an event out of order is rejected.
abbrev ops : List (Op (String × String))
ops =
    start_op
    ∷ deliver (manual "a" 1) (
        deliver (manual "a" 2) (
          deliver (manual "b" 3) (
            deliver (manual "b" 4) (
              deliver (manual "c" 5)
                (deliver (manual "c" 6) (deliver (manual "a" 6) (take_op "a" ∷ [])))))))

abbrev cooling : List (Op (String × String))
cooling = deliver (failure 1) (receive_op (failure 5) ∷ stop_op false ∷ close_op ∷ [])

counted :
    let done = run payloads plan ops (new_runtime (String × String) plan) in
    (done.1.counts.matched ≡ 6)
    × (done.1.counts.enqueued ≡ 4)
    × (done.1.counts.coalesced ≡ 1)
    × (done.1.counts.dropped ≡ 1)
    × (done.1.counts.rejected ≡ 2)
    × (done.1.queued ≡ 2)
    × (length done.0 ≡ 1)
unfolding run step start_runtime receive_event dispatch find_matches enqueue_next after_enqueue
    enqueue offer make_room push report_issue take_item lookup insert execution_agent_id
counted = (refl, refl, refl, refl, refl, refl, refl)

stopped_in_cooldown :
    let done = run payloads plan cooling (new_runtime (String × String) plan) in
    (done.1.counts.matched ≡ 3) × (length done.1.issues ≡ 3) × (done.1.queued ≡ 3)
unfolding run step begin_stop receive_event dispatch find_matches match_agents match_triggers
    selects enqueue_next after_enqueue enqueue offer make_room push report_issue end_dispatch
    close_workers drop_items lookup insert execution_agent_id
stopped_in_cooldown = (refl, refl, refl)

queues-IsBounded_example :
    let done = run payloads plan ops (new_runtime (String × String) plan) in
    IsBounded plan done.1.queued done.1.queues
queues-IsBounded_example = queues-IsBounded plan payloads ops

no_silent_loss_example :
    let done = run payloads plan ops (new_runtime (String × String) plan) in
    ((displaced : List (WorkItem (String × String))) × (dropped : List (WorkItem (String × String)))
      × (turned_down : List (WorkItem (String × String))) × ((test : WorkItem (String × String)
            → Bool)
          → count test (found_in payloads plan ops (new_runtime (String × String) plan))
            ≡ count test (all_items done.1.queues)
              + count test done.1.pending
              + count test done.0
              + count test displaced
              + count test dropped
              + count test turned_down)
      × (done.1.counts.coalesced ≡ length displaced)
      × (map issue_name (losses done.1) ≡ map item_name dropped)
      × (map issue_name (refusals done.1) ≡ map item_name turned_down))
    × (done.1.counts.matched
        ≡ done.1.counts.enqueued + done.1.counts.coalesced + refused done.1 + length done.1.pending)
    × (done.1.counts.enqueued ≡ length done.0 + done.1.queued + lost done.1)
no_silent_loss_example = no_silent_loss payloads plan ops

no_replay_example :
    let first = new_runtime (String × String) plan in
    let s' = (run payloads plan (receive_op (manual "a" 2) ∷ ops) first).1 in
    ((receive_event payloads plan (manual "b" 1) s').counts.matched ≡ s'.counts.matched)
    × ((receive_event payloads plan (manual "b" 1) s').pending ≡ s'.pending)
no_replay_example =
    no_replay payloads plan (manual "a" 2) (manual "b" 1) (new_runtime (String × String) plan) ops
      (new-IsBounded plan) refl refl refl refl (ground arith)

abbrev order : ℕ → WorkItem (String × String)
order at = item_for (manual "b" at) (agent "b" 2 coalesce) "manual" "do it" false

abbrev one_waits : ContinuousRuntime (String × String)
one_waits = record (new_runtime (String × String) plan) {
  queues = ("b", order 3 ∷ []) ∷ [];
  queued = 1;
}

one_waits-found : lookup "b" one_waits.queues ≡ some (order 3 ∷ [])
unfolding lookup
one_waits-found = refl

offer_coalesces_example :
    let s' = offer plan (agent "b" 2 coalesce) "b" (order 3 ∷ []) (order 4) one_waits in
    (front : List (WorkItem (String × String))) × (old : WorkItem (String × String)) × (back : List
      (WorkItem (String × String)))
    × (order 3 ∷ [] ≡ front ++ old ∷ back)
    × (same_coalesce_key (order 4) old ≡ true)
    × (any (same_coalesce_key (order 4)) front ≡ false)
    × (lookup "b" s'.queues ≡ some (front ++ order 4 ∷ back))
    × ((b : String) → ("b" == b) ≡ false → lookup b s'.queues ≡ lookup b one_waits.queues)
    × (s'.queued ≡ one_waits.queued)
offer_coalesces_example =
    offer_coalesces plan (agent "b" 2 coalesce) "b" (order 3 ∷ []) (order 4) one_waits
      one_waits-found refl refl refl
