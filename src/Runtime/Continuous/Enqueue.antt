-- ===== src/Runtime/Continuous/Enqueue.antt =====
-- runtime/continuous.py: `_enqueue` and `_issue`.
use mininet_ai.Prelude.{
  ◌+◌, ◌-◌, String, Bool, true, false, ◌&&◌, ◌||◌, Option, none, some, List, [], ◌∷◌, ◌++◌, ◌==◌,
  leb, any, contains, length, if◌then◌else◌, inl, inr,
}
use mininet_ai.Prelude.Dict.{lookup, insert}
use mininet_ai.Runtime.Continuous.Types.{
  Overflow, drop_oldest, coalesce, AgentInstance, RuntimeEvent, WorkItem, RuntimeIssueCode,
  tick_coalesced, oldest_dropped, queue_full, ContinuousRuntime, DeploymentPlan, find_agent,
  execution_agent_id, same_optional,
}

abbrev pub is_coalesce : Overflow → Bool
is_coalesce coalesce = true
is_coalesce _ = false

module _ {J : Type 0} where
  -- `_issue`
  unfoldable pub report_issue :
      RuntimeIssueCode
      → RuntimeEvent J
      → Option (String × String)
      → Bool
      → Bool
      → ContinuousRuntime J
      → ContinuousRuntime J
  report_issue code event about dropped rejected s = record s {
    issues =
        s.issues
        ++ record {
          code = code;
          event_id = event.event_id;
          agent_id = elim about [ none ↦ none | some a ↦ some a.0 ];
          trigger = elim about [ none ↦ none | some a ↦ some a.1 ];
        }
          ∷ [];
    counts = record s.counts {
      dropped = s.counts.dropped + (if dropped then 1 else 0);
      rejected = s.counts.rejected + (if rejected then 1 else 0);
    };
  }

  -- the agent and the trigger that an issue about an item names
  abbrev pub about : WorkItem J → Option (String × String)
  about item = some (item.agent.id, item.trigger)

  -- `_bounded_tick`
  abbrev pub bounded_tick : WorkItem J → Bool
  bounded_tick item = item.scheduled_tick && item.agent.scenario

  abbrev pub same_coalesce_key : WorkItem J → WorkItem J → Bool
  same_coalesce_key item other =
      other.coalesce_key.0 == item.coalesce_key.0
      && same_optional other.coalesce_key.1 item.coalesce_key.1

  -- `queue[index] = item`, at the first that has its key
  abbrev pub replace_first : WorkItem J → List (WorkItem J) → List (WorkItem J)
  replace_first item [] = []
  replace_first item (x ∷ queue) =
      let rest = replace_first item queue in
      if same_coalesce_key item x then item ∷ queue else x ∷ rest

  -- `_last_triggered[(agent, trigger)] = observed_at`
  abbrev pub note_trigger : WorkItem J → ContinuousRuntime J → ContinuousRuntime J
  note_trigger item s = record s {
    last_triggered =
        record { agent_id = item.agent.id; trigger = item.trigger; at = item.event.observed_at }
        ∷ s.last_triggered;
  }

  abbrev pub count_coalesced : ContinuousRuntime J → ContinuousRuntime J
  count_coalesced s = record s { counts = record s.counts { coalesced = s.counts.coalesced + 1 } }

  -- the end of `_enqueue`: `queue.append(item)` and what follows
  unfoldable pub push :
      String → List (WorkItem J) → WorkItem J → ContinuousRuntime J → ContinuousRuntime J
  push agent_id queue item s = note_trigger item (record s {
    queues = insert agent_id (queue ++ item ∷ []) s.queues;
    queued = s.queued + 1;
    counts = record s.counts { enqueued = s.counts.enqueued + 1 };
  })

  -- `_enqueue` at a limit, by the policy and the queue
  unfoldable pub make_room :
      Overflow → String → List (WorkItem J) → WorkItem J → ContinuousRuntime J → ContinuousRuntime J
  unfolding push report_issue
  make_room drop_oldest agent_id (oldest ∷ queue) item s = push agent_id queue item (
      report_issue oldest_dropped oldest.event (about oldest) true false
        (record s { queued = s.queued - 1 }))
  make_room _ agent_id queue item s = report_issue queue_full item.event (about item) false true s

  abbrev pub is_queued : List (WorkItem J) → Bool
  is_queued [] = false
  is_queued (x ∷ queue) = true

  -- `_enqueue`, with the queue and the execution of the agent that its head looks up
  unfoldable pub offer :
      DeploymentPlan
      → AgentInstance
      → String
      → List (WorkItem J)
      → WorkItem J
      → ContinuousRuntime J
      → ContinuousRuntime J
  unfolding report_issue make_room push
  offer plan agent agent_id queue item s =
      if bounded_tick item && (contains s.bounded_active agent_id || is_queued queue)
      then report_issue tick_coalesced item.event (about item) true false (count_coalesced s)
      else if is_coalesce agent.overflow && any (same_coalesce_key item) queue
      then note_trigger item (
          count_coalesced
            (record s { queues = insert agent_id (replace_first item queue) s.queues }))
      else if leb agent.queue_capacity (length queue) || leb plan.max_queued_events s.queued
      then make_room agent.overflow agent_id queue item s
      else push agent_id queue item s

  -- `_enqueue`; `none` is a `KeyError` or a `CoordinationGraphError`, before anything is changed
  unfoldable pub enqueue :
      DeploymentPlan → WorkItem J → ContinuousRuntime J → Option (ContinuousRuntime J)
  unfolding offer execution_agent_id
  enqueue plan item s = elim (execution_agent_id plan item.agent.id) [
    | inl _ ↦ none
    | inr agent_id ↦ elim (find_agent plan agent_id) [
      | none ↦ none
      | some agent ↦ elim (lookup agent_id s.queues) [
        | none ↦ none
        | some queue ↦ some (offer plan agent agent_id queue item s)
      ]
    ]
  ]
