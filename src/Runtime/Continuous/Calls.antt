-- ===== src/Runtime/Continuous/Calls.antt =====
-- runtime/continuous.py: calls that leave the queues as they are: `start`, `stop` and what a worker does
-- with an item that it has taken.
use mininet_ai.Prelude.{
  ℕ, String, refl, Bool, false, Option, none, some, List, keep, not, ◌==◌, Bool-cases, inl, inr,
  ◌+◌, if◌then◌else◌,
}
use mininet_ai.Runtime.Continuous.Types.{
  ContinuousRuntimeState, created, running, stopping, stopped, WorkItem, ContinuousRuntime,
  invocation_failed,
}
use mininet_ai.Runtime.Continuous.Enqueue.{report_issue, about, bounded_tick}
use mininet_ai.Runtime.Continuous.Steps.{
  start_runtime, start_from, begin_stop, stop_from, left_by, process_item, finish_item,
}
use mininet_ai.Runtime.Continuous.Quiet.{IsQuiet, IsQuiet-refl, IsQuiet-trans, item-IsQuiet}

module _ {J : Type 0} where
  -- the states that the lifecycle, the issues and `_bounded_active` tell apart
  same-IsQuiet :
      (lifecycle : ContinuousRuntimeState) (drain : Bool) (active : List String)
      (completed failed : ℕ) (s : ContinuousRuntime J)
      → IsQuiet s (record s {
        lifecycle = lifecycle;
        drain = drain;
        bounded_active = active;
        counts = record s.counts { completed = completed; failed = failed };
      })
  same-IsQuiet lifecycle drain active completed failed s = record {
    queued_same = refl;
    queues_same = refl;
    enqueued_same = refl;
    coalesced_same = refl;
    matched_same = refl;
    pending_same = refl;
    refused_same = refl;
    lost_same = refl;
    refusals_same = refl;
    losses_same = refl;
    sequences_same = refl;
  }

  start_from-IsQuiet :
      (state : ContinuousRuntimeState) (s : ContinuousRuntime J)
      → IsQuiet s (left_by s (start_from state s))
  start_from-IsQuiet created s =
      same-IsQuiet running s.drain s.bounded_active s.counts.completed s.counts.failed s
  start_from-IsQuiet running s = IsQuiet-refl s
  start_from-IsQuiet stopping s = IsQuiet-refl s
  start_from-IsQuiet stopped s = IsQuiet-refl s

  pub start_runtime-IsQuiet : (s : ContinuousRuntime J) → IsQuiet s (left_by s (start_runtime s))
  unfolding start_runtime
  start_runtime-IsQuiet s = start_from-IsQuiet s.lifecycle s

  stop_from-IsQuiet :
      (state : ContinuousRuntimeState) (drain : Bool) (s : ContinuousRuntime J)
      → IsQuiet s (left_by s (stop_from state drain s))
  stop_from-IsQuiet created drain s = IsQuiet-refl s
  stop_from-IsQuiet running drain s =
      same-IsQuiet stopping drain s.bounded_active s.counts.completed s.counts.failed s
  stop_from-IsQuiet stopping drain s = IsQuiet-refl s
  stop_from-IsQuiet stopped drain s = IsQuiet-refl s

  pub begin_stop-IsQuiet :
      (drain : Bool) (s : ContinuousRuntime J) → IsQuiet s (left_by s (begin_stop drain s))
  unfolding begin_stop
  begin_stop-IsQuiet drain s = stop_from-IsQuiet s.lifecycle drain s

  process_item-IsQuiet :
      (item : WorkItem J) (outcome : Option Bool) (s : ContinuousRuntime J)
      → IsQuiet s (process_item item outcome s)
  unfolding process_item
  process_item-IsQuiet item none s =
      let noted = report_issue invocation_failed item.event (about item) false false s in
      IsQuiet-trans s noted _
        (item-IsQuiet invocation_failed item.event (item.agent.id, item.trigger) false false s refl
          refl)
        (same-IsQuiet noted.lifecycle noted.drain noted.bounded_active noted.counts.completed
          (noted.counts.failed + 1) noted)
  process_item-IsQuiet item (some succeeded) s =
      same-IsQuiet s.lifecycle s.drain s.bounded_active (s.counts.completed + 1)
        (s.counts.failed + (if succeeded then 0 else 1)) s

  pub finish_item-IsQuiet :
      (agent_id : String) (item : WorkItem J) (outcome : Option Bool) (s : ContinuousRuntime J)
      → IsQuiet s (finish_item agent_id item outcome s)
  unfolding finish_item
  finish_item-IsQuiet agent_id item outcome s =
      let done = process_item item outcome s in
      let quiet = process_item-IsQuiet item outcome s in
      elim (Bool-cases (bounded_tick item)) [
        | inr e ↦ rw (e, finish_item) quiet
        | inl e ↦
            rw (e, finish_item)
              (IsQuiet-trans s done _ quiet (
                same-IsQuiet done.lifecycle done.drain
                  (keep (λ b. not (b == agent_id)) done.bounded_active) done.counts.completed
                  done.counts.failed done))
      ]
