-- ===== src/Runtime/Continuous/Steps.antt =====
-- runtime/continuous.py: the threads of the runtime as steps: the lifecycle, the loop of the
-- dispatcher, and the workers.
use mininet_ai.Prelude.{
  ◌+◌, ◌-◌, String, Bool, true, false, not, Option, none, some, List, [], ◌∷◌, ◌++◌, ◌==◌, keep,
  if◌then◌else◌,
}
use mininet_ai.Prelude.Dict.{lookup, insert}
use mininet_ai.Runtime.Continuous.Types.{
  ContinuousRuntimeState, created, running, stopping, stopped, RuntimeEvent, Payloads, WorkItem,
  dropped_on_stop, invocation_failed, ContinuousRuntime, DeploymentPlan,
}
use mininet_ai.Runtime.Continuous.Enqueue.{report_issue, about, bounded_tick, enqueue}
use mininet_ai.Runtime.Continuous.Dispatch.{dispatch}

-- What the threads do, one section after the other. A result is `none` for an exception, and else
-- tells whether the invocation succeeded.
pub data Op (J : Type 0) : Type 0 where
  start_op enqueue_op close_op : Op J
  stop_op : Bool → Op J
  tick_op take_op : String → Op J
  receive_op : RuntimeEvent J → Op J
  finish_op : String → WorkItem J → Option Bool → Op J

module _ {J : Type 0} where
  abbrev pub start_from :
      ContinuousRuntimeState → ContinuousRuntime J → Option (ContinuousRuntime J)
  start_from created s = some (record s { lifecycle = running })
  start_from _ s = none

  -- the guard of `start`, and the state it sets; `none` is the error
  unfoldable pub start_runtime : ContinuousRuntime J → Option (ContinuousRuntime J)
  start_runtime s = start_from s.lifecycle s

  abbrev pub stop_from :
      ContinuousRuntimeState → Bool → ContinuousRuntime J → Option (ContinuousRuntime J)
  stop_from created drain s = none
  stop_from running drain s = some (record s { lifecycle = stopping; drain = drain })
  stop_from stopping drain s = some s
  stop_from stopped drain s = some s

  -- the guards of `stop`, and the state it sets; `none` is the error
  unfoldable pub begin_stop : Bool → ContinuousRuntime J → Option (ContinuousRuntime J)
  begin_stop drain s = stop_from s.lifecycle drain s

  -- `queue.popleft()` until the queue is empty
  unfoldable pub drop_items : List (WorkItem J) → ContinuousRuntime J → ContinuousRuntime J
  unfolding report_issue
  drop_items [] s = s
  drop_items (item ∷ items) s = drop_items items (
      report_issue dropped_on_stop item.event (about item) true false
        (record s { queued = s.queued - 1 }))

  -- all items of `_queues.values()`, in order
  abbrev pub all_items : List (String × List (WorkItem J)) → List (WorkItem J)
  all_items [] = []
  all_items (q ∷ queues) = q.1 ++ all_items queues

  abbrev pub emptied : List (String × List (WorkItem J)) → List (String × List (WorkItem J))
  emptied [] = []
  emptied (q ∷ queues) = (q.0, []) ∷ emptied queues

  -- the `finally` of `_dispatch_loop`
  unfoldable pub close_workers : ContinuousRuntime J → ContinuousRuntime J
  unfolding drop_items
  close_workers s =
      let ended = record s { workers_closed = true; dispatching = false } in
      if s.drain
      then ended
      else record (drop_items (all_items s.queues) ended) { queues = emptied s.queues }

  -- one event in `_dispatch_loop`, when the dispatcher has enqueued what the last one matched
  unfoldable pub receive_event :
      Payloads J → DeploymentPlan → RuntimeEvent J → ContinuousRuntime J → ContinuousRuntime J
  unfolding dispatch report_issue
  receive_event payloads plan event s = elim s.pending [
    | _ ∷ _ ↦ s
    | [] ↦
        if not s.dispatching
        then s
        else if not s.drain
        then report_issue dropped_on_stop event none true false s
        else dispatch payloads plan event s
  ]

  unfoldable pub after_enqueue :
      List (WorkItem J) → ContinuousRuntime J → Option (ContinuousRuntime J) → ContinuousRuntime J
  unfolding close_workers
  after_enqueue rest s none = close_workers s
  after_enqueue rest s (some s') = record s' { pending = rest }

  -- one round of the loop of `_dispatch`; an exception ends the thread
  unfoldable pub enqueue_next : DeploymentPlan → ContinuousRuntime J → ContinuousRuntime J
  unfolding enqueue after_enqueue
  enqueue_next plan s = elim s.pending [
    | [] ↦ s
    | item ∷ rest ↦ if not s.dispatching then s else after_enqueue rest s (enqueue plan item s)
  ]

  -- the bus is closed and empty: the loop ends
  unfoldable pub end_dispatch : ContinuousRuntime J → ContinuousRuntime J
  unfolding close_workers
  end_dispatch s = elim s.pending [ _ ∷ _ ↦ s | [] ↦ if s.dispatching then close_workers s else s ]

  -- `_worker`: it takes the first item of its agent, if there is one
  unfoldable pub take_item : String → ContinuousRuntime J → List (WorkItem J) × ContinuousRuntime J
  take_item agent_id s = elim (lookup agent_id s.queues) [
    | none ↦ ([], s)
    | some queue ↦ elim queue [
      | [] ↦ ([], s)
      | item ∷ rest ↦ (
        item ∷ [],
        record s {
          queues = insert agent_id rest s.queues;
          queued = s.queued - 1;
          bounded_active =
              if bounded_tick item then agent_id ∷ s.bounded_active else s.bounded_active;
        },
      )
    ]
  ]

  -- `_process_item` after an exception
  abbrev pub fail_item : WorkItem J → ContinuousRuntime J → ContinuousRuntime J
  fail_item item s =
      let noted = report_issue invocation_failed item.event (about item) false false s in
      record noted { counts = record noted.counts { failed = noted.counts.failed + 1 } }

  -- the counts of `_process_item` after a result, by whether it succeeded
  abbrev pub complete_item : Bool → ContinuousRuntime J → ContinuousRuntime J
  complete_item succeeded s = record s {
    counts = record s.counts {
      completed = s.counts.completed + 1;
      failed = s.counts.failed + (if succeeded then 0 else 1);
    };
  }

  -- `_process_item`, by what the supervisor's `execute` gave; the records of invocations are left out
  unfoldable pub process_item : WorkItem J → Option Bool → ContinuousRuntime J → ContinuousRuntime J
  unfolding report_issue
  process_item item none s = fail_item item s
  process_item item (some succeeded) s = complete_item succeeded s

  -- `_worker`, after `take_item`
  unfoldable pub finish_item :
      String → WorkItem J → Option Bool → ContinuousRuntime J → ContinuousRuntime J
  unfolding process_item
  finish_item agent_id item outcome s =
      let done = process_item item outcome s in
      if bounded_tick item
      then record done { bounded_active = keep (λ a. not (a == agent_id)) done.bounded_active }
      else done

  -- the state that a call leaves, which raises or not
  abbrev pub left_by : ContinuousRuntime J → Option (ContinuousRuntime J) → ContinuousRuntime J
  left_by s none = s
  left_by s (some s') = s'

  module _ (payloads : Payloads J) (plan : DeploymentPlan) where
    -- a step, with the items that it hands to a worker
    unfoldable pub step : Op J → ContinuousRuntime J → List (WorkItem J) × ContinuousRuntime J
    unfolding start_runtime begin_stop receive_event enqueue_next end_dispatch take_item finish_item
    step start_op s = ([], left_by s (start_runtime s))
    step (stop_op drain) s = ([], left_by s (begin_stop drain s))
    step (tick_op event_id) s = ([], record s { scheduled_ticks = event_id ∷ s.scheduled_ticks })
    step (receive_op event) s = ([], receive_event payloads plan event s)
    step enqueue_op s = ([], enqueue_next plan s)
    step close_op s = ([], end_dispatch s)
    step (take_op agent_id) s = take_item agent_id s
    step (finish_op agent_id item outcome) s = ([], finish_item agent_id item outcome s)

    unfoldable pub run : List (Op J) → ContinuousRuntime J → List (WorkItem J) × ContinuousRuntime J
    unfolding step
    run [] s = ([], s)
    run (op ∷ ops) s =
        let (out, s') = step op s in let (outs, s'') = run ops s' in (out ++ outs, s'')
