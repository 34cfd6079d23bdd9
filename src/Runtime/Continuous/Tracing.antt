-- ===== src/Runtime/Continuous/Tracing.antt =====
-- runtime/continuous.py: what becomes of each item, over all steps of the threads.
use mininet_ai.Prelude.{
  ◌-◌, String, ◌≡◌, refl, ap, sym, subst, Bool, true, false, not, Option, none, some, List, [], ◌∷◌,
  ◌++◌, arith, count, count-append, if◌then◌else◌, Option-cases, inl, inr,
}
use mininet_ai.Prelude.Dict.{lookup, insert}
use mininet_ai.Runtime.Continuous.Types.{
  RuntimeEvent, Payloads, WorkItem, ContinuousRuntime, DeploymentPlan, dropped_on_stop,
}
use mininet_ai.Runtime.Continuous.Enqueue.{bounded_tick, report_issue, about, enqueue}
use mininet_ai.Runtime.Continuous.Dispatch.{dispatch}
use mininet_ai.Runtime.Continuous.Steps.{
  all_items, emptied, drop_items, close_workers, receive_event, after_enqueue, enqueue_next,
  end_dispatch, take_item, Op, start_op, enqueue_op, close_op, stop_op, tick_op, take_op,
  receive_op, finish_op, step, run,
}
use mininet_ai.Runtime.Continuous.Queues.{enqueue-offer, list-cases}
use mininet_ai.Runtime.Continuous.Quiet.{IsQuiet, IsQuiet-refl, event-IsQuiet}
use mininet_ai.Runtime.Continuous.Matching.{
  IsDispatched, quiet-IsDispatched, if-IsDispatched, dispatch-IsDispatched,
}
use mininet_ai.Runtime.Continuous.Calls.{
  start_runtime-IsQuiet, begin_stop-IsQuiet, finish_item-IsQuiet,
}
use mininet_ai.Runtime.Continuous.Items.{Traces, plain-Traces, Traces-trans, count-insert}
use mininet_ai.Runtime.Continuous.Fates.{offer-Traces, if-Traces, close_workers-Traces}

module _ {J : Type 0} (payloads : Payloads J) (plan : DeploymentPlan) where
  -- the items that a step finds: those that an event matches
  abbrev pub found_by : Op J → ContinuousRuntime J → List (WorkItem J)
  found_by (receive_op event) s = elim s.pending [
    | [] ↦ (receive_event payloads plan event s).pending
    | _ ∷ _ ↦ []
  ]
  found_by _ s = []

  abbrev pub found_in : List (Op J) → ContinuousRuntime J → List (WorkItem J)
  found_in [] s = []
  found_in (op ∷ ops) s = found_by op s ++ found_in ops (step payloads plan op s).1

  -- the items that the runtime keeps: in the queues, and those that are still to be enqueued
  abbrev pub kept : ContinuousRuntime J → List (WorkItem J)
  kept s = all_items s.queues ++ s.pending

  abbrev StepTraces :
      List (WorkItem J) → List (WorkItem J) → ContinuousRuntime J → ContinuousRuntime J → Type 0
  StepTraces ins outs s s' = Traces ins outs (kept s) (kept s') s s'

  quiet-Traces : (s s' : ContinuousRuntime J) → IsQuiet s s' → StepTraces [] [] s s'
  quiet-Traces s s' q =
      plain-Traces [] [] (kept s) (kept s') s s'
        (λ test. omega (
          arith,
          count-append test (all_items s.queues) s.pending,
          count-append test (all_items s'.queues) s'.pending,
          ap (λ q. count test (all_items q)) q.queues_same,
          ap (count test) q.pending_same,
        ))
        q.coalesced_same q.losses_same q.refusals_same

  -- `receive_event` by what is still to be enqueued
  receive_event-busy :
      (event : RuntimeEvent J) (s : ContinuousRuntime J) (item : WorkItem J)
      (rest : List (WorkItem J))
      → s.pending ≡ item ∷ rest
      → (receive_event payloads plan event s ≡ s) × (found_by (receive_op event) s ≡ [])
  unfolding receive_event
  receive_event-busy event s item rest e =
      let other =
        if not s.dispatching
        then s
        else if not s.drain
        then report_issue dropped_on_stop event none true false s
        else dispatch payloads plan event s in
      (
        ap (λ p. elim p as (λ _. ContinuousRuntime J) [ _ ∷ _ ↦ s | [] ↦ other ]) e,
        ap
            (λ p. elim p as (λ _. List (WorkItem J)) [
              | [] ↦ (receive_event payloads plan event s).pending
              | _ ∷ _ ↦ []
            ])
            e,
      )

  receive_event-idle :
      (event : RuntimeEvent J) (s : ContinuousRuntime J)
      → s.pending ≡ []
      → (receive_event payloads plan event s ≡ (
          if not s.dispatching
          then s
          else if not s.drain
          then report_issue dropped_on_stop event none true false s
          else dispatch payloads plan event s))
        × (found_by (receive_op event) s ≡ (receive_event payloads plan event s).pending)
  unfolding receive_event
  receive_event-idle event s e =
      let other =
        if not s.dispatching
        then s
        else if not s.drain
        then report_issue dropped_on_stop event none true false s
        else dispatch payloads plan event s in
      (
        ap (λ p. elim p as (λ _. ContinuousRuntime J) [ _ ∷ _ ↦ s | [] ↦ other ]) e,
        ap
            (λ p. elim p as (λ _. List (WorkItem J)) [
              | [] ↦ (receive_event payloads plan event s).pending
              | _ ∷ _ ↦ []
            ])
            e,
      )

  receive_event-IsDispatched :
      (event : RuntimeEvent J) (s : ContinuousRuntime J)
      → s.pending ≡ []
      → IsDispatched payloads s (receive_event payloads plan event s)
  receive_event-IsDispatched event s e =
      let dropped = report_issue dropped_on_stop event none true false s in
      let dispatched = dispatch payloads plan event s in
      subst (IsDispatched payloads s) (sym (receive_event-idle event s e).0) (
        if-IsDispatched payloads (not s.dispatching) s s
          (if not s.drain then dropped else dispatched)
          (quiet-IsDispatched payloads s s e (IsQuiet-refl s))
          (if-IsDispatched payloads (not s.drain) s dropped dispatched
            (quiet-IsDispatched payloads s dropped e
              (event-IsQuiet dropped_on_stop event true false s refl refl))
            (dispatch-IsDispatched payloads plan event s e)))

  receive_event-Traces :
      (event : RuntimeEvent J) (s : ContinuousRuntime J)
      → StepTraces (found_by (receive_op event) s) [] s (receive_event payloads plan event s)
  receive_event-Traces event s = elim (list-cases s.pending) [
    | inr (item, rest, e) ↦
        let (same, none_found) = receive_event-busy event s item rest e in
        subst (λ ins. StepTraces ins [] s (receive_event payloads plan event s)) (sym none_found)
          (subst (StepTraces [] [] s) (sym same) (quiet-Traces s s (IsQuiet-refl s)))
    | inl e ↦
        let s' = receive_event payloads plan event s in
        let d = receive_event-IsDispatched event s e in
        subst (λ ins. StepTraces ins [] s s') (sym (receive_event-idle event s e).1)
          (plain-Traces s'.pending [] (kept s) (kept s') s s'
            (λ test. omega (
              arith,
              count-append test (all_items s.queues) s.pending,
              count-append test (all_items s'.queues) s'.pending,
              ap (λ q. count test (all_items q)) d.queues_same,
              ap (count test) e,
            ))
            d.coalesced_same d.losses_same d.refusals_same)
  ]

  -- what comes in with an offer was still to be enqueued
  enqueued-Traces :
      (item : WorkItem J) (rest : List (WorkItem J)) (s s' : ContinuousRuntime J)
      → s.pending ≡ item ∷ rest
      → Traces (item ∷ []) [] (all_items s.queues) (all_items s'.queues) s s'
      → StepTraces [] [] s (record s' { pending = rest })
  enqueued-Traces item rest s s' e x = record {
    displaced = x.displaced;
    dropped = x.dropped;
    turned_down = x.turned_down;
    balance = λ test. omega (
      arith,
      x.balance test,
      ap (count test) e,
      count-append test (item ∷ []) rest,
      count-append test (all_items s.queues) s.pending,
      count-append test (all_items s'.queues) rest,
    );
    coalesced_more = x.coalesced_more;
    losses_more = x.losses_more;
    refusals_more = x.refusals_more;
  }

  -- a step that changes the queues alone
  queues-Traces :
      (outs : List (WorkItem J)) (s s' : ContinuousRuntime J)
      → s'.pending ≡ s.pending
      → Traces [] outs (all_items s.queues) (all_items s'.queues) s s'
      → StepTraces [] outs s s'
  queues-Traces outs s s' e x = record {
    displaced = x.displaced;
    dropped = x.dropped;
    turned_down = x.turned_down;
    balance = λ test. omega (
      arith,
      x.balance test,
      ap (count test) e,
      count-append test (all_items s.queues) s.pending,
      count-append test (all_items s'.queues) s'.pending,
    );
    coalesced_more = x.coalesced_more;
    losses_more = x.losses_more;
    refusals_more = x.refusals_more;
  }

  -- the fields that the steps below leave
  pending-drop_items :
      (items : List (WorkItem J)) (s : ContinuousRuntime J)
      → (drop_items items s).pending ≡ s.pending
  unfolding drop_items report_issue
  pending-drop_items [] s = refl
  pending-drop_items (item ∷ items) s = pending-drop_items items (
      report_issue dropped_on_stop item.event (about item) true false
        (record s { queued = s.queued - 1 }))

  if-pending :
      (b : Bool) (s x y : ContinuousRuntime J)
      → x.pending ≡ s.pending
      → y.pending ≡ s.pending
      → (if b then x else y).pending ≡ s.pending
  if-pending true s x y h k = h
  if-pending false s x y h k = k

  pending-close_workers : (s : ContinuousRuntime J) → (close_workers s).pending ≡ s.pending
  unfolding close_workers
  pending-close_workers s =
      let ended = record s { workers_closed = true; dispatching = false } in
      let t = drop_items (all_items s.queues) ended in
      if-pending s.drain s ended (record t { queues = emptied s.queues }) refl
        (pending-drop_items (all_items s.queues) ended)

  closed-Traces : (s : ContinuousRuntime J) → StepTraces [] [] s (close_workers s)
  closed-Traces s =
      queues-Traces [] s (close_workers s) (pending-close_workers s) (close_workers-Traces s)

  after_enqueue-Traces :
      (item : WorkItem J) (rest : List (WorkItem J)) (s : ContinuousRuntime J)
      (o : Option (ContinuousRuntime J))
      → s.pending ≡ item ∷ rest
      → enqueue plan item s ≡ o
      → StepTraces [] [] s (after_enqueue rest s o)
  unfolding after_enqueue
  after_enqueue-Traces item rest s none e g = closed-Traces s
  after_enqueue-Traces item rest s (some s') e g =
      let (agent, a, queue, named, found, o) = enqueue-offer plan item s s' g in
      enqueued-Traces item rest s s' e (
        subst (λ t. Traces (item ∷ []) [] (all_items s.queues) (all_items t.queues) s t) o
          (offer-Traces a item s plan agent queue found))

  -- a step that hands nothing out, by the state that it leaves
  same-Traces : (s s' : ContinuousRuntime J) → s' ≡ s → StepTraces [] [] s s'
  same-Traces s s' e = subst (StepTraces [] [] s) (sym e) (quiet-Traces s s (IsQuiet-refl s))

  enqueue_next-eq :
      (item : WorkItem J) (rest : List (WorkItem J)) (s : ContinuousRuntime J)
      → s.pending ≡ item ∷ rest
      → enqueue_next plan s
        ≡ (if not s.dispatching then s else after_enqueue rest s (enqueue plan item s))
  unfolding enqueue_next
  enqueue_next-eq item rest s e =
      ap
        (λ p. elim p as (λ _. ContinuousRuntime J) [
          | [] ↦ s
          | i ∷ r ↦ if not s.dispatching then s else after_enqueue r s (enqueue plan i s)
        ])
        e

  enqueue_next-idle : (s : ContinuousRuntime J) → s.pending ≡ [] → enqueue_next plan s ≡ s
  unfolding enqueue_next
  enqueue_next-idle s e =
      ap
        (λ p. elim p as (λ _. ContinuousRuntime J) [
          | [] ↦ s
          | i ∷ r ↦ if not s.dispatching then s else after_enqueue r s (enqueue plan i s)
        ])
        e

  enqueue_next-Traces : (s : ContinuousRuntime J) → StepTraces [] [] s (enqueue_next plan s)
  enqueue_next-Traces s = elim (list-cases s.pending) [
    | inl e ↦ same-Traces s (enqueue_next plan s) (enqueue_next-idle s e)
    | inr (item, rest, e) ↦ subst (StepTraces [] [] s) (sym (enqueue_next-eq item rest s e)) (
        if-Traces kept (not s.dispatching) [] [] (kept s) s s
          (after_enqueue rest s (enqueue plan item s)) (quiet-Traces s s (IsQuiet-refl s))
          (after_enqueue-Traces item rest s (enqueue plan item s) e refl))
  ]

  end_dispatch-idle :
      (s : ContinuousRuntime J)
      → s.pending ≡ []
      → end_dispatch s ≡ (if s.dispatching then close_workers s else s)
  unfolding end_dispatch
  end_dispatch-idle s e =
      ap
        (λ p. elim p as (λ _. ContinuousRuntime J) [
          | _ ∷ _ ↦ s
          | [] ↦ if s.dispatching then close_workers s else s
        ])
        e

  end_dispatch-busy :
      (item : WorkItem J) (rest : List (WorkItem J)) (s : ContinuousRuntime J)
      → s.pending ≡ item ∷ rest
      → end_dispatch s ≡ s
  unfolding end_dispatch
  end_dispatch-busy item rest s e =
      ap
        (λ p. elim p as (λ _. ContinuousRuntime J) [
          | _ ∷ _ ↦ s
          | [] ↦ if s.dispatching then close_workers s else s
        ])
        e

  end_dispatch-Traces : (s : ContinuousRuntime J) → StepTraces [] [] s (end_dispatch s)
  end_dispatch-Traces s = elim (list-cases s.pending) [
    | inr (item, rest, e) ↦ same-Traces s (end_dispatch s) (end_dispatch-busy item rest s e)
    | inl e ↦ subst (StepTraces [] [] s) (sym (end_dispatch-idle s e)) (
        if-Traces kept s.dispatching [] [] (kept s) s (close_workers s) s (closed-Traces s)
          (quiet-Traces s s (IsQuiet-refl s)))
  ]

  take_item-Traces :
      (a : String) (s : ContinuousRuntime J) → StepTraces [] (take_item a s).0 s (take_item a s).1
  unfolding take_item
  take_item-Traces a s = elim (Option-cases (lookup a s.queues)) [
    | inl e ↦ rw (e, take_item) (quiet-Traces s s (IsQuiet-refl s))
    | inr ([], e) ↦ rw (e, take_item) (quiet-Traces s s (IsQuiet-refl s))
    | inr (item ∷ rest, e) ↦
        let s' = record s {
          queues = insert a rest s.queues;
          queued = s.queued - 1;
          bounded_active = if bounded_tick item then a ∷ s.bounded_active else s.bounded_active;
        } in
        rw (e, take_item)
          (queues-Traces (item ∷ []) s s' refl (
            plain-Traces [] (item ∷ []) (all_items s.queues) (all_items s'.queues) s s'
              (λ test. omega (
                arith,
                count-insert test a (item ∷ rest) rest s.queues e,
                count-append test (item ∷ []) rest,
              ))
              refl refl refl))
  ]

  step-Traces :
      (op : Op J) (s : ContinuousRuntime J)
      → StepTraces (found_by op s) (step payloads plan op s).0 s (step payloads plan op s).1
  unfolding step
  step-Traces start_op s = quiet-Traces s _ (start_runtime-IsQuiet s)
  step-Traces (stop_op drain) s = quiet-Traces s _ (begin_stop-IsQuiet drain s)
  step-Traces (tick_op event_id) s =
      plain-Traces [] [] (kept s) (kept s) s
        (record s { scheduled_ticks = event_id ∷ s.scheduled_ticks }) (λ test. omega arith) refl
        refl refl
  step-Traces (receive_op event) s = receive_event-Traces event s
  step-Traces enqueue_op s = enqueue_next-Traces s
  step-Traces close_op s = end_dispatch-Traces s
  step-Traces (take_op a) s = take_item-Traces a s
  step-Traces (finish_op a item outcome) s = quiet-Traces s _ (finish_item-IsQuiet a item outcome s)

  pub run-Traces :
      (ops : List (Op J)) (s : ContinuousRuntime J)
      → StepTraces (found_in ops s) (run payloads plan ops s).0 s (run payloads plan ops s).1
  unfolding run
  run-Traces [] s = quiet-Traces s s (IsQuiet-refl s)
  run-Traces (op ∷ ops) s =
      let (out, t) = step payloads plan op s in
      Traces-trans (found_by op s) out (found_in ops t) (run payloads plan ops t).0 (kept s)
        (kept t) (kept (run payloads plan ops t).1) s t (run payloads plan ops t).1
        (step-Traces op s) (run-Traces ops t)
