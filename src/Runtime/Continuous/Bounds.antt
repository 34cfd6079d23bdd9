-- ===== src/Runtime/Continuous/Bounds.antt =====
-- runtime/continuous.py: the bounds of the queues, in every interleaving of the threads.
use mininet_ai.Prelude.{
  ℕ, ◌-◌, String, ◌≡◌, refl, ap, sym, subst, Bool, true, false, not, Option, none, some, List, [],
  ◌∷◌, map, ◌==◌, arith, length, if◌then◌else◌, Bool-cases, Option-cases, inl, inr,
}
use mininet_ai.Prelude.Dict.{lookup}
use mininet_ai.Runtime.Continuous.Types.{
  AgentInstance, RuntimeEvent, Payloads, WorkItem, ContinuousRuntime, new_runtime, DeploymentPlan,
  dropped_on_stop,
}
use mininet_ai.Runtime.Continuous.Enqueue.{report_issue, about, enqueue}
use mininet_ai.Runtime.Continuous.Dispatch.{dispatch}
use mininet_ai.Runtime.Continuous.Steps.{
  all_items, emptied, drop_items, close_workers, receive_event, after_enqueue, enqueue_next,
  end_dispatch, take_item, Op, start_op, enqueue_op, close_op, stop_op, tick_op, take_op,
  receive_op, finish_op, step, run,
}
use mininet_ai.Runtime.Continuous.Quiet.{IsQuiet}
use mininet_ai.Runtime.Continuous.Matching.{dispatch-IsDispatched}
use mininet_ai.Runtime.Continuous.Calls.{
  start_runtime-IsQuiet, begin_stop-IsQuiet, finish_item-IsQuiet,
}
use mininet_ai.Runtime.Continuous.Queues.{
  enqueue-offer, list-cases, all_items-emptied, lookup-emptied,
}
use mininet_ai.Runtime.Continuous.Limits.{
  IsBounded, insert-IsBounded, queue-le-queued, offer-IsBounded,
}

module _ {J : Type 0} (plan : DeploymentPlan) where
  -- the states whose queues are within their limits
  abbrev Keeps : ContinuousRuntime J → Type 0
  Keeps s = IsBounded plan s.queued s.queues

  new-lookup :
      (agents : List AgentInstance) (a : String) (queue : List (WorkItem J))
      → lookup a (map (λ x. (x.id, [])) agents) ≡ some queue
      → queue ≡ []
  unfolding lookup
  new-lookup [] a queue h = cc
  new-lookup (x ∷ agents) a queue h = elim (Bool-cases (x.id == a)) [
    | inl e ↦ ground (arith, e)
    | inr e ↦ new-lookup agents a queue (ground (arith, e))
  ]

  abbrev no_items : List (WorkItem J)
  no_items = []

  pub new-items :
      (agents : List AgentInstance) → all_items (map (λ x. (x.id, [])) agents) ≡ no_items
  new-items [] = refl
  new-items (x ∷ agents) = new-items agents

  pub new-IsBounded : Keeps (new_runtime J plan)
  new-IsBounded = record {
    queued_total = ap length (sym (new-items plan.agents));
    within_plan = omega arith;
    within_agents = λ a agent queue _ at. ground (arith, new-lookup plan.agents a queue at);
  }

  pub enqueue-IsBounded :
      (item : WorkItem J) (s s' : ContinuousRuntime J)
      → enqueue plan item s ≡ some s'
      → Keeps s
      → Keeps s'
  enqueue-IsBounded item s s' h i =
      let (agent, a, queue, named, found, e) = enqueue-offer plan item s s' h in
      subst Keeps e (offer-IsBounded plan agent a item s named i queue found)

  pub queued-drop_items :
      (items : List (WorkItem J)) (s : ContinuousRuntime J)
      → (drop_items items s).queued ≡ s.queued - length items
  unfolding drop_items report_issue
  queued-drop_items [] s = omega arith
  queued-drop_items (item ∷ items) s = omega (
    arith,
    queued-drop_items items (
        report_issue dropped_on_stop item.event (about item) true false
          (record s { queued = s.queued - 1 })),
  )

  emptied-IsBounded :
      (queued : ℕ) (queues : List (String × List (WorkItem J)))
      → queued ≡ 0
      → IsBounded plan queued (emptied queues)
  emptied-IsBounded queued queues e = record {
    queued_total = ground (arith, e, all_items-emptied queues);
    within_plan = omega (arith, e);
    within_agents = λ a agent queue _ at. ground (arith, lookup-emptied a queues queue at);
  }

  if-bounded :
      (b : Bool) (x y : ContinuousRuntime J) → Keeps x → Keeps y → Keeps (if b then x else y)
  if-bounded true x y h k = h
  if-bounded false x y h k = k

  pub close_workers-IsBounded : (s : ContinuousRuntime J) → Keeps s → Keeps (close_workers s)
  unfolding close_workers
  close_workers-IsBounded s i =
      let ended = record s { workers_closed = true; dispatching = false } in
      let dropped = drop_items (all_items s.queues) ended in
      if-bounded s.drain ended (record dropped { queues = emptied s.queues }) i
        (emptied-IsBounded dropped.queued s.queues
          (omega (arith, i.queued_total, queued-drop_items (all_items s.queues) ended)))

  pub take_item-IsBounded :
      (a : String) (s : ContinuousRuntime J) → Keeps s → Keeps (take_item a s).1
  unfolding take_item
  take_item-IsBounded a s i = elim (Option-cases (lookup a s.queues)) [
    | inl e ↦ rw (e, take_item) i
    | inr ([], e) ↦ rw (e, take_item) i
    | inr (item ∷ rest, e) ↦
        rw (e, take_item)
          (insert-IsBounded plan a (item ∷ rest) rest s.queued (s.queued - 1) s.queues e
            (λ agent h. omega (arith, i.within_agents a agent (item ∷ rest) h e))
            (omega (arith, queue-le-queued plan a (item ∷ rest) s.queued s.queues e i))
            (omega (arith, i.within_plan)) i)
  ]

  module _ (payloads : Payloads J) where
    receive_event-IsBounded :
        (event : RuntimeEvent J) (s : ContinuousRuntime J)
        → Keeps s
        → Keeps (receive_event payloads plan event s)
    unfolding receive_event report_issue
    receive_event-IsBounded event s i = elim (list-cases s.pending) [
      | inr (item, rest, e) ↦ rw (e, receive_event) i
      | inl e ↦
          rw (e, receive_event)
            (if-bounded (not s.dispatching) s
              (if not s.drain
                then report_issue dropped_on_stop event none true false s
                else dispatch payloads plan event s)
              i
              (if-bounded (not s.drain) (report_issue dropped_on_stop event none true false s)
                (dispatch payloads plan event s) i
                (let d = dispatch-IsDispatched payloads plan event s e in
                  subst (IsBounded plan (dispatch payloads plan event s).queued) (sym d.queues_same)
                    (subst (λ n. IsBounded plan n s.queues) (sym d.queued_same) i))))
    ]

    after_enqueue-IsBounded :
        (item : WorkItem J) (rest : List (WorkItem J)) (s : ContinuousRuntime J)
        (o : Option (ContinuousRuntime J))
        → enqueue plan item s ≡ o
        → Keeps s
        → Keeps (after_enqueue rest s o)
    unfolding after_enqueue
    after_enqueue-IsBounded item rest s none g i = close_workers-IsBounded s i
    after_enqueue-IsBounded item rest s (some s') g i = enqueue-IsBounded item s s' g i

    enqueue_next-IsBounded : (s : ContinuousRuntime J) → Keeps s → Keeps (enqueue_next plan s)
    unfolding enqueue_next
    enqueue_next-IsBounded s i = elim (list-cases s.pending) [
      | inl e ↦ rw (e, enqueue_next) i
      | inr (item, rest, e) ↦
          rw (e, enqueue_next)
            (if-bounded (not s.dispatching) s (after_enqueue rest s (enqueue plan item s)) i
              (after_enqueue-IsBounded item rest s (enqueue plan item s) refl i))
    ]

    end_dispatch-IsBounded : (s : ContinuousRuntime J) → Keeps s → Keeps (end_dispatch s)
    unfolding end_dispatch
    end_dispatch-IsBounded s i = elim (list-cases s.pending) [
      | inr (item, rest, e) ↦ rw (e, end_dispatch) i
      | inl e ↦
          rw (e, end_dispatch)
            (if-bounded s.dispatching (close_workers s) s (close_workers-IsBounded s i) i)
    ]

    quiet-IsBounded : (s s' : ContinuousRuntime J) → IsQuiet s s' → Keeps s → Keeps s'
    quiet-IsBounded s s' q i =
        subst (IsBounded plan s'.queued) (sym q.queues_same)
          (subst (λ n. IsBounded plan n s.queues) (sym q.queued_same) i)

    pub step-IsBounded :
        (op : Op J) (s : ContinuousRuntime J) → Keeps s → Keeps (step payloads plan op s).1
    unfolding step
    step-IsBounded start_op s i = quiet-IsBounded s _ (start_runtime-IsQuiet s) i
    step-IsBounded (stop_op drain) s i = quiet-IsBounded s _ (begin_stop-IsQuiet drain s) i
    step-IsBounded (tick_op _) s i = i
    step-IsBounded (receive_op event) s i = receive_event-IsBounded event s i
    step-IsBounded enqueue_op s i = enqueue_next-IsBounded s i
    step-IsBounded close_op s i = end_dispatch-IsBounded s i
    step-IsBounded (take_op a) s i = take_item-IsBounded a s i
    step-IsBounded (finish_op a item outcome) s i =
        quiet-IsBounded s _ (finish_item-IsQuiet a item outcome s) i

    pub run-IsBounded :
        (ops : List (Op J)) (s : ContinuousRuntime J) → Keeps s → Keeps (run payloads plan ops s).1
    unfolding run
    run-IsBounded [] s i = i
    run-IsBounded (op ∷ ops) s i =
        run-IsBounded ops (step payloads plan op s).1 (step-IsBounded op s i)

    -- Whatever the threads do after the start: `_queued` is the number of the items in the queues, at
    -- most the plan's limit, and the queue of each agent is at most its capacity.
    pub queues-IsBounded :
        (ops : List (Op J))
        → let done = run payloads plan ops (new_runtime J plan) in
          IsBounded plan done.1.queued done.1.queues
    queues-IsBounded ops = run-IsBounded ops (new_runtime J plan) new-IsBounded
