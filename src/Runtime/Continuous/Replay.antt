-- ===== src/Runtime/Continuous/Replay.antt =====
-- runtime/continuous.py: `_dispatch` does not match an event again, whatever comes in between.
use mininet_ai.Prelude.{
  ℕ, ◌-◌, ◌≤◌, String, ◌≡◌, refl, ap, ◌∙◌, sym, subst, Bool, true, false, not, Option, none, some,
  List, [], ◌∷◌, arith, if◌then◌else◌, Option-cases, inl, inr,
}
use mininet_ai.Prelude.Dict.{lookup}
use mininet_ai.Runtime.Continuous.Types.{
  RuntimeEvent, Payloads, WorkItem, ContinuousRuntime, DeploymentPlan, dropped_on_stop,
}
use mininet_ai.Runtime.Continuous.Enqueue.{report_issue, about, enqueue}
use mininet_ai.Runtime.Continuous.Dispatch.{dispatch, is_stale}
use mininet_ai.Runtime.Continuous.Steps.{
  all_items, emptied, drop_items, close_workers, receive_event, after_enqueue, enqueue_next,
  end_dispatch, take_item, Op, start_op, enqueue_op, close_op, stop_op, tick_op, take_op,
  receive_op, finish_op, step, run,
}
use mininet_ai.Runtime.Continuous.Queues.{enqueue-offer, list-cases}
use mininet_ai.Runtime.Continuous.Quiet.{IsQuiet}
use mininet_ai.Runtime.Continuous.Calls.{
  start_runtime-IsQuiet, begin_stop-IsQuiet, finish_item-IsQuiet,
}
use mininet_ai.Runtime.Continuous.Limits.{IsBounded, queue-le-queued}
use mininet_ai.Runtime.Continuous.Bounds.{step-IsBounded}
use mininet_ai.Runtime.Continuous.Offers.{offer-IsOffered}
use mininet_ai.Runtime.Continuous.Sequences.{
  Knows, dispatch-sequences, sequences_after-learns, sequences_after-Knows,
}

module _ {J : Type 0} (payloads : Payloads J) (plan : DeploymentPlan) where
  module _ (source : String) (n : ℕ) where
    -- the states that know it
    abbrev Informed : ContinuousRuntime J → Type 0
    Informed s = Knows source n s.last_sequences

    same-Informed :
        (s s' : ContinuousRuntime J)
        → s'.last_sequences ≡ s.last_sequences
        → Informed s
        → Informed s'
    same-Informed s s' e k = subst (Knows source n) (sym e) k

    quiet-Informed : (s s' : ContinuousRuntime J) → IsQuiet s s' → Informed s → Informed s'
    quiet-Informed s s' q k = same-Informed s s' q.sequences_same k

    if-Informed :
        (b : Bool) (x y : ContinuousRuntime J)
        → Informed x
        → Informed y
        → Informed (if b then x else y)
    if-Informed true x y h k = h
    if-Informed false x y h k = k

    drop_items-Informed :
        (items : List (WorkItem J)) (s : ContinuousRuntime J)
        → Informed s
        → Informed (drop_items items s)
    unfolding drop_items report_issue
    drop_items-Informed [] s k = k
    drop_items-Informed (item ∷ items) s k =
        drop_items-Informed items
          (report_issue dropped_on_stop item.event (about item) true false
            (record s { queued = s.queued - 1 }))
          k

    close_workers-Informed : (s : ContinuousRuntime J) → Informed s → Informed (close_workers s)
    unfolding close_workers
    close_workers-Informed s k =
        let ended = record s { workers_closed = true; dispatching = false } in
        if-Informed s.drain ended
          (record (drop_items (all_items s.queues) ended) { queues = emptied s.queues }) k
          (drop_items-Informed (all_items s.queues) ended k)

    after_enqueue-Informed :
        (item : WorkItem J) (rest : List (WorkItem J)) (s : ContinuousRuntime J)
        (o : Option (ContinuousRuntime J))
        → enqueue plan item s ≡ o
        → IsBounded plan s.queued s.queues
        → Informed s
        → Informed (after_enqueue rest s o)
    unfolding after_enqueue
    after_enqueue-Informed item rest s none g b k = close_workers-Informed s k
    after_enqueue-Informed item rest s (some s') g b k =
        let (agent, a, queue, named, found, o) = enqueue-offer plan item s s' g in
        same-Informed s s'
          (sym (ap (λ x. x.last_sequences) o)
            ∙ (offer-IsOffered plan agent a queue item s
                (queue-le-queued plan a queue s.queued s.queues found b)).sequences_same)
          k

    receive_event-Informed :
        (event : RuntimeEvent J) (s : ContinuousRuntime J)
        → Informed s
        → Informed (receive_event payloads plan event s)
    unfolding receive_event report_issue
    receive_event-Informed event s k = elim (list-cases s.pending) [
      | inr (item, rest, e) ↦ rw (e, receive_event) k
      | inl e ↦
          let dropped = report_issue dropped_on_stop event none true false s in
          let dispatched = dispatch payloads plan event s in
          rw (e, receive_event)
            (if-Informed (not s.dispatching) s (if not s.drain then dropped else dispatched) k (
              if-Informed (not s.drain) dropped dispatched k (
                subst (Knows source n) (sym (dispatch-sequences payloads plan event s))
                  (sequences_after-Knows payloads plan source n event s.last_sequences k))))
    ]

    step-Informed :
        (op : Op J) (s : ContinuousRuntime J)
        → IsBounded plan s.queued s.queues
        → Informed s
        → Informed (step payloads plan op s).1
    unfolding step enqueue_next end_dispatch take_item
    step-Informed start_op s b k = quiet-Informed s _ (start_runtime-IsQuiet s) k
    step-Informed (stop_op drain) s b k = quiet-Informed s _ (begin_stop-IsQuiet drain s) k
    step-Informed (tick_op _) s b k = k
    step-Informed (receive_op event) s b k = receive_event-Informed event s k
    step-Informed enqueue_op s b k = elim (list-cases s.pending) [
      | inl e ↦ rw (step, e, enqueue_next) k
      | inr (item, rest, e) ↦
          rw (step, e, enqueue_next)
            (if-Informed (not s.dispatching) s (after_enqueue rest s (enqueue plan item s)) k
              (after_enqueue-Informed item rest s (enqueue plan item s) refl b k))
    ]
    step-Informed close_op s b k = elim (list-cases s.pending) [
      | inr (item, rest, e) ↦ rw (step, e, end_dispatch) k
      | inl e ↦
          rw (step, e, end_dispatch)
            (if-Informed s.dispatching (close_workers s) s (close_workers-Informed s k) k)
    ]
    step-Informed (take_op a) s b k = elim (Option-cases (lookup a s.queues)) [
      | inl e ↦ rw (step, take_item, e) k
      | inr ([], e) ↦ rw (step, take_item, e) k
      | inr (item ∷ rest, e) ↦ rw (step, take_item, e) k
    ]
    step-Informed (finish_op a item outcome) s b k =
        quiet-Informed s _ (finish_item-IsQuiet a item outcome s) k

    run-Informed :
        (ops : List (Op J)) (s : ContinuousRuntime J)
        → IsBounded plan s.queued s.queues
        → Informed s
        → Informed (run payloads plan ops s).1
    unfolding run
    run-Informed [] s b k = k
    run-Informed (op ∷ ops) s b k =
        run-Informed ops (step payloads plan op s).1 (step-IsBounded plan payloads op s b)
          (step-Informed op s b k)

  -- What a stale event leaves.
  stale-dispatch :
      (event : RuntimeEvent J) (s : ContinuousRuntime J)
      → Knows event.source event.sequence s.last_sequences
      → ((dispatch payloads plan event s).counts.matched ≡ s.counts.matched)
        × ((dispatch payloads plan event s).pending ≡ s.pending)
  unfolding dispatch report_issue
  stale-dispatch event s (m, at, low) =
      let e : is_stale payloads event s.last_sequences ≡ true = ground (arith, at, low) in
      rw (dispatch, e) (refl, refl)

  if-keeps :
      (b : Bool) (s x y : ContinuousRuntime J)
      → (x.counts.matched ≡ s.counts.matched) × (x.pending ≡ s.pending)
      → (y.counts.matched ≡ s.counts.matched) × (y.pending ≡ s.pending)
      → ((if b then x else y).counts.matched ≡ s.counts.matched)
        × ((if b then x else y).pending ≡ s.pending)
  if-keeps true s x y h k = h
  if-keeps false s x y h k = k

  stale-receive_event :
      (event : RuntimeEvent J) (s : ContinuousRuntime J)
      → Knows event.source event.sequence s.last_sequences
      → ((receive_event payloads plan event s).counts.matched ≡ s.counts.matched)
        × ((receive_event payloads plan event s).pending ≡ s.pending)
  unfolding receive_event report_issue
  stale-receive_event event s k = elim (list-cases s.pending) [
    | inr (item, rest, e) ↦ rw (receive_event, e) (refl, e)
    | inl e ↦
        let dropped = report_issue dropped_on_stop event none true false s in
        let dispatched = dispatch payloads plan event s in
        let kept =
          if-keeps (not s.dispatching) s s (if not s.drain then dropped else dispatched)
            (refl, refl)
            (if-keeps (not s.drain) s dropped dispatched (refl, refl) (stale-dispatch event s k)) in
        rw (receive_event, e) (kept.0, kept.1 ∙ e)
  ]

  receive_event-dispatch :
      (event : RuntimeEvent J) (s : ContinuousRuntime J)
      → s.pending ≡ []
      → s.dispatching ≡ true
      → s.drain ≡ true
      → (receive_event payloads plan event s).last_sequences
        ≡ (dispatch payloads plan event s).last_sequences
  unfolding receive_event
  receive_event-dispatch event s idle alive draining = ground (arith, idle, alive, draining)

  -- The dispatcher receives an event, with queues within their limits, nothing left to enqueue and no
  -- stop that discards; then the threads do what they do. After that an event of the same source
  -- whose number is not larger matches nothing and leaves nothing to enqueue.
  pub no_replay :
      (event again : RuntimeEvent J) (s : ContinuousRuntime J) (ops : List (Op J))
      → IsBounded plan s.queued s.queues
      → s.pending ≡ []
      → s.dispatching ≡ true
      → s.drain ≡ true
      → again.source ≡ event.source
      → again.sequence ≤ event.sequence
      → let s' = (run payloads plan (receive_op event ∷ ops) s).1 in
        ((receive_event payloads plan again s').counts.matched ≡ s'.counts.matched)
        × ((receive_event payloads plan again s').pending ≡ s'.pending)
  unfolding run step
  no_replay event again s ops b idle alive draining same older =
      let next = receive_event payloads plan event s in
      let s' = (run payloads plan ops next).1 in
      let learnt =
        subst (Knows event.source event.sequence)
          (sym (
            receive_event-dispatch event s idle alive draining
            ∙ dispatch-sequences payloads plan event s))
          (sequences_after-learns payloads plan event s.last_sequences) in
      let (m, at, low) =
        run-Informed event.source event.sequence ops next
          (step-IsBounded plan payloads (receive_op event) s b) learnt in
      stale-receive_event again s'
        (m, ap (λ x. lookup x s'.last_sequences) same ∙ at, omega (arith, low, older))
