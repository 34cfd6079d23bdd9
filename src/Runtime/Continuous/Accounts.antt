-- ===== src/Runtime/Continuous/Accounts.antt =====
-- runtime/continuous.py: no item is lost without an account of it, in every interleaving.
use mininet_ai.Prelude.{
  map, count, count-append, ℕ, ◌+◌, ◌-◌, ◌≤◌, String, ◌≡◌, refl, ap, subst, Bool, true, false, not,
  Option, none, some, List, [], ◌∷◌, arith, length, length-append, if◌then◌else◌, Option-cases, inl,
  inr,
}
use mininet_ai.Prelude.Dict.{lookup}
use mininet_ai.Runtime.Continuous.Types.{
  RuntimeEvent, Payloads, WorkItem, ContinuousRuntime, new_runtime, DeploymentPlan, dropped_on_stop,
}
use mininet_ai.Runtime.Continuous.Enqueue.{report_issue, about, enqueue}
use mininet_ai.Runtime.Continuous.Dispatch.{dispatch}
use mininet_ai.Runtime.Continuous.Steps.{
  all_items, emptied, drop_items, close_workers, receive_event, after_enqueue, enqueue_next,
  end_dispatch, take_item, Op, start_op, enqueue_op, close_op, stop_op, tick_op, take_op,
  receive_op, finish_op, step, run,
}
use mininet_ai.Runtime.Continuous.Queues.{enqueue-offer, list-cases}
use mininet_ai.Runtime.Continuous.Quiet.{
  losses, refusals, IsQuiet, refused, lost, refused-report_issue, lost-report_issue, event-IsQuiet,
}
use mininet_ai.Runtime.Continuous.Matching.{dispatch-IsDispatched}
use mininet_ai.Runtime.Continuous.Calls.{
  start_runtime-IsQuiet, begin_stop-IsQuiet, finish_item-IsQuiet,
}
use mininet_ai.Runtime.Continuous.Limits.{IsBounded, queue-le-queued}
use mininet_ai.Runtime.Continuous.Bounds.{new-items, new-IsBounded, step-IsBounded}
use mininet_ai.Runtime.Continuous.Offers.{IsOffered, offer-IsOffered}
use mininet_ai.Runtime.Continuous.Items.{issue_name, item_name}
use mininet_ai.Runtime.Continuous.Tracing.{found_in, run-Traces}

module _ {J : Type 0} where
  -- Every item that matched was enqueued, coalesced or refused, or is still to be enqueued; every item
  -- that was enqueued was handed to a worker or dropped, or is in a queue.
  pub record AreAccounted (handed : ℕ) (s : ContinuousRuntime J) : Type 0 where
    pub matched_all :
        s.counts.matched ≡ s.counts.enqueued + s.counts.coalesced + refused s + length s.pending
    pub enqueued_all : s.counts.enqueued ≡ handed + s.queued + lost s

  module _ (handed : ℕ) where
    enqueued-AreAccounted :
        (item : WorkItem J) (rest : List (WorkItem J)) (s s' : ContinuousRuntime J)
        → s.pending ≡ item ∷ rest
        → IsOffered s s'
        → AreAccounted handed s
        → AreAccounted handed (record s' { pending = rest })
    enqueued-AreAccounted item rest s s' e o i = record {
      matched_all = omega (arith, o.matched_same, o.one_more, i.matched_all, ap length e);
      enqueued_all = omega (arith, o.kept, i.enqueued_all);
    }

    -- what `drop_items` leaves of the accounts
    dropped-AreAccounted :
        (items : List (WorkItem J)) (s : ContinuousRuntime J)
        → length items ≤ s.queued
        → AreAccounted handed s
        → AreAccounted handed (drop_items items s)
    unfolding drop_items report_issue
    dropped-AreAccounted [] s h i = i
    dropped-AreAccounted (item ∷ items) s h i =
        let s' = record s { queued = s.queued - 1 } in
        dropped-AreAccounted items
          (report_issue dropped_on_stop item.event (about item) true false s') (omega (arith, h))
          (record {
            matched_all = omega (
              arith,
              i.matched_all,
              refused-report_issue dropped_on_stop item.event (about item) true false s',
            );
            enqueued_all = omega (
              arith,
              h,
              i.enqueued_all,
              lost-report_issue dropped_on_stop item.event (item.agent.id, item.trigger) true false
                  s',
            );
          })

    same-AreAccounted :
        (b : Bool) (x y : ContinuousRuntime J)
        → AreAccounted handed x
        → AreAccounted handed y
        → AreAccounted handed (if b then x else y)
    same-AreAccounted true x y i j = i
    same-AreAccounted false x y i j = j

    quiet-AreAccounted :
        (s s' : ContinuousRuntime J) → IsQuiet s s' → AreAccounted handed s → AreAccounted handed s'
    quiet-AreAccounted s s' q i = record {
      matched_all = omega (
        arith,
        i.matched_all,
        q.matched_same,
        q.enqueued_same,
        q.coalesced_same,
        q.refused_same,
        ap length q.pending_same,
      );
      enqueued_all = omega (arith, i.enqueued_all, q.enqueued_same, q.queued_same, q.lost_same);
    }

    close_workers-AreAccounted :
        (plan : DeploymentPlan) (s : ContinuousRuntime J)
        → IsBounded plan s.queued s.queues
        → AreAccounted handed s
        → AreAccounted handed (close_workers s)
    unfolding close_workers
    close_workers-AreAccounted plan s b i =
        let ended = record s { workers_closed = true; dispatching = false } in
        let dropped = drop_items (all_items s.queues) ended in
        let same : AreAccounted handed ended = record {
          matched_all = i.matched_all;
          enqueued_all = i.enqueued_all;
        } in
        let kept =
          dropped-AreAccounted (all_items s.queues) ended (omega (arith, b.queued_total)) same in
        same-AreAccounted s.drain ended (record dropped { queues = emptied s.queues }) same
          (record { matched_all = kept.matched_all; enqueued_all = kept.enqueued_all })

    module _ (payloads : Payloads J) (plan : DeploymentPlan) (s : ContinuousRuntime J)
        (b : IsBounded plan s.queued s.queues) (i : AreAccounted handed s) where
      dispatch-AreAccounted :
          (event : RuntimeEvent J)
          → s.pending ≡ []
          → AreAccounted handed (dispatch payloads plan event s)
      dispatch-AreAccounted event e =
          let d = dispatch-IsDispatched payloads plan event s e in
          record {
            matched_all = omega (
              arith,
              i.matched_all,
              ap length e,
              d.matched_more,
              d.enqueued_same,
              d.coalesced_same,
              d.refused_same,
            );
            enqueued_all =
                omega (arith, i.enqueued_all, d.enqueued_same, d.queued_same, d.lost_same);
          }

      receive_event-AreAccounted :
          (event : RuntimeEvent J) → AreAccounted handed (receive_event payloads plan event s)
      unfolding receive_event
      receive_event-AreAccounted event = elim (list-cases s.pending) [
        | inr (item, rest, e) ↦ rw (e, receive_event) i
        | inl e ↦
            let dropped = report_issue dropped_on_stop event none true false s in
            let dispatched = dispatch payloads plan event s in
            rw (e, receive_event)
              (same-AreAccounted (not s.dispatching) s (if not s.drain then dropped else dispatched)
                i
                (same-AreAccounted (not s.drain) dropped dispatched
                  (quiet-AreAccounted s dropped
                    (event-IsQuiet dropped_on_stop event true false s refl refl) i)
                  (dispatch-AreAccounted event e)))
      ]

      after_enqueue-AreAccounted :
          (item : WorkItem J) (rest : List (WorkItem J)) (o : Option (ContinuousRuntime J))
          → s.pending ≡ item ∷ rest
          → enqueue plan item s ≡ o
          → AreAccounted handed (after_enqueue rest s o)
      unfolding after_enqueue
      after_enqueue-AreAccounted item rest none e g = close_workers-AreAccounted plan s b i
      after_enqueue-AreAccounted item rest (some s') e g =
          let (agent, a, queue, named, found, o) = enqueue-offer plan item s s' g in
          enqueued-AreAccounted item rest s s' e
            (subst (IsOffered s) o (
              offer-IsOffered plan agent a queue item s
                (queue-le-queued plan a queue s.queued s.queues found b)))
            i

      enqueue_next-AreAccounted : AreAccounted handed (enqueue_next plan s)
      unfolding enqueue_next
      enqueue_next-AreAccounted = elim (list-cases s.pending) [
        | inl e ↦ rw (e, enqueue_next) i
        | inr (item, rest, e) ↦
            rw (e, enqueue_next)
              (same-AreAccounted (not s.dispatching) s (after_enqueue rest s (enqueue plan item s))
                i (after_enqueue-AreAccounted item rest (enqueue plan item s) e refl))
      ]

      end_dispatch-AreAccounted : AreAccounted handed (end_dispatch s)
      unfolding end_dispatch
      end_dispatch-AreAccounted = elim (list-cases s.pending) [
        | inr (item, rest, e) ↦ rw (e, end_dispatch) i
        | inl e ↦
            rw (e, end_dispatch)
              (same-AreAccounted s.dispatching (close_workers s) s
                (close_workers-AreAccounted plan s b i) i)
      ]

      take_item-AreAccounted :
          (a : String) → AreAccounted (handed + length (take_item a s).0) (take_item a s).1
      unfolding take_item
      take_item-AreAccounted a = elim (Option-cases (lookup a s.queues)) [
        | inl e ↦
            rw (e, take_item)
              (record { matched_all = i.matched_all; enqueued_all = omega (arith, i.enqueued_all) })
        | inr ([], e) ↦
            rw (e, take_item)
              (record { matched_all = i.matched_all; enqueued_all = omega (arith, i.enqueued_all) })
        | inr (item ∷ rest, e) ↦
            rw (e, take_item)
              (record {
                matched_all = i.matched_all;
                enqueued_all = omega (
                  arith,
                  i.enqueued_all,
                  queue-le-queued plan a (item ∷ rest) s.queued s.queues e b,
                );
              })
      ]

      more : (s' : ContinuousRuntime J) → AreAccounted handed s' → AreAccounted (handed + 0) s'
      more s' k = subst (λ n. AreAccounted n s') (omega arith) k

      step-AreAccounted :
          (op : Op J)
          → AreAccounted (handed + length (step payloads plan op s).0) (step payloads plan op s).1
      unfolding step
      step-AreAccounted start_op = more _ (quiet-AreAccounted s _ (start_runtime-IsQuiet s) i)
      step-AreAccounted (stop_op drain) =
          more _ (quiet-AreAccounted s _ (begin_stop-IsQuiet drain s) i)
      step-AreAccounted (tick_op _) = record {
        matched_all = i.matched_all;
        enqueued_all = omega (arith, i.enqueued_all);
      }
      step-AreAccounted (receive_op event) = more _ (receive_event-AreAccounted event)
      step-AreAccounted enqueue_op = more _ enqueue_next-AreAccounted
      step-AreAccounted close_op = more _ end_dispatch-AreAccounted
      step-AreAccounted (take_op a) = take_item-AreAccounted a
      step-AreAccounted (finish_op a item outcome) =
          more _ (quiet-AreAccounted s _ (finish_item-IsQuiet a item outcome s) i)

  module _ (payloads : Payloads J) (plan : DeploymentPlan) where
    run-AreAccounted :
        (handed : ℕ) (ops : List (Op J)) (s : ContinuousRuntime J)
        → IsBounded plan s.queued s.queues
        → AreAccounted handed s
        → AreAccounted (handed + length (run payloads plan ops s).0) (run payloads plan ops s).1
    unfolding run
    run-AreAccounted handed [] s b i = subst (λ n. AreAccounted n s) (omega arith) i
    run-AreAccounted handed (op ∷ ops) s b i =
        let after = step payloads plan op s in
        let rest = run payloads plan ops after.1 in
        subst (λ n. AreAccounted n rest.1) (omega (arith, length-append after.0 rest.0))
          (run-AreAccounted (handed + length after.0) ops after.1
            (step-IsBounded plan payloads op s b) (step-AreAccounted handed payloads plan s b i op))

    -- Whatever the threads do after the start, each item that an event matched has exactly one fate: it
    -- is in a queue, still to be enqueued, taken by a worker, displaced by coalescing, dropped from a
    -- queue, or turned down. The report tells of each: `coalesced` is the number of those displaced, the
    -- issues about drops name exactly those dropped, in order, those about full queues exactly those
    -- turned down. And the counts agree: `matched` is the sum of `enqueued`, `coalesced`, the refusals
    -- and what is to be enqueued, and `enqueued` that of what workers took, what waits and the drops.
    pub no_silent_loss :
        (ops : List (Op J))
        → let done = run payloads plan ops (new_runtime J plan) in
          ((displaced : List (WorkItem J)) × (dropped : List (WorkItem J)) × (turned_down : List
              (WorkItem J))
            × ((test : WorkItem J → Bool)
                → count test (found_in payloads plan ops (new_runtime J plan))
                  ≡ count test (all_items done.1.queues)
                    + count test done.1.pending
                    + count test done.0
                    + count test displaced
                    + count test dropped
                    + count test turned_down)
            × (done.1.counts.coalesced ≡ length displaced)
            × (map issue_name (losses done.1) ≡ map item_name dropped)
            × (map issue_name (refusals done.1) ≡ map item_name turned_down))
          × (done.1.counts.matched
              ≡ done.1.counts.enqueued
                + done.1.counts.coalesced
                + refused done.1
                + length done.1.pending)
          × (done.1.counts.enqueued ≡ length done.0 + done.1.queued + lost done.1)
    no_silent_loss ops =
        let first = new_runtime J plan in
        let done = run payloads plan ops first in
        let i =
          run-AreAccounted 0 ops first (new-IsBounded plan)
            (record { matched_all = refl; enqueued_all = refl }) in
        let x = run-Traces payloads plan ops first in
        (
          (
            x.displaced,
            x.dropped,
            x.turned_down,
            λ test. omega (
              arith,
              x.balance test,
              ap (count test) (new-items {J = J} plan plan.agents),
              count-append test (all_items first.queues) first.pending,
              count-append test (all_items done.1.queues) done.1.pending,
            ),
            omega (arith, x.coalesced_more),
            x.losses_more,
            x.refusals_more,
          ),
          i.matched_all,
          omega (arith, i.enqueued_all),
        )
