-- ===== src/Runtime/Continuous/Fates.antt =====
-- runtime/continuous.py: what becomes of the items in `_enqueue` and when a stop discards the queues.
use mininet_ai.Prelude.{
  eq_refl, ◌-◌, String, ◌≡◌, refl, ap, ◌∙◌, sym, Bool, true, false, ◌&&◌, ◌||◌, some, List, [], ◌∷◌,
  ◌++◌, map, ◌==◌, append-nil, arith, any, contains, leb, length, count, count-append,
  if◌then◌else◌,
}
use mininet_ai.Prelude.Dict.{lookup, insert, lookup-insert}
use mininet_ai.Runtime.Continuous.Types.{
  AgentInstance, WorkItem, ContinuousRuntime, DeploymentPlan, Overflow, reject, drop_oldest,
  coalesce, tick_coalesced, queue_full, oldest_dropped, dropped_on_stop,
}
use mininet_ai.Runtime.Continuous.Enqueue.{
  report_issue, about, bounded_tick, same_coalesce_key, replace_first, note_trigger,
  count_coalesced, push, make_room, is_coalesce, is_queued, offer,
}
use mininet_ai.Runtime.Continuous.Steps.{all_items, emptied, drop_items, close_workers}
use mininet_ai.Runtime.Continuous.Queues.{all_items-emptied}
use mininet_ai.Runtime.Continuous.Quiet.{refusals, losses}
use mininet_ai.Runtime.Continuous.Items.{
  Traces, plain-Traces, Traces-trans, count-insert, replace_first-split, issue_name,
}
use mininet_ai.Runtime.Continuous.Names.{losses-named, refusals-named, losses-skip, refusals-skip}

module _ {J : Type 0} where
  module _ (a : String) (item : WorkItem J) (s : ContinuousRuntime J) where
    -- the item comes in, and the queues become these
    abbrev Enters : ContinuousRuntime J → Type 0
    Enters s' = Traces (item ∷ []) [] (all_items s.queues) (all_items s'.queues) s s'

    push-Enters :
        (queue : List (WorkItem J)) → lookup a s.queues ≡ some queue → Enters (push a queue item s)
    unfolding push
    push-Enters queue found =
        plain-Traces (item ∷ []) [] (all_items s.queues)
          (all_items (insert a (queue ++ item ∷ []) s.queues)) s (push a queue item s)
          (λ test. omega (
            arith,
            count-insert test a queue (queue ++ item ∷ []) s.queues found,
            count-append test queue (item ∷ []),
          ))
          refl refl refl

    refuse-Enters : Enters (report_issue queue_full item.event (about item) false true s)
    unfolding report_issue
    refuse-Enters = record {
      displaced = [];
      dropped = [];
      turned_down = item ∷ [];
      balance = λ test. omega arith;
      coalesced_more = omega arith;
      losses_more = losses-skip queue_full item false true s refl;
      refusals_more = refusals-named queue_full item false true s refl;
    }

    oldest-Enters :
        (oldest : WorkItem J) (queue : List (WorkItem J))
        → lookup a s.queues ≡ some (oldest ∷ queue)
        → Enters (
            push a queue item (
              report_issue oldest_dropped oldest.event
                (about oldest)
                true
                false
                (record s { queued = s.queued - 1 })))
    unfolding push report_issue
    oldest-Enters oldest queue found =
        let t = record s { queued = s.queued - 1 } in
        record {
          displaced = [];
          dropped = oldest ∷ [];
          turned_down = [];
          balance = λ test. omega (
            arith,
            count-insert test a (oldest ∷ queue) (queue ++ item ∷ []) s.queues found,
            count-append test queue (item ∷ []),
            count-append test (oldest ∷ []) queue,
          );
          coalesced_more = omega arith;
          losses_more = losses-named oldest_dropped oldest true false t refl;
          refusals_more = refusals-skip oldest_dropped oldest true false t refl;
        }

    make_room-Enters :
        (overflow : Overflow) (queue : List (WorkItem J))
        → lookup a s.queues ≡ some queue
        → Enters (make_room overflow a queue item s)
    unfolding make_room
    make_room-Enters drop_oldest (oldest ∷ queue) found = oldest-Enters oldest queue found
    make_room-Enters drop_oldest [] found = refuse-Enters
    make_room-Enters reject queue found = refuse-Enters
    make_room-Enters coalesce queue found = refuse-Enters

    tick-Enters :
        Enters (report_issue tick_coalesced item.event (about item) true false (count_coalesced s))
    unfolding report_issue
    tick-Enters = record {
      displaced = item ∷ [];
      dropped = [];
      turned_down = [];
      balance = λ test. omega arith;
      coalesced_more = refl;
      losses_more = losses-skip tick_coalesced item true false (count_coalesced s) refl;
      refusals_more = refusals-skip tick_coalesced item true false (count_coalesced s) refl;
    }

    replace-Enters :
        (queue : List (WorkItem J))
        → lookup a s.queues ≡ some queue
        → any (same_coalesce_key item) queue ≡ true
        → Enters (
            note_trigger item (
              count_coalesced (record s { queues = insert a (replace_first item queue) s.queues })))
    replace-Enters queue found waits =
        let (front, old, back, split, _, _, replaced) = replace_first-split item queue waits in
        record {
          displaced = old ∷ [];
          dropped = [];
          turned_down = [];
          balance = λ test. omega (
            arith,
            count-insert test a queue (replace_first item queue) s.queues found,
            ap (count test) split,
            ap (count test) replaced,
            count-append test front (old ∷ back),
            count-append test front (item ∷ back),
            count-append test (old ∷ []) back,
            count-append test (item ∷ []) back,
          );
          coalesced_more = refl;
          losses_more = sym (append-nil (map issue_name (losses s)));
          refusals_more = sym (append-nil (map issue_name (refusals s)));
        }

    if-Enters :
        (b : Bool) (x y : ContinuousRuntime J)
        → (b ≡ true → Enters x)
        → Enters y
        → Enters (if b then x else y)
    if-Enters true x y i j = i refl
    if-Enters false x y i j = j

    pub offer-Traces :
        (plan : DeploymentPlan) (agent : AgentInstance) (queue : List (WorkItem J))
        → lookup a s.queues ≡ some queue
        → Enters (offer plan agent a queue item s)
    unfolding offer
    offer-Traces plan agent queue found =
        let replaced =
          note_trigger item (
            count_coalesced (record s { queues = insert a (replace_first item queue) s.queues })) in
        let at_limit =
          leb agent.queue_capacity (length queue) || leb plan.max_queued_events s.queued in
        let roomy = make_room agent.overflow a queue item s in
        let pushed = push a queue item s in
        let stays = is_coalesce agent.overflow && any (same_coalesce_key item) queue in
        if-Enters (bounded_tick item && (contains s.bounded_active a || is_queued queue))
          (report_issue tick_coalesced item.event (about item) true false (count_coalesced s))
          (if stays then replaced else if at_limit then roomy else pushed) (λ _. tick-Enters)
          (if-Enters stays replaced (if at_limit then roomy else pushed)
            (λ h. replace-Enters queue found (ground (arith, h)))
            (if-Enters at_limit roomy pushed (λ _. make_room-Enters agent.overflow queue found)
              (push-Enters queue found)))

  -- A stop drops the items of the queues, each with an issue.
  drop_items-Traces :
      (items : List (WorkItem J)) (s : ContinuousRuntime J)
      → Traces [] [] items [] s (drop_items items s)
  unfolding drop_items report_issue
  drop_items-Traces [] s = plain-Traces [] [] [] [] s s (λ test. refl) refl refl refl
  drop_items-Traces (item ∷ items) s =
      let t = record s { queued = s.queued - 1 } in
      let next = report_issue dropped_on_stop item.event (about item) true false t in
      Traces-trans [] [] [] [] (item ∷ items) items [] s next (drop_items items next)
        (record {
          displaced = [];
          dropped = item ∷ [];
          turned_down = [];
          balance = λ test. omega (arith, count-append test (item ∷ []) items);
          coalesced_more = omega arith;
          losses_more = losses-named dropped_on_stop item true false t refl;
          refusals_more = refusals-skip dropped_on_stop item true false t refl;
        })
        (drop_items-Traces items next)

  pub if-Traces :
      (f : ContinuousRuntime J → List (WorkItem J)) (b : Bool) (ins outs before : List (WorkItem J))
      (s x y : ContinuousRuntime J)
      → Traces ins outs before (f x) s x
      → Traces ins outs before (f y) s y
      → Traces ins outs before (f (if b then x else y)) s (if b then x else y)
  if-Traces f true ins outs before s x y i j = i
  if-Traces f false ins outs before s x y i j = j

  pub close_workers-Traces :
      (s : ContinuousRuntime J)
      → Traces [] [] (all_items s.queues) (all_items (close_workers s).queues) s (close_workers s)
  unfolding close_workers
  close_workers-Traces s =
      let ended = record s { workers_closed = true; dispatching = false } in
      let items = all_items s.queues in
      let t = drop_items items ended in
      let x = drop_items-Traces items ended in
      if-Traces (λ u. all_items u.queues) s.drain [] [] items s ended
        (record t { queues = emptied s.queues })
        (plain-Traces [] [] items items s ended (λ test. omega arith) refl refl refl)
        (record {
          displaced = x.displaced;
          dropped = x.dropped;
          turned_down = x.turned_down;
          balance =
              λ test. omega (arith, x.balance test, ap (count test) (all_items-emptied s.queues));
          coalesced_more = x.coalesced_more;
          losses_more = x.losses_more;
          refusals_more = x.refusals_more;
        })

  -- Under `coalesce`, an item whose key waits takes the place of the first that has the key: the others
  -- of the queue and the other queues are as they were, and so is their number. A tick of a bounded
  -- decision does not come so far.
  pub offer_coalesces :
      (plan : DeploymentPlan) (agent : AgentInstance) (a : String) (queue : List (WorkItem J))
      (item : WorkItem J) (s : ContinuousRuntime J)
      → lookup a s.queues ≡ some queue
      → agent.overflow ≡ coalesce
      → bounded_tick item ≡ false
      → any (same_coalesce_key item) queue ≡ true
      → let s' = offer plan agent a queue item s in
        (front : List (WorkItem J)) × (old : WorkItem J) × (back : List (WorkItem J)) × (queue
          ≡ front ++ old ∷ back)
        × (same_coalesce_key item old ≡ true)
        × (any (same_coalesce_key item) front ≡ false)
        × (lookup a s'.queues ≡ some (front ++ item ∷ back))
        × ((b : String) → (a == b) ≡ false → lookup b s'.queues ≡ lookup b s.queues)
        × (s'.queued ≡ s.queued)
  unfolding offer
  offer_coalesces plan agent a queue item s found policy tick waits =
      let (front, old, back, split, same, others, replaced) =
        replace_first-split item queue waits in
      let done =
        note_trigger item
          (count_coalesced (record s { queues = insert a (replace_first item queue) s.queues })) in
      let e : offer plan agent a queue item s ≡ done = ground (arith, policy, tick, waits) in
      (
        front,
        old,
        back,
        split,
        same,
        others,
        ap (λ t. lookup a t.queues) e
            ∙ ground (arith, eq_refl a, lookup-insert a a (replace_first item queue) s.queues)
            ∙ ap some replaced,
        λ b h.
            ap (λ t. lookup b t.queues) e
            ∙ ground (arith, h, lookup-insert a b (replace_first item queue) s.queues),
        ap (λ t. t.queued) e,
      )
