-- ===== src/Runtime/Continuous/Offers.antt =====
-- runtime/continuous.py: what `_enqueue` does to the accounts of one item.
use mininet_ai.Prelude.{
  ◌+◌, ◌-◌, ◌≤◌, String, ◌≡◌, refl, Bool, true, false, ◌&&◌, ◌||◌, List, [], ◌∷◌, arith, any,
  contains, leb, length, if◌then◌else◌,
}
use mininet_ai.Prelude.Dict.{insert}
use mininet_ai.Runtime.Continuous.Types.{
  AgentInstance, WorkItem, ContinuousRuntime, DeploymentPlan, Overflow, reject, drop_oldest,
  coalesce, tick_coalesced, queue_full, oldest_dropped,
}
use mininet_ai.Runtime.Continuous.Enqueue.{
  report_issue, about, bounded_tick, same_coalesce_key, replace_first, note_trigger,
  count_coalesced, push, make_room, is_coalesce, is_queued, offer,
}
use mininet_ai.Runtime.Continuous.Quiet.{refused, lost, refused-report_issue, lost-report_issue}

module _ {J : Type 0} where
  -- What the offer of one item does to the accounts.
  pub record IsOffered (s s' : ContinuousRuntime J) : Type 0 where
    pub matched_same : s'.counts.matched ≡ s.counts.matched
    pub sequences_same : s'.last_sequences ≡ s.last_sequences
    pub one_more :
        s'.counts.enqueued + s'.counts.coalesced + refused s'
        ≡ s.counts.enqueued + s.counts.coalesced + refused s + 1
    pub kept : s'.counts.enqueued + s.queued + lost s ≡ s.counts.enqueued + s'.queued + lost s'

  push-IsOffered :
      (a : String) (queue : List (WorkItem J)) (item : WorkItem J) (s : ContinuousRuntime J)
      → IsOffered s (push a queue item s)
  unfolding push
  push-IsOffered a queue item s = record {
    matched_same = refl;
    sequences_same = refl;
    one_more = omega arith;
    kept = omega arith;
  }

  refuse-IsOffered :
      (item : WorkItem J) (s : ContinuousRuntime J)
      → IsOffered s (report_issue queue_full item.event (about item) false true s)
  unfolding report_issue
  refuse-IsOffered item s = record {
    matched_same = refl;
    sequences_same = refl;
    one_more = omega (arith, refused-report_issue queue_full item.event (about item) false true s);
    kept =
        omega (
          arith,
          lost-report_issue queue_full item.event (item.agent.id, item.trigger) false true s,
        );
  }

  replace-IsOffered :
      (overflow : String) (oldest : WorkItem J) (queue : List (WorkItem J)) (item : WorkItem J)
      (s : ContinuousRuntime J)
      → 1 ≤ s.queued
      → IsOffered s (
          push overflow queue item (
            report_issue oldest_dropped oldest.event
              (about oldest)
              true
              false
              (record s { queued = s.queued - 1 })))
  unfolding push report_issue
  replace-IsOffered a oldest queue item s h =
      let s' = record s { queued = s.queued - 1 } in
      record {
        matched_same = refl;
        sequences_same = refl;
        one_more =
            omega (
              arith,
              refused-report_issue oldest_dropped oldest.event (about oldest) true false s',
            );
        kept = omega (
          arith,
          h,
          lost-report_issue oldest_dropped oldest.event (oldest.agent.id, oldest.trigger) true false
              s',
        );
      }

  make_room-IsOffered :
      (overflow : Overflow) (a : String) (queue : List (WorkItem J)) (item : WorkItem J)
      (s : ContinuousRuntime J)
      → length queue ≤ s.queued
      → IsOffered s (make_room overflow a queue item s)
  unfolding make_room
  make_room-IsOffered drop_oldest a (oldest ∷ queue) item s h =
      replace-IsOffered a oldest queue item s (omega (arith, h))
  make_room-IsOffered drop_oldest a [] item s h = refuse-IsOffered item s
  make_room-IsOffered reject a queue item s h = refuse-IsOffered item s
  make_room-IsOffered coalesce a queue item s h = refuse-IsOffered item s

  coalesced-IsOffered :
      (item : WorkItem J) (s : ContinuousRuntime J)
      → IsOffered s
          (report_issue tick_coalesced item.event (about item) true false (count_coalesced s))
  unfolding report_issue
  coalesced-IsOffered item s =
      let s' = count_coalesced s in
      record {
        matched_same = refl;
        sequences_same = refl;
        one_more =
            omega
              (arith, refused-report_issue tick_coalesced item.event (about item) true false s');
        kept = omega (
          arith,
          lost-report_issue tick_coalesced item.event (item.agent.id, item.trigger) true false s',
        );
      }

  if-IsOffered :
      (b : Bool) (s x y : ContinuousRuntime J)
      → IsOffered s x
      → IsOffered s y
      → IsOffered s (if b then x else y)
  if-IsOffered true s x y i j = i
  if-IsOffered false s x y i j = j

  pub offer-IsOffered :
      (plan : DeploymentPlan) (agent : AgentInstance) (a : String) (queue : List (WorkItem J))
      (item : WorkItem J) (s : ContinuousRuntime J)
      → length queue ≤ s.queued
      → IsOffered s (offer plan agent a queue item s)
  unfolding offer
  offer-IsOffered plan agent a queue item s h =
      let replaced =
        note_trigger item
          (count_coalesced (record s { queues = insert a (replace_first item queue) s.queues })) in
      let at_limit =
        leb agent.queue_capacity (length queue) || leb plan.max_queued_events s.queued in
      let roomy = make_room agent.overflow a queue item s in
      let pushed = push a queue item s in
      let stays = is_coalesce agent.overflow && any (same_coalesce_key item) queue in
      if-IsOffered (bounded_tick item && (contains s.bounded_active a || is_queued queue)) s
        (report_issue tick_coalesced item.event (about item) true false (count_coalesced s))
        (if stays then replaced else if at_limit then roomy else pushed)
        (coalesced-IsOffered item s)
        (if-IsOffered stays s replaced (if at_limit then roomy else pushed)
          (record {
            matched_same = refl;
            sequences_same = refl;
            one_more = omega arith;
            kept = omega arith;
          })
          (if-IsOffered at_limit s roomy pushed
            (make_room-IsOffered agent.overflow a queue item s h) (push-IsOffered a queue item s)))
