-- ===== src/Runtime/Continuous/Limits.antt =====
-- runtime/continuous.py: `_enqueue` keeps the queues within their limits.
use mininet_ai.Prelude.{
  ℕ, ◌+◌, ◌-◌, ◌≤◌, String, ◌≡◌, refl, Bool, true, false, ◌&&◌, ◌||◌, some, List, [], ◌∷◌, ◌++◌,
  ◌==◌, eq_iff, arith, any, contains, leb, length, length-append, if◌then◌else◌, Bool-cases, inl,
  inr,
}
use mininet_ai.Prelude.Dict.{lookup, insert, lookup-insert}
use mininet_ai.Runtime.Continuous.Types.{
  AgentInstance, WorkItem, ContinuousRuntime, DeploymentPlan, find_agent, Overflow, reject,
  drop_oldest, coalesce, tick_coalesced,
}
use mininet_ai.Runtime.Continuous.Enqueue.{
  report_issue, about, bounded_tick, same_coalesce_key, replace_first, note_trigger,
  count_coalesced, push, make_room, is_coalesce, is_queued, offer,
}
use mininet_ai.Runtime.Continuous.Steps.{all_items}
use mininet_ai.Runtime.Continuous.Queues.{total-insert, length-replace_first}

-- `queued` counts the items of the queues, and they are within the plan's limits.
pub record IsBounded {J : Type 0} (plan : DeploymentPlan) (queued : ℕ)
    (queues : List (String × List (WorkItem J))) : Type 0 where
  pub queued_total : queued ≡ length (all_items queues)
  pub within_plan : queued ≤ plan.max_queued_events
  pub within_agents :
      (a : String) (agent : AgentInstance) (queue : List (WorkItem J))
      → find_agent plan a ≡ some agent
      → lookup a queues ≡ some queue
      → length queue ≤ agent.queue_capacity

module _ {J : Type 0} (plan : DeploymentPlan) where
  -- A queue of an agent that is replaced by one within the limits.
  pub insert-IsBounded :
      (a : String) (queue new : List (WorkItem J)) (queued total : ℕ)
      (queues : List (String × List (WorkItem J)))
      → lookup a queues ≡ some queue
      → ((agent : AgentInstance)
          → find_agent plan a ≡ some agent
          → length new ≤ agent.queue_capacity)
      → total + length queue ≡ queued + length new
      → total ≤ plan.max_queued_events
      → IsBounded plan queued queues
      → IsBounded plan total (insert a new queues)
  insert-IsBounded a queue new queued total queues found room sum low i = record {
    queued_total = ground (arith, i.queued_total, total-insert a queue new queues found, sum);
    within_plan = low;
    within_agents = λ b other q named at. elim (Bool-cases (a == b)) [
      | inl e ↦ ground (arith, lookup-insert a b new queues, e, eq_iff a b, room other, named, at)
      | inr e ↦
          i.within_agents b other q named (ground (arith, lookup-insert a b new queues, e, at))
    ];
  }

  -- what an offer leaves is within the limits
  abbrev Keeps : ContinuousRuntime J → Type 0
  Keeps s = IsBounded plan s.queued s.queues

  pub queue-le-queued :
      (a : String) (queue : List (WorkItem J)) (queued : ℕ)
      (queues : List (String × List (WorkItem J)))
      → lookup a queues ≡ some queue
      → IsBounded plan queued queues
      → length queue ≤ queued
  queue-le-queued a queue queued queues found i =
      ground (arith, i.queued_total, total-insert a queue [] queues found)

  module _ (agent : AgentInstance) (a : String) (item : WorkItem J) (s : ContinuousRuntime J)
      (named : find_agent plan a ≡ some agent) (i : IsBounded plan s.queued s.queues) where
    make_room-IsBounded :
        (overflow : Overflow) (queue : List (WorkItem J))
        → lookup a s.queues ≡ some queue
        → Keeps (make_room overflow a queue item s)
    unfolding make_room push report_issue
    make_room-IsBounded drop_oldest (oldest ∷ queue) found =
        insert-IsBounded a (oldest ∷ queue) (queue ++ item ∷ []) s.queued (s.queued - 1 + 1)
          s.queues found
          (λ other h. ground (
            arith,
            length-append queue (item ∷ []),
            i.within_agents a other (oldest ∷ queue) h found,
          ))
          (ground (
            arith,
            length-append queue (item ∷ []),
            queue-le-queued a (oldest ∷ queue) s.queued s.queues found i,
          ))
          (ground
            (arith, i.within_plan, queue-le-queued a (oldest ∷ queue) s.queued s.queues found i))
          i
    make_room-IsBounded drop_oldest [] found = i
    make_room-IsBounded reject queue found = i
    make_room-IsBounded coalesce queue found = i

    if-Keeps :
        (b : Bool) (x y : ContinuousRuntime J)
        → Keeps x
        → (b ≡ false → Keeps y)
        → Keeps (if b then x else y)
    if-Keeps true x y h k = h
    if-Keeps false x y h k = k refl

    pub offer-IsBounded :
        (queue : List (WorkItem J))
        → lookup a s.queues ≡ some queue
        → Keeps (offer plan agent a queue item s)
    unfolding offer report_issue push
    offer-IsBounded queue found =
        let replaced =
          note_trigger item (
            count_coalesced (record s { queues = insert a (replace_first item queue) s.queues })) in
        let at_limit =
          leb agent.queue_capacity (length queue) || leb plan.max_queued_events s.queued in
        let roomy = make_room agent.overflow a queue item s in
        let pushed = push a queue item s in
        let stays = is_coalesce agent.overflow && any (same_coalesce_key item) queue in
        if-Keeps (bounded_tick item && (contains s.bounded_active a || is_queued queue))
          (report_issue tick_coalesced item.event (about item) true false (count_coalesced s))
          (if stays then replaced else if at_limit then roomy else pushed) i
          (λ _.
            if-Keeps stays replaced (if at_limit then roomy else pushed)
              (insert-IsBounded a queue (replace_first item queue) s.queued s.queued s.queues found
                (λ other h.
                  ground
                    (arith, length-replace_first item queue, i.within_agents a other queue h found))
                (ground (arith, length-replace_first item queue)) i.within_plan i)
              (λ _.
                if-Keeps at_limit roomy pushed (make_room-IsBounded agent.overflow queue found)
                  (λ room.
                    insert-IsBounded a queue (queue ++ item ∷ []) s.queued (s.queued + 1) s.queues
                      found
                      (λ other h. ground (arith, length-append queue (item ∷ []), room, h, named))
                      (ground (arith, length-append queue (item ∷ []))) (ground (arith, room)) i)))
