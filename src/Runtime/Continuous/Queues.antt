-- ===== src/Runtime/Continuous/Queues.antt =====
-- runtime/continuous.py: how long the queues are after a change to one of them.
use mininet_ai.Prelude.{
  ◌+◌, String, ◌≡◌, refl, some, List, [], ◌∷◌, ◌==◌, arith, length, length-append, Bool-cases,
  Option-cases, ◌⊎◌, inl, inr,
}
use mininet_ai.Prelude.Dict.{lookup, insert}
use mininet_ai.Runtime.Continuous.Types.{
  AgentInstance, ContinuousRuntime, DeploymentPlan, WorkItem, find_agent, execution_agent_id,
}
use mininet_ai.Runtime.Continuous.Enqueue.{replace_first, same_coalesce_key, offer, enqueue}
use mininet_ai.Runtime.Continuous.Steps.{all_items, emptied}

pub sum-cases : {A B : Type 0} (x : A ⊎ B) → ((a : A) × (x ≡ inl a)) ⊎ ((b : B) × (x ≡ inr b))
sum-cases (inl a) = inl (a, refl)
sum-cases (inr b) = inr (b, refl)

pub list-cases :
    {A : Type 0} (xs : List A) → (xs ≡ []) ⊎ ((x : A) × (rest : List A) × (xs ≡ x ∷ rest))
list-cases [] = inl refl
list-cases (x ∷ rest) = inr (x, rest, refl)

module _ {J : Type 0} where
  -- A queue that is replaced changes the number of all items by the difference.
  pub total-insert :
      (a : String) (queue new : List (WorkItem J)) (queues : List (String × List (WorkItem J)))
      → lookup a queues ≡ some queue
      → length (all_items (insert a new queues)) + length queue
        ≡ length (all_items queues) + length new
  unfolding lookup insert
  total-insert a queue new [] h = cc
  total-insert a queue new (q ∷ queues) h = elim (Bool-cases (q.0 == a)) [
    | inl e ↦
        ground
          (arith, e, length-append q.1 (all_items queues), length-append new (all_items queues))
    | inr e ↦ ground (
      arith,
      e,
      length-append q.1 (all_items queues),
      length-append q.1 (all_items (insert a new queues)),
      total-insert a queue new queues (ground (arith, e)),
    )
  ]

  pub length-replace_first :
      (item : WorkItem J) (queue : List (WorkItem J))
      → length (replace_first item queue) ≡ length queue
  length-replace_first item [] = refl
  length-replace_first item (x ∷ queue) = elim (Bool-cases (same_coalesce_key item x)) [
    | inl e ↦ rw e refl
    | inr e ↦ rw (e, length-replace_first item queue) refl
  ]

  pub all_items-emptied :
      (queues : List (String × List (WorkItem J))) → all_items (emptied queues) ≡ []
  all_items-emptied [] = refl
  all_items-emptied (q ∷ queues) = all_items-emptied queues

  pub lookup-emptied :
      (a : String) (queues : List (String × List (WorkItem J))) (queue : List (WorkItem J))
      → lookup a (emptied queues) ≡ some queue
      → queue ≡ []
  unfolding lookup
  lookup-emptied a [] queue h = cc
  lookup-emptied a (q ∷ queues) queue h = elim (Bool-cases (q.0 == a)) [
    | inl e ↦ ground (arith, e)
    | inr e ↦ lookup-emptied a queues queue (ground (arith, e))
  ]

  -- `_enqueue` that does not raise has found the agent and its queue.
  pub enqueue-offer :
      (plan : DeploymentPlan) (item : WorkItem J) (s s' : ContinuousRuntime J)
      → enqueue plan item s ≡ some s'
      → (agent : AgentInstance) × (a : String) × (queue : List (WorkItem J)) × (find_agent plan a
          ≡ some agent)
        × (lookup a s.queues ≡ some queue)
        × (offer plan agent a queue item s ≡ s')
  unfolding enqueue
  enqueue-offer plan item s s' h = elim (sum-cases (execution_agent_id plan item.agent.id)) [
    | inl (g, e) ↦ absurd (ground (arith, e, h))
    | inr (a, e) ↦ elim (Option-cases (find_agent plan a)) [
      | inl f ↦ absurd (ground (arith, e, f, h))
      | inr (agent, f) ↦ elim (Option-cases (lookup a s.queues)) [
        | inl g ↦ absurd (ground (arith, e, f, g, h))
        | inr (queue, g) ↦ (agent, a, queue, f, g, ground (arith, e, f, g, h))
      ]
    ]
  ]
