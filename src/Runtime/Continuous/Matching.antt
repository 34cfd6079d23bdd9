-- ===== src/Runtime/Continuous/Matching.antt =====
-- runtime/continuous.py: what `_matches` and `_dispatch` leave of the queues and of the counts, up to the
-- loop that enqueues.
use mininet_ai.Prelude.{
  ◌+◌, ◌≡◌, refl, subst, Bool, true, false, not, Option, none, some, List, [], ◌∷◌, ◌==◌, arith,
  length, if◌then◌else◌, Bool-cases, inl, inr,
}
use mininet_ai.Runtime.Continuous.Types.{
  AgentInstance, RuntimeEvent, Payloads, WorkItem, ContinuousRuntime, DeploymentPlan, cooling_down,
  payload_invalid, out_of_order, Trigger, manual_trigger, interval_trigger, event_trigger,
}
use mininet_ai.Runtime.Continuous.Enqueue.{report_issue}
use mininet_ai.Runtime.Continuous.Dispatch.{
  match_triggers, match_agents, find_matches, dispatch, selects, cools_down, take_matches, last_of,
  is_stale, note_sequence, count_received, item_for,
}
use mininet_ai.Runtime.Continuous.Quiet.{
  refusals, losses, IsQuiet, IsQuiet-refl, IsQuiet-trans, item-IsQuiet, event-IsQuiet, refused,
  lost,
}

module _ {J : Type 0} where
  module _ (payloads : Payloads J) where
    if-IsQuiet :
        (b : Bool) (s : ContinuousRuntime J) (x y : List (WorkItem J) × ContinuousRuntime J)
        → IsQuiet s x.1
        → IsQuiet s y.1
        → IsQuiet s (if b then x else y).1
    if-IsQuiet true s x y i j = i
    if-IsQuiet false s x y i j = j

    triggers-IsQuiet :
        (event : RuntimeEvent J) (agent : AgentInstance) (triggers : List Trigger)
        (s : ContinuousRuntime J)
        → IsQuiet s (match_triggers payloads event agent triggers s).1
    unfolding match_triggers
    triggers-IsQuiet event agent [] s = IsQuiet-refl s
    triggers-IsQuiet event agent (manual_trigger _ ∷ triggers) s =
        triggers-IsQuiet event agent triggers s
    triggers-IsQuiet event agent (interval_trigger _ ∷ triggers) s =
        triggers-IsQuiet event agent triggers s
    triggers-IsQuiet event agent (event_trigger t ∷ triggers) s =
        let rest = match_triggers payloads event agent triggers s in
        let cooled = report_issue cooling_down event (some (agent.id, t.name)) false false s in
        let after = match_triggers payloads event agent triggers cooled in
        let found : List (WorkItem J) × ContinuousRuntime J =
          (item_for event agent t.name (payloads.event_intent event) false ∷ rest.0, rest.1) in
        let quiet = triggers-IsQuiet event agent triggers s in
        let cools = cools_down event t.cooldown (last_of agent.id t.name s.last_triggered) in
        if-IsQuiet (not (selects event agent t)) s rest (if cools then after else found) quiet (
          if-IsQuiet cools s after found
            (IsQuiet-trans s cooled after.1
              (item-IsQuiet cooling_down event (agent.id, t.name) false false s refl refl)
              (triggers-IsQuiet event agent triggers cooled))
            quiet)

    agents-IsQuiet :
        (event : RuntimeEvent J) (agents : List AgentInstance) (s : ContinuousRuntime J)
        → IsQuiet s (match_agents payloads event agents s).1
    unfolding match_agents
    agents-IsQuiet event [] s = IsQuiet-refl s
    agents-IsQuiet event (agent ∷ agents) s =
        IsQuiet-trans s _ _ (triggers-IsQuiet event agent agent.triggers s)
          (agents-IsQuiet event agents _)

    -- What `_matches` finds, if it finds something.
    pub matches-IsQuiet :
        (plan : DeploymentPlan) (event : RuntimeEvent J) (s : ContinuousRuntime J)
        (items : List (WorkItem J)) (t : ContinuousRuntime J)
        → find_matches payloads plan event s ≡ some (items, t)
        → IsQuiet s t
    unfolding find_matches
    matches-IsQuiet plan event s items t h =
        elim (Bool-cases (event.type_name == "intent.manual")) [
          | inl e ↦ subst (IsQuiet s) (ground (arith, e, h)) (IsQuiet-refl s)
          | inr e ↦ elim (Bool-cases (event.type_name == "trigger.interval.elapsed")) [
            | inl f ↦ subst (IsQuiet s) (ground (arith, e, f, h)) (IsQuiet-refl s)
            | inr f ↦
                subst (IsQuiet s) (ground (arith, e, f, h)) (agents-IsQuiet event plan.agents s)
          ]
        ]

    -- `_dispatch` adds to the matched items those that it leaves to enqueue, and nothing else.
    pub record IsDispatched (s s' : ContinuousRuntime J) : Type 0 where
      pub queued_same : s'.queued ≡ s.queued
      pub queues_same : s'.queues ≡ s.queues
      pub enqueued_same : s'.counts.enqueued ≡ s.counts.enqueued
      pub coalesced_same : s'.counts.coalesced ≡ s.counts.coalesced
      pub matched_more : s'.counts.matched ≡ s.counts.matched + length s'.pending
      pub refused_same : refused s' ≡ refused s
      pub lost_same : lost s' ≡ lost s
      pub refusals_same : refusals s' ≡ refusals s
      pub losses_same : losses s' ≡ losses s

    pub quiet-IsDispatched :
        (s s' : ContinuousRuntime J) → s.pending ≡ [] → IsQuiet s s' → IsDispatched s s'
    quiet-IsDispatched s s' e i = record {
      queued_same = i.queued_same;
      queues_same = i.queues_same;
      enqueued_same = i.enqueued_same;
      coalesced_same = i.coalesced_same;
      matched_more = ground (arith, e, i.pending_same, i.matched_same);
      refused_same = i.refused_same;
      lost_same = i.lost_same;
      refusals_same = i.refusals_same;
      losses_same = i.losses_same;
    }

    take_matches-IsDispatched :
        (event : RuntimeEvent J) (s : ContinuousRuntime J)
        (found : Option (List (WorkItem J) × ContinuousRuntime J))
        → s.pending ≡ []
        → ((items : List (WorkItem J)) (t : ContinuousRuntime J)
            → found ≡ some (items, t)
            → IsQuiet s t)
        → IsDispatched s (take_matches payloads event s found)
    take_matches-IsDispatched event s none e h =
        quiet-IsDispatched s _ e (event-IsQuiet payload_invalid event false true s refl refl)
    take_matches-IsDispatched event s (some (items, t)) e h =
        let i = h items t refl in
        record {
          queued_same = i.queued_same;
          queues_same = i.queues_same;
          enqueued_same = i.enqueued_same;
          coalesced_same = i.coalesced_same;
          matched_more = omega (arith, i.matched_same);
          refused_same = i.refused_same;
          lost_same = i.lost_same;
          refusals_same = i.refusals_same;
          losses_same = i.losses_same;
        }

    received-IsDispatched :
        (s s' : ContinuousRuntime J)
        → IsDispatched (count_received payloads s) s'
        → IsDispatched s s'
    received-IsDispatched s s' i = record {
      queued_same = i.queued_same;
      queues_same = i.queues_same;
      enqueued_same = i.enqueued_same;
      coalesced_same = i.coalesced_same;
      matched_more = i.matched_more;
      refused_same = i.refused_same;
      lost_same = i.lost_same;
      refusals_same = i.refusals_same;
      losses_same = i.losses_same;
    }

    noted-IsDispatched :
        (event : RuntimeEvent J) (s s' : ContinuousRuntime J)
        → IsDispatched (note_sequence payloads event s) s'
        → IsDispatched s s'
    noted-IsDispatched event s s' i = record {
      queued_same = i.queued_same;
      queues_same = i.queues_same;
      enqueued_same = i.enqueued_same;
      coalesced_same = i.coalesced_same;
      matched_more = i.matched_more;
      refused_same = i.refused_same;
      lost_same = i.lost_same;
      refusals_same = i.refusals_same;
      losses_same = i.losses_same;
    }

    pub if-IsDispatched :
        (b : Bool) (s x y : ContinuousRuntime J)
        → IsDispatched s x
        → IsDispatched s y
        → IsDispatched s (if b then x else y)
    if-IsDispatched true s x y i j = i
    if-IsDispatched false s x y i j = j

    pub dispatch-IsDispatched :
        (plan : DeploymentPlan) (event : RuntimeEvent J) (s : ContinuousRuntime J)
        → s.pending ≡ []
        → IsDispatched s (dispatch payloads plan event s)
    unfolding dispatch
    dispatch-IsDispatched plan event s e =
        let counted = count_received payloads s in
        let noted = note_sequence payloads event counted in
        if-IsDispatched (is_stale payloads event s.last_sequences) s
          (report_issue out_of_order event none false true counted)
          (take_matches payloads event noted (find_matches payloads plan event noted))
          (received-IsDispatched s _ (
            quiet-IsDispatched counted _ e
              (event-IsQuiet out_of_order event false true counted refl refl)))
          (received-IsDispatched s _ (
            noted-IsDispatched event counted _ (
              take_matches-IsDispatched event noted (find_matches payloads plan event noted) e
                (matches-IsQuiet plan event noted))))
