-- ===== src/Runtime/Continuous/Dispatch.antt =====
-- runtime/continuous.py: `_matches` and `_dispatch`.
use mininet_ai.Prelude.{
  ℕ, ◌+◌, String, Bool, true, false, not, ◌&&◌, Option, none, some, List, [], ◌∷◌, ◌++◌, ◌==◌, leb,
  ltb, find, contains, length, if◌then◌else◌,
}
use mininet_ai.Prelude.Dict.{lookup, insert}
use mininet_ai.Runtime.Continuous.Types.{
  EventTrigger, Trigger, event_trigger, AgentInstance, RuntimeEvent, Payloads, WorkItem,
  out_of_order, payload_invalid, cooling_down, Triggered, ContinuousRuntime, DeploymentPlan,
  find_agent, same_optional, is_manual, is_interval, trigger_name,
}
use mininet_ai.Runtime.Continuous.Enqueue.{report_issue}

-- the entry of `_last_triggered` for a trigger
abbrev pub last_of : String → String → List Triggered → Option Triggered
last_of agent_id trigger = find (λ t. t.agent_id == agent_id && t.trigger == trigger)

module _ {J : Type 0} where
  abbrev pub item_for : RuntimeEvent J → AgentInstance → String → String → Bool → WorkItem J
  item_for event agent trigger intent tick = record {
    event = event;
    agent = agent;
    trigger = trigger;
    intent = intent;
    coalesce_key = (trigger, event.subject);
    scheduled_tick = tick;
  }

  -- the conditions of the loop of `_matches` before the cooldown
  unfoldable pub selects : RuntimeEvent J → AgentInstance → EventTrigger → Bool
  selects event agent t =
      t.event == event.type_name
      && elim t.source [ none ↦ true | some source ↦ source == event.source ]
      && elim t.subject [
        | some subject ↦ same_optional (some subject) event.subject
        | none ↦ elim event.subject [
          | none ↦ true
          | some subject ↦ contains (agent.id ∷ agent.deployment ∷ agent.targets) subject
        ]
      ]

  -- `last is not None and (event.observed_at - last) < cooldown`
  abbrev pub cools_down : RuntimeEvent J → ℕ → Option Triggered → Bool
  cools_down event cooldown none = false
  cools_down event cooldown (some last) = ltb event.observed_at (last.at + cooldown)

  module _ (payloads : Payloads J) where
    -- the inner loop of `_matches`, over the triggers of an agent
    unfoldable pub match_triggers :
        RuntimeEvent J
        → AgentInstance
        → List Trigger
        → ContinuousRuntime J
        → List (WorkItem J) × ContinuousRuntime J
    unfolding report_issue selects
    match_triggers event agent [] s = ([], s)
    match_triggers event agent (event_trigger t ∷ triggers) s =
        let skipped = match_triggers event agent triggers s in
        let cooled =
          match_triggers event agent triggers
            (report_issue cooling_down event (some (agent.id, t.name)) false false s) in
        if not (selects event agent t)
        then skipped
        else if cools_down event t.cooldown (last_of agent.id t.name s.last_triggered)
        then cooled
        else (
          item_for event agent t.name (payloads.event_intent event) false ∷ skipped.0,
          skipped.1,
        )
    match_triggers event agent (_ ∷ triggers) s = match_triggers event agent triggers s

    -- the outer loop of `_matches`, over the agents
    unfoldable pub match_agents :
        RuntimeEvent J
        → List AgentInstance
        → ContinuousRuntime J
        → List (WorkItem J) × ContinuousRuntime J
    unfolding match_triggers
    match_agents event [] s = ([], s)
    match_agents event (agent ∷ agents) s =
        let here = match_triggers event agent agent.triggers s in
        let rest = match_agents event agents here.1 in (here.0 ++ rest.0, rest.1)

    -- the item of the first trigger that a test finds, for an agent that the payload names
    abbrev pub named_item :
        RuntimeEvent J
        → (Trigger → Bool)
        → (String → String)
        → ContinuousRuntime J
        → AgentInstance
        → List (WorkItem J)
    named_item event test intent s agent = elim (find test agent.triggers) [
      | none ↦ []
      | some t ↦
          item_for event agent (trigger_name t) (intent (trigger_name t))
            (contains s.scheduled_ticks event.event_id)
          ∷ []
    ]

    -- `_matches`; `none` is the `KeyError` or the `ValueError`
    unfoldable pub find_matches :
        DeploymentPlan
        → RuntimeEvent J
        → ContinuousRuntime J
        → Option (List (WorkItem J) × ContinuousRuntime J)
    unfolding match_agents
    find_matches plan event s =
        if event.type_name == "intent.manual"
        then elim (payloads.as_manual event.payload) [
          | none ↦ none
          | some p ↦ elim (find_agent plan p.0) [
            | none ↦ none
            | some agent ↦ some (named_item event is_manual (λ _. p.1) s agent, s)
          ]
        ]
        else if event.type_name == "trigger.interval.elapsed"
        then elim (payloads.as_interval event.payload) [
          | none ↦ none
          | some p ↦ elim (find_agent plan p.0) [
            | none ↦ none
            | some agent ↦ some (
              named_item event (is_interval p.1)
                  (λ name. payloads.interval_intent name event.payload) s agent,
              s,
            )
          ]
        ]
        else some (match_agents event plan.agents s)

    -- `previous is not None and event.sequence <= previous`
    abbrev pub is_stale : RuntimeEvent J → List (String × ℕ) → Bool
    is_stale event sequences = elim (lookup event.source sequences) [
      | none ↦ false
      | some previous ↦ leb event.sequence previous
    ]

    abbrev pub count_received : ContinuousRuntime J → ContinuousRuntime J
    count_received s = record s { counts = record s.counts { received = s.counts.received + 1 } }

    abbrev pub note_sequence : RuntimeEvent J → ContinuousRuntime J → ContinuousRuntime J
    note_sequence event s = record s {
      last_sequences = insert event.source event.sequence s.last_sequences;
    }

    -- the end of `_dispatch`: the items that are left to enqueue are `pending`
    abbrev pub take_matches :
        RuntimeEvent J
        → ContinuousRuntime J
        → Option (List (WorkItem J) × ContinuousRuntime J)
        → ContinuousRuntime J
    take_matches event s none = report_issue payload_invalid event none false true s
    take_matches event s (some found) = record found.1 {
      counts = record found.1.counts { matched = found.1.counts.matched + length found.0 };
      pending = found.0;
    }

    -- `_dispatch`, up to its loop
    unfoldable pub dispatch :
        DeploymentPlan → RuntimeEvent J → ContinuousRuntime J → ContinuousRuntime J
    unfolding find_matches report_issue
    dispatch plan event s =
        let counted = count_received s in
        let noted = note_sequence event counted in
        if is_stale event s.last_sequences
        then report_issue out_of_order event none false true counted
        else take_matches event noted (find_matches plan event noted)
