-- ===== src/Coordination/Messages.antt =====
-- mininet_ai/coordination/contracts.py: the messages of a coordination and their validators.
-- The payload of a message is kept as the `CoordinationIntentPayload` that it is dumped from and
-- validated to. `J` is the metadata, `T` the type of time stamps. The schema version is left out.
use mininet_ai.Prelude.{
  ℕ, String, Bool, true, false, not, ◌&&◌, ◌||◌, Option, none, some, List, ◌==◌, length, nat_beq,
  contains,
}
use mininet_ai.Coordination.Graph.{no_duplicates}

pub data CoordinationMessageKind : Type 0 where
  intent_kind delegation_kind result_kind : CoordinationMessageKind

pub record CoordinationIntentPayload (J : Type 0) : Type 0 where
  pub intent : String
  pub requested_agent_id : String
  pub delegation_id : Option String
  pub metadata : J

pub record CoordinationMessage (J T : Type 0) : Type 0 where
  pub message_id : String
  pub run_id : String
  pub kind : CoordinationMessageKind
  pub source_agent_id : Option String
  pub target_agent_id : String
  pub correlation_id : String
  pub causation_id : Option String
  pub parent_invocation_id : Option String
  pub triggering_event_id : Option String
  pub created_at : T
  pub hop_count : ℕ
  pub traversed_message_ids : List String
  pub payload : CoordinationIntentPayload J

-- `min_length=1`, of a text and of one that may be missing
abbrev pub filled : String → Bool
filled s = not (s == "")

abbrev pub filled? : Option String → Bool
filled? none = true
filled? (some s) = filled s

abbrev pub is_some : Option String → Bool
is_some none = false
is_some (some s) = true

abbrev pub is_intent : CoordinationMessageKind → Bool
is_intent intent_kind = true
is_intent _ = false

-- `message.source_agent_id == text`
abbrev pub is_text : Option String → String → Bool
is_text none s = false
is_text (some t) s = t == s

abbrev pub valid_payload : {J : Type 0} → CoordinationIntentPayload J → Bool
valid_payload p = filled p.intent && filled p.requested_agent_id && filled? p.delegation_id

module _ {J T : Type 0} where
  -- the fields' own constraints
  abbrev pub fields_filled : CoordinationMessage J T → Bool
  fields_filled m =
      filled m.message_id
      && filled m.run_id
      && filled? m.source_agent_id
      && filled m.target_agent_id
      && filled m.correlation_id
      && filled? m.causation_id
      && filled? m.parent_invocation_id
      && filled? m.triggering_event_id

  abbrev pub identities_match_message_kind : CoordinationMessage J T → Bool
  identities_match_message_kind m =
      (is_intent m.kind || is_some m.source_agent_id)
      && not (is_text m.source_agent_id m.target_agent_id)

  abbrev pub traversal_is_consistent : CoordinationMessage J T → Bool
  traversal_is_consistent m =
      no_duplicates m.traversed_message_ids
      && not (contains m.traversed_message_ids m.message_id)
      && nat_beq m.hop_count (length m.traversed_message_ids)
      && (nat_beq m.hop_count 0 || is_some m.causation_id)

  -- whether pydantic accepts the message
  unfoldable pub valid_message : CoordinationMessage J T → Bool
  valid_message m =
      fields_filled m
      && identities_match_message_kind m
      && traversal_is_consistent m
      && valid_payload m.payload
