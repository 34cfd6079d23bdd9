-- ===== src/Capabilities/Verification/Tests.antt =====
-- Runs of the polling at fixed inputs, and the theorems applied there. A JSON value is an integer, or an
-- object with one integer.
use mininet_ai.Prelude.{ℕ, ◌≡◌, refl, Bool, true, false, none, some, List, [], ◌∷◌, nat_beq}
use mininet_ai.Prelude.Int.{pos}
use mininet_ai.Prelude.Dict.{lookup}
use mininet_ai.Capabilities.Verification.{
  View, mapping, number, op_gte, PostconditionDefinition, PostconditionResult, observe_error,
  observed, Attempt, read_part, read_path, compare, examine, verify_loop, verify_one,
}
use mininet_ai.Capabilities.Verification.Rounds.{IsPolled, verify_first_success}

data Value : Type 0 where
  integer flow_count : ℕ → Value

abbrev view : Value → View Value
view (integer n) = number (pos n)
view (flow_count n) = mapping (("flows", integer n) ∷ [])

abbrev same : Value → Value → Bool
same (integer a) (integer b) = nat_beq a b
same (flow_count a) (flow_count b) = nat_beq a b
same _ _ = false

abbrev post : PostconditionDefinition Value
post = record {
  path = record { key = "flows"; index = none } ∷ [];
  operator = op_gte;
  expected = integer 2;
  timeout = 5;
  interval = 1;
}

-- an error, too few flows, and enough
abbrev rounds : List (Attempt Value)
rounds =
    record { observation = observe_error none; now = 11 }
    ∷ record { observation = observed true (some (flow_count 1)); now = 12 }
    ∷ record { observation = observed true (some (flow_count 3)); now = 13 }
    ∷ record { observation = observe_error none; now = 20 }
    ∷ []

abbrev third : PostconditionResult Value
third = record { actual = some (integer 3); satisfied = true; attempts = 3; issue = none }

third_satisfies : verify_one view same post 10 rounds ≡ some third
unfolding verify_one verify_loop examine read_path read_part compare lookup
third_satisfies = refl

verify_first_success_example : IsPolled view same post 15 0 rounds third
verify_first_success_example = verify_first_success view same post 10 rounds third third_satisfies
