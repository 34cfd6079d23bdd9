-- ===== src/Agents/Reconciliation.antt =====
-- mininet_ai/agents/reconciliation.py: `reconcile_bundle`, the decision about a bundle of actions from
-- the states that were observed of them.
pub mod Exact
mod Tests
use mininet_ai.Prelude.{
  ℕ, zero, suc, String, Bool, true, false, not, ◌&&◌, ◌||◌, List, [], ◌∷◌, ◌==◌, nat_beq, any,
  length, if◌then◌else◌,
}

pub record Reconciliation : Type 0 where
  pub policy : String
  pub present : List ℕ
  pub missing : List ℕ

-- `tuple(range(i, i + n))`
abbrev pub range_from : ℕ → ℕ → List ℕ
range_from i zero = []
range_from i (suc n) = i ∷ range_from (suc i) n

-- the positions of a state, from the position `i` on
abbrev pub indices_from : ℕ → String → List String → List ℕ
indices_from i wanted [] = []
indices_from i wanted (s ∷ states) =
    let rest = indices_from (suc i) wanted states in if s == wanted then i ∷ rest else rest

-- `==` of tuples of numbers
abbrev pub same_indices : List ℕ → List ℕ → Bool
same_indices [] [] = true
same_indices (i ∷ is) (j ∷ js) = nat_beq i j && same_indices is js
same_indices _ _ = false

abbrev pub none_of : List ℕ → Bool
none_of [] = true
none_of (_ ∷ _) = false

-- `Reconciliation("unknown", (), tuple(range(len(states))))`
abbrev pub unknown : List String → Reconciliation
unknown states = record { policy = "unknown"; present = []; missing = range_from 0 (length states) }

unfoldable pub reconcile_bundle : List String → Reconciliation
reconcile_bundle states =
    if any (λ s. not (s == "present" || s == "missing")) states
    then unknown states
    else (let present = indices_from 0 "present" states in
        let missing = indices_from 0 "missing" states in
        if not (same_indices present (range_from 0 (length present)))
        then unknown states
        else if none_of present
        then record { policy = "verified-primary"; present = present; missing = missing }
        else if none_of missing
        then record { policy = "verified-recovery"; present = present; missing = missing }
        else record { policy = "partial"; present = present; missing = missing })
