-- ===== src/Agents/Reconciliation/Tests.antt =====
-- Runs of `reconcile_bundle` at fixed states, and the theorem applied there.
use mininet_ai.Prelude.{ℕ, ◌≡◌, ◌≢◌, refl, String, List, [], ◌∷◌, ◌⊎◌}
use mininet_ai.Agents.Reconciliation.{unknown, reconcile_bundle}
use mininet_ai.Agents.Reconciliation.Exact.{prefix, decision_on, reconcile_exact}

abbrev partial : List String
partial = "present" ∷ "missing" ∷ "missing" ∷ []

partial_bundle :
    reconcile_bundle partial ≡ record { policy = "partial"; present = 0 ∷ []; missing = 1 ∷ 2 ∷ [] }
unfolding reconcile_bundle
partial_bundle = refl

out_of_order : reconcile_bundle ("missing" ∷ "present" ∷ []) ≡ unknown ("missing" ∷ "present" ∷ [])
unfolding reconcile_bundle
out_of_order = refl

reconcile_exact_example :
    ((k : ℕ) × (m : ℕ) × (partial ≡ prefix k m) × (reconcile_bundle partial ≡ decision_on k m))
    ⊎ (((k m : ℕ) → partial ≢ prefix k m) × (reconcile_bundle partial ≡ unknown partial))
reconcile_exact_example = reconcile_exact partial
