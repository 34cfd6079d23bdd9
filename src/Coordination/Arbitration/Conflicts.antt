-- ===== src/Coordination/Arbitration/Conflicts.antt =====
-- coordination/arbitration.py: the conflict relation.
use mininet_ai.Prelude.{
  any-or, String, ◌≡◌, refl, sym, false, List, [], ◌∷◌, ◌==◌, arith, any, contains, str_beq_comm,
}
use mininet_ai.Coordination.Arbitration.{ArbitrationCandidate, overlap, conflicts}

any_eq-contains : (a : String) (xs : List String) → any (λ k. a == k) xs ≡ contains xs a
any_eq-contains a [] = refl
any_eq-contains a (x ∷ xs) = ground (arith, str_beq_comm a x, any_eq-contains a xs)

overlap-nil : (xs : List String) → overlap xs [] ≡ false
overlap-nil [] = refl
overlap-nil (x ∷ xs) = overlap-nil xs

overlap_comm : (xs ys : List String) → overlap xs ys ≡ overlap ys xs
overlap_comm [] ys = sym (overlap-nil ys)
overlap_comm (x ∷ xs) ys =
    ground (arith, any-or (λ k. x == k) (contains xs) ys, any_eq-contains x ys, overlap_comm xs ys)

-- Whether two candidates conflict does not depend on which is asked first.
pub conflicts_comm : (a b : ArbitrationCandidate) → conflicts a b ≡ conflicts b a
unfolding conflicts
conflicts_comm a b = ground (arith, overlap_comm a.conflict_keys b.conflict_keys)
