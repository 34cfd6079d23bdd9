-- ===== src/Prelude/Sorting.antt =====
-- Python's `sorted`, a stable sort, for a total order given as a test.
use Prim.Native.String.{String, compare}
use text.Mathlib.Text.{is_le}
use mathlib.Core.Path.{◌≡◌, refl, sym, ap, ◌∙◌}
use mathlib.Core.Logic.{inl, inr}
use mathlib.Core.Bool.{Bool, true, false}
use mathlib.Core.List.{List, [], ◌∷◌}
use native.Mathlib.Omega.{arith}
use mininet_ai.Prelude.Tests.{if◌then◌else◌, Bool-cases}
use mininet_ai.Prelude.Lists.{count, keep, All, All-map}

-- Python's order of texts
abbrev pub str_leb : String → String → Bool
str_leb a b = is_le (compare a b)

module _ {ℓ} {A : Type ℓ} (le : A → A → Bool) where
  unfoldable pub place : A → List A → List A
  place x [] = x ∷ []
  place x (y ∷ ys) = if le x y then x ∷ y ∷ ys else y ∷ place x ys

  unfoldable pub sort : List A → List A
  unfolding place
  sort [] = []
  sort (x ∷ xs) = place x (sort xs)

  count-place :
      (test : A → Bool) (x : A) (xs : List A) → count test (place x xs) ≡ count test (x ∷ xs)
  unfolding place
  count-place test x [] = refl
  count-place test x (y ∷ ys) = ground (arith, count-place test x ys)

  -- A sorted list holds the same items, as often.
  pub count-sort : (test : A → Bool) (xs : List A) → count test (sort xs) ≡ count test xs
  unfolding sort
  count-sort test [] = refl
  count-sort test (x ∷ xs) =
      unfold place in ground (arith, count-place test x (sort xs), count-sort test xs)

-- each item is in the relation to all that come after it
abbrev pub IsSorted {ℓ} : {A : Type ℓ} → (A → A → Bool) → List A → Type 0
IsSorted r [] = Unit
IsSorted r (x ∷ xs) = All (λ y. r x y ≡ true) xs × IsSorted r xs

-- The sort by `le` is sorted by each transitive relation that `le` decides one way or the other.
module _ {ℓ} {A : Type ℓ} (le r : A → A → Bool) (by_le : (x y : A) → le x y ≡ true → r x y ≡ true)
    (by_not_le : (x y : A) → le x y ≡ false → r y x ≡ true)
    (trans : (x y z : A) → r x y ≡ true → r y z ≡ true → r x z ≡ true) where
  All-place :
      (x y : A) (ys : List A)
      → r y x ≡ true
      → All (λ z. r y z ≡ true) ys
      → All (λ z. r y z ≡ true) (place le x ys)
  unfolding place
  All-place x y [] h a = (h, tt)
  All-place x y (z ∷ ys) h a = elim (Bool-cases (le x z)) [
    | inl e ↦ rw e (h, a)
    | inr e ↦ rw e (a.0, All-place x y ys h a.1)
  ]

  IsSorted-place : (x : A) (xs : List A) → IsSorted r xs → IsSorted r (place le x xs)
  unfolding place
  IsSorted-place x [] s = (tt, tt)
  IsSorted-place x (y ∷ ys) s = elim (Bool-cases (le x y)) [
    | inl e ↦ rw e ((by_le x y e, All-map _ _ ys (λ z h. trans x y z (by_le x y e) h) s.0), s)
    | inr e ↦ rw e (All-place x y ys (by_not_le x y e) s.0, IsSorted-place x ys s.1)
  ]

  pub sort-IsSorted : (xs : List A) → IsSorted r (sort le xs)
  unfolding sort
  sort-IsSorted [] = tt
  sort-IsSorted (x ∷ xs) = IsSorted-place x (sort le xs) (sort-IsSorted xs)

-- A sort of the items that pass a test may come before or after the test, and needs to agree only on
-- the items that pass.
module _ {ℓ} {A : Type ℓ} (le le' : A → A → Bool) (test : A → Bool)
    (agree : (x y : A) → test x ≡ true → test y ≡ true → le' x y ≡ le x y)
    (total : (x y : A) → le x y ≡ false → le y x ≡ true)
    (trans : (x y z : A) → le x y ≡ true → le y z ≡ true → le x z ≡ true) where
  place-first :
      (x : A) (zs : List A)
      → test x ≡ true
      → All (λ z. le x z ≡ true) zs
      → place le' x (keep test zs) ≡ x ∷ keep test zs
  unfolding place
  place-first x [] t a = refl
  place-first x (z ∷ zs) t a = elim (Bool-cases (test z)) [
    | inl e ↦ rw (e, agree x z t e, a.0) refl
    | inr e ↦ rw e (place-first x zs t a.1)
  ]

  keep-place :
      (x : A) (ys : List A)
      → test x ≡ true
      → IsSorted le ys
      → keep test (place le x ys) ≡ place le' x (keep test ys)
  unfolding place
  keep-place x [] t s = rw t refl
  keep-place x (y ∷ ys) t s = elim (Bool-cases (le x y)) [
    | inl e ↦
        let first : All (λ z. le x z ≡ true) (y ∷ ys) =
          (e, All-map _ _ ys (λ z h. trans x y z e h) s.0) in
        rw (e, t) (sym (place-first x (y ∷ ys) t first))
    | inr e ↦ elim (Bool-cases (test y)) [
      | inl f ↦ rw (e, f, agree x y t f, e) (ap (λ l. y ∷ l) (keep-place x ys t s.1))
      | inr f ↦ rw (e, f) (keep-place x ys t s.1)
    ]
  ]

  keep-place-other :
      (x : A) (ys : List A) → test x ≡ false → keep test (place le x ys) ≡ keep test ys
  unfolding place
  keep-place-other x [] t = rw t refl
  keep-place-other x (y ∷ ys) t = elim (Bool-cases (le x y)) [
    | inl e ↦ rw (e, t) refl
    | inr e ↦ rw (e, keep-place-other x ys t) refl
  ]

  pub keep-sort : (xs : List A) → keep test (sort le xs) ≡ sort le' (keep test xs)
  unfolding sort
  keep-sort [] = refl
  keep-sort (x ∷ xs) = elim (Bool-cases (test x)) [
    | inl t ↦ rw t (
        keep-place x (sort le xs) t (sort-IsSorted le le (λ x y h. h) total trans xs)
        ∙ ap (place le' x) (keep-sort xs))
    | inr t ↦ rw t (keep-place-other x (sort le xs) t ∙ keep-sort xs)
  ]
