-- ===== src/Prelude/Lists.antt =====
-- Lists measured by native numbers, and Boolean searches in them.
use Prim.Native.Nat.{ℕ, zero, suc, ◌+◌, ◌≤◌}
use Prim.Native.String.{String}
use text.Mathlib.Text.{◌==◌}
use mathlib.Core.Path.{◌≡◌, refl, sym, subst}
use mathlib.Core.Bool.{Bool, true, false, ◌&&◌, ◌||◌}
use mathlib.Core.Option.{Option, none, some}
use mathlib.Core.List.{List, [], ◌∷◌, ◌++◌}
use native.Mathlib.Omega.{arith}
use mathlib.Core.Logic.{◌≢◌, inl, inr}
use mininet_ai.Prelude.Tests.{if◌then◌else◌, Bool-cases}

module _ {ℓ} {A : Type ℓ} where
  abbrev pub length : List A → ℕ
  length [] = 0
  length (x ∷ xs) = suc (length xs)

  pub length-append : (xs ys : List A) → length (xs ++ ys) ≡ length xs + length ys
  length-append [] ys = omega arith
  length-append (x ∷ xs) ys = omega (arith, length-append xs ys)

  abbrev pub get_elem? : List A → ℕ → Option A
  get_elem? [] i = none
  get_elem? (x ∷ xs) zero = some x
  get_elem? (x ∷ xs) (suc i) = get_elem? xs i

  pub get_elem?-append :
      (xs ys : List A) (i : ℕ) (x : A) → get_elem? xs i ≡ some x → get_elem? (xs ++ ys) i ≡ some x
  get_elem?-append [] ys i x h = cc
  get_elem?-append (y ∷ xs) ys zero x h = h
  get_elem?-append (y ∷ xs) ys (suc i) x h = get_elem?-append xs ys i x h

  pub get_elem?-append_length :
      (xs : List A) (x : A) → get_elem? (xs ++ x ∷ []) (length xs) ≡ some x
  get_elem?-append_length [] x = refl
  get_elem?-append_length (y ∷ xs) x = get_elem?-append_length xs x

  -- next((x for x in xs if test(x)), None)
  abbrev pub find : (A → Bool) → List A → Option A
  find test [] = none
  find test (x ∷ xs) = let rest = find test xs in if test x then some x else rest

  -- any(test(x) for x in xs)
  abbrev pub any : (A → Bool) → List A → Bool
  any test [] = false
  any test (x ∷ xs) = test x || any test xs

  abbrev pub all : (A → Bool) → List A → Bool
  all test [] = true
  all test (x ∷ xs) = test x && all test xs

  -- tuple(x for x in xs if test(x))
  abbrev pub keep : (A → Bool) → List A → List A
  keep test [] = []
  keep test (x ∷ xs) = let rest = keep test xs in if test x then x ∷ rest else rest

  -- how many of the items pass the test
  abbrev pub count : (A → Bool) → List A → ℕ
  count test [] = 0
  count test (x ∷ xs) = let rest = count test xs in if test x then suc rest else rest

  pub count-append :
      (test : A → Bool) (xs ys : List A) → count test (xs ++ ys) ≡ count test xs + count test ys
  count-append test [] ys = omega arith
  count-append test (x ∷ xs) ys = ground (arith, count-append test xs ys)

  pub count-le-length : (test : A → Bool) (xs : List A) → count test xs ≤ length xs
  count-le-length test [] = omega arith
  count-le-length test (x ∷ xs) = ground (arith, count-le-length test xs)

  abbrev pub All {κ} : (A → Type κ) → List A → Type κ
  All P [] = Unit
  All P (x ∷ xs) = P x × All P xs

  pub All-append {κ} :
      (P : A → Type κ) (front back : List A) → All P front → All P back → All P (front ++ back)
  All-append P [] back _ h = h
  All-append P (_ ∷ front) back (h, hs) hb = (h, All-append P front back hs hb)

  pub All-map {κ} : (P Q : A → Type κ) (xs : List A) → ((x : A) → P x → Q x) → All P xs → All Q xs
  All-map P Q [] f h = tt
  All-map P Q (x ∷ xs) f h = (f x h.0, All-map P Q xs f h.1)

  pub All-both {κ ι μ} :
      (P : A → Type κ) (Q : A → Type ι) (S : A → Type μ) (xs : List A)
      → ((x : A) → P x → Q x → S x)
      → All P xs
      → All Q xs
      → All S xs
  All-both P Q S [] f h k = tt
  All-both P Q S (x ∷ xs) f h k = (f x h.0 k.0, All-both P Q S xs f h.1 k.1)

  -- What passes a test passes it.
  pub All-keep : (test : A → Bool) (xs : List A) → All (λ x. test x ≡ true) (keep test xs)
  All-keep test [] = tt
  All-keep test (x ∷ xs) = elim (Bool-cases (test x)) [
    | inl e ↦ rw e (e, All-keep test xs)
    | inr e ↦ rw e (All-keep test xs)
  ]

module _ {ℓ} {A : Type ℓ} where
  pub find-none :
      (test : A → Bool) (xs : List A) → find test xs ≡ none → All (λ x. test x ≡ false) xs
  find-none test [] h = tt
  find-none test (x ∷ xs) h = (ground arith, find-none test xs (ground arith))

  pub find-some :
      (test : A → Bool) (x : A) (xs : List A)
      → find test xs ≡ some x
      → (test x ≡ true) × ((k : ℕ) × (get_elem? xs k ≡ some x))
  find-some test x [] h = cc
  find-some test x (y ∷ xs) h = elim (Bool-cases (test y)) [
    | inl e ↦ (ground arith, (0, ground arith))
    | inr e ↦ let (t, (k, at)) = find-some test x xs (ground arith) in (t, (suc k, at))
  ]

  pub All-get_elem? {κ} :
      (P : A → Type κ) (xs : List A) (i : ℕ) (x : A) → All P xs → get_elem? xs i ≡ some x → P x
  All-get_elem? P [] i x h e = absurd (ground arith)
  All-get_elem? P (y ∷ xs) zero x h e = subst P (ground arith) h.0
  All-get_elem? P (y ∷ xs) (suc i) x h e = All-get_elem? P xs i x h.1 e

  pub any-false :
      (test : A → Bool) (xs : List A) → All (λ x. test x ≡ false) xs → any test xs ≡ false
  any-false test [] h = refl
  any-false test (x ∷ xs) h = ground (arith, h.0, any-false test xs h.1)

  pub All-of_any-false :
      (test : A → Bool) (xs : List A) → any test xs ≡ false → All (λ x. test x ≡ false) xs
  All-of_any-false test [] h = tt
  All-of_any-false test (x ∷ xs) h = (ground arith, All-of_any-false test xs (ground arith))

  pub any-or : (f g : A → Bool) (xs : List A) → any (λ x. f x || g x) xs ≡ (any f xs || any g xs)
  any-or f g [] = refl
  any-or f g (x ∷ xs) = ground (arith, any-or f g xs)

  pub any-append :
      (test : A → Bool) (xs ys : List A) → any test (xs ++ ys) ≡ (any test xs || any test ys)
  any-append test [] ys = refl
  any-append test (x ∷ xs) ys = ground (arith, any-append test xs ys)

  pub any_never : (xs : List A) → any (λ x. false) xs ≡ false
  any_never [] = refl
  any_never (x ∷ xs) = any_never xs

  pub any_ext : (f g : A → Bool) (xs : List A) → ((x : A) → f x ≡ g x) → any f xs ≡ any g xs
  any_ext f g [] e = refl
  any_ext f g (x ∷ xs) e = ground (arith, e x, any_ext f g xs e)

  module _ (lt : A → A → Bool) (irrefl : (x : A) → lt x x ≡ false)
      (trans : (x y z : A) → lt x y ≡ true → lt y z ≡ true → lt x z ≡ true) where
    not_below : (m x z : A) → lt z m ≡ false → lt x m ≡ true → lt z x ≡ false
    not_below m x z h e = elim (Bool-cases (lt z x)) [
      | inl f ↦ ground (arith, trans z x m f e)
      | inr f ↦ f
    ]

    -- A list that is not empty has an item that none is below, by a strict order.
    pub least :
        (xs : List A)
        → xs ≢ []
        → (m : A) × (k : ℕ) × (get_elem? xs k ≡ some m) × All (λ y. lt y m ≡ false) xs
    least [] h = absurd (h refl)
    least (x ∷ []) h = (x, 0, refl, (irrefl x, tt))
    least (x ∷ y ∷ ys) h =
        let (m, k, found, low) = least (y ∷ ys) (λ e. cc) in
        elim (Bool-cases (lt x m)) [
          | inl e ↦ (x, 0, refl, (irrefl x, All-map _ _ (y ∷ ys) (λ z f. not_below m x z f e) low))
          | inr e ↦ (m, suc k, found, (e, low))
        ]

module _ {ℓ κ} {A : Type ℓ} {B : Type κ} where
  pub any_swap :
      (f : A → B → Bool) (xs : List A) (ys : List B)
      → any (λ x. any (f x) ys) xs ≡ any (λ y. any (λ x. f x y) xs) ys
  any_swap f [] ys = sym (any_never ys)
  any_swap f (x ∷ xs) ys =
      ground (arith, any-or (f x) (λ y. any (λ z. f z y) xs) ys, any_swap f xs ys)

-- a in xs
abbrev pub contains : List String → String → Bool
contains [] a = false
contains (x ∷ xs) a = x == a || contains xs a

pub contains-append :
    (xs ys : List String) (a : String) → contains (xs ++ ys) a ≡ (contains xs a || contains ys a)
contains-append [] ys a = refl
contains-append (x ∷ xs) ys a = ground (arith, contains-append xs ys a)
