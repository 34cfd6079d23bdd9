-- ===== src/Prelude/Order.antt =====
-- Python's order of texts is a total order.
use Prim.Native.Nat.compare as compare_ℕ
use Prim.Native.Nat.{ℕ, zero, suc, Ordering, compare as compare_ℕ}
use Prim.Native.Char.{code}
use Prim.Native.String.compare
use Prim.Native.String.{String, [], ◌∷◌, compare, then}
use text.Mathlib.Text.{is_le, is_eq, ◌==◌}
use mathlib.Core.Path.{◌≡◌, refl, sym, subst}
use mathlib.Core.Bool.{true, false, false≢true}
use mininet_ai.Prelude.Sorting.{str_leb}

-- the answer of the third comparison, where those of the first two decide it
abbrev IsComposed : Ordering → Ordering → Ordering → Type 0
IsComposed Ordering.eq p q = q ≡ p
IsComposed Ordering.gt p q = Unit
IsComposed Ordering.lt Ordering.gt q = Unit
IsComposed Ordering.lt Ordering.eq q = q ≡ Ordering.lt
IsComposed Ordering.lt Ordering.lt q = q ≡ Ordering.lt

IsComposed-lt : (p : Ordering) → IsComposed Ordering.lt p Ordering.lt
IsComposed-lt Ordering.lt = refl
IsComposed-lt Ordering.eq = refl
IsComposed-lt Ordering.gt = tt

IsComposed-lt-lt : (o : Ordering) → IsComposed o Ordering.lt Ordering.lt
IsComposed-lt-lt Ordering.lt = refl
IsComposed-lt-lt Ordering.eq = refl
IsComposed-lt-lt Ordering.gt = tt

IsComposed-gt : (o : Ordering) → IsComposed o Ordering.gt Ordering.gt
IsComposed-gt Ordering.lt = tt
IsComposed-gt Ordering.eq = refl
IsComposed-gt Ordering.gt = tt

numbers-IsComposed : (a b c : ℕ) → IsComposed (compare_ℕ a b) (compare_ℕ b c) (compare_ℕ a c)
numbers-IsComposed zero zero zero = refl
numbers-IsComposed zero zero (suc c) = refl
numbers-IsComposed zero (suc b) zero = rw (compare_ℕ.zero-suc b, compare_ℕ.suc-zero b) tt
numbers-IsComposed zero (suc b) (suc c) =
    rw (compare_ℕ.zero-suc b, compare_ℕ.zero-suc c) (IsComposed-lt (compare_ℕ (suc b) (suc c)))
numbers-IsComposed (suc a) zero c = rw (compare_ℕ.suc-zero a) tt
numbers-IsComposed (suc a) (suc b) zero =
    rw (compare_ℕ.suc-zero b, compare_ℕ.suc-zero a) (IsComposed-gt (compare_ℕ (suc a) (suc b)))
numbers-IsComposed (suc a) (suc b) (suc c) =
    rw (compare_ℕ.suc-suc a b, compare_ℕ.suc-suc b c, compare_ℕ.suc-suc a c)
      (numbers-IsComposed a b c)

then-IsComposed :
    (o p q o' p' q' : Ordering)
    → IsComposed o p q
    → IsComposed o' p' q'
    → IsComposed (then o o') (then p p') (then q q')
then-IsComposed Ordering.gt p q o' p' q' h k = tt
then-IsComposed Ordering.lt Ordering.gt q o' p' q' h k = tt
then-IsComposed Ordering.lt Ordering.lt q o' p' q' h k = rw h refl
then-IsComposed Ordering.lt Ordering.eq q o' p' q' h k = rw h (IsComposed-lt p')
then-IsComposed Ordering.eq Ordering.eq q o' p' q' h k = rw h k
then-IsComposed Ordering.eq Ordering.lt q o' p' q' h k = rw h (IsComposed-lt-lt o')
then-IsComposed Ordering.eq Ordering.gt q o' p' q' h k = rw h (IsComposed-gt o')

texts-IsComposed : (s t u : String) → IsComposed (compare s t) (compare t u) (compare s u)
texts-IsComposed [] [] u = refl
texts-IsComposed [] (d ∷ t) [] = rw (compare.nil-cons d t, compare.cons-nil d t) tt
texts-IsComposed [] (d ∷ t) (e ∷ u) =
    rw (compare.nil-cons d t, compare.nil-cons e u) (IsComposed-lt (compare (d ∷ t) (e ∷ u)))
texts-IsComposed (c ∷ s) [] u = rw (compare.cons-nil c s) tt
texts-IsComposed (c ∷ s) (d ∷ t) [] =
    rw (compare.cons-nil d t, compare.cons-nil c s) (IsComposed-gt (compare (c ∷ s) (d ∷ t)))
texts-IsComposed (c ∷ s) (d ∷ t) (e ∷ u) =
    rw (compare.cons-cons c d s t, compare.cons-cons d e t u, compare.cons-cons c e s u)
      (then-IsComposed (compare_ℕ (code c) (code d)) _ _ (compare s t) _ _
        (numbers-IsComposed (code c) (code d) (code e)) (texts-IsComposed s t u))

abbrev flip : Ordering → Ordering
flip Ordering.lt = Ordering.gt
flip Ordering.eq = Ordering.eq
flip Ordering.gt = Ordering.lt

numbers-flip : (a b : ℕ) → compare_ℕ b a ≡ flip (compare_ℕ a b)
numbers-flip zero zero = refl
numbers-flip zero (suc b) = rw (compare_ℕ.zero-suc b, compare_ℕ.suc-zero b) refl
numbers-flip (suc a) zero = rw (compare_ℕ.zero-suc a, compare_ℕ.suc-zero a) refl
numbers-flip (suc a) (suc b) = rw (compare_ℕ.suc-suc a b, compare_ℕ.suc-suc b a) (numbers-flip a b)

flip-then : (o r : Ordering) → then (flip o) (flip r) ≡ flip (then o r)
flip-then Ordering.lt r = refl
flip-then Ordering.eq r = refl
flip-then Ordering.gt r = refl

texts-flip : (s t : String) → compare t s ≡ flip (compare s t)
texts-flip [] [] = refl
texts-flip [] (d ∷ t) = rw (compare.nil-cons d t, compare.cons-nil d t) refl
texts-flip (c ∷ s) [] = rw (compare.nil-cons c s, compare.cons-nil c s) refl
texts-flip (c ∷ s) (d ∷ t) =
    rw
      (
        compare.cons-cons c d s t,
        compare.cons-cons d c t s,
        numbers-flip (code c) (code d),
        texts-flip s t,
      )
      (flip-then (compare_ℕ (code c) (code d)) (compare s t))

is_le_trans :
    (o p q : Ordering) → IsComposed o p q → is_le o ≡ true → is_le p ≡ true → is_le q ≡ true
is_le_trans Ordering.gt p q h a b = absurd (false≢true a)
is_le_trans Ordering.lt Ordering.lt q h a b = rw h refl
is_le_trans Ordering.lt Ordering.eq q h a b = rw h refl
is_le_trans Ordering.lt Ordering.gt q h a b = absurd (false≢true b)
is_le_trans Ordering.eq p q h a b = rw h b

pub str_leb_trans : (s t u : String) → str_leb s t ≡ true → str_leb t u ≡ true → str_leb s u ≡ true
str_leb_trans s t u = is_le_trans (compare s t) (compare t u) (compare s u) (texts-IsComposed s t u)

is_le-flip : (o : Ordering) → is_le o ≡ false → is_le (flip o) ≡ true
is_le-flip Ordering.lt h = sym h
is_le-flip Ordering.eq h = refl
is_le-flip Ordering.gt h = refl

pub str_leb_total : (s t : String) → str_leb s t ≡ false → str_leb t s ≡ true
str_leb_total s t h = rw (texts-flip s t) (is_le-flip (compare s t) h)

is_le-eq : (o : Ordering) → is_le o ≡ true → is_le (flip o) ≡ true → is_eq o ≡ true
is_le-eq Ordering.lt h k = absurd (false≢true k)
is_le-eq Ordering.eq h k = refl
is_le-eq Ordering.gt h k = absurd (false≢true h)

pub str_leb_antisym : (s t : String) → str_leb s t ≡ true → str_leb t s ≡ true → (s == t) ≡ true
str_leb_antisym s t h k = is_le-eq (compare s t) h (subst (λ o. is_le o ≡ true) (texts-flip s t) k)
