-- ===== src/Prelude/Tests.antt =====
-- Boolean tests on the native numbers, the conditional, and case lemmas.
use Prim.Native.Nat.{ℕ, compare, Ordering}
use Prim.Native.String.{String}
use text.Mathlib.Text.{◌==◌}
use text.Mathlib.TextPositions.{eq_refl}
use text.Mathlib.TextEquality.{eq_iff}
use mathlib.Core.Path.{◌≡◌, refl}
use mathlib.Core.Logic.{◌⊎◌, inl, inr}
use mathlib.Core.Bool.{Bool, true, false}
use mathlib.Core.Option.{Option, none, some}
use native.Mathlib.Omega.{arith}

abbrev pub ltb : ℕ → ℕ → Bool
ltb a b = elim (compare a b) [ Ordering.lt ↦ true | _ ↦ false ]

abbrev pub leb : ℕ → ℕ → Bool
leb a b = elim (compare a b) [ Ordering.gt ↦ false | _ ↦ true ]

abbrev pub nat_beq : ℕ → ℕ → Bool
nat_beq a b = elim (compare a b) [ Ordering.eq ↦ true | _ ↦ false ]

infix 1 if◌then◌else◌
abbrev pub if◌then◌else◌ {ℓ} : {A : Type ℓ} → Bool → A → A → A
if true then x else y = x
if false then x else y = y

pub if_keeps {ℓ} :
    {A : Type ℓ} (P : A → Type 0) (b : Bool) {x y : A} → P x → P y → P (if b then x else y)
if_keeps P true p q = p
if_keeps P false p q = q

pub Bool-cases : (b : Bool) → (b ≡ true) ⊎ (b ≡ false)
Bool-cases true = inl refl
Bool-cases false = inr refl

pub Option-cases {ℓ} : {A : Type ℓ} (o : Option A) → (o ≡ none) ⊎ ((a : A) × (o ≡ some a))
Option-cases none = inl refl
Option-cases (some a) = inr (a, refl)

pub str_beq_comm : (a b : String) → (a == b) ≡ (b == a)
str_beq_comm a b = ground (arith, eq_iff a b, eq_iff b a, eq_refl a, eq_refl b)
