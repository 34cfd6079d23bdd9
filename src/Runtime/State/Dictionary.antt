-- ===== src/Runtime/State/Dictionary.antt =====
-- runtime/state.py: `self._entries`, a dictionary by namespace and key, in insertion order, and
-- what holds of its operations.
use mininet_ai.Prelude.{
  ℕ, ◌+◌, String, ◌≡◌, ◌↔◌, refl, Bool, true, not, ◌&&◌, Option, none, some, List, [], ◌∷◌, arith,
  ◌==◌, eq_iff, count, if◌then◌else◌,
}

-- (value, version, deleted, updated_by, updated_at)
pub record Item (J T : Type 0) : Type 0 where
  pub value : J
  pub version : ℕ
  pub deleted : Bool
  pub updated_by : String
  pub updated_at : T

abbrev pub Identity : Type 0
Identity = String × String

abbrev pub same_id : Identity → Identity → Bool
same_id i j = i.0 == j.0 && i.1 == j.1

pub same_id_iff : (i j : Identity) → (same_id i j ≡ true) ↔ (i ≡ j)
same_id_iff (a, b) (c, d) =
    (λ h. ground (arith, eq_iff a c, eq_iff b d), λ h. ground (arith, eq_iff a c, eq_iff b d))

abbrev pub Entries : Type 0 → Type 0 → Type 0
Entries J T = List (Identity × Item J T)

module _ {J T : Type 0} where
  -- `entries.get(identity)`
  unfoldable pub lookup : Identity → Entries J T → Option (Item J T)
  lookup i [] = none
  lookup i ((j, x) ∷ rest) = if same_id j i then some x else lookup i rest

  -- `entries[identity] = item`: in place, or at the end
  unfoldable pub insert : Identity → Item J T → Entries J T → Entries J T
  insert i x [] = (i, x) ∷ []
  insert i x ((j, y) ∷ rest) = if same_id j i then (j, x) ∷ rest else (j, y) ∷ insert i x rest

  -- the test of the `sum` in `_apply_to`
  abbrev pub is_active : String → Identity × Item J T → Bool
  is_active ns (i, x) = i.0 == ns && not x.deleted

  -- how many entries of the namespace are not deleted
  abbrev pub active : String → Entries J T → ℕ
  active ns = count (is_active ns)

  pub lookup-insert :
      (i j : Identity) (x : Item J T) (es : Entries J T)
      → lookup j (insert i x es) ≡ (if same_id i j then some x else lookup j es)
  unfolding lookup insert
  lookup-insert i j x [] = refl
  lookup-insert i j x ((k, y) ∷ es) = ground (
    arith,
    eq_iff k.0 i.0,
    eq_iff k.1 i.1,
    eq_iff i.0 j.0,
    eq_iff i.1 j.1,
    eq_iff k.0 j.0,
    eq_iff k.1 j.1,
    lookup-insert i j x es,
  )

  -- 1 for an entry of the namespace that is not deleted
  abbrev pub weight : String → Identity → Option (Item J T) → ℕ
  weight ns i none = 0
  weight ns i (some x) = if is_active ns (i, x) then 1 else 0

  -- An insertion changes the count by the entry that it replaces and the one that it adds.
  pub active-insert :
      (ns : String) (i : Identity) (x : Item J T) (es : Entries J T)
      → active ns (insert i x es) + weight ns i (lookup i es) ≡ active ns es + weight ns i (some x)
  unfolding lookup insert
  active-insert ns i x [] = ground arith
  active-insert ns i x ((k, y) ∷ es) =
      ground (arith, eq_iff k.0 i.0, eq_iff k.1 i.1, active-insert ns i x es)
