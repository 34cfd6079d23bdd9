-- ===== src/Prelude/Dict.antt =====
-- A Python dictionary by texts: an association list in insertion order.
use Prim.Native.String.{String}
use text.Mathlib.Text.{◌==◌}
use text.Mathlib.TextEquality.{eq_iff}
use mathlib.Core.Path.{◌≡◌, refl}
use mathlib.Core.Option.{Option, none, some}
use mathlib.Core.List.{List, [], ◌∷◌, map}
use native.Mathlib.Omega.{arith}
use mininet_ai.Prelude.Tests.{if◌then◌else◌}

module _ {ℓ} {V : Type ℓ} where
  -- d.get(key)
  unfoldable pub lookup : (key : String) (d : List (String × V)) → Option V
  lookup key [] = none
  lookup key (e ∷ d) = if e.0 == key then some e.1 else lookup key d

  -- d[key] = value
  unfoldable pub insert : (key : String) (value : V) (d : List (String × V)) → List (String × V)
  insert key value [] = (key, value) ∷ []
  insert key value (e ∷ d) = if e.0 == key then (e.0, value) ∷ d else e ∷ insert key value d

  pub lookup-insert :
      (stored wanted : String) (value : V) (d : List (String × V))
      → lookup wanted (insert stored value d)
        ≡ (if stored == wanted then some value else lookup wanted d)
  unfolding lookup insert
  lookup-insert stored wanted value [] = refl
  lookup-insert stored wanted value (e ∷ d) = ground (
    arith,
    eq_iff e.0 stored,
    eq_iff e.0 wanted,
    eq_iff stored wanted,
    lookup-insert stored wanted value d,
  )

  abbrev pub keys : List (String × V) → List String
  keys = map (λ e. e.0)
