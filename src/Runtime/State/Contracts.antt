-- ===== src/Runtime/State/Contracts.antt =====
-- sdk/contracts.py and runtime/state.py: the records of shared state, the access of an agent and
-- its namespaces. `J` stands for `JsonValue`, whose null is Python's `None`.
use Prim.Native.String.{◌++◌ as ◌<>◌}
use mininet_ai.Prelude.{
  ℕ, String, Bool, true, false, Option, none, some, List, [], ◌∷◌, if◌then◌else◌,
}

pub data Scope : Type 0 where
  run_scope deployment_scope : Scope

pub data Operation : Type 0 where
  set_op delete_op : Operation

-- A `delete` update carries no value: `operation_matches_value` of the source refuses one.
pub record SharedStateUpdate (J : Type 0) : Type 0 where
  pub scope : Scope
  pub operation : Operation
  pub key : String
  pub value : J
  pub expected_version : Option ℕ

pub record SharedStateChange (J : Type 0) : Type 0 where
  pub scope : Scope
  pub operation : Operation
  pub key : String
  pub version : ℕ
  pub value : J

pub record SharedStateEntry (J T : Type 0) : Type 0 where
  pub value : J
  pub version : ℕ
  pub updated_by : String
  pub updated_at : T

-- The codes of `SharedStateError` that `namespace`, `_validate_updates`, `apply` and `snapshot` raise,
-- and Python's `TypeError`, which `snapshot` does not catch.
pub data StateError : Type 0 where
  scope_forbidden duplicate_update version_required version_conflict : StateError
  entry_missing capacity_exceeded state_closed read_failed write_failed type_error : StateError

pub data Result {ℓ} (A : Type ℓ) : Type ℓ where
  ok : A → Result A
  err : StateError → Result A

-- A step may refuse, and then what comes after it is not run.
infixl 5 ◌>>=◌ ◌>>◌
abbrev pub ◌>>=◌ {ℓ κ} : {X : Type ℓ} {Y : Type κ} (m : Result X) (step : X → Result Y) → Result Y
err refused >>= step = err refused
ok value >>= step = step value

abbrev pub ◌>>◌ {κ} : {Y : Type κ} (check : Result (Unit {0})) (rest : Result Y) → Result Y
check >> rest = check >>= λ _. rest

abbrev pub same_scope : Scope → Scope → Bool
same_scope run_scope run_scope = true
same_scope deployment_scope deployment_scope = true
same_scope _ _ = false

-- `limits` is a mapping: its order is that of `allowedScopes`, and a lookup takes the first entry.
pub record SharedStateAccess : Type 0 where
  pub run_id : String
  pub deployment : String
  pub agent_id : String
  pub limits : List (Scope × ℕ)

abbrev pub limit_in : Scope → List (Scope × ℕ) → Option ℕ
limit_in s [] = none
limit_in s ((t, n) ∷ rest) = if same_scope t s then some n else limit_in s rest

-- the text of a namespace, whether or not the scope is allowed
abbrev pub namespace_text : SharedStateAccess → Scope → String
namespace_text a run_scope = "run:" <> a.run_id
namespace_text a deployment_scope = (("run:" <> a.run_id) <> ":deployment:") <> a.deployment

unfoldable pub namespace : SharedStateAccess → Scope → Result String
namespace a s = elim (limit_in s a.limits) [
  | none ↦ err scope_forbidden
  | some _ ↦ ok (namespace_text a s)
]
