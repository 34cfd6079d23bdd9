-- ===== src/Runtime/State/Capacity.antt =====
-- runtime/state.py: the limits on how many entries a scope holds, and the isolation of namespaces.
use mininet_ai.Prelude.{
  ℕ, suc, ◌≤◌, String, ◌≡◌, ◌≢◌, refl, sym, true, false, some, Option-cases, inl, inr, List, [],
  ◌∷◌, arith, ◌==◌, eq_iff,
}
use mininet_ai.Runtime.State.{
  Scope, run_scope, deployment_scope, SharedStateUpdate, SharedStateChange, SharedStateAccess,
  Result, ok, err, namespace_text, namespace, limit_in, Identity, same_id, Entries, lookup, active,
  active-insert, limit_of, item_of, apply_one, apply_to, apply, Store,
}
use mininet_ai.Runtime.State.Steps.{id_of, namespaces_differ, apply_one-eq-ok}
use mininet_ai.Runtime.State.Versions.{apply_to-cons, apply-eq-ok, apply_one-lookup, apply_versions}

-- within one access, the namespace tells the scope
pub scope_of_namespace :
    (access : SharedStateAccess) (s t : Scope)
    → (namespace_text access s == namespace_text access t) ≡ true
    → s ≡ t
scope_of_namespace access run_scope run_scope h = refl
scope_of_namespace access deployment_scope deployment_scope h = refl
scope_of_namespace access run_scope deployment_scope h =
    absurd (namespaces_differ access ((eq_iff _ _).0 h))
scope_of_namespace access deployment_scope run_scope h =
    absurd (namespaces_differ access (sym ((eq_iff _ _).0 h)))

module _ {J T : Type 0} (null : J) (access : SharedStateAccess) where
  active-apply_one :
      (now : T) (es es' : Entries J T) (u : SharedStateUpdate J) (change : SharedStateChange J)
      → (s : Scope) (k : ℕ) → limit_of access s ≤ k
      → active (namespace_text access s) es ≤ k
      → apply_one null access now es u ≡ ok (change, es')
      → active (namespace_text access s) es' ≤ k
  active-apply_one now es es' u change s k room within h =
      let (_, _, present, _, stored) = apply_one-eq-ok null access now es es' u change h in
      let current = lookup (id_of access u) es in
      rw stored (
        ground (
          arith,
          active-insert (namespace_text access s) (id_of access u) (item_of access now u current)
              es,
          scope_of_namespace access u.scope s,
        ))

module _ {J T : Type 0} (null : J) (clock : ℕ → T) (access : SharedStateAccess) where
  active-apply_to :
      (n : ℕ) (es final : Entries J T) (us : List (SharedStateUpdate J))
      → (changes : List (SharedStateChange J)) (s : Scope) (k : ℕ) → limit_of access s ≤ k
      → active (namespace_text access s) es ≤ k
      → (apply_to null clock access n es us).0 ≡ ok (changes, final)
      → active (namespace_text access s) final ≤ k
  active-apply_to n es final [] changes s k room within h = unfold apply_to in ground arith
  active-apply_to n es final (u ∷ us) changes s k room within h =
      let (change, es', rest, one, more, _) =
        apply_to-cons null clock access n es final u us changes h in
      active-apply_to (suc n) es' final us rest s k room
        (active-apply_one null access (clock n) es es' u change s k room within one) more

  -- Whatever the batch, and whether `apply` returns or raises, a scope that held at most `k`
  -- entries holds at most `k` after it, for each `k` from the limit of the scope on: at the limit
  -- itself the scope stays within it, and a scope that is over its limit does not grow.
  pub apply_keeps_capacity :
      (us : List (SharedStateUpdate J)) (st : Store J T) (s : Scope) (k : ℕ)
      → limit_of access s ≤ k
      → active (namespace_text access s) st.entries ≤ k
      → active (namespace_text access s) (apply null clock access us st).1.entries ≤ k
  apply_keeps_capacity us st s k room within = go (apply null clock access us st).0 refl
    where
      go :
          (r : Result (List (SharedStateChange J)))
          → (apply null clock access us st).0 ≡ r
          → active (namespace_text access s) (apply null clock access us st).1.entries ≤ k
      go (err e) p = rw ((apply_versions null clock access us st).0 e p) within
      go (ok changes) p =
          active-apply_to st.readings st.entries (apply null clock access us st).1.entries us
            changes s k room within (apply-eq-ok null clock access us st changes p).1

-- The place is in none of the namespaces of the scopes that the access allows: those with a limit.
abbrev pub IsForeign : SharedStateAccess → Identity → Type 0
IsForeign access i =
    (s : Scope) (limit : ℕ) → limit_in s access.limits ≡ some limit → i.0 ≢ namespace_text access s

namespace-allowed :
    (access : SharedStateAccess) (s : Scope)
    → namespace access s ≡ ok (namespace_text access s)
    → (limit : ℕ) × (limit_in s access.limits ≡ some limit)
unfolding namespace
namespace-allowed access s h = elim (Option-cases (limit_in s access.limits)) [
  | inl e ↦ absurd (ground (arith, e, h))
  | inr (limit, e) ↦ (limit, e)
]

-- An update of an allowed scope is for another place.
not-same_id :
    (access : SharedStateAccess) (i : Identity) (s : Scope) (k : String)
    → IsForeign access i
    → namespace access s ≡ ok (namespace_text access s)
    → same_id (namespace_text access s, k) i ≡ false
not-same_id access i s k foreign h =
    let (limit, allowed) = namespace-allowed access s h in
    ground (arith, eq_iff (namespace_text access s) i.0, foreign s limit allowed)

module _ {J T : Type 0} (null : J) (clock : ℕ → T) (access : SharedStateAccess) where
  apply_to_foreign :
      (n : ℕ) (es final : Entries J T) (us : List (SharedStateUpdate J))
      → (changes : List (SharedStateChange J)) (i : Identity) → IsForeign access i
      → (apply_to null clock access n es us).0 ≡ ok (changes, final)
      → lookup i final ≡ lookup i es
  apply_to_foreign n es final [] changes i foreign h = unfold apply_to in ground arith
  apply_to_foreign n es final (u ∷ us) changes i foreign h =
      let (change, es', rest, one, more, _) =
        apply_to-cons null clock access n es final u us changes h in
      let (allowed, _, _, _, _) = apply_one-eq-ok null access (clock n) es es' u change one in
      ground (
        arith,
        not-same_id access i u.scope u.key foreign allowed,
        apply_one-lookup null access (clock n) es es' u change i one,
        apply_to_foreign (suc n) es' final us rest i foreign more,
      )

  -- An agent cannot touch what lies outside the namespaces of the scopes that its access allows, be it
  -- another namespace or that of a scope without a limit: whatever the batch, and whether `apply`
  -- returns or raises, an entry elsewhere is what it was.
  pub apply_isolated :
      (us : List (SharedStateUpdate J)) (st : Store J T) (i : Identity)
      → IsForeign access i
      → lookup i (apply null clock access us st).1.entries ≡ lookup i st.entries
  apply_isolated us st i foreign = go (apply null clock access us st).0 refl
    where
      go :
          (r : Result (List (SharedStateChange J)))
          → (apply null clock access us st).0 ≡ r
          → lookup i (apply null clock access us st).1.entries ≡ lookup i st.entries
      go (err e) p = rw ((apply_versions null clock access us st).0 e p)
      go (ok changes) p =
          apply_to_foreign st.readings st.entries (apply null clock access us st).1.entries us
            changes i foreign (apply-eq-ok null clock access us st changes p).1
