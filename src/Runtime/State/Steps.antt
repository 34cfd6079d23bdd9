-- ===== src/Runtime/State/Steps.antt =====
-- runtime/state.py: what one round of `_apply_to` does, the texts of the namespaces, and the
-- batches that `_validate_updates` lets through.
use Prim.Native.String.{◌++◌ as ◌<>◌, count as size}
use text.Mathlib.TextLemmas.{length-append}
use mininet_ai.Prelude.{
  String, ◌≡◌, ◌≢◌, sym, ap, true, false, List, [], ◌∷◌, arith, ◌==◌, eq_iff, All, All-map,
  Bool-cases, inl, inr,
}
use mininet_ai.Runtime.State.{
  Scope, run_scope, deployment_scope, SharedStateUpdate, SharedStateChange, SharedStateAccess, ok,
  same_scope, namespace_text, namespace, Identity, same_id, Entries, lookup, insert, seen,
  validate_from, validate_updates, check_expected, version_in, deleted_in, check_presence, item_of,
  change_of, apply_one,
}

-- the place of an update in the dictionary
abbrev pub id_of : {J : Type 0} → SharedStateAccess → SharedStateUpdate J → Identity
id_of access u = (namespace_text access u.scope, u.key)

-- The two namespaces of one access differ: the deployment's text is the longer.
pub namespaces_differ :
    (access : SharedStateAccess)
    → namespace_text access run_scope ≢ namespace_text access deployment_scope
namespaces_differ access e =
    let base = "run:" <> access.run_id in
    absurd (
      omega (
        arith,
        ap size e,
        length-append (base <> ":deployment:") access.deployment,
        length-append base ":deployment:",
      ))

same_id-scopes :
    (access : SharedStateAccess) (k l : String) (s t : Scope)
    → same_id (namespace_text access s, k) (namespace_text access t, l) ≡ true
    → (same_scope s t ≡ true) × ((k == l) ≡ true)
same_id-scopes access k l run_scope run_scope h = ground arith
same_id-scopes access k l deployment_scope deployment_scope h = ground arith
same_id-scopes access k l run_scope deployment_scope h =
    absurd (namespaces_differ access ((eq_iff _ _).0 (ground arith)))
same_id-scopes access k l deployment_scope run_scope h =
    absurd (namespaces_differ access (sym ((eq_iff _ _).0 (ground arith))))

module _ {J : Type 0} (access : SharedStateAccess) where
  -- no two updates of the batch are for one place
  abbrev pub Separate : List (SharedStateUpdate J) → Type 0
  Separate [] = Unit
  Separate (u ∷ us) = All (λ v. same_id (id_of access u) (id_of access v) ≡ false) us × Separate us

  abbrev Unseen : List (Scope × String) → SharedStateUpdate J → Type 0
  Unseen identities v = seen v.scope v.key identities ≡ false

  Unseen-cons :
      (u : SharedStateUpdate J) (identities : List (Scope × String)) (v : SharedStateUpdate J)
      → Unseen ((u.scope, u.key) ∷ identities) v
      → (same_id (id_of access u) (id_of access v) ≡ false) × Unseen identities v
  Unseen-cons u identities v h = elim (Bool-cases (same_id (id_of access u) (id_of access v))) [
    | inl e ↦ ground (arith, same_id-scopes access u.key v.key u.scope v.scope e)
    | inr e ↦ (e, ground arith)
  ]

  validate_from-Separate :
      (identities : List (Scope × String)) (us : List (SharedStateUpdate J))
      → validate_from access identities us ≡ ok tt
      → All (Unseen identities) us × Separate us
  unfolding validate_from
  validate_from-Separate identities [] h = (tt, tt)
  validate_from-Separate identities (u ∷ us) h =
      let (later, separate) =
        validate_from-Separate ((u.scope, u.key) ∷ identities) us (ground arith) in
      let both = All-map _ _ us (Unseen-cons u identities) later in
      (
        (ground arith, All-map _ _ us (λ v p. p.1) both),
        (All-map _ _ us (λ v p. p.0) both, separate),
      )

  -- A batch that `_validate_updates` lets through has no two updates for one place.
  pub validate_updates-Separate :
      (us : List (SharedStateUpdate J)) → validate_updates access us ≡ ok tt → Separate us
  unfolding validate_updates
  validate_updates-Separate us h = (validate_from-Separate [] us h).1

module _ {J T : Type 0} (null : J) (access : SharedStateAccess) where
  -- what a successful round has checked and written
  pub apply_one-eq-ok :
      (now : T) (es es' : Entries J T) (u : SharedStateUpdate J) (change : SharedStateChange J)
      → apply_one null access now es u ≡ ok (change, es')
      → let current = lookup (id_of access u) es in
        (namespace access u.scope ≡ ok (namespace_text access u.scope))
        × (check_expected u (version_in current) (deleted_in current) ≡ ok tt)
        × (check_presence access u (namespace_text access u.scope) es current ≡ ok tt)
        × (change ≡ change_of null u current)
        × (es' ≡ insert (id_of access u) (item_of access now u current) es)
  unfolding apply_one
  apply_one-eq-ok now es es' u change h =
      (ground arith, ground arith, ground arith, ground arith, ground arith)
