-- ===== src/Runtime/State/Concurrency.antt =====
-- runtime/state.py: a batch is checked against the state that it found, and a stale expected
-- version is refused.
use mathlib.Core.Path.{ap₂}
use mininet_ai.Prelude.{
  ℕ, suc, ◌<◌, ◌≡◌, ◌≢◌, refl, ◌∙◌, ap, some, List, [], ◌∷◌, map, arith, All, All-map,
}
use mininet_ai.Runtime.State.{
  SharedStateUpdate, SharedStateChange, SharedStateAccess, ok, err, version_conflict, namespace,
  namespace_text, Entries, lookup, validate_updates, check_expected, version_in, deleted_in,
  change_of, apply_one, apply_to, apply, Store,
}
use mininet_ai.Runtime.State.Steps.{id_of, Separate, validate_updates-Separate, apply_one-eq-ok}
use mininet_ai.Runtime.State.Versions.{
  version_at, hits, apply_one-lookup, apply_to-cons, apply-eq-ok, apply_versions,
}

module _ {J T : Type 0} (null : J) (access : SharedStateAccess) where
  -- The expected version of the update agrees with what is visible at its place.
  abbrev pub IsCurrent : Entries J T → SharedStateUpdate J → Type 0
  IsCurrent es u =
      let current = lookup (id_of access u) es in
      check_expected u (version_in current) (deleted_in current) ≡ ok tt

  -- The change that the update makes to the entry at its place.
  abbrev pub change_at : Entries J T → SharedStateUpdate J → SharedStateChange J
  change_at es u = change_of null u (lookup (id_of access u) es)

  -- places that both dictionaries show alike
  abbrev Agree : Entries J T → Entries J T → SharedStateUpdate J → Type 0
  Agree es es' u = lookup (id_of access u) es' ≡ lookup (id_of access u) es

  IsCurrent-Agree :
      (es es' : Entries J T) (us : List (SharedStateUpdate J))
      → All (Agree es es') us
      → All (IsCurrent es') us
      → All (IsCurrent es) us
  IsCurrent-Agree es es' [] a h = tt
  IsCurrent-Agree es es' (u ∷ us) a h =
      (ground (arith, a.0, h.0), IsCurrent-Agree es es' us a.1 h.1)

  change_at-Agree :
      (es es' : Entries J T) (us : List (SharedStateUpdate J))
      → All (Agree es es') us
      → map (change_at es') us ≡ map (change_at es) us
  change_at-Agree es es' [] a = refl
  change_at-Agree es es' (u ∷ us) a =
      rw (a.0) (ap (◌∷◌ (change_at es u)) (change_at-Agree es es' us a.1))

module _ {J T : Type 0} (null : J) (clock : ℕ → T) (access : SharedStateAccess) where
  apply_to_changes :
      (n : ℕ) (es final : Entries J T) (us : List (SharedStateUpdate J))
      → (changes : List (SharedStateChange J)) → Separate access us
      → (apply_to null clock access n es us).0 ≡ ok (changes, final)
      → All (IsCurrent null access es) us × (changes ≡ map (change_at null access es) us)
  apply_to_changes n es final [] changes sep h = (tt, unfold apply_to in ground arith)
  apply_to_changes n es final (u ∷ us) changes (apart, sep) h =
      let (change, es', rest, one, more, e) =
        apply_to-cons null clock access n es final u us changes h in
      let (_, current, _, made, _) = apply_one-eq-ok null access (clock n) es es' u change one in
      let (checked, made_later) = apply_to_changes (suc n) es' final us rest sep more in
      let agree : All (Agree null access es es') us =
        All-map _ _ us
          (λ v d.
            ground
              (arith, apply_one-lookup null access (clock n) es es' u change (id_of access v) one))
          apart in
      (
        (current, IsCurrent-Agree null access es es' us agree checked),
        e ∙ ap₂ ◌∷◌ made (made_later ∙ change_at-Agree null access es es' us agree),
      )

  -- If `apply` returns, each update's expected version agreed with the version that was visible at
  -- its place before the batch, and the changes that it reports are, one for each update and in
  -- their order, the changes of the entries that stood there before the batch.
  pub apply_reads_before :
      (us : List (SharedStateUpdate J)) (s : Store J T) (changes : List (SharedStateChange J))
      → (apply null clock access us s).0 ≡ ok changes
      → All (IsCurrent null access s.entries) us
        × (changes ≡ map (change_at null access s.entries) us)
  apply_reads_before us s changes h =
      let (valid, looped) = apply-eq-ok null clock access us s changes h in
      apply_to_changes s.readings s.entries (apply null clock access us s).1.entries us changes
        (validate_updates-Separate access us valid) looped

module _ {J T : Type 0} (null : J) (clock : ℕ → T) (access : SharedStateAccess) where
  -- an allowed update that expects another version than the one in store is refused
  outdated :
      (u : SharedStateUpdate J) (v : ℕ) (s : Store J T)
      → namespace access u.scope ≡ ok (namespace_text access u.scope)
      → u.expected_version ≡ some v
      → 0 < v
      → version_at (id_of access u) s.entries ≢ v
      → (apply null clock access (u ∷ []) s).0 ≡ err version_conflict
  unfolding apply apply_to apply_one validate_updates
  outdated u v s allowed expects pos differs = ground arith

module _ {J T : Type 0} (null : J) (clock : ℕ → T) (access : SharedStateAccess) where
  -- No lost update. After a batch with an update for a place, an update of any agent that expects
  -- the version that the place had before the batch is refused, be the entry written or deleted.
  pub stale_update_rejected :
      (other : SharedStateAccess) (us : List (SharedStateUpdate J)) (u : SharedStateUpdate J)
      → (s : Store J T) (changes : List (SharedStateChange J)) (v : ℕ)
      → (apply null clock access us s).0 ≡ ok changes
      → 0 < hits access (id_of other u) us
      → version_at (id_of other u) s.entries ≡ v
      → 0 < v
      → u.expected_version ≡ some v
      → namespace other u.scope ≡ ok (namespace_text other u.scope)
      → (apply null clock other (u ∷ []) (apply null clock access us s).1).0 ≡ err version_conflict
  stale_update_rejected other us u s changes v done hit was pos expects allowed =
      let grown = (apply_versions null clock access us s).1 changes (id_of other u) done in
      outdated null clock other u v (apply null clock access us s).1 allowed expects pos
        (omega (arith, grown))
