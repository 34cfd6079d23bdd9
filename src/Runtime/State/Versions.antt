-- ===== src/Runtime/State/Versions.antt =====
-- runtime/state.py: the versions of the entries, and the optimistic checks against them.
use mininet_ai.Prelude.{
  ℕ, suc, ◌+◌, ◌≡◌, refl, Bool, none, some, List, [], ◌∷◌, arith, eq_iff, count, if◌then◌else◌,
}
use mininet_ai.Runtime.State.{
  SharedStateUpdate, SharedStateChange, SharedStateAccess, Result, ok, err, StateError, Identity,
  same_id, Entries, lookup, lookup-insert, validate_updates, version_in, item_of, apply_one,
  apply_to, apply, collect, Store,
}
use mininet_ai.Runtime.State.Steps.{id_of, apply_one-eq-ok}

-- the version of a place, a deleted entry's included, or 0 where there was never an entry
abbrev pub version_at : {J T : Type 0} → Identity → Entries J T → ℕ
version_at i es = elim (version_in (lookup i es)) [ none ↦ 0 | some v ↦ v ]

abbrev pub targets : {J : Type 0} → SharedStateAccess → Identity → SharedStateUpdate J → Bool
targets access i u = same_id (id_of access u) i

-- how many updates of a batch are for the place
abbrev pub hits : {J : Type 0} → SharedStateAccess → Identity → List (SharedStateUpdate J) → ℕ
hits access i = count (targets access i)

module _ {J T : Type 0} (null : J) (access : SharedStateAccess) where
  pub apply_one-lookup :
      (now : T) (es es' : Entries J T) (u : SharedStateUpdate J) (change : SharedStateChange J)
      → (i : Identity) → apply_one null access now es u ≡ ok (change, es')
      → lookup i es' ≡ (
          if targets access i u
          then some (item_of access now u (lookup (id_of access u) es))
          else lookup i es)
  apply_one-lookup now es es' u change i h =
      let (_, _, _, _, stored) = apply_one-eq-ok null access now es es' u change h in
      rw stored
        (lookup-insert (id_of access u) i (item_of access now u (lookup (id_of access u) es)) es)

  apply_one_version :
      (now : T) (es es' : Entries J T) (u : SharedStateUpdate J) (change : SharedStateChange J)
      → (i : Identity) → apply_one null access now es u ≡ ok (change, es')
      → version_at i es' ≡ version_at i es + (if targets access i u then 1 else 0)
  apply_one_version now es es' u change i h = ground (
    arith,
    apply_one-lookup now es es' u change i h,
    eq_iff (id_of access u).0 i.0,
    eq_iff (id_of access u).1 i.1,
  )

collect-eq-ok :
    {C E : Type 0} (r : Result (List C × E)) (change : C) (changes : List C) (final : E)
    → collect change r ≡ ok (changes, final)
    → (rest : List C) × (r ≡ ok (rest, final)) × (changes ≡ change ∷ rest)
collect-eq-ok (ok (cs, f)) change changes final h = (cs, ground arith, ground arith)
collect-eq-ok (err e) change changes final h = cc

module _ {J T : Type 0} (null : J) (clock : ℕ → T) (access : SharedStateAccess) where
  -- a successful loop over a batch, taken apart at its first round
  pub apply_to-cons :
      (n : ℕ) (es final : Entries J T) (u : SharedStateUpdate J) (us : List (SharedStateUpdate J))
      → (changes : List (SharedStateChange J))
      → (apply_to null clock access n es (u ∷ us)).0 ≡ ok (changes, final)
      → (change : SharedStateChange J) × (es' : Entries J T) × (rest : List (SharedStateChange J))
        × (apply_one null access (clock n) es u ≡ ok (change, es'))
        × ((apply_to null clock access (suc n) es' us).0 ≡ ok (rest, final))
        × (changes ≡ change ∷ rest)
  unfolding apply_to
  apply_to-cons n es final u us changes h = go (apply_one null access (clock n) es u) refl
    where
      go :
          (r : Result (SharedStateChange J × Entries J T))
          → apply_one null access (clock n) es u ≡ r
          → (change : SharedStateChange J) × (es' : Entries J T) × (rest : List
              (SharedStateChange J))
            × (apply_one null access (clock n) es u ≡ ok (change, es'))
            × ((apply_to null clock access (suc n) es' us).0 ≡ ok (rest, final))
            × (changes ≡ change ∷ rest)
      go (err e) p = ground arith
      go (ok (change, es')) p =
          let (rest, more, e) =
            collect-eq-ok (apply_to null clock access (suc n) es' us).0 change changes final
              (ground arith) in
          (change, es', rest, p, more, e)

  apply_to_version :
      (n : ℕ) (es final : Entries J T) (us : List (SharedStateUpdate J))
      → (changes : List (SharedStateChange J)) (i : Identity)
      → (apply_to null clock access n es us).0 ≡ ok (changes, final)
      → version_at i final ≡ version_at i es + hits access i us
  apply_to_version n es final [] changes i h = unfold apply_to in ground arith
  apply_to_version n es final (u ∷ us) changes i h =
      let (change, es', rest, one, more, _) = apply_to-cons n es final u us changes h in
      ground (
        arith,
        apply_one_version null access (clock n) es es' u change i one,
        apply_to_version (suc n) es' final us rest i more,
      )

  -- a call of `apply` that returns, taken apart
  pub apply-eq-ok :
      (us : List (SharedStateUpdate J)) (s : Store J T) (changes : List (SharedStateChange J))
      → (apply null clock access us s).0 ≡ ok changes
      → (validate_updates access us ≡ ok tt)
        × ((apply_to null clock access s.readings s.entries us).0
            ≡ ok (changes, (apply null clock access us s).1.entries))
  unfolding apply
  apply-eq-ok us s changes h = (ground arith, ground arith)

  -- A batch is all or nothing, and counts its writes. If `apply` raises, the entries are what they
  -- were. If it returns, each place's version has grown by the number of updates for it, so a
  -- version never decreases, a deletion included, and no place but theirs has a new version.
  pub apply_versions :
      (us : List (SharedStateUpdate J)) (s : Store J T)
      → ((e : StateError)
          → (apply null clock access us s).0 ≡ err e
          → (apply null clock access us s).1.entries ≡ s.entries)
        × ((changes : List (SharedStateChange J)) (i : Identity)
            → (apply null clock access us s).0 ≡ ok changes
            → version_at i (apply null clock access us s).1.entries
              ≡ version_at i s.entries + hits access i us)
  apply_versions us s = (
    λ e h. unfold apply in ground arith,
    λ changes i h.
        (let (_, looped) = apply-eq-ok us s changes h in
          apply_to_version s.readings s.entries (apply null clock access us s).1.entries us changes
            i looped),
  )
