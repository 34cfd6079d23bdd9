-- ===== src/Runtime/State/Reads.antt =====
-- runtime/state.py: an agent reads what was written.
use mininet_ai.Prelude.{
  ℕ, suc, ◌≡◌, refl, false, none, some, List, [], ◌∷◌, arith, eq_iff, eq_refl, All, All-map,
}
use mininet_ai.Runtime.State.{
  SharedStateUpdate, SharedStateChange, SharedStateAccess, SharedStateSnapshot, Result, ok, err,
  namespace_text, namespace, Identity, same_id, Entries, lookup, item_of, apply_to, apply, Store,
  snapshot, limit_in,
}
use mininet_ai.Runtime.State.Steps.{id_of, Separate, validate_updates-Separate, apply_one-eq-ok}
use mininet_ai.Runtime.State.Versions.{apply_one-lookup, apply_to-cons, apply-eq-ok, apply_versions}
use mininet_ai.Runtime.State.Snapshot.{
  Distinct, Distinct-insert, entry_at, shown, section_of, snapshot_shows,
}

module _ {J T : Type 0} (null : J) (clock : ℕ → T) (access : SharedStateAccess) where
  apply_to-Distinct :
      (n : ℕ) (es final : Entries J T) (us : List (SharedStateUpdate J))
      → (changes : List (SharedStateChange J)) → Distinct es
      → (apply_to null clock access n es us).0 ≡ ok (changes, final)
      → Distinct final
  apply_to-Distinct n es final [] changes d h =
      let e : es ≡ final = (unfold apply_to in ground arith) in rw (← e) d
  apply_to-Distinct n es final (u ∷ us) changes d h =
      let (change, es', rest, one, more, _) =
        apply_to-cons null clock access n es final u us changes h in
      let (_, _, _, _, stored) = apply_one-eq-ok null access (clock n) es es' u change one in
      apply_to-Distinct (suc n) es' final us rest
        (rw stored (
          Distinct-insert (id_of access u) (item_of access (clock n) u (lookup (id_of access u) es))
            es d))
        more

  pub apply-Distinct :
      (us : List (SharedStateUpdate J)) (st : Store J T)
      → Distinct st.entries
      → Distinct (apply null clock access us st).1.entries
  apply-Distinct us st d = go (apply null clock access us st).0 refl
    where
      go :
          (r : Result (List (SharedStateChange J)))
          → (apply null clock access us st).0 ≡ r
          → Distinct (apply null clock access us st).1.entries
      go (err e) p = rw ((apply_versions null clock access us st).0 e p) d
      go (ok changes) p =
          apply_to-Distinct st.readings st.entries (apply null clock access us st).1.entries us
            changes d (apply-eq-ok null clock access us st changes p).1

  -- the item that the update leaves at its place, at some reading of the clock
  abbrev Stored : Entries J T → Entries J T → SharedStateUpdate J → Type 0
  Stored before final u =
      (n : ℕ) × (lookup (id_of access u) final
        ≡ some (item_of access (clock n) u (lookup (id_of access u) before)))

  apply_to_untouched :
      (n : ℕ) (es final : Entries J T) (us : List (SharedStateUpdate J))
      → (changes : List (SharedStateChange J)) (i : Identity)
      → All (λ v. same_id i (id_of access v) ≡ false) us
      → (apply_to null clock access n es us).0 ≡ ok (changes, final)
      → lookup i final ≡ lookup i es
  apply_to_untouched n es final [] changes i apart h = unfold apply_to in ground arith
  apply_to_untouched n es final (u ∷ us) changes i (here, apart) h =
      let (change, es', rest, one, more, _) =
        apply_to-cons null clock access n es final u us changes h in
      ground (
        arith,
        here,
        eq_iff i.0 (id_of access u).0,
        eq_iff i.1 (id_of access u).1,
        eq_iff (id_of access u).0 i.0,
        eq_iff (id_of access u).1 i.1,
        apply_one-lookup null access (clock n) es es' u change i one,
        apply_to_untouched (suc n) es' final us rest i apart more,
      )

  Stored-Agree :
      (es es' final : Entries J T) (us : List (SharedStateUpdate J))
      → All (λ v. lookup (id_of access v) es' ≡ lookup (id_of access v) es) us
      → All (Stored es' final) us
      → All (Stored es final) us
  Stored-Agree es es' final [] a h = tt
  Stored-Agree es es' final (u ∷ us) a h =
      ((h.0.0, ground (arith, a.0, h.0.1)), Stored-Agree es es' final us a.1 h.1)

  apply_to-Stored :
      (n : ℕ) (es final : Entries J T) (us : List (SharedStateUpdate J))
      → (changes : List (SharedStateChange J)) → Separate access us
      → (apply_to null clock access n es us).0 ≡ ok (changes, final)
      → All (Stored es final) us
  apply_to-Stored n es final [] changes sep h = tt
  apply_to-Stored n es final (u ∷ us) changes (apart, sep) h =
      let (change, es', rest, one, more, _) =
        apply_to-cons null clock access n es final u us changes h in
      let found = apply_one-lookup null access (clock n) es es' u change in
      let agree : All (λ v. lookup (id_of access v) es' ≡ lookup (id_of access v) es) us =
        All-map _ _ us (λ v d. ground (arith, found (id_of access v) one)) apart in
      (
        (
          n,
          ground (
            arith,
            apply_to_untouched (suc n) es' final us rest (id_of access u) apart more,
            found (id_of access u) one,
            eq_refl (id_of access u).0,
            eq_refl (id_of access u).1,
          ),
        ),
        Stored-Agree es es' final us agree (apply_to-Stored (suc n) es' final us rest sep more),
      )

  -- What the snapshot `snap` shows for an update: the entry that the update leaves, at some reading
  -- of the clock, and nothing for a deletion.
  abbrev pub ShowsUpdate : Entries J T → SharedStateSnapshot J T → SharedStateUpdate J → Type 0
  ShowsUpdate before snap u =
      (n : ℕ) × (entry_at u.key (section_of u.scope snap)
        ≡ shown (some (item_of access (clock n) u (lookup (id_of access u) before))))

  All-ShowsUpdate :
      (before final : Entries J T) (snap : SharedStateSnapshot J T)
      (us : List (SharedStateUpdate J))
      → ((u : SharedStateUpdate J)
          → entry_at u.key (section_of u.scope snap) ≡ elim (limit_in u.scope access.limits) [
            | none ↦ none
            | some _ ↦ shown (lookup (id_of access u) final)
          ])
      → All (λ u. namespace access u.scope ≡ ok (namespace_text access u.scope)) us
      → All (Stored before final) us
      → All (ShowsUpdate before snap) us
  All-ShowsUpdate before final snap [] shows allowed h = tt
  All-ShowsUpdate before final snap (u ∷ us) shows allowed h = (
    (h.0.0, unfold namespace in ground (arith, shows u, allowed.0, h.0.1)),
    All-ShowsUpdate before final snap us shows allowed.1 h.1,
  )

  apply_to-allowed :
      (n : ℕ) (es final : Entries J T) (us : List (SharedStateUpdate J))
      → (changes : List (SharedStateChange J))
      → (apply_to null clock access n es us).0 ≡ ok (changes, final)
      → All (λ u. namespace access u.scope ≡ ok (namespace_text access u.scope)) us
  apply_to-allowed n es final [] changes h = tt
  apply_to-allowed n es final (u ∷ us) changes h =
      let (change, es', rest, one, more, _) =
        apply_to-cons null clock access n es final u us changes h in
      (
        (apply_one-eq-ok null access (clock n) es es' u change one).0,
        apply_to-allowed (suc n) es' final us rest more,
      )

  -- Read your writes. If `apply` returns on a store with one entry for a place, a snapshot that the
  -- same access takes next does not raise, and shows, for each update of the batch, the value that
  -- it set, with the version after the one found before the batch, or no entry if it deleted.
  pub read_your_writes :
      (us : List (SharedStateUpdate J)) (st : Store J T) (changes : List (SharedStateChange J))
      → Distinct st.entries
      → (apply null clock access us st).0 ≡ ok changes
      → (snap : SharedStateSnapshot J T) × (snapshot access (apply null clock access us st).1
          ≡ ok snap)
        × All (ShowsUpdate st.entries snap) us
  read_your_writes us st changes d h =
      let after = (apply null clock access us st).1 in
      let (valid, looped) = apply-eq-ok null clock access us st changes h in
      let (snap, taken, shows) = snapshot_shows access after (apply-Distinct us st d) in
      (
        snap,
        taken,
        All-ShowsUpdate st.entries after.entries snap us (λ u. shows u.scope u.key)
            (apply_to-allowed st.readings st.entries after.entries us changes looped)
            (apply_to-Stored st.readings st.entries after.entries us changes
              (validate_updates-Separate access us valid) looped),
      )
