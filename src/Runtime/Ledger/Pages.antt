-- ===== src/Runtime/Ledger/Pages.antt =====
-- runtime/ledger.py: `records` reads the records of a run page by page.
use mininet_ai.Prelude.{
  some, none, All, zero, ℕ, zero, suc, ◌+◌, ◌<◌, ◌≡◌, refl, ◌∙◌, String, true, false, ◌&&◌, Option,
  List, [], ◌∷◌, ◌==◌, ltb, leb, keep, inl, inr, arith, Bool-cases, subst, ap,
}
use mininet_ai.Prelude.Int.{pos}
use mininet_ai.Prelude.Sorting.{sort, place}
use mininet_ai.Runtime.Ledger.{
  take, LedgerRecord, has_run, rows_of, limit_to, select_records, is_zero, Codec, validate_all,
  records, LedgerOp, run_ops, new_ledger,
}
use mininet_ai.Runtime.Ledger.Numbers.{IsNumbered, records_numbered}

module _ {J T : Type 0} where
  -- the records after the first `n`
  abbrev pub drop : ℕ → List (LedgerRecord J T) → List (LedgerRecord J T)
  drop zero rs = rs
  drop (suc n) [] = []
  drop (suc n) (r ∷ rs) = drop n rs

  keep-rows_of :
      (run : String) (after : ℕ) (rows : List (LedgerRecord J T))
      → keep (λ r. r.entry.run_id == run && ltb after r.sequence) rows
        ≡ keep (λ r. ltb after r.sequence) (rows_of run rows)
  keep-rows_of run after [] = refl
  keep-rows_of run after (r ∷ rows) = elim (Bool-cases (r.entry.run_id == run)) [
    | inl e ↦ elim (Bool-cases (ltb after r.sequence)) [
      | inl f ↦ rw (e, f, keep-rows_of run after rows) refl
      | inr f ↦ rw (e, f, keep-rows_of run after rows) refl
    ]
    | inr e ↦ rw (e, keep-rows_of run after rows) refl
  ]

  -- Of records that are numbered, those after a cursor are what is left without the first ones.
  keep_all :
      (k after : ℕ) (rs : List (LedgerRecord J T))
      → IsNumbered k rs
      → after < k
      → keep (λ r. ltb after r.sequence) rs ≡ rs
  keep_all k after [] h l = refl
  keep_all k after (r ∷ rs) h l =
      ground (arith, h.0, l, keep_all (suc k) after rs h.1 (omega arith))

  keep-drop :
      (n k : ℕ) (rs : List (LedgerRecord J T))
      → IsNumbered (suc k) rs
      → keep (λ r. ltb (k + n) r.sequence) rs ≡ drop n rs
  keep-drop zero k rs h = keep_all (suc k) (k + 0) rs h (omega arith)
  keep-drop (suc n) k [] h = refl
  keep-drop (suc n) k (r ∷ rs) h =
      let e : suc k + n ≡ k + suc n = omega arith in
      ground (
        arith,
        h.0,
        subst (λ m. keep (λ x. ltb m x.sequence) rs ≡ drop n rs) e (keep-drop n (suc k) rs h.1),
      )

  drop-IsNumbered :
      (n k : ℕ) (rs : List (LedgerRecord J T)) → IsNumbered k rs → IsNumbered (k + n) (drop n rs)
  drop-IsNumbered zero k rs h = subst (λ m. IsNumbered m rs) (omega arith) h
  drop-IsNumbered (suc n) k [] h = tt
  drop-IsNumbered (suc n) k (r ∷ rs) h =
      let e : suc k + n ≡ k + suc n = omega arith in
      subst (λ m. IsNumbered m (drop n rs)) e (drop-IsNumbered n (suc k) rs h.1)

  sort_numbered :
      (k : ℕ) (rs : List (LedgerRecord J T))
      → IsNumbered k rs
      → sort (λ r s. leb r.sequence s.sequence) rs ≡ rs
  unfolding sort place
  sort_numbered k [] h = refl
  sort_numbered k (r ∷ []) h = refl
  sort_numbered k (r ∷ s ∷ rs) h =
      ap (place (λ x y. leb x.sequence y.sequence) r) (sort_numbered (suc k) (s ∷ rs) h.1)
      ∙ ground (arith, h.0, h.1.0)

  select_numbered :
      (run : String) (after : ℕ) (limit : Option ℕ) (rows : List (LedgerRecord J T))
      → IsNumbered 1 (rows_of run rows)
      → select_records run after limit rows ≡ limit_to limit (drop after (rows_of run rows))
  select_numbered run after limit rows h =
      let e : 0 + after ≡ after = omega arith in
      let kept =
        keep-rows_of run after rows
        ∙ subst
            (λ m. keep (λ r. ltb m r.sequence) (rows_of run rows) ≡ drop after (rows_of run rows)) e
            (keep-drop after 0 (rows_of run rows) h) in
      ap (limit_to limit) (
        ap (sort (λ r s. leb r.sequence s.sequence)) kept
        ∙ sort_numbered (1 + after) (drop after (rows_of run rows))
            (drop-IsNumbered after 1 (rows_of run rows) h))

  module _ (codec : Codec (LedgerRecord J T)) where
    -- pydantic reads the text of each record back
    abbrev pub AreReadBack : List (LedgerRecord J T) → Type 0
    AreReadBack rs = All (λ r. codec.parse (codec.dump r) ≡ some r) rs

    validate_all-some :
        (rs : List (LedgerRecord J T)) → AreReadBack rs → validate_all codec rs ≡ some rs
    unfolding validate_all
    validate_all-some [] h = refl
    validate_all-some (r ∷ rs) h = ground (arith, h.0, validate_all-some rs h.1)

    drop-AreReadBack :
        (n : ℕ) (rs : List (LedgerRecord J T)) → AreReadBack rs → AreReadBack (drop n rs)
    drop-AreReadBack zero rs h = h
    drop-AreReadBack (suc n) [] h = h
    drop-AreReadBack (suc n) (r ∷ rs) h = drop-AreReadBack n rs h.1

    take-AreReadBack :
        (n : ℕ) (rs : List (LedgerRecord J T)) → AreReadBack rs → AreReadBack (take n rs)
    take-AreReadBack zero rs h = tt
    take-AreReadBack (suc n) [] h = tt
    take-AreReadBack (suc n) (r ∷ rs) h = (h.0, take-AreReadBack n rs h.1)

    limit_to-AreReadBack :
        (limit : Option ℕ) (rs : List (LedgerRecord J T))
        → AreReadBack rs
        → AreReadBack (limit_to limit rs)
    limit_to-AreReadBack none rs h = h
    limit_to-AreReadBack (some n) rs h = take-AreReadBack n rs h

    -- In any ledger that calls on a new one make: if it is open and SQLite does not fail, `records` of a
    -- run that exists, with a limit that is positive, returns what the history of the run holds after as
    -- many records as the cursor says, up to the limit, in the order of the appends; pydantic is taken to
    -- read the texts of that history back.
    pub records_page :
        (ops : List (LedgerOp J T)) (run : String) (after : ℕ) (limit : Option ℕ)
        → AreReadBack (rows_of run (run_ops ops new_ledger).rows)
        → (run_ops ops new_ledger).is_open ≡ true
        → has_run (run_ops ops new_ledger).runs run ≡ true
        → is_zero limit ≡ false
        → records codec false run (pos after) limit (run_ops ops new_ledger)
          ≡ inr (limit_to limit (drop after (rows_of run (run_ops ops new_ledger).rows)))
    unfolding records
    records_page ops run after limit law o k z =
        let rows = (run_ops ops new_ledger).rows in
        let page = limit_to limit (drop after (rows_of run rows)) in
        let selected = select_numbered run after limit rows (records_numbered ops run) in
        let read = validate_all-some page (
          limit_to-AreReadBack limit (drop after (rows_of run rows))
            (drop-AreReadBack after (rows_of run rows) law)) in
        ground (arith, o, k, z, ap (validate_all codec) selected ∙ read)
