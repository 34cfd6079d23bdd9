-- ===== src/Capabilities/Verification/Rounds.antt =====
-- capabilities/verification.py: when the polling ends, and with what.
use mininet_ai.Prelude.{
  ℕ, zero, suc, ◌+◌, ◌≤◌, ◌<◌, ◌≡◌, ◌≢◌, refl, Bool, true, false, ◌||◌, Option, none, some, List,
  [], ◌∷◌, ◌++◌, leb, get_elem?, length, ◌⊎◌, inl, inr, arith, Bool-cases, ap, All,
}
use mininet_ai.Capabilities.Verification.{
  View, PostconditionDefinition, PostconditionResult, Observation, observe_error, observed, Attempt,
  read_path, compare, examine, verify_loop, verify_one,
}

module _ {J : Type 0} (view : J → View J) (same : J → J → Bool)
    (post : PostconditionDefinition J) where
  -- does an observation show the postcondition?
  abbrev pub holds : Observation J → Bool
  holds (observe_error code) = false
  holds (observed false root) = false
  holds (observed true root) = elim (read_path view same root post.path) [
    | none ↦ false
    | some value ↦ compare view same value post.operator post.expected
  ]

  examine-holds :
      (actual : Option J) (o : Observation J) → (examine view same post actual o).1 ≡ holds o
  unfolding examine
  examine-holds actual (observe_error code) = refl
  examine-holds actual (observed false root) = refl
  examine-holds actual (observed true root) = ground arith

  -- How the rounds of a loop that ended divide: those that were waited out, the last, and the rest.
  pub record IsPolled (deadline attempts : ℕ) (rounds : List (Attempt J))
      (r : PostconditionResult J) : Type 0 where
    pub earlier : List (Attempt J)
    pub last : Attempt J
    pub rest : List (Attempt J)
    pub divided : rounds ≡ earlier ++ last ∷ rest
    pub waited : All (λ x. (holds x.observation ≡ false) × x.now < deadline) earlier
    pub counted : r.attempts ≡ suc (attempts + length earlier)
    pub answered : r.satisfied ≡ holds last.observation
    pub ended : (holds last.observation ≡ true) ⊎ (deadline ≤ last.now)

  verify_loop-IsPolled :
      (deadline attempts : ℕ) (actual : Option J) (rounds : List (Attempt J))
      (r : PostconditionResult J)
      → verify_loop view same post deadline attempts actual rounds ≡ some r
      → IsPolled deadline attempts rounds r
  unfolding verify_loop
  verify_loop-IsPolled deadline attempts actual [] r h = absurd (ground (arith, h))
  verify_loop-IsPolled deadline attempts actual (x ∷ rounds) r h =
      let e = examine-holds actual x.observation in
      elim (Bool-cases ((examine view same post actual x.observation).1 || leb deadline x.now)) [
        | inl q ↦ record {
          earlier = [];
          last = x;
          rest = rounds;
          divided = refl;
          waited = tt;
          counted = ground (arith, h, q);
          answered = ground (arith, h, q, e);
          ended = ground (arith, q, e);
        }
        | inr q ↦
            (let p =
                verify_loop-IsPolled deadline (suc attempts)
                  (examine view same post actual x.observation).0 rounds r (ground (arith, h, q)) in
              record {
                earlier = x ∷ p.earlier;
                last = p.last;
                rest = p.rest;
                divided = ap (λ xs. x ∷ xs) p.divided;
                waited = ((ground (arith, q, e), ground (arith, q)), p.waited);
                counted = ground (arith, p.counted);
                answered = p.answered;
                ended = p.ended;
              })
      ]

  verify_loop_ends :
      (deadline attempts : ℕ) (actual : Option J) (rounds : List (Attempt J)) (k : ℕ)
      (x : Attempt J)
      → get_elem? rounds k ≡ some x
      → deadline ≤ x.now
      → verify_loop view same post deadline attempts actual rounds ≢ none
  unfolding verify_loop
  verify_loop_ends deadline attempts actual [] k x h l = absurd (ground (arith, h))
  verify_loop_ends deadline attempts actual (y ∷ rounds) zero x h l = ground (arith, h, l)
  verify_loop_ends deadline attempts actual (y ∷ rounds) (suc k) x h l = ground (
    arith,
    verify_loop_ends deadline (suc attempts) (examine view same post actual y.observation).0 rounds
        k x h l,
  )

  -- If the polling of a postcondition ends with a result: the result counts the observations up to the
  -- last one, is satisfied exactly if the last one shows the postcondition, no earlier one shows it, the
  -- clock was before the deadline after each earlier one, and the last one shows it or the clock was at
  -- or after the deadline.
  pub verify_first_success :
      (start : ℕ) (rounds : List (Attempt J)) (r : PostconditionResult J)
      → verify_one view same post start rounds ≡ some r
      → IsPolled (start + post.timeout) 0 rounds r
  unfolding verify_one
  verify_first_success start rounds r = verify_loop-IsPolled (start + post.timeout) 0 none rounds r

  -- The polling of a postcondition ends by the first observation after which the clock is at or after the
  -- deadline, whatever is observed.
  pub verify_ends :
      (start : ℕ) (rounds : List (Attempt J)) (k : ℕ) (x : Attempt J)
      → get_elem? rounds k ≡ some x
      → start + post.timeout ≤ x.now
      → verify_one view same post start rounds ≢ none
  unfolding verify_one
  verify_ends start rounds k x = verify_loop_ends (start + post.timeout) 0 none rounds k x
