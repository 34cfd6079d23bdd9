-- ===== src/Capabilities/Verification.antt =====
-- mininet_ai/capabilities/verification.py: `PostconditionVerifier`, which observes until a postcondition
-- holds or its time is over.
-- `J` is `JsonValue`. `view` tells what `isinstance` finds of a value, and `same` is Python's `==`; a
-- number that is not an integer is not modelled. The observer and the clock are callbacks: a round of
-- the loop has what they return. A path is split at its dots, and a part that is decimal digits has its
-- number; one that `isdigit` accepts and `int` does not, as a superscript, raises and is left out.
pub mod Rounds
mod Tests
use mininet_ai.Prelude.{
  ℕ, zero, suc, ◌+◌, ◌-◌, String, Bool, true, false, not, ◌&&◌, ◌||◌, Option, none, some, List, [],
  ◌∷◌, map, ◌==◌, leb, all, get_elem?, if◌then◌else◌,
}
use mininet_ai.Prelude.Int.{ℤ, int_ltb}
use mininet_ai.Prelude.Dict.{lookup}

pub data View (J : Type 0) : Type 0 where
  mapping : List (String × J) → View J
  sequence : List J → View J
  boolean other : View J
  number : ℤ → View J

pub record PathPart : Type 0 where
  pub key : String
  pub index : Option ℕ

pub data Operator : Type 0 where
  op_eq op_ne op_gt op_gte op_lt op_lte : Operator

pub record PostconditionDefinition (J : Type 0) : Type 0 where
  pub path : List PathPart
  pub operator : Operator
  pub expected : J
  pub timeout : ℕ
  pub interval : ℕ

-- What `observe` does: it raises, with the error's `code` if that is a text, or returns a result, with whether its run and query are those that
-- were asked for, and the value of the target.
pub data Observation (J : Type 0) : Type 0 where
  observe_error : Option String → Observation J
  observed : Bool → Option J → Observation J

pub data IssueCode : Type 0 where
  path_missing observation_failed : IssueCode
  error_code : String → IssueCode

-- the code of the issue that the `except` makes
abbrev pub issue_of : Option String → IssueCode
issue_of none = observation_failed
issue_of (some code) = if code == "" then observation_failed else error_code code

pub record PostconditionResult (J : Type 0) : Type 0 where
  pub actual : Option J
  pub satisfied : Bool
  pub attempts : ℕ
  pub issue : Option IssueCode

-- a round of the loop: the observation, and the clock after it
pub record Attempt (J : Type 0) : Type 0 where
  pub observation : Observation J
  pub now : ℕ

module _ {J : Type 0} (view : J → View J) (same : J → J → Bool) where
  -- one part of a path
  unfoldable pub read_part : View J → PathPart → Option J
  unfolding lookup
  read_part (mapping d) part = lookup part.key d
  read_part (sequence xs) part = elim part.index [ none ↦ none | some i ↦ get_elem? xs i ]
  read_part _ part = none

  -- `_read_path`; `none` is `_MISSING`
  unfoldable pub read_path : Option J → List PathPart → Option J
  unfolding read_part
  read_path value [] = value
  read_path none (part ∷ path) = none
  read_path (some value) (part ∷ path) = read_path (read_part (view value) part) path

  abbrev pub compare_numbers : Operator → ℤ → ℤ → Bool
  compare_numbers op_gt a b = int_ltb b a
  compare_numbers op_gte a b = not (int_ltb a b)
  compare_numbers op_lt a b = int_ltb a b
  compare_numbers _ a b = not (int_ltb b a)

  abbrev pub compare_views : Operator → View J → View J → Bool
  compare_views op (number a) (number b) = compare_numbers op a b
  compare_views op _ _ = false

  -- `_compare`
  unfoldable pub compare : J → Operator → J → Bool
  compare actual op_eq expected = same actual expected
  compare actual op_ne expected = not (same actual expected)
  compare actual op expected = compare_views op (view actual) (view expected)

  -- the body of `try`, and the `except`: `actual`, `satisfied` and `issue` after it
  unfoldable pub examine :
      PostconditionDefinition J → Option J → Observation J → Option J × Bool × Option IssueCode
  unfolding read_path compare
  examine post actual (observe_error code) = (actual, false, some (issue_of code))
  examine post actual (observed false root) = (actual, false, some observation_failed)
  examine post actual (observed true root) = elim (read_path root post.path) [
    | none ↦ (none, false, some path_missing)
    | some value ↦ (some value, compare value post.operator post.expected, none)
  ]

  -- The loop of `_verify_one`, after `attempts` rounds, with the `actual` of before; `none` is a loop
  -- that has rounds to go.
  unfoldable pub verify_loop :
      PostconditionDefinition J
      → ℕ
      → ℕ
      → Option J
      → List (Attempt J)
      → Option (PostconditionResult J)
  unfolding examine
  verify_loop post deadline attempts actual [] = none
  verify_loop post deadline attempts actual (r ∷ rounds) =
      let (actual', satisfied, issue) = examine post actual r.observation in
      let later = verify_loop post deadline (suc attempts) actual' rounds in
      if satisfied || leb deadline r.now
      then some
          record { actual = actual'; satisfied = satisfied; attempts = suc attempts; issue = issue }
      else later

  -- `_verify_one`, begun at the time `start`
  unfoldable pub verify_one :
      PostconditionDefinition J → ℕ → List (Attempt J) → Option (PostconditionResult J)
  unfolding verify_loop
  verify_one post start rounds = verify_loop post (start + post.timeout) 0 none rounds

  -- what `self._sleep` is given
  abbrev pub pause_for : PostconditionDefinition J → ℕ → ℕ → ℕ
  pause_for post deadline now =
      let left = deadline - now in if leb post.interval left then post.interval else left

-- `VerificationReport.satisfied`
abbrev pub all_satisfied : {J : Type 0} → List (PostconditionResult J) → Bool
all_satisfied = all (λ check. check.satisfied)
