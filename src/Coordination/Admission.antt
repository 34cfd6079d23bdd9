-- ===== src/Coordination/Admission.antt =====
-- mininet_ai/coordination/admission.py: `ActionAdmission`, which holds actions and commits back
-- until no other in progress conflicts with them.
-- A thread's call of `admit` or `decision` is three steps, each with the lock held: it enters, it
-- starts once `wait_for` finds it ready, and it leaves at the end of the `with` block. A waiting
-- object has a ticket, which stands for its identity (`is`). `same` is `==` of the frozen dataclass
-- `ArbitrationCandidate`, which `list.index` and `list.remove` use; a `_CommitReservation` is
-- compared by identity.
pub mod Steps
pub mod Safety
pub mod Progress
mod Tests
use mininet_ai.Prelude.{
  ℕ, zero, suc, String, Bool, true, false, not, ◌&&◌, ◌||◌, Option, none, some, List, [], ◌∷◌, ◌++◌,
  map, ◌==◌, ltb, nat_beq, find, any, keep, contains, if◌then◌else◌,
}
use mininet_ai.Prelude.Int.{ℤ, int_ltb}
use mininet_ai.Coordination.Arbitration.{
  ArbitrationCandidate, ArbitrationPolicy, reject, serialize, priority_order, AgentContext,
  conflicts,
}

pub record StateKey : Type 0 where
  pub scope : String
  pub run_id : String
  pub deployment : Option String
  pub name : String

abbrev pub same_text? : Option String → Option String → Bool
same_text? none none = true
same_text? (some a) (some b) = a == b
same_text? _ _ = false

abbrev pub same_key : StateKey → StateKey → Bool
same_key a b =
    a.scope == b.scope
    && a.run_id == b.run_id
    && same_text? a.deployment b.deployment
    && a.name == b.name

pub record CommitReservation : Type 0 where
  pub ticket : ℕ
  pub reads : List StateKey
  pub writes : List StateKey
  pub candidates : List ArbitrationCandidate
  pub priority : ℤ

-- a candidate in `_pending`
pub record Pending : Type 0 where
  pub ticket : ℕ
  pub candidate : ArbitrationCandidate

pub record ActionAdmission : Type 0 where
  pub policy : ArbitrationPolicy
  pub active : List ArbitrationCandidate
  pub pending : List Pending
  pub committing : List CommitReservation
  pub waiting : List CommitReservation

unfoldable pub new_admission : ArbitrationPolicy → ActionAdmission
new_admission policy = record {
  policy = policy;
  active = [];
  pending = [];
  committing = [];
  waiting = [];
}

-- (-p, i) < (-q, j), as Python compares tuples
abbrev pub earlier : ℤ → ℕ → ℤ → ℕ → Bool
earlier p i q j = int_ltb q p || (not (int_ltb p q) && ltb i j)

-- the test that keeps a waiter back: by priority and position, or by position
abbrev pub goes_first : ArbitrationPolicy → ℤ → ℕ → ℤ → ℕ → Bool
goes_first priority_order p i q j = earlier p i q j
goes_first _ p i q j = ltb i j

-- the first of the candidates that conflicts with `c`
abbrev pub winner_among :
    List ArbitrationCandidate → ArbitrationCandidate → Option ArbitrationCandidate
winner_among others c = find (λ other. conflicts other c) others

-- the winner that refuses `c`, under the policy `reject` only
abbrev pub refusal :
    ArbitrationPolicy
    → List ArbitrationCandidate
    → ArbitrationCandidate
    → Option ArbitrationCandidate
refusal reject others c = winner_among others c
refusal _ others c = none

module _ (same : ArbitrationCandidate → ArbitrationCandidate → Bool) where
  -- `self._pending.index(candidate)`
  abbrev pub index : List Pending → ArbitrationCandidate → ℕ
  index [] c = 0
  index (p ∷ ps) c = let later = suc (index ps c) in if same p.candidate c then 0 else later

  -- `self._pending.remove(candidate)`, `self._active.remove(candidate)`
  unfoldable pub remove_pending : ArbitrationCandidate → List Pending → List Pending
  remove_pending c [] = []
  remove_pending c (p ∷ ps) =
      let rest = p ∷ remove_pending c ps in if same p.candidate c then ps else rest

  unfoldable pub remove_active :
      ArbitrationCandidate → List ArbitrationCandidate → List ArbitrationCandidate
  remove_active c [] = []
  remove_active c (x ∷ xs) = let rest = x ∷ remove_active c xs in if same x c then xs else rest

  -- does `other` keep `w` back in the loop of `_ready`?
  abbrev pub keeps_back : ActionAdmission → Pending → Pending → Bool
  keeps_back s w other =
      not (nat_beq other.ticket w.ticket)
      && conflicts other.candidate w.candidate
      && goes_first s.policy other.candidate.context.priority (index s.pending other.candidate)
          w.candidate.context.priority (index s.pending w.candidate)

  -- `_ready`
  unfoldable pub ready : ActionAdmission → Pending → Bool
  ready s w =
      not (any (λ other. conflicts other w.candidate) s.active)
      && not (any (keeps_back s w) s.pending)

  -- `admit` up to `wait_for`: the winner that the `with` block is given, or a place in `_pending`
  unfoldable pub admit_enter :
      ℕ
      → ArbitrationCandidate
      → List ArbitrationCandidate
      → ActionAdmission
      → Option ArbitrationCandidate × ActionAdmission
  admit_enter ticket c history s = elim (refusal s.policy (history ++ s.active) c) [
    | some w ↦ (some w, s)
    | none ↦
        (none, record s { pending = s.pending ++ record { ticket = ticket; candidate = c } ∷ [] })
  ]

  -- `admit` from `wait_for` to `yield`, with the caller's `history`
  unfoldable pub admit_start :
      Pending
      → List ArbitrationCandidate
      → ActionAdmission
      → Option (List ArbitrationCandidate × ActionAdmission)
  admit_start w history s =
      if ready s w
      then some (
        history ++ w.candidate ∷ [],
        record s {
          pending = remove_pending w.candidate s.pending;
          active = s.active ++ w.candidate ∷ [];
        },
      )
      else none

  -- the `finally` of `admit`
  unfoldable pub admit_leave : ArbitrationCandidate → ActionAdmission → ActionAdmission
  admit_leave c s = record s { active = remove_active c s.active }

-- the candidates of all commits in progress or waiting
abbrev pub reserved : List CommitReservation → List ArbitrationCandidate
reserved [] = []
reserved (r ∷ rs) = r.candidates ++ reserved rs

-- the dictionary comprehension of `rejections`
abbrev pub losers :
    List ArbitrationCandidate → List ArbitrationCandidate → List (String × ArbitrationCandidate)
losers admitted [] = []
losers admitted (c ∷ cs) =
    let rest = losers admitted cs in
    elim (winner_among admitted c) [ none ↦ rest | some w ↦ (c.candidate_id, w) ∷ rest ]

unfoldable pub rejections :
    List ArbitrationCandidate
    → List ArbitrationCandidate
    → ActionAdmission
    → List (String × ArbitrationCandidate)
rejections candidates history s = elim s.policy [
  | reject ↦ losers (history ++ s.active ++ reserved (s.committing ++ s.waiting)) candidates
  | _ ↦ []
]

-- what `decision` reads of an `AgentResponse`: scope and key of its reads and of its updates
pub record AgentResponse : Type 0 where
  pub shared_state_reads : List (String × String)
  pub shared_state_updates : List (String × String)
  pub has_proposals : Bool

abbrev pub state_key : AgentContext → String × String → StateKey
state_key context k = record {
  scope = k.0;
  run_id = context.run_id;
  deployment = if k.0 == "deployment" then some context.deployment else none;
  name = k.1;
}

abbrev pub no_candidates : List ArbitrationCandidate → Bool
no_candidates [] = true
no_candidates (_ ∷ _) = false

-- the reservation that `decision` waits with
abbrev pub reservation :
    ℕ
    → AgentContext
    → AgentResponse
    → List ArbitrationCandidate
    → List (String × ArbitrationCandidate)
    → CommitReservation
reservation ticket context response candidates rejected =
    let kept = keep (λ c. not (contains (map (λ r. r.0) rejected) c.candidate_id)) candidates in
    let idle = response.has_proposals && no_candidates kept in
    record {
      ticket = ticket;
      reads = if idle then [] else map (state_key context) response.shared_state_reads;
      writes = if idle then [] else map (state_key context) response.shared_state_updates;
      candidates = kept;
      priority = context.priority;
    }

-- `decision` up to `wait_for`
unfoldable pub decision_enter :
    ℕ
    → AgentContext
    → AgentResponse
    → List ArbitrationCandidate
    → List ArbitrationCandidate
    → ActionAdmission
    → List (String × ArbitrationCandidate) × ActionAdmission
unfolding rejections
decision_enter ticket context response candidates history s =
    let rejected = rejections candidates history s in
    (
      rejected,
      record s {
        waiting = s.waiting ++ reservation ticket context response candidates rejected ∷ [];
      },
    )

-- `bool(left & right)`, of two sets of keys
abbrev pub meet : List StateKey → List StateKey → Bool
meet left right = any (λ k. any (same_key k) right) left

abbrev pub any_conflict : List ArbitrationCandidate → List ArbitrationCandidate → Bool
any_conflict left right = any (λ a. any (conflicts a) right) left

-- `_decision_conflicts`
unfoldable pub decision_conflicts : ArbitrationPolicy → CommitReservation → CommitReservation → Bool
decision_conflicts policy left right =
    (meet left.writes right.reads || meet left.writes right.writes || meet right.writes left.reads)
    || elim policy [ reject ↦ false | _ ↦ any_conflict left.candidates right.candidates ]

-- `self._waiting.index(reservation)`
abbrev pub index_of : List CommitReservation → CommitReservation → ℕ
index_of [] r = 0
index_of (x ∷ xs) r =
    let later = suc (index_of xs r) in if nat_beq x.ticket r.ticket then 0 else later

-- the loop of `_decision_ready` from the position `i` on: is the reservation kept back?
abbrev pub held_from : ArbitrationPolicy → CommitReservation → ℕ → ℕ → List CommitReservation → Bool
held_from policy r at i [] = false
held_from policy r at i (other ∷ others) =
    (not (nat_beq other.ticket r.ticket)
      && decision_conflicts policy r other
      && goes_first policy other.priority i r.priority at)
    || held_from policy r at (suc i) others

-- `_decision_ready`
unfoldable pub decision_ready : ActionAdmission → CommitReservation → Bool
decision_ready s r =
    not (any (decision_conflicts s.policy r) s.committing)
    && not (held_from s.policy r (index_of s.waiting r) 0 s.waiting)

-- `list.remove`, of an object that is compared by identity
unfoldable pub remove_reservation :
    CommitReservation → List CommitReservation → List CommitReservation
remove_reservation r [] = []
remove_reservation r (x ∷ xs) =
    let rest = x ∷ remove_reservation r xs in if nat_beq x.ticket r.ticket then xs else rest

-- `decision` from `wait_for` to `yield`
unfoldable pub decision_start : CommitReservation → ActionAdmission → Option ActionAdmission
decision_start r s =
    if decision_ready s r
    then some
        (record s { waiting = remove_reservation r s.waiting; committing = s.committing ++ r ∷ [] })
    else none

-- the `finally` of `decision`
unfoldable pub decision_leave : CommitReservation → ActionAdmission → ActionAdmission
decision_leave r s = record s { committing = remove_reservation r s.committing }
