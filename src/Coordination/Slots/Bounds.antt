-- ===== src/Coordination/Slots/Bounds.antt =====
-- coordination/routing.py: the bounds of the slots, in every interleaving of the threads.
use mininet_ai.Prelude.{
  ℕ, zero, suc, ◌+◌, ◌-◌, ◌≤◌, String, ◌≡◌, refl, ap, ◌∙◌, Bool, true, false, not, ◌&&◌, Option,
  none, some, List, [], ◌∷◌, map, arith, ◌==◌, eq_iff, count, count-append, get_elem?,
  if◌then◌else◌, Bool-cases, Option-cases, inl, inr, ltb,
}
use mininet_ai.Prelude.Dict.{lookup, insert, lookup-insert}
use mininet_ai.Coordination.Slots.{
  Slots, InvocationLease, CoordinatorState, Answer, new_coordinator, available, in_use,
  allocate_invocation, mark, close_lease, when_available, reserve_invocation, take_invocation,
  enter_session, leave_session, close, Op, reserve_op, take_op, lease_op, enter_op, leave_op,
  close_op, step, run,
}

-- a lease that is not released, and one of an agent
abbrev pub is_active : InvocationLease → Bool
is_active l = not l.released

abbrev pub is_active_of : String → InvocationLease → Bool
is_active_of agent_id l = l.agent_id == agent_id && not l.released

-- The slots tell the leases that are active, and those are within the limits.
pub record IsBounded (c : CoordinatorState) : Type 0 where
  pub active_counted : c.slots.active ≡ count is_active c.leases
  pub agents_counted :
      (a : String) → in_use a c.slots.active_agents ≡ count (is_active_of a) c.leases
  pub active_bounded : c.slots.active ≤ c.slots.max_concurrent_invocations
  pub agents_bounded :
      (a : String) (limit : ℕ)
      → lookup a c.slots.agent_limits ≡ some limit
      → in_use a c.slots.active_agents ≤ limit

pub in_use-insert :
    (a b : String) (n : ℕ) (agents : List (String × ℕ))
    → in_use b (insert a n agents) ≡ (if a == b then n else in_use b agents)
in_use-insert a b n agents = ground (arith, lookup-insert a b n agents)

count-mark :
    (test : InvocationLease → Bool) (n : ℕ) (leases : List InvocationLease) (l : InvocationLease)
    → ((k : InvocationLease) → k.released ≡ true → test k ≡ false)
    → get_elem? leases n ≡ some l
    → count test (mark n leases) + (if test l then 1 else 0) ≡ count test leases
count-mark test zero [] l released h = ground arith
count-mark test (suc n) [] l released h = ground arith
count-mark test zero (k ∷ ls) l released h =
    ground (arith, released (record k { released = true }) refl)
count-mark test (suc n) (k ∷ ls) l released h = ground (arith, count-mark test n ls l released h)

available-true :
    (s : Slots) (a : String)
    → available s a ≡ some true
    → (ltb s.active s.max_concurrent_invocations ≡ true)
      × ((limit : ℕ) × (lookup a s.agent_limits ≡ some limit)
          × (ltb (in_use a s.active_agents) limit ≡ true))
unfolding available
available-true s a h = elim (Bool-cases (ltb s.active s.max_concurrent_invocations)) [
  | inr e ↦ absurd (ground (arith, e))
  | inl e ↦ elim (Option-cases (lookup a s.active_agents)) [
    | inl f ↦ absurd (ground (arith, e, f))
    | inr (n, f) ↦ elim (Option-cases (lookup a s.agent_limits)) [
      | inl g ↦ absurd (ground (arith, e, f, g))
      | inr (limit, g) ↦ (e, (limit, g, ground (arith, e, f, g)))
    ]
  ]
]

allocate-IsBounded :
    (a : String) (c : CoordinatorState)
    → available c.slots a ≡ some true
    → IsBounded c
    → IsBounded (allocate_invocation a c)
unfolding allocate_invocation
allocate-IsBounded a c h i =
    let (free, (limit, l, room)) = available-true c.slots a h in
    record {
      active_counted = ground (
        arith,
        i.active_counted,
        count-append is_active c.leases (record { agent_id = a; released = false } ∷ []),
      );
      agents_counted = λ b. ground (
        arith,
        i.agents_counted a,
        i.agents_counted b,
        eq_iff a b,
        in_use-insert a b (in_use a c.slots.active_agents + 1) c.slots.active_agents,
        count-append (is_active_of b) c.leases (record { agent_id = a; released = false } ∷ []),
      );
      active_bounded = ground (arith, free);
      agents_bounded = λ b m k. ground (
        arith,
        l,
        room,
        k,
        eq_iff a b,
        i.agents_bounded b m k,
        in_use-insert a b (in_use a c.slots.active_agents + 1) c.slots.active_agents,
      );
    }

close_lease-IsBounded : (n : ℕ) (c : CoordinatorState) → IsBounded c → IsBounded (close_lease n c)
unfolding close_lease
close_lease-IsBounded n c i = elim (Option-cases (get_elem? c.leases n)) [
  | inl e ↦ rw (e, close_lease) i
  | inr (l, e) ↦ elim (Bool-cases l.released) [
    | inl r ↦ rw (e, close_lease, r) i
    | inr r ↦
        rw (e, close_lease, r)
          (record {
            active_counted = ground (
              arith,
              r,
              i.active_counted,
              count-mark is_active n c.leases l (λ k h. ground arith) e,
            );
            agents_counted = λ b. ground (
              arith,
              r,
              i.agents_counted l.agent_id,
              i.agents_counted b,
              eq_iff l.agent_id b,
              in_use-insert l.agent_id b (in_use l.agent_id c.slots.active_agents - 1)
                  c.slots.active_agents,
              count-mark (is_active_of b) n c.leases l (λ k h. ground arith) e,
            );
            active_bounded = ground (arith, i.active_bounded);
            agents_bounded = λ b m k. ground (
              arith,
              i.agents_bounded b m k,
              eq_iff l.agent_id b,
              in_use-insert l.agent_id b (in_use l.agent_id c.slots.active_agents - 1)
                  c.slots.active_agents,
            );
          })
  ]
]

when_available-IsBounded :
    (a : String) (c : CoordinatorState) (o : Option Bool)
    → available c.slots a ≡ o
    → IsBounded c
    → IsBounded (when_available a c o).1
when_available-IsBounded a c none h i = i
when_available-IsBounded a c (some false) h i = i
when_available-IsBounded a c (some true) h i = allocate-IsBounded a c h i

requests-IsBounded :
    (requests : ℕ) (closing : Bool) (c : CoordinatorState)
    → IsBounded c
    → IsBounded (record c { slots = record c.slots { requests = requests; closing = closing } })
requests-IsBounded requests closing c i = record {
  active_counted = i.active_counted;
  agents_counted = i.agents_counted;
  active_bounded = i.active_bounded;
  agents_bounded = i.agents_bounded;
}

if-IsBounded :
    (b : Bool) (x y : Answer × CoordinatorState)
    → IsBounded x.1
    → IsBounded y.1
    → IsBounded (if b then x else y).1
if-IsBounded true x y i j = i
if-IsBounded false x y i j = j

step-IsBounded : (op : Op) (c : CoordinatorState) → IsBounded c → IsBounded (step op c).1
unfolding step reserve_invocation take_invocation enter_session leave_session close
step-IsBounded (reserve_op a) c i =
    if-IsBounded c.slots.closing _ _ i (when_available-IsBounded a c _ refl i)
step-IsBounded (take_op a) c i = when_available-IsBounded a c _ refl i
step-IsBounded (lease_op n) c i = close_lease-IsBounded n c i
step-IsBounded enter_op c i =
    if-IsBounded c.slots.closing _ _ i
      (requests-IsBounded (c.slots.requests + 1) c.slots.closing c i)
step-IsBounded leave_op c i = requests-IsBounded (c.slots.requests - 1) c.slots.closing c i
step-IsBounded close_op c i = requests-IsBounded c.slots.requests true c i

in_use-new : (a : String) (agents : List (String × ℕ)) → in_use a (map (λ p. (p.0, 0)) agents) ≡ 0
unfolding lookup
in_use-new a [] = refl
in_use-new a (p ∷ agents) = ground (arith, in_use-new a agents)

pub new-IsBounded :
    (max_concurrent : ℕ) (agents : List (String × ℕ))
    → IsBounded (new_coordinator max_concurrent agents)
new-IsBounded max_concurrent agents = record {
  active_counted = refl;
  agents_counted = λ a. in_use-new a agents;
  active_bounded = ground arith;
  agents_bounded = λ a limit h. ground (arith, in_use-new a agents);
}

pub run-IsBounded : (ops : List Op) (c : CoordinatorState) → IsBounded c → IsBounded (run ops c)
unfolding run
run-IsBounded [] c i = i
run-IsBounded (op ∷ ops) c i = run-IsBounded ops (step op c).1 (step-IsBounded op c i)

-- No step changes the limits.
abbrev HasLimits : ℕ → List (String × ℕ) → CoordinatorState → Type 0
HasLimits max_concurrent agents c =
    (c.slots.max_concurrent_invocations ≡ max_concurrent) × (c.slots.agent_limits ≡ agents)

module _ (max_concurrent : ℕ) (agents : List (String × ℕ)) where
  if-HasLimits :
      (b : Bool) (x y : Answer × CoordinatorState)
      → HasLimits max_concurrent agents x.1
      → HasLimits max_concurrent agents y.1
      → HasLimits max_concurrent agents (if b then x else y).1
  if-HasLimits true x y h k = h
  if-HasLimits false x y h k = k

  when_available-HasLimits :
      (a : String) (c : CoordinatorState) (o : Option Bool)
      → HasLimits max_concurrent agents c
      → HasLimits max_concurrent agents (when_available a c o).1
  unfolding allocate_invocation
  when_available-HasLimits a c none h = h
  when_available-HasLimits a c (some false) h = h
  when_available-HasLimits a c (some true) h = h

  step-HasLimits :
      (op : Op) (c : CoordinatorState)
      → HasLimits max_concurrent agents c
      → HasLimits max_concurrent agents (step op c).1
  unfolding step reserve_invocation take_invocation close_lease enter_session leave_session close
  step-HasLimits (reserve_op a) c h =
      if-HasLimits c.slots.closing _ _ h (when_available-HasLimits a c _ h)
  step-HasLimits (take_op a) c h = when_available-HasLimits a c _ h
  step-HasLimits (lease_op n) c h = ground (arith, h.0, h.1)
  step-HasLimits enter_op c h = if-HasLimits c.slots.closing _ _ h h
  step-HasLimits leave_op c h = h
  step-HasLimits close_op c h = h

  run-HasLimits :
      (ops : List Op) (c : CoordinatorState)
      → HasLimits max_concurrent agents c
      → HasLimits max_concurrent agents (run ops c)
  unfolding run
  run-HasLimits [] c h = h
  run-HasLimits (op ∷ ops) c h = run-HasLimits ops (step op c).1 (step-HasLimits op c h)

  -- Whatever the threads do after the start, and however often they close a lease: the leases that
  -- are not released are at most as many as the concurrent invocations that the plan allows, those of
  -- an agent with a limit are within it, and `_active` and `_active_agents` count them.
  pub slots_bounded :
      (ops : List Op)
      → let c = run ops (new_coordinator max_concurrent agents) in
        (count is_active c.leases ≤ max_concurrent)
        × ((a : String) (limit : ℕ)
            → lookup a agents ≡ some limit
            → count (is_active_of a) c.leases ≤ limit)
        × (c.slots.active ≡ count is_active c.leases)
        × ((a : String) → in_use a c.slots.active_agents ≡ count (is_active_of a) c.leases)
  slots_bounded ops =
      let start = new_coordinator max_concurrent agents in
      let i = run-IsBounded ops start (new-IsBounded max_concurrent agents) in
      let h = run-HasLimits ops start (refl, refl) in
      (
        ground (arith, i.active_counted, i.active_bounded, h.0),
        λ a limit l.
            ground (arith, i.agents_counted a, i.agents_bounded a limit (ap (lookup a) h.1 ∙ l)),
        i.active_counted,
        i.agents_counted,
      )
