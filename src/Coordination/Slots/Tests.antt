-- ===== src/Coordination/Slots/Tests.antt =====
-- Runs of the slots at fixed inputs, and the theorems applied there.
use mininet_ai.Prelude.{ℕ, ◌≤◌, String, ◌≡◌, refl, true, false, some, List, [], ◌∷◌, count}
use mininet_ai.Prelude.Dict.{lookup, insert}
use mininet_ai.Coordination.Slots.{
  closed_error, key_error, waiting, CoordinatorState, new_coordinator, available, in_use,
  allocate_invocation, close_lease, reserve_invocation, take_invocation, enter_session, close, Op,
  reserve_op, take_op, lease_op, enter_op, leave_op, step, run,
}
use mininet_ai.Coordination.Slots.Bounds.{
  is_active, is_active_of, slots_bounded, IsBounded, run-IsBounded, new-IsBounded,
}
use mininet_ai.Coordination.Slots.Closing.{release_frees, closed_admits_nothing}

abbrev limits : List (String × ℕ)
limits = ("a", 1) ∷ ("b", 2) ∷ []

abbrev start : CoordinatorState
start = new_coordinator 2 limits

-- `a` has one slot, so its second request waits; `b` takes the second slot of all.
abbrev busy : CoordinatorState
busy = run (enter_op ∷ reserve_op "a" ∷ reserve_op "a" ∷ take_op "b" ∷ []) start

busy_counts : (busy.slots.active ≡ 2) × ((step (take_op "b") busy).0 ≡ waiting)
unfolding run step reserve_invocation take_invocation enter_session available allocate_invocation
    lookup insert
busy_counts = (refl, refl)

closed_twice : (run (lease_op 0 ∷ lease_op 0 ∷ []) busy).slots.active ≡ 1
unfolding run step reserve_invocation take_invocation enter_session available allocate_invocation
    lookup insert close_lease
closed_twice = refl

unknown_agent : (step (reserve_op "c") start).0 ≡ key_error
unfolding step reserve_invocation available lookup
unknown_agent = refl

abbrev ops : List Op
ops = reserve_op "a" ∷ take_op "b" ∷ lease_op 0 ∷ lease_op 0 ∷ reserve_op "b" ∷ []

slots_bounded_example :
    let c = run ops (new_coordinator 2 limits) in
    (count is_active c.leases ≤ 2)
    × ((a : String) (limit : ℕ)
        → lookup a limits ≡ some limit
        → count (is_active_of a) c.leases ≤ limit)
    × (c.slots.active ≡ count is_active c.leases)
    × ((a : String) → in_use a c.slots.active_agents ≡ count (is_active_of a) c.leases)
slots_bounded_example = slots_bounded 2 limits ops

abbrev one_lease : List Op
one_lease = take_op "b" ∷ []

abbrev leased_b : CoordinatorState
leased_b = record {
  slots = record {
    max_concurrent_invocations = 2;
    agent_limits = limits;
    active = 1;
    requests = 0;
    closing = false;
    active_agents = ("a", 0) ∷ ("b", 1) ∷ [];
  };
  leases = record { agent_id = "b"; released = false } ∷ [];
}

leased_b-eq : run one_lease start ≡ leased_b
unfolding run step take_invocation available allocate_invocation lookup insert
leased_b-eq = refl

leased_b-IsBounded : IsBounded leased_b
unfolding run step take_invocation available allocate_invocation lookup insert
leased_b-IsBounded = run-IsBounded one_lease start (new-IsBounded 2 limits)

b_limit : lookup "b" limits ≡ some 2
unfolding lookup
b_limit = refl

b_used : lookup "b" leased_b.slots.active_agents ≡ some 1
unfolding lookup
b_used = refl

release_frees_example : available (close_lease 0 leased_b).slots "b" ≡ some true
release_frees_example =
    release_frees 0 leased_b (record { agent_id = "b"; released = false }) 2 1 leased_b-IsBounded
      refl refl b_limit b_used

closed_admits_nothing_example :
    let c' = run (leave_op ∷ reserve_op "a" ∷ []) (close leased_b) in
    (enter_session c' ≡ (closed_error, c'))
    × (reserve_invocation "a" c' ≡ (closed_error, c'))
    × (c'.slots.requests ≤ leased_b.slots.requests)
closed_admits_nothing_example = closed_admits_nothing (leave_op ∷ reserve_op "a" ∷ []) leased_b "a"
