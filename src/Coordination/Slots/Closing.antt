-- ===== src/Coordination/Slots/Closing.antt =====
-- coordination/routing.py: what `InvocationLease.close` frees, and what `close` refuses.
use mininet_ai.Prelude.{
  ℕ, zero, suc, ◌-◌, ◌≤◌, String, ◌≡◌, refl, Bool, true, false, Option, none, some, List, [], ◌∷◌,
  arith, eq_refl, count, get_elem?,
}
use mininet_ai.Prelude.Dict.{lookup, lookup-insert}
use mininet_ai.Coordination.Slots.{
  InvocationLease, CoordinatorState, closed_error, available, in_use, close_lease,
  reserve_invocation, take_invocation, enter_session, leave_session, close, Op, reserve_op, take_op,
  lease_op, enter_op, leave_op, close_op, step, run, allocate_invocation, when_available,
}
use mininet_ai.Coordination.Slots.Bounds.{IsBounded, is_active, is_active_of}

count-get_elem? :
    (test : InvocationLease → Bool) (n : ℕ) (leases : List InvocationLease) (l : InvocationLease)
    → get_elem? leases n ≡ some l
    → test l ≡ true
    → 1 ≤ count test leases
count-get_elem? test zero [] l h t = ground arith
count-get_elem? test (suc n) [] l h t = ground arith
count-get_elem? test zero (k ∷ ls) l h t = ground arith
count-get_elem? test (suc n) (k ∷ ls) l h t = ground (arith, count-get_elem? test n ls l h t)

-- In a state within the bounds, closing a lease that is not released makes its agent available, if
-- the plan has a limit for the agent and the agent is counted.
pub release_frees :
    (n : ℕ) (c : CoordinatorState) (l : InvocationLease) (limit used : ℕ)
    → IsBounded c
    → get_elem? c.leases n ≡ some l
    → l.released ≡ false
    → lookup l.agent_id c.slots.agent_limits ≡ some limit
    → lookup l.agent_id c.slots.active_agents ≡ some used
    → available (close_lease n c).slots l.agent_id ≡ some true
unfolding available close_lease
release_frees n c l limit used i e r m u =
    rw (e, close_lease, r)
      (ground (
        arith,
        m,
        u,
        i.active_counted,
        i.active_bounded,
        i.agents_counted l.agent_id,
        i.agents_bounded l.agent_id limit m,
        eq_refl l.agent_id,
        lookup-insert l.agent_id l.agent_id (in_use l.agent_id c.slots.active_agents - 1)
            c.slots.active_agents,
        count-get_elem? is_active n c.leases l e (ground arith),
        count-get_elem? (is_active_of l.agent_id) n c.leases l e
            (ground (arith, eq_refl l.agent_id)),
      ))

-- closed, with at most so many requests in progress
abbrev IsClosing : ℕ → CoordinatorState → Type 0
IsClosing n c = (c.slots.closing ≡ true) × (c.slots.requests ≤ n)

when_available-IsClosing :
    (n : ℕ) (a : String) (c : CoordinatorState) (o : Option Bool)
    → IsClosing n c
    → IsClosing n (when_available a c o).1
unfolding allocate_invocation
when_available-IsClosing n a c none h = h
when_available-IsClosing n a c (some false) h = h
when_available-IsClosing n a c (some true) h = h

step-IsClosing :
    (n : ℕ) (op : Op) (c : CoordinatorState) → IsClosing n c → IsClosing n (step op c).1
unfolding step reserve_invocation take_invocation close_lease enter_session leave_session close
step-IsClosing n (reserve_op a) c h = ground (arith, h.0, h.1)
step-IsClosing n (take_op a) c h = when_available-IsClosing n a c _ h
step-IsClosing n (lease_op k) c h = ground (arith, h.0, h.1)
step-IsClosing n enter_op c h = ground (arith, h.0, h.1)
step-IsClosing n leave_op c h = ground (arith, h.0, h.1)
step-IsClosing n close_op c h = (refl, h.1)

run-IsClosing :
    (n : ℕ) (ops : List Op) (c : CoordinatorState) → IsClosing n c → IsClosing n (run ops c)
unfolding run
run-IsClosing n [] c h = h
run-IsClosing n (op ∷ ops) c h = run-IsClosing n ops (step op c).1 (step-IsClosing n op c h)

-- After `close`, whatever the threads do: no request begins and no invocation is reserved, each call
-- answers `coordination.closed` and changes nothing, and the requests in progress do not grow.
pub closed_admits_nothing :
    (ops : List Op) (c : CoordinatorState) (a : String)
    → let c' = run ops (close c) in
      (enter_session c' ≡ (closed_error, c'))
      × (reserve_invocation a c' ≡ (closed_error, c'))
      × (c'.slots.requests ≤ c.slots.requests)
unfolding enter_session reserve_invocation
closed_admits_nothing ops c a =
    let h = run-IsClosing c.slots.requests ops (close c) (unfold close in (refl, ground arith)) in
    (ground (arith, h.0), ground (arith, h.0), h.1)
