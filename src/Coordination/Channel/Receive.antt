-- ===== src/Coordination/Channel/Receive.antt =====
-- coordination/channel.py: the order of delivery, the outcomes of `send`, and the waits of
-- `receive`.
use mininet_ai.Prelude.{
  ℕ, ◌+◌, ◌<◌, String, ◌≡◌, ◌≢◌, ◌↔◌, ap, Bool, true, false, Option, none, some, List, [], ◌∷◌,
  ◌++◌, arith, leb, length, find, contains, any, All, inl, inr, Bool-cases,
}
use mininet_ai.Coordination.Channel.{
  Channel, Sink, Round, got, blocked, delivered, waiting, eligible, remove, write, send, poll, run,
  receive, receive_loop, deadline,
}

-- what `deque.remove` leaves: the first item that passes the test is gone, the rest keep their order
find-remove :
    {M : Type 0} (same : Discrete M) (test : M → Bool) (m : M) (q : List M)
    → find test q ≡ some m
    → (pre : List M) × (post : List M) × (q ≡ pre ++ m ∷ post)
      × (remove same m q ≡ pre ++ post)
      × All (λ x. test x ≡ false) pre
      × (test m ≡ true)
unfolding remove
find-remove same test m [] h = ground arith
find-remove same test m (x ∷ q) h = elim (Bool-cases (test x)) [
  | inl hit ↦ ([], q, ground arith, ground arith, tt, ground arith)
  | inr miss ↦
      let (pre, post, e, r, clean, found) = find-remove same test m q (ground arith) in
      (x ∷ pre, post, ap (◌∷◌ x) e, ground arith, (miss, clean), found)
]

module _ {M W : Type 0} (message_id : M → String) (same : Discrete M) (sink : Sink M W) where
  -- `send` accepts exactly when the channel is open, the identifier is new, there is room and the
  -- sink returned. Then the message stands last in the queue. When it raises, the queue and the
  -- accepted identifiers are what they were.
  pub send_outcomes :
      (m : M) (c : Channel M W)
      → (((send message_id same sink m c).0 ≡ none) ↔ (
          (c.closed ≡ false)
          × (contains c.accepted_ids (message_id m) ≡ false)
          × (length c.messages < c.capacity)
          × ((write message_id same sink m c.sink_state).0 ≡ true)))
        × ((send message_id same sink m c).0 ≡ none
            → (send message_id same sink m c).1.messages ≡ c.messages ++ m ∷ [])
        × ((send message_id same sink m c).0 ≢ none
            → ((send message_id same sink m c).1.messages ≡ c.messages)
              × ((send message_id same sink m c).1.accepted_ids ≡ c.accepted_ids))
  unfolding send
  send_outcomes m c = ((λ h. ground arith, λ h. ground arith), λ h. ground arith, λ h. ground arith)

  -- A pass of `receive` that finds a message finds the first eligible one: those before it in the
  -- queue are not eligible, and the others keep their order.
  pub poll_first_eligible :
      (ids : Option (List String)) (m : M) (c c' : Channel M W)
      → poll message_id same sink ids c ≡ (got m, c')
      → (pre : List M) × (post : List M) × (c.messages ≡ pre ++ m ∷ post)
        × (c'.messages ≡ pre ++ post)
        × All (λ x. eligible message_id ids x ≡ false) pre
        × (eligible message_id ids m ≡ true)
  unfolding poll
  poll_first_eligible ids m c c' h =
      let (pre, post, e, r, clean, found) =
        find-remove same (eligible message_id ids) m c.messages (ground arith) in
      (pre, post, e, ground arith, clean, found)

  poll_blocked_unchanged :
      (ids : Option (List String)) (c : Channel M W)
      → (poll message_id same sink ids c).0 ≡ blocked
      → (poll message_id same sink ids c).1 ≡ c
  unfolding poll
  poll_blocked_unchanged ids c h = ground arith

  -- is the deadline past in one of the rounds?
  abbrev pub passes : ℕ → List (Round M) → Bool
  passes d = any (λ r. leb d r.now)

  receive_loop_returns :
      (d : ℕ) (ids : Option (List String)) (rounds : List (Round M)) (c : Channel M W)
      → passes d rounds ≡ true
      → (receive_loop message_id same sink (some d) ids rounds c).0 ≢ waiting
  unfolding receive_loop
  receive_loop_returns d ids [] c h = ground arith
  receive_loop_returns d ids (r ∷ rounds) c h = ground (
    arith,
    receive_loop_returns d ids rounds
        (run message_id same sink r.others (poll message_id same sink ids c).1).1,
  )

  -- A `receive` with a timeout returns once it wakes at or after its deadline, whatever the other
  -- threads did meanwhile.
  pub receive_returns_by_deadline :
      (start timeout : ℕ) (ids : Option (List String)) (rounds : List (Round M)) (c : Channel M W)
      → passes (start + timeout) rounds ≡ true
      → (receive message_id same sink start (some timeout) ids rounds c).0 ≢ waiting
  unfolding receive
  receive_returns_by_deadline start timeout ids rounds c h =
      receive_loop_returns (start + timeout) ids rounds c h

  poll-eligible :
      (ids : Option (List String)) (c : Channel M W) (m : M)
      → (poll message_id same sink ids c).0 ≡ got m
      → eligible message_id ids m ≡ true
  poll-eligible ids c m h =
      (poll_first_eligible ids m c (poll message_id same sink ids c).1 (ground arith)).5

  receive_loop-eligible :
      (d : Option ℕ) (ids : Option (List String)) (rounds : List (Round M)) (c : Channel M W)
      → (m : M) → (receive_loop message_id same sink d ids rounds c).0 ≡ delivered m
      → eligible message_id ids m ≡ true
  unfolding receive_loop
  receive_loop-eligible d ids [] c m h = ground (arith, poll-eligible ids c m)
  receive_loop-eligible d ids (r ∷ rounds) c m h = ground (
    arith,
    poll-eligible ids c m,
    receive_loop-eligible d ids rounds
        (run message_id same sink r.others (poll message_id same sink ids c).1).1 m,
  )

  -- A `receive` restricted to identifiers hands out only a message that carries one of them.
  pub receive_only_eligible :
      (start : ℕ) (timeout : Option ℕ) (ids : List String) (rounds : List (Round M))
      → (c : Channel M W) (m : M)
      → (receive message_id same sink start timeout (some ids) rounds c).0 ≡ delivered m
      → contains ids (message_id m) ≡ true
  unfolding receive
  receive_only_eligible start timeout ids rounds c m h =
      receive_loop-eligible (deadline start timeout) (some ids) rounds c m h
