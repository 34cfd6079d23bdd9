-- ===== src/Coordination/Routing/Queue.antt =====
-- coordination/channel.py and coordination/routing.py: the channel, shared by the requests, as one
-- request finds it.
use mathlib.Core.Logic.{ite}
use mininet_ai.Prelude.{
  String, ◌≡◌, refl, sym, subst, Bool, true, false, Option, none, some, List, [], ◌∷◌, ◌++◌, arith,
  ◌⊎◌, inl, inr, ◌==◌, eq_iff, eq_refl, any, find, find-some, contains, All, All-map, All-both,
  All-append, leb, length, Bool-cases, Option-cases, any-append,
}
use mininet_ai.Coordination.Channel.{
  Channel, SendError, closed_error, duplicate, full, sink_raised, Sink, send, got, poll, eligible,
  remove, Op, send_op, poll_op, close_op, step, close, write,
}

module _ {M W : Type 0} (message_id : M → String) (same : Discrete M) (sink : Sink M W) where
  -- A message was accepted at the end of the queue, as a new one, or the queue is as before.
  pub send-cases :
      (m : M) (c : Channel M W)
      → let r = send message_id same sink m c in
        ((r.0 ≡ none)
          × (contains c.accepted_ids (message_id m) ≡ false)
          × (r.1.messages ≡ c.messages ++ m ∷ [])
          × (r.1.accepted_ids ≡ message_id m ∷ c.accepted_ids))
        ⊎ (((e : SendError) × (r.0 ≡ some e))
            × (r.1.messages ≡ c.messages)
            × (r.1.accepted_ids ≡ c.accepted_ids))
  unfolding send
  send-cases m c = elim (Bool-cases c.closed) [
    | inl e ↦
        inr ((closed_error (message_id m), ground (arith, e)), ground (arith, e), ground (arith, e))
    | inr e ↦ elim (Bool-cases (contains c.accepted_ids (message_id m))) [
      | inl f ↦ inr (
        (duplicate (message_id m), ground (arith, e, f)),
        ground (arith, e, f),
        ground (arith, e, f),
      )
      | inr f ↦ elim (Bool-cases (leb c.capacity (length c.messages))) [
        | inl g ↦ inr (
          (full (message_id m), ground (arith, e, f, g)),
          ground (arith, e, f, g),
          ground (arith, e, f, g),
        )
        | inr g ↦ elim (Bool-cases (write message_id same sink m c.sink_state).0) [
          | inl h ↦ inl (
            ground (arith, e, f, g, h),
            f,
            ground (arith, e, f, g, h),
            ground (arith, e, f, g, h),
          )
          | inr h ↦ inr (
            (sink_raised, ground (arith, e, f, g, h)),
            ground (arith, e, f, g, h),
            ground (arith, e, f, g, h),
          )
        ]
      ]
    ]
  ]

  abbrev pub any_id : String → List M → Bool
  any_id j = any (λ m. message_id m == j)

  -- The queue's messages and the request's own were accepted, and a message of the queue with an
  -- identifier of the request's is one with the property that the request's messages have.
  pub record Fits (P : M → Type 0) (own : List M) (c : Channel M W) : Type 0 where
    pub queue_accepted : All (λ m. contains c.accepted_ids (message_id m) ≡ true) c.messages
    pub own_accepted : All (λ m. contains c.accepted_ids (message_id m) ≡ true) own
    pub queue_own : All (λ m. any_id (message_id m) own ≡ true → P m) c.messages

  any_id-accepted :
      (j : String) (own : List M) (accepted : List String)
      → All (λ m. contains accepted (message_id m) ≡ true) own
      → any_id j own ≡ true
      → contains accepted j ≡ true
  any_id-accepted j [] accepted h k = absurd (ground (arith, k))
  any_id-accepted j (m ∷ own) accepted h k =
      ground (arith, k, h.0, eq_iff (message_id m) j, any_id-accepted j own accepted h.1)

  -- the channel after a message that was accepted, of the request or of another
  module _ (P : M → Type 0) (m : M) (own : List M) (c d : Channel M W) (f : Fits P own c)
      (fresh : contains c.accepted_ids (message_id m) ≡ false)
      (messages : d.messages ≡ c.messages ++ m ∷ [])
      (accepted : d.accepted_ids ≡ message_id m ∷ c.accepted_ids) where
    still_accepted :
        (ms : List M)
        → All (λ x. contains c.accepted_ids (message_id x) ≡ true) ms
        → All (λ x. contains d.accepted_ids (message_id x) ≡ true) ms
    still_accepted ms = All-map _ _ ms (λ x h. ground (arith, h, accepted))

    queue_accepted-append : All (λ x. contains d.accepted_ids (message_id x) ≡ true) d.messages
    queue_accepted-append =
        subst (All (λ x. contains d.accepted_ids (message_id x) ≡ true)) (sym messages) (
          All-append _ c.messages (m ∷ []) (still_accepted c.messages f.queue_accepted)
            (ground (arith, accepted, eq_refl (message_id m)), tt))

    pub accept-Fits : P m → Fits P (own ++ m ∷ []) d
    accept-Fits p = record {
      queue_accepted = queue_accepted-append;
      own_accepted =
          All-append _ own (m ∷ []) (still_accepted own f.own_accepted)
            (ground (arith, accepted, eq_refl (message_id m)), tt);
      queue_own =
          subst (All (λ x. any_id (message_id x) (own ++ m ∷ []) ≡ true → P x)) (sym messages) (
            All-append _ c.messages (m ∷ [])
              (All-both _ _ _ c.messages
                (λ x a k h. k (
                  ground (
                    arith,
                    a,
                    h,
                    fresh,
                    eq_iff (message_id m) (message_id x),
                    any-append (λ y. message_id y == message_id x) own (m ∷ []),
                  )))
                f.queue_accepted f.queue_own)
              (λ h. p, tt));
    }

    other-Fits : Fits P own d
    other-Fits = record {
      queue_accepted = queue_accepted-append;
      own_accepted = still_accepted own f.own_accepted;
      queue_own = subst (All (λ x. any_id (message_id x) own ≡ true → P x)) (sym messages) (
          All-append _ c.messages (m ∷ []) f.queue_own (
            λ h. absurd (
                ground (
                  arith,
                  fresh,
                  any_id-accepted (message_id m) own c.accepted_ids f.own_accepted h,
                )),
            tt,
          ));
    }

  -- the channel with the same accepted identifiers, and no message more
  pub same-Fits :
      (P : M → Type 0) (own : List M) (c d : Channel M W)
      → d.messages ≡ c.messages
      → d.accepted_ids ≡ c.accepted_ids
      → Fits P own c
      → Fits P own d
  same-Fits P own c d e a f = record {
    queue_accepted = rw (e, a) f.queue_accepted;
    own_accepted = rw a f.own_accepted;
    queue_own = rw e f.queue_own;
  }

  All-ite :
      {X : Type 0} (Q : M → Type 0) (d : Dec X) (xs ys : List M)
      → All Q xs
      → All Q ys
      → All Q (ite d xs ys)
  All-ite Q (yes e) xs ys h k = h
  All-ite Q (no e) xs ys h k = k

  All-remove : (Q : M → Type 0) (m : M) (ms : List M) → All Q ms → All Q (remove same m ms)
  unfolding remove
  All-remove Q m [] h = tt
  All-remove Q m (x ∷ ms) h =
      All-ite Q (same x m) ms (x ∷ remove same m ms) h.1 (h.0, All-remove Q m ms h.1)

  All-find :
      (Q : M → Type 0) (test : M → Bool) (m : M) (ms : List M)
      → find test ms ≡ some m
      → All Q ms
      → Q m
  All-find Q test m [] e h = absurd (ground (arith, e))
  All-find Q test m (x ∷ ms) e h = elim (Bool-cases (test x)) [
    | inl t ↦ subst Q (ground (arith, e, t)) h.0
    | inr t ↦ All-find Q test m ms (ground (arith, e, t)) h.1
  ]

  pub poll-Fits :
      (P : M → Type 0) (own : List M) (ids : Option (List String)) (c : Channel M W)
      → Fits P own c
      → Fits P own (poll message_id same sink ids c).1
  unfolding poll
  poll-Fits P own ids c f = elim (Option-cases (find (eligible message_id ids) c.messages)) [
    | inl e ↦ same-Fits P own c _ (ground (arith, e)) (ground (arith, e)) f
    | inr (m, e) ↦
        rw (e, poll)
          (record {
            queue_accepted = All-remove _ m c.messages f.queue_accepted;
            own_accepted = f.own_accepted;
            queue_own = All-remove _ m c.messages f.queue_own;
          })
  ]

  -- the message that a poll hands out
  pub poll-got :
      (P : M → Type 0) (own : List M) (ids : Option (List String)) (c : Channel M W) (m : M)
      → Fits P own c
      → (poll message_id same sink ids c).0 ≡ got m
      → (eligible message_id ids m ≡ true) × (any_id (message_id m) own ≡ true → P m)
  unfolding poll
  poll-got P own ids c m f h = elim (Option-cases (find (eligible message_id ids) c.messages)) [
    | inl e ↦ absurd (ground (arith, e, h))
    | inr (x, e) ↦
        let same_message : x ≡ m = ground (arith, e, h) in
        subst (λ y. (eligible message_id ids y ≡ true) × (any_id (message_id y) own ≡ true → P y))
          same_message
          (
            (find-some (eligible message_id ids) x c.messages e).0,
            All-find _ (eligible message_id ids) x c.messages e f.queue_own,
          )
  ]

  pub step-Fits :
      (P : M → Type 0) (own : List M) (op : Op M) (c : Channel M W)
      → Fits P own c
      → Fits P own (step message_id same sink op c).1
  unfolding step close
  step-Fits P own (send_op m) c f = elim (send-cases m c) [
    | inl (e, fresh, messages, accepted) ↦
        other-Fits P m own c (send message_id same sink m c).1 f fresh messages accepted
    | inr (e, messages, accepted) ↦
        same-Fits P own c (send message_id same sink m c).1 messages accepted f
  ]
  step-Fits P own (poll_op ids) c f = poll-Fits P own ids c f
  step-Fits P own close_op c f = same-Fits P own c _ refl refl f
