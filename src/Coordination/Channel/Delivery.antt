-- ===== src/Coordination/Channel/Delivery.antt =====
-- coordination/channel.py: at-most-once delivery and the bound of the queue, over every
-- interleaving of the threads' steps.
use mininet_ai.Prelude.{
  ℕ, suc, ◌+◌, ◌≤◌, String, ◌≡◌, Bool, Option, some, List, [], ◌∷◌, ◌++◌, append_assoc, arith, ◌==◌,
  eq_iff, length, length-append, find, contains, count, count-append, if◌then◌else◌, inl, inr,
  Option-cases, append-nil,
}
use mininet_ai.Coordination.Channel.{
  Channel, Sink, Op, send_op, poll_op, close_op, new_channel, eligible, remove, send, poll,
  delivery, step, run,
}

module _ {M : Type 0} (same : Discrete M) where
  pub count-remove :
      (test pick : M → Bool) (m : M) (q : List M)
      → find pick q ≡ some m
      → count test q ≡ count test (remove same m q) + (if test m then 1 else 0)
  unfolding remove
  count-remove test pick m [] h = ground arith
  count-remove test pick m (x ∷ q) h = ground (arith, count-remove test pick m q)

  pub length-remove :
      (pick : M → Bool) (m : M) (q : List M)
      → find pick q ≡ some m
      → length q ≡ suc (length (remove same m q))
  unfolding remove
  length-remove pick m [] h = ground arith
  length-remove pick m (x ∷ q) h = ground (arith, length-remove pick m q)

-- how many of the messages carry the identifier
abbrev pub copies : {M : Type 0} → (M → String) → String → List M → ℕ
copies message_id id = count (λ m. message_id m == id)

module _ {M W : Type 0} (message_id : M → String) where
  -- Of each accepted identifier there is one message, handed out or queued; of any other none.
  pub record DeliveredOnce (out : List M) (c : Channel M W) : Type 0 where
    pub one :
        (id : String)
        → copies message_id id out + copies message_id id c.messages
          ≡ (if contains c.accepted_ids id then 1 else 0)
    pub bounded : length c.messages ≤ c.capacity

module _ {M W : Type 0} (message_id : M → String) (same : Discrete M) (sink : Sink M W) where
  send-DeliveredOnce :
      (m : M) (out : List M) (c : Channel M W)
      → DeliveredOnce message_id out c
      → DeliveredOnce message_id out (send message_id same sink m c).1
  unfolding send
  send-DeliveredOnce m out c h = record {
    one = λ id. ground (
      arith,
      h.one id,
      h.one (message_id m),
      eq_iff (message_id m) id,
      count-append (λ x. message_id x == id) c.messages (m ∷ []),
    );
    bounded = ground (arith, h.bounded, length-append c.messages (m ∷ []));
  }

  poll-DeliveredOnce :
      (ids : Option (List String)) (out : List M) (c : Channel M W)
      → DeliveredOnce message_id out c
      → DeliveredOnce message_id
          (out ++ delivery (poll message_id same sink ids c).0)
          (poll message_id same sink ids c).1
  unfolding poll
  poll-DeliveredOnce ids out c h = elim (Option-cases (find (eligible message_id ids) c.messages)) [
    | inl e ↦ record {
      one = λ id. ground (arith, h.one id, append-nil out);
      bounded = ground (arith, h.bounded);
    }
    | inr (m, e) ↦ record {
      one = λ id. ground (
        arith,
        h.one id,
        count-append (λ x. message_id x == id) out (m ∷ []),
        count-remove same (λ x. message_id x == id) (eligible message_id ids) m c.messages,
      );
      bounded =
          ground (arith, h.bounded, length-remove same (eligible message_id ids) m c.messages);
    }
  ]

  pub step-DeliveredOnce :
      (op : Op M) (out : List M) (c : Channel M W)
      → DeliveredOnce message_id out c
      → DeliveredOnce message_id
          (out ++ (step message_id same sink op c).0)
          (step message_id same sink op c).1
  unfolding step
  step-DeliveredOnce (send_op m) out c h = rw append-nil (send-DeliveredOnce m out c h)
  step-DeliveredOnce (poll_op ids) out c h = poll-DeliveredOnce ids out c h
  step-DeliveredOnce close_op out c h = rw append-nil (record { one = h.one; bounded = h.bounded })

  run-DeliveredOnce :
      (ops : List (Op M)) (out : List M) (c : Channel M W)
      → DeliveredOnce message_id out c
      → DeliveredOnce message_id
          (out ++ (run message_id same sink ops c).0)
          (run message_id same sink ops c).1
  unfolding run
  run-DeliveredOnce [] out c h = rw append-nil h
  run-DeliveredOnce (op ∷ ops) out c h = rw (← append_assoc) (
      run-DeliveredOnce ops (out ++ (step message_id same sink op c).0)
        (step message_id same sink op c).1 (step-DeliveredOnce op out c h))

  -- From a new channel, after any interleaving of sends, receives and closes by any threads:
  -- each identifier that the channel accepted is on exactly one message that is either handed out
  -- or queued, an identifier that it did not accept is on none, and the queue is within capacity.
  pub delivery_at_most_once :
      (capacity : ℕ) (w : W) (c : Channel M W) (ops : List (Op M))
      → new_channel capacity w ≡ some c
      → DeliveredOnce message_id
          (run message_id same sink ops c).0
          (run message_id same sink ops c).1
  unfolding new_channel
  delivery_at_most_once capacity w c ops h =
      run-DeliveredOnce ops [] c (record { one = λ id. ground arith; bounded = ground arith })
