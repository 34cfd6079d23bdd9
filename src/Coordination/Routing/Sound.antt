-- ===== src/Coordination/Routing/Sound.antt =====
-- coordination/routing.py: what holds of every message of a request, in every order of the steps.
use mininet_ai.Prelude.{
  ℕ, zero, suc, ◌+◌, String, ◌≡◌, refl, Bool, true, not, ◌||◌, Option, none, some, List, [], ◌∷◌,
  ◌++◌, map, arith, ◌⊎◌, inl, inr, ◌==◌, any, keep, contains, leb, All, All-map, All-append,
  All-get_elem?, if◌then◌else◌, get_elem?, Bool-cases, Option-cases,
}
use mininet_ai.Coordination.Graph.{
  CoordinationGraph, GraphError, CoordinationEdge, authorize, entry_agent, hop_limit,
}
use mininet_ai.Coordination.Channel.{
  Channel, SendError, closed_error, duplicate, full, sink_raised, Sink, send, Poll, got, exhausted,
  blocked, poll,
}
use mininet_ai.Coordination.Messages.{CoordinationMessage}
use mininet_ai.Coordination.Routing.{
  CoordinationRequest, DelegationProposal, AgentInvocationResult, FutureOutcome, raised, returned,
  CoordinationError, graph_error, Coordination, id_of, checked, delegated, refusal_issue,
  graph_code, hop_limit_exceeded, root, drop_at, Op, take_op, finish_op, other_op, add_issue,
  after_send, send_checked, delegate, delegate_all, eligible_ids, submit, take_message, add_report,
  delegate_response, settle_future, finish, with_root, after_root, send_root, start_request, step,
  run,
}
use mininet_ai.Coordination.Routing.Queue.{
  Fits, any_id, send-cases, accept-Fits, same-Fits, poll-Fits, poll-got, step-Fits,
}

-- what a step leaves, unless an error leaves the loop
abbrev pub Keeps : {C : Type 0} → (C → Type 0) → CoordinationError ⊎ C → Type 0
Keeps q (inl e) = Unit
Keeps q (inr c) = q c

-- a message with the property, and its result
abbrev pub IsInvocation :
    {J T : Type 0}
    → (CoordinationMessage J T → Type 0)
    → CoordinationMessage J T × AgentInvocationResult
    → Type 0
IsInvocation P (m, result) =
    P m × ((result.run_id == m.run_id) ≡ true) × ((result.agent_id == m.target_agent_id) ≡ true)

All-drop_at :
    {J T : Type 0} (P : CoordinationMessage J T → Type 0) (n : ℕ)
    (ms : List (CoordinationMessage J T))
    → All P ms
    → All P (drop_at n ms)
All-drop_at P n [] h = h
All-drop_at P zero (m ∷ ms) h = h.1
All-drop_at P (suc n) (m ∷ ms) h = (h.0, All-drop_at P n ms h.1)

any_id-keep :
    {J T : Type 0} (same : Discrete (CoordinationMessage J T)) (j : String)
    (f g : CoordinationMessage J T → Bool) (ms : List (CoordinationMessage J T))
    → contains (map id_of (keep f (keep g ms))) j ≡ true
    → any (λ m. m.message_id == j) ms ≡ true
any_id-keep same j f g [] h = ground (arith, h)
any_id-keep same j f g (m ∷ ms) h = elim (Bool-cases (g m)) [
  | inl e ↦ elim (Bool-cases (f m)) [
    | inl k ↦ ground (arith, h, e, k, any_id-keep same j f g ms)
    | inr k ↦ ground (arith, h, e, k, any_id-keep same j f g ms)
  ]
  | inr e ↦ ground (arith, h, e, any_id-keep same j f g ms)
]

module _ {J T W : Type 0} (D : Type 0) (same : Discrete (CoordinationMessage J T))
    (sink : Sink (CoordinationMessage J T) W) (ids : ℕ → String) (clock : ℕ → T)
    (graph : CoordinationGraph) (P : CoordinationMessage J T → Type 0)
    (child : (parent m : CoordinationMessage J T) (invocation_id : String)
        (d : DelegationProposal J) (n : ℕ) (e : CoordinationEdge)
      → P parent
      → authorize graph parent.target_agent_id d.target_agent_id ≡ inr e
      → leb (parent.hop_count + 1) (hop_limit graph) ≡ true
      → checked (delegated ids clock parent invocation_id d n) ≡ inr m
      → P m) where
  pub record IsRouted (c : Coordination J T D W) : Type 0 where
    pub messages_hold : All P c.messages
    pub futures_hold : All P c.futures
    pub invocations_hold : All (IsInvocation P) c.invocations
    pub fits : Fits id_of same sink P c.messages c.channel

  -- a state with the same messages, futures and channel
  message_issue-IsRouted :
      (c : Coordination J T D W) (code : _) → IsRouted c → IsRouted (add_issue code c)
  message_issue-IsRouted c code h = record {
    messages_hold = h.messages_hold;
    futures_hold = h.futures_hold;
    invocations_hold = h.invocations_hold;
    fits = h.fits;
  }

  after_send-IsRouted :
      (m : CoordinationMessage J T) (c : Coordination J T D W)
      (r : Option SendError × Channel (CoordinationMessage J T) W)
      → IsRouted c
      → (r.0 ≡ none → Fits id_of same sink P (c.messages ++ m ∷ []) r.1)
      → ((e : SendError) → r.0 ≡ some e → Fits id_of same sink P c.messages r.1)
      → P m
      → Keeps IsRouted (after_send m c r)
  after_send-IsRouted m c (none, channel) h f g p = record {
    messages_hold = All-append P c.messages (m ∷ []) h.messages_hold (p, tt);
    futures_hold = h.futures_hold;
    invocations_hold = h.invocations_hold;
    fits = f refl;
  }
  after_send-IsRouted m c (some sink_raised, channel) h f g p = tt
  after_send-IsRouted m c (some (closed_error i), channel) h f g p = record {
    messages_hold = h.messages_hold;
    futures_hold = h.futures_hold;
    invocations_hold = h.invocations_hold;
    fits = g (closed_error i) refl;
  }
  after_send-IsRouted m c (some (duplicate i), channel) h f g p = record {
    messages_hold = h.messages_hold;
    futures_hold = h.futures_hold;
    invocations_hold = h.invocations_hold;
    fits = g (duplicate i) refl;
  }
  after_send-IsRouted m c (some (full i), channel) h f g p = record {
    messages_hold = h.messages_hold;
    futures_hold = h.futures_hold;
    invocations_hold = h.invocations_hold;
    fits = g (full i) refl;
  }

  send_checked-IsRouted :
      (c : Coordination J T D W) (r : CoordinationError ⊎ CoordinationMessage J T)
      → IsRouted c
      → ((m : CoordinationMessage J T) → r ≡ inr m → P m)
      → Keeps IsRouted (send_checked same sink ids clock graph c r)
  send_checked-IsRouted c (inl e) h p = tt
  send_checked-IsRouted c (inr m) h p =
      let d : Coordination J T D W = record c { created = c.created + 1 } in
      let k : IsRouted d = record {
        messages_hold = h.messages_hold;
        futures_hold = h.futures_hold;
        invocations_hold = h.invocations_hold;
        fits = h.fits;
      } in
      let r = send id_of same sink m c.channel in
      elim (send-cases id_of same sink m c.channel) [
        | inl (e, fresh, messages, accepted) ↦
            after_send-IsRouted m d r k
              (λ _.
                accept-Fits id_of same sink P m c.messages c.channel r.1 h.fits fresh messages
                  accepted (p m refl))
              (λ i f. absurd (ground (arith, e, f))) (p m refl)
        | inr ((i, e), messages, accepted) ↦
            after_send-IsRouted m d r k (λ f. absurd (ground (arith, e, f)))
              (λ _ _. same-Fits id_of same sink P c.messages c.channel r.1 messages accepted h.fits)
              (p m refl)
      ]

  -- `_delegate` from the answer of the graph on
  abbrev after_authorize :
      CoordinationMessage J T
      → String
      → DelegationProposal J
      → Coordination J T D W
      → GraphError ⊎ CoordinationEdge
      → CoordinationError ⊎ Coordination J T D W
  after_authorize parent invocation_id d c (inl e) =
      inr (add_issue (refusal_issue (graph_code e) parent d) c)
  after_authorize parent invocation_id d c (inr _) =
      if leb (parent.hop_count + 1) (hop_limit graph)
      then send_checked same sink ids clock graph c
          (checked (delegated ids clock parent invocation_id d c.created))
      else inr (add_issue (refusal_issue hop_limit_exceeded parent d) c)

  after_authorize-IsRouted :
      (parent : CoordinationMessage J T) (invocation_id : String) (d : DelegationProposal J)
      (c : Coordination J T D W) (answer : GraphError ⊎ CoordinationEdge)
      → authorize graph parent.target_agent_id d.target_agent_id ≡ answer
      → P parent
      → IsRouted c
      → Keeps IsRouted (after_authorize parent invocation_id d c answer)
  after_authorize-IsRouted parent invocation_id d c (inl e) a p h = message_issue-IsRouted c _ h
  after_authorize-IsRouted parent invocation_id d c (inr e) a p h =
      elim (Bool-cases (leb (parent.hop_count + 1) (hop_limit graph))) [
        | inr k ↦ rw k (message_issue-IsRouted c _ h)
        | inl k ↦ rw k (
            send_checked-IsRouted c _ h (λ m f. child parent m invocation_id d c.created e p a k f))
      ]

  delegate-IsRouted :
      (parent : CoordinationMessage J T) (invocation_id : String) (d : DelegationProposal J)
      (c : Coordination J T D W)
      → P parent
      → IsRouted c
      → Keeps IsRouted (delegate same sink ids clock graph parent invocation_id d c)
  unfolding delegate
  delegate-IsRouted parent invocation_id d c p h =
      after_authorize-IsRouted parent invocation_id d c
        (authorize graph parent.target_agent_id d.target_agent_id) refl p h

  then-Keeps :
      (r : CoordinationError ⊎ Coordination J T D W)
      (f : Coordination J T D W → CoordinationError ⊎ Coordination J T D W)
      → Keeps IsRouted r
      → ((c : Coordination J T D W) → IsRouted c → Keeps IsRouted (f c))
      → Keeps IsRouted (elim r [ inl e ↦ inl e | inr c ↦ f c ])
  then-Keeps (inl e) f h k = tt
  then-Keeps (inr c) f h k = k c h

  delegate_all-IsRouted :
      (parent : CoordinationMessage J T) (invocation_id : String) (ds : List (DelegationProposal J))
      (c : Coordination J T D W)
      → P parent
      → IsRouted c
      → Keeps IsRouted (delegate_all same sink ids clock graph parent invocation_id ds c)
  unfolding delegate_all
  delegate_all-IsRouted parent invocation_id [] c p h = h
  delegate_all-IsRouted parent invocation_id (d ∷ ds) c p h =
      then-Keeps (delegate same sink ids clock graph parent invocation_id d c)
        (delegate_all same sink ids clock graph parent invocation_id ds)
        (delegate-IsRouted parent invocation_id d c p h)
        (λ c' k. delegate_all-IsRouted parent invocation_id ds c' p k)

  delegate_response-IsRouted :
      (m : CoordinationMessage J T) (invocation_id : String)
      (response : Option (List (DelegationProposal J))) (c : Coordination J T D W)
      → P m
      → IsRouted c
      → Keeps IsRouted (delegate_response same sink ids clock graph m invocation_id response c)
  delegate_response-IsRouted m invocation_id none c p h = h
  delegate_response-IsRouted m invocation_id (some ds) c p h =
      delegate_all-IsRouted m invocation_id ds c p h

  report-IsRouted :
      (report : Option D) (c : Coordination J T D W) → IsRouted c → IsRouted (add_report report c)
  report-IsRouted none c h = h
  report-IsRouted (some d) c h = record {
    messages_hold = h.messages_hold;
    futures_hold = h.futures_hold;
    invocations_hold = h.invocations_hold;
    fits = h.fits;
  }

  settle_future-IsRouted :
      (m : CoordinationMessage J T) (outcome : FutureOutcome J D) (c : Coordination J T D W)
      → P m
      → IsRouted c
      → Keeps IsRouted (settle_future same sink ids clock graph m outcome c)
  settle_future-IsRouted m (raised code) c p h = message_issue-IsRouted c _ h
  settle_future-IsRouted m (returned result response report) c p h =
      elim (Bool-cases
        (not (result.run_id == m.run_id) || not (result.agent_id == m.target_agent_id))) [
          | inl k ↦ rw k (message_issue-IsRouted c _ h)
          | inr k ↦
              let d : Coordination J T D W = record c {
                invocations = c.invocations ++ (m, result) ∷ [];
              } in
              let i : IsRouted d = record {
                messages_hold = h.messages_hold;
                futures_hold = h.futures_hold;
                invocations_hold =
                    All-append (IsInvocation P) c.invocations ((m, result) ∷ []) h.invocations_hold
                      ((p, ground (arith, k), ground (arith, k)), tt);
                fits = h.fits;
              } in
              rw k (
                delegate_response-IsRouted m result.invocation_id response (add_report report d) p
                  (report-IsRouted report d i))
        ]

  finish-IsRouted :
      (n : ℕ) (outcome : FutureOutcome J D) (c : Coordination J T D W)
      → IsRouted c
      → Keeps IsRouted (finish same sink ids clock graph n outcome c)
  unfolding finish
  finish-IsRouted n outcome c h = elim (Option-cases (get_elem? c.futures n)) [
    | inl e ↦ rw (e, finish) h
    | inr (m, e) ↦
        rw (e, finish)
          (settle_future-IsRouted m outcome (record c { futures = drop_at n c.futures })
            (All-get_elem? P c.futures n m h.futures_hold e)
            (record {
              messages_hold = h.messages_hold;
              futures_hold = All-drop_at P n c.futures h.futures_hold;
              invocations_hold = h.invocations_hold;
              fits = h.fits;
            }))
  ]

  submit-IsRouted :
      (is : List String) (c : Coordination J T D W)
      (r : Poll (CoordinationMessage J T) × Channel (CoordinationMessage J T) W)
      → IsRouted c
      → Fits id_of same sink P c.messages r.1
      → ((m : CoordinationMessage J T) → r.0 ≡ got m → P m)
      → IsRouted (submit c r)
  submit-IsRouted is c (got m, channel) h f p = record {
    messages_hold = h.messages_hold;
    futures_hold = All-append P c.futures (m ∷ []) h.futures_hold (p m refl, tt);
    invocations_hold = h.invocations_hold;
    fits = f;
  }
  submit-IsRouted is c (exhausted, channel) h f p = record {
    messages_hold = h.messages_hold;
    futures_hold = h.futures_hold;
    invocations_hold = h.invocations_hold;
    fits = f;
  }
  submit-IsRouted is c (blocked, channel) h f p = record {
    messages_hold = h.messages_hold;
    futures_hold = h.futures_hold;
    invocations_hold = h.invocations_hold;
    fits = f;
  }

  -- a poll for identifiers of the request's messages
  poll-IsRouted :
      (is : List String) (c : Coordination J T D W)
      → ((j : String) → contains is j ≡ true → any_id id_of same sink j c.messages ≡ true)
      → IsRouted c
      → IsRouted (submit c (poll id_of same sink (some is) c.channel))
  poll-IsRouted is c own h =
      submit-IsRouted is c (poll id_of same sink (some is) c.channel) h
        (poll-Fits id_of same sink P c.messages (some is) c.channel h.fits)
        (λ m e.
          let (i, k) = poll-got id_of same sink P c.messages (some is) c.channel m h.fits e in
          k (own m.message_id i))

  take_message-IsRouted :
      (available : String → Bool) (c : Coordination J T D W)
      → IsRouted c
      → IsRouted (take_message same sink ids clock graph available c)
  unfolding take_message
  take_message-IsRouted available c h =
      by_ids (eligible_ids available c) (λ j k. any_id-keep same j _ _ c.messages k)
    where
      by_ids :
          (is : List String)
          → ((j : String) → contains is j ≡ true → any_id id_of same sink j c.messages ≡ true)
          → IsRouted (elim is [
            | [] ↦ c
            | j ∷ js ↦ submit c (poll id_of same sink (some (j ∷ js)) c.channel)
          ])
      by_ids [] own = h
      by_ids (j ∷ js) own = poll-IsRouted (j ∷ js) c own h

  step-IsRouted :
      (op : Op J T D) (c : Coordination J T D W)
      → IsRouted c
      → Keeps IsRouted (step same sink ids clock graph op c)
  step-IsRouted (take_op available) c h = take_message-IsRouted available c h
  step-IsRouted (finish_op n outcome) c h = finish-IsRouted n outcome c h
  step-IsRouted (other_op op) c h = record {
    messages_hold = h.messages_hold;
    futures_hold = h.futures_hold;
    invocations_hold = h.invocations_hold;
    fits = step-Fits id_of same sink P c.messages op c.channel h.fits;
  }

  pub run-IsRouted :
      (ops : List (Op J T D)) (c : Coordination J T D W)
      → IsRouted c
      → Keeps IsRouted (run same sink ids clock graph ops c)
  unfolding run
  run-IsRouted [] c h = h
  run-IsRouted (op ∷ ops) c h =
      then-Keeps (step same sink ids clock graph op c) (run same sink ids clock graph ops)
        (step-IsRouted op c h) (λ c' k. run-IsRouted ops c' k)

  after_root-IsRouted :
      (m : CoordinationMessage J T) (lease : Option String)
      (r : Option SendError × Channel (CoordinationMessage J T) W)
      → P m
      → (r.0 ≡ none → Fits id_of same sink P (m ∷ []) r.1)
      → Keeps IsRouted (after_root same sink ids clock graph m lease r)
  after_root-IsRouted m lease (some e, channel) p f = tt
  after_root-IsRouted m none (none, channel) p f = record {
    messages_hold = (p, tt);
    futures_hold = tt;
    invocations_hold = tt;
    fits = f refl;
  }
  after_root-IsRouted m (some agent_id) (none, channel) p f =
      elim (Bool-cases (agent_id == m.target_agent_id)) [
        | inr k ↦ rw k tt
        | inl k ↦
            let i : IsRouted (with_root m channel) = record {
              messages_hold = (p, tt);
              futures_hold = tt;
              invocations_hold = tt;
              fits = f refl;
            } in
            rw k
              (poll-IsRouted (m.message_id ∷ []) (with_root m channel) (λ j e. ground (arith, e)) i)
      ]

  send_root-IsRouted :
      (lease : Option String) (channel : Channel (CoordinationMessage J T) W)
      (r : CoordinationError ⊎ CoordinationMessage J T)
      → Fits id_of same sink P [] channel
      → ((m : CoordinationMessage J T) → r ≡ inr m → P m)
      → Keeps IsRouted (send_root same sink ids clock graph lease channel r)
  send_root-IsRouted lease channel (inl e) f p = tt
  send_root-IsRouted lease channel (inr m) f p =
      let r = send id_of same sink m channel in
      after_root-IsRouted m lease r (p m refl) (elim (send-cases id_of same sink m channel) [
        | inl (e, fresh, messages, accepted) ↦
            λ _. accept-Fits id_of same sink P m [] channel r.1 f fresh messages accepted (p m refl)
        | inr ((i, e), messages, accepted) ↦ λ k. absurd (ground (arith, e, k))
      ])

  pub start_request-IsRouted :
      (request : CoordinationRequest J) (lease : Option String)
      (channel : Channel (CoordinationMessage J T) W)
      → All (λ m. contains channel.accepted_ids m.message_id ≡ true) channel.messages
      → ((m : CoordinationMessage J T) (entry : String)
          → entry_agent graph request.requested_agent_id ≡ inr entry
          → checked (root ids clock request entry) ≡ inr m
          → P m)
      → Keeps IsRouted (start_request same sink ids clock graph request lease channel)
  unfolding start_request
  start_request-IsRouted request lease channel a p =
      by_entry (entry_agent graph request.requested_agent_id) (λ m entry. p m entry)
    where
      fits : Fits id_of same sink P [] channel
      fits = record {
        queue_accepted = a;
        own_accepted = tt;
        queue_own = All-map _ _ channel.messages (λ m h k. absurd (ground (arith, k))) a;
      }

      by_entry :
          (answer : GraphError ⊎ String)
          → ((m : CoordinationMessage J T) (entry : String)
              → answer ≡ inr entry
              → checked (root ids clock request entry) ≡ inr m
              → P m)
          → Keeps IsRouted (elim answer [
            | inl e ↦ inl (graph_error e)
            | inr entry ↦
                send_root same sink ids clock graph lease channel
                  (checked (root ids clock request entry))
          ])
      by_entry (inl e) p = tt
      by_entry (inr entry) p =
          send_root-IsRouted lease channel (checked (root ids clock request entry)) fits
            (λ m e. p m entry refl e)
