-- ===== src/Runtime/Continuous/Items.antt =====
-- runtime/continuous.py: what becomes of each item, one step at a time.
use mininet_ai.Prelude.{
  ◌+◌, String, ◌≡◌, refl, ap, ◌∙◌, sym, Bool, true, false, Option, some, List, [], ◌∷◌, ◌++◌, map,
  ◌==◌, append-nil, append_assoc, arith, any, length, length-append, count, count-append,
  Bool-cases, inl, inr,
}
use mininet_ai.Prelude.Dict.{lookup, insert}
use mininet_ai.Runtime.Continuous.Types.{ContinuousRuntimeIssue, WorkItem, ContinuousRuntime}
use mininet_ai.Runtime.Continuous.Enqueue.{same_coalesce_key, replace_first}
use mininet_ai.Runtime.Continuous.Steps.{all_items}
use mininet_ai.Runtime.Continuous.Quiet.{refusals, losses}

-- what an issue tells of its item, and what the issue about an item tells
abbrev pub Name : Type 0
Name = String × Option String × Option String

abbrev pub issue_name : ContinuousRuntimeIssue → Name
issue_name x = (x.event_id, x.agent_id, x.trigger)

pub map-append :
    (xs ys : List ContinuousRuntimeIssue)
    → map issue_name (xs ++ ys) ≡ map issue_name xs ++ map issue_name ys
map-append [] ys = refl
map-append (x ∷ xs) ys = ap (λ zs. issue_name x ∷ zs) (map-append xs ys)

module _ {J : Type 0} where
  abbrev pub item_name : WorkItem J → Name
  item_name item = (item.event.event_id, some item.agent.id, some item.trigger)

  names-append :
      (xs ys : List (WorkItem J)) → map item_name (xs ++ ys) ≡ map item_name xs ++ map item_name ys
  names-append [] ys = refl
  names-append (x ∷ xs) ys = ap (λ zs. item_name x ∷ zs) (names-append xs ys)

  -- A step that takes the items `ins` in and hands `outs` out, where `before` are the items kept so far
  -- and `after` those kept then: the items that come in or were kept are kept, handed out, displaced
  -- (each counted as coalesced), dropped or turned down (each with an issue that names it).
  pub record Traces (ins outs before after : List (WorkItem J)) (s s' : ContinuousRuntime J)
      : Type 0 where
    pub displaced : List (WorkItem J)
    pub dropped : List (WorkItem J)
    pub turned_down : List (WorkItem J)
    pub balance :
        (test : WorkItem J → Bool)
        → count test ins + count test before
          ≡ count test after
            + count test outs
            + count test displaced
            + count test dropped
            + count test turned_down
    pub coalesced_more : s'.counts.coalesced ≡ s.counts.coalesced + length displaced
    pub losses_more :
        map issue_name (losses s') ≡ map issue_name (losses s) ++ map item_name dropped
    pub refusals_more :
        map issue_name (refusals s') ≡ map issue_name (refusals s) ++ map item_name turned_down

  -- nothing is displaced, dropped or turned down
  pub plain-Traces :
      (ins outs before after : List (WorkItem J)) (s s' : ContinuousRuntime J)
      → ((test : WorkItem J → Bool)
          → count test ins + count test before ≡ count test after + count test outs)
      → s'.counts.coalesced ≡ s.counts.coalesced
      → losses s' ≡ losses s
      → refusals s' ≡ refusals s
      → Traces ins outs before after s s'
  plain-Traces ins outs before after s s' h c l r = record {
    displaced = [];
    dropped = [];
    turned_down = [];
    balance = λ test. omega (arith, h test);
    coalesced_more = omega (arith, c);
    losses_more = ap (map issue_name) l ∙ sym (append-nil (map issue_name (losses s)));
    refusals_more = ap (map issue_name) r ∙ sym (append-nil (map issue_name (refusals s)));
  }

  pub Traces-trans :
      (i o j p a b c : List (WorkItem J)) (s t u : ContinuousRuntime J)
      → Traces i o a b s t
      → Traces j p b c t u
      → Traces (i ++ j) (o ++ p) a c s u
  Traces-trans i o j p a b c s t u x y = record {
    displaced = x.displaced ++ y.displaced;
    dropped = x.dropped ++ y.dropped;
    turned_down = x.turned_down ++ y.turned_down;
    balance = λ test. omega (
      arith,
      x.balance test,
      y.balance test,
      count-append test i j,
      count-append test o p,
      count-append test x.displaced y.displaced,
      count-append test x.dropped y.dropped,
      count-append test x.turned_down y.turned_down,
    );
    coalesced_more =
        omega (arith, x.coalesced_more, y.coalesced_more, length-append x.displaced y.displaced);
    losses_more =
        y.losses_more
        ∙ ap (λ l. l ++ map item_name y.dropped) x.losses_more
        ∙ append_assoc (map issue_name (losses s)) (map item_name x.dropped)
            (map item_name y.dropped)
        ∙ ap (λ l. map issue_name (losses s) ++ l) (sym (names-append x.dropped y.dropped));
    refusals_more =
        y.refusals_more
        ∙ ap (λ l. l ++ map item_name y.turned_down) x.refusals_more
        ∙ append_assoc (map issue_name (refusals s)) (map item_name x.turned_down)
            (map item_name y.turned_down)
        ∙ ap (λ l. map issue_name (refusals s) ++ l)
            (sym (names-append x.turned_down y.turned_down));
  }

  -- A queue that is replaced changes the items by the difference.
  pub count-insert :
      (test : WorkItem J → Bool) (a : String) (queue new : List (WorkItem J))
      (queues : List (String × List (WorkItem J)))
      → lookup a queues ≡ some queue
      → count test (all_items (insert a new queues)) + count test queue
        ≡ count test (all_items queues) + count test new
  unfolding lookup insert
  count-insert test a queue new [] h = cc
  count-insert test a queue new (q ∷ queues) h = elim (Bool-cases (q.0 == a)) [
    | inl e ↦ ground (
      arith,
      e,
      count-append test q.1 (all_items queues),
      count-append test new (all_items queues),
    )
    | inr e ↦ ground (
      arith,
      e,
      count-append test q.1 (all_items queues),
      count-append test q.1 (all_items (insert a new queues)),
      count-insert test a queue new queues (ground (arith, e)),
    )
  ]

  -- The first item with the key makes room for the new one.
  pub replace_first-split :
      (item : WorkItem J) (queue : List (WorkItem J))
      → any (same_coalesce_key item) queue ≡ true
      → (front : List (WorkItem J)) × (old : WorkItem J) × (back : List (WorkItem J)) × (queue
          ≡ front ++ old ∷ back)
        × (same_coalesce_key item old ≡ true)
        × (any (same_coalesce_key item) front ≡ false)
        × (replace_first item queue ≡ front ++ item ∷ back)
  replace_first-split item [] h = cc
  replace_first-split item (x ∷ queue) h = elim (Bool-cases (same_coalesce_key item x)) [
    | inl e ↦ ([], x, queue, refl, e, refl, rw e refl)
    | inr e ↦
        let (front, old, back, split, same, others, replaced) =
          replace_first-split item queue (ground (arith, e, h)) in
        (
          x ∷ front,
          old,
          back,
          ap (λ xs. x ∷ xs) split,
          same,
          ground (arith, e, others),
          rw e (ap (λ xs. x ∷ xs) replaced),
        )
  ]
