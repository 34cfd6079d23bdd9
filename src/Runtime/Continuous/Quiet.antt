-- ===== src/Runtime/Continuous/Quiet.antt =====
-- runtime/continuous.py: what an issue leaves of the queues and of the counts.
use mininet_ai.Prelude.{
  ap, keep, append-nil, Bool-cases, inl, inr, ℕ, ◌+◌, String, ◌≡◌, refl, ◌∙◌, Bool, true, false,
  Option, none, some, List, [], ◌∷◌, ◌++◌, arith, if◌then◌else◌, count, count-append,
}
use mininet_ai.Runtime.Continuous.Types.{
  RuntimeEvent, RuntimeIssueCode, ContinuousRuntimeIssue, ContinuousRuntime, queue_full,
  oldest_dropped, dropped_on_stop,
}
use mininet_ai.Runtime.Continuous.Enqueue.{report_issue}

abbrev pub refuses : RuntimeIssueCode → Bool
refuses queue_full = true
refuses _ = false

abbrev pub loses : RuntimeIssueCode → Option String → Bool
loses oldest_dropped _ = true
loses dropped_on_stop (some _) = true
loses _ _ = false

-- an item that was refused at a full queue
abbrev pub is_refusal : ContinuousRuntimeIssue → Bool
is_refusal x = refuses x.code

-- an item that was dropped from a queue, to make room or by a stop
abbrev pub is_loss : ContinuousRuntimeIssue → Bool
is_loss x = loses x.code x.agent_id

-- The last issue counts if it passes the test.
count-last :
    (test : ContinuousRuntimeIssue → Bool) (issues : List ContinuousRuntimeIssue)
    (x : ContinuousRuntimeIssue)
    → count test (issues ++ x ∷ []) ≡ count test issues + (if test x then 1 else 0)
count-last test issues x = ground (arith, count-append test issues (x ∷ []))

-- The last issue is kept if it passes the test.
pub keep-last :
    (test : ContinuousRuntimeIssue → Bool) (issues : List ContinuousRuntimeIssue)
    (x : ContinuousRuntimeIssue)
    → keep test (issues ++ x ∷ []) ≡ keep test issues ++ (if test x then x ∷ [] else [])
keep-last test [] x = refl
keep-last test (y ∷ issues) x = elim (Bool-cases (test y)) [
  | inl e ↦ rw (e, keep-last test issues x) refl
  | inr e ↦ rw (e, keep-last test issues x) refl
]

pub skip-last :
    (test : ContinuousRuntimeIssue → Bool) (issues : List ContinuousRuntimeIssue)
    (x : ContinuousRuntimeIssue)
    → test x ≡ false
    → keep test (issues ++ x ∷ []) ≡ keep test issues
skip-last test issues x h =
    keep-last test issues x
    ∙ ap (λ b. keep test issues ++ (if b then x ∷ [] else [])) h
    ∙ append-nil (keep test issues)

module _ {J : Type 0} where
  abbrev pub refused : ContinuousRuntime J → ℕ
  refused s = count is_refusal s.issues

  abbrev pub lost : ContinuousRuntime J → ℕ
  lost s = count is_loss s.issues

  -- the issues about items that were refused, and about those that were lost
  abbrev pub refusals : ContinuousRuntime J → List ContinuousRuntimeIssue
  refusals s = keep is_refusal s.issues

  abbrev pub losses : ContinuousRuntime J → List ContinuousRuntimeIssue
  losses s = keep is_loss s.issues

  -- The queues are the same, and what counts their items.
  pub record IsQuiet (s s' : ContinuousRuntime J) : Type 0 where
    pub queued_same : s'.queued ≡ s.queued
    pub queues_same : s'.queues ≡ s.queues
    pub enqueued_same : s'.counts.enqueued ≡ s.counts.enqueued
    pub coalesced_same : s'.counts.coalesced ≡ s.counts.coalesced
    pub matched_same : s'.counts.matched ≡ s.counts.matched
    pub pending_same : s'.pending ≡ s.pending
    pub refused_same : refused s' ≡ refused s
    pub lost_same : lost s' ≡ lost s
    pub refusals_same : refusals s' ≡ refusals s
    pub losses_same : losses s' ≡ losses s
    pub sequences_same : s'.last_sequences ≡ s.last_sequences

  pub IsQuiet-refl : (s : ContinuousRuntime J) → IsQuiet s s
  IsQuiet-refl s = record {
    queued_same = refl;
    queues_same = refl;
    enqueued_same = refl;
    coalesced_same = refl;
    matched_same = refl;
    pending_same = refl;
    refused_same = refl;
    lost_same = refl;
    refusals_same = refl;
    losses_same = refl;
    sequences_same = refl;
  }

  pub IsQuiet-trans : (s t u : ContinuousRuntime J) → IsQuiet s t → IsQuiet t u → IsQuiet s u
  IsQuiet-trans s t u i j = record {
    queued_same = j.queued_same ∙ i.queued_same;
    queues_same = j.queues_same ∙ i.queues_same;
    enqueued_same = j.enqueued_same ∙ i.enqueued_same;
    coalesced_same = j.coalesced_same ∙ i.coalesced_same;
    matched_same = j.matched_same ∙ i.matched_same;
    pending_same = j.pending_same ∙ i.pending_same;
    refused_same = j.refused_same ∙ i.refused_same;
    lost_same = j.lost_same ∙ i.lost_same;
    refusals_same = j.refusals_same ∙ i.refusals_same;
    losses_same = j.losses_same ∙ i.losses_same;
    sequences_same = j.sequences_same ∙ i.sequences_same;
  }

  -- what an issue adds to those that were refused and lost
  pub refused-report_issue :
      (code : RuntimeIssueCode) (event : RuntimeEvent J) (about : Option (String × String))
      (dropped rejected : Bool) (s : ContinuousRuntime J)
      → refused (report_issue code event about dropped rejected s)
        ≡ refused s + (if refuses code then 1 else 0)
  unfolding report_issue
  refused-report_issue code event about dropped rejected s = count-last is_refusal s.issues _

  pub lost-report_issue :
      (code : RuntimeIssueCode) (event : RuntimeEvent J) (about : String × String)
      (dropped rejected : Bool) (s : ContinuousRuntime J)
      → lost (report_issue code event (some about) dropped rejected s)
        ≡ lost s + (if loses code (some about.0) then 1 else 0)
  unfolding report_issue
  lost-report_issue code event about dropped rejected s = count-last is_loss s.issues _

  pub lost-issue_event :
      (code : RuntimeIssueCode) (event : RuntimeEvent J) (dropped rejected : Bool)
      (s : ContinuousRuntime J)
      → lost (report_issue code event none dropped rejected s)
        ≡ lost s + (if loses code none then 1 else 0)
  unfolding report_issue
  lost-issue_event code event dropped rejected s = count-last is_loss s.issues _

  -- An issue that is no refusal and no loss.
  report_issue-IsQuiet :
      (code : RuntimeIssueCode) (event : RuntimeEvent J) (about : Option (String × String))
      (dropped rejected : Bool) (s : ContinuousRuntime J)
      → refuses code ≡ false
      → loses code (elim about [ none ↦ none | some a ↦ some a.0 ]) ≡ false
      → lost (report_issue code event about dropped rejected s) ≡ lost s
      → IsQuiet s (report_issue code event about dropped rejected s)
  unfolding report_issue
  report_issue-IsQuiet code event about dropped rejected s h k l = record {
    queued_same = refl;
    queues_same = refl;
    enqueued_same = refl;
    coalesced_same = refl;
    matched_same = refl;
    pending_same = refl;
    refused_same = ground (arith, h, refused-report_issue code event about dropped rejected s);
    lost_same = l;
    refusals_same = skip-last is_refusal s.issues _ h;
    losses_same = skip-last is_loss s.issues _ k;
    sequences_same = refl;
  }

  pub item-IsQuiet :
      (code : RuntimeIssueCode) (event : RuntimeEvent J) (about : String × String)
      (dropped rejected : Bool) (s : ContinuousRuntime J)
      → refuses code ≡ false
      → loses code (some about.0) ≡ false
      → IsQuiet s (report_issue code event (some about) dropped rejected s)
  item-IsQuiet code event about dropped rejected s h k =
      report_issue-IsQuiet code event (some about) dropped rejected s h k
        (ground (arith, k, lost-report_issue code event about dropped rejected s))

  pub event-IsQuiet :
      (code : RuntimeIssueCode) (event : RuntimeEvent J) (dropped rejected : Bool)
      (s : ContinuousRuntime J)
      → refuses code ≡ false
      → loses code none ≡ false
      → IsQuiet s (report_issue code event none dropped rejected s)
  event-IsQuiet code event dropped rejected s h k =
      report_issue-IsQuiet code event none dropped rejected s h k
        (ground (arith, k, lost-issue_event code event dropped rejected s))
