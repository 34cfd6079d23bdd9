-- ===== src/Runtime/Continuous/Names.antt =====
-- runtime/continuous.py: whom the issues about losses and refusals name.
use mininet_ai.Prelude.{
  ◌≡◌, ap, ◌∙◌, sym, Bool, true, false, some, [], ◌∷◌, ◌++◌, map, append-nil, if◌then◌else◌,
}
use mininet_ai.Runtime.Continuous.Types.{WorkItem, ContinuousRuntime, RuntimeIssueCode}
use mininet_ai.Runtime.Continuous.Enqueue.{report_issue, about}
use mininet_ai.Runtime.Continuous.Quiet.{
  refusals, losses, is_refusal, is_loss, refuses, loses, keep-last, skip-last,
}
use mininet_ai.Runtime.Continuous.Items.{issue_name, item_name, map-append}

module _ {J : Type 0} where
  -- An issue about a loss names the item that is lost, one about a refusal the item that is refused.
  pub losses-named :
      (code : RuntimeIssueCode) (item : WorkItem J) (dropped rejected : Bool)
      (s : ContinuousRuntime J)
      → loses code (some item.agent.id) ≡ true
      → map issue_name (losses (report_issue code item.event (about item) dropped rejected s))
        ≡ map issue_name (losses s) ++ item_name item ∷ []
  unfolding report_issue
  losses-named code item dropped rejected s h =
      ap (map issue_name) (keep-last is_loss s.issues _)
      ∙ map-append (losses s) _
      ∙ ap
          (λ b.
            map issue_name (losses s)
            ++ map issue_name (
                if b
                then record {
                  code = code;
                  event_id = item.event.event_id;
                  agent_id = some item.agent.id;
                  trigger = some item.trigger;
                }
                  ∷ []
                else []))
          h

  pub refusals-named :
      (code : RuntimeIssueCode) (item : WorkItem J) (dropped rejected : Bool)
      (s : ContinuousRuntime J)
      → refuses code ≡ true
      → map issue_name (refusals (report_issue code item.event (about item) dropped rejected s))
        ≡ map issue_name (refusals s) ++ item_name item ∷ []
  unfolding report_issue
  refusals-named code item dropped rejected s h =
      ap (map issue_name) (keep-last is_refusal s.issues _)
      ∙ map-append (refusals s) _
      ∙ ap
          (λ b.
            map issue_name (refusals s)
            ++ map issue_name (
                if b
                then record {
                  code = code;
                  event_id = item.event.event_id;
                  agent_id = some item.agent.id;
                  trigger = some item.trigger;
                }
                  ∷ []
                else []))
          h

  -- An issue of another kind leaves the names as they are.
  pub losses-skip :
      (code : RuntimeIssueCode) (item : WorkItem J) (dropped rejected : Bool)
      (s : ContinuousRuntime J)
      → loses code (some item.agent.id) ≡ false
      → map issue_name (losses (report_issue code item.event (about item) dropped rejected s))
        ≡ map issue_name (losses s) ++ []
  unfolding report_issue
  losses-skip code item dropped rejected s h =
      ap (map issue_name) (skip-last is_loss s.issues _ h)
      ∙ sym (append-nil (map issue_name (losses s)))

  pub refusals-skip :
      (code : RuntimeIssueCode) (item : WorkItem J) (dropped rejected : Bool)
      (s : ContinuousRuntime J)
      → refuses code ≡ false
      → map issue_name (refusals (report_issue code item.event (about item) dropped rejected s))
        ≡ map issue_name (refusals s) ++ []
  unfolding report_issue
  refusals-skip code item dropped rejected s h =
      ap (map issue_name) (skip-last is_refusal s.issues _ h)
      ∙ sym (append-nil (map issue_name (refusals s)))
