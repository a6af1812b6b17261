-- ===== src/Lifecycle/Application/Loop.antt =====
-- The loop of `Advance.__call__` of application/lifecycle.py, for a request that was prepared. The
-- ledger decides with `decide_advance` on the history that it holds, and appends the record of the
-- decision.
use agentic_investment_os.Prelude.{
  ℕ, zero, suc, Bool, true, false, not, Option, none, some, List, Result, ok, err,
  invalid_lifecycle_state, ◌>>=◌, ◌>>◌, raise_if, leb, if◌then◌else◌,
}
use agentic_investment_os.Temporal.{UtcInstant}
use agentic_investment_os.Lifecycle.Reason.{AttentionRefusalReason}
use agentic_investment_os.Lifecycle.Checkpoint.{
  NoActionReason, EvidenceCaptureCheckpoint, ResearchCheckpoint, ResearchRefusal,
  DecisionCheckpoint,
}
use agentic_investment_os.Lifecycle.Portfolio.{PortfolioCheckpoint}
use agentic_investment_os.Lifecycle.Command.{
  PinnedRunIdentity, UniverseSnapshot, AttentionArtifact, AttentionSelection, ResearchOutcome,
  DecisionPublication, AdvanceCommand, Fingerprints,
}
use agentic_investment_os.Lifecycle.Stream.{LifecycleEvent}
use agentic_investment_os.Lifecycle.Receipt.{AdvanceReceipt}
use agentic_investment_os.Lifecycle.Refusal.{
  LifecycleDecision, advance_command, return_receipt, append_terminal,
}
use agentic_investment_os.Lifecycle.History.{LifecycleHistory, event_record, append}
use agentic_investment_os.Lifecycle.Decision.{AdvanceAttempt, AdvanceDecision, require}
use agentic_investment_os.Lifecycle.Decide.{decide_advance}
use agentic_investment_os.Lifecycle.Application.Interface.{
  ResearchRun, AttentionReading, Publication, AdvanceReport, failed, completed, Capabilities,
  same_checkpoint,
}

pub record LoopState : Type 0 where
  pub history : LifecycleHistory
  pub command : AdvanceCommand
  pub attempt : AdvanceAttempt
  pub recorded_at : UtcInstant

-- One round continues with a state, or returns.
pub data Round : Type 0 where
  continue_with : LoopState → Round
  report : AdvanceReport → Round

abbrev pub outcome_of : ResearchCheckpoint → Option ResearchRefusal → ResearchOutcome
outcome_of checkpoint none = ResearchOutcome.research_done checkpoint
outcome_of checkpoint (some r) = ResearchOutcome.research_refused r

-- `decision.attempt.last_sequence` is none, or no later than that of the attempt so far.
abbrev pub is_no_progress : Option ℕ → Option ℕ → Bool
is_no_progress none before = true
is_no_progress (some n) none = false
is_no_progress (some n) (some before) = leb n before

abbrev receipt_of : LifecycleDecision → AdvanceReceipt
receipt_of (return_receipt r) = r
receipt_of (append_terminal refusal r) = r

abbrev select_artifact : Option AttentionArtifact → AttentionSelection
select_artifact none = AttentionSelection.not_selected AttentionRefusalReason.contradictory_evidence
select_artifact (some a) = AttentionSelection.selected a

module _ {Inputs : Type 0} (h : Fingerprints) (cap : Capabilities Inputs) (s : LoopState) where
  abbrev finish_with : AdvanceReport → Result Round
  finish_with r = do checked ← cap.validate_receipt s.command r; ok (report checked)

  abbrev c : AdvanceCommand
  c = s.command

  -- `command = replace(command, ...)`, and the next round
  abbrev continue_command : AdvanceCommand → Result Round
  continue_command next = ok (continue_with (record s { command = next }))

  unfoldable pub continue_appended : LifecycleEvent → AdvanceAttempt → Result Round
  continue_appended e attempt =
      if is_no_progress attempt.last_sequence s.attempt.last_sequence
      then err invalid_lifecycle_state
      else ok (
          continue_with
            (record s { history = append s.history (event_record e); attempt = attempt }))

  -- `PerformEvidenceCapture`
  unfoldable pub capture_round : PinnedRunIdentity → UniverseSnapshot → Result Round
  capture_round identity snapshot = do
    capture ← cap.evidence_capture identity snapshot
    continue_command (record c { evidence_capture = some capture })

  abbrev select_from : List AttentionArtifact → AttentionReading Inputs → AttentionSelection
  select_from prior (AttentionReading.attention_read inputs) =
      select_artifact (cap.select_attention inputs prior s.recorded_at)
  select_from prior (AttentionReading.attention_refused r) = AttentionSelection.not_selected r
  select_from prior AttentionReading.evidence_error =
      AttentionSelection.not_selected AttentionRefusalReason.corrupt_evidence

  -- `PerformAttentionSelection`
  unfoldable pub attention_round :
      PinnedRunIdentity
      → UniverseSnapshot
      → EvidenceCaptureCheckpoint
      → List AttentionArtifact
      → Result Round
  attention_round identity snapshot capture prior = do
    reading ← cap.attention_inputs identity c.request.session snapshot capture
    continue_command (record c { attention_selection = some (select_from prior reading) })

  -- The command with the artifact of the stream
  abbrev pub with_artifact : AttentionArtifact → AdvanceCommand
  with_artifact a = record c { attention_selection = some (AttentionSelection.selected a) }

  -- `PerformDossierBuild`
  unfoldable pub dossier_round : EvidenceCaptureCheckpoint → AttentionArtifact → Result Round
  dossier_round capture a = do
    build ←
        cap.build_dossiers (record (with_artifact a) { evidence_capture = some capture })
          s.recorded_at
    continue_command (record (with_artifact a) {
      evidence_capture = some capture;
      dossier_build = some (outcome_of build.checkpoint build.refusal);
    })

  -- `PerformResearch`
  unfoldable pub research_round : ResearchCheckpoint → AttentionArtifact → Result Round
  research_round dossier a = do
    build ← cap.build_dossiers (with_artifact a) s.recorded_at
    raise_if (not (same_checkpoint build.checkpoint dossier)) invalid_lifecycle_state
    run ← cap.run_research (with_artifact a) build s.recorded_at
    continue_command (record (with_artifact a) {
      research_run = some (outcome_of run.checkpoint run.refusal);
      no_action_reason = run.no_action_reason;
    })

  -- `PerformMemoryUpdate`
  unfoldable pub memory_round : ResearchCheckpoint → AttentionArtifact → Result Round
  memory_round research a = do
    build ← cap.build_dossiers (with_artifact a) s.recorded_at
    run ← cap.run_research (with_artifact a) build s.recorded_at
    raise_if (not (same_checkpoint run.checkpoint research)) invalid_lifecycle_state
    memory ← cap.update_memory (with_artifact a) run s.recorded_at
    continue_command (record (with_artifact a) {
      memory_update = some memory;
      no_action_reason = run.no_action_reason;
    })

  -- `replay_run`, whose absence raises
  abbrev pub replayed :
      PinnedRunIdentity
      → ResearchCheckpoint
      → ResearchCheckpoint
      → Option NoActionReason
      → Result ResearchRun
  replayed identity dossier research reason =
      require (cap.replay_run identity.run_id dossier research reason)

  -- `PerformPortfolioConstruction`
  unfoldable pub portfolio_round :
      PinnedRunIdentity
      → ResearchCheckpoint
      → ResearchCheckpoint
      → ResearchCheckpoint
      → AttentionArtifact
      → Option NoActionReason
      → Result Round
  portfolio_round identity dossier research memory a reason = do
    run ← replayed identity dossier research reason
    portfolio ← cap.construct_portfolio (with_artifact a) run dossier memory s.recorded_at
    continue_command (record (with_artifact a) {
      portfolio_construction = some portfolio;
      no_action_reason = reason;
    })

  abbrev pub publish : Result Publication → Option DecisionCheckpoint → Result Round
  publish made (some d) =
      continue_command (record c { decision_publication = some (DecisionPublication.published d) })
  publish made none = do
    p ← made
    ok (
        continue_with (record s {
          command = record c { decision_publication = some p.outcome };
          recorded_at = p.recorded_at;
        }))

  -- `PerformDecisionPublication`
  unfoldable pub publication_round :
      PinnedRunIdentity
      → ResearchCheckpoint
      → ResearchCheckpoint
      → PortfolioCheckpoint
      → Option NoActionReason
      → Result Round
  publication_round identity dossier research portfolio reason =
      publish (cap.publish_decision identity dossier research portfolio reason)
        (cap.replay_publication identity.run_id c.request.session)

  -- What the loop does with a decision
  unfoldable pub perform : AdvanceDecision → Result Round
  unfolding continue_appended capture_round attention_round dossier_round research_round
      memory_round portfolio_round publication_round
  perform (AdvanceDecision.refuse d) = finish_with (failed (receipt_of d))
  perform (AdvanceDecision.append_conflict conflict r) = finish_with (failed r)
  perform (AdvanceDecision.append_completed e r) = finish_with (completed r)
  perform (AdvanceDecision.return_completed r) = finish_with (completed r)
  perform (AdvanceDecision.append_event e attempt) = continue_appended e attempt
  perform (AdvanceDecision.perform_evidence_capture i snapshot) = capture_round i snapshot
  perform (AdvanceDecision.perform_attention_selection i snapshot capture prior) =
      attention_round i snapshot capture prior
  perform (AdvanceDecision.perform_dossier_build i snapshot capture a) = dossier_round capture a
  perform (AdvanceDecision.perform_research i dossier a) = research_round dossier a
  perform (AdvanceDecision.perform_memory_update i research a) = memory_round research a
  perform (AdvanceDecision.perform_portfolio_construction i dossier research memory a reason) =
      portfolio_round i dossier research memory a reason
  perform (AdvanceDecision.perform_decision_publication i dossier research portfolio reason) =
      publication_round i dossier research portfolio reason

  -- One round: the ledger's step, and what the loop does with its decision
  unfoldable pub round : Result Round
  unfolding perform
  round = do
    decision ← decide_advance h s.history (advance_command c) s.attempt s.recorded_at
    perform decision

-- After a round: an exception and a report leave the loop.
abbrev pub after :
    (LoopState → Option (Result AdvanceReport)) → Result Round → Option (Result AdvanceReport)
after again (err e) = some (err e)
after again (ok (report r)) = some (ok r)
after again (ok (continue_with s)) = again s

-- The loop, with fuel; `none` is that the fuel is out.
module _ {Inputs : Type 0} (h : Fingerprints) (cap : Capabilities Inputs) where
  unfoldable pub advance : ℕ → LoopState → Option (Result AdvanceReport)
  unfolding round
  advance zero s = none
  advance (suc fuel) s = after (advance fuel) (round h cap s)
