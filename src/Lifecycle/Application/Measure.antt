-- ===== src/Lifecycle/Application/Measure.antt =====
-- What each round of the loop of `Advance.__call__` of application/lifecycle.py uses up: an effect
-- that the command lacks, or a position of the event order.
use agentic_investment_os.Prelude.{
  ℕ, ◌+◌, ◌-◌, ◌<◌, ◌≤◌, ◌≡◌, refl, true, Option, none, some, List, Result, ok, is_none, not,
  raise_if, invalid_lifecycle_state, ◌>>=◌, >>=-eq-ok, arith,
}
use agentic_investment_os.Lifecycle.Command.{
  AdvanceCommand, PinnedRunIdentity, UniverseSnapshot, AttentionArtifact, Fingerprints,
}
use agentic_investment_os.Lifecycle.Checkpoint.{
  DecisionCheckpoint, NoActionReason, EvidenceCaptureCheckpoint, ResearchCheckpoint,
}
use agentic_investment_os.Lifecycle.Portfolio.{PortfolioCheckpoint}
use agentic_investment_os.Lifecycle.Stream.{LifecycleEvent}
use agentic_investment_os.Lifecycle.Refusal.{advance_command}
use agentic_investment_os.Lifecycle.Decision.{AdvanceAttempt, AdvanceDecision}
use agentic_investment_os.Lifecycle.Decide.{decide_advance}
use agentic_investment_os.Lifecycle.Application.Interface.{
  Publication, AdvanceReport, Capabilities, same_checkpoint,
}
use agentic_investment_os.Lifecycle.Application.Loop.{
  LoopState, continue_with, report, continue_appended, capture_round, attention_round,
  dossier_round, research_round, memory_round, portfolio_round, publication_round, publish,
  with_artifact, replayed, perform, round,
}
use agentic_investment_os.Lifecycle.Application.Due.{is_due, is_within, decide_advance-due}

abbrev count {ℓ} : {A : Type ℓ} → Option A → ℕ
count none = 1
count (some a) = 0

-- The effects that a command lacks
abbrev missing : AdvanceCommand → ℕ
missing c =
    count c.evidence_capture
    + count c.attention_selection
    + count c.dossier_build
    + count c.research_run
    + count c.memory_update
    + count c.portfolio_construction
    + count c.decision_publication

-- The positions that an attempt has not appended
abbrev positions : Option ℕ → ℕ
positions none = 11
positions (some n) = 10 - n

abbrev pub measure : LoopState → ℕ
measure s = missing s.command + positions s.attempt.last_sequence

count-none {ℓ} : {A : Type ℓ} (o : Option A) → is_none o ≡ true → count o ≡ 1
count-none none e = refl
count-none (some a) e = cc

count_bounded {ℓ} : {A : Type ℓ} (o : Option A) → count o ≤ 1
count_bounded none = omega arith
count_bounded (some a) = omega arith

positions_bounded : (o : Option ℕ) → positions o ≤ 11
positions_bounded none = omega arith
positions_bounded (some n) = omega arith

pub measure_bounded : (s : LoopState) → measure s < 19
measure_bounded s = omega (
  arith,
  count_bounded s.command.evidence_capture,
  count_bounded s.command.attention_selection,
  count_bounded s.command.dossier_build,
  count_bounded s.command.research_run,
  count_bounded s.command.memory_update,
  count_bounded s.command.portfolio_construction,
  count_bounded s.command.decision_publication,
  positions_bounded s.attempt.last_sequence,
)

module _ {Inputs : Type 0} (h : Fingerprints) (cap : Capabilities Inputs) where
  continue_appended-decreases :
      (s t : LoopState) (e : LifecycleEvent) (attempt : AdvanceAttempt)
      → is_within attempt.last_sequence ≡ true
      → continue_appended h cap s e attempt ≡ ok (continue_with t)
      → measure t < measure s
  unfolding continue_appended
  continue_appended-decreases s t e attempt within passed = ground (arith, within, passed)

  capture_round-decreases :
      (s t : LoopState) (i : PinnedRunIdentity) (snapshot : UniverseSnapshot)
      → is_none s.command.evidence_capture ≡ true
      → capture_round h cap s i snapshot ≡ ok (continue_with t)
      → measure t < measure s
  unfolding capture_round
  capture_round-decreases s t i snapshot lacks passed = ground (arith, lacks, passed)

  supplied-decreases :
      (s t u : LoopState)
      → ok (continue_with u) ≡ ok (continue_with t)
      → u.attempt ≡ s.attempt
      → missing u.command < missing s.command
      → measure t < measure s
  supplied-decreases s t u passed attempt fewer =
      let command : u.command ≡ t.command = ground (arith, passed) in
      let kept : s.attempt ≡ t.attempt = ground (arith, passed, attempt) in
      rw⁻¹ (command, kept) (omega (arith, fewer))

  attention_round-decreases :
      (s t : LoopState) (i : PinnedRunIdentity) (snapshot : UniverseSnapshot)
      (capture : EvidenceCaptureCheckpoint) (prior : List AttentionArtifact)
      → is_none s.command.attention_selection ≡ true
      → attention_round h cap s i snapshot capture prior ≡ ok (continue_with t)
      → measure t < measure s
  unfolding attention_round
  attention_round-decreases s t i snapshot capture prior lacks passed =
      let (reading, read, later) =
        >>=-eq-ok (cap.attention_inputs i s.command.request.session snapshot capture) _ passed in
      supplied-decreases s t _ later refl
        (omega (arith, count-none s.command.attention_selection lacks))

  dossier_round-decreases :
      (s t : LoopState) (capture : EvidenceCaptureCheckpoint) (a : AttentionArtifact)
      → is_none s.command.dossier_build ≡ true
      → dossier_round h cap s capture a ≡ ok (continue_with t)
      → measure t < measure s
  unfolding dossier_round
  dossier_round-decreases s t capture a lacks passed =
      let (build, built, later) = >>=-eq-ok (cap.build_dossiers _ s.recorded_at) _ passed in
      supplied-decreases s t _ later refl (omega (arith, count-none s.command.dossier_build lacks))

  research_round-decreases :
      (s t : LoopState) (dossier : ResearchCheckpoint) (a : AttentionArtifact)
      → is_none s.command.research_run ≡ true
      → research_round h cap s dossier a ≡ ok (continue_with t)
      → measure t < measure s
  unfolding research_round
  research_round-decreases s t dossier a lacks passed =
      let (build, built, checking) =
        >>=-eq-ok (cap.build_dossiers (with_artifact h cap s a) s.recorded_at) _ passed in
      let (done, checked, running) =
        >>=-eq-ok
          (raise_if (not (same_checkpoint build.checkpoint dossier)) invalid_lifecycle_state) _
          checking in
      let (run, ran, later) =
        >>=-eq-ok (cap.run_research (with_artifact h cap s a) build s.recorded_at) _ running in
      supplied-decreases s t _ later refl (omega (arith, count-none s.command.research_run lacks))

  memory_round-decreases :
      (s t : LoopState) (research : ResearchCheckpoint) (a : AttentionArtifact)
      → is_none s.command.memory_update ≡ true
      → memory_round h cap s research a ≡ ok (continue_with t)
      → measure t < measure s
  unfolding memory_round
  memory_round-decreases s t research a lacks passed =
      let (build, built, running) =
        >>=-eq-ok (cap.build_dossiers (with_artifact h cap s a) s.recorded_at) _ passed in
      let (run, ran, checking) =
        >>=-eq-ok (cap.run_research (with_artifact h cap s a) build s.recorded_at) _ running in
      let (done, checked, updating) =
        >>=-eq-ok (raise_if (not (same_checkpoint run.checkpoint research)) invalid_lifecycle_state)
          _ checking in
      let (memory, updated, later) =
        >>=-eq-ok (cap.update_memory (with_artifact h cap s a) run s.recorded_at) _ updating in
      supplied-decreases s t _ later refl (omega (arith, count-none s.command.memory_update lacks))

  portfolio_round-decreases :
      (s t : LoopState) (i : PinnedRunIdentity) (dossier research memory : ResearchCheckpoint)
      (a : AttentionArtifact) (reason : Option NoActionReason)
      → is_none s.command.portfolio_construction ≡ true
      → portfolio_round h cap s i dossier research memory a reason ≡ ok (continue_with t)
      → measure t < measure s
  unfolding portfolio_round
  portfolio_round-decreases s t i dossier research memory a reason lacks passed =
      let (run, ran, constructing) =
        >>=-eq-ok (replayed h cap s i dossier research reason) _ passed in
      let (portfolio, made, later) =
        >>=-eq-ok
          (cap.construct_portfolio (with_artifact h cap s a) run dossier memory s.recorded_at) _
          constructing in
      supplied-decreases s t _ later refl
        (omega (arith, count-none s.command.portfolio_construction lacks))

  publish-decreases :
      (s t : LoopState) (made : Result Publication) (replayed : Option DecisionCheckpoint)
      → is_none s.command.decision_publication ≡ true
      → publish h cap s made replayed ≡ ok (continue_with t)
      → measure t < measure s
  publish-decreases s t made (some d) lacks passed =
      supplied-decreases s t _ passed refl
        (omega (arith, count-none s.command.decision_publication lacks))
  publish-decreases s t made none lacks passed =
      let (p, published, later) = >>=-eq-ok made _ passed in
      supplied-decreases s t _ later refl
        (omega (arith, count-none s.command.decision_publication lacks))

  publication_round-decreases :
      (s t : LoopState) (i : PinnedRunIdentity) (dossier research : ResearchCheckpoint)
      (portfolio : PortfolioCheckpoint) (reason : Option NoActionReason)
      → is_none s.command.decision_publication ≡ true
      → publication_round h cap s i dossier research portfolio reason ≡ ok (continue_with t)
      → measure t < measure s
  unfolding publication_round
  publication_round-decreases s t i dossier research portfolio reason lacks passed =
      publish-decreases s t (cap.publish_decision i dossier research portfolio reason)
        (cap.replay_publication i.run_id s.command.request.session) lacks passed

  finish_with-reports :
      (s t : LoopState) (r : AdvanceReport)
      → (cap.validate_receipt s.command r >>= λ x. ok (report x)) ≡ ok (continue_with t)
      → measure t < measure s
  finish_with-reports s t r passed =
      let (x, validated, later) = >>=-eq-ok (cap.validate_receipt s.command r) _ passed in cc

  perform-decreases :
      (s t : LoopState) (d : AdvanceDecision)
      → is_due s.command d ≡ true
      → perform h cap s d ≡ ok (continue_with t)
      → measure t < measure s
  unfolding perform
  perform-decreases s t (AdvanceDecision.refuse d) due e = finish_with-reports s t _ e
  perform-decreases s t (AdvanceDecision.append_conflict c r) due e = finish_with-reports s t _ e
  perform-decreases s t (AdvanceDecision.append_completed x r) due e = finish_with-reports s t _ e
  perform-decreases s t (AdvanceDecision.return_completed r) due e = finish_with-reports s t _ e
  perform-decreases s t (AdvanceDecision.append_event x a) due e =
      continue_appended-decreases s t x a due e
  perform-decreases s t (AdvanceDecision.perform_evidence_capture i x) due e =
      capture_round-decreases s t i x due e
  perform-decreases s t (AdvanceDecision.perform_attention_selection i x y l) due e =
      attention_round-decreases s t i x y l due e
  perform-decreases s t (AdvanceDecision.perform_dossier_build i x y a) due e =
      dossier_round-decreases s t y a due e
  perform-decreases s t (AdvanceDecision.perform_research i x a) due e =
      research_round-decreases s t x a due e
  perform-decreases s t (AdvanceDecision.perform_memory_update i x a) due e =
      memory_round-decreases s t x a due e
  perform-decreases s t (AdvanceDecision.perform_portfolio_construction i x y z a n) due e =
      portfolio_round-decreases s t i x y z a n due e
  perform-decreases s t (AdvanceDecision.perform_decision_publication i x y z n) due e =
      publication_round-decreases s t i x y z n due e

  pub round-decreases :
      (s t : LoopState) → round h cap s ≡ ok (continue_with t) → measure t < measure s
  unfolding round
  round-decreases s t e =
      let (d, decided, performed) =
        >>=-eq-ok (decide_advance h s.history (advance_command s.command) s.attempt s.recorded_at) _
          e in
      perform-decreases s t d
        (decide_advance-due h s.history s.command s.recorded_at s.attempt d decided) performed
