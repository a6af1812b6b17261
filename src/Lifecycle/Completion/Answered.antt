-- ===== src/Lifecycle/Completion/Answered.antt =====
-- Repeated requests of domain/lifecycle.py whose run is complete.
use agentic_investment_os.Prelude.{
  suc, ◌≡◌, ◌≤◌, ap, ◌∙◌, refl, true, Option, none, some, List, ok, arith, is_none,
}
use agentic_investment_os.Temporal.{UtcInstant}
use agentic_investment_os.Lifecycle.Checkpoint.{
  NoActionReason, EvidenceCaptureCheckpoint, ResearchCheckpoint,
}
use agentic_investment_os.Lifecycle.Portfolio.{PortfolioCheckpoint, is_refused}
use agentic_investment_os.Lifecycle.Command.{
  UniverseSnapshot, AttentionArtifact, AdvanceCommand, Fingerprints,
}
use agentic_investment_os.Lifecycle.Stream.{
  LifecycleEvent, LifecycleProgress, IsGathered, reconstruct_stream, reconstruct_stream-IsGathered,
  or_else, present, phase_number, SequenceEntry, entry_at, entry_at_lem,
}
use agentic_investment_os.Lifecycle.Completed.{
  AdvanceRecovery, CompletedReceipt, last_phase, advanced_receipt,
}
use agentic_investment_os.Lifecycle.History.{LifecycleHistory, is_complete, find_progress}
use agentic_investment_os.Lifecycle.Decision.{
  AdvanceAttempt, return_completed, completed_receipt, advance_matches_progress,
}
use agentic_investment_os.Lifecycle.Decide.{
  return_complete, reason_of, decide_with_stream, decide_valid_advance, final_recovery,
}
use agentic_investment_os.Lifecycle.Extension.Phases.{reconstruct_stream-in_order, phase_number_inj}
use agentic_investment_os.Lifecycle.Completion.Admission.{
  checkpoints_are_valid, clock_is_current, receipt_lem,
}

-- What the receipt of a complete stream reads of it.
record IsFinal (h : Fingerprints) (p : LifecycleProgress) : Type 0 where
  snapshot : UniverseSnapshot
  capture : EvidenceCaptureCheckpoint
  artifact : AttentionArtifact
  dossier : ResearchCheckpoint
  research : ResearchCheckpoint
  memory : ResearchCheckpoint
  portfolio : PortfolioCheckpoint
  snapshot_found : p.checkpoints.universe_snapshot ≡ some snapshot
  capture_found : p.checkpoints.evidence_capture ≡ some capture
  artifact_found : p.checkpoints.attention_artifact ≡ some artifact
  dossier_found : p.checkpoints.dossier_checkpoint ≡ some dossier
  research_found : p.checkpoints.research_checkpoint ≡ some research
  memory_found : p.checkpoints.memory_checkpoint ≡ some memory
  portfolio_found : p.checkpoints.portfolio_checkpoint ≡ some portfolio
  decided : is_refused portfolio ≡ is_none p.checkpoints.decision_checkpoint

present-some {ℓ} : {A : Type ℓ} (o : Option A) → present o ≡ true → (a : A) × (o ≡ some a)
present-some none e = cc
present-some (some a) e = (a, refl)

module _ (h : Fingerprints) (p : LifecycleProgress)
    (g : IsGathered h p.pinned_run_identity (suc p.sequence) p.checkpoints)
    (late : 9 ≤ p.sequence) where
  complete-IsFinal :
      is_complete p ≡ true → phase_number p.completed_phase ≡ p.sequence → IsFinal h p
  unfolding is_complete
  complete-IsFinal complete phased =
      let (snapshot, found_s) =
        present-some p.checkpoints.universe_snapshot (ground (arith, late, g.has_snapshot)) in
      let (capture, found_c) =
        present-some p.checkpoints.evidence_capture (ground (arith, late, g.has_capture)) in
      let (artifact, found_a) =
        present-some p.checkpoints.attention_artifact (ground (arith, late, g.has_attention)) in
      let (dossier, found_d) =
        present-some p.checkpoints.dossier_checkpoint (ground (arith, late, g.has_dossier)) in
      let (research, found_r) =
        present-some p.checkpoints.research_checkpoint (ground (arith, late, g.has_research)) in
      let (memory, found_m) =
        present-some p.checkpoints.memory_checkpoint (ground (arith, late, g.has_memory)) in
      let (portfolio, found_p) =
        present-some p.checkpoints.portfolio_checkpoint (ground (arith, late, g.has_portfolio)) in
      record {
        snapshot = snapshot;
        capture = capture;
        artifact = artifact;
        dossier = dossier;
        research = research;
        memory = memory;
        portfolio = portfolio;
        snapshot_found = found_s;
        capture_found = found_c;
        artifact_found = found_a;
        dossier_found = found_d;
        research_found = found_r;
        memory_found = found_m;
        portfolio_found = found_p;
        decided = ground (arith, late, complete, phased, found_p, g.has_decision, g.decision_bound);
      }

abbrev final_reason : LifecycleProgress → Option NoActionReason
final_reason p =
    or_else p.checkpoints.no_action_reason (reason_of p.checkpoints.decision_checkpoint)

abbrev final_receipt :
    {h : Fingerprints} {p : LifecycleProgress}
    → IsFinal h p
    → AdvanceRecovery
    → UtcInstant
    → CompletedReceipt
final_receipt {h} {p} f recovery at =
    advanced_receipt p.pinned_run_identity f.snapshot recovery at f.capture f.artifact f.dossier
      f.research f.memory f.portfolio p.checkpoints.decision_checkpoint (final_reason p)

final-returned :
    (h : Fingerprints) (p : LifecycleProgress) (f : IsFinal h p) (attempt : AdvanceAttempt)
    (at : UtcInstant)
    → IsGathered h p.pinned_run_identity (suc p.sequence) p.checkpoints
    → 9 ≤ p.sequence
    → checkpoints_are_valid p.checkpoints.evidence_capture p.checkpoints.decision_checkpoint ≡ true
    → clock_is_current p at ≡ true
    → return_complete h p attempt at
      ≡ ok (return_completed (final_receipt f (final_recovery p attempt) at))
unfolding return_complete completed_receipt
final-returned h p f attempt at g late valid clock =
    let i = p.pinned_run_identity in
    let decision = p.checkpoints.decision_checkpoint in
    let recovery = final_recovery p attempt in
    let admitted =
      receipt_lem h i f.snapshot recovery at f.capture f.artifact f.dossier f.research f.memory
        f.portfolio decision p.checkpoints.no_action_reason (ground (arith, clock))
        (ground (arith, valid, f.capture_found))
        (ground (arith, g.capture_complete, f.capture_found))
        (ground (arith, g.artifact_bound, f.snapshot_found, f.capture_found, f.artifact_found))
        (ground (arith, clock, f.artifact_found)) f.decided (ground (arith, clock))
        (ground (arith, valid, f.capture_found))
        (ground (arith, g.portfolio_bound, f.portfolio_found))
        (ground (arith, g.portfolio_bound, f.portfolio_found))
        (ground (arith, late, g.has_reason, f.memory_found)) in
    simp
      (
        f.snapshot_found, f.capture_found, f.artifact_found, f.dossier_found, f.research_found,
        f.memory_found, f.portfolio_found, admitted,
      )
      refl

final-phase :
    (h : Fingerprints) (p : LifecycleProgress) (f : IsFinal h p)
    → IsGathered h p.pinned_run_identity (suc p.sequence) p.checkpoints
    → 9 ≤ p.sequence
    → is_complete p ≡ true
    → phase_number p.completed_phase ≡ p.sequence
    → some (last_phase (is_refused f.portfolio)) ≡ p.completed_phase
unfolding is_complete
final-phase h p f g late complete numbered =
    phase_number_inj (some (last_phase (is_refused f.portfolio))) p.completed_phase
      (ground (arith, late, complete, numbered, f.portfolio_found, f.decided, g.has_decision))

phased-number :
    (p : LifecycleProgress) (s : SequenceEntry)
    → p.completed_phase ≡ s.phase
    → entry_at p.sequence ≡ some s
    → phase_number p.completed_phase ≡ p.sequence
phased-number p s phased found =
    ap phase_number phased ∙ (entry_at_lem p.sequence s found).own_phase

complete-late :
    (p : LifecycleProgress)
    → is_complete p ≡ true
    → phase_number p.completed_phase ≡ p.sequence
    → 9 ≤ p.sequence
unfolding is_complete
complete-late p complete numbered = ground (arith, complete, numbered)

-- A request that repeats one whose reconstructed stream is complete is answered with the receipt of
-- the run, with its identity, its last phase and its decision, and nothing is appended; the clock is
-- not behind the run, and the checkpoints passed their constructors.
pub complete-answered :
    (h : Fingerprints) (first : LifecycleEvent) (rest : List LifecycleEvent) (p : LifecycleProgress)
    (history : LifecycleHistory) (ps : List LifecycleProgress) (c : AdvanceCommand)
    (attempt : AdvanceAttempt) (at : UtcInstant)
    → reconstruct_stream h first rest ≡ ok p
    → is_complete p ≡ true
    → find_progress c.request.idempotency_key ps ≡ some p
    → advance_matches_progress p c ≡ true
    → checkpoints_are_valid p.checkpoints.evidence_capture p.checkpoints.decision_checkpoint ≡ true
    → clock_is_current p at ≡ true
    → (r : CompletedReceipt) × (decide_valid_advance h history ps c attempt at
        ≡ ok (return_completed r))
      × (r.pinned_run_identity ≡ p.pinned_run_identity)
      × (r.completed_phase ≡ p.completed_phase)
      × (r.decision_checkpoint ≡ p.checkpoints.decision_checkpoint)
unfolding decide_valid_advance decide_with_stream advanced_receipt
complete-answered h first rest p history ps c attempt at made complete found matches valid clock =
    let g = reconstruct_stream-IsGathered h first rest p made in
    let (own, bounded, s, entry, phased) = reconstruct_stream-in_order h first rest p made in
    let numbered = phased-number p s phased entry in
    let late = complete-late p complete numbered in
    let f = complete-IsFinal h p g late complete numbered in
    let r = final_receipt f (final_recovery p attempt) at in
    (
      r,
      rw (found, matches, complete) (final-returned h p f attempt at g late valid clock),
      refl,
      final-phase h p f g late complete numbered,
      refl,
    )
