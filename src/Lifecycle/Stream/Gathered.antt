-- ===== src/Lifecycle/Stream/Gathered.antt =====
-- The checkpoints that `_reconstruct_stream` of domain/lifecycle.py has gathered after so many events.
use agentic_investment_os.Prelude.{
  ℕ, suc, ◌≡◌, ◌<◌, ◌+◌, length, subst, List, ◌∷◌, ok, Bool, true, false, ◌&&◌, not, Option, none,
  some, ltb, arith, str_eq, leb, ◌==◌,
}
use agentic_investment_os.Lifecycle.Checkpoint.{DecisionCheckpoint}
use agentic_investment_os.Lifecycle.Portfolio.{PortfolioCheckpoint, is_refused}
use agentic_investment_os.Lifecycle.Command.{PinnedRunIdentity, Fingerprints}
use agentic_investment_os.Lifecycle.Stream.Order.{
  SequenceEntry, IsEntry, entry_at_lem, phase_number,
}
use agentic_investment_os.Lifecycle.Stream.Events.{
  LifecycleEvent, LifecycleProgress, no_checkpoints, Checkpoints, observe, present,
}
use agentic_investment_os.Lifecycle.Stream.Checks.{
  no_artifacts, snapshot_is_consistent, capture_is_consistent, artifact_is_consistent,
  shape_is_valid, facts_are_consistent, portfolio_fits, decision_fits,
}
use agentic_investment_os.Lifecycle.Stream.Reconstruct.{reconstruct_stream}
use agentic_investment_os.Lifecycle.Stream.Steps.{
  IsChecked, check_events-preserve, reconstruct_stream-IsReconstructed,
}

-- The pinned policy and inputs, and an instant after the cutoff
abbrev portfolio_is_bound : PinnedRunIdentity → Option PortfolioCheckpoint → Bool
portfolio_is_bound i none = true
portfolio_is_bound i (some p) =
    str_eq p.policy_id i.portfolio_policy_hash
    && str_eq p.input_id i.portfolio_input_hash
    && leb i.evidence_cutoff.value p.recorded_at.value

-- A decision has a portfolio that was not refused before it.
abbrev decision_is_authorized : Option PortfolioCheckpoint → Option DecisionCheckpoint → Bool
decision_is_authorized portfolio none = true
decision_is_authorized none (some d) = false
decision_is_authorized (some p) (some d) =
    not (is_refused p) && leb p.recorded_at.value d.recorded_at.value

pub record IsGathered (h : Fingerprints) (i : PinnedRunIdentity) (n : ℕ) (c : Checkpoints)
    : Type 0 where
  pub has_snapshot : present c.universe_snapshot ≡ ltb 2 n
  pub has_capture : present c.evidence_capture ≡ ltb 4 n
  pub has_attention : present c.attention_artifact ≡ ltb 5 n
  pub has_dossier : present c.dossier_checkpoint ≡ ltb 6 n
  pub has_research : present c.research_checkpoint ≡ ltb 7 n
  pub has_memory : present c.memory_checkpoint ≡ ltb 8 n
  pub has_portfolio : present c.portfolio_checkpoint ≡ ltb 9 n
  pub has_decision : present c.decision_checkpoint ≡ ltb 10 n
  pub has_reason : present c.no_action_reason ≡ (ltb 8 n && no_artifacts c.memory_checkpoint)
  pub snapshot_fitting : snapshot_is_consistent i c.universe_snapshot ≡ true
  pub capture_complete : capture_is_consistent c.evidence_capture ≡ true
  pub artifact_bound :
      artifact_is_consistent h i c.universe_snapshot c.evidence_capture c.attention_artifact ≡ true
  pub portfolio_bound : portfolio_is_bound i c.portfolio_checkpoint ≡ true
  pub decision_bound : decision_is_authorized c.portfolio_checkpoint c.decision_checkpoint ≡ true

-- The facts of an event at a position
pub record IsShaped (n : ℕ) (e : LifecycleEvent) : Type 0 where
  pub phased : phase_number e.completed_phase ≡ n
  pub prepares : present e.prepared_universe_snapshot ≡ (n == 2)
  pub publishes : present e.published_universe_snapshot_id ≡ (n == 3)
  pub captures : present e.evidence_capture ≡ (n == 4)
  pub selects : present e.attention_artifact ≡ (n == 5)
  pub researches : present e.research_checkpoint ≡ (leb 6 n && leb n 8)
  pub constructs : present e.portfolio_checkpoint ≡ (n == 9)
  pub decides : present e.decision_checkpoint ≡ (n == 10)
  pub reasons : present e.no_action_reason ≡ ((n == 8) && no_artifacts e.research_checkpoint)

pub shape_is_valid-IsShaped :
    (n : ℕ) (e : LifecycleEvent) (s : SequenceEntry)
    → IsEntry n s
    → shape_is_valid e s ≡ true
    → IsShaped n e
unfolding shape_is_valid
shape_is_valid-IsShaped n e s entry shaped = record {
  phased = ground (arith, entry, shaped);
  prepares = ground (arith, entry, shaped);
  publishes = ground (arith, entry, shaped);
  captures = ground (arith, entry, shaped);
  selects = ground (arith, entry, shaped);
  researches = ground (arith, entry, shaped);
  constructs = ground (arith, entry, shaped);
  decides = ground (arith, entry, shaped);
  reasons = ground (arith, entry, shaped);
}

IsGathered-observe :
    (h : Fingerprints) (i : PinnedRunIdentity) (n : ℕ) (c : Checkpoints) (e : LifecycleEvent)
    (s : SequenceEntry)
    → IsEntry n s
    → IsShaped n e
    → facts_are_consistent h i e (observe s e c) ≡ true
    → IsGathered h i n c
    → IsGathered h i (suc n) (observe s e c)
unfolding observe facts_are_consistent portfolio_fits decision_fits
IsGathered-observe h i n c e s entry shape consistent g =
    let numbered : phase_number s.phase ≡ n = entry.own_phase in
    let bound : n < 11 = entry.bounded in
    record {
      has_snapshot = ground (arith, shape.prepares, g.has_snapshot);
      has_capture = ground (arith, shape.captures, g.has_capture);
      has_attention = ground (arith, shape.selects, g.has_attention);
      has_dossier = ground (arith, shape.researches, g.has_dossier, numbered);
      has_research = ground (arith, shape.researches, g.has_research, numbered);
      has_memory = ground (arith, shape.researches, g.has_memory, numbered);
      has_portfolio = ground (arith, shape.constructs, g.has_portfolio);
      has_decision = ground (arith, shape.decides, g.has_decision);
      has_reason = ground (arith, shape.reasons, shape.researches, g.has_reason, numbered);
      snapshot_fitting = ground (arith, consistent, g.snapshot_fitting);
      capture_complete = ground (arith, consistent, g.capture_complete);
      artifact_bound = ground (
        arith, consistent, shape.prepares, shape.captures, shape.selects, g.artifact_bound,
        g.has_attention,
      );
      portfolio_bound = ground (arith, consistent, g.portfolio_bound);
      decision_bound =
          ground
            (arith, consistent, shape.constructs, shape.decides, g.has_decision, g.decision_bound);
    }

pub IsGathered-step :
    (h : Fingerprints) (first : LifecycleEvent) (n : ℕ) (c : Checkpoints) (e : LifecycleEvent)
    (d : Checkpoints)
    → IsChecked h first n c e d
    → IsGathered h first.pinned_run_identity n c
    → IsGathered h first.pinned_run_identity (suc n) d
IsGathered-step h first n c e d w g =
    let entry = entry_at_lem n w.sequence_entry w.entry_found in
    let shape = shape_is_valid-IsShaped n e w.sequence_entry entry w.shaped in
    let i = first.pinned_run_identity in
    subst (IsGathered h i (suc n)) w.observed
      (IsGathered-observe h i n c e w.sequence_entry entry shape w.consistent g)

IsGathered-start : (h : Fingerprints) (i : PinnedRunIdentity) → IsGathered h i 0 no_checkpoints
IsGathered-start h i = ground arith

-- A reconstructed stream has gathered the checkpoints of its events.
pub reconstruct_stream-IsGathered :
    (h : Fingerprints) (first : LifecycleEvent) (rest : List LifecycleEvent) (p : LifecycleProgress)
    → reconstruct_stream h first rest ≡ ok p
    → IsGathered h p.pinned_run_identity (suc p.sequence) p.checkpoints
reconstruct_stream-IsGathered h first rest p e =
    let w = reconstruct_stream-IsReconstructed h first rest p e in
    let i = first.pinned_run_identity in
    let gathered =
      check_events-preserve h first (IsGathered h i) (IsGathered-step h first) 0 no_checkpoints
        (first ∷ rest) p.checkpoints w.checked (IsGathered-start h i) in
    let index : 0 + length (first ∷ rest) ≡ suc (length rest) = omega arith in
    rw (w.own_identity, w.own_sequence) (subst (λ n. IsGathered h i n p.checkpoints) index gathered)
