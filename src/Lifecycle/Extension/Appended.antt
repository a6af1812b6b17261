-- ===== src/Lifecycle/Extension/Appended.antt =====
-- Events that `_append_next_event` of domain/lifecycle.py appends to a reconstructed stream.
use agentic_investment_os.Prelude.{
  ℕ, ◌+◌, ◌≡◌, refl, subst, Bool, true, false, ◌&&◌, Option, none, some, String, ok, >>=-eq-ok,
  arith, Option-cases, inl, inr, eq_refl,
}
use agentic_investment_os.Temporal.{UtcInstant}
use agentic_investment_os.Lifecycle.Checkpoint.{LifecyclePhase}
use agentic_investment_os.Lifecycle.Command.{AdvanceCommand, UniverseSnapshot, Fingerprints}
use agentic_investment_os.Lifecycle.Stream
use agentic_investment_os.Lifecycle.Stream.{
  LifecycleEvent, LifecycleProgress, SequenceEntry, IsEntry, entry_at, shape_is_valid, present,
  same, no_artifacts, snapshot_fits, facts_are_consistent, publication_is_consistent, observe,
  is_phase, same_phase, phase_number,
}
use agentic_investment_os.Lifecycle.Completed.{AdvanceRecovery}
use agentic_investment_os.Lifecycle.History.{LifecycleHistory, complete_capture}
use agentic_investment_os.Lifecycle.Decision.{
  AdvanceDecision, append_event, append_completed, finish, append_at, append_step, next_event,
  selected_artifact, done_checkpoint, published_checkpoint, early_return, append_checked,
  published_id, append_plain, append_attention, append_memory, append_portfolio, append_decision,
  capture_effect, attention_effect, dossier_effect, research_effect, memory_effect,
  portfolio_effect, publication_effect, refuse_effect,
}

-- The effect of a phase is there, and has the outcome that its event carries.
abbrev pub is_ready : AdvanceCommand → Option LifecyclePhase → Bool
is_ready c (some LifecyclePhase.capture_evidence) = complete_capture c.evidence_capture
is_ready c (some LifecyclePhase.select_attention) =
    present (selected_artifact c.attention_selection)
is_ready c (some LifecyclePhase.build_dossiers) = present (done_checkpoint c.dossier_build)
is_ready c (some LifecyclePhase.run_research) = present (done_checkpoint c.research_run)
is_ready c (some LifecyclePhase.update_memory) =
    present (done_checkpoint c.memory_update)
    && same (no_artifacts (done_checkpoint c.memory_update)) (present c.no_action_reason)
is_ready c (some LifecyclePhase.construct_portfolio) = present c.portfolio_construction
is_ready c (some LifecyclePhase.publish_decision) =
    present (published_checkpoint c.decision_publication)
is_ready c _ = true

pub next_event-shape :
    (h : Fingerprints) (c : AdvanceCommand) (n : ℕ) (kind : _) (phase : Option LifecyclePhase)
    (prepares publishes : Bool) (at : UtcInstant) (published : Option String)
    → IsEntry n (Stream.entry kind phase prepares publishes)
    → is_ready c phase ≡ true
    → present published ≡ publishes
    → shape_is_valid
        (next_event h c n (Stream.entry kind phase prepares publishes) at published)
        (Stream.entry kind phase prepares publishes)
      ≡ true
unfolding shape_is_valid next_event
next_event-shape h c n kind phase prepares publishes at published entry ready id =
    ground (arith, entry.own_phase, ready, id, entry.prepares)

-- The event that a decision appends
abbrev pub appended : AdvanceDecision → Option LifecycleEvent
appended (append_event e attempt) = some e
appended (append_completed e receipt) = some e
appended _ = none

module _ (h : Fingerprints) (history : LifecycleHistory) (c : AdvanceCommand) (at : UtcInstant)
    (p : LifecycleProgress) where
  pub ready_lem :
      (phase : Option LifecyclePhase) (recovery : AdvanceRecovery) (e : LifecycleEvent)
      (d : AdvanceDecision)
      → early_return history c at h p phase ≡ ok none
      → append_checked h p at history c recovery e phase ≡ ok d
      → is_ready c phase ≡ true
  unfolding early_return capture_effect attention_effect dossier_effect research_effect
      memory_effect portfolio_effect publication_effect refuse_effect append_checked append_memory
  ready_lem phase recovery e d early checked = ground (arith, early, checked)

  published_id-consistent :
      (publishes : Bool) (prepared : Option UniverseSnapshot) (published : Option String)
      → p.checkpoints.universe_snapshot ≡ prepared
      → published_id p publishes ≡ ok published
      → publication_is_consistent published p.checkpoints.universe_snapshot ≡ true
  unfolding published_id
  published_id-consistent false prepared published e id = ground (arith, id)
  published_id-consistent true none published e id = ground (arith, e, id)
  published_id-consistent true (some s) published e id =
      ground (arith, e, id, eq_refl s.snapshot_id)

  pub consistent_lem :
      (s : SequenceEntry) (recovery : AdvanceRecovery) (published : Option String)
      (d : AdvanceDecision)
      → IsEntry (p.sequence + 1) s
      → snapshot_fits p.pinned_run_identity c.universe_snapshot ≡ true
      → published_id p s.publishes_snapshot ≡ ok published
      → is_ready c s.phase ≡ true
      → append_checked h p at history c recovery
          (next_event h c (p.sequence + 1) s at published)
          s.phase
        ≡ ok d
      → facts_are_consistent h p.pinned_run_identity
          (next_event h c (p.sequence + 1) s at published)
          (observe s (next_event h c (p.sequence + 1) s at published) p.checkpoints)
        ≡ true
  unfolding facts_are_consistent next_event observe published_id append_checked append_attention
      append_memory append_portfolio append_decision append_plain
  consistent_lem s recovery published d entry fits id ready checked =
      let consistent =
        published_id-consistent s.publishes_snapshot p.checkpoints.universe_snapshot published refl
          id in
      ground (arith, entry, fits, id, ready, checked, consistent)

  early_return-appended :
      (phase : Option LifecyclePhase) (d : AdvanceDecision)
      → early_return history c at h p phase ≡ ok (some d)
      → appended d ≡ none
  unfolding early_return capture_effect attention_effect dossier_effect research_effect
      memory_effect portfolio_effect publication_effect refuse_effect
  early_return-appended phase d early = ground (arith, early)

  append_checked-appended :
      (phase : Option LifecyclePhase) (recovery : AdvanceRecovery) (made e : LifecycleEvent)
      (d : AdvanceDecision)
      → append_checked h p at history c recovery made phase ≡ ok d
      → appended d ≡ some e
      → made ≡ e
  unfolding append_checked append_attention append_memory append_portfolio append_decision
      append_plain finish
  append_checked-appended phase recovery made e d checked own = ground (arith, checked, own)

  -- What an event that was appended is known to be.
  pub record IsAppended (recovery : AdvanceRecovery) (d : AdvanceDecision) (e : LifecycleEvent)
      : Type 0 where
    pub sequence_entry : SequenceEntry
    pub published : Option String
    pub entry_found : entry_at (p.sequence + 1) ≡ some sequence_entry
    pub no_return : early_return history c at h p sequence_entry.phase ≡ ok none
    pub named : published_id p sequence_entry.publishes_snapshot ≡ ok published
    pub made : next_event h c (p.sequence + 1) sequence_entry at published ≡ e
    pub checked : append_checked h p at history c recovery e sequence_entry.phase ≡ ok d

  pub append_at-IsAppended :
      (recovery : AdvanceRecovery) (s : Option SequenceEntry) (d : AdvanceDecision)
      (e : LifecycleEvent)
      → entry_at (p.sequence + 1) ≡ s
      → append_at h p at history c recovery s ≡ ok d
      → appended d ≡ some e
      → IsAppended recovery d e
  unfolding append_at append_step
  append_at-IsAppended recovery none d e found passed own = cc
  append_at-IsAppended recovery (some s) d e found passed own =
      let (early, returned, step) = >>=-eq-ok (early_return history c at h p s.phase) _ passed in
      elim (Option-cases early) [
        | inl absent ↦
            let step' : append_step h p at history c recovery s none ≡ ok d =
              ground (arith, step, absent) in
            let (published, named, checked) =
              >>=-eq-ok (published_id p s.publishes_snapshot) _ step' in
            let made =
              append_checked-appended s.phase recovery
                (next_event h c (p.sequence + 1) s at published) e d checked own in
            record {
              sequence_entry = s;
              published = published;
              entry_found = found;
              no_return = ground (arith, returned, absent);
              named = named;
              made = made;
              checked =
                  subst (λ x. append_checked h p at history c recovery x s.phase ≡ ok d) made
                    checked;
            }
        | inr (other, present_) ↦
            absurd
              (ground (arith, step, present_, own, returned, early_return-appended s.phase other))
      ]
