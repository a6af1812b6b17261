-- ===== src/Lifecycle/Stream/Order.antt =====
-- `_EVENT_SEQUENCE` of domain/lifecycle.py, and tests on its members.
use agentic_investment_os.Prelude.{
  ℕ, ◌-◌, ◌<◌, ◌≡◌, arith, Bool, true, false, Option, none, some, List, [], ◌∷◌, ◌==◌,
  if◌then◌else◌,
}
use agentic_investment_os.Lifecycle.Checkpoint.{LifecyclePhase}

pub data LifecycleEventKind : Type 0 where
  advance_requested phase_completed run_inputs_pinned universe_snapshotted : LifecycleEventKind
  evidence_captured attention_selected dossiers_built research_run : LifecycleEventKind
  memory_updated portfolio_constructed decision_published : LifecycleEventKind

abbrev pub kind_number : LifecycleEventKind → ℕ
kind_number LifecycleEventKind.advance_requested = 0
kind_number LifecycleEventKind.phase_completed = 1
kind_number LifecycleEventKind.run_inputs_pinned = 2
kind_number LifecycleEventKind.universe_snapshotted = 3
kind_number LifecycleEventKind.evidence_captured = 4
kind_number LifecycleEventKind.attention_selected = 5
kind_number LifecycleEventKind.dossiers_built = 6
kind_number LifecycleEventKind.research_run = 7
kind_number LifecycleEventKind.memory_updated = 8
kind_number LifecycleEventKind.portfolio_constructed = 9
kind_number LifecycleEventKind.decision_published = 10

-- 0 stands for no phase.
abbrev pub phase_number : Option LifecyclePhase → ℕ
phase_number none = 0
phase_number (some LifecyclePhase.reconcile_prior_state) = 1
phase_number (some LifecyclePhase.pin_run_inputs) = 2
phase_number (some LifecyclePhase.snapshot_universe) = 3
phase_number (some LifecyclePhase.capture_evidence) = 4
phase_number (some LifecyclePhase.select_attention) = 5
phase_number (some LifecyclePhase.build_dossiers) = 6
phase_number (some LifecyclePhase.run_research) = 7
phase_number (some LifecyclePhase.update_memory) = 8
phase_number (some LifecyclePhase.construct_portfolio) = 9
phase_number (some LifecyclePhase.publish_decision) = 10
phase_number (some LifecyclePhase.await_execution) = 11

-- `==` and `is` on the members: their numbers differ.
abbrev pub same_kind : LifecycleEventKind → LifecycleEventKind → Bool
same_kind a b = kind_number a == kind_number b

abbrev pub same_phase : Option LifecyclePhase → Option LifecyclePhase → Bool
same_phase a b = phase_number a == phase_number b

abbrev pub is_phase : Option LifecyclePhase → LifecyclePhase → Bool
is_phase a p = same_phase a (some p)

-- An entry of `_EVENT_SEQUENCE`
pub record SequenceEntry : Type 0 where
  pub event_kind : LifecycleEventKind
  pub phase : Option LifecyclePhase
  pub prepares_snapshot : Bool
  pub publishes_snapshot : Bool

abbrev pub entry : LifecycleEventKind → Option LifecyclePhase → Bool → Bool → SequenceEntry
entry kind phase prepares publishes = record {
  event_kind = kind;
  phase = phase;
  prepares_snapshot = prepares;
  publishes_snapshot = publishes;
}

abbrev pub event_sequence : List SequenceEntry
event_sequence =
    entry LifecycleEventKind.advance_requested none false false
    ∷ entry LifecycleEventKind.phase_completed (some LifecyclePhase.reconcile_prior_state) false
        false
    ∷ entry LifecycleEventKind.run_inputs_pinned (some LifecyclePhase.pin_run_inputs) true false
    ∷ entry LifecycleEventKind.universe_snapshotted (some LifecyclePhase.snapshot_universe) false
        true
    ∷ entry LifecycleEventKind.evidence_captured (some LifecyclePhase.capture_evidence) false false
    ∷ entry LifecycleEventKind.attention_selected (some LifecyclePhase.select_attention) false false
    ∷ entry LifecycleEventKind.dossiers_built (some LifecyclePhase.build_dossiers) false false
    ∷ entry LifecycleEventKind.research_run (some LifecyclePhase.run_research) false false
    ∷ entry LifecycleEventKind.memory_updated (some LifecyclePhase.update_memory) false false
    ∷ entry LifecycleEventKind.portfolio_constructed (some LifecyclePhase.construct_portfolio) false
        false
    ∷ entry LifecycleEventKind.decision_published (some LifecyclePhase.publish_decision) false false
    ∷ []

abbrev pub get_elem? {ℓ} : {A : Type ℓ} → List A → ℕ → Option A
get_elem? [] n = none
get_elem? (x ∷ xs) n = let rest = get_elem? xs (n - 1) in if n == 0 then some x else rest

-- `_EVENT_SEQUENCE[sequence]`, with `none` past its end
unfoldable pub entry_at : ℕ → Option SequenceEntry
entry_at sequence = get_elem? event_sequence sequence

-- The entries are in the order of their phases.
pub record IsEntry (n : ℕ) (s : SequenceEntry) : Type 0 where
  pub bounded : n < 11
  pub own_kind : kind_number s.event_kind ≡ n
  pub own_phase : phase_number s.phase ≡ n
  pub prepares : s.prepares_snapshot ≡ (n == 2)
  pub publishes : s.publishes_snapshot ≡ (n == 3)

pub entry_at_lem : (n : ℕ) (s : SequenceEntry) → entry_at n ≡ some s → IsEntry n s
unfolding entry_at
entry_at_lem n s e = ground (arith, e)
