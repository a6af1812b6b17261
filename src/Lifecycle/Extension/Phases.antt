-- ===== src/Lifecycle/Extension/Phases.antt =====
-- The phases and the prefixes of reconstructed streams of domain/lifecycle.py.
use agentic_investment_os.Prelude.{
  ℕ, suc, ◌+◌, ◌≤◌, ◌≡◌, sym, ◌∙◌, subst, Option, some, List, [], ◌∷◌, length, ok, arith, >>=-eq-ok,
}
use agentic_investment_os.Lifecycle.Checkpoint.{LifecyclePhase}
use agentic_investment_os.Lifecycle.Command.{Fingerprints}
use agentic_investment_os.Lifecycle.Stream.{
  shape_is_valid-IsShaped, LifecycleEvent, LifecycleProgress, Checkpoints, SequenceEntry, entry_at,
  entry_at_lem, phase_number, check_event, check_events, check_event-IsChecked, no_checkpoints,
  last_event, reconstruct_stream, reconstruct_stream-IsReconstructed,
}

pub phase_number_inj : (a b : Option LifecyclePhase) → phase_number a ≡ phase_number b → a ≡ b
phase_number_inj a b e = ground (arith, e)

-- The last event of a stream has the phase of its position.
check_events-phase :
    (h : Fingerprints) (first : LifecycleEvent) (n : ℕ) (c : Checkpoints) (e : LifecycleEvent)
    (es : List LifecycleEvent) (d : Checkpoints)
    → check_events h first n c (e ∷ es) ≡ ok d
    → (s : SequenceEntry) × (entry_at (n + length es) ≡ some s)
      × ((last_event e es).completed_phase ≡ s.phase)
unfolding check_events
check_events-phase h first n c e [] d passed =
    let (f, here, later) = >>=-eq-ok (check_event h first n c e) _ passed in
    let w = check_event-IsChecked h first n c e f here in
    let index : n ≡ n + 0 = omega arith in
    let entry = entry_at_lem n w.sequence_entry w.entry_found in
    let shape = shape_is_valid-IsShaped n e w.sequence_entry entry w.shaped in
    (
      w.sequence_entry,
      subst (λ m. entry_at m ≡ some w.sequence_entry) index w.entry_found,
      phase_number_inj e.completed_phase w.sequence_entry.phase
          (shape.phased ∙ sym entry.own_phase),
    )
check_events-phase h first n c e (x ∷ es) d passed =
    let (f, here, later) = >>=-eq-ok (check_event h first n c e) _ passed in
    let (s, found, phased) = check_events-phase h first (suc n) f x es d later in
    let index : suc n + length es ≡ n + suc (length es) = omega arith in
    (s, subst (λ m. entry_at m ≡ some s) index found, phased)

-- A reconstructed stream has at most the eleven events of the event order, and its completed phase is
-- the one that the order has at its last sequence number.
pub reconstruct_stream-in_order :
    (h : Fingerprints) (first : LifecycleEvent) (rest : List LifecycleEvent) (p : LifecycleProgress)
    → reconstruct_stream h first rest ≡ ok p
    → (p.sequence ≡ length rest)
      × (length (first ∷ rest) ≤ 11)
      × (s : SequenceEntry) × (entry_at p.sequence ≡ some s)
      × (p.completed_phase ≡ s.phase)
reconstruct_stream-in_order h first rest p made =
    let r = reconstruct_stream-IsReconstructed h first rest p made in
    let (s, found, phased) =
      check_events-phase h first 0 no_checkpoints first rest p.checkpoints r.checked in
    let index : 0 + length rest ≡ p.sequence = omega (arith, r.own_sequence) in
    (
      r.own_sequence,
      omega (arith, r.bounded),
      s,
      subst (λ m. entry_at m ≡ some s) index found,
      r.own_phase ∙ phased,
    )
