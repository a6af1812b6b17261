-- ===== src/Lifecycle/Stream/Steps.antt =====
-- How `_reconstruct_stream` of domain/lifecycle.py takes one more event, and one event less.
use agentic_investment_os.Prelude.{
  ℕ, suc, ◌+◌, ◌<◌, ◌≡◌, refl, ap, ◌∙◌, subst, true, ◌||◌, not, Option, none, some, List, [], ◌∷◌,
  ◌++◌, length, ltb, ok, >>=-eq-ok, arith, ◌==◌, Bool-cases, inl, inr,
}
use agentic_investment_os.Lifecycle.Command.{Fingerprints}
use agentic_investment_os.Lifecycle.Stream.Order.{SequenceEntry, entry_at}
use agentic_investment_os.Lifecycle.Stream.Events.{
  LifecycleEvent, LifecycleProgress, Checkpoints, no_checkpoints, observe,
}
use agentic_investment_os.Lifecycle.Stream.Checks.{shape_is_valid, facts_are_consistent, is_pinned}
use agentic_investment_os.Lifecycle.Stream.Reconstruct.{
  check_at, check_event, check_events, identity_is_valid, last_event, sequence_length,
  reconstruct_stream,
}

-- What an event that passes the loop's checks at some position is known to be.
pub record IsChecked (h : Fingerprints) (first : LifecycleEvent) (n : ℕ) (c : Checkpoints)
    (e : LifecycleEvent) (d : Checkpoints) : Type 0 where
  pub sequence_entry : SequenceEntry
  pub entry_found : entry_at n ≡ some sequence_entry
  pub in_sequence : (e.sequence == n) ≡ true
  pub pinned : is_pinned first e ≡ true
  pub shaped : shape_is_valid e sequence_entry ≡ true
  pub consistent :
      facts_are_consistent h first.pinned_run_identity e (observe sequence_entry e c) ≡ true
  pub observed : observe sequence_entry e c ≡ d

module _ (h : Fingerprints) (first : LifecycleEvent) where
  check_at-IsChecked :
      (n : ℕ) (c : Checkpoints) (e : LifecycleEvent) (d : Checkpoints) (s : Option SequenceEntry)
      → entry_at n ≡ s
      → check_at h first n c e s ≡ ok d
      → IsChecked h first n c e d
  check_at-IsChecked n c e d none found passed = cc
  check_at-IsChecked n c e d (some s) found passed = record {
    sequence_entry = s;
    entry_found = found;
    in_sequence = ground (arith, passed);
    pinned = ground (arith, passed);
    shaped = ground (arith, passed);
    consistent = ground (arith, passed);
    observed = ground (arith, passed);
  }

  pub check_event-IsChecked :
      (n : ℕ) (c : Checkpoints) (e : LifecycleEvent) (d : Checkpoints)
      → check_event h first n c e ≡ ok d
      → IsChecked h first n c e d
  unfolding check_event
  check_event-IsChecked n c e d passed = check_at-IsChecked n c e d (entry_at n) refl passed

  pub IsChecked-check_event :
      {n : ℕ} {c : Checkpoints} {e : LifecycleEvent} {d : Checkpoints}
      → IsChecked h first n c e d
      → check_event h first n c e ≡ ok d
  unfolding check_event
  IsChecked-check_event w =
      rw w.entry_found (ground (arith, w.in_sequence, w.pinned, w.shaped, w.consistent, w.observed))

  -- One more event that passes
  pub check_events-snoc :
      (n : ℕ) (c : Checkpoints) (es : List LifecycleEvent) (e : LifecycleEvent) {d f : Checkpoints}
      → check_events h first n c es ≡ ok d
      → check_event h first (n + length es) d e ≡ ok f
      → check_events h first n c (es ++ e ∷ []) ≡ ok f
  unfolding check_events
  check_events-snoc n c [] e so_far last = ground (arith, so_far, last)
  check_events-snoc n c (x ∷ es) e so_far last =
      let (d, here, later) = >>=-eq-ok (check_event h first n c x) _ so_far in
      let shifted = check_events-snoc (suc n) d es e later (ground (arith, last)) in rw here shifted

  -- A property of the checkpoints that every event preserves
  pub check_events-preserve :
      (P : ℕ → Checkpoints → Type 0)
      → ((n : ℕ) (c : Checkpoints) (e : LifecycleEvent) (d : Checkpoints)
          → IsChecked h first n c e d
          → P n c
          → P (suc n) d)
      → (n : ℕ) (c : Checkpoints) (es : List LifecycleEvent) (d : Checkpoints)
      → check_events h first n c es ≡ ok d
      → P n c
      → P (n + length es) d
  unfolding check_events
  check_events-preserve P step n c [] d passed start =
      let same : c ≡ d = ground (arith, passed) in
      let index : n ≡ n + 0 = omega arith in subst (λ m. P m d) index (subst (P n) same start)
  check_events-preserve P step n c (x ∷ es) d passed start =
      let (f, here, later) = >>=-eq-ok (check_event h first n c x) _ passed in
      let next = step n c x f (check_event-IsChecked n c x f here) start in
      let last = check_events-preserve P step (suc n) f es d later next in
      let index : suc n + length es ≡ n + suc (length es) = omega arith in
      subst (λ m. P m d) index last

module _ (h : Fingerprints) (first : LifecycleEvent) where
  -- What a reconstructed stream is known to be.
  pub record IsReconstructed (rest : List LifecycleEvent) (p : LifecycleProgress) : Type 0 where
    pub identified : identity_is_valid h first ≡ true
    pub bounded : length rest < sequence_length
    pub checked : check_events h first 0 no_checkpoints (first ∷ rest) ≡ ok p.checkpoints
    pub own_request : p.request ≡ first.request
    pub own_identity : p.pinned_run_identity ≡ first.pinned_run_identity
    pub own_phase : p.completed_phase ≡ (last_event first rest).completed_phase
    pub own_sequence : p.sequence ≡ length rest

  abbrev progress : List LifecycleEvent → Checkpoints → LifecycleProgress
  progress rest c = record {
    request = first.request;
    pinned_run_identity = first.pinned_run_identity;
    completed_phase = (last_event first rest).completed_phase;
    sequence = length rest;
    checkpoints = c;
  }

  pub reconstruct_stream-IsReconstructed :
      (rest : List LifecycleEvent) (p : LifecycleProgress)
      → reconstruct_stream h first rest ≡ ok p
      → IsReconstructed rest p
  unfolding reconstruct_stream
  reconstruct_stream-IsReconstructed rest p e =
      elim (Bool-cases
        (not (identity_is_valid h first) || ltb sequence_length (length (first ∷ rest)))) [
          | inl refused ↦ absurd (ground (arith, e, refused))
          | inr admitted ↦
              let loop : (c : Checkpoints) × (check_events h first 0 no_checkpoints (first ∷ rest)
                    ≡ ok c)
                  × (ok (progress rest c) ≡ ok p) =
                >>=-eq-ok (check_events h first 0 no_checkpoints (first ∷ rest)) _
                  (ground (arith, e, admitted)) in
              let (c, passed, made) = loop in
              let same : c ≡ p.checkpoints = ground (arith, made) in
              record {
                identified = ground (arith, admitted);
                bounded = ground (arith, admitted);
                checked = passed ∙ ap ok same;
                own_request = ground (arith, made);
                own_identity = ground (arith, made);
                own_phase = ground (arith, made);
                own_sequence = ground (arith, made);
              }
        ]

  pub IsReconstructed-reconstruct_stream :
      {rest : List LifecycleEvent} {p : LifecycleProgress}
      → IsReconstructed rest p
      → reconstruct_stream h first rest ≡ ok p
  unfolding reconstruct_stream
  IsReconstructed-reconstruct_stream {rest} {p} w = rw w.checked (
      ground (
        arith, w.identified, w.bounded, w.own_request, w.own_identity, w.own_phase, w.own_sequence,
      ))
