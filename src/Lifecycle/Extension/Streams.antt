-- ===== src/Lifecycle/Extension/Streams.antt =====
-- Reconstructed streams of domain/lifecycle.py, from their first event on.
use agentic_investment_os.Prelude.{
  suc, ◌+◌, ◌≡◌, refl, sym, ap, ◌∙◌, subst, Bool, true, Option, some, List, [], ◌∷◌, ◌++◌, length,
  length-append, String, ok, arith, eq_iff, equal→≡, equal_refl, str_eq, ◌==◌,
}
use agentic_investment_os.Temporal.{UtcInstant}
use agentic_investment_os.Lifecycle.Command.{
  AdvanceCommand, AdvanceRequest, PinnedRunIdentity, Fingerprints, AdvanceRequest-discrete,
  PinnedRunIdentity-discrete, same_request, same_identity, stream_id,
}
use agentic_investment_os.Lifecycle.Stream.{
  LifecycleEvent, LifecycleProgress, Checkpoints, SequenceEntry, IsChecked, entry_at, entry_at_lem,
  snapshot_fits, facts_are_consistent, present, is_pinned, identity_is_valid, check_event,
  no_checkpoints, observe, reconstruct_stream, last_event, check_events-snoc, IsChecked-check_event,
  reconstruct_stream-IsReconstructed, IsReconstructed-reconstruct_stream,
}
use agentic_investment_os.Lifecycle.Completed.{AdvanceRecovery}
use agentic_investment_os.Lifecycle.History.{LifecycleHistory}
use agentic_investment_os.Lifecycle.Decision.{
  AdvanceDecision, append_next_event, append_checked, next_event, advance_matches_progress,
  published_id,
}
use agentic_investment_os.Lifecycle.Extension.Appended.{
  appended, IsAppended, append_at-IsAppended, ready_lem, consistent_lem, next_event-shape,
}

pub same_request_refl : (r : AdvanceRequest) → same_request r r ≡ true
unfolding same_request
same_request_refl r = equal_refl AdvanceRequest-discrete r

pub same_identity_refl : (i : PinnedRunIdentity) → same_identity i i ≡ true
unfolding same_identity
same_identity_refl i = equal_refl PinnedRunIdentity-discrete i

pub same_request→≡ : (r s : AdvanceRequest) → same_request r s ≡ true → r ≡ s
unfolding same_request
same_request→≡ r s e = equal→≡ AdvanceRequest-discrete r s e

pub same_identity→≡ : (i j : PinnedRunIdentity) → same_identity i j ≡ true → i ≡ j
unfolding same_identity
same_identity→≡ i j e = equal→≡ PinnedRunIdentity-discrete i j e

published_id-present :
    (p : LifecycleProgress) (publishes : Bool) (published : Option String)
    → published_id p publishes ≡ ok published
    → present published ≡ publishes
unfolding published_id
published_id-present p publishes published named = ground (arith, named)

last_event-snoc :
    (e : LifecycleEvent) (es : List LifecycleEvent) (f : LifecycleEvent)
    → last_event e (es ++ f ∷ []) ≡ f
last_event-snoc e [] f = refl
last_event-snoc e (x ∷ es) f = last_event-snoc x es f

abbrev pub extended : LifecycleProgress → LifecycleEvent → Checkpoints → LifecycleProgress
extended p e c = record {
  request = p.request;
  pinned_run_identity = p.pinned_run_identity;
  completed_phase = e.completed_phase;
  sequence = suc p.sequence;
  checkpoints = c;
}

module _ (h : Fingerprints) (first : LifecycleEvent) (rest : List LifecycleEvent) where
  -- One more event that passes the checks at its position
  reconstruct_stream-extended :
      (p : LifecycleProgress) (e : LifecycleEvent) (c : Checkpoints)
      → reconstruct_stream h first rest ≡ ok p
      → IsChecked h first (suc p.sequence) p.checkpoints e c
      → reconstruct_stream h first (rest ++ e ∷ []) ≡ ok (extended p e c)
  reconstruct_stream-extended p e c made w =
      let r = reconstruct_stream-IsReconstructed h first rest p made in
      let bounded = (entry_at_lem (suc p.sequence) w.sequence_entry w.entry_found).bounded in
      let passed : check_event h first (suc p.sequence) p.checkpoints e ≡ ok c =
        IsChecked-check_event h first w in
      let index : suc p.sequence ≡ 0 + length (first ∷ rest) = omega (arith, r.own_sequence) in
      IsReconstructed-reconstruct_stream h first (record {
        identified = r.identified;
        bounded = omega (arith, bounded, r.own_sequence, length-append {0} rest (e ∷ []));
        checked =
            check_events-snoc h first 0 no_checkpoints (first ∷ rest) e r.checked
              (subst (λ n. check_event h first n p.checkpoints e ≡ ok c) index passed);
        own_request = r.own_request;
        own_identity = r.own_identity;
        own_phase = rw (last_event-snoc first rest e) refl;
        own_sequence = omega (arith, r.own_sequence, length-append {0} rest (e ∷ []));
      })

module _ (h : Fingerprints) (first : LifecycleEvent) (c : AdvanceCommand)
    (history : LifecycleHistory) (p : LifecycleProgress) (recovery : AdvanceRecovery)
    (at : UtcInstant) where
  abbrev event_of : SequenceEntry → Option String → LifecycleEvent
  event_of s published = next_event h c (p.sequence + 1) s at published

  event-in_sequence :
      (s : SequenceEntry) (published : Option String)
      → ((event_of s published).sequence == p.sequence + 1) ≡ true
  unfolding next_event
  event-in_sequence s published = ground arith

  event-is_pinned :
      (s : SequenceEntry) (published : Option String)
      → first.stream_id ≡ stream_id h first.request
      → first.request ≡ c.request
      → first.pinned_run_identity ≡ c.pinned_run_identity
      → is_pinned first (event_of s published) ≡ true
  unfolding is_pinned next_event
  event-is_pinned s published own_stream own_request own_identity =
      let stream : stream_id h c.request ≡ first.stream_id =
        rw own_stream (ap (stream_id h) (sym own_request)) in
      let same_stream : str_eq (stream_id h c.request) first.stream_id ≡ true =
        (eq_iff (stream_id h c.request) first.stream_id).1 stream in
      let same_r : same_request c.request first.request ≡ true =
        rw own_request (same_request_refl c.request) in
      let same_i : same_identity c.pinned_run_identity first.pinned_run_identity ≡ true =
        rw own_identity (same_identity_refl c.pinned_run_identity) in
      ground (arith, same_stream, same_r, same_i)

  IsAppended-IsChecked :
      (d : AdvanceDecision) (e : LifecycleEvent)
      → first.stream_id ≡ stream_id h first.request
      → first.request ≡ c.request
      → first.pinned_run_identity ≡ c.pinned_run_identity
      → p.pinned_run_identity ≡ c.pinned_run_identity
      → snapshot_fits c.pinned_run_identity c.universe_snapshot ≡ true
      → (w : IsAppended h history c at p recovery d e)
      → IsChecked h first
          (p.sequence + 1)
          p.checkpoints
          e
          (observe w.sequence_entry e p.checkpoints)
  IsAppended-IsChecked d e own_stream own_request own_identity same_identity_ fits w =
      let s = w.sequence_entry in
      let made = event_of s w.published in
      let entry = entry_at_lem (p.sequence + 1) s w.entry_found in
      let ready = ready_lem h history c at p s.phase recovery e d w.no_return w.checked in
      let checked =
        subst (λ x. append_checked h p at history c recovery x s.phase ≡ ok d) (sym w.made)
          w.checked in
      let pinned_fits =
        subst (λ i. snapshot_fits i c.universe_snapshot ≡ true) (sym same_identity_) fits in
      let consistent =
        consistent_lem h history c at p s recovery w.published d entry pinned_fits w.named ready
          checked in
      let same_p = same_identity_ ∙ sym own_identity in
      subst (λ x. IsChecked h first (p.sequence + 1) p.checkpoints x (observe s x p.checkpoints))
        w.made
        (record {
          sequence_entry = s;
          entry_found = w.entry_found;
          in_sequence = event-in_sequence s w.published;
          pinned = event-is_pinned s w.published own_stream own_request own_identity;
          shaped =
              next_event-shape h c (p.sequence + 1) s.event_kind s.phase s.prepares_snapshot
                s.publishes_snapshot at w.published entry ready
                (published_id-present p s.publishes_snapshot w.published w.named);
          consistent =
              subst (λ i. facts_are_consistent h i made (observe s made p.checkpoints) ≡ true)
                same_p consistent;
          observed = refl;
        })

-- The stream of a reconstructed first event is that of its request.
reconstructed-stream :
    (h : Fingerprints) (first : LifecycleEvent)
    → identity_is_valid h first ≡ true
    → first.stream_id ≡ stream_id h first.request
unfolding identity_is_valid
reconstructed-stream h first valid =
    let same : str_eq first.stream_id (stream_id h first.request) ≡ true = ground (arith, valid) in
    (eq_iff first.stream_id (stream_id h first.request)).0 same

-- An event that `_append_next_event` has appended to a reconstructed stream, for a command that
-- matches the stream and whose snapshot has the pinned facts, is accepted when the stream is
-- reconstructed: the sequence is one more, and the completed phase is that of the event.
pub append-reconstructs :
    (h : Fingerprints) (first : LifecycleEvent) (rest : List LifecycleEvent) (p : LifecycleProgress)
    (history : LifecycleHistory) (c : AdvanceCommand) (recovery : AdvanceRecovery) (at : UtcInstant)
    (d : AdvanceDecision) (e : LifecycleEvent)
    → reconstruct_stream h first rest ≡ ok p
    → advance_matches_progress p c ≡ true
    → snapshot_fits c.pinned_run_identity c.universe_snapshot ≡ true
    → append_next_event h history p c recovery at ≡ ok d
    → appended d ≡ some e
    → (checkpoints : Checkpoints) × (reconstruct_stream h first (rest ++ e ∷ [])
        ≡ ok (extended p e checkpoints))
unfolding append_next_event advance_matches_progress
append-reconstructs h first rest p history c recovery at d e made matches fits decided own =
    let r = reconstruct_stream-IsReconstructed h first rest p made in
    let w =
      append_at-IsAppended h history c at p recovery (entry_at (p.sequence + 1)) d e refl decided
        own in
    let same_r = same_request→≡ p.request c.request (ground (arith, matches)) in
    let same_i =
      same_identity→≡ p.pinned_run_identity c.pinned_run_identity (ground (arith, matches)) in
    let checked =
      IsAppended-IsChecked h first c history p recovery at d e
        (reconstructed-stream h first r.identified) (sym r.own_request ∙ same_r)
        (sym r.own_identity ∙ same_i) same_i fits w in
    let index : p.sequence + 1 ≡ suc p.sequence = omega arith in
    let next = observe w.sequence_entry e p.checkpoints in
    (
      next,
      reconstruct_stream-extended h first rest p e next made
          (subst (λ n. IsChecked h first n p.checkpoints e next) index checked),
    )
