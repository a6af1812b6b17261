-- ===== src/Lifecycle/Status/Total.antt =====
-- `derive_lifecycle_status` of domain/lifecycle.py on the histories that `reconstruct_lifecycle` accepts.
use agentic_investment_os.Prelude.{
  ℕ, ◌+◌, ◌≤◌, ◌≡◌, refl, subst, Bool, true, false, inl, inr, Option-cases, Option, none, some,
  List, [], ◌∷◌, All, get_last?, ok, arith, >>=-eq-ok, Bool-cases, ltb, if◌then◌else◌,
}
use agentic_investment_os.Lifecycle.Checkpoint.{LifecyclePhase}
use agentic_investment_os.Lifecycle.Command.{Fingerprints}
use agentic_investment_os.Lifecycle.Stream.{
  LifecycleProgress, SequenceEntry, entry_at, entry_at_lem, phase_number, reconstruct_stream,
}
use agentic_investment_os.Lifecycle.Refusal.{DurableAdvanceRefusal}
use agentic_investment_os.Lifecycle.History.{
  LifecycleHistory, DurableAdvanceConflict, EventStream, group_events, reconstruct_streams,
  history_is_valid, reconstruct_lifecycle, is_complete, validate_conflicts, conflicts_from,
  find_progress,
}
use agentic_investment_os.Lifecycle.Extension.Phases.{reconstruct_stream-in_order}
use agentic_investment_os.Lifecycle.Status.Facts.{LifecycleStatus, later_of, latest, last_refusal}
use agentic_investment_os.Lifecycle.Status.Derive.{
  next_phase, status_of_stream, status_of_refusals, status_of_streams, derive_lifecycle_status,
  active_status, refusals_status,
}

-- A progress whose completed phase is the one at its sequence number
pub record IsInOrder (p : LifecycleProgress) : Type 0 where
  pub bounded : p.sequence ≤ 10
  pub own_phase : phase_number p.completed_phase ≡ p.sequence

reconstruct_stream-IsInOrder :
    (h : Fingerprints) (s : EventStream) (p : LifecycleProgress)
    → reconstruct_stream h s.first s.rest ≡ ok p
    → IsInOrder p
reconstruct_stream-IsInOrder h s p made =
    let (index, small, entry, found, phased) =
      reconstruct_stream-in_order h s.first s.rest p made in
    record {
      bounded = omega (arith, index, small);
      own_phase = rw phased ((entry_at_lem p.sequence entry found).own_phase);
    }

reconstruct_streams-IsInOrder :
    (h : Fingerprints) (ss : List EventStream) (ps : List LifecycleProgress)
    → reconstruct_streams h ss ≡ ok ps
    → All IsInOrder ps
unfolding reconstruct_streams
reconstruct_streams-IsInOrder h [] [] made = tt
reconstruct_streams-IsInOrder h [] (p ∷ ps) made = absurd (ground arith)
reconstruct_streams-IsInOrder h (s ∷ ss) qs made =
    let (p, first, later) = >>=-eq-ok (reconstruct_stream h s.first s.rest) _ made in
    let (ps, others, all) = >>=-eq-ok (reconstruct_streams h ss) _ later in
    let same : p ∷ ps ≡ qs = ground (arith, all) in
    subst (All IsInOrder) same
      (reconstruct_stream-IsInOrder h s p first, reconstruct_streams-IsInOrder h ss ps others)

pub reconstructed-IsInOrder :
    (h : Fingerprints) (history : LifecycleHistory) (ps : List LifecycleProgress)
    → reconstruct_lifecycle h history ≡ ok ps
    → All IsInOrder ps
unfolding reconstruct_lifecycle
reconstructed-IsInOrder h history ps made =
    let (qs, streams, accepted) =
      >>=-eq-ok (reconstruct_streams h (group_events [] history.events)) _ made in
    let same : qs ≡ ps = ground (arith, accepted) in
    subst (All IsInOrder) same
      (reconstruct_streams-IsInOrder h (group_events [] history.events) qs streams)

later_of-IsInOrder :
    (p q : LifecycleProgress) → IsInOrder p → IsInOrder q → IsInOrder (later_of p q)
later_of-IsInOrder p q a b =
    if_rule IsInOrder (ltb p.request.session.trading_date q.request.session.trading_date) q p b a
  where
    if_rule :
        (P : LifecycleProgress → Type 0) (t : Bool) (x y : LifecycleProgress)
        → P x
        → P y
        → P (if t then x else y)
    if_rule P true x y u v = u
    if_rule P false x y u v = v

latest-IsInOrder :
    (p : LifecycleProgress) (ps : List LifecycleProgress)
    → IsInOrder p
    → All IsInOrder ps
    → IsInOrder (latest p ps)
unfolding latest
latest-IsInOrder p [] a all = a
latest-IsInOrder p (q ∷ qs) a all =
    latest-IsInOrder (later_of p q) qs (later_of-IsInOrder p q a all.0) all.1

pub entry_at-some : (n : ℕ) → n ≤ 10 → (s : SequenceEntry) × (entry_at n ≡ some s)
unfolding entry_at
entry_at-some n small = elim (Option-cases (entry_at n)) [
  | inl missing ↦ absurd (ground (arith, missing, small))
  | inr found ↦ found
]

pub next_phase-passes :
    (p : LifecycleProgress)
    → IsInOrder p
    → (next : Option LifecyclePhase) × (next_phase p ≡ ok next)
unfolding next_phase is_complete
next_phase-passes p ordered = elim (Bool-cases (is_complete p)) [
  | inl complete ↦ (none, ground (arith, complete))
  | inr ongoing ↦
      let below : p.sequence + 1 ≤ 10 =
        ground (arith, ongoing, ordered.bounded, ordered.own_phase) in
      let (s, found) = entry_at-some (p.sequence + 1) below in
      (s.phase, ground (arith, ongoing, found))
]

status_of_stream-passes :
    (history : LifecycleHistory) (ps : List LifecycleProgress) (p : LifecycleProgress)
    (r : Option DurableAdvanceRefusal)
    → IsInOrder p
    → (s : LifecycleStatus) × (status_of_stream history ps p r ≡ ok s)
unfolding status_of_stream
status_of_stream-passes history ps p none ordered =
    let (next, found) = next_phase-passes p ordered in
    (active_status history ps p next, rw found refl)
status_of_stream-passes history ps p (some r) ordered = (_, refl)

get_last?-some :
    (r : DurableAdvanceRefusal) (rs : List DurableAdvanceRefusal)
    → (x : DurableAdvanceRefusal) × (get_last? (r ∷ rs) ≡ some x)
get_last?-some r [] = (r, refl)
get_last?-some r (x ∷ xs) = get_last?-some x xs

status_of_refusals-passes :
    (rs : List DurableAdvanceRefusal) (cs : List DurableAdvanceConflict)
    → validate_conflicts cs [] ≡ true
    → (s : LifecycleStatus) × (status_of_refusals rs cs ≡ ok s)
unfolding status_of_refusals validate_conflicts conflicts_from find_progress
status_of_refusals-passes [] [] valid = (_, refl)
status_of_refusals-passes [] (c ∷ cs) valid = absurd (ground (arith, valid))
status_of_refusals-passes (r ∷ rs) cs valid =
    let (x, last) = get_last?-some r rs in (refusals_status x, rw last refl)

-- If a history is reconstructed, its status is derived: neither `history.refusals[-1]` nor
-- `_EVENT_SEQUENCE[current.sequence + 1]` is out of range.
pub status_total :
    (h : Fingerprints) (history : LifecycleHistory) (ps : List LifecycleProgress)
    → reconstruct_lifecycle h history ≡ ok ps
    → (s : LifecycleStatus) × (derive_lifecycle_status h history ≡ ok s)
unfolding derive_lifecycle_status status_of_streams reconstruct_lifecycle history_is_valid
status_total h history ps made =
    let (qs, streams, accepted) =
      >>=-eq-ok (reconstruct_streams h (group_events [] history.events)) _ made in
    let same : qs ≡ ps = ground (arith, accepted) in
    let valid : validate_conflicts history.conflicts ps ≡ true = ground (arith, accepted, same) in
    let (s, derived) = from_streams ps (reconstructed-IsInOrder h history ps made) valid in
    (s, rw made derived)
  where
    from_streams :
        (ps : List LifecycleProgress)
        → All IsInOrder ps
        → validate_conflicts history.conflicts ps ≡ true
        → (s : LifecycleStatus) × (status_of_streams history ps ≡ ok s)
    from_streams [] all valid = status_of_refusals-passes history.refusals history.conflicts valid
    from_streams (p ∷ ps) all valid =
        status_of_stream-passes history (p ∷ ps) (latest p ps)
          (last_refusal (latest p ps).request.idempotency_key history.refusals)
          (latest-IsInOrder p ps all.0 all.1)
