-- ===== src/Lifecycle/Status/Active.antt =====
-- The status that `derive_lifecycle_status` of domain/lifecycle.py derives of an ongoing run.
use agentic_investment_os.Prelude.{
  ℕ, ◌+◌, ◌≤◌, ◌≡◌, refl, subst, ap, false, inl, inr, Option, none, some, List, [], ◌∷◌, All, ◌<◌,
  ◌≢◌, ◌++◌, eq_iff, str_eq, String, ok, arith, Bool-cases,
}
use agentic_investment_os.Lifecycle.Checkpoint.{LifecyclePhase}
use agentic_investment_os.Lifecycle.Command.{Fingerprints}
use agentic_investment_os.Lifecycle.Stream.{LifecycleProgress, entry_at_lem, phase_number}
use agentic_investment_os.Lifecycle.Refusal.{same_key, DurableAdvanceRefusal}
use agentic_investment_os.Lifecycle.History.{LifecycleHistory, reconstruct_lifecycle, is_complete}
use agentic_investment_os.Lifecycle.Status.Total.{
  IsInOrder, reconstructed-IsInOrder, entry_at-some, next_phase-passes,
}
use agentic_investment_os.Lifecycle.Status.Facts.{
  LifecycleStatus, LifecycleLiveness, later_of, latest_of, latest, last_refusal,
}
use agentic_investment_os.Lifecycle.Status.Derive.{
  next_phase, status_of_stream, status_of_streams, derive_lifecycle_status, active_status,
}

next_phase-number :
    (p : LifecycleProgress) (next : Option LifecyclePhase)
    → IsInOrder p
    → is_complete p ≡ false
    → next_phase p ≡ ok next
    → phase_number next ≡ phase_number p.completed_phase + 1
unfolding next_phase is_complete
next_phase-number p next ordered ongoing chosen =
    let below : p.sequence + 1 ≤ 10 = ground (arith, ongoing, ordered.bounded, ordered.own_phase) in
    let (s, found) = entry_at-some (p.sequence + 1) below in
    let same : s.phase ≡ next = ground (arith, ongoing, found, chosen) in
    let number = (entry_at_lem (p.sequence + 1) s found).own_phase in
    let counted : phase_number s.phase ≡ phase_number p.completed_phase + 1 =
      omega (arith, number, ordered.own_phase) in
    subst (λ x. phase_number x ≡ phase_number p.completed_phase + 1) same counted

active_phase-ongoing :
    (history : LifecycleHistory) (ps : List LifecycleProgress) (q : LifecycleProgress)
    (next : Option LifecyclePhase)
    → is_complete q ≡ false
    → (active_status history ps q next).active_phase ≡ next
unfolding is_complete
active_phase-ongoing history ps q next open_stream = ground (arith, open_stream)

All-at :
    (P : LifecycleProgress → Type 0) (before : List LifecycleProgress) (p : LifecycleProgress)
    (after : List LifecycleProgress)
    → All P (before ++ p ∷ after)
    → P p
All-at P [] p after all = all.0
All-at P (b ∷ before) p after all = All-at P before p after all.1

-- The trading date of a stream
abbrev pub date_of : LifecycleProgress → ℕ
date_of p = p.request.session.trading_date

latest-kept :
    (p : LifecycleProgress) (after : List LifecycleProgress)
    → All (λ q. date_of q ≤ date_of p) after
    → latest p after ≡ p
unfolding latest
latest-kept p [] bounds = refl
latest-kept p (q ∷ qs) bounds =
    let kept : later_of p q ≡ p = ground (arith, bounds.0) in rw kept (latest-kept p qs bounds.1)

latest-reached :
    (x : LifecycleProgress) (before : List LifecycleProgress) (p : LifecycleProgress)
    (after : List LifecycleProgress)
    → date_of x < date_of p
    → All (λ q. date_of q < date_of p) before
    → All (λ q. date_of q ≤ date_of p) after
    → latest x (before ++ p ∷ after) ≡ p
unfolding latest
latest-reached x [] p after less below bounds =
    let passed : later_of x p ≡ p = ground (arith, less) in
    rw (latest, passed) (latest-kept p after bounds)
latest-reached x (b ∷ before) p after less below bounds =
    let next : date_of (later_of x b) < date_of p = ground (arith, less, below.0) in
    latest-reached (later_of x b) before p after next below.1 bounds

latest_of-first :
    (before : List LifecycleProgress) (p : LifecycleProgress) (after : List LifecycleProgress)
    → All (λ q. date_of q < date_of p) before
    → All (λ q. date_of q ≤ date_of p) after
    → latest_of (before ++ p ∷ after) ≡ some p
latest_of-first [] p after below bounds = rw (latest-kept p after bounds) refl
latest_of-first (b ∷ before) p after below bounds =
    rw (latest-reached b before p after below.0 below.1 bounds) refl

status_of_streams-latest :
    (history : LifecycleHistory) (ps : List LifecycleProgress) (p : LifecycleProgress)
    → latest_of ps ≡ some p
    → status_of_streams history ps
      ≡ status_of_stream history ps p (last_refusal p.request.idempotency_key history.refusals)
unfolding status_of_streams
status_of_streams-latest history [] p found = absurd (ground (arith, found))
status_of_streams-latest history (x ∷ xs) p found =
    let same : latest x xs ≡ p = ground (arith, found) in rw same refl

last_refusal-none :
    (key : String) (rs : List DurableAdvanceRefusal)
    → All (λ r. r.idempotency_key ≢ some key) rs
    → last_refusal key rs ≡ none
unfolding last_refusal
last_refusal-none key [] others = refl
last_refusal-none key (r ∷ rs) others =
    let told : same_key r.idempotency_key (some key) ≡ false =
      other_key r.idempotency_key key others.0 in
    ground (arith, told, last_refusal-none key rs others.1)
  where
    other_key : (o : Option String) (key : String) → o ≢ some key → same_key o (some key) ≡ false
    other_key none key differs = refl
    other_key (some t) key differs = elim (Bool-cases (str_eq t key)) [
      | inl same ↦ absurd (differs (ap some ((eq_iff t key).0 same)))
      | inr other ↦ other
    ]

-- A history is reconstructed, and one of its streams has a later trading date than those before it and
-- no earlier one than those after it. If no refusal has the key of that stream and the stream is not
-- complete, the status that is derived is active, for the identity of that stream, and its phase is the
-- one after the last completed phase of the stream.
pub status_active :
    (h : Fingerprints) (history : LifecycleHistory) (before : List LifecycleProgress)
    (p : LifecycleProgress) (after : List LifecycleProgress)
    → reconstruct_lifecycle h history ≡ ok (before ++ p ∷ after)
    → All (λ q. date_of q < date_of p) before
    → All (λ q. date_of q ≤ date_of p) after
    → All (λ r. r.idempotency_key ≢ some p.request.idempotency_key) history.refusals
    → is_complete p ≡ false
    → (s : LifecycleStatus) × (derive_lifecycle_status h history ≡ ok s)
      × (s.liveness ≡ LifecycleLiveness.active)
      × (s.pinned_run_identity ≡ some p.pinned_run_identity)
      × (phase_number s.active_phase ≡ phase_number p.completed_phase + 1)
unfolding derive_lifecycle_status status_of_stream
status_active h history before p after made below bounds unrefused ongoing =
    let ps = before ++ p ∷ after in
    let ordered = All-at IsInOrder before p after (reconstructed-IsInOrder h history ps made) in
    let seen =
      status_of_streams-latest history ps p (latest_of-first before p after below bounds) in
    let (next, chosen) = next_phase-passes p ordered in
    let phase = active_phase-ongoing history ps p next ongoing in
    (
      active_status history ps p next,
      rw
          (
            made,
            seen,
            last_refusal-none p.request.idempotency_key history.refusals unrefused,
            chosen,
          )
          refl,
      refl,
      refl,
      rw phase (next_phase-number p next ordered ongoing chosen),
    )
