-- ===== src/Scheduler/Operations/Preserves.antt =====
-- `claim` and `record_outcome` of adapters/sqlite_scheduler.py, and the invariant of the ledger.
use agentic_investment_os.Prelude.{
  ℕ, ◌&&◌, ◌∙◌, String, if◌then◌else◌, err, invalid, ◌+◌, ◌-◌, ◌*◌, ◌≡◌, ◌⊎◌, inl, inr, refl, sym,
  subst, Option, none, some, [], ◌∷◌, ◌++◌, ltb, arith, ok, Bool-cases, Option-cases, not,
}
use agentic_investment_os.Temporal.{UtcInstant, microseconds_per_second}
use agentic_investment_os.Scheduler.Policy.{MarketSession}
use agentic_investment_os.Scheduler.Window.{SessionWindow, session_window}
use agentic_investment_os.Scheduler.Status.{ScheduledSessionStatus, SchedulerClaim, is_open}
use agentic_investment_os.Scheduler.Host.{EventKind, Host, HostLaws, receipt_matches_session}
use agentic_investment_os.Scheduler.History.{Row}
use agentic_investment_os.Scheduler.Ledger.{Database, new_row}
use agentic_investment_os.Scheduler.Ledger.Valid.{IsServed, IsValid, policy_window}
use agentic_investment_os.Scheduler.Ledger.Append.{status_of}
use agentic_investment_os.Scheduler.Operations.{claim, record_outcome, outcome_kind}
use agentic_investment_os.Scheduler.Operations.Events.{
  with_event, missed-Appends, started-Appends, resumed-Appends, outcome-Appends,
}
use agentic_investment_os.Scheduler.Operations.Verdict.{
  claim_verdict, perform, claim-verdict, outcome_verdict, record_outcome-verdict,
}

module _ {Receipt : Type 0} (h : Host Receipt) where
  -- The ledger after an operation on one session: unchanged, or with one event of that session, and
  -- valid in either case.
  pub record Keeps (db : Database) (c : MarketSession) (db' : Database) : Type 0 where
    pub valid : IsValid h db'
    pub policy : db'.policy ≡ db.policy
    pub grows : (db' ≡ db) ⊎ ((row : Row) × (row.cycle ≡ c) × (db'.events ≡ db.events ++ row ∷ []))

  Keeps-same : {db db' : Database} (c : MarketSession) → IsValid h db → db' ≡ db → Keeps db c db'
  Keeps-same c v e = record {
    valid = subst (IsValid h) (sym e) v;
    policy = ground arith;
    grows = inl e;
  }

  Keeps-with_event :
      {db : Database} (db' : Database) (c : MarketSession) (kind : EventKind) (attempt : ℕ)
      (at : UtcInstant) (text hash : Option String)
      → IsValid h (with_event h db c kind attempt at text hash)
      → with_event h db c kind attempt at text hash ≡ db'
      → Keeps db c db'
  unfolding new_row session_window
  Keeps-with_event {db} db' c kind attempt at text hash v e = record {
    valid = subst (IsValid h) e v;
    policy = ground arith;
    grows = inr (
      new_row h (policy_window h db.policy c) kind attempt at text hash db.events,
      refl,
      ground arith,
    );
  }

  module _ (laws : HostLaws h) (db : Database) (c : MarketSession) (v : IsValid h db)
      (served : IsServed db.policy c) (at : UtcInstant) where
    abbrev w : SessionWindow
    w = policy_window h db.policy c

    perform-Keeps_new :
        (cl : SchedulerClaim) (db' : Database)
        → status_of w db.events ≡ none
        → perform h db c at (claim_verdict db.policy w at none) ≡ ok (cl, db')
        → Keeps db c db'
    unfolding perform claim_verdict
    perform-Keeps_new cl db' e p = elim (Bool-cases (ltb w.missed_at.value at.value)) [
      | inl late ↦
          Keeps-with_event db' c EventKind.missed 0 at none none
            (missed-Appends h laws db c v served at e (ground arith)).1 (ground arith)
      | inr in_time ↦
          Keeps-with_event db' c EventKind.started 1 at none none
            (started-Appends h laws db c v served at e (ground arith) (ground arith)).1
            (ground arith)
    ]

    perform-Keeps_existing :
        (cl : SchedulerClaim) (db' : Database) (current : ScheduledSessionStatus)
        → status_of w db.events ≡ some current
        → perform h db c at (claim_verdict db.policy w at (some current)) ≡ ok (cl, db')
        → Keeps db c db'
    unfolding perform claim_verdict
    perform-Keeps_existing cl db' current e p =
        elim (Bool-cases (
          is_open current.disposition
          && not (
              ltb (at.value - current.recorded_at.value)
                (db.policy.recovery_delay_seconds * microseconds_per_second)))) [
                  | inl due ↦
                      Keeps-with_event db' c EventKind.resumed (current.attempts + 1) at none none
                        (resumed-Appends h laws db c v served at current e (ground arith)
                          (ground arith)).1
                        (ground arith)
                  | inr quiet ↦ Keeps-same c v (ground arith)
                ]

    -- A claim that succeeds keeps the ledger valid; it leaves it alone or adds one event.
    pub claim-Keeps :
        (cl : SchedulerClaim) (db' : Database)
        → claim h db.policy w at db ≡ ok (cl, db')
        → Keeps db c db'
    claim-Keeps cl db' e = elim (Option-cases (status_of w db.events)) [
      | inl fresh ↦
          perform-Keeps_new cl db' fresh
            (rw fresh at (sym (claim-verdict h laws db c v served at) ∙ e))
      | inr (current, has) ↦
          perform-Keeps_existing cl db' current has
            (rw has at (sym (claim-verdict h laws db c v served at) ∙ e))
    ]

    outcome_verdict-Keeps :
        (attempt : ℕ) (r : Receipt) (s : ScheduledSessionStatus) (db' : Database)
        (o : Option ScheduledSessionStatus)
        → status_of w db.events ≡ o
        → (if receipt_matches_session h r c
            then outcome_verdict h laws db c v served attempt r at o
            else err invalid)
          ≡ ok (s, db')
        → Keeps db c db'
    outcome_verdict-Keeps attempt r s db' none has e = absurd (ground arith)
    outcome_verdict-Keeps attempt r s db' (some current) has e =
        Keeps-with_event db' c (outcome_kind h (h.receipt_failed r)) current.attempts at
          (some (h.receipt_text r)) (some (h.receipt_hash r))
          (outcome-Appends h laws db c v served at current has (ground arith) (ground arith) r
            (ground arith)).1
          (ground arith)

    -- So does an outcome that is recorded.
    pub record_outcome-Keeps :
        (cl : SchedulerClaim) (r : Receipt) (s : ScheduledSessionStatus) (db' : Database)
        → cl.window ≡ w
        → record_outcome h db.policy cl r at db ≡ ok (s, db')
        → Keeps db c db'
    record_outcome-Keeps cl r s db' own e =
        outcome_verdict-Keeps cl.attempt r s db' (status_of w db.events) refl
          (sym (record_outcome-verdict h laws db c v served cl r at own) ∙ e)
