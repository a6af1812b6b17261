-- ===== src/Scheduler/Operations/Verdict.antt =====
-- A specification of `claim` and `record_outcome` of adapters/sqlite_scheduler.py, by the status of
-- the session alone.
use agentic_investment_os.Prelude.{
  ℕ, ◌&&◌, ◌+◌, ◌-◌, ◌*◌, ◌≤◌, ◌≡◌, refl, Bool, true, not, Option, none, some, ltb, ◌==◌,
  if◌then◌else◌, arith, Result, ok, err, invalid, Bool-cases, inl, inr,
}
use agentic_investment_os.Temporal.{UtcInstant, microseconds_per_second}
use agentic_investment_os.Scheduler.Policy.{MarketSession, SchedulerPolicy, policy_eq}
use agentic_investment_os.Scheduler.Window.{SessionWindow, session_window}
use agentic_investment_os.Scheduler.Status.{
  ScheduledSessionStatus, SchedulerClaim, SchedulerClaimDisposition, is_open,
}
use agentic_investment_os.Scheduler.Host.{EventKind, Host, HostLaws, receipt_matches_session}
use agentic_investment_os.Scheduler.Ledger.{Database}
use agentic_investment_os.Scheduler.Ledger.Valid.{
  IsServed, IsValid, policy_window, load_cycle_validating_all-ok,
}
use agentic_investment_os.Scheduler.Ledger.Append.{status_of, status_from_history-ok}
use agentic_investment_os.Scheduler.Operations.{
  claim, claim_from, record_outcome, record_outcome_from, outcome_kind,
}
use agentic_investment_os.Scheduler.Operations.Events.{
  is_hash-length, with_event, event_status, missed-Appends, started-Appends, resumed-Appends,
  outcome-Appends,
}

-- Refuse, report the status, or add an event.
pub data Verdict : Type 0 where
  refuse : Verdict
  observe : SchedulerClaimDisposition → ScheduledSessionStatus → Verdict
  append : SchedulerClaimDisposition → EventKind → ℕ → Verdict

-- The verdict on a claim, from the status of the session and the time.
unfoldable pub claim_verdict :
    SchedulerPolicy → SessionWindow → UtcInstant → Option ScheduledSessionStatus → Verdict
claim_verdict policy w at none =
    if ltb w.missed_at.value at.value
    then append SchedulerClaimDisposition.missed EventKind.missed 0
    else if ltb at.value w.scheduled_at.value
    then refuse
    else append SchedulerClaimDisposition.start EventKind.started 1
claim_verdict policy w at (some current) =
    if ltb at.value current.recorded_at.value
    then refuse
    else if not (is_open current.disposition)
    then observe SchedulerClaimDisposition.terminal current
    else if ltb (at.value - current.recorded_at.value)
        (policy.recovery_delay_seconds * microseconds_per_second)
    then observe SchedulerClaimDisposition.wait current
    else append SchedulerClaimDisposition.resume EventKind.resumed (current.attempts + 1)

pub policy_eq_refl : (p : SchedulerPolicy) → policy_eq p p ≡ true
unfolding policy_eq
policy_eq_refl p = ground arith

module _ {Receipt : Type 0} (h : Host Receipt) where
  -- Carrying a verdict out.
  unfoldable pub perform :
      Database → MarketSession → UtcInstant → Verdict → Result (SchedulerClaim × Database)
  perform db c at refuse = err invalid
  perform db c at (observe d current) = ok (
    record {
      window = policy_window h db.policy c;
      disposition = d;
      attempt = current.attempts;
      status = current;
    },
    db,
  )
  perform db c at (append d kind attempt) = ok (
    record {
      window = policy_window h db.policy c;
      disposition = d;
      attempt = attempt;
      status = event_status h db c kind attempt at none none;
    },
    with_event h db c kind attempt at none none,
  )

  module _ (laws : HostLaws h) (db : Database) (c : MarketSession) (v : IsValid h db)
      (served : IsServed db.policy c) where
    abbrev w : SessionWindow
    w = policy_window h db.policy c

    claim_from-verdict :
        (at : UtcInstant) (o : Option ScheduledSessionStatus)
        → status_of w db.events ≡ o
        → claim_from h db.policy w at db o ≡ perform db c at (claim_verdict db.policy w at o)
    unfolding claim_from claim_verdict perform
    claim_from-verdict at none e = ground (
      arith,
      (missed-Appends h laws db c v served at e),
      (started-Appends h laws db c v served at e),
    )
    claim_from-verdict at (some current) e =
        ground (arith, resumed-Appends h laws db c v served at current e)

    -- On a valid ledger a claim on a served session follows the verdict: the validation, the insertion
    -- and the rebuilding of the status raise nothing that the verdict does not.
    pub claim-verdict :
        (at : UtcInstant)
        → claim h db.policy w at db
          ≡ perform db c at (claim_verdict db.policy w at (status_of w db.events))
    unfolding claim
    claim-verdict at =
        rw
          (
            policy_eq_refl db.policy,
            load_cycle_validating_all-ok h laws db c v served,
            (status_from_history-ok h laws db c v served).0,
          )
          (claim_from-verdict at (status_of w db.events) refl)

    -- The verdict on an outcome: only the owner of the last attempt may end it, and not before it.
    abbrev pub outcome_accepted : ℕ → UtcInstant → ScheduledSessionStatus → Bool
    outcome_accepted attempt at current =
        is_open current.disposition
        && current.attempts == attempt
        && not (ltb at.value current.recorded_at.value)

    -- The result of an outcome that is accepted.
    abbrev pub ended : ℕ → Receipt → UtcInstant → Result (ScheduledSessionStatus × Database)
    ended attempt r at = ok (
      event_status h db c (outcome_kind h (h.receipt_failed r)) attempt at (some (h.receipt_text r))
          (some (h.receipt_hash r)),
      with_event h db c (outcome_kind h (h.receipt_failed r)) attempt at (some (h.receipt_text r))
          (some (h.receipt_hash r)),
    )

    abbrev pub outcome_verdict :
        ℕ
        → Receipt
        → UtcInstant
        → Option ScheduledSessionStatus
        → Result (ScheduledSessionStatus × Database)
    outcome_verdict attempt r at none = err invalid
    outcome_verdict attempt r at (some current) =
        if outcome_accepted attempt at current then ended attempt r at else err invalid

    record_outcome_from-verdict :
        (cl : SchedulerClaim) (r : Receipt) (at : UtcInstant) (o : Option ScheduledSessionStatus)
        → cl.window ≡ w
        → receipt_matches_session h r c ≡ true
        → status_of w db.events ≡ o
        → record_outcome_from h cl r at db o ≡ outcome_verdict cl.attempt r at o
    unfolding record_outcome_from
    record_outcome_from-verdict cl r at none own m e = refl
    record_outcome_from-verdict cl r at (some current) own m e = ground (
      arith,
      λ (p : is_open current.disposition ≡ true) (q : current.recorded_at.value ≤ at.value).
          outcome-Appends h laws db c v served at current e p q r m,
    )

    -- On a valid ledger the outcome of a claim on a served session follows the verdict if its receipt
    -- is of the session's cycle, and is refused otherwise.
    pub record_outcome-verdict :
        (cl : SchedulerClaim) (r : Receipt) (at : UtcInstant)
        → cl.window ≡ w
        → record_outcome h db.policy cl r at db ≡ (
            if receipt_matches_session h r c
            then outcome_verdict cl.attempt r at (status_of w db.events)
            else err invalid)
    unfolding record_outcome session_window
    record_outcome-verdict cl r at own = elim (Bool-cases (receipt_matches_session h r c)) [
      | inl m ↦
          rw
            (
              own,
              m,
              is_hash-length _ (laws.receipt_hash-is_hash r),
              policy_eq_refl db.policy,
              load_cycle_validating_all-ok h laws db c v served,
              (status_from_history-ok h laws db c v served).0,
            )
            (record_outcome_from-verdict (record cl { window = w }) r at (status_of w db.events)
              refl m refl)
      | inr m ↦ rw (own, m) refl
    ]
