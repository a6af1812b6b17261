-- ===== src/Scheduler/Operations/Finality.antt =====
-- Sessions that have ended, in the ledger of adapters/sqlite_scheduler.py.
use agentic_investment_os.Prelude.{
  ℕ, ◌≤◌, ◌≡◌, inl, refl, sym, subst, ◌∙◌, Bool, true, false, Option, none, some, arith, ok, err,
  invalid, if◌then◌else◌,
}
use agentic_investment_os.Temporal.{UtcInstant}
use agentic_investment_os.Scheduler.Policy.{MarketSession}
use agentic_investment_os.Scheduler.Window.{SessionWindow}
use agentic_investment_os.Scheduler.Status.{
  ScheduledSessionStatus, SchedulerClaim, SchedulerClaimDisposition, is_open,
}
use agentic_investment_os.Scheduler.Host.{Host, HostLaws, receipt_matches_session}
use agentic_investment_os.Scheduler.History.{disposition_of, row_status}
use agentic_investment_os.Scheduler.Ledger.{Database, new_row}
use agentic_investment_os.Scheduler.Ledger.Valid.{IsServed, IsValid, policy_window}
use agentic_investment_os.Scheduler.Ledger.Append.{status_of, status_of-new_row}
use agentic_investment_os.Scheduler.Operations.{claim, record_outcome, outcome_kind}
use agentic_investment_os.Scheduler.Operations.Events.{with_event, event_status, outcome-Appends}
use agentic_investment_os.Scheduler.Operations.Verdict.{outcome_verdict, record_outcome-verdict}
use agentic_investment_os.Scheduler.Operations.Ownership.{claim_of_closed, outcome_of_stranger}

module _ {Receipt : Type 0} (h : Host Receipt) where
  -- From `at` on, every claim of the session observes `s`, every outcome is refused, and neither
  -- writes anything.
  pub record IsEnded (db : Database) (c : MarketSession) (at : UtcInstant)
      (s : ScheduledSessionStatus) : Type 0 where
    pub claims :
        (at' : UtcInstant)
        → at.value ≤ at'.value
        → claim h db.policy (policy_window h db.policy c) at' db
          ≡ ok (
            record {
              window = policy_window h db.policy c;
              disposition = SchedulerClaimDisposition.terminal;
              attempt = s.attempts;
              status = s;
            },
            db,
          )
    pub outcomes :
        (cl : SchedulerClaim) (r : Receipt) (at' : UtcInstant)
        → cl.window ≡ policy_window h db.policy c
        → record_outcome h db.policy cl r at' db ≡ err invalid

  module _ (laws : HostLaws h) (db : Database) (c : MarketSession) (v : IsValid h db)
      (served : IsServed db.policy c) where
    abbrev w : SessionWindow
    w = policy_window h db.policy c

    -- A session whose last event closes it has ended.
    pub IsEnded-closed :
        (at : UtcInstant) (s : ScheduledSessionStatus)
        → status_of w db.events ≡ some s
        → is_open s.disposition ≡ false
        → s.recorded_at ≡ at
        → IsEnded db c at s
    IsEnded-closed at s last closed recorded = record {
      claims =
          λ at' after. claim_of_closed h laws db c v served at' s last closed (rw recorded after);
      outcomes =
          λ cl r at' own. outcome_of_stranger h laws db c v served at' s last cl r own (inl closed);
    }

  module _ (laws : HostLaws h) (db : Database) (c : MarketSession) (v : IsValid h db)
      (served : IsServed db.policy c) (at : UtcInstant) where
    outcome-closes : (failed : Bool) → is_open (disposition_of (outcome_kind h failed)) ≡ false
    unfolding disposition_of
    outcome-closes true = refl
    outcome-closes false = refl

    verdict-IsEnded :
        (attempt : ℕ) (r : Receipt) (s : ScheduledSessionStatus) (db' : Database)
        (o : Option ScheduledSessionStatus)
        → status_of (policy_window h db.policy c) db.events ≡ o
        → (if receipt_matches_session h r c
            then outcome_verdict h laws db c v served attempt r at o
            else err invalid)
          ≡ ok (s, db')
        → IsEnded db' c at s
    verdict-IsEnded attempt r s db' none last e = absurd (ground arith)
    verdict-IsEnded attempt r s db' (some current) last e =
        let kind = outcome_kind h (h.receipt_failed r) in
        let text = some (h.receipt_text r) in
        let hash = some (h.receipt_hash r) in
        let db2 = with_event h db c kind current.attempts at text hash in
        let s2 = event_status h db c kind current.attempts at text hash in
        let same : db2 ≡ db' = ground arith in
        let status : s2 ≡ s = ground arith in
        let valid =
          (outcome-Appends h laws db c v served at current last (ground arith) (ground arith) r
            (ground arith)).1 in
        subst (λ x. IsEnded x c at s) same
          (subst (λ x. IsEnded db2 c at x) status
            (IsEnded-closed laws db2 c valid served at s2
              (status_of-new_row h laws db c v served kind current.attempts at text hash)
              (unfold row_status new_row in outcome-closes (h.receipt_failed r))
              (unfold row_status new_row in refl)))

    record_outcome-IsEnded :
        (cl : SchedulerClaim) (r : Receipt) (s : ScheduledSessionStatus) (db' : Database)
        → cl.window ≡ policy_window h db.policy c
        → record_outcome h db.policy cl r at db ≡ ok (s, db')
        → IsEnded db' c at s
    record_outcome-IsEnded cl r s db' own e =
        verdict-IsEnded cl.attempt r s db' (status_of (policy_window h db.policy c) db.events) refl
          (sym (record_outcome-verdict h laws db c v served cl r at own) ∙ e)

    -- After an outcome of a served session was recorded in a valid ledger, every claim of the session
    -- at any later instant observes the recorded status as terminal, and writes nothing.
    pub ended_claim_is_terminal :
        (cl : SchedulerClaim) (r : Receipt) (s : ScheduledSessionStatus) (db' : Database)
        → cl.window ≡ policy_window h db.policy c
        → record_outcome h db.policy cl r at db ≡ ok (s, db')
        → (at' : UtcInstant) → at.value ≤ at'.value
        → claim h db'.policy (policy_window h db'.policy c) at' db'
          ≡ ok (
            record {
              window = policy_window h db'.policy c;
              disposition = SchedulerClaimDisposition.terminal;
              attempt = s.attempts;
              status = s;
            },
            db',
          )
    ended_claim_is_terminal cl r s db' own e = (record_outcome-IsEnded cl r s db' own e).claims

    -- After an outcome of a served session was recorded in a valid ledger, every outcome of the
    -- session is refused, whatever its claim, its receipt and its instant.
    pub ended_outcome_is_refused :
        (cl : SchedulerClaim) (r : Receipt) (s : ScheduledSessionStatus) (db' : Database)
        → cl.window ≡ policy_window h db.policy c
        → record_outcome h db.policy cl r at db ≡ ok (s, db')
        → (cl' : SchedulerClaim) (r' : Receipt) (at' : UtcInstant)
        → cl'.window ≡ policy_window h db'.policy c
        → record_outcome h db'.policy cl' r' at' db' ≡ err invalid
    ended_outcome_is_refused cl r s db' own e = (record_outcome-IsEnded cl r s db' own e).outcomes
