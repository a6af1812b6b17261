-- ===== src/Tests/Ledger.antt =====
-- One session of the ledger from its start to its end.
use agentic_investment_os.Prelude.{
  ◌+◌, ◌*◌, ◌≡◌, ◌-◌, refl, none, ok, err, invalid, arith, if◌then◌else◌,
}
use agentic_investment_os.Temporal.{UtcInstant, minutes, microseconds_per_second}
use agentic_investment_os.Calendar.{date}
use agentic_investment_os.Scheduler.Policy.{is_regular_session, is_early_close}
use agentic_investment_os.Scheduler.Window.{SessionWindow, session_window}
use agentic_investment_os.Scheduler.Status.{
  ScheduledSessionStatus, SchedulerClaim, SchedulerClaimDisposition, SchedulerSnapshot,
}
use agentic_investment_os.Scheduler.Host.{EventKind, receipt_matches_session}
use agentic_investment_os.Scheduler.History.{disposition_of}
use agentic_investment_os.Scheduler.Ledger.{Database, where_cycle, order_by_sequence, select_cycle}
use agentic_investment_os.Scheduler.Ledger.Valid.{IsServed, IsValid, policy_window}
use agentic_investment_os.Scheduler.Ledger.Append.{status_of}
use agentic_investment_os.Scheduler.Operations.{claim, record_outcome, snapshot, outcome_kind}
use agentic_investment_os.Scheduler.Operations.Events.{with_event, event_status}
use agentic_investment_os.Scheduler.Operations.Verdict.{
  perform, claim_verdict, claim-verdict, outcome_verdict, record_outcome-verdict,
}
use agentic_investment_os.Scheduler.Operations.Ownership.{claim_waits, owner_may_end, taken_over}
use agentic_investment_os.Scheduler.Operations.Finality.{
  ended_claim_is_terminal, ended_outcome_is_refused,
}
use agentic_investment_os.Scheduler.Operations.Snapshots.{IsReport, snapshot-IsReport}
use agentic_investment_os.Scheduler.Operations.Reachable.{
  Reach, here, next, claimed, new_database, new_database-IsValid, reachable-IsValid,
}
use agentic_investment_os.Tests.NewYork.{instant_of}
use agentic_investment_os.Tests.Fixture.{monday, host, host-HostLaws, policy, policy-valid}

abbrev pub ledger : Database
ledger = new_database policy

pub ledger-IsValid : IsValid host ledger
ledger-IsValid = new_database-IsValid host policy policy-valid

pub monday-IsServed : IsServed policy monday
unfolding is_regular_session
monday-IsServed = (
  record {
    regular = refl;
    advance_low = omega arith;
    advance_high = omega arith;
    lateness_high = omega arith;
  },
  omega arith,
)

abbrev pub window : SessionWindow
window = policy_window host policy monday

-- 09:20 local time, within the window from 09:15 to 09:25
abbrev pub at_start : UtcInstant
at_start = instant_of (date 2026 3 9) 560

abbrev at_once : UtcInstant
at_once = record { value = at_start.value + 30 * microseconds_per_second }

abbrev first_claim : SchedulerClaim
first_claim = record {
  window = window;
  disposition = SchedulerClaimDisposition.start;
  attempt = 1;
  status = event_status host ledger monday EventKind.started 1 at_start none none;
}

abbrev started_ledger : Database
started_ledger = with_event host ledger monday EventKind.started 1 at_start none none

-- The first claim starts the session.
first_claimed : claim host policy window at_start ledger ≡ ok (first_claim, started_ledger)
unfolding claim_verdict perform status_of select_cycle where_cycle order_by_sequence session_window
first_claimed =
    claim-verdict host host-HostLaws ledger monday ledger-IsValid monday-IsServed at_start

claim-verdict_example :
    claim host policy window at_start ledger
    ≡ perform host ledger monday at_start
        (claim_verdict policy window at_start (status_of window ledger.events))
claim-verdict_example =
    claim-verdict host host-HostLaws ledger monday ledger-IsValid monday-IsServed at_start

record_outcome-verdict_example : record_outcome host policy first_claim "done" at_once ledger ≡ (
    if receipt_matches_session host "done" monday
    then outcome_verdict host host-HostLaws ledger monday ledger-IsValid monday-IsServed 1 "done"
        at_once
        (status_of window ledger.events)
    else err invalid)
record_outcome-verdict_example =
    record_outcome-verdict host host-HostLaws ledger monday ledger-IsValid monday-IsServed
      first_claim "done" at_once refl

claim_waits_example :
    claim host policy window at_once started_ledger
    ≡ ok (record first_claim { disposition = SchedulerClaimDisposition.wait }, started_ledger)
claim_waits_example =
    claim_waits host host-HostLaws ledger monday ledger-IsValid monday-IsServed at_start first_claim
      started_ledger first_claimed refl at_once (omega arith) (omega arith)

owner_may_end_example :
    (s : ScheduledSessionStatus) × (ended : Database) × (record_outcome host policy first_claim
        "done" at_once started_ledger
      ≡ ok (s, ended))
    × (s.disposition ≡ disposition_of (outcome_kind host (host.receipt_failed "done")))
    × (s.attempts ≡ first_claim.attempt)
unfolding receipt_matches_session
owner_may_end_example =
    owner_may_end host host-HostLaws ledger monday ledger-IsValid monday-IsServed at_start
      first_claim started_ledger first_claimed refl "done" at_once (omega arith) refl

taken_over_example :
    record_outcome host policy (record first_claim { attempt = 2 }) "done" at_once started_ledger
    ≡ err invalid
taken_over_example =
    taken_over host host-HostLaws ledger monday ledger-IsValid monday-IsServed at_start first_claim
      started_ledger first_claimed refl (record first_claim { attempt = 2 }) "done" at_once refl
      (omega arith)

started-Reach : Reach host ledger started_ledger
started-Reach = next here (claimed monday at_start first_claim monday-IsServed first_claimed)

reachable-IsValid_example : IsValid host started_ledger
reachable-IsValid_example =
    reachable-IsValid host host-HostLaws policy started_ledger policy-valid started-Reach

snapshot-IsReport_example :
    (snap : SchedulerSnapshot) × (snapshot host policy started_ledger ≡ ok snap)
    × IsReport host started_ledger snap.sessions
snapshot-IsReport_example =
    snapshot-IsReport host host-HostLaws started_ledger
      (reachable-IsValid host host-HostLaws policy started_ledger policy-valid started-Reach)

-- 09:30 and 16:00 in summer time are 13:30 and 20:00 UTC.
monday_window :
    (window.opens_at ≡ record { value = (date 2026 3 9 - 1) * 86_400_000_000 + minutes 810 })
    × (window.closes_at ≡ record { value = (date 2026 3 9 - 1) * 86_400_000_000 + minutes 1200 })
unfolding session_window is_early_close
monday_window = (refl, refl)

ended_once :
    (s : ScheduledSessionStatus) × (ended : Database) × (record_outcome host policy first_claim
        "done" at_once started_ledger
      ≡ ok (s, ended))
    × (s.disposition ≡ disposition_of (outcome_kind host (host.receipt_failed "done")))
    × (s.attempts ≡ first_claim.attempt)
unfolding receipt_matches_session
ended_once =
    owner_may_end host host-HostLaws ledger monday ledger-IsValid monday-IsServed at_start
      first_claim started_ledger first_claimed refl "done" at_once (omega arith) refl

ended_claim_is_terminal_example :
    claim host ended_once.1.policy
      (policy_window host ended_once.1.policy monday)
      (record { value = at_once.value + 1 })
      ended_once.1
    ≡ ok (
      record {
        window = policy_window host ended_once.1.policy monday;
        disposition = SchedulerClaimDisposition.terminal;
        attempt = ended_once.0.attempts;
        status = ended_once.0;
      },
      ended_once.1,
    )
ended_claim_is_terminal_example =
    ended_claim_is_terminal host host-HostLaws started_ledger monday
      (reachable-IsValid host host-HostLaws policy started_ledger policy-valid started-Reach)
      monday-IsServed at_once first_claim "done" ended_once.0 ended_once.1 refl ended_once.2
      (record { value = at_once.value + 1 }) (omega arith)

abbrev own_again : SchedulerClaim
own_again = record first_claim { window = policy_window host ended_once.1.policy monday }

ended_outcome_is_refused_example :
    record_outcome host ended_once.1.policy own_again "done" at_once ended_once.1 ≡ err invalid
ended_outcome_is_refused_example =
    ended_outcome_is_refused host host-HostLaws started_ledger monday
      (reachable-IsValid host host-HostLaws policy started_ledger policy-valid started-Reach)
      monday-IsServed at_once first_claim "done" ended_once.0 ended_once.1 refl ended_once.2
      own_again "done" at_once refl
