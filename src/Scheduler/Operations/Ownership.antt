-- ===== src/Scheduler/Operations/Ownership.antt =====
-- Claims of one session by several callers, in the ledger of adapters/sqlite_scheduler.py.
use agentic_investment_os.Prelude.{
  ◌+◌, ◌*◌, ◌≤◌, ◌<◌, ◌≡◌, ◌≢◌, ◌⊎◌, inr, refl, sym, subst, ◌∙◌, ap, Bool, true, false, Option,
  none, some, arith, ok, err, invalid,
}
use agentic_investment_os.Temporal.{UtcInstant, microseconds_per_second}
use agentic_investment_os.Scheduler.Policy.{MarketSession}
use agentic_investment_os.Scheduler.Window.{SessionWindow}
use agentic_investment_os.Scheduler.Status.{
  ScheduledSessionStatus, SchedulerClaim, SchedulerClaimDisposition, is_open,
}
use agentic_investment_os.Scheduler.Host.{EventKind, Host, HostLaws, receipt_matches_session}
use agentic_investment_os.Scheduler.History.{disposition_of, row_status}
use agentic_investment_os.Scheduler.Ledger.{Database, new_row}
use agentic_investment_os.Scheduler.Ledger.Valid.{IsServed, IsValid, policy_window}
use agentic_investment_os.Scheduler.Ledger.Append.{status_of, status_of-new_row}
use agentic_investment_os.Scheduler.Operations.{claim, record_outcome, outcome_kind}
use agentic_investment_os.Scheduler.Operations.Events.{
  with_event, event_status, started-Appends, resumed-Appends,
}
use agentic_investment_os.Scheduler.Operations.Verdict.{
  claim_verdict, perform, claim-verdict, ended, record_outcome-verdict,
}

-- The claim hands the session to its caller.
abbrev pub is_owner : SchedulerClaimDisposition → Bool
is_owner SchedulerClaimDisposition.start = true
is_owner SchedulerClaimDisposition.resume = true
is_owner _ = false

module _ {Receipt : Type 0} (h : Host Receipt) (laws : HostLaws h) (db : Database)
    (c : MarketSession) (v : IsValid h db) (served : IsServed db.policy c) (at : UtcInstant)
    (current : ScheduledSessionStatus)
    (last : status_of (policy_window h db.policy c) db.events ≡ some current) where
  -- A claim of an open session before its recovery delay is over.
  claim_of_open :
      is_open current.disposition ≡ true
      → current.recorded_at.value ≤ at.value
      → at.value
        < current.recorded_at.value + db.policy.recovery_delay_seconds * microseconds_per_second
      → claim h db.policy (policy_window h db.policy c) at db
        ≡ ok (
          record {
            window = policy_window h db.policy c;
            disposition = SchedulerClaimDisposition.wait;
            attempt = current.attempts;
            status = current;
          },
          db,
        )
  unfolding claim_verdict perform
  claim_of_open opens after soon = rw (claim-verdict h laws db c v served at, last) (ground arith)

  -- A claim of a session that has ended.
  pub claim_of_closed :
      is_open current.disposition ≡ false
      → current.recorded_at.value ≤ at.value
      → claim h db.policy (policy_window h db.policy c) at db
        ≡ ok (
          record {
            window = policy_window h db.policy c;
            disposition = SchedulerClaimDisposition.terminal;
            attempt = current.attempts;
            status = current;
          },
          db,
        )
  unfolding claim_verdict perform
  claim_of_closed closed after = rw (claim-verdict h laws db c v served at, last) (ground arith)

  -- An outcome is refused once the session has ended, and from any attempt but the last.
  pub outcome_of_stranger :
      (cl : SchedulerClaim) (r : Receipt)
      → cl.window ≡ policy_window h db.policy c
      → (is_open current.disposition ≡ false) ⊎ (cl.attempt ≢ current.attempts)
      → record_outcome h db.policy cl r at db ≡ err invalid
  outcome_of_stranger cl r own stranger =
      rw (record_outcome-verdict h laws db c v served cl r at own, last) (ground arith)

  -- The outcome of the last attempt, not before its event, ends an open session.
  outcome_of_owner :
      (cl : SchedulerClaim) (r : Receipt)
      → cl.window ≡ policy_window h db.policy c
      → is_open current.disposition ≡ true
      → cl.attempt ≡ current.attempts
      → current.recorded_at.value ≤ at.value
      → receipt_matches_session h r c ≡ true
      → record_outcome h db.policy cl r at db ≡ ended h laws db c v served cl.attempt r at
  outcome_of_owner cl r own opens same after m =
      rw (record_outcome-verdict h laws db c v served cl r at own, last, m) (ground arith)

module _ {Receipt : Type 0} (h : Host Receipt) where
  -- What an owner's claim has done: added an event that leaves the session open.
  pub record Owned (db : Database) (c : MarketSession) (at : UtcInstant) (cl : SchedulerClaim)
      (db' : Database) : Type 0 where
    pub kind : EventKind
    pub opens : is_open (disposition_of kind) ≡ true
    pub window : cl.window ≡ policy_window h db.policy c
    pub status : cl.status ≡ event_status h db c kind cl.attempt at none none
    pub valid : IsValid h (with_event h db c kind cl.attempt at none none)
    pub same : db' ≡ with_event h db c kind cl.attempt at none none

  module _ (laws : HostLaws h) (db : Database) (c : MarketSession) (v : IsValid h db)
      (served : IsServed db.policy c) (at : UtcInstant) where
    abbrev w : SessionWindow
    w = policy_window h db.policy c

    verdict-Owned :
        (cl : SchedulerClaim) (db' : Database) (o : Option ScheduledSessionStatus)
        → status_of w db.events ≡ o
        → perform h db c at (claim_verdict db.policy w at o) ≡ ok (cl, db')
        → is_owner cl.disposition ≡ true
        → Owned db c at cl db'
    unfolding perform claim_verdict disposition_of
    verdict-Owned cl db' none e p own =
        let a : cl.attempt ≡ 1 = ground arith in
        record {
          kind = EventKind.started;
          opens = refl;
          window = ground arith;
          status = ground arith;
          valid = rw a (started-Appends h laws db c v served at e (ground arith) (ground arith)).1;
          same = ground arith;
        }
    verdict-Owned cl db' (some current) e p own =
        let a : cl.attempt ≡ current.attempts + 1 = ground arith in
        record {
          kind = EventKind.resumed;
          opens = refl;
          window = ground arith;
          status = ground arith;
          valid =
              rw a
                (resumed-Appends h laws db c v served at current e (ground arith) (ground arith)).1;
          same = ground arith;
        }

    claim-Owned :
        (cl : SchedulerClaim) (db' : Database)
        → claim h db.policy w at db ≡ ok (cl, db')
        → is_owner cl.disposition ≡ true
        → Owned db c at cl db'
    claim-Owned cl db' e =
        verdict-Owned cl db' (status_of w db.events) refl
          (sym (claim-verdict h laws db c v served at) ∙ e)

    module _ (cl : SchedulerClaim) (db' : Database)
        (claimed : claim h db.policy w at db ≡ ok (cl, db'))
        (own : is_owner cl.disposition ≡ true) where
      abbrev owned : Owned db c at cl db'
      owned = claim-Owned cl db' claimed own

      abbrev held : Database
      held = with_event h db c owned.kind cl.attempt at none none

      abbrev Holding : SchedulerClaim → Database → UtcInstant → Type 0
      Holding waiting x at' = claim h db.policy w at' x ≡ ok (waiting, x)

      status-held : status_of w held.events ≡ some cl.status
      status-held =
          status_of-new_row h laws db c v served owned.kind cl.attempt at none none
          ∙ ap some (sym owned.status)

      held_status :
          (is_open cl.status.disposition ≡ true)
          × (cl.status.attempts ≡ cl.attempt)
          × (cl.status.recorded_at ≡ at)
      unfolding row_status new_row
      held_status = rw owned.status (owned.opens, refl, refl)

      waiting_claim :
          record {
            window = w;
            disposition = SchedulerClaimDisposition.wait;
            attempt = cl.status.attempts;
            status = cl.status;
          }
          ≡ record cl { disposition = SchedulerClaimDisposition.wait }
      waiting_claim = ground (arith, owned.window, held_status.1)

      -- After a claim that owns its session, and until the recovery delay is over, every claim of the
      -- session waits, and writes nothing.
      pub claim_waits :
          (at' : UtcInstant)
          → at.value ≤ at'.value
          → at'.value < at.value + db.policy.recovery_delay_seconds * microseconds_per_second
          → claim h db.policy w at' db'
            ≡ ok (record cl { disposition = SchedulerClaimDisposition.wait }, db')
      claim_waits at' after soon =
          let (opens, attempts, recorded) = held_status in
          let waits =
            claim_of_open h laws held c owned.valid served at' cl.status status-held opens
              (rw recorded after) (rw recorded soon) in
          subst (λ x. Holding (record cl { disposition = SchedulerClaimDisposition.wait }) x at')
            (sym owned.same) (waits ∙ ap (λ (x : SchedulerClaim). ok (x, held)) waiting_claim)

      -- On the ledger that its claim left, an owner ends the session with any receipt of the session's
      -- cycle, at any instant from the claim on: `record_outcome` succeeds, with the disposition of the
      -- receipt and the attempt of the claim.
      pub owner_may_end :
          (r : Receipt) (at' : UtcInstant)
          → at.value ≤ at'.value
          → receipt_matches_session h r c ≡ true
          → (s : ScheduledSessionStatus) × (ended_db : Database) × (record_outcome h db.policy cl r
                at' db'
              ≡ ok (s, ended_db))
            × (s.disposition ≡ disposition_of (outcome_kind h (h.receipt_failed r)))
            × (s.attempts ≡ cl.attempt)
      owner_may_end r at' after m =
          let (opens, attempts, recorded) = held_status in
          let kind = outcome_kind h (h.receipt_failed r) in
          let text = some (h.receipt_text r) in
          let hash = some (h.receipt_hash r) in
          let ends =
            outcome_of_owner h laws held c owned.valid served at' cl.status status-held cl r
              owned.window opens (sym attempts) (rw recorded after) m in
          let s = event_status h held c kind cl.attempt at' text hash in
          let after_end = with_event h held c kind cl.attempt at' text hash in
          (
            s,
            after_end,
            subst (λ x. record_outcome h db.policy cl r at' x ≡ ok (s, after_end)) (sym owned.same)
                ends,
            unfold row_status new_row in refl,
            unfold row_status new_row in refl,
          )

      -- After a claim that owns its session, a claim of the same window with another attempt cannot end
      -- the session.
      pub taken_over :
          (old : SchedulerClaim) (r : Receipt) (at' : UtcInstant)
          → old.window ≡ w
          → old.attempt ≢ cl.attempt
          → record_outcome h db.policy old r at' db' ≡ err invalid
      taken_over old r at' same other =
          subst (λ x. record_outcome h db.policy old r at' x ≡ err invalid) (sym owned.same)
            (outcome_of_stranger h laws held c owned.valid served at' cl.status status-held old r
              same (inr (λ e. other (e ∙ held_status.1))))

      -- The owner's attempt is the open status of the session.
      pub owner_holds :
          (status_of w db'.events ≡ some cl.status)
          × (is_open cl.status.disposition ≡ true)
          × (cl.window ≡ w)
      owner_holds = (
        subst (λ (x : Database). status_of w x.events ≡ some cl.status) (sym owned.same)
            status-held,
        held_status.0,
        owned.window,
      )
