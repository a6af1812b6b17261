-- ===== src/Scheduler/Operations/Missed.antt =====
-- Claims of adapters/sqlite_scheduler.py on windows that domain/scheduler.py lists after their
-- deadline.
use agentic_investment_os.Prelude.{
  ◌-◌, ◌≤◌, ◌<◌, ◌≡◌, ◌≢◌, refl, ◌∙◌, ap, subst, none, List, [], ◌∷◌, ok, All, IsIn, arith,
  Bool-cases, inl, inr,
}
use agentic_investment_os.Temporal.{UtcInstant}
use agentic_investment_os.Scheduler.Policy.{MarketSession}
use agentic_investment_os.Scheduler.Window.{SessionWindow, session_window}
use agentic_investment_os.Scheduler.Status.{
  ScheduledRunDisposition, SchedulerClaim, SchedulerClaimDisposition,
}
use agentic_investment_os.Scheduler.Host.{EventKind, Host, HostLaws, same_cycle}
use agentic_investment_os.Scheduler.History.{Row, row_status, disposition_of}
use agentic_investment_os.Scheduler.Ledger.{
  Database, where_cycle, select_cycle, order_by_sequence, new_row,
}
use agentic_investment_os.Scheduler.Ledger.Valid.{IsServed, IsValid, policy_window}
use agentic_investment_os.Scheduler.Ledger.Append.{status_of, status_of-new_row}
use agentic_investment_os.Scheduler.Enumeration.{session_windows_through}
use agentic_investment_os.Scheduler.Enumeration.Due.{supported}
use agentic_investment_os.Scheduler.Enumeration.Listing.{listed-iff-IsDue, listed_too_late}
use agentic_investment_os.Scheduler.Operations.{claim}
use agentic_investment_os.Scheduler.Operations.Events.{with_event, event_status, missed-Appends}
use agentic_investment_os.Scheduler.Operations.Finality.{IsEnded, IsEnded-closed}
use agentic_investment_os.Scheduler.Operations.Verdict.{
  Verdict, claim_verdict, claim-verdict, perform,
}

where_cycle-nil :
    (c : MarketSession) (rows : List Row)
    → All (λ row. row.cycle ≢ c) rows
    → where_cycle c rows ≡ []
unfolding where_cycle
where_cycle-nil c [] none_own = refl
where_cycle-nil c (x ∷ rows) none_own = elim (Bool-cases (same_cycle x.cycle c)) [
  | inl same ↦
      let date : x.cycle.trading_date ≡ c.trading_date = ground (arith, same) in
      absurd (none_own.0 (ground (arith, date)))
  | inr other ↦ rw (other, where_cycle-nil c rows none_own.1) refl
]

module _ {Receipt : Type 0} (h : Host Receipt) (laws : HostLaws h) (db : Database)
    (v : IsValid h db) where
  status_of-nil :
      (c : MarketSession)
      → All (λ row. row.cycle ≢ c) db.events
      → status_of (policy_window h db.policy c) db.events ≡ none
  unfolding status_of select_cycle order_by_sequence session_window
  status_of-nil c none_own = rw (where_cycle-nil c db.events none_own) refl

  claim_verdict-missed :
      (c : MarketSession) (at : UtcInstant)
      → (policy_window h db.policy c).missed_at.value < at.value
      → All (λ row. row.cycle ≢ c) db.events
      → claim_verdict db.policy
          (policy_window h db.policy c)
          at
          (status_of (policy_window h db.policy c) db.events)
        ≡ Verdict.append SchedulerClaimDisposition.missed EventKind.missed 0
  unfolding claim_verdict
  claim_verdict-missed c at late none_own = rw (status_of-nil c none_own) (ground (arith, late))

  missed-IsEnded :
      (c : MarketSession) (served : IsServed db.policy c) (at : UtcInstant)
      → (policy_window h db.policy c).missed_at.value < at.value
      → All (λ row. row.cycle ≢ c) db.events
      → IsEnded h
          (with_event h db c EventKind.missed 0 at none none)
          c
          at
          (event_status h db c EventKind.missed 0 at none none)
  unfolding row_status disposition_of new_row
  missed-IsEnded c served at late none_own =
      let (written, valid) =
        missed-Appends h laws db c v served at (status_of-nil c none_own) late in
      IsEnded-closed h laws (with_event h db c EventKind.missed 0 at none none) c valid served at
        (event_status h db c EventKind.missed 0 at none none)
        (status_of-new_row h laws db c v served EventKind.missed 0 at none none) refl refl

  -- A window is listed, and its deadline passes on the day before its trading date. On a valid ledger
  -- without an event of the session, a claim on the window at the time of the listing succeeds and
  -- records the session as missed, and every claim on the window on the ledger it left, at that time
  -- or later, finds the session ended and writes nothing: the session is not started.
  pub claim_too_late :
      (at later : UtcInstant) (ws : List SessionWindow) (w : SessionWindow)
      → session_windows_through h.zone db.policy at ≡ ok ws
      → IsIn w ws
      → w.missed_at.value ≤ (h.zone.resolve (w.cycle.trading_date - 1) 1439).value
      → All (λ row. row.cycle ≢ w.cycle) db.events
      → at.value ≤ later.value
      → (cl again : SchedulerClaim) × (after : Database) × (claim h db.policy w at db
          ≡ ok (cl, after))
        × (cl.disposition ≡ SchedulerClaimDisposition.missed)
        × (cl.status.disposition ≡ ScheduledRunDisposition.missed)
        × (claim h after.policy w later after ≡ ok (again, after))
        × (again.disposition ≡ SchedulerClaimDisposition.terminal)
  unfolding perform row_status disposition_of new_row
  claim_too_late at later ws w listing i early none_own follows =
      let zone_laws = laws.zone_laws in
      let due = (listed-iff-IsDue h.zone db.policy zone_laws v.policy_valid at ws listing w).0 i in
      let late : w.missed_at.value < at.value =
        listed_too_late h.zone db.policy zone_laws v.policy_valid at ws listing w i early in
      let own : w ≡ policy_window h db.policy w.cycle = due.own in
      let served : IsServed db.policy w.cycle = (
        supported h.zone db.policy zone_laws v.policy_valid w.cycle.trading_date due.regular,
        due.from,
      ) in
      let late_own : (policy_window h db.policy w.cycle).missed_at.value < at.value =
        subst (λ (u : SessionWindow). u.missed_at.value < at.value) own late in
      let verdict =
        claim-verdict h laws db w.cycle v served at
        ∙ ap (perform h db w.cycle at) (claim_verdict-missed w.cycle at late_own none_own) in
      let after = with_event h db w.cycle EventKind.missed 0 at none none in
      let ended = missed-IsEnded w.cycle served at late_own none_own in
      (
        _,
        _,
        after,
        ap (λ (u : SessionWindow). claim h db.policy u at db) own ∙ verdict,
        refl,
        refl,
        ap (λ (u : SessionWindow). claim h db.policy u later after) own
            ∙ ended.claims later follows,
        refl,
      )
