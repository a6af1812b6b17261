-- ===== src/Scheduler/Run/Pinned.antt =====
-- The operations of the ledger under a policy that is the pinned one by an equation.
use agentic_investment_os.Prelude.{◌≡◌, subst, true, some, ok}
use agentic_investment_os.Temporal.{UtcInstant}
use agentic_investment_os.Scheduler.Policy.{MarketSession, SchedulerPolicy}
use agentic_investment_os.Scheduler.Status.{ScheduledSessionStatus, SchedulerClaim, is_open}
use agentic_investment_os.Scheduler.Host.{Host, HostLaws}
use agentic_investment_os.Scheduler.Ledger.{Database}
use agentic_investment_os.Scheduler.Ledger.Valid.{IsServed, IsValid, policy_window}
use agentic_investment_os.Scheduler.Ledger.Append.{status_of}
use agentic_investment_os.Scheduler.Operations.{claim, record_outcome}
use agentic_investment_os.Scheduler.Operations.Preserves.{Keeps, claim-Keeps, record_outcome-Keeps}
use agentic_investment_os.Scheduler.Operations.Ownership.{is_owner, owner_holds}

module _ {Receipt : Type 0} (h : Host Receipt) (laws : HostLaws h) where
  pub claim-Keeps_at :
      (p : SchedulerPolicy) (db : Database) (c : MarketSession) (at : UtcInstant)
      (cl : SchedulerClaim) (db' : Database)
      → IsValid h db
      → db.policy ≡ p
      → IsServed p c
      → claim h p (policy_window h p c) at db ≡ ok (cl, db')
      → Keeps h db c db'
  claim-Keeps_at p db c at cl db' v e =
      subst
        (λ q.
          IsServed q c → claim h q (policy_window h q c) at db ≡ ok (cl, db') → Keeps h db c db')
        e (λ served ok_claim. claim-Keeps h laws db c v served at cl db' ok_claim)

  pub owner_holds_at :
      (p : SchedulerPolicy) (db : Database) (c : MarketSession) (at : UtcInstant)
      (cl : SchedulerClaim) (db' : Database)
      → IsValid h db
      → db.policy ≡ p
      → IsServed p c
      → claim h p (policy_window h p c) at db ≡ ok (cl, db')
      → is_owner cl.disposition ≡ true
      → (status_of (policy_window h p c) db'.events ≡ some cl.status)
        × (is_open cl.status.disposition ≡ true)
        × (cl.window ≡ policy_window h p c)
  owner_holds_at p db c at cl db' v e =
      subst
        (λ q.
          IsServed q c
          → claim h q (policy_window h q c) at db ≡ ok (cl, db')
          → is_owner cl.disposition ≡ true
          → (status_of (policy_window h q c) db'.events ≡ some cl.status)
            × (is_open cl.status.disposition ≡ true)
            × (cl.window ≡ policy_window h q c))
        e (λ served ok_claim own. owner_holds h laws db c v served at cl db' ok_claim own)

  pub outcome-Keeps_at :
      (p : SchedulerPolicy) (db : Database) (c : MarketSession) (at : UtcInstant)
      (cl : SchedulerClaim) (r : Receipt) (s : ScheduledSessionStatus) (db' : Database)
      → IsValid h db
      → db.policy ≡ p
      → IsServed p c
      → cl.window ≡ policy_window h p c
      → record_outcome h p cl r at db ≡ ok (s, db')
      → Keeps h db c db'
  outcome-Keeps_at p db c at cl r s db' v e =
      subst
        (λ q.
          IsServed q c
          → cl.window ≡ policy_window h q c
          → record_outcome h q cl r at db ≡ ok (s, db')
          → Keeps h db c db')
        e (λ served own done. record_outcome-Keeps h laws db c v served at cl r s db' own done)
