-- ===== src/Scheduler/Operations/Reachable.antt =====
-- Interleavings of claims and outcomes, by any number of scheduler processes at any times: each
-- operation of adapters/sqlite_scheduler.py is one transaction.
use agentic_investment_os.Prelude.{
  ◌≡◌, ◌++◌, List, [], ◌∷◌, true, ok, refl, inl, inr, ap, ◌∙◌, sym, append_assoc, append-nil,
}
use agentic_investment_os.Temporal.{UtcInstant}
use agentic_investment_os.Scheduler.Policy.{MarketSession, SchedulerPolicy, policy_is_valid}
use agentic_investment_os.Scheduler.Status.{ScheduledSessionStatus, SchedulerClaim}
use agentic_investment_os.Scheduler.Host.{Host, HostLaws}
use agentic_investment_os.Scheduler.History.{Row}
use agentic_investment_os.Scheduler.Ledger.{Database, where_cycle}
use agentic_investment_os.Scheduler.Ledger.Valid.{IsServed, IsValid, policy_window}
use agentic_investment_os.Scheduler.Operations.{claim, record_outcome}
use agentic_investment_os.Scheduler.Operations.Preserves.{Keeps, claim-Keeps, record_outcome-Keeps}

-- `_prepare_database` of a new state root
abbrev pub new_database : SchedulerPolicy → Database
new_database p = record { policy = p; events = [] }

module _ {Receipt : Type 0} (h : Host Receipt) where
  -- One transaction of some process.
  pub data Step (db db' : Database) : Type 0 where
    claimed :
        (c : MarketSession) (at : UtcInstant) (cl : SchedulerClaim)
        → IsServed db.policy c
        → claim h db.policy (policy_window h db.policy c) at db ≡ ok (cl, db')
        → Step db db'
    ended :
        (c : MarketSession) (cl : SchedulerClaim) (r : Receipt) (at : UtcInstant)
        (s : ScheduledSessionStatus)
        → IsServed db.policy c
        → cl.window ≡ policy_window h db.policy c
        → record_outcome h db.policy cl r at db ≡ ok (s, db')
        → Step db db'

  pub data Reach (start : Database) : Database → Type 0 where
    here : Reach start start
    next : {db db' : Database} → Reach start db → Step db db' → Reach start db'

  pub new_database-IsValid :
      (p : SchedulerPolicy) → policy_is_valid p ≡ true → IsValid h (new_database p)
  unfolding where_cycle
  new_database-IsValid p valid = record {
    policy_valid = valid;
    checked = tt;
    session = λ c there. absurd (there refl);
  }

  -- The ledger has only grown since `start`, under the same policy, and is valid.
  pub record Extends (start db : Database) : Type 0 where
    pub valid : IsValid h db
    pub policy : db.policy ≡ start.policy
    pub added : List Row
    pub grown : db.events ≡ start.events ++ added

  module _ (laws : HostLaws h) where
    Step-Keeps :
        {db db' : Database} → IsValid h db → Step db db' → (c : MarketSession) × Keeps h db c db'
    Step-Keeps {db} {db'} v (claimed c at cl served e) =
        (c, claim-Keeps h laws db c v served at cl db' e)
    Step-Keeps {db} {db'} v (ended c cl r at s served own e) =
        (c, record_outcome-Keeps h laws db c v served at cl r s db' own e)

    pub Extends-Keeps :
        {start db db' : Database} (c : MarketSession)
        → Extends start db
        → Keeps h db c db'
        → Extends start db'
    Extends-Keeps {start} {db} {db'} c x k = elim k.grows [
      | inl same ↦ record {
        valid = k.valid;
        policy = k.policy ∙ x.policy;
        added = x.added;
        grown = ap (λ (d : Database). d.events) same ∙ x.grown;
      }
      | inr (row, own, one_more) ↦ record {
        valid = k.valid;
        policy = k.policy ∙ x.policy;
        added = x.added ++ row ∷ [];
        grown =
            one_more
            ∙ ap (λ (l : List Row). l ++ row ∷ []) x.grown
            ∙ append_assoc start.events x.added (row ∷ []);
      }
    ]

    Reach-Extends : {start db : Database} → IsValid h start → Reach start db → Extends start db
    Reach-Extends {start} v here = record {
      valid = v;
      policy = refl;
      added = [];
      grown = sym (append-nil start.events);
    }
    Reach-Extends v (next r step) =
        let before = Reach-Extends v r in
        let (c, kept) = Step-Keeps before.valid step in Extends-Keeps c before kept

    -- Whatever claims and outcomes succeeded on a new ledger of a valid policy, in any order, it is
    -- valid.
    pub reachable-IsValid :
        (p : SchedulerPolicy) (db : Database)
        → policy_is_valid p ≡ true
        → Reach (new_database p) db
        → IsValid h db
    reachable-IsValid p db valid r = (Reach-Extends (new_database-IsValid p valid) r).valid
