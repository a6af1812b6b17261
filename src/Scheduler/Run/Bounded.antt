-- ===== src/Scheduler/Run/Bounded.antt =====
-- How often a run calls `Advance`.
use agentic_investment_os.Prelude.{
  ℕ, ◌+◌, ◌-◌, ◌≤◌, ◌≡◌, refl, Bool, true, false, not, ◌&&◌, List, [], ◌∷◌, length, Result, Error,
  ok, err, arith, is_none, leb, if◌then◌else◌,
}
use agentic_investment_os.Temporal.{UtcInstant}
use agentic_investment_os.Scheduler.Policy.{MarketSession, SchedulerPolicy}
use agentic_investment_os.Scheduler.Window.{SessionWindow}
use agentic_investment_os.Scheduler.Status.{
  ScheduledSessionStatus, SchedulerClaim, SchedulerClaimDisposition,
}
use agentic_investment_os.Scheduler.Host.{Host}
use agentic_investment_os.Scheduler.Ledger.{Database}
use agentic_investment_os.Scheduler.Run.{
  Outside, World, Run, ◌>>=◌, ◌>>◌, continue, pure, lift, transact, committed, raise_if, get, put,
  is_open_status,
}
use agentic_investment_os.Scheduler.Run.Loop.{
  now, advance, lifecycle_status, take_snapshot, require_calendar, perform_owned, after_claim,
  claim_window, visit, run_windows, report, run_due,
}

-- `m` calls `Advance` at most `n` times.
pub record Adds {S A : Type 0} (n : ℕ) (m : Run S A) : Type 0 where
  pub at : (s : World S) → length (m s).1.advanced ≤ length s.advanced + n

module _ {S A : Type 0} where
  Adds-pure : (a : A) → Adds {S = S} 0 (pure a)
  unfolding pure
  Adds-pure a = record { at = λ s. omega arith }

  Adds-lift : (r : Result A) → Adds {S = S} 0 (lift r)
  unfolding lift
  Adds-lift r = record { at = λ s. omega arith }

  committed-le :
      (r : Result (A × Database)) (s : World S)
      → length (committed r s).1.advanced ≤ length s.advanced
  committed-le (ok (a, db)) s = omega arith
  committed-le (err e) s = omega arith

  Adds-transact : (f : Database → Result (A × Database)) → Adds {S = S} 0 (transact f)
  unfolding transact
  Adds-transact f = record { at = λ s. let le = committed-le (f s.ledger) s in omega arith }

  Adds-le : {m n : ℕ} (a : Run S A) → Adds m a → m ≤ n → Adds n a
  Adds-le a x le = record { at = λ s. let y = x.at s in omega arith }

  Adds-if : {n : ℕ} {a b : Run S A} (t : Bool) → Adds n a → Adds n b → Adds n (if t then a else b)
  Adds-if true x y = x
  Adds-if false x y = y

Adds-raise_if : {S : Type 0} (bad : Bool) (e : Error) → Adds {S = S} 0 (raise_if bad e)
unfolding raise_if
Adds-raise_if bad e = record { at = λ s. omega arith }

module _ {S A B : Type 0} where
  continue-le :
      (n : ℕ) (r : Result A) (f : A → Run S B) (s : World S)
      → ((a : A) → Adds n (f a))
      → length (continue r f s).1.advanced ≤ length s.advanced + n
  continue-le n (ok a) f s k = (k a).at s
  continue-le n (err e) f s k = omega arith

  Adds-bind :
      (m n : ℕ) (a : Run S A) (f : A → Run S B)
      → Adds m a
      → ((x : A) → Adds n (f x))
      → Adds (m + n) (a >>= f)
  unfolding ◌>>=◌
  Adds-bind m n a f x k = record {
    at = λ s. let first = x.at s in let later = continue-le n (a s).0 f (a s).1 k in omega arith;
  }

  -- A step that makes no call
  Adds-quiet :
      (n : ℕ) (a : Run S A) (f : A → Run S B)
      → Adds 0 a
      → ((x : A) → Adds n (f x))
      → Adds n (a >>= f)
  Adds-quiet n a f x k = Adds-le (a >>= f) (Adds-bind 0 n a f x k) (omega arith)

module _ {Receipt S : Type 0} (h : Host Receipt) (o : Outside Receipt S) (p : SchedulerPolicy) where
  Adds-now : Adds 0 (now h o p)
  unfolding now
  Adds-now = record { at = λ s. omega arith }

  Adds-lifecycle_status : Adds 0 (lifecycle_status h o p)
  unfolding lifecycle_status
  Adds-lifecycle_status = record { at = λ s. omega arith }

  Adds-advance : (c : MarketSession) → Adds 1 (advance h o p c)
  unfolding advance
  Adds-advance c = record { at = λ s. omega arith }

  Adds-take_snapshot : Adds 0 (take_snapshot h o p)
  unfolding take_snapshot
  Adds-take_snapshot = record { at = λ s. omega arith }

  ruleset quiet_rules = (
    Adds-quiet, Adds-pure, Adds-lift, Adds-transact, Adds-raise_if, Adds-now, Adds-lifecycle_status,
    Adds-take_snapshot,
  )

  Adds-perform_owned : (w : SessionWindow) (cl : SchedulerClaim) → Adds 1 (perform_owned h o p w cl)
  unfolding perform_owned
  Adds-perform_owned w cl =
      Adds-bind 1 0 (advance h o p w.cycle) _ (Adds-advance w.cycle)
        λ receipt. search quiet_rules depth 12

  Adds-claim_window :
      (at : UtcInstant) (w : SessionWindow) (completed : List ScheduledSessionStatus)
      → Adds 0 (claim_window h o p at w completed)
  unfolding claim_window
  Adds-claim_window at w completed = search quiet_rules depth 12

  Adds-report : Adds 0 (report h o p)
  unfolding report require_calendar
  Adds-report = search quiet_rules depth 14

  abbrev Rest : Type 0
  Rest = List ScheduledSessionStatus → ℕ → Run S (Unit {0})

  Adds-after_claim :
      (d : SchedulerClaimDisposition) (w : SessionWindow) (cl : SchedulerClaim) (rest : Rest)
      (completed : List ScheduledSessionStatus) (actions n : ℕ)
      → ((completed : List ScheduledSessionStatus) → Adds n (rest completed actions))
      → Adds (1 + n) (after_claim h o p d w cl rest completed actions)
  unfolding after_claim
  Adds-after_claim SchedulerClaimDisposition.wait w cl rest completed actions n k =
      Adds-le (pure tt) (Adds-pure tt) (omega arith)
  Adds-after_claim SchedulerClaimDisposition.terminal w cl rest completed actions n k =
      Adds-le (rest (put cl.status completed) actions) (k (put cl.status completed)) (omega arith)
  Adds-after_claim SchedulerClaimDisposition.missed w cl rest completed actions n k =
      Adds-le (rest (put cl.status completed) actions) (k (put cl.status completed)) (omega arith)
  Adds-after_claim SchedulerClaimDisposition.start w cl rest completed actions n k =
      Adds-bind 1 n (perform_owned h o p w cl) _ (Adds-perform_owned w cl) λ t. k (put t completed)
  Adds-after_claim SchedulerClaimDisposition.resume w cl rest completed actions n k =
      Adds-bind 1 n (perform_owned h o p w cl) _ (Adds-perform_owned w cl) λ t. k (put t completed)

  -- The rounds of the loop call `Advance` at most as often as actions are left.
  Adds-run_windows :
      (at : UtcInstant) (ws : List SessionWindow) (completed : List ScheduledSessionStatus)
      (actions : ℕ)
      → Adds (p.maximum_actions_per_run - actions) (run_windows h o p at ws completed actions)
  unfolding run_windows visit
  Adds-run_windows at [] completed actions = Adds-le (pure tt) (Adds-pure tt) (omega arith)
  Adds-run_windows at (w ∷ ws) completed actions =
      Adds-if
        (not (is_none (get w.cycle completed)) && not (is_open_status (get w.cycle completed)))
        (Adds-run_windows at ws completed actions)
        (visited (leb p.maximum_actions_per_run actions) refl
          (λ c. Adds-run_windows at ws c (actions + 1)))
    where
      visited :
          (full : Bool)
          → leb p.maximum_actions_per_run actions ≡ full
          → ((c : List ScheduledSessionStatus)
              → Adds
                  (p.maximum_actions_per_run - (actions + 1))
                  (run_windows h o p at ws c (actions + 1)))
          → Adds (p.maximum_actions_per_run - actions) (
              if full
              then pure tt
              else claim_window h o p at w completed >>= λ cl.
                  after_claim h o p cl.disposition w cl
                    (run_windows h o p at ws)
                    completed
                    (actions + 1))
      visited true e k = Adds-le (pure tt) (Adds-pure tt) (omega arith)
      visited false e k =
          let left = p.maximum_actions_per_run - (actions + 1) in
          Adds-le _
            (Adds-quiet (1 + left) (claim_window h o p at w completed) _
              (Adds-claim_window at w completed)
              (λ cl.
                Adds-after_claim cl.disposition w cl (run_windows h o p at ws) completed
                  (actions + 1) left k))
            (ground arith)

  Adds-visits :
      (at : UtcInstant) (ws : List SessionWindow) (completed : List ScheduledSessionStatus)
      → Adds p.maximum_actions_per_run (run_windows h o p at ws completed 0 >> report h o p)
  Adds-visits at ws completed =
      Adds-le _
        (Adds-bind (p.maximum_actions_per_run - 0) 0 (run_windows h o p at ws completed 0) _
          (Adds-run_windows at ws completed 0) (λ u. Adds-report))
        (omega arith)

  Adds-run_due : Adds p.maximum_actions_per_run (run_due h o p)
  unfolding run_due
  Adds-run_due = search (quiet_rules, Adds-visits) depth 14

  -- A run calls `Advance` at most `maximum_actions_per_run` times, whether it returns or raises.
  pub run_due-bounded :
      (s : World S)
      → length (run_due h o p s).1.advanced ≤ length s.advanced + p.maximum_actions_per_run
  run_due-bounded s = Adds-run_due.at s
