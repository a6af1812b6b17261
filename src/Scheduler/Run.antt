-- ===== src/Scheduler/Run.antt =====
-- `Scheduler` of application/scheduler.py: one run, over a world that holds the ledger and the rest
-- of the host. A method returns the world beside its result or its exception: what was committed
-- before a raise stays committed.
pub mod Due
pub mod Loop
pub mod Pinned
pub mod Sound
pub mod Windows
pub mod Bounded
pub mod Safety
use agentic_investment_os.Prelude.{
  ℕ, suc, ◌+◌, Bool, true, false, ◌&&◌, ◌||◌, not, Option, none, some, List, [], ◌∷◌, ltb, leb,
  ◌==◌, is_none, map, Result, Error, ok, err, calendar_unavailable, clock_rollback,
  advance_result_invalid, status_result_invalid, if◌then◌else◌,
}
use agentic_investment_os.Temporal.{UtcInstant}
use agentic_investment_os.Scheduler.Policy.{MarketSession, SchedulerPolicy, calendar_supports}
use agentic_investment_os.Scheduler.Window.{SessionWindow, build_session_window}
use agentic_investment_os.Scheduler.Status.{
  ScheduledRunDisposition, ScheduledSessionStatus, SchedulerClaim, SchedulerClaimDisposition,
  SchedulerSnapshot, SchedulerReceipt, SchedulerStatus, is_open, scheduled_session_status,
}
use agentic_investment_os.Scheduler.Host.{Host, same_cycle, receipt_matches_session}
use agentic_investment_os.Scheduler.Ledger.{Database}
use agentic_investment_os.Scheduler.Operations.{claim, record_outcome, snapshot}
use agentic_investment_os.Scheduler.Enumeration.{session_windows_through, next_session_window}

-- The clock, `Advance` and `Status` are processes of their own: each acts on the rest of the host,
-- `Outside`. `Advance` may answer with something that is no receipt, `Status` with something that is
-- no status; a status tells the pinned cycle, if a run is pinned.
pub record Outside (Receipt S : Type 0) : Type 0 where
  pub now : S → UtcInstant × S
  pub advance : SchedulerPolicy → MarketSession → S → Option Receipt × S
  pub lifecycle_status : S → Option (Option MarketSession) × S

pub record World (S : Type 0) : Type 0 where
  pub ledger : Database
  pub outside : S
  -- The calls of `Advance` with the ledger at each call, the latest first: an account of the run
  -- that statements about it read, and no code does
  pub advanced : List (MarketSession × Database)

abbrev pub Run : Type 0 → Type 0 → Type 0
Run S A = World S → Result A × World S

module _ {S A B : Type 0} where
  abbrev pub continue : Result A → (A → Run S B) → World S → Result B × World S
  continue (ok a) f s = f a s
  continue (err e) f s = (err e, s)

  infixl 5 ◌>>=◌ ◌>>◌
  unfoldable pub ◌>>=◌ : Run S A → (A → Run S B) → Run S B
  ◌>>=◌ m f s = let (r, s') = m s in continue r f s'

  abbrev pub ◌>>◌ : Run S A → Run S B → Run S B
  m >> k = m >>= λ _. k

module _ {S A : Type 0} where
  unfoldable pub pure : A → Run S A
  pure a s = (ok a, s)

  unfoldable pub lift : Result A → Run S A
  lift r s = (r, s)

  abbrev pub committed : Result (A × Database) → Run S A
  committed (ok (a, db)) s = (ok a, record s { ledger = db })
  committed (err e) s = (err e, s)

  -- An operation of the ledger is one transaction: the ledger changes only if it succeeds.
  unfoldable pub transact : (Database → Result (A × Database)) → Run S A
  transact f s = committed (f s.ledger) s

unfoldable pub raise_if : {S : Type 0} → Bool → Error → Run S (Unit {0})
raise_if bad e s = (if bad then err e else ok tt, s)

-- `dict[MarketSession, ScheduledSessionStatus]`: a status is kept under its own cycle.
unfoldable pub get : MarketSession → List ScheduledSessionStatus → Option ScheduledSessionStatus
get c [] = none
get c (s ∷ ss) = if same_cycle s.cycle c then some s else get c ss

unfoldable pub put :
    ScheduledSessionStatus → List ScheduledSessionStatus → List ScheduledSessionStatus
put s [] = s ∷ []
put s (t ∷ ts) = if same_cycle t.cycle s.cycle then s ∷ ts else t ∷ put s ts

-- `{item.cycle: item for item in sessions}`, added to a dictionary
unfoldable pub put_all :
    List ScheduledSessionStatus → List ScheduledSessionStatus → List ScheduledSessionStatus
put_all completed [] = completed
put_all completed (s ∷ ss) = put_all (put s completed) ss

-- `dict[MarketSession, SessionWindow]`
unfoldable pub put_window : SessionWindow → List SessionWindow → List SessionWindow
put_window w [] = w ∷ []
put_window w (v ∷ vs) = if same_cycle v.cycle w.cycle then w ∷ vs else v ∷ put_window w vs

abbrev pub is_open_status : Option ScheduledSessionStatus → Bool
is_open_status none = false
is_open_status (some s) = is_open s.disposition

-- `_due_priority`; the second component, the date, is compared by `key_le`.
unfoldable pub due_priority : SessionWindow → UtcInstant → List ScheduledSessionStatus → ℕ
due_priority w observed_at completed =
    if is_open_status (get w.cycle completed)
    then 0
    else if leb observed_at.value w.missed_at.value
    then 1
    else 2

-- The order of the pairs that `_due_priority` returns.
unfoldable pub key_le :
    UtcInstant → List ScheduledSessionStatus → SessionWindow → SessionWindow → Bool
key_le observed_at completed v w =
    let a = due_priority v observed_at completed in
    let b = due_priority w observed_at completed in
    ltb a b || (a == b && leb v.cycle.trading_date w.cycle.trading_date)

unfoldable pub insert_window :
    UtcInstant
    → List ScheduledSessionStatus
    → SessionWindow
    → List SessionWindow
    → List SessionWindow
insert_window observed_at completed w [] = w ∷ []
insert_window observed_at completed w (v ∷ vs) =
    let rest = insert_window observed_at completed w vs in
    if key_le observed_at completed w v then w ∷ v ∷ vs else v ∷ rest

-- `sorted`, which is stable
unfoldable pub sort_windows :
    UtcInstant → List ScheduledSessionStatus → List SessionWindow → List SessionWindow
sort_windows observed_at completed [] = []
sort_windows observed_at completed (w ∷ ws) =
    insert_window observed_at completed w (sort_windows observed_at completed ws)

-- `_require_current_clock` raises if this holds.
unfoldable pub is_rolled_back : UtcInstant → List ScheduledSessionStatus → Bool
is_rolled_back at [] = false
is_rolled_back at (s ∷ ss) = ltb at.value s.recorded_at.value || is_rolled_back at ss
