-- ===== src/Scheduler/Run/Safety.antt =====
-- `_run_due` of application/scheduler.py as a whole, and what it leaves in the ledger.
use agentic_investment_os.Prelude.{
  ℕ, ◌+◌, ◌≡◌, refl, sym, Bool, true, false, not, ◌&&◌, List, [], ◌∷◌, All, Result, ok, is_none,
  leb, if◌then◌else◌, calendar_unavailable, append-nil,
}
use agentic_investment_os.Temporal.{UtcInstant}
use agentic_investment_os.Scheduler.Policy.{SchedulerPolicy, policy_is_valid, calendar_supports}
use agentic_investment_os.Scheduler.Window.{SessionWindow}
use agentic_investment_os.Scheduler.Status.{
  ScheduledSessionStatus, SchedulerClaim, SchedulerClaimDisposition, SchedulerSnapshot,
}
use agentic_investment_os.Scheduler.Host.{Host, HostLaws}
use agentic_investment_os.Scheduler.Ledger.{Database}
use agentic_investment_os.Scheduler.Ledger.Valid.{IsValid}
use agentic_investment_os.Scheduler.Operations.{snapshot}
use agentic_investment_os.Scheduler.Operations.Ownership.{is_owner}
use agentic_investment_os.Scheduler.Run.{
  Outside, World, Run, ◌>>=◌, ◌>>◌, lift, raise_if, get, put, put_all, sort_windows, is_open_status,
}
use agentic_investment_os.Scheduler.Run.Due.{due_session_windows}
use agentic_investment_os.Scheduler.Run.Loop.{
  now, take_snapshot, perform_owned, after_claim, claim_window, is_empty, visit, run_windows,
  report, run_due,
}
use agentic_investment_os.Scheduler.Run.Sound.{
  IsWindow, Intended, IsSound, Sound, Preserves, Yields, Holds, preserves_rules, Preserves-pure,
  Preserves-bind, Preserves-now, Preserves-raise_if, Preserves-Yields, Sound-bind,
  perform_owned-Sound, Yields-claim_window,
}
use agentic_investment_os.Scheduler.Run.Windows.{All-sort_windows, due_session_windows-IsWindow}

module _ {Receipt S : Type 0} (h : Host Receipt) (laws : HostLaws h) (o : Outside Receipt S)
    (p : SchedulerPolicy) (valid : policy_is_valid p ≡ true) (start : Database) where
  abbrev Kept : {A : Type 0} → Run S A → Type 0
  Kept m = Preserves h laws o p start m

  abbrev SoundWorld : World S → Type 0
  SoundWorld = Sound h laws o p start

  abbrev KeptRest : (List ScheduledSessionStatus → ℕ → Run S (Unit {0})) → Type 0
  KeptRest rest =
      (completed : List ScheduledSessionStatus) (actions : ℕ) → Kept (rest completed actions)

  Kept-if : {A : Type 0} {m n : Run S A} (b : Bool) → Kept m → Kept n → Kept (if b then m else n)
  Kept-if true km kn = km
  Kept-if false km kn = kn

  owned_then_rest :
      (w : SessionWindow) (cl : SchedulerClaim)
      (rest : List ScheduledSessionStatus → ℕ → Run S (Unit {0}))
      (completed : List ScheduledSessionStatus) (actions : ℕ) (s : World S)
      → IsWindow h p w
      → KeptRest rest
      → is_owner cl.disposition ≡ true
      → SoundWorld s
      → Holds h laws o p start w cl s
      → SoundWorld ((perform_owned h o p w cl >>= λ t. rest (put t completed) actions) s).1
  owned_then_rest w cl rest completed actions s window kept own x holds =
      let (durable, opens, same) = holds own in
      Sound-bind h laws o p start (perform_owned h o p w cl) _ s
        (perform_owned-Sound h laws o p start w cl s window durable opens same x)
        (λ t. kept (put t completed) actions)

  after_claim-Sound :
      (d : SchedulerClaimDisposition) (w : SessionWindow) (cl : SchedulerClaim)
      (rest : List ScheduledSessionStatus → ℕ → Run S (Unit {0}))
      (completed : List ScheduledSessionStatus) (actions : ℕ) (s : World S)
      → d ≡ cl.disposition
      → IsWindow h p w
      → KeptRest rest
      → SoundWorld s
      → Holds h laws o p start w cl s
      → SoundWorld (after_claim h o p d w cl rest completed actions s).1
  unfolding after_claim
  after_claim-Sound SchedulerClaimDisposition.wait w cl rest completed actions s e window kept x
        holds =
      (Preserves-pure h laws o p start tt).at s x
  after_claim-Sound SchedulerClaimDisposition.terminal w cl rest completed actions s e window kept x
        holds =
      (kept (put cl.status completed) actions).at s x
  after_claim-Sound SchedulerClaimDisposition.missed w cl rest completed actions s e window kept x
        holds =
      (kept (put cl.status completed) actions).at s x
  after_claim-Sound SchedulerClaimDisposition.start w cl rest completed actions s e window kept x
        holds =
      owned_then_rest w cl rest completed actions s window kept (rw (← e) refl) x holds
  after_claim-Sound SchedulerClaimDisposition.resume w cl rest completed actions s e window kept x
        holds =
      owned_then_rest w cl rest completed actions s window kept (rw (← e) refl) x holds

  claim_then-Kept :
      (at : UtcInstant) (w : SessionWindow)
      (rest : List ScheduledSessionStatus → ℕ → Run S (Unit {0}))
      (completed : List ScheduledSessionStatus) (actions : ℕ)
      → IsWindow h p w
      → KeptRest rest
      → Kept (
          claim_window h o p at w completed >>= λ cl.
          after_claim h o p cl.disposition w cl rest completed (actions + 1))
  claim_then-Kept at w rest completed actions window kept =
      Preserves-Yields h laws o p start (Holds h laws o p start w)
        (claim_window h o p at w completed) _
        (Yields-claim_window h laws o p start w at completed window)
        λ cl s x holds.
          after_claim-Sound cl.disposition w cl rest completed (actions + 1) s refl window kept x
            holds

  visit-Kept :
      (at : UtcInstant) (w : SessionWindow)
      (rest : List ScheduledSessionStatus → ℕ → Run S (Unit {0}))
      (completed : List ScheduledSessionStatus) (actions : ℕ)
      → IsWindow h p w
      → KeptRest rest
      → Kept (visit h o p at w rest completed actions)
  unfolding visit
  visit-Kept at w rest completed actions window kept =
      Kept-if
        (not (is_none (get w.cycle completed)) && not (is_open_status (get w.cycle completed)))
        (kept completed actions)
        (Kept-if (leb p.maximum_actions_per_run actions) (Preserves-pure h laws o p start tt)
          (claim_then-Kept at w rest completed actions window kept))

  run_windows-Kept :
      (at : UtcInstant) (ws : List SessionWindow)
      → All (IsWindow h p) ws
      → KeptRest (run_windows h o p at ws)
  unfolding run_windows
  run_windows-Kept at [] ps completed actions = Preserves-pure h laws o p start tt
  run_windows-Kept at (w ∷ ws) ps completed actions =
      visit-Kept at w (run_windows h o p at ws) completed actions ps.0 (run_windows-Kept at ws ps.1)

  Yields-take_snapshot :
      Yields h laws o p start (λ snap s. snapshot h p s.ledger ≡ ok snap) (take_snapshot h o p)
  unfolding take_snapshot
  Yields-take_snapshot = record { at = λ s x. (x, λ snap e. e) }

  Yields-lift : {A : Type 0} (r : Result A) → Yields h laws o p start (λ a s. r ≡ ok a) (lift r)
  unfolding lift
  Yields-lift r = record { at = λ s x. (x, λ a e. e) }

  Kept-take_snapshot : Kept (take_snapshot h o p)
  unfolding take_snapshot
  Kept-take_snapshot = record { at = λ s x. x }

  Kept-report : Kept (report h o p)
  unfolding report
  Kept-report = search (preserves_rules, Kept-take_snapshot) depth 12

  Kept-sorted :
      (at : UtcInstant) (snap : SchedulerSnapshot) (due : List SessionWindow)
      → All (IsWindow h p) due
      → Kept (
          raise_if (is_empty due && not (calendar_supports h.zone at)) calendar_unavailable
          >> (run_windows h o p at
                (sort_windows at (put_all [] snap.sessions) due)
                (put_all [] snap.sessions)
                0
              >> report h o p))
  Kept-sorted at snap due windows =
      let kept =
        run_windows-Kept at (sort_windows at (put_all [] snap.sessions) due)
          (All-sort_windows (IsWindow h p) at (put_all [] snap.sessions) due windows) in
      search (preserves_rules, Kept-report, kept) depth 8

  Kept-visits :
      (at : UtcInstant) (snap : SchedulerSnapshot) (db : Database)
      → snapshot h p db ≡ ok snap
      → Kept (
          lift (due_session_windows h.zone p at snap.sessions) >>= λ due.
          raise_if (is_empty due && not (calendar_supports h.zone at)) calendar_unavailable
          >> (run_windows h o p at
                (sort_windows at (put_all [] snap.sessions) due)
                (put_all [] snap.sessions)
                0
              >> report h o p))
  Kept-visits at snap db seen =
      Preserves-Yields h laws o p start
        (λ due s. due_session_windows h.zone p at snap.sessions ≡ ok due) _ _
        (Yields-lift (due_session_windows h.zone p at snap.sessions))
        λ due s x found.
          (Kept-sorted at snap due
              (due_session_windows-IsWindow h p laws.zone_laws valid db at snap due seen found)).at
            s x

  Kept-run_due : Kept (run_due h o p)
  unfolding run_due
  Kept-run_due =
      Preserves-bind h laws o p start (now h o p) _ (Preserves-now h laws o p start) λ at.
        Preserves-Yields h laws o p start (λ snap s. snapshot h p s.ledger ≡ ok snap) _ _
          Yields-take_snapshot
          λ snap s x seen.
            (Preserves-bind h laws o p start _ _ (Preserves-raise_if h laws o p start _ _)
                (λ u. Kept-visits at snap s.ledger seen)).at
              s x

  start-Sound :
      (s : World S)
      → s.ledger ≡ start
      → IsValid h start
      → start.policy ≡ p
      → s.advanced ≡ []
      → SoundWorld s
  start-Sound s begins v pinned fresh =
      let all : All (Intended h p) s.advanced = rw fresh tt in
      record {
        extends = rw begins (record {
          valid = v;
          policy = refl;
          added = [];
          grown = sym (append-nil start.events);
        });
        policy = rw begins pinned;
        intended = all;
      }

  -- From a valid ledger of the policy, a run ends with a valid ledger that has only gained events,
  -- whether it returns or raises and whatever the clock and the lifecycle do. Each call of `Advance`
  -- in it was made while the ledger showed its session as started or resumed.
  pub run_due_safe :
      (s : World S)
      → s.ledger ≡ start
      → IsValid h start
      → start.policy ≡ p
      → s.advanced ≡ []
      → IsSound h p start (run_due h o p s).1
  run_due_safe s begins v pinned fresh = Kept-run_due.at s (start-Sound s begins v pinned fresh)
