-- ===== src/Scheduler/Run/Sound.antt =====
-- The steps of a run of application/scheduler.py, and the ledger that each of them leaves.
use agentic_investment_os.Prelude.{
  ◌≡◌, refl, sym, subst, ◌∙◌, Bool, true, some, List, All, Result, Error, ok, err, arith, inl, inr,
  ◌⊎◌,
}
use agentic_investment_os.Temporal.{UtcInstant}
use agentic_investment_os.Scheduler.Policy.{MarketSession, SchedulerPolicy}
use agentic_investment_os.Scheduler.Window.{SessionWindow}
use agentic_investment_os.Scheduler.Status.{ScheduledSessionStatus, SchedulerClaim, is_open}
use agentic_investment_os.Scheduler.Host.{Host, HostLaws}
use agentic_investment_os.Scheduler.Ledger.{Database}
use agentic_investment_os.Scheduler.Ledger.Valid.{IsServed, policy_window}
use agentic_investment_os.Scheduler.Ledger.Append.{status_of}
use agentic_investment_os.Scheduler.Operations.{claim, record_outcome}
use agentic_investment_os.Scheduler.Operations.Preserves.{Keeps}
use agentic_investment_os.Scheduler.Operations.Ownership.{is_owner}
use agentic_investment_os.Scheduler.Operations.Reachable.{Extends, Extends-Keeps}
use agentic_investment_os.Scheduler.Run.Pinned.{claim-Keeps_at, owner_holds_at, outcome-Keeps_at}
use agentic_investment_os.Scheduler.Run.{
  Outside, World, Run, ◌>>=◌, continue, pure, lift, transact, raise_if,
}
use agentic_investment_os.Scheduler.Run.Loop.{
  now, advance, lifecycle_status, perform_owned, claim_window,
}

Result-cases : {A : Type 0} (r : Result A) → ((a : A) × (r ≡ ok a)) ⊎ ((e : _) × (r ≡ err e))
Result-cases (ok a) = inl (a, refl)
Result-cases (err e) = inr (e, refl)

module _ {Receipt : Type 0} (h : Host Receipt) (p : SchedulerPolicy) where
  -- A window of the policy, of a session that it serves.
  pub record IsWindow (w : SessionWindow) : Type 0 where
    pub served : IsServed p w.cycle
    pub own : w ≡ policy_window h p w.cycle

  -- A call of `Advance` for a session whose intent the ledger already holds: its status was open.
  pub record Intended (call : MarketSession × Database) : Type 0 where
    pub current : ScheduledSessionStatus
    pub durable : status_of (policy_window h p call.0) call.1.events ≡ some current
    pub opens : is_open current.disposition ≡ true

  module _ {S : Type 0} (start : Database) where
    -- Between two steps of a run that began with the ledger `start`.
    pub record IsSound (s : World S) : Type 0 where
      pub extends : Extends h start s.ledger
      pub policy : s.ledger.policy ≡ p
      pub intended : All Intended s.advanced

module _ {Receipt S : Type 0} (h : Host Receipt) (laws : HostLaws h) (o : Outside Receipt S)
    (p : SchedulerPolicy) (start : Database) where
  abbrev pub Sound : World S → Type 0
  Sound = IsSound h p start

  Sound-Keeps :
      (s : World S) (c : MarketSession) (db' : Database)
      → Sound s
      → Keeps h s.ledger c db'
      → Sound (record s { ledger = db' })
  Sound-Keeps s c db' x k = record {
    extends = Extends-Keeps h laws c x.extends k;
    policy = k.policy ∙ x.policy;
    intended = x.intended;
  }

  Sound-outside : (s : World S) (outside : S) → Sound s → Sound (record s { outside = outside })
  Sound-outside s outside x = record {
    extends = x.extends;
    policy = x.policy;
    intended = x.intended;
  }

  -- An action of a run that keeps it sound, whether it returns or raises.
  pub record Preserves {A : Type 0} (m : Run S A) : Type 0 where
    pub at : (s : World S) → Sound s → Sound (m s).1

  module _ {A : Type 0} where
    pub Preserves-pure : (a : A) → Preserves (pure a)
    unfolding pure
    Preserves-pure a = record { at = λ s x. x }

    pub Preserves-lift : (r : Result A) → Preserves (lift r)
    unfolding lift
    Preserves-lift r = record { at = λ s x. x }

  pub Preserves-raise_if : (bad : Bool) (e : Error) → Preserves (raise_if bad e)
  unfolding raise_if
  Preserves-raise_if bad e = record { at = λ s x. x }

  pub Preserves-now : Preserves (now h o p)
  unfolding now
  Preserves-now = record { at = λ s x. Sound-outside s _ x }

  pub Preserves-lifecycle_status : Preserves (lifecycle_status h o p)
  unfolding lifecycle_status
  Preserves-lifecycle_status = record { at = λ s x. Sound-outside s _ x }

  module _ {A B : Type 0} where
    -- A step and its continuation.
    pub Sound-bind :
        (m : Run S A) (f : A → Run S B) (s : World S)
        → Sound (m s).1
        → ((a : A) → Preserves (f a))
        → Sound ((m >>= f) s).1
    unfolding ◌>>=◌
    Sound-bind m f s x k = go (m s).0
      where
        go : (r : Result A) → Sound (continue r f (m s).1).1
        go (ok a) = (k a).at (m s).1 x
        go (err e) = x

    pub Preserves-bind :
        (m : Run S A) (f : A → Run S B)
        → Preserves m
        → ((a : A) → Preserves (f a))
        → Preserves (m >>= f)
    Preserves-bind m f km kf = record { at = λ s x. Sound-bind m f s (km.at s x) kf }

  pub ruleset preserves_rules = (
    Preserves-pure, Preserves-lift, Preserves-raise_if, Preserves-now, Preserves-lifecycle_status,
    Preserves-bind,
  )

  -- Recording an outcome.
  Preserves-outcome :
      (w : SessionWindow) (cl : SchedulerClaim) (r : Receipt) (at : UtcInstant)
      → IsWindow h p w
      → cl.window ≡ w
      → Preserves (transact (record_outcome h p cl r at))
  unfolding transact
  Preserves-outcome w cl r at window own = record {
    at = λ s x. elim (Result-cases (record_outcome h p cl r at s.ledger)) [
      | inl ((status, db'), done) ↦ rw done (
          Sound-Keeps s w.cycle db' x (
            outcome-Keeps_at h laws p s.ledger w.cycle at cl r status db' x.extends.valid x.policy
              window.served (own ∙ window.own) done))
      | inr (e, failed) ↦ rw failed x
    ];
  }

  -- A lifecycle call of a session whose intent is durable.
  advance-Sound :
      (w : SessionWindow) (current : ScheduledSessionStatus) (s : World S)
      → IsWindow h p w
      → status_of w s.ledger.events ≡ some current
      → is_open current.disposition ≡ true
      → Sound s
      → Sound (advance h o p w.cycle s).1
  unfolding advance
  advance-Sound w current s window durable opens x = record {
    extends = x.extends;
    policy = x.policy;
    intended = (
      record {
        current = current;
        durable = subst (λ u. status_of u s.ledger.events ≡ some current) window.own durable;
        opens = opens;
      },
      x.intended,
    );
  }

  pub perform_owned-Sound :
      (w : SessionWindow) (cl : SchedulerClaim) (s : World S)
      → IsWindow h p w
      → status_of w s.ledger.events ≡ some cl.status
      → is_open cl.status.disposition ≡ true
      → cl.window ≡ w
      → Sound s
      → Sound (perform_owned h o p w cl s).1
  unfolding perform_owned
  perform_owned-Sound w cl s window durable opens own x =
      Sound-bind (advance h o p w.cycle) _ s (advance-Sound w cl.status s window durable opens x)
        λ receipt. search (
          preserves_rules,
          λ (r : Receipt) (at : UtcInstant). Preserves-outcome w cl r at window own,
        )

  -- An action that keeps the run sound, and where it returns leaves `Q` of its result.
  pub record Yields {A : Type 0} (Q : A → World S → Type 0) (m : Run S A) : Type 0 where
    pub at : (s : World S) → Sound s → Sound (m s).1 × ((a : A) → (m s).0 ≡ ok a → Q a (m s).1)

  module _ {A B : Type 0} where
    pub Preserves-Yields :
        (Q : A → World S → Type 0) (m : Run S A) (f : A → Run S B)
        → Yields Q m
        → ((a : A) (s : World S) → Sound s → Q a s → Sound (f a s).1)
        → Preserves (m >>= f)
    unfolding ◌>>=◌
    Preserves-Yields Q m f ym kf = record {
      at = λ s x. let (x', q) = ym.at s x in go (m s).0 (m s).1 x' q;
    }
      where
        go :
            (r : Result A) (s : World S)
            → Sound s
            → ((a : A) → r ≡ ok a → Q a s)
            → Sound (continue r f s).1
        go (ok a) s x q = kf a s x (q a refl)
        go (err e) s x q = x

    pub Yields-bind :
        (Q : B → World S → Type 0) (m : Run S A) (f : A → Run S B)
        → Preserves m
        → ((a : A) → Yields Q (f a))
        → Yields Q (m >>= f)
    unfolding ◌>>=◌
    Yields-bind Q m f km kf = record { at = λ s x. go (m s).0 (m s).1 (km.at s x) }
      where
        go :
            (r : Result A) (s : World S)
            → Sound s
            → Sound (continue r f s).1
              × ((b : B) → (continue r f s).0 ≡ ok b → Q b (continue r f s).1)
        go (ok a) s x = (kf a).at s x
        go (err e) s x = (x, λ b e. absurd (ground arith))

  -- What an owner's claim leaves: the open status of its attempt.
  abbrev pub Holds : SessionWindow → SchedulerClaim → World S → Type 0
  Holds w cl s =
      is_owner cl.disposition ≡ true
      → (status_of w s.ledger.events ≡ some cl.status)
        × (is_open cl.status.disposition ≡ true)
        × (cl.window ≡ w)

  Yields-claim :
      (w : SessionWindow) (at : UtcInstant)
      → IsWindow h p w
      → Yields (Holds w) (transact (claim h p w at))
  unfolding transact
  Yields-claim w at window = record {
    at = λ s x. elim (Result-cases (claim h p w at s.ledger)) [
      | inl ((cl, db'), done) ↦
          let done' = subst (λ u. claim h p u at s.ledger ≡ ok (cl, db')) window.own done in
          rw done (
            Sound-Keeps s w.cycle db' x (
                claim-Keeps_at h laws p s.ledger w.cycle at cl db' x.extends.valid x.policy
                  window.served done'),
            λ a e own.
                let same : cl ≡ a = ground arith in
                subst (λ b. Holds w b (record s { ledger = db' })) same
                  (λ own'.
                    subst
                      (λ u.
                        (status_of u db'.events ≡ some cl.status)
                        × (is_open cl.status.disposition ≡ true)
                        × (cl.window ≡ u))
                      (sym window.own)
                      (owner_holds_at h laws p s.ledger w.cycle at cl db' x.extends.valid x.policy
                        window.served done' own'))
                  own,
          )
      | inr (e, failed) ↦ rw failed (x, λ a e'. absurd (ground arith))
    ];
  }

  pub Yields-claim_window :
      (w : SessionWindow) (observed_at : UtcInstant) (completed : List ScheduledSessionStatus)
      → IsWindow h p w
      → Yields (Holds w) (claim_window h o p observed_at w completed)
  unfolding claim_window
  Yields-claim_window w observed_at completed window =
      search (preserves_rules, Yields-bind, λ (at : UtcInstant). Yields-claim w at window) depth 9
