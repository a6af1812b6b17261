-- ===== src/Scheduler/Run/Windows.antt =====
-- The windows that `_run_due` of application/scheduler.py visits.
use agentic_investment_os.Prelude.{
  ◌≤◌, ◌≡◌, refl, sym, subst, ap, Bool, true, not, ◌||◌, Option, none, some, List, [], ◌∷◌, All,
  IsIn, ok, arith, Option-cases, inl, inr, ltb, if◌then◌else◌, >>=-eq-ok, raise_if, invalid,
  policy_conflict, policy_conflict,
}
use agentic_investment_os.Temporal.{UtcInstant}
use agentic_investment_os.Scheduler.Zone.{ZoneLaws}
use agentic_investment_os.Scheduler.Policy.{
  MarketSession, SchedulerPolicy, policy_eq, policy_is_valid, calendar_supports,
}
use agentic_investment_os.Scheduler.Window.{SessionWindow, session_window, build_session_window}
use agentic_investment_os.Scheduler.Window.Laws.{build_session_window-inv}
use agentic_investment_os.Scheduler.Status.{
  ScheduledSessionStatus, SchedulerSnapshot, scheduled_session_status,
}
use agentic_investment_os.Scheduler.Host.{Host}
use agentic_investment_os.Scheduler.History.{Row, row_status, status_from_history}
use agentic_investment_os.Scheduler.Ledger.{Database, distinct_cycles, load_cycle}
use agentic_investment_os.Scheduler.Ledger.Valid.{IsServed, policy_window}
use agentic_investment_os.Scheduler.Operations.{snapshot, snapshot_sessions}
use agentic_investment_os.Scheduler.Enumeration.{session_windows_through}
use agentic_investment_os.Scheduler.Enumeration.Due.{supported}
use agentic_investment_os.Scheduler.Enumeration.Listing.{listed-iff-IsDue}
use agentic_investment_os.Scheduler.Run.{put_window, insert_window, sort_windows}
use agentic_investment_os.Scheduler.Run.Due.{
  open_window, put_found, put_current, put_open, due_session_windows,
}
use agentic_investment_os.Scheduler.Run.Sound.{IsWindow}

All-of_IsIn : {A : Type 0} (P : A → Type 0) (xs : List A) → ((a : A) → IsIn a xs → P a) → All P xs
All-of_IsIn P [] f = tt
All-of_IsIn P (x ∷ xs) f = (f x (inl refl), All-of_IsIn P xs (λ a i. f a (inr i)))

module _ (P : SessionWindow → Type 0) where
  All-put_window :
      (w : SessionWindow) (ws : List SessionWindow) → P w → All P ws → All P (put_window w ws)
  unfolding put_window
  All-put_window w [] p ps = (p, tt)
  All-put_window w (v ∷ vs) p ps = ground (arith, All-put_window w vs p ps.1)

  All-put_current :
      (b : Bool) (at : UtcInstant) (ws vs : List SessionWindow)
      → All P ws
      → All P vs
      → All P (put_current b at ws vs)
  unfolding put_current
  All-put_current b at ws [] ps qs = ps
  All-put_current b at ws (v ∷ vs) ps qs =
      All-put_current b at (if b || ltb v.missed_at.value at.value then put_window v ws else ws) vs
        (ground (arith, All-put_window v ws qs.0 ps)) qs.1

  All-insert_window :
      (at : UtcInstant) (completed : List ScheduledSessionStatus) (w : SessionWindow)
      (ws : List SessionWindow)
      → P w
      → All P ws
      → All P (insert_window at completed w ws)
  unfolding insert_window
  All-insert_window at completed w [] p ps = (p, tt)
  All-insert_window at completed w (v ∷ vs) p ps =
      ground (arith, All-insert_window at completed w vs p ps.1)

  -- Sorting keeps what holds of every window.
  pub All-sort_windows :
      (at : UtcInstant) (completed : List ScheduledSessionStatus) (ws : List SessionWindow)
      → All P ws
      → All P (sort_windows at completed ws)
  unfolding sort_windows
  All-sort_windows at completed [] ps = tt
  All-sort_windows at completed (w ∷ ws) ps =
      All-insert_window at completed w (sort_windows at completed ws) ps.0
        (All-sort_windows at completed ws ps.1)

-- A session from the policy's first on.
abbrev IsActive : SchedulerPolicy → ScheduledSessionStatus → Type 0
IsActive p s = p.first_session.trading_date ≤ s.cycle.trading_date

module _ {Receipt : Type 0} (h : Host Receipt) (p : SchedulerPolicy) where
  status_cycle :
      (w : SessionWindow) (rows : List Row) (s : ScheduledSessionStatus)
      → status_from_history w rows ≡ ok (some s)
      → s.cycle ≡ w.cycle
  unfolding status_from_history scheduled_session_status row_status
  status_cycle w rows s e = ground arith

  session-IsActive :
      (w : SessionWindow) (c : MarketSession) (rows : List Row) (s : ScheduledSessionStatus)
      → build_session_window h.zone c p.advance_minutes_before_open p.maximum_lateness_minutes
        ≡ ok (some w)
      → raise_if (ltb c.trading_date p.first_session.trading_date) invalid ≡ ok tt
      → status_from_history w rows ≡ ok (some s)
      → IsActive p s
  unfolding session_window
  session-IsActive w c rows s built active found =
      let (_, own) =
        build_session_window-inv h.zone c p.advance_minutes_before_open p.maximum_lateness_minutes w
          built in
      let e = status_cycle w rows s found in ground (arith, own)

  snapshot_sessions-IsActive :
      (rows : List Row) (cs : List MarketSession) (ss : List ScheduledSessionStatus)
      → snapshot_sessions h p rows cs ≡ ok ss
      → All (IsActive p) ss
  unfolding snapshot_sessions
  snapshot_sessions-IsActive rows [] ss e =
      let same : [] ≡ ss = ground arith in subst (All (IsActive p)) same tt
  snapshot_sessions-IsActive rows (c ∷ cs) ss e =
      let (o, built, e1) =
        >>=-eq-ok
          (build_session_window h.zone c p.advance_minutes_before_open p.maximum_lateness_minutes) _
          e in
      elim (Option-cases o) [
        | inl missing ↦ absurd (ground arith)
        | inr (w, is_w) ↦
            let (u, active, e2) =
              >>=-eq-ok (raise_if (ltb c.trading_date p.first_session.trading_date) invalid) _
                (rw is_w at e1) in
            let (history, loaded, e3) = >>=-eq-ok (load_cycle h w rows) _ e2 in
            let (last, found, e4) = >>=-eq-ok (status_from_history w history) _ e3 in
            elim (Option-cases last) [
              | inl missing ↦ absurd (ground arith)
              | inr (s, is_s) ↦
                  let (rest, others, e5) =
                    >>=-eq-ok (snapshot_sessions h p rows cs) _ (rw is_s at e4) in
                  let same : s ∷ rest ≡ ss = ground arith in
                  subst (All (IsActive p)) same (
                    session-IsActive w c history s (rw is_w at built) active (rw is_s at found),
                    snapshot_sessions-IsActive rows cs rest others,
                  )
            ]
      ]

module _ {Receipt : Type 0} (h : Host Receipt) (p : SchedulerPolicy) where
  opened :
      (s : ScheduledSessionStatus) (w : SessionWindow)
      → open_window h.zone p s ≡ ok (some w)
      → build_session_window h.zone s.cycle p.advance_minutes_before_open p.maximum_lateness_minutes
        ≡ ok (some w)
  opened s w e = ground arith

module _ {Receipt : Type 0} (h : Host Receipt) (p : SchedulerPolicy) (laws : ZoneLaws h.zone)
    (valid : policy_is_valid p ≡ true) where
  through-IsWindow :
      (at : UtcInstant) (ws : List SessionWindow)
      → session_windows_through h.zone p at ≡ ok ws
      → All (IsWindow h p) ws
  unfolding session_window
  through-IsWindow at ws e = All-of_IsIn (IsWindow h p) ws λ w i.
      let due = (listed-iff-IsDue h.zone p laws valid at ws e w).0 i in
      record {
        served = (supported h.zone p laws valid w.cycle.trading_date due.regular, due.from);
        own = due.own;
      }

  put_found-IsWindow :
      (s : ScheduledSessionStatus) (o : Option SessionWindow) (ws : List SessionWindow)
      → open_window h.zone p s ≡ ok o
      → IsActive p s
      → All (IsWindow h p) ws
      → All (IsWindow h p) (put_found o ws)
  unfolding session_window
  put_found-IsWindow s none ws e active ps = ps
  put_found-IsWindow s (some w) ws e active ps =
      let built = opened h p s w e in
      let (fits, own) =
        build_session_window-inv h.zone s.cycle p.advance_minutes_before_open
          p.maximum_lateness_minutes w built in
      let c : s.cycle ≡ w.cycle = sym (ap (λ (u : SessionWindow). u.cycle) own) in
      All-put_window (IsWindow h p) w ws
        (record {
          served = subst (IsServed p) c (fits, active);
          own = subst (λ d. w ≡ policy_window h p d) c own;
        })
        ps

  put_open-IsWindow :
      (ws : List SessionWindow) (ss : List ScheduledSessionStatus) (vs : List SessionWindow)
      → All (IsWindow h p) ws
      → All (IsActive p) ss
      → put_open h.zone p ws ss ≡ ok vs
      → All (IsWindow h p) vs
  unfolding put_open
  put_open-IsWindow ws [] vs ps qs e =
      let same : ws ≡ vs = ground arith in subst (All (IsWindow h p)) same ps
  put_open-IsWindow ws (s ∷ ss) vs ps qs e =
      let (o, found, e1) = >>=-eq-ok (open_window h.zone p s) _ e in
      put_open-IsWindow (put_found o ws) ss vs (put_found-IsWindow s o ws found qs.0 ps) qs.1 e1

  -- The windows that a run acts on.
  pub due_session_windows-IsWindow :
      (db : Database) (at : UtcInstant) (snap : SchedulerSnapshot) (ws : List SessionWindow)
      → snapshot h p db ≡ ok snap
      → due_session_windows h.zone p at snap.sessions ≡ ok ws
      → All (IsWindow h p) ws
  unfolding snapshot due_session_windows
  due_session_windows-IsWindow db at snap ws seen e =
      let (u, pinned, e1) =
        >>=-eq-ok (raise_if (not (policy_eq db.policy p)) policy_conflict) _ seen in
      let (ss, loaded, e2) =
        >>=-eq-ok (snapshot_sessions h p db.events (distinct_cycles db.events)) _ e1 in
      let same : ss ≡ snap.sessions = ground arith in
      let (through, listed, e3) = >>=-eq-ok (session_windows_through h.zone p at) _ e in
      put_open-IsWindow (put_current (calendar_supports h.zone at) at [] through) snap.sessions ws
        (All-put_current (IsWindow h p) (calendar_supports h.zone at) at [] through tt
          (through-IsWindow at through listed))
        (subst (All (IsActive p)) same
          (snapshot_sessions-IsActive h p db.events (distinct_cycles db.events) ss loaded))
        e3
