-- ===== src/Scheduler/Enumeration/Due.antt =====
-- The loop of `session_windows_through` of domain/scheduler.py, by the window of each day.
use agentic_investment_os.Prelude.{
  ℕ, zero, suc, ◌+◌, ◌-◌, ◌≤◌, ◌<◌, ◌≡◌, ◌↔◌, ◌⊎◌, inl, inr, refl, sym, ◌∙◌, ap, subst, min, ◌==◌,
  ◌&&◌, true, false, none, some, List, [], ◌∷◌, ltb, leb, ok, arith, IsIn, Bool-cases,
  if◌then◌else◌,
}
use agentic_investment_os.Temporal.{UtcInstant}
use agentic_investment_os.Calendar.{Date, year}
use agentic_investment_os.Calendar.Year.{year-ge}
use agentic_investment_os.Scheduler.Zone.{Zone, ZoneLaws}
use agentic_investment_os.Scheduler.Policy.{SchedulerPolicy, policy_is_valid, is_regular_session}
use agentic_investment_os.Scheduler.Window.{SessionWindow, session_window, build_session_window}
use agentic_investment_os.Scheduler.Window.Laws.{
  IsSupported, is_regular_session_range, build_session_window-supported,
}
use agentic_investment_os.Scheduler.Enumeration.{
  policy_session, due_windows, session_windows_through, last_day,
}

module _ (z : Zone) (p : SchedulerPolicy) where
  -- The window of a date under the policy.
  abbrev pub window_on : Date → SessionWindow
  window_on d =
      session_window z (record { trading_date = d }) p.advance_minutes_before_open
        p.maximum_lateness_minutes

  -- The window of a regular session from `first` up to but not at `end`, scheduled no later than `at`.
  pub record IsDue (at : UtcInstant) (first end : Date) (w : SessionWindow) : Type 0 where
    pub from : first ≤ w.cycle.trading_date
    pub before : w.cycle.trading_date < end
    pub regular : is_regular_session w.cycle.trading_date ≡ true
    pub own : w ≡ window_on w.cycle.trading_date
    pub scheduled : w.scheduled_at.value ≤ at.value

  module _ (laws : ZoneLaws z) (valid : policy_is_valid p ≡ true) where
    pub supported :
        (d : Date)
        → is_regular_session d ≡ true
        → IsSupported
            (record { trading_date = d })
            p.advance_minutes_before_open
            p.maximum_lateness_minutes
    unfolding policy_is_valid
    supported d r = ground arith

    pub policy_session-lem :
        (d : Date)
        → policy_session z p d ≡ ok (if is_regular_session d then some (window_on d) else none)
    unfolding policy_session
    policy_session-lem d = elim (Bool-cases (is_regular_session d)) [
      | inl r ↦ rw r (
          build_session_window-supported z laws (record { trading_date = d })
            p.advance_minutes_before_open p.maximum_lateness_minutes (supported d r))
      | inr r ↦ rw r (unfold build_session_window in ground arith)
    ]

    window_on-date : (d : Date) → (window_on d).cycle.trading_date ≡ d
    unfolding session_window
    window_on-date d = refl

    module _ (at : UtcInstant) where
      -- A window of a day that has none due is one of a later day.
      not_today :
          (d end : Date) (w : SessionWindow)
          → (is_regular_session d ≡ false) ⊎ (at.value < (window_on d).scheduled_at.value)
          → IsDue at d end w
          → d + 1 ≤ w.cycle.trading_date
      not_today d end w no_window x = elim (Bool-cases (w.cycle.trading_date == d)) [
        | inl same ↦
            let e : w.cycle.trading_date ≡ d = ground arith in
            let regular = rw e at x.regular in
            let own = x.own ∙ ap window_on e in let scheduled = x.scheduled in absurd (ground arith)
        | inr other ↦ let low = x.from in ground arith
      ]

      listed-cons :
          (d end : Date) (w : SessionWindow) (ws : List SessionWindow)
          → is_regular_session d ≡ true
          → (window_on d).scheduled_at.value ≤ at.value
          → IsIn w ws ↔ IsDue at (d + 1) end w
          → d < end
          → IsIn w (window_on d ∷ ws) ↔ IsDue at d end w
      unfolding session_window
      listed-cons d end w ws r due ih lt = (
        λ m. elim m [
          | inl e ↦
              subst (IsDue at d end) (sym e) (record {
                from = omega arith;
                before = lt;
                regular = r;
                own = refl;
                scheduled = due;
              })
          | inr i ↦
              let x = ih.0 i in
              record {
                from = let low = x.from in omega arith;
                before = x.before;
                regular = x.regular;
                own = x.own;
                scheduled = x.scheduled;
              }
        ],
        λ x. elim (Bool-cases (w.cycle.trading_date == d)) [
          | inl same ↦
              let e : w.cycle.trading_date ≡ d = ground arith in inl (x.own ∙ ap window_on e)
          | inr other ↦
              let low = x.from in
              inr (
                ih.1 (record {
                  from = ground arith;
                  before = x.before;
                  regular = x.regular;
                  own = x.own;
                  scheduled = x.scheduled;
                }))
        ],
      )

      -- A day without a due window adds nothing.
      listed-skip :
          (d end : Date) (w : SessionWindow) (ws : List SessionWindow)
          → (is_regular_session d ≡ false) ⊎ (at.value < (window_on d).scheduled_at.value)
          → IsIn w ws ↔ IsDue at (d + 1) end w
          → IsIn w ws ↔ IsDue at d end w
      listed-skip d end w ws no_window ih = (
        λ i.
            let x = ih.0 i in
            record {
              from = let low = x.from in omega arith;
              before = x.before;
              regular = x.regular;
              own = x.own;
              scheduled = x.scheduled;
            },
        λ x.
            let low = x.from in
            ih.1 (record {
              from = not_today d end w no_window x;
              before = x.before;
              regular = x.regular;
              own = x.own;
              scheduled = x.scheduled;
            }),
      )

      -- The loop lists the due windows of its days.
      due_windows-lem :
          (days : ℕ) (current : Date)
          → (ws : List SessionWindow) × (due_windows z p at days current ≡ ok ws)
            × ((w : SessionWindow) → IsIn w ws ↔ IsDue at current (current + days) w)
      unfolding due_windows
      due_windows-lem zero current = (
        [],
        refl,
        λ w. (λ i. absurd i, λ x. let low = x.from in let high = x.before in absurd (omega arith)),
      )
      due_windows-lem (suc days) current =
          let (ws, found, listed) = due_windows-lem days (current + 1) in
          let end : current + 1 + days ≡ current + suc days = omega arith in
          let listed' : (w : SessionWindow)
              → IsIn w ws ↔ IsDue at (current + 1) (current + suc days) w =
            λ w. rw (← end) (listed w) in
          elim (Bool-cases
            (is_regular_session current && leb (window_on current).scheduled_at.value at.value)) [
              | inl due ↦ (
                window_on current ∷ ws,
                rw (policy_session-lem current, found) (ground arith),
                λ w.
                    listed-cons current (current + suc days) w ws (ground arith) (ground arith)
                      (listed' w) (omega arith),
              )
              | inr skipped ↦ (
                ws,
                rw (policy_session-lem current, found) (ground arith),
                λ w. listed-skip current (current + suc days) w ws (ground arith) (listed' w),
              )
            ]

      -- The bound on the days may be moved where no regular session lies between.
      IsDue-end :
          {first end end' : Date} {w : SessionWindow}
          → IsDue at first end w
          → w.cycle.trading_date < end'
          → IsDue at first end' w
      IsDue-end x b = record {
        from = x.from;
        before = b;
        regular = x.regular;
        own = x.own;
        scheduled = x.scheduled;
      }

      no_sessions_before :
          (first : Date) (w : SessionWindow)
          → year (z.local_date at) < 2026
          → ¬ IsDue at first (z.local_date at + 1) w
      no_sessions_before first w early x =
          let range = is_regular_session_range w.cycle.trading_date x.regular in
          let before = x.before in let late = year-ge (z.local_date at) (omega arith) in omega arith

      through_days :
          (first : Date) (w : SessionWindow)
          → IsDue at first (first + (min (z.local_date at) last_day + 1 - first)) w
            ↔ IsDue at first (z.local_date at + 1) w
      through_days first w = (
        λ x. let low = x.from in let before = x.before in IsDue-end x (omega arith),
        λ x.
            let low = x.from in
            let before = x.before in
            let range = is_regular_session_range w.cycle.trading_date x.regular in
            IsDue-end x (omega arith),
      )

      pub session_windows_through-lem :
          (ws : List SessionWindow) × (session_windows_through z p at ≡ ok ws)
          × ((w : SessionWindow)
              → IsIn w ws ↔ IsDue at p.first_session.trading_date (z.local_date at + 1) w)
      unfolding session_windows_through
      session_windows_through-lem =
          let first = p.first_session.trading_date in
          let (ws, found, listed) =
            due_windows-lem (min (z.local_date at) last_day + 1 - first) first in
          elim (Bool-cases (ltb (year (z.local_date at)) 2026)) [
            | inl early ↦ (
              [],
              ground arith,
              λ w. (λ i. absurd i, λ x. no_sessions_before first w (ground arith) x),
            )
            | inr supported_year ↦ (
              ws,
              rw supported_year found,
              λ w. (
                λ i. (through_days first w).0 ((listed w).0 i),
                λ x. (listed w).1 ((through_days first w).1 x),
              ),
            )
          ]
