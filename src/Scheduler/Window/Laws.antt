-- ===== src/Scheduler/Window/Laws.antt =====
-- The windows that `build_session_window` gives.
use agentic_investment_os.Prelude.{
  ℕ, ◌≤◌, ◌<◌, ◌≡◌, Bool, true, false, some, ok, arith, if◌then◌else◌,
}
use agentic_investment_os.Calendar.{Date, year}
use agentic_investment_os.Calendar.Year.{year_iff}
use agentic_investment_os.Scheduler.Zone.{Zone, ZoneLaws}
use agentic_investment_os.Scheduler.Policy.{MarketSession, is_regular_session, is_early_close}
use agentic_investment_os.Scheduler.Window.{
  SessionWindow, window_is_valid, session_window, build_session_window, open_time, early_close_time,
  regular_close_time,
}

pub is_regular_session-year : (d : Date) → is_regular_session d ≡ true → year d ≡ 2026
unfolding is_regular_session
is_regular_session-year d h = ground arith

-- A regular session lies in the pinned year.
pub is_regular_session_range :
    (d : Date) → is_regular_session d ≡ true → (739617 ≤ d) × (d ≤ 739981)
is_regular_session_range d h = (year_iff d).0 (is_regular_session-year d h)

-- The request that `build_session_window` accepts.
pub record IsSupported (cycle : MarketSession) (advance lateness : ℕ) : Type 0 where
  pub regular : is_regular_session cycle.trading_date ≡ true
  pub advance_low : 1 ≤ advance
  pub advance_high : advance ≤ 1440
  pub lateness_high : lateness ≤ 1440

module _ (z : Zone) (laws : ZoneLaws z) where
  closes_after_opening :
      (d : Date) (early : Bool)
      → 1 ≤ d
      → (z.resolve d open_time).value
        < (z.resolve d (if early then early_close_time else regular_close_time)).value
  closes_after_opening d true h =
      laws.resolve_mono d 570 780 h (omega arith) (omega arith) (omega arith)
  closes_after_opening d false h =
      laws.resolve_mono d 570 960 h (omega arith) (omega arith) (omega arith)

  pub session_window-valid :
      (cycle : MarketSession) (advance lateness : ℕ)
      → IsSupported cycle advance lateness
      → window_is_valid (session_window z cycle advance lateness) ≡ true
  unfolding window_is_valid session_window
  session_window-valid cycle advance lateness s =
      let range = is_regular_session_range cycle.trading_date s.regular in
      let late = laws.resolve_late cycle.trading_date 570 (omega arith) (omega arith) in
      let closing =
        closes_after_opening cycle.trading_date (is_early_close cycle.trading_date) (omega arith) in
      ground (arith, late, closing)

  -- A request for a regular session, with minutes in the accepted ranges, gets its window: the
  -- constructor's checks do not raise.
  pub build_session_window-supported :
      (cycle : MarketSession) (advance lateness : ℕ)
      → IsSupported cycle advance lateness
      → build_session_window z cycle advance lateness
        ≡ ok (some (session_window z cycle advance lateness))
  unfolding build_session_window
  build_session_window-supported cycle advance lateness s =
      ground (arith, session_window-valid cycle advance lateness s)

-- What a window that was built tells of its request.
pub build_session_window-inv :
    (z : Zone) (cycle : MarketSession) (advance lateness : ℕ) (w : SessionWindow)
    → build_session_window z cycle advance lateness ≡ ok (some w)
    → IsSupported cycle advance lateness × (w ≡ session_window z cycle advance lateness)
unfolding build_session_window
build_session_window-inv z cycle advance lateness w h = ground arith
