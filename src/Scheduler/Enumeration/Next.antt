-- ===== src/Scheduler/Enumeration/Next.antt =====
-- The loop of `next_session_window` of domain/scheduler.py.
use agentic_investment_os.Prelude.{
  ℕ, zero, suc, ◌+◌, ◌-◌, ◌≤◌, ◌<◌, ◌≡◌, refl, max, true, false, ◌&&◌, ◌==◌, Option, none, some,
  ltb, ok, arith, Bool-cases, inl, inr,
}
use agentic_investment_os.Temporal.{UtcInstant}
use agentic_investment_os.Calendar.{Date}
use agentic_investment_os.Scheduler.Zone.{Zone, ZoneLaws}
use agentic_investment_os.Scheduler.Policy.{SchedulerPolicy, policy_is_valid, is_regular_session}
use agentic_investment_os.Scheduler.Window.{SessionWindow}
use agentic_investment_os.Scheduler.Enumeration.{next_window, next_session_window, last_day}
use agentic_investment_os.Scheduler.Enumeration.Due.{window_on, policy_session-lem}

module _ (z : Zone) (p : SchedulerPolicy) (at : UtcInstant) where
  -- No regular session of the days has a window scheduled after `at`.
  abbrev pub NoneAfter : Date → Date → Type 0
  NoneAfter first end =
      (d : Date)
      → first ≤ d
      → d < end
      → is_regular_session d ≡ true
      → (window_on z p d).scheduled_at.value ≤ at.value

  -- The first window of the days that is scheduled after `at`, or that there is none.
  abbrev pub IsFirstAfter : Date → Date → Option SessionWindow → Type 0
  IsFirstAfter first end none = NoneAfter first end
  IsFirstAfter first end (some w) =
      (d : Date) × (w ≡ window_on z p d)
      × (first ≤ d)
      × (d < end)
      × (is_regular_session d ≡ true)
      × (at.value < w.scheduled_at.value)
      × NoneAfter first d

  module _ (laws : ZoneLaws z) (valid : policy_is_valid p ≡ true) where
    NoneAfter-cons :
        (first end : Date)
        → (is_regular_session first && ltb at.value (window_on z p first).scheduled_at.value)
          ≡ false
        → NoneAfter (first + 1) end
        → NoneAfter first end
    NoneAfter-cons first end today later d low high r = elim (Bool-cases (d == first)) [
      | inl same ↦ let e : d ≡ first = ground arith in let r' = rw e at r in rw e (ground arith)
      | inr other ↦ later d (ground arith) high r
    ]

    IsFirstAfter-cons :
        (first end : Date) (o : Option SessionWindow)
        → (is_regular_session first && ltb at.value (window_on z p first).scheduled_at.value)
          ≡ false
        → IsFirstAfter (first + 1) end o
        → IsFirstAfter first end o
    IsFirstAfter-cons first end none today later = NoneAfter-cons first end today later
    IsFirstAfter-cons first end (some w) today (d, own, low, high, r, after, before) =
        (d, own, omega arith, high, r, after, NoneAfter-cons first d today before)

    next_window-lem :
        (days : ℕ) (current : Date)
        → (o : Option SessionWindow) × (next_window z p at days current ≡ ok o)
          × IsFirstAfter current (current + days) o
    unfolding next_window
    next_window-lem zero current = (none, refl, λ d low high r. absurd (omega arith))
    next_window-lem (suc days) current =
        let (o, found, first) = next_window-lem days (current + 1) in
        let end : current + 1 + days ≡ current + suc days = omega arith in
        elim (Bool-cases
          (is_regular_session current && ltb at.value (window_on z p current).scheduled_at.value)) [
            | inl here ↦ (
              some (window_on z p current),
              rw (policy_session-lem z p laws valid current) (ground arith),
              (
                current,
                refl,
                omega arith,
                omega arith,
                ground arith,
                ground arith,
                λ d low high r. absurd (omega arith),
              ),
            )
            | inr not_here ↦ (
              o,
              rw (policy_session-lem z p laws valid current, found) (ground arith),
              IsFirstAfter-cons current (current + suc days) o not_here (rw (← end) first),
            )
          ]

    days_left :
        (first : Date) (o : Option SessionWindow)
        → IsFirstAfter first (first + (last_day + 1 - first)) o
        → IsFirstAfter first (last_day + 1) o
    days_left first none none_after = λ d low high r. none_after d low (omega arith) r
    days_left first (some w) (d, own, low, high, r, after, before) =
        (d, own, low, omega arith, r, after, before)

    -- The result is the first window scheduled after `at`, among the regular sessions from the
    -- policy's first and the local date on; it is `none` only if there is no such session.
    pub next_session_window-IsFirstAfter :
        (o : Option SessionWindow) × (next_session_window z p at ≡ ok o)
        × IsFirstAfter (max p.first_session.trading_date (z.local_date at)) (last_day + 1) o
    unfolding next_session_window
    next_session_window-IsFirstAfter =
        let first = max p.first_session.trading_date (z.local_date at) in
        let (o, found, is_first) = next_window-lem (last_day + 1 - first) first in
        (o, found, days_left first o is_first)
