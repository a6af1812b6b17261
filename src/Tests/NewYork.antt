-- ===== src/Tests/NewYork.antt =====
-- New York in 2026: UTC-4 from the second Sunday of March to the first of November, else UTC-5.
use agentic_investment_os.Prelude.{
  ℕ, ◌+◌, ◌-◌, ◌*◌, ◌/◌, ◌≤◌, ◌<◌, ◌≡◌, ◌&&◌, arith, leb, ltb, if◌then◌else◌,
}
use agentic_investment_os.Temporal.{UtcInstant, minutes}
use agentic_investment_os.Calendar.{Date}
use agentic_investment_os.Scheduler.Zone.{Zone, ZoneLaws}

abbrev day_length : ℕ
day_length = 86_400_000_000

abbrev hour : ℕ
hour = 3_600_000_000

-- 2026-03-08T07:00Z and 2026-11-01T06:00Z
abbrev summer_starts : ℕ
summer_starts = 739682 * day_length + 7 * hour

abbrev summer_ends : ℕ
summer_ends = 739920 * day_length + 6 * hour

abbrev offset_at : ℕ → ℕ
offset_at t = if leb summer_starts t && ltb t summer_ends then 4 * hour else 5 * hour

abbrev offset_on : Date → ℕ
offset_on d = if leb 739683 d && leb d 739920 then 4 * hour else 5 * hour

abbrev pub local_day : UtcInstant → Date
local_day t = (t.value - offset_at t.value) / day_length + 1

abbrev pub instant_of : Date → ℕ → UtcInstant
instant_of d m = record { value = (d - 1) * day_length + minutes m + offset_on d }

abbrev pub new_york : Zone
new_york = record { local_date = local_day; resolve = instant_of }

local_day_mono : (s t : UtcInstant) → s.value ≤ t.value → local_day s ≤ local_day t
local_day_mono s t h = ground arith

local_day-instant_of :
    (d : Date) (m : ℕ) → 1 ≤ d → 540 ≤ m → m < 1440 → local_day (instant_of d m) ≡ d
local_day-instant_of d m a b c = ground arith

pub new_york-ZoneLaws : ZoneLaws new_york
new_york-ZoneLaws = record {
  local_date_mono = local_day_mono;
  local_date-resolve = local_day-instant_of;
  resolve_mono = λ d m n a b c e. omega arith;
  resolve_late = λ d m a b. ground arith;
}
