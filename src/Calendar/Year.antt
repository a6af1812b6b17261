-- ===== src/Calendar/Year.antt =====
-- Where the pinned year lies among the ordinals.
use agentic_investment_os.Prelude.{◌≤◌, ◌≡◌, ◌↔◌, refl, arith}
use agentic_investment_os.Calendar.{Date, year, weekday}

-- A date is in 2026 exactly when its ordinal is one of the 365 from 739617 on.
pub year_iff : (d : Date) → (year d ≡ 2026) ↔ ((739617 ≤ d) × (d ≤ 739981))
unfolding year
year_iff d = (λ h. ground arith, λ h. ground arith)

pub year-ge : (d : Date) → 739617 ≤ d → 2026 ≤ year d
unfolding year
year-ge d h = ground arith

year_table :
    (year 739616 ≡ 2025) × (year 739617 ≡ 2026) × (weekday 739617 ≡ 3) × (year 736694 ≡ 2017)
unfolding year weekday
year_table = (refl, refl, refl, refl)
