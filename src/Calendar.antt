-- ===== src/Calendar.antt =====
-- `datetime.date` as the scheduler uses it: a date is its proleptic Gregorian ordinal
-- (`date.toordinal()`), with the standard library's `year` and `weekday` of an ordinal.
pub mod Year
use agentic_investment_os.Prelude.{
  ℕ, ◌+◌, ◌-◌, ◌*◌, ◌/◌, ◌%◌, Bool, ◌&&◌, ◌||◌, not, ◌==◌, ltb, if◌then◌else◌, List, [], ◌∷◌,
}

abbrev pub Date : Type 0
Date = ℕ

abbrev is_leap : ℕ → Bool
is_leap y = (y % 4 == 0) && (not (y % 100 == 0) || (y % 400 == 0))

-- Days of a common year before each month.
abbrev days_before_month : ℕ → ℕ
days_before_month m =
    if m == 1
    then 0
    else if m == 2
    then 31
    else if m == 3
    then 59
    else if m == 4
    then 90
    else if m == 5
    then 120
    else if m == 6
    then 151
    else if m == 7
    then 181
    else if m == 8
    then 212
    else if m == 9
    then 243
    else if m == 10
    then 273
    else if m == 11
    then 304
    else 334

-- `date(y, m, d).toordinal()`
abbrev pub date : ℕ → ℕ → ℕ → Date
date y m d =
    (y - 1) * 365
    + (y - 1) / 4
    - (y - 1) / 100
    + (y - 1) / 400
    + days_before_month m
    + (if ltb 2 m && is_leap y then 1 else 0)
    + d

-- `date.year`, by the cycles of 400, 100, 4 and 1 years. The last day of a leap cycle counts as
-- a fifth year, which belongs to the fourth.
unfoldable pub year : Date → ℕ
year o =
    let n = o - 1 in
    let r400 = n % 146097 in
    let n100 = r400 / 36524 in
    let r100 = r400 % 36524 in
    let n4 = r100 / 1461 in
    let r4 = r100 % 1461 in
    let n1 = r4 / 365 in
    let y = n / 146097 * 400 + n100 * 100 + n4 * 4 + n1 in
    if (n1 == 4) || (n100 == 4) then y else y + 1

-- `date.weekday()`: Monday is 0.
unfoldable pub weekday : Date → ℕ
weekday o = (o + 6) % 7
