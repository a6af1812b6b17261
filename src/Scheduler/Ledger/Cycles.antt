-- ===== src/Scheduler/Ledger/Cycles.antt =====
-- The sessions that the query `SELECT DISTINCT cycle ... ORDER BY cycle` of
-- adapters/sqlite_scheduler.py lists.
use agentic_investment_os.Prelude.{
  ℕ, ◌≡◌, ◌<◌, refl, true, List, [], ◌∷◌, inl, inr, All, IsIn, arith, Bool-cases, ltb,
}
use agentic_investment_os.Scheduler.Policy.{MarketSession}
use agentic_investment_os.Scheduler.Host.{same_cycle}
use agentic_investment_os.Scheduler.History.{Row}
use agentic_investment_os.Scheduler.Ledger.{where_cycle, insert_cycle, distinct_cycles}
use agentic_investment_os.Scheduler.Ledger.Table.{IsPresent}

-- The trading dates of a list of sessions ascend strictly, so none is there twice.
abbrev pub IsAscending : List MarketSession → Type 0
IsAscending [] = Unit
IsAscending (c ∷ cs) = All (λ d. c.trading_date < d.trading_date) cs × IsAscending cs

same_cycle-eq : (c d : MarketSession) → same_cycle c d ≡ true → c ≡ d
same_cycle-eq c d e =
    let date : c.trading_date ≡ d.trading_date = ground (arith, e) in ground (arith, date)

insert_cycle-above :
    (n : ℕ) (c : MarketSession) (ds : List MarketSession)
    → n < c.trading_date
    → All (λ d. n < d.trading_date) ds
    → All (λ d. n < d.trading_date) (insert_cycle c ds)
unfolding insert_cycle
insert_cycle-above n c [] here rest = (here, tt)
insert_cycle-above n c (d ∷ ds) here rest = ground (arith, insert_cycle-above n c ds here rest.1)

above_mono :
    (m n : ℕ) (ds : List MarketSession)
    → m < n
    → All (λ d. n < d.trading_date) ds
    → All (λ d. m < d.trading_date) ds
above_mono m n [] less all = tt
above_mono m n (d ∷ ds) less all = (omega (arith, less, all.0), above_mono m n ds less all.1)

insert_cycle-IsAscending :
    (c : MarketSession) (ds : List MarketSession) → IsAscending ds → IsAscending (insert_cycle c ds)
unfolding insert_cycle
insert_cycle-IsAscending c [] sorted = (tt, tt)
insert_cycle-IsAscending c (d ∷ ds) sorted = elim (Bool-cases (same_cycle c d)) [
  | inl same ↦ rw same sorted
  | inr other ↦ elim (Bool-cases (ltb c.trading_date d.trading_date)) [
    | inl less ↦
        let below : c.trading_date < d.trading_date = ground (arith, less) in
        rw (other, less)
          ((below, above_mono c.trading_date d.trading_date ds below sorted.0), sorted)
    | inr more ↦
        let above : d.trading_date < c.trading_date = ground (arith, other, more) in
        rw (other, more)
          (
            insert_cycle-above d.trading_date c ds above sorted.0,
            insert_cycle-IsAscending c ds sorted.1,
          )
  ]
]

insert_cycle-IsIn : (c : MarketSession) (ds : List MarketSession) → IsIn c (insert_cycle c ds)
unfolding insert_cycle
insert_cycle-IsIn c [] = inl refl
insert_cycle-IsIn c (d ∷ ds) = elim (Bool-cases (same_cycle c d)) [
  | inl same ↦ rw same (inl (same_cycle-eq c d same))
  | inr other ↦ elim (Bool-cases (ltb c.trading_date d.trading_date)) [
    | inl less ↦ rw (other, less) (inl refl)
    | inr more ↦ rw (other, more) (inr (insert_cycle-IsIn c ds))
  ]
]

insert_cycle-keeps :
    (e c : MarketSession) (ds : List MarketSession) → IsIn e ds → IsIn e (insert_cycle c ds)
unfolding insert_cycle
insert_cycle-keeps e c [] i = elim i [ ]
insert_cycle-keeps e c (d ∷ ds) i = elim (Bool-cases (same_cycle c d)) [
  | inl same ↦ rw same i
  | inr other ↦ elim (Bool-cases (ltb c.trading_date d.trading_date)) [
    | inl less ↦ rw (other, less) (inr i)
    | inr more ↦
        rw (other, more)
          (elim i [ inl here ↦ inl here | inr later ↦ inr (insert_cycle-keeps e c ds later) ])
  ]
]

pub distinct_cycles-IsAscending : (rows : List Row) → IsAscending (distinct_cycles rows)
unfolding distinct_cycles
distinct_cycles-IsAscending [] = tt
distinct_cycles-IsAscending (x ∷ rows) =
    insert_cycle-IsAscending x.cycle (distinct_cycles rows) (distinct_cycles-IsAscending rows)

-- The session of every row is listed.
pub distinct_cycles-IsIn :
    (rows : List Row) (row : Row) → IsIn row rows → IsIn row.cycle (distinct_cycles rows)
unfolding distinct_cycles
distinct_cycles-IsIn [] row i = elim i [ ]
distinct_cycles-IsIn (x ∷ rows) row (inl here) =
    rw here (insert_cycle-IsIn x.cycle (distinct_cycles rows))
distinct_cycles-IsIn (x ∷ rows) row (inr later) =
    insert_cycle-keeps row.cycle x.cycle (distinct_cycles rows)
      (distinct_cycles-IsIn rows row later)

-- A session with rows has one of the table.
pub IsPresent-row :
    (c : MarketSession) (rows : List Row)
    → IsPresent rows c
    → (row : Row) × IsIn row rows × (row.cycle ≡ c)
unfolding where_cycle
IsPresent-row c [] there = absurd (there refl)
IsPresent-row c (x ∷ rows) there = elim (Bool-cases (same_cycle x.cycle c)) [
  | inl same ↦ (x, inl refl, same_cycle-eq x.cycle c same)
  | inr other ↦
      let among : IsPresent rows c = λ e. there (rw (other, e) refl) in
      let (row, i, own) = IsPresent-row c rows among in (row, inr i, own)
]
