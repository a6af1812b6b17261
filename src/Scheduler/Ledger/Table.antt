-- ===== src/Scheduler/Ledger/Table.antt =====
-- The queries on the events table: which rows they give after an insertion.
use agentic_investment_os.Prelude.{
  ℕ, ◌≤◌, ◌<◌, ◌≡◌, ◌≢◌, refl, true, false, List, [], ◌∷◌, ◌++◌, arith, max, All, if◌then◌else◌,
}
use agentic_investment_os.Scheduler.Policy.{MarketSession}
use agentic_investment_os.Scheduler.Host.{same_cycle}
use agentic_investment_os.Scheduler.History.{Row}
use agentic_investment_os.Scheduler.Ledger.{
  where_cycle, insert_by_sequence, order_by_sequence, select_cycle, insert_cycle, distinct_cycles,
  max_sequence, key_taken,
}

max_sequence-insert :
    (row : Row) (rows : List Row)
    → max_sequence (insert_by_sequence row rows) ≡ max row.sequence (max_sequence rows)
unfolding max_sequence insert_by_sequence
max_sequence-insert row [] = refl
max_sequence-insert row (x ∷ rows) = ground (arith, max_sequence-insert row rows)

-- Sorting keeps the largest sequence number.
pub max_sequence-order :
    (rows : List Row) → max_sequence (order_by_sequence rows) ≡ max_sequence rows
unfolding max_sequence order_by_sequence
max_sequence-order [] = refl
max_sequence-order (x ∷ rows) =
    ground (arith, max_sequence-insert x (order_by_sequence rows), max_sequence-order rows)

insert-snoc :
    (row last : Row) (rows : List Row)
    → row.sequence ≤ last.sequence
    → insert_by_sequence row (rows ++ last ∷ []) ≡ insert_by_sequence row rows ++ last ∷ []
unfolding insert_by_sequence
insert-snoc row last [] h = ground arith
insert-snoc row last (x ∷ rows) h = ground (arith, insert-snoc row last rows)

-- A row with a larger sequence number sorts to the end.
order-snoc :
    (last : Row) (rows : List Row)
    → max_sequence rows < last.sequence
    → order_by_sequence (rows ++ last ∷ []) ≡ order_by_sequence rows ++ last ∷ []
unfolding order_by_sequence max_sequence insert_by_sequence
order-snoc last [] h = refl
order-snoc last (x ∷ rows) h =
    ground (arith, order-snoc last rows, insert-snoc x last (order_by_sequence rows))

where_cycle-snoc :
    (c : MarketSession) (last : Row) (rows : List Row)
    → where_cycle c (rows ++ last ∷ [])
      ≡ (if same_cycle last.cycle c then where_cycle c rows ++ last ∷ [] else where_cycle c rows)
unfolding where_cycle
where_cycle-snoc c last [] = ground arith
where_cycle-snoc c last (x ∷ rows) = ground (arith, where_cycle-snoc c last rows)

pub where_cycle-snoc_other :
    (c : MarketSession) (last : Row) (rows : List Row)
    → same_cycle last.cycle c ≡ false
    → where_cycle c (rows ++ last ∷ []) ≡ where_cycle c rows
where_cycle-snoc_other c last rows h = ground (arith, where_cycle-snoc c last rows)

-- The rows of a session after one more row of it.
pub select_cycle-snoc_same :
    (c : MarketSession) (last : Row) (rows : List Row)
    → last.cycle ≡ c
    → max_sequence (where_cycle c rows) < last.sequence
    → select_cycle c (rows ++ last ∷ []) ≡ select_cycle c rows ++ last ∷ []
unfolding select_cycle
select_cycle-snoc_same c last rows e h =
    ground (arith, where_cycle-snoc c last rows, order-snoc last (where_cycle c rows))

-- A row of another session leaves the rows of a session alone.
pub select_cycle-snoc_other :
    (c : MarketSession) (last : Row) (rows : List Row)
    → same_cycle last.cycle c ≡ false
    → select_cycle c (rows ++ last ∷ []) ≡ select_cycle c rows
unfolding select_cycle
select_cycle-snoc_other c last rows h = ground (arith, where_cycle-snoc c last rows)

-- A key that is taken has a sequence number that the session has reached.
pub key_taken-le :
    (c : MarketSession) (n : ℕ) (rows : List Row)
    → key_taken c n rows ≡ true
    → n ≤ max_sequence (where_cycle c rows)
unfolding key_taken where_cycle max_sequence
key_taken-le c n [] h = ground arith
key_taken-le c n (x ∷ rows) h = ground (arith, key_taken-le c n rows)

-- The session has rows.
abbrev pub IsPresent : List Row → MarketSession → Type 0
IsPresent rows c = where_cycle c rows ≢ []

insert_by_sequence-nonempty : (row : Row) (rows : List Row) → insert_by_sequence row rows ≢ []
unfolding insert_by_sequence
insert_by_sequence-nonempty row [] = ground arith
insert_by_sequence-nonempty row (x ∷ rows) = ground arith

order-nonempty : (rows : List Row) → rows ≢ [] → order_by_sequence rows ≢ []
unfolding order_by_sequence
order-nonempty [] h = ground arith
order-nonempty (x ∷ rows) h = insert_by_sequence-nonempty x (order_by_sequence rows)

pub select_cycle-nonempty :
    (c : MarketSession) (rows : List Row) → IsPresent rows c → select_cycle c rows ≢ []
unfolding select_cycle
select_cycle-nonempty c rows h = order-nonempty (where_cycle c rows) h

All-insert_cycle :
    (P : MarketSession → Type 0) (c : MarketSession) (cs : List MarketSession)
    → P c
    → All P cs
    → All P (insert_cycle c cs)
unfolding insert_cycle
All-insert_cycle P c [] p ps = (p, tt)
All-insert_cycle P c (d ∷ ds) p ps = ground (arith, All-insert_cycle P c ds p ps.1)

IsPresent-cons :
    (row : Row) (rows : List Row) (cs : List MarketSession)
    → All (IsPresent rows) cs
    → All (IsPresent (row ∷ rows)) cs
unfolding where_cycle
IsPresent-cons row rows [] ps = tt
IsPresent-cons row rows (c ∷ cs) ps = (ground (arith, ps.0), IsPresent-cons row rows cs ps.1)

where_cycle_self : (row : Row) (rows : List Row) → IsPresent (row ∷ rows) row.cycle
unfolding where_cycle
where_cycle_self row rows = ground arith

-- `SELECT DISTINCT cycle` gives sessions that have rows.
pub distinct_cycles-IsPresent : (rows : List Row) → All (IsPresent rows) (distinct_cycles rows)
unfolding distinct_cycles
distinct_cycles-IsPresent [] = tt
distinct_cycles-IsPresent (x ∷ rows) =
    All-insert_cycle (IsPresent (x ∷ rows)) x.cycle (distinct_cycles rows) (where_cycle_self x rows)
      (IsPresent-cons x rows (distinct_cycles rows) (distinct_cycles-IsPresent rows))

module _ (P : Row → Type 0) where
  All-insert_by_sequence :
      (row : Row) (rows : List Row) → P row → All P rows → All P (insert_by_sequence row rows)
  unfolding insert_by_sequence
  All-insert_by_sequence row [] p ps = (p, tt)
  All-insert_by_sequence row (x ∷ rows) p ps =
      ground (arith, All-insert_by_sequence row rows p ps.1)

  All-order : (rows : List Row) → All P rows → All P (order_by_sequence rows)
  unfolding order_by_sequence
  All-order [] ps = tt
  All-order (x ∷ rows) ps =
      All-insert_by_sequence x (order_by_sequence rows) ps.0 (All-order rows ps.1)

  All-where : (c : MarketSession) (rows : List Row) → All P rows → All P (where_cycle c rows)
  unfolding where_cycle
  All-where c [] ps = tt
  All-where c (x ∷ rows) ps = ground (arith, All-where c rows ps.1)

  -- What holds of every row of the table holds of the rows of a session.
  pub All-select_cycle :
      (c : MarketSession) (rows : List Row) → All P rows → All P (select_cycle c rows)
  unfolding select_cycle
  All-select_cycle c rows ps = All-order (where_cycle c rows) (All-where c rows ps)
