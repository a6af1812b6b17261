-- ===== src/Prelude/Raise.antt =====
-- The exceptions of the modelled modules, and results of code that may raise.
use mathlib.Core.Path.{◌≡◌, refl}
use mathlib.Core.Bool.{Bool, true, false}

-- `SchedulerPersistenceError`, `SchedulerPolicyConflictError`, the `ValueError` of a status or a
-- window, `sqlite3.IntegrityError`, `SchedulerCalendarError`, and the `RuntimeError`s of
-- application/scheduler.py; `invalid_receipt` and `invalid_advanced_receipt` are the
-- `ValueError`s of a receipt of domain/lifecycle.py, and `invalid_lifecycle_state` is its
-- `InvalidLifecycleStateError`; `index_error` is an `IndexError`.
pub data Error : Type 0 where
  invalid policy_conflict invalid_status integrity calendar_unavailable clock_rollback : Error
  advance_result_invalid status_result_invalid invalid_receipt index_error : Error
  invalid_advanced_receipt invalid_lifecycle_state : Error

-- What a call returns, or the exception that it raises.
pub data Result {ℓ} (T : Type ℓ) : Type ℓ where
  err : Error → Result T
  ok : T → Result T

-- `if bad: raise e`
abbrev pub raise_if : Bool → Error → Result (Unit {0})
raise_if bad e = elim bad [ true ↦ err e | false ↦ ok tt ]

pub raise_if-eq-ok : (bad : Bool) (e : Error) → raise_if bad e ≡ ok tt → bad ≡ false
raise_if-eq-ok false e passed = refl
raise_if-eq-ok true e passed = cc

module _ {ℓ κ} {S : Type ℓ} {T : Type κ} where
  infixl 5 ◌>>=◌
  abbrev pub ◌>>=◌ : Result S → (S → Result T) → Result T
  err e >>= next = err e
  ok s >>= next = next s

  -- Where a sequence of two calls returns, so do both calls.
  pub >>=-eq-ok :
      (first : Result S) (next : S → Result T) {t : T}
      → (first >>= next) ≡ ok t
      → (s : S) × (first ≡ ok s) × (next s ≡ ok t)
  >>=-eq-ok (err e) next returned = cc
  >>=-eq-ok (ok s) next returned = (s, refl, returned)

module _ {ℓ} {T : Type ℓ} where
  infixl 5 ◌>>◌
  abbrev pub ◌>>◌ : Result (Unit {0}) → Result T → Result T
  check >> next = check >>= λ done. next
