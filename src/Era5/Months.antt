-- ===== src/Era5/Months.antt =====
-- era5.rs: the months of a range, and the days of a year.
use earth_sci_io.Exec.{Result, and_then, err, ok}
use earth_sci_io.Prelude.{
  All, Bool, Bool-cases, List, Option, [], ap, arith, false, if◌then◌else◌, inl, inr, leb, leb→le,
  length, list_eq, ltb, ltb→lt, lt→ltb, negsuc, none, pos, prod_eq, range_from, refl, some, subst,
  suc, sym, true, zero, ℕ, ℕ_eq, ℤ, ◌*◌, ◌+◌, ◌-◌, ◌<◌, ◌∙◌, ◌∷◌, ◌≡◌, ◌≤◌, ◌⊎◌,
}
use earth_sci_io.Error.{Error}
use earth_sci_io.Era5.{
  Halt, Month, days_in_month, first_of, i32_bound, is_leap_year, month_le, months_from, months_fuel,
  months_if, months_in_range, months_next, next_month, next_year, no_fuel, overflows, shifted,
  u32_bound,
}

-- Months counted from the first of the first year.
abbrev pub serial : Month → ℕ
serial at = 12 * shifted at.0 + at.1 - 1

abbrev pub IsYear : ℤ → Type 0
IsYear (pos n) = n < i32_bound
IsYear (negsuc n) = n < i32_bound

abbrev pub IsMonth : Month → Type 0
IsMonth at = IsYear at.0 × (0 < at.1) × (at.1 ≤ 12)

-- The last month of the last year.
abbrev pub last_serial : ℕ
last_serial = 12 * (2 * i32_bound) - 1

abbrev pub serials : List Month → List ℕ
serials [] = []
serials (at ∷ ms) = serial at ∷ serials ms

-- What comes after a month: the next one, or an overflow after the last.
abbrev Follows : Month → Option Month → Type 0
Follows at none = serial at ≡ last_serial
Follows at (some next) = IsMonth next × (serial next ≡ suc (serial at)) × (serial at < last_serial)

first-Follows : (y : ℤ) → IsYear y → Follows (y, 12) (first_of (next_year y))
first-Follows (pos n) h = elim (Bool-cases (ltb (n + 1) i32_bound)) [
  | inl more ↦
      let below = ltb→lt (n + 1) i32_bound more in
      rw more ((omega arith, omega arith, omega arith), omega arith, omega arith)
  | inr last ↦ rw last (ground (arith, last))
]
first-Follows (negsuc zero) h = ((omega arith, omega arith, omega arith), omega arith, omega arith)
first-Follows (negsuc (suc n)) h =
    ((omega arith, omega arith, omega arith), omega arith, omega arith)

shifted-lt : (y : ℤ) → IsYear y → shifted y < 2 * i32_bound
shifted-lt (pos n) h = omega arith
shifted-lt (negsuc n) h = omega arith

next_month-Follows : (at : Month) → IsMonth at → Follows at (next_month at)
next_month-Follows (y, m) v =
    let small : ltb (m + 1) u32_bound ≡ true = lt→ltb (m + 1) u32_bound (omega arith) in
    elim (Bool-cases (ltb 12 (m + 1))) [
      | inl over ↦
          let twelve : 12 ≡ m = ground (arith, over) in
          rw (small, over)
            (subst (λ k. Follows (y, k) (first_of (next_year y))) twelve (first-Follows y v.0))
      | inr within ↦
          let low : m + 1 ≤ 12 = ground (arith, within) in
          rw (small, within)
            ((v.0, omega arith, low), omega (arith, v.1), omega (arith, shifted-lt y v.0))
    ]

month_le-serial :
    (at end : Month) → IsMonth at → IsMonth end → month_le at end ≡ leb (serial at) (serial end)
month_le-serial (pos y, m) (pos z, n) v w = ground arith
month_le-serial (pos y, m) (negsuc z, n) v w = ground arith
month_le-serial (negsuc y, m) (pos z, n) v w = ground arith
month_le-serial (negsuc y, m) (negsuc z, n) v w = ground arith

-- What the loop gives: all months from `start` to `end`, each once and in order; or, where `end` is
-- the last month of the last year and there is a month to list, the overflow behind it.
abbrev pub Complete : (start end : Month) → Result Halt (List Month) → Type 0
Complete start end (ok ms) =
    All IsMonth ms
    × (serials ms ≡ range_from (serial start) (suc (serial end) - serial start))
    × ((serial end < last_serial) ⊎ (serial end < serial start))
Complete start end (err overflows) = (serial end ≡ last_serial) × (serial start ≤ serial end)
Complete start end (err no_fuel) = ⊥

serial-le : (at : Month) → IsMonth at → serial at ≤ last_serial
serial-le (y, m) v = omega (arith, shifted-lt y v.0)

Complete-cons :
    (at end next : Month) (r : Result Halt (List Month))
    → IsMonth at
    → serial at ≤ serial end
    → serial next ≡ suc (serial at)
    → serial at < last_serial
    → serial end ≤ last_serial
    → Complete next end r
    → Complete at end (and_then r (λ ms. ok (at ∷ ms)))
Complete-cons at end next (ok ms) v le n before bounded (all_months, listed, ended) =
    let rest : serials ms ≡ range_from (suc (serial at)) (suc (serial end) - suc (serial at)) =
      listed ∙ ap (λ k. range_from k (suc (serial end) - k)) n in
    let e : suc (serial end) - serial at ≡ suc (suc (serial end) - suc (serial at)) = omega arith in
    (
      (v, all_months),
      rw (e, rest) refl,
      elim ended [ inl early ↦ inl early | inr nothing ↦ inl (omega arith) ],
    )
Complete-cons at end next (err overflows) v le n before bounded (last, more) = (last, le)
Complete-cons at end next (err no_fuel) v le n before bounded h = h

run_next :
    (at end : Month) (go : Month → Result Halt (List Month))
    → IsMonth at
    → IsMonth end
    → serial at ≤ serial end
    → ((next : Month) → IsMonth next → serial next ≡ suc (serial at) → Complete next end (go next))
    → (o : Option Month) → Follows at o
    → Complete at end (months_next go at o)
unfolding months_next
run_next at end go v w le ih none last = (omega (arith, serial-le end w), le)
run_next at end go v w le ih (some next) (u, n, before) =
    Complete-cons at end next (go next) v le n before (serial-le end w) (ih next u n)

run :
    (f : ℕ) (at end : Month)
    → IsMonth at
    → IsMonth end
    → 0 < f
    → suc (serial end) < f + serial at
    → Complete at end (months_from f at end)
unfolding months_from months_if
run zero at end v w p h = absurd (omega arith)
run (suc f) at end v w p h = elim (Bool-cases (month_le at end)) [
  | inr over ↦
      let t : leb (serial at) (serial end) ≡ false = sym (month_le-serial at end v w) ∙ over in
      let after : suc (serial end) - serial at ≡ 0 = ground (arith, t) in
      rw over (tt, rw after refl, inr (ground (arith, t)))
  | inl within ↦
      let le : serial at ≤ serial end =
        leb→le (serial at) (serial end) (sym (month_le-serial at end v w) ∙ within) in
      rw within (
        run_next at end (λ next. months_from f next end) v w le
          (λ next u n. run f next end u w (omega (arith, n)) (omega (arith, n))) (next_month at)
          (next_month-Follows at v))
]

months_fuel-enough :
    (start end : Month)
    → IsMonth start
    → IsMonth end
    → suc (serial end) < months_fuel start end + serial start
months_fuel-enough (y, m) (z, n) v w = omega (arith, shifted-lt y v.0, shifted-lt z w.0)

-- For months of years that an `i32` has: the months of a range, both ends in it, are all its months,
-- each once and in order; there are none where the start is after the end. The loop ends, but for a
-- range up to the December of the greatest year, which overflows the year.
pub months_in_range-Complete :
    (start end : Month)
    → IsMonth start
    → IsMonth end
    → Complete start end (months_in_range start end)
unfolding months_in_range
months_in_range-Complete start end v w =
    run (months_fuel start end) start end v w (omega arith) (months_fuel-enough start end v w)

abbrev pub days_of : Result Error (List ℕ) → ℕ
days_of (ok days) = length days
days_of (err e) = 0

-- The days of the first months of a year.
abbrev pub days_of_months : (year : ℤ) → (months : ℕ) → ℕ
days_of_months year zero = 0
days_of_months year (suc month) =
    days_of (days_in_month year (suc month)) + days_of_months year month

year_days :
    (year : ℤ) (leap : Bool)
    → is_leap_year year ≡ leap
    → days_of_months year 12 ≡ (if leap then 366 else 365)
unfolding days_in_month
year_days year true e = rw e
year_days year false e = rw e

-- The months of a year have 366 days in all in a leap year, and 365 in any other.
pub days_in_month_year :
    (year : ℤ) → days_of_months year 12 ≡ (if is_leap_year year then 366 else 365)
days_in_month_year year = year_days year (is_leap_year year) refl
