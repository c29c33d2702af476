-- ===== src/Era5.antt =====
-- era5.rs: the months, the days and the pressure levels of an ERA5 retrieval.
pub mod Months
use earth_sci_io.Prelude.{
  Bool, List, Option, Text, [], codes, decimal, false, get_elem?, if◌then◌else◌, includes, leb,
  length, list_eq, ltb, negsuc, none, not, pos, prod_eq, range_from, some, suc, true, zero, ℕ, ℕ_eq,
  ℤ, ◌%◌, ◌&&◌, ◌*◌, ◌++◌, ◌+◌, ◌-◌, ◌==◌, ◌||◌, ◌∷◌,
}
use earth_sci_io.Exec.{Result, and_then, err, ok, ok_or}
use earth_sci_io.Error.{Error, format}

-- A year is an `i32`, a month a `u32`.
abbrev pub Month : Type 0
Month = ℤ × ℕ

abbrev pub i32_bound : ℕ
i32_bound = 2147483648

abbrev pub u32_bound : ℕ
u32_bound = 4294967296

abbrev pub year_lt : ℤ → ℤ → Bool
year_lt (pos a) (pos b) = ltb a b
year_lt (pos a) (negsuc b) = false
year_lt (negsuc a) (pos b) = true
year_lt (negsuc a) (negsuc b) = ltb b a

abbrev pub year_eq : ℤ → ℤ → Bool
year_eq (pos a) (pos b) = a == b
year_eq (negsuc a) (negsuc b) = a == b
year_eq _ _ = false

-- The order of pairs: by the year, then by the month.
abbrev pub month_le : Month → Month → Bool
month_le (y, m) (z, n) = year_lt y z || (year_eq y z && leb m n)

-- `y += 1`; `none` is the overflow.
abbrev pub next_year : ℤ → Option ℤ
next_year (pos n) = if ltb (n + 1) i32_bound then some (pos (n + 1)) else none
next_year (negsuc zero) = some (pos 0)
next_year (negsuc (suc n)) = some (negsuc n)

abbrev pub first_of : Option ℤ → Option Month
first_of none = none
first_of (some y) = some (y, 1)

-- The end of the loop's body; `none` is an overflow.
abbrev pub next_month : Month → Option Month
next_month (y, m) =
    if ltb (m + 1) u32_bound
    then if ltb 12 (m + 1) then first_of (next_year y) else some (y, m + 1)
    else none

-- What the loop may stop at: an overflow, which a debug build panics at and a release build wraps,
-- and fuel that ran out.
pub data Halt : Type 0 where
  overflows : Halt
  no_fuel : Halt

unfoldable pub months_next :
    (Month → Result Halt (List Month)) → Month → Option Month → Result Halt (List Month)
months_next run at none = err overflows
months_next run at (some next) = and_then (run next) (λ ms. ok (at ∷ ms))

unfoldable pub months_if :
    (Month → Result Halt (List Month)) → Month → Bool → Result Halt (List Month)
unfolding months_next
months_if run at false = ok []
months_if run at true = months_next run at (next_month at)

-- The loop.
unfoldable pub months_from : ℕ → Month → Month → Result Halt (List Month)
unfolding months_if
months_from zero at end = err no_fuel
months_from (suc f) at end = months_if (λ next. months_from f next end) at (month_le at end)

-- Years counted from that of `i32::MIN`.
abbrev pub shifted : ℤ → ℕ
shifted (pos n) = i32_bound + n
shifted (negsuc n) = i32_bound - 1 - n

abbrev pub months_fuel : Month → Month → ℕ
months_fuel start end = 12 * (shifted end.0 - shifted start.0) + 14

unfoldable pub months_in_range : Month → Month → Result Halt (List Month)
unfolding months_from
months_in_range start end = months_from (months_fuel start end) start end

-- Whether `year % n == 0`, for years of either sign.
abbrev pub divides : ℕ → ℤ → Bool
divides n (pos y) = y % n == 0
divides n (negsuc y) = suc y % n == 0

unfoldable pub is_leap_year : ℤ → Bool
is_leap_year year = (divides 4 year && not (divides 100 year)) || divides 400 year

format_err : Text → Error
format_err detail = format (codes "era5") detail

-- `1..=n`
abbrev pub days_up_to : ℕ → List ℕ
days_up_to n = range_from 1 n

unfoldable pub days_in_month : (year : ℤ) → (month : ℕ) → Result Error (List ℕ)
unfolding is_leap_year format_err
days_in_month year month =
    if includes month (1 ∷ 3 ∷ 5 ∷ 7 ∷ 8 ∷ 10 ∷ 12 ∷ [])
    then ok (days_up_to 31)
    else if includes month (4 ∷ 6 ∷ 9 ∷ 11 ∷ [])
    then ok (days_up_to 30)
    else if month == 2
    then ok (days_up_to (if is_leap_year year then 29 else 28))
    else err (format_err (codes "invalid month " ++ (decimal month ++ codes " (expected 1..=12)")))

abbrev pub era5_pressure_levels_hpa : List ℕ
era5_pressure_levels_hpa =
    1000 ∷ 975 ∷ 950 ∷ 925 ∷ 900 ∷ 875 ∷ 850 ∷ 825 ∷ 800 ∷ 775 ∷ 750 ∷ 700 ∷ 650 ∷ 600 ∷ 550 ∷ 500
    ∷ 450 ∷ 400 ∷ 350 ∷ 300 ∷ 250 ∷ 225 ∷ 200 ∷ 175 ∷ 150 ∷ 125 ∷ 100 ∷ 70 ∷ 50 ∷ 30 ∷ 20 ∷ 10 ∷ 7
    ∷ 5 ∷ 3 ∷ 2 ∷ 1 ∷ []

bad_level : ℕ → Error
bad_level i = format_err (
    codes "pressure-level index "
    ++ (decimal i ++ (codes " out of range 1..=" ++ decimal (length era5_pressure_levels_hpa))))

-- The level of a 1-based index.
unfoldable pub level_at : ℕ → Result Error ℕ
unfolding bad_level format_err
level_at zero = err (bad_level 0)
level_at (suc i) = ok_or (bad_level (suc i)) (get_elem? era5_pressure_levels_hpa i)

unfoldable pub pressure_levels_from_indices : List ℕ → Result Error (List ℕ)
unfolding level_at
pressure_levels_from_indices [] = ok []
pressure_levels_from_indices (i ∷ indices) =
    and_then (level_at i)
      λ level. and_then (pressure_levels_from_indices indices) λ rest. ok (level ∷ rest)
