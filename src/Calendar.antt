-- ===== src/Calendar.antt =====
-- calendar.rs: a cadence step, and how one is read from an ISO 8601 duration. A 64-bit number that
-- is read is at least 0 and below 2 ^ 63.
pub mod Bounds
pub mod Grammar
use mathlib.Core.Option
use earth_sci_io.Prelude.{
  Bool, List, Option, Text, [], codes, drop, eq, if◌then◌else◌, is_above_zero, is_digit,
  is_nonnegative, length, list_eq, ltb, map, none, pos, prod_eq, refl, some, split_once,
  strip_prefix, suc, take, zero, ℕ, ℕ_eq, ℤ, ◌&&◌, ◌*◌, ◌++◌, ◌+◌, ◌-◌, ◌==◌, ◌^◌, ◌||◌, ◌∷◌, ◌≡◌,
}
use earth_sci_io.Exec.{Result, and_then, err, ok, ok_or, option_then}
use earth_sci_io.Error.{Error, bad_period}
use earth_sci_io.External.{External}

pub record CalendarPeriod : Type 0 where
  pub months : ℤ
  pub seconds : ℤ

-- `checked_add` and `checked_mul`, of numbers that are at least 0
unfoldable pub checked : ℕ → Option ℕ
checked n = if ltb n (2 ^ 63) then some n else none

unfoldable pub checked_mul : ℕ → ℕ → Option ℕ
unfolding checked
checked_mul m n = checked (m * n)

unfoldable pub checked_add : ℕ → ℕ → Option ℕ
unfolding checked
checked_add m n = checked (m + n)

unfoldable pub is_positive : CalendarPeriod → Bool
is_positive p =
    (is_nonnegative p.months && is_nonnegative p.seconds)
    && (is_above_zero p.months || is_above_zero p.seconds)

-- `str::parse`, of digits; overflow is tested by the caller
unfoldable pub value_of : ℕ → Text → ℕ
value_of acc [] = acc
value_of acc (c ∷ s) = value_of (acc * 10 + (c - b'0')) s

-- The bytes of a character, by its first one.
char_len : ℕ → ℕ
char_len c = if ltb c 128 then 1 else (if ltb c 224 then 2 else (if ltb c 240 then 3 else 4))

unfoldable pub position : ℕ → List ℕ → Option ℕ
position d [] = none
position d (o ∷ order) = if o == d then some 0 else Option.map suc (position d order)

unfoldable pub zeros : ℕ → List ℕ
zeros zero = []
zeros (suc n) = 0 ∷ zeros n

module _ (X : External) where
  bad : Text → Text → Error
  bad period detail = bad_period period detail

  no_designator : Text → Text → Error
  unfolding bad
  no_designator period rest = bad period (X.debug_str rest ++ codes " has no designator")

  no_number : Text → ℕ → Text → Error
  unfolding bad char_len
  no_number period d rest =
      bad period
        (codes "expected a whole number before " ++ X.debug_char (take (char_len d) (d ∷ rest)))

  not_allowed : Text → ℕ → Text → Error
  unfolding bad char_len
  not_allowed period d rest = bad period (
      X.debug_char (take (char_len d) (d ∷ rest))
      ++ codes " is not allowed here (a fraction, a sign, or a designator out of order)")

  too_large : Text → Text → Error
  unfolding bad
  too_large period digits = bad period (X.debug_str digits ++ codes " is too large")

  -- The place of a designator among those still allowed, and the value before it.
  unfoldable pub component : Text → Text → ℕ → Text → List ℕ → Result Error (ℕ × ℕ)
  unfolding no_number not_allowed too_large position checked value_of
  component period [] d rest order = err (no_number period d rest)
  component period (c ∷ digits) d rest order =
      and_then (ok_or (not_allowed period d rest) (position d order)) λ p.
        and_then (ok_or (too_large period (c ∷ digits)) (checked (value_of 0 (c ∷ digits))))
          λ n. ok (p, n)

  -- The loop, with the digits that the text behind `s` begins with: they end at the first other
  -- character, which is the designator. The values are those of the designators `order`, of which
  -- those that are not there are 0.
  unfoldable pub components_from :
      (period digits s : Text) → (order : List ℕ) → Result Error (List ℕ)
  unfolding component no_designator zeros
  components_from period [] [] order = ok (zeros (length order))
  components_from period (c ∷ digits) [] order = err (no_designator period (c ∷ digits))
  components_from period digits (d ∷ s) order =
      let longer = components_from period (digits ++ d ∷ []) s order in
      if is_digit d
      then longer
      else (and_then (component period digits d s order) λ found.
          and_then (components_from period [] s (drop (suc found.0) order))
            λ later. ok (zeros found.0 ++ found.1 ∷ later))

  unfoldable pub components : (period s : Text) → (order : List ℕ) → Result Error (List ℕ)
  unfolding components_from
  components period s order = components_from period [] s order

  total_months : ℕ → ℕ → Option ℕ
  unfolding checked_mul checked_add
  total_months years months = option_then (checked_mul years 12) λ y. checked_add y months

  -- `try_fold` over the values and their units
  unfoldable pub total : ℕ → List ℕ → List ℕ → Option ℕ
  unfolding checked_mul checked_add
  total acc (n ∷ ns) (unit ∷ units) =
      option_then (checked_mul n unit) λ v. option_then (checked_add acc v) λ a. total a ns units
  total acc _ _ = some acc

  -- The parts of a period: those of the date, and those of the time where there is a `T`.
  parts : Text → Text → Result Error (Text × Option Text)
  unfolding bad
  parts iso body = elim (split_once b'T' body) [
    | some (d, []) ↦ err (bad iso (codes "a 'T' must be followed by a time component"))
    | some (d, c ∷ t) ↦ ok (d, some (c ∷ t))
    | none ↦ if eq body [] then err (bad iso (codes "it has no components")) else ok (body, none)
  ]

  time_values : Text → Option Text → Result Error (List ℕ)
  unfolding components
  time_values iso none = ok (0 ∷ 0 ∷ 0 ∷ [])
  time_values iso (some t) = components iso t (b'H' ∷ b'M' ∷ b'S' ∷ [])

  if_positive : Text → CalendarPeriod → Result Error CalendarPeriod
  unfolding bad is_positive
  if_positive iso p =
      if is_positive p then ok p else err (bad iso (codes "every component is zero"))

  -- Of the values of years, months, weeks, days, hours, minutes and seconds.
  unfoldable pub period_of : Text → List ℕ → List ℕ → Result Error CalendarPeriod
  unfolding bad total total_months if_positive
  period_of iso (years ∷ months ∷ days) times =
      and_then (ok_or (bad iso (codes "it is too large")) (total_months years months)) λ ms.
        and_then
          (ok_or (bad iso (codes "it is too large"))
            (total 0 (days ++ times) (604800 ∷ 86400 ∷ 3600 ∷ 60 ∷ 1 ∷ [])))
          λ secs. if_positive iso (record { months = pos ms; seconds = pos secs })
  period_of iso _ times = err (bad iso (codes "it is too large"))

  unfoldable pub parse : Text → Result Error CalendarPeriod
  unfolding parts time_values period_of components
  parse iso =
      and_then (ok_or (bad iso (codes "a period starts with 'P'")) (strip_prefix (codes "P") iso))
        λ body. and_then (parts iso body) λ split_up.
          and_then (components iso split_up.0 (b'Y' ∷ b'M' ∷ b'W' ∷ b'D' ∷ []))
            λ ymwd. and_then (time_values iso split_up.1) λ hms. period_of iso ymwd hms

abbrev lookups : External
lookups = record {
  sha256 = λ b. b;
  to_string_pretty = λ m. err [];
  from_slice = λ b. err [];
  parse_rfc3339 = λ s. none;
  format_stamp = λ n. none;
  debug_str = λ s. s;
  debug_char = λ s. s;
}

parse_runs :
    (parse lookups (codes "P1Y6M") ≡ ok (record { months = pos 18; seconds = pos 0 }))
    × (parse lookups (codes "PT3H") ≡ ok (record { months = pos 0; seconds = pos 10800 }))
    × (parse lookups (codes "P1DT1S") ≡ ok (record { months = pos 0; seconds = pos 86401 }))
    × (parse lookups (codes "P0D")
        ≡ err (bad_period (codes "P0D") (codes "every component is zero")))
    × (parse lookups (codes "PT")
        ≡ err (bad_period (codes "PT") (codes "a 'T' must be followed by a time component")))
unfolding parse bad
parse_runs = (refl, refl, refl, refl, refl)
