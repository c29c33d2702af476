-- ===== src/Esm/Dates.antt =====
-- esm.rs: `format_date`. An instant is one of the `time` crate, read by its methods.
use earth_sci_io.Prelude.{
  Text, [], codes, decimal, if◌then◌else◌, leb, length, list_eq, ltb, negsuc, pos, prod_eq, suc,
  take, zero, ℕ, ℕ_eq, ℤ, ◌%◌, ◌++◌, ◌-◌, ◌==◌, ◌∷◌,
}
use earth_sci_io.Exec.{Result, and_then, err, ok}
use earth_sci_io.Esm.{EsmTemplateError, template_err}

-- time::OffsetDateTime, with `to_offset(UtcOffset::UTC)`
pub record Reading (Instant : Type 0) : Type 0 where
  pub to_utc : Instant → Instant
  pub year : Instant → ℤ
  pub month : Instant → ℕ
  pub day : Instant → ℕ
  pub ordinal : Instant → ℕ
  pub hour : Instant → ℕ
  pub minute : Instant → ℕ
  pub second : Instant → ℕ

padding : ℕ → Text
padding zero = []
padding (suc n) = b'0' ∷ padding n

-- `{n:0width}`
unfoldable pub padded : (width n : ℕ) → Text
unfolding padding decimal
padded width n = padding (width - length (decimal n)) ++ decimal n

-- The last two digits of a year, by `rem_euclid(100)`.
unfoldable pub year_of_century : ℤ → ℕ
year_of_century (pos n) = n % 100
year_of_century (negsuc n) = 99 - n % 100

abbrev signed_decimal : ℤ → Text
signed_decimal (pos n) = decimal n
signed_decimal (negsuc n) = b'-' ∷ decimal (suc n)

year_range : (template : Text) → ℤ → EsmTemplateError
year_range template y =
    template_err (codes "esm_template_year_range") template
      (codes "%Y of year " ++ (signed_decimal y ++ codes " is outside 0 to 9999"))

-- `%Y`
unfoldable pub full_year : (template : Text) → ℤ → Result EsmTemplateError Text
unfolding padded year_range
full_year template (pos n) =
    if leb n 9999 then ok (padded 4 n) else err (year_range template (pos n))
full_year template (negsuc n) = err (year_range template (negsuc n))

unfoldable pub directive_err : (template detail : Text) → EsmTemplateError
directive_err template detail = template_err (codes "esm_template_directive") template detail

-- The bytes of a character, by its first one.
abbrev char_bytes : ℕ → ℕ
char_bytes c = if ltb c 128 then 1 else if ltb c 224 then 2 else if ltb c 240 then 3 else 4

unfoldable pub unsupported : (template : Text) → (d : ℕ) → (rest : Text) → EsmTemplateError
unfolding directive_err
unsupported template d rest = directive_err template (
    codes "unsupported date directive %"
    ++ (take (char_bytes d) (d ∷ rest) ++ codes " (supported: %Y %y %m %d %j %H %M %S %%)"))

module _ {Instant : Type 0} (R : Reading Instant) (debug : Text → Text) where
  -- What a directive stands for.
  unfoldable pub directive :
      (template : Text) (d : ℕ) (rest : Text) (t : Instant) → Result EsmTemplateError Text
  unfolding full_year padded year_of_century unsupported
  directive template d rest t =
      if d == b'Y'
      then full_year template (R.year t)
      else if d == b'y'
      then ok (padded 2 (year_of_century (R.year t)))
      else if d == b'm'
      then ok (padded 2 (R.month t))
      else if d == b'd'
      then ok (padded 2 (R.day t))
      else if d == b'j'
      then ok (padded 3 (R.ordinal t))
      else if d == b'H'
      then ok (padded 2 (R.hour t))
      else if d == b'M'
      then ok (padded 2 (R.minute t))
      else if d == b'S'
      then ok (padded 2 (R.second t))
      else if d == b'%'
      then ok (b'%' ∷ [])
      else err (unsupported template d rest)

  -- The loop over the characters of a format; `fmt` is the whole format.
  unfoldable pub format_from : (template fmt : Text) → Text → Instant → Result EsmTemplateError Text
  unfolding directive directive_err
  format_from template fmt [] t = ok []
  format_from template fmt (c ∷ []) t =
      if c == b'%'
      then err (directive_err template (codes "a '%' ends the date format " ++ debug fmt))
      else ok (c ∷ [])
  format_from template fmt (c ∷ d ∷ rest) t =
      let later = format_from template fmt rest t in
      let next = format_from template fmt (d ∷ rest) t in
      if c == b'%'
      then and_then (directive template d rest t) (λ s. and_then later (λ u. ok (s ++ u)))
      else and_then next (λ u. ok (c ∷ u))

  unfoldable pub format_date : (template fmt : Text) → Instant → Result EsmTemplateError Text
  unfolding format_from
  format_date template fmt t = format_from template fmt fmt t
