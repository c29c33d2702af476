-- ===== src/Calendar/Bounds.antt =====
-- calendar.rs: the numbers of a period that is read.
use earth_sci_io.Prelude.{
  Bool, List, Text, [], arith, codes, false, if◌then◌else◌, list_eq, ltb, ltb→lt, none, pos,
  prod_eq, refl, some, strip_prefix, subst, suc, true, zero, ℕ, ℕ_eq, ◌++◌, ◌+◌, ◌<◌, ◌^◌, ◌∷◌, ◌≡◌,
  ◌≤◌,
}
use earth_sci_io.Exec.{err, ok, ok_or}
use earth_sci_io.Exec.Inversion.{
  and_then-eq-ok, ok-injective, ok_or-eq_ok, option_then-some, some-injective,
}
use earth_sci_io.External.{External}
use earth_sci_io.Calendar.{
  CalendarPeriod, bad, checked, checked_add, checked_mul, components, if_positive, is_positive,
  parse, parts, period_of, time_values, total, total_months,
}

-- 2 ^ 63
abbrev limit : ℕ
limit = 9223372036854775808

guarded-some : (b : Bool) (n m : ℕ) → (if b then some n else none) ≡ some m → (b ≡ true) × (n ≡ m)
guarded-some true n m h = (refl, some-injective h)
guarded-some false n m h = cc

checked-bound : (n m : ℕ) → checked n ≡ some m → m < limit
unfolding checked
checked-bound n m h =
    let (below, same) = guarded-some (ltb n (2 ^ 63)) n m h in
    subst (λ k. k < limit) same (ltb→lt n limit below)

module _ (X : External) where
  -- Every partial sum is below the limit, so the last one is.
  total-bound :
      (acc : ℕ) (ns units : List ℕ) (a : ℕ)
      → acc < limit
      → total X acc ns units ≡ some a
      → a < limit
  unfolding total
  total-bound acc [] units a below h = subst (λ k. k < limit) (some-injective h) below
  total-bound acc (n ∷ ns) [] a below h = subst (λ k. k < limit) (some-injective h) below
  total-bound acc (n ∷ ns) (unit ∷ units) a below h =
      let (v, scaled, h₁) = option_then-some (checked_mul n unit) _ h in
      let (b, added, h₂) = option_then-some (checked_add acc v) _ h₁ in
      total-bound b ns units a (unfold checked_add in checked-bound (acc + v) b added) h₂

  months-bound : (years months ms : ℕ) → total_months X years months ≡ some ms → ms < limit
  unfolding total_months
  months-bound years months ms h =
      let (y, scaled, added) = option_then-some (checked_mul years 12) _ h in
      unfold checked_add in checked-bound (y + months) ms added

  if_positive-ok :
      (iso : Text) (p q : CalendarPeriod)
      → if_positive X iso p ≡ ok q
      → (p ≡ q) × (is_positive p ≡ true)
  unfolding if_positive
  if_positive-ok iso p q h = from (is_positive p) h
    where
      from :
          (b : Bool)
          → (if b then ok p else err (bad X iso (codes "every component is zero"))) ≡ ok q
          → (p ≡ q) × (b ≡ true)
      from true e = (ok-injective e, refl)
      from false e = cc

  -- The months and the seconds are numbers that fit, and one of them is not zero.
  pub record IsStep (p : CalendarPeriod) : Type 0 where
    pub month_count : ℕ
    pub second_count : ℕ
    pub months_ok : p.months ≡ pos month_count
    pub seconds_ok : p.seconds ≡ pos second_count
    pub months_fit : month_count < limit
    pub seconds_fit : second_count < limit
    pub forward : 1 ≤ month_count + second_count

  IsStep-of :
      (ms secs : ℕ)
      → ms < limit
      → secs < limit
      → is_positive (record { months = pos ms; seconds = pos secs }) ≡ true
      → IsStep (record { months = pos ms; seconds = pos secs })
  IsStep-of ms secs m s h = record {
    month_count = ms;
    second_count = secs;
    months_ok = refl;
    seconds_ok = refl;
    months_fit = m;
    seconds_fit = s;
    forward = from ms secs h;
  }
    where
      from :
          (ms secs : ℕ)
          → is_positive (record { months = pos ms; seconds = pos secs }) ≡ true
          → 1 ≤ ms + secs
      from zero zero q = absurd (no_step q)
        where
          no_step : is_positive (record { months = pos 0; seconds = pos 0 }) ≡ true → ⊥
          no_step r = unfold is_positive in cc
      from zero (suc n) q = omega arith
      from (suc n) secs q = omega arith

  period_of-IsStep :
      (iso : Text) (ymwd hms : List ℕ) (p : CalendarPeriod)
      → period_of X iso ymwd hms ≡ ok p
      → IsStep p
  unfolding period_of
  period_of-IsStep iso [] hms p h = cc
  period_of-IsStep iso (y ∷ []) hms p h = cc
  period_of-IsStep iso (years ∷ months ∷ days) hms p h =
      let (ms, e₁, h₁) =
        and_then-eq-ok (ok_or (bad X iso (codes "it is too large")) (total_months X years months)) _
          h in
      let (secs, e₂, h₂) =
        and_then-eq-ok
          (ok_or (bad X iso (codes "it is too large"))
            (total X 0 (days ++ hms) (604800 ∷ 86400 ∷ 3600 ∷ 60 ∷ 1 ∷ [])))
          _ h₁ in
      let (same, forward) =
        if_positive-ok iso (record { months = pos ms; seconds = pos secs }) p h₂ in
      subst IsStep same (
        IsStep-of ms secs (months-bound years months ms (ok_or-eq_ok _ _ ms e₁))
          (total-bound 0 (days ++ hms) (604800 ∷ 86400 ∷ 3600 ∷ 60 ∷ 1 ∷ []) secs (omega arith)
            (ok_or-eq_ok _ _ secs e₂))
          forward)

  -- A period that is read is a whole number of months and of seconds, each at least 0 and below
  -- 2 ^ 63, and not both of them 0.
  pub parse-IsStep : (iso : Text) (p : CalendarPeriod) → parse X iso ≡ ok p → IsStep p
  unfolding parse
  parse-IsStep iso p h =
      let (body, e₁, h₁) = and_then-eq-ok (ok_or _ (strip_prefix (codes "P") iso)) _ h in
      let (split_up, e₂, h₂) = and_then-eq-ok (parts X iso body) _ h₁ in
      let (ymwd, e₃, h₃) = and_then-eq-ok (components X iso split_up.0 _) _ h₂ in
      let (hms, e₄, h₄) = and_then-eq-ok (time_values X iso split_up.1) _ h₃ in
      period_of-IsStep iso ymwd hms p h₄
