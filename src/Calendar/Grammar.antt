-- ===== src/Calendar/Grammar.antt =====
-- calendar.rs: the texts that `components` reads.
use mathlib.Core.List.{append_assoc}
use mathlib.Core.Option
use native.Mathlib.Nat.{add-mul, add_assoc, mul_assoc, mul_comm, pow-suc}
use earth_sci_io.Prelude.{
  ==-refl, ==→eq, Bool, Bool-cases, List, Option, Text, [], all, and_both, ap, append_nil, arith,
  drop, false, inl, inr, is_digit, length, list_eq, ltb, ltb→lt, lt→ltb, none, prod_eq, refl, some,
  subst, suc, sym, true, ℕ, ℕ_eq, ◌*◌, ◌++◌, ◌+◌, ◌-◌, ◌<◌, ◌==◌, ◌^◌, ◌↔◌, ◌∙◌, ◌∷◌, ◌≡◌, ◌≢◌,
}
use earth_sci_io.Exec.{ok, ok_or}
use earth_sci_io.Exec.Inversion.{and_then-eq-ok, ok-injective, ok_or-eq_ok, some-injective}
use earth_sci_io.External.{External}
use earth_sci_io.Calendar.{
  checked, component, components, components_from, position, value_of, zeros,
}

-- What digits are worth, each by its place.
abbrev pub worth : Text → ℕ
worth [] = 0
worth (c ∷ s) = (c - b'0') * 10 ^ length s + worth s

-- A number as `i64::parse` reads it.
pub record IsNumber (digits : Text) : Type 0 where
  pub some_digit : digits ≢ []
  pub plain : all is_digit digits ≡ true
  pub fits : worth digits < 2 ^ 63

-- The texts of components, with the values of the designators: a designator is left out, with the
-- value 0, or its number stands before it, in the order of the designators.
pub data Written : (order : List ℕ) → Text → List ℕ → Type 0 where
  ended : (order : List ℕ) → Written order [] (zeros (length order))
  passed :
      {order : List ℕ} {s : Text} {vs : List ℕ} (o : ℕ)
      → Written order s vs
      → Written (o ∷ order) s (0 ∷ vs)
  read :
      {order : List ℕ} {s : Text} {vs : List ℕ} (o : ℕ) (digits : Text)
      → IsNumber digits
      → Written order s vs
      → Written (o ∷ order) (digits ++ o ∷ s) (worth digits ∷ vs)

shifted : (a d p w : ℕ) → (a * 10 + d) * p + w ≡ a * (p * 10) + (d * p + w)
shifted a d p w =
    rw (add-mul (a * 10) d p, mul_assoc a 10 p, mul_comm 10 p) (add_assoc (a * (p * 10)) (d * p) w)

value_of-acc : (acc : ℕ) (s : Text) → value_of acc s ≡ acc * 10 ^ length s + worth s
unfolding value_of
value_of-acc acc [] = omega arith
value_of-acc acc (c ∷ s) =
    value_of-acc (acc * 10 + (c - b'0')) s
    ∙ shifted acc (c - b'0') (10 ^ length s) (worth s)
    ∙ ap (λ p. acc * p + ((c - b'0') * 10 ^ length s + worth s)) (sym (pow-suc 10 (length s)))

value_of-worth : (s : Text) → value_of 0 s ≡ worth s
value_of-worth s = value_of-acc 0 s ∙ omega arith

checked-lt : (n m : ℕ) → checked n ≡ some m → (n ≡ m) × (n < 2 ^ 63)
unfolding checked
checked-lt n m h = elim (Bool-cases (ltb n (2 ^ 63))) [
  | inl below ↦
      let e : ◌≡◌ {A = Option ℕ} (some n) (some m) = rw below at h in
      (some-injective e, ltb→lt n (2 ^ 63) below)
  | inr over ↦ let e : ◌≡◌ {A = Option ℕ} none (some m) = rw over at h in absurd (cc e)
]

position-cons :
    (d o p : ℕ) (order : List ℕ) (r : Option ℕ)
    → Option.map suc r ≡ some p
    → (q : ℕ) × (r ≡ some q) × (p ≡ suc q)
position-cons d o p order none e = cc e
position-cons d o p order (some q) e = (q, refl, sym (some-injective e))

-- The designator at its place among those that are left.
Written-at :
    (order : List ℕ) (d p : ℕ) (digits s : Text) (vs : List ℕ)
    → position d order ≡ some p
    → IsNumber digits
    → Written (drop (suc p) order) s vs
    → Written order (digits ++ d ∷ s) (zeros p ++ worth digits ∷ vs)
unfolding position zeros
Written-at [] d p digits s vs e n h = cc e
Written-at (o ∷ order) d p digits s vs e n h = elim (Bool-cases (o == d)) [
  | inl same ↦
      let first : ◌≡◌ {A = Option ℕ} (some 0) (some p) = rw same at e in
      let zero_place : 0 ≡ p = some-injective first in
      subst
        (λ p.
          Written (drop (suc p) (o ∷ order)) s vs
          → Written (o ∷ order) (digits ++ d ∷ s) (zeros p ++ worth digits ∷ vs))
        zero_place
        (λ w.
          subst (λ d. Written (o ∷ order) (digits ++ d ∷ s) (worth digits ∷ vs)) (==→eq o d same)
            (read o digits n w))
        h
  | inr apart ↦
      let (q, found, next) = position-cons d o p order (position d order) (rw apart at e) in
      subst
        (λ p.
          Written (drop (suc p) (o ∷ order)) s vs
          → Written (o ∷ order) (digits ++ d ∷ s) (zeros p ++ worth digits ∷ vs))
        (sym next) (λ w. passed o (Written-at order d q digits s vs found n w)) h
]

all-snoc :
    (p : ℕ → Bool) (s : Text) (c : ℕ) → all p s ≡ true → p c ≡ true → all p (s ++ c ∷ []) ≡ true
all-snoc p [] c h k = rw k refl
all-snoc p (x ∷ s) c h k = let v = and_both (p x) (all p s) h in rw (v.0, all-snoc p s c v.1 k) refl

-- A designator before the one that is looked for.
position-later :
    (o d p : ℕ) (order : List ℕ)
    → position o order ≡ none
    → position d order ≡ some p
    → position d (o ∷ order) ≡ some (suc p)
unfolding position
position-later o d p order apart e = elim (Bool-cases (o == d)) [
  | inl same ↦
      let here : position o order ≡ some p =
        subst (λ o. position o order ≡ some p) (sym (==→eq o d same)) e in
      absurd (cc (sym apart ∙ here))
  | inr other ↦ rw (other, e) refl
]

position-itself : (o : ℕ) (order : List ℕ) → position o (o ∷ order) ≡ some 0
unfolding position
position-itself o order = rw (==-refl o) refl

-- A designator stands once in the order, and is no digit.
abbrev pub AreDesignators : List ℕ → Type 0
AreDesignators [] = Unit
AreDesignators (o ∷ order) = (is_digit o ≡ false) × (position o order ≡ none) × AreDesignators order

module _ (X : External) (period : Text) where
  component-ok :
      (digits : Text) (d : ℕ) (s : Text) (order : List ℕ) (found : ℕ × ℕ)
      → component X period digits d s order ≡ ok found
      → all is_digit digits ≡ true
      → (position d order ≡ some found.0) × (worth digits ≡ found.1) × IsNumber digits
  unfolding component
  component-ok [] d s order found h plain = cc h
  component-ok (c ∷ digits) d s order found h plain =
      let (p, e, h1) = and_then-eq-ok (ok_or _ (position d order)) _ h in
      let (n, f, h2) = and_then-eq-ok (ok_or _ (checked (value_of 0 (c ∷ digits)))) _ h1 in
      let (same, below) = checked-lt _ n (ok_or-eq_ok _ (checked (value_of 0 (c ∷ digits))) n f) in
      let value = value_of-worth (c ∷ digits) in
      let pair : (p, n) ≡ found = ok-injective h2 in
      (
        ok_or-eq_ok _ (position d order) p e ∙ ap (λ (x : ℕ × ℕ). some x.0) pair,
        sym value ∙ same ∙ ap (λ (x : ℕ × ℕ). x.1) pair,
        record {
          some_digit = λ e. cc e;
          plain = plain;
          fits = subst (λ v. v < 2 ^ 63) value below;
        },
      )

  components_from-Written :
      (s digits : Text) (order vs : List ℕ)
      → components_from X period digits s order ≡ ok vs
      → all is_digit digits ≡ true
      → Written order (digits ++ s) vs
  unfolding components_from
  components_from-Written [] [] order vs h plain =
      subst (Written order []) (ok-injective h) (ended order)
  components_from-Written [] (c ∷ digits) order vs h plain = cc h
  components_from-Written (d ∷ s) digits order vs h plain = elim (Bool-cases (is_digit d)) [
    | inl more ↦
        subst (λ t. Written order t vs) (append_assoc digits (d ∷ []) s)
          (components_from-Written s (digits ++ d ∷ []) order vs (rw more at h)
            (all-snoc is_digit digits d plain more))
    | inr ends ↦
        let (found, e, h1) =
          and_then-eq-ok (component X period digits d s order) _ (rw ends at h) in
        let (later, f, h2) =
          and_then-eq-ok (components_from X period [] s (drop (suc found.0) order)) _ h1 in
        let (at, value, number) = component-ok digits d s order found e plain in
        let rest = components_from-Written s [] (drop (suc found.0) order) later f refl in
        subst (Written order (digits ++ d ∷ s))
          (ap (λ v. zeros found.0 ++ v ∷ later) value ∙ ok-injective h2)
          (Written-at order d found.0 digits s later at number rest)
  ]

  component-read :
      (digits : Text) (d p : ℕ) (s : Text) (order : List ℕ)
      → position d order ≡ some p
      → IsNumber digits
      → component X period digits d s order ≡ ok (p, worth digits)
  unfolding component checked
  component-read [] d p s order e n = absurd (n.some_digit refl)
  component-read (c ∷ digits) d p s order e n =
      rw (e, value_of-worth (c ∷ digits), lt→ltb (worth (c ∷ digits)) (2 ^ 63) n.fits) refl

  components_from-digits :
      (ds digits r : Text) (order : List ℕ)
      → all is_digit ds ≡ true
      → components_from X period digits (ds ++ r) order
        ≡ components_from X period (digits ++ ds) r order
  unfolding components_from
  components_from-digits [] digits r order h =
      ap (λ t. components_from X period t r order) (sym (append_nil digits))
  components_from-digits (d ∷ ds) digits r order h =
      let v = and_both (is_digit d) (all is_digit ds) h in
      rw v.0 (
        components_from-digits ds (digits ++ d ∷ []) r order v.1
        ∙ ap (λ t. components_from X period t r order) (append_assoc digits (d ∷ []) ds))

  -- A designator before those that are read has the value 0.
  components_from-passed :
      (s digits : Text) (o : ℕ) (order vs : List ℕ)
      → position o order ≡ none
      → components_from X period digits s order ≡ ok vs
      → all is_digit digits ≡ true
      → components_from X period digits s (o ∷ order) ≡ ok (0 ∷ vs)
  unfolding components_from
  components_from-passed [] [] o order vs apart h plain = ap (λ v. ok (0 ∷ v)) (ok-injective h)
  components_from-passed [] (c ∷ digits) o order vs apart h plain = cc h
  components_from-passed (d ∷ s) digits o order vs apart h plain = elim (Bool-cases (is_digit d)) [
    | inl more ↦ rw more (
        components_from-passed s (digits ++ d ∷ []) o order vs apart (rw more at h)
          (all-snoc is_digit digits d plain more))
    | inr ends ↦
        let (found, e, h1) =
          and_then-eq-ok (component X period digits d s order) _ (rw ends at h) in
        let (later, f, h2) =
          and_then-eq-ok (components_from X period [] s (drop (suc found.0) order)) _ h1 in
        let (at, value, number) = component-ok digits d s order found e plain in
        let again =
          component-read digits d (suc found.0) s (o ∷ order)
            (position-later o d found.0 order apart at) number in
        rw (ends, again, f)
          (ap (λ v. ok (0 ∷ zeros found.0 ++ v ∷ later)) value
            ∙ ap (λ v. ok (0 ∷ v)) (ok-injective h2))
  ]

  Written-components_from :
      {order : List ℕ} {s : Text} {vs : List ℕ}
      → AreDesignators order
      → Written order s vs
      → components_from X period [] s order ≡ ok vs
  unfolding components_from
  Written-components_from named (ended order) = refl
  Written-components_from named (passed {order} {s} {vs} o w) =
      components_from-passed s [] o order vs named.1 (Written-components_from named.2 w) refl
  Written-components_from named (read {order} {s} {vs} o digits n w) =
      components_from-digits digits [] (o ∷ s) (o ∷ order) n.plain
      ∙ rw
          (
            named.0,
            component-read digits o 0 s (o ∷ order) (position-itself o order) n,
            Written-components_from named.2 w,
          )
          refl

-- For designators of which none is a digit and each stands once, `components` reads values from a
-- text exactly where the text is written with them: each designator, in the order, either left out,
-- with the value 0, or behind its number, which is one or more digits, read in base ten, and below
-- 2 ^ 63.
pub components-Written :
    (X : External) (period s : Text) (order vs : List ℕ)
    → AreDesignators order
    → (components X period s order ≡ ok vs) ↔ Written order s vs
unfolding components
components-Written X period s order vs named = (
  λ h. components_from-Written X period s [] order vs h refl,
  λ w. Written-components_from X period named w,
)
