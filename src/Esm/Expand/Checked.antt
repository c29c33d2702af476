-- ===== src/Esm/Expand/Checked.antt =====
-- esm.rs: what the check of a template before the first fetch says of its expansions.
use earth_sci_io.Prelude.{
  Bool-cases, List, Option, Text, [], ap, arith, drop, eq, false, if◌then◌else◌, inl, inr, is_some,
  length, le→leb, list_beq_sound, list_eq, lookup, none, prod_eq, refl, some, subst, sym, take,
  true, ℕ, ℕ_eq, ◌++◌, ◌-◌, ◌∙◌, ◌∷◌, ◌≡◌, ◌≤◌, ◌⊎◌,
}
use earth_sci_io.Exec.{Result, and_then, err, ok, ok_or, option_then}
use earth_sci_io.Esm.{EsmTemplateError, Token, tokens}
use earth_sci_io.Esm.Order.{InOrder, tokens-InOrder}
use earth_sci_io.Esm.Dates.{Reading}
use earth_sci_io.Esm.Expand.{
  check_esm_template, check_token, check_tokens, date_name, expand_esm_template, expand_from,
  joined, reserved, substituted, takes_no_format, text_slice, token_text, unbound,
}

text_slice-some :
    (a b : ℕ) (text : Text)
    → a ≤ b
    → b ≤ length text
    → (lit : Text) × (text_slice a b text ≡ some lit)
unfolding text_slice
text_slice-some a b text below inner =
    (take (b - a) (drop a text), rw (le→leb a b below, le→leb b (length text) inner) refl)

module _ {Instant : Type 0} (R : Reading Instant) (debug : Text → Text) (T : Text) (t : Instant)
    (bound : List (Text × Text)) where
  -- The error of a token `{date}` or `{date:...}` at the instant.
  abbrev pub DateFault : EsmTemplateError → Type 0
  DateFault e =
      (format : Option Text) × (token_text R debug T (some t) bound date_name format ≡ err e)

  -- What the check says, beside what the expansion gives.
  abbrev pub Verdict : Result EsmTemplateError Unit → Result EsmTemplateError Text → Type 0
  Verdict (ok x) (ok u) = Unit
  Verdict (ok x) (err e) = DateFault e
  Verdict (err e) (ok u) = ⊥
  Verdict (err e) (err e') = (e' ≡ e) ⊎ DateFault e'

  Verdict-behind :
      (f : Text → Text) (c : Result EsmTemplateError Unit) (r : Result EsmTemplateError Text)
      → Verdict c r
      → Verdict c (and_then r (λ u. ok (f u)))
  Verdict-behind f (ok x) (ok u) h = tt
  Verdict-behind f (ok x) (err e) h = h
  Verdict-behind f (err e) (ok u) h = h
  Verdict-behind f (err e) (err e') h = h

  abbrev Judged : Result EsmTemplateError Unit → Option (Result EsmTemplateError Text) → Type 0
  Judged c o = (r : Result EsmTemplateError Text) × (o ≡ some r) × Verdict c r

  joined-Judged :
      (lit : Text) (c rest : Result EsmTemplateError Unit) (v : Result EsmTemplateError Text)
      (o : Option (Result EsmTemplateError Text))
      → Verdict c v
      → Judged rest o
      → Judged (and_then c (λ _. rest)) (joined R debug lit v o)
  unfolding joined
  joined-Judged lit (ok x) rest (ok u) o h (r, e, d) = (
    _,
    ap (λ p. option_then p (λ w. some (and_then w (λ y. ok (lit ++ (u ++ y)))))) e,
    Verdict-behind (λ y. lit ++ (u ++ y)) rest r d,
  )
  joined-Judged lit (ok x) (ok y) (err e) o h later = (err e, refl, h)
  joined-Judged lit (ok x) (err y) (err e) o h later = (err e, refl, inr h)
  joined-Judged lit (err e) rest (ok u) o h later = absurd h
  joined-Judged lit (err e) rest (err e') o h later = (err e', refl, h)

  found-Verdict :
      (n : Text) (o : Option Text)
      → Verdict (if is_some o then ok tt else err (unbound T n)) (ok_or (unbound T n) o)
  found-Verdict n none = inl refl
  found-Verdict n (some v) = tt

  dated-Verdict :
      (f : Option Text) (v : Result EsmTemplateError Text)
      → token_text R debug T (some t) bound date_name f ≡ v
      → Verdict (ok tt) v
  dated-Verdict f (ok u) h = tt
  dated-Verdict f (err e) h = (f, h)

  bare-Verdict :
      (n : Text) (f : Option Text)
      → Verdict
          (elim f [
            | some g ↦ err (takes_no_format T n g)
            | none ↦ if is_some (lookup n bound) then ok tt else err (unbound T n)
          ])
          (substituted T bound n f)
  unfolding substituted
  bare-Verdict n (some g) = inl refl
  bare-Verdict n none = found-Verdict n (lookup n bound)

  check_token-date : (tok : Token) → eq tok.name date_name ≡ true → check_token T bound tok ≡ ok tt
  unfolding check_token
  check_token-date tok dates = rw dates refl

  other-Verdict :
      (tok : Token)
      → eq tok.name date_name ≡ false
      → Verdict (check_token T bound tok) (token_text R debug T (some t) bound tok.name tok.format)
  unfolding check_token token_text
  other-Verdict tok other = rw other (bare-Verdict tok.name tok.format)

  token-Verdict :
      (tok : Token)
      → Verdict (check_token T bound tok) (token_text R debug T (some t) bound tok.name tok.format)
  token-Verdict tok = elim (Bool-cases (eq tok.name date_name)) [
    | inl dates ↦
        let text : Text → Result EsmTemplateError Text =
          λ n. token_text R debug T (some t) bound n tok.format in
        subst (λ c. Verdict c (text tok.name)) (sym (check_token-date tok dates))
          (subst (λ n. Verdict (ok tt) (text n)) (sym (list_beq_sound tok.name date_name dates))
            (dated-Verdict tok.format (text date_name) refl))
    | inr other ↦ other-Verdict tok other
  ]

  loop-Judged :
      (toks : List Token) (last : ℕ)
      → InOrder last (length T) toks
      → Judged (check_tokens T bound toks) (expand_from R debug T (some t) bound last toks)
  unfolding InOrder check_tokens expand_from
  loop-Judged [] last h =
      let v = text_slice-some last (length T) T h (omega arith) in
      (ok v.0, ap (λ o. option_then o (λ lit. some (ok lit))) v.1, tt)
  loop-Judged (tok ∷ toks) last (before, inner, later) =
      let v = text_slice-some last tok.start T before inner in
      let joined_at =
        joined-Judged v.0 (check_token T bound tok) (check_tokens T bound toks)
          (token_text R debug T (some t) bound tok.name tok.format)
          (expand_from R debug T (some t) bound tok.end toks) (token-Verdict tok)
          (loop-Judged toks tok.end later) in
      (
        joined_at.0,
        ap
              (λ o. option_then o (λ lit.
                joined R debug lit (token_text R debug T (some t) bound tok.name tok.format)
                  (expand_from R debug T (some t) bound tok.end toks)))
              v.1
            ∙ joined_at.1,
        joined_at.2,
      )

-- Whatever the template, the check before the first fetch and the expansion at an instant both end
-- without a slice out of range. Where the check passes, the expansion gives a text, or the error of
-- a date token; where it fails, the expansion fails, with the same error or with that of a date
-- token.
pub expand_esm_template-checked :
    {Instant : Type 0} (R : Reading Instant) (debug : Text → Text) (template : Text) (t : Instant)
    (bound : List (Text × Text))
    → (c : Result EsmTemplateError Unit) × (check_esm_template R debug template bound ≡ some c)
      × (r : Result EsmTemplateError Text) × (expand_esm_template R debug template (some t) bound
          ≡ some r)
      × Verdict R debug template (R.to_utc t) bound c r
unfolding check_esm_template expand_esm_template
expand_esm_template-checked R debug T t bound =
    elim (Bool-cases (is_some (lookup date_name bound))) [
      | inl taken ↦ (err (reserved T), rw taken refl, err (reserved T), rw taken refl, inl refl)
      | inr free ↦
          let judged = loop-Judged R debug T (R.to_utc t) bound (tokens T) 0 (tokens-InOrder T) in
          (check_tokens T bound (tokens T), rw free refl, judged.0, rw free judged.1, judged.2)
    ]
