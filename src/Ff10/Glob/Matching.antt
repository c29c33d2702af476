-- ===== src/Ff10/Glob/Matching.antt =====
-- format/ff10.rs: the matcher against what a pattern means.
use earth_sci_io.Prelude.{
  Bool, Bool-cases, List, Option, [], ap, arith, drop, false, if◌then◌else◌, inl, inr, length,
  length-drop, list_eq, none, or_false, or_true, prod_eq, refl, some, subst, suc, sym, true, zero,
  ℕ, ℕ_eq, ◌&&◌, ◌++◌, ◌+◌, ◌||◌, ◌∙◌, ◌∷◌, ◌≡◌, ◌≤◌,
}
use earth_sci_io.Ff10.Glob.{GlobTok, all_stars, is_star, tok_match}

abbrev pub is_empty : List ℕ → Bool
is_empty [] = true
is_empty (c ∷ cs) = false

-- A rest of the text, the whole included.
abbrev pub anywhere : (List ℕ → Bool) → List ℕ → Bool
anywhere p [] = p []
anywhere p (c ∷ cs) = p (c ∷ cs) || anywhere p cs

-- One character, and then the rest.
abbrev pub then_rest : (ℕ → Bool) → (List ℕ → Bool) → List ℕ → Bool
then_rest q p [] = false
then_rest q p (c ∷ cs) = q c && p cs

-- What a pattern means: a star stands for any run of characters, any other token for one.
abbrev pub matches : List GlobTok → List ℕ → Bool
matches [] cs = is_empty cs
matches (t ∷ toks) cs =
    if is_star t then anywhere (matches toks) cs else then_rest (tok_match t) (matches toks) cs

-- A rest of the text that is not the whole.
unfoldable pub later : (List ℕ → Bool) → List ℕ → Bool
later p [] = false
later p (c ∷ cs) = anywhere p cs

module _ (p : List ℕ → Bool) where
  pub anywhere-later : (cs : List ℕ) → anywhere p cs ≡ (p cs || later p cs)
  unfolding later
  anywhere-later [] = or_false (p [])
  anywhere-later (c ∷ cs) = refl

  anywhere-drop :
      (cs : List ℕ) → anywhere p cs ≡ true → (n : ℕ) × (n ≤ length cs) × (p (drop n cs) ≡ true)
  anywhere-drop [] h = (0, omega arith, h)
  anywhere-drop (c ∷ cs) h = elim (Bool-cases (p (c ∷ cs))) [
    | inl here ↦ (0, omega arith, here)
    | inr not_here ↦
        let r = anywhere-drop cs (rw not_here at h) in (suc r.0, omega (arith, r.1), r.2)
  ]

  drop-anywhere :
      (n : ℕ) (cs : List ℕ) → n ≤ length cs → p (drop n cs) ≡ true → anywhere p cs ≡ true
  drop-anywhere zero [] le h = h
  drop-anywhere zero (c ∷ cs) le h = rw h
  drop-anywhere (suc n) [] le h = absurd (omega arith)
  drop-anywhere (suc n) (c ∷ cs) le h = rw (drop-anywhere n cs (omega arith) h) (or_true _)

  later-drop :
      (cs : List ℕ)
      → later p cs ≡ true
      → (n : ℕ) × (suc n ≤ length cs) × (p (drop (suc n) cs) ≡ true)
  unfolding later
  later-drop [] h = cc
  later-drop (c ∷ cs) h = let r = anywhere-drop cs h in (r.0, omega (arith, r.1), r.2)

  drop-later :
      (n : ℕ) (cs : List ℕ) → suc n ≤ length cs → p (drop (suc n) cs) ≡ true → later p cs ≡ true
  unfolding later
  drop-later n [] le h = absurd (omega arith)
  drop-later n (c ∷ cs) le h = drop-anywhere n cs (omega arith) h

and_right : (a b : Bool) → (a && b) ≡ true → b ≡ true
and_right a b h = ground arith

drop_nil : (n : ℕ) → drop {A = ℕ} n [] ≡ []
drop_nil zero = refl
drop_nil (suc n) = refl

pub drop-drop : (m n : ℕ) (cs : List ℕ) → drop m (drop n cs) ≡ drop (m + n) cs
drop-drop m zero cs = ap (λ k. drop k cs) (omega arith)
drop-drop m (suc n) [] = drop_nil m ∙ sym (drop_nil (m + suc n))
drop-drop m (suc n) (c ∷ cs) =
    let e : suc (m + n) ≡ m + suc n = omega arith in drop-drop m n cs ∙ ap (λ k. drop k (c ∷ cs)) e

-- A prefix of the pattern without a star takes one character for each token.
abbrev pub IsPlain : List GlobTok → Type 0
IsPlain [] = Unit
IsPlain (t ∷ toks) = (is_star t ≡ false) × IsPlain toks

plain_takes :
    (prefix toks : List GlobTok) (cs : List ℕ)
    → IsPlain prefix
    → matches (prefix ++ toks) cs ≡ true
    → (length prefix ≤ length cs) × (matches toks (drop (length prefix) cs) ≡ true)
plain_takes [] toks cs plain h = (omega arith, h)
plain_takes (t ∷ prefix) toks [] plain h = let k : false ≡ true = rw plain.0 at h in absurd (cc k)
plain_takes (t ∷ prefix) toks (c ∷ cs) plain h =
    let k : (tok_match t c && matches (prefix ++ toks) cs) ≡ true = rw plain.0 at h in
    let r = plain_takes prefix toks cs plain.1 (and_right (tok_match t c) _ k) in
    (omega (arith, r.0), r.1)

-- The text that the last star leaves for another try.
abbrev pub alternative : Option (List GlobTok) → List ℕ → Bool
alternative none mark = false
alternative (some behind) mark = later (matches behind) mark

-- The tokens since the last star have taken the characters since the mark, one each.
abbrev pub IsTracked : Option (List GlobTok) → List GlobTok → List ℕ → List ℕ → Type 0
IsTracked none toks cs mark = Unit
IsTracked (some behind) toks cs mark =
    (prefix : List GlobTok) × (behind ≡ prefix ++ toks)
    × IsPlain prefix
    × (cs ≡ drop (length prefix) mark)
    × (length prefix ≤ length mark)

-- Another try succeeds only if the tokens that are left match a later rest.
pub alternative-later :
    (last : Option (List GlobTok)) (toks : List GlobTok) (cs mark : List ℕ)
    → IsTracked last toks cs mark
    → alternative last mark ≡ true
    → later (matches toks) cs ≡ true
alternative-later none toks cs mark v h = cc
alternative-later (some behind) toks cs mark (prefix, b, plain, at, fits) h =
    let d = later-drop (matches behind) mark h in
    let x =
      plain_takes prefix toks (drop (suc d.0) mark) plain
        (subst (λ ts. matches ts (drop (suc d.0) mark) ≡ true) b d.2) in
    let e : length prefix + suc d.0 ≡ suc d.0 + length prefix = omega arith in
    let same : drop (length prefix) (drop (suc d.0) mark) ≡ drop (suc d.0) cs =
      drop-drop (length prefix) (suc d.0) mark
      ∙ (ap (λ k. drop k mark) e
          ∙ (sym (drop-drop (suc d.0) (length prefix) mark) ∙ ap (drop (suc d.0)) (sym at))) in
    drop-later (matches toks) d.0 cs
      (omega (
        arith,
        x.0,
        length-drop (suc d.0) mark,
        ap length at,
        length-drop (length prefix) mark,
        d.1,
        fits,
      ))
      (subst (λ rest. matches toks rest ≡ true) same x.1)

-- Passing a star: what the tries before could reach, the new star reaches too.
pub later-anywhere :
    (p : List ℕ → Bool) (cs : List ℕ) → later (anywhere p) cs ≡ true → anywhere p cs ≡ true
later-anywhere p cs h =
    let d = later-drop (anywhere p) cs h in
    let x = anywhere-drop p (drop (suc d.0) cs) d.2 in
    drop-anywhere p (x.0 + suc d.0) cs (omega (arith, x.1, d.1, length-drop (suc d.0) cs))
      (rw (← drop-drop x.0 (suc d.0) cs) x.2)

pub all_stars-matches : (toks : List GlobTok) → all_stars toks ≡ matches toks []
unfolding all_stars
all_stars-matches [] = refl
all_stars-matches (t ∷ toks) = ground (arith, all_stars-matches toks)
