-- ===== src/Esm/Scanning.antt =====
-- esm.rs: what the scanner of tokens yields on a text that is put together from known parts.
use mathlib.Core.List.{append_assoc}
use earth_sci_io.Prelude.{
  ==→eq, Bool, Bool-cases, Option, Text, [], all, and_both, ap, arith, drop, drop-append, false,
  inl, inr, length, length-append, list_eq, none, not, prod_eq, refl, some, subst, suc, sym, true,
  ℕ, ℕ_eq, ◌&&◌, ◌++◌, ◌+◌, ◌-◌, ◌==◌, ◌∙◌, ◌∷◌, ◌≡◌, ◌⊎◌,
}
use earth_sci_io.Esm.{
  Token, behind_name, formatted, is_name_byte, is_name_start, is_plain, name_at, take_while,
  token_from, tokens_at,
}

take_while-append :
    (p : ℕ → Bool) (s : Text) (c : ℕ) (r : Text)
    → all p s ≡ true
    → p c ≡ false
    → take_while p (s ++ c ∷ r) ≡ s
unfolding take_while
take_while-append p [] c r h stop = rw stop refl
take_while-append p (x ∷ s) c r h stop =
    let v = and_both (p x) (all p s) h in rw (v.0, take_while-append p s c r v.1 stop) refl

-- `[A-Za-z_][A-Za-z0-9_]*`
abbrev pub is_name : Text → Bool
is_name [] = false
is_name (c ∷ cs) = is_name_start c && all is_name_byte cs

abbrev pub is_format : Option Text → Bool
is_format none = true
is_format (some f) = all is_plain f

-- What stands behind the brace of a token.
abbrev pub inside : (name : Text) → Option Text → Text
inside name none = name ++ b'}' ∷ []
inside name (some f) = name ++ b':' ∷ (f ++ b'}' ∷ [])

name_at-append :
    (n : Text) (c : ℕ) (r : Text)
    → is_name n ≡ true
    → is_name_byte c ≡ false
    → name_at (n ++ c ∷ r) ≡ n
unfolding name_at
name_at-append [] c r h stop = cc h
name_at-append (x ∷ n) c r h stop =
    let v = and_both (is_name_start x) (all is_name_byte n) h in
    rw (v.0, take_while-append is_name_byte n c r v.1 stop) refl

-- The token of a name and a format.
abbrev pub token_of : (i : ℕ) → (name : Text) → Option Text → Token
token_of i name format = record {
  start = i;
  end = i + 1 + length (inside name format);
  name = name;
  format = format;
}

behind_name_bare :
    (i : ℕ) (n : Text) (r : Text)
    → is_name n ≡ true
    → behind_name i n (i + 1 + length n) (b'}' ∷ r) ≡ some (token_of i n none)
unfolding behind_name
behind_name_bare i [] r h = cc h
behind_name_bare i (x ∷ n) r h =
    ap (λ e. some (record { start = i; end = e; name = x ∷ n; format = none }))
      (omega (arith, length-append (x ∷ n) (b'}' ∷ [])))

formatted_closed :
    (i : ℕ) (n : Text) (f r : Text)
    → formatted i n (i + 1 + length n + 1) f (b'}' ∷ r) ≡ some (token_of i n (some f))
unfolding formatted
formatted_closed i n f r =
    ap (λ e. some (record { start = i; end = e; name = n; format = some f }))
      (rw (length-append n (b':' ∷ (f ++ b'}' ∷ [])), length-append f (b'}' ∷ [])) (omega arith))

behind_name_formatted :
    (i : ℕ) (n f r : Text)
    → is_name n ≡ true
    → all is_plain f ≡ true
    → behind_name i n (i + 1 + length n) (b':' ∷ (f ++ b'}' ∷ r)) ≡ some (token_of i n (some f))
unfolding behind_name
behind_name_formatted i [] f r h plain = cc h
behind_name_formatted i (x ∷ n) f r h plain =
    rw (take_while-append is_plain f b'}' r plain refl, drop-append f (b'}' ∷ r))
      (formatted_closed i (x ∷ n) f r)

pub token_from-inside :
    (i : ℕ) (n : Text) (f : Option Text) (r : Text)
    → is_name n ≡ true
    → is_format f ≡ true
    → token_from i (inside n f ++ r) ≡ some (token_of i n f)
unfolding token_from
token_from-inside i n none r h plain =
    rw (append_assoc n (b'}' ∷ []) r, name_at-append n b'}' r h refl, drop-append n (b'}' ∷ r))
      (behind_name_bare i n r h)
token_from-inside i n (some f) r h plain =
    rw
      (
        append_assoc n (b':' ∷ (f ++ b'}' ∷ [])) r,
        append_assoc f (b'}' ∷ []) r,
        name_at-append n b':' (f ++ b'}' ∷ r) h refl,
        drop-append n (b':' ∷ (f ++ b'}' ∷ r)),
      )
      (behind_name_formatted i n f r h plain)

pub tokens_at-skipped :
    (s : Text) (i : ℕ) (r : Text) → tokens_at (length s) i (s ++ r) ≡ tokens_at 0 (i + length s) r
unfolding tokens_at
tokens_at-skipped [] i r = ap (λ j. tokens_at 0 j r) (omega arith)
tokens_at-skipped (c ∷ s) i r =
    tokens_at-skipped s (suc i) r ∙ ap (λ j. tokens_at 0 j r) (omega arith)

abbrev pub not_open : ℕ → Bool
not_open c = not (c == b'{')

pub tokens_at-copied :
    (s : Text) (i : ℕ) (r : Text)
    → all not_open s ≡ true
    → tokens_at 0 i (s ++ r) ≡ tokens_at 0 (i + length s) r
unfolding tokens_at
tokens_at-copied [] i r h = ap (λ j. tokens_at 0 j r) (omega arith)
tokens_at-copied (c ∷ s) i r h = elim (Bool-cases (c == b'{')) [
  | inl brace ↦ let v = and_both (not_open c) (all not_open s) h in cc (v.0, brace)
  | inr other ↦ rw other (
      tokens_at-copied s (suc i) r (and_both (not_open c) (all not_open s) h).1
      ∙ ap (λ j. tokens_at 0 j r) (omega arith))
]

pub tokens_at-inside :
    (i : ℕ) (n : Text) (f : Option Text) (r : Text)
    → is_name n ≡ true
    → is_format f ≡ true
    → tokens_at 0 i (b'{' ∷ inside n f ++ r)
      ≡ (token_of i n f ∷ tokens_at 0 (i + 1 + length (inside n f)) r)
unfolding tokens_at
tokens_at-inside i n f r h plain =
    let k : i + 1 + length (inside n f) - suc i ≡ length (inside n f) = omega arith in
    rw (token_from-inside i n f r h plain, k)
      (ap (λ toks. token_of i n f ∷ toks)
        (tokens_at-skipped (inside n f) (suc i) r ∙ ap (λ j. tokens_at 0 j r) (omega arith)))

-- The rest of a token stands at the start of a text.
abbrev pub Begins : Text → Type 0
Begins text =
    (name : Text) × (format : Option Text) × (rest : Text) × (text ≡ inside name format ++ rest)
    × (is_name name ≡ true)
    × (is_format format ≡ true)

take_while-drop : (p : ℕ → Bool) (s : Text) → s ≡ take_while p s ++ drop (length (take_while p s)) s
unfolding take_while
take_while-drop p [] = refl
take_while-drop p (c ∷ s) = elim (Bool-cases (p c)) [
  | inl passed ↦ rw passed (ap (λ t. c ∷ t) (take_while-drop p s))
  | inr stopped ↦ rw stopped refl
]

all-take_while : (p : ℕ → Bool) (s : Text) → all p (take_while p s) ≡ true
unfolding take_while
all-take_while p [] = refl
all-take_while p (c ∷ s) = elim (Bool-cases (p c)) [
  | inl passed ↦ rw passed (rw passed (all-take_while p s))
  | inr stopped ↦ rw stopped refl
]

name_at-drop : (s : Text) → s ≡ name_at s ++ drop (length (name_at s)) s
unfolding name_at
name_at-drop [] = refl
name_at-drop (c ∷ s) = elim (Bool-cases (is_name_start c)) [
  | inl started ↦ rw started (ap (λ t. c ∷ t) (take_while-drop is_name_byte s))
  | inr other ↦ rw other refl
]

name_at-is_name : (s : Text) → (name_at s ≡ []) ⊎ (is_name (name_at s) ≡ true)
unfolding name_at
name_at-is_name [] = inl refl
name_at-is_name (c ∷ s) = elim (Bool-cases (is_name_start c)) [
  | inl started ↦ rw started (inr (rw started (all-take_while is_name_byte s)))
  | inr other ↦ rw other (inl refl)
]

formatted-Begins :
    (i : ℕ) (n : Text) (k : ℕ) (f left : Text)
    → is_name n ≡ true
    → all is_plain f ≡ true
    → (formatted i n k f left ≡ none) ⊎ Begins (n ++ b':' ∷ (f ++ left))
unfolding formatted
formatted-Begins i n k f [] h plain = inl refl
formatted-Begins i n k f (c ∷ left) h plain = elim (Bool-cases (c == b'}')) [
  | inr other ↦ rw other (inl refl)
  | inl close ↦
      let e : n ++ b':' ∷ (f ++ c ∷ left) ≡ inside n (some f) ++ left =
        rw
          (
            ==→eq c b'}' close,
            append_assoc n (b':' ∷ (f ++ b'}' ∷ [])) left,
            append_assoc f (b'}' ∷ []) left,
          )
          refl in
      inr (n, some f, left, e, h, plain)
]

behind_name-Begins :
    (i : ℕ) (n : Text) (j : ℕ) (left : Text)
    → is_name n ≡ true
    → (behind_name i n j left ≡ none) ⊎ Begins (n ++ left)
unfolding behind_name
behind_name-Begins i [] j left h = cc h
behind_name-Begins i (x ∷ n) j [] h = inl refl
behind_name-Begins i (x ∷ n) j (c ∷ left) h = elim (Bool-cases (c == b'}')) [
  | inl close ↦
      let e : (x ∷ n) ++ c ∷ left ≡ inside (x ∷ n) none ++ left =
        rw (==→eq c b'}' close, append_assoc n (b'}' ∷ []) left) refl in
      inr (x ∷ n, none, left, e, h, refl)
  | inr still_open ↦ elim (Bool-cases (c == b':')) [
    | inr other ↦ rw (still_open, other) (inl refl)
    | inl colon ↦
        let f = take_while is_plain left in
        let behind = drop (length f) left in
        let e : (x ∷ n) ++ b':' ∷ (f ++ behind) ≡ (x ∷ n) ++ c ∷ left =
          rw (==→eq c b':' colon, ← take_while-drop is_plain left) refl in
        rw (still_open, colon)
          (subst (λ text. (formatted i (x ∷ n) (j + 1) f behind ≡ none) ⊎ Begins text) e
            (formatted-Begins i (x ∷ n) (j + 1) f behind h (all-take_while is_plain left)))
  ]
]

-- Where no token begins, the scanner finds none.
token_from-Begins : (i : ℕ) (rest : Text) → (token_from i rest ≡ none) ⊎ Begins rest
unfolding token_from
token_from-Begins i rest =
    let n = name_at rest in
    let left = drop (length n) rest in
    elim (name_at-is_name rest) [
      | inl empty ↦ inl (rw empty (unfold behind_name in refl))
      | inr named ↦
          subst (λ text. (behind_name i n (i + 1 + length n) left ≡ none) ⊎ Begins text)
            (sym (name_at-drop rest)) (behind_name-Begins i n (i + 1 + length n) left named)
    ]

pub token_from-not-Begins : (i : ℕ) (rest : Text) → token_from i rest ≡ none → ¬ Begins rest
token_from-not-Begins i rest h (n, f, r, e, named, plain) =
    let found : token_from i rest ≡ some (token_of i n f) =
      rw e (token_from-inside i n f r named plain) in
    let both : ◌≡◌ {A = Option Token} none (some (token_of i n f)) = sym h ∙ found in cc both

-- A brace at which no token begins is literal.
pub tokens_at-brace :
    (i : ℕ) (rest : Text) → ¬ Begins rest → tokens_at 0 i (b'{' ∷ rest) ≡ tokens_at 0 (i + 1) rest
unfolding tokens_at
tokens_at-brace i rest h = elim (token_from-Begins i rest) [
  | inl nothing ↦ rw nothing (ap (λ j. tokens_at 0 j rest) (omega arith))
  | inr begins ↦ absurd (h begins)
]

pub Begins-or_not : (rest : Text) → Begins rest ⊎ (¬ Begins rest)
Begins-or_not rest = elim (token_from-Begins 0 rest) [
  | inl nothing ↦ inr (token_from-not-Begins 0 rest nothing)
  | inr begins ↦ inl begins
]
