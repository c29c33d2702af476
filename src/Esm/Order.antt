-- ===== src/Esm/Order.antt =====
-- esm.rs: the tokens of any text stand in order, one behind the other, within the text.
use earth_sci_io.Prelude.{
  Bool-cases, List, Option, Text, [], arith, drop, inl, inr, length, length-drop, list_eq, none,
  prod_eq, refl, some, subst, suc, zero, ℕ, ℕ_eq, ◌+◌, ◌-◌, ◌<◌, ◌==◌, ◌∷◌, ◌≡◌, ◌≤◌,
}
use earth_sci_io.Esm.{
  Token, behind_name, formatted, is_plain, name_at, take_while, token_from, tokens, tokens_at,
}

-- A token that starts at `i`, and ends behind `low` and at most at `high`.
abbrev Spans : (i low high : ℕ) → Token → Type 0
Spans i low high t = (t.start ≡ i) × (low < t.end) × (t.end ≤ high)

abbrev SpansAny : (i low high : ℕ) → Option Token → Type 0
SpansAny i low high none = Unit
SpansAny i low high (some t) = Spans i low high t

formatted-Spans :
    (i : ℕ) (n : Text) (k : ℕ) (f rest : Text)
    → SpansAny i k (k + length f + length rest) (formatted i n k f rest)
unfolding formatted
formatted-Spans i n k f [] = tt
formatted-Spans i n k f (c ∷ rest) = elim (Bool-cases (c == b'}')) [
  | inl close ↦ rw close (refl, omega arith, omega arith)
  | inr other ↦ rw other tt
]

wider :
    (i low low' high high' : ℕ) (o : Option Token)
    → low' ≤ low
    → (length_some : ¬ (o ≡ none) → high ≤ high') → SpansAny i low high o
    → SpansAny i low' high' o
wider i low low' high high' none below above h = tt
wider i low low' high high' (some t) below above (s, l, u) =
    (s, omega arith, omega (arith, above (λ e. cc e)))

formatted-some :
    (i : ℕ) (n : Text) (k : ℕ) (f rest : Text) → ¬ (formatted i n k f rest ≡ none) → 1 ≤ length rest
unfolding formatted
formatted-some i n k f [] h = absurd (h refl)
formatted-some i n k f (c ∷ rest) h = omega arith

behind_name-Spans :
    (i : ℕ) (n : Text) (j : ℕ) (rest : Text)
    → SpansAny i j (j + length rest) (behind_name i n j rest)
unfolding behind_name
behind_name-Spans i [] j rest = tt
behind_name-Spans i (x ∷ n) j [] = tt
behind_name-Spans i (x ∷ n) j (c ∷ rest) =
    let f = take_while is_plain rest in
    let left = drop (length f) rest in
    let long = length-drop (length f) rest in
    elim (Bool-cases (c == b'}')) [
      | inl close ↦ rw close (refl, omega arith, omega arith)
      | inr open_still ↦ elim (Bool-cases (c == b':')) [
        | inl colon ↦
            rw (open_still, colon)
              (wider i (j + 1) j (j + 1 + length f + length left) (j + suc (length rest))
                (formatted i (x ∷ n) (j + 1) f left) (omega arith)
                (λ h. omega (arith, long, formatted-some i (x ∷ n) (j + 1) f left h))
                (formatted-Spans i (x ∷ n) (j + 1) f left))
        | inr other ↦ rw (open_still, other) tt
      ]
    ]

behind_name-some :
    (i : ℕ) (n : Text) (j : ℕ) (rest : Text) → ¬ (behind_name i n j rest ≡ none) → 1 ≤ length rest
unfolding behind_name
behind_name-some i [] j rest h = absurd (h refl)
behind_name-some i (x ∷ n) j [] h = absurd (h refl)
behind_name-some i (x ∷ n) j (c ∷ rest) h = omega arith

token_from-Spans : (i : ℕ) (rest : Text) → SpansAny i i (i + 1 + length rest) (token_from i rest)
unfolding token_from
token_from-Spans i rest =
    let n = name_at rest in
    let left = drop (length n) rest in
    wider i (i + 1 + length n) i (i + 1 + length n + length left) (i + 1 + length rest)
      (behind_name i n (i + 1 + length n) left) (omega arith)
      (λ h.
        omega (arith, length-drop (length n) rest, behind_name-some i n (i + 1 + length n) left h))
      (behind_name-Spans i n (i + 1 + length n) left)

-- Tokens in order in a text of length `n`, from the place `last` on.
unfoldable pub InOrder : (last n : ℕ) → List Token → Type 0
InOrder last n [] = last ≤ n
InOrder last n (t ∷ toks) = (last ≤ t.start) × (t.start ≤ n) × InOrder t.end n toks

-- One step at a brace at `i`, in a text of length `n`.
brace-InOrder :
    (i last n : ℕ) (cs : Text) (o : Option Token)
    → last ≤ i
    → i < n
    → SpansAny i i n o
    → InOrder last n (tokens_at 0 (suc i) cs)
    → ((e : ℕ) → i < e → e ≤ n → InOrder e n (tokens_at (e - suc i) (suc i) cs))
    → InOrder last n (elim o [
      | none ↦ tokens_at 0 (suc i) cs
      | some t ↦ t ∷ tokens_at (t.end - suc i) (suc i) cs
    ])
unfolding InOrder
brace-InOrder i last n cs none before inner h bare next = bare
brace-InOrder i last n cs (some t) before inner (s, low, high) bare next =
    (omega (arith, s), omega (arith, s), next t.end low high)

pub tokens_at-InOrder :
    (cs : Text) (skip i last : ℕ)
    → last ≤ i + skip
    → skip ≤ length cs
    → InOrder last (i + length cs) (tokens_at skip i cs)
unfolding tokens_at InOrder
tokens_at-InOrder [] skip i last before fits = omega arith
tokens_at-InOrder (c ∷ cs) (suc skip) i last before fits =
    let n : suc i + length cs ≡ i + suc (length cs) = omega arith in
    subst (λ k. InOrder last k (tokens_at skip (suc i) cs)) n
      (tokens_at-InOrder cs skip (suc i) last (omega arith) (omega arith))
tokens_at-InOrder (c ∷ cs) zero i last before fits =
    let n : suc i + length cs ≡ i + suc (length cs) = omega arith in
    let bare : InOrder last (i + suc (length cs)) (tokens_at 0 (suc i) cs) =
      subst (λ k. InOrder last k (tokens_at 0 (suc i) cs)) n
        (tokens_at-InOrder cs 0 (suc i) last (omega arith) (omega arith)) in
    let next : (e : ℕ)
        → i < e
        → e ≤ i + suc (length cs)
        → InOrder e (i + suc (length cs)) (tokens_at (e - suc i) (suc i) cs) =
      λ e low high.
        subst (λ k. InOrder e k (tokens_at (e - suc i) (suc i) cs)) n
          (tokens_at-InOrder cs (e - suc i) (suc i) e (omega arith) (omega arith)) in
    let m : i + 1 + length cs ≡ i + suc (length cs) = omega arith in
    let spans : SpansAny i i (i + suc (length cs)) (token_from i cs) =
      subst (λ k. SpansAny i i k (token_from i cs)) m (token_from-Spans i cs) in
    elim (Bool-cases (c == b'{')) [
      | inl brace ↦ rw brace (
          brace-InOrder i last (i + suc (length cs)) cs (token_from i cs) (omega arith)
            (omega arith) spans bare next)
      | inr other ↦ rw other bare
    ]

pub tokens-InOrder : (T : Text) → InOrder 0 (length T) (tokens T)
unfolding tokens
tokens-InOrder T =
    let n : 0 + length T ≡ length T = omega arith in
    subst (λ k. InOrder 0 k (tokens_at 0 0 T)) n
      (tokens_at-InOrder T 0 0 0 (omega arith) (omega arith))
