-- ===== src/Esm/Expand/Pieces.antt =====
-- esm.rs: templates as pieces, by the rules for tokens of spec/esm-sources.md, and their expansion.
use mathlib.Core.List.{append_assoc}
use mathlib.Core.Option
use earth_sci_io.Prelude.{
  ==→eq, Bool-cases, List, Option, Text, [], all, ap, append_nil, arith, drop-append, inl, inr, leb,
  length, length-append, le→leb, list_eq, lookup, none, prod_eq, refl, some, subst, suc, sym,
  take-append, true, zero, ℕ, ℕ_eq, ◌++◌, ◌+◌, ◌-◌, ◌==◌, ◌∙◌, ◌∷◌, ◌≡◌, ◌≤◌,
}
use earth_sci_io.Exec.{Result, and_then, err, ok, option_then}
use earth_sci_io.Esm.{EsmTemplateError, tokens, tokens_at}
use earth_sci_io.Esm.Scanning.{
  Begins, Begins-or_not, inside, is_format, is_name, not_open, tokens_at-brace, tokens_at-copied,
  tokens_at-inside,
}
use earth_sci_io.Esm.Dates.{Reading}
use earth_sci_io.Esm.Expand.{
  date_name, expand_esm_template, expand_from, joined, text_slice, token_text,
}

-- Literal text without an opening brace, an opening brace that is literal, and a token.
pub data Piece : Type 0 where
  copied : Text → Piece
  brace : Piece
  hole : (name : Text) → (format : Option Text) → Piece

abbrev pub written : Piece → Text
written (copied s) = s
written brace = b'{' ∷ []
written (hole n f) = b'{' ∷ inside n f

abbrev pub template_of : List Piece → Text
template_of [] = []
template_of (p ∷ ps) = written p ++ template_of ps

-- A brace is literal where no token begins behind it.
abbrev pub IsTemplate : List Piece → Type 0
IsTemplate [] = Unit
IsTemplate (copied s ∷ ps) = (all not_open s ≡ true) × IsTemplate ps
IsTemplate (brace ∷ ps) = (¬ Begins (template_of ps)) × IsTemplate ps
IsTemplate (hole n f ∷ ps) = ((is_name n ≡ true) × (is_format f ≡ true)) × IsTemplate ps

-- The pieces of a text with at most `fuel` bytes.
pieces_within :
    (fuel : ℕ) (text : Text)
    → length text ≤ fuel
    → (ps : List Piece) × (text ≡ template_of ps) × IsTemplate ps
pieces_within fuel [] h = ([], refl, tt)
pieces_within zero (c ∷ text) h = absurd (omega (arith, h))
pieces_within (suc fuel) (c ∷ text) h = elim (Bool-cases (c == b'{')) [
  | inr other ↦
      let (ps, e, v) = pieces_within fuel text (omega (arith, h)) in
      (copied (c ∷ []) ∷ ps, ap (λ t. c ∷ t) e, (rw other refl, v))
  | inl opens ↦ elim (Begins-or_not text) [
    | inr literal ↦
        let (ps, e, v) = pieces_within fuel text (omega (arith, h)) in
        (brace ∷ ps, rw (==→eq c b'{' opens, ← e) refl, (subst (λ t. ¬ Begins t) e literal, v))
    | inl (n, f, rest, e, named, plain) ↦
        let (ps, d, v) =
          pieces_within fuel rest
            (omega (arith, h, ap length e, length-append (inside n f) rest)) in
        (hole n f ∷ ps, rw (==→eq c b'{' opens, e, ← d) refl, ((named, plain), v))
  ]
]

-- Every text is a template of pieces.
pub template_of-pieces : (T : Text) → (ps : List Piece) × (T ≡ template_of ps) × IsTemplate ps
template_of-pieces T = pieces_within (length T) T (omega arith)

text_slice-middle :
    (a b c : Text) → text_slice (length a) (length a + length b) (a ++ (b ++ c)) ≡ some b
unfolding text_slice
text_slice-middle a b c =
    let below : leb (length a) (length a + length b) ≡ true = le→leb _ _ (omega arith) in
    let inner : leb (length a + length b) (length (a ++ (b ++ c))) ≡ true =
      rw (length-append a (b ++ c), length-append b c) (le→leb _ _ (omega arith)) in
    let wide : length a + length b - length a ≡ length b = omega arith in
    rw (below, inner, wide, drop-append a (b ++ c), take-append b c) refl

module _ {Instant : Type 0} (R : Reading Instant) (debug : Text → Text) (T : Text)
    (when : Option Instant) (bound : List (Text × Text)) where
  -- What a piece stands for in a template `T`.
  abbrev pub piece_text : Piece → Result EsmTemplateError Text
  piece_text (copied s) = ok s
  piece_text brace = ok (b'{' ∷ [])
  piece_text (hole n f) = token_text R debug T when bound n f

  abbrev pub pieces_text : List Piece → Result EsmTemplateError Text
  pieces_text [] = ok []
  pieces_text (p ∷ ps) = and_then (piece_text p) λ u. and_then (pieces_text ps) λ v. ok (u ++ v)

  abbrev behind : Text → Result EsmTemplateError Text → Option (Result EsmTemplateError Text)
  behind lit r = some (and_then r (λ u. ok (lit ++ u)))

  behind-append :
      (lit s : Text) (r : Result EsmTemplateError Text)
      → behind (lit ++ s) r ≡ behind lit (and_then r (λ u. ok (s ++ u)))
  behind-append lit s (ok u) = ap (λ v. some (ok v)) (append_assoc lit s u)
  behind-append lit s (err e) = refl

  behind_nil : (r : Result EsmTemplateError Text) → behind [] r ≡ some r
  behind_nil (ok u) = refl
  behind_nil (err e) = refl

  behind-joined :
      (lit : Text) (v r : Result EsmTemplateError Text)
      → joined R debug lit v (behind [] r)
        ≡ behind lit (and_then v λ u. and_then r λ w. ok (u ++ w))
  unfolding joined
  behind-joined lit (err e) r = refl
  behind-joined lit (ok v) (ok u) = refl
  behind-joined lit (ok v) (err e) = refl

  -- The loop from the place behind `done`, where the scanner is behind `lit` too.
  abbrev loop : (done lit rest : Text) → Option (Result EsmTemplateError Text)
  loop done lit rest =
      expand_from R debug T when bound (length done) (tokens_at 0 (length done + length lit) rest)

  carried :
      (s rest done lit : Text) (r : Result EsmTemplateError Text)
      → tokens_at 0 (length done + length lit) (s ++ rest)
        ≡ tokens_at 0 (length done + length lit + length s) rest
      → loop done (lit ++ s) rest ≡ behind (lit ++ s) r
      → loop done lit (s ++ rest) ≡ behind lit (and_then r (λ u. ok (s ++ u)))
  carried s rest done lit r scan h =
      let place : length done + length lit + length s ≡ length done + length (lit ++ s) =
        rw (length-append lit s) (omega arith) in
      ap (expand_from R debug T when bound (length done))
        (scan ∙ ap (λ i. tokens_at 0 i rest) place)
      ∙ h
      ∙ behind-append lit s r

  at_end : (done lit : Text) → T ≡ done ++ (lit ++ []) → loop done lit [] ≡ behind lit (ok [])
  unfolding expand_from tokens_at
  at_end done lit e =
      let size : length T ≡ length done + length lit =
        rw (e, length-append done (lit ++ []), length-append lit []) (omega arith) in
      let lit_at : text_slice (length done) (length done + length lit) T ≡ some lit =
        rw e (text_slice-middle done lit []) in
      ap (λ o. option_then o (λ l. some (ok l)))
        (subst (λ k. text_slice (length done) k T ≡ some lit) (sym size) lit_at)
      ∙ ap (λ u. some (ok u)) (sym (append_nil lit))

  at_token :
      (n : Text) (f : Option Text) (rest done lit : Text) (r : Result EsmTemplateError Text)
      → (is_name n ≡ true) × (is_format f ≡ true)
      → T ≡ done ++ (lit ++ (written (hole n f) ++ rest))
      → loop (done ++ (lit ++ written (hole n f))) [] rest ≡ behind [] r
      → loop done lit (written (hole n f) ++ rest)
        ≡ behind lit
            (and_then (token_text R debug T when bound n f) λ u. and_then r λ v. ok (u ++ v))
  unfolding expand_from
  at_token n f rest done lit r h e ih =
      let piece = written (hole n f) in
      let place : length (done ++ (lit ++ piece))
          ≡ length done + length lit + 1 + length (inside n f) =
        rw (length-append done (lit ++ piece), length-append lit piece) (omega arith) in
      let start : length done + length lit + 1 + length (inside n f) + 0
          ≡ length done + length lit + 1 + length (inside n f) =
        omega arith in
      let later : expand_from R debug T when bound
            (length done + length lit + 1 + length (inside n f))
            (tokens_at 0 (length done + length lit + 1 + length (inside n f)) rest)
          ≡ behind [] r =
        subst
          (λ k.
            expand_from R debug T when bound (length done + length lit + 1 + length (inside n f))
              (tokens_at 0 k rest)
            ≡ behind [] r)
          start
          (subst (λ k. expand_from R debug T when bound k (tokens_at 0 (k + 0) rest) ≡ behind [] r)
            place ih) in
      let lit_at : text_slice (length done) (length done + length lit) T ≡ some lit =
        rw e (text_slice-middle done lit (piece ++ rest)) in
      rw (tokens_at-inside (length done + length lit) n f rest h.0 h.1, lit_at, later)
        (behind-joined lit (token_text R debug T when bound n f) r)

  expand_from-pieces :
      (ps : List Piece) (done lit : Text)
      → IsTemplate ps
      → T ≡ done ++ (lit ++ template_of ps)
      → loop done lit (template_of ps) ≡ behind lit (pieces_text ps)
  expand_from-pieces [] done lit h e = at_end done lit e
  expand_from-pieces (copied s ∷ ps) done lit h e =
      carried s (template_of ps) done lit (pieces_text ps)
        (tokens_at-copied s (length done + length lit) (template_of ps) h.0)
        (expand_from-pieces ps done (lit ++ s) h.1
          (e ∙ ap (λ x. done ++ x) (sym (append_assoc lit s (template_of ps)))))
  expand_from-pieces (brace ∷ ps) done lit h e =
      let s = b'{' ∷ [] in
      carried s (template_of ps) done lit (pieces_text ps)
        (tokens_at-brace (length done + length lit) (template_of ps) h.0)
        (expand_from-pieces ps done (lit ++ s) h.1
          (e ∙ ap (λ x. done ++ x) (sym (append_assoc lit s (template_of ps)))))
  expand_from-pieces (hole n f ∷ ps) done lit h e =
      let s = written (hole n f) in
      at_token n f (template_of ps) done lit (pieces_text ps) h.0 e (
        expand_from-pieces ps (done ++ (lit ++ s)) [] h.1 (
          e
          ∙ ap (λ x. done ++ x) (sym (append_assoc lit s (template_of ps)))
          ∙ sym (append_assoc done (lit ++ s) (template_of ps))))

-- Where no substitution is named `date`, the expansion of a template is its literal text with each
-- token's text in its place, or the error of the first token that has none. A template is put
-- together from texts without an opening brace, tokens, and opening braces behind which no token
-- begins.
pub expand_esm_template-pieces :
    {Instant : Type 0} (R : Reading Instant) (debug : Text → Text) (ps : List Piece)
    (anchor : Option Instant) (bound : List (Text × Text))
    → IsTemplate ps
    → lookup date_name bound ≡ none
    → expand_esm_template R debug (template_of ps) anchor bound
      ≡ some (pieces_text R debug (template_of ps) (Option.map R.to_utc anchor) bound ps)
unfolding expand_esm_template tokens
expand_esm_template-pieces R debug ps anchor bound h free =
    let when = Option.map R.to_utc anchor in
    rw free (
      expand_from-pieces R debug (template_of ps) when bound ps [] [] h refl
      ∙ behind_nil R debug (template_of ps) when bound
          (pieces_text R debug (template_of ps) when bound ps))
