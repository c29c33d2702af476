-- ===== src/Ff10/Glob/Running.antt =====
-- format/ff10.rs: the matcher's loop with its one star to go back to.
use mathlib.Core.List.{append_assoc}
use native.Mathlib.Nat.{mul-le-mul_right, suc-mul}
use earth_sci_io.Prelude.{
  Bool, Bool-cases, List, Option, [], ap, arith, drop, false, fun_ext, inl, inr, length,
  length-append, length-drop, list_eq, none, or_false, prod_eq, refl, some, suc, sym, true, zero, ℕ,
  ℕ_eq, ◌*◌, ◌++◌, ◌+◌, ◌<◌, ◌||◌, ◌∙◌, ◌∷◌, ◌≡◌, ◌≤◌,
}
use earth_sci_io.Ff10.Glob.{
  GlobTok, Move, all_stars, backs, enough_fuel, glob_match, glob_move, glob_retry, glob_run,
  glob_step, is_star, passes, takes, tok_match,
}
use earth_sci_io.Ff10.Glob.Matching.{
  IsPlain, IsTracked, all_stars-matches, alternative, alternative-later, anywhere, anywhere-later,
  drop-drop, later, later-anywhere, matches,
}

-- What the loop answers: the rest matches now, or from another try of the last star.
abbrev value : List GlobTok → List ℕ → Option (List GlobTok) → List ℕ → Bool
value toks cs last mark = matches toks cs || alternative last mark

abbrev BehindFits : ℕ → Option (List GlobTok) → Type 0
BehindFits T none = Unit
BehindFits T (some behind) = length behind ≤ T

-- How far the loop is from its end.
record Near (T S f : ℕ) (toks : List GlobTok) (cs : List ℕ) (last : Option (List GlobTok))
    (mark : List ℕ) : Type 0 where
  measured : length mark * suc (T + S) + (length toks + length cs) < f
  behind : BehindFits T last
  text : length cs ≤ length mark
  whole : length mark ≤ S
  tokens : length toks ≤ T

data Moved (c : ℕ) (toks : List GlobTok) : Move → Type 0 where
  passed :
      {rest : List GlobTok} (t : GlobTok)
      → toks ≡ t ∷ rest
      → is_star t ≡ true
      → Moved c toks (passes rest)
  taken :
      {rest : List GlobTok} (t : GlobTok)
      → toks ≡ t ∷ rest
      → is_star t ≡ false
      → tok_match t c ≡ true
      → Moved c toks (takes rest)
  backed : ((cs : List ℕ) → matches toks (c ∷ cs) ≡ false) → Moved c toks backs

glob_move-Moved : (toks : List GlobTok) (c : ℕ) → Moved c toks (glob_move toks c)
unfolding glob_move
glob_move-Moved [] c = backed (λ cs. refl)
glob_move-Moved (t ∷ toks) c = elim (Bool-cases (is_star t)) [
  | inl s ↦ rw s (passed t refl s)
  | inr plain ↦ elim (Bool-cases (tok_match t c)) [
    | inl fits ↦ rw (plain, fits) (taken t refl plain fits)
    | inr clash ↦ rw (plain, clash) (backed (λ cs. rw (plain, clash)))
  ]
]

-- The loop below `f` units of fuel.
Runs : ℕ → Type 0
Runs f =
    (T S : ℕ) (toks : List GlobTok) (cs : List ℕ) (last : Option (List GlobTok)) (mark : List ℕ)
    → Near T S f toks cs last mark
    → IsTracked last toks cs mark
    → glob_run f toks cs last mark ≡ some (value toks cs last mark)

-- One token more has taken one character more.
IsTracked-on :
    (toks : List GlobTok) (c : ℕ) (cs mark : List ℕ) (rest : List GlobTok) (t : GlobTok)
    (o : Option (List GlobTok))
    → toks ≡ t ∷ rest
    → is_star t ≡ false
    → IsTracked o toks (c ∷ cs) mark
    → IsTracked o rest cs mark
IsTracked-on toks c cs mark rest t none e s w = tt
IsTracked-on toks c cs mark rest t (some behind) e s (prefix, b, plain, at, fits) = (
  prefix ++ t ∷ [],
  b ∙ (ap (λ ts. prefix ++ ts) e ∙ sym (append_assoc prefix (t ∷ []) rest)),
  plain_on prefix plain,
  ap (drop 1) at
      ∙ (drop-drop 1 (length prefix) mark
          ∙ ap (λ k. drop k mark) (omega (arith, length-append {0} prefix (t ∷ [])))),
  omega (
    arith,
    length-append {0} prefix (t ∷ []),
    ap length at,
    length-drop (length prefix) mark,
    fits,
  ),
)
  where
    plain_on : (ts : List GlobTok) → IsPlain ts → IsPlain (ts ++ t ∷ [])
    plain_on [] p = (s, tt)
    plain_on (x ∷ xs) p = (p.0, plain_on xs p.1)

module _ (f T S : ℕ) (toks : List GlobTok) (c : ℕ) (cs : List ℕ) (last : Option (List GlobTok))
    (mark : List ℕ) (ih : Runs f) (n : Near T S (suc f) toks (c ∷ cs) last mark)
    (v : IsTracked last toks (c ∷ cs) mark) where
  -- With no other try, or with one that the rest makes too.
  alternative_absorbed :
      (later (matches toks) (c ∷ cs) ≡ true → matches toks (c ∷ cs) ≡ true)
      → value toks (c ∷ cs) last mark ≡ matches toks (c ∷ cs)
  alternative_absorbed h = elim (Bool-cases (alternative last mark)) [
    | inr no_other ↦ rw no_other (sym (or_false _))
    | inl other_try ↦ let m = h (alternative-later last toks (c ∷ cs) mark v other_try) in rw m
  ]

  run_passed :
      (rest : List GlobTok) (t : GlobTok)
      → toks ≡ t ∷ rest
      → is_star t ≡ true
      → glob_run f rest (c ∷ cs) (some rest) (c ∷ cs) ≡ some (value toks (c ∷ cs) last mark)
  unfolding Runs
  run_passed rest t e s =
      let meaning : matches toks ≡ anywhere (matches rest) = ap matches e ∙ fun_ext (λ ds. rw s) in
      let absorbed : value toks (c ∷ cs) last mark ≡ matches toks (c ∷ cs) =
        alternative_absorbed (rw meaning (later-anywhere (matches rest) (c ∷ cs))) in
      let near : Near T S f rest (c ∷ cs) (some rest) (c ∷ cs) = record {
        measured = omega (arith, n.measured, mul-le-mul_right (suc (T + S)) n.text, ap length e);
        behind = omega (arith, n.tokens, ap length e);
        text = omega arith;
        whole = omega (arith, n.text, n.whole);
        tokens = omega (arith, n.tokens, ap length e);
      } in
      let tracked : IsTracked (some rest) rest (c ∷ cs) (c ∷ cs) =
        ([], refl, tt, refl, omega arith) in
      ih T S rest (c ∷ cs) (some rest) (c ∷ cs) near tracked
      ∙ ap some (
          (sym (anywhere-later (matches rest) (c ∷ cs)))
          ∙ (ap (λ p. p (c ∷ cs)) (sym meaning) ∙ sym absorbed))

  run_taken :
      (rest : List GlobTok) (t : GlobTok)
      → toks ≡ t ∷ rest
      → is_star t ≡ false
      → tok_match t c ≡ true
      → glob_run f rest cs last mark ≡ some (value toks (c ∷ cs) last mark)
  unfolding Runs
  run_taken rest t e s fits =
      let near : Near T S f rest cs last mark = record {
        measured = omega (arith, n.measured, ap length e);
        behind = n.behind;
        text = omega (arith, n.text);
        whole = n.whole;
        tokens = omega (arith, n.tokens, ap length e);
      } in
      let now : matches toks (c ∷ cs) ≡ matches rest cs =
        ap (λ ts. matches ts (c ∷ cs)) e ∙ rw (s, fits) in
      ih T S rest cs last mark near (IsTracked-on toks c cs mark rest t last e s v)
      ∙ ap some (ap (λ b. b || alternative last mark) (sym now))

  run_backed :
      ((ds : List ℕ) → matches toks (c ∷ ds) ≡ false)
      → glob_retry (glob_run f) last mark ≡ some (value toks (c ∷ cs) last mark)
  unfolding Runs glob_retry
  run_backed h = backed_at last mark v n.behind n.text n.whole n.measured
    where
      backed_at :
          (o : Option (List GlobTok)) (m : List ℕ)
          → IsTracked o toks (c ∷ cs) m
          → BehindFits T o
          → suc (length cs) ≤ length m
          → length m ≤ S
          → length m * suc (T + S) + (length toks + suc (length cs)) < suc f
          → glob_retry (glob_run f) o m ≡ some (value toks (c ∷ cs) o m)
      backed_at none m w b x y z = ap some (rw (h cs))
      backed_at (some behind) [] w b x y z = absurd (omega arith)
      backed_at (some behind) (d ∷ m) w b x y z =
          ih T S behind m (some behind) m
            (record {
              measured = omega (arith, suc-mul (length m) (suc (T + S)));
              behind = b;
              text = omega arith;
              whole = omega arith;
              tokens = b;
            })
            ([], refl, tt, refl, omega arith)
          ∙ ap some (
              sym (
                ap (λ r. r || later (matches behind) (d ∷ m)) (h cs)
                ∙ (unfold later in anywhere-later (matches behind) m)))

run-Moved :
    (f T S : ℕ) (toks : List GlobTok) (c : ℕ) (cs : List ℕ) (last : Option (List GlobTok))
    (mark : List ℕ)
    → Runs f
    → Near T S (suc f) toks (c ∷ cs) last mark
    → IsTracked last toks (c ∷ cs) mark
    → (m : Move) → Moved c toks m
    → glob_step (glob_run f) m c cs last mark ≡ some (value toks (c ∷ cs) last mark)
unfolding glob_step
run-Moved f T S toks c cs last mark ih n v (passes rest) (passed t e s) =
    run_passed f T S toks c cs last mark ih n v rest t e s
run-Moved f T S toks c cs last mark ih n v (takes rest) (taken t e s fits) =
    run_taken f T S toks c cs last mark ih n v rest t e s fits
run-Moved f T S toks c cs last mark ih n v backs (backed h) =
    run_backed f T S toks c cs last mark ih n v h

-- At the end of the text no other try is left.
ended :
    (toks : List GlobTok) (last : Option (List GlobTok)) (mark : List ℕ)
    → IsTracked last toks [] mark
    → all_stars toks ≡ value toks [] last mark
ended toks last mark v = elim (Bool-cases (alternative last mark)) [
  | inr no_other ↦ rw no_other (all_stars-matches toks ∙ or_false _)
  | inl other_try ↦
      let l : false ≡ true = unfold later in alternative-later last toks [] mark v other_try in
      absurd (cc l)
]

runs : (f : ℕ) → Runs f
unfolding Runs glob_run
runs zero T S toks cs last mark n v = absurd (omega (arith, n.measured))
runs (suc f) T S toks [] last mark n v = ap some (ended toks last mark v)
runs (suc f) T S toks (c ∷ cs) last mark n v =
    run-Moved f T S toks c cs last mark (runs f) n v (glob_move toks c) (glob_move-Moved toks c)

-- The matcher ends, whatever the pattern and the text, and its answer is what the pattern means: a
-- star stands for any run of characters, any other token for one character that it accepts.
pub glob_match-matches :
    (toks : List GlobTok) (cs : List ℕ) → glob_match toks cs ≡ some (matches toks cs)
unfolding glob_match
glob_match-matches toks cs =
    let near : Near (length toks) (length cs) (enough_fuel toks cs) toks cs none cs = record {
      measured = omega arith;
      behind = tt;
      text = omega arith;
      whole = omega arith;
      tokens = omega arith;
    } in
    unfold Runs in
    runs (enough_fuel toks cs) (length toks) (length cs) toks cs none cs near tt
    ∙ ap some (sym (or_false _))
