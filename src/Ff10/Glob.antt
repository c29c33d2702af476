-- ===== src/Ff10/Glob.antt =====
-- format/ff10.rs: the `fnmatch` patterns of `member_glob`. A character is its code point, a text the
-- list of its characters, and a position in a list is the rest of the list from it on.
pub mod Matching
pub mod Running
use earth_sci_io.Prelude.{
  Bool, List, Option, [], false, if◌then◌else◌, leb, length, list_eq, none, not, prod_eq, some, suc,
  take, true, zero, ℕ, ℕ_eq, ◌&&◌, ◌*◌, ◌+◌, ◌==◌, ◌||◌, ◌∷◌,
}

pub data GlobTok : Type 0 where
  star : GlobTok
  any_char : GlobTok
  lit : ℕ → GlobTok
  class : (neg : Bool) → (ranges : List (ℕ × ℕ)) → GlobTok

abbrev pub is_star : GlobTok → Bool
is_star star = true
is_star _ = false

next_place : Option ℕ → Option ℕ
next_place none = none
next_place (some n) = some (suc n)

-- The place of the first `]`.
find_bracket : List ℕ → Option ℕ
unfolding next_place
find_bracket [] = none
find_bracket (c ∷ cs) = let rest = find_bracket cs in if c == b']' then some 0 else next_place rest

-- The length of a class's body: a `]` that stands first is a member of it.
body_length : List ℕ → Option ℕ
unfolding find_bracket
body_length [] = none
body_length (c ∷ cs) = if c == b']' then next_place (find_bracket cs) else find_bracket (c ∷ cs)

class_ranges : List ℕ → List (ℕ × ℕ)
class_ranges [] = []
class_ranges (a ∷ []) = (a, a) ∷ []
class_ranges (a ∷ b ∷ []) = (a, a) ∷ (b, b) ∷ []
class_ranges (a ∷ b ∷ c ∷ rest) =
    let ranged = class_ranges rest in
    let single = class_ranges (b ∷ c ∷ rest) in
    if b == b'-' then (a, c) ∷ ranged else (a, a) ∷ single

-- A class, and how many characters it takes behind its `[`; an unclosed one is a literal `[`.
class_from : (neg : Bool) → (skipped : ℕ) → List ℕ → Option ℕ → GlobTok × ℕ
class_from neg skipped body none = (lit b'[', 0)
class_from neg skipped body (some n) = (class neg (class_ranges (take n body)), skipped + n + 1)

class_at : List ℕ → GlobTok × ℕ
class_at [] = (lit b'[', 0)
class_at (c ∷ cs) =
    if c == b'!'
    then class_from true 1 cs (body_length cs)
    else class_from false 0 (c ∷ cs) (body_length (c ∷ cs))

token_at : ℕ → List ℕ → GlobTok × ℕ
token_at c rest =
    if c == b'*'
    then (star, 0)
    else if c == b'?'
    then (any_char, 0)
    else if c == b'['
    then class_at rest
    else (lit c, 0)

-- `skip` characters belong to the token before.
tokens_from : (skip : ℕ) → List ℕ → List GlobTok
tokens_from skip [] = []
tokens_from (suc skip) (c ∷ cs) = tokens_from skip cs
tokens_from zero (c ∷ cs) = let t = token_at c cs in t.0 ∷ tokens_from t.1 cs

unfoldable pub glob_tokens : List ℕ → List GlobTok
unfolding next_place find_bracket body_length class_ranges class_from class_at token_at tokens_from
glob_tokens pat = tokens_from 0 pat

abbrev pub in_ranges : ℕ → List (ℕ × ℕ) → Bool
in_ranges c [] = false
in_ranges c ((lo, hi) ∷ ranges) = (leb lo c && leb c hi) || in_ranges c ranges

abbrev pub differ : Bool → Bool → Bool
differ true b = not b
differ false b = b

-- A star is `unreachable!` here: the matcher handles it.
unfoldable pub tok_match : GlobTok → ℕ → Bool
tok_match star c = false
tok_match any_char c = true
tok_match (lit l) c = l == c
tok_match (class neg ranges) c = differ (in_ranges c ranges) neg

unfoldable pub all_stars : List GlobTok → Bool
all_stars [] = true
all_stars (t ∷ toks) = is_star t && all_stars toks

-- What the loop does at a character: pass a star, take the character, or go back.
pub data Move : Type 0 where
  passes : List GlobTok → Move
  takes : List GlobTok → Move
  backs : Move

unfoldable pub glob_move : List GlobTok → ℕ → Move
unfolding tok_match
glob_move [] c = backs
glob_move (t ∷ toks) c =
    if is_star t then passes toks else if tok_match t c then takes toks else backs

-- Back to the last star, which takes one character more.
unfoldable pub glob_retry :
    (List GlobTok → List ℕ → Option (List GlobTok) → List ℕ → Option Bool)
    → Option (List GlobTok)
    → List ℕ
    → Option Bool
glob_retry run none mark = some false
glob_retry run (some behind) [] = run behind [] (some behind) []
glob_retry run (some behind) (m ∷ mark) = run behind mark (some behind) mark

unfoldable pub glob_step :
    (List GlobTok → List ℕ → Option (List GlobTok) → List ℕ → Option Bool)
    → Move
    → (c : ℕ) → (cs : List ℕ) → Option (List GlobTok)
    → List ℕ
    → Option Bool
unfolding glob_retry
glob_step run (passes toks) c cs last mark = run toks (c ∷ cs) (some toks) (c ∷ cs)
glob_step run (takes toks) c cs last mark = run toks cs last mark
glob_step run backs c cs last mark = glob_retry run last mark

-- The loop: the tokens from `ti` on, the text from `si` on, the tokens behind the last star, and the
-- text from `mark` on. `none` is fuel that ran out.
unfoldable pub glob_run : ℕ → List GlobTok → List ℕ → Option (List GlobTok) → List ℕ → Option Bool
unfolding glob_step glob_move all_stars
glob_run zero toks cs last mark = none
glob_run (suc f) toks [] last mark = some (all_stars toks)
glob_run (suc f) toks (c ∷ cs) last mark = glob_step (glob_run f) (glob_move toks c) c cs last mark

abbrev pub enough_fuel : List GlobTok → List ℕ → ℕ
enough_fuel toks cs = suc (length cs * suc (length toks + length cs) + (length toks + length cs))

unfoldable pub glob_match : List GlobTok → List ℕ → Option Bool
unfolding glob_run
glob_match toks cs = glob_run (enough_fuel toks cs) toks cs none cs
