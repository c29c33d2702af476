-- ===== src/Prelude/Bytes.antt =====
-- Text as the program sees it: the bytes of a UTF-8 string.
use Prim.Native.Nat.{ℕ, zero, suc, ◌+◌, ◌/◌, ◌%◌}
use Prim.Native.Char.{code}
use Prim.Native.String.{String}
use mathlib.Core.Path.{◌≡◌, refl}
use mathlib.Core.Bool.{Bool, true, false, ◌&&◌, ◌||◌}
use mathlib.Core.Option.{Option, none, some}
use mathlib.Core.List.{List, [], ◌∷◌}
use earth_sci_io.Prelude.Tests.{if◌then◌else◌, leb, ltb, ◌==◌}
use earth_sci_io.Prelude.Equality.{eq, list_eq, ℕ_eq}

abbrev pub Text : Type 0
Text = List ℕ

-- The bytes of an ASCII literal.
abbrev pub codes : String → Text
codes String.[] = []
codes (String.◌∷◌ c s) = code c ∷ codes s

abbrev pub is_upper : ℕ → Bool
is_upper c = leb b'A' c && leb c b'Z'

abbrev pub is_digit : ℕ → Bool
is_digit c = leb b'0' c && leb c b'9'

abbrev pub is_alphanumeric : ℕ → Bool
is_alphanumeric c = is_digit c || is_upper c || (leb b'a' c && leb c b'z')

-- `to_ascii_lowercase`
abbrev pub lower : ℕ → ℕ
lower c = if is_upper c then c + 32 else c

abbrev pub lowercase : Text → Text
lowercase [] = []
lowercase (c ∷ s) = lower c ∷ lowercase s

abbrev pub eq_ignore_ascii_case : Text → Text → Bool
eq_ignore_ascii_case s t = eq (lowercase s) (lowercase t)

abbrev pub strip_prefix : Text → Text → Option Text
strip_prefix [] s = some s
strip_prefix (p ∷ ps) [] = none
strip_prefix (p ∷ ps) (c ∷ s) = if p == c then strip_prefix ps s else none

abbrev pub starts_with : Text → Text → Bool
starts_with p s = elim (strip_prefix p s) [ none ↦ false | some _ ↦ true ]

-- The text before and after the first occurrence of a byte.
abbrev pub split_once : ℕ → Text → Option (Text × Text)
split_once b [] = none
split_once b (c ∷ s) =
    let rest = split_once b s in
    if c == b then some ([], s) else elim rest [ none ↦ none | some (l, r) ↦ some (c ∷ l, r) ]

-- The text before and after the last occurrence of a byte.
abbrev pub rsplit_once : ℕ → Text → Option (Text × Text)
rsplit_once b [] = none
rsplit_once b (c ∷ s) = elim (rsplit_once b s) [
  | some (l, r) ↦ some (c ∷ l, r)
  | none ↦ if c == b then some ([], s) else none
]

-- The pieces between the occurrences of a byte.
abbrev push_front : ℕ → List Text → List Text
push_front c [] = (c ∷ []) ∷ []
push_front c (p ∷ ps) = (c ∷ p) ∷ ps

abbrev pub split : ℕ → Text → List Text
split b [] = [] ∷ []
split b (c ∷ s) = if c == b then [] ∷ split b s else push_front c (split b s)

abbrev is_space : ℕ → Bool
is_space c = c == 32 || (leb 9 c && leb c 13)

abbrev trim_start : Text → Text
trim_start [] = []
trim_start (c ∷ s) = if is_space c then trim_start s else c ∷ s

abbrev trim_end : Text → Text
trim_end [] = []
trim_end (c ∷ s) = elim (trim_end s) [ [] ↦ if is_space c then [] else c ∷ [] | d ∷ t ↦ c ∷ d ∷ t ]

-- `str::trim`, of ASCII white space
abbrev pub trim : Text → Text
trim s = trim_end (trim_start s)

abbrev pub member : Text → List Text → Bool
member t [] = false
member t (s ∷ ss) = eq s t || member t ss

-- The decimal digits of a number, most significant first; one digit takes one unit of fuel.
decimal_fuel : ℕ → ℕ → Text → Text
decimal_fuel zero n acc = acc
decimal_fuel (suc f) n acc =
    let more = decimal_fuel f (n / 10) ((b'0' + n % 10) ∷ acc) in
    if ltb n 10 then (b'0' + n) ∷ acc else more

unfoldable pub decimal : ℕ → Text
unfolding decimal_fuel
decimal n = decimal_fuel (suc n) n []

decimal_runs : decimal 1048576 ≡ codes "1048576"
unfolding decimal
decimal_runs = refl
