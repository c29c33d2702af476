-- ===== src/Esm.antt =====
-- esm.rs: templates of URLs, their errors and their tokens. A token has the places of its first byte
-- and of the byte behind it.
pub mod Scanning
pub mod Order
pub mod Dates
pub mod Expand
use earth_sci_io.Prelude.{
  Bool, List, Option, Text, [], codes, drop, if◌then◌else◌, is_alphanumeric, is_upper, leb, length,
  list_eq, none, not, prod_eq, some, suc, zero, ℕ, ℕ_eq, ◌&&◌, ◌++◌, ◌+◌, ◌-◌, ◌==◌, ◌||◌, ◌∷◌,
}
use earth_sci_io.Error.{Error, bad_url}

pub record EsmTemplateError : Type 0 where
  pub code : Text
  pub template : Text
  pub detail : Text

-- `debug` is `{:?}` of a text.
unfoldable pub display_template : (debug : Text → Text) → EsmTemplateError → Text
display_template debug e =
    e.code ++ (codes ": " ++ (e.detail ++ (codes " in esm URL template " ++ debug e.template)))

unfoldable pub from_template : (debug : Text → Text) → EsmTemplateError → Error
unfolding display_template
from_template debug e = bad_url e.template (display_template debug e)

abbrev pub template_err : (code template detail : Text) → EsmTemplateError
template_err code template detail = record { code = code; template = template; detail = detail }

pub record Token : Type 0 where
  pub start : ℕ
  pub end : ℕ
  pub name : Text
  pub format : Option Text

abbrev pub is_name_start : ℕ → Bool
is_name_start c = is_upper c || (leb b'a' c && leb c b'z') || c == b'_'

abbrev pub is_name_byte : ℕ → Bool
is_name_byte c = is_alphanumeric c || c == b'_'

abbrev pub is_plain : ℕ → Bool
is_plain c = not (c == b'{') && not (c == b'}')

-- The longest start of a text whose bytes pass a test.
unfoldable pub take_while : (ℕ → Bool) → Text → Text
take_while p [] = []
take_while p (c ∷ cs) = if p c then c ∷ take_while p cs else []

unfoldable pub name_at : Text → Text
unfolding take_while
name_at [] = []
name_at (c ∷ cs) = if is_name_start c then c ∷ take_while is_name_byte cs else []

-- Behind the colon of a token that starts at `i`, whose format starts at `k`.
unfoldable pub formatted : (i : ℕ) → (name : Text) → (k : ℕ) → (format rest : Text) → Option Token
formatted i name k format [] = none
formatted i name k format (c ∷ rest) =
    if c == b'}'
    then some (record { start = i; end = k + length format + 1; name = name; format = some format })
    else none

-- Behind the name of a token that starts at `i`; the name ends at `j`.
unfoldable pub behind_name : (i : ℕ) → (name : Text) → (j : ℕ) → (rest : Text) → Option Token
unfolding formatted take_while
behind_name i [] j rest = none
behind_name i (n ∷ name) j [] = none
behind_name i (n ∷ name) j (c ∷ rest) =
    if c == b'}'
    then some (record { start = i; end = j + 1; name = n ∷ name; format = none })
    else if c == b':'
    then formatted i (n ∷ name) (j + 1) (take_while is_plain rest)
        (drop (length (take_while is_plain rest)) rest)
    else none

-- The token whose brace is at `i`, by the text behind the brace.
unfoldable pub token_from : (i : ℕ) → (rest : Text) → Option Token
unfolding name_at behind_name
token_from i rest =
    behind_name i (name_at rest) (i + 1 + length (name_at rest)) (drop (length (name_at rest)) rest)

-- The loop at the place `i`, past `skip` bytes that belong to the token before.
unfoldable pub tokens_at : (skip i : ℕ) → Text → List Token
unfolding token_from
tokens_at skip i [] = []
tokens_at (suc skip) i (c ∷ cs) = tokens_at skip (suc i) cs
tokens_at zero i (c ∷ cs) =
    if c == b'{'
    then elim (token_from i cs) [
      | none ↦ tokens_at 0 (suc i) cs
      | some t ↦ t ∷ tokens_at (t.end - suc i) (suc i) cs
    ]
    else tokens_at 0 (suc i) cs

unfoldable pub tokens : Text → List Token
unfolding tokens_at
tokens template = tokens_at 0 0 template
