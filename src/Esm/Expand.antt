-- ===== src/Esm/Expand.antt =====
-- esm.rs: `expand_esm_template`, `esm_template_names` and `check_esm_template`. `none` is a panic, of
-- a slice whose ends are not in order or lie behind the text.
pub mod Pieces
pub mod Checked
use mathlib.Core.Option
use earth_sci_io.Prelude.{
  List, Option, Text, [], codes, drop, eq, if◌then◌else◌, is_some, leb, length, list_eq, lookup,
  map, member, none, prod_eq, some, take, ℕ, ℕ_eq, ◌&&◌, ◌++◌, ◌-◌, ◌||◌, ◌∷◌,
}
use earth_sci_io.Exec.{Result, and_then, err, ok, ok_or, option_then}
use earth_sci_io.Esm.{EsmTemplateError, Token, template_err, tokens}
use earth_sci_io.Esm.Dates.{Reading, directive_err, format_date}

abbrev pub date_name : Text
date_name = codes "date"

-- `&text[first..last]`
unfoldable pub text_slice : (first last : ℕ) → Text → Option Text
text_slice first last text =
    if leb first last && leb last (length text)
    then some (take (last - first) (drop first text))
    else none

abbrev pub takes_no_format : (template name format : Text) → EsmTemplateError
takes_no_format template name format = directive_err template (
    codes "the substitution {"
    ++ (name
        ++ (codes "} takes no format (got {" ++ (name ++ (codes ":" ++ (format ++ codes "})"))))))

abbrev pub unbound : (template name : Text) → EsmTemplateError
unbound template name =
    template_err (codes "esm_template_unbound") template
      (codes "the substitution {" ++ (name ++ codes "} is not bound"))

abbrev pub reserved : (template : Text) → EsmTemplateError
reserved template =
    template_err (codes "esm_template_reserved") template
      (codes "the substitution name 'date' is reserved for {date:<format>}")

abbrev pub needs_format : (template : Text) → EsmTemplateError
needs_format template = directive_err template (codes "{date} needs a format, e.g. {date:%Y%m%d}")

abbrev pub no_anchor : (template : Text) → EsmTemplateError
no_anchor template =
    template_err (codes "esm_template_no_anchor") template
      (codes "{date:...} needs a time and none was given")

-- What a name stands for, and its format.
unfoldable pub substituted :
    (template : Text)
    → List (Text × Text)
    → (name : Text) → Option Text
    → Result EsmTemplateError Text
substituted template bound name (some f) = err (takes_no_format template name f)
substituted template bound name none = ok_or (unbound template name) (lookup name bound)

-- `.filter(|f| !f.is_empty())`
unfoldable pub date_format : (template : Text) → Option Text → Result EsmTemplateError Text
date_format template none = err (needs_format template)
date_format template (some []) = err (needs_format template)
date_format template (some (c ∷ f)) = ok (c ∷ f)

module _ {Instant : Type 0} (R : Reading Instant) (debug : Text → Text) where
  dated :
      (template : Text)
      → Result EsmTemplateError Text
      → Option Instant
      → Result EsmTemplateError Text
  unfolding format_date
  dated template format when =
      and_then format
        λ fmt. and_then (ok_or (no_anchor template) when) λ t. format_date R debug template fmt t

  unfoldable pub token_text :
      (template : Text)
      → Option Instant
      → List (Text × Text)
      → (name : Text) → Option Text
      → Result EsmTemplateError Text
  unfolding substituted date_format dated
  token_text template when bound name format =
      if eq name date_name
      then dated template (date_format template format) when
      else substituted template bound name format

  -- What is written after the texts before: of the literal text, of the token, and of the rest.
  unfoldable pub joined :
      (lit : Text)
      → Result EsmTemplateError Text
      → Option (Result EsmTemplateError Text)
      → Option (Result EsmTemplateError Text)
  joined lit (err e) later = some (err e)
  joined lit (ok v) later = option_then later (λ r. some (and_then r (λ u. ok (lit ++ (v ++ u)))))

  -- The loop over the tokens, from the place `last` on.
  unfoldable pub expand_from :
      (template : Text)
      → Option Instant
      → List (Text × Text)
      → (last : ℕ) → List Token
      → Option (Result EsmTemplateError Text)
  unfolding text_slice token_text joined
  expand_from template when bound last [] =
      option_then (text_slice last (length template) template) (λ lit. some (ok lit))
  expand_from template when bound last (tok ∷ toks) =
      option_then (text_slice last tok.start template) λ lit.
        joined lit (token_text template when bound tok.name tok.format)
          (expand_from template when bound tok.end toks)

  unfoldable pub expand_esm_template :
      (template : Text)
      → Option Instant
      → List (Text × Text)
      → Option (Result EsmTemplateError Text)
  unfolding expand_from tokens
  expand_esm_template template anchor bound =
      let expanded = expand_from template (Option.map R.to_utc anchor) bound 0 (tokens template) in
      if is_some (lookup date_name bound) then some (err (reserved template)) else expanded

-- The names of the tokens that are not dates, each at its first place.
unfoldable pub names_from : (seen : List Text) → List Token → List Text
names_from seen [] = seen
names_from seen (tok ∷ toks) =
    names_from
      (if eq tok.name date_name || member tok.name seen then seen else seen ++ tok.name ∷ []) toks

unfoldable pub esm_template_names : Text → List Text
unfolding names_from tokens
esm_template_names template = names_from [] (tokens template)

unfoldable pub check_token :
    (template : Text) → List (Text × Text) → Token → Result EsmTemplateError Unit
check_token template bound tok = if eq tok.name date_name then ok tt else elim tok.format [
  | some f ↦ err (takes_no_format template tok.name f)
  | none ↦ if is_some (lookup tok.name bound) then ok tt else err (unbound template tok.name)
]

unfoldable pub check_tokens :
    (template : Text) → List (Text × Text) → List Token → Result EsmTemplateError Unit
unfolding check_token
check_tokens template bound [] = ok tt
check_tokens template bound (tok ∷ toks) =
    and_then (check_token template bound tok) (λ _. check_tokens template bound toks)

-- A reserved name is the error of the expansion.
unfoldable pub check_esm_template :
    {Instant : Type 0}
    → Reading Instant
    → (debug : Text → Text) → (template : Text) → List (Text × Text)
    → Option (Result EsmTemplateError Unit)
unfolding check_tokens tokens expand_esm_template
check_esm_template R debug template bound =
    let expanded = expand_esm_template R debug template none bound in
    if is_some (lookup date_name bound)
    then option_then expanded (λ r. some (and_then r (λ _. ok tt)))
    else some (check_tokens template bound (tokens template))
