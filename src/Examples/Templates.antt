-- ===== src/Examples/Templates.antt =====
-- Tests and witnesses of the URL templates.
use earth_sci_io.Prelude.{
  List, Text, [], codes, list_eq, negsuc, none, pos, prod_eq, refl, some, ℕ_eq, ◌∷◌, ◌≡◌,
}
use earth_sci_io.Exec.{Result, err, ok}
use earth_sci_io.Esm.{EsmTemplateError, token_from}
use earth_sci_io.Esm.Scanning.{token_from-not-Begins}
use earth_sci_io.Esm.Dates.{Reading, format_date, padded, unsupported, year_of_century}
use earth_sci_io.Esm.Expand.{check_esm_template, esm_template_names, expand_esm_template}
use earth_sci_io.Esm.Expand.Pieces.{
  IsTemplate, Piece, brace, copied, expand_esm_template-pieces, hole, pieces_text, template_of,
}
use earth_sci_io.Esm.Expand.Checked.{Verdict, expand_esm_template-checked}

-- 2016-02-29T07:05:09Z
abbrev leap_day : Reading Unit
leap_day = record {
  to_utc = λ t. t;
  year = λ t. pos 2016;
  month = λ t. 2;
  day = λ t. 29;
  ordinal = λ t. 60;
  hour = λ t. 7;
  minute = λ t. 5;
  second = λ t. 9;
}

abbrev as_is : Text → Text
as_is t = t

-- `h/{{sector}/{date:%Y%j}{1}.nc{`
abbrev pieces : List Piece
pieces =
    copied (codes "h/")
    ∷ brace
    ∷ hole (codes "sector") none
    ∷ copied (codes "/")
    ∷ hole (codes "date") (some (codes "%Y%j"))
    ∷ brace
    ∷ copied (codes "1}.nc")
    ∷ brace
    ∷ []

pieces-IsTemplate : IsTemplate pieces
unfolding token_from
pieces-IsTemplate = (
  refl,
  (
    token_from-not-Begins 0 (codes "{sector}/{date:%Y%j}{1}.nc{") refl,
    (
      (refl, refl),
      (
        refl,
        (
          (refl, refl),
          (
            token_from-not-Begins 0 (codes "1}.nc{") refl,
            (refl, (token_from-not-Begins 0 [] refl, tt)),
          ),
        ),
      ),
    ),
  ),
)

abbrev substitutions : List (Text × Text)
substitutions = (codes "sector", codes "{x}") ∷ []

expanded :
    expand_esm_template leap_day as_is (template_of pieces) (some tt) substitutions
    ≡ some (ok (codes "h/{{x}/2016060{1}.nc{"))
unfolding expand_esm_template
expanded = refl

names : esm_template_names (codes "{a}{date:%Y}{b}{a}{1}") ≡ codes "a" ∷ codes "b" ∷ []
unfolding esm_template_names
names = refl

early_year : padded 4 7 ≡ codes "0007"
unfolding padded
early_year = refl

last_year_of_century : year_of_century (negsuc 0) ≡ 99
unfolding year_of_century
last_year_of_century = refl

unknown_directive :
    format_date leap_day as_is (codes "t") (codes "%d%q") tt ≡ err (unsupported (codes "t") b'q' [])
unfolding format_date
unknown_directive = refl

expand_esm_template-pieces_example :
    expand_esm_template leap_day as_is (template_of pieces) (some tt) substitutions
    ≡ some (pieces_text leap_day as_is (template_of pieces) (some tt) substitutions pieces)
expand_esm_template-pieces_example =
    expand_esm_template-pieces leap_day as_is pieces (some tt) substitutions pieces-IsTemplate refl

expand_esm_template-checked_example :
    (c : Result EsmTemplateError Unit) × (check_esm_template leap_day as_is
        (codes "{sector}{date:%q}")
        substitutions
      ≡ some c)
    × (r : Result EsmTemplateError Text) × (expand_esm_template leap_day as_is
          (codes "{sector}{date:%q}")
          (some tt)
          substitutions
        ≡ some r)
    × Verdict leap_day as_is (codes "{sector}{date:%q}") tt substitutions c r
expand_esm_template-checked_example =
    expand_esm_template-checked leap_day as_is (codes "{sector}{date:%q}") tt substitutions
