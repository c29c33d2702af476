-- ===== src/Examples/Formats.antt =====
-- Tests and witnesses of the archive members and of the ERA5 months.
use earth_sci_io.Prelude.{
  All, List, Text, [], arith, codes, list_eq, member, negsuc, pos, prod_eq, refl, some, true, ℕ,
  ℕ_eq, ◌||◌, ◌∷◌, ◌≡◌, ◌≢◌,
}
use earth_sci_io.Exec.{err, ok}
use earth_sci_io.Ff10.Glob.{class, glob_match, glob_tokens, lit, star}
use earth_sci_io.Ff10.Glob.Matching.{matches}
use earth_sci_io.Ff10.Glob.Running.{glob_match-matches}
use earth_sci_io.Ff10.Members.{Printing, glob_hits, select_members, set_extend}
use earth_sci_io.Ff10.Members.Laws.{IsOrdered, chosen, select_members_selects}
use earth_sci_io.Era5.{Month, months_in_range, overflows, pressure_levels_from_indices}
use earth_sci_io.Era5.Months.{Complete, months_in_range-Complete}

-- `pt*_[!0-9].csv`
abbrev pattern_chars : List ℕ
pattern_chars = codes "pt*_[!0-9].csv"

pattern_tokens :
    glob_tokens pattern_chars
    ≡ lit b'p'
      ∷ lit b't'
      ∷ star
      ∷ lit b'_'
      ∷ class true ((b'0', b'9') ∷ [])
      ∷ lit b'.'
      ∷ lit b'c'
      ∷ lit b's'
      ∷ lit b'v'
      ∷ []
unfolding glob_tokens
pattern_tokens = refl

unclosed_class : glob_tokens (codes "a[b") ≡ lit b'a' ∷ lit b'[' ∷ lit b'b' ∷ []
unfolding glob_tokens
unclosed_class = refl

second_try : glob_match (glob_tokens pattern_chars) (codes "pt_1_a.csv") ≡ some true
unfolding glob_match glob_tokens
second_try = refl

glob_match-matches_example :
    glob_match (glob_tokens pattern_chars) (codes "pt_1_7.csv")
    ≡ some (matches (glob_tokens pattern_chars) (codes "pt_1_7.csv"))
glob_match-matches_example = glob_match-matches (glob_tokens pattern_chars) (codes "pt_1_7.csv")

abbrev ascii : Printing
ascii = record { chars = λ t. t; debug = λ t. t; debug_list = λ ts. []; path = [] }

abbrev archive_names : List Text
archive_names = codes "b.csv" ∷ codes "c.txt" ∷ codes "a.csv" ∷ []

abbrev selected : List Text
selected = codes "a.csv" ∷ codes "b.csv" ∷ codes "c.txt" ∷ []

select_members_selects_example :
    IsOrdered selected
    × (selected ≢ [])
    × All (λ m. member m archive_names ≡ true) (codes "c.txt" ∷ [])
    × ((n : Text)
        → member n selected
          ≡ (chosen ascii archive_names (some (codes "*.csv")) n || member n (codes "c.txt" ∷ [])))
unfolding select_members glob_hits glob_tokens set_extend
select_members_selects_example =
    select_members_selects ascii archive_names (codes "c.txt" ∷ []) (some (codes "*.csv")) selected
      refl

abbrev november : Month
november = (pos 2018, 11)

abbrev february : Month
february = (pos 2019, 2)

months_in_range-Complete_example : Complete november february (months_in_range november february)
months_in_range-Complete_example =
    months_in_range-Complete november february (omega arith, omega arith, omega arith)
      (omega arith, omega arith, omega arith)

over_a_year_end :
    months_in_range november february
    ≡ ok (november ∷ (pos 2018, 12) ∷ (pos 2019, 1) ∷ february ∷ [])
unfolding months_in_range
over_a_year_end = refl

before_the_year_0 :
    months_in_range (negsuc 0, 12) (pos 0, 1) ≡ ok ((negsuc 0, 12) ∷ (pos 0, 1) ∷ [])
unfolding months_in_range
before_the_year_0 = refl

last_december : months_in_range (pos 2147483647, 12) (pos 2147483647, 12) ≡ err overflows
unfolding months_in_range
last_december = refl

some_levels : pressure_levels_from_indices (1 ∷ 12 ∷ 37 ∷ []) ≡ ok (1000 ∷ 700 ∷ 1 ∷ [])
unfolding pressure_levels_from_indices
some_levels = refl
