-- ===== src/Examples/Checks.antt =====
-- The ladder, the revalidator and the keys.
use earth_sci_io.Key.{cache_key}
use earth_sci_io.Prelude.{
  All, List, Option, Text, [], arith, codes, false, list_eq, none, refl, some, true, ℕ, ℕ_eq, ◌%◌,
  ◌-◌, ◌<◌, ◌↔◌, ◌∷◌, ◌≡◌,
}
use earth_sci_io.FilePath.{FilePath}
use earth_sci_io.Key.Hexadecimal.{cache_key-injective, hex_lower-injective}
use earth_sci_io.Validate.Ladder.{Temporal, decide_at, hit, incomplete, revalidate}
use earth_sci_io.Validate.Ladder.Laws.{decide_at-revalidate_iff, decide_at_earlier}
use earth_sci_io.Validate.Revalidator.{empty_revalidator, file_source_state, state}
use earth_sci_io.Validate.Revalidator.Memo.{IsBounded, state-IsBounded}
use earth_sci_io.Validate.Revalidator.Timeline.{Source, Step, world_of}
use earth_sci_io.Validate.Revalidator.History.{
  Run, checks, moves, start, state-eq-file_source_state,
}
use earth_sci_io.Examples.Codec.{toy}
use earth_sci_io.Examples.Setting.{content, entry_manifest, world}

decide_at-revalidate_iff_example :
    (decide_at toy entry_manifest (some (incomplete 10)) none 100 ≡ revalidate) ↔ (
      (◌≡◌ {A = Option Text} none none)
      × ((ttl : ℕ) × (◌≡◌ {A = Option Temporal} (some (incomplete 10)) (some (incomplete ttl))))
      × (false ≡ true))
decide_at-revalidate_iff_example =
    decide_at-revalidate_iff toy entry_manifest (some (incomplete 10)) none 100

-- The toy clock reads the length of a stamp, here 20.
hit_at_25 : decide_at toy entry_manifest (some (incomplete 10)) none 25 ≡ hit
unfolding decide_at toy
hit_at_25 = refl

stamp_read : toy.parse_rfc3339 entry_manifest.fetched_at ≡ some 20
unfolding toy
stamp_read = refl

decide_at_earlier_example : decide_at toy entry_manifest (some (incomplete 10)) none 22 ≡ hit
decide_at_earlier_example =
    decide_at_earlier toy entry_manifest (some (incomplete 10)) none 22 25 20 stamp_read
      (omega arith) (omega arith) hit_at_25

abbrev source_path : FilePath
source_path = codes "s" ∷ []

state-IsBounded_example : IsBounded (state toy source_path entry_manifest world empty_revalidator).1
state-IsBounded_example =
    state-IsBounded toy source_path entry_manifest world empty_revalidator (omega arith)

abbrev source : Source
source = record { content = content; mtime = 5; now = 100 }

-- One check, and then a write.
abbrev rewritten : Source
rewritten = record source { content = 4 ∷ []; mtime = 100 - 100 % 4 }

checked_then_written :
    Run toy source_path 4 world rewritten
      (state toy source_path entry_manifest (world_of source_path source world) empty_revalidator).1
checked_then_written = moves (checks (start source) entry_manifest) (Step.write source (4 ∷ []))

state-eq-file_source_state_example :
    (state toy source_path entry_manifest
      (world_of source_path rewritten world)
      (state toy source_path entry_manifest
        (world_of source_path source world)
        empty_revalidator).1).0
    ≡ file_source_state toy source_path entry_manifest (world_of source_path rewritten world)
state-eq-file_source_state_example =
    state-eq-file_source_state toy source_path 4 world entry_manifest (refl, refl) (omega arith)
      (omega arith) checked_then_written

bytes_here : All (λ b. b < 256) (171 ∷ 205 ∷ [])
bytes_here = (omega arith, (omega arith, tt))

hex_lower-injective_example : ◌≡◌ {A = List ℕ} (171 ∷ 205 ∷ []) (171 ∷ 205 ∷ [])
hex_lower-injective_example =
    hex_lower-injective (171 ∷ 205 ∷ []) (171 ∷ 205 ∷ []) bytes_here bytes_here refl

digest_bytes : (u : Text) → All (λ b. b < 256) (toy.sha256 u)
unfolding toy
digest_bytes u = (omega arith, (omega arith, tt))

-- The toy digest does not tell these two apart.
same_key : cache_key toy (codes "ab") ≡ cache_key toy (codes "ba")
unfolding cache_key toy
same_key = refl

cache_key-injective_example : toy.sha256 (codes "ab") ≡ toy.sha256 (codes "ba")
cache_key-injective_example =
    cache_key-injective toy (codes "ab") (codes "ba") (digest_bytes (codes "ab"))
      (digest_bytes (codes "ba")) same_key
