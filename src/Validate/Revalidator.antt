-- ===== src/Validate/Revalidator.antt =====
-- validate.rs, rung 0: is a `file://` source still the file that was ingested? A digest is kept with
-- the length and the modification time that the source had, and used again while both are the same.
pub mod Memo
pub mod Timeline
pub mod History
use earth_sci_io.Prelude.{
  Bool, List, Option, Text, [], codes, eq_ignore_ascii_case, false, if◌then◌else◌, insert, leb,
  length, list_eq, lookup, lowercase, ltb, map, member, none, not, some, trim, true, ℕ, ℕ_eq, ◌%◌,
  ◌&&◌, ◌+◌, ◌-◌, ◌==◌, ◌^◌, ◌∷◌,
}
use earth_sci_io.Exec.{Result, err, ok}
use earth_sci_io.FilePath.{FilePath}
use earth_sci_io.FileSystem.{
  ErrorKind, IoError, Node, World, directory, metadata, modified, node_len, not_found, regular,
}
use earth_sci_io.Manifest.{Manifest}
use earth_sci_io.External.{External}
use earth_sci_io.Key.{sha256_file}

pub data SourceState : Type 0 where
  current replaced missing unknown : SourceState

pub record Fingerprint : Type 0 where
  pub len : ℕ
  pub mtime : ℕ
  pub sha256 : Text
  pub hashed_at : ℕ

pub record SourceRevalidator : Type 0 where
  pub seen : List (FilePath × Fingerprint)
  pub full_reads : ℕ

-- `SourceRevalidator::new`
abbrev pub empty_revalidator : SourceRevalidator
empty_revalidator = record { seen = []; full_reads = 0 }

abbrev pub memo_cap : ℕ
memo_cap = 512

-- two seconds, in nanoseconds
abbrev pub racy_margin : ℕ
racy_margin = 2_000_000_000

unfoldable pub is_racy : ℕ → ℕ → Bool
is_racy mtime hashed_at =
    if ltb hashed_at racy_margin then true else leb (hashed_at - racy_margin) mtime

is_absent : ErrorKind → Bool
is_absent not_found = true
is_absent _ = false

-- What an error says of the source: a missing file is missing, any other error says nothing.
unfoldable pub state_of_error : IoError → SourceState
unfolding is_absent
state_of_error e = if is_absent e.kind then missing else unknown

classify : Result IoError Node → Result SourceState Node
unfolding state_of_error
classify (ok (regular bytes mtime)) = ok (regular bytes mtime)
classify (ok directory) = err missing
classify (err e) = err (state_of_error e)

unfoldable pub stat_source : FilePath → World → Result SourceState Node
unfolding classify
stat_source p w = classify (metadata p w)

unfoldable pub verdict : Text → Manifest → SourceState
verdict sha m = if eq_ignore_ascii_case sha m.sha256_content then current else replaced

fresh_digest : ℕ → ℕ → Fingerprint → Option Text
unfolding is_racy
fresh_digest len mtime fp =
    if (fp.len == len && fp.mtime == mtime) && not (is_racy fp.mtime fp.hashed_at)
    then some fp.sha256
    else none

-- The digest remembered for a source of this length and modification time.
unfoldable pub remembered : FilePath → ℕ → Option ℕ → SourceRevalidator → Option Text
unfolding fresh_digest
remembered p len none rv = none
remembered p len (some mtime) rv = elim (lookup p rv.seen) [
  | none ↦ none
  | some fp ↦ fresh_digest len mtime fp
]

-- The memo is emptied when it is full.
room : List (FilePath × Fingerprint) → List (FilePath × Fingerprint)
room seen = if leb memo_cap (length seen) then [] else seen

unfoldable pub remember : FilePath → ℕ → Option ℕ → Text → ℕ → SourceRevalidator → SourceRevalidator
unfolding room
remember p len none sha hashed_at rv = rv
remember p len (some mtime) sha hashed_at rv = record rv {
  seen =
      insert p (record { len = len; mtime = mtime; sha256 = sha; hashed_at = hashed_at })
        (room rv.seen);
}

-- An `AtomicU64` wraps.
count_read : SourceRevalidator → SourceRevalidator
count_read rv = record rv { full_reads = (rv.full_reads + 1) % 2 ^ 64 }

module _ (X : External) where
  after_hash :
      FilePath
      → Manifest
      → Node
      → ℕ
      → SourceRevalidator
      → Result IoError Text
      → SourceState × SourceRevalidator
  unfolding state_of_error remember count_read verdict
  after_hash p m node hashed_at rv (ok sha) =
      (verdict sha m, remember p (node_len node) (modified node) sha hashed_at (count_read rv))
  after_hash p m node hashed_at rv (err e) = (state_of_error e, rv)

  after_memo :
      FilePath
      → Manifest
      → Node
      → World
      → SourceRevalidator
      → Option Text
      → SourceState × SourceRevalidator
  unfolding after_hash verdict
  after_memo p m node w rv (some sha) = (verdict sha m, rv)
  after_memo p m node w rv none = after_hash p m node w.now rv (sha256_file X p w)

  after_stat :
      FilePath
      → Manifest
      → World
      → SourceRevalidator
      → Result SourceState Node
      → SourceState × SourceRevalidator
  unfolding after_memo remembered
  after_stat p m w rv (err s) = (s, rv)
  after_stat p m w rv (ok node) =
      if not (node_len node == m.bytes)
      then (replaced, rv)
      else after_memo p m node w rv (remembered p (node_len node) (modified node) rv)

  -- `SourceRevalidator::state`
  unfoldable pub state :
      FilePath → Manifest → World → SourceRevalidator → SourceState × SourceRevalidator
  unfolding stat_source after_stat
  state p m w rv = after_stat p m w rv (stat_source p w)

  unfoldable pub file_source_state : FilePath → Manifest → World → SourceState
  unfolding state
  file_source_state p m w = (state p m w empty_revalidator).0

  is_current : SourceState → Bool
  is_current current = true
  is_current _ = false

  unfoldable pub file_source_is_current : FilePath → Manifest → World → Bool
  unfolding file_source_state is_current
  file_source_is_current p m w = is_current (file_source_state p m w)

abbrev pub revalidate_file_env : Text
revalidate_file_env = codes "EARTHSCI_REVALIDATE_FILE"

is_falsey : Text → Bool
is_falsey s = member (lowercase (trim s)) (map codes ("0" ∷ "false" ∷ "no" ∷ "off" ∷ []))

unfoldable pub revalidate_file_sources : Option Bool → World → Bool
unfolding is_falsey
revalidate_file_sources (some v) w = v
revalidate_file_sources none w = elim (w.env revalidate_file_env) [
  | some s ↦ not (is_falsey s)
  | none ↦ true
]
