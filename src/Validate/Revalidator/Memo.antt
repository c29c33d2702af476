-- ===== src/Validate/Revalidator/Memo.antt =====
-- validate.rs: the size of the revalidator's memo.
use earth_sci_io.Prelude.{
  List, Option, Text, [], arith, insert, length, list_eq, none, some, ℕ, ℕ_eq, ◌+◌, ◌∷◌, ◌≤◌,
}
use earth_sci_io.Exec.{Result, err, ok}
use earth_sci_io.FilePath.{FilePath}
use earth_sci_io.FileSystem.{IoError, Node, World, modified, node_len}
use earth_sci_io.Manifest.{Manifest}
use earth_sci_io.External.{External}
use earth_sci_io.Key.{sha256_file}
use earth_sci_io.Validate.Revalidator.{
  Fingerprint, SourceRevalidator, SourceState, after_hash, after_memo, after_stat, count_read,
  memo_cap, remember, remembered, room, stat_source, state,
}

length-insert :
    (p : FilePath) (fp : Fingerprint) (seen : List (FilePath × Fingerprint))
    → length (insert p fp seen) ≤ length seen + 1
length-insert p fp [] = omega arith
length-insert p fp ((q, gp) ∷ seen) = ground (arith, length-insert p fp seen)

abbrev pub IsBounded : SourceRevalidator → Type 0
IsBounded rv = length rv.seen ≤ memo_cap

length-room : (seen : List (FilePath × Fingerprint)) → length (room seen) + 1 ≤ memo_cap
unfolding room
length-room seen = ground arith

remember-IsBounded :
    (p : FilePath) (len : ℕ) (mtime : Option ℕ) (sha : Text) (now : ℕ) (rv : SourceRevalidator)
    → IsBounded rv
    → IsBounded (remember p len mtime sha now rv)
unfolding remember
remember-IsBounded p len none sha now rv h = h
remember-IsBounded p len (some t) sha now rv h = omega (
  arith,
  length-insert p (record { len = len; mtime = t; sha256 = sha; hashed_at = now }) (room rv.seen),
  length-room rv.seen,
)

module _ (X : External) where
  after_hash-IsBounded :
      (p : FilePath) (m : Manifest) (node : Node) (now : ℕ) (rv : SourceRevalidator)
      (r : Result IoError Text)
      → IsBounded rv
      → IsBounded (after_hash X p m node now rv r).1
  unfolding after_hash
  after_hash-IsBounded p m node now rv (ok sha) h =
      remember-IsBounded p (node_len node) (modified node) sha now (count_read rv) h
  after_hash-IsBounded p m node now rv (err e) h = h

  after_memo-IsBounded :
      (p : FilePath) (m : Manifest) (node : Node) (w : World) (rv : SourceRevalidator)
      (known : Option Text)
      → IsBounded rv
      → IsBounded (after_memo X p m node w rv known).1
  unfolding after_memo
  after_memo-IsBounded p m node w rv (some sha) h = h
  after_memo-IsBounded p m node w rv none h =
      after_hash-IsBounded p m node w.now rv (sha256_file X p w) h

  after_stat-IsBounded :
      (p : FilePath) (m : Manifest) (w : World) (rv : SourceRevalidator)
      (r : Result SourceState Node)
      → IsBounded rv
      → IsBounded (after_stat X p m w rv r).1
  unfolding after_stat
  after_stat-IsBounded p m w rv (err s) h = h
  after_stat-IsBounded p m w rv (ok node) h = ground (
    arith,
    after_memo-IsBounded p m node w rv (remembered p (node_len node) (modified node) rv) h,
  )

  -- Whatever the world, the source and the manifest, a check of a source keeps the memo within its
  -- cap of fingerprints.
  pub state-IsBounded :
      (p : FilePath) (m : Manifest) (w : World) (rv : SourceRevalidator)
      → IsBounded rv
      → IsBounded (state X p m w rv).1
  unfolding state
  state-IsBounded p m w rv h = after_stat-IsBounded p m w rv (stat_source p w) h
