-- ===== src/Validate/Ladder.antt =====
-- validate.rs, the pure rungs: what to do with an entry that is present.
pub mod Laws
use earth_sci_io.Prelude.{
  Bool, Option, Text, eq_ignore_ascii_case, false, if◌then◌else◌, is_some, list_eq, ltb, none, some,
  true, ℕ, ℕ_eq, ◌-◌, ◌||◌,
}
use earth_sci_io.Manifest.{Manifest}
use earth_sci_io.External.{External}

-- A time to live is in nanoseconds.
pub data Temporal : Type 0 where
  static closed_period : Temporal
  incomplete : (ttl : ℕ) → Temporal

pub data CacheDecision : Type 0 where
  hit revalidate miss : CacheDecision

module _ (X : External) where
  -- `elapsed.is_negative() || elapsed.unsigned_abs() < ttl`
  unfoldable pub is_fresh : Temporal → Text → ℕ → Bool
  is_fresh (incomplete ttl) fetched_at now = elim (X.parse_rfc3339 fetched_at) [
    | some fetched ↦ ltb now fetched || ltb (now - fetched) ttl
    | none ↦ false
  ]
  is_fresh _ fetched_at now = true

  -- Rungs 3 and 4, for a source whose period is not complete.
  by_validators : Manifest → Temporal → ℕ → CacheDecision
  unfolding is_fresh
  by_validators m t now =
      if is_some m.etag || is_some m.last_modified
      then revalidate
      else if is_fresh t m.fetched_at now
      then hit
      else miss

  by_temporal : Manifest → Option Temporal → ℕ → CacheDecision
  unfolding by_validators
  by_temporal m none now = hit
  by_temporal m (some static) now = hit
  by_temporal m (some closed_period) now = hit
  by_temporal m (some (incomplete ttl)) now = by_validators m (incomplete ttl) now

  unfoldable pub decide_at : Manifest → Option Temporal → Option Text → ℕ → CacheDecision
  unfolding by_temporal
  decide_at m temporal (some expected) now =
      if eq_ignore_ascii_case expected m.sha256_content then hit else miss
  decide_at m temporal none now = by_temporal m temporal now
