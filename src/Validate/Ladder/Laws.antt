-- ===== src/Validate/Ladder/Laws.antt =====
-- The ladder: when it asks the network, and how an answer ages.
use earth_sci_io.Prelude.{
  Option, Text, arith, is_some, list_eq, none, refl, some, true, ℕ, ℕ_eq, ◌||◌, ◌↔◌, ◌≡◌, ◌≤◌,
}
use earth_sci_io.Manifest.{Manifest}
use earth_sci_io.External.{External}
use earth_sci_io.Validate.Ladder.{
  Temporal, closed_period, decide_at, hit, incomplete, is_fresh, revalidate, static,
}

module _ (X : External) (m : Manifest) where
  -- The network is asked exactly when no checksum is declared, the source's period is incomplete,
  -- and the manifest has a validator to ask with.
  pub decide_at-revalidate_iff :
      (temporal : Option Temporal) (expected : Option Text) (now : ℕ)
      → (decide_at X m temporal expected now ≡ revalidate) ↔ (
          (expected ≡ none)
          × ((ttl : ℕ) × (temporal ≡ some (incomplete ttl)))
          × ((is_some m.etag || is_some m.last_modified) ≡ true))
  unfolding decide_at
  decide_at-revalidate_iff temporal (some e) now = (λ h. ground arith, λ h. cc (h.0))
  decide_at-revalidate_iff none none now = (λ h. cc, λ h. cc (h.1.1))
  decide_at-revalidate_iff (some static) none now = (λ h. cc, λ h. cc (h.1.1))
  decide_at-revalidate_iff (some closed_period) none now = (λ h. cc, λ h. cc (h.1.1))
  decide_at-revalidate_iff (some (incomplete ttl)) none now =
      (λ h. (refl, (ttl, refl), ground arith), λ h. rw (h.2))

  -- An entry whose stamp can be read and that is a hit at one moment is a hit at every earlier
  -- moment since its fetch.
  pub decide_at_earlier :
      (temporal : Option Temporal) (expected : Option Text) (earlier now fetched : ℕ)
      → X.parse_rfc3339 m.fetched_at ≡ some fetched
      → fetched ≤ earlier
      → earlier ≤ now
      → decide_at X m temporal expected now ≡ hit
      → decide_at X m temporal expected earlier ≡ hit
  unfolding decide_at is_fresh
  decide_at_earlier temporal (some e) earlier now fetched p le le' h = h
  decide_at_earlier none none earlier now fetched p le le' h = refl
  decide_at_earlier (some static) none earlier now fetched p le le' h = refl
  decide_at_earlier (some closed_period) none earlier now fetched p le le' h = refl
  decide_at_earlier (some (incomplete ttl)) none earlier now fetched p le le' h = ground arith
