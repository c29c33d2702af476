-- ===== src/Cache/Hit/Laws.antt =====
-- cache.rs: what an entry that is served has passed.
use earth_sci_io.Prelude.{
  Bool, Option, Text, false, list_eq, none, refl, some, subst, true, ℕ_eq, ◌∙◌, ◌≡◌,
}
use earth_sci_io.Exec.{Result, continue, err, ok}
use earth_sci_io.Exec.Inversion.{and_then-eq-ok, ok-injective, some-injective}
use earth_sci_io.FilePath.{FilePath}
use earth_sci_io.FileSystem.{World}
use earth_sci_io.Error.{Error}
use earth_sci_io.Manifest.{Manifest}
use earth_sci_io.External.{External}
use earth_sci_io.Validate.Ladder.{CacheDecision, decide_at, hit, miss, revalidate}
use earth_sci_io.Cache.Url.{ext_from_url, local_source_path}
use earth_sci_io.Cache.Request.{Cache, CacheState, CachedBlob, FetchRequest}
use earth_sci_io.Cache.Hit.{
  by_decision, checked, recheck, recheck_if, recheck_source, serve_if, try_hit, verify_integrity,
  with_blob, with_meta,
}

module _ (X : External) (C : Cache) (req : FetchRequest) where
  pub recheck-world : (m : Manifest) (s : CacheState) → (recheck X C req m s).1.world ≡ s.world
  unfolding recheck
  recheck-world m s = from C.revalidate_file_sources
    where
      source : (src : Option FilePath) → (recheck_source X C req m src s).1.world ≡ s.world
      source none = refl
      source (some p) = refl

      from : (on : Bool) → (recheck_if X C on req m s).1.world ≡ s.world
      from true = source (local_source_path req.resolved_url s.world)
      from false = refl

  -- What holds of an entry that `try_hit` returns.
  pub record IsServed (key : Text) (s : CacheState) (b : CachedBlob) : Type 0 where
    pub named : b.key ≡ key
    pub stored : C.store.get_blob_hinted key (ext_from_url req.resolved_url) s.world ≡ some b.path
    pub described : C.store.get_meta key s.world ≡ ok (some b.manifest)
    pub decided : decide_at X b.manifest req.temporal req.expected_checksum s.world.now ≡ hit
    pub kept : (recheck X C req b.manifest s).0 ≡ true
    pub verified :
        C.verify_on_read ≡ true → verify_integrity X key b.path b.manifest s.world ≡ ok tt

  -- `checked`, by what it tests
  checked-ok :
      (verify : Bool) (b a : CachedBlob) (w : World)
      → checked X verify b w ≡ ok a
      → (b ≡ a) × (verify ≡ true → verify_integrity X b.key b.path b.manifest w ≡ ok tt)
  unfolding checked
  checked-ok true b a w h =
      let (u, e, f) = and_then-eq-ok (verify_integrity X b.key b.path b.manifest w) (λ _. ok b) h in
      (ok-injective f, λ _. e)
  checked-ok false b a w h = (ok-injective h, λ q. cc)

  serve_if-ok :
      (r : Bool × CacheState) (b a : CachedBlob)
      → (serve_if X C r b).0 ≡ ok (some a)
      → (b ≡ a)
        × (r.0 ≡ true)
        × (C.verify_on_read ≡ true → verify_integrity X b.key b.path b.manifest r.1.world ≡ ok tt)
  unfolding serve_if
  serve_if-ok (true, s) b a h =
      let (c, f, g) = and_then-eq-ok (checked X C.verify_on_read b s.world) (λ b. ok (some b)) h in
      let (same, verified) = checked-ok C.verify_on_read b c s.world f in
      (same ∙ some-injective (ok-injective g), refl, verified)
  serve_if-ok (false, s) b a h = cc

  with_meta-IsServed :
      (key : Text) (p : FilePath) (m : Option Manifest) (s : CacheState) (a : CachedBlob)
      → C.store.get_blob_hinted key (ext_from_url req.resolved_url) s.world ≡ some p
      → C.store.get_meta key s.world ≡ ok m
      → (with_meta X C key req p m s).0 ≡ ok (some a)
      → IsServed key s a
  unfolding with_meta by_decision
  with_meta-IsServed key p none s a e f h = cc
  with_meta-IsServed key p (some m) s a e f h =
      from (decide_at X m req.temporal req.expected_checksum s.world.now) refl h
    where
      entry : CachedBlob
      entry = record { key = key; path = p; manifest = m }

      from :
          (d : CacheDecision)
          → decide_at X m req.temporal req.expected_checksum s.world.now ≡ d
          → (by_decision X C d req entry s).0 ≡ ok (some a)
          → IsServed key s a
      from hit de q =
          let (same, kept, verified) = serve_if-ok (recheck X C req m s) entry a q in
          subst (λ b. IsServed key s b) same
            (record {
              named = refl;
              stored = e;
              described = f;
              decided = de;
              kept = kept;
              verified =
                  subst (λ w. C.verify_on_read ≡ true → verify_integrity X key p m w ≡ ok tt)
                    (recheck-world m s) verified;
            })
      from revalidate de q = cc
      from miss de q = cc

  -- An entry that `try_hit` returns is the stored blob with the stored manifest, the decision on it
  -- is a hit, the recheck of a local source keeps it, and, where the cache verifies on read, its
  -- length and digest agree with the manifest.
  pub try_hit-IsServed :
      (key : Text) (s : CacheState) (b : CachedBlob)
      → (try_hit X C key req s).0 ≡ ok (some b)
      → IsServed key s b
  unfolding try_hit with_blob
  try_hit-IsServed key s b h =
      from (C.store.get_blob_hinted key (ext_from_url req.resolved_url) s.world) refl h
    where
      described :
          (p : FilePath) (m : Result Error (Option Manifest))
          → C.store.get_blob_hinted key (ext_from_url req.resolved_url) s.world ≡ some p
          → C.store.get_meta key s.world ≡ m
          → (continue m (with_meta X C key req p) s).0 ≡ ok (some b)
          → IsServed key s b
      described p (ok m) e f q = with_meta-IsServed key p m s b e f q
      described p (err x) e f q = cc

      from :
          (p : Option FilePath)
          → C.store.get_blob_hinted key (ext_from_url req.resolved_url) s.world ≡ p
          → (with_blob X C key req p s).0 ≡ ok (some b)
          → IsServed key s b
      from none e q = cc
      from (some p) e q = described p (C.store.get_meta key s.world) e refl q
