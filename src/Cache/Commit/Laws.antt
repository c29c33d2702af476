-- ===== src/Cache/Commit/Laws.antt =====
-- cache.rs, `commit_result`: what a download leaves in the store.
use earth_sci_io.Manifest.{Manifest}
use earth_sci_io.Store.{StoreLaws}
use earth_sci_io.Cache.Hit.{read_offline}
use earth_sci_io.Cache.Hit.Integrity.{read_offline_iff}
use earth_sci_io.Exec.Inversion.{>>=-Chained, and_then-eq-ok, map_err-eq_ok, ok-injective, pair_eq}
use earth_sci_io.Cache.Url.{ext_from_url}
use earth_sci_io.Prelude.{
  Option, Text, arith, eq_ignore_ascii_case, false, list_eq, none, refl, some, subst, sym, true, ℕ,
  ℕ_eq, ◌∙◌, ◌≡◌,
}
use earth_sci_io.Exec.{Exec, map_err, ok, pure, query, ◌>>=◌}
use earth_sci_io.FilePath.{FilePath}
use earth_sci_io.FileSystem.{Node, World, metadata, node_len, or_drop}
use earth_sci_io.FileSystem.Laws.{dropped-ok, dropped-value}
use earth_sci_io.Error.{Error, at_path}
use earth_sci_io.External.{External}
use earth_sci_io.Transport.{FetchResult}
use earth_sci_io.Cache.Request.{Cache, CachedBlob, FetchRequest}
use earth_sci_io.Cache.Commit.{
  check_declared, commit_downloaded, describe, digest, measured, move_in, new_manifest, now_rfc3339,
  stamped,
}

module _ (X : External) (C : Cache) (key : Text) (req : FetchRequest) (chosen : Text)
    (r : FetchResult) (in_transit : Option Text) (staged : FilePath) where
  abbrev commit : Exec Error World CachedBlob
  commit = commit_downloaded X C key req chosen r in_transit staged

  -- The digest is the one that the request declares, where it declares one.
  abbrev pub IsDeclared : Text → Type 0
  IsDeclared sha =
      (expected : Text)
      → req.expected_checksum ≡ some expected
      → eq_ignore_ascii_case expected sha ≡ true

  check_declared-ok :
      (declared : Option Text) (sha : Text)
      → check_declared X key declared sha ≡ ok tt
      → (expected : Text) → declared ≡ some expected
      → eq_ignore_ascii_case expected sha ≡ true
  unfolding check_declared
  check_declared-ok none sha h expected e = cc
  check_declared-ok (some d) sha h expected e = ground (arith, e)

  -- What was staged, as it was measured.
  pub record IsMeasured (w : World) (bytes : ℕ) (sha : Text) : Type 0 where
    pub node : Node
    pub there : metadata staged w ≡ ok node
    pub length_ok : node_len node ≡ bytes
    pub digest_ok : digest X staged in_transit w ≡ ok sha
    pub declared : IsDeclared sha

  measured-IsMeasured :
      (w : World) (m : ℕ × Text)
      → measured X C key req in_transit staged w ≡ ok m
      → IsMeasured w m.0 m.1
  unfolding measured
  measured-IsMeasured w m h =
      let (node, there, h₁) = and_then-eq-ok (map_err (at_path staged) (metadata staged w)) _ h in
      let (sha, digested, h₂) =
        and_then-eq-ok (map_err (at_path staged) (digest X staged in_transit w)) _ h₁ in
      let (u, fits, h₃) = and_then-eq-ok (check_declared X key req.expected_checksum sha) _ h₂ in
      subst (λ (x : ℕ × Text). IsMeasured w x.0 x.1) (ok-injective h₃)
        (record {
          node = node;
          there = map_err-eq_ok (at_path staged) _ node there;
          length_ok = refl;
          digest_ok = map_err-eq_ok (at_path staged) _ sha digested;
          declared = check_declared-ok req.expected_checksum sha fits;
        })

  -- A commit that succeeds, from the world in which the staged file was measured.
  pub record IsStored (m : ℕ × Text) (w v : World) (b : CachedBlob) : Type 0 where
    pub named : b.key ≡ key
    pub bytes_ok : m.0 ≡ b.manifest.bytes
    pub sha_ok : m.1 ≡ b.manifest.sha256_content
    pub of_url : b.manifest.url ≡ req.resolved_url
    pub moved : (C.store.commit_blob key staged (ext_from_url chosen) w).0 ≡ ok b.path
    pub described :
        (C.store.put_meta key b.manifest
          (C.store.commit_blob key staged (ext_from_url chosen) w).1).0
        ≡ ok tt
    pub final :
        (C.store.put_meta key b.manifest
          (C.store.commit_blob key staged (ext_from_url chosen) w).1).1
        ≡ v

  describe-IsStored :
      (m : ℕ × Text) (path : FilePath) (stamp : Text) (w : World) (b : CachedBlob)
      → (C.store.commit_blob key staged (ext_from_url chosen) w).0 ≡ ok path
      → (describe X C key req r m path stamp
          (C.store.commit_blob key staged (ext_from_url chosen) w).1).0
        ≡ ok b
      → IsStored m w
          (describe X C key req r m path stamp
            (C.store.commit_blob key staged (ext_from_url chosen) w).1).1
          b
  unfolding describe new_manifest
  describe-IsStored (bytes, sha) path stamp w b moved h =
      let new : Manifest = new_manifest X C req r bytes sha stamp in
      let entry : CachedBlob = record { key = key; path = path; manifest = new } in
      let after : World =
        (describe X C key req r (bytes, sha) path stamp
          (C.store.commit_blob key staged (ext_from_url chosen) w).1).1 in
      let c =
        >>=-Chained (λ (u : Unit {0}). pure entry) (C.store.put_meta key new)
          (C.store.commit_blob key staged (ext_from_url chosen) w).1 h in
      subst (λ x. IsStored (bytes, sha) w after x) (ok-injective c.second)
        (record {
          named = refl;
          bytes_ok = refl;
          sha_ok = refl;
          of_url = refl;
          moved = moved;
          described = c.first;
          final = sym c.state;
        })

  move_in-IsStored :
      (m : ℕ × Text) (w : World) (b : CachedBlob)
      → (move_in X C key req chosen r staged m w).0 ≡ ok b
      → IsStored m w (move_in X C key req chosen r staged m w).1 b
  move_in-IsStored m w b h =
      let put : Exec Error World FilePath = C.store.commit_blob key staged (ext_from_url chosen) in
      let h' : ((put >>= stamped X C key req r m) w).0 ≡ ok b = unfold move_in in h in
      let c = >>=-Chained (stamped X C key req r m) put w h' in
      let h₂ : (describe X C key req r m c.value (now_rfc3339 X (put w).1) (put w).1).0 ≡ ok b =
        unfold stamped in c.second in
      let stored = describe-IsStored m c.value (now_rfc3339 X (put w).1) w b c.first h₂ in
      let last : (describe X C key req r m c.value (now_rfc3339 X (put w).1) (put w).1).1
          ≡ (move_in X C key req chosen r staged m w).1 =
        unfold move_in stamped in sym c.state in
      subst (λ v. IsStored m w v b) last stored

  -- A commit of a download that succeeds has measured the staged file, and the length and the
  -- digest of the manifest are those of the file, the digest being the declared one; the file was
  -- moved into the store and then the manifest was written.
  pub commit_downloaded-IsStored :
      (w : World) (b : CachedBlob)
      → (commit w).0 ≡ ok b
      → IsMeasured w b.manifest.bytes b.manifest.sha256_content
        × IsStored (b.manifest.bytes, b.manifest.sha256_content) w (commit w).1 b
  commit_downloaded-IsStored w b h =
      let take_in : Exec Error World (ℕ × Text) =
        or_drop staged (query (measured X C key req in_transit staged)) in
      let h' : ((take_in >>= move_in X C key req chosen r staged) w).0 ≡ ok b =
        unfold commit_downloaded in h in
      let c = >>=-Chained (move_in X C key req chosen r staged) take_in w h' in
      let here : (take_in w).1 ≡ w = dropped-ok (at_path staged) staged _ w c.value c.first in
      let last : (move_in X C key req chosen r staged c.value (take_in w).1).1 ≡ (commit w).1 =
        unfold commit_downloaded in sym c.state in
      let stored : IsStored c.value w (commit w).1 b =
        subst (λ u. IsStored c.value u (commit w).1 b) here
          (subst (λ v. IsStored c.value (take_in w).1 v b) last
            (move_in-IsStored c.value (take_in w).1 b c.second)) in
      let value_ok : c.value ≡ (b.manifest.bytes, b.manifest.sha256_content) =
        pair_eq stored.bytes_ok stored.sha_ok in
      let seen : measured X C key req in_transit staged w ≡ ok c.value =
        dropped-value (at_path staged) staged _ w c.value c.first in
      (
        subst (λ (x : ℕ × Text). IsMeasured w x.0 x.1) value_ok
            (measured-IsMeasured w c.value seen),
        subst (λ (x : ℕ × Text). IsStored x w (commit w).1 b) value_ok stored,
      )

  -- In a store that keeps its laws, the blob and the manifest of such a commit are found again.
  pub commit_downloaded-found :
      (Good : World → Type 0)
      → StoreLaws C.store Good
      → (w : World) (b : CachedBlob) → Good w
      → (commit w).0 ≡ ok b
      → (C.store.get_blob_hinted key (ext_from_url chosen) (commit w).1 ≡ some b.path)
        × (C.store.get_meta key (commit w).1 ≡ ok (some b.manifest))
  commit_downloaded-found Good laws w b good h =
      let (measured, s) = commit_downloaded-IsStored w b h in
      let ext = ext_from_url chosen in
      let u = (C.store.commit_blob key staged ext w).1 in
      (
        subst (λ v. C.store.get_blob_hinted key ext v ≡ some b.path) s.final
            (laws.get_blob_hinted-put_meta key ext key b.manifest u
              ∙ laws.get_blob_hinted-commit_blob key ext staged b.path w good s.moved),
        subst (λ v. C.store.get_meta key v ≡ ok (some b.manifest)) s.final
            (laws.get_meta-put_meta key b.manifest u (laws.commit_blob-Good key ext staged w good)
              s.described),
      )

  -- Round trip: what a download from the URL itself has committed is what an offline read of the
  -- URL returns, in a store that keeps its laws in a world that is good for it, where reads are not
  -- verified.
  pub read_offline-commit_downloaded :
      (Good : World → Type 0)
      → StoreLaws C.store Good
      → (w : World) (b : CachedBlob) → Good w
      → C.verify_on_read ≡ false
      → chosen ≡ req.resolved_url
      → (commit w).0 ≡ ok b
      → read_offline X C key req.resolved_url (commit w).1 ≡ ok b
  read_offline-commit_downloaded Good laws w b good unverified canonical h =
      let (measured, s) = commit_downloaded-IsStored w b h in
      let (blob, meta) = commit_downloaded-found Good laws w b good h in
      (read_offline_iff X C key req.resolved_url (commit w).1 b).1 (record {
        named = s.named;
        stored =
            subst (λ url. C.store.get_blob_hinted key (ext_from_url url) (commit w).1 ≡ some b.path)
              canonical blob;
        described = meta;
        verified = λ q. cc;
      })
