-- ===== src/Cache/Hit/Integrity.antt =====
-- cache.rs: the check of a blob against its manifest, and what is served without the network.
use earth_sci_io.Prelude.{
  Bool, List, Text, ap, arith, eq_ignore_ascii_case, false, list_eq, refl, some, subst, sym, true,
  ℕ, ℕ_eq, ◌↔◌, ◌∙◌, ◌≡◌,
}
use earth_sci_io.Exec.{map_err, ok, ok_or}
use earth_sci_io.Exec.Inversion.{and_then-eq-ok, map_err-eq_ok, ok-injective, ok_or-eq_ok}
use earth_sci_io.FilePath.{FilePath}
use earth_sci_io.FileSystem.{Node, World, metadata, node_len, read}
use earth_sci_io.Error.{at_path, cache_miss}
use earth_sci_io.Manifest.{Manifest}
use earth_sci_io.External.{External}
use earth_sci_io.Key.{sha256_file, sha256_hex}
use earth_sci_io.Cache.Url.{ext_from_url}
use earth_sci_io.Cache.Request.{Cache, CachedBlob}
use earth_sci_io.Cache.Hit.{checked, compare_len, compare_sha, read_offline, verify_integrity}

module _ (X : External) (key : Text) (blob : FilePath) (m : Manifest) (w : World) where
  -- The blob is a node of the length that the manifest says, and its bytes have the digest.
  pub record Agrees : Type 0 where
    pub node : Node
    pub there : metadata blob w ≡ ok node
    pub length_ok : node_len node ≡ m.bytes
    pub bytes : List ℕ
    pub readable : read blob w ≡ ok bytes
    pub digest_ok : eq_ignore_ascii_case (sha256_hex X bytes) m.sha256_content ≡ true

  compare_len-ok : (len : ℕ) → compare_len X key m len ≡ ok tt → len ≡ m.bytes
  unfolding compare_len
  compare_len-ok len h = ground arith

  compare_len_eq : (len : ℕ) → len ≡ m.bytes → compare_len X key m len ≡ ok tt
  unfolding compare_len
  compare_len_eq len h = ground arith

  compare_sha-ok :
      (sha : Text)
      → compare_sha X key m sha ≡ ok tt
      → eq_ignore_ascii_case sha m.sha256_content ≡ true
  unfolding compare_sha
  compare_sha-ok sha h = ground arith

  verify_integrity_sound : verify_integrity X key blob m w ≡ ok tt → Agrees
  unfolding verify_integrity
  verify_integrity_sound h =
      let (node, there, h₁) = and_then-eq-ok (map_err (at_path blob) (metadata blob w)) _ h in
      let (u, len, h₂) = and_then-eq-ok (compare_len X key m (node_len node)) _ h₁ in
      let (sha, read_sha, h₃) =
        and_then-eq-ok (map_err (at_path blob) (sha256_file X blob w)) (compare_sha X key m) h₂ in
      let (bytes, readable, h₄) =
        and_then-eq-ok (read blob w) _ (map_err-eq_ok (at_path blob) _ sha read_sha) in
      record {
        node = node;
        there = map_err-eq_ok (at_path blob) _ node there;
        length_ok = compare_len-ok (node_len node) len;
        bytes = bytes;
        readable = readable;
        digest_ok =
            subst (λ t. eq_ignore_ascii_case t m.sha256_content ≡ true) (sym (ok-injective h₄))
              (compare_sha-ok sha h₃);
      }

  verify_integrity_complete : Agrees → verify_integrity X key blob m w ≡ ok tt
  unfolding verify_integrity compare_sha
  verify_integrity_complete a =
      rw a.there
        (rw (compare_len_eq (node_len a.node) a.length_ok) (rw a.readable (rw a.digest_ok refl)))

  -- The check of a blob passes exactly when the blob is a file of the length that the manifest says
  -- and the digest of its bytes is the manifest's, up to the case of the letters.
  pub verify_integrity_iff : (verify_integrity X key blob m w ≡ ok tt) ↔ Agrees
  verify_integrity_iff = (verify_integrity_sound, verify_integrity_complete)

module _ (X : External) (C : Cache) (key url : Text) (w : World) where
  -- What holds of an entry that is served offline.
  pub record IsServedOffline (b : CachedBlob) : Type 0 where
    pub named : b.key ≡ key
    pub stored : C.store.get_blob_hinted key (ext_from_url url) w ≡ some b.path
    pub described : C.store.get_meta key w ≡ ok (some b.manifest)
    pub verified : C.verify_on_read ≡ true → Agrees X key b.path b.manifest w

  checked_iff :
      (verify : Bool) (b : CachedBlob)
      → (checked X verify b w ≡ ok b) ↔ (verify ≡ true → Agrees X b.key b.path b.manifest w)
  unfolding checked
  checked_iff false b = (λ h. λ q. cc, λ h. refl)
  checked_iff true b = (
    λ h. λ q.
        let (u, e, f) =
          and_then-eq-ok (verify_integrity X b.key b.path b.manifest w) (λ _. ok b) h in
        verify_integrity_sound X b.key b.path b.manifest w e,
    λ h. rw (verify_integrity_complete X b.key b.path b.manifest w (h refl)) refl,
  )

  checked-same : (verify : Bool) (b a : CachedBlob) → checked X verify b w ≡ ok a → b ≡ a
  unfolding checked
  checked-same false b a h = ok-injective h
  checked-same true b a h =
      let (u, e, f) = and_then-eq-ok (verify_integrity X b.key b.path b.manifest w) (λ _. ok b) h in
      ok-injective f

  read_offline_sound : (b : CachedBlob) → read_offline X C key url w ≡ ok b → IsServedOffline b
  unfolding read_offline
  read_offline_sound b h =
      let (path, e₁, h₁) =
        and_then-eq-ok
          (ok_or (cache_miss url key) (C.store.get_blob_hinted key (ext_from_url url) w)) _ h in
      let (meta, e₂, h₂) = and_then-eq-ok (C.store.get_meta key w) _ h₁ in
      let (m, e₃, h₃) = and_then-eq-ok (ok_or (cache_miss url key) meta) _ h₂ in
      let entry : CachedBlob = record { key = key; path = path; manifest = m } in
      let same : entry ≡ b = checked-same C.verify_on_read entry b h₃ in
      subst IsServedOffline same (record {
        named = refl;
        stored = ok_or-eq_ok _ _ path e₁;
        described = e₂ ∙ ap ok (ok_or-eq_ok _ _ m e₃);
        verified = (checked_iff C.verify_on_read entry).0 (h₃ ∙ ap ok (sym same));
      })

  read_offline_complete : (b : CachedBlob) → IsServedOffline b → read_offline X C key url w ≡ ok b
  unfolding read_offline
  read_offline_complete b s = rw s.stored (
      rw s.described (
        rw (← s.named) (
          (checked_iff C.verify_on_read b).1 (
            subst (λ k. C.verify_on_read ≡ true → Agrees X k b.path b.manifest w) (sym s.named)
              s.verified))))

  -- Offline, an entry is returned exactly when it is the stored blob with the stored manifest, and,
  -- where the cache verifies on read, agrees with it.
  pub read_offline_iff : (b : CachedBlob) → (read_offline X C key url w ≡ ok b) ↔ IsServedOffline b
  read_offline_iff b = (read_offline_sound b, read_offline_complete b)
