-- ===== src/Cache/Commit/Mismatch.antt =====
-- cache.rs, `commit_result`: a download that is not the declared one.
use earth_sci_io.Prelude.{
  Option, Text, codes, eq_ignore_ascii_case, false, list_eq, none, refl, some, subst, sym, ℕ_eq,
  ◌++◌, ◌≡◌,
}
use earth_sci_io.Exec.{err, ok}
use earth_sci_io.Exec.Inversion.{some-injective}
use earth_sci_io.FilePath.{FilePath}
use earth_sci_io.FileSystem.{Node, World, metadata, remove_node}
use earth_sci_io.Error.{Error, integrity}
use earth_sci_io.External.{External}
use earth_sci_io.Transport.{FetchResult}
use earth_sci_io.Cache.Request.{Cache, FetchRequest}
use earth_sci_io.Cache.Commit.{check_declared, commit_downloaded, digest, measured}

module _ (X : External) (C : Cache) (key : Text) (req : FetchRequest) (chosen : Text)
    (r : FetchResult) (in_transit : Option Text) (staged : FilePath) (w : World) where
  check_declared_differs :
      (declared : Option Text) (expected sha : Text)
      → declared ≡ some expected
      → eq_ignore_ascii_case expected sha ≡ false
      → (detail : Text) × (check_declared X key declared sha ≡ err (integrity key detail))
  unfolding check_declared
  check_declared_differs none expected sha e differ = cc
  check_declared_differs (some d) expected sha e differ =
      let same : eq_ignore_ascii_case d sha ≡ false =
        subst (λ t. eq_ignore_ascii_case t sha ≡ false) (sym (some-injective e)) differ in
      (codes "declared checksum " ++ (d ++ (codes " != downloaded " ++ sha)), rw same refl)

  measured_differs :
      (node : Node) (sha : Text) (e : Error)
      → metadata staged w ≡ ok node
      → digest X staged in_transit w ≡ ok sha
      → check_declared X key req.expected_checksum sha ≡ err e
      → measured X C key req in_transit staged w ≡ err e
  unfolding measured
  measured_differs node sha e there digested fails = rw (there, digested, fails) refl

  -- A download whose digest is not the declared one is refused with an integrity error of its key:
  -- the staged file is dropped, and nothing else in the world changes.
  pub commit_downloaded_differs :
      (node : Node) (expected sha : Text)
      → metadata staged w ≡ ok node
      → digest X staged in_transit w ≡ ok sha
      → req.expected_checksum ≡ some expected
      → eq_ignore_ascii_case expected sha ≡ false
      → (detail : Text) × (commit_downloaded X C key req chosen r in_transit staged w
          ≡ (err (integrity key detail), remove_node staged w))
  commit_downloaded_differs node expected sha there digested declared differ =
      let (detail, fails) =
        check_declared_differs req.expected_checksum expected sha declared differ in
      let refused : measured X C key req in_transit staged w ≡ err (integrity key detail) =
        measured_differs node sha (integrity key detail) there digested fails in
      (detail, unfold commit_downloaded in rw refused refl)
