-- ===== src/Store/Local/Steps.antt =====
-- store/local.rs: what a manifest that is written and a blob that is committed leave behind, step by
-- step.
use earth_sci_io.Prelude.{
  Option, Text, ap, codes, list_eq, lookup, lookup-insert_self, none, refl, remove, some, subst,
  sym, ℕ, ℕ_eq, ◌∙◌, ◌≡◌,
}
use earth_sci_io.Exec.{Exec, map_err, map_err_exec, ok, pure, ◌>>=◌, ◌>>◌}
use earth_sci_io.Exec.Moves.{IsPreorder, Moves, Moves-bind, Moves-pure}
use earth_sci_io.Exec.Inversion.{>>=-Chained, map_err-eq_ok, ok-injective}
use earth_sci_io.FilePath.{FilePath}
use earth_sci_io.FileSystem.{
  IoError, World, check, create_dir, create_dir_all, create_temp, create_temp_file, guarded,
  or_drop, persist, regular, temp_path, write_all,
}
use earth_sci_io.FileSystem.Laws.{
  Renamed, dropped-faults, dropped-ok, persist-Renamed, persist-faults, written,
}
use earth_sci_io.Error.{Error, at_path}
use earth_sci_io.Store.Local.{
  blob_path, commit_blob, fanout_dir, meta_dir, meta_path, publish, publish_from,
}

pub record HasManifest (root : FilePath) (key bytes : Text) (w v : World) : Type 0 where
  pub mtime : Option ℕ
  pub there : lookup (meta_path root key) v.files ≡ some (regular bytes mtime)
  pub faults : v.faults ≡ w.faults

module _ (root : FilePath) (key bytes : Text) where
  publish_from-HasManifest :
      (tmp : FilePath) (w : World)
      → (publish_from root key bytes tmp w).0 ≡ ok tt
      → HasManifest root key bytes w (publish_from root key bytes tmp w).1
  unfolding publish_from
  publish_from-HasManifest tmp w h =
      let dst = meta_path root key in
      let first = or_drop tmp (map_err_exec (at_path tmp) (write_all tmp bytes)) in
      let second = λ (u : Unit {0}). map_err_exec (at_path dst) (persist tmp dst) in
      let c = >>=-Chained second first w h in
      let wrote = written (at_path tmp) tmp bytes w c.first in
      let moved = persist-Renamed tmp dst (first w).1 (map_err-eq_ok (at_path dst) _ tt c.second) in
      let node = regular bytes (some w.now) in
      let kept : lookup tmp (first w).1.files ≡ some node =
        ap (λ (u : World). lookup tmp u.files) wrote ∙ lookup-insert_self tmp node w.files in
      let same : some moved.node ≡ some node = sym moved.was ∙ kept in
      record {
        mtime = some w.now;
        there =
            ap (λ (u : World). lookup dst u.files) c.state
            ∙ (ap (lookup dst) moved.files
                ∙ (lookup-insert_self dst moved.node (remove tmp (first w).1.files) ∙ same));
        faults =
            ap (λ (u : World). u.faults) c.state
            ∙ (moved.faults ∙ ap (λ (u : World). u.faults) wrote);
      }

  pub publish-HasManifest :
      (w : World)
      → (publish root key bytes w).0 ≡ ok tt
      → HasManifest root key bytes w (publish root key bytes w).1
  unfolding publish
  publish-HasManifest w = from (w.faults create_temp dir) w
    where
      dir : FilePath
      dir = meta_dir root

      make : Option IoError → Exec Error World FilePath
      make o = map_err_exec (at_path dir) (λ v.
          guarded o (create_temp_file (temp_path dir (codes ".meta-") (codes ".json.part") v)) v)

      from :
          (o : Option IoError) (v : World)
          → ((make o >>= publish_from root key bytes) v).0 ≡ ok tt
          → HasManifest root key bytes v ((make o >>= publish_from root key bytes) v).1
      from none v h =
          let p = temp_path dir (codes ".meta-") (codes ".json.part") v in
          let made = publish_from-HasManifest p (create_temp_file p v).1 h in
          record { mtime = made.mtime; there = made.there; faults = made.faults }
      from (some e) v h = cc

abbrev SameFaults : World → World → Type 0
SameFaults w v = v.faults ≡ w.faults

SameFaults-preorder : IsPreorder SameFaults
SameFaults-preorder = record { same = λ w. refl; chain = λ a b. b ∙ a }

-- Committing a blob, step by step.
module _ (root : FilePath) (key ext : Text) (staged : FilePath) where
  abbrev dst : FilePath
  dst = blob_path root key ext

  abbrev make_dir : Exec Error World Unit
  make_dir =
      or_drop staged
        (map_err_exec (at_path (fanout_dir root key)) (create_dir_all (fanout_dir root key)))

  abbrev move : Exec Error World Unit
  move = map_err_exec (at_path dst) (persist staged dst)

  pub commit_blob-faults : (w : World) → (commit_blob root key staged ext w).1.faults ≡ w.faults
  commit_blob-faults w =
      unfold commit_blob in (Moves-bind o make_dir (λ _. move >> pure dst) made moved).at w
    where
      o : IsPreorder SameFaults
      o = SameFaults-preorder

      made : Moves SameFaults make_dir
      made = record {
        at = λ v.
            dropped-faults (at_path (fanout_dir root key)) staged
              (map_err (at_path (fanout_dir root key)) (check create_dir (fanout_dir root key) v))
              v;
      }

      moved : (u : Unit {0}) → Moves SameFaults (move >> pure dst)
      moved u =
          Moves-bind o move (λ _. pure dst) (record { at = λ v. persist-faults staged dst v })
            (λ _. Moves-pure o dst)

  -- A commit that succeeds has renamed the staged file to the path that it returns.
  pub commit_blob-Renamed :
      (p : FilePath) (w : World)
      → (commit_blob root key staged ext w).0 ≡ ok p
      → (dst ≡ p) × Renamed staged dst w (commit_blob root key staged ext w).1
  commit_blob-Renamed p w e =
      let e' : ((make_dir >> (move >> pure dst)) w).0 ≡ ok p = unfold commit_blob in e in
      let c = >>=-Chained (λ (u : Unit {0}). move >> pure dst) make_dir w e' in
      let still : (make_dir w).1 ≡ w =
        dropped-ok (at_path (fanout_dir root key)) staged _ w tt c.first in
      let d = >>=-Chained (λ (u : Unit {0}). pure dst) move (make_dir w).1 c.second in
      let moved =
        persist-Renamed staged dst (make_dir w).1 (map_err-eq_ok (at_path dst) _ tt d.first) in
      let last : (commit_blob root key staged ext w).1 ≡ (persist staged dst (make_dir w).1).1 =
        unfold commit_blob in c.state ∙ d.state in
      (
        ok-injective d.second,
        rw last (
            subst (λ (u : World). Renamed staged dst u (persist staged dst (make_dir w).1).1) still
              moved),
      )
