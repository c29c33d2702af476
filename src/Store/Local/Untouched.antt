-- ===== src/Store/Local/Untouched.antt =====
-- store/local.rs: the entries of a directory, seen from writes elsewhere.
use earth_sci_io.Manifest.{Manifest}
use earth_sci_io.Error.{Error, at_path}
use earth_sci_io.External.{External}
use earth_sci_io.Exec.{Exec, Result, and_then, err, lift, map_err_exec, ok, ◌>>=◌}
use mathlib.Core.List.{append_assoc}
use earth_sci_io.FilePath.Laws.{child_name-append}
use earth_sci_io.Prelude.{
  Bool-cases, List, Option, Text, [], ap, arith, codes, eq, false, inl, inr, insert, list_beq_sound,
  list_eq, lookup, lookup-insert, lookup-remove, none, refl, remove, some, true, ℕ, ℕ_eq, ◌++◌, ◌∙◌,
  ◌∷◌, ◌≡◌,
}
use earth_sci_io.Exec.Moves.{
  IsPreorder, Moves, Moves-bind, Moves-lift, Moves-map_err_exec, Moves-still,
}
use earth_sci_io.FilePath.{FilePath, child_name, join}
use earth_sci_io.FileSystem.{
  Files, Io, IoError, Node, World, check, create_dir_all, create_temp, create_temp_file, directory,
  dropped_on_error, guarded, move_node, or_drop, persist, put_node, regular, remove_node, rename,
  rename_node, renamed, temp_path, tempfile_in, write, write_all,
}
use earth_sci_io.Store.Local.{
  fanout_dir, matching, meta_dir, meta_path, publish, publish_from, put_meta, scan, tmp_dir,
  to_json_bytes,
}

-- Two worlds with the same faults and the same entries in a directory.
pub record SameIn (dir : FilePath) (w v : World) : Type 0 where
  pub faults : v.faults ≡ w.faults
  pub found :
      (p : FilePath) (n : Text) → child_name dir p ≡ some n → lookup p v.files ≡ lookup p w.files
  pub scanned : (key : Text) → scan dir key v.files ≡ scan dir key w.files

pub SameIn-preorder : (dir : FilePath) → IsPreorder (SameIn dir)
SameIn-preorder dir = record {
  same = λ w. record { faults = refl; found = λ p n e. refl; scanned = λ key. refl };
  chain = λ a b. record {
    faults = b.faults ∙ a.faults;
    found = λ p n e. b.found p n e ∙ a.found p n e;
    scanned = λ key. b.scanned key ∙ a.scanned key;
  };
}

module _ (dir : FilePath) (p : FilePath) (outside : child_name dir p ≡ none) where
  not-matching : (key : Text) → matching dir key p ≡ false
  unfolding matching
  not-matching key = rw (outside, matching) refl

  scan-insert :
      (key : Text) (n : Node) (fs : Files) → scan dir key (insert p n fs) ≡ scan dir key fs
  unfolding scan
  scan-insert key n [] = rw (not-matching key, scan) refl
  scan-insert key n ((q, m) ∷ fs) = ground (arith, scan-insert key n fs)

  q-not-p : (key : Text) (q : FilePath) → eq q p ≡ true → matching dir key q ≡ false
  q-not-p key q same = rw (list_beq_sound q p same) (not-matching key)

  scan-remove : (key : Text) (fs : Files) → scan dir key (remove p fs) ≡ scan dir key fs
  unfolding scan
  scan-remove key [] = refl
  scan-remove key ((q, m) ∷ fs) = ground (arith, scan-remove key fs, q-not-p key q)

  apart : (q : FilePath) (n : Text) → child_name dir q ≡ some n → eq p q ≡ false
  apart q n e = elim (Bool-cases (eq p q)) [
    | inl same ↦ cc (outside, e, ap (child_name dir) (list_beq_sound p q same))
    | inr differ ↦ differ
  ]

  pub SameIn-put_node : (n : Node) (w : World) → SameIn dir w (put_node p n w)
  SameIn-put_node n w = record {
    faults = refl;
    found = λ q m e. lookup-insert p q n w.files ∙ rw (apart q m e) refl;
    scanned = λ key. scan-insert key n w.files;
  }

  pub SameIn-remove_node : (w : World) → SameIn dir w (remove_node p w)
  SameIn-remove_node w = record {
    faults = refl;
    found = λ q m e. lookup-remove p q w.files ∙ rw (apart q m e) refl;
    scanned = λ key. scan-remove key w.files;
  }

-- Writing below a directory whose entries are not those of `dir`.
module _ (dir sub : FilePath) (outside : (n : Text) → child_name dir (join sub n) ≡ none) where
  guarded-SameIn :
      {A : Type 0} (o : Option IoError) (m : Io A) (w : World)
      → SameIn dir w (m w).1
      → SameIn dir w (guarded o m w).1
  guarded-SameIn none m w h = h
  guarded-SameIn (some e) m w h = (SameIn-preorder dir).same w

  created-SameIn : (n : Text) (w : World) → SameIn dir w (create_temp_file (join sub n) w).1
  created-SameIn n w =
      let there = SameIn-put_node dir (join sub n) (outside n) (regular [] (some w.now)) w in
      record { faults = refl; found = there.found; scanned = there.scanned }

  pub Moves-tempfile_in :
      (prefix suffix : Text) → Moves (SameIn dir) (tempfile_in prefix suffix sub)
  Moves-tempfile_in prefix suffix = record {
    at = λ w.
        guarded-SameIn (w.faults create_temp sub) (create_temp_file (temp_path sub prefix suffix w))
          w (created-SameIn _ w);
  }

  pub Moves-write_all :
      (n : Text) (bytes : List ℕ) → Moves (SameIn dir) (write_all (join sub n) bytes)
  Moves-write_all n bytes = record {
    at = λ w.
        guarded-SameIn (w.faults write (join sub n))
          (λ v. (ok tt, put_node (join sub n) (regular bytes (some v.now)) v)) w
          (SameIn-put_node dir (join sub n) (outside n) (regular bytes (some w.now)) w);
  }

  move_node-SameIn :
      (n m : Text) (old new : Option Node) (w : World)
      → SameIn dir w
          (renamed (join sub n) (move_node (join sub n) (join sub m) old new w.files) w).1
  move_node-SameIn n m old (some directory) w = SameIn-remove_node dir (join sub n) (outside n) w
  move_node-SameIn n m none new w = SameIn-remove_node dir (join sub n) (outside n) w
  move_node-SameIn n m (some node) new w =
      (SameIn-preorder dir).chain (SameIn-remove_node dir (join sub n) (outside n) w)
        (SameIn-put_node dir (join sub m) (outside m) node (remove_node (join sub n) w))

  persist-SameIn :
      (n m : Text) (r : Result IoError Unit) (w : World)
      → SameIn dir w
          (renamed (join sub n) (and_then r λ _. rename_node (join sub n) (join sub m) w.files) w).1
  persist-SameIn n m (ok _) w =
      move_node-SameIn n m (lookup (join sub n) w.files) (lookup (join sub m) w.files) w
  persist-SameIn n m (err e) w = SameIn-remove_node dir (join sub n) (outside n) w

  dropped-SameIn :
      {A : Type 0} (n : Text) (r : Result Error A) (w v : World)
      → SameIn dir w v
      → SameIn dir w (dropped_on_error (join sub n) r v).1
  dropped-SameIn n (ok a) w v h = h
  dropped-SameIn n (err e) w v h =
      (SameIn-preorder dir).chain h (SameIn-remove_node dir (join sub n) (outside n) v)

  pub Moves-or_drop :
      {A : Type 0} (n : Text) (m : Exec Error World A)
      → Moves (SameIn dir) m
      → Moves (SameIn dir) (or_drop (join sub n) m)
  Moves-or_drop n m h = record { at = λ w. dropped-SameIn n (m w).0 w (m w).1 (h.at w) }

  -- The continuation of a new temporary file gets its path.
  pub tempfile_in-SameIn :
      {A : Type 0} (prefix suffix : Text) (f : FilePath → Exec Error World A)
      → ((n : Text) → Moves (SameIn dir) (f (join sub n)))
      → Moves (SameIn dir) (map_err_exec (at_path sub) (tempfile_in prefix suffix sub) >>= f)
  tempfile_in-SameIn prefix suffix f h = record { at = λ w. from (w.faults create_temp sub) w }
    where
      from :
          (o : Option IoError) (w : World)
          → SameIn dir w
              ((map_err_exec
                    (at_path sub)
                    (λ w. guarded o (create_temp_file (temp_path sub prefix suffix w)) w)
                  >>= f)
                w).1
      from none w =
          (SameIn-preorder dir).chain (created-SameIn _ w)
            ((h (prefix ++ (w.temp_name w.temps ++ suffix))).at _)
      from (some e) w = (SameIn-preorder dir).same w

  pub Moves-persist : (n m : Text) → Moves (SameIn dir) (persist (join sub n) (join sub m))
  Moves-persist n m = record { at = λ w. persist-SameIn n m (check rename (join sub m) w) w }

-- Nothing below `meta` or `tmp` is an entry of a directory of blobs.
pub meta-outside :
    (root : FilePath) (key n : Text)
    → child_name (fanout_dir root key) (join (meta_dir root) n) ≡ none
meta-outside root key n = simp append_assoc (rw child_name-append (unfold child_name in refl))

pub tmp-outside :
    (root : FilePath) (key n : Text)
    → child_name (fanout_dir root key) (join (tmp_dir root) n) ≡ none
tmp-outside root key n = simp append_assoc (rw child_name-append (unfold child_name in refl))

module _ (root : FilePath) (key : Text) where
  abbrev blobs : FilePath
  blobs = fanout_dir root key

  abbrev Kept : {A : Type 0} → Exec Error World A → Type 0
  Kept m = Moves (SameIn blobs) m

  publish_from-SameIn :
      (k bytes n : Text) → Kept (publish_from root k bytes (join (meta_dir root) n))
  unfolding publish_from
  publish_from-SameIn k bytes n =
      let sub = meta_dir root in
      let tmp = join sub n in
      let dst = meta_path root k in
      Moves-bind (SameIn-preorder blobs)
        (or_drop tmp (map_err_exec (at_path tmp) (write_all tmp bytes)))
        (λ _. map_err_exec (at_path dst) (persist tmp dst))
        (Moves-or_drop blobs sub (meta-outside root key) n _ (
          Moves-map_err_exec (at_path tmp) (write_all tmp bytes)
            (Moves-write_all blobs sub (meta-outside root key) n bytes)))
        (λ _.
          Moves-map_err_exec (at_path dst) (persist tmp dst)
            (Moves-persist blobs sub (meta-outside root key) n (k ++ codes ".json")))

  publish-SameIn : (k bytes : Text) → Kept (publish root k bytes)
  unfolding publish
  publish-SameIn k bytes =
      tempfile_in-SameIn blobs (meta_dir root) (meta-outside root key) (codes ".meta-")
        (codes ".json.part") (publish_from root k bytes) (publish_from-SameIn k bytes)

  -- Writing a manifest changes nothing of what is found under `blobs`, whether it succeeds or not.
  pub put_meta-SameIn : (X : External) (k : Text) (m : Manifest) → Kept (put_meta X root k m)
  unfolding put_meta
  put_meta-SameIn X k m =
      let o = SameIn-preorder blobs in
      let made = create_dir_all (meta_dir root) in
      Moves-bind o (map_err_exec (at_path (meta_dir root)) made)
        (λ _. lift (to_json_bytes X m) >>= publish root k)
        (Moves-map_err_exec (at_path (meta_dir root)) made (Moves-still o _))
        (λ _.
          Moves-bind o (lift (to_json_bytes X m)) (publish root k) (Moves-lift o _)
            (publish-SameIn k))
