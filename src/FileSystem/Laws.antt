-- ===== src/FileSystem/Laws.antt =====
-- What a rename that succeeds has done.
use earth_sci_io.Prelude.{
  List, Option, insert, list_eq, lookup, none, refl, remove, some, ℕ, ℕ_eq, ◌≡◌,
}
use earth_sci_io.Exec.{Result, and_then, err, map_err_exec, ok}
use earth_sci_io.FilePath.{FilePath}
use earth_sci_io.FileSystem.{
  Files, IoError, Node, World, check, directory, dropped_on_error, guarded, move_node, or_drop,
  persist, put_node, regular, rename, rename_node, renamed, write, write_all,
}

pub record Renamed (src dst : FilePath) (w v : World) : Type 0 where
  pub node : Node
  pub was : lookup src w.files ≡ some node
  pub files : v.files ≡ insert dst node (remove src w.files)
  pub faults : v.faults ≡ w.faults

move_node-Renamed :
    (src dst : FilePath) (old new : Option Node) (w : World)
    → lookup src w.files ≡ old
    → (renamed src (move_node src dst old new w.files) w).0 ≡ ok tt
    → Renamed src dst w (renamed src (move_node src dst old new w.files) w).1
move_node-Renamed src dst old (some directory) w e h = cc
move_node-Renamed src dst none none w e h = cc
move_node-Renamed src dst none (some (regular c t)) w e h = cc
move_node-Renamed src dst (some n) none w e h = record {
  node = n;
  was = e;
  files = refl;
  faults = refl;
}
move_node-Renamed src dst (some n) (some (regular c t)) w e h = record {
  node = n;
  was = e;
  files = refl;
  faults = refl;
}

checked-Renamed :
    (src dst : FilePath) (r : Result IoError Unit) (w : World)
    → (renamed src (and_then r λ _. rename_node src dst w.files) w).0 ≡ ok tt
    → Renamed src dst w (renamed src (and_then r λ _. rename_node src dst w.files) w).1
checked-Renamed src dst (ok _) w h =
    move_node-Renamed src dst (lookup src w.files) (lookup dst w.files) w refl h
checked-Renamed src dst (err e) w h = cc

pub persist-Renamed :
    (src dst : FilePath) (w : World)
    → (persist src dst w).0 ≡ ok tt
    → Renamed src dst w (persist src dst w).1
persist-Renamed src dst w h = checked-Renamed src dst (check rename dst w) w h

-- A write that succeeds, where an error would have dropped the file.
pub written :
    {F : Type 0} (f : IoError → F) (p : FilePath) (bytes : List ℕ) (w : World)
    → (or_drop p (map_err_exec f (write_all p bytes)) w).0 ≡ ok tt
    → (or_drop p (map_err_exec f (write_all p bytes)) w).1
      ≡ put_node p (regular bytes (some w.now)) w
written {F} f p bytes w = from (w.faults write p)
  where
    W : World → World
    W v = put_node p (regular bytes (some v.now)) v

    from :
        (o : Option IoError)
        → (or_drop p
            (map_err_exec f (guarded o λ v. (ok tt, put_node p (regular bytes (some v.now)) v)))
            w).0
          ≡ ok tt
        → (or_drop p
            (map_err_exec f (guarded o λ v. (ok tt, put_node p (regular bytes (some v.now)) v)))
            w).1
          ≡ put_node p (regular bytes (some w.now)) w
    from none h = refl
    from (some e) h = cc

renamed-faults :
    (src : FilePath) (r : Result IoError Files) (w : World) → (renamed src r w).1.faults ≡ w.faults
renamed-faults src (ok fs) w = refl
renamed-faults src (err e) w = refl

pub persist-faults : (src dst : FilePath) (w : World) → (persist src dst w).1.faults ≡ w.faults
persist-faults src dst w =
    renamed-faults src (and_then (check rename dst w) λ _. rename_node src dst w.files) w

-- Making directories changes no file, unless an error drops the temporary file.
module _ {F : Type 0} (f : IoError → F) (p : FilePath) where
  pub dropped-faults :
      {A : Type 0} (r : Result F A) (w : World) → (dropped_on_error p r w).1.faults ≡ w.faults
  dropped-faults (ok a) w = refl
  dropped-faults (err e) w = refl

  pub dropped-ok :
      {A : Type 0} (r : Result F A) (w : World) (a : A)
      → (dropped_on_error p r w).0 ≡ ok a
      → (dropped_on_error p r w).1 ≡ w
  dropped-ok (ok a) w b h = refl
  dropped-ok (err e) w b h = cc

  pub dropped-value :
      {A : Type 0} (r : Result F A) (w : World) (a : A)
      → (dropped_on_error p r w).0 ≡ ok a
      → r ≡ ok a
  dropped-value (ok a) w b h = h
  dropped-value (err e) w b h = cc
