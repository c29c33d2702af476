-- ===== src/FileSystem.antt =====
-- The world outside the process, as `std::fs`, `std::env`, the clock and `tempfile` show it. Files
-- are an association list by path, in the order in which `read_dir` lists them; a directory that
-- holds a file need not be listed. Every call may fail: `faults` is the error, if any, with which
-- the system answers an operation on a path.
pub mod Laws
use earth_sci_io.Prelude.{
  List, Option, Text, [], codes, insert, length, list_eq, lookup, none, remove, some, ℕ, ℕ_eq, ◌++◌,
  ◌+◌,
}
use earth_sci_io.Exec.{Exec, Result, and_then, err, ok, ok_or, pure, query, ◌>>=◌, ◌>>◌}
use earth_sci_io.FilePath.{FilePath, join}

pub data ErrorKind : Type 0 where
  not_found permission_denied other : ErrorKind

-- std::io::Error: its kind and its text
pub record IoError : Type 0 where
  pub kind : ErrorKind
  pub message : Text

abbrev pub no_such_file : IoError
no_such_file = record { kind = not_found; message = codes "No such file or directory (os error 2)" }

abbrev pub is_a_directory : IoError
is_a_directory = record { kind = other; message = codes "Is a directory (os error 21)" }

pub data Op : Type 0 where
  stat open_read read_dir create_dir create_temp write rename open_lock take_lock : Op

-- A regular file has its bytes and, where the file system reports one, its modification time.
pub data Node : Type 0 where
  regular : List ℕ → Option ℕ → Node
  directory : Node

abbrev pub Files : Type 0
Files = List (FilePath × Node)

pub record World : Type 0 where
  pub files : Files
  pub faults : Op → FilePath → Option IoError
  -- what other processes do to the files while this one waits for the lock at a path
  pub others : FilePath → Files → Files
  pub env : Text → Option Text
  -- the wall clock, in nanoseconds from the first representable instant
  pub now : ℕ
  -- the random part of the names of temporary files
  pub temp_name : ℕ → Text
  pub temps : ℕ

abbrev pub Io : Type 0 → Type 0
Io A = Exec IoError World A

abbrev pub check : Op → FilePath → World → Result IoError Unit
check op p w = elim (w.faults op p) [ none ↦ ok tt | some e ↦ err e ]

abbrev pub find_node : FilePath → Files → Result IoError Node
find_node p fs = ok_or no_such_file (lookup p fs)

-- fs::metadata
abbrev pub metadata : FilePath → World → Result IoError Node
metadata p w = and_then (check stat p w) λ _. find_node p w.files

abbrev pub contents : Node → Result IoError (List ℕ)
contents (regular bytes mtime) = ok bytes
contents directory = err is_a_directory

-- fs::read, and the read of File::open followed by io::copy
abbrev pub read : FilePath → World → Result IoError (List ℕ)
read p w = and_then (check open_read p w) λ _. and_then (find_node p w.files) contents

-- the length that metadata reports; that of a directory is the system's, here 0
abbrev pub node_len : Node → ℕ
node_len (regular bytes mtime) = length bytes
node_len directory = 0

abbrev pub modified : Node → Option ℕ
modified (regular bytes mtime) = mtime
modified directory = none

-- fs::create_dir_all
abbrev pub create_dir_all : FilePath → Io Unit
create_dir_all p = query (check create_dir p)

abbrev pub put_node : FilePath → Node → World → World
put_node p n w = record w { files = insert p n w.files }

abbrev pub remove_node : FilePath → World → World
remove_node p w = record w { files = remove p w.files }

abbrev pub temp_path : FilePath → Text → Text → World → FilePath
temp_path dir prefix suffix w = join dir (prefix ++ (w.temp_name w.temps ++ suffix))

-- A call that the system refuses changes nothing.
abbrev pub guarded : {A : Type 0} → Option IoError → Io A → Io A
guarded none m w = m w
guarded (some e) m w = (err e, w)

abbrev pub create_temp_file : FilePath → Io FilePath
create_temp_file p w =
    (ok p, record w { files = insert p (regular [] (some w.now)) w.files; temps = w.temps + 1 })

-- tempfile::Builder::tempfile_in
abbrev pub tempfile_in : Text → Text → FilePath → Io FilePath
tempfile_in prefix suffix dir w =
    guarded (w.faults create_temp dir) (create_temp_file (temp_path dir prefix suffix w)) w

-- write_all on a file that is open for writing
abbrev pub write_all : FilePath → List ℕ → Io Unit
write_all p bytes w =
    guarded (w.faults write p) (λ v. (ok tt, put_node p (regular bytes (some v.now)) v)) w

-- fs::rename of a node from `src` to `dst`, which may be a file and may not be a directory
abbrev pub move_node :
    FilePath → FilePath → Option Node → Option Node → Files → Result IoError Files
move_node src dst old (some directory) fs = err is_a_directory
move_node src dst none _ fs = err no_such_file
move_node src dst (some n) _ fs = ok (insert dst n (remove src fs))

abbrev pub rename_node : FilePath → FilePath → Files → Result IoError Files
rename_node src dst fs = move_node src dst (lookup src fs) (lookup dst fs) fs

-- NamedTempFile::persist: where the rename fails, the temporary file is dropped, and so removed.
abbrev pub renamed : FilePath → Result IoError Files → Io Unit
renamed src (ok fs) w = (ok tt, record w { files = fs })
renamed src (err e) w = (err e, remove_node src w)

abbrev pub persist : FilePath → FilePath → Io Unit
persist src dst w = renamed src (and_then (check rename dst w) λ _. rename_node src dst w.files) w

-- An early return drops a temporary file, and so removes it.
abbrev pub dropped_on_error : {E A : Type 0} → FilePath → Result E A → World → Result E A × World
dropped_on_error p (ok a) w = (ok a, w)
dropped_on_error p (err e) w = (err e, remove_node p w)

abbrev pub or_drop : {E A : Type 0} → FilePath → Exec E World A → Exec E World A
or_drop p m w = dropped_on_error p (m w).0 (m w).1

-- fs::copy
abbrev pub copy : FilePath → FilePath → Io ℕ
copy src dst = do bytes ← query (read src); write_all dst bytes; pure (length bytes)
