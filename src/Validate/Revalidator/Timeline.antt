-- ===== src/Validate/Revalidator/Timeline.antt =====
-- The history of a source: time passes, and writers replace its content.
use earth_sci_io.Prelude.{
  List, arith, inl, inr, insert, length, list_eq, none, refl, some, ℕ, ℕ_eq, ◌%◌, ◌+◌, ◌-◌, ◌<◌,
  ◌≡◌, ◌≤◌, ◌⊎◌,
}
use earth_sci_io.FilePath.{FilePath}
use earth_sci_io.FileSystem.{World, open_read, regular, stat}
use earth_sci_io.External.{External}
use earth_sci_io.Key.{sha256_hex}
use earth_sci_io.Validate.Revalidator.{Fingerprint}

-- A source at a moment.
pub record Source : Type 0 where
  pub content : List ℕ
  pub mtime : ℕ
  pub now : ℕ

-- Time passes, or a writer replaces the content: the system stamps the tick of the write.
pub data Step (tick : ℕ) : Source → Source → Type 0 where
  pass : (s : Source) (n : ℕ) → Step tick s (record s { now = s.now + n })
  write :
      (s : Source) (bytes : List ℕ)
      → Step tick s (record s { content = bytes; mtime = s.now - s.now % tick })

pub data Later (tick : ℕ) (s : Source) : Source → Type 0 where
  here : Later tick s s
  next : {t u : Source} → Later tick s t → Step tick t u → Later tick s u

module _ (tick : ℕ) where
  -- Since `s` nothing was written, or something was, and the stamp says so.
  abbrev pub Seen : Source → Source → Type 0
  Seen s t =
      (s.now ≤ t.now) × (((t.content ≡ s.content) × (t.mtime ≡ s.mtime)) ⊎ (s.now < t.mtime + tick))

  Step-Seen : 0 < tick → (s : Source) {t u : Source} → Step tick t u → Seen s t → Seen s u
  Step-Seen positive s (pass t n) h = ground arith
  Step-Seen positive s (write t bytes) h = (h.0, inr (grind arith))

  pub Later-Seen : 0 < tick → (s : Source) {t : Source} → Later tick s t → Seen s t
  Later-Seen positive s here = (omega arith, inl (refl, refl))
  Later-Seen positive s (next l st) = Step-Seen positive s st (Later-Seen positive s l)

-- What the revalidator records of a source.
abbrev pub fingerprint : External → Source → Fingerprint
fingerprint X s = record {
  len = length s.content;
  mtime = s.mtime;
  sha256 = sha256_hex X s.content;
  hashed_at = s.now;
}

-- The world in which the file at `p` is the source; nothing fails on it.
abbrev pub world_of : FilePath → Source → World → World
world_of p s w = record w {
  files = insert p (regular s.content (some s.mtime)) w.files;
  now = s.now;
}

abbrev pub IsReadable : FilePath → World → Type 0
IsReadable p w = (w.faults stat p ≡ none) × (w.faults open_read p ≡ none)
