-- ===== src/Validate/Revalidator/History.antt =====
-- validate.rs: what the revalidator remembers along the history of a source.
use earth_sci_io.Exec.{ok}
use earth_sci_io.Validate.Revalidator.{
  Fingerprint, SourceRevalidator, SourceState, after_hash, after_memo, after_stat,
  empty_revalidator, file_source_state, fresh_digest, racy_margin, remembered, replaced, room,
  stat_source, state, verdict,
}
use earth_sci_io.Validate.Revalidator.Timeline.{
  IsReadable, Later, Later-Seen, Source, Step, fingerprint, here, next, world_of,
}
use earth_sci_io.Prelude.{
  Bool, List, Option, Text, ap, arith, false, if◌then◌else◌, length, list_eq, lookup,
  lookup-insert_self, none, not, refl, some, subst, sym, true, ℕ, ℕ_eq, ◌<◌, ◌==◌, ◌∙◌, ◌≡◌, ◌≤◌,
}
use earth_sci_io.FilePath.{FilePath}
use earth_sci_io.FileSystem.{World, regular}
use earth_sci_io.Manifest.{Manifest}
use earth_sci_io.External.{External}
use earth_sci_io.Key.{sha256_file, sha256_hex}

module _ (X : External) (p : FilePath) (tick : ℕ) (w : World) where
  -- A process that checks the source between the steps of its history, each time against a manifest.
  pub data Run : Source → SourceRevalidator → Type 0 where
    start : (s : Source) → Run s empty_revalidator
    moves : {s t : Source} {rv : SourceRevalidator} → Run s rv → Step tick s t → Run t rv
    checks :
        {s : Source} {rv : SourceRevalidator}
        → Run s rv
        → (m : Manifest) → Run s (state X p m (world_of p s w) rv).1

  -- What is remembered of the source was true of it at some earlier moment.
  abbrev Recorded : Fingerprint → Source → Type 0
  Recorded fp s = (old : Source) × (fp ≡ fingerprint X old) × Later tick old s

  abbrev IsHonest : Source → SourceRevalidator → Type 0
  IsHonest s rv = (fp : Fingerprint) → lookup p rv.seen ≡ some fp → Recorded fp s

  find_source :
      (s : Source) → lookup p (world_of p s w).files ≡ some (regular s.content (some s.mtime))
  find_source s = lookup-insert_self p _ w.files

  sha256_file-world_of :
      (s : Source) → IsReadable p w → sha256_file X p (world_of p s w) ≡ ok (sha256_hex X s.content)
  sha256_file-world_of s r = ground (arith, find_source s)

  stat_source-world_of :
      (s : Source)
      → IsReadable p w
      → stat_source p (world_of p s w) ≡ ok (regular s.content (some s.mtime))
  unfolding stat_source
  stat_source-world_of s r = ground (arith, find_source s)

  after_hash-IsHonest :
      (m : Manifest) (s : Source) (rv : SourceRevalidator) (fp : Fingerprint)
      → lookup p
          (after_hash X p m
            (regular s.content (some s.mtime))
            s.now
            rv
            (ok (sha256_hex X s.content))).1.seen
        ≡ some fp
      → Recorded fp s
  unfolding after_hash
  after_hash-IsHonest m s rv fp e =
      (s, cc (lookup-insert_self p (fingerprint X s) (room rv.seen), e), here)

  after_memo-none :
      (m : Manifest) (s : Source) (rv : SourceRevalidator)
      → IsReadable p w
      → after_memo X p m (regular s.content (some s.mtime)) (world_of p s w) rv none
        ≡ after_hash X p m (regular s.content (some s.mtime)) s.now rv (ok (sha256_hex X s.content))
  after_memo-none m s rv r =
      step
      ∙ ap (after_hash X p m (regular s.content (some s.mtime)) s.now rv) (sha256_file-world_of s r)
    where
      step :
          after_memo X p m (regular s.content (some s.mtime)) (world_of p s w) rv none
          ≡ after_hash X p m
              (regular s.content (some s.mtime))
              s.now
              rv
              (sha256_file X p (world_of p s w))
      step = unfold after_memo in refl

  after_memo-IsHonest :
      (m : Manifest) (s : Source) (rv : SourceRevalidator) (known : Option Text)
      → IsReadable p w
      → IsHonest s rv
      → IsHonest s (after_memo X p m (regular s.content (some s.mtime)) (world_of p s w) rv known).1
  after_memo-IsHonest m s rv (some sha) r h fp e = h fp (unfold after_memo in e)
  after_memo-IsHonest m s rv none r h fp e =
      after_hash-IsHonest m s rv fp (rw (after_memo-none m s rv r) at e)

  if-IsHonest :
      (s : Source) (b : Bool) (x y : SourceState × SourceRevalidator)
      → IsHonest s x.1
      → IsHonest s y.1
      → IsHonest s (if b then x else y).1
  if-IsHonest s true x y hx hy = hx
  if-IsHonest s false x y hx hy = hy

  after_stat-IsHonest :
      (m : Manifest) (s : Source) (rv : SourceRevalidator)
      → IsReadable p w
      → IsHonest s rv
      → IsHonest s (after_stat X p m (world_of p s w) rv (ok (regular s.content (some s.mtime)))).1
  after_stat-IsHonest m s rv r h =
      let node = regular s.content (some s.mtime) in
      let known = remembered p (length s.content) (some s.mtime) rv in
      unfold after_stat in
      if-IsHonest s (not (length s.content == m.bytes)) (replaced, rv)
        (after_memo X p m node (world_of p s w) rv known) h (after_memo-IsHonest m s rv known r h)

  state-world_of :
      (m : Manifest) (s : Source) (rv : SourceRevalidator)
      → IsReadable p w
      → state X p m (world_of p s w) rv
        ≡ after_stat X p m (world_of p s w) rv (ok (regular s.content (some s.mtime)))
  state-world_of m s rv r =
      step ∙ ap (after_stat X p m (world_of p s w) rv) (stat_source-world_of s r)
    where
      step :
          state X p m (world_of p s w) rv
          ≡ after_stat X p m (world_of p s w) rv (stat_source p (world_of p s w))
      step = unfold state in refl

  Step-IsHonest :
      {s t : Source} (rv : SourceRevalidator) → Step tick s t → IsHonest s rv → IsHonest t rv
  Step-IsHonest rv st h fp e = let (old, from, l) = h fp e in (old, from, next l st)

  -- Along every run, each fingerprint was true of the source at some earlier moment.
  Run-IsHonest : {s : Source} {rv : SourceRevalidator} → IsReadable p w → Run s rv → IsHonest s rv
  Run-IsHonest r (start s) fp e = cc
  Run-IsHonest r (moves {rv = rv} run st) fp e = Step-IsHonest rv st (Run-IsHonest r run) fp e
  Run-IsHonest r (checks {s = s} {rv = rv} run m) fp e =
      after_stat-IsHonest m s rv r (Run-IsHonest r run) fp (
        subst (λ (x : SourceState × SourceRevalidator). lookup p x.1.seen ≡ some fp)
          (state-world_of m s rv r) e)

  -- A digest that the memo gives back is that of the content now.
  fresh_digest_sound :
      (fp : Fingerprint) (s : Source) (sha : Text)
      → 0 < tick
      → tick ≤ racy_margin
      → Recorded fp s
      → fresh_digest (length s.content) s.mtime fp ≡ some sha
      → sha ≡ sha256_hex X s.content
  unfolding fresh_digest
  fresh_digest_sound fp s sha positive small (old, from, l) e =
      ground (arith, Later-Seen tick positive old l, ap (λ (c : List ℕ). sha256_hex X c))

  verdict-after_memo :
      (m : Manifest) (s : Source) (rv : SourceRevalidator) (known : Option Text)
      → IsReadable p w
      → ((sha : Text) → known ≡ some sha → sha ≡ sha256_hex X s.content)
      → (after_memo X p m (regular s.content (some s.mtime)) (world_of p s w) rv known).0
        ≡ verdict (sha256_hex X s.content) m
  verdict-after_memo m s rv (some sha) r h =
      unfold after_memo in ap (λ (t : Text). verdict t m) (h sha refl)
  verdict-after_memo m s rv none r h = rw (after_memo-none m s rv r) (unfold after_hash in refl)

  -- The answer without the memo, for a source that can be read.
  abbrev answer : Manifest → Source → SourceState
  answer m s =
      if not (length s.content == m.bytes) then replaced else verdict (sha256_hex X s.content) m

  state-answer :
      (m : Manifest) (s : Source) (rv : SourceRevalidator)
      → IsReadable p w
      → ((sha : Text)
          → remembered p (length s.content) (some s.mtime) rv ≡ some sha
          → sha ≡ sha256_hex X s.content)
      → (state X p m (world_of p s w) rv).0 ≡ answer m s
  state-answer m s rv r h =
      let known = remembered p (length s.content) (some s.mtime) rv in
      rw (state-world_of m s rv r)
        (unfold after_stat in ground (arith, verdict-after_memo m s rv known r h))

  remembered_sound :
      (s : Source) (rv : SourceRevalidator) (found : Option Fingerprint) (sha : Text)
      → 0 < tick
      → tick ≤ racy_margin
      → ((fp : Fingerprint) → found ≡ some fp → Recorded fp s)
      → (elim found [ none ↦ none | some fp ↦ fresh_digest (length s.content) s.mtime fp ])
        ≡ some sha
      → sha ≡ sha256_hex X s.content
  remembered_sound s rv none sha positive small h e = cc
  remembered_sound s rv (some fp) sha positive small h e =
      fresh_digest_sound fp s sha positive small (h fp refl) e

  -- Along every run, on a file system that stamps writes to within the margin, the check with its
  -- memo gives the answer that reading the whole source would give. The source can be read.
  pub state-eq-file_source_state :
      (m : Manifest) {s : Source} {rv : SourceRevalidator}
      → IsReadable p w
      → 0 < tick
      → tick ≤ racy_margin
      → Run s rv
      → (state X p m (world_of p s w) rv).0 ≡ file_source_state X p m (world_of p s w)
  state-eq-file_source_state m {s} {rv} r positive small run =
      state-answer m s rv r sound
      ∙ sym (unfold file_source_state in state-answer m s empty_revalidator r nothing)
    where
      sound :
          (sha : Text)
          → remembered p (length s.content) (some s.mtime) rv ≡ some sha
          → sha ≡ sha256_hex X s.content
      sound sha e =
          remembered_sound s rv (lookup p rv.seen) sha positive small (Run-IsHonest r run)
            (unfold remembered in e)

      nothing :
          (sha : Text)
          → remembered p (length s.content) (some s.mtime) empty_revalidator ≡ some sha
          → sha ≡ sha256_hex X s.content
      nothing sha e = let q : ◌≡◌ {A = Option Text} none (some sha) = unfold remembered in e in cc q
