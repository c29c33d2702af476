-- ===== src/Prefetch/Invariant/Give.antt =====
-- prefetch.rs: the loop of `take` over the head's samples.
use earth_sci_io.Prelude.{
  Bool, List, Option, arith, eq, false, if◌then◌else◌, insert, insert-holds, list_eq, lookup, none,
  prod_eq, refl, remove, remove-holds, some, subst, suc, true, zero, ℕ, ℕ_eq, ◌+◌, ◌<◌, ◌∙◌, ◌≡◌,
  ◌≤◌,
}
use earth_sci_io.Prefetch.State.{Cell, CellKey, CellStatus, Config, State, ready}
use earth_sci_io.Prefetch.Take.{release}
use earth_sci_io.Prefetch.Worker.{Job, Produce, Wording}
use earth_sci_io.Prefetch.Invariant.{CountedAt, GenuineAt, Samples, TrackedAt}
use earth_sci_io.Prefetch.Invariant.Cells.{counted-some, more, more_self}
use earth_sci_io.Prefetch.Invariant.Frame.{Adds, Adds-writes}

module _ {T : Type 0} where
  abbrev pub is_usable : CellStatus T → Bool
  is_usable (ready d bytes) = true
  is_usable _ = false

  -- A sample that `n` more keys ask for is ready, if its cell is there.
  abbrev pub ReadyAt : ℕ → Option (Cell T) → Type 0
  ReadyAt n none = Unit
  ReadyAt n (some c) = 0 < n → is_usable c.status ≡ true

  CountedAt-less_apart :
      (k : CellKey) (count : CellKey → ℕ) (j : CellKey) (o : Option (Cell T))
      → eq k j ≡ false
      → CountedAt (more k count j) o
      → CountedAt (count j) o
  CountedAt-less_apart k count j none e h =
      let g : count j + (if eq k j then 1 else 0) ≡ 0 = h in
      let f : count j + 0 ≡ 0 = rw e at g in omega arith
  CountedAt-less_apart k count j (some c) e h =
      let f : (c.slots ≡ count j + 0) × (0 < count j + 0) = rw e at h in omega arith

  pub ReadyAt-le : (m n : ℕ) (o : Option (Cell T)) → n ≤ m → ReadyAt m o → ReadyAt n o
  ReadyAt-le m n none le h = tt
  ReadyAt-le m n (some c) le h = λ p. h (omega arith)

module _ {T : Type 0} (cfg : Config) (w : Wording) (Made : ℕ → ℕ → Produce T → Type 0)
    (jobs : List Job) where
  -- What a release comes to: one slot less holds `k`.
  pub record Released (count : CellKey → ℕ) (k : CellKey) (s : State T) (r : Option (State T))
      : Type 0 where
    pub state : State T
    pub result : r ≡ some state
    pub samples : Samples cfg w Made count jobs state
    pub adds : Adds s state
    pub usable :
        (m n : CellKey → ℕ)
        → ((j : CellKey) → n j ≤ m j)
        → ((j : CellKey) → ReadyAt (m j) (lookup j s.cells))
        → (j : CellKey) → ReadyAt (n j) (lookup j state.cells)
    pub prev : state.prev_anchor ≡ s.prev_anchor

  release_at :
      (count : CellKey → ℕ) (k : CellKey) (c : Cell T) (s : State T) (slots : ℕ)
      → slots ≡ count k + 1
      → lookup k s.cells ≡ some c
      → Samples cfg w Made (more k count) jobs s
      → Released count k s (release k c slots s)
  unfolding release
  release_at count k c s zero h e v = absurd (omega arith)
  release_at count k c s (suc zero) h e v = record {
    state = record s { cells = remove k s.cells };
    result = refl;
    samples = record {
      counted =
          remove-holds (λ j o. CountedAt (count j) o) k s.cells (omega arith)
            (λ j apart. CountedAt-less_apart k count j (lookup j s.cells) apart (v.counted j));
      genuine = remove-holds (GenuineAt cfg w Made) k s.cells tt (λ j _. v.genuine j);
      tracked =
          remove-holds (TrackedAt s.generation s.queue jobs) k s.cells tt (λ j _. v.tracked j);
      kept = v.kept;
      listed = v.listed;
      staff = v.staff;
    };
    adds = Adds-writes s _ _ _;
    usable = λ m n le r.
        remove-holds (λ j o. ReadyAt (n j) o) k s.cells tt
          (λ j _. ReadyAt-le (m j) (n j) (lookup j s.cells) (le j) (r j));
    prev = refl;
  }
  release_at count k c s (suc (suc n)) h e v = record {
    state = record s { cells = insert k (record c { slots = suc n }) s.cells };
    result = refl;
    samples = record {
      counted =
          insert-holds (λ j o. CountedAt (count j) o) k _ s.cells (omega arith)
            (λ j apart. CountedAt-less_apart k count j (lookup j s.cells) apart (v.counted j));
      genuine =
          insert-holds (GenuineAt cfg w Made) k _ s.cells
            (subst (GenuineAt cfg w Made k) e (v.genuine k)) (λ j _. v.genuine j);
      tracked =
          insert-holds (TrackedAt s.generation s.queue jobs) k _ s.cells
            (subst (TrackedAt s.generation s.queue jobs k) e (v.tracked k)) (λ j _. v.tracked j);
      kept = v.kept;
      listed = v.listed;
      staff = v.staff;
    };
    adds = Adds-writes s _ _ _;
    usable = λ m n le r.
        insert-holds (λ j o. ReadyAt (n j) o) k _ s.cells
          (ReadyAt-le (m k) (n k) (some c) (le k) (subst (ReadyAt (m k)) e (r k)))
          (λ j _. ReadyAt-le (m j) (n j) (lookup j s.cells) (le j) (r j));
    prev = refl;
  }

  pub release-Released :
      (count : CellKey → ℕ) (k : CellKey) (c : Cell T) (s : State T)
      → lookup k s.cells ≡ some c
      → Samples cfg w Made (more k count) jobs s
      → Released count k s (release k c c.slots s)
  release-Released count k c s e v =
      release_at count k c s c.slots
        (counted-some k (more k count k) (lookup k s.cells) c e (v.counted k) ∙ more_self k count) e
        v
