-- ===== src/Prefetch/Invariant/Cells.antt =====
-- prefetch.rs: what the admission of a slot's keys keeps.
use earth_sci_io.Exec.Inversion.{some-injective}
use earth_sci_io.Prelude.{
  ==→eq, All, All-last, Bool-cases, List, Option, [], ap, arith, eq, eq_self, false, fun_ext,
  if◌then◌else◌, includes, includes-append, inl, inr, insert, insert-holds, length, list_eq, lookup,
  none, occurrences, or_true, prod_eq, refl, some, subst, true, ℕ, ℕ_eq, ◌++◌, ◌+◌, ◌<◌, ◌==◌, ◌∷◌,
  ◌≡◌,
}
use earth_sci_io.Prefetch.State.{Cell, CellKey, CellStatus, Config, State, queued, ready, running}
use earth_sci_io.Prefetch.Admit.{add_cell, add_fresh, add_key, add_keys, revived}
use earth_sci_io.Prefetch.Worker.{Job, Produce, Wording, produced}
use earth_sci_io.Prefetch.Invariant.{
  CountedAt, GenuineAt, IsMembers, KeptAt, Samples, TrackedAt, TrackedStatus,
}

-- One slot more that holds `k`.
abbrev pub more : CellKey → (CellKey → ℕ) → CellKey → ℕ
more k count j = count j + (if eq k j then 1 else 0)

pub more_self : (k : CellKey) (count : CellKey → ℕ) → more k count k ≡ count k + 1
more_self k count = rw (eq_self k)

queued_last :
    (g : ℕ) (queue : List Job) (k : CellKey) → includes (g, k) (queue ++ (g, k) ∷ []) ≡ true
queued_last g queue k =
    let last : Job = (g, k) in
    rw (includes-append last queue (last ∷ []), eq_self {A = Job} last) (or_true _)

module _ {T : Type 0} where
  CountedAt-more_apart :
      (k : CellKey) (count : CellKey → ℕ) (j : CellKey) (o : Option (Cell T))
      → eq k j ≡ false
      → CountedAt (count j) o
      → CountedAt (more k count j) o
  CountedAt-more_apart k count j none e h = rw e (omega arith)
  CountedAt-more_apart k count j (some c) e h = rw e (omega arith)

  CountedAt-more :
      (k : CellKey) (count : CellKey → ℕ) (c : Cell T)
      → c.slots ≡ count k + 1
      → CountedAt (more k count k) (some c)
  CountedAt-more k count c h = rw (eq_self k) (omega arith)

  counted-insert :
      (k : CellKey) (count : CellKey → ℕ) (c : Cell T) (cells : List (CellKey × Cell T))
      → c.slots ≡ count k + 1
      → ((j : CellKey) → CountedAt (count j) (lookup j cells))
      → (j : CellKey) → CountedAt (more k count j) (lookup j (insert k c cells))
  counted-insert k count c cells h v =
      insert-holds (λ j o. CountedAt (more k count j) o) k c cells (CountedAt-more k count c h)
        (λ j apart. CountedAt-more_apart k count j (lookup j cells) apart (v j))

  pub counted-some :
      (k : CellKey) (n : ℕ) (o : Option (Cell T)) (c : Cell T)
      → o ≡ some c
      → CountedAt n o
      → c.slots ≡ n
  counted-some k n none c e h = cc
  counted-some k n (some b) c e h = cc (h.0, some-injective e)

  counted-none : (n : ℕ) (o : Option (Cell T)) → o ≡ none → CountedAt n o → n ≡ 0
  counted-none n none e h = h
  counted-none n (some b) e h = cc

  TrackedStatus-push :
      (g : ℕ) (queue added jobs : List Job) (k : CellKey) (st : CellStatus T)
      → TrackedStatus g queue jobs k st
      → TrackedStatus g (queue ++ added) jobs k st
  TrackedStatus-push g queue added jobs k queued h = rw (includes-append (g, k) queue added, h)
  TrackedStatus-push g queue added jobs k running h = h
  TrackedStatus-push g queue added jobs k (ready d b) h = h
  TrackedStatus-push g queue added jobs k (CellStatus.failed e) h = h

  TrackedAt-push :
      (g : ℕ) (queue added jobs : List Job) (k : CellKey) (o : Option (Cell T))
      → TrackedAt g queue jobs k o
      → TrackedAt g (queue ++ added) jobs k o
  TrackedAt-push g queue added jobs k none h = h
  TrackedAt-push g queue added jobs k (some c) h =
      TrackedStatus-push g queue added jobs k c.status h

module _ {T : Type 0} (Made : ℕ → ℕ → Produce T → Type 0) where
  revived-Made :
      (o : Option (ℕ × T × ℕ)) (i anchor : ℕ) (d : T) (bytes : ℕ)
      → revived o anchor ≡ some (d, bytes)
      → KeptAt Made i o
      → Made i anchor (produced d bytes)
  unfolding revived
  revived-Made none i anchor d bytes e h = cc
  revived-Made (some (a, x, b)) i anchor d bytes e h = elim (Bool-cases (a == anchor)) [
    | inl same ↦
        let found : ◌≡◌ {A = Option (T × ℕ)} (some (x, b)) (some (d, bytes)) = rw same at e in
        let moved : Made i anchor (produced x b) =
          subst (λ t. Made i t (produced x b)) (==→eq a anchor same) h in
        subst (λ (y : T × ℕ). Made i anchor (produced y.0 y.1)) (some-injective found) moved
    | inr apart ↦
        let found : ◌≡◌ {A = Option (T × ℕ)} none (some (d, bytes)) = rw apart at e in
        absurd (cc found)
  ]

module _ {T : Type 0} {cfg : Config} {w : Wording} {Made : ℕ → ℕ → Produce T → Type 0} where
  pub Samples-count :
      {m n : CellKey → ℕ} {jobs : List Job} {s : State T}
      → ((k : CellKey) → m k ≡ n k)
      → Samples cfg w Made m jobs s
      → Samples cfg w Made n jobs s
  Samples-count {m} {n} {jobs} {s} e v =
      subst (λ count. Samples cfg w Made count jobs s) (fun_ext e) v

  add_fresh-Samples :
      (count : CellKey → ℕ) (jobs : List Job) (k : CellKey) (s : State T) (r : Option (T × ℕ))
      → lookup k s.cells ≡ none
      → revived (s.last_taken k.0) k.1 ≡ r
      → k.0 < length cfg.members
      → Samples cfg w Made count jobs s
      → Samples cfg w Made (more k count) jobs (add_fresh r k s)
  unfolding add_fresh
  add_fresh-Samples count jobs k s none e r known v = record {
    counted =
        counted-insert k count _ s.cells
          (omega (arith, counted-none (count k) (lookup k s.cells) e (v.counted k))) v.counted;
    genuine = insert-holds (GenuineAt cfg w Made) k _ s.cells tt (λ j _. v.genuine j);
    tracked =
        insert-holds (TrackedAt s.generation (s.queue ++ (s.generation, k) ∷ []) jobs) k _ s.cells
          (queued_last s.generation s.queue k)
          (λ j _. TrackedAt-push s.generation s.queue _ jobs j (lookup j s.cells) (v.tracked j));
    kept = v.kept;
    listed = All-last (IsMembers cfg) s.queue (s.generation, k) v.listed known;
    staff = v.staff;
  }
  add_fresh-Samples count jobs k s (some (d, bytes)) e r known v = record {
    counted =
        counted-insert k count _ s.cells
          (omega (arith, counted-none (count k) (lookup k s.cells) e (v.counted k))) v.counted;
    genuine =
        insert-holds (GenuineAt cfg w Made) k _ s.cells
          (revived-Made Made (s.last_taken k.0) k.0 k.1 d bytes r (v.kept k.0))
          (λ j _. v.genuine j);
    tracked =
        insert-holds (TrackedAt s.generation s.queue jobs) k _ s.cells tt (λ j _. v.tracked j);
    kept = v.kept;
    listed = v.listed;
    staff = v.staff;
  }

  add_cell-Samples :
      (count : CellKey → ℕ) (jobs : List Job) (k : CellKey) (s : State T) (o : Option (Cell T))
      → lookup k s.cells ≡ o
      → k.0 < length cfg.members
      → Samples cfg w Made count jobs s
      → Samples cfg w Made (more k count) jobs (add_cell o k s)
  unfolding add_cell
  add_cell-Samples count jobs k s none e known v = add_fresh-Samples count jobs k s _ e refl known v
  add_cell-Samples count jobs k s (some c) e known v = record {
    counted =
        counted-insert k count _ s.cells
          (ap (λ n. n + 1) (counted-some k (count k) (lookup k s.cells) c e (v.counted k)))
          v.counted;
    genuine =
        insert-holds (GenuineAt cfg w Made) k _ s.cells
          (subst (GenuineAt cfg w Made k) e (v.genuine k)) (λ j _. v.genuine j);
    tracked =
        insert-holds (TrackedAt s.generation s.queue jobs) k _ s.cells
          (subst (TrackedAt s.generation s.queue jobs k) e (v.tracked k)) (λ j _. v.tracked j);
    kept = v.kept;
    listed = v.listed;
    staff = v.staff;
  }

  add_key-Samples :
      (count : CellKey → ℕ) (jobs : List Job) (k : CellKey) (s : State T)
      → k.0 < length cfg.members
      → Samples cfg w Made count jobs s
      → Samples cfg w Made (more k count) jobs (add_key k s)
  unfolding add_key
  add_key-Samples count jobs k s known v = add_cell-Samples count jobs k s _ refl known v

  pub add_keys-Samples :
      (count : CellKey → ℕ) (jobs : List Job) (ks : List CellKey) (s : State T)
      → All (λ (k : CellKey). k.0 < length cfg.members) ks
      → Samples cfg w Made count jobs s
      → Samples cfg w Made (λ j. count j + occurrences j ks) jobs (add_keys ks s)
  unfolding add_keys
  add_keys-Samples count jobs [] s known v = Samples-count (λ j. omega arith) v
  add_keys-Samples count jobs (k ∷ ks) s known v =
      Samples-count (λ j. omega arith)
        (add_keys-Samples (more k count) jobs ks (add_key k s) known.1
          (add_key-Samples count jobs k s known.0 v))
