-- ===== src/Prefetch/Invariant/Rounds.antt =====
-- prefetch.rs: the rounds of the workers keep the shared state consistent.
use earth_sci_io.Prefetch.Invariant.Calls.{IsConsistent}
use earth_sci_io.Prelude.{
  ==→eq, All, All-last, Bool-cases, List, Option, [], and_false, arith, eq, eq_self, false,
  if◌then◌else◌, includes, includes-append, inl, inr, insert-holds, length-append, list_eq, lookup,
  none, or_true, prod_beq_sound, prod_eq, refl, some, subst, true, ℕ, ℕ_eq, ◌++◌, ◌==◌, ◌∷◌, ◌≡◌,
}
use earth_sci_io.Prefetch.State.{Cell, CellKey, CellStatus, Config, State, queued, ready, running}
use earth_sci_io.Prefetch.Worker.{
  Job, Produce, Round, Wording, pick, pick_from, run_cell, skips, stops, waits, works,
}
use earth_sci_io.Prefetch.Invariant.{
  CountedAt, GenuineAt, IsMembers, TrackedAt, TrackedStatus, outline, references,
}

-- A job apart from the one that leaves stays in the list.
includes-without :
    (x j : Job) (before after : List Job)
    → eq j x ≡ false
    → includes x (before ++ j ∷ after) ≡ true
    → includes x (before ++ after) ≡ true
includes-without x j [] after a h = rw a at h
includes-without x j (y ∷ before) after a h = ground (arith, includes-without x j before after a)

module _ {T : Type 0} where
  pub TrackedAt-finish :
      (g : ℕ) (queue before after : List Job) (j : Job) (k : CellKey) (o : Option (Cell T))
      → eq j (g, k) ≡ false
      → TrackedAt g queue (before ++ j ∷ after) k o
      → TrackedAt g queue (before ++ after) k o
  TrackedAt-finish g queue before after j k none a h = h
  TrackedAt-finish g queue before after j k (some c) a h = by_status c.status h
    where
      by_status :
          (st : CellStatus T)
          → TrackedStatus g queue (before ++ j ∷ after) k st
          → TrackedStatus g queue (before ++ after) k st
      by_status queued t = t
      by_status running t = includes-without (g, k) j before after a t
      by_status (ready d b) t = t
      by_status (CellStatus.failed e) t = t

  TrackedAt-pick :
      (g : ℕ) (rest jobs : List Job) (j : Job) (k : CellKey) (o : Option (Cell T))
      → eq j (g, k) ≡ false
      → TrackedAt g (j ∷ rest) jobs k o
      → TrackedAt g rest (jobs ++ j ∷ []) k o
  TrackedAt-pick g rest jobs j k none a h = h
  TrackedAt-pick g rest jobs j k (some c) a h = by_status c.status h
    where
      by_status :
          (st : CellStatus T)
          → TrackedStatus g (j ∷ rest) jobs k st
          → TrackedStatus g rest (jobs ++ j ∷ []) k st
      by_status queued t = rw a at t
      by_status running t = rw (includes-append (g, k) jobs (j ∷ []), t)
      by_status (ready d b) t = t
      by_status (CellStatus.failed e) t = t

  TrackedAt-skip :
      (g : ℕ) (rest jobs : List Job) (j : Job) (k : CellKey) (o : Option (Cell T))
      → eq j (g, k) ≡ false
      → TrackedAt g (j ∷ rest) jobs k o
      → TrackedAt g rest jobs k o
  TrackedAt-skip g rest jobs j k none a h = h
  TrackedAt-skip g rest jobs j k (some c) a h = by_status c.status h
    where
      by_status :
          (st : CellStatus T)
          → TrackedStatus g (j ∷ rest) jobs k st
          → TrackedStatus g rest jobs k st
      by_status queued t = rw a at t
      by_status running t = t
      by_status (ready d b) t = t
      by_status (CellStatus.failed e) t = t

module _ {T : Type 0} (cfg : Config) (w : Wording) (Made : ℕ → ℕ → Produce T → Type 0) where
  -- What `pick` leaves: the job that it takes is one more that runs.
  abbrev pub Picks : (jobs : List Job) → Round Job × State T → Type 0
  Picks jobs (works j, t) = IsConsistent cfg w Made (jobs ++ j ∷ []) t
  Picks jobs (stops, t) = IsConsistent cfg w Made jobs t
  Picks jobs (waits, t) = IsConsistent cfg w Made jobs t
  Picks jobs (skips, t) = IsConsistent cfg w Made jobs t

  -- An entry that is not worked on leaves the queue.
  skipped :
      (jobs rest : List Job) (j : Job) (s : State T)
      → s.queue ≡ j ∷ rest
      → ((k : CellKey)
          → TrackedAt s.generation (j ∷ rest) jobs k (lookup k s.cells)
          → TrackedAt s.generation rest jobs k (lookup k s.cells))
      → IsConsistent cfg w Made jobs s
      → IsConsistent cfg w Made jobs (record s { queue = rest })
  skipped jobs rest j s q f v = record {
    sound = record {
      samples = record {
        counted = v.sound.samples.counted;
        genuine = v.sound.samples.genuine;
        tracked = λ k. f k (
            subst (λ queue. TrackedAt s.generation queue jobs k (lookup k s.cells)) q
              (v.sound.samples.tracked k));
        kept = v.sound.samples.kept;
        listed = (subst (All (IsMembers cfg)) q v.sound.samples.listed).1;
        staff = v.sound.samples.staff;
      };
      window = record {
        lined = v.sound.window.lined;
        narrow = v.sound.window.narrow;
        ranged = v.sound.window.ranged;
        previous = v.sound.window.previous;
      };
    };
    headed = v.headed;
    busy = v.busy;
    staffed = v.staffed;
  }

  TrackedAt-skip_missing :
      (g : ℕ) (rest jobs : List Job) (j : Job) (k : CellKey) (o : Option (Cell T))
      → (eq j.1 k ≡ true → o ≡ none)
      → TrackedAt g (j ∷ rest) jobs k o
      → TrackedAt g rest jobs k o
  TrackedAt-skip_missing g rest jobs j k o e h = elim (Bool-cases (eq j (g, k))) [
    | inr apart ↦ TrackedAt-skip g rest jobs j k o apart h
    | inl same ↦ rw (e (ground (arith, same))) tt
  ]

  run_cell-Picks :
      (jobs rest : List Job) (j : Job) (s : State T) (o : Option (Cell T))
      → lookup j.1 s.cells ≡ o
      → j.0 ≡ s.generation
      → s.queue ≡ j ∷ rest
      → IsConsistent cfg w Made jobs s
      → Picks jobs (run_cell j o (record s { queue = rest }))
  unfolding run_cell
  run_cell-Picks jobs rest j s none e g q v =
      skipped jobs rest j s q
        (λ k.
          TrackedAt-skip_missing s.generation rest jobs j k (lookup k s.cells)
            (λ same. subst (λ i. lookup i s.cells ≡ none) (prod_beq_sound j.1 k same) e))
        v
  run_cell-Picks jobs rest j s (some c) e g q v = record {
    sound = record {
      samples = record {
        counted =
            insert-holds (λ i o. CountedAt (references i (outline s.slots)) o) j.1 _ s.cells
              (subst (CountedAt (references j.1 (outline s.slots))) e (v.sound.samples.counted j.1))
              (λ i _. v.sound.samples.counted i);
        genuine =
            insert-holds (GenuineAt cfg w Made) j.1 _ s.cells tt (λ i _. v.sound.samples.genuine i);
        tracked =
            insert-holds (TrackedAt s.generation rest (jobs ++ j ∷ [])) j.1 _ s.cells
              (rw (includes-append (s.generation, j.1) jobs (j ∷ []), ← g, eq_self j) (or_true _))
              (λ i apart.
                TrackedAt-pick s.generation rest jobs j i (lookup i s.cells)
                  (rw apart (and_false _))
                  (subst (λ queue. TrackedAt s.generation queue jobs i (lookup i s.cells)) q
                    (v.sound.samples.tracked i)));
        kept = v.sound.samples.kept;
        listed = (subst (All (IsMembers cfg)) q v.sound.samples.listed).1;
        staff =
            All-last (IsMembers cfg) jobs j v.sound.samples.staff
              (subst (All (IsMembers cfg)) q v.sound.samples.listed).0;
      };
      window = record {
        lined = v.sound.window.lined;
        narrow = v.sound.window.narrow;
        ranged = v.sound.window.ranged;
        previous = v.sound.window.previous;
      };
    };
    headed = v.headed;
    busy = omega (arith, v.busy, length-append {0} jobs (j ∷ []));
    staffed = v.staffed;
  }

  pick_from-Picks :
      (jobs queue : List Job) (s : State T)
      → s.queue ≡ queue
      → IsConsistent cfg w Made jobs s
      → Picks jobs (pick_from queue s)
  unfolding pick_from
  pick_from-Picks jobs [] s q v = v
  pick_from-Picks jobs (j ∷ rest) s q v = elim (Bool-cases (j.0 == s.generation)) [
    | inl same ↦
        rw same (run_cell-Picks jobs rest j s (lookup j.1 s.cells) refl (==→eq _ _ same) q v)
    | inr stale ↦ rw stale (
        skipped jobs rest j s q
          (λ k. TrackedAt-skip s.generation rest jobs j k (lookup k s.cells) (rw stale)) v)
  ]

  pub pick-Picks :
      (jobs : List Job) (s : State T) → IsConsistent cfg w Made jobs s → Picks jobs (pick s)
  unfolding pick
  pick-Picks jobs s v =
      elim s.shutdown as (λ b. Picks jobs (if b then (stops, s) else pick_from s.queue s)) [
        | true ↦ v
        | false ↦ pick_from-Picks jobs s.queue s refl v
      ]
