-- ===== src/Prefetch/Invariant/Outcomes.antt =====
-- prefetch.rs: the end of a decode keeps the shared state consistent.
use earth_sci_io.Error.{Error}
use earth_sci_io.Prefetch.Invariant.Rounds.{TrackedAt-finish}
use earth_sci_io.Prelude.{
  All-without, Bool-cases, List, Option, and_false, ap, arith, eq, get_elem?, get_elem?-some, inl,
  inr, insert, insert-holds, length, length-append, list_eq, lookup, lt→ltb, none, prod_beq_sound,
  prod_eq, refl, some, subst, suc, sym, true, zero, ℕ, ℕ_eq, ◌++◌, ◌-◌, ◌<◌, ◌==◌, ◌∙◌, ◌∷◌, ◌≡◌,
}
use earth_sci_io.Exec.{Result, err, option_then}
use earth_sci_io.Prefetch.State.{
  Cell, CellKey, CellStatus, Config, PrefetchStats, State, finished, is_closed, queued, ready,
  running,
}
use earth_sci_io.Prefetch.Settle.{settle}
use earth_sci_io.Prefetch.Admit.{admit}
use earth_sci_io.Exec.Inversion.{option_then-some, some-injective}
use earth_sci_io.Prefetch.Worker.{
  Job, Produce, Wording, caught, conclude, fewer, finish, finish_at, finish_live, panic_err,
  panicked, produced, refused, sized, store,
}
use earth_sci_io.Prefetch.Invariant.{
  CountedAt, GenuineAt, GenuineStatus, IsMembers, TrackedAt, TrackedStatus, outline, references,
}
use earth_sci_io.Prefetch.Invariant.Whole.{admit-Admits, settle-Settles}
use earth_sci_io.Prefetch.Invariant.Calls.{IsConsistent}

module _ {T : Type 0} where
  finished-TrackedStatus :
      (g : ℕ) (queue jobs : List Job) (k : CellKey) (st : CellStatus T)
      → finished st ≡ true
      → TrackedStatus g queue jobs k st
  finished-TrackedStatus g queue jobs k (ready d b) h = tt
  finished-TrackedStatus g queue jobs k (CellStatus.failed e) h = tt
  finished-TrackedStatus g queue jobs k queued h = cc
  finished-TrackedStatus g queue jobs k running h = cc

  -- Where the job's sample has no cell, no cell waits for it.
  TrackedAt-finish_missing :
      (g : ℕ) (queue before after : List Job) (j : Job) (cells : List (CellKey × Cell T))
      (k : CellKey)
      → lookup j.1 cells ≡ none
      → TrackedAt g queue (before ++ j ∷ after) k (lookup k cells)
      → TrackedAt g queue (before ++ after) k (lookup k cells)
  TrackedAt-finish_missing g queue before after j cells k e h = elim (Bool-cases (eq j.1 k)) [
    | inr apart ↦
        TrackedAt-finish g queue before after j k (lookup k cells) (rw apart (and_false _)) h
    | inl same ↦ rw (← prod_beq_sound j.1 k same, e) tt
  ]

module _ {T : Type 0} (cfg : Config) (w : Wording) (Made : ℕ → ℕ → Produce T → Type 0)
    (before after : List Job) where
  -- `finish` returns, and the job that ends runs no more.
  pub record Finishes (r : Option (State T)) : Type 0 where
    pub state : State T
    pub result : r ≡ some state
    pub consistent : IsConsistent cfg w Made (before ++ after) state

  -- One decode less runs; the samples are tracked without the job.
  ended :
      (j : Job) (s : State T)
      → ((k : CellKey) → TrackedAt s.generation s.queue (before ++ after) k (lookup k s.cells))
      → IsConsistent cfg w Made (before ++ j ∷ after) s
      → IsConsistent cfg w Made (before ++ after) (record s { running = s.running - 1 })
  ended j s f v = record {
    sound = record {
      samples = record {
        counted = v.sound.samples.counted;
        genuine = v.sound.samples.genuine;
        tracked = f;
        kept = v.sound.samples.kept;
        listed = v.sound.samples.listed;
        staff = (All-without (IsMembers cfg) before j after v.sound.samples.staff).1;
      };
      window = record {
        lined = v.sound.window.lined;
        narrow = v.sound.window.narrow;
        ranged = v.sound.window.ranged;
        previous = v.sound.window.previous;
      };
    };
    headed = v.headed;
    busy =
        omega (arith, v.busy, length-append {0} before (j ∷ after), length-append {0} before after);
    staffed = v.staffed;
  }

  -- The outcome is stored, and then the state is settled and admits.
  settled :
      (s : State T)
      → IsConsistent cfg w Made (before ++ after) s
      → Finishes (option_then (settle cfg s) (admit cfg))
  settled s v =
      let a = settle-Settles cfg w Made (before ++ after) s v.sound in
      let b =
        admit-Admits cfg w Made (before ++ after) a.state a.sound
          (λ _. rw (a.extends.next, a.extends.order, a.same) v.headed) in
      record {
        state = b.state;
        result = rw a.result b.result;
        consistent = record {
          sound = b.sound;
          headed = rw (b.extends.next, b.extends.order) b.headed;
          busy = b.extends.running ∙ (a.extends.running ∙ v.busy);
          staffed = λ h.
              b.extends.shutdown
              ∙ (a.extends.shutdown
                  ∙ v.staffed (sym (ap is_closed (b.extends.phase ∙ a.extends.phase)) ∙ h));
        };
      }

  -- A cell takes a status that asks for no job.
  written :
      (j : Job) (c : Cell T) (st : CellStatus T) (s : State T) (last_size : ℕ → Option ℕ)
      (stats : PrefetchStats)
      → finished st ≡ true
      → GenuineStatus cfg w Made j.1 st
      → lookup j.1 s.cells ≡ some c
      → IsConsistent cfg w Made (before ++ j ∷ after) s
      → IsConsistent cfg w Made (before ++ after) (record s {
        cells = insert j.1 (record c { status = st }) s.cells;
        last_size = last_size;
        stats = stats;
        running = s.running - 1;
      })
  written j c st s last_size stats done made e v = record {
    sound = record {
      samples = record {
        counted =
            insert-holds (λ i o. CountedAt (references i (outline s.slots)) o) j.1 _ s.cells
              (subst (CountedAt (references j.1 (outline s.slots))) e (v.sound.samples.counted j.1))
              (λ i _. v.sound.samples.counted i);
        genuine =
            insert-holds (GenuineAt cfg w Made) j.1 _ s.cells made
              (λ i _. v.sound.samples.genuine i);
        tracked =
            insert-holds (TrackedAt s.generation s.queue (before ++ after)) j.1 _ s.cells
              (finished-TrackedStatus s.generation s.queue (before ++ after) j.1 st done)
              (λ i apart.
                TrackedAt-finish s.generation s.queue before after j i (lookup i s.cells)
                  (rw apart (and_false _)) (v.sound.samples.tracked i));
        kept = v.sound.samples.kept;
        listed = v.sound.samples.listed;
        staff = (All-without (IsMembers cfg) before j after v.sound.samples.staff).1;
      };
      window = record {
        lined = v.sound.window.lined;
        narrow = v.sound.window.narrow;
        ranged = v.sound.window.ranged;
        previous = v.sound.window.previous;
      };
    };
    headed = v.headed;
    busy =
        omega (arith, v.busy, length-append {0} before (j ∷ after), length-append {0} before after);
    staffed = v.staffed;
  }

  -- The cell of the job takes its outcome.
  Stores : CellKey → Cell T → Result Error (T × ℕ) → State T → Type 0
  Stores k c outcome s =
      (t : State T) × (store cfg k c outcome s ≡ some t)
      × IsConsistent cfg w Made (before ++ after) t

  stored_outcome :
      (j : Job) (c : Cell T) (p : Produce T) (outcome : Result Error (T × ℕ)) (s : State T)
      → Made j.1.0 j.1.1 p
      → caught w cfg j.1 p ≡ some outcome
      → lookup j.1 s.cells ≡ some c
      → IsConsistent cfg w Made (before ++ j ∷ after) s
      → Stores j.1 c outcome (record s { running = s.running - 1 })
  unfolding Stores store sized caught
  stored_outcome j c (produced d bytes) outcome s made o e v =
      let known = (All-without (IsMembers cfg) before j after v.sound.samples.staff).0 in
      rw (← some-injective o, lt→ltb j.1.0 (length cfg.members) known)
        (_, refl, written j c (ready d bytes) s _ _ refl made e v)
  stored_outcome j c (refused x) outcome s made o e v =
      rw (← some-injective o)
        (_, refl, written j c (CellStatus.failed (some x)) s _ _ refl (refused x, made, refl) e v)
  stored_outcome j c (panicked text) outcome s made o e v =
      let (key, found, h) =
        option_then-some (get_elem? cfg.members j.1.0)
          (λ key. some (err (panic_err w key j.1.1 text))) o in
      rw (← some-injective h)
        (_, refl, written j c _ s _ _ refl (panicked text, made, o ∙ sym h) e v)

  finish_at-Finishes :
      (j : Job) (o : Option (Cell T)) (p : Produce T) (outcome : Result Error (T × ℕ)) (s : State T)
      → Made j.1.0 j.1.1 p
      → caught w cfg j.1 p ≡ some outcome
      → lookup j.1 s.cells ≡ o
      → IsConsistent cfg w Made (before ++ j ∷ after) s
      → Finishes (finish_at cfg j.1 o outcome (record s { running = s.running - 1 }))
  unfolding finish_at Stores
  finish_at-Finishes j none p outcome s made x e v = record {
    state = record s { running = s.running - 1 };
    result = refl;
    consistent =
        ended j s
          (λ k.
            TrackedAt-finish_missing s.generation s.queue before after j s.cells k e
              (v.sound.samples.tracked k))
          v;
  }
  finish_at-Finishes j (some c) p outcome s made x e v =
      let (t, stored, held) = stored_outcome j c p outcome s made x e v in
      rw stored (settled t held)

  finish_live-Finishes :
      (j : Job) (p : Produce T) (outcome : Result Error (T × ℕ)) (s : State T)
      → Made j.1.0 j.1.1 p
      → caught w cfg j.1 p ≡ some outcome
      → IsConsistent cfg w Made (before ++ j ∷ after) s
      → Finishes (finish_live cfg j outcome (record s { running = s.running - 1 }))
  unfolding finish_live
  finish_live-Finishes j p outcome s made x v = elim (Bool-cases (j.0 == s.generation)) [
    | inl same ↦ rw same (finish_at-Finishes j (lookup j.1 s.cells) p outcome s made x refl v)
    | inr stale ↦ rw stale (record {
      state = record s { running = s.running - 1 };
      result = refl;
      consistent =
          ended j s
            (λ k.
              TrackedAt-finish s.generation s.queue before after j k (lookup k s.cells) (rw stale)
                (v.sound.samples.tracked k))
            v;
    })
  ]

  fewer-some : (n : ℕ) → 0 < n → fewer n ≡ some (n - 1)
  unfolding fewer
  fewer-some zero h = absurd (omega arith)
  fewer-some (suc n) h = ap some (omega arith)

  caught-some :
      (j : Job) (p : Produce T)
      → j.1.0 < length cfg.members
      → (outcome : Result Error (T × ℕ)) × (caught w cfg j.1 p ≡ some outcome)
  unfolding caught
  caught-some j (produced d bytes) h = (_, refl)
  caught-some j (refused e) h = (_, refl)
  caught-some j (panicked text) h =
      let (key, e) = get_elem?-some cfg.members j.1.0 h in
      (_, ap (λ o. option_then o (λ key. some (err (panic_err w key j.1.1 text)))) e)

  pub conclude-Finishes :
      (j : Job) (p : Produce T) (s : State T)
      → Made j.1.0 j.1.1 p
      → IsConsistent cfg w Made (before ++ j ∷ after) s
      → Finishes (conclude w cfg j p s)
  unfolding conclude finish
  conclude-Finishes j p s made v =
      let known = (All-without (IsMembers cfg) before j after v.sound.samples.staff).0 in
      let (outcome, x) = caught-some j p known in
      let one : 0 < s.running = omega (arith, v.busy, length-append {0} before (j ∷ after)) in
      rw (x, fewer-some s.running one) (finish_live-Finishes j p outcome s made x v)
