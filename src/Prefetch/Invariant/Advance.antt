-- ===== src/Prefetch/Invariant/Advance.antt =====
-- prefetch.rs: `take` from its head slot on.
use earth_sci_io.Prelude.{
  All, List, Option, ap, arith, false, get_elem?, includes, inl, inr, length, list_eq, lookup, none,
  occurrences, prod_eq, refl, some, subst, suc, sym, true, ℕ, ℕ_eq, ◌+◌, ◌<◌, ◌∙◌, ◌∷◌, ◌≡◌, ◌≤◌,
  ◌⊎◌,
}
use earth_sci_io.Exec.{err}
use earth_sci_io.Error.{Error}
use earth_sci_io.Prefetch.State.{
  Cell, CellKey, CellStatus, Config, Phase, Slot, State, all_at, end_order, finished, is_active,
  is_closed, is_failed, queued, ready, running,
}
use earth_sci_io.Prefetch.Admit.{keys_of}
use earth_sci_io.Prefetch.Group.{Outcome, after, blocks, panics, raises, returns}
use earth_sci_io.Prefetch.Take.{
  EpochSample, advanced, by_failure, find_failed, give_all, or_default, stored,
}
use earth_sci_io.Prefetch.Worker.{Job, Produce, Wording, caught}
use earth_sci_io.Prefetch.Invariant.{
  GenuineAt, GenuineStatus, IsSound, Lined, Samples, TrackedStatus, outline, preceding, references,
}
use earth_sci_io.Prefetch.Invariant.Cells.{Samples-count}
use earth_sci_io.Prefetch.Invariant.Slots.{LiveKeys}
use earth_sci_io.Prefetch.Invariant.Give.{ReadyAt}
use earth_sci_io.Prefetch.Invariant.Whole.{admit-Admits}
use earth_sci_io.Prefetch.Invariant.Calls.{IsConsistent, end_order-IsConsistent}
use earth_sci_io.Prefetch.Invariant.Handover.{Delivered}
use earth_sci_io.Prefetch.Invariant.Epoch.{give_all-Handed}
use earth_sci_io.Prefetch.Invariant.Head.{find_failed-Live, first_failed, head_ready}
use native.Mathlib.Numerals.{add-one}

is_active_open : (p : Phase) → is_active p ≡ true → is_closed p ≡ false
is_active_open Phase.active h = refl
is_active_open Phase.idle h = cc
is_active_open Phase.cancelled h = cc
is_active_open (Phase.failed k) h = cc
is_active_open Phase.closed h = cc

module _ {T : Type 0} (cfg : Config) (w : Wording) (Made : ℕ → ℕ → Produce T → Type 0)
    (jobs : List Job) where
  -- The error is what a member's decode at its anchor of the epoch came to.
  abbrev pub Raised : (k : ℕ) → Error → Type 0
  Raised k e =
      (key : CellKey) × (includes key (keys_of cfg k) ≡ true)
      × (p : Produce T) × Made key.0 key.1 p
      × (caught w cfg key p ≡ some (err e))

  -- A sample of the epoch waits for a worker, or is with one.
  abbrev pub Pending : State T → (k : ℕ) → Type 0
  Pending s k =
      (key : CellKey) × (includes key (keys_of cfg k) ≡ true)
      × ((includes (s.generation, key) s.queue ≡ true) ⊎ (includes (s.generation, key) jobs ≡ true))

  -- What the answer of `take(k)` in `s` says.
  abbrev pub Faithful : State T → (k : ℕ) → Outcome (EpochSample T) × State T → Type 0
  Faithful s k (returns ep, t) =
      (ep.epoch ≡ k)
      × (get_elem? s.order s.next ≡ some k)
      × Delivered cfg Made (λ i. preceding cfg i s.order s.next) k 0 cfg.members ep.samples
      × (t.next ≡ s.next + 1)
      × (t.order ≡ s.order)
  Faithful s k (raises e, t) =
      is_active s.phase ≡ true → get_elem? s.order s.next ≡ some k → Raised k e
  Faithful s k (blocks, t) = Pending s k
  Faithful s k (panics, t) = ⊥

  pub record Takes (s : State T) (k : ℕ) (r : Outcome (EpochSample T) × State T) : Type 0 where
    pub consistent : IsConsistent cfg w Made jobs r.1
    pub faithful : Faithful s k r

  Raised-by :
      (k : ℕ) (bad : CellKey) (c : Cell T) (st : CellStatus T) (o : Option (Cell T))
      → includes bad (keys_of cfg k) ≡ true
      → o ≡ some c
      → c.status ≡ st
      → is_failed st ≡ true
      → GenuineStatus cfg w Made bad st
      → Raised k (or_default k (stored o))
  unfolding stored or_default
  Raised-by k bad c (CellStatus.failed (some e)) o i x h f (p, m, q) = rw (x, h) (bad, i, p, m, q)
  Raised-by k bad c (CellStatus.failed none) o i x h f g = elim g [ ]
  Raised-by k bad c (ready d b) o i x h f g = cc
  Raised-by k bad c queued o i x h f g = cc
  Raised-by k bad c running o i x h f g = cc

  pub Pending-at :
      (s : State T) (k : ℕ) (key : CellKey) (st : CellStatus T)
      → includes key (keys_of cfg k) ≡ true
      → finished st ≡ false
      → TrackedStatus s.generation s.queue jobs key st
      → Pending s k
  Pending-at s k key queued i h t = (key, i, inl t)
  Pending-at s k key running i h t = (key, i, inr t)
  Pending-at s k key (ready d b) i h t = cc
  Pending-at s k key (CellStatus.failed e) i h t = cc

  -- The state after the hand-over, with the position moved on.
  advanced-IsSound :
      (u : State T)
      → Lined cfg u.order (suc u.next) u.admitted (outline u.slots)
      → u.admitted ≤ u.next + cfg.depth
      → All (λ e. e < length cfg.boundaries) u.order
      → ((i : ℕ) → i < length cfg.members → u.prev_anchor i ≡ preceding cfg i u.order (suc u.next))
      → Samples cfg w Made (λ j. references j (outline u.slots)) jobs u
      → IsSound cfg w Made jobs (record u { next = u.next + 1 })
  advanced-IsSound u l n inside p v = record {
    samples = record {
      counted = v.counted;
      genuine = v.genuine;
      tracked = v.tracked;
      kept = v.kept;
      listed = v.listed;
      staff = v.staff;
    };
    window = record {
      lined = rw add-one l;
      narrow = omega arith;
      ranged = inside;
      previous = rw add-one p;
    };
  }

  -- The head, popped: `rest` are the slots behind it, and every sample of the head is ready.
  advanced-Takes :
      (s : State T) (k : ℕ) (rest : List Slot)
      → is_active s.phase ≡ true
      → IsConsistent cfg w Made jobs s
      → get_elem? s.order s.next ≡ some k
      → Lined cfg s.order (suc s.next) s.admitted (outline rest)
      → ((j : CellKey)
          → references j (outline s.slots)
            ≡ references j (outline rest) + occurrences j (keys_of cfg k))
      → ((j : CellKey) → ReadyAt (occurrences j (keys_of cfg k)) (lookup j s.cells))
      → Takes s k (
          advanced cfg k
            (give_all 0 (keys_of cfg k) cfg.members (record s { slots = rest }))
            (record s { slots = rest }))
  unfolding advanced after keys_of
  advanced-Takes s k rest act v e l count usable =
      let popped : State T = record s { slots = rest } in
      let base : CellKey → ℕ = λ j. references j (outline rest) in
      let held : Samples cfg w Made (λ j. references j (outline s.slots)) jobs popped = record {
        counted = v.sound.samples.counted;
        genuine = v.sound.samples.genuine;
        tracked = v.sound.samples.tracked;
        kept = v.sound.samples.kept;
        listed = v.sound.samples.listed;
        staff = v.sound.samples.staff;
      } in
      let h =
        give_all-Handed cfg w Made jobs (λ i. preceding cfg i s.order s.next) k cfg.members 0 base
          popped (λ j _ h. v.sound.window.previous j (omega arith)) usable
          (Samples-count count held) in
      let t = h.state in
      let a = h.adds in
      let sound =
        advanced-IsSound t (rw (a.order, a.next, a.admitted, a.slots) l)
          (omega (arith, a.next, a.admitted, v.sound.window.narrow))
          (rw a.order v.sound.window.ranged)
          (λ i inside. h.handed i (omega arith) (omega arith) ∙ rw (a.order, a.next, e) refl)
          (Samples-count (λ j. rw a.slots) h.samples) in
      let r =
        admit-Admits cfg w Made jobs (record t { next = t.next + 1 }) sound
          (λ still.
            let f : false ≡ true = sym still ∙ (ap is_active a.phase ∙ act) in absurd (cc f)) in
      rw (h.result, r.result)
        (record {
          consistent = record {
            sound = r.sound;
            headed = rw (r.extends.next, r.extends.order) r.headed;
            busy = r.extends.running ∙ (a.running ∙ v.busy);
            staffed =
                λ _. r.extends.shutdown ∙ (a.shutdown ∙ v.staffed (is_active_open s.phase act));
          };
          faithful = (
            refl,
            e,
            h.delivered,
            r.extends.next ∙ ap (λ n. n + 1) a.next,
            r.extends.order ∙ a.order,
          );
        })

  failed-Takes :
      (s : State T) (k : ℕ) (rest : List Slot) (bad : CellKey)
      → is_active s.phase ≡ true
      → IsConsistent cfg w Made jobs s
      → Raised k (or_default k (stored (lookup bad s.cells)))
      → Takes s k (by_failure cfg k (keys_of cfg k) (some (some bad)) (record s { slots = rest }))
  unfolding by_failure
  failed-Takes s k rest bad act v r = record {
    consistent =
        let c =
          end_order-IsConsistent cfg w Made jobs (Phase.failed k) s (is_active_open s.phase act)
            v in
        unfold end_order in
        record {
          sound = record {
            samples = record {
              counted = c.sound.samples.counted;
              genuine = c.sound.samples.genuine;
              tracked = c.sound.samples.tracked;
              kept = c.sound.samples.kept;
              listed = c.sound.samples.listed;
              staff = c.sound.samples.staff;
            };
            window = record {
              lined = c.sound.window.lined;
              narrow = c.sound.window.narrow;
              ranged = c.sound.window.ranged;
              previous = c.sound.window.previous;
            };
          };
          headed = c.headed;
          busy = c.busy;
          staffed = c.staffed;
        };
    faithful = λ _ _. r;
  }

  popped_by :
      (s : State T) (k : ℕ) (at : ℕ) (rest : List Slot) (o : Option CellKey)
      → find_failed s.cells (keys_of cfg k) ≡ some o
      → is_active s.phase ≡ true
      → IsConsistent cfg w Made jobs s
      → get_elem? s.order s.next ≡ some k
      → outline s.slots ≡ (at, keys_of cfg k) ∷ outline rest
      → Lined cfg s.order (suc s.next) s.admitted (outline rest)
      → LiveKeys s.cells (keys_of cfg k)
      → all_at finished s.cells (keys_of cfg k) ≡ some true
      → Takes s k (by_failure cfg k (keys_of cfg k) (some o) (record s { slots = rest }))
  popped_by s k at rest none f act v e out l live done =
      unfold by_failure in
      advanced-Takes s k rest act v e l (λ j. rw out (omega arith))
        (head_ready s.cells (keys_of cfg k) live done f)
  popped_by s k at rest (some bad) f act v e out l live done =
      let x = first_failed s.cells (keys_of cfg k) bad live f in
      failed-Takes s k rest bad act v (
        Raised-by k bad x.0 x.0.status (lookup bad s.cells) x.1 x.2 refl x.3
          (subst (GenuineAt cfg w Made bad) x.2 (v.sound.samples.genuine bad)))

  -- The head slot, with `rest` behind it.
  pub popped-Takes :
      (s : State T) (k : ℕ) (at : ℕ) (rest : List Slot)
      → is_active s.phase ≡ true
      → IsConsistent cfg w Made jobs s
      → get_elem? s.order s.next ≡ some k
      → outline s.slots ≡ (at, keys_of cfg k) ∷ outline rest
      → Lined cfg s.order (suc s.next) s.admitted (outline rest)
      → LiveKeys s.cells (keys_of cfg k)
      → all_at finished s.cells (keys_of cfg k) ≡ some true
      → Takes s k (
          by_failure cfg k
            (keys_of cfg k)
            (find_failed s.cells (keys_of cfg k))
            (record s { slots = rest }))
  popped-Takes s k at rest act v e out l live done =
      let x = find_failed-Live s.cells (keys_of cfg k) live in
      rw x.1 (popped_by s k at rest x.0 x.1 act v e out l live done)

  pub same-Takes :
      (s : State T) (k : ℕ) (o : Outcome (EpochSample T))
      → IsConsistent cfg w Made jobs s
      → Faithful s k (o, s)
      → Takes s k (o, s)
  same-Takes s k o v f = record { consistent = v; faithful = f }
