-- ===== src/Prefetch/Invariant/Whole.antt =====
-- prefetch.rs: `settle` and `admit` return from a sound state, in a sound state.
use earth_sci_io.Exec.{option_then}
use earth_sci_io.Prefetch.WarmUp.{warm_epochs, warm_members, warm_queued, warm_up, warmed}
use earth_sci_io.Prefetch.Admit.{admit}
use earth_sci_io.Prefetch.Invariant.Loop.{Admits, admit_loop-Admits}
use earth_sci_io.Prelude.{
  All, All-drop, All-take, Bool-cases, List, Option, Text, [], ap, arith, drop, false, inl, inr,
  length, list_eq, ltb, lt→ltb, max, min, prod_eq, refl, some, sym, take, ℕ, ℕ_eq, ◌+◌, ◌-◌, ◌<◌,
  ◌∷◌, ◌≡◌,
}
use earth_sci_io.Prefetch.State.{Config, FileRef, State, any_failed, is_active}
use earth_sci_io.Prefetch.Settle.{peak, settle}
use earth_sci_io.Prefetch.Worker.{Job, Produce, Wording}
use earth_sci_io.Prefetch.Invariant.{IsSound, Samples, outline, references}
use earth_sci_io.Prefetch.Invariant.Cells.{Samples-count}
use earth_sci_io.Prefetch.Invariant.Slots.{
  LiveSlots, any_slot_failed-Live, live_slots, settle_slots-Live,
}
use earth_sci_io.Prefetch.Invariant.Frame.{Extends, Extends-refl, Extends-trans}

-- The entry that `take` returns next has its slot, if the order has one more entry.
abbrev pub IsHeaded : {T : Type 0} → Config → State T → Type 0
IsHeaded cfg s = 0 < cfg.depth → s.next < length s.order → s.next < s.admitted

module _ {T : Type 0} (cfg : Config) (w : Wording) (Made : ℕ → ℕ → Produce T → Type 0)
    (jobs : List Job) where
  -- What `settle` and the warm-up come to: they return, and the window stays.
  pub record Settles (s : State T) (r : Option (State T)) : Type 0 where
    pub state : State T
    pub result : r ≡ some state
    pub sound : IsSound cfg w Made jobs state
    pub extends : Extends s state
    pub same : state.admitted ≡ s.admitted

  live : {s : State T} → IsSound cfg w Made jobs s → LiveSlots s.cells (outline s.slots)
  live {s} v = live_slots s.cells (outline s.slots) v.samples.counted

  pub settle-Settles : (s : State T) → IsSound cfg w Made jobs s → Settles s (settle cfg s)
  unfolding settle
  settle-Settles s v =
      let r = settle_slots-Live cfg s.cells s.slots s.stats (live v) in
      let u : State T = record s { slots = r.0.0; stats = peak s.cells r.0.1 } in
      let samples : Samples cfg w Made (λ k. references k (outline s.slots)) jobs u = record {
        counted = v.samples.counted;
        genuine = v.samples.genuine;
        tracked = v.samples.tracked;
        kept = v.samples.kept;
        listed = v.samples.listed;
        staff = v.samples.staff;
      } in
      record {
        state = u;
        result = rw r.1;
        sound = record {
          samples = Samples-count (λ k. ap (references k) (sym r.2)) samples;
          window = record {
            lined = rw r.2 v.window.lined;
            narrow = v.window.narrow;
            ranged = v.window.ranged;
            previous = v.window.previous;
          };
        };
        extends = record {
          phase = refl;
          generation = refl;
          order = refl;
          shutdown = refl;
          running = refl;
          next = refl;
          admitted = omega arith;
        };
        same = refl;
      }

  warm_epochs-some :
      (generation : ℕ) (epochs : List ℕ) (q : List (ℕ × ℕ × FileRef) × List (ℕ × Text))
      → All (λ e. e < length cfg.boundaries) epochs
      → (r : List (ℕ × ℕ × FileRef) × List (ℕ × Text)) × (warm_epochs cfg generation epochs q
          ≡ some r)
  unfolding warm_epochs
  warm_epochs-some generation [] q h = (q, refl)
  warm_epochs-some generation (epoch ∷ epochs) q h =
      let r =
        warm_epochs-some generation epochs (warm_members cfg generation epoch 0 cfg.members q)
          h.1 in
      (r.0, rw (lt→ltb epoch (length cfg.boundaries) h.0) r.1)

  warm_queued-some :
      (s : State T)
      → All (λ e. e < length cfg.boundaries) s.order
      → (end : ℕ) × (q : List (ℕ × ℕ × FileRef) × List (ℕ × Text)) × (warm_queued cfg s
          ≡ some (warmed end s q))
  unfolding warm_queued
  warm_queued-some s h =
      let end : ℕ = min (s.admitted + cfg.fetch_ahead) (length s.order) in
      let start : ℕ = max s.fetch_end s.admitted in
      let r =
        warm_epochs-some s.generation (take (end - start) (drop start s.order))
          (s.fetch_queue, s.fetched)
          (All-take _ (end - start) (drop start s.order) (All-drop _ start s.order h)) in
      (end, r.0, ap (λ o. option_then o (λ q. some (warmed end s q))) r.1)

  warmed-IsSound :
      (end : ℕ) (s : State T) (q : List (ℕ × ℕ × FileRef) × List (ℕ × Text))
      → IsSound cfg w Made jobs s
      → IsSound cfg w Made jobs (warmed end s q)
  unfolding warmed
  warmed-IsSound end s q v = record {
    samples = record {
      counted = v.samples.counted;
      genuine = v.samples.genuine;
      tracked = v.samples.tracked;
      kept = v.samples.kept;
      listed = v.samples.listed;
      staff = v.samples.staff;
    };
    window = record {
      lined = v.window.lined;
      narrow = v.window.narrow;
      ranged = v.window.ranged;
      previous = v.window.previous;
    };
  }

  warmed-Extends :
      (end : ℕ) (s : State T) (q : List (ℕ × ℕ × FileRef) × List (ℕ × Text))
      → Extends s (warmed end s q)
  unfolding warmed
  warmed-Extends end s q = record {
    phase = refl;
    generation = refl;
    order = refl;
    shutdown = refl;
    running = refl;
    next = refl;
    admitted = omega arith;
  }

  same_state :
      {s : State T} {r : Option (State T)} → IsSound cfg w Made jobs s → r ≡ some s → Settles s r
  same_state {s} v e = record {
    state = s;
    result = e;
    sound = v;
    extends = Extends-refl s;
    same = refl;
  }

  warm_up-Settles : (s : State T) → IsSound cfg w Made jobs s → Settles s (warm_up cfg s)
  unfolding warm_up any_failed
  warm_up-Settles s v = elim (Bool-cases (ltb 0 cfg.fetch_ahead)) [
    | inr off ↦ same_state v (rw off)
    | inl on ↦
        let failing = any_slot_failed-Live s.cells s.slots (live v) in
        elim (Bool-cases failing.0) [
          | inl bad ↦ same_state v (rw (on, failing.1, bad))
          | inr well ↦
              let (end, q, e) = warm_queued-some s v.window.ranged in
              record {
                state = warmed end s q;
                result = rw (on, failing.1, well) e;
                sound = warmed-IsSound end s q v;
                extends = warmed-Extends end s q;
                same = unfold warmed in refl;
              }
        ]
  ]

  -- `admit` returns from a sound state, in one that is sound and has the head's slot.
  pub admit-Admits :
      (s : State T)
      → IsSound cfg w Made jobs s
      → (is_active s.phase ≡ false → IsHeaded cfg s)
      → Admits cfg w Made jobs s (admit cfg s)
  unfolding admit
  admit-Admits s v h = elim (Bool-cases (is_active s.phase)) [
    | inr still ↦ record {
      state = s;
      result = rw still;
      sound = v;
      extends = Extends-refl s;
      headed = h still;
    }
    | inl going ↦
        let a = admit_loop-Admits cfg w Made jobs (drop s.admitted s.order) s refl v in
        let b = settle-Settles a.state a.sound in
        let c = warm_up-Settles b.state b.sound in
        record {
          state = c.state;
          result = rw (going, a.result, b.result) c.result;
          sound = c.sound;
          extends = Extends-trans a.extends (Extends-trans b.extends c.extends);
          headed = λ d n. rw (c.same, b.same) (a.headed d n);
        }
  ]
