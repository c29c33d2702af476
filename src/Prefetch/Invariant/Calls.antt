-- ===== src/Prefetch/Invariant/Calls.antt =====
-- prefetch.rs: `start`, `cancel` and `close` keep the shared state consistent.
use earth_sci_io.Prelude.{
  All, Bool-cases, List, Option, [], arith, false, inl, inr, length, list_eq, prod_eq, refl, true,
  ℕ, ℕ_eq, ◌<◌, ◌∙◌, ◌≡◌, ◌≢◌,
}
use earth_sci_io.Exec.{Result, err, ok}
use earth_sci_io.Error.{Error}
use earth_sci_io.Prefetch.State.{Config, Phase, State, end_order, is_active, is_closed}
use earth_sci_io.Prefetch.Admit.{admit}
use earth_sci_io.Prefetch.Group.{
  Order, Outcome, after, begin, cancel, cancel_if, close_if, close_order, closed_err, declared,
  panics, raises, start, start_with,
}
use earth_sci_io.Prefetch.Invariant.Keys.{declared-Below}
use earth_sci_io.Prefetch.Worker.{Job, Produce, Wording}
use earth_sci_io.Prefetch.Invariant.{IsSound}
use earth_sci_io.Prefetch.Invariant.Whole.{IsHeaded, admit-Admits}

module _ {T : Type 0} (cfg : Config) (w : Wording) (Made : ℕ → ℕ → Produce T → Type 0)
    (jobs : List Job) where
  -- Between two holds of the lock: `jobs` are the decodes that run.
  pub record IsConsistent (s : State T) : Type 0 where
    pub sound : IsSound cfg w Made jobs s
    pub headed : IsHeaded cfg s
    pub busy : s.running ≡ length jobs
    -- the workers stop only where the group is closed
    pub staffed : is_closed s.phase ≡ false → s.shutdown ≡ false

  -- What a call comes to: it does not panic, and it leaves the state consistent.
  pub record Answers {A : Type 0} (r : Outcome A × State T) : Type 0 where
    pub unbroken : r.0 ≢ panics
    pub consistent : IsConsistent r.1

  declared-IsSound :
      (phase : Phase) (seq : List ℕ) (s : State T)
      → All (λ e. e < length cfg.boundaries) seq
      → IsSound cfg w Made jobs s
      → IsSound cfg w Made jobs (record (end_order phase s) { order = seq })
  unfolding end_order
  declared-IsSound phase seq s inside v = record {
    samples = record {
      counted = λ k. refl;
      genuine = λ k. tt;
      tracked = λ k. tt;
      kept = v.samples.kept;
      listed = tt;
      staff = v.samples.staff;
    };
    window = record { lined = refl; narrow = omega arith; ranged = inside; previous = λ i _. refl };
  }

  pub end_order-IsConsistent :
      (phase : Phase) (s : State T)
      → is_closed s.phase ≡ false
      → IsConsistent s
      → IsConsistent (end_order phase s)
  end_order-IsConsistent phase s c v = record {
    sound = unfold end_order in declared-IsSound phase [] s tt v.sound;
    headed = unfold end_order in λ d h. absurd (omega arith);
    busy = unfold end_order in v.busy;
    staffed = unfold end_order in λ _. v.staffed c;
  }

  -- A call that ends in `admit`.
  pub after-Answers :
      {A : Type 0} (a : A) (s t : State T)
      → IsSound cfg w Made jobs t
      → (is_active t.phase ≡ false → IsHeaded cfg t)
      → t.running ≡ length jobs
      → t.shutdown ≡ false
      → Answers (after a s (admit cfg t))
  unfolding after
  after-Answers a s t v h b d =
      let r = admit-Admits cfg w Made jobs t v h in
      rw r.result (record {
        unbroken = λ e. cc e;
        consistent = record {
          sound = r.sound;
          headed = rw (r.extends.next, r.extends.order) r.headed;
          busy = r.extends.running ∙ b;
          staffed = λ _. r.extends.shutdown ∙ d;
        };
      })

  pub raises-Answers :
      {A : Type 0} (e : Error) (s : State T) → IsConsistent s → Answers {A = A} (raises e, s)
  raises-Answers e s v = record { unbroken = λ h. cc h; consistent = v }

  start_with-Answers :
      (r : Result Error (List ℕ)) (s : State T)
      → ((seq : List ℕ) → r ≡ ok seq → All (λ e. e < length cfg.boundaries) seq)
      → IsConsistent s
      → Answers (start_with cfg r s)
  unfolding start_with begin
  start_with-Answers (err e) s inside v = raises-Answers e s v
  start_with-Answers (ok seq) s inside v = elim (Bool-cases (is_closed s.phase)) [
    | inl shut ↦ rw shut (raises-Answers closed_err s v)
    | inr usable ↦ rw usable (
        after-Answers tt s (record (end_order Phase.active s) { order = seq })
          (declared-IsSound Phase.active seq s (inside seq refl) v.sound)
          (unfold end_order in λ (h : true ≡ false). absurd (cc h)) (unfold end_order in v.busy)
          (unfold end_order in v.staffed usable))
  ]

  pub start-Answers :
      (order : Order) (from : Option ℕ) (s : State T)
      → IsConsistent s
      → Answers (start cfg order from s)
  unfolding start
  start-Answers order from s v =
      start_with-Answers (declared cfg order from) s (declared-Below cfg order from) v

  pub cancel-IsConsistent : (s : State T) → IsConsistent s → IsConsistent (cancel s)
  unfolding cancel cancel_if
  cancel-IsConsistent s v = elim (Bool-cases (is_closed s.phase)) [
    | inl shut ↦ rw shut v
    | inr usable ↦ rw usable (end_order-IsConsistent Phase.cancelled s usable v)
  ]

  pub close_order-IsConsistent : (s : State T) → IsConsistent s → IsConsistent (close_order s)
  unfolding close_order close_if
  close_order-IsConsistent s v = elim (Bool-cases (is_closed s.phase)) [
    | inl shut ↦ rw shut v
    | inr usable ↦ rw usable (end_order-IsConsistent Phase.closed s usable v)
  ]
