-- ===== src/Prefetch/System/Progress.antt =====
-- prefetch.rs: the rounds of the workers come to an end, and with them the wait of `take`.
use earth_sci_io.Prefetch.System.Promises.{blocked_take-Turn}
use earth_sci_io.Prefetch.Take.{take}
use earth_sci_io.Prelude.{
  Bool-cases, List, Option, [], ap, arith, false, if◌then◌else◌, inl, inr, length, length-append,
  list_eq, lookup, ltb, none, prod_eq, refl, some, subst, suc, true, zero, ℕ, ℕ_eq, ◌*◌, ◌+◌, ◌<◌,
  ◌==◌, ◌∷◌, ◌≡◌, ◌≢◌, ◌≤◌, ◌⊎◌,
}
use earth_sci_io.Exec.{Result, err, ok}
use earth_sci_io.Exec.Inversion.{option_then-some, some-injective}
use earth_sci_io.Error.{Error}
use earth_sci_io.Prefetch.State.{Cell, CellKey, Config, State}
use earth_sci_io.Prefetch.Settle.{settle}
use earth_sci_io.Prefetch.Group.{Outcome, after, blocks, panics, raises, returns}
use earth_sci_io.Prefetch.Worker.{
  Job, Produce, Round, Wording, caught, conclude, fewer, finish, finish_at, finish_live, pick,
  pick_from, run_cell, sized, skips, stops, store, waits, works,
}
use earth_sci_io.Prefetch.System.{Reach, System, Turn, finishes, passes, picks, stepped, works_on}
use earth_sci_io.Prefetch.System.Work.{admit-to_start, settle-to_start, to_start}

module _ {T : Type 0} (cfg : Config) where
  -- A round that takes an entry of the queue leaves less to start.
  abbrev Lessens : State T → Round Job × State T → Type 0
  Lessens s (works j, t) = to_start cfg t < to_start cfg s
  Lessens s (skips, t) = to_start cfg t < to_start cfg s
  Lessens s (stops, t) = Unit
  Lessens s (waits, t) = Unit

  run_cell-Lessens :
      (s : State T) (j : Job) (rest : List Job) (o : Option (Cell T))
      → s.queue ≡ j ∷ rest
      → Lessens s (run_cell j o (record s { queue = rest }))
  unfolding run_cell to_start
  run_cell-Lessens s j rest none q = omega (arith, ap length q)
  run_cell-Lessens s j rest (some c) q = omega (arith, ap length q)

  pick_from-Lessens :
      (s : State T) (queue : List Job) → s.queue ≡ queue → Lessens s (pick_from queue s)
  unfolding pick_from
  pick_from-Lessens s [] q = tt
  pick_from-Lessens s (j ∷ rest) q = elim (Bool-cases (j.0 == s.generation)) [
    | inl same ↦ rw same (run_cell-Lessens s j rest (lookup j.1 s.cells) q)
    | inr stale ↦ rw stale (unfold to_start in omega (arith, ap length q))
  ]

  pick-Lessens : (s : State T) → Lessens s (pick s)
  unfolding pick
  pick-Lessens s =
      elim s.shutdown as (λ b. Lessens s (if b then (stops, s) else pick_from s.queue s)) [
        | true ↦ tt
        | false ↦ pick_from-Lessens s s.queue refl
      ]

  store-to_start :
      (k : CellKey) (c : Cell T) (r : Result Error (T × ℕ)) (s t : State T)
      → store cfg k c r s ≡ some t
      → to_start cfg t ≡ to_start cfg s
  unfolding store sized to_start
  store-to_start k c (ok (d, bytes)) s t e = elim (Bool-cases (ltb k.0 (length cfg.members))) [
    | inl known ↦
        let f : ◌≡◌ {A = Option (State T)} (some (sized k c d bytes s)) (some t) = rw known at e in
        rw (← some-injective f) refl
    | inr strange ↦
        let f : ◌≡◌ {A = Option (State T)} none (some t) = rw strange at e in absurd (cc f)
  ]
  store-to_start k c (err x) s t e = rw (← some-injective e) refl

  finish_at-to_start :
      (k : CellKey) (o : Option (Cell T)) (r : Result Error (T × ℕ)) (s t : State T)
      → finish_at cfg k o r s ≡ some t
      → to_start cfg t ≤ to_start cfg s
  unfolding finish_at
  finish_at-to_start k none r s t e = rw (some-injective e) (omega arith)
  finish_at-to_start k (some c) r s t e =
      let y = option_then-some (store cfg k c r s) _ e in
      let x = option_then-some (settle cfg y.0) _ y.2 in
      omega (
        arith,
        admit-to_start cfg x.0 t x.2,
        settle-to_start cfg y.0 x.0 x.1,
        store-to_start k c r s y.0 y.1,
      )

  finish-to_start :
      (j : Job) (r : Result Error (T × ℕ)) (s t : State T)
      → finish cfg j r s ≡ some t
      → to_start cfg t ≤ to_start cfg s
  unfolding finish finish_live
  finish-to_start j r s t e0 =
      let y = option_then-some (fewer s.running) _ e0 in
      let e = y.2 in
      let u : State T = record s { running = y.0 } in
      let same_work : to_start cfg u ≡ to_start cfg s = unfold to_start in refl in
      elim (Bool-cases (j.0 == s.generation)) [
        | inl same ↦
            omega
              (arith, finish_at-to_start j.1 (lookup j.1 s.cells) r u t (rw same at e), same_work)
        | inr stale ↦
            let kept : ◌≡◌ {A = Option (State T)} (some u) (some t) = rw stale at e in
            rw (← some-injective kept) (omega (arith, same_work))
      ]

  conclude-to_start :
      (w : Wording) (j : Job) (p : Produce T) (s t : State T)
      → conclude w cfg j p s ≡ some t
      → to_start cfg t ≤ to_start cfg s
  unfolding conclude
  conclude-to_start w j p s t e =
      let y = option_then-some (caught w cfg j.1 p) _ e in finish-to_start j y.0 s t y.2

module _ {T : Type 0} (cfg : Config) (w : Wording) (Made : ℕ → ℕ → Produce T → Type 0) where
  -- An entry to start counts twice: once for `pick` and once for `finish`.
  pub measure : System T → ℕ
  measure s = 2 * to_start cfg s.state + length s.jobs

  -- Every round of a decode worker that does anything, from whatever state, leaves less of the
  -- work that `measure` counts: the entries of the queue and of the order that no slot holds
  -- yet, twice, and the decodes that run.
  pub Turn-measure : {s t : System T} → Turn cfg w Made s t → measure t < measure s
  unfolding measure
  Turn-measure {s} {t} (picks j e f) = omega (
    arith,
    subst (Lessens cfg s.state) e (pick-Lessens cfg s.state),
    ap length f,
    length-append {0} s.jobs (j ∷ []),
  )
  Turn-measure {s} {t} (passes e f) =
      omega (arith, subst (Lessens cfg s.state) e (pick-Lessens cfg s.state), ap length f)
  Turn-measure {s} {t} (finishes before after j p q made e f) = omega (
    arith,
    conclude-to_start cfg w j p s.state t.state e,
    ap length q,
    ap length f,
    length-append {0} before (j ∷ after),
    length-append {0} before after,
  )

  -- Rounds of workers, one after the other.
  pub data Turns : System T → System T → Type 0 where
    done : {s : System T} → Turns s s
    turned : {s t u : System T} → Turn cfg w Made s t → Turns t u → Turns s u

  -- Whether a call waits.
  waiting : {A : Type 0} (o : Outcome A) → (o ≡ blocks) ⊎ (o ≢ blocks)
  waiting blocks = inl refl
  waiting panics = inr (λ h. cc h)
  waiting (raises e) = inr (λ h. cc h)
  waiting (returns a) = inr (λ h. cc h)

  answered_within :
      (n : ℕ) (s : System T) (k : ℕ)
      → measure s < n
      → 0 < cfg.depth
      → Reach cfg w Made s
      → ((i anchor : ℕ) → (p : Produce T) × Made i anchor p)
      → (t : System T) × Turns s t × ((take cfg k t.state).0 ≢ blocks)
  answered_within zero s k h d r made = elim h [ ]
  answered_within (suc n) s k h d r made = elim (waiting (take cfg k s.state).0) [
    | inr answered ↦ (s, done, answered)
    | inl waits_still ↦
        let x = blocked_take-Turn cfg w Made s d r k made waits_still in
        let y =
          answered_within n x.0 k (omega (arith, Turn-measure x.1)) d (stepped r (works_on x.1))
            made in
        (y.0, turned x.1 y.1, y.2)
  ]

  -- In every state that a new group of depth at least 1 can come to, finitely many rounds of the
  -- decode workers lead to a state in which `take` does not wait, if every decode has an
  -- outcome.
  pub take_answered :
      (s : System T) (k : ℕ)
      → 0 < cfg.depth
      → Reach cfg w Made s
      → ((i anchor : ℕ) → (p : Produce T) × Made i anchor p)
      → (t : System T) × Turns s t × ((take cfg k t.state).0 ≢ blocks)
  take_answered s k d r made = answered_within (suc (measure s)) s k (omega arith) d r made
