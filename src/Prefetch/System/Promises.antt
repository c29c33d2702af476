-- ===== src/Prefetch/System/Promises.antt =====
-- prefetch.rs: what the group promises its consumer, under every schedule of its threads.
use earth_sci_io.Error.{Error}
use earth_sci_io.Prefetch.Invariant.Handover.{Delivered}
use earth_sci_io.Prefetch.Invariant.Calls.{IsConsistent}
use earth_sci_io.Prefetch.Invariant.Outcomes.{Finishes, conclude-Finishes}
use earth_sci_io.Prefetch.Take.{EpochSample, refusal, take, take_in}
use earth_sci_io.Prelude.{
  Bool-cases, List, Option, [], ap, arith, eq, false, get_elem?, if◌then◌else◌, includes, inl, inr,
  length, list_eq, lookup, none, prod_beq_sound, prod_eq, refl, some, subst, suc, sym, true, ℕ,
  ℕ_eq, ◌++◌, ◌+◌, ◌<◌, ◌==◌, ◌∷◌, ◌≡◌, ◌≤◌, ◌⊎◌,
}
use earth_sci_io.Prefetch.State.{Cell, CellKey, Config, Phase, Slot, State, is_active, is_closed}
use earth_sci_io.Prefetch.Group.{Outcome, after, blocks, panics, raises, returns}
use earth_sci_io.Prefetch.Worker.{
  Job, Produce, Round, Wording, conclude, pick, pick_from, run_cell, skips, stops, works,
}
use earth_sci_io.Prefetch.System.{Reach, System, Turn, finishes, passes, picks}
use earth_sci_io.Prefetch.System.Laws.{Reach-IsConsistent, take-Takes_any}
use earth_sci_io.Prefetch.Invariant.{CountedAt, Lined, outline, preceding, references}
use earth_sci_io.Prefetch.Invariant.Slots.{Lined-length}
use earth_sci_io.Prefetch.Invariant.Advance.{Faithful, Pending, Raised, Takes}

includes-split :
    (x : Job) (xs : List Job)
    → includes x xs ≡ true
    → (before : List Job) × (after : List Job) × (xs ≡ before ++ x ∷ after)
includes-split x [] h = cc
includes-split x (y ∷ ys) h = elim (Bool-cases (eq y x)) [
  | inl same ↦ ([], ys, ap (λ z. z ∷ ys) (prod_beq_sound y x same))
  | inr apart ↦ let r = includes-split x ys (rw apart at h) in (y ∷ r.0, r.1, ap (λ zs. y ∷ zs) r.2)
]

length-outline : (slots : List Slot) → length (outline slots) ≡ length slots
length-outline [] = refl
length-outline (s ∷ slots) = ap suc (length-outline slots)

module _ {T : Type 0} where
  blocked_open :
      (cfg : Config) (k : ℕ) (s : State T) (p : Phase)
      → (take_in cfg k (refusal k p) s).0 ≡ blocks
      → is_closed p ≡ false
  unfolding take_in refusal
  blocked_open cfg k s Phase.active h = refl
  blocked_open cfg k s Phase.idle h = refl
  blocked_open cfg k s Phase.cancelled h = refl
  blocked_open cfg k s (Phase.failed n) h = refl
  blocked_open cfg k s Phase.closed h = cc

  -- With an entry in the queue, a round of a worker does something.
  abbrev MovesOn : Round Job × State T → Type 0
  MovesOn r = ((j : Job) × (t : State T) × (r ≡ (works j, t))) ⊎ ((t : State T) × (r ≡ (skips, t)))

  run_cell-Moves_on : (j : Job) (o : Option (Cell T)) (s : State T) → MovesOn (run_cell j o s)
  unfolding run_cell
  run_cell-Moves_on j none s = inr (s, refl)
  run_cell-Moves_on j (some c) s = inl (j, _, refl)

  pick_from-Moves_on : (j : Job) (rest : List Job) (s : State T) → MovesOn (pick_from (j ∷ rest) s)
  unfolding pick_from
  pick_from-Moves_on j rest s = elim (Bool-cases (j.0 == s.generation)) [
    | inl same ↦ rw same (run_cell-Moves_on j (lookup j.1 s.cells) (record s { queue = rest }))
    | inr stale ↦ rw stale (inr (record s { queue = rest }, refl))
  ]

  pick-Moves_on :
      (x : Job) (s : State T) (queue : List Job)
      → s.queue ≡ queue
      → s.shutdown ≡ false
      → includes x queue ≡ true
      → MovesOn (pick s)
  unfolding pick
  pick-Moves_on x s [] q d h = cc
  pick-Moves_on x s (j ∷ rest) q d h =
      subst (λ b. MovesOn (if b then (stops, s) else pick_from s.queue s)) (sym d)
        (subst (λ queue. MovesOn (pick_from queue s)) (sym q) (pick_from-Moves_on j rest s))

module _ {T : Type 0} (cfg : Config) (w : Wording) (Made : ℕ → ℕ → Produce T → Type 0)
    (s : System T) (deep : 0 < cfg.depth) (reached : Reach cfg w Made s) where
  answered : (k : ℕ) → Takes cfg w Made s.jobs s.state k (take cfg k s.state)
  answered k =
      take-Takes_any cfg w Made s.jobs s.state k deep (Reach-IsConsistent cfg w Made deep reached)

  -- In every state that a new group of depth at least 1 can come to, under any interleaving of
  -- the consumer's calls with the rounds of any number of workers, a `take(k)` that returns is
  -- of the next entry of the order, moves on by one entry, and hands over one sample for each
  -- member, in member order: at the member's anchor of the epoch, with a value that the member's
  -- own decode at that anchor yields, and marked changed unless the entry before it in the same
  -- order has the same anchor; the first sample of an order is always changed.
  pub take_delivers :
      (k : ℕ) (ep : EpochSample T) (t : State T)
      → take cfg k s.state ≡ (returns ep, t)
      → (ep.epoch ≡ k)
        × (get_elem? s.state.order s.state.next ≡ some k)
        × Delivered cfg Made
            (λ i. preceding cfg i s.state.order s.state.next)
            k
            0
            cfg.members
            ep.samples
        × (t.next ≡ s.state.next + 1)
        × (t.order ≡ s.state.order)
  take_delivers k ep t e = subst (Faithful cfg w Made s.jobs s.state k) e (answered k).faithful

  -- In every state that a new group of depth at least 1 can come to, an error that `take` raises
  -- for the next entry of an active order is an error, or the panic's text, of a decode of one
  -- of the group's members at its anchor of that epoch.
  pub take_raises :
      (k : ℕ) (x : Error) (t : State T)
      → is_active s.state.phase ≡ true
      → get_elem? s.state.order s.state.next ≡ some k
      → take cfg k s.state ≡ (raises x, t)
      → Raised cfg w Made s.jobs k x
  take_raises k x t act o e =
      subst (Faithful cfg w Made s.jobs s.state k) e (answered k).faithful act o

  conclude_returns :
      (before after : List Job) (j : Job) (p : Produce T)
      → s.jobs ≡ before ++ j ∷ after
      → Made j.1.0 j.1.1 p
      → Finishes cfg w Made before after (conclude w cfg j p s.state)
  conclude_returns before after j p e made =
      conclude-Finishes cfg w Made before after j p s.state made (
        subst (λ jobs. IsConsistent cfg w Made jobs s.state) e
          (Reach-IsConsistent cfg w Made deep reached))

  -- In every state that a new group of depth at least 1 can come to, a sample is held exactly if
  -- a live slot references it, and its counter is the number of references.
  pub cells_counted :
      (k : CellKey) → CountedAt (references k (outline s.state.slots)) (lookup k s.state.cells)
  cells_counted = (Reach-IsConsistent cfg w Made deep reached).sound.samples.counted

  -- In every state that a new group of depth at least 1 can come to, there are at most `depth`
  -- slots, they are those of the positions from the next one to `admitted`, in order, and each
  -- holds the keys of the members at the epoch of its position.
  pub window_bounds :
      (length s.state.slots ≤ cfg.depth)
      × Lined cfg s.state.order s.state.next s.state.admitted (outline s.state.slots)
  window_bounds =
      let v = (Reach-IsConsistent cfg w Made deep reached).sound.window in
      (
        omega (
          arith,
          v.narrow,
          length-outline s.state.slots,
          Lined-length cfg s.state.order s.state.next s.state.admitted (outline s.state.slots)
              v.lined,
        ),
        v.lined,
      )

  blocked_Pending :
      (k : ℕ) (r : Outcome (EpochSample T) × State T)
      → r.0 ≡ blocks
      → Faithful cfg w Made s.jobs s.state k r
      → Pending cfg w Made s.jobs s.state k
  blocked_Pending k (blocks, t) h f = f
  blocked_Pending k (panics, t) h f = elim f [ ]
  blocked_Pending k (raises x, t) h f = cc
  blocked_Pending k (returns ep, t) h f = cc

  job-Turn :
      (x : Job)
      → ((i anchor : ℕ) → (p : Produce T) × Made i anchor p)
      → includes x s.jobs ≡ true
      → (t : System T) × Turn cfg w Made s t
  job-Turn x made h =
      let at = includes-split x s.jobs h in
      let p = made x.1.0 x.1.1 in
      let r = conclude_returns at.0 at.1 x p.0 at.2 p.1 in
      (
        record { state = r.state; jobs = at.0 ++ at.1 },
        finishes at.0 at.1 x p.0 at.2 p.1 r.result refl,
      )

  queue-Turn :
      (x : Job)
      → s.state.shutdown ≡ false
      → includes x s.state.queue ≡ true
      → (t : System T) × Turn cfg w Made s t
  queue-Turn x d h = elim (pick-Moves_on x s.state s.state.queue refl d h) [
    | inl r ↦ (record { state = r.1; jobs = s.jobs ++ r.0 ∷ [] }, picks r.0 r.2 refl)
    | inr r ↦ (record { state = r.0; jobs = s.jobs }, passes r.1 refl)
  ]

  -- No deadlock: in every state that a new group of depth at least 1 can come to in which `take`
  -- waits, a round of a decode worker is possible, if every decode has an outcome.
  pub blocked_take-Turn :
      (k : ℕ)
      → ((i anchor : ℕ) → (p : Produce T) × Made i anchor p)
      → (take cfg k s.state).0 ≡ blocks
      → (t : System T) × Turn cfg w Made s t
  unfolding take
  blocked_take-Turn k made h =
      let p = blocked_Pending k (take cfg k s.state) h (answered k).faithful in
      let shut_not =
        (Reach-IsConsistent cfg w Made deep reached).staffed
          (blocked_open cfg k s.state s.state.phase h) in
      elim p.2 [ inl q ↦ queue-Turn _ shut_not q | inr q ↦ job-Turn _ made q ]
