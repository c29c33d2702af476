-- ===== src/Prefetch/Invariant/Frame.antt =====
-- prefetch.rs: what the admission of slots leaves as it was.
use earth_sci_io.Prelude.{
  List, Option, [], arith, list_eq, lookup, none, prod_eq, refl, some, suc, ℕ, ℕ_eq, ◌∙◌, ◌∷◌, ◌≡◌,
  ◌≤◌,
}
use earth_sci_io.Prefetch.State.{Cell, CellKey, PrefetchStats, State}
use earth_sci_io.Prefetch.Admit.{
  add_cell, add_fresh, add_key, add_keys, admit_slot, push_slot, revived,
}
use earth_sci_io.Prefetch.Worker.{Job}

module _ {T : Type 0} where
  -- Admission leaves the order, its position and its generation alone, and takes no slot back.
  pub record Extends (s t : State T) : Type 0 where
    pub phase : t.phase ≡ s.phase
    pub generation : t.generation ≡ s.generation
    pub order : t.order ≡ s.order
    pub shutdown : t.shutdown ≡ s.shutdown
    pub running : t.running ≡ s.running
    pub next : t.next ≡ s.next
    pub admitted : s.admitted ≤ t.admitted

  pub Extends-refl : (s : State T) → Extends s s
  Extends-refl s = record {
    phase = refl;
    generation = refl;
    order = refl;
    shutdown = refl;
    running = refl;
    next = refl;
    admitted = omega arith;
  }

  pub Extends-trans : {s t u : State T} → Extends s t → Extends t u → Extends s u
  Extends-trans p q = record {
    phase = q.phase ∙ p.phase;
    generation = q.generation ∙ p.generation;
    order = q.order ∙ p.order;
    shutdown = q.shutdown ∙ p.shutdown;
    running = q.running ∙ p.running;
    next = q.next ∙ p.next;
    admitted = omega (arith, p.admitted, q.admitted);
  }

  -- The admission of keys is about their cells and the queue alone.
  pub record Adds (s t : State T) : Type 0 where
    pub phase : t.phase ≡ s.phase
    pub generation : t.generation ≡ s.generation
    pub order : t.order ≡ s.order
    pub shutdown : t.shutdown ≡ s.shutdown
    pub running : t.running ≡ s.running
    pub next : t.next ≡ s.next
    pub slots : t.slots ≡ s.slots
    pub admitted : t.admitted ≡ s.admitted

  pub Adds-writes :
      (s : State T) (cells : List (CellKey × Cell T)) (queue : List Job) (stats : PrefetchStats)
      → Adds s (record s { cells = cells; queue = queue; stats = stats })
  Adds-writes s cells queue stats = record {
    phase = refl;
    generation = refl;
    order = refl;
    shutdown = refl;
    running = refl;
    next = refl;
    slots = refl;
    admitted = refl;
  }

  pub Adds-refl : (s : State T) → Adds s s
  Adds-refl s = Adds-writes s s.cells s.queue s.stats

  pub Adds-trans : {s t u : State T} → Adds s t → Adds t u → Adds s u
  Adds-trans p q = record {
    phase = q.phase ∙ p.phase;
    generation = q.generation ∙ p.generation;
    order = q.order ∙ p.order;
    shutdown = q.shutdown ∙ p.shutdown;
    running = q.running ∙ p.running;
    next = q.next ∙ p.next;
    slots = q.slots ∙ p.slots;
    admitted = q.admitted ∙ p.admitted;
  }

  add_fresh-Adds : (r : Option (T × ℕ)) (k : CellKey) (s : State T) → Adds s (add_fresh r k s)
  unfolding add_fresh
  add_fresh-Adds (some (d, bytes)) k s = Adds-writes s _ _ _
  add_fresh-Adds none k s = Adds-writes s _ _ _

  add_cell-Adds : (o : Option (Cell T)) (k : CellKey) (s : State T) → Adds s (add_cell o k s)
  unfolding add_cell
  add_cell-Adds (some c) k s = Adds-writes s _ _ _
  add_cell-Adds none k s = add_fresh-Adds (revived (s.last_taken k.0) k.1) k s

  pub add_keys-Adds : (ks : List CellKey) (s : State T) → Adds s (add_keys ks s)
  unfolding add_keys add_key
  add_keys-Adds [] s = Adds-refl s
  add_keys-Adds (k ∷ ks) s =
      Adds-trans (add_cell-Adds (lookup k s.cells) k s) (add_keys-Adds ks (add_key k s))

  add_fresh-prev :
      (r : Option (T × ℕ)) (k : CellKey) (s : State T)
      → (add_fresh r k s).prev_anchor ≡ s.prev_anchor
  unfolding add_fresh
  add_fresh-prev (some (d, bytes)) k s = refl
  add_fresh-prev none k s = refl

  add_cell-prev :
      (o : Option (Cell T)) (k : CellKey) (s : State T)
      → (add_cell o k s).prev_anchor ≡ s.prev_anchor
  unfolding add_cell
  add_cell-prev (some c) k s = refl
  add_cell-prev none k s = add_fresh-prev (revived (s.last_taken k.0) k.1) k s

  pub add_keys-prev :
      (ks : List CellKey) (s : State T) → (add_keys ks s).prev_anchor ≡ s.prev_anchor
  unfolding add_keys add_key
  add_keys-prev [] s = refl
  add_keys-prev (k ∷ ks) s = add_keys-prev ks (add_key k s) ∙ add_cell-prev (lookup k s.cells) k s

  pub admit_slot-Extends : (ks : List CellKey) (s : State T) → Extends s (admit_slot ks s)
  unfolding admit_slot push_slot
  admit_slot-Extends ks s =
      let a = add_keys-Adds ks s in
      record {
        phase = a.phase;
        generation = a.generation;
        order = a.order;
        shutdown = a.shutdown;
        running = a.running;
        next = a.next;
        admitted = omega (arith, a.admitted);
      }

  pub admit_slot-admitted :
      (ks : List CellKey) (s : State T) → (admit_slot ks s).admitted ≡ suc s.admitted
  unfolding admit_slot push_slot
  admit_slot-admitted ks s = let a = add_keys-Adds ks s in omega (arith, a.admitted)
