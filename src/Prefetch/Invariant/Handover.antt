-- ===== src/Prefetch/Invariant/Handover.antt =====
-- prefetch.rs: what `take` hands over, sample by sample.
use earth_sci_io.Exec.Inversion.{some-injective}
use earth_sci_io.Prelude.{
  ==-refl, ==→eq, Bool, Bool-cases, List, Option, Text, [], ap, arith, false, inl, inr, list_eq,
  lookup, none, prod_eq, refl, some, subst, suc, sym, true, ℕ, ℕ_eq, ◌<◌, ◌==◌, ◌↔◌, ◌∙◌, ◌∷◌, ◌≡◌,
  ◌≤◌,
}
use earth_sci_io.Prefetch.State.{Cell, CellKey, CellStatus, Config, State, queued, ready, running}
use earth_sci_io.Prefetch.Take.{
  Sample, differs, give, give_at, remember_taken, sample_at, status_of, update,
}
use earth_sci_io.Prefetch.Worker.{Job, Produce, Wording, produced}
use earth_sci_io.Prefetch.Invariant.{GenuineAt, GenuineStatus, KeptAt, Samples}
use earth_sci_io.Prefetch.Invariant.Cells.{more, more_self}
use earth_sci_io.Prefetch.Invariant.Slots.{counted-Live}
use earth_sci_io.Prefetch.Invariant.Frame.{Adds}
use earth_sci_io.Prefetch.Invariant.Give.{ReadyAt, is_usable, release-Released}

differs-eq_false :
    (before : Option ℕ) (anchor : ℕ) → (differs before anchor ≡ false) ↔ (before ≡ some anchor)
unfolding differs
differs-eq_false none anchor = (λ h. cc h, λ h. cc h)
differs-eq_false (some a) anchor = elim (Bool-cases (a == anchor)) [
  | inl same ↦ (λ _. ap (λ n. some n) (==→eq a anchor same), λ _. rw same refl)
  | inr apart ↦ (
    λ h. let e : true ≡ false = rw apart at h in absurd (cc e),
    λ h.
        let e : true ≡ false = sym (==-refl a) ∙ ap (λ n. a == n) (some-injective h) ∙ apart in
        absurd (cc e),
  )
]

pub unchanged_iff :
    {before after : Option ℕ} {c : Bool} (anchor : ℕ)
    → c ≡ differs before anchor
    → before ≡ after
    → (c ≡ false) ↔ (after ≡ some anchor)
unchanged_iff {before} {after} {c} anchor h e =
    subst (λ o. (c ≡ false) ↔ (o ≡ some anchor)) e
      (subst (λ c. (c ≡ false) ↔ (before ≡ some anchor)) (sym h) (differs-eq_false before anchor))

module _ {T : Type 0} (cfg : Config) (Made : ℕ → ℕ → Produce T → Type 0) where
  -- The samples of an epoch: one for each member from the `i`-th on, in order, at the member's
  -- anchor, with a value that its decode there yields, and unchanged exactly if the anchor
  -- before, `prev`, is the same.
  abbrev pub Delivered :
      (prev : ℕ → Option ℕ) (epoch i : ℕ) → List Text → List (Text × Sample T) → Type 0
  Delivered prev epoch i [] samples = samples ≡ []
  Delivered prev epoch i (m ∷ ms) [] = ⊥
  Delivered prev epoch i (m ∷ ms) ((key, sample) ∷ samples) =
      (key ≡ m)
      × (sample.anchor ≡ cfg.anchors i epoch)
      × ((bytes : ℕ) × Made i (cfg.anchors i epoch) (produced sample.value bytes))
      × ((sample.changed ≡ false) ↔ (prev i ≡ some (cfg.anchors i epoch)))
      × Delivered prev epoch (suc i) ms samples

  KeptAt-update :
      (last : ℕ → Option (ℕ × T × ℕ)) (i anchor : ℕ) (d : T) (bytes : ℕ)
      → Made i anchor (produced d bytes)
      → ((j : ℕ) → KeptAt Made j (last j))
      → (j : ℕ) → KeptAt Made j (update last i (some (anchor, d, bytes)) j)
  unfolding update
  KeptAt-update last i anchor d bytes h v j = elim (Bool-cases (i == j)) [
    | inl same ↦ rw same (subst (λ n. Made n anchor (produced d bytes)) (==→eq i j same) h)
    | inr apart ↦ rw apart (v j)
  ]

usable_cases :
    {T : Type 0} (st : CellStatus T)
    → is_usable st ≡ true
    → (d : T) × (bytes : ℕ) × (st ≡ ready d bytes)
usable_cases (ready d bytes) h = (d, bytes, refl)
usable_cases queued h = cc
usable_cases running h = cc
usable_cases (CellStatus.failed e) h = cc

module _ {T : Type 0} (cfg : Config) (w : Wording) (Made : ℕ → ℕ → Produce T → Type 0)
    (jobs : List Job) where
  pub record Given (count : CellKey → ℕ) (i anchor : ℕ) (s : State T)
      (r : Option (Sample T × State T)) : Type 0 where
    pub sample : Sample T
    pub state : State T
    pub result : r ≡ some (sample, state)
    pub samples : Samples cfg w Made count jobs state
    pub adds : Adds s state
    pub usable :
        (m n : CellKey → ℕ)
        → ((j : CellKey) → n j ≤ m j)
        → ((j : CellKey) → ReadyAt (m j) (lookup j s.cells))
        → (j : CellKey) → ReadyAt (n j) (lookup j state.cells)
    pub prev : state.prev_anchor ≡ update s.prev_anchor i (some anchor)
    pub at : sample.anchor ≡ anchor
    pub made : (bytes : ℕ) × Made i anchor (produced sample.value bytes)
    pub changed : sample.changed ≡ differs (s.prev_anchor i) anchor

  give_ready :
      (count : CellKey → ℕ) (i anchor : ℕ) (s : State T) (c : Cell T) (d : T) (bytes : ℕ)
      → lookup (i, anchor) s.cells ≡ some c
      → c.status ≡ ready d bytes
      → Samples cfg w Made (more (i, anchor) count) jobs s
      → Given count i anchor s (give i (i, anchor) (some c) (ready d bytes) s)
  unfolding give sample_at remember_taken
  give_ready count i anchor s c d bytes e st v =
      let k : CellKey = (i, anchor) in
      let r = release-Released cfg w Made jobs count k c s e v in
      let found : GenuineStatus cfg w Made k c.status =
        subst (GenuineAt cfg w Made k) e (v.genuine k) in
      let made : Made i anchor (produced d bytes) = subst (GenuineStatus cfg w Made k) st found in
      record {
        sample = sample_at i anchor d s;
        state = remember_taken i anchor d bytes r.state;
        result = rw r.result;
        samples = record {
          counted = r.samples.counted;
          genuine = r.samples.genuine;
          tracked = r.samples.tracked;
          kept = KeptAt-update cfg Made r.state.last_taken i anchor d bytes made r.samples.kept;
          listed = r.samples.listed;
          staff = r.samples.staff;
        };
        adds = record {
          phase = r.adds.phase;
          generation = r.adds.generation;
          order = r.adds.order;
          shutdown = r.adds.shutdown;
          running = r.adds.running;
          next = r.adds.next;
          slots = r.adds.slots;
          admitted = r.adds.admitted;
        };
        usable = r.usable;
        prev = rw r.prev;
        at = refl;
        made = (bytes, made);
        changed = refl;
      }

  pub give_at-Given :
      (count : CellKey → ℕ) (i anchor : ℕ) (s : State T) (n : ℕ)
      → 0 < n
      → ReadyAt n (lookup (i, anchor) s.cells)
      → Samples cfg w Made (more (i, anchor) count) jobs s
      → Given count i anchor s (give_at i (i, anchor) s)
  unfolding give_at status_of
  give_at-Given count i anchor s n p h v =
      let k : CellKey = (i, anchor) in
      let held =
        counted-Live s.cells (more k count k) (lookup k s.cells) (v.counted k)
          (rw more_self (omega arith)) in
      let ready_there : ReadyAt n (some held.0) = subst (ReadyAt n) held.1 h in
      let x = usable_cases held.0.status (ready_there p) in
      rw (held.1, x.2) (give_ready count i anchor s held.0 x.0 x.1 held.1 x.2 v)
