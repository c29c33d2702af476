-- ===== src/Prefetch/Invariant/Epoch.antt =====
-- prefetch.rs: what `take` hands over, for all members.
use earth_sci_io.Prelude.{
  ==-refl, ==→eq, Bool-cases, List, Option, Text, [], arith, eq_self, inl, inr, length, list_eq,
  lookup, occurrences, prod_eq, refl, some, subst, suc, ℕ, ℕ_eq, ◌+◌, ◌<◌, ◌==◌, ◌∙◌, ◌∷◌, ◌≡◌, ◌≤◌,
}
use earth_sci_io.Prefetch.State.{CellKey, Config, State}
use earth_sci_io.Prefetch.Admit.{keys_from}
use earth_sci_io.Prefetch.Take.{Sample, give_all, update}
use earth_sci_io.Prefetch.Worker.{Job, Produce, Wording}
use earth_sci_io.Prefetch.Invariant.{Samples}
use earth_sci_io.Prefetch.Invariant.Cells.{Samples-count}
use earth_sci_io.Prefetch.Invariant.Frame.{Adds, Adds-refl, Adds-trans}
use earth_sci_io.Prefetch.Invariant.Give.{ReadyAt}
use earth_sci_io.Prefetch.Invariant.Handover.{Delivered, give_at-Given, unchanged_iff}

first_key : (k : CellKey) (ks : List CellKey) → 0 < occurrences k (k ∷ ks)
first_key k ks = rw (eq_self k) (omega arith)

update_apart : (f : ℕ → Option ℕ) (i : ℕ) (v : Option ℕ) (j : ℕ) → suc i ≤ j → update f i v j ≡ f j
unfolding update
update_apart f i v j h = ground (arith, ==→eq i j)

update_below : (f : ℕ → Option ℕ) (i : ℕ) (v : Option ℕ) (j : ℕ) → j < i → update f i v j ≡ f j
unfolding update
update_below f i v j h = ground (arith, ==→eq i j)

update_at : (f : ℕ → Option ℕ) (i : ℕ) (v : Option ℕ) → update f i v i ≡ v
unfolding update
update_at f i v = rw (==-refl i) refl

module _ {T : Type 0} (cfg : Config) (w : Wording) (Made : ℕ → ℕ → Produce T → Type 0)
    (jobs : List Job) (prev : ℕ → Option ℕ) (epoch : ℕ) where
  pub record Handed (count : CellKey → ℕ) (i : ℕ) (ms : List Text) (s : State T)
      (r : Option (List (Text × Sample T) × State T)) : Type 0 where
    pub given : List (Text × Sample T)
    pub state : State T
    pub result : r ≡ some (given, state)
    pub samples : Samples cfg w Made count jobs state
    pub adds : Adds s state
    pub delivered : Delivered cfg Made prev epoch i ms given
    pub before : (j : ℕ) → j < i → state.prev_anchor j ≡ s.prev_anchor j
    pub handed :
        (j : ℕ) → i ≤ j → j < i + length ms → state.prev_anchor j ≡ some (cfg.anchors j epoch)

  pub give_all-Handed :
      (ms : List Text) (i : ℕ) (count : CellKey → ℕ) (s : State T)
      → ((j : ℕ) → i ≤ j → j < i + length ms → s.prev_anchor j ≡ prev j)
      → ((j : CellKey) → ReadyAt (occurrences j (keys_from cfg epoch i ms)) (lookup j s.cells))
      → Samples cfg w Made (λ j. count j + occurrences j (keys_from cfg epoch i ms)) jobs s
      → Handed count i ms s (give_all i (keys_from cfg epoch i ms) ms s)
  unfolding give_all keys_from
  give_all-Handed [] i count s p r v = record {
    given = [];
    state = s;
    result = refl;
    samples = Samples-count (λ j. omega arith) v;
    adds = Adds-refl s;
    delivered = refl;
    before = λ j _. refl;
    handed = λ j l h. absurd (omega arith);
  }
  give_all-Handed (m ∷ ms) i count s p r v =
      let anchor = cfg.anchors i epoch in
      let ks = keys_from cfg epoch (suc i) ms in
      let rest_count : CellKey → ℕ = λ j. count j + occurrences j ks in
      let first =
        give_at-Given cfg w Made jobs rest_count i anchor s
          (occurrences (i, anchor) ((i, anchor) ∷ ks)) (first_key (i, anchor) ks) (r (i, anchor))
          (Samples-count (λ j. omega arith) v) in
      let rest =
        give_all-Handed ms (suc i) count first.state
          (λ j h l.
            rw first.prev
              (update_apart s.prev_anchor i (some anchor) j h ∙ p j (omega arith) (omega arith)))
          (first.usable (λ j. occurrences j ((i, anchor) ∷ ks)) (λ j. occurrences j ks)
            (λ j. omega arith) r)
          first.samples in
      record {
        given = (m, first.sample) ∷ rest.given;
        state = rest.state;
        result = rw (first.result, rest.result);
        samples = rest.samples;
        adds = Adds-trans first.adds rest.adds;
        delivered = (
          refl,
          first.at,
          first.made,
          unchanged_iff anchor first.changed (p i (omega arith) (omega arith)),
          rest.delivered,
        );
        before = λ j h.
            rest.before j (omega arith)
            ∙ rw first.prev (update_below s.prev_anchor i (some anchor) j h);
        handed = λ j l h. elim (Bool-cases (i == j)) [
          | inl same ↦
              let e : i ≡ j = ==→eq i j same in
              subst (λ j. rest.state.prev_anchor j ≡ some (cfg.anchors j epoch)) e
                (rest.before i (omega arith)
                  ∙ rw first.prev (update_at s.prev_anchor i (some anchor)))
          | inr apart ↦ rest.handed j (ground (arith, apart)) (omega arith)
        ];
      }
