-- ===== src/Prefetch/Invariant/Taking.antt =====
-- prefetch.rs: what `take` answers in a consistent state.
use earth_sci_io.Prelude.{
  ==-refl, ==→eq, Bool, Bool-cases, List, Option, [], ap, arith, false, get_elem?, inl, inr, length,
  list_eq, none, prod_eq, refl, some, subst, suc, sym, true, zero, ℕ, ℕ_eq, ◌<◌, ◌==◌, ◌∙◌, ◌∷◌,
  ◌≡◌,
}
use earth_sci_io.Exec.Inversion.{some-injective}
use earth_sci_io.Error.{Error}
use earth_sci_io.Prefetch.State.{
  Config, Phase, Slot, State, all_at, finished, head_done, head_done_of, is_active,
}
use earth_sci_io.Prefetch.Admit.{keys_of}
use earth_sci_io.Prefetch.Group.{blocks, raises}
use earth_sci_io.Prefetch.Take.{
  by_failure, deliver, find_failed, refusal, take_in, take_next, when_done,
}
use earth_sci_io.Prefetch.Worker.{Job, Produce, Wording}
use earth_sci_io.Prefetch.Invariant.{Lined, TrackedAt, outline}
use earth_sci_io.Prefetch.Invariant.Slots.{LiveKeys, LiveSlots, all_at-Live, live_slots}
use earth_sci_io.Prefetch.Invariant.Calls.{IsConsistent}
use earth_sci_io.Prefetch.Invariant.Head.{unfinished}
use earth_sci_io.Prefetch.Invariant.Advance.{Pending, Pending-at, Takes, popped-Takes, same-Takes}

get_elem?-lt : (xs : List ℕ) (n x : ℕ) → get_elem? xs n ≡ some x → n < length xs
get_elem?-lt [] n x h = cc
get_elem?-lt (y ∷ ys) zero x h = omega arith
get_elem?-lt (y ∷ ys) (suc n) x h = omega (arith, get_elem?-lt ys n x h)

module _ {T : Type 0} (cfg : Config) (w : Wording) (Made : ℕ → ℕ → Produce T → Type 0)
    (jobs : List Job) where
  -- The first slot holds the keys of the entry that `take` returns next.
  front :
      (s : State T) (k : ℕ) (head : Slot) (rest : List Slot)
      → s.slots ≡ head ∷ rest
      → IsConsistent cfg w Made jobs s
      → get_elem? s.order s.next ≡ some k
      → (head.keys ≡ keys_of cfg k)
        × Lined cfg s.order (suc s.next) s.admitted (outline rest)
        × (outline s.slots ≡ (head.pos, keys_of cfg k) ∷ outline rest)
        × LiveKeys s.cells (keys_of cfg k)
  front s k head rest x v e =
      let l : Lined cfg s.order s.next s.admitted (outline (head ∷ rest)) =
        subst (λ o. Lined cfg s.order s.next s.admitted (outline o)) x v.sound.window.lined in
      let same : l.1.0 ≡ k = some-injective (sym l.1.1 ∙ e) in
      let keys : head.keys ≡ keys_of cfg k = l.1.2 ∙ ap (keys_of cfg) same in
      let out : outline s.slots ≡ (head.pos, keys_of cfg k) ∷ outline rest =
        ap outline x ∙ ap (λ ks. (head.pos, ks) ∷ outline rest) keys in
      let live =
        subst (LiveSlots s.cells) out
          (live_slots s.cells (outline s.slots) v.sound.samples.counted) in
      (keys, l.2, out, live.0)

  no_front :
      (s : State T) (k : ℕ)
      → s.slots ≡ []
      → 0 < cfg.depth
      → IsConsistent cfg w Made jobs s
      → get_elem? s.order s.next ≡ some k
      → ⊥
  no_front s k x d v e =
      let l : s.next ≡ s.admitted =
        subst (λ o. Lined cfg s.order s.next s.admitted (outline o)) x v.sound.window.lined in
      omega (arith, v.headed d (get_elem?-lt s.order s.next k e))

  deliver-Takes :
      (s : State T) (k : ℕ) (slots : List Slot)
      → s.slots ≡ slots
      → head_done_of s.cells slots ≡ some true
      → 0 < cfg.depth
      → is_active s.phase ≡ true
      → IsConsistent cfg w Made jobs s
      → get_elem? s.order s.next ≡ some k
      → Takes cfg w Made jobs s k (deliver cfg k slots s)
  unfolding deliver head_done_of
  deliver-Takes s k [] x h d act v e = absurd (no_front s k x d v e)
  deliver-Takes s k (head ∷ rest) x h d act v e =
      let f = front s k head rest x v e in
      subst
        (λ ks.
          Takes cfg w Made jobs s k
            (by_failure cfg k ks (find_failed s.cells ks) (record s { slots = rest })))
        (sym f.0)
        (popped-Takes cfg w Made jobs s k head.pos rest act v e f.2 f.1 f.3
          (subst (λ ks. all_at finished s.cells ks ≡ some true) f.0 h))

  blocked :
      (s : State T) (k : ℕ) (slots : List Slot)
      → s.slots ≡ slots
      → head_done_of s.cells slots ≡ some false
      → 0 < cfg.depth
      → IsConsistent cfg w Made jobs s
      → get_elem? s.order s.next ≡ some k
      → Pending cfg w Made jobs s k
  unfolding head_done_of
  blocked s k [] x h d v e = absurd (no_front s k x d v e)
  blocked s k (head ∷ rest) x h d v e =
      let f = front s k head rest x v e in
      let u =
        unfinished s.cells (keys_of cfg k) f.3
          (subst (λ ks. all_at finished s.cells ks ≡ some false) f.0 h) in
      Pending-at cfg w Made jobs s k u.0 u.1.status u.2 u.4
        (subst (TrackedAt s.generation s.queue jobs u.0) u.3 (v.sound.samples.tracked u.0))

  front_decided :
      (s : State T) (k : ℕ) (slots : List Slot)
      → s.slots ≡ slots
      → IsConsistent cfg w Made jobs s
      → get_elem? s.order s.next ≡ some k
      → (b : Bool) × (head_done_of s.cells slots ≡ some b)
  unfolding head_done_of
  front_decided s k [] x v e = (false, refl)
  front_decided s k (head ∷ rest) x v e =
      let f = front s k head rest x v e in
      let r = all_at-Live s.cells finished (keys_of cfg k) f.3 in (r.0, rw f.0 r.1)

  next-Takes :
      (s : State T) (k : ℕ)
      → 0 < cfg.depth
      → is_active s.phase ≡ true
      → IsConsistent cfg w Made jobs s
      → get_elem? s.order s.next ≡ some k
      → Takes cfg w Made jobs s k (when_done cfg k (head_done s) s)
  unfolding head_done when_done
  next-Takes s k d act v e =
      let b = front_decided s k s.slots refl v e in
      elim (Bool-cases b.0) [
        | inl done ↦ let h = b.1 ∙ ap some done in rw h (deliver-Takes s k s.slots refl h d act v e)
        | inr waiting ↦
            let h = b.1 ∙ ap some waiting in
            rw h (same-Takes cfg w Made jobs s k blocks v (blocked s k s.slots refl h d v e))
      ]

  expected-Takes :
      (s : State T) (k : ℕ) (o : Option ℕ)
      → get_elem? s.order s.next ≡ o
      → 0 < cfg.depth
      → is_active s.phase ≡ true
      → IsConsistent cfg w Made jobs s
      → Takes cfg w Made jobs s k (take_next cfg k o s)
  unfolding take_next
  expected-Takes s k none e d act v =
      same-Takes cfg w Made jobs s k _ v
        (λ _ f. let g : ◌≡◌ {A = Option ℕ} none (some k) = sym e ∙ f in absurd (cc g))
  expected-Takes s k (some expected) e d act v = elim (Bool-cases (k == expected)) [
    | inl same ↦ rw same (next-Takes s k d act v (e ∙ ap some (sym (==→eq k expected same))))
    | inr apart ↦ rw apart (
        same-Takes cfg w Made jobs s k _ v (λ _ f.
          let g : ◌≡◌ {A = Option ℕ} (some expected) (some k) = sym e ∙ f in
          let n : k ≡ expected = sym (some-injective g) in
          let again : (k == expected) ≡ true = subst (λ x. (k == x) ≡ true) n (==-refl k) in
          absurd (cc (again, apart))))
  ]

  refused-Takes :
      (s : State T) (k : ℕ) (e : Error)
      → is_active s.phase ≡ false
      → IsConsistent cfg w Made jobs s
      → Takes cfg w Made jobs s k (raises e, s)
  refused-Takes s k e h v =
      same-Takes cfg w Made jobs s k _ v (λ a _. let f : false ≡ true = sym h ∙ a in absurd (cc f))

  pub take-Takes :
      (s : State T) (k : ℕ) (p : Phase)
      → s.phase ≡ p
      → 0 < cfg.depth
      → IsConsistent cfg w Made jobs s
      → Takes cfg w Made jobs s k (take_in cfg k (refusal k p) s)
  unfolding take_in refusal
  take-Takes s k Phase.active e d v = expected-Takes s k _ refl d (rw e) v
  take-Takes s k Phase.idle e d v = refused-Takes s k _ (rw e) v
  take-Takes s k Phase.cancelled e d v = refused-Takes s k _ (rw e) v
  take-Takes s k (Phase.failed n) e d v = refused-Takes s k _ (rw e) v
  take-Takes s k Phase.closed e d v = refused-Takes s k _ (rw e) v
