-- ===== src/Prefetch/Invariant/Admission.antt =====
-- prefetch.rs: `admit` keeps the state sound.
use earth_sci_io.Prelude.{
  List, [], ap, arith, false, get_elem?, list_eq, occurrences, prod_eq, refl, some, sym, ℕ, ℕ_eq,
  ◌+◌, ◌-◌, ◌<◌, ◌∙◌, ◌∷◌, ◌≡◌,
}
use earth_sci_io.Prefetch.State.{CellKey, Config, Slot, State}
use earth_sci_io.Prefetch.Admit.{add_keys, admit_slot, keys_of, push_slot}
use earth_sci_io.Prefetch.Invariant.Keys.{keys_of-known}
use earth_sci_io.Prefetch.Worker.{Job, Produce, Wording}
use earth_sci_io.Prefetch.Invariant.{IsSound, Placed, Samples, Window, outline, references}
use earth_sci_io.Prefetch.Invariant.Cells.{Samples-count, add_keys-Samples}
use earth_sci_io.Prefetch.Invariant.Slots.{Lined-push, outline-append, references-append}
use earth_sci_io.Prefetch.Invariant.Frame.{add_keys-Adds, add_keys-prev}
use native.Mathlib.Numerals.{add-one}

push_slot-Window :
    {T : Type 0} (cfg : Config) (keys : List CellKey) (s : State T)
    → Placed cfg s.order s.admitted keys
    → s.admitted - s.next < cfg.depth
    → Window cfg s
    → Window cfg (push_slot keys s)
unfolding push_slot
push_slot-Window cfg keys s p h v =
    let slot : Slot = record { pos = s.admitted; keys = keys; settled = false } in
    record {
      lined =
          rw (outline-append s.slots (slot ∷ []), add-one)
            (Lined-push cfg s.order s.next s.admitted (outline s.slots) keys v.lined p);
      narrow = omega arith;
      ranged = v.ranged;
      previous = v.previous;
    }

module _ {T : Type 0} {cfg : Config} {w : Wording} {Made : ℕ → ℕ → Produce T → Type 0} where
  push_slot-Samples :
      {count : CellKey → ℕ} (jobs : List Job) (keys : List CellKey) (s : State T)
      → ((j : CellKey) → count j ≡ references j (outline s.slots) + occurrences j keys)
      → Samples cfg w Made count jobs s
      → Samples cfg w Made
          (λ j. references j (outline (push_slot keys s).slots))
          jobs
          (push_slot keys s)
  unfolding push_slot
  push_slot-Samples {count} jobs keys s e v =
      let slot : Slot = record { pos = s.admitted; keys = keys; settled = false } in
      let moved : Samples cfg w Made count jobs (push_slot keys s) = record {
        counted = v.counted;
        genuine = v.genuine;
        tracked = v.tracked;
        kept = v.kept;
        listed = v.listed;
        staff = v.staff;
      } in
      Samples-count
        (λ j.
          e j
          ∙ (omega arith
              ∙ (sym (references-append j (outline s.slots) (outline (slot ∷ [])))
                  ∙ sym (ap (references j) (outline-append s.slots (slot ∷ []))))))
        moved

  pub admit_slot-IsSound :
      (jobs : List Job) (epoch : ℕ) (s : State T)
      → get_elem? s.order s.admitted ≡ some epoch
      → s.admitted - s.next < cfg.depth
      → IsSound cfg w Made jobs s
      → IsSound cfg w Made jobs (admit_slot (keys_of cfg epoch) s)
  unfolding admit_slot push_slot
  admit_slot-IsSound jobs epoch s e h v =
      let keys = keys_of cfg epoch in
      let t = add_keys keys s in
      let a = add_keys-Adds keys s in
      let window : Window cfg t = record {
        lined = rw (a.order, a.next, a.admitted, a.slots) v.window.lined;
        narrow = omega (arith, a.next, a.admitted, v.window.narrow);
        ranged = rw a.order v.window.ranged;
        previous = λ i h. rw (a.order, a.next, add_keys-prev keys s) (v.window.previous i h);
      } in
      record {
        samples =
            push_slot-Samples jobs keys t (λ j. rw a.slots)
              (add_keys-Samples (λ k. references k (outline s.slots)) jobs keys s
                (keys_of-known cfg epoch) v.samples);
        window =
            push_slot-Window cfg keys t (rw (a.order, a.admitted) (epoch, e, refl))
              (rw (a.admitted, a.next) h) window;
      }
