-- ===== src/Prefetch/Invariant/Loop.antt =====
-- prefetch.rs: the loop of `admit` runs to its end from a sound state, and admits the head.
use earth_sci_io.Prefetch.Invariant.Admission.{admit_slot-IsSound}
use earth_sci_io.Prelude.{
  All-get_elem?, Bool-cases, List, Option, [], ap, arith, drop, false, get_elem?, inl, inr, length,
  list_eq, ltb, ltb→lt, prod_eq, refl, some, suc, true, zero, ℕ, ℕ_eq, ◌-◌, ◌<◌, ◌∙◌, ◌∷◌, ◌≡◌, ◌≤◌,
}
use earth_sci_io.Prefetch.State.{Cell, CellKey, Config, Slot, State, any_failed, any_slot_failed}
use earth_sci_io.Prefetch.Admit.{admit_loop, admit_slot, has_room, keys_of}
use earth_sci_io.Prefetch.Invariant.Keys.{keys_in-keys_of}
use earth_sci_io.Prefetch.Worker.{Job, Produce, Wording}
use earth_sci_io.Prefetch.Invariant.{IsSound, outline}
use earth_sci_io.Prefetch.Invariant.Slots.{Lined-length, any_slot_failed-Live, live_slots}
use earth_sci_io.Prefetch.Invariant.Frame.{
  Extends, Extends-refl, Extends-trans, admit_slot-Extends, admit_slot-admitted,
}

pub drop-cons :
    (n : ℕ) (xs : List ℕ) (e : ℕ) (rest : List ℕ)
    → drop n xs ≡ e ∷ rest
    → (get_elem? xs n ≡ some e) × (drop (suc n) xs ≡ rest)
drop-cons zero [] e rest h = cc
drop-cons zero (x ∷ xs) e rest h = (cc h, cc h)
drop-cons (suc n) [] e rest h = cc
drop-cons (suc n) (x ∷ xs) e rest h = drop-cons n xs e rest h

drop-nil : (n : ℕ) (xs : List ℕ) → drop n xs ≡ [] → length xs ≤ n
drop-nil zero [] h = omega arith
drop-nil zero (x ∷ xs) h = cc
drop-nil (suc n) [] h = omega arith
drop-nil (suc n) (x ∷ xs) h = omega (arith, drop-nil n xs h)

module _ {T : Type 0} where
  any_slot_failed-nonempty :
      (cells : List (CellKey × Cell T)) (slots : List Slot)
      → any_slot_failed cells slots ≡ some true
      → 0 < length (outline slots)
  unfolding any_slot_failed
  any_slot_failed-nonempty cells [] h = cc
  any_slot_failed-nonempty cells (s ∷ slots) h = omega arith

  has_room-head :
      (cfg : Config) (s : State T) (keys : List CellKey)
      → has_room cfg s keys ≡ false
      → s.next < s.admitted
  unfolding has_room
  has_room-head cfg s keys h = elim (Bool-cases (ltb s.next s.admitted)) [
    | inl behind ↦ ltb→lt s.next s.admitted behind
    | inr head ↦ let e : true ≡ false = rw head at h in absurd (cc e)
  ]

module _ {T : Type 0} {cfg : Config} {w : Wording} {Made : ℕ → ℕ → Produce T → Type 0} where
  pub IsSound-admitted :
      {jobs : List Job} {s : State T} → IsSound cfg w Made jobs s → s.next ≤ s.admitted
  IsSound-admitted {jobs} {s} v =
      omega (arith, Lined-length cfg s.order s.next s.admitted (outline s.slots) v.window.lined)

module _ {T : Type 0} (cfg : Config) (w : Wording) (Made : ℕ → ℕ → Produce T → Type 0)
    (jobs : List Job) where
  -- What a part of `admit` comes to: it returns, from `s`, the state `state`.
  pub record Admits (s : State T) (r : Option (State T)) : Type 0 where
    pub state : State T
    pub result : r ≡ some state
    pub sound : IsSound cfg w Made jobs state
    pub extends : Extends s state
    pub headed : 0 < cfg.depth → s.next < length s.order → s.next < state.admitted

  stays :
      {s : State T} {r : Option (State T)}
      → r ≡ some s
      → IsSound cfg w Made jobs s
      → (0 < cfg.depth → s.next < length s.order → s.next < s.admitted)
      → Admits s r
  stays {s} e v h = record {
    state = s;
    result = e;
    sound = v;
    extends = Extends-refl s;
    headed = h;
  }

  pub admit_loop-Admits :
      (rest : List ℕ) (s : State T)
      → drop s.admitted s.order ≡ rest
      → IsSound cfg w Made jobs s
      → Admits s (admit_loop cfg rest s)
  unfolding admit_loop any_failed
  admit_loop-Admits [] s e v = stays refl v (λ _ h. omega (arith, drop-nil s.admitted s.order e))
  admit_loop-Admits (epoch ∷ rest) s e v =
      let placed = drop-cons s.admitted s.order epoch rest e in
      let keys = keys_of cfg epoch in
      let collected = keys_in-keys_of cfg epoch (
        All-get_elem? (λ e. e < length cfg.boundaries) s.order s.admitted epoch v.window.ranged
          placed.0) in
      let failing =
        any_slot_failed-Live s.cells s.slots
          (live_slots s.cells (outline s.slots) v.samples.counted) in
      elim (Bool-cases (ltb (s.admitted - s.next) cfg.depth)) [
        | inr full ↦ stays (rw full) v (λ d _. ground (arith, full))
        | inl room ↦ elim (Bool-cases failing.0) [
          | inl bad ↦ stays (rw (room, failing.1, bad)) v (λ _ _. omega (
            arith,
            any_slot_failed-nonempty s.cells s.slots (failing.1 ∙ ap some bad),
            Lined-length cfg s.order s.next s.admitted (outline s.slots) v.window.lined,
          ))
          | inr well ↦ elim (Bool-cases (has_room cfg s keys)) [
            | inr tight ↦
                stays (rw (room, failing.1, well, collected, tight)) v
                  (λ _ _. has_room-head cfg s keys tight)
            | inl fits ↦
                let slot_sound = admit_slot-IsSound jobs epoch s placed.0 (ltb→lt _ _ room) v in
                let x = admit_slot-Extends keys s in
                let more = admit_slot-admitted keys s in
                let r =
                  admit_loop-Admits rest (admit_slot keys s) (rw (x.order, more) placed.1)
                    slot_sound in
                record {
                  state = r.state;
                  result = rw (room, failing.1, well, collected, fits) r.result;
                  sound = r.sound;
                  extends = Extends-trans x r.extends;
                  headed = λ _ _. omega (arith, more, r.extends.admitted, IsSound-admitted v);
                }
          ]
        ]
      ]
