-- ===== src/Prefetch/System/Work.antt =====
-- prefetch.rs: how much is left to decode: the queue, the decodes that run, and the entries of the
-- order that no slot holds yet.
use earth_sci_io.Prefetch.Settle.{settle, settle_slots}
use earth_sci_io.Prefetch.Invariant.Keys.{keys_in-eq}
use earth_sci_io.Prefetch.WarmUp.{warm_epochs, warm_queued, warm_up, warmed}
use earth_sci_io.Prefetch.Invariant.Loop.{drop-cons}
use earth_sci_io.Prefetch.Invariant.Frame.{admit_slot-Extends, admit_slot-admitted}
use native.Mathlib.Nat.{le_trans, mul-suc}
use earth_sci_io.Prelude.{
  Bool-cases, List, Option, Text, [], ap, arith, drop, if◌then◌else◌, inl, inr, length,
  length-append, list_eq, lookup, ltb, max, min, none, prod_eq, refl, some, subst, suc, take, ℕ,
  ℕ_eq, ◌*◌, ◌+◌, ◌-◌, ◌∷◌, ◌≡◌, ◌≤◌,
}
use earth_sci_io.Exec.Inversion.{option_then-some, some-injective}
use earth_sci_io.Prefetch.State.{Cell, CellKey, Config, FileRef, State, any_failed, is_active}
use earth_sci_io.Prefetch.Admit.{
  add_cell, add_fresh, add_key, add_keys, admit, admit_loop, admit_slot, has_room, keys_from,
  keys_in, keys_of, push_slot, revived,
}

length-keys_from :
    (cfg : Config) (epoch i : ℕ) (ms : List Text) → length (keys_from cfg epoch i ms) ≡ length ms
unfolding keys_from
length-keys_from cfg epoch i [] = refl
length-keys_from cfg epoch i (m ∷ ms) = ap suc (length-keys_from cfg epoch (suc i) ms)

length-keys_of : (cfg : Config) (epoch : ℕ) → length (keys_of cfg epoch) ≡ length cfg.members
unfolding keys_of
length-keys_of cfg epoch = length-keys_from cfg epoch 0 cfg.members

module _ {T : Type 0} where
  length-queue_fresh :
      (r : Option (T × ℕ)) (k : CellKey) (s : State T)
      → length (add_fresh r k s).queue ≤ length s.queue + 1
  unfolding add_fresh
  length-queue_fresh none k s = omega (arith, length-append {0} s.queue ((s.generation, k) ∷ []))
  length-queue_fresh (some (d, bytes)) k s = omega arith

  length-queue_cell :
      (o : Option (Cell T)) (k : CellKey) (s : State T)
      → length (add_cell o k s).queue ≤ length s.queue + 1
  unfolding add_cell
  length-queue_cell none k s = length-queue_fresh (revived (s.last_taken k.0) k.1) k s
  length-queue_cell (some c) k s = omega arith

  length-queue_keys :
      (ks : List CellKey) (s : State T) → length (add_keys ks s).queue ≤ length s.queue + length ks
  unfolding add_keys add_key
  length-queue_keys [] s = omega arith
  length-queue_keys (k ∷ ks) s =
      omega (arith, length-queue_cell (lookup k s.cells) k s, length-queue_keys ks (add_key k s))

  length-queue_slot :
      (ks : List CellKey) (s : State T)
      → length (admit_slot ks s).queue ≤ length s.queue + length ks
  unfolding admit_slot push_slot
  length-queue_slot ks s = length-queue_keys ks s

module _ {T : Type 0} (cfg : Config) where
  -- The decodes to start, counted for every member of an entry.
  unfoldable pub to_start : State T → ℕ
  to_start s = length s.queue + length cfg.members * length (drop s.admitted s.order)

  admit_slot-to_start :
      (epoch : ℕ) (rest : List ℕ) (s : State T)
      → drop s.admitted s.order ≡ epoch ∷ rest
      → to_start (admit_slot (keys_of cfg epoch) s) ≤ to_start s
  unfolding to_start
  admit_slot-to_start epoch rest s d =
      let keys = keys_of cfg epoch in
      let x = admit_slot-Extends keys s in
      let after : drop (admit_slot keys s).admitted (admit_slot keys s).order ≡ rest =
        rw (x.order, admit_slot-admitted keys s) (drop-cons s.admitted s.order epoch rest d).1 in
      rw (d, after)
        (omega (
          arith,
          length-queue_slot keys s,
          length-keys_of cfg epoch,
          mul-suc (length cfg.members) (length rest),
        ))

  admit_loop-to_start :
      (rest : List ℕ) (s t : State T)
      → drop s.admitted s.order ≡ rest
      → admit_loop cfg rest s ≡ some t
      → to_start t ≤ to_start s
  unfolding admit_loop
  admit_loop-to_start [] s t d e = rw (some-injective e) (omega arith)
  admit_loop-to_start (epoch ∷ rest) s t d e =
      elim (Bool-cases (ltb (s.admitted - s.next) cfg.depth)) [
        | inr full ↦
            let same : ◌≡◌ {A = Option (State T)} (some s) (some t) = rw full at e in
            rw (some-injective same) (omega arith)
        | inl room ↦
            let keys = keys_of cfg epoch in
            let x = option_then-some (any_failed s) _ (rw room at e) in
            elim (Bool-cases x.0) [
              | inl bad ↦
                  let same : ◌≡◌ {A = Option (State T)} (some s) (some t) = rw bad at x.2 in
                  rw (some-injective same) (omega arith)
              | inr well ↦
                  let y = option_then-some (keys_in cfg epoch 0 cfg.members) _ (rw well at x.2) in
                  let ends : (if has_room cfg s keys
                        then admit_loop cfg rest (admit_slot keys s)
                        else some s)
                      ≡ some t =
                    subst
                      (λ keys.
                        (if has_room cfg s keys
                          then admit_loop cfg rest (admit_slot keys s)
                          else some s)
                        ≡ some t)
                      (keys_in-eq cfg epoch y.0 y.1) y.2 in
                  elim (Bool-cases (has_room cfg s keys)) [
                    | inr tight ↦
                        let same : ◌≡◌ {A = Option (State T)} (some s) (some t) =
                          rw tight at ends in
                        rw (some-injective same) (omega arith)
                    | inl fits ↦
                        let ran : admit_loop cfg rest (admit_slot keys s) ≡ some t =
                          rw fits at ends in
                        let y = admit_slot-Extends keys s in
                        le_trans
                          (admit_loop-to_start rest (admit_slot keys s) t
                            (rw (y.order, admit_slot-admitted keys s)
                              (drop-cons s.admitted s.order epoch rest d).1)
                            ran)
                          (admit_slot-to_start epoch rest s d)
                  ]
            ]
      ]

  pub settle-to_start : (s t : State T) → settle cfg s ≡ some t → to_start t ≤ to_start s
  unfolding settle to_start
  settle-to_start s t e =
      let x = option_then-some (settle_slots cfg s.cells s.slots s.stats) _ e in
      rw (← some-injective x.2) (omega arith)

  warmed-to_start :
      (end : ℕ) (q : List (ℕ × ℕ × FileRef) × List (ℕ × Text)) (s : State T)
      → to_start (warmed end s q) ≡ to_start s
  unfolding warmed to_start
  warmed-to_start end q s = refl

  warm_queued-to_start : (s t : State T) → warm_queued cfg s ≡ some t → to_start t ≤ to_start s
  unfolding warm_queued
  warm_queued-to_start s t e =
      let end : ℕ = min (s.admitted + cfg.fetch_ahead) (length s.order) in
      let start : ℕ = max s.fetch_end s.admitted in
      let y =
        option_then-some
          (warm_epochs cfg s.generation (take (end - start) (drop start s.order))
            (s.fetch_queue, s.fetched))
          (λ q. some (warmed end s q)) e in
      rw (← some-injective y.2) (omega (arith, warmed-to_start end y.0 s))

  warm_up-to_start : (s t : State T) → warm_up cfg s ≡ some t → to_start t ≤ to_start s
  unfolding warm_up to_start
  warm_up-to_start s t e = elim (Bool-cases (ltb 0 cfg.fetch_ahead)) [
    | inr off ↦
        let same : ◌≡◌ {A = Option (State T)} (some s) (some t) = rw off at e in
        rw (some-injective same) (omega arith)
    | inl on ↦
        let x = option_then-some (any_failed s) _ (rw on at e) in
        elim (Bool-cases x.0) [
          | inl bad ↦
              let same : ◌≡◌ {A = Option (State T)} (some s) (some t) = rw bad at x.2 in
              rw (some-injective same) (omega arith)
          | inr well ↦ warm_queued-to_start s t (rw well at x.2)
        ]
  ]

  pub admit-to_start : (s t : State T) → admit cfg s ≡ some t → to_start t ≤ to_start s
  unfolding admit
  admit-to_start s t e = elim (Bool-cases (is_active s.phase)) [
    | inr still ↦
        let same : ◌≡◌ {A = Option (State T)} (some s) (some t) = rw still at e in
        rw (some-injective same) (omega arith)
    | inl going ↦
        let a = option_then-some (admit_loop cfg (drop s.admitted s.order) s) _ (rw going at e) in
        let b = option_then-some (settle cfg a.0) _ a.2 in
        le_trans (warm_up-to_start b.0 t b.2) (
          le_trans (settle-to_start a.0 b.0 b.1)
            (admit_loop-to_start (drop s.admitted s.order) s a.0 refl a.1))
  ]
