-- ===== src/Array/Select/Agreement.antt =====
-- format/mod.rs: the indices that a selector names without a length and with one.
use earth_sci_io.Prelude.{List, Option, Text, list_eq, none, some, sym, ℕ, ℕ_eq, ◌∙◌, ◌≡◌}
use earth_sci_io.Exec.{ok}
use earth_sci_io.Exec.Inversion.{and_then-eq-ok, ok-injective, some-injective}
use earth_sci_io.Array.Select.{
  AxisSelect, check_indices, check_last, indices, last, range, resolve_in, stepped_from,
  unbounded_indices, whole,
}
use earth_sci_io.Array.Select.Bounds.{stepped_from-ok}

-- Where a selector names indices before the length is known and resolves once it is known, the
-- indices are the same, in the same order.
pub unbounded_indices-resolve_in :
    (s : AxisSelect) (dim_len : ℕ) (name other_name : Text) (u v : List ℕ)
    → unbounded_indices s other_name ≡ ok (some u)
    → resolve_in s dim_len name ≡ ok v
    → u ≡ v
unfolding unbounded_indices resolve_in
unbounded_indices-resolve_in whole dim_len name other_name u v a b =
    absurd (no_list (ok-injective a))
  where
    no_list : ◌≡◌ {A = Option (List ℕ)} none (some u) → ⊥
    no_list e = cc
unbounded_indices-resolve_in (indices l) dim_len name other_name u v a b =
    let (t, fits, same) = and_then-eq-ok (check_indices name dim_len l) _ b in
    sym (some-injective (ok-injective a)) ∙ ok-injective same
unbounded_indices-resolve_in (range start stop step) dim_len name other_name u v a b =
    let (l, from, same) = and_then-eq-ok (stepped_from other_name start stop step) _ a in
    let (k, from', b₁) = and_then-eq-ok (stepped_from name start stop step) _ b in
    let (t, fits, same') = and_then-eq-ok (check_last name start stop step dim_len (last k)) _ b₁ in
    sym (some-injective (ok-injective same))
    ∙ sym (stepped_from-ok other_name start stop step l from)
    ∙ stepped_from-ok name start stop step k from'
    ∙ ok-injective same'
