-- ===== src/Ff10/Members/Laws.antt =====
-- format/ff10.rs: what is selected, in order, and when the selection is refused.
use earth_sci_io.Ff10.Glob.{GlobTok, glob_match, glob_tokens}
use earth_sci_io.Ff10.Glob.Matching.{matches}
use earth_sci_io.Ff10.Glob.Running.{glob_match-matches}
use earth_sci_io.Exec.{Result, err, ok}
use earth_sci_io.Exec.Inversion.{and_then-eq-ok, ok-injective}
use earth_sci_io.Error.{Error}
use earth_sci_io.Prelude.{
  All, Bool, Bool-cases, List, Option, Text, [], ap, arith, eq, false, inl, inr, list_beq_sound,
  list_eq, member, none, or_false, prod_eq, refl, some, subst, sym, true, ℕ, ℕ_eq, ◌&&◌, ◌||◌, ◌∙◌,
  ◌∷◌, ◌≡◌, ◌≢◌,
}
use earth_sci_io.Ff10.Members.{
  Printing, add_glob, add_hits, add_members, glob_hits, no_member, not_empty, said, select_members,
  set_extend, set_insert, text_lt,
}

-- Each name comes before the next.
abbrev pub IsOrdered : List Text → Type 0
IsOrdered [] = Unit
IsOrdered (s ∷ []) = Unit
IsOrdered (s ∷ t ∷ ss) = (text_lt s t ≡ true) × IsOrdered (t ∷ ss)

or_idem : (a b : Bool) → (a || b) ≡ (a || (a || b))
or_idem true b = refl
or_idem false b = refl

or_swap : (a b c : Bool) → (a || (b || c)) ≡ (b || (a || c))
or_swap true true c = refl
or_swap true false c = refl
or_swap false true c = refl
or_swap false false c = refl

or_assoc : (a b c : Bool) → (a || (b || c)) ≡ ((b || a) || c)
or_assoc true true c = refl
or_assoc true false c = refl
or_assoc false b c = ap (λ x. x || c) (or_false b)

text_lt-total : (s t : Text) → eq s t ≡ false → text_lt s t ≡ false → text_lt t s ≡ true
text_lt-total [] [] e h = cc
text_lt-total [] (c ∷ t) e h = cc
text_lt-total (b ∷ s) [] e h = refl
text_lt-total (b ∷ s) (c ∷ t) e h = ground (arith, text_lt-total s t)

-- A name after the head stays after it.
insert_after :
    (s t : Text) (ss : List Text)
    → text_lt s t ≡ true
    → IsOrdered (s ∷ ss)
    → IsOrdered (set_insert t ss)
    → IsOrdered (s ∷ set_insert t ss)
unfolding set_insert
insert_after s t [] h o k = (h, tt)
insert_after s t (r ∷ ss) h o k = elim (Bool-cases (eq t r)) [
  | inl same ↦ rw same o
  | inr apart ↦ elim (Bool-cases (text_lt t r)) [
    | inl before ↦ rw (apart, before) (h, (before, o.1))
    | inr behind ↦
        let rest : IsOrdered (r ∷ set_insert t ss) = rw (apart, behind) at k in
        rw (apart, behind) (o.0, rest)
  ]
]

IsOrdered-tail : (s : Text) (ss : List Text) → IsOrdered (s ∷ ss) → IsOrdered ss
IsOrdered-tail s [] o = tt
IsOrdered-tail s (t ∷ ss) o = o.1

set_insert-IsOrdered : (t : Text) (ss : List Text) → IsOrdered ss → IsOrdered (set_insert t ss)
unfolding set_insert
set_insert-IsOrdered t [] o = tt
set_insert-IsOrdered t (s ∷ ss) o = elim (Bool-cases (eq t s)) [
  | inl same ↦ rw same o
  | inr apart ↦ elim (Bool-cases (text_lt t s)) [
    | inl before ↦ rw (apart, before) (before, o)
    | inr behind ↦
        let rest =
          insert_after s t ss (text_lt-total t s apart behind) o
            (set_insert-IsOrdered t ss (IsOrdered-tail s ss o)) in
        rw (apart, behind) rest
  ]
]

member-set_insert :
    (n t : Text) (ss : List Text) → member n (set_insert t ss) ≡ (eq t n || member n ss)
unfolding set_insert
member-set_insert n t [] = refl
member-set_insert n t (s ∷ ss) = elim (Bool-cases (eq t s)) [
  | inl same ↦
      let e : t ≡ s = list_beq_sound t s same in rw same (rw e (or_idem (eq s n) (member n ss)))
  | inr apart ↦ elim (Bool-cases (text_lt t s)) [
    | inl before ↦ rw (apart, before)
    | inr behind ↦
        rw (apart, behind, member-set_insert n t ss) (or_swap (eq s n) (eq t n) (member n ss))
  ]
]

set_extend-IsOrdered : (ts ss : List Text) → IsOrdered ss → IsOrdered (set_extend ts ss)
unfolding set_extend
set_extend-IsOrdered [] ss o = o
set_extend-IsOrdered (t ∷ ts) ss o =
    set_extend-IsOrdered ts (set_insert t ss) (set_insert-IsOrdered t ss o)

member-set_extend :
    (n : Text) (ts ss : List Text) → member n (set_extend ts ss) ≡ (member n ts || member n ss)
unfolding set_extend
member-set_extend n [] ss = refl
member-set_extend n (t ∷ ts) ss =
    member-set_extend n ts (set_insert t ss)
    ∙ rw (member-set_insert n t ss) (or_assoc (member n ts) (eq t n) (member n ss))

-- What `add_members` comes to.
added :
    (p : Printing) (names ms sel : List Text) {out : List Text}
    → add_members p names ms sel ≡ ok out
    → (out ≡ set_extend ms sel) × All (λ m. member m names ≡ true) ms
unfolding add_members set_extend
added p names [] sel h = (sym (ok-injective h), tt)
added p names (m ∷ ms) sel {out} h = elim (Bool-cases (member m names)) [
  | inl there ↦
      let rest : add_members p names ms (set_insert m sel) ≡ ok out = rw there at h in
      let r = added p names ms (set_insert m sel) rest in (r.0, (there, r.1))
  | inr absent ↦
      let f : ◌≡◌ {A = Result Error (List Text)} (err (no_member p m names)) (ok out) =
        rw absent at h in
      absurd (cc f)
]

said_glob : (toks : List GlobTok) (cs : List ℕ) → said (glob_match toks cs) ≡ matches toks cs
said_glob toks cs = ap said (glob_match-matches toks cs)

member-glob_hits :
    (p : Printing) (toks : List GlobTok) (n : Text) (names : List Text)
    → member n (glob_hits p toks names) ≡ (member n names && matches toks (p.chars n))
unfolding glob_hits
member-glob_hits p toks n [] = refl
member-glob_hits p toks n (s ∷ names) = elim (Bool-cases (said (glob_match toks (p.chars s)))) [
  | inl hit ↦
      rw (hit, member-glob_hits p toks n names) (kept (eq s n) (member n names) _ (told true hit))
  | inr miss ↦
      rw (miss, member-glob_hits p toks n names)
        (lost (eq s n) (member n names) _ (told false miss))
]
  where
    told :
        (b : Bool)
        → said (glob_match toks (p.chars s)) ≡ b
        → eq s n ≡ true
        → matches toks (p.chars n) ≡ b
    told b h e =
        subst (λ t. matches toks (p.chars t) ≡ b) (list_beq_sound s n e)
          (sym (said_glob toks (p.chars s)) ∙ h)

    kept : (a b c : Bool) → (a ≡ true → c ≡ true) → (a || (b && c)) ≡ ((a || b) && c)
    kept a b c h = ground (arith, h)

    lost : (a b c : Bool) → (a ≡ true → c ≡ false) → (b && c) ≡ ((a || b) && c)
    lost a b c h = ground (arith, h)

-- The members that a pattern chooses.
abbrev pub chosen : Printing → List Text → Option Text → Text → Bool
chosen p names none n = false
chosen p names (some g) n = member n names && matches (glob_tokens (p.chars g)) (p.chars n)

with_hits :
    (p : Printing) (names : List Text) (g : Text) (hits sel : List Text) {out : List Text}
    → add_hits p names g hits sel ≡ ok out
    → out ≡ set_extend hits sel
unfolding add_hits
with_hits p names g [] sel h = cc
with_hits p names g (x ∷ hits) sel h = sym (ok-injective h)

module _ (p : Printing) (names : List Text) where
  globbed :
      (glob : Option Text) (sel : List Text) {out : List Text}
      → add_glob p names glob sel ≡ ok out
      → IsOrdered sel
      → IsOrdered out × ((n : Text) → member n out ≡ (chosen p names glob n || member n sel))
  unfolding add_glob
  globbed none sel {out} h o =
      let e : sel ≡ out = ok-injective h in (subst IsOrdered e o, λ n. ap (member n) (sym e))
  globbed (some g) sel {out} h o =
      let toks = glob_tokens (p.chars g) in
      let e : out ≡ set_extend (glob_hits p toks names) sel = with_hits p names g _ sel h in
      (
        rw e (set_extend-IsOrdered (glob_hits p toks names) sel o),
        λ n.
            ap (member n) e
            ∙ (member-set_extend n (glob_hits p toks names) sel
                ∙ ap (λ b. b || member n sel) (member-glob_hits p toks n names)),
      )

  filled : (sel : List Text) {out : List Text} → not_empty sel ≡ ok out → (out ≡ sel) × (out ≢ [])
  unfolding not_empty
  filled [] h = cc
  filled (s ∷ sel) h = (sym (ok-injective h), λ e. cc (ok-injective h, e))

  -- The members that a selection yields are in strict byte order of their names, at least one,
  -- and exactly those that are named or that the pattern, by what it means, matches among the
  -- file members; and every named one is a member.
  pub select_members_selects :
      (members : List Text) (glob : Option Text) (sel : List Text)
      → select_members p names members glob ≡ ok sel
      → IsOrdered sel
        × (sel ≢ [])
        × All (λ m. member m names ≡ true) members
        × ((n : Text) → member n sel ≡ (chosen p names glob n || member n members))
  unfolding select_members
  select_members_selects members glob sel h =
      let a = and_then-eq-ok (add_members p names members []) _ h in
      let b = and_then-eq-ok (add_glob p names glob a.0) _ a.2 in
      let c = filled b.0 b.2 in
      let x = added p names members [] a.1 in
      let o : IsOrdered a.0 = rw x.0 (set_extend-IsOrdered members [] tt) in
      let y = globbed glob a.0 b.1 o in
      (
        rw c.0 y.0,
        c.1,
        x.1,
        λ n.
            ap (member n) c.0
            ∙ (y.1 n
                ∙ ap (λ b. chosen p names glob n || b)
                    (ap (member n) x.0 ∙ (member-set_extend n members [] ∙ sym (or_false _)))),
      )
