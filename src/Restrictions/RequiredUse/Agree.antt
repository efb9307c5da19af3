-- ===== src/Restrictions/RequiredUse/Agree.antt =====
-- The many constraints of a requirement against the single one.
use pkgcore.Prelude.{
  ℕ, Bool, true, false, ◌&&◌, ◌||◌, ◌≡◌, refl, ap, sym, ◌∙◌, List, [], ◌∷◌, ◌++◌, Option, none,
  some, ◌>>=◌, >>=-eq-some, if◌then◌else◌, all, all-append, arith,
}
use pkgcore.Restrictions.RequiredUse.{
  Rule, flags, conditional, any_of, all_of, exactly_one_of, at_most_one_of, Rules, nil, cons,
  Constraint, Compiled, condition, and_constraint, children_of, unzip, single_of, guard_all,
  to_single_constraint, to_single_all, to_multiple_constraint, to_multiple_all, issubset, same_bool,
}

-- All of the constraints hold of the flags that are on.
abbrev pub all_hold : List ℕ → List Compiled → Bool
all_hold on = all (λ c. c.0 on)

abbrev holds_of : List ℕ → Option (List Compiled) → Bool
holds_of on none = true
holds_of on (some cs) = all_hold on cs

children_hold :
    (on : List ℕ) (cs : List Compiled) → all (λ c. c on) (children_of cs) ≡ all_hold on cs
children_hold on [] = refl
children_hold on ((c, vars) ∷ cs) = ap (λ b. c on && b) (children_hold on cs)

or_and : (p a b : Bool) → ((p || (a && true)) && (p || b)) ≡ (p || (a && b))
or_and p a b = ground arith

guards_hold :
    (negate : Bool) (vals on : List ℕ) (cs : List Compiled)
    → all_hold on (guard_all negate vals cs)
      ≡ (if (same_bool (issubset vals on) negate) then true else all_hold on cs)
unfolding condition
guards_hold negate vals on [] = ground arith
guards_hold negate vals on ((c, vars) ∷ cs) = ground (arith, guards_hold negate vals on cs)

abbrev value_of : List ℕ → Option Compiled → Bool
value_of on none = true
value_of on (some c) = c.0 on

and_true : (b : Bool) → (b && true) ≡ b
and_true b = ground arith

single_hold :
    (on : List ℕ) (o : Option Compiled) {c : Compiled} {cs : List Compiled}
    → o ≡ some c
    → single_of o ≡ some cs
    → all_hold on cs ≡ c.0 on
single_hold on none e h = cc
single_hold on (some d) e h = ap (holds_of on) (sym h) ∙ and_true (d.0 on) ∙ ap (value_of on) e

unzip_step :
    (on : List ℕ) (f : List Constraint → Constraint) (g : List ℕ → List ℕ) (cs : List Compiled)
    {c : Compiled}
    → (unzip cs >>= λ u. some (f u.0, g u.1)) ≡ some c
    → c.0 on ≡ f (children_of cs) on
unzip_step on f g [] h = cc
unzip_step on f g (d ∷ ds) h = ap (value_of on) (sym h)

join_step :
    (on : List ℕ) (xs ys : List Compiled) (c : Compiled) (ds : List Compiled)
    → all_hold on xs ≡ c.0 on
    → all_hold on ys ≡ all_hold on ds
    → all_hold on (xs ++ ys) ≡ all_hold on (c ∷ ds)
join_step on xs ys c ds h k = all-append (λ d. d.0 on) xs ys ∙ cc (h, k)

and_children :
    (on : List ℕ) (ds : List Compiled) → and_constraint false (children_of ds) on ≡ all_hold on ds
unfolding and_constraint
and_children on ds = ground (arith, children_hold on ds)

condition_children :
    (negate : Bool) (vals on : List ℕ) (ds : List Compiled)
    → condition negate vals (children_of ds) on
      ≡ (if same_bool (issubset vals on) negate then true else all_hold on ds)
unfolding condition
condition_children negate vals on ds = ground (arith, children_hold on ds)

mutual
  unfolding to_single_constraint to_multiple_constraint condition and_constraint

  pub agree :
      (on : List ℕ) (r : Rule) {c : Compiled} {cs : List Compiled}
      → to_single_constraint r ≡ some c
      → to_multiple_constraint r ≡ some cs
      → all_hold on cs ≡ c.0 on
  agree on (flags negate vals) e h = single_hold on (to_single_constraint (flags negate vals)) e h
  agree on (any_of negate rs) e h = single_hold on (to_single_constraint (any_of negate rs)) e h
  agree on (exactly_one_of negate rs) e h =
      single_hold on (to_single_constraint (exactly_one_of negate rs)) e h
  agree on (at_most_one_of negate rs) e h =
      single_hold on (to_single_constraint (at_most_one_of negate rs)) e h
  agree on (all_of true rs) e h = cc
  agree on (all_of false rs) e h =
      let (ds, e1, e2) = >>=-eq-some (to_single_all rs) _ e in
      agree_all on rs e1 h
      ∙ sym (unzip_step on (and_constraint false) (λ v. v) ds e2 ∙ and_children on ds)
  agree on (conditional negate vals payload) e h =
      let (ds, e1, e2) = >>=-eq-some (to_single_all payload) _ e in
      let (cs, h1, h2) = >>=-eq-some (to_multiple_all payload) _ h in
      ap (holds_of on) (sym h2)
      ∙ guards_hold negate vals on cs
      ∙ ap (λ b. if same_bool (issubset vals on) negate then true else b)
          (agree_all on payload e1 h1)
      ∙ sym (
          unzip_step on (condition negate vals) (λ v. vals ++ v) ds e2
          ∙ condition_children negate vals on ds)

  agree_all :
      (on : List ℕ) (rs : Rules) {ds cs : List Compiled}
      → to_single_all rs ≡ some ds
      → to_multiple_all rs ≡ some cs
      → all_hold on cs ≡ all_hold on ds
  agree_all on nil e h = ap (holds_of on) (sym h ∙ e)
  agree_all on (cons r rs) e h =
      let (c, e1, e2) = >>=-eq-some (to_single_constraint r) _ e in
      let (ds, e3, e4) = >>=-eq-some (to_single_all rs) _ e2 in
      let (xs, h1, h2) = >>=-eq-some (to_multiple_constraint r) _ h in
      let (ys, h3, h4) = >>=-eq-some (to_multiple_all rs) _ h2 in
      ap (holds_of on) (sym h4)
      ∙ join_step on xs ys c ds (agree on r e1 h1) (agree_all on rs e3 h3)
      ∙ ap (holds_of on) e4

-- Where both exist, the constraints that `to_multiple_constraint` makes of a requirement all hold
-- of a set of flags exactly when the one constraint of `to_single_constraint` does.
pub to_multiple_constraint-to_single_constraint :
    (on : List ℕ) (r : Rule) (c : Compiled) (cs : List Compiled)
    → to_single_constraint r ≡ some c
    → to_multiple_constraint r ≡ some cs
    → all_hold on cs ≡ c.0 on
to_multiple_constraint-to_single_constraint on r c cs e h = agree on r e h
