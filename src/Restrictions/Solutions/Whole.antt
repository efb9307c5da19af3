-- ===== src/Restrictions/Solutions/Whole.antt =====
-- The normal forms of a whole tree: what they mean, that they exist, and where they are wrong.
use pkgcore.Prelude.{
  Bool, true, false, not, ◌||◌, ◌≡◌, refl, ◌∙◌, any-append, List, some, arith, is_empty,
  Option-cases, inl, inr,
}
use pkgcore.Restrictions.{Restrict, Restricts, or_of, nil, cons, matches, match_any}
use pkgcore.Restrictions.Solutions.{
  Solution, and_of_negations, negations, dnf_solutions, cnf_solutions, solvable, solvable_all,
  dnf_or,
}
use pkgcore.Restrictions.Solutions.Defined.{is_some, convertible, cnf_defined, dnf_nonempty}
use pkgcore.Restrictions.Solutions.Dnf.{holds, dnf_holds, dnf_sound}
use pkgcore.Restrictions.Solutions.Cnf.{cnf_holds, cnf_sound}

-- Of a tree in which no Or is negated or empty, and no And is negated and empty, some solution of the
-- disjunctive form holds of the values exactly when the tree matches them.
pub dnf_solutions_lem :
    {A : Type 0} (test : A → Bool) (full : Bool) (r : Restrict A)
    → solvable r ≡ true
    → dnf_holds test (dnf_solutions full r) ≡ matches test r
dnf_solutions_lem test full r h = dnf_sound test full r h

-- The disjunctive form of a tree always has a solution: the assertion in `cnf_solutions` and in
-- the generators holds of every tree.
dnf_solutions_never_empty :
    {A : Type 0} (full : Bool) (r : Restrict A) → is_empty (dnf_solutions full r) ≡ false
dnf_solutions_never_empty full r = dnf_nonempty full r

-- Of a tree in which no Or is negated or empty, no And is negated and empty, and no And is negated
-- among the conjunctions that are descended into, the conjunctive form exists, and all its clauses
-- hold of the values exactly when the tree matches them.
pub cnf_solutions_lem :
    {A : Type 0} (test : A → Bool) (full : Bool) (r : Restrict A)
    → solvable r ≡ true
    → convertible full r ≡ true
    → (cs : List (Solution A)) × (cnf_solutions full r ≡ some cs)
      × (cnf_holds test cs ≡ matches test r)
cnf_solutions_lem test full r h k = elim (Option-cases (cnf_solutions full r)) [
  | inl e ↦ (let d = cnf_defined full r ∙ k in cc (d, e))
  | inr (cs, e) ↦ (cs, e, cnf_sound test full r h e)
]

-- `cnf_solutions` raises NotImplementedError exactly when an And or an Or is negated among the
-- conjunctions that it descends into.
pub cnf_solutions_raises :
    {A : Type 0} (full : Bool) (r : Restrict A)
    → is_some (cnf_solutions full r) ≡ convertible full r
cnf_solutions_raises full r = cnf_defined full r

holds-negations :
    {A : Type 0} (test : A → Bool) (rs : Restricts A)
    → holds test (negations rs) ≡ not (match_any test false rs)
unfolding negations matches
holds-negations test nil = refl
holds-negations test (cons r rs) = ground (arith, holds-negations test rs)

or_false : (b : Bool) → (b || false) ≡ b
or_false b = ground arith

one_or_other : (a m b : Bool) → a ≡ not m → b ≡ m → (a || b) ≡ true
one_or_other a m b h k = ground arith

-- Of a negated Or whose members hold no negated or empty Or and no negated empty And, some solution
-- of the disjunctive form holds of all values, whatever the members are.
pub dnf_solutions-negated_or :
    {A : Type 0} (test : A → Bool) (full : Bool) (rs : Restricts A)
    → solvable_all rs ≡ true
    → dnf_holds test (dnf_solutions full (or_of true rs)) ≡ true
unfolding dnf_solutions matches and_of_negations solvable
dnf_solutions-negated_or test full nil h = ground (arith, holds-negations test nil)
dnf_solutions-negated_or test full (cons r rs) h =
    any-append (holds test) (and_of_negations (cons r rs)) (dnf_or full (cons r rs))
    ∙ one_or_other (dnf_holds test (and_of_negations (cons r rs)))
        (match_any test false (cons r rs)) (dnf_holds test (dnf_or full (cons r rs)))
        (or_false (holds test (negations (cons r rs))) ∙ holds-negations test (cons r rs))
        (dnf_sound test full (or_of false (cons r rs)) h)
