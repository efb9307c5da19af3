-- ===== src/Samples/Trees.antt =====
-- Trees of restrictions: src/pkgcore/restrictions.
use pkgcore.Prelude.{ℕ, Bool, true, false, ◌≡◌, refl, List, [], ◌∷◌, some, leb}
use pkgcore.Restrictions.{Restrict, Restricts, leaf, and_of, or_of, just_one_of, nil, cons, matches}
use pkgcore.Restrictions.Counts.{group_met, matches-group_met}
use pkgcore.Restrictions.Solutions.{Solution, dnf_solutions, cnf_solutions, solvable, solvable_all}
use pkgcore.Restrictions.Solutions.Dnf.{dnf_holds}
use pkgcore.Restrictions.Solutions.Cnf.{cnf_holds}
use pkgcore.Restrictions.Solutions.Defined.{is_some, convertible}
use pkgcore.Restrictions.Solutions.Whole.{
  dnf_solutions_lem, cnf_solutions_lem, cnf_solutions_raises, dnf_solutions-negated_or,
}
use pkgcore.Restrictions.RequiredUse.{
  Rule, Rules, flags, conditional, Constraint, Compiled, use_flags_state_any, condition,
  to_single_constraint, to_multiple_constraint, guard_all,
}
use pkgcore.Restrictions.RequiredUse.Agree.{all_hold, to_multiple_constraint-to_single_constraint}

-- The values are numbers; a leaf is met by values from its own on.
abbrev small : ℕ → Bool
small n = leb n 3

-- ( 1 || ( 2 && 5 ) ) && 3
abbrev tree : Restrict ℕ
tree = and_of false (
    cons (or_of false (cons (leaf 1) (cons (and_of false (cons (leaf 2) (cons (leaf 5) nil))) nil)))
      (cons (leaf 3) nil))

tree-solvable : solvable tree ≡ true
unfolding solvable
tree-solvable = refl

tree-convertible : convertible false tree ≡ true
unfolding convertible
tree-convertible = refl

dnf_solutions_lem_example : dnf_holds small (dnf_solutions false tree) ≡ matches small tree
dnf_solutions_lem_example = dnf_solutions_lem small false tree tree-solvable

cnf_solutions_lem_example :
    (cs : List (Solution ℕ)) × (cnf_solutions false tree ≡ some cs)
    × (cnf_holds small cs ≡ matches small tree)
cnf_solutions_lem_example = cnf_solutions_lem small false tree tree-solvable tree-convertible

cnf_solutions_raises_example : is_some (cnf_solutions true tree) ≡ convertible true tree
cnf_solutions_raises_example = cnf_solutions_raises true tree

-- The tree holds of small numbers, so a match of its negated Or is False.
abbrev tree_or_nine : Restricts ℕ
tree_or_nine = cons tree (cons (leaf 9) nil)

tree_or_nine-solvable : solvable_all tree_or_nine ≡ true
unfolding solvable
tree_or_nine-solvable = refl

dnf_solutions-negated_or_example :
    dnf_holds small (dnf_solutions false (or_of true tree_or_nine)) ≡ true
dnf_solutions-negated_or_example =
    dnf_solutions-negated_or small false tree_or_nine tree_or_nine-solvable

abbrev just_one : Restrict ℕ
just_one = just_one_of true (cons (leaf 1) (cons (leaf 7) (cons (leaf 2) nil)))

matches-group_met_example : matches small just_one ≡ group_met small just_one
matches-group_met_example = matches-group_met small just_one

-- 1? ( 2 ), with the flags 1 and 2 on
abbrev needs : Rule
needs = conditional false (1 ∷ []) (Rules.cons (flags false (2 ∷ [])) Rules.nil)

abbrev needed : Constraint
needed = use_flags_state_any false (2 ∷ [])

abbrev one_constraint : Compiled
one_constraint = (condition false (1 ∷ []) (needed ∷ []), 1 ∷ 2 ∷ [])

needs-single : to_single_constraint needs ≡ some one_constraint
unfolding to_single_constraint
needs-single = refl

needs-multiple :
    to_multiple_constraint needs ≡ some (guard_all false (1 ∷ []) ((needed, 2 ∷ []) ∷ []))
unfolding to_multiple_constraint to_single_constraint
needs-multiple = refl

to_multiple_constraint-to_single_constraint_example :
    all_hold (1 ∷ 2 ∷ []) (guard_all false (1 ∷ []) ((needed, 2 ∷ []) ∷ []))
    ≡ one_constraint.0 (1 ∷ 2 ∷ [])
to_multiple_constraint-to_single_constraint_example =
    to_multiple_constraint-to_single_constraint (1 ∷ 2 ∷ []) needs one_constraint
      (guard_all false (1 ∷ []) ((needed, 2 ∷ []) ∷ [])) needs-single needs-multiple
