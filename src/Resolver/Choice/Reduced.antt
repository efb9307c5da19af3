-- ===== src/Resolver/Choice/Reduced.antt =====
-- What `reduce_atoms` leaves behind and returns.
use pkgcore.Prelude.{
  ℕ, Bool, true, false, not, ◌≡◌, refl, ap, ◌∙◌, List, ◌∷◌, ◌++◌, Option, some, ◌>>=◌,
  if◌then◌else◌,
}
use pkgcore.Resolver.Choice.{
  Package, Deps, ChoicePoint, choice_point, reset_iters, select, rounds, add_filters, start_rounds,
  reduce_atoms,
}
use pkgcore.Resolver.Choice.Chosen.{
  all_met, is_usable, first_usable, result_of, rounds-first_usable,
}

abbrev pair : Option Package → Bool → Option Package × Bool
pair x b = (x, b)

pair_if :
    (b : Bool) (x y : Option Package)
    → some (if b then pair x false else pair y true) ≡ some (pair (if b then x else y) (not b))
pair_if true x y = refl
pair_if false x y = refl

-- On a new choice point, `reduce_atoms` selects the first of the packages each of whose
-- dependency clauses has an atom that is not filtered; it returns False exactly when that is the
-- first package of all, also where alternatives were filtered out of the clauses of that package.
pub reduce_atoms-choice_point :
    (atoms : List ℕ) (p : Package) (ms : List Package)
    → result_of (reduce_atoms atoms (choice_point (p ∷ ms)))
      ≡ some (first_usable atoms (p ∷ ms), not (is_usable atoms p))
unfolding reduce_atoms choice_point reset_iters start_rounds rounds
reduce_atoms-choice_point atoms p ms =
    rounds-first_usable (select (add_filters (choice_point (p ∷ ms)) atoms) p ms) ms (reset_iters p)
      refl
    ∙ pair_if (is_usable atoms p) (some p) (first_usable atoms ms)

-- On a choice point that has the package p selected with dependencies d, `reduce_atoms` keeps p
-- and returns False, even if alternatives are filtered out of d, if d can be met without the atoms
-- filtered so far and the new ones; otherwise it selects the first such package of those that remain, or none, and returns True.
pub reduce_atoms_lem :
    (atoms : List ℕ) (c : ChoicePoint) (ms : List Package) (p : Package) (d : Deps)
    → c.matches ≡ some ms
    → c.matches_cur ≡ some p
    → c.current_deps ≡ some d
    → result_of (reduce_atoms atoms c)
      ≡ some (
          if all_met (c.solution_filters ++ atoms) d
          then (some p, false)
          else (first_usable (c.solution_filters ++ atoms) ms, true))
unfolding reduce_atoms start_rounds rounds
reduce_atoms_lem atoms c ms p d hm hp hd =
    ap (λ m. result_of (m >>= (λ left. start_rounds (add_filters c atoms) left c.matches_cur))) hm
    ∙ ap (λ cur. result_of (start_rounds (add_filters c atoms) ms cur)) hp
    ∙ rounds-first_usable (add_filters c atoms) ms d hd
    ∙ ap
        (λ cur. some (
          if all_met (c.solution_filters ++ atoms) d
          then (cur, false)
          else (first_usable (c.solution_filters ++ atoms) ms, true)))
        hp
