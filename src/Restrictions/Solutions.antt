-- ===== src/Restrictions/Solutions.antt =====
-- `dnf_solutions` and `cnf_solutions` of src/pkgcore/restrictions/boolean.py, as lists; the
-- generators `iter_*` yield the same solutions in the same order.
-- An `Option` is `none` where the source raises NotImplementedError.
pub mod Dnf
pub mod Cnf
pub mod Whole
pub mod Defined
use mathlib.Core.List.{flat_map}
use pkgcore.Prelude.{
  Bool, true, false, ◌&&◌, List, [], ◌∷◌, ◌++◌, map, Option, none, some, ◌>>=◌, if◌then◌else◌,
}
use pkgcore.Restrictions.{
  Restrict, leaf, always, negated, and_of, or_of, just_one_of, at_most_one_of, atom_of, Restricts,
  nil, cons,
}

abbrev pub Solution : Type 0 → Type 0
Solution A = List (Restrict A)

module _ {A : Type 0} where
  -- `[restriction.Negate(x) for x in self.restrictions]`
  unfoldable pub negations : Restricts A → List (Restrict A)
  negations nil = []
  negations (cons r rs) = negated r ∷ negations rs

  -- The inner generator `f` of AndRestriction: one alternative of each, joined in order.
  unfoldable pub product : List (Solution A) → List (List (Solution A)) → List (Solution A)
  product arg [] = arg
  product arg (other ∷ others) =
      let rest = product other others in flat_map (λ node. map (λ node2. node ++ node2) rest) arg

  -- The loop of AndRestriction over the children's solutions: `hardreqs` and `optionals`.
  unfoldable pub hard_reqs : List (List (Solution A)) → Solution A
  hard_reqs [] = []
  hard_reqs ((s ∷ []) ∷ ss) = s ++ hard_reqs ss
  hard_reqs (_ ∷ ss) = hard_reqs ss

  unfoldable pub optional_reqs : List (List (Solution A)) → List (List (Solution A))
  optional_reqs [] = []
  optional_reqs ((s ∷ []) ∷ ss) = optional_reqs ss
  optional_reqs (s2 ∷ ss) = s2 ∷ optional_reqs ss

  -- The generators of a conjunction and of a disjunction that have only negations below them: a
  -- Negate has no solutions methods, so it is its own solution.
  unfoldable pub and_of_negations : Restricts A → List (Solution A)
  and_of_negations nil = [] ∷ []
  and_of_negations rs = negations rs ∷ []

  unfoldable pub or_of_negations : Restricts A → List (Solution A)
  or_of_negations nil = [] ∷ []
  or_of_negations rs = map (λ r. r ∷ []) (negations rs)

  -- `f([hardreqs], *optionals)`
  unfoldable pub dnf_and : List (List (Solution A)) → List (Solution A)
  dnf_and ss = product (hard_reqs ss ∷ []) (optional_reqs ss)

  unfoldable mutual
    pub dnf_solutions : Bool → Restrict A → List (Solution A)
    dnf_solutions full (leaf a) = (leaf a ∷ []) ∷ []
    dnf_solutions full (always b) = (always b ∷ []) ∷ []
    dnf_solutions full (negated r) = (negated r ∷ []) ∷ []
    dnf_solutions full (and_of true rs) = or_of_negations rs
    dnf_solutions full (and_of false rs) = dnf_and (dnf_children full rs)
    -- no `return` stands behind the loop for a negated disjunction
    dnf_solutions full (or_of true rs) = and_of_negations rs ++ dnf_or full rs
    dnf_solutions full (or_of false rs) = dnf_or full rs
    dnf_solutions full (just_one_of n rs) = (just_one_of n rs ∷ []) ∷ []
    dnf_solutions full (at_most_one_of n rs) = (at_most_one_of n rs ∷ []) ∷ []
    dnf_solutions full (atom_of rs) =
        let expanded = dnf_and (dnf_children full rs) in
        if full then expanded else (atom_of rs ∷ []) ∷ []

    pub dnf_children : Bool → Restricts A → List (List (Solution A))
    dnf_children full nil = []
    dnf_children full (cons r rs) = dnf_solutions full r ∷ dnf_children full rs

    pub dnf_or : Bool → Restricts A → List (Solution A)
    dnf_or full nil = [] ∷ []
    dnf_or full (cons r rs) = dnf_solutions full r ++ dnf_rest full rs

    pub dnf_rest : Bool → Restricts A → List (Solution A)
    dnf_rest full nil = []
    dnf_rest full (cons r rs) = dnf_solutions full r ++ dnf_rest full rs

  -- `getattr(x, "dnf_solutions", None)` finds a method.
  unfoldable pub has_solutions : Restrict A → Bool
  has_solutions (leaf a) = false
  has_solutions (always b) = false
  has_solutions (negated r) = false
  has_solutions _ = true

  -- What the loop of OrRestriction.cnf_solutions collects: `dcnf`, and `cnf`.
  unfoldable pub singles : List (Solution A) → List (Restrict A)
  singles [] = []
  singles ((r ∷ []) ∷ ys) = r ∷ singles ys
  singles (_ ∷ ys) = singles ys

  unfoldable pub longer : List (Solution A) → List (Solution A)
  longer [] = []
  longer ((r ∷ []) ∷ ys) = longer ys
  longer (y ∷ ys) = y ∷ longer ys

  unfoldable pub child_dcnf : Bool → Restrict A → List (Solution A) → List (Restrict A)
  child_dcnf false r s2 = r ∷ []
  child_dcnf true r (s ∷ []) = []
  child_dcnf true r s2 = singles s2

  unfoldable pub child_cnf : Bool → List (Solution A) → List (Solution A)
  child_cnf false s2 = []
  child_cnf true (s ∷ []) = s ∷ []
  child_cnf true s2 = longer s2

  unfoldable pub collect_dcnf : Bool → Restricts A → List (Restrict A)
  unfolding child_dcnf has_solutions
  collect_dcnf full nil = []
  collect_dcnf full (cons r rs) =
      child_dcnf (has_solutions r) r (dnf_solutions full r) ++ collect_dcnf full rs

  unfoldable pub collect_cnf : Bool → Restricts A → List (Solution A)
  unfolding child_cnf has_solutions
  collect_cnf full nil = []
  collect_cnf full (cons r rs) =
      child_cnf (has_solutions r) (dnf_solutions full r) ++ collect_cnf full rs

  -- `for andreq in cnf: dcnf = [y + [x] for x in andreq for y in dcnf]`
  unfoldable pub distribute : List (Solution A) → List (Solution A) → List (Solution A)
  distribute dcnf [] = dcnf
  distribute dcnf (andreq ∷ cnf) =
      distribute (flat_map (λ x. map (λ y. y ++ x ∷ []) dcnf) andreq) cnf

  unfoldable pub cnf_or : Bool → Restricts A → List (Solution A)
  unfolding collect_dcnf collect_cnf distribute
  cnf_or full nil = []
  cnf_or full rs = distribute (collect_dcnf full rs ∷ []) (collect_cnf full rs)

  unfoldable mutual
    pub cnf_solutions : Bool → Restrict A → Option (List (Solution A))
    cnf_solutions full (leaf a) = some ((leaf a ∷ []) ∷ [])
    cnf_solutions full (always b) = some ((always b ∷ []) ∷ [])
    cnf_solutions full (negated r) = some ((negated r ∷ []) ∷ [])
    cnf_solutions full (and_of true rs) = none
    cnf_solutions full (and_of false rs) = cnf_children full rs
    cnf_solutions full (or_of true rs) = none
    cnf_solutions full (or_of false rs) = some (cnf_or full rs)
    cnf_solutions full (just_one_of n rs) = some ((just_one_of n rs ∷ []) ∷ [])
    cnf_solutions full (at_most_one_of n rs) = some ((at_most_one_of n rs ∷ []) ∷ [])
    cnf_solutions full (atom_of rs) =
        let expanded = cnf_children full rs in
        if full then expanded else some ((atom_of rs ∷ []) ∷ [])

    pub cnf_children : Bool → Restricts A → Option (List (Solution A))
    cnf_children full nil = some []
    cnf_children full (cons r rs) =
        cnf_solutions full r >>= λ head. cnf_children full rs >>= λ rest. some (head ++ rest)

  -- The trees without a negated or empty disjunction and without a negated empty conjunction, where
  -- solutions are read.
  unfoldable mutual
    pub solvable : Restrict A → Bool
    solvable (and_of true nil) = false
    solvable (and_of false rs) = solvable_all rs
    solvable (or_of true rs) = false
    solvable (or_of false nil) = false
    solvable (or_of false (cons r rs)) = solvable r && solvable_all rs
    solvable (atom_of rs) = solvable_all rs
    solvable _ = true

    pub solvable_all : Restricts A → Bool
    solvable_all nil = true
    solvable_all (cons r rs) = solvable r && solvable_all rs
