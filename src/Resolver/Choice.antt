-- ===== src/Resolver/Choice.antt =====
-- `choice_point` of src/pkgcore/resolver/choice_point.py. An atom is a number; a package gives its
-- normal forms as `cnf_solutions` does. `none` is an IndexError, or the TypeError of a loop on None.
pub mod Chosen
pub mod Reduced
use pkgcore.Prelude.{
  ℕ, Bool, true, false, not, ◌&&◌, List, [], ◌∷◌, ◌++◌, Option, none, some, ◌>>=◌, length, ◌==◌,
  if◌then◌else◌, any,
}
use pkgcore.Resolver.Slots.{keep}

abbrev pub Clause : Type 0
Clause = List ℕ

pub record Package : Type 0 where
  pub name : ℕ
  pub bdepend : List Clause
  pub depend : List Clause
  pub rdepend : List Clause
  pub pdepend : List Clause

-- What `_reset_iters` sets, all at once.
pub record Deps : Type 0 where
  pub bdeps : List Clause
  pub deps : List Clause
  pub rdeps : List Clause
  pub prdeps : List Clause
  pub ideps : List Clause

pub record ChoicePoint : Type 0 where
  -- the packages that the iterator has left; `none` once it is dropped
  pub matches : Option (List Package)
  pub matches_cur : Option Package
  pub solution_filters : List ℕ
  pub current_deps : Option Deps

unfoldable pub choice_point : List Package → ChoicePoint
choice_point ms = record {
  matches = some ms;
  matches_cur = none;
  solution_filters = [];
  current_deps = none;
}

abbrev pub is_filtered : List ℕ → ℕ → Bool
is_filtered filterset x = any (λ y. x == y) filterset

-- `if not l: return`, else `yield l`
abbrev pub yield_choices : List ℕ → List Clause → List Clause
yield_choices [] rest = []
yield_choices (x ∷ xs) rest = (x ∷ xs) ∷ rest

unfoldable pub filter_choices : List ℕ → List Clause → List Clause
filter_choices filterset [] = []
filter_choices filterset (choices ∷ cnf_reqs) =
    yield_choices (keep (λ x. not (is_filtered filterset x)) choices)
      (filter_choices filterset cnf_reqs)

-- `_reset_iters`; the code reads `pdepend` for the install-time dependencies too.
unfoldable pub reset_iters : Package → Deps
reset_iters cur = record {
  bdeps = cur.bdepend;
  deps = cur.depend;
  rdeps = cur.rdepend;
  prdeps = cur.pdepend;
  ideps = cur.pdepend;
}

-- One pass of the `for depset_name` loop, and whether it reached its end.
unfoldable pub reduce_depsets : List ℕ → Deps → Deps × Bool
unfolding filter_choices
reduce_depsets filterset d =
    let bdeps = filter_choices filterset d.bdeps in
    let deps = filter_choices filterset d.deps in
    let rdeps = filter_choices filterset d.rdeps in
    let prdeps = filter_choices filterset d.prdeps in
    if not (length bdeps == length d.bdeps)
    then (d, false)
    else if not (length deps == length d.deps)
    then (record d { bdeps = bdeps }, false)
    else if not (length rdeps == length d.rdeps)
    then (record d { bdeps = bdeps; deps = deps }, false)
    else if not (length prdeps == length d.prdeps)
    then (record d { bdeps = bdeps; deps = deps; rdeps = rdeps }, false)
    else (record d { bdeps = bdeps; deps = deps; rdeps = rdeps; prdeps = prdeps }, true)

abbrev pub exhausted : ChoicePoint → ChoicePoint
exhausted c = record c { matches = none; matches_cur = none }

abbrev pub select : ChoicePoint → Package → List Package → ChoicePoint
unfolding reset_iters
select c p ms = record c {
  matches = some ms;
  matches_cur = some p;
  current_deps = some (reset_iters p);
}

-- The rounds of `reduce_atoms` after the first, each of which starts with `_internal_force_next`.
unfoldable pub next_rounds : ChoicePoint → List Package → ChoicePoint
unfolding reset_iters reduce_depsets
next_rounds c [] = exhausted c
next_rounds c (p ∷ ms) =
    let (d, whole) = reduce_depsets c.solution_filters (reset_iters p) in
    let chosen = record (select c p ms) { current_deps = some d } in
    let rest = next_rounds chosen ms in if whole then chosen else rest

-- The rounds from the first, on a choice point with a current package.
unfoldable pub rounds : ChoicePoint → List Package → Option (ChoicePoint × Bool)
unfolding reduce_depsets next_rounds
rounds c ms = elim c.current_deps [
  | none ↦ none
  | some d ↦
      (let (e, whole) = reduce_depsets c.solution_filters d in
        let reduced = record c { current_deps = some e } in
        some (if whole then (reduced, false) else (next_rounds reduced ms, true)))
]

abbrev pub add_filters : ChoicePoint → List ℕ → ChoicePoint
add_filters c atoms = record c { solution_filters = c.solution_filters ++ atoms }

-- The pull of the first package, where there is no current one, and the rounds.
abbrev pub start_rounds : ChoicePoint → List Package → Option Package → Option (ChoicePoint × Bool)
unfolding rounds
start_rounds c ms (some p) = rounds c ms
start_rounds c [] none = some (exhausted c, true)
start_rounds c (p ∷ ms) none = rounds (select c p ms) ms

-- `reduce_atoms(atom)`, of a set of atoms.
unfoldable pub reduce_atoms : List ℕ → ChoicePoint → Option (ChoicePoint × Bool)
reduce_atoms atoms c = do ms ← c.matches; start_rounds (add_filters c atoms) ms c.matches_cur

abbrev pub pulled : ChoicePoint → Option (List Package) → ChoicePoint × Option Package
pulled c none = (c, none)
pulled c (some []) = (record c { matches = none }, none)
pulled c (some (p ∷ ms)) = (select c p ms, some p)

-- `current_pkg`; what it returns is `none` where it raises.
unfoldable pub current_pkg : ChoicePoint → ChoicePoint × Option Package
current_pkg c = elim c.matches_cur [ some p ↦ (c, some p) | none ↦ pulled c c.matches ]

-- `__bool__`
unfoldable pub is_true : ChoicePoint → ChoicePoint × Bool
is_true c = elim c.matches_cur [
  | some p ↦ (c, true)
  | none ↦ (let (d, cur) = pulled c c.matches in (d, elim cur [ none ↦ false | some p ↦ true ]))
]

-- `force_next_pkg`: the next package is selected without `_reset_iters`.
unfoldable pub force_next_pkg : ChoicePoint → Option (ChoicePoint × Bool)
unfolding reduce_atoms
force_next_pkg c = elim c.matches [
  | none ↦ some (c, false)
  | some [] ↦ some (exhausted c, false)
  | some (p ∷ ms) ↦ reduce_atoms [] (record c { matches = some ms; matches_cur = some p })
]

-- The properties `bdepend`, `depend`, `rdepend`, `pdepend` and `idepend`, each with its field.
unfoldable pub deps_property :
    (Deps → List Clause) → ChoicePoint → ChoicePoint × Option (List Clause)
unfolding is_true
deps_property field c =
    let (d, remains) = is_true c in
    (d, if remains then (elim d.current_deps [ none ↦ none | some e ↦ some (field e) ]) else none)
