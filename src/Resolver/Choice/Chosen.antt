-- ===== src/Resolver/Choice/Chosen.antt =====
-- Which package a choice point selects: the first whose dependencies can still be met.
use pkgcore.Prelude.{
  ℕ, suc, ◌≤◌, Bool, true, false, not, ◌&&◌, ◌≡◌, refl, List, [], ◌∷◌, Option, none, some, length,
  ◌==◌, if◌then◌else◌, any, all, arith,
}
use pkgcore.Resolver.Slots.{keep}
use pkgcore.Resolver.Choice.{
  Clause, Package, Deps, ChoicePoint, is_filtered, yield_choices, filter_choices, reset_iters,
  reduce_depsets, select, next_rounds, rounds,
}

-- A normal form can be met if each clause of it has an atom that is not filtered.
abbrev pub is_met : List ℕ → List Clause → Bool
is_met filterset = all (any (λ x. not (is_filtered filterset x)))

abbrev pub all_met : List ℕ → Deps → Bool
all_met filterset d =
    is_met filterset d.bdeps
    && (is_met filterset d.deps && (is_met filterset d.rdeps && is_met filterset d.prdeps))

abbrev pub is_usable : List ℕ → Package → Bool
unfolding reset_iters
is_usable filterset p = all_met filterset (reset_iters p)

-- The first usable package of a list, and what follows it.
abbrev pub first_usable : List ℕ → List Package → Option Package
first_usable filterset [] = none
first_usable filterset (p ∷ ms) =
    if is_usable filterset p then some p else first_usable filterset ms

-- A clause is yielded if and only if an atom of it is kept.
kept-length :
    (f : List ℕ) (choices : Clause)
    → any (λ x. not (is_filtered f x)) choices
      ≡ not (length (keep (λ x. not (is_filtered f x)) choices) == 0)
kept-length f [] = refl
kept-length f (x ∷ xs) = ground (arith, kept-length f xs)

yielded-length :
    (l : Clause) (rest : List Clause)
    → length (yield_choices l rest) ≡ (if length l == 0 then 0 else suc (length rest))
yielded-length [] rest = refl
yielded-length (x ∷ l) rest = ground arith

filter_choices-length : (f : List ℕ) (cs : List Clause) → length (filter_choices f cs) ≤ length cs
unfolding filter_choices
filter_choices-length f [] = omega arith
filter_choices-length f (c ∷ cs) = ground (
  arith,
  yielded-length (keep (λ x. not (is_filtered f x)) c) (filter_choices f cs),
  filter_choices-length f cs,
)

filter_choices-whole :
    (f : List ℕ) (cs : List Clause) → (length (filter_choices f cs) == length cs) ≡ is_met f cs
unfolding filter_choices
filter_choices-whole f [] = refl
filter_choices-whole f (c ∷ cs) = ground (
  arith,
  kept-length f c,
  yielded-length (keep (λ x. not (is_filtered f x)) c) (filter_choices f cs),
  filter_choices-whole f cs,
)

pub reduce_depsets-all_met : (f : List ℕ) (d : Deps) → (reduce_depsets f d).1 ≡ all_met f d
unfolding reduce_depsets
reduce_depsets-all_met f d = ground (
  arith,
  filter_choices-whole f d.bdeps,
  filter_choices-whole f d.deps,
  filter_choices-whole f d.rdeps,
  filter_choices-whole f d.prdeps,
)

-- The rounds after the first select the first usable package.
next_rounds-first_usable :
    (c : ChoicePoint) (ms : List Package)
    → (next_rounds c ms).matches_cur ≡ first_usable c.solution_filters ms
unfolding next_rounds reset_iters
next_rounds-first_usable c [] = refl
next_rounds-first_usable c (p ∷ ms) = ground (
  arith,
  reduce_depsets-all_met c.solution_filters (reset_iters p),
  next_rounds-first_usable
      (record (select c p ms) {
        current_deps = some (reduce_depsets c.solution_filters (reset_iters p)).0;
      })
      ms,
)

abbrev pub result_of : Option (ChoicePoint × Bool) → Option (Option Package × Bool)
result_of none = none
result_of (some (c, b)) = some (c.matches_cur, b)

pub rounds-first_usable :
    (c : ChoicePoint) (ms : List Package) (d : Deps)
    → c.current_deps ≡ some d
    → result_of (rounds c ms)
      ≡ some (
          if all_met c.solution_filters d
          then (c.matches_cur, false)
          else (first_usable c.solution_filters ms, true))
unfolding rounds
rounds-first_usable c ms d h = ground (
  arith,
  h,
  reduce_depsets-all_met c.solution_filters d,
  next_rounds-first_usable
      (record c { current_deps = some (reduce_depsets c.solution_filters d).0 }) ms,
)
