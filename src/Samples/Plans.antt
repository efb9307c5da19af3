-- ===== src/Samples/Plans.antt =====
-- Slots, plans and choice points: src/pkgcore/resolver.
use pkgcore.Prelude.{
  ℕ, zero, suc, true, false, not, ◌≡◌, refl, [], ◌∷◌, Option, none, some, ◌==◌, ==_iff,
  if◌then◌else◌,
}
use pkgcore.Resolver.Slots.{Objects, Slots, fill_slotting, remove_slotting, keep, store}
use pkgcore.Resolver.Slots.Laws.{remove_slotting-fill_slotting}
use pkgcore.Resolver.Slots.Placed.{IsPlaced, fill_slotting-IsPlaced, remove_slotting-IsPlaced}
use pkgcore.Resolver.Plan.{RefCounting, Setting, PlanState, apply_add, backtrack}
use pkgcore.Resolver.Plan.Backtrack.{added, start, then_step, backtrack_lem}
use pkgcore.Resolver.Events.{inspecting, viable, other, frame, attempt, Events, nil, cons}
use pkgcore.Resolver.Choice.{Package, Deps, ChoicePoint, choice_point, reset_iters, reduce_atoms}
use pkgcore.Resolver.Choice.Chosen.{all_met, is_usable, first_usable, result_of}
use pkgcore.Resolver.Choice.Reduced.{reduce_atoms-choice_point, reduce_atoms_lem}

-- Packages are numbers, which are their slots too, all of one key; the one restriction matches 7.
abbrev numbers : Objects
numbers = record {
  Pkg = ℕ;
  Restriction = Unit;
  key = λ p. 0;
  slot = λ p. p;
  is_same = λ p q. p == q;
  is_same_iff = ==_iff;
  is_same_restriction = λ r s. true;
  is_same_restriction_iff = λ r s. (λ h. refl, λ h. refl);
  match = λ r p. p == 7;
}

abbrev remove_one : ℕ → Option ℕ
remove_one zero = none
remove_one (suc n) = some n

abbrev tally : RefCounting Unit
tally = record {
  Counts = ℕ;
  empty = 0;
  count = λ c a. c;
  add = λ c a. suc c;
  remove = λ c a. remove_one c;
  count_empty = λ a. refl;
  count_add_self = λ c a. refl;
  remove_add = λ c a. refl;
}

abbrev counted : Setting
counted = record {
  objects = numbers;
  Choices = Unit;
  is_same_choices = λ c d. true;
  is_same_choices_iff = λ c d. (λ h. refl, λ h. refl);
  refs = tally;
}

abbrev none_slotted : Slots numbers
none_slotted = record { slot_dict = λ k. []; limiters = λ k. [] }

free_of : (p : ℕ) → (fill_slotting numbers none_slotted p false).1 ≡ []
unfolding fill_slotting
free_of p = refl

remove_slotting-fill_slotting_example :
    remove_slotting numbers (fill_slotting numbers none_slotted 4 false).0 4 ≡ some none_slotted
remove_slotting-fill_slotting_example =
    remove_slotting-fill_slotting numbers none_slotted 4 (free_of 4)

none_slotted-IsPlaced : IsPlaced numbers none_slotted
none_slotted-IsPlaced = record { at_key = λ j. refl }

fill_slotting-IsPlaced_example : IsPlaced numbers (fill_slotting numbers none_slotted 4 false).0
fill_slotting-IsPlaced_example = fill_slotting-IsPlaced numbers none_slotted 4 none_slotted-IsPlaced

remove_slotting-IsPlaced_example :
    IsPlaced numbers none_slotted
    × (none_slotted ≡ record (fill_slotting numbers none_slotted 4 false).0 {
      slot_dict =
          store
            (fill_slotting numbers none_slotted 4 false).0.slot_dict
            0
            (keep (λ x. not (x == 4)) ((fill_slotting numbers none_slotted 4 false).0.slot_dict 0));
    })
remove_slotting-IsPlaced_example =
    remove_slotting-IsPlaced numbers (fill_slotting numbers none_slotted 4 false).0 4
      fill_slotting-IsPlaced_example remove_slotting-fill_slotting_example

abbrev new_plan : PlanState counted
new_plan = record {
  state = none_slotted;
  plan = [];
  pkg_choices = λ p. none;
  rev_blockers = λ c. [];
  blockers_refcnt = 0;
  vdb_filter = λ p. false;
  forced_restrictions = 0;
}

applied_free : (p : ℕ) → (apply_add counted tt p false new_plan).1 ≡ []
unfolding apply_add fill_slotting
applied_free p = refl

backtrack_lem_example :
    backtrack counted 0 (apply_add counted tt 4 false new_plan).0 ≡ some new_plan
backtrack_lem_example =
    backtrack_lem counted new_plan (apply_add counted tt 4 false new_plan).0
      (then_step start (added tt 4 (applied_free 4) refl refl))

-- The first package needs atom 1 or 2 to build, the second needs atom 3.
abbrev either : Package
either = record { name = 1; bdepend = []; depend = (1 ∷ 2 ∷ []) ∷ []; rdepend = []; pdepend = [] }

abbrev three : Package
three = record either { name = 2; depend = (3 ∷ []) ∷ [] }

reduce_atoms-choice_point_example :
    result_of (reduce_atoms (1 ∷ 2 ∷ []) (choice_point (either ∷ three ∷ [])))
    ≡ some (first_usable (1 ∷ 2 ∷ []) (either ∷ three ∷ []), not (is_usable (1 ∷ 2 ∷ []) either))
reduce_atoms-choice_point_example = reduce_atoms-choice_point (1 ∷ 2 ∷ []) either (three ∷ [])

abbrev either_deps : Deps
unfolding reset_iters
either_deps = reset_iters either

abbrev at_either : ChoicePoint
at_either = record {
  matches = some (three ∷ []);
  matches_cur = some either;
  solution_filters = [];
  current_deps = some either_deps;
}

reduce_atoms_lem_example :
    result_of (reduce_atoms (1 ∷ 2 ∷ []) at_either)
    ≡ some (
        if all_met (1 ∷ 2 ∷ []) either_deps
        then (some either, false)
        else (first_usable (1 ∷ 2 ∷ []) (three ∷ []), true))
reduce_atoms_lem_example =
    reduce_atoms_lem (1 ∷ 2 ∷ []) at_either (three ∷ []) either either_deps refl refl refl

-- An event before any package; package 1 with a failure that is not viable and an ignored frame
-- with another; package 2 with one.
abbrev record_of_two : Events
record_of_two = cons other (
    cons (inspecting 1) (
      cons (viable false) (
        cons (frame (attempt true false (cons other nil)))
          (cons (inspecting 2) (cons (viable true) (cons other nil))))))
