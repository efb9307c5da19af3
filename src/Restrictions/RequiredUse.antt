-- ===== src/Restrictions/RequiredUse.antt =====
-- src/pkgcore/restrictions/required_use.py: REQUIRED_USE restrictions as constraints on the set of
-- enabled flags. A set of flags is a list; a flag is a number.
pub mod Agree
use pkgcore.Prelude.{
  ℕ, suc, ◌+◌, Bool, true, false, not, ◌&&◌, ◌||◌, List, [], ◌∷◌, ◌++◌, Option, none, some, ◌>>=◌,
  ◌==◌, leb, if◌then◌else◌, any, all,
}
use pkgcore.Ebuild.VersionMatch.{differs}

mutual
  -- ContainmentMatch of flags, Conditional on flags, and the boolean restrictions.
  pub data Rule : Type 0 where
    flags : Bool → List ℕ → Rule
    conditional : Bool → List ℕ → Rules → Rule
    any_of : Bool → Rules → Rule
    all_of : Bool → Rules → Rule
    exactly_one_of : Bool → Rules → Rule
    at_most_one_of : Bool → Rules → Rule

  pub data Rules : Type 0 where
    nil : Rules
    cons : Rule → Rules → Rules

abbrev pub Constraint : Type 0
Constraint = List ℕ → Bool

abbrev pub contains : List ℕ → ℕ → Bool
contains on f = any (λ g. f == g) on

-- `vals.isdisjoint(on)` and `vals.issubset(on)`
abbrev pub isdisjoint : List ℕ → List ℕ → Bool
isdisjoint vals on = all (λ f. not (contains on f)) vals

abbrev pub issubset : List ℕ → List ℕ → Bool
issubset vals on = all (contains on) vals

-- `a == b` of truth values
abbrev pub same_bool : Bool → Bool → Bool
same_bool true b = b
same_bool false b = not b

-- `sum(c(on) for c in children)`
abbrev pub count_true : List Constraint → List ℕ → ℕ
count_true [] on = 0
count_true (c ∷ cs) on = (if c on then 1 else 0) + count_true cs on

unfoldable pub use_flags_state_any : Bool → List ℕ → Constraint
use_flags_state_any negate vals on = same_bool (isdisjoint vals on) negate

unfoldable pub condition : Bool → List ℕ → List Constraint → Constraint
condition negate vals children on = same_bool (issubset vals on) negate || all (λ c. c on) children

unfoldable pub or_constraint : Bool → List Constraint → Constraint
or_constraint negate children on = differs (any (λ c. c on) children) negate

unfoldable pub and_constraint : Bool → List Constraint → Constraint
and_constraint negate children on = differs (all (λ c. c on) children) negate

unfoldable pub just_one_constraint : Bool → List Constraint → Constraint
just_one_constraint negate children on = differs (count_true children on == 1) negate

unfoldable pub at_most_one_constraint : Bool → List Constraint → Constraint
at_most_one_constraint negate children on = differs (leb (count_true children on) 1) negate

-- The constraint and its variables. `none` is the ValueError of unpacking `zip` of no children.
abbrev pub Compiled : Type 0
Compiled = Constraint × List ℕ

abbrev pub children_of : List Compiled → List Constraint
children_of [] = []
children_of ((c, vars) ∷ cs) = c ∷ children_of cs

abbrev pub variables_of : List Compiled → List ℕ
variables_of [] = []
variables_of ((c, vars) ∷ cs) = vars ++ variables_of cs

abbrev pub unzip : List Compiled → Option (List Constraint × List ℕ)
unzip [] = none
unzip (c ∷ cs) = some (children_of (c ∷ cs), variables_of (c ∷ cs))

unfoldable mutual
  pub to_single_constraint : Rule → Option Compiled
  to_single_constraint (flags negate vals) = some (use_flags_state_any negate vals, vals)
  to_single_constraint (conditional negate vals payload) = do
    cs ← to_single_all payload
    (children, variables) ← unzip cs
    some (condition negate vals children, vals ++ variables)
  to_single_constraint (any_of negate rs) = do
    cs ← to_single_all rs
    (children, variables) ← unzip cs
    some (or_constraint negate children, variables)
  to_single_constraint (all_of negate rs) = do
    cs ← to_single_all rs
    (children, variables) ← unzip cs
    some (and_constraint negate children, variables)
  to_single_constraint (exactly_one_of negate rs) = do
    cs ← to_single_all rs
    (children, variables) ← unzip cs
    some (just_one_constraint negate children, variables)
  to_single_constraint (at_most_one_of negate rs) = do
    cs ← to_single_all rs
    (children, variables) ← unzip cs
    some (at_most_one_constraint negate children, variables)

  pub to_single_all : Rules → Option (List Compiled)
  to_single_all nil = some []
  to_single_all (cons r rs) = do c ← to_single_constraint r; cs ← to_single_all rs; some (c ∷ cs)

abbrev pub single_of : Option Compiled → Option (List Compiled)
single_of none = none
single_of (some c) = some (c ∷ [])

-- What a conditional does to each constraint of its payload.
abbrev pub guard_all : Bool → List ℕ → List Compiled → List Compiled
guard_all negate vals [] = []
guard_all negate vals ((c, variables) ∷ cs) =
    (condition negate vals (c ∷ []), vals ++ variables) ∷ guard_all negate vals cs

-- `to_multiple_constraint`: one constraint for each requirement; `none` is an exception.
unfoldable mutual
  pub to_multiple_constraint : Rule → Option (List Compiled)
  to_multiple_constraint (conditional negate vals payload) = do
    cs ← to_multiple_all payload
    some (guard_all negate vals cs)
  to_multiple_constraint (all_of true rs) = none
  to_multiple_constraint (all_of false rs) = to_multiple_all rs
  to_multiple_constraint (flags negate vals) = single_of (to_single_constraint (flags negate vals))
  to_multiple_constraint (any_of negate rs) = single_of (to_single_constraint (any_of negate rs))
  to_multiple_constraint (exactly_one_of negate rs) =
      single_of (to_single_constraint (exactly_one_of negate rs))
  to_multiple_constraint (at_most_one_of negate rs) =
      single_of (to_single_constraint (at_most_one_of negate rs))

  pub to_multiple_all : Rules → Option (List Compiled)
  to_multiple_all nil = some []
  to_multiple_all (cons r rs) = do
    cs ← to_multiple_constraint r
    ds ← to_multiple_all rs
    some (cs ++ ds)

-- `_compiled_constraints(restricts)`, of the rules at the top.
unfoldable pub compiled_constraints : Rules → Option (List Compiled)
compiled_constraints = to_multiple_all
