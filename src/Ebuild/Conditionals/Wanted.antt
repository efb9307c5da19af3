-- ===== src/Ebuild/Conditionals/Wanted.antt =====
-- What a dependency set asks for under the flags, said without evaluating it.
use pkgcore.Prelude.{
  ℕ, suc, Bool, not, ◌&&◌, ◌||◌, ◌≡◌, refl, ap, List, [], ◌∷◌, ◌++◌, map, Option, none, some, leb,
  ◌==◌, if◌then◌else◌, is_empty, any, all, arith,
}
use pkgcore.Prelude.Text.{Text}
use pkgcore.Ebuild.VersionMatch.{differs}
use pkgcore.Ebuild.Conditionals.{
  Class, all_of, any_of, just_one_of, at_most_one_of, Node, element, conditional, group, Nodes, nil,
  cons, nodes_of,
}
use pkgcore.Ebuild.Conditionals.Evaluate.{Flags, is_skipped}

abbrev pub itself : Bool → Bool
itself b = b

unfoldable pub count_true : List Bool → ℕ
count_true [] = 0
count_true (b ∷ bs) = let n = count_true bs in if b then suc n else n

-- What `match` of each class says of what its members say.
unfoldable pub class_value : Class → List Bool → Bool
unfolding count_true
class_value all_of bs = all itself bs
class_value any_of bs = any itself bs
class_value just_one_of bs = is_empty bs || count_true bs == 1
class_value at_most_one_of bs = leb (count_true bs) 1

-- What a group of members says that may all be absent.
unfoldable pub present : Class → List Bool → List Bool
unfolding class_value
present cls [] = []
present cls (b ∷ bs) = class_value cls (b ∷ bs) ∷ []

-- A conditional's payload is asked for: where no flags are locked, if the flag stands as the
-- conditional asks, and where some are, also if its flag is none of them.
abbrev pub applies : Flags → Bool → Text → Bool
applies flags negate flag = elim flags.tristate_locked [
  | some locked ↦ not (locked flag) || differs (flags.enabled flag) negate
  | none ↦ differs (flags.enabled flag) negate
]

module _ {E : Type 0} (test : E → Bool) where
  -- The value of a tree whose elements have the value that `test` gives, and whose conditionals
  -- are conjunctions.
  unfoldable mutual
    unfolding class_value

    pub node_value : Node E → Bool
    node_value (element e) = test e
    node_value (conditional negate flag payload) = class_value all_of (node_values payload)
    node_value (group cls nodes) = class_value cls (node_values nodes)

    pub node_values : Nodes E → List Bool
    node_values nil = []
    node_values (cons n ns) = node_value n ∷ node_values ns

  pub node_values-nodes_of : (l : List (Node E)) → node_values (nodes_of l) ≡ map node_value l
  unfolding node_value
  node_values-nodes_of [] = refl
  node_values-nodes_of (n ∷ l) = ap (λ t. node_value n ∷ t) (node_values-nodes_of l)

  module _ (flags : Flags) (evaluate_element : E → E) where
    -- The value of a tree under the flags, or nothing where all of it is absent.
    unfoldable mutual
      unfolding present

      pub wanted : Node E → List Bool
      wanted (element e) = test (evaluate_element e) ∷ []
      wanted (conditional negate flag payload) =
          let inner = present all_of (wanted_all payload) in
          if applies flags negate flag then inner else []
      wanted (group cls nodes) = present cls (wanted_all nodes)

      pub wanted_all : Nodes E → List Bool
      wanted_all nil = []
      wanted_all (cons n ns) = wanted n ++ wanted_all ns

pub is_skipped-applies :
    (flags : Flags) (negate : Bool) (flag : Text)
    → is_skipped flags negate flag ≡ not (applies flags negate flag)
unfolding is_skipped
is_skipped-applies flags negate flag = locked_or_not flags.tristate_locked
  where
    locked_or_not :
        (o : Option (Text → Bool))
        → (elim o [
          | some locked ↦ locked flag && not (differs (flags.enabled flag) negate)
          | none ↦ not (differs (flags.enabled flag) negate)
        ])
          ≡ not (elim o [
            | some locked ↦ not (locked flag) || differs (flags.enabled flag) negate
            | none ↦ differs (flags.enabled flag) negate
          ])
    locked_or_not none = refl
    locked_or_not (some locked) = ground arith
