-- ===== src/Ebuild/Conditionals/Evaluate.antt =====
-- `evaluate_conditionals` of src/pkgcore/restrictions/boolean.py and packages.py, and
-- `DepSet.evaluate_depset`. What an element adds to the result is a parameter: an atom adds itself,
-- or the atom that its own conditional flags stand for.
use pkgcore.Prelude.{
  Bool, true, false, not, ◌&&◌, ◌||◌, List, [], ◌∷◌, ◌++◌, Option, none, some, leb, if◌then◌else◌,
  is_empty, length,
}
use pkgcore.Prelude.Text.{Text}
use pkgcore.Ebuild.VersionMatch.{differs}
use pkgcore.Ebuild.Conditionals.{
  Class, all_of, any_of, Node, element, conditional, group, Nodes, nil, cons, nodes_of,
}

-- `enabled`, and `tristate_locked` where it is given.
pub record Flags : Type 0 where
  pub enabled : Text → Bool
  pub tristate_locked : Option (Text → Bool)

-- `_evaluate_wipe_empty`
abbrev pub wipes_empty : Class → Bool
wipes_empty all_of = true
wipes_empty any_of = true
wipes_empty _ = false

-- `issubclass(parent_cls, self.__class__) and self._evaluate_collapsible`; a DepSet is an And.
abbrev pub collapses : Class → Class → Bool
collapses all_of all_of = true
collapses any_of any_of = true
collapses _ _ = false

-- `Conditional.evaluate_conditionals` returns at once.
unfoldable pub is_skipped : Flags → Bool → Text → Bool
is_skipped flags negate flag = elim flags.tristate_locked [
  | some locked ↦ locked flag && not (differs (flags.enabled flag) negate)
  | none ↦ not (differs (flags.enabled flag) negate)
]

-- `if self.payload`, negated
abbrev pub no_payload : {E : Type 0} → Nodes E → Bool
no_payload nil = true
no_payload (cons n ns) = false

module _ {E : Type 0} (flags : Flags) (evaluate_element : E → E) where
  -- What `base.evaluate_conditionals` appends of the results `l` of its members.
  unfoldable pub append_group : Class → Class → List (Node E) → List (Node E)
  append_group parent cls l =
      if wipes_empty cls && is_empty l
      then []
      else if collapses parent cls || leb (length l) 1
      then l
      else group cls (nodes_of l) ∷ []

  unfoldable mutual
    unfolding is_skipped append_group

    pub evaluate_conditionals : Class → Node E → List (Node E)
    evaluate_conditionals parent (element e) = element (evaluate_element e) ∷ []
    evaluate_conditionals parent (conditional negate flag payload) =
        let l = evaluate_all all_of payload in
        if is_skipped flags negate flag
        then []
        else if no_payload payload
        then []
        else append_group parent all_of l
    evaluate_conditionals parent (group cls nodes) =
        append_group parent cls (evaluate_all cls nodes)

    pub evaluate_all : Class → Nodes E → List (Node E)
    evaluate_all cls nil = []
    evaluate_all cls (cons n ns) = evaluate_conditionals cls n ++ evaluate_all cls ns

  -- `DepSet.evaluate_depset`; the second part is `has_conditionals`.
  unfoldable pub evaluate_depset : Nodes E × Bool → Nodes E × Bool
  unfolding evaluate_conditionals
  evaluate_depset (nodes, false) = (nodes, false)
  evaluate_depset (nodes, true) = (nodes_of (evaluate_all all_of nodes), false)
