-- ===== src/Ebuild/Conditionals/Known.antt =====
-- `find_cond_nodes`, `node_conds` and `known_conditionals` of DepSet. The code keeps the conditions
-- on the way to a node on a stack, and takes them off behind the payload; here they are an argument.
use mathlib.Core.List.{flat_map}
use pkgcore.Prelude.{
  Bool, true, false, not, ◌&&◌, ◌||◌, List, [], ◌∷◌, ◌++◌, map, Option, none, some, if◌then◌else◌,
  is_empty, any,
}
use pkgcore.Prelude.Text.{Text}
use pkgcore.Resolver.Slots.{keep}
use pkgcore.Ebuild.Conditionals.{Node, element, conditional, group, Nodes, nil, cons}

-- A condition: ContainmentMatch(flag, negate).
abbrev pub Condition : Type 0
Condition = Bool × Text

-- A leaf of `find_cond_nodes`.
unfoldable pub found_leaf : {E : Type 0} → Bool → List Condition → E → List (E × List Condition)
found_leaf yield_non_conditionals conditions e =
    if not (is_empty conditions) || yield_non_conditionals then (e, conditions) ∷ [] else []

module _ {E : Type 0} (find_element : List Condition → E → List (E × List Condition)) where
  -- The loop of `find_cond_nodes`, for what is found at an element.
  unfoldable mutual
    pub find_node : List Condition → Node E → List (E × List Condition)
    find_node conditions (element e) = find_element conditions e
    find_node conditions (conditional negate flag payload) =
        find_nodes (conditions ++ (negate, flag) ∷ []) payload
    find_node conditions (group cls nodes) = find_nodes conditions nodes

    pub find_nodes : List Condition → Nodes E → List (E × List Condition)
    find_nodes conditions nil = []
    find_nodes conditions (cons n ns) = find_node conditions n ++ find_nodes conditions ns

module _ {E : Type 0} (convert_to_conditionals : E → Option (Nodes E)) where
  -- An element, of which a transitive_use_atom is taken apart: its conversion, the parameter, makes
  -- conditionals on elements that are none.
  unfoldable pub find_converted : Bool → List Condition → E → List (E × List Condition)
  unfolding found_leaf find_node
  find_converted yield_non_conditionals conditions e = elim (convert_to_conditionals e) [
    | none ↦ found_leaf yield_non_conditionals conditions e
    | some nodes ↦ find_nodes (found_leaf yield_non_conditionals) conditions nodes
  ]

  -- `find_cond_nodes(restriction_set, yield_non_conditionals)`
  unfoldable pub find_cond_nodes : Bool → Nodes E → List (E × List Condition)
  unfolding find_converted find_node
  find_cond_nodes yield_non_conditionals = find_nodes (find_converted yield_non_conditionals) []

-- `iflatten_instance(x.vals for x in restrictions)`, of all that is found
unfoldable pub flags_found : {E : Type 0} → List (E × List Condition) → List Text
unfolding flat_map
flags_found = flat_map (λ (e, conditions). map (λ (negate, flag). flag) conditions)

-- `known_conditionals` of a set with conditionals: `vals` of every restriction.
unfoldable pub known_conditionals : {E : Type 0} → (E → Option (Nodes E)) → Nodes E → List Text
unfolding find_cond_nodes flags_found
known_conditionals convert_to_conditionals ns =
    flags_found (find_cond_nodes convert_to_conditionals false ns)

module _ {E : Type 0} (convert_to_conditionals : E → Option (Nodes E)) (same : E → E → Bool) where
  -- `nc.setdefault(payload, []).append(current)`
  unfoldable pub append_condition :
      E → List Condition → List (E × List (List Condition)) → List (E × List (List Condition))
  append_condition e current [] = (e, current ∷ []) ∷ []
  append_condition e current ((d, cs) ∷ nc) =
      let rest = append_condition e current nc in
      if same e d then (d, cs ++ current ∷ []) ∷ nc else (d, cs) ∷ rest

  unfoldable pub gather_conditions :
      List (E × List (List Condition))
      → List (E × List Condition)
      → List (E × List (List Condition))
  unfolding append_condition
  gather_conditions nc [] = nc
  gather_conditions nc ((e, []) ∷ found) = gather_conditions nc found
  gather_conditions nc ((e, c ∷ cs) ∷ found) =
      gather_conditions (append_condition e (c ∷ cs) nc) found

  abbrev pub always_required : List (E × List Condition) → E → Bool
  always_required found d = any (λ (e, cs). is_empty cs && same e d) found

  -- `node_conds`: the conditions of each payload that is not required without any.
  unfoldable pub node_conds : Nodes E → List (E × List (List Condition))
  unfolding find_cond_nodes gather_conditions
  node_conds ns =
      let found = find_cond_nodes convert_to_conditionals true ns in
      keep (λ (e, cs). not (always_required found e)) (gather_conditions [] found)
