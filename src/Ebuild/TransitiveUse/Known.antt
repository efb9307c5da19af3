-- ===== src/Ebuild/TransitiveUse/Known.antt =====
-- The known conditionals of dependency sets of atoms, of which some have transitive flags:
-- src/pkgcore/ebuild/conditionals.py and src/pkgcore/ebuild/atom.py.
use pkgcore.Prelude.{
  Bool, true, false, ◌&&◌, ◌≡◌, refl, ap, sym, ◌∙◌, List, [], ◌∷◌, ◌++◌, Option, none, some, map,
  all, all-append, arith,
}
use pkgcore.Prelude.Text.{Text}
use pkgcore.Ebuild.Conditionals.{all_of, Node, element, conditional, group, Nodes, nil, cons}
use pkgcore.Ebuild.Conditionals.Evaluate.{evaluate_depset}
use pkgcore.Ebuild.Conditionals.Known.{
  Condition, found_leaf, find_node, find_nodes, flags_found, known_conditionals,
}
use pkgcore.Ebuild.Conditionals.OnTheWay.{
  unlocked, has_leaf, has_leaves, same_state, same_conditions, same_found, all_same_evaluation,
  known_found,
}
use pkgcore.Ebuild.Conditionals.Depends.{leaf_guarded, evaluate_depset-IsConversion}
use pkgcore.Ebuild.TransitiveUse.{
  variable_use, static_use, evaluate_use, recurse_use_conds, convert_to_conditionals,
  rstrip_conditional, lstrip_mark, minus,
}
use pkgcore.Ebuild.TransitiveUse.Parts.{Variable, render_variable, all_use_names}
use pkgcore.Ebuild.TransitiveUse.Converted.{convert_to_conditionals-evaluate_use}

-- An atom by its flags: one without transitive flags, or a transitive_use_atom, whose transitive
-- flags are written of names without a default.
pub data Dependency : Type 0 where
  plain : List Text → Dependency
  transitive :
      (uses : List Text) (vs : List Variable)
      → variable_use uses ≡ map render_variable vs
      → all_use_names vs ≡ true
      → Dependency

mutual
  plain_node : Node (List Text) → Node Dependency
  plain_node (element uses) = element (plain uses)
  plain_node (conditional negate flag payload) = conditional negate flag (plain_nodes payload)
  plain_node (group cls nodes) = group cls (plain_nodes nodes)

  plain_nodes : Nodes (List Text) → Nodes Dependency
  plain_nodes nil = nil
  plain_nodes (cons n ns) = cons (plain_node n) (plain_nodes ns)

-- `convert_to_conditionals`, of a transitive_use_atom
unfoldable pub conversion_of : Dependency → Option (Nodes Dependency)
unfolding convert_to_conditionals plain_node
conversion_of (plain uses) = none
conversion_of (transitive uses vs e h) = some (plain_nodes (convert_to_conditionals uses))

-- The atom that `evaluate_conditionals` appends, with no flags locked.
unfoldable pub evaluate_atom : (Text → Bool) → Dependency → Dependency
unfolding evaluate_use
evaluate_atom enabled (plain uses) = plain uses
evaluate_atom enabled (transitive uses vs e h) = plain (evaluate_use (unlocked enabled) uses)

mutual
  unfolding has_leaf plain_node

  leaf_stays : (n : Node (List Text)) → has_leaf (plain_node n) ≡ has_leaf n
  leaf_stays (element uses) = refl
  leaf_stays (conditional negate flag payload) = leaves_stay payload
  leaf_stays (group cls nodes) = leaves_stay nodes

  leaves_stay : (ns : Nodes (List Text)) → has_leaves (plain_nodes ns) ≡ has_leaves ns
  leaves_stay nil = refl
  leaves_stay (cons n ns) = ground (arith, leaf_stays n, leaves_stay ns)

and_same : {x y u v : Bool} → x ≡ u → y ≡ v → (x && y) ≡ (u && v)
and_same {x} {y} {u} {v} h k = ap (λ t. t && y) h ∙ ap (λ t. u && t) k

recurse-has_leaves :
    (forced varied : List Text) → has_leaves (recurse_use_conds forced varied) ≡ true
unfolding recurse_use_conds has_leaf
recurse-has_leaves forced [] = refl
recurse-has_leaves forced (flag ∷ varied) =
    let name = rstrip_conditional (lstrip_mark flag) in
    ground (
      arith,
      recurse-has_leaves forced varied,
      recurse-has_leaves (forced ++ name ∷ []) varied,
      recurse-has_leaves (forced ++ minus name ∷ []) varied,
    )

module _ (a b : Text → Bool) where
  mutual
    unfolding find_node plain_node found_leaf

    found_stays :
        (ks : List Condition) (n : Node (List Text))
        → same_found a b (find_node (found_leaf false) ks (plain_node n))
          ≡ same_found a b (find_node (found_leaf false) ks n)
    found_stays ks (element uses) = ground arith
    found_stays ks (conditional negate flag payload) = all_found_stay _ payload
    found_stays ks (group cls nodes) = all_found_stay ks nodes

    all_found_stay :
        (ks : List Condition) (ns : Nodes (List Text))
        → same_found a b (find_nodes (found_leaf false) ks (plain_nodes ns))
          ≡ same_found a b (find_nodes (found_leaf false) ks ns)
    all_found_stay ks nil = refl
    all_found_stay ks (cons n ns) =
        all-append (λ (e, cs). same_conditions a b cs)
          (find_node (found_leaf false) ks (plain_node n))
          (find_nodes (found_leaf false) ks (plain_nodes ns))
        ∙ and_same (found_stays ks n) (all_found_stay ks ns)
        ∙ sym (
            all-append (λ (e, cs). same_conditions a b cs) (find_node (found_leaf false) ks n)
              (find_nodes (found_leaf false) ks ns))

  abbrev first_uses : List (Node (List Text)) → List Text
  first_uses (element uses ∷ ns) = uses
  first_uses _ = []

  evaluate_use_same :
      (uses : List Text) (vs : List Variable)
      → variable_use uses ≡ map render_variable vs
      → all_use_names vs ≡ true
      → same_found a b (find_nodes (found_leaf false) [] (convert_to_conditionals uses)) ≡ true
      → evaluate_use (unlocked a) uses ≡ evaluate_use (unlocked b) uses
  evaluate_use_same uses vs e h k = ap first_uses (
      sym (convert_to_conditionals-evaluate_use a uses vs e h)
      ∙ all_same_evaluation a b (found_leaf false) (leaf_guarded a b) (λ x. x) (λ x. x)
          (λ ks x s. refl) [] all_of (convert_to_conditionals uses) k
      ∙ convert_to_conditionals-evaluate_use b uses vs e h)

  has_element :
      (e : Dependency) (ns : Nodes Dependency) → conversion_of e ≡ some ns → has_leaves ns ≡ true
  unfolding conversion_of convert_to_conditionals
  has_element (plain uses) ns n = cc
  has_element (transitive uses vs e h) ns n =
      let same : plain_nodes (convert_to_conditionals uses) ≡ ns = cc in
      sym (ap has_leaves same)
      ∙ leaves_stay (convert_to_conditionals uses)
      ∙ recurse-has_leaves (static_use uses) (variable_use uses)

  unread : (e : Dependency) → conversion_of e ≡ none → evaluate_atom a e ≡ evaluate_atom b e
  unfolding conversion_of evaluate_atom
  unread (plain uses) n = refl
  unread (transitive uses vs e h) n = cc

  reads :
      (e : Dependency) (ns : Nodes Dependency)
      → conversion_of e ≡ some ns
      → all (same_state a b) (flags_found (find_nodes (found_leaf false) [] ns)) ≡ true
      → evaluate_atom a e ≡ evaluate_atom b e
  unfolding conversion_of evaluate_atom
  reads (plain uses) ns n k = refl
  reads (transitive uses vs e h) ns n k =
      let same : plain_nodes (convert_to_conditionals uses) ≡ ns = cc in
      ap plain (
        evaluate_use_same uses vs e h (
          sym (all_found_stay [] (convert_to_conditionals uses))
          ∙ ap (λ l. same_found a b (find_nodes (found_leaf false) [] l)) same
          ∙ sym (known_found a b (find_nodes (found_leaf false) [] ns))
          ∙ k))

  -- Of a dependency set of atoms, some of which may have transitive flags, written of names that
  -- neither begin with `!` nor end in `?`, `=` or `)`: where no flags are locked, two sets of flags
  -- that agree on the known conditionals of the set, which are the flags of its conditionals and of
  -- the conditionals that stand for those atoms, evaluate it alike.
  pub evaluate_depset-known_conditionals :
      (ns : Nodes Dependency)
      → all (same_state a b) (known_conditionals conversion_of ns) ≡ true
      → evaluate_depset (unlocked a) (evaluate_atom a) (ns, true)
        ≡ evaluate_depset (unlocked b) (evaluate_atom b) (ns, true)
  evaluate_depset-known_conditionals ns h =
      evaluate_depset-IsConversion a b conversion_of (evaluate_atom a) (evaluate_atom b)
        (record { has_element = has_element; unread = unread; reads = reads }) ns h
