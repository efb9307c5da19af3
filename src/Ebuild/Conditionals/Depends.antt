-- ===== src/Ebuild/Conditionals/Depends.antt =====
-- Evaluation and the known conditionals of a dependency set, for any conversion of its elements to
-- conditionals: src/pkgcore/ebuild/conditionals.py.
use pkgcore.Prelude.{
  Bool, true, false, ◌&&◌, ◌≡◌, refl, ap, sym, ◌∙◌, List, [], ◌∷◌, ◌++◌, Option, none, some,
  append_assoc, append-nil, Option-cases, is_empty, all, all-append, arith, inl, inr, and_left,
  and_right,
}
use pkgcore.Prelude.Text.{Text}
use pkgcore.Ebuild.Conditionals.{
  all_of, Node, element, conditional, group, Nodes, nil, cons, nodes_of,
}
use pkgcore.Ebuild.Conditionals.Evaluate.{evaluate_depset}
use pkgcore.Ebuild.Conditionals.Known.{
  Condition, found_leaf, find_node, find_nodes, find_converted, find_cond_nodes, flags_found,
  known_conditionals,
}
use pkgcore.Ebuild.Conditionals.OnTheWay.{
  has_leaves, same_state, same_conditions, same_found, unlocked, all_on_the_way,
  all_same_evaluation, known_found,
}

and_true : {x y : Bool} → x ≡ true → y ≡ true → (x && y) ≡ true
and_true {x} {y} h k = ground arith

all_append_right :
    {A : Type 0} (p : A → Bool) (xs ys : List A) → all p (xs ++ ys) ≡ true → all p ys ≡ true
all_append_right p xs ys h = and_right (all p xs) (all p ys) (sym (all-append p xs ys) ∙ h)

module _ (a b : Text → Bool) {E : Type 0} where
  pub leaf_guarded :
      (ks : List Condition) (e : E)
      → is_empty ks ≡ false
      → same_found a b (found_leaf false ks e) ≡ true
      → same_conditions a b ks ≡ true
  unfolding found_leaf
  leaf_guarded ks e k h = ground (arith, k, h)

  -- Fewer conditions on the way leave fewer to agree on.
  leaf_fewer :
      (ks js : List Condition) (e : E)
      → same_found a b (found_leaf false (ks ++ js) e) ≡ true
      → same_found a b (found_leaf false js e) ≡ true
  unfolding found_leaf
  leaf_fewer ks [] e h = refl
  leaf_fewer [] (j ∷ js) e h = h
  leaf_fewer (k ∷ ks) (j ∷ js) e h =
      ground (arith, h, all_append_right (λ (n, f). same_state a b f) ks (j ∷ js))

  mutual
    unfolding find_node

    fewer :
        (ks js : List Condition) (n : Node E)
        → same_found a b (find_node (found_leaf false) (ks ++ js) n) ≡ true
        → same_found a b (find_node (found_leaf false) js n) ≡ true
    fewer ks js (element e) h = leaf_fewer ks js e h
    fewer ks js (conditional negate flag payload) h =
        all_fewer ks (js ++ (negate, flag) ∷ []) payload (
          ap (λ l. same_found a b (find_nodes (found_leaf false) l payload))
            (sym (append_assoc ks js ((negate, flag) ∷ [])))
          ∙ h)
    fewer ks js (group cls ns) h = all_fewer ks js ns h

    all_fewer :
        (ks js : List Condition) (ns : Nodes E)
        → same_found a b (find_nodes (found_leaf false) (ks ++ js) ns) ≡ true
        → same_found a b (find_nodes (found_leaf false) js ns) ≡ true
    all_fewer ks js nil h = refl
    all_fewer ks js (cons n ns) h =
        let parts =
          sym (
            all-append (λ (e, cs). same_conditions a b cs)
              (find_node (found_leaf false) (ks ++ js) n)
              (find_nodes (found_leaf false) (ks ++ js) ns))
          ∙ h in
        all-append (λ (e, cs). same_conditions a b cs) (find_node (found_leaf false) js n)
          (find_nodes (found_leaf false) js ns)
        ∙ and_true (fewer ks js n (and_left _ _ parts)) (all_fewer ks js ns (and_right _ _ parts))

  -- What stands for the elements that are converted, and what evaluation makes of an element: a
  -- conversion has an element, and the evaluation of an element reads the flags of its conversion
  -- only.
  pub record IsConversion (convert_to_conditionals : E → Option (Nodes E))
      (evaluate_a evaluate_b : E → E) : Type 0 where
    pub has_element :
        (e : E) (ns : Nodes E) → convert_to_conditionals e ≡ some ns → has_leaves ns ≡ true
    pub unread : (e : E) → convert_to_conditionals e ≡ none → evaluate_a e ≡ evaluate_b e
    pub reads :
        (e : E) (ns : Nodes E)
        → convert_to_conditionals e ≡ some ns
        → all (same_state a b) (flags_found (find_nodes (found_leaf false) [] ns)) ≡ true
        → evaluate_a e ≡ evaluate_b e

  module _ (convert_to_conditionals : E → Option (Nodes E)) (evaluate_a evaluate_b : E → E)
      (conversion : IsConversion convert_to_conditionals evaluate_a evaluate_b) where
    at_element :
        (ks : List Condition) (e : E) {o : Option (Nodes E)}
        → convert_to_conditionals e ≡ o
        → same_found a b (find_converted convert_to_conditionals false ks e)
          ≡ same_found a b (elim o [
            | none ↦ found_leaf false ks e
            | some nodes ↦ find_nodes (found_leaf false) ks nodes
          ])
    unfolding find_converted
    at_element ks e n =
        ap
          (λ o. same_found a b (elim o [
            | none ↦ found_leaf false ks e
            | some nodes ↦ find_nodes (found_leaf false) ks nodes
          ]))
          n

    converted_guarded :
        (ks : List Condition) (e : E)
        → is_empty ks ≡ false
        → same_found a b (find_converted convert_to_conditionals false ks e) ≡ true
        → same_conditions a b ks ≡ true
    converted_guarded ks e k h = elim (Option-cases (convert_to_conditionals e)) [
      | inl n ↦ leaf_guarded ks e k (sym (at_element ks e n) ∙ h)
      | inr (ns, n) ↦
          all_on_the_way a b (found_leaf false) leaf_guarded ks ns k (conversion.has_element e ns n)
            (sym (at_element ks e n) ∙ h)
    ]

    converted_same :
        (ks : List Condition) (e : E)
        → same_found a b (find_converted convert_to_conditionals false ks e) ≡ true
        → evaluate_a e ≡ evaluate_b e
    converted_same ks e h = elim (Option-cases (convert_to_conditionals e)) [
      | inl n ↦ conversion.unread e n
      | inr (ns, n) ↦ conversion.reads e ns n (
          known_found a b (find_nodes (found_leaf false) [] ns)
          ∙ all_fewer ks [] ns (
              ap (λ l. same_found a b (find_nodes (found_leaf false) l ns)) (append-nil ks)
              ∙ sym (at_element ks e n)
              ∙ h))
    ]

    -- Two sets of flags that agree on the known conditionals evaluate a dependency set alike.
    pub evaluate_depset-IsConversion :
        (ns : Nodes E)
        → all (same_state a b) (known_conditionals convert_to_conditionals ns) ≡ true
        → evaluate_depset (unlocked a) evaluate_a (ns, true)
          ≡ evaluate_depset (unlocked b) evaluate_b (ns, true)
    unfolding evaluate_depset known_conditionals find_cond_nodes
    evaluate_depset-IsConversion ns h =
        let found = find_nodes (find_converted convert_to_conditionals false) [] ns in
        ap (λ l. (nodes_of l, false))
          (all_same_evaluation a b (find_converted convert_to_conditionals false) converted_guarded
            evaluate_a evaluate_b converted_same [] all_of ns (sym (known_found a b found) ∙ h))
