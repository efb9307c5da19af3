-- ===== src/Ebuild/Conditionals/OnTheWay.antt =====
-- The conditions on the way to an element of a dependency set, and the evaluation of the set, for
-- anything that is found at an element: src/pkgcore/ebuild/conditionals.py.
use mathlib.Core.List.{flat_map}
use pkgcore.Prelude.{
  Bool, true, false, not, ◌&&◌, ◌||◌, ◌≡◌, refl, ap, sym, ◌∙◌, List, [], ◌∷◌, ◌++◌, map, none,
  is_empty, all, all-append, arith, Bool-cases, inl, inr, and_left, and_right,
}
use pkgcore.Prelude.Text.{Text}
use pkgcore.Ebuild.VersionMatch.{differs}
use pkgcore.Ebuild.Conditionals.{Class, all_of, Node, element, conditional, group, Nodes, nil, cons}
use pkgcore.Ebuild.Conditionals.Evaluate.{
  Flags, is_skipped, append_group, evaluate_conditionals, evaluate_all,
}
use pkgcore.Ebuild.Conditionals.Evaluated.{append_none}
use pkgcore.Ebuild.Conditionals.Known.{Condition, find_node, find_nodes, flags_found}

-- An element stands in the tree.
unfoldable mutual
  pub has_leaf : {E : Type 0} → Node E → Bool
  has_leaf (element e) = true
  has_leaf (conditional negate flag payload) = has_leaves payload
  has_leaf (group cls nodes) = has_leaves nodes

  pub has_leaves : {E : Type 0} → Nodes E → Bool
  has_leaves nil = false
  has_leaves (cons n ns) = has_leaf n || has_leaves ns

or_false_left : (a b : Bool) → (a || b) ≡ false → a ≡ false
or_false_left a b h = ground arith

or_false_right : (a b : Bool) → (a || b) ≡ false → b ≡ false
or_false_right a b h = ground arith

or_right : (a b : Bool) → (a || b) ≡ true → a ≡ false → b ≡ true
or_right a b h k = ground arith

module _ {E : Type 0} (flags : Flags) (evaluate_element : E → E) where
  mutual
    unfolding evaluate_conditionals has_leaf

    leafless :
        (parent : Class) (n : Node E)
        → has_leaf n ≡ false
        → evaluate_conditionals flags evaluate_element parent n ≡ []
    leafless parent (element e) h = cc
    leafless parent (conditional negate flag payload) h =
        rw
          (
            all_leafless all_of payload h,
            append_none (λ e. true) flags evaluate_element parent all_of,
          )
          (ground arith)
    leafless parent (group cls ns) h =
        rw (all_leafless cls ns h) (append_none (λ e. true) flags evaluate_element parent cls)

    all_leafless :
        (cls : Class) (ns : Nodes E)
        → has_leaves ns ≡ false
        → evaluate_all flags evaluate_element cls ns ≡ []
    all_leafless cls nil h = refl
    all_leafless cls (cons n ns) h = rw (
      leafless cls n (or_false_left (has_leaf n) (has_leaves ns) h),
      all_leafless cls ns (or_false_right (has_leaf n) (has_leaves ns) h),
    )

abbrev pub unlocked : (Text → Bool) → Flags
unlocked enabled = record { enabled = enabled; tristate_locked = none }

module _ (a b : Text → Bool) where
  -- The two sets of flags have the flag in the same state.
  abbrev pub same_state : Text → Bool
  same_state flag = not (differs (a flag) (b flag))

  abbrev pub same_conditions : List Condition → Bool
  same_conditions = all (λ (negate, flag). same_state flag)

  empty_snoc : (ks : List Condition) (k : Condition) → is_empty (ks ++ k ∷ []) ≡ false
  empty_snoc [] k = refl
  empty_snoc (c ∷ ks) k = refl

  same_skip :
      (negate : Bool) (flag : Text)
      → same_state flag ≡ true
      → is_skipped (unlocked a) negate flag ≡ is_skipped (unlocked b) negate flag
  unfolding is_skipped
  same_skip negate flag h = ground (arith, h)

  module _ {E : Type 0} where
    abbrev pub same_found : List (E × List Condition) → Bool
    same_found = all (λ (e, conditions). same_conditions conditions)

    -- For what is found at an element, as long as the conditions on the way to it are.
    module _ (at : List Condition → E → List (E × List Condition))
        (guarded : (ks : List Condition) (e : E)
          → is_empty ks ≡ false
          → same_found (at ks e) ≡ true
          → same_conditions ks ≡ true) where
      -- The conditions on the way to a tree with a leaf stand at the leaf.
      mutual
        unfolding find_node has_leaf

        on_the_way :
            (ks : List Condition) (n : Node E)
            → is_empty ks ≡ false
            → has_leaf n ≡ true
            → same_found (find_node at ks n) ≡ true
            → same_conditions ks ≡ true
        on_the_way ks (element e) k l h = guarded ks e k h
        on_the_way ks (conditional negate flag payload) k l h =
            and_left (same_conditions ks) (same_conditions ((negate, flag) ∷ [])) (
              sym (all-append (λ (n, f). same_state f) ks ((negate, flag) ∷ []))
              ∙ all_on_the_way (ks ++ (negate, flag) ∷ []) payload (empty_snoc ks (negate, flag)) l
                  h)
        on_the_way ks (group cls ns) k l h = all_on_the_way ks ns k l h

        pub all_on_the_way :
            (ks : List Condition) (ns : Nodes E)
            → is_empty ks ≡ false
            → has_leaves ns ≡ true
            → same_found (find_nodes at ks ns) ≡ true
            → same_conditions ks ≡ true
        all_on_the_way ks nil k l h = cc
        all_on_the_way ks (cons n ns) k l h =
            let parts =
              sym (
                all-append (λ (e, cs). same_conditions cs) (find_node at ks n)
                  (find_nodes at ks ns))
              ∙ h in
            elim (Bool-cases (has_leaf n)) [
              | inl e ↦ on_the_way ks n k e (and_left (same_found (find_node at ks n)) _ parts)
              | inr e ↦
                  all_on_the_way ks ns k (or_right (has_leaf n) (has_leaves ns) l e)
                    (and_right (same_found (find_node at ks n)) _ parts)
            ]

      flag_on_the_way :
          (ks : List Condition) (negate : Bool) (flag : Text) (payload : Nodes E)
          → has_leaves payload ≡ true
          → same_found (find_nodes at (ks ++ (negate, flag) ∷ []) payload) ≡ true
          → same_state flag ≡ true
      flag_on_the_way ks negate flag payload l h = and_left (same_state flag) true (
          and_right (same_conditions ks) (same_conditions ((negate, flag) ∷ [])) (
            sym (all-append (λ (n, f). same_state f) ks ((negate, flag) ∷ []))
            ∙ all_on_the_way (ks ++ (negate, flag) ∷ []) payload (empty_snoc ks (negate, flag)) l
                h))

      module _ (evaluate_a evaluate_b : E → E)
          (element_same : (ks : List Condition) (e : E)
            → same_found (at ks e) ≡ true
            → evaluate_a e ≡ evaluate_b e) where
        mutual
          unfolding evaluate_conditionals append_group find_node has_leaf

          same_evaluation :
              (ks : List Condition) (parent : Class) (n : Node E)
              → same_found (find_node at ks n) ≡ true
              → evaluate_conditionals (unlocked a) evaluate_a parent n
                ≡ evaluate_conditionals (unlocked b) evaluate_b parent n
          same_evaluation ks parent (element e) h = ap (λ x. element x ∷ []) (element_same ks e h)
          same_evaluation ks parent (conditional negate flag payload) h =
              elim (Bool-cases (has_leaves payload)) [
                | inl l ↦ rw (
                  same_skip negate flag (flag_on_the_way ks negate flag payload l h),
                  all_same_evaluation (ks ++ (negate, flag) ∷ []) all_of payload h,
                )
                | inr l ↦
                    leafless (unlocked a) evaluate_a parent (conditional negate flag payload) l
                    ∙ sym (
                        leafless (unlocked b) evaluate_b parent (conditional negate flag payload) l)
              ]
          same_evaluation ks parent (group cls ns) h = rw (all_same_evaluation ks cls ns h)

          pub all_same_evaluation :
              (ks : List Condition) (cls : Class) (ns : Nodes E)
              → same_found (find_nodes at ks ns) ≡ true
              → evaluate_all (unlocked a) evaluate_a cls ns
                ≡ evaluate_all (unlocked b) evaluate_b cls ns
          all_same_evaluation ks cls nil h = refl
          all_same_evaluation ks cls (cons n ns) h =
              let parts =
                sym (
                  all-append (λ (e, cs). same_conditions cs) (find_node at ks n)
                    (find_nodes at ks ns))
                ∙ h in
              rw (
                same_evaluation ks cls n (and_left (same_found (find_node at ks n)) _ parts),
                all_same_evaluation ks cls ns (and_right (same_found (find_node at ks n)) _ parts),
              )

    -- the known conditionals, leaf by leaf
    pub known_found :
        (xs : List (E × List Condition)) → all same_state (flags_found xs) ≡ same_found xs
    unfolding flags_found flat_map
    known_found [] = refl
    known_found ((e, cs) ∷ xs) =
        all-append same_state (map (λ (n, f). f) cs) _ ∙ cc (mapped cs, known_found xs)
      where
        mapped : (ks : List Condition) → all same_state (map (λ (n, f). f) ks) ≡ same_conditions ks
        mapped [] = refl
        mapped ((n, f) ∷ ks) = ap (λ c. same_state f && c) (mapped ks)
