-- ===== src/Ebuild/Conditionals/Evaluated.antt =====
-- An evaluated dependency set asks for what the set asks for under the flags.
use pkgcore.Prelude.{
  Bool, true, false, ◌≡◌, refl, ap, ◌∙◌, List, [], ◌∷◌, ◌++◌, map, if◌then◌else◌, arith, Bool-cases,
  inl, inr, and_left, and_right,
}
use pkgcore.Ebuild.Conditionals.{
  Class, all_of, any_of, just_one_of, at_most_one_of, Node, element, conditional, group, Nodes, nil,
  cons, nodes_of,
}
use pkgcore.Ebuild.Conditionals.Evaluate.{
  Flags, collapses, append_group, evaluate_conditionals, evaluate_all,
}
use pkgcore.Ebuild.Conditionals.Wanted.{
  is_skipped-applies, class_value, present, applies, node_value, node_values-nodes_of, wanted,
  wanted_all,
}
use pkgcore.Ebuild.Conditionals.Agree.{
  Agree, Agree-append, Agree_one, Agree_nothing, class_value-Says, lacks_at_most, all_lack_at_most,
  is_at_most, single_value,
}

module _ {E : Type 0} (test : E → Bool) (flags : Flags) (evaluate_element : E → E) where
  abbrev values : List (Node E) → List Bool
  values = map (node_value test)

  group_value :
      (cls : Class) (l : List (Node E))
      → node_value test (group cls (nodes_of l)) ≡ class_value cls (values l)
  unfolding node_value
  group_value cls l = ap (class_value cls) (node_values-nodes_of test l)

  pub append_none : (parent cls : Class) → append_group flags evaluate_element parent cls [] ≡ []
  unfolding append_group
  append_none parent cls = ground arith

  append_one :
      (parent cls : Class) (n : Node E)
      → append_group flags evaluate_element parent cls (n ∷ []) ≡ n ∷ []
  unfolding append_group
  append_one parent cls n = ground arith

  append_many :
      (parent cls : Class) (n m : Node E) (l : List (Node E))
      → append_group flags evaluate_element parent cls (n ∷ m ∷ l)
        ≡ (if collapses parent cls then n ∷ m ∷ l else group cls (nodes_of (n ∷ m ∷ l)) ∷ [])
  unfolding append_group
  append_many parent cls n m l = ground arith

  -- A group that collapses into its parent's.
  Agree_collapsed :
      (parent cls : Class) (xs : List Bool) (b : Bool) (bs : List Bool)
      → collapses parent cls ≡ true
      → Agree cls xs (b ∷ bs)
      → Agree parent xs (class_value cls (b ∷ bs) ∷ [])
  unfolding class_value
  Agree_collapsed all_of all_of xs b bs e h = record {
    empty = h.empty;
    says = let k = h.says in ground (arith, k);
  }
  Agree_collapsed any_of any_of xs b bs e h = record {
    empty = h.empty;
    says = let k = h.says in ground (arith, k);
  }
  Agree_collapsed _ _ xs b bs e h = cc

  Agree-append_group :
      (parent cls : Class) (l : List (Node E)) (bs : List Bool)
      → is_at_most cls ≡ false
      → Agree cls (values l) bs
      → Agree parent (values (append_group flags evaluate_element parent cls l)) (present cls bs)
  unfolding present
  Agree-append_group parent cls [] [] a h = rw (append_none parent cls) (Agree_nothing parent)
  Agree-append_group parent cls [] (b ∷ bs) a h = let e = h.empty in cc e
  Agree-append_group parent cls (n ∷ l) [] a h = let e = h.empty in cc e
  Agree-append_group parent cls (n ∷ []) (b ∷ bs) a h =
      rw (append_one parent cls n)
        (Agree_one parent _ _ (single_value cls (node_value test n) (b ∷ bs) a h.says))
  Agree-append_group parent cls (n ∷ m ∷ l) (b ∷ bs) a h =
      rw (append_many parent cls n m l) (elim (Bool-cases (collapses parent cls)) [
        | inl e ↦ rw e (Agree_collapsed parent cls (values (n ∷ m ∷ l)) b bs e h)
        | inr e ↦ rw e (
            Agree_one parent _ _ (
              group_value cls (n ∷ m ∷ l)
              ∙ class_value-Says cls (values (n ∷ m ∷ l)) (b ∷ bs) h.says))
      ])

  map_values : (xs ys : List (Node E)) → values (xs ++ ys) ≡ values xs ++ values ys
  map_values [] ys = refl
  map_values (x ∷ xs) ys = ap (λ l. node_value test x ∷ l) (map_values xs ys)

  mutual
    unfolding evaluate_conditionals wanted present node_value lacks_at_most

    evaluated :
        (parent : Class) (n : Node E)
        → lacks_at_most n ≡ true
        → Agree parent
            (values (evaluate_conditionals flags evaluate_element parent n))
            (wanted test flags evaluate_element n)
    evaluated parent (element e) h = Agree_one parent _ _ refl
    evaluated parent (conditional negate flag nil) h =
        rw (is_skipped-applies flags negate flag) (elim (Bool-cases (applies flags negate flag)) [
          | inl e ↦ rw e (Agree_nothing parent)
          | inr e ↦ rw e (Agree_nothing parent)
        ])
    evaluated parent (conditional negate flag (cons n ns)) h =
        rw (is_skipped-applies flags negate flag) (elim (Bool-cases (applies flags negate flag)) [
          | inl e ↦
              rw e (Agree-append_group parent all_of _ _ refl (evaluated_all all_of (cons n ns) h))
          | inr e ↦ rw e (Agree_nothing parent)
        ])
    evaluated parent (group all_of ns) h =
        Agree-append_group parent all_of _ _ refl (evaluated_all all_of ns h)
    evaluated parent (group any_of ns) h =
        Agree-append_group parent any_of _ _ refl (evaluated_all any_of ns h)
    evaluated parent (group just_one_of ns) h =
        Agree-append_group parent just_one_of _ _ refl (evaluated_all just_one_of ns h)
    evaluated parent (group at_most_one_of ns) h = cc

    evaluated_all :
        (cls : Class) (ns : Nodes E)
        → all_lack_at_most ns ≡ true
        → Agree cls
            (values (evaluate_all flags evaluate_element cls ns))
            (wanted_all test flags evaluate_element ns)
    evaluated_all cls nil h = Agree_nothing cls
    evaluated_all cls (cons n ns) h =
        rw
          (map_values (evaluate_conditionals flags evaluate_element cls n)
            (evaluate_all flags evaluate_element cls ns))
          (Agree-append cls _ _ _ _
            (evaluated cls n (and_left (lacks_at_most n) (all_lack_at_most ns) h))
            (evaluated_all cls ns (and_right (lacks_at_most n) (all_lack_at_most ns) h)))

-- Under any flags, an AtMostOne of one element is evaluated to that element: what may be true or
-- not becomes required.
evaluate_conditionals-at_most_one :
    {E : Type 0} (flags : Flags) (evaluate_element : E → E) (parent : Class) (e : E)
    → evaluate_conditionals flags evaluate_element parent
        (group at_most_one_of (cons (element e) nil))
      ≡ element (evaluate_element e) ∷ []
unfolding evaluate_conditionals
evaluate_conditionals-at_most_one flags evaluate_element parent e = ground arith
