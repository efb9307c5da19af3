-- ===== src/Restrictions/Solutions/Dnf.antt =====
-- The disjunctive solutions of a restriction mean what its `match` means.
use mathlib.Core.List.{flat_map}
use pkgcore.Prelude.{
  Bool, true, false, ◌&&◌, ◌≡◌, refl, ◌∙◌, List, [], ◌∷◌, ◌++◌, map, arith, any, all, and_left,
  and_right, and-if, or-if, any-append, all-append,
}
use pkgcore.Restrictions.{
  Restrict, leaf, always, negated, and_of, or_of, just_one_of, at_most_one_of, atom_of, Restricts,
  nil, cons, matches, match_all, match_any,
}
use pkgcore.Restrictions.Solutions.{
  Solution, negations, product, hard_reqs, optional_reqs, or_of_negations, dnf_and, dnf_solutions,
  dnf_children, dnf_rest, solvable, solvable_all,
}

module _ {A : Type 0} (test : A → Bool) where
  -- A solution holds if all of it holds; a normal form, if one of its solutions does.
  abbrev pub holds : Solution A → Bool
  holds = all (matches test)

  abbrev pub dnf_holds : List (Solution A) → Bool
  dnf_holds = any holds

  abbrev children_hold : List (List (Solution A)) → Bool
  children_hold = all dnf_holds

  dnf_holds-map :
      (s : Solution A) (ss : List (Solution A))
      → dnf_holds (map (λ t. s ++ t) ss) ≡ (holds s && dnf_holds ss)
  dnf_holds-map s [] = ground arith
  dnf_holds-map s (t ∷ ss) = ground (arith, dnf_holds-map s ss, all-append (matches test) s t)

  dnf_holds-flat_map :
      (ss ts : List (Solution A))
      → dnf_holds (flat_map (λ s. map (λ t. s ++ t) ts) ss) ≡ (dnf_holds ss && dnf_holds ts)
  unfolding flat_map
  dnf_holds-flat_map [] ts = refl
  dnf_holds-flat_map (s ∷ ss) ts = ground (
    arith,
    any-append holds (map (λ t. s ++ t) ts) (flat_map (λ s. map (λ t. s ++ t) ts) ss),
    dnf_holds-map s ts,
    dnf_holds-flat_map ss ts,
  )

  dnf_holds-product :
      (arg : List (Solution A)) (others : List (List (Solution A)))
      → dnf_holds (product arg others) ≡ (dnf_holds arg && children_hold others)
  unfolding product
  dnf_holds-product arg [] = ground arith
  dnf_holds-product arg (other ∷ others) =
      ground (arith, dnf_holds-flat_map arg (product other others), dnf_holds-product other others)

  hard_and_optional :
      (ss : List (List (Solution A)))
      → (holds (hard_reqs ss) && children_hold (optional_reqs ss)) ≡ children_hold ss
  unfolding hard_reqs optional_reqs
  hard_and_optional [] = refl
  hard_and_optional ([] ∷ ss) = ground arith
  hard_and_optional ((s ∷ []) ∷ ss) =
      ground (arith, hard_and_optional ss, all-append (matches test) s (hard_reqs ss))
  hard_and_optional ((s ∷ t ∷ r) ∷ ss) = ground (arith, hard_and_optional ss)

  dnf_holds-and : (ss : List (List (Solution A))) → dnf_holds (dnf_and ss) ≡ children_hold ss
  unfolding dnf_and
  dnf_holds-and ss =
      ground (arith, dnf_holds-product (hard_reqs ss ∷ []) (optional_reqs ss), hard_and_optional ss)

  dnf_holds-negations :
      (rs : Restricts A) → dnf_holds (map (λ r. r ∷ []) (negations rs)) ≡ match_all test true rs
  unfolding negations matches
  dnf_holds-negations nil = refl
  dnf_holds-negations (cons r rs) = ground (arith, dnf_holds-negations rs)

  dnf_holds_self : (r : Restrict A) → dnf_holds ((r ∷ []) ∷ []) ≡ matches test r
  dnf_holds_self r = ground arith

  mutual
    unfolding matches dnf_solutions solvable or_of_negations negations

    -- the normal form of a solvable restriction holds exactly when the restriction matches
    pub dnf_sound :
        (full : Bool) (r : Restrict A)
        → solvable r ≡ true
        → dnf_holds (dnf_solutions full r) ≡ matches test r
    dnf_sound full (leaf a) h = ground arith
    dnf_sound full (always b) h = ground arith
    dnf_sound full (negated r) h = ground arith
    dnf_sound full (and_of true nil) h = ground arith
    dnf_sound full (and_of true (cons r rs)) h = dnf_holds-negations (cons r rs)
    dnf_sound full (and_of false rs) h =
        dnf_holds-and (dnf_children full rs) ∙ children_sound full rs h
    dnf_sound full (or_of true rs) h = ground arith
    dnf_sound full (or_of false nil) h = ground arith
    dnf_sound full (or_of false (cons r rs)) h = rest_sound full (cons r rs) h
    dnf_sound full (just_one_of n rs) h = dnf_holds_self (just_one_of n rs)
    dnf_sound full (at_most_one_of n rs) h = dnf_holds_self (at_most_one_of n rs)
    dnf_sound true (atom_of rs) h = dnf_holds-and (dnf_children true rs) ∙ children_sound true rs h
    dnf_sound false (atom_of rs) h = dnf_holds_self (atom_of rs)

    children_sound :
        (full : Bool) (rs : Restricts A)
        → solvable_all rs ≡ true
        → children_hold (dnf_children full rs) ≡ match_all test false rs
    children_sound full nil h = refl
    children_sound full (cons r rs) h =
        and-if _ _ (dnf_sound full r (and_left _ _ h)) (children_sound full rs (and_right _ _ h))

    rest_sound :
        (full : Bool) (rs : Restricts A)
        → solvable_all rs ≡ true
        → dnf_holds (dnf_rest full rs) ≡ match_any test false rs
    rest_sound full nil h = refl
    rest_sound full (cons r rs) h =
        any-append holds (dnf_solutions full r) (dnf_rest full rs)
        ∙ or-if _ _ (dnf_sound full r (and_left _ _ h)) (rest_sound full rs (and_right _ _ h))
