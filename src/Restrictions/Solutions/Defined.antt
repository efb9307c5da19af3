-- ===== src/Restrictions/Solutions/Defined.antt =====
-- Which trees have normal forms at all: where the code raises, and the assertion `assert s2`.
use mathlib.Core.List.{flat_map}
use pkgcore.Prelude.{
  Bool, true, false, not, ◌&&◌, ◌||◌, ◌≡◌, refl, ◌∙◌, List, [], ◌∷◌, ◌++◌, map, Option, none, some,
  ◌>>=◌, arith, any, is_empty,
}
use pkgcore.Restrictions.{
  Restrict, leaf, always, negated, and_of, or_of, just_one_of, at_most_one_of, atom_of, Restricts,
  nil, cons,
}
use pkgcore.Restrictions.Solutions.{
  Solution, negations, product, optional_reqs, and_of_negations, or_of_negations, dnf_and,
  dnf_solutions, dnf_children, cnf_solutions, cnf_children,
}

abbrev pub is_some {ℓ} : {A : Type ℓ} → Option A → Bool
is_some none = false
is_some (some a) = true

module _ {A : Type 0} where
  -- No And and no Or is negated on the way down through the conjunctions.
  unfoldable mutual
    pub convertible : Bool → Restrict A → Bool
    convertible full (and_of n rs) = not n && convertible_all full rs
    convertible full (or_of n rs) = not n
    convertible full (atom_of rs) = not full || convertible_all full rs
    convertible full _ = true

    pub convertible_all : Bool → Restricts A → Bool
    convertible_all full nil = true
    convertible_all full (cons r rs) = convertible full r && convertible_all full rs

  is_some-join :
      (a b : Option (List (Solution A)))
      → is_some (a >>= λ head. b >>= λ rest. some (head ++ rest)) ≡ (is_some a && is_some b)
  is_some-join none b = refl
  is_some-join (some a) none = refl
  is_some-join (some a) (some b) = refl

  mutual
    unfolding cnf_solutions convertible

    pub cnf_defined :
        (full : Bool) (r : Restrict A) → is_some (cnf_solutions full r) ≡ convertible full r
    cnf_defined full (leaf a) = refl
    cnf_defined full (always b) = refl
    cnf_defined full (negated r) = refl
    cnf_defined full (and_of true rs) = refl
    cnf_defined full (and_of false rs) = cnf_all_defined full rs
    cnf_defined full (or_of true rs) = refl
    cnf_defined full (or_of false rs) = refl
    cnf_defined full (just_one_of n rs) = refl
    cnf_defined full (at_most_one_of n rs) = refl
    cnf_defined true (atom_of rs) = cnf_all_defined true rs
    cnf_defined false (atom_of rs) = refl

    pub cnf_all_defined :
        (full : Bool) (rs : Restricts A) → is_some (cnf_children full rs) ≡ convertible_all full rs
    cnf_all_defined full nil = refl
    cnf_all_defined full (cons r rs) =
        is_some-join (cnf_solutions full r) (cnf_children full rs)
        ∙ ground (arith, cnf_defined full r, cnf_all_defined full rs)

  is_empty-append : (xs ys : List (Solution A)) → is_empty (xs ++ ys) ≡ (is_empty xs && is_empty ys)
  is_empty-append [] ys = refl
  is_empty-append (x ∷ xs) ys = refl

  is_empty-map :
      (f : Solution A → Solution A) (xs : List (Solution A)) → is_empty (map f xs) ≡ is_empty xs
  is_empty-map f [] = refl
  is_empty-map f (x ∷ xs) = refl

  pub is_empty-product :
      (arg : List (Solution A)) (others : List (List (Solution A)))
      → is_empty arg ≡ false
      → any is_empty others ≡ false
      → is_empty (product arg others) ≡ false
  unfolding product flat_map
  is_empty-product arg [] h k = h
  is_empty-product [] (o ∷ os) h k = ground arith
  is_empty-product (a ∷ arg) (o ∷ os) h k =
      is_empty-append (map (λ t. a ++ t) (product o os)) _
      ∙ ground (arith, is_empty-map (λ t. a ++ t) (product o os), is_empty-product o os, k)

  pub nonempty-optional :
      (ss : List (List (Solution A)))
      → any is_empty ss ≡ false
      → any is_empty (optional_reqs ss) ≡ false
  unfolding optional_reqs
  nonempty-optional [] h = refl
  nonempty-optional ([] ∷ ss) h = ground arith
  nonempty-optional ((s ∷ []) ∷ ss) h = nonempty-optional ss h
  nonempty-optional ((s ∷ t ∷ u) ∷ ss) h = nonempty-optional ss h

  nonempty-or_of_negations : (rs : Restricts A) → is_empty (or_of_negations rs) ≡ false
  unfolding or_of_negations negations
  nonempty-or_of_negations nil = refl
  nonempty-or_of_negations (cons r rs) = refl

  nonempty-first : (xs ys : List (Solution A)) → is_empty xs ≡ false → is_empty (xs ++ ys) ≡ false
  nonempty-first xs ys h = ground (arith, is_empty-append xs ys)

  nonempty-and :
      (ss : List (List (Solution A))) → any is_empty ss ≡ false → is_empty (dnf_and ss) ≡ false
  unfolding dnf_and
  nonempty-and ss h = is_empty-product _ _ refl (nonempty-optional ss h)

  mutual
    unfolding dnf_solutions and_of_negations dnf_and

    pub dnf_nonempty : (full : Bool) (r : Restrict A) → is_empty (dnf_solutions full r) ≡ false
    dnf_nonempty full (leaf a) = refl
    dnf_nonempty full (always b) = refl
    dnf_nonempty full (negated r) = refl
    dnf_nonempty full (and_of true rs) = nonempty-or_of_negations rs
    dnf_nonempty full (and_of false rs) = nonempty-and _ (nonempty-children full rs)
    dnf_nonempty full (or_of true nil) = refl
    dnf_nonempty full (or_of true (cons r rs)) = refl
    dnf_nonempty full (or_of false nil) = refl
    dnf_nonempty full (or_of false (cons r rs)) = nonempty-first _ _ (dnf_nonempty full r)
    dnf_nonempty full (just_one_of n rs) = refl
    dnf_nonempty full (at_most_one_of n rs) = refl
    dnf_nonempty true (atom_of rs) = nonempty-and _ (nonempty-children true rs)
    dnf_nonempty false (atom_of rs) = refl

    pub nonempty-children :
        (full : Bool) (rs : Restricts A) → any is_empty (dnf_children full rs) ≡ false
    nonempty-children full nil = refl
    nonempty-children full (cons r rs) =
        ground (arith, dnf_nonempty full r, nonempty-children full rs)
