-- ===== src/Restrictions/Solutions/Cnf.antt =====
-- The conjunctive solutions of a restriction mean what its `match` means.
use mathlib.Core.List.{flat_map}
use pkgcore.Prelude.{
  Bool, true, false, ◌&&◌, ◌||◌, ◌≡◌, refl, ◌∙◌, List, [], ◌∷◌, ◌++◌, map, some, >>=-eq-some, arith,
  any, all, and_left, and_right, and-if, or-if, any-append, all-append,
}
use pkgcore.Restrictions.{
  Restrict, leaf, always, negated, and_of, or_of, just_one_of, at_most_one_of, atom_of, Restricts,
  nil, cons, matches, match_all, match_any,
}
use pkgcore.Restrictions.Solutions.{
  Solution, has_solutions, singles, longer, child_dcnf, child_cnf, collect_dcnf, collect_cnf,
  distribute, cnf_or, cnf_solutions, cnf_children, dnf_solutions, solvable, solvable_all,
}
use pkgcore.Restrictions.Solutions.Dnf.{holds, dnf_holds, dnf_sound}

and_true_or : (a b : Bool) → ((a && true) || b) ≡ (a || b)
and_true_or a b = ground arith

regroup :
    (a b c d : Bool) {p q : Bool} → p ≡ (a || b) → q ≡ (c || d) → (p || q) ≡ ((a || c) || (b || d))
regroup a b c d e f = ground arith

module _ {A : Type 0} (test : A → Bool) where
  -- A clause holds if one of it holds; a normal form, if all of its clauses do.
  abbrev pub clause_holds : Solution A → Bool
  clause_holds = any (matches test)

  abbrev pub cnf_holds : List (Solution A) → Bool
  cnf_holds = all clause_holds

  cnf_holds-snoc :
      (x : Restrict A) (d : List (Solution A))
      → cnf_holds (map (λ y. y ++ x ∷ []) d) ≡ (cnf_holds d || matches test x)
  cnf_holds-snoc x [] = refl
  cnf_holds-snoc x (y ∷ d) =
      ground (arith, cnf_holds-snoc x d, any-append (matches test) y (x ∷ []))

  cnf_holds-flat_map :
      (andreq : Solution A) (d : List (Solution A))
      → cnf_holds (flat_map (λ x. map (λ y. y ++ x ∷ []) d) andreq)
        ≡ (cnf_holds d || holds test andreq)
  unfolding flat_map
  cnf_holds-flat_map [] d = ground arith
  cnf_holds-flat_map (x ∷ andreq) d = ground (
    arith,
    all-append clause_holds (map (λ y. y ++ x ∷ []) d)
        (flat_map (λ z. map (λ y. y ++ z ∷ []) d) andreq),
    cnf_holds-snoc x d,
    cnf_holds-flat_map andreq d,
  )

  cnf_holds-distribute :
      (d cnf : List (Solution A))
      → cnf_holds (distribute d cnf) ≡ (cnf_holds d || dnf_holds test cnf)
  unfolding distribute
  cnf_holds-distribute d [] = ground arith
  cnf_holds-distribute d (andreq ∷ cnf) = ground (
    arith,
    cnf_holds-distribute (flat_map (λ x. map (λ y. y ++ x ∷ []) d) andreq) cnf,
    cnf_holds-flat_map andreq d,
  )

  singles_or_longer :
      (s2 : List (Solution A))
      → (clause_holds (singles s2) || dnf_holds test (longer s2)) ≡ dnf_holds test s2
  unfolding singles longer
  singles_or_longer [] = refl
  singles_or_longer ([] ∷ s2) = ground (arith, singles_or_longer s2)
  singles_or_longer ((r ∷ []) ∷ s2) = ground (arith, singles_or_longer s2)
  singles_or_longer ((r ∷ t ∷ u) ∷ s2) = ground (arith, singles_or_longer s2)

  -- What one child puts into `dcnf` and into `cnf` is together what the child means.
  child_collected :
      (b : Bool) (r : Restrict A) (s2 : List (Solution A))
      → dnf_holds test s2 ≡ matches test r
      → (clause_holds (child_dcnf b r s2) || dnf_holds test (child_cnf b s2)) ≡ matches test r
  unfolding child_dcnf child_cnf
  child_collected false r s2 h = ground arith
  child_collected true r [] h = singles_or_longer [] ∙ h
  child_collected true r (s ∷ []) h = h
  child_collected true r (s ∷ t ∷ u) h = singles_or_longer (s ∷ t ∷ u) ∙ h

  collected :
      (full : Bool) (rs : Restricts A)
      → solvable_all rs ≡ true
      → (clause_holds (collect_dcnf full rs) || dnf_holds test (collect_cnf full rs))
        ≡ match_any test false rs
  unfolding collect_dcnf collect_cnf matches solvable
  collected full nil h = refl
  collected full (cons r rs) h =
      let s2 = dnf_solutions full r in
      let b = has_solutions r in
      regroup (clause_holds (child_dcnf b r s2)) (clause_holds (collect_dcnf full rs))
        (dnf_holds test (child_cnf b s2)) (dnf_holds test (collect_cnf full rs))
        (any-append (matches test) (child_dcnf b r s2) (collect_dcnf full rs))
        (any-append (holds test) (child_cnf b s2) (collect_cnf full rs))
      ∙ or-if _ _ (child_collected b r s2 (dnf_sound test full r (and_left _ _ h)))
          (collected full rs (and_right _ _ h))

  cnf_holds-or :
      (full : Bool) (r : Restrict A) (rs : Restricts A)
      → solvable_all (cons r rs) ≡ true
      → cnf_holds (cnf_or full (cons r rs)) ≡ match_any test false (cons r rs)
  unfolding cnf_or
  cnf_holds-or full r rs h =
      cnf_holds-distribute (collect_dcnf full (cons r rs) ∷ []) (collect_cnf full (cons r rs))
      ∙ and_true_or (clause_holds (collect_dcnf full (cons r rs))) _
      ∙ collected full (cons r rs) h

  cnf_holds_self :
      (r : Restrict A) {cs : List (Solution A)}
      → some ((r ∷ []) ∷ []) ≡ some cs
      → cnf_holds cs ≡ matches test r
  cnf_holds_self r e = ground arith

  cnf_holds-some :
      {cs ds : List (Solution A)} (b : Bool)
      → cnf_holds cs ≡ b
      → some cs ≡ some ds
      → cnf_holds ds ≡ b
  cnf_holds-some b h e = cc

  mutual
    unfolding matches cnf_solutions solvable

    -- the normal form of a solvable restriction holds exactly when the restriction matches
    pub cnf_sound :
        (full : Bool) (r : Restrict A) {cs : List (Solution A)}
        → solvable r ≡ true
        → cnf_solutions full r ≡ some cs
        → cnf_holds cs ≡ matches test r
    cnf_sound full (leaf a) h e = ground arith
    cnf_sound full (always b) h e = ground arith
    cnf_sound full (negated r) h e = ground arith
    cnf_sound full (and_of true rs) h e = cc
    cnf_sound full (and_of false rs) h e = cnf_children_sound full rs h e
    cnf_sound full (or_of true rs) h e = cc
    cnf_sound full (or_of false nil) h e = cc
    cnf_sound full (or_of false (cons r rs)) h e = cnf_holds-some _ (cnf_holds-or full r rs h) e
    cnf_sound full (just_one_of n rs) h e = cnf_holds_self (just_one_of n rs) e
    cnf_sound full (at_most_one_of n rs) h e = cnf_holds_self (at_most_one_of n rs) e
    cnf_sound true (atom_of rs) h e = cnf_children_sound true rs h e
    cnf_sound false (atom_of rs) h e = cnf_holds_self (atom_of rs) e

    cnf_children_sound :
        (full : Bool) (rs : Restricts A) {cs : List (Solution A)}
        → solvable_all rs ≡ true
        → cnf_children full rs ≡ some cs
        → cnf_holds cs ≡ match_all test false rs
    cnf_children_sound full nil h e = ground arith
    cnf_children_sound full (cons r rs) h e =
        let (head, eh, e') = >>=-eq-some (cnf_solutions full r) _ e in
        let (rest, er, done) = >>=-eq-some (cnf_children full rs) _ e' in
        cnf_holds-some _
          (all-append clause_holds head rest
            ∙ and-if _ _ (cnf_sound full r (and_left _ _ h) eh)
                (cnf_children_sound full rs (and_right _ _ h) er))
          done
