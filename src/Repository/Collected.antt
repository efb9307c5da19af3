-- ===== src/Repository/Collected.antt =====
-- What a search reads from a restriction: the solutions say of the categories and of the names
-- what the whole restriction says, where no group is negated or counts its members.
use mathlib.Core.List.{flat_map}
use pkgcore.Prelude.{
  Bool, true, false, not, ◌&&◌, ◌||◌, ◌≡◌, refl, sym, ap, ◌∙◌, List, [], ◌∷◌, ◌++◌, map, arith, any,
  any-append, is_empty, and_left, and_right, append_assoc,
}
use pkgcore.Restrictions.{
  Restrict, leaf, always, negated, and_of, or_of, just_one_of, at_most_one_of, atom_of, Restricts,
  nil, cons,
}
use pkgcore.Restrictions.Solutions.{
  Solution, product, hard_reqs, optional_reqs, dnf_and, dnf_solutions, dnf_children, dnf_rest,
  solvable,
}
use pkgcore.Restrictions.Solutions.Defined.{is_empty-product, nonempty-optional, nonempty-children}
use pkgcore.Repository.{
  Leaf, on_category, on_package, on_other, Value, exact, other_match, collect, collect_group,
  collect_all,
}

-- An exact value that is not negated minds the case.
abbrev pub plain_value : Value → Bool
plain_value (exact case_sensitive n e) = case_sensitive || n
plain_value (other_match f) = true

-- A restriction on the category or on the name does not negate its own value.
abbrev pub plain_leaf : Leaf → Bool
plain_leaf (on_category n v) = not n && plain_value v
plain_leaf (on_package n v) = not n && plain_value v
plain_leaf (on_other n f) = true

-- The groups are And, Or with a member, and atoms; what a Negate holds is free.
unfoldable mutual
  pub searchable : Restrict Leaf → Bool
  searchable (leaf a) = plain_leaf a
  searchable (always b) = true
  searchable (negated r) = true
  searchable (and_of n rs) = not n && searchable_all rs
  searchable (or_of n nil) = false
  searchable (or_of n (cons r rs)) = not n && (searchable r && searchable_all rs)
  searchable (just_one_of n rs) = false
  searchable (at_most_one_of n rs) = false
  searchable (atom_of rs) = searchable_all rs

  pub searchable_all : Restricts Leaf → Bool
  searchable_all nil = true
  searchable_all (cons r rs) = searchable r && searchable_all rs

mutual
  unfolding searchable solvable

  pub searchable-solvable : (r : Restrict Leaf) → searchable r ≡ true → solvable r ≡ true
  searchable-solvable (leaf a) h = refl
  searchable-solvable (always b) h = refl
  searchable-solvable (negated r) h = refl
  searchable-solvable (and_of true rs) h = ground (arith, h)
  searchable-solvable (and_of false rs) h = solvable-members rs h
  searchable-solvable (or_of true nil) h = ground (arith, h)
  searchable-solvable (or_of true (cons r rs)) h = ground (arith, h)
  searchable-solvable (or_of false nil) h = ground (arith, h)
  searchable-solvable (or_of false (cons r rs)) h = solvable-members (cons r rs) h
  searchable-solvable (just_one_of n rs) h = refl
  searchable-solvable (at_most_one_of n rs) h = refl
  searchable-solvable (atom_of rs) h = solvable-members rs h

  solvable-members :
      (rs : Restricts Leaf) → searchable_all rs ≡ true → solvable (and_of false rs) ≡ true
  solvable-members nil h = refl
  solvable-members (cons r rs) h = ground (
    arith,
    searchable-solvable r (and_left (searchable r) (searchable_all rs) h),
    solvable-members rs (and_right (searchable r) (searchable_all rs) h),
  )

collect_all-append : (s t : Solution Leaf) → collect_all (s ++ t) ≡ collect_all s ++ collect_all t
unfolding collect_all
collect_all-append [] t = refl
collect_all-append (r ∷ s) t =
    ap (λ z. collect r ++ z) (collect_all-append s t)
    ∙ sym (append_assoc (collect r) (collect_all s) (collect_all t))

-- A question that a list of restrictions answers with yes when one of its parts does.
module _ (asks : List Leaf → Bool) (nothing : asks [] ≡ false)
    (either : (xs ys : List Leaf) → asks (xs ++ ys) ≡ (asks xs || asks ys)) where
  abbrev says : Solution Leaf → Bool
  says s = asks (collect_all s)

  says-append : (s t : Solution Leaf) → says (s ++ t) ≡ (says s || says t)
  says-append s t = ap asks (collect_all-append s t) ∙ either (collect_all s) (collect_all t)

  says-map :
      (s : Solution Leaf) (ts : List (Solution Leaf))
      → is_empty ts ≡ false
      → any says (map (λ t. s ++ t) ts) ≡ (says s || any says ts)
  says-map s [] h = ground (arith, h)
  says-map s (t ∷ []) h = ground (arith, says-append s t)
  says-map s (t ∷ u ∷ ts) h = ground (arith, says-append s t, says-map s (u ∷ ts) refl)

  says-flat_map :
      (ss ts : List (Solution Leaf))
      → is_empty ss ≡ false
      → is_empty ts ≡ false
      → any says (flat_map (λ s. map (λ t. s ++ t) ts) ss) ≡ (any says ss || any says ts)
  unfolding flat_map
  says-flat_map [] ts h k = ground (arith, h)
  says-flat_map (s ∷ []) ts h k =
      any-append says (map (λ t. s ++ t) ts) [] ∙ ground (arith, says-map s ts k)
  says-flat_map (s ∷ s2 ∷ ss) ts h k =
      any-append says (map (λ t. s ++ t) ts) (flat_map (λ u. map (λ t. u ++ t) ts) (s2 ∷ ss))
      ∙ ground (arith, says-map s ts k, says-flat_map (s2 ∷ ss) ts refl k)

  says-product :
      (arg : List (Solution Leaf)) (others : List (List (Solution Leaf)))
      → is_empty arg ≡ false
      → any is_empty others ≡ false
      → any says (product arg others) ≡ (any says arg || any (any says) others)
  unfolding product
  says-product arg [] h k = ground arith
  says-product [] (o ∷ os) h k = ground (arith, h)
  says-product (a ∷ arg) ([] ∷ os) h k = ground (arith, k)
  says-product (a ∷ arg) ((o ∷ more) ∷ os) h k =
      says-flat_map (a ∷ arg) (product (o ∷ more) os) refl (is_empty-product (o ∷ more) os refl k)
      ∙ ground (arith, says-product (o ∷ more) os refl k)

  says-reqs :
      (ss : List (List (Solution Leaf)))
      → any is_empty ss ≡ false
      → (says (hard_reqs ss) || any (any says) (optional_reqs ss)) ≡ any (any says) ss
  unfolding hard_reqs optional_reqs collect_all
  says-reqs [] h = ground (arith, nothing)
  says-reqs ([] ∷ ss) h = ground (arith, h)
  says-reqs ((s ∷ []) ∷ ss) h = ground (arith, says-reqs ss h, says-append s (hard_reqs ss))
  says-reqs ((s ∷ t ∷ u) ∷ ss) h = ground (arith, says-reqs ss h)

  says-and :
      (ss : List (List (Solution Leaf)))
      → any is_empty ss ≡ false
      → any says (dnf_and ss) ≡ any (any says) ss
  unfolding dnf_and
  says-and ss h =
      says-product (hard_reqs ss ∷ []) (optional_reqs ss) refl (nonempty-optional ss h)
      ∙ ground (arith, says-reqs ss h)

  says_self : (a : Leaf) → any says ((leaf a ∷ []) ∷ []) ≡ asks (collect (leaf a))
  unfolding collect_all collect
  says_self a = ground (arith, either (a ∷ []) [], nothing)

  mutual
    unfolding searchable dnf_solutions collect collect_all

    -- some solution says it exactly when the whole restriction does
    pub says-solutions :
        (r : Restrict Leaf)
        → searchable r ≡ true
        → any says (dnf_solutions true r) ≡ asks (collect r)
    says-solutions (leaf a) h = says_self a
    says-solutions (always b) h = ground (arith, nothing)
    says-solutions (negated r) h = ground (arith, nothing)
    says-solutions (and_of true rs) h = ground (arith, h)
    says-solutions (and_of false rs) h =
        says-and (dnf_children true rs) (nonempty-children true rs) ∙ says-children rs h
    says-solutions (or_of true nil) h = ground (arith, h)
    says-solutions (or_of true (cons r rs)) h = ground (arith, h)
    says-solutions (or_of false nil) h = ground (arith, h)
    says-solutions (or_of false (cons r rs)) h = says-rest (cons r rs) h
    says-solutions (just_one_of n rs) h = ground (arith, h)
    says-solutions (at_most_one_of n rs) h = ground (arith, h)
    says-solutions (atom_of rs) h =
        says-and (dnf_children true rs) (nonempty-children true rs) ∙ says-children rs h

    says-children :
        (rs : Restricts Leaf)
        → searchable_all rs ≡ true
        → any (any says) (dnf_children true rs) ≡ asks (collect_group rs)
    says-children nil h = sym nothing
    says-children (cons r rs) h = ground (
      arith,
      either (collect r) (collect_group rs),
      says-solutions r (and_left (searchable r) (searchable_all rs) h),
      says-children rs (and_right (searchable r) (searchable_all rs) h),
    )

    says-rest :
        (rs : Restricts Leaf)
        → searchable_all rs ≡ true
        → any says (dnf_rest true rs) ≡ asks (collect_group rs)
    says-rest nil h = sym nothing
    says-rest (cons r rs) h =
        any-append says (dnf_solutions true r) (dnf_rest true rs)
        ∙ ground (
          arith,
          either (collect r) (collect_group rs),
          says-solutions r (and_left (searchable r) (searchable_all rs) h),
          says-rest rs (and_right (searchable r) (searchable_all rs) h),
        )
