-- ===== src/Repository/Picked.antt =====
-- The solution that a package meets, and what it says of the package's category and name.
use mathlib.Core.List.{flat_map}
use pkgcore.Prelude.{
  Bool, true, false, ◌&&◌, ◌||◌, ◌≡◌, refl, ◌∙◌, List, [], ◌∷◌, ◌++◌, map, arith, all, all-append,
  is_empty, and_left, and_right,
}
use pkgcore.Restrictions.{
  Restrict, leaf, always, negated, and_of, or_of, just_one_of, at_most_one_of, atom_of, Restricts,
  nil, cons, matches,
}
use pkgcore.Restrictions.Solutions.{
  Solution, product, hard_reqs, optional_reqs, dnf_and, dnf_solutions, dnf_children, dnf_rest,
}
use pkgcore.Restrictions.Solutions.Dnf.{holds, dnf_sound}
use pkgcore.Prelude.Text.{Text}
use pkgcore.Repository.{
  Leaf, on_category, on_package, on_other, Value, Entry, match_value, match_leaf, collect,
  collect_all, category_values, package_values, hit,
}
use pkgcore.Repository.Search.{Specified, specified}
use pkgcore.Repository.Members.{Among, any_witness, all-Among, Among-map}
use pkgcore.Repository.Collected.{plain_leaf, searchable, searchable_all, searchable-solvable}

abbrev plain : Restrict Leaf → Bool
plain (leaf a) = plain_leaf a
plain (always b) = true
plain (negated r) = true
plain _ = false

abbrev all_plain : List (Solution Leaf) → Bool
all_plain = all (all plain)

plain-map :
    (s : Solution Leaf) (ts : List (Solution Leaf))
    → all plain s ≡ true
    → all_plain ts ≡ true
    → all_plain (map (λ t. s ++ t) ts) ≡ true
plain-map s [] h k = refl
plain-map s (t ∷ ts) h k =
    ground (
      arith,
      all-append plain s t,
      h,
      k,
      plain-map s ts h (and_right (all plain t) (all_plain ts) k),
    )

plain-flat_map :
    (ss ts : List (Solution Leaf))
    → all_plain ss ≡ true
    → all_plain ts ≡ true
    → all_plain (flat_map (λ s. map (λ t. s ++ t) ts) ss) ≡ true
unfolding flat_map
plain-flat_map [] ts h k = refl
plain-flat_map (s ∷ ss) ts h k =
    all-append (all plain) (map (λ t. s ++ t) ts) (flat_map (λ u. map (λ t. u ++ t) ts) ss)
    ∙ ground (
      arith,
      plain-map s ts (and_left (all plain s) (all_plain ss) h) k,
      plain-flat_map ss ts (and_right (all plain s) (all_plain ss) h) k,
    )

plain-product :
    (arg : List (Solution Leaf)) (others : List (List (Solution Leaf)))
    → all_plain arg ≡ true
    → all all_plain others ≡ true
    → all_plain (product arg others) ≡ true
unfolding product
plain-product arg [] h k = h
plain-product arg (o ∷ os) h k = plain-flat_map arg (product o os) h (
    plain-product o os (and_left (all_plain o) (all all_plain os) k)
      (and_right (all_plain o) (all all_plain os) k))

plain-reqs :
    (ss : List (List (Solution Leaf)))
    → all all_plain ss ≡ true
    → (all plain (hard_reqs ss) && all all_plain (optional_reqs ss)) ≡ true
unfolding hard_reqs optional_reqs
plain-reqs [] h = refl
plain-reqs ([] ∷ ss) h = ground (arith, plain-reqs ss h)
plain-reqs ((s ∷ []) ∷ ss) h = ground (
  arith,
  h,
  all-append plain s (hard_reqs ss),
  plain-reqs ss (and_right (all_plain (s ∷ [])) (all all_plain ss) h),
)
plain-reqs ((s ∷ t ∷ u) ∷ ss) h =
    ground (arith, h, plain-reqs ss (and_right (all_plain (s ∷ t ∷ u)) (all all_plain ss) h))

plain-and :
    (ss : List (List (Solution Leaf))) → all all_plain ss ≡ true → all_plain (dnf_and ss) ≡ true
unfolding dnf_and
plain-and ss h =
    plain-product (hard_reqs ss ∷ []) (optional_reqs ss) (ground (arith, plain-reqs ss h))
      (ground (arith, plain-reqs ss h))

mutual
  unfolding searchable dnf_solutions

  -- the members of the solutions are no groups
  plain-solutions :
      (r : Restrict Leaf) → searchable r ≡ true → all_plain (dnf_solutions true r) ≡ true
  plain-solutions (leaf a) h = ground (arith, h)
  plain-solutions (always b) h = refl
  plain-solutions (negated r) h = refl
  plain-solutions (and_of true rs) h = ground (arith, h)
  plain-solutions (and_of false rs) h = plain-and (dnf_children true rs) (plain-children rs h)
  plain-solutions (or_of true nil) h = ground (arith, h)
  plain-solutions (or_of true (cons r rs)) h = ground (arith, h)
  plain-solutions (or_of false nil) h = ground (arith, h)
  plain-solutions (or_of false (cons r rs)) h = plain-rest (cons r rs) h
  plain-solutions (just_one_of n rs) h = ground (arith, h)
  plain-solutions (at_most_one_of n rs) h = ground (arith, h)
  plain-solutions (atom_of rs) h = plain-and (dnf_children true rs) (plain-children rs h)

  plain-children :
      (rs : Restricts Leaf) → searchable_all rs ≡ true → all all_plain (dnf_children true rs) ≡ true
  plain-children nil h = refl
  plain-children (cons r rs) h = ground (
    arith,
    plain-solutions r (and_left (searchable r) (searchable_all rs) h),
    plain-children rs (and_right (searchable r) (searchable_all rs) h),
  )

  plain-rest :
      (rs : Restricts Leaf) → searchable_all rs ≡ true → all_plain (dnf_rest true rs) ≡ true
  plain-rest nil h = refl
  plain-rest (cons r rs) h =
      all-append (all plain) (dnf_solutions true r) (dnf_rest true rs)
      ∙ ground (
        arith,
        plain-solutions r (and_left (searchable r) (searchable_all rs) h),
        plain-rest rs (and_right (searchable r) (searchable_all rs) h),
      )

-- Some of these value restrictions matches, or there are none.
abbrev pub allows : List Value → Text → Bool
allows vs x = is_empty vs || hit false vs x

module _ (e : Entry) (whole : e.bare ≡ false) where
  abbrev met : Leaf → Bool
  met = match_leaf e

  -- all that such a solution says of the category and of the name matches
  all_categories :
      (s : Solution Leaf)
      → all plain s ≡ true
      → holds met s ≡ true
      → all (λ v. match_value v e.category) (category_values (collect_all s)) ≡ true
  unfolding collect_all collect category_values matches
  all_categories [] h k = refl
  all_categories (leaf (on_category n v) ∷ s) h k =
      ground (arith, h, k, whole, all_categories s (ground (arith, h)) (ground (arith, k)))
  all_categories (leaf (on_package n v) ∷ s) h k =
      all_categories s (ground (arith, h)) (ground (arith, k))
  all_categories (leaf (on_other n f) ∷ s) h k =
      all_categories s (ground (arith, h)) (ground (arith, k))
  all_categories (always b ∷ s) h k = all_categories s h (ground (arith, k))
  all_categories (negated r ∷ s) h k = all_categories s h (ground (arith, k))
  all_categories (and_of n rs ∷ s) h k = ground (arith, h)
  all_categories (or_of n rs ∷ s) h k = ground (arith, h)
  all_categories (just_one_of n rs ∷ s) h k = ground (arith, h)
  all_categories (at_most_one_of n rs ∷ s) h k = ground (arith, h)
  all_categories (atom_of rs ∷ s) h k = ground (arith, h)

  all_packages :
      (s : Solution Leaf)
      → all plain s ≡ true
      → holds met s ≡ true
      → all (λ v. match_value v e.name) (package_values (collect_all s)) ≡ true
  unfolding collect_all collect package_values matches
  all_packages [] h k = refl
  all_packages (leaf (on_package n v) ∷ s) h k =
      ground (arith, h, k, whole, all_packages s (ground (arith, h)) (ground (arith, k)))
  all_packages (leaf (on_category n v) ∷ s) h k =
      all_packages s (ground (arith, h)) (ground (arith, k))
  all_packages (leaf (on_other n f) ∷ s) h k =
      all_packages s (ground (arith, h)) (ground (arith, k))
  all_packages (always b ∷ s) h k = all_packages s h (ground (arith, k))
  all_packages (negated r ∷ s) h k = all_packages s h (ground (arith, k))
  all_packages (and_of n rs ∷ s) h k = ground (arith, h)
  all_packages (or_of n rs ∷ s) h k = ground (arith, h)
  all_packages (just_one_of n rs ∷ s) h k = ground (arith, h)
  all_packages (at_most_one_of n rs ∷ s) h k = ground (arith, h)
  all_packages (atom_of rs ∷ s) h k = ground (arith, h)

  allows-all :
      (vs : List Value) (x : Text) → all (λ v. match_value v x) vs ≡ true → allows vs x ≡ true
  allows-all [] x h = refl
  allows-all (v ∷ vs) x h = ground (arith, h)

  -- A package that a searchable restriction matches has a solution that allows its category and
  -- its name.
  pub picked :
      (r : Restrict Leaf)
      → searchable r ≡ true
      → matches met r ≡ true
      → (x : Specified) × Among x (map specified (dnf_solutions true r))
        × (allows (x.0) e.category ≡ true)
        × (allows (x.1) e.name ≡ true)
  unfolding specified
  picked r h k =
      let (s, holding, among) =
        any_witness (holds met) (dnf_solutions true r)
          (dnf_sound met true r (searchable-solvable r h) ∙ k) in
      let flat = all-Among (all plain) (dnf_solutions true r) (plain-solutions r h) among in
      (
        specified s,
        Among-map specified (dnf_solutions true r) among,
        allows-all (category_values (collect_all s)) e.category (all_categories s flat holding),
        allows-all (package_values (collect_all s)) e.name (all_packages s flat holding),
      )
