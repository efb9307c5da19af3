-- ===== src/Repository/Complete.antt =====
-- The candidates of a search hold every key that the restriction leaves possible.
pub mod Fast
use mathlib.Core.List.{flat_map}
use pkgcore.Prelude.{
  Bool, true, false, not, ◌&&◌, ◌||◌, ◌≡◌, refl, sym, ap, ◌∙◌, List, [], ◌∷◌, map, arith, any,
  is_empty, Option, none, some, if◌then◌else◌, Bool-cases, inl, inr,
}
use pkgcore.Prelude.Text.{Text, text_eq}
use pkgcore.Ebuild.VersionMatch.{differs}
use pkgcore.Repository.{
  Value, match_value, Entry, Tree, Sorter, sort_names, sort_keys, sort_entries, Pair, pairs,
  contains, packages_get, version_keys, hit, keep_if,
}
use pkgcore.Repository.Search.{
  Specified, says_category, says_package, joined, is_iter, choose_candidates,
}
use pkgcore.Repository.Members.{
  Among, any_witness, any-ext, any-flat_map, lacking, agreed, contains-keep_if, listed,
  listed-pairs,
}
use pkgcore.Repository.Picked.{allows}

-- A sorter yields what it is given, in another order.
pub record KeepsMembers (sorter : Option Sorter) : Type 0 where
  pub names : (f : Text → Bool) (xs : List Text) → any f (sort_names sorter xs) ≡ any f xs
  pub keys : (f : Pair → Bool) (xs : List Pair) → any f (sort_keys sorter xs) ≡ any f xs
  pub entries : (f : Entry → Bool) (xs : List Entry) → any f (sort_entries sorter xs) ≡ any f xs

abbrev pub listed_in : Text → Text → Option (List Pair) → Bool
listed_in c p none = false
listed_in c p (some ks) = listed c p ks

-- A key of the repository.
module _ (sorter : Option Sorter) (keeps : KeepsMembers sorter) (t : Tree) (c p : Text)
    (hc : contains t.categories c ≡ true) (hp : contains (packages_get t c) p ≡ true) where
  pub listed-version_keys : listed c p (version_keys t) ≡ true
  unfolding version_keys
  listed-version_keys = listed-pairs (packages_get t) t.categories c p hc hp

  pub listed-space :
      listed c p
        (pairs (λ d. sort_names sorter (packages_get t d)) (sort_names sorter t.categories))
      ≡ true
  listed-space =
      listed-pairs (λ d. sort_names sorter (packages_get t d)) (sort_names sorter t.categories) c p
        (keeps.names (text_eq c) t.categories ∙ hc)
        (keeps.names (text_eq p) (packages_get t c) ∙ hp)

  -- Filtering the whole space by names, or by categories, keeps the key that passes.
  listed-by_package :
      (vs : List Value)
      → hit false vs p ≡ true
      → listed c p (
          pairs
            (λ d. keep_if (hit false vs) (sort_names sorter (packages_get t d)))
            (sort_names sorter t.categories))
        ≡ true
  listed-by_package vs h =
      listed-pairs (λ d. keep_if (hit false vs) (sort_names sorter (packages_get t d)))
        (sort_names sorter t.categories) c p (keeps.names (text_eq c) t.categories ∙ hc)
        (contains-keep_if (hit false vs) p (sort_names sorter (packages_get t c))
          (keeps.names (text_eq p) (packages_get t c) ∙ hp) h)

  listed-by_category :
      (vs : List Value)
      → hit false vs c ≡ true
      → listed c p (
          pairs
            (λ d. sort_names sorter (packages_get t d))
            (keep_if (hit false vs) (sort_names sorter t.categories)))
        ≡ true
  listed-by_category vs h =
      listed-pairs (λ d. sort_names sorter (packages_get t d))
        (keep_if (hit false vs) (sort_names sorter t.categories)) c p
        (contains-keep_if (hit false vs) c (sort_names sorter t.categories)
          (keeps.names (text_eq c) t.categories ∙ hc) h)
        (keeps.names (text_eq p) (packages_get t c) ∙ hp)

  -- The solutions, one of which allows the key.
  module _ (x : Specified) (xs : List Specified) (y : Specified) (among : Among y (x ∷ xs))
      (allows_c : allows (y.0) c ≡ true) (allows_p : allows (y.1) p ≡ true) where
    abbrev silent : Specified → Bool
    silent z = not (says_category z) && not (says_package z)

    -- no solution is silent
    speaks : any silent (x ∷ xs) ≡ false → {z : Specified} → Among z (x ∷ xs) → silent z ≡ false
    speaks e {z} m = elim (Bool-cases (silent z)) [
      | inl k ↦ ground (arith, m silent k, e)
      | inr k ↦ k
    ]

    -- some solution says nothing of categories, and all agree on names: all say something of names
    all_packages :
        any silent (x ∷ xs) ≡ false
        → any (λ z. differs (says_category z) (says_category x)) xs ≡ true
        → any (λ z. differs (says_package z) (says_package x)) xs ≡ false
        → says_package y ≡ true
    all_packages e k h =
        let (z, lacks, m) = lacking says_category x xs k in
        agreed says_package x xs h among
        ∙ sym (agreed says_package x xs h m)
        ∙ ground (arith, speaks e m, lacks)

    all_categories :
        any silent (x ∷ xs) ≡ false
        → any (λ z. differs (says_category z) (says_category x)) xs ≡ false
        → any (λ z. differs (says_package z) (says_package x)) xs ≡ true
        → says_category y ≡ true
    all_categories e k h =
        let (z, lacks, m) = lacking says_package x xs h in
        agreed says_category x xs k among
        ∙ sym (agreed says_category x xs k m)
        ∙ ground (arith, speaks e m, lacks)

    hits-joined :
        (part : Specified → List Value) (u : Text)
        → hit false (part y) u ≡ true
        → hit false (joined part (x ∷ xs)) u ≡ true
    hits-joined part u h =
        any-flat_map (λ v. differs (match_value v u) false) part (x ∷ xs)
        ∙ among (λ z. hit false (part z) u) h

    -- where all solutions agree: if some says something, the one that allows the key does
    agreed_hit :
        (part : Specified → List Value) (u : Text)
        → any (λ z. differs (not (is_empty (part z))) (not (is_empty (part x)))) xs ≡ false
        → allows (part y) u ≡ true
        → (not (any (λ z. not (is_empty (part z))) (x ∷ xs))
            || any (λ z. hit false (part z) u) (x ∷ xs))
          ≡ true
    agreed_hit part u h k = elim (Bool-cases (any (λ z. not (is_empty (part z))) (x ∷ xs))) [
      | inr e ↦ ground (arith, e)
      | inl e ↦
          let (z, said, m) = any_witness (λ z. not (is_empty (part z))) (x ∷ xs) e in
          let same : not (is_empty (part y)) ≡ true =
            agreed (λ z. not (is_empty (part z))) x xs h among
            ∙ sym (agreed (λ z. not (is_empty (part z))) x xs h m)
            ∙ said in
          ground (arith, among (λ z. hit false (part z) u) (ground (arith, k, same)))
    ]

    -- The key is among the candidates, if the last resort lists it where all solutions agree.
    pub listed-choose_candidates :
        (fast : Option (List Pair))
        → ((not (any says_category (x ∷ xs)) || any (λ z. hit false (z.0) c) (x ∷ xs)) ≡ true
            → (not (any says_package (x ∷ xs)) || any (λ z. hit false (z.1) p) (x ∷ xs)) ≡ true
            → listed_in c p fast ≡ true)
        → listed_in c p (choose_candidates sorter t fast (x ∷ xs)) ≡ true
    unfolding choose_candidates
    listed-choose_candidates fast last = elim (Bool-cases (any silent (x ∷ xs))) [
      | inl e ↦ ground (arith, e, listed-version_keys, listed-space)
      | inr e ↦ elim (Bool-cases (any (λ z. differs (says_category z) (says_category x)) xs)) [
        | inl k ↦ elim (Bool-cases (any (λ z. differs (says_package z) (says_package x)) xs)) [
          | inl h ↦ rw (e, k, h) listed-version_keys
          | inr h ↦
              rw (e, k, h)
                (listed-by_package (joined (λ z. z.1) (x ∷ xs))
                  (hits-joined (λ z. z.1) p (ground (arith, allows_p, all_packages e k h))))
        ]
        | inr k ↦ elim (Bool-cases (any (λ z. differs (says_package z) (says_package x)) xs)) [
          | inl h ↦
              rw (e, k, h)
                (listed-by_category (joined (λ z. z.0) (x ∷ xs))
                  (hits-joined (λ z. z.0) c (ground (arith, allows_c, all_categories e k h))))
          | inr h ↦
              rw (e, k, h)
                (last (agreed_hit (λ z. z.0) c k allows_c) (agreed_hit (λ z. z.1) p h allows_p))
        ]
      ]
    ]
