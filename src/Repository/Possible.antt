-- ===== src/Repository/Possible.antt =====
-- The candidates of `_identify_candidates` of src/pkgcore/repository/prototype.py hold the key of
-- every package that the restriction matches.
use pkgcore.Prelude.{
  Bool, true, false, not, ◌&&◌, ◌||◌, and_left, and_right, all, all-append, ◌≡◌, refl, ap, ◌∙◌,
  List, [], ◌∷◌, ◌++◌, map, Option, some, arith, any, any-append, is_empty, if◌then◌else◌,
}
use pkgcore.Prelude.Text.Laws.{text_eq_sym}
use pkgcore.Prelude.Text.{Text}
use pkgcore.Ebuild.VersionMatch.{differs}
use pkgcore.Restrictions.{
  Restrict, leaf, always, negated, and_of, or_of, just_one_of, at_most_one_of, atom_of, Restricts,
  nil, cons, matches, Restricts,
}
use pkgcore.Restrictions.Solutions.{
  Solution, dnf_solutions, dnf_or, negations, or_of_negations, and_of_negations,
}
use pkgcore.Restrictions.Solutions.Defined.{is_some, dnf_nonempty}
use pkgcore.Repository.{
  Leaf, on_category, on_package, on_other, Value, exact, other_match, match_value, match_leaf,
  Entry, Tree, Sorter, Pair, contains, packages_get, collect, collect_group, collect_all,
  category_values, package_values, exacts, inexacts, hit,
}
use pkgcore.Repository.Search.{
  Specified, specified, says_category, says_package, choose_candidates, fast_identify_candidates,
  identify_candidates, negate_of, Query, of_atom, of_restrict, restriction_of, candidates,
}
use pkgcore.Repository.Members.{Among, any-map}
use pkgcore.Repository.Collected.{
  plain_value, plain_leaf, searchable, searchable_all, says-solutions,
}
use pkgcore.Repository.Picked.{allows, picked}
use pkgcore.Repository.Complete.{
  KeepsMembers, listed_in, listed-version_keys, listed-space, listed-choose_candidates,
}
use pkgcore.Repository.Complete.Fast.{leaves, leaves-allows, listed-fast_candidates}

-- What a restriction on the category or on the name asks for.
abbrev answered_leaf : Leaf → Bool
answered_leaf (on_category n v) = n || plain_value v
answered_leaf (on_package n v) = n || plain_value v
answered_leaf (on_other n f) = true

-- The restrictions that a search answers in full: an atom, a single restriction but a Negate, a
-- negated And or Or, and trees of them with no negated group and no count of matches.
unfoldable pub answered : Query → Bool
answered (of_atom c p rs) = true
answered (of_restrict (leaf a)) = answered_leaf a
answered (of_restrict (always b)) = true
answered (of_restrict (and_of true rs)) = true
answered (of_restrict (and_of false rs)) = searchable (and_of false rs)
answered (of_restrict (or_of true rs)) = true
answered (of_restrict (or_of false rs)) = searchable (or_of false rs)
answered (of_restrict _) = false

category_values-append :
    (xs ys : List Leaf) → category_values (xs ++ ys) ≡ category_values xs ++ category_values ys
unfolding category_values
category_values-append [] ys = refl
category_values-append (on_category n v ∷ xs) ys = ap (λ z. v ∷ z) (category_values-append xs ys)
category_values-append (on_package n v ∷ xs) ys = category_values-append xs ys
category_values-append (on_other n f ∷ xs) ys = category_values-append xs ys

package_values-append :
    (xs ys : List Leaf) → package_values (xs ++ ys) ≡ package_values xs ++ package_values ys
unfolding package_values
package_values-append [] ys = refl
package_values-append (on_package n v ∷ xs) ys = ap (λ z. v ∷ z) (package_values-append xs ys)
package_values-append (on_category n v ∷ xs) ys = package_values-append xs ys
package_values-append (on_other n f ∷ xs) ys = package_values-append xs ys

nonempty-append :
    (xs ys : List Value) → not (is_empty (xs ++ ys)) ≡ (not (is_empty xs) || not (is_empty ys))
nonempty-append [] ys = refl
nonempty-append (x ∷ xs) ys = refl

-- What the solutions say of categories, or of names, the whole restriction says.
module _ (part : List Leaf → List Value) (nothing : part [] ≡ [])
    (both : (xs ys : List Leaf) → part (xs ++ ys) ≡ part xs ++ part ys) where
  allowed-group :
      (r : Restrict Leaf) (u : Text)
      → searchable r ≡ true
      → (not (any (λ s. not (is_empty (part (collect_all s)))) (dnf_solutions true r))
          || any (λ s. hit false (part (collect_all s)) u) (dnf_solutions true r))
        ≡ true
      → allows (part (collect r)) u ≡ true
  allowed-group r u h k =
      let said =
        says-solutions (λ ls. not (is_empty (part ls))) (ap (λ z. not (is_empty z)) nothing)
          (λ xs ys. ap (λ z. not (is_empty z)) (both xs ys) ∙ nonempty-append (part xs) (part ys)) r
          h in
      let hits =
        says-solutions (λ ls. hit false (part ls) u) (ap (λ z. hit false z u) nothing)
          (λ xs ys.
            ap (λ z. hit false z u) (both xs ys)
            ∙ any-append (λ v. differs (match_value v u) false) (part xs) (part ys))
          r h in
      ground (arith, k, said, hits)

category_all :
    (xs ys : List Leaf)
    → all plain_value (category_values (xs ++ ys))
      ≡ (all plain_value (category_values xs) && all plain_value (category_values ys))
category_all xs ys =
    ap (all plain_value) (category_values-append xs ys)
    ∙ all-append plain_value (category_values xs) (category_values ys)

package_all :
    (xs ys : List Leaf)
    → all plain_value (package_values (xs ++ ys))
      ≡ (all plain_value (package_values xs) && all plain_value (package_values ys))
package_all xs ys =
    ap (all plain_value) (package_values-append xs ys)
    ∙ all-append plain_value (package_values xs) (package_values ys)

category_plain :
    (a : Leaf) → plain_leaf a ≡ true → all plain_value (category_values (a ∷ [])) ≡ true
unfolding category_values
category_plain (on_category n v) h = ground (arith, h)
category_plain (on_package n v) h = refl
category_plain (on_other n f) h = refl

package_plain : (a : Leaf) → plain_leaf a ≡ true → all plain_value (package_values (a ∷ [])) ≡ true
unfolding package_values
package_plain (on_category n v) h = refl
package_plain (on_package n v) h = ground (arith, h)
package_plain (on_other n f) h = refl

-- A test that holds of every leaf of a searchable restriction holds of what is collected.
module _ (test : List Leaf → Bool) (nothing : test [] ≡ true)
    (both : (xs ys : List Leaf) → test (xs ++ ys) ≡ (test xs && test ys))
    (single : (a : Leaf) → plain_leaf a ≡ true → test (a ∷ []) ≡ true) where
  mutual
    unfolding searchable collect

    plain-collect : (r : Restrict Leaf) → searchable r ≡ true → test (collect r) ≡ true
    plain-collect (leaf a) h = single a h
    plain-collect (always b) h = nothing
    plain-collect (negated r) h = nothing
    plain-collect (and_of true rs) h = ground (arith, h)
    plain-collect (and_of false rs) h = plain-collect_group rs h
    plain-collect (or_of true nil) h = ground (arith, h)
    plain-collect (or_of true (cons r rs)) h = ground (arith, h)
    plain-collect (or_of false nil) h = ground (arith, h)
    plain-collect (or_of false (cons r rs)) h = plain-collect_group (cons r rs) h
    plain-collect (just_one_of n rs) h = ground (arith, h)
    plain-collect (at_most_one_of n rs) h = ground (arith, h)
    plain-collect (atom_of rs) h = plain-collect_group rs h

    plain-collect_group :
        (rs : Restricts Leaf) → searchable_all rs ≡ true → test (collect_group rs) ≡ true
    plain-collect_group nil h = nothing
    plain-collect_group (cons r rs) h = ground (
      arith,
      both (collect r) (collect_group rs),
      plain-collect r (and_left (searchable r) (searchable_all rs) h),
      plain-collect_group rs (and_right (searchable r) (searchable_all rs) h),
    )

one_value :
    (n : Bool) (v : Value) (x : Text)
    → (n || plain_value v) ≡ true
    → differs (match_value v x) n ≡ true
    → leaves n (if n then [] else exacts (v ∷ [])) (inexacts (v ∷ [])) x ≡ true
unfolding exacts inexacts
one_value true (exact s true e) x p h = ground (arith, h)
one_value true (exact s false e) x p h = refl
one_value true (other_match f) x p h = ground (arith, h)
one_value false v x p h = leaves-allows (v ∷ []) x (ground (arith, p)) (ground (arith, h))

no_value : (n : Bool) (x : Text) → leaves n (if n then [] else exacts []) (inexacts []) x ≡ true
unfolding exacts inexacts
no_value true x = refl
no_value false x = refl

negations_silent : (rs : Restricts Leaf) → collect_all (negations rs) ≡ []
unfolding collect_all collect negations
negations_silent nil = refl
negations_silent (cons r rs) = negations_silent rs

-- A package of the repository.
module _ (sorter : Option Sorter) (keeps : KeepsMembers sorter) (t : Tree) (e : Entry)
    (whole : e.bare ≡ false) (hc : contains t.categories e.category ≡ true)
    (hp : contains (packages_get t e.category) e.name ≡ true) where
  abbrev found_in : Option (List Pair) → Bool
  found_in = listed_in e.category e.name

  attribute : (n b : Bool) → (if e.bare then n else differs b n) ≡ true → differs b n ≡ true
  attribute n b h = ground (arith, h, whole)

  possible-leaf :
      (a : Leaf)
      → answered_leaf a ≡ true
      → match_leaf e a ≡ true
      → found_in (fast_identify_candidates sorter t (leaf a)) ≡ true
  unfolding fast_identify_candidates collect category_values package_values
  possible-leaf (on_category n v) a h =
      listed-fast_candidates sorter keeps t e.category e.name hc hp n (v ∷ []) []
        (one_value n v e.category a (attribute n (match_value v e.category) h)) (no_value n e.name)
  possible-leaf (on_package n v) a h =
      listed-fast_candidates sorter keeps t e.category e.name hc hp n [] (v ∷ [])
        (no_value n e.category) (one_value n v e.name a (attribute n (match_value v e.name) h))
  possible-leaf (on_other n f) a h =
      listed-fast_candidates sorter keeps t e.category e.name hc hp n [] [] (no_value n e.category)
        (no_value n e.name)

  possible-always : (b : Bool) → found_in (fast_identify_candidates sorter t (always b)) ≡ true
  unfolding fast_identify_candidates collect category_values package_values
  possible-always b =
      listed-fast_candidates sorter keeps t e.category e.name hc hp b [] [] (no_value b e.category)
        (no_value b e.name)

  possible-choose :
      (fast : Option (List Pair)) (y : Specified) (ys : List Specified)
      → Among y ys
      → allows (y.0) e.category ≡ true
      → allows (y.1) e.name ≡ true
      → ((not (any says_category ys) || any (λ z. hit false (z.0) e.category) ys) ≡ true
          → (not (any says_package ys) || any (λ z. hit false (z.1) e.name) ys) ≡ true
          → found_in fast ≡ true)
      → found_in (choose_candidates sorter t fast ys) ≡ true
  possible-choose fast y [] m h k last = ground (arith, m (λ z. true) refl)
  possible-choose fast y (x ∷ xs) m h k last =
      listed-choose_candidates sorter keeps t e.category e.name hc hp x xs y m h k fast last

  -- a group that is not negated
  possible-group :
      (r : Restrict Leaf)
      → searchable r ≡ true
      → negate_of r ≡ some false
      → matches (match_leaf e) r ≡ true
      → found_in (
          choose_candidates sorter t
            (fast_identify_candidates sorter t r)
            (map specified (dnf_solutions true r)))
        ≡ true
  unfolding fast_identify_candidates specified
  possible-group r h n k =
      let (y, m, hy, ky) = picked e whole r h k in
      possible-choose (fast_identify_candidates sorter t r) y (map specified (dnf_solutions true r))
        m hy ky
        (λ c p. rw n (
          listed-fast_candidates sorter keeps t e.category e.name hc hp false
            (category_values (collect r)) (package_values (collect r))
            (leaves-allows (category_values (collect r)) e.category
              (plain-collect (λ ls. all plain_value (category_values ls)) refl category_all
                category_plain r h)
              (allowed-group category_values refl category_values-append r e.category h (
                ground (
                  arith,
                  c,
                  any-map says_category specified (dnf_solutions true r),
                  any-map (λ z. hit false (z.0) e.category) specified (dnf_solutions true r),
                ))))
            (leaves-allows (package_values (collect r)) e.name
              (plain-collect (λ ls. all plain_value (package_values ls)) refl package_all
                package_plain r h)
              (allowed-group package_values refl package_values-append r e.name h (
                ground (
                  arith,
                  p,
                  any-map says_package specified (dnf_solutions true r),
                  any-map (λ z. hit false (z.1) e.name) specified (dnf_solutions true r),
                ))))))

  silent_first :
      (fast : Option (List Pair)) (s : Solution Leaf) (ss : List (Solution Leaf))
      → collect_all s ≡ []
      → found_in (choose_candidates sorter t fast (map specified (s ∷ ss))) ≡ true
  unfolding choose_candidates specified category_values package_values
  silent_first fast s ss h =
      let cats = ap category_values h in
      let names = ap package_values h in
      rw (cats, names)
        (ground (
          arith,
          listed-version_keys sorter keeps t e.category e.name hc hp,
          listed-space sorter keeps t e.category e.name hc hp,
        ))

  -- The key of a package that matches is a candidate.
  pub possible :
      (q : Query)
      → answered q ≡ true
      → matches (match_leaf e) (restriction_of q) ≡ true
      → found_in (candidates sorter t q) ≡ true
  unfolding candidates identify_candidates answered matches dnf_solutions or_of_negations
      and_of_negations negations collect_all collect
  possible (of_atom c p rs) h k =
      ground (arith, k, whole, text_eq_sym c e.category, text_eq_sym p e.name)
  possible (of_restrict (leaf a)) h k = possible-leaf a h k
  possible (of_restrict (always b)) h k = possible-always b
  possible (of_restrict (negated r)) h k = ground (arith, h)
  possible (of_restrict (and_of true nil)) h k =
      silent_first (fast_identify_candidates sorter t (and_of true nil)) [] [] refl
  possible (of_restrict (and_of true (cons r rs))) h k =
      silent_first (fast_identify_candidates sorter t (and_of true (cons r rs))) (negated r ∷ [])
        (map (λ x. x ∷ []) (negations rs)) refl
  possible (of_restrict (and_of false rs)) h k = possible-group (and_of false rs) h refl k
  possible (of_restrict (or_of true nil)) h k =
      silent_first (fast_identify_candidates sorter t (or_of true nil)) [] (dnf_or true nil) refl
  possible (of_restrict (or_of true (cons r rs))) h k =
      silent_first (fast_identify_candidates sorter t (or_of true (cons r rs)))
        (negations (cons r rs)) (dnf_or true (cons r rs)) (negations_silent (cons r rs))
  possible (of_restrict (or_of false rs)) h k = possible-group (or_of false rs) h refl k
  possible (of_restrict (just_one_of n rs)) h k = ground (arith, h)
  possible (of_restrict (at_most_one_of n rs)) h k = ground (arith, h)
  possible (of_restrict (atom_of rs)) h k = ground (arith, h)

choose-defined :
    (sorter : Option Sorter) (t : Tree) (ks : List Pair) (s : Solution Leaf)
    (ss : List (Solution Leaf))
    → is_some (choose_candidates sorter t (some ks) (map specified (s ∷ ss))) ≡ true
unfolding choose_candidates
choose-defined sorter t ks s ss = ground arith

choose-nonempty :
    (sorter : Option Sorter) (t : Tree) (ks : List Pair) (ss : List (Solution Leaf))
    → is_empty ss ≡ false
    → is_some (choose_candidates sorter t (some ks) (map specified ss)) ≡ true
choose-nonempty sorter t ks [] h = ground (arith, h)
choose-nonempty sorter t ks (s ∷ ss) h = choose-defined sorter t ks s ss

-- The search for candidates does not raise.
pub candidates-defined :
    (sorter : Option Sorter) (t : Tree) (q : Query)
    → answered q ≡ true
    → is_some (candidates sorter t q) ≡ true
unfolding candidates identify_candidates fast_identify_candidates answered
candidates-defined sorter t (of_atom c p rs) h = refl
candidates-defined sorter t (of_restrict (leaf (on_category n v))) h = refl
candidates-defined sorter t (of_restrict (leaf (on_package n v))) h = refl
candidates-defined sorter t (of_restrict (leaf (on_other n f))) h = refl
candidates-defined sorter t (of_restrict (always b)) h = refl
candidates-defined sorter t (of_restrict (negated r)) h = ground (arith, h)
candidates-defined sorter t (of_restrict (and_of n rs)) h =
    choose-nonempty sorter t _ (dnf_solutions true (and_of n rs)) (dnf_nonempty true (and_of n rs))
candidates-defined sorter t (of_restrict (or_of n rs)) h =
    choose-nonempty sorter t _ (dnf_solutions true (or_of n rs)) (dnf_nonempty true (or_of n rs))
candidates-defined sorter t (of_restrict (just_one_of n rs)) h = ground (arith, h)
candidates-defined sorter t (of_restrict (at_most_one_of n rs)) h = ground (arith, h)
candidates-defined sorter t (of_restrict (atom_of rs)) h = ground (arith, h)
