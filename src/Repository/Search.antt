-- ===== src/Repository/Search.antt =====
-- The search of src/pkgcore/repository/prototype.py: the candidates of a restriction, and the
-- packages among them that match.
use mathlib.Core.List.{flat_map}
use pkgcore.Prelude.{
  Bool, true, false, not, ◌&&◌, List, [], ◌∷◌, map, Option, none, some, ◌>>=◌, any, is_empty,
  if◌then◌else◌,
}
use pkgcore.Prelude.Text.{Text}
use pkgcore.Ebuild.VersionMatch.{differs}
use pkgcore.Restrictions.{
  Restrict, leaf, always, negated, and_of, or_of, just_one_of, at_most_one_of, atom_of, Restricts,
  cons, matches,
}
use pkgcore.Restrictions.Solutions.{Solution, dnf_solutions}
use pkgcore.Repository.{
  Entry, Leaf, Pair, Sorter, Tree, Value, cat_filter, category_values, collect, collect_all,
  containment_match, contains, exact, exacts, hit, inexacts, keep_if, match_leaf, on_category,
  on_other, on_package, other_match, package_filter, package_values, packages_get, pairs,
  sort_entries, sort_keys, sort_names, version_keys, versions_get,
}

-- `cats_iter`
unfoldable pub cats_of : Option Sorter → Tree → Bool → List Text → List Value → List Text
unfolding cat_filter containment_match
cats_of sorter t negate [] [] = sort_names sorter t.categories
cats_of sorter t negate [] (v ∷ vs) = cat_filter t (v ∷ vs) negate
cats_of sorter t negate (c ∷ []) [] = c ∷ []
cats_of sorter t negate es vs =
    sort_names sorter (cat_filter t (other_match (containment_match es) ∷ vs) false)

-- What is left to say of the packages of those categories. `plain` is that neither `sorter` nor
-- anything said of categories asks for the categories one by one.
unfoldable pub packages_of :
    Option Sorter → Tree → Bool → Bool → List Text → List Text → List Value → List Pair
unfolding package_filter containment_match version_keys
packages_of sorter t plain negate cats [] [] =
    if plain then version_keys t else pairs (λ c. sort_names sorter (packages_get t c)) cats
packages_of sorter t plain negate cats [] (v ∷ vs) = package_filter t cats (v ∷ vs) negate
packages_of sorter t plain negate cats (e ∷ es) [] = pairs (λ c. sort_names sorter (e ∷ es)) cats
packages_of sorter t plain negate cats (e ∷ es) (v ∷ vs) =
    package_filter t cats (other_match (containment_match (e ∷ es)) ∷ v ∷ vs) negate

abbrev pub is_iter : Option Sorter → Bool
is_iter none = true
is_iter (some s) = false

-- One category and one package name, both exact, are looked up.
unfoldable pub candidates_of :
    Option Sorter → Tree → Bool → List Text → List Value → List Text → List Value → List Pair
unfolding cats_of packages_of
candidates_of sorter t negate (c ∷ []) [] (p ∷ []) [] =
    if contains (packages_get t c) p then (c, p) ∷ [] else []
candidates_of sorter t negate ces cvs pes pvs =
    packages_of sorter t (is_iter sorter && (is_empty ces && is_empty cvs)) negate
      (cats_of sorter t negate ces cvs) pes pvs

-- `restrict.negate`
abbrev pub negate_of : Restrict Leaf → Option Bool
negate_of (leaf (on_category n v)) = some n
negate_of (leaf (on_package n v)) = some n
negate_of (leaf (on_other n f)) = some n
negate_of (always b) = some b
negate_of (negated r) = none
negate_of (and_of n rs) = some n
negate_of (or_of n rs) = some n
negate_of (just_one_of n rs) = some n
negate_of (at_most_one_of n rs) = some n
negate_of (atom_of rs) = some false

-- `_fast_identify_candidates`, for the values collected
unfoldable pub fast_candidates : Option Sorter → Tree → Bool → List Value → List Value → List Pair
unfolding exacts inexacts candidates_of
fast_candidates sorter t negate cvs pvs =
    candidates_of sorter t negate (if negate then [] else exacts cvs) (inexacts cvs)
      (if negate then [] else exacts pvs) (inexacts pvs)

unfoldable pub fast_identify_candidates : Option Sorter → Tree → Restrict Leaf → Option (List Pair)
unfolding fast_candidates collect category_values package_values
fast_identify_candidates sorter t r = do
  negate ← negate_of r
  some (fast_candidates sorter t negate (category_values (collect r)) (package_values (collect r)))

-- What each solution says of the category and of the name: `dsolutions`.
abbrev pub Specified : Type 0
Specified = List Value × List Value

unfoldable pub specified : Solution Leaf → Specified
unfolding collect_all category_values package_values
specified s = (category_values (collect_all s), package_values (collect_all s))

abbrev pub says_category : Specified → Bool
says_category x = not (is_empty x.0)

abbrev pub says_package : Specified → Bool
says_package x = not (is_empty x.1)

-- every value restriction of some list of them
abbrev pub joined : (Specified → List Value) → List Specified → List Value
joined part xs = flat_map part xs

-- The cases of `_identify_candidates`; `dsolutions[0]` of no solutions raises.
unfoldable pub choose_candidates :
    Option Sorter → Tree → Option (List Pair) → List Specified → Option (List Pair)
unfolding keep_if version_keys
choose_candidates sorter t fast [] = none
choose_candidates sorter t fast (x ∷ xs) =
    if any (λ y. not (says_category y) && not (says_package y)) (x ∷ xs)
    then some (
        if is_iter sorter
        then version_keys t
        else pairs (λ c. sort_names sorter (packages_get t c)) (sort_names sorter t.categories))
    else if any (λ y. differs (says_category y) (says_category x)) xs
    then some (
        if any (λ y. differs (says_package y) (says_package x)) xs
        then version_keys t
        else pairs
            (λ c.
              keep_if (hit false (joined (λ y. y.1) (x ∷ xs)))
                (sort_names sorter (packages_get t c)))
            (sort_names sorter t.categories))
    else if any (λ y. differs (says_package y) (says_package x)) xs
    then some (
        pairs (λ c. sort_names sorter (packages_get t c))
          (keep_if (hit false (joined (λ y. y.0) (x ∷ xs))) (sort_names sorter t.categories)))
    else fast

-- Only the boolean restrictions but the atom have solutions to look at.
unfoldable pub identify_candidates : Option Sorter → Tree → Restrict Leaf → Option (List Pair)
unfolding fast_identify_candidates choose_candidates specified
identify_candidates sorter t (leaf a) = fast_identify_candidates sorter t (leaf a)
identify_candidates sorter t (always b) = fast_identify_candidates sorter t (always b)
identify_candidates sorter t (negated r) = fast_identify_candidates sorter t (negated r)
identify_candidates sorter t (atom_of rs) = fast_identify_candidates sorter t (atom_of rs)
identify_candidates sorter t r =
    choose_candidates sorter t (fast_identify_candidates sorter t r)
      (map specified (dnf_solutions true r))

-- The packages of one key.
unfoldable pub entries_of : Bool → Tree → Pair → List Entry
unfolding versions_get
entries_of true t (c, p) =
    map (λ v. record { bare = false; category = c; name = p; fullver = some v })
      (versions_get t (c, p))
entries_of false t (c, p) =
    if is_empty (versions_get t (c, p))
    then []
    else record { bare = true; category = c; name = p; fullver = none } ∷ []

-- `_internal_gen_candidates`, and `_internal_match`, which may yield a None for a package that
-- does not match.
unfoldable pub gen_candidates :
    Option Sorter → (List Entry → List Entry) → Bool → Tree → List Pair → List Entry
unfolding entries_of
gen_candidates sorter pkg_filter versioned t candidates =
    flat_map (λ cp. sort_entries sorter (pkg_filter (entries_of versioned t cp)))
      (sort_keys sorter candidates)

unfoldable pub internal_match : (Entry → Bool) → Bool → List Entry → List (Option Entry)
internal_match match_func yield_none [] = []
internal_match match_func yield_none (e ∷ es) =
    let rest = internal_match match_func yield_none es in
    if match_func e then some e ∷ rest else if yield_none then none ∷ rest else rest

-- What `itermatch` is asked for: an atom, of this category and package, or another restriction.
pub data Query : Type 0 where
  of_atom : Text → Text → Restricts Leaf → Query
  of_restrict : Restrict Leaf → Query

-- The restrictions of an atom: PackageDep and CategoryDep, and the others.
abbrev pub restriction_of : Query → Restrict Leaf
restriction_of (of_atom c p rs) = atom_of (
    cons (leaf (on_package false (exact true false p)))
      (cons (leaf (on_category false (exact true false c))) rs))
restriction_of (of_restrict r) = r

unfoldable pub candidates : Option Sorter → Tree → Query → Option (List Pair)
unfolding identify_candidates
candidates sorter t (of_atom c p rs) = some ((c, p) ∷ [])
candidates sorter t (of_restrict r) = identify_candidates sorter t r

-- `itermatch` with the restriction's own `match` (`force` is None), the default `raw_pkg_cls` and no
-- `pkg_cls`.
unfoldable pub itermatch :
    Option Sorter
    → (List Entry → List Entry)
    → Bool
    → Bool
    → Tree
    → Query
    → Option (List (Option Entry))
unfolding candidates gen_candidates internal_match matches
itermatch sorter pkg_filter versioned yield_none t q = do
  found ← candidates sorter t q
  some (
      internal_match (λ e. matches (match_leaf e) (restriction_of q)) yield_none
        (gen_candidates sorter pkg_filter versioned t found))
