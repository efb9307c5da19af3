-- ===== src/Samples/Searches.antt =====
-- Searches of a repository in memory: src/pkgcore/repository.
use pkgcore.Prelude.{
  Bool, true, false, not, ◌&&◌, ◌||◌, ◌≡◌, refl, ap, List, [], ◌∷◌, Option, none, some, any, arith,
  if◌then◌else◌, Bool-cases, inl, inr, sym, ◌∙◌,
}
use pkgcore.Prelude.Text.{Text, codes, text_eq}
use pkgcore.Restrictions.{Restrict, leaf, and_of, just_one_of, nil, cons, matches}
use pkgcore.Repository.{
  Tree, Entry, Leaf, on_category, on_other, exact, contains, match_leaf, version_keys, packages_get,
  versions_get, exacts, inexacts, collect, collect_all, category_values, package_values, keep_if,
  str_exact_match, lower_text,
}
use pkgcore.Repository.Search.{
  Query, of_restrict, restriction_of, itermatch, candidates, identify_candidates, choose_candidates,
  fast_identify_candidates, fast_candidates, candidates_of, cats_of, packages_of, entries_of,
  gen_candidates, internal_match, specified,
}
use pkgcore.Repository.Complete.{KeepsMembers}
use mathlib.Core.List.{flat_map}
use pkgcore.Restrictions.Solutions.{dnf_solutions}
use pkgcore.Restrictions.Solutions.Defined.{is_some}
use pkgcore.Repository.Collected.{searchable}
use pkgcore.Repository.Possible.{answered}
use pkgcore.Repository.Found.{all_entries, yields, itermatch_lem}
use pkgcore.Repository.Mappings.{
  Store, State, pair_eq, or_empty, versions_read, simple_add, simple_remove, stored,
}
use pkgcore.Dicts.{Dict, lookup, keys, distinct}
use pkgcore.Repository.Mappings.Stored.{category_of, versions_of, kept}
use pkgcore.Repository.Mappings.Fresh.{Coherent}
use pkgcore.Repository.Mappings.Fresh.Added.{simple_add_lem}
use pkgcore.Repository.Mappings.Fresh.Removed.{simple_remove_lem, simple_remove-unread}

abbrev dev : Text
dev = codes "dev"

abbrev sys : Text
sys = codes "sys"

abbrev git : Text
git = codes "git"

abbrev awk : Text
awk = codes "awk"

abbrev one : Text
one = codes "1"

-- dev/git-1 and sys/awk-1
abbrev tree : Tree
tree = record {
  categories = dev ∷ sys ∷ [];
  get_packages = λ c. (if text_eq c dev then git ∷ [] else awk ∷ []);
  get_versions = λ c p. one ∷ [];
}

abbrev in_dev : Restrict Leaf
in_dev = leaf (on_category false (exact true false dev))

abbrev has_slot : Restrict Leaf
has_slot = leaf (on_other false (λ e. true))

-- category dev and some slot
abbrev query : Query
query = of_restrict (and_of false (cons in_dev (cons has_slot nil)))

unsorted-KeepsMembers : KeepsMembers none
unsorted-KeepsMembers = record { names = λ f xs. refl; keys = λ f xs. refl; entries = λ f xs. refl }

query-answered : answered query ≡ true
unfolding answered searchable
query-answered = refl

itermatch_lem_example :
    (res : List (Option Entry)) × (itermatch none (λ es. es) true false tree query ≡ some res)
    × ((f : Entry → Bool)
        → any (yields f) res
          ≡ any
              (λ e. true && (f e && matches (match_leaf e) (restriction_of query)))
              (all_entries true tree))
itermatch_lem_example =
    itermatch_lem none unsorted-KeepsMembers (λ es. es) (λ e. true) (λ f es. refl) tree false query
      query-answered

-- A count of matches is searched in the categories that it names only: sys/awk-1 has a slot and is
-- in no category dev, yet the search does not yield it.
abbrev one_of : Query
one_of = of_restrict (just_one_of false (cons in_dev (cons has_slot nil)))

just_one_missed : itermatch none (λ es. es) true false tree one_of ≡ some []
unfolding itermatch candidates identify_candidates choose_candidates fast_identify_candidates
    fast_candidates candidates_of cats_of packages_of packages_get versions_get entries_of
    gen_candidates internal_match exacts inexacts collect collect_all category_values package_values
    specified keep_if matches dnf_solutions flat_map version_keys
just_one_missed = refl

just_one_there :
    matches
      (match_leaf (record { bare = false; category = sys; name = awk; fullver = some one }))
      (restriction_of one_of)
    ≡ true
unfolding matches
just_one_there = refl

-- An exact text without case is searched for in lower case: DEV/git-1 is not found in the category
-- DEV.
abbrev upper_tree : Tree
upper_tree = record {
  categories = codes "DEV" ∷ [];
  get_packages = λ c. git ∷ [];
  get_versions = λ c p. one ∷ [];
}

abbrev in_dev_any_case : Query
unfolding str_exact_match
in_dev_any_case = of_restrict (leaf (on_category false (str_exact_match (codes "DEV") false false)))

case_missed : itermatch none (λ es. es) true false upper_tree in_dev_any_case ≡ some []
unfolding itermatch candidates identify_candidates fast_identify_candidates fast_candidates
    candidates_of cats_of packages_of packages_get versions_get entries_of gen_candidates
    internal_match exacts inexacts collect category_values package_values flat_map str_exact_match
    lower_text matches
case_missed = refl

abbrev store : Store
store = (dev, (git, one ∷ []) ∷ []) ∷ []

-- everything read
abbrev read_state : State
read_state = record {
  store = store;
  cats = some (dev ∷ []);
  pkgs = (dev, git ∷ []) ∷ [];
  vers = ((dev, git), one ∷ []) ∷ [];
}

-- nothing read
abbrev unread_state : State
unread_state = record { store = store; cats = none; pkgs = []; vers = [] }

names_once : (c : Text) → distinct text_eq (category_of store c) ≡ true
unfolding distinct lookup keys
names_once c = elim (Bool-cases (text_eq c dev)) [ inl e ↦ rw e refl | inr e ↦ rw e refl ]

unread-Coherent : Coherent unread_state
unfolding lookup
unread-Coherent = record {
  cats_fresh = λ cs h. ground (arith, ap is_some h);
  pkgs_fresh = λ c ps h. ground (arith, ap is_some h);
  vers_fresh = λ c p vs h. ground (arith, ap is_some h);
  names = names_once;
}

-- sys/awk-1 is added
simple_add_lem_example :
    Coherent (simple_add unread_state (sys, awk) one)
    × ((d q u : Text)
        → contains (versions_read (simple_add unread_state (sys, awk) one) (d, q)).0 u ≡ (
            (pair_eq (d, q) (sys, awk) && text_eq u one)
            || contains (versions_read unread_state (d, q)).0 u))
simple_add_lem_example = simple_add_lem unread_state unread-Coherent sys awk one

read_cats :
    (cs : List Text)
    → read_state.cats ≡ some cs
    → (c : Text) → contains cs c ≡ is_some (lookup text_eq c store)
unfolding lookup
read_cats cs h c = ap (λ o. contains (or_empty o) c) (sym h) ∙ ground arith

read_pkgs :
    (c : Text) (ps : List Text)
    → lookup text_eq c read_state.pkgs ≡ some ps
    → ps ≡ keys (category_of store c)
unfolding lookup keys
read_pkgs c ps h = elim (Bool-cases (text_eq c dev)) [
  | inl e ↦ ap or_empty (sym h) ∙ rw e refl
  | inr e ↦ ground (arith, ap is_some (sym h ∙ ap (λ b. if b then some (git ∷ []) else none) e))
]

read_vers :
    (c p : Text) (vs : List Text)
    → lookup pair_eq (c, p) read_state.vers ≡ some vs
    → (v : Text) → contains vs v ≡ contains (versions_of store c p) v
unfolding lookup
read_vers c p vs h v = ap (λ o. contains (or_empty o) v) (sym h) ∙ both (text_eq c dev)
  where
    both :
        (b : Bool)
        → contains
            (or_empty
              (if◌then◌else◌ {A = Option (List Text)} (b && text_eq p git) (some (one ∷ [])) none))
            v
          ≡ contains
              (or_empty
                (elim (if◌then◌else◌ {A = Option (Dict Text (List Text))} b
                  (some ((git, one ∷ []) ∷ []))
                  none) [ none ↦ none | some d ↦ lookup text_eq p d ]))
              v
    both true = refl
    both false = refl

read-Coherent : Coherent read_state
read-Coherent = record {
  cats_fresh = read_cats;
  pkgs_fresh = read_pkgs;
  vers_fresh = read_vers;
  names = names_once;
}

read_held : lookup pair_eq (dev, git) read_state.vers ≡ some (one ∷ [])
unfolding lookup
read_held = refl

read_cached : lookup text_eq dev read_state.pkgs ≡ some (git ∷ [])
unfolding lookup
read_cached = refl

read_stored : stored store dev git ≡ some (one ∷ [])
unfolding lookup
read_stored = refl

simple_remove_lem_example :
    (s2 : State) × (simple_remove read_state (dev, git) one ≡ some s2)
    × Coherent s2
    × ((d q u : Text)
        → contains (versions_read s2 (d, q)).0 u ≡ (
            contains (versions_read read_state (d, q)).0 u
            && not (pair_eq (d, q) (dev, git) && text_eq u one)))
simple_remove_lem_example =
    simple_remove_lem read_state read-Coherent dev git one (one ∷ []) (git ∷ []) (one ∷ [])
      read_held read_cached read_stored

unread_none : lookup pair_eq (dev, git) unread_state.vers ≡ none
unfolding lookup
unread_none = refl

nothing_kept : kept one (one ∷ []) ≡ []
unfolding keep_if
nothing_kept = refl

simple_remove-unread_example : simple_remove unread_state (dev, git) one ≡ none
simple_remove-unread_example =
    simple_remove-unread unread_state dev git one (one ∷ []) unread_none read_stored nothing_kept
