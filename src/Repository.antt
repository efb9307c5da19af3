-- ===== src/Repository.antt =====
-- src/pkgcore/repository/prototype.py: the search of a repository for the packages that match a
-- restriction, and src/pkgcore/restrictions/util.py, which finds what a restriction says of
-- categories and package names. The mappings are read through: `_get_categories`, `_get_packages`
-- and `_get_versions`, which each kind of repository defines, are the fields of `Tree`.
-- `none` is the AttributeError of reading `negate` of a Negate.
pub mod Search
pub mod Members
pub mod Collected
pub mod Picked
pub mod Complete
pub mod Possible
pub mod Found
pub mod Mappings
use mathlib.Core.List.{flat_map}
use pkgcore.Prelude.{
  ℕ, ◌+◌, leb, Bool, true, false, not, ◌&&◌, ◌||◌, List, [], ◌∷◌, ◌++◌, map, Option, none, some,
  ◌>>=◌, any, is_empty, if◌then◌else◌,
}
use pkgcore.Prelude.Text.{Text, text_eq, starts_with}
use pkgcore.Ebuild.VersionMatch.{differs}
use pkgcore.Restrictions.{
  Restrict, leaf, always, negated, and_of, or_of, just_one_of, at_most_one_of, atom_of, Restricts,
  nil, cons, matches,
}
use pkgcore.Restrictions.Solutions.{Solution, dnf_solutions}

-- What `package_class` makes of its arguments. An unversioned search makes the bare tuple of
-- category and name, which has neither as an attribute.
pub record Entry : Type 0 where
  pub bare : Bool
  pub category : Text
  pub name : Text
  pub fullver : Option Text

-- StrExactMatch with `case_sensitive`, `negate` and the text that it stores, and every other class
-- of value restrictions but the boolean ones.
pub data Value : Type 0 where
  exact : Bool → Bool → Text → Value
  other_match : (Text → Bool) → Value

-- PackageRestriction on `category`, on `package`, and on other attributes, each with `negate`; of
-- another attribute the test says whether it is there and its value matches.
pub data Leaf : Type 0 where
  on_category : Bool → Value → Leaf
  on_package : Bool → Value → Leaf
  on_other : Bool → (Entry → Bool) → Leaf

-- `str.lower`, of ASCII
abbrev pub lower : ℕ → ℕ
lower c = if leb 65 c && leb c 90 then c + 32 else c

unfoldable pub lower_text : Text → Text
lower_text [] = []
lower_text (c ∷ s) = lower c ∷ lower_text s

-- `StrExactMatch(exact, case_sensitive, negate)`
unfoldable pub str_exact_match : Text → Bool → Bool → Value
unfolding lower_text
str_exact_match e true negate = exact true negate e
str_exact_match e false negate = exact false negate (lower_text e)

abbrev pub match_value : Value → Text → Bool
match_value (exact true negate e) value = differs (text_eq e value) negate
match_value (exact false negate e) value = differs (text_eq e (lower_text value)) negate
match_value (other_match f) value = f value

-- An attribute that is missing gives `negate`.
abbrev pub match_leaf : Entry → Leaf → Bool
match_leaf e (on_category negate v) =
    if e.bare then negate else differs (match_value v e.category) negate
match_leaf e (on_package negate v) =
    if e.bare then negate else differs (match_value v e.name) negate
match_leaf e (on_other negate f) = differs (f e) negate

-- `fval in val` of strings, and ContainmentMatch on a string.
unfoldable pub is_in : Text → Text → Bool
unfolding starts_with
is_in fval [] = is_empty fval
is_in fval (c ∷ s) = starts_with fval (c ∷ s) || is_in fval s

unfoldable pub containment_match : List Text → Text → Bool
containment_match vals value = any (λ fval. is_in fval value) vals

pub record Tree : Type 0 where
  pub categories : List Text
  pub get_packages : Text → List Text
  pub get_versions : Text → Text → List Text

abbrev pub contains : List Text → Text → Bool
contains xs x = any (text_eq x) xs

-- `self.packages.get(c, ())` and `self.versions.get((c, p), ())`
unfoldable pub packages_get : Tree → Text → List Text
packages_get t c = if contains t.categories c then t.get_packages c else []

unfoldable pub versions_get : Tree → Text × Text → List Text
versions_get t (c, p) = if contains (packages_get t c) p then t.get_versions c p else []

abbrev pub Pair : Type 0
Pair = Text × Text

-- `((c, p) for c in cats for p in packages(c))`
abbrev pub pairs : (Text → List Text) → List Text → List Pair
pairs packages cats = flat_map (λ c. map (λ p. (c, p)) (packages c)) cats

-- The keys of `self.versions`.
unfoldable pub version_keys : Tree → List Pair
version_keys t = pairs (packages_get t) t.categories

-- A `sorter`; `none` is `iter`.
pub record Sorter : Type 0 where
  pub names : List Text → List Text
  pub keys : List Pair → List Pair
  pub entries : List Entry → List Entry

abbrev pub sort_names : Option Sorter → List Text → List Text
sort_names none xs = xs
sort_names (some s) xs = s.names xs

abbrev pub sort_keys : Option Sorter → List Pair → List Pair
sort_keys none xs = xs
sort_keys (some s) xs = s.keys xs

abbrev pub sort_entries : Option Sorter → List Entry → List Entry
sort_entries none xs = xs
sort_entries (some s) xs = s.entries xs

-- `collect_package_restrictions(restrict)`: the package restrictions inside the groups. A Negate
-- and an AlwaysBool have no attributes.
unfoldable mutual
  pub collect : Restrict Leaf → List Leaf
  collect (leaf a) = a ∷ []
  collect (always b) = []
  collect (negated r) = []
  collect (and_of n rs) = collect_group rs
  collect (or_of n rs) = collect_group rs
  collect (just_one_of n rs) = collect_group rs
  collect (at_most_one_of n rs) = collect_group rs
  collect (atom_of rs) = collect_group rs

  pub collect_group : Restricts Leaf → List Leaf
  collect_group nil = []
  collect_group (cons r rs) = collect r ++ collect_group rs

unfoldable pub collect_all : Solution Leaf → List Leaf
collect_all [] = []
collect_all (r ∷ rs) = collect r ++ collect_all rs

-- `[x.restriction for x in ... if x.attr == "category"]`, and the same for "package".
unfoldable pub category_values : List Leaf → List Value
category_values [] = []
category_values (on_category n v ∷ ls) = v ∷ category_values ls
category_values (_ ∷ ls) = category_values ls

unfoldable pub package_values : List Leaf → List Value
package_values [] = []
package_values (on_package n v ∷ ls) = v ∷ package_values ls
package_values (_ ∷ ls) = package_values ls

-- `[x for x in s if isinstance(x, values.StrExactMatch) and not x.negate]`, as a set, and what
-- stays in s.
unfoldable pub exacts : List Value → List Text
exacts [] = []
exacts (exact case_sensitive false e ∷ vs) =
    let rest = exacts vs in if contains rest e then rest else e ∷ rest
exacts (_ ∷ vs) = exacts vs

unfoldable pub inexacts : List Value → List Value
inexacts [] = []
inexacts (exact case_sensitive false e ∷ vs) = inexacts vs
inexacts (v ∷ vs) = v ∷ inexacts vs

unfoldable pub keep_if {ℓ} : {X : Type ℓ} → (X → Bool) → List X → List X
keep_if p [] = []
keep_if p (x ∷ xs) = let rest = keep_if p xs in if p x then x ∷ rest else rest

-- The loops of `_cat_filter` and `_package_filter`, which yield at the first match.
abbrev pub hit : Bool → List Value → Text → Bool
hit negate vs x = any (λ v. differs (match_value v x) negate) vs

unfoldable pub cat_filter : Tree → List Value → Bool → List Text
cat_filter t vs negate = keep_if (hit negate vs) t.categories

unfoldable pub package_filter : Tree → List Text → List Value → Bool → List Pair
package_filter t cats vs negate = pairs (λ c. keep_if (hit negate vs) (packages_get t c)) cats
