-- ===== src/Repository/Mappings.antt =====
-- The mappings of src/pkgcore/repository/prototype.py with what they have cached, and the
-- repository in memory of src/pkgcore/repository/util.py. A read caches what it pulls, so each read
-- gives the state after it. `none` is a KeyError; a dict is a list of keys with their values.
pub mod Stored
pub mod View
pub mod Fresh
use pkgcore.Prelude.{
  Bool, true, false, not, ◌&&◌, List, [], ◌∷◌, ◌++◌, Option, none, some, any, all, is_empty,
  if◌then◌else◌,
}
use pkgcore.Prelude.Text.{Text, text_eq}
use pkgcore.Repository.{Pair, contains, keep_if}
use pkgcore.Dicts.{Dict, lookup, put, pop, keys}

abbrev pub pair_eq : Pair → Pair → Bool
pair_eq a b = text_eq (a.0) (b.0) && text_eq (a.1) (b.1)

-- `cpv_dict`
abbrev pub Store : Type 0
Store = Dict Text (Dict Text (List Text))

-- SimpleTree: its store, `categories._values`, `packages._cache` and `versions._cache`.
pub record State : Type 0 where
  pub store : Store
  pub cats : Option (List Text)
  pub pkgs : Dict Text (List Text)
  pub vers : Dict Pair (List Text)

abbrev pub or_empty : Option (List Text) → List Text
or_empty none = []
or_empty (some xs) = xs

-- `cat in self.categories`
unfoldable pub in_categories : State → Text → Bool × State
in_categories s c = elim s.cats [
  | some cs ↦ (contains cs c, s)
  | none ↦ (contains (keys s.store) c, record s { cats = some (keys s.store) })
]

-- `self._cache[key] = vals = tuple(self._pull_vals(key))` of the packages
abbrev pub pull_packages :
    State → Text → Option (Dict Text (List Text)) → Option (List Text) × State
pull_packages s c none = (none, s)
pull_packages s c (some d) = (some (keys d), record s { pkgs = put text_eq c (keys d) s.pkgs })

unfoldable pub packages_getitem : State → Text → Option (List Text) × State
unfolding in_categories
packages_getitem s c = elim (lookup text_eq c s.pkgs) [
  | some ps ↦ (some ps, s)
  | none ↦
      let (there, s1) = in_categories s c in
      if there then pull_packages s1 c (lookup text_eq c s1.store) else (none, s1)
]

-- `self.cpv_dict[c][p]`
abbrev pub stored : Store → Text → Text → Option (List Text)
stored store c p = elim (lookup text_eq c store) [ none ↦ none | some d ↦ lookup text_eq p d ]

abbrev pub pull_versions : State → Pair → Option (List Text) → Option (List Text) × State
pull_versions s k none = (none, s)
pull_versions s k (some vs) = (some vs, record s { vers = put pair_eq k vs s.vers })

unfoldable pub versions_getitem : State → Pair → Option (List Text) × State
unfolding packages_getitem
versions_getitem s (c, p) = elim (lookup pair_eq (c, p) s.vers) [
  | some vs ↦ (some vs, s)
  | none ↦
      let (ps, s1) = packages_getitem s c in
      if contains (or_empty ps) p then pull_versions s1 (c, p) (stored s1.store c p) else (none, s1)
]

-- `self.versions.get(key, ())`
unfoldable pub versions_read : State → Pair → List Text × State
unfolding versions_getitem
versions_read s k = let (vs, s1) = versions_getitem s k in (or_empty vs, s1)

-- `VersionMapping.force_regen`
abbrev pub regen_versions : Pair → List Text → Dict Pair (List Text) → Dict Pair (List Text)
regen_versions k [] vers = pop pair_eq k vers
regen_versions k (v ∷ vs) vers = put pair_eq k (v ∷ vs) vers

-- `s = set(versions); s.add(fullver)`
abbrev pub set_add : Text → List Text → List Text
set_add v vs = if contains vs v then vs else v ∷ vs

-- `notify_add_package` of the template, for the package c/p of the version v
unfoldable pub notify_add : State → Pair → Text → State
unfolding versions_read
notify_add s (c, p) v =
    let (vs, s1) = versions_read s (c, p) in
    record s1 {
      cats = none;
      pkgs = pop text_eq c s1.pkgs;
      vers = regen_versions (c, p) (set_add v vs) s1.vers;
    }

-- `list(self.packages[pkg.category]) == [pkg.package]`
abbrev pub only_name : List Text → Text → Bool
only_name (q ∷ []) p = text_eq q p
only_name _ p = false

-- the dead package
abbrev pub drop_package : Text → Text → Option (List Text) × State → Option State
drop_package c p (none, s) = none
drop_package c p (some ps, s) = some (record s {
  cats = if only_name ps p then none else s.cats;
  pkgs = pop text_eq c s.pkgs;
  vers = pop pair_eq (c, p) s.vers;
})

-- `notify_remove_package` of the template, from `self.versions[ver_key]` on
abbrev pub without_version : Text → Text → Text → Option (List Text) × State → Option State
without_version c p v (none, s) = none
without_version c p v (some vs, s) =
    let l = keep_if (λ x. not (text_eq x v)) vs in
    if is_empty l
    then drop_package c p (packages_getitem s c)
    else some (record s { vers = put pair_eq (c, p) l s.vers })

unfoldable pub notify_remove : State → Pair → Text → Option State
unfolding versions_getitem
notify_remove s (c, p) v = without_version c p v (versions_getitem s (c, p))

-- `setdefault(category, {}).setdefault(package, []).append(fullver)`
abbrev pub dict_of : Option (Dict Text (List Text)) → Dict Text (List Text)
dict_of none = []
dict_of (some d) = d

unfoldable pub store_add : Store → Pair → Text → Store
store_add store (c, p) v =
    let d = dict_of (lookup text_eq c store) in
    put text_eq c (put text_eq p (or_empty (lookup text_eq p d) ++ v ∷ []) d) store

-- `notify_add_package` and `notify_remove_package` of SimpleTree
unfoldable pub simple_add : State → Pair → Text → State
unfolding store_add notify_add
simple_add s k v = notify_add (record s { store = store_add s.store k v }) k v

-- the deletions
abbrev pub put_category : Text → Dict Text (List Text) → Store → Store
put_category c [] store = pop text_eq c store
put_category c (x ∷ d) store = put text_eq c (x ∷ d) store

abbrev pub put_versions : Text → List Text → Dict Text (List Text) → Store → Text → Store
put_versions p [] d store c = put_category c (pop text_eq p d) store
put_versions p (v ∷ vs) d store c = put text_eq c (put text_eq p (v ∷ vs) d) store

unfoldable pub store_remove : Store → Pair → Text → Option Store
unfolding keep_if
store_remove store (c, p) v = elim (lookup text_eq c store) [
  | none ↦ none
  | some d ↦ elim (lookup text_eq p d) [
    | none ↦ none
    | some vs ↦ some (put_versions p (keep_if (λ x. not (text_eq x v)) vs) d store c)
  ]
]

unfoldable pub simple_remove : State → Pair → Text → Option State
unfolding store_remove notify_remove
simple_remove s k v = elim (store_remove s.store k v) [
  | none ↦ none
  | some store ↦ notify_remove (record s { store = store }) k v
]
