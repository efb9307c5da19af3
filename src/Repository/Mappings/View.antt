-- ===== src/Repository/Mappings/View.antt =====
-- The ways a read of `packages` or of `versions` goes: src/pkgcore/repository/prototype.py.
use pkgcore.Prelude.{
  Bool, false, ◌≡◌, refl, sym, ap, ◌⊎◌, List, Option, none, some, if◌then◌else◌, Bool-cases,
  Option-cases, inl, inr,
}
use mathlib.Core.Path.{subst}
use pkgcore.Prelude.Text.{Text, text_eq}
use pkgcore.Repository.{Pair, contains}
use pkgcore.Repository.Mappings.{
  State, Store, pair_eq, or_empty, in_categories, pull_packages, packages_getitem, stored,
  pull_versions, versions_getitem,
}
use pkgcore.Dicts.{Dict, lookup, put, keys}

-- The categories that a read sees, and the state that has cached them.
abbrev pub known : State → List Text
known s = elim s.cats [ some cs ↦ cs | none ↦ keys s.store ]

abbrev pub warm : State → State
warm s = record s { cats = some (known s) }

in_categories_parts :
    (store : Store) (cats : Option (List Text)) (pkgs : Dict Text (List Text))
    (vers : Dict Pair (List Text)) (c : Text)
    → let s : State = record { store = store; cats = cats; pkgs = pkgs; vers = vers } in
      in_categories s c ≡ (contains (known s) c, warm s)
unfolding in_categories
in_categories_parts store none pkgs vers c = refl
in_categories_parts store (some cs) pkgs vers c = refl

in_categories_lem : (s : State) (c : Text) → in_categories s c ≡ (contains (known s) c, warm s)
in_categories_lem s c = in_categories_parts s.store s.cats s.pkgs s.vers c

pub data PackagesView (s : State) (c : Text) : Option (List Text) × State → Type 0 where
  cached : (ps : List Text) → lookup text_eq c s.pkgs ≡ some ps → PackagesView s c (some ps, s)
  pulled :
      (d : Dict Text (List Text))
      → lookup text_eq c s.pkgs ≡ none
      → lookup text_eq c s.store ≡ some d
      → PackagesView s c
          (some (keys d), record s { cats = some (known s); pkgs = put text_eq c (keys d) s.pkgs })
  missing :
      lookup text_eq c s.pkgs ≡ none
      → (contains (known s) c ≡ false) ⊎ (lookup text_eq c s.store ≡ none)
      → PackagesView s c (none, warm s)

pulled_view :
    (s : State) (c : Text) (o : Option (Dict Text (List Text)))
    → lookup text_eq c s.pkgs ≡ none
    → lookup text_eq c s.store ≡ o
    → PackagesView s c (pull_packages (warm s) c o)
pulled_view s c none h k = missing h (inr k)
pulled_view s c (some d) h k = pulled d h k

abbrev after_categories : State → Text → Bool × State → Option (List Text) × State
after_categories s c (there, s1) =
    if there then pull_packages s1 c (lookup text_eq c s1.store) else (none, s1)

abbrev after_cache : State → Text → Option (List Text) → Option (List Text) × State
after_cache s c (some ps) = (some ps, s)
after_cache s c none = after_categories s c (in_categories s c)

fresh_view :
    (s : State) (c : Text)
    → lookup text_eq c s.pkgs ≡ none
    → PackagesView s c (after_categories s c (contains (known s) c, warm s))
fresh_view s c h = elim (Bool-cases (contains (known s) c)) [
  | inl e ↦
      subst (λ b. PackagesView s c (after_categories s c (b, warm s))) (sym e)
        (pulled_view s c (lookup text_eq c s.store) h refl)
  | inr e ↦
      subst (λ b. PackagesView s c (after_categories s c (b, warm s))) (sym e) (missing h (inl e))
]

pub packages-View : (s : State) (c : Text) → PackagesView s c (packages_getitem s c)
unfolding packages_getitem
packages-View s c = elim (Option-cases (lookup text_eq c s.pkgs)) [
  | inl e ↦
      subst (λ o. PackagesView s c (after_cache s c o)) (sym e)
        (subst (λ u. PackagesView s c (after_categories s c u)) (sym (in_categories_lem s c))
          (fresh_view s c e))
  | inr (ps, e) ↦ subst (λ o. PackagesView s c (after_cache s c o)) (sym e) (cached ps e)
]

pub data VersionsView (s : State) (c p : Text) : Option (List Text) × State → Type 0 where
  held : (vs : List Text) → lookup pair_eq (c, p) s.vers ≡ some vs → VersionsView s c p (some vs, s)
  taken :
      (ps : Option (List Text)) (s1 : State) (vs : List Text)
      → lookup pair_eq (c, p) s.vers ≡ none
      → PackagesView s c (ps, s1)
      → stored s1.store c p ≡ some vs
      → VersionsView s c p (some vs, record s1 { vers = put pair_eq (c, p) vs s1.vers })
  absent :
      (ps : Option (List Text)) (s1 : State)
      → lookup pair_eq (c, p) s.vers ≡ none
      → PackagesView s c (ps, s1)
      → (contains (or_empty ps) p ≡ false) ⊎ (stored s1.store c p ≡ none)
      → VersionsView s c p (none, s1)

taken_view :
    (s : State) (c p : Text) (ps : Option (List Text)) (s1 : State)
    → lookup pair_eq (c, p) s.vers ≡ none
    → PackagesView s c (ps, s1)
    → (o : Option (List Text)) → stored s1.store c p ≡ o
    → VersionsView s c p (pull_versions s1 (c, p) o)
taken_view s c p ps s1 h v none k = absent ps s1 h v (inr k)
taken_view s c p ps s1 h v (some vs) k = taken ps s1 vs h v k

abbrev after_packages : Text → Text → Option (List Text) × State → Option (List Text) × State
after_packages c p (ps, s1) =
    if contains (or_empty ps) p then pull_versions s1 (c, p) (stored s1.store c p) else (none, s1)

after_view :
    (s : State) (c p : Text) (ps : Option (List Text)) (s1 : State)
    → lookup pair_eq (c, p) s.vers ≡ none
    → PackagesView s c (ps, s1)
    → VersionsView s c p (after_packages c p (ps, s1))
after_view s c p ps s1 h v = elim (Bool-cases (contains (or_empty ps) p)) [
  | inl e ↦
      subst
        (λ b.
          VersionsView s c p
            (if b then pull_versions s1 (c, p) (stored s1.store c p) else (none, s1)))
        (sym e) (taken_view s c p ps s1 h v (stored s1.store c p) refl)
  | inr e ↦
      subst
        (λ b.
          VersionsView s c p
            (if b then pull_versions s1 (c, p) (stored s1.store c p) else (none, s1)))
        (sym e) (absent ps s1 h v (inl e))
]

abbrev after_versions : State → Text → Text → Option (List Text) → Option (List Text) × State
after_versions s c p (some vs) = (some vs, s)
after_versions s c p none = after_packages c p (packages_getitem s c)

pub versions-View : (s : State) (c p : Text) → VersionsView s c p (versions_getitem s (c, p))
unfolding versions_getitem
versions-View s c p = elim (Option-cases (lookup pair_eq (c, p) s.vers)) [
  | inl e ↦
      subst (λ o. VersionsView s c p (after_versions s c p o)) (sym e)
        (after_view s c p (packages_getitem s c).0 (packages_getitem s c).1 e (packages-View s c))
  | inr (vs, e) ↦ subst (λ o. VersionsView s c p (after_versions s c p o)) (sym e) (held vs e)
]

pub versions_getitem-held :
    (s : State) (c p : Text) (vs : List Text)
    → lookup pair_eq (c, p) s.vers ≡ some vs
    → versions_getitem s (c, p) ≡ (some vs, s)
unfolding versions_getitem
versions_getitem-held s c p vs h = ap (after_versions s c p) h

pub packages_getitem-cached :
    (s : State) (c : Text) (ps : List Text)
    → lookup text_eq c s.pkgs ≡ some ps
    → packages_getitem s c ≡ (some ps, s)
unfolding packages_getitem
packages_getitem-cached s c ps h = ap (after_cache s c) h
