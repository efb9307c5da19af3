-- ===== src/Repository/Mappings/Fresh.antt =====
-- The caches of SimpleTree agree with its store: src/pkgcore/repository/prototype.py and util.py.
pub mod Added
pub mod Shrunk
pub mod Removed
use pkgcore.Prelude.{
  Bool, true, false, not, ◌&&◌, ◌||◌, ◌≡◌, refl, sym, ap, ◌∙◌, List, [], ◌∷◌, ◌++◌, Option, none,
  some, arith, any, any-append, is_empty, if◌then◌else◌, Bool-cases, Option-cases, inl, inr,
}
use pkgcore.Prelude.Text.{Text, text_eq}
use pkgcore.Prelude.Text.Laws.{text_eq_sound, text_eq_refl}
use pkgcore.Restrictions.Solutions.Defined.{is_some}
use pkgcore.Repository.{Pair, contains}
use pkgcore.Repository.Mappings.{
  Store, State, pair_eq, or_empty, stored, dict_of, versions_getitem, versions_read,
}
use pkgcore.Dicts.{Dict, lookup, put, pop, keys, lookup-put, lookup-pop, distinct, is_some-lookup}
use pkgcore.Repository.Mappings.Stored.{category_of, stored-category_of, versions_of, pair_eq_sound}
use pkgcore.Repository.Mappings.View.{
  known, warm, PackagesView, cached, pulled, missing, VersionsView, held, taken, absent,
  versions-View,
}

-- What is cached is what is stored: the categories and the versions as sets, the packages of a
-- category as they are; and no package of a category is stored twice.
pub record Fresh (store : Store) (s : State) : Type 0 where
  pub cats_fresh :
      (cs : List Text)
      → s.cats ≡ some cs
      → (c : Text) → contains cs c ≡ is_some (lookup text_eq c store)
  pub pkgs_fresh :
      (c : Text) (ps : List Text)
      → lookup text_eq c s.pkgs ≡ some ps
      → ps ≡ keys (category_of store c)
  pub vers_fresh :
      (c p : Text) (vs : List Text)
      → lookup pair_eq (c, p) s.vers ≡ some vs
      → (v : Text) → contains vs v ≡ contains (versions_of store c p) v
  pub names : (c : Text) → distinct text_eq (category_of store c) ≡ true

-- A state whose caches agree with its own store.
abbrev pub Coherent : State → Type 0
Coherent s = Fresh s.store s

-- the packages cached or pulled tell whether the key is stored
pub contains-keys :
    (store : Store) (c p : Text)
    → contains (keys (category_of store c)) p ≡ is_some (stored store c p)
contains-keys store c p =
    is_some-lookup text_eq p (category_of store c) ∙ ap is_some (sym (stored-category_of store c p))

pub no_category :
    (store : Store) (c p : Text)
    → is_some (lookup text_eq c store) ≡ false
    → is_some (stored store c p) ≡ false
unfolding lookup
no_category store c p h = elim (Option-cases (lookup text_eq c store)) [
  | inl e ↦
      ap is_some (stored-category_of store c p) ∙ ap (λ o. is_some (lookup text_eq p (dict_of o))) e
  | inr (d, e) ↦ ground (arith, ap is_some (sym e) ∙ h)
]

pub not_some : {A : Type 0} (o : Option A) → is_some o ≡ false → o ≡ none
not_some none h = refl
not_some (some a) h = ground (arith, h)

module _ (s : State) (c : Text) where
  pub store_kept : (r : Option (List Text) × State) → PackagesView s c r → (r.1).store ≡ s.store
  store_kept r (cached ps h) = refl
  store_kept r (pulled d h k) = refl
  store_kept r (missing h k) = refl

  pub vers_kept : (r : Option (List Text) × State) → PackagesView s c r → (r.1).vers ≡ s.vers
  vers_kept r (cached ps h) = refl
  vers_kept r (pulled d h k) = refl
  vers_kept r (missing h k) = refl

  pub pkgs_kept :
      (r : Option (List Text) × State)
      → PackagesView s c r
      → (d : Text) → text_eq d c ≡ false
      → lookup text_eq d (r.1).pkgs ≡ lookup text_eq d s.pkgs
  pkgs_kept r (cached ps h) d k = refl
  pkgs_kept r (pulled x h m) d k =
      lookup-put text_eq text_eq_sound d c (keys x) s.pkgs
      ∙ ap (λ b. if b then some (keys x) else lookup text_eq d s.pkgs) k
  pkgs_kept r (missing h m) d k = refl

  -- In a coherent state a read of the packages finds those stored.
  pub packages_agree :
      Coherent s
      → (r : Option (List Text) × State) → PackagesView s c r
      → (p : Text) → contains (or_empty (r.0)) p ≡ is_some (stored s.store c p)
  packages_agree f r (cached ps h) p =
      ap (λ z. contains z p) (f.pkgs_fresh c ps h) ∙ contains-keys s.store c p
  packages_agree f r (pulled d h k) p =
      ap (λ o. contains (keys (dict_of o)) p) (sym k) ∙ contains-keys s.store c p
  packages_agree f r (missing h (inr k)) p = sym (no_category s.store c p (ap is_some k))
  packages_agree f r (missing h (inl k)) p = elim (Option-cases s.cats) [
    | inr (cs, e) ↦ sym (
        no_category s.store c p (
          sym (f.cats_fresh cs e c)
          ∙ ap (λ o. contains (elim o [ some x ↦ x | none ↦ keys s.store ]) c) (sym e)
          ∙ k))
    | inl e ↦ sym (
        no_category s.store c p (
          sym (is_some-lookup text_eq c s.store)
          ∙ ap (λ o. contains (elim o [ some x ↦ x | none ↦ keys s.store ]) c) (sym e)
          ∙ k))
  ]

module _ (s : State) (c p : Text) where
  pub store_same : (r : Option (List Text) × State) → VersionsView s c p r → (r.1).store ≡ s.store
  store_same r (held vs h) = refl
  store_same r (taken ps s1 vs h v k) = store_kept s c (ps, s1) v
  store_same r (absent ps s1 h v k) = store_kept s c (ps, s1) v

  pub pkgs_same :
      (r : Option (List Text) × State)
      → VersionsView s c p r
      → (d : Text) → text_eq d c ≡ false
      → lookup text_eq d (r.1).pkgs ≡ lookup text_eq d s.pkgs
  pkgs_same r (held vs h) d n = refl
  pkgs_same r (taken ps s1 vs h v k) d n = pkgs_kept s c (ps, s1) v d n
  pkgs_same r (absent ps s1 h v k) d n = pkgs_kept s c (ps, s1) v d n

  pub vers_same :
      (r : Option (List Text) × State)
      → VersionsView s c p r
      → (k : Pair) → pair_eq k (c, p) ≡ false
      → lookup pair_eq k (r.1).vers ≡ lookup pair_eq k s.vers
  vers_same r (held vs h) k n = refl
  vers_same r (taken ps s1 vs h v m) k n =
      lookup-put pair_eq pair_eq_sound k (c, p) vs s1.vers
      ∙ ap (λ b. if b then some vs else lookup pair_eq k s1.vers) n
      ∙ ap (lookup pair_eq k) (vers_kept s c (ps, s1) v)
  vers_same r (absent ps s1 h v m) k n = ap (lookup pair_eq k) (vers_kept s c (ps, s1) v)

  versions_agree :
      Coherent s
      → (r : Option (List Text) × State) → VersionsView s c p r
      → (u : Text) → contains (or_empty (r.0)) u ≡ contains (versions_of s.store c p) u
  versions_agree f r (held vs h) u = f.vers_fresh c p vs h u
  versions_agree f r (taken ps s1 vs h v k) u =
      ap (λ o. contains (or_empty o) u) (sym k)
      ∙ ap (λ x. contains (versions_of x c p) u) (store_kept s c (ps, s1) v)
  versions_agree f r (absent ps s1 h v (inr k)) u =
      ap (λ o. contains (or_empty o) u) (sym k)
      ∙ ap (λ x. contains (versions_of x c p) u) (store_kept s c (ps, s1) v)
  versions_agree f r (absent ps s1 h v (inl k)) u =
      ap (λ o. contains (or_empty o) u)
        (sym (not_some (stored s.store c p) (sym (packages_agree s c f (ps, s1) v p) ∙ k)))

-- Where the caches agree with the store, a read of the versions of a key finds those stored.
pub versions_read_lem :
    (s : State)
    → Coherent s
    → (c p u : Text) → contains (versions_read s (c, p)).0 u ≡ contains (versions_of s.store c p) u
unfolding versions_read
versions_read_lem s f c p u =
    versions_agree s c p f (versions_getitem s (c, p)) (versions-View s c p) u
