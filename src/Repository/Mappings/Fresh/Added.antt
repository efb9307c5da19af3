-- ===== src/Repository/Mappings/Fresh/Added.antt =====
-- `notify_add_package` of src/pkgcore/repository/util.py and prototype.py keeps the caches right,
-- although it reads them when the store has changed already.
use pkgcore.Prelude.{
  true, false, ◌&&◌, ◌||◌, ◌≡◌, sym, ap, ◌∙◌, List, [], ◌∷◌, ◌++◌, Option, none, some, arith,
  any-append, if◌then◌else◌, Bool-cases, Option-cases, inl, inr,
}
use mathlib.Core.Path.{subst}
use pkgcore.Prelude.Text.{Text, text_eq}
use pkgcore.Prelude.Text.Laws.{text_eq_sym, text_eq_sound, text_eq_refl}
use pkgcore.Restrictions.Solutions.Defined.{is_some}
use pkgcore.Repository.{Pair, contains}
use pkgcore.Repository.Mappings.{
  Store, State, pair_eq, or_empty, stored, dict_of, versions_getitem, versions_read, set_add,
  regen_versions, notify_add, store_add, simple_add,
}
use pkgcore.Dicts.{
  Dict, lookup, put, pop, keys, lookup-put, lookup-pop, distinct, is_some-lookup, distinct-put,
}
use pkgcore.Repository.Mappings.Stored.{
  category_of, versions_of, pair_eq_sound, category_of-add, has_category-add, stored-add,
}
use pkgcore.Repository.Mappings.View.{
  PackagesView, cached, pulled, missing, VersionsView, held, taken, absent, versions-View,
}
use pkgcore.Repository.Mappings.Fresh.{
  Fresh, Coherent, versions_read_lem, contains-keys, no_category, not_some, store_kept, store_same,
  pkgs_same, vers_same,
}

pub pair_eq_refl : (c p : Text) → pair_eq (c, p) (c, p) ≡ true
pair_eq_refl c p = ground (arith, text_eq_refl c, text_eq_refl p)

contains-set_add :
    (v : Text) (vs : List Text) (u : Text)
    → contains (set_add v vs) u ≡ (text_eq u v || contains vs u)
contains-set_add v vs u = elim (Bool-cases (contains vs v)) [
  | inr e ↦ ground (arith, e)
  | inl e ↦ elim (Bool-cases (text_eq u v)) [
    | inl k ↦ ground (arith, e, k, ap (contains vs) (text_eq_sound u v k))
    | inr k ↦ ground (arith, e, k)
  ]
]

lookup-regen_versions :
    (k j : Pair) (v : Text) (vs : List Text) (d : Dict Pair (List Text))
    → lookup pair_eq k (regen_versions j (set_add v vs) d)
      ≡ (if pair_eq k j then some (set_add v vs) else lookup pair_eq k d)
lookup-regen_versions k j v [] d = lookup-put pair_eq pair_eq_sound k j (v ∷ []) d
lookup-regen_versions k j v (x ∷ vs) d = elim (Bool-cases (contains (x ∷ vs) v)) [
  | inl e ↦ rw e (lookup-put pair_eq pair_eq_sound k j (x ∷ vs) d)
  | inr e ↦ rw e (lookup-put pair_eq pair_eq_sound k j (v ∷ x ∷ vs) d)
]

module _ (s : State) (fresh : Coherent s) (c p v : Text) where
  abbrev grown : Store
  grown = store_add s.store (c, p) v

  -- the store has changed, the caches have not
  abbrev mixed : State
  mixed = record s { store = grown }

  stored-grown : stored grown c p ≡ some (versions_of s.store c p ++ v ∷ [])
  stored-grown =
      stored-add s.store c p v c p
      ∙ ap (λ b. if b then some (versions_of s.store c p ++ v ∷ []) else stored s.store c p)
          (pair_eq_refl c p)

  there : is_some (lookup text_eq c grown) ≡ true
  there = has_category-add s.store c p v c ∙ ground (arith, text_eq_refl c)

  -- a package that this read does not find was not stored
  add_absent :
      (r : Option (List Text) × State)
      → PackagesView mixed c r
      → contains (or_empty (r.0)) p ≡ false
      → is_some (stored s.store c p) ≡ false
  add_absent r (cached ps h) m =
      sym (contains-keys s.store c p) ∙ ap (λ z. contains z p) (sym (fresh.pkgs_fresh c ps h)) ∙ m
  add_absent r (pulled d h k) m = ground (
    arith,
    m,
    ap (λ o. contains (keys (dict_of o)) p) (sym k)
        ∙ contains-keys grown c p
        ∙ ap is_some stored-grown,
  )
  add_absent r (missing h (inr k)) m = ground (arith, there, ap is_some k)
  add_absent r (missing h (inl k)) m = elim (Option-cases s.cats) [
    | inr (cs, e) ↦ no_category s.store c p (
        sym (fresh.cats_fresh cs e c)
        ∙ ap (λ o. contains (elim o [ some x ↦ x | none ↦ keys grown ]) c) (sym e)
        ∙ k)
    | inl e ↦ ground (
      arith,
      there,
      sym (is_some-lookup text_eq c grown)
          ∙ ap (λ o. contains (elim o [ some x ↦ x | none ↦ keys grown ]) c) (sym e)
          ∙ k,
    )
  ]

  -- with the version added, the read finds what is stored now
  added_read :
      (r : Option (List Text) × State)
      → VersionsView mixed c p r
      → (u : Text) → contains (set_add v (or_empty (r.0))) u ≡ contains (versions_of grown c p) u
  added_read r view u =
      contains-set_add v (or_empty (r.0)) u
      ∙ reading r view
      ∙ sym (
          ap (λ o. contains (or_empty o) u) stored-grown
          ∙ any-append (text_eq u) (versions_of s.store c p) (v ∷ [])
          ∙ ground arith)
    where
      reading :
          (q : Option (List Text) × State)
          → VersionsView mixed c p q
          → (text_eq u v || contains (or_empty (q.0)) u)
            ≡ (text_eq u v || contains (versions_of s.store c p) u)
      reading q (held vs h) = ap (λ b. text_eq u v || b) (fresh.vers_fresh c p vs h u)
      reading q (taken ps s1 vs h w k) = ground (
        arith,
        ap (λ o. contains (or_empty o) u)
            (sym k ∙ ap (λ x. stored x c p) (store_kept mixed c (ps, s1) w) ∙ stored-grown),
        any-append (text_eq u) (versions_of s.store c p) (v ∷ []),
      )
      reading q (absent ps s1 h w (inl k)) =
          ap (λ o. text_eq u v || contains (or_empty o) u)
            (sym (not_some (stored s.store c p) (add_absent (ps, s1) w k)))
      reading q (absent ps s1 h w (inr k)) = ground (
        arith,
        ap is_some
            (sym stored-grown ∙ ap (λ x. stored x c p) (sym (store_kept mixed c (ps, s1) w)) ∙ k),
      )

  module _ (r : Option (List Text) × State) (view : VersionsView mixed c p r) where
    abbrev after_add : State
    after_add = record r.1 {
      cats = none;
      pkgs = pop text_eq c (r.1).pkgs;
      vers = regen_versions (c, p) (set_add v (or_empty (r.0))) (r.1).vers;
    }

    added_pkgs :
        (d : Text) (ps : List Text)
        → lookup text_eq d after_add.pkgs ≡ some ps
        → ps ≡ keys (category_of grown d)
    added_pkgs d ps h = elim (Bool-cases (text_eq d c)) [
      | inl e ↦ ground (
        arith,
        ap is_some (
            sym h
            ∙ lookup-pop text_eq text_eq_sound d c (r.1).pkgs
            ∙ ap (λ b. if b then none else lookup text_eq d (r.1).pkgs) e),
      )
      | inr e ↦
          fresh.pkgs_fresh d ps (
            sym (pkgs_same mixed c p r view d e)
            ∙ sym (
                lookup-pop text_eq text_eq_sound d c (r.1).pkgs
                ∙ ap (λ b. if b then none else lookup text_eq d (r.1).pkgs) e)
            ∙ h)
          ∙ ap keys (
              sym (
                category_of-add s.store c p v d
                ∙ ap
                    (λ b.
                      if b
                      then put text_eq p (versions_of s.store c p ++ v ∷ []) (category_of s.store c)
                      else category_of s.store d)
                    e))
    ]

    added_vers :
        (d q : Text) (vs : List Text)
        → lookup pair_eq (d, q) after_add.vers ≡ some vs
        → (u : Text) → contains vs u ≡ contains (versions_of grown d q) u
    added_vers d q vs h u = elim (Bool-cases (pair_eq (d, q) (c, p))) [
      | inl e ↦
          ap (λ o. contains (or_empty o) u)
            (sym h
              ∙ lookup-regen_versions (d, q) (c, p) v (or_empty (r.0)) (r.1).vers
              ∙ ap
                  (λ b.
                    if b
                    then some (set_add v (or_empty (r.0)))
                    else lookup pair_eq (d, q) (r.1).vers)
                  e)
          ∙ added_read r view u
          ∙ ap (λ k. contains (versions_of grown (k.0) (k.1)) u)
              (sym (pair_eq_sound (d, q) (c, p) e))
      | inr e ↦
          fresh.vers_fresh d q vs
            (sym (vers_same mixed c p r view (d, q) e)
              ∙ sym (
                  lookup-regen_versions (d, q) (c, p) v (or_empty (r.0)) (r.1).vers
                  ∙ ap
                      (λ b.
                        if b
                        then some (set_add v (or_empty (r.0)))
                        else lookup pair_eq (d, q) (r.1).vers)
                      e)
              ∙ h)
            u
          ∙ ap (λ o. contains (or_empty o) u)
              (sym (
                stored-add s.store c p v d q
                ∙ ap
                    (λ b.
                      if b then some (versions_of s.store c p ++ v ∷ []) else stored s.store d q)
                    e))
    ]

    added_names : (d : Text) → distinct text_eq (category_of grown d) ≡ true
    added_names d =
        ap (distinct text_eq) (category_of-add s.store c p v d) ∙ elim (Bool-cases (text_eq d c)) [
          | inl e ↦ rw e (
              distinct-put text_eq text_eq_sound text_eq_sym p (versions_of s.store c p ++ v ∷ [])
                (category_of s.store c) (fresh.names c))
          | inr e ↦ rw e (fresh.names d)
        ]

    added : Fresh grown after_add
    added = record {
      cats_fresh = λ cs h. ground (arith, ap is_some h);
      pkgs_fresh = added_pkgs;
      vers_fresh = added_vers;
      names = added_names;
    }

pub simple_add-Coherent :
    (s : State) → Coherent s → (c p v : Text) → Coherent (simple_add s (c, p) v)
unfolding simple_add notify_add versions_read
simple_add-Coherent s fresh c p v =
    let m : State = record s { store = store_add s.store (c, p) v } in
    let r = versions_getitem m (c, p) in
    subst (λ x. Fresh x (after_add s fresh c p v r (versions-View m c p)))
      (sym (store_same m c p r (versions-View m c p))) (added s fresh c p v r (versions-View m c p))

simple_add-store :
    (s : State) (c p v : Text) → (simple_add s (c, p) v).store ≡ store_add s.store (c, p) v
unfolding simple_add notify_add versions_read
simple_add-store s c p v =
    let m : State = record s { store = store_add s.store (c, p) v } in
    store_same m c p (versions_getitem m (c, p)) (versions-View m c p)

-- Where the caches of a SimpleTree agree with its store, they do so after a package is added, and a
-- read of the versions of any key finds what it found before, and the added version at its key.
pub simple_add_lem :
    (s : State)
    → Coherent s
    → (c p v : Text)
    → Coherent (simple_add s (c, p) v)
      × ((d q u : Text)
          → contains (versions_read (simple_add s (c, p) v) (d, q)).0 u
            ≡ ((pair_eq (d, q) (c, p) && text_eq u v) || contains (versions_read s (d, q)).0 u))
simple_add_lem s fresh c p v = (simple_add-Coherent s fresh c p v, reads)
  where
    reads :
        (d q u : Text)
        → contains (versions_read (simple_add s (c, p) v) (d, q)).0 u
          ≡ ((pair_eq (d, q) (c, p) && text_eq u v) || contains (versions_read s (d, q)).0 u)
    reads d q u =
        versions_read_lem (simple_add s (c, p) v) (simple_add-Coherent s fresh c p v) d q u
        ∙ ap (λ x. contains (versions_of x d q) u) (simple_add-store s c p v)
        ∙ ap (λ o. contains (or_empty o) u) (stored-add s.store c p v d q)
        ∙ elim (Bool-cases (pair_eq (d, q) (c, p))) [
          | inr e ↦ rw e (sym (versions_read_lem s fresh d q u))
          | inl e ↦ rw e (
              any-append (text_eq u) (versions_of s.store c p) (v ∷ [])
              ∙ ap (λ b. b || (text_eq u v || false))
                  (ap (λ k. contains (versions_of s.store (k.0) (k.1)) u)
                      (sym (pair_eq_sound (d, q) (c, p) e))
                    ∙ sym (versions_read_lem s fresh d q u))
              ∙ ground arith)
        ]
