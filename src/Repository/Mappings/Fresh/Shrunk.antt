-- ===== src/Repository/Mappings/Fresh/Shrunk.antt =====
-- The state that a removal leaves: src/pkgcore/repository/util.py and prototype.py.
use pkgcore.Prelude.{
  true, false, not, ◌&&◌, ◌≡◌, refl, sym, ap, ◌∙◌, List, [], ◌∷◌, none, some, arith, is_empty,
  if◌then◌else◌, Bool-cases, inl, inr,
}
use mathlib.Core.Path.{subst}
use pkgcore.Prelude.Text.{Text, text_eq}
use pkgcore.Prelude.Text.Laws.{text_eq_sym, text_eq_sound, text_eq_refl}
use pkgcore.Restrictions.Solutions.Defined.{is_some}
use pkgcore.Repository.{contains, keep_if}
use pkgcore.Repository.Mappings.{
  Store, State, pair_eq, or_empty, stored, only_name, drop_package, without_version, notify_remove,
  put_versions, simple_remove, packages_getitem,
}
use pkgcore.Dicts.{
  lookup, put, pop, keys, single, lookup-put, lookup-pop, distinct, distinct-put, distinct-pop,
  keys-put_again, is_empty-pop,
}
use pkgcore.Repository.Mappings.Stored.{
  category_of, stored-category_of, versions_of, pair_eq_sound, kept, put_or_pop, store_remove_lem,
  category_of-remove, has_category-remove, stored-remove, some_unless_empty, nonempty-put,
}
use pkgcore.Repository.Mappings.View.{versions_getitem-held, packages_getitem-cached}
use pkgcore.Repository.Mappings.Fresh.{Fresh, Coherent, contains-keys, no_category}

pub contains-kept :
    (v : Text) (vs : List Text) (u : Text)
    → contains (kept v vs) u ≡ (contains vs u && not (text_eq u v))
unfolding keep_if
contains-kept v [] u = refl
contains-kept v (x ∷ vs) u = elim (Bool-cases (text_eq u x)) [
  | inl e ↦ ground (arith, e, contains-kept v vs u, ap (λ y. text_eq y v) (text_eq_sound u x e))
  | inr e ↦ ground (arith, e, contains-kept v vs u)
]

-- lists with the same members are empty alike
pub is_empty-same :
    (xs ys : List Text) → ((u : Text) → contains xs u ≡ contains ys u) → is_empty xs ≡ is_empty ys
is_empty-same [] [] h = refl
is_empty-same [] (y ∷ ys) h = ground (arith, h y, text_eq_refl y)
is_empty-same (x ∷ xs) [] h = ground (arith, h x, text_eq_refl x)
is_empty-same (x ∷ xs) (y ∷ ys) h = refl

pub only_name-single :
    (ps : List Text) (p : Text) → contains ps p ≡ true → only_name ps p ≡ single ps
only_name-single [] p h = refl
only_name-single (q ∷ []) p h = ground (arith, h, text_eq_sym p q)
only_name-single (q ∷ r ∷ ps) p h = refl

pub or_empty-unless : (vs : List Text) → or_empty (some_unless_empty vs) ≡ vs
or_empty-unless [] = refl
or_empty-unless (v ∷ vs) = refl

module _ (s : State) (fresh : Coherent s) (c p v : Text) (vs ps ws : List Text)
    (held_vs : lookup pair_eq (c, p) s.vers ≡ some vs) (held_ps : lookup text_eq c s.pkgs ≡ some ps)
    (is_stored : stored s.store c p ≡ some ws) where
  abbrev pub left : List Text
  left = kept v ws

  abbrev pub shrunk : Store
  shrunk = put_versions p left (category_of s.store c) s.store c

  pub same_versions : (u : Text) → contains (kept v vs) u ≡ contains left u
  same_versions u =
      contains-kept v vs u
      ∙ ap (λ b. b && not (text_eq u v))
          (fresh.vers_fresh c p vs held_vs u ∙ ap (λ o. contains (or_empty o) u) is_stored)
      ∙ sym (contains-kept v ws u)

  pub is_in_category : is_some (lookup text_eq p (category_of s.store c)) ≡ true
  is_in_category = ap is_some (sym (stored-category_of s.store c p) ∙ is_stored)

  pub category_stored : is_some (lookup text_eq c s.store) ≡ true
  category_stored = elim (Bool-cases (is_some (lookup text_eq c s.store))) [
    | inl e ↦ e
    | inr e ↦ ground (arith, no_category s.store c p e, ap is_some is_stored)
  ]

  pub other_category :
      (d : Text) → text_eq d c ≡ false → category_of shrunk d ≡ category_of s.store d
  other_category d e =
      category_of-remove s.store c p d left
      ∙ ap (λ b. if b then put_or_pop p left (category_of s.store c) else category_of s.store d) e

  pub other_versions :
      (d q u : Text)
      → pair_eq (d, q) (c, p) ≡ false
      → contains (versions_of s.store d q) u ≡ contains (versions_of shrunk d q) u
  other_versions d q u e =
      ap (λ o. contains (or_empty o) u)
        (sym (
          stored-remove s.store c p d q left
          ∙ ap (λ b. if b then some_unless_empty left else stored s.store d q) e))

  pub removed_names : (d : Text) → distinct text_eq (category_of shrunk d) ≡ true
  removed_names d =
      ap (distinct text_eq) (category_of-remove s.store c p d left)
      ∙ elim (Bool-cases (text_eq d c)) [
        | inl e ↦ rw e (put_distinct left)
        | inr e ↦ rw e (fresh.names d)
      ]
    where
      put_distinct :
          (l : List Text) → distinct text_eq (put_or_pop p l (category_of s.store c)) ≡ true
      put_distinct [] = distinct-pop text_eq p (category_of s.store c) (fresh.names c)
      put_distinct (x ∷ l) =
          distinct-put text_eq text_eq_sound text_eq_sym p (x ∷ l) (category_of s.store c)
            (fresh.names c)

  -- what happens to the caches of a package with no version left
  abbrev pub gone : State
  gone = record s {
    store = shrunk;
    cats = if only_name ps p then none else s.cats;
    pkgs = pop text_eq c s.pkgs;
    vers = pop pair_eq (c, p) s.vers;
  }

  pub gone_cats :
      is_empty left ≡ true
      → (cs : List Text) → gone.cats ≡ some cs
      → (d : Text) → contains cs d ≡ is_some (lookup text_eq d shrunk)
  gone_cats m cs h d = elim (Bool-cases (only_name ps p)) [
    | inl e ↦ ground (arith, ap is_some (sym (ap (λ b. if b then none else s.cats) e) ∙ h))
    | inr e ↦
        fresh.cats_fresh cs (sym (ap (λ b. if b then none else s.cats) e) ∙ h) d
        ∙ sym (
            has_category-remove s.store c p d left ∙ elim (Bool-cases (text_eq d c)) [
              | inr k ↦ rw k refl
              | inl k ↦ rw k (
                  still_there left m e
                  ∙ sym (
                      ap (λ x. is_some (lookup text_eq x s.store)) (text_eq_sound d c k)
                      ∙ category_stored))
            ])
  ]
    where
      still_there :
          (l : List Text)
          → is_empty l ≡ true
          → only_name ps p ≡ false
          → not (is_empty (put_or_pop p l (category_of s.store c))) ≡ true
      still_there [] k e = ap not (
          is_empty-pop text_eq text_eq_sound p (category_of s.store c) is_in_category
            (fresh.names c)
          ∙ ap single (sym (fresh.pkgs_fresh c ps held_ps))
          ∙ sym (
              only_name-single ps p (
                ap (λ z. contains z p) (fresh.pkgs_fresh c ps held_ps)
                ∙ contains-keys s.store c p
                ∙ ap is_some is_stored))
          ∙ e)
      still_there (x ∷ l) k e = ground (arith, k)

  pub gone-Fresh : is_empty left ≡ true → Fresh shrunk gone
  gone-Fresh m = record {
    cats_fresh = gone_cats m;
    pkgs_fresh = λ d qs h. elim (Bool-cases (text_eq d c)) [
      | inl e ↦ ground (
        arith,
        ap is_some (
            sym h
            ∙ lookup-pop text_eq text_eq_sound d c s.pkgs
            ∙ ap (λ b. if b then none else lookup text_eq d s.pkgs) e),
      )
      | inr e ↦
          fresh.pkgs_fresh d qs (
            sym (
              lookup-pop text_eq text_eq_sound d c s.pkgs
              ∙ ap (λ b. if b then none else lookup text_eq d s.pkgs) e)
            ∙ h)
          ∙ ap keys (sym (other_category d e))
    ];
    vers_fresh = λ d q us h u. elim (Bool-cases (pair_eq (d, q) (c, p))) [
      | inl e ↦ ground (
        arith,
        ap is_some (
            sym h
            ∙ lookup-pop pair_eq pair_eq_sound (d, q) (c, p) s.vers
            ∙ ap (λ b. if b then none else lookup pair_eq (d, q) s.vers) e),
      )
      | inr e ↦
          fresh.vers_fresh d q us
            (sym (
                lookup-pop pair_eq pair_eq_sound (d, q) (c, p) s.vers
                ∙ ap (λ b. if b then none else lookup pair_eq (d, q) s.vers) e)
              ∙ h)
            u
          ∙ other_versions d q u e
    ];
    names = removed_names;
  }

  -- and of one with other versions
  abbrev pub fewer : State
  fewer = record s { store = shrunk; vers = put pair_eq (c, p) (kept v vs) s.vers }

  pub fewer_category :
      is_empty left ≡ false
      → (is_some (lookup text_eq c shrunk) ≡ true)
        × (keys (category_of shrunk c) ≡ keys (category_of s.store c))
  fewer_category m =
      let here = text_eq_refl c in
      (
        has_category-remove s.store c p c left
            ∙ ap
                (λ b.
                  if b
                  then not (is_empty (put_or_pop p left (category_of s.store c)))
                  else is_some (lookup text_eq c s.store))
                here
            ∙ ap not (put_full left m),
        ap keys (
              category_of-remove s.store c p c left
              ∙ ap
                  (λ b.
                    if b then put_or_pop p left (category_of s.store c) else category_of s.store c)
                  here)
            ∙ put_keys left m,
      )
    where
      put_keys :
          (l : List Text)
          → is_empty l ≡ false
          → keys (put_or_pop p l (category_of s.store c)) ≡ keys (category_of s.store c)
      put_keys [] k = ground (arith, k)
      put_keys (x ∷ l) k =
          keys-put_again text_eq text_eq_sound p (x ∷ l) (category_of s.store c) is_in_category

      put_full :
          (l : List Text)
          → is_empty l ≡ false
          → is_empty (put_or_pop p l (category_of s.store c)) ≡ false
      put_full [] k = ground (arith, k)
      put_full (x ∷ l) k = nonempty-put p (x ∷ l) (category_of s.store c)

  pub fewer-Fresh : is_empty left ≡ false → Fresh shrunk fewer
  fewer-Fresh m = record {
    cats_fresh = λ cs h d. fresh.cats_fresh cs h d ∙ elim (Bool-cases (text_eq d c)) [
      | inl e ↦
          ap (λ x. is_some (lookup text_eq x s.store)) (text_eq_sound d c e)
          ∙ category_stored
          ∙ sym ((fewer_category m).0)
          ∙ ap (λ x. is_some (lookup text_eq x shrunk)) (sym (text_eq_sound d c e))
      | inr e ↦ sym (
          has_category-remove s.store c p d left
          ∙ ap
              (λ b.
                if b
                then not (is_empty (put_or_pop p left (category_of s.store c)))
                else is_some (lookup text_eq d s.store))
              e)
    ];
    pkgs_fresh = λ d qs h. fresh.pkgs_fresh d qs h ∙ elim (Bool-cases (text_eq d c)) [
      | inl e ↦
          ap (λ x. keys (category_of s.store x)) (text_eq_sound d c e)
          ∙ sym ((fewer_category m).1)
          ∙ ap (λ x. keys (category_of shrunk x)) (sym (text_eq_sound d c e))
      | inr e ↦ ap keys (sym (other_category d e))
    ];
    vers_fresh = λ d q us h u. elim (Bool-cases (pair_eq (d, q) (c, p))) [
      | inl e ↦
          ap (λ o. contains (or_empty o) u)
            (sym h
              ∙ lookup-put pair_eq pair_eq_sound (d, q) (c, p) (kept v vs) s.vers
              ∙ ap (λ b. if b then some (kept v vs) else lookup pair_eq (d, q) s.vers) e)
          ∙ same_versions u
          ∙ ap (λ z. contains z u) (sym (or_empty-unless left))
          ∙ ap (λ o. contains (or_empty o) u)
              (sym (
                stored-remove s.store c p d q left
                ∙ ap (λ b. if b then some_unless_empty left else stored s.store d q) e))
      | inr e ↦
          fresh.vers_fresh d q us
            (sym (
                lookup-put pair_eq pair_eq_sound (d, q) (c, p) (kept v vs) s.vers
                ∙ ap (λ b. if b then some (kept v vs) else lookup pair_eq (d, q) s.vers) e)
              ∙ h)
            u
          ∙ other_versions d q u e
    ];
    names = removed_names;
  }

  abbrev pub removed : State
  removed = if is_empty left then gone else fewer

  pub simple_remove-removed : simple_remove s (c, p) v ≡ some removed
  unfolding simple_remove notify_remove
  simple_remove-removed =
      ap
        (λ o. elim o [
          | none ↦ none
          | some store ↦ notify_remove (record s { store = store }) (c, p) v
        ])
        (store_remove_lem s.store c p v ws is_stored)
      ∙ ap (without_version c p v)
          (versions_getitem-held (record s { store = shrunk }) c p vs held_vs)
      ∙ ap
          (λ b.
            if b
            then drop_package c p (packages_getitem (record s { store = shrunk }) c)
            else some fewer)
          (is_empty-same (kept v vs) left same_versions)
      ∙ ap (λ r. if is_empty left then drop_package c p r else some fewer)
          (packages_getitem-cached (record s { store = shrunk }) c ps held_ps)
      ∙ elim (Bool-cases (is_empty left)) [ inl e ↦ rw e refl | inr e ↦ rw e refl ]

  pub removed-Coherent : Fresh shrunk removed
  removed-Coherent = elim (Bool-cases (is_empty left)) [
    | inl e ↦ subst (λ b. Fresh shrunk (if b then gone else fewer)) (sym e) (gone-Fresh e)
    | inr e ↦ subst (λ b. Fresh shrunk (if b then gone else fewer)) (sym e) (fewer-Fresh e)
  ]

  pub removed-store : removed.store ≡ shrunk
  removed-store = elim (Bool-cases (is_empty left)) [ inl e ↦ rw e refl | inr e ↦ rw e refl ]
