-- ===== src/Repository/Mappings/Stored.antt =====
-- What adding a version to the store of SimpleTree, and removing one, does to what is stored:
-- src/pkgcore/repository/util.py.
use pkgcore.Prelude.{
  true, false, not, ◌||◌, ◌≡◌, refl, sym, ap, ◌∙◌, List, [], ◌∷◌, ◌++◌, Option, none, some, arith,
  is_empty, if◌then◌else◌, Bool-cases, Option-cases, inl, inr,
}
use pkgcore.Prelude.Text.{Text, text_eq}
use pkgcore.Prelude.Text.Laws.{text_eq_sound}
use pkgcore.Restrictions.Solutions.Defined.{is_some}
use pkgcore.Repository.{Pair, keep_if}
use pkgcore.Repository.Mappings.{
  Store, pair_eq, or_empty, stored, dict_of, store_add, put_category, put_versions, store_remove,
}
use pkgcore.Dicts.{Dict, lookup, put, pop, lookup-put, lookup-pop}

pub pair_eq_sound : (a b : Pair) → pair_eq a b ≡ true → a ≡ b
pair_eq_sound (c, p) (d, q) h =
    ap (λ x. (x, p)) (text_eq_sound c d (ground (arith, h)))
    ∙ ap (λ x. (d, x)) (text_eq_sound p q (ground (arith, h)))

-- the packages stored for a category
abbrev pub category_of : Store → Text → Dict Text (List Text)
category_of store c = dict_of (lookup text_eq c store)

pub stored-category_of :
    (store : Store) (c p : Text) → stored store c p ≡ lookup text_eq p (category_of store c)
unfolding lookup
stored-category_of store c p = through (lookup text_eq c store)
  where
    through :
        (o : Option (Dict Text (List Text)))
        → (elim o [ none ↦ none | some d ↦ lookup text_eq p d ]) ≡ lookup text_eq p (dict_of o)
    through none = refl
    through (some d) = refl

-- the versions stored for a key, none if it is not there
abbrev pub versions_of : Store → Text → Text → List Text
versions_of store c p = or_empty (stored store c p)

pub category_of-add :
    (store : Store) (c p v d : Text)
    → category_of (store_add store (c, p) v) d ≡ (
        if text_eq d c
        then put text_eq p (versions_of store c p ++ v ∷ []) (category_of store c)
        else category_of store d)
unfolding store_add
category_of-add store c p v d =
    ap dict_of (lookup-put text_eq text_eq_sound d c _ store)
    ∙ rw (stored-category_of store c p) (ground arith)

pub has_category-add :
    (store : Store) (c p v d : Text)
    → is_some (lookup text_eq d (store_add store (c, p) v))
      ≡ (text_eq d c || is_some (lookup text_eq d store))
unfolding store_add
has_category-add store c p v d =
    ap is_some (lookup-put text_eq text_eq_sound d c _ store) ∙ ground arith

pub stored-add :
    (store : Store) (c p v d q : Text)
    → stored (store_add store (c, p) v) d q
      ≡ (if pair_eq (d, q) (c, p) then some (versions_of store c p ++ v ∷ []) else stored store d q)
stored-add store c p v d q =
    stored-category_of (store_add store (c, p) v) d q
    ∙ ap (lookup text_eq q) (category_of-add store c p v d)
    ∙ elim (Bool-cases (text_eq d c)) [
      | inl e ↦ rw e (
          lookup-put text_eq text_eq_sound q p (versions_of store c p ++ v ∷ [])
            (category_of store c)
          ∙ ap (λ z. if text_eq q p then some (versions_of store c p ++ v ∷ []) else z)
              (sym (stored-category_of store c q)
                ∙ ap (λ x. stored store x q) (sym (text_eq_sound d c e))))
      | inr e ↦ rw e (sym (stored-category_of store d q))
    ]

-- What stays of a category's packages, and of the versions of one.
abbrev pub kept : Text → List Text → List Text
kept v vs = keep_if (λ x. not (text_eq x v)) vs

abbrev pub put_or_pop : Text → List Text → Dict Text (List Text) → Dict Text (List Text)
put_or_pop p [] d = pop text_eq p d
put_or_pop p (v ∷ vs) d = put text_eq p (v ∷ vs) d

category_of-put_category :
    (c d : Text) (x : Dict Text (List Text)) (store : Store)
    → category_of (put_category c x store) d ≡ (if text_eq d c then x else category_of store d)
category_of-put_category c d [] store =
    ap dict_of (lookup-pop text_eq text_eq_sound d c store) ∙ ground arith
category_of-put_category c d (y ∷ x) store =
    ap dict_of (lookup-put text_eq text_eq_sound d c (y ∷ x) store) ∙ ground arith

has_category-put_category :
    (c d : Text) (x : Dict Text (List Text)) (store : Store)
    → is_some (lookup text_eq d (put_category c x store))
      ≡ (if text_eq d c then not (is_empty x) else is_some (lookup text_eq d store))
has_category-put_category c d [] store =
    ap is_some (lookup-pop text_eq text_eq_sound d c store) ∙ ground arith
has_category-put_category c d (y ∷ x) store =
    ap is_some (lookup-put text_eq text_eq_sound d c (y ∷ x) store) ∙ ground arith

-- The store after a removal, of a key that is there.
pub store_remove_lem :
    (store : Store) (c p v : Text) (vs : List Text)
    → stored store c p ≡ some vs
    → store_remove store (c, p) v ≡ some (put_versions p (kept v vs) (category_of store c) store c)
unfolding store_remove
store_remove_lem store c p v vs h = elim (Option-cases (lookup text_eq c store)) [
  | inl e ↦
      ground (arith, ap (λ o. elim o [ none ↦ none | some d ↦ lookup text_eq p d ]) (sym e) ∙ h)
  | inr (d, e) ↦
      let there : lookup text_eq p d ≡ some vs =
        ap (λ o. elim o [ none ↦ none | some x ↦ lookup text_eq p x ]) (sym e) ∙ h in
      ap
        (λ o. elim o [
          | none ↦ none
          | some x ↦ elim (lookup text_eq p x) [
            | none ↦ none
            | some ws ↦ some (put_versions p (kept v ws) x store c)
          ]
        ])
        e
      ∙ ap (λ o. elim o [ none ↦ none | some ws ↦ some (put_versions p (kept v ws) d store c) ])
          there
      ∙ ap (λ x. some (put_versions p (kept v vs) x store c)) (sym (ap dict_of e))
]

pub nonempty-put :
    (p : Text) (vs : List Text) (d : Dict Text (List Text)) → is_empty (put text_eq p vs d) ≡ false
unfolding put
nonempty-put p vs [] = refl
nonempty-put p vs ((k, w) ∷ d) = ground arith

pub category_of-remove :
    (store : Store) (c p d : Text) (vs : List Text)
    → category_of (put_versions p vs (category_of store c) store c) d
      ≡ (if text_eq d c then put_or_pop p vs (category_of store c) else category_of store d)
category_of-remove store c p d [] =
    category_of-put_category c d (pop text_eq p (category_of store c)) store
category_of-remove store c p d (v ∷ vs) =
    ap dict_of
      (lookup-put text_eq text_eq_sound d c (put text_eq p (v ∷ vs) (category_of store c)) store)
    ∙ ground arith

pub has_category-remove :
    (store : Store) (c p d : Text) (vs : List Text)
    → is_some (lookup text_eq d (put_versions p vs (category_of store c) store c)) ≡ (
        if text_eq d c
        then not (is_empty (put_or_pop p vs (category_of store c)))
        else is_some (lookup text_eq d store))
has_category-remove store c p d [] =
    has_category-put_category c d (pop text_eq p (category_of store c)) store
has_category-remove store c p d (v ∷ vs) =
    ap is_some
      (lookup-put text_eq text_eq_sound d c (put text_eq p (v ∷ vs) (category_of store c)) store)
    ∙ ground (arith, nonempty-put p (v ∷ vs) (category_of store c))

abbrev pub some_unless_empty : List Text → Option (List Text)
some_unless_empty [] = none
some_unless_empty (v ∷ vs) = some (v ∷ vs)

lookup-put_or_pop :
    (p q : Text) (vs : List Text) (d : Dict Text (List Text))
    → lookup text_eq q (put_or_pop p vs d)
      ≡ (if text_eq q p then some_unless_empty vs else lookup text_eq q d)
lookup-put_or_pop p q [] d = lookup-pop text_eq text_eq_sound q p d
lookup-put_or_pop p q (v ∷ vs) d = lookup-put text_eq text_eq_sound q p (v ∷ vs) d

pub stored-remove :
    (store : Store) (c p d q : Text) (vs : List Text)
    → stored (put_versions p vs (category_of store c) store c) d q
      ≡ (if pair_eq (d, q) (c, p) then some_unless_empty vs else stored store d q)
stored-remove store c p d q vs =
    stored-category_of (put_versions p vs (category_of store c) store c) d q
    ∙ ap (lookup text_eq q) (category_of-remove store c p d vs)
    ∙ elim (Bool-cases (text_eq d c)) [
      | inl e ↦ rw e (
          lookup-put_or_pop p q vs (category_of store c)
          ∙ ap (λ z. if text_eq q p then some_unless_empty vs else z)
              (sym (stored-category_of store c q)
                ∙ ap (λ x. stored store x q) (sym (text_eq_sound d c e))))
      | inr e ↦ rw e (sym (stored-category_of store d q))
    ]
