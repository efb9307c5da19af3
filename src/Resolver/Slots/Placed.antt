-- ===== src/Resolver/Slots/Placed.antt =====
-- The packages of one key and their slots: src/pkgcore/resolver/pigeonholes.py.
use pkgcore.Prelude.{
  ℕ, Bool, true, false, not, ◌&&◌, ◌≡◌, refl, sym, ap, ◌∙◌, ==_iff, and_left, and_right, length,
  Bool-cases, List, [], ◌∷◌, ◌++◌, some, none, Option, if◌then◌else◌, ◌==◌, arith, inl, inr, all,
  all-append,
}
use pkgcore.Resolver.Slots.{Objects, keep, store, Slots, in_slot, fill_slotting, remove_slotting}
use pkgcore.Resolver.Slots.Laws.{fill_slotting_kept, fill_slotting_free, same_slot}

module _ (objects : Objects) where
  open objects use {Pkg, key, slot, is_same}

  abbrev free_of : ℕ → List Pkg → Bool
  free_of n = all (λ y. not (n == slot y))

  abbrev pub unique : List Pkg → Bool
  unique [] = true
  unique (x ∷ xs) = free_of (slot x) xs && unique xs

  pub record IsPlaced (s : Slots objects) : Type 0 where
    pub at_key : (k : ℕ) → unique (s.slot_dict k) ≡ true

  unique-snoc :
      (xs : List Pkg) (obj : Pkg)
      → unique xs ≡ true
      → keep (λ x. slot x == slot obj) xs ≡ []
      → unique (xs ++ obj ∷ []) ≡ true
  unique-snoc [] obj h e = refl
  unique-snoc (x ∷ xs) obj h e =
      ground (arith, all-append (λ y. not (slot x == slot y)) xs (obj ∷ []), unique-snoc xs obj)

  free_of-keep :
      (n : ℕ) (p : Pkg → Bool) (xs : List Pkg) → free_of n xs ≡ true → free_of n (keep p xs) ≡ true
  free_of-keep n p [] h = refl
  free_of-keep n p (x ∷ xs) h = ground (arith, free_of-keep n p xs)

  unique-keep : (p : Pkg → Bool) (xs : List Pkg) → unique xs ≡ true → unique (keep p xs) ≡ true
  unique-keep p [] h = refl
  unique-keep p (x ∷ xs) h = ground (arith, unique-keep p xs, free_of-keep (slot x) p xs)

  store-unique :
      (d : ℕ → List Pkg) (k : ℕ) (v : List Pkg)
      → ((j : ℕ) → unique (d j) ≡ true)
      → unique v ≡ true
      → (j : ℕ) → unique (store d k v j) ≡ true
  store-unique d k v h e j = ground (arith, h j)

  -- If no two packages of a key share a slot, none do after an unforced filling, whether it fills or
  -- reports.
  pub fill_slotting-IsPlaced :
      (s : Slots objects) (obj : Pkg) → IsPlaced s → IsPlaced (fill_slotting objects s obj false).0
  unfolding in_slot
  fill_slotting-IsPlaced s obj h = elim (fill_slotting_kept objects s obj) [
    | inl e ↦
        let (free, _, done) = fill_slotting_free objects s obj e in
        record {
          at_key = λ j. rw done (
              store-unique s.slot_dict (key obj) _ h.at_key
                (unique-snoc (s.slot_dict (key obj)) obj (h.at_key (key obj)) free) j);
        }
    | inr same ↦ rw same h
  ]

  -- packages in other slots are other packages
  others_stay :
      (obj : Pkg) (xs : List Pkg)
      → free_of (slot obj) xs ≡ true
      → (keep (λ x. not (is_same x obj)) xs ≡ xs) × (keep (λ x. not (slot x == slot obj)) xs ≡ xs)
  others_stay obj [] h = (refl, refl)
  others_stay obj (x ∷ xs) h =
      let (same, slots) = others_stay obj xs (and_right _ _ h) in
      let apart : (slot x == slot obj) ≡ false = ground (arith, h) in
      let other : is_same x obj ≡ false = ground (arith, same_slot objects x obj, apart) in
      (rw (other, same) refl, rw (apart, slots) refl)

  -- a package that is removed has no other in its slot
  removed_apart :
      (n : ℕ) (obj : Pkg) (xs : List Pkg)
      → free_of n xs ≡ true
      → (length (keep (λ x. not (is_same x obj)) xs) == length xs) ≡ false
      → (n == slot obj) ≡ false
  removed_apart n obj xs h k = elim (Bool-cases (n == slot obj)) [
    | inr e ↦ e
    | inl e ↦
        let free = ap (λ m. free_of m xs) (sym ((==_iff n (slot obj)).0 e)) ∙ h in
        ground (arith, k, ap length (others_stay obj xs free).0)
  ]

  keep_by_slot :
      (obj : Pkg) (xs : List Pkg)
      → unique xs ≡ true
      → (length (keep (λ x. not (is_same x obj)) xs) == length xs) ≡ false
      → keep (λ x. not (is_same x obj)) xs ≡ keep (λ x. not (slot x == slot obj)) xs
  keep_by_slot obj [] h k = refl
  keep_by_slot obj (x ∷ xs) h k = elim (Bool-cases (is_same x obj)) [
    | inl e ↦
        let in_it : (slot x == slot obj) ≡ true = same_slot objects x obj e in
        let free =
          ap (λ m. free_of m xs) (sym ((==_iff (slot x) (slot obj)).0 in_it)) ∙ and_left _ _ h in
        let (same, slots) = others_stay obj xs free in rw (e, in_it) (same ∙ sym slots)
    | inr e ↦
        let fewer : (length (keep (λ y. not (is_same y obj)) xs) == length xs) ≡ false =
          ground (arith, k, e) in
        let apart = removed_apart (slot x) obj xs (and_left _ _ h) fewer in
        rw (e, apart, keep_by_slot obj xs (and_right (free_of (slot x) xs) (unique xs) h) fewer)
          refl
  ]

  -- If no two packages of a key share a slot, a removal that does not raise leaves at the key of
  -- the package exactly the packages in other slots, in their order, and changes no other key; and
  -- no two packages of a key share a slot afterwards.
  pub remove_slotting-IsPlaced :
      (s : Slots objects) (obj : Pkg) {t : Slots objects}
      → IsPlaced s
      → remove_slotting objects s obj ≡ some t
      → IsPlaced t
        × (t ≡ record s {
          slot_dict =
              store s.slot_dict
                (key obj)
                (keep (λ x. not (slot x == slot obj)) (s.slot_dict (key obj)));
        })
  unfolding remove_slotting
  remove_slotting-IsPlaced s obj {t} h e =
      let here = s.slot_dict (key obj) in
      let left = keep (λ x. not (is_same x obj)) here in
      let emptied : List Pkg → Slots objects =
        λ l. record s { slot_dict = store s.slot_dict (key obj) l } in
      let outcome : Bool → Option (Slots objects) =
        λ b. (if b then none else some (emptied left)) in
      elim (Bool-cases (length left == length here)) [
        | inl k ↦ (let raises : none ≡ some t = sym (ap outcome k) ∙ e in cc)
        | inr k ↦
            let made : some (emptied left) ≡ some t = sym (ap outcome k) ∙ e in
            let same : t ≡ emptied left = cc in
            (
              record {
                at_key = λ j. rw same (
                    store-unique s.slot_dict (key obj) left h.at_key
                      (unique-keep (λ x. not (is_same x obj)) here (h.at_key (key obj))) j);
              },
              same ∙ ap emptied (keep_by_slot obj here (h.at_key (key obj)) k),
            )
      ]
