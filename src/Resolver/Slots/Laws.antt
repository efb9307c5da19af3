-- ===== src/Resolver/Slots/Laws.antt =====
-- Filling and limiting slots, and undoing it.
use mathlib.Core.Path.{fun_ext}
use pkgcore.Prelude.{
  is_empty, ℕ, Bool, true, false, not, ◌≡◌, refl, ap, sym, ◌∙◌, List, [], ◌∷◌, ◌++◌, map, some,
  length, length-append, ◌==◌, ==_iff, ==_refl, if◌then◌else◌, arith, Bool-cases, inl, inr, ◌⊎◌,
  all,
}
use pkgcore.Resolver.Slots.{
  Objects, keep, store, Slots, Conflict, limited_by, slotted, check_limiters, in_slot,
  fill_slotting, add_limiter, remove_slotting, remove_limiter,
}

module _ {ℓ} {A : Type ℓ} where
  -- Storing what stood at a key before restores the dict.
  pub store_back : (d : ℕ → A) (k : ℕ) (v : A) → store (store d k v) k (d k) ≡ d
  store_back d k v =
      fun_ext λ j. elim (Bool-cases (k == j)) [ inl e ↦ rw (e, (==_iff k j).0 e) | inr n ↦ rw n ]

  pub store_self : (d : ℕ → A) (k : ℕ) (v : A) → store d k v k ≡ v
  store_self d k v = rw (==_refl k)

  pub keep-all : (p : A → Bool) (xs : List A) → all p xs ≡ true → keep p xs ≡ xs
  keep-all p [] h = refl
  keep-all p (x ∷ xs) h = ground (arith, keep-all p xs)

  pub keep-append : (p : A → Bool) (xs ys : List A) → keep p (xs ++ ys) ≡ keep p xs ++ keep p ys
  keep-append p [] ys = refl
  keep-append p (x ∷ xs) ys = ground (arith, keep-append p xs ys)

  -- A filter that drops the last item leaves the list before it.
  pub keep-snoc :
      (p : A → Bool) (xs : List A) (y : A)
      → all p xs ≡ true
      → p y ≡ false
      → keep p (xs ++ y ∷ []) ≡ xs
  keep-snoc p [] y h n = rw n
  keep-snoc p (x ∷ xs) y h n = ground (arith, keep-snoc p xs y)

  pub is_empty-nil : (xs : List A) → is_empty xs ≡ true → xs ≡ []
  is_empty-nil [] h = refl
  is_empty-nil (x ∷ xs) h = cc

  length-snoc : (xs : List A) (y : A) → (length xs == length (xs ++ y ∷ [])) ≡ false
  length-snoc xs y = ground (arith, length-append xs (y ∷ []))

both_nil :
    {A B C : Type 0} (f : A → C) (g : B → C) (xs : List A) (ys : List B)
    → map f xs ++ map g ys ≡ []
    → (xs ≡ []) × (ys ≡ [])
both_nil f g [] [] h = (refl, refl)
both_nil f g [] (y ∷ ys) h = cc
both_nil f g (x ∷ xs) ys h = cc

module _ (objects : Objects) where
  open objects use {
    Pkg, Restriction, key, slot, is_same, is_same_iff, is_same_restriction, is_same_restriction_iff,
    match,
  }

  abbrev pub filled : Slots objects → Pkg → Slots objects
  filled s obj = record s {
    slot_dict = store s.slot_dict (key obj) (s.slot_dict (key obj) ++ obj ∷ []);
  }

  conflicts : Slots objects → Pkg → List (Conflict objects)
  conflicts s obj =
      map limited_by (check_limiters objects s obj) ++ map slotted (in_slot objects s obj)

  abbrev outcome :
      Slots objects → Pkg → Bool → List (Conflict objects) → Slots objects × List (Conflict objects)
  outcome s obj force l =
      if is_empty l then (filled s obj, l) else if force then (filled s obj, l) else (s, l)

  -- `fill_slotting` reports the conflicts, forced or not, and fills only where it may.
  fill_slotting_cases :
      (s : Slots objects) (obj : Pkg) (force : Bool)
      → fill_slotting objects s obj force ≡ outcome s obj force (conflicts s obj)
  unfolding fill_slotting conflicts
  fill_slotting_cases s obj force = refl

  fill_slotting_reports :
      (s : Slots objects) (obj : Pkg) (force : Bool)
      → (fill_slotting objects s obj force).1 ≡ conflicts s obj
  fill_slotting_reports s obj force = rw fill_slotting_cases (ground arith)

  -- An unforced filling that reports nothing found the slot free and no limiter that matches, and
  -- has put the package at the end of the list of its key.
  pub fill_slotting_free :
      (s : Slots objects) (obj : Pkg)
      → (fill_slotting objects s obj false).1 ≡ []
      → (in_slot objects s obj ≡ [])
        × (check_limiters objects s obj ≡ [])
        × ((fill_slotting objects s obj false).0 ≡ filled s obj)
  unfolding conflicts
  fill_slotting_free s obj h =
      let none_left = sym (fill_slotting_reports s obj false) ∙ h in
      let parts =
        both_nil limited_by slotted (check_limiters objects s obj) (in_slot objects s obj)
          none_left in
      (
        parts.1,
        parts.0,
        ap (λ r. r.0) (fill_slotting_cases s obj false)
            ∙ ap (λ l. (outcome s obj false l).0) none_left,
      )

  -- An unforced filling reports nothing, or it changes nothing.
  pub fill_slotting_kept :
      (s : Slots objects) (obj : Pkg)
      → ((fill_slotting objects s obj false).1 ≡ []) ⊎ ((fill_slotting objects s obj false).0 ≡ s)
  fill_slotting_kept s obj = elim (Bool-cases (is_empty (conflicts s obj))) [
    | inl e ↦ inl (fill_slotting_reports s obj false ∙ is_empty-nil (conflicts s obj) e)
    | inr n ↦ inr (rw fill_slotting_cases (rw n))
  ]

  pub same_slot : (x obj : Pkg) → is_same x obj ≡ true → (slot x == slot obj) ≡ true
  same_slot x obj h = (==_iff _ _).1 (ap slot ((is_same_iff x obj).0 h))

  not_in_slot-not_same :
      (obj : Pkg) (xs : List Pkg)
      → keep (λ x. slot x == slot obj) xs ≡ []
      → all (λ x. not (is_same x obj)) xs ≡ true
  not_in_slot-not_same obj [] h = refl
  not_in_slot-not_same obj (x ∷ xs) h = ground (arith, same_slot x obj, not_in_slot-not_same obj xs)

  remove_last :
      (s : Slots objects) (obj : Pkg) (xs : List Pkg)
      → s.slot_dict (key obj) ≡ xs ++ obj ∷ []
      → all (λ x. not (is_same x obj)) xs ≡ true
      → remove_slotting objects s obj
        ≡ some (record s { slot_dict = store s.slot_dict (key obj) xs })
  unfolding remove_slotting
  remove_last s obj xs e h = rw (
    e,
    keep-snoc (λ x. not (is_same x obj)) xs obj h (ap not ((is_same_iff obj obj).1 refl)),
    length-snoc xs obj,
  )

  -- Removing what an unforced filling put in without a conflict restores the slots.
  pub remove_slotting-fill_slotting :
      (s : Slots objects) (obj : Pkg)
      → (fill_slotting objects s obj false).1 ≡ []
      → remove_slotting objects (fill_slotting objects s obj false).0 obj ≡ some s
  unfolding in_slot
  remove_slotting-fill_slotting s obj h =
      let (free, _, done) = fill_slotting_free s obj h in
      rw done (
        remove_last (filled s obj) obj (s.slot_dict (key obj)) (store_self s.slot_dict (key obj) _)
          (not_in_slot-not_same obj (s.slot_dict (key obj)) free)
        ∙ ap (λ d. some (record s { slot_dict = d })) (store_back s.slot_dict (key obj) _))

  -- Adding a limiter that was not among those of the key, and removing it, restores the slots.
  pub remove_limiter-add_limiter :
      (s : Slots objects) (atom : Restriction) (k : ℕ)
      → all (λ x. not (is_same_restriction x atom)) (s.limiters k) ≡ true
      → remove_limiter objects (add_limiter objects s atom k).0 atom k ≡ some s
  unfolding add_limiter remove_limiter
  remove_limiter-add_limiter s atom k h =
      rw
        (
          store_self s.limiters k (s.limiters k ++ atom ∷ []),
          keep-snoc (λ x. not (is_same_restriction x atom)) (s.limiters k) atom h
              (ap not ((is_same_restriction_iff atom atom).1 refl)),
          length-snoc (s.limiters k) atom,
        )
        (ap (λ d. some (record s { limiters = d })) (store_back s.limiters k _))
