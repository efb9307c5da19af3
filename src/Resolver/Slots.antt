-- ===== src/Resolver/Slots.antt =====
-- `PigeonHoledSlots` of src/pkgcore/resolver/pigeonholes.py. A key that is missing from a dict has
-- the empty list: the code stores no empty list, and raises KeyError for both.
pub mod Laws
pub mod Placed
use mathlib.Core.List.{filter}
use pkgcore.Prelude.{
  ℕ, Bool, true, false, not, ◌≡◌, ◌↔◌, List, [], ◌∷◌, ◌++◌, map, Option, none, some, length,
  is_empty, ◌==◌, if◌then◌else◌,
}

-- The packages and restrictions that are slotted. `is_same` is identity of objects.
pub record Objects : Type 1 where
  pub Pkg : Type 0
  pub Restriction : Type 0
  pub key : Pkg → ℕ
  pub slot : Pkg → ℕ
  pub is_same : Pkg → Pkg → Bool
  pub is_same_iff : (p q : Pkg) → (is_same p q ≡ true) ↔ (p ≡ q)
  pub is_same_restriction : Restriction → Restriction → Bool
  pub is_same_restriction_iff : (r s : Restriction) → (is_same_restriction r s ≡ true) ↔ (r ≡ s)
  pub match : Restriction → Pkg → Bool

-- `[x for x in xs if p(x)]`
abbrev pub keep {ℓ} : {A : Type ℓ} → (A → Bool) → List A → List A
keep p [] = []
keep p (x ∷ xs) = if p x then x ∷ keep p xs else keep p xs

-- `d[k] = v`
abbrev pub store {ℓ} : {A : Type ℓ} → (ℕ → A) → ℕ → A → ℕ → A
store d k v j = if k == j then v else d j

module _ (objects : Objects) where
  open objects use {Pkg, Restriction, key, slot, is_same, is_same_restriction, match}

  pub record Slots : Type 0 where
    pub slot_dict : ℕ → List Pkg
    pub limiters : ℕ → List Restriction

  pub data Conflict : Type 0 where
    limited_by : Restriction → Conflict
    slotted : Pkg → Conflict

  pub no_slots : Slots
  no_slots = record { slot_dict = λ k. []; limiters = λ k. [] }

  -- `check_limiters(obj)`
  unfoldable pub check_limiters : Slots → Pkg → List Restriction
  check_limiters s obj = keep (λ r. match r obj) (s.limiters (key obj))

  unfoldable pub in_slot : Slots → Pkg → List Pkg
  in_slot s obj = keep (λ x. slot x == slot obj) (s.slot_dict (key obj))

  -- `fill_slotting(obj, force)`: the new state, and the conflicts.
  unfoldable pub fill_slotting : Slots → Pkg → Bool → Slots × List Conflict
  unfolding check_limiters in_slot
  fill_slotting s obj force =
      let l = map limited_by (check_limiters s obj) ++ map slotted (in_slot s obj) in
      let filled = record s {
        slot_dict = store s.slot_dict (key obj) (s.slot_dict (key obj) ++ obj ∷ []);
      } in
      if is_empty l then (filled, l) else if force then (filled, l) else (s, l)

  unfoldable pub find_slot : ℕ → List Pkg → Option Pkg
  find_slot k [] = none
  find_slot k (x ∷ xs) = if k == slot x then some x else find_slot k xs

  -- `get_conflicting_slot(pkg)`
  unfoldable pub get_conflicting_slot : Slots → Pkg → Option Pkg
  unfolding find_slot
  get_conflicting_slot s pkg = find_slot (slot pkg) (s.slot_dict (key pkg))

  -- `find_atom_matches(atom, key)`
  unfoldable pub find_atom_matches : Slots → Restriction → ℕ → List Pkg
  find_atom_matches s atom k = keep (match atom) (s.slot_dict k)

  -- `add_limiter(atom, key)`: the new state, and the packages that it blocks.
  unfoldable pub add_limiter : Slots → Restriction → ℕ → Slots × List Pkg
  unfolding find_atom_matches
  add_limiter s atom k =
      let limited = record s { limiters = store s.limiters k (s.limiters k ++ atom ∷ []) } in
      (limited, find_atom_matches limited atom k)

  -- `remove_slotting(obj)`; `none` is KeyError.
  unfoldable pub remove_slotting : Slots → Pkg → Option Slots
  remove_slotting s obj =
      let slots = s.slot_dict (key obj) in
      let l = keep (λ x. not (is_same x obj)) slots in
      if length l == length slots
      then none
      else some (record s { slot_dict = store s.slot_dict (key obj) l })

  -- `remove_limiter(atom, key)`; `none` is KeyError.
  unfoldable pub remove_limiter : Slots → Restriction → ℕ → Option Slots
  remove_limiter s atom k =
      let l = keep (λ x. not (is_same_restriction x atom)) (s.limiters k) in
      if length l == length (s.limiters k)
      then none
      else some (record s { limiters = store s.limiters k l })
