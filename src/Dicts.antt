-- ===== src/Dicts.antt =====
-- Python's dict as a list of keys with their values, for keys with an equality test: reading,
-- `d[k] = v`, and `d.pop(k, None)`.
use pkgcore.Prelude.{
  Bool, true, false, not, ◌&&◌, ◌||◌, ◌≡◌, refl, sym, ap, ◌∙◌, List, [], ◌∷◌, Option, none, some,
  any, is_empty, arith, if◌then◌else◌, Bool-cases, inl, inr,
}
use pkgcore.Restrictions.Solutions.Defined.{is_some}

abbrev pub Dict : Type 0 → Type 0 → Type 0
Dict K V = List (K × V)

module _ {K V : Type 0} where
  unfoldable pub keys : Dict K V → List K
  keys [] = []
  keys ((k, v) ∷ d) = k ∷ keys d

module _ {K V : Type 0} (eq : K → K → Bool) where
  unfoldable pub lookup : K → Dict K V → Option V
  lookup j [] = none
  lookup j ((k, v) ∷ d) = let rest = lookup j d in if eq j k then some v else rest

  unfoldable pub put : K → V → Dict K V → Dict K V
  put j w [] = (j, w) ∷ []
  put j w ((k, v) ∷ d) = let rest = put j w d in if eq j k then (k, w) ∷ d else (k, v) ∷ rest

  unfoldable pub pop : K → Dict K V → Dict K V
  pop j [] = []
  pop j ((k, v) ∷ d) = let rest = pop j d in if eq j k then rest else (k, v) ∷ rest

  pub is_some-lookup : (j : K) (d : Dict K V) → any (eq j) (keys d) ≡ is_some (lookup j d)
  unfolding keys lookup
  is_some-lookup j [] = refl
  is_some-lookup j ((k, v) ∷ d) = ground (arith, is_some-lookup j d)

  module _ (sound : (j k : K) → eq j k ≡ true → j ≡ k) where
    pub lookup-put :
        (i j : K) (w : V) (d : Dict K V)
        → lookup i (put j w d) ≡ (if eq i j then some w else lookup i d)
    unfolding lookup put
    lookup-put i j w [] = refl
    lookup-put i j w ((k, v) ∷ d) = elim (Bool-cases (eq j k)) [
      | inl h ↦ rw h (ground (arith, ap (eq i) (sound j k h)))
      | inr h ↦ elim (Bool-cases (eq i j)) [
        | inl m ↦ ground (arith, h, m, ap (λ x. eq x k) (sound i j m), lookup-put i j w d)
        | inr m ↦ ground (arith, h, m, lookup-put i j w d)
      ]
    ]

    pub lookup-pop :
        (i j : K) (d : Dict K V) → lookup i (pop j d) ≡ (if eq i j then none else lookup i d)
    unfolding lookup pop
    lookup-pop i j [] = ground arith
    lookup-pop i j ((k, v) ∷ d) = elim (Bool-cases (eq j k)) [
      | inl h ↦ ground (arith, h, ap (eq i) (sound j k h), lookup-pop i j d)
      | inr h ↦ elim (Bool-cases (eq i j)) [
        | inl m ↦ ground (arith, h, m, ap (λ x. eq x k) (sound i j m), lookup-pop i j d)
        | inr m ↦ ground (arith, h, m, lookup-pop i j d)
      ]
    ]

abbrev pub single {ℓ} : {X : Type ℓ} → List X → Bool
single (x ∷ []) = true
single _ = false

module _ {K V : Type 0} (eq : K → K → Bool) where
  -- no key twice
  unfoldable pub distinct : Dict K V → Bool
  distinct [] = true
  distinct ((k, v) ∷ d) = not (any (eq k) (keys d)) && distinct d

  keys-pop_other :
      (i j : K) (d : Dict K V)
      → any (eq i) (keys d) ≡ false
      → any (eq i) (keys (pop eq j d)) ≡ false
  unfolding keys pop
  keys-pop_other i j [] h = refl
  keys-pop_other i j ((k, v) ∷ d) h = elim (Bool-cases (eq j k)) [
    | inl e ↦ ground (arith, e, h, keys-pop_other i j d)
    | inr e ↦ ground (arith, e, h, keys-pop_other i j d)
  ]

  pub distinct-pop : (j : K) (d : Dict K V) → distinct d ≡ true → distinct (pop eq j d) ≡ true
  unfolding distinct pop keys
  distinct-pop j [] h = refl
  distinct-pop j ((k, v) ∷ d) h = elim (Bool-cases (eq j k)) [
    | inl e ↦ ground (arith, e, h, distinct-pop j d)
    | inr e ↦ ground (arith, e, h, distinct-pop j d, keys-pop_other k j d)
  ]

  -- assigning to a key that is there keeps the keys
  pub keys-put_again :
      (sound : (j k : K) → eq j k ≡ true → j ≡ k) (j : K) (w : V) (d : Dict K V)
      → is_some (lookup eq j d) ≡ true
      → keys (put eq j w d) ≡ keys d
  unfolding keys put lookup
  keys-put_again sound j w [] h = ground (arith, h)
  keys-put_again sound j w ((k, v) ∷ d) h = elim (Bool-cases (eq j k)) [
    | inl e ↦ rw e refl
    | inr e ↦ rw e (
        ap (λ z. k ∷ z)
          (keys-put_again sound j w d
            (ap (λ b. is_some (if b then some v else lookup eq j d)) (sym e) ∙ h)))
  ]

  any-keys-put :
      (sound : (j k : K) → eq j k ≡ true → j ≡ k) (i j : K) (w : V) (d : Dict K V)
      → any (eq i) (keys (put eq j w d)) ≡ (eq i j || any (eq i) (keys d))
  any-keys-put sound i j w d =
      is_some-lookup eq i (put eq j w d)
      ∙ ap is_some (lookup-put eq sound i j w d)
      ∙ ground (arith, is_some-lookup eq i d)

  pub distinct-put :
      (sound : (j k : K) → eq j k ≡ true → j ≡ k) (symmetric : (j k : K) → eq j k ≡ eq k j) (j : K)
      (w : V) (d : Dict K V)
      → distinct d ≡ true
      → distinct (put eq j w d) ≡ true
  unfolding distinct put keys
  distinct-put sound symmetric j w [] h = refl
  distinct-put sound symmetric j w ((k, v) ∷ d) h = elim (Bool-cases (eq j k)) [
    | inl e ↦ rw e h
    | inr e ↦
        ground (
          arith,
          e,
          h,
          symmetric j k,
          any-keys-put sound k j w d,
          distinct-put sound symmetric j w d,
        )
  ]

  pop_absent : (j : K) (d : Dict K V) → any (eq j) (keys d) ≡ false → pop eq j d ≡ d
  unfolding pop keys
  pop_absent j [] h = refl
  pop_absent j ((k, v) ∷ d) h =
      rw (or_right (eq j k) (any (eq j) (keys d)) h)
        (ap (λ z. (k, v) ∷ z) (pop_absent j d (or_left (eq j k) (any (eq j) (keys d)) h)))
    where
      or_right : (a b : Bool) → (a || b) ≡ false → a ≡ false
      or_right a b m = ground (arith, m)

      or_left : (a b : Bool) → (a || b) ≡ false → b ≡ false
      or_left a b m = ground (arith, m)

  -- Without the key j, which it has, the dict is empty exactly when it has one key.
  pub is_empty-pop :
      (sound : (j k : K) → eq j k ≡ true → j ≡ k) (j : K) (d : Dict K V)
      → is_some (lookup eq j d) ≡ true
      → distinct d ≡ true
      → is_empty (pop eq j d) ≡ single (keys d)
  unfolding pop keys lookup distinct
  is_empty-pop sound j [] h m = ground (arith, h)
  is_empty-pop sound j ((i, v) ∷ []) h m = elim (Bool-cases (eq j i)) [
    | inl e ↦ ground (arith, e)
    | inr e ↦ ground (arith, e, h)
  ]
  is_empty-pop sound j ((i, v) ∷ (k, w) ∷ d) h m = elim (Bool-cases (eq j i)) [
    | inl e ↦ rw e (
        ap is_empty (
          pop_absent j ((k, w) ∷ d)
            (ap (λ x. any (eq x) (keys ((k, w) ∷ d))) (sound j i e) ∙ ground (arith, m))))
    | inr e ↦ ground (arith, e)
  ]
