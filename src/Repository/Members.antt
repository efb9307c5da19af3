-- ===== src/Repository/Members.antt =====
-- What the lists of src/pkgcore/repository/prototype.py's candidates hold, told by Boolean tests.
use mathlib.Core.List.{flat_map}
use pkgcore.Prelude.{
  Bool, true, false, not, ◌&&◌, ◌≡◌, refl, sym, ap, ◌∙◌, List, [], ◌∷◌, map, arith, any, all,
  any-append, Bool-cases, inl, inr, and_left, and_right,
}
use pkgcore.Prelude.Text.{Text, text_eq}
use pkgcore.Prelude.Text.Laws.{text_eq_sound, text_eq_refl}
use pkgcore.Ebuild.VersionMatch.{differs}
use pkgcore.Repository.{Pair, pairs, contains, keep_if}

pub both_ways : (a b : Bool) → (a ≡ true → b ≡ true) → (b ≡ true → a ≡ true) → a ≡ b
both_ways true b f g = sym (f refl)
both_ways false true f g = g refl
both_ways false false f g = refl

module _ {X : Type 0} where
  -- x is one of xs, as far as any test can tell
  abbrev pub Among : X → List X → Type 0
  Among x xs = (h : X → Bool) → h x ≡ true → any h xs ≡ true

  pub any_witness :
      (f : X → Bool) (xs : List X) → any f xs ≡ true → (x : X) × (f x ≡ true) × Among x xs
  any_witness f (x ∷ xs) h = elim (Bool-cases (f x)) [
    | inl e ↦ (x, e, λ g k. ground (arith, k))
    | inr e ↦
        let (y, k, m) = any_witness f xs (ground (arith, h, e)) in
        (y, k, λ g w. ground (arith, m g w))
  ]
  any_witness f [] h = ground (arith, h)

  -- what holds of all of them holds of each
  pub all-Among : (f : X → Bool) {x : X} (xs : List X) → all f xs ≡ true → Among x xs → f x ≡ true
  all-Among f {x} xs h m = elim (Bool-cases (f x)) [
    | inl e ↦ e
    | inr e ↦ ground (arith, none_fails xs h, m (λ y. not (f y)) (ap not e))
  ]
    where
      none_fails : (ys : List X) → all f ys ≡ true → any (λ y. not (f y)) ys ≡ false
      none_fails [] k = refl
      none_fails (y ∷ ys) k = ground (arith, none_fails ys (and_right (f y) (all f ys) k), k)

  pub any-ext : (f g : X → Bool) (xs : List X) → ((x : X) → f x ≡ g x) → any f xs ≡ any g xs
  any-ext f g [] h = refl
  any-ext f g (x ∷ xs) h = ground (arith, h x, any-ext f g xs h)

  pub any-flat_map :
      {Y : Type 0} (g : X → Bool) (f : Y → List X) (ys : List Y)
      → any g (flat_map f ys) ≡ any (λ y. any g (f y)) ys
  unfolding flat_map
  any-flat_map g f [] = refl
  any-flat_map g f (y ∷ ys) =
      any-append g (f y) (flat_map f ys) ∙ ground (arith, any-flat_map g f ys)

  pub any-map :
      {Y : Type 0} (g : X → Bool) (f : Y → X) (ys : List Y)
      → any g (map f ys) ≡ any (λ y. g (f y)) ys
  any-map g f [] = refl
  any-map g f (y ∷ ys) = ground (arith, any-map g f ys)

pub Among-map :
    {X Y : Type 0} (f : Y → X) {y : Y} (ys : List Y) → Among y ys → Among (f y) (map f ys)
Among-map f ys m h k = any-map h f ys ∙ m (λ y. h (f y)) k

-- The flag s tells apart some member and the first one: then some member lacks it. If no member is
-- told apart, all agree with the first.
module _ {X : Type 0} (s : X → Bool) (x : X) (xs : List X) where
  pub lacking :
      any (λ y. differs (s y) (s x)) xs ≡ true → (y : X) × (s y ≡ false) × Among y (x ∷ xs)
  lacking h = elim (Bool-cases (s x)) [
    | inr e ↦ (x, e, λ g k. ground (arith, k))
    | inl e ↦
        let (y, k, m) = any_witness (λ y. differs (s y) (s x)) xs h in
        (y, ground (arith, k, e), λ g w. ground (arith, m g w))
  ]

  pub agreed : any (λ y. differs (s y) (s x)) xs ≡ false → {y : X} → Among y (x ∷ xs) → s y ≡ s x
  agreed h {y} m = elim (Bool-cases (differs (s y) (s x))) [
    | inl e ↦ ground (arith, m (λ z. differs (s z) (s x)) e, h)
    | inr e ↦ ground (arith, e)
  ]

pub contains_holds :
    (f : Text → Bool) (x : Text) (xs : List Text)
    → contains xs x ≡ true
    → f x ≡ true
    → any f xs ≡ true
contains_holds f x (y ∷ ys) h k = elim (Bool-cases (text_eq x y)) [
  | inl e ↦ ground (arith, ap f (text_eq_sound x y e), k)
  | inr e ↦ ground (arith, contains_holds f x ys (ground (arith, h, e)) k)
]
contains_holds f x [] h k = ground (arith, h)

pub contains-keep_if :
    (f : Text → Bool) (x : Text) (xs : List Text)
    → contains xs x ≡ true
    → f x ≡ true
    → contains (keep_if f xs) x ≡ true
unfolding keep_if
contains-keep_if f x (y ∷ ys) h k = elim (Bool-cases (text_eq x y)) [
  | inl e ↦ rw (sym (ap f (text_eq_sound x y e)) ∙ k) (ground (arith, e))
  | inr e ↦ ground (arith, contains-keep_if f x ys (ground (arith, h, e)) k)
]
contains-keep_if f x [] h k = ground (arith, h)

-- The key is one of them.
abbrev pub listed : Text → Text → List Pair → Bool
listed c p ks = any (λ k. text_eq c k.0 && text_eq p k.1) ks

listed-map :
    (c p : Text) (ps : List Text) → contains ps p ≡ true → listed c p (map (λ q. (c, q)) ps) ≡ true
listed-map c p ps h =
    any-map (λ k. text_eq c k.0 && text_eq p k.1) (λ q. (c, q)) ps
    ∙ any-ext (λ q. text_eq c c && text_eq p q) (text_eq p) ps (λ q. ground (arith, text_eq_refl c))
    ∙ h

pub listed-pairs :
    (f : Text → List Text) (cats : List Text) (c p : Text)
    → contains cats c ≡ true
    → contains (f c) p ≡ true
    → listed c p (pairs f cats) ≡ true
listed-pairs f cats c p h k =
    any-flat_map (λ u. text_eq c u.0 && text_eq p u.1) (λ d. map (λ q. (d, q)) (f d)) cats
    ∙ contains_holds (λ d. listed c p (map (λ q. (d, q)) (f d))) c cats h (listed-map c p (f c) k)

listed_holds :
    (f : Pair → Bool) (c p : Text) (ks : List Pair)
    → listed c p ks ≡ true
    → f (c, p) ≡ true
    → any f ks ≡ true
listed_holds f c p ((d, q) ∷ ks) h k = elim (Bool-cases (text_eq c d && text_eq p q)) [
  | inl e ↦
      let same : f (c, p) ≡ f (d, q) =
        ap (λ x. f (x, p)) (text_eq_sound c d (and_left (text_eq c d) (text_eq p q) e))
        ∙ ap (λ x. f (d, x)) (text_eq_sound p q (and_right (text_eq c d) (text_eq p q) e)) in
      ground (arith, same, k)
  | inr e ↦ ground (arith, listed_holds f c p ks (ground (arith, h, e)) k)
]
listed_holds f c p [] h k = ground (arith, h)

any_transfer :
    (f : Pair → Bool) (ks ls : List Pair)
    → ((c p : Text) → f (c, p) ≡ true → listed c p ls ≡ true)
    → any f ks ≡ true
    → any f ls ≡ true
any_transfer f ks ls h k =
    let (u, e, m) = any_witness f ks k in listed_holds f (u.0) (u.1) ls (h (u.0) (u.1) e) e

-- Two lists of keys that both hold every key with f.
pub any_same :
    (f : Pair → Bool) (ks ls : List Pair)
    → ((c p : Text) → f (c, p) ≡ true → listed c p ks ≡ true)
    → ((c p : Text) → f (c, p) ≡ true → listed c p ls ≡ true)
    → any f ks ≡ any f ls
any_same f ks ls g h =
    both_ways (any f ks) (any f ls) (any_transfer f ks ls h) (any_transfer f ls ks g)
