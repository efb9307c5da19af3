-- ===== src/Ebuild/Version/Steps.antt =====
-- What each step of `ver_cmp` decides on the parts of well-formed versions.
use pkgcore.Prelude.{
  ℕ, ◌≡◌, refl, ap, sym, ◌∙◌, true, false, ◌||◌, List, [], ◌∷◌, map, Option, some, arith, ◌==◌,
  ==_iff, all, and_left, and_right, Bool-cases, ltb, inl, inr,
}
use pkgcore.Prelude.Int.{pos, ltb_ℤ}
use pkgcore.Prelude.Text.{Text, text_eq, text_ltb, is_digit, isdigit, rstrip}
use pkgcore.Prelude.Text.Laws.{text_eq_sound, rstrip_cases, int-digits}
use pkgcore.Ebuild.Cmp.{Sign, less, equal, greater, Snakeoil, then_by, flip}
use pkgcore.Ebuild.Cmp.Laws.{
  compare_eq, text_compare, three_way-text_ltb, text-IsTotalPreorder, list_compare,
  int-IsTotalPreorder,
}
use pkgcore.Ebuild.Version.{
  Suffix, alpha, beta, rc, pre, p, suffix_match, suffix_value, return_if, compare_fractions,
  compare_components, compare_parts, suffix_after_end, suffix_before_end, compare_suffix,
  compare_suffixes,
}
use pkgcore.Ebuild.Version.Key.{
  component_key, key_compare, key-IsTotalPreorder, parts_compare, suffix_compare,
  suffix-IsTotalPreorder, end_of_suffixes, suffixes_compare, name_value,
}
use pkgcore.Ebuild.Version.Render.{suffix_text, suffix_ok, suffix_match-suffix_text}

pub return_if_lem :
    (c : Sign) {d : Sign} {o : Option Sign} → o ≡ some d → return_if c o ≡ some (then_by c d)
return_if_lem less h = refl
return_if_lem equal h = h
return_if_lem greater h = refl

nonzero_kept : (d : ℕ) (t : Text) → (d == b'0') ≡ false → (u : Text) × (rstrip b'0' (d ∷ t) ≡ d ∷ u)
nonzero_kept d t n = elim (rstrip_cases b'0' d t) [
  | inl (_, e) ↦ cc ((==_iff d b'0').1 e)
  | inr kept ↦ kept
]

-- A component that begins with a zero is below every other.
zero_below :
    (c : ℕ) (s : Text) (d : ℕ) (t : Text)
    → (c == b'0') ≡ true
    → (d == b'0') ≡ false
    → is_digit d ≡ true
    → text_compare (rstrip b'0' (c ∷ s)) (rstrip b'0' (d ∷ t)) ≡ less
unfolding text_compare
zero_below c s d t z n h =
    let (u, kept) = nonzero_kept d t n in
    elim (rstrip_cases b'0' c s) [
      | inl (e, _) ↦ rw (kept, e)
      | inr (s', e) ↦ rw (kept, e) (ground arith)
    ]

zero_above :
    (c : ℕ) (s : Text) (d : ℕ) (t : Text)
    → (c == b'0') ≡ false
    → (d == b'0') ≡ true
    → is_digit c ≡ true
    → text_compare (rstrip b'0' (c ∷ s)) (rstrip b'0' (d ∷ t)) ≡ greater
zero_above c s d t n z h =
    text-IsTotalPreorder.converse (rstrip b'0' (d ∷ t)) (rstrip b'0' (c ∷ s))
    ∙ ap flip (zero_below d t c s z n h)

-- A value that is not 0 is below or above it.
value_nonzero :
    (name : Suffix)
    → (ltb_ℤ (pos 0) (suffix_value name) || ltb_ℤ (suffix_value name) (pos 0)) ≡ true
value_nonzero alpha = refl
value_nonzero beta = refl
value_nonzero rc = refl
value_nonzero pre = refl
value_nonzero p = refl

pub return_if_cmp :
    (c c' d d' : Sign) → c ≡ c' → d ≡ d' → return_if c (some d) ≡ some (then_by c' d')
return_if_cmp c c' d d' e f = ground arith

suffix_text-injective :
    (x y : Suffix × Text)
    → suffix_ok x ≡ true
    → suffix_ok y ≡ true
    → suffix_text x ≡ suffix_text y
    → x ≡ y
suffix_text-injective x y h k e =
    cc (suffix_match-suffix_text x h, suffix_match-suffix_text y k, ap suffix_match e)

module _ (snakeoil : Snakeoil) where
  open snakeoil use {cmp, cmp_lem}

  fractions_lem :
      (v w : Text) → compare_fractions snakeoil v w ≡ text_compare (rstrip b'0' v) (rstrip b'0' w)
  unfolding compare_fractions
  fractions_lem v w = cmp_lem text_ltb (rstrip b'0' v) (rstrip b'0' w) ∙ three_way-text_ltb _ _

  components_lem :
      (v w : Text)
      → isdigit v ≡ true
      → isdigit w ≡ true
      → compare_components snakeoil v w ≡ some (key_compare (component_key v) (component_key w))
  unfolding compare_components component_key key_compare
  components_lem [] w h k = cc
  components_lem (c ∷ s) [] h k = cc
  components_lem (c ∷ s) (d ∷ t) h k = elim (Bool-cases (text_eq (c ∷ s) (d ∷ t))) [
    | inl e ↦ rw e (
        ap some (
          sym (
            compare_eq key-IsTotalPreorder _ _
              (ap component_key (text_eq_sound (c ∷ s) (d ∷ t) e)))))
    | inr ne ↦ elim (Bool-cases (c == b'0')) [
      | inl c0 ↦ elim (Bool-cases (d == b'0')) [
        | inl d0 ↦ rw (ne, c0, d0) (ap some (fractions_lem (c ∷ s) (d ∷ t)))
        | inr dn ↦
            rw (ne, c0, dn)
              (ap some (fractions_lem (c ∷ s) (d ∷ t) ∙ zero_below c s d t c0 dn (and_left _ _ k)))
      ]
      | inr cn ↦ elim (Bool-cases (d == b'0')) [
        | inl d0 ↦
            rw (ne, cn, d0)
              (ap some (fractions_lem (c ∷ s) (d ∷ t) ∙ zero_above c s d t cn d0 (and_left _ _ h)))
        | inr dn ↦
            rw (ne, cn, dn, int-digits (c ∷ s) h, int-digits (d ∷ t) k) (ap some (cmp_lem ltb _ _))
      ]
    ]
  ]

  pub parts_lem :
      (vs ws : List Text)
      → all isdigit vs ≡ true
      → all isdigit ws ≡ true
      → compare_parts snakeoil vs ws ≡ some (parts_compare vs ws)
  unfolding compare_parts parts_compare list_compare
  parts_lem [] [] h k = refl
  parts_lem [] (w ∷ ws) h k = refl
  parts_lem (v ∷ vs) [] h k = refl
  parts_lem (v ∷ vs) (w ∷ ws) h k = rw (components_lem v w (and_left _ _ h) (and_left _ _ k)) (
      return_if_lem (key_compare (component_key v) (component_key w))
        (parts_lem vs ws (and_right (isdigit v) _ h) (and_right (isdigit w) _ k)))

  module _ (x : Suffix × Text) (ok : suffix_ok x ≡ true) where
    suffix_after_end_lem : suffix_after_end snakeoil (suffix_text x) ≡ some (end_of_suffixes x)
    unfolding suffix_after_end
    suffix_after_end_lem =
        rw (suffix_match-suffix_text x ok, value_nonzero x.0) (ap some (cmp_lem ltb_ℤ _ _))

    suffix_before_end_lem :
        suffix_before_end snakeoil (suffix_text x) ≡ some (flip (end_of_suffixes x))
    unfolding suffix_before_end
    suffix_before_end_lem =
        rw (suffix_match-suffix_text x ok, value_nonzero x.0)
          (ap some (cmp_lem ltb_ℤ _ _ ∙ int-IsTotalPreorder.converse (pos 0) (name_value x)))

  suffix_lem :
      (x y : Suffix × Text)
      → suffix_ok x ≡ true
      → suffix_ok y ≡ true
      → compare_suffix snakeoil (suffix_text x) (suffix_text y) ≡ some (suffix_compare x y)
  unfolding compare_suffix suffix_compare
  suffix_lem x y h k = elim (Bool-cases (text_eq (suffix_text x) (suffix_text y))) [
    | inl e ↦ rw e (
        ap some (
          sym (
            compare_eq suffix-IsTotalPreorder x y
              (suffix_text-injective x y h k (text_eq_sound _ _ e)))))
    | inr ne ↦
        rw
          (
            ne,
            suffix_match-suffix_text x h,
            suffix_match-suffix_text y k,
            int-digits (b'0' ∷ x.1) h,
            int-digits (b'0' ∷ y.1) k,
          )
          (return_if_cmp _ _ _ _ (cmp_lem ltb_ℤ _ _) (cmp_lem ltb _ _))
  ]

  pub suffixes_lem :
      (xs ys : List (Suffix × Text))
      → all suffix_ok xs ≡ true
      → all suffix_ok ys ≡ true
      → compare_suffixes snakeoil (map suffix_text xs) (map suffix_text ys)
        ≡ some (suffixes_compare xs ys)
  unfolding compare_suffixes suffixes_compare list_compare
  suffixes_lem [] [] h k = refl
  suffixes_lem [] (y ∷ ys) h k = suffix_after_end_lem y (and_left _ _ k)
  suffixes_lem (x ∷ xs) [] h k = suffix_before_end_lem x (and_left _ _ h)
  suffixes_lem (x ∷ xs) (y ∷ ys) h k = rw (suffix_lem x y (and_left _ _ h) (and_left _ _ k)) (
      return_if_lem (suffix_compare x y)
        (suffixes_lem xs ys (and_right (suffix_ok x) _ h) (and_right (suffix_ok y) _ k)))
