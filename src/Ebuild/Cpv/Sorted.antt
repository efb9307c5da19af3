-- ===== src/Ebuild/Cpv/Sorted.antt =====
-- The comparisons of `class CPV` agree with one another, and with `ver_cmp`.
use mathlib.Core.Option
use pkgcore.Prelude.{
  Bool, false, not, ◌≡◌, refl, ap, arith, [], ◌∷◌, Option, none, some, ◌>>=◌, Bool-cases, inl, inr,
}
use pkgcore.Prelude.Text.{Text, text_eq, text_ltb}
use pkgcore.Ebuild.Cmp.{Sign, Snakeoil}
use pkgcore.Ebuild.Cpv.{Cpv}
use pkgcore.Ebuild.Cpv.Compare.{
  cpv_cmp, ordered_by, negative, positive, cpv_lt, cpv_le, cpv_gt, cpv_ge,
}

text_gt : (s t : Text) → text_eq s t ≡ false → text_ltb t s ≡ not (text_ltb s t)
text_gt [] [] h = cc
text_gt [] (d ∷ t) h = refl
text_gt (c ∷ s) [] h = refl
text_gt (c ∷ s) (d ∷ t) h = ground (arith, text_gt s t)

text_lt : (s t : Text) → text_eq s t ≡ false → text_ltb s t ≡ not (text_ltb t s)
text_lt s t h = ground (arith, text_gt s t h)

map-not :
    (m : Option Sign) (p : Sign → Bool)
    → (m >>= λ c. some (not (p c))) ≡ Option.map not (m >>= λ c. some (p c))
map-not none p = refl
map-not (some c) p = refl

module _ (snakeoil : Snakeoil) where
  -- A comparison by the negated test of the sign, and by an order that is the negation wherever
  -- the texts differ, is the negation.
  ordered_by-not :
      (test : Sign → Bool) (lt gt : Text → Text → Bool) (a b : Cpv)
      → ((s t : Text) → text_eq s t ≡ false → lt s t ≡ not (gt s t))
      → ordered_by snakeoil (λ c. not (test c)) lt a b
        ≡ Option.map not (ordered_by snakeoil test gt a b)
  unfolding ordered_by
  ordered_by-not test lt gt a b h = elim (Bool-cases (text_eq a.category b.category)) [
    | inl c ↦ elim (Bool-cases (text_eq a.package_name b.package_name)) [
      | inl p ↦ rw (c, p) (map-not (cpv_cmp snakeoil a b) test)
      | inr p ↦ rw (c, p) (ap some (h a.package_name b.package_name p))
    ]
    | inr c ↦ rw c (ap some (h a.category b.category c))
  ]

  -- `<=` is the negation of `>`, and `>=` of `<`; they raise together.
  cpv_comparisons :
      (a b : Cpv)
      → (cpv_le snakeoil a b ≡ Option.map not (cpv_gt snakeoil a b))
        × (cpv_ge snakeoil a b ≡ Option.map not (cpv_lt snakeoil a b))
  unfolding cpv_le cpv_gt cpv_ge cpv_lt
  cpv_comparisons a b = (
    ordered_by-not positive text_ltb (λ s t. text_ltb t s) a b (λ s t h. text_lt s t h),
    ordered_by-not negative (λ s t. text_ltb t s) text_ltb a b (λ s t h. text_gt s t h),
  )
