-- ===== src/Ebuild/Cpv/Revisions.antt =====
-- The comparisons of `class Revision` agree with one another.
use pkgcore.Prelude.{false, not, ◌&&◌, ◌||◌, ◌≡◌, refl, arith, [], ◌∷◌}
use pkgcore.Prelude.Text.{Text, text_eq, text_ltb}
use pkgcore.Ebuild.Version.{Revision}
use pkgcore.Ebuild.Cpv.Compare.{
  revision, number, nothing, text, Other, revision_eq_other, revision_lt_other, revision_le_other,
  revision_gt_other, revision_ge_other,
}

text_le : (s t : Text) → not (text_ltb t s) ≡ (text_ltb s t || text_eq s t)
text_le [] [] = refl
text_le [] (d ∷ t) = refl
text_le (c ∷ s) [] = refl
text_le (c ∷ s) (d ∷ t) = ground (arith, text_le s t)

text_disjoint : (s t : Text) → (text_ltb s t && text_eq s t) ≡ false
text_disjoint [] [] = refl
text_disjoint [] (d ∷ t) = refl
text_disjoint (c ∷ s) [] = refl
text_disjoint (c ∷ s) (d ∷ t) = ground (arith, text_disjoint s t)

-- Against a revision, a number, None or a text: <= is < or ==, > is neither of them, >= is not <,
-- and < excludes ==.
revision_comparisons :
    (r : Revision) (o : Other)
    → (revision_le_other r o ≡ (revision_lt_other r o || revision_eq_other r o))
      × (revision_gt_other r o ≡ not (revision_le_other r o))
      × (revision_ge_other r o ≡ not (revision_lt_other r o))
      × ((revision_lt_other r o && revision_eq_other r o) ≡ false)
unfolding revision_eq_other revision_lt_other revision_le_other revision_gt_other revision_ge_other
revision_comparisons r (revision s) = (ground arith, ground arith, ground arith, ground arith)
revision_comparisons r (number n) = (ground arith, ground arith, ground arith, ground arith)
revision_comparisons r nothing = (ground arith, ground arith, ground arith, ground arith)
revision_comparisons r (text s) = (text_le r.text s, ground arith, refl, text_disjoint r.text s)
