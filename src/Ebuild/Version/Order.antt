-- ===== src/Ebuild/Version/Order.antt =====
-- `ver_cmp` decides the order of the keys, on every well-formed version.
use mathlib.Core.Option
use mathlib.Core.Option.{some-injective}
use pkgcore.Prelude.{
  ◌≡◌, ◌≢◌, refl, ap, sym, ◌∙◌, true, map, Option, none, some, arith, ◌&&◌, if◌then◌else◌,
  Bool-cases, ltb, inl, inr,
}
use pkgcore.Prelude.Int.{ltb_ℤ}
use pkgcore.Prelude.Text.{text_eq, split}
use pkgcore.Prelude.Text.Laws.{text_eq_sound}
use pkgcore.Ebuild.Cmp.{Sign, less, equal, greater, Snakeoil, three_way, then_by, flip}
use pkgcore.Ebuild.Cmp.Laws.{compare_refl, less_then_le}
use pkgcore.Ebuild.Version.{
  Revision, make_revision, no_revision, revision_ltb, compare_dotted, compare_suffixes, ver_cmp,
  head_of, tail_of,
}
use pkgcore.Ebuild.Version.Key.{
  Version, components, suffixes_compare, suffixes-IsTotalPreorder, base_compare,
  base-IsTotalPreorder, version_compare, revision_number, stamped_compare, stamped-IsTotalPreorder,
}
use pkgcore.Ebuild.Version.Render.{
  IsWellFormed, render, base_text, suffix_text, split-render, strip_letter-base_text,
}
use pkgcore.Ebuild.Version.Steps.{return_if_lem, return_if_cmp, parts_lem, suffixes_lem}

-- A revision that the class has made.
pub record IsRevision (r : Revision) : Type 0 where
  pub made : make_revision r.text ≡ some r

-- Both are None, or both are revisions: a CPV has a revision exactly where it has a version.
abbrev pub Alike : Option Revision → Option Revision → Type 0
Alike none none = Unit
Alike (some r) (some s) = IsRevision r × IsRevision s
Alike _ _ = ⊥

pub Alike-sym : (r s : Option Revision) → Alike r s → Alike s r
Alike-sym none none h = h
Alike-sym (some r) (some s) h = (h.1, h.0)
Alike-sym none (some s) h = h
Alike-sym (some r) none h = h

pub Alike-trans : (q r s : Option Revision) → Alike q r → Alike r s → Alike q s
Alike-trans none none s h k = k
Alike-trans (some q) (some r) (some s) h k = (h.0, k.1)
Alike-trans none (some r) s h k = absurd h
Alike-trans (some q) none s h k = absurd h
Alike-trans (some q) (some r) none h k = absurd k

-- An empty text is revision 0.
empty_revision : (r : Revision) → IsRevision r → no_revision (some r) ≡ true → r.number ≡ 0
unfolding make_revision
empty_revision r h e = ground arith

then_by_assoc : (a b c : Sign) → then_by (then_by a b) c ≡ then_by a (then_by b c)
then_by_assoc a b c = ground arith

module _ (snakeoil : Snakeoil) where
  open snakeoil use {cmp, cmp_lem}

  revisions_lem :
      (r s : Option Revision)
      → Alike r s
      → cmp revision_ltb r s ≡ three_way ltb (revision_number r) (revision_number s)
  revisions_lem none none h = cmp_lem revision_ltb none none
  revisions_lem (some r) (some s) h = cmp_lem revision_ltb (some r) (some s)
  revisions_lem none (some s) h = absurd h
  revisions_lem (some r) none h = absurd h

  same_version_lem :
      (r s : Option Revision)
      → Alike r s
      → (if no_revision r && no_revision s then some equal else some (cmp revision_ltb r s))
        ≡ some (three_way ltb (revision_number r) (revision_number s))
  same_version_lem none none h = refl
  same_version_lem (some r) (some s) h =
      ground (arith, revisions_lem (some r) (some s) h, empty_revision r h.0, empty_revision s h.1)
  same_version_lem none (some s) h = absurd h
  same_version_lem (some r) none h = absurd h

  module _ (v w : Version) (vo : IsWellFormed v) (wo : IsWellFormed w) where
    dotted_lem : compare_dotted snakeoil (base_text v) (base_text w) ≡ some (base_compare v w)
    unfolding compare_dotted base_compare
    dotted_lem =
        rw
          (
            strip_letter-base_text v vo,
            strip_letter-base_text w wo,
            parts_lem snakeoil (components v) (components w) vo.numbers wo.numbers,
          )
          (return_if_lem _ (ap some (cmp_lem ltb_ℤ _ _)))

    suffix_list_lem :
        compare_suffixes snakeoil (map suffix_text v.suffixes) (map suffix_text w.suffixes)
        ≡ some (suffixes_compare v.suffixes w.suffixes)
    suffix_list_lem = suffixes_lem snakeoil v.suffixes w.suffixes vo.suffixes wo.suffixes

  equal_bases :
      (v w : Version)
      → IsWellFormed v
      → IsWellFormed w
      → base_text v ≡ base_text w
      → base_compare v w ≡ equal
  equal_bases v w vo wo e = cc (
    dotted_lem v w vo wo,
    dotted_lem w w wo wo,
    compare_refl base-IsTotalPreorder w,
    ap (λ t. compare_dotted snakeoil t (base_text w)) e,
  )

  equal_suffixes :
      (v w : Version)
      → IsWellFormed v
      → IsWellFormed w
      → map suffix_text v.suffixes ≡ map suffix_text w.suffixes
      → suffixes_compare v.suffixes w.suffixes ≡ equal
  equal_suffixes v w vo wo e = cc (
    suffix_list_lem v w vo wo,
    suffix_list_lem w w wo wo,
    compare_refl suffixes-IsTotalPreorder w.suffixes,
    ap (λ t. compare_suffixes snakeoil t (map suffix_text w.suffixes)) e,
  )

  equal_texts :
      (v w : Version)
      → IsWellFormed v
      → IsWellFormed w
      → render v ≡ render w
      → version_compare v w ≡ equal
  unfolding version_compare
  equal_texts v w vo wo e =
      let same = sym (split-render v vo) ∙ ap (split b'_') e ∙ split-render w wo in
      rw (equal_bases v w vo wo (ap head_of same), equal_suffixes v w vo wo (ap tail_of same))

  base_lem :
      (v w : Version)
      → IsWellFormed v
      → IsWellFormed w
      → (if text_eq (base_text v) (base_text w)
          then some equal
          else compare_dotted snakeoil (base_text v) (base_text w))
        ≡ some (base_compare v w)
  base_lem v w vo wo = elim (Bool-cases (text_eq (base_text v) (base_text w))) [
    | inl e ↦
        rw e (ap some (sym (equal_bases v w vo wo (text_eq_sound (base_text v) (base_text w) e))))
    | inr ne ↦ rw ne (dotted_lem v w vo wo)
  ]

  -- On the texts of two well-formed versions, with two revisions or none, `ver_cmp` raises nothing
  -- and returns the lexicographic order of their components, letters, suffixes and revisions.
  pub ver_cmp_lem :
      (v w : Version) (r s : Option Revision)
      → IsWellFormed v
      → IsWellFormed w
      → Alike r s
      → ver_cmp snakeoil (render v) r (render w) s ≡ some (stamped_compare (v, r) (w, s))
  unfolding ver_cmp stamped_compare version_compare
  ver_cmp_lem v w r s vo wo h = elim (Bool-cases (text_eq (render v) (render w))) [
    | inl e ↦
        rw (e, equal_texts v w vo wo (text_eq_sound (render v) (render w) e))
          (same_version_lem r s h)
    | inr ne ↦
        rw
          (
            ne,
            split-render v vo,
            split-render w wo,
            base_lem v w vo wo,
            return_if_lem (base_compare v w) (suffix_list_lem v w vo wo),
          )
          (return_if_cmp _ _ _ _ refl (revisions_lem r s h))
  ]

  -- Of two well-formed versions, with two revisions or none, swapping the arguments flips the sign.
  pub ver_cmp_converse :
      (v w : Version) (r s : Option Revision)
      → IsWellFormed v
      → IsWellFormed w
      → Alike r s
      → ver_cmp snakeoil (render w) s (render v) r
        ≡ Option.map flip (ver_cmp snakeoil (render v) r (render w) s)
  ver_cmp_converse v w r s vo wo h =
      rw (ver_cmp_lem v w r s vo wo h, ver_cmp_lem w v s r wo vo (Alike-sym r s h))
        (ap some (stamped-IsTotalPreorder.converse (v, r) (w, s)))

  -- Of three well-formed versions with revisions, or without: where `ver_cmp` says that the first is
  -- below the second, and not that the second is above the third, the first is below the third.
  pub ver_cmp_transitive :
      (u v w : Version) (q r s : Option Revision)
      → IsWellFormed u
      → IsWellFormed v
      → IsWellFormed w
      → Alike q r
      → Alike r s
      → ver_cmp snakeoil (render u) q (render v) r ≡ some less
      → ver_cmp snakeoil (render v) r (render w) s ≢ some greater
      → ver_cmp snakeoil (render u) q (render w) s ≡ some less
  ver_cmp_transitive u v w q r s uo vo wo h k below not_above =
      rw (ver_cmp_lem u w q s uo wo (Alike-trans q r s h k)) (
        ap some (
          less_then_le stamped-IsTotalPreorder (u, q) (v, r) (w, s)
            (some-injective _ _ (sym (ver_cmp_lem u v q r uo vo h) ∙ below))
            (λ e. not_above (ver_cmp_lem v w r s vo wo k ∙ ap some e))))
