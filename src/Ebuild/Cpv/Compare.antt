-- ===== src/Ebuild/Cpv/Compare.antt =====
-- The comparisons of CPV and Revision in src/pkgcore/ebuild/cpv.py.
use pkgcore.Prelude.{
  ℕ, Bool, true, false, not, ◌&&◌, Option, none, some, ◌>>=◌, ◌==◌, ltb, leb, if◌then◌else◌,
}
use pkgcore.Prelude.Text.{Text, text_eq, text_ltb}
use pkgcore.Ebuild.Cmp.{Sign, less, equal, greater, Snakeoil}
use pkgcore.Ebuild.Version.{Revision, ver_cmp}
use pkgcore.Ebuild.Cpv.{Cpv}

-- `c == 0`, `c < 0` and `c > 0`
abbrev pub is_equal : Option Sign → Bool
is_equal (some equal) = true
is_equal _ = false

abbrev pub negative : Sign → Bool
negative less = true
negative _ = false

abbrev pub positive : Sign → Bool
positive greater = true
positive _ = false

module _ (snakeoil : Snakeoil) where
  -- `ver_cmp` of two packages: without versions they are equal; of one version, AttributeError.
  unfoldable pub cpv_cmp : Cpv → Cpv → Option Sign
  cpv_cmp a b = elim a.version [
    | none ↦ elim b.version [ none ↦ some equal | some w ↦ none ]
    | some v ↦ elim b.version [ none ↦ none | some w ↦ ver_cmp snakeoil v a.revision w b.revision ]
  ]

  -- `__eq__`, where AttributeError is False
  unfoldable pub cpv_eq : Cpv → Cpv → Bool
  unfolding cpv_cmp
  cpv_eq a b =
      if text_eq a.cpvstr b.cpvstr
      then true
      else if text_eq a.category b.category && text_eq a.package_name b.package_name
      then is_equal (cpv_cmp a b)
      else false

  -- The common body of `__lt__`, `__le__`, `__gt__` and `__ge__`.
  unfoldable pub ordered_by : (Sign → Bool) → (Text → Text → Bool) → Cpv → Cpv → Option Bool
  unfolding cpv_cmp
  ordered_by test lt a b =
      if text_eq a.category b.category
      then (if text_eq a.package_name b.package_name
          then (do c ← cpv_cmp a b; some (test c))
          else some (lt a.package_name b.package_name))
      else some (lt a.category b.category)

  unfoldable pub cpv_lt : Cpv → Cpv → Option Bool
  unfolding ordered_by
  cpv_lt = ordered_by negative text_ltb

  unfoldable pub cpv_le : Cpv → Cpv → Option Bool
  unfolding ordered_by
  cpv_le = ordered_by (λ c. not (positive c)) text_ltb

  unfoldable pub cpv_gt : Cpv → Cpv → Option Bool
  unfolding ordered_by
  cpv_gt = ordered_by positive (λ s t. text_ltb t s)

  unfoldable pub cpv_ge : Cpv → Cpv → Option Bool
  unfolding ordered_by
  cpv_ge = ordered_by (λ c. not (negative c)) (λ s t. text_ltb t s)

-- What a revision is compared with.
pub data Other : Type 0 where
  revision : Revision → Other
  number : ℕ → Other
  nothing : Other
  text : Text → Other

-- `__eq__`, `__lt__`, `__le__`, `__gt__` and `__ge__` of Revision
unfoldable pub revision_eq_other : Revision → Other → Bool
revision_eq_other r (revision s) = r.number == s.number
revision_eq_other r (number n) = r.number == n
revision_eq_other r nothing = r.number == 0
revision_eq_other r (text s) = text_eq r.text s

unfoldable pub revision_lt_other : Revision → Other → Bool
revision_lt_other r (revision s) = ltb r.number s.number
revision_lt_other r (number n) = ltb r.number n
revision_lt_other r nothing = ltb r.number 0
revision_lt_other r (text s) = text_ltb r.text s

unfoldable pub revision_le_other : Revision → Other → Bool
revision_le_other r (revision s) = leb r.number s.number
revision_le_other r (number n) = leb r.number n
revision_le_other r nothing = leb r.number 0
revision_le_other r (text s) = not (text_ltb s r.text)

unfoldable pub revision_gt_other : Revision → Other → Bool
revision_gt_other r (revision s) = ltb s.number r.number
revision_gt_other r (number n) = ltb n r.number
revision_gt_other r nothing = ltb 0 r.number
revision_gt_other r (text s) = text_ltb s r.text

unfoldable pub revision_ge_other : Revision → Other → Bool
revision_ge_other r (revision s) = leb s.number r.number
revision_ge_other r (number n) = leb n r.number
revision_ge_other r nothing = leb 0 r.number
revision_ge_other r (text s) = not (text_ltb r.text s)
