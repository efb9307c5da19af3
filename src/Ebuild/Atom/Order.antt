-- ===== src/Ebuild/Atom/Order.antt =====
-- `atom.__cmp__` of src/pkgcore/ebuild/atom.py.
use pkgcore.Prelude.{Bool, true, false, List, [], ◌∷◌, Option, none, some, ◌>>=◌, if◌then◌else◌}
use pkgcore.Prelude.Text.{Text, codes, text_ltb, text_eq}
use pkgcore.Ebuild.Cmp.{Sign, equal, Snakeoil, then_by, flip}
use pkgcore.Ebuild.Version.{ver_cmp, return_if}
use pkgcore.Ebuild.VersionMatch.{
  Op, unversioned, below, at_most, exactly, at_least, above, tilde, glob,
}
use pkgcore.Ebuild.Atom.{Atom}

abbrev pub op_text : Op → Text
op_text unversioned = []
op_text below = codes "<"
op_text at_most = codes "<="
op_text exactly = codes "="
op_text at_least = codes ">="
op_text above = codes ">"
op_text tilde = codes "~"
op_text glob = codes "=*"

abbrev pub bool_ltb : Bool → Bool → Bool
bool_ltb false true = true
bool_ltb _ _ = false

-- `f(v)`: "" for None
abbrev pub or_empty : Option Text → Text
or_empty none = []
or_empty (some s) = s

-- `<` of tuples of texts; None sorts first
abbrev pub texts_ltb : List Text → List Text → Bool
texts_ltb [] [] = false
texts_ltb [] (t ∷ ts) = true
texts_ltb (s ∷ ss) [] = false
texts_ltb (s ∷ ss) (t ∷ ts) = if text_eq s t then texts_ltb ss ts else text_ltb s t

abbrev pub option_ltb : {A : Type 0} → (A → A → Bool) → Option A → Option A → Bool
option_ltb lt none none = false
option_ltb lt none (some t) = true
option_ltb lt (some s) none = false
option_ltb lt (some s) (some t) = lt s t

module _ (snakeoil : Snakeoil) where
  open snakeoil use {cmp}

  -- Two atoms without operators have no versions, which are equal.
  abbrev pub versions_cmp : Atom → Atom → Option Sign
  versions_cmp a b = elim a.op [
    | unversioned ↦ some equal
    | _ ↦ ver_cmp snakeoil a.version a.revision b.version b.revision
  ]

  -- What is compared behind the versions.
  unfoldable pub rest_cmp : Atom → Atom → Sign
  rest_cmp a b = then_by (flip (cmp bool_ltb a.blocks b.blocks)) (
      then_by (cmp bool_ltb a.blocks_strongly b.blocks_strongly) (
        then_by (cmp bool_ltb a.negate_vers b.negate_vers) (
          then_by (cmp text_ltb (or_empty a.slot) (or_empty b.slot)) (
            then_by (cmp (option_ltb texts_ltb) a.use_deps b.use_deps)
              (cmp (option_ltb text_ltb) a.repo_id b.repo_id)))))

  -- `__cmp__(other)`
  unfoldable pub atom_cmp : Atom → Atom → Option Sign
  unfolding rest_cmp
  atom_cmp a b = return_if (cmp text_ltb a.category b.category) (
      return_if (cmp text_ltb a.package_name b.package_name) (
        return_if (cmp text_ltb (op_text a.op) (op_text b.op))
          (do c ← versions_cmp a b; return_if c (some (rest_cmp a b)))))
