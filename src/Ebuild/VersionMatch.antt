-- ===== src/Ebuild/VersionMatch.antt =====
-- `_VersionMatch` of src/pkgcore/ebuild/restricts.py: a version, an operator, and `match`.
pub mod Meaning
pub mod Equality
pub mod Overlap
use pkgcore.Prelude.{
  ℕ, Bool, true, false, not, List, [], ◌∷◌, Option, none, some, ◌>>=◌, if◌then◌else◌, any,
}
use pkgcore.Prelude.Text.{Text}
use pkgcore.Ebuild.Cmp.{Sign, less, equal, greater, Snakeoil}
use pkgcore.Ebuild.Version.{Revision, ver_cmp}

-- The operators of an atom; `unversioned` is the empty text and `glob` is "=*".
pub data Op : Type 0 where
  unversioned below at_most exactly at_least above tilde glob : Op

pub record VersionMatch : Type 0 where
  pub ver : Text
  pub rev : Option Revision
  pub droprev : Bool
  pub vals : List Sign
  pub negate : Bool

-- `_convert_str2op`
abbrev pub convert_op : Op → Option (List Sign)
convert_op below = some (less ∷ [])
convert_op at_most = some (less ∷ equal ∷ [])
convert_op exactly = some (equal ∷ [])
convert_op at_least = some (equal ∷ greater ∷ [])
convert_op above = some (greater ∷ [])
convert_op _ = none

-- `_VersionMatch(operator, ver, rev, negate)`; `none` is InvalidVersion.
unfoldable pub make_version_match : Op → Text → Option Revision → Bool → Option VersionMatch
make_version_match tilde ver rev negate =
    some (record { ver = ver; rev = rev; droprev = true; vals = equal ∷ []; negate = negate })
make_version_match op ver rev negate = do
  vals ← convert_op op
  some (record { ver = ver; rev = rev; droprev = false; vals = vals; negate = negate })

abbrev pub sign_eq : Sign → Sign → Bool
sign_eq less less = true
sign_eq equal equal = true
sign_eq greater greater = true
sign_eq _ _ = false

-- `a != b` of truth values
abbrev pub differs : Bool → Bool → Bool
differs true b = not b
differs false b = b

module _ (snakeoil : Snakeoil) where
  -- `match(pkg)`, of a package's version and revision; `none` is an exception of `ver_cmp`.
  unfoldable pub match_version : VersionMatch → Option Text → Option Revision → Option Bool
  match_version m none revision = some false
  match_version m (some version) revision = do
    c ←
        if m.droprev
        then ver_cmp snakeoil version none m.ver none
        else ver_cmp snakeoil version revision m.ver m.rev
    some (differs (any (sign_eq c) m.vals) m.negate)
