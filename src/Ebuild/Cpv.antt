-- ===== src/Ebuild/Cpv.antt =====
-- `class CPV` of src/pkgcore/ebuild/cpv.py. Texts are ASCII; `none` is InvalidCPV or TypeError.
pub mod Compare
pub mod Parsed
pub mod Kept
pub mod Sorted
pub mod Revisions
use pkgcore.Prelude.{
  ℕ, Bool, true, false, not, ◌&&◌, ◌||◌, List, [], ◌∷◌, ◌++◌, Option, none, some, ◌>>=◌, ◌==◌, ltb,
  leb, if◌then◌else◌, any, all, is_empty, length,
}
use pkgcore.Prelude.Text.{
  Text, text_eq, text_ltb, is_digit, is_alpha, all_digits, isdigit, split, join, digits_value, int,
}
use pkgcore.Ebuild.Cmp.{Sign, less, equal, greater, Snakeoil}
use pkgcore.Ebuild.Version.{
  Revision, make_revision, Suffix, alpha, beta, rc, pre, p, suffix_name, strip_prefix, ver_cmp,
  no_revision,
}
use pkgcore.Ebuild.Names.{
  chomp, is_word, base_start, base_rest, ends_in_digits, suffix_part, version_parts,
  isvalid_version, cat_start, isvalid_cat, pkg_match, isvalid_rev, pop, before_last_ok, last_ok,
  first_ok, isvalid_pkg_name,
}

pub record Cpv : Type 0 where
  pub category : Text
  pub cpvstr : Text
  pub package_name : Text
  pub key : Text
  -- None without a version
  pub version : Option Text
  pub fullver : Option Text
  pub revision : Option Revision

-- The positional arguments, and `versioned` for a single one.
pub data Args : Type 0 where
  one : Text → Bool → Args
  two : Text → Text → Args
  three : Text → Text → Text → Args

unfoldable pub cpvstr_of : Args → Text
cpvstr_of (one s versioned) = s
cpvstr_of (two cat pkg) = cat ++ b'/' ∷ pkg
cpvstr_of (three cat pkg ver) = cat ++ b'/' ∷ pkg ++ b'-' ∷ ver

unfoldable pub versioned_of : Args → Bool
versioned_of (one s versioned) = versioned
versioned_of (two cat pkg) = false
versioned_of (three cat pkg ver) = true

-- `cpvstr.rsplit("/", 1)`; `none` is the ValueError of unpacking one item.
unfoldable pub rsplit_slash : Text → Option (Text × Text)
unfolding split join pop
rsplit_slash s = do
  (before, last) ← pop (split b'/' s)
  if is_empty before then none else some (join b'/' before, last)

-- `str(int(s))` of digits that are not all zeros
unfoldable pub without_zeros : Text → Text
without_zeros [] = []
without_zeros (c ∷ s) = let rest = without_zeros s in if c == b'0' then rest else c ∷ s

-- `cpvstr` behind a revision: without -r0, and without the zeros that lead the number.
unfoldable pub reset_cpvstr : Text → Text → List Text → Revision → Text
unfolding join without_zeros
reset_cpvstr cpvstr category chunks rev =
    if rev.number == 0 then category ++ b'/' ∷ join b'-' chunks else elim rev.text [
      | [] ↦ cpvstr
      | (c ∷ s) ↦
          if c == b'0'
          then category ++ b'/' ∷ join b'-' chunks ++ b'-' ∷ b'r' ∷ without_zeros (c ∷ s)
          else cpvstr
    ]

-- `s[1:]`
abbrev pub tail : Text → Text
tail [] = []
tail (c ∷ s) = s

-- The chunks without the revision, the revision, and the stored text.
unfoldable pub take_revision :
    Text → Text → List Text → Option (List Text × Text) → Option (List Text × Revision × Text)
unfolding isvalid_rev make_revision pop reset_cpvstr
take_revision cpvstr category chunks none = none
take_revision cpvstr category chunks (some (before, last)) =
    if isvalid_rev last
    then (if leb 2 (length before)
        then (do
          rev ← make_revision (tail last)
          some (before, rev, reset_cpvstr cpvstr category before rev))
        else none)
    else (do rev ← make_revision []; some (chunks, rev, cpvstr))

-- `if self.revision`
abbrev pub make_fullver : Text → Revision → Text
make_fullver version rev = elim rev.text [ [] ↦ version | (c ∷ s) ↦ version ++ b'-' ∷ b'r' ∷ c ∷ s ]

-- `CPV.__init__` on the chunks of a versioned package
unfoldable pub make_versioned : Text → Text → List Text → Option Cpv
unfolding isvalid_version isvalid_pkg_name pop join take_revision
make_versioned cpvstr category pkg_chunks = do
  (chunks, rev, stored) ← take_revision cpvstr category pkg_chunks (pop pkg_chunks)
  (name, version) ← pop chunks
  if isvalid_version version && isvalid_pkg_name name
      then some (record {
        category = category;
        cpvstr = stored;
        package_name = join b'-' name;
        key = category ++ b'/' ∷ join b'-' name;
        version = some version;
        fullver = some (make_fullver version rev);
        revision = some rev;
      })
      else none

-- and on those of one without a version
unfoldable pub make_unversioned : Text → Text → List Text → Option Cpv
unfolding isvalid_pkg_name join
make_unversioned cpvstr category pkg_chunks =
    if isvalid_pkg_name pkg_chunks
    then some (record {
      category = category;
      cpvstr = cpvstr;
      package_name = join b'-' pkg_chunks;
      key = cpvstr;
      version = none;
      fullver = none;
      revision = none;
    })
    else none

-- `CPV.__init__`
unfoldable pub make_cpv : Args → Option Cpv
unfolding cpvstr_of versioned_of rsplit_slash isvalid_cat split make_versioned make_unversioned
make_cpv args = do
  (category, pkgver) ← rsplit_slash (cpvstr_of args)
  if not (isvalid_cat category)
      then none
      else if versioned_of args
      then make_versioned (cpvstr_of args) category (split b'-' pkgver)
      else make_unversioned (cpvstr_of args) category (split b'-' pkgver)

-- `CPV.versioned(s)` and `CPV.unversioned(s)`, and the classes VersionedCPV and UnversionedCPV
unfoldable pub versioned_cpv : Text → Option Cpv
unfolding make_cpv
versioned_cpv s = make_cpv (one s true)

unfoldable pub unversioned_cpv : Text → Option Cpv
unfolding make_cpv
unversioned_cpv s = make_cpv (one s false)
