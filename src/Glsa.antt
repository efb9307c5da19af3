-- ===== src/Glsa.antt =====
-- `generate_restrict_from_range` of src/pkgcore/pkgsets/glsa.py: a range of versions in a security
-- advisory as a restriction. The text of the range is taken in the parts that VersionedCPV makes of
-- it. `none` is ValueError.
pub mod Ranges
use pkgcore.Prelude.{
  Bool, true, false, not, ◌&&◌, List, [], ◌∷◌, ◌++◌, Option, none, some, ◌>>=◌, is_empty,
  if◌then◌else◌,
}
use pkgcore.Prelude.Text.{Text, text_eq, starts_with}
use pkgcore.Ebuild.Cmp.{Snakeoil}
use pkgcore.Ebuild.Version.{Revision, no_revision}
use pkgcore.Ebuild.VersionMatch.{
  Op, below, at_most, exactly, at_least, above, tilde, VersionMatch, make_version_match,
  match_version, differs,
}

-- The operator behind the letter r, and whether the letter is there.
pub data RangeOp : Type 0 where
  ge gt lt le eq : RangeOp

-- `op_translate`
abbrev pub op_translate : RangeOp → Op
op_translate ge = at_least
op_translate gt = above
op_translate lt = below
op_translate le = at_most
op_translate eq = exactly

pub record Range : Type 0 where
  pub op : RangeOp
  pub revised : Bool
  pub slot : Text
  pub glob : Bool
  pub version : Text
  pub revision : Option Revision
  pub fullver : Text

-- The restrictions that a range makes: on the version, on the slot, and on a text that the full
-- version starts with.
pub data Part : Type 0 where
  by_version : VersionMatch → Part
  by_slot : Text → Part
  by_prefix : Text → Part

-- One of them, or AndRestriction of them with `negate`.
pub data RangeRestrict : Type 0 where
  single : Part → RangeRestrict
  and_of : Bool → List Part → RangeRestrict

-- What an advisory is matched against.
pub record Package : Type 0 where
  pub version : Text
  pub revision : Option Revision
  pub fullver : Text
  pub slot : Text

abbrev pub slot_part : Text → List Part
slot_part slot = if is_empty slot then [] else by_slot slot ∷ []

-- VersionMatch of the operator, and SlotDep, behind the parts before them.
unfoldable pub close_range : Range → Bool → List Part → Option RangeRestrict
close_range r negate parts = do
  m ← make_version_match (op_translate r.op) r.version r.revision false
  some (and_of negate (parts ++ by_version m ∷ slot_part r.slot))

-- `VersionMatch("~", base.version)` in front of them
unfoldable pub same_version : Range → Bool → Option RangeRestrict
unfolding close_range
same_version r negate = do
  m ← make_version_match tilde r.version none false
  close_range r negate (by_version m ∷ [])

abbrev pub single_version : Option VersionMatch → Option RangeRestrict
single_version none = none
single_version (some m) = some (single (by_version m))

-- A range on revisions of a version without one.
unfoldable pub unrevised : RangeOp → Range → Bool → Option RangeRestrict
unfolding same_version
unrevised lt r negate = none
unrevised le r negate = single_version (make_version_match exactly r.version none negate)
unrevised ge r negate = single_version (make_version_match tilde r.version none negate)
unrevised op r negate = same_version r negate

abbrev pub is_eq : RangeOp → Bool
is_eq eq = true
is_eq _ = false

unfoldable pub generate_restrict_from_range : Range → Bool → Option RangeRestrict
unfolding close_range same_version unrevised
generate_restrict_from_range r negate =
    if r.glob
    then if is_eq r.op && not r.revised then some (single (by_prefix r.fullver)) else none
    else if not r.revised
    then close_range r negate []
    else if no_revision r.revision
    then unrevised r.op r negate
    else same_version r negate

module _ (snakeoil : Snakeoil) where
  unfoldable pub match_part : Package → Part → Option Bool
  match_part p (by_version m) = match_version snakeoil m (some p.version) p.revision
  match_part p (by_slot slot) = some (text_eq slot p.slot)
  match_part p (by_prefix prefix) = some (starts_with prefix p.fullver)

  -- the loop of AndRestriction.match
  unfoldable pub match_parts : Package → Bool → List Part → Option Bool
  unfolding match_part
  match_parts p negate [] = some (not negate)
  match_parts p negate (x ∷ xs) =
      let rest = match_parts p negate xs in
      match_part p x >>= λ b. if not b then some negate else rest

  unfoldable pub match_range : Package → RangeRestrict → Option Bool
  unfolding match_part match_parts
  match_range p (single x) = match_part p x
  match_range p (and_of negate xs) = match_parts p negate xs
