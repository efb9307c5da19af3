-- ===== src/Ebuild/Atom.antt =====
-- `class atom` of src/pkgcore/ebuild/atom.py: the fields, and `intersects`.
pub mod Cases
pub mod Order
pub mod Complete
pub mod Syntax
pub mod UseDeps
pub mod SlotDeps
pub mod Parse
pub mod Print
use pkgcore.Prelude.{
  ℕ, Bool, true, false, not, ◌&&◌, ◌||◌, List, [], ◌∷◌, ◌++◌, Option, none, some, ◌>>=◌, ◌==◌,
  if◌then◌else◌, any,
}
use pkgcore.Prelude.Text.{Text, text_eq, starts_with}
use pkgcore.Ebuild.Cmp.{Snakeoil}
use pkgcore.Ebuild.Version.{Revision}
use pkgcore.Ebuild.VersionMatch.{
  Op, unversioned, below, at_most, exactly, at_least, above, tilde, glob, make_version_match,
  match_version,
}

pub record Atom : Type 0 where
  pub category : Text
  pub package_name : Text
  pub op : Op
  -- meaningful where `op` is not `unversioned`
  pub version : Text
  pub revision : Option Revision
  pub fullver : Text
  pub negate_vers : Bool
  pub blocks : Bool
  pub blocks_strongly : Bool
  pub slot : Option Text
  pub subslot : Option Text
  pub slot_operator : Option Text
  pub repo_id : Option Text
  pub use_deps : Option (List Text)

-- `category/package`
abbrev pub key : Atom → Text
key a = a.category ++ b'/' ∷ a.package_name

-- `x is not None and y is not None and x != y`
abbrev pub both_differ : Option Text → Option Text → Bool
both_differ (some s) (some t) = not (text_eq s t)
both_differ _ _ = false

abbrev pub contains : List Text → Text → Bool
contains ts s = any (text_eq s) ts

-- `set(xs) ^ set(ys)`
unfoldable pub without : List Text → List Text → List Text
without [] ys = []
without (x ∷ xs) ys = let rest = without xs ys in if contains ys x then rest else x ∷ rest

unfoldable pub symmetric_difference : List Text → List Text → List Text
unfolding without
symmetric_difference xs ys = without xs ys ++ without ys xs

-- `flag[0] == "-" and flag[1:] in flags`; a flag is never empty.
abbrev pub unset_and_set : List Text → Text → Bool
unset_and_set flags [] = false
unset_and_set flags (c ∷ flag) = c == b'-' && contains flags flag

abbrev pub flags_conflict : List Text → List Text → Bool
flags_conflict xs ys = let flags = symmetric_difference xs ys in any (unset_and_set flags) flags

-- `if self.use and other.use`
abbrev pub use_conflict : Option (List Text) → Option (List Text) → Bool
use_conflict (some (x ∷ xs)) (some (y ∷ ys)) = flags_conflict (x ∷ xs) (y ∷ ys)
use_conflict _ _ = false

abbrev pub is_lower_bound : Op → Bool
is_lower_bound at_least = true
is_lower_bound above = true
is_lower_bound _ = false

abbrev pub is_upper_bound : Op → Bool
is_upper_bound below = true
is_upper_bound at_most = true
is_upper_bound _ = false

-- `==` of revisions: None is equal to revision 0.
abbrev pub revision_eq : Option Revision → Option Revision → Bool
revision_eq none none = true
revision_eq none (some s) = s.number == 0
revision_eq (some r) none = r.number == 0
revision_eq (some r) (some s) = r.number == s.number

-- `if other.revision`
abbrev pub has_revision : Option Revision → Bool
has_revision none = false
has_revision (some r) = elim r.text [ [] ↦ false | (c ∷ s) ↦ true ]

module _ (snakeoil : Snakeoil) where
  -- `restricts.VersionMatch(a.op, a.version, a.revision).match(b)`
  unfoldable pub atom_matches : Atom → Atom → Option Bool
  unfolding make_version_match match_version
  atom_matches a b = do
    m ← make_version_match a.op a.version a.revision false
    match_version snakeoil m (some b.version) b.revision

  -- The end of `intersects`: `ranged` is a <, <=, > or >=, and `other` is none of the cases above.
  unfoldable pub ranged_intersects : Atom → Atom → Option Bool
  ranged_intersects ranged other =
      if is_upper_bound other.op || is_lower_bound other.op
      then (do b ← atom_matches other ranged; if b then atom_matches ranged other else some false)
      else elim other.op [
        | tilde ↦ (do
          b ← atom_matches ranged other
          if b
              then some true
              else if is_lower_bound ranged.op
              then atom_matches other ranged
              else some false)
        | glob ↦ (do
          b ← atom_matches ranged other
          some (
              if b
              then true
              else if is_upper_bound ranged.op
              then (if has_revision other.revision
                  then false
                  else starts_with other.version ranged.fullver)
              else starts_with other.version ranged.fullver))
        | _ ↦ none
      ]

  -- `intersects` from "Remaining thing to check is version restrictions" on.
  unfoldable pub versions_intersect : Atom → Op → Atom → Op → Option Bool
  versions_intersect a unversioned b _ = some true
  versions_intersect a _ b unversioned = some true
  versions_intersect a exactly b glob = some (starts_with b.fullver a.fullver)
  versions_intersect a exactly b _ = atom_matches b a
  versions_intersect a glob b exactly = some (starts_with a.fullver b.fullver)
  versions_intersect a _ b exactly = atom_matches a b
  versions_intersect a tilde b tilde =
      some (text_eq a.version b.version && revision_eq a.revision b.revision)
  versions_intersect a glob b glob =
      some (starts_with b.fullver a.fullver || starts_with a.fullver b.fullver)
  versions_intersect a glob b tilde = some (starts_with a.version b.fullver)
  versions_intersect a tilde b glob = some (starts_with b.version a.fullver)
  versions_intersect a tilde b _ = ranged_intersects b a
  versions_intersect a glob b _ = ranged_intersects b a
  versions_intersect a oa b ob =
      if (is_upper_bound oa && is_upper_bound ob) || (is_lower_bound oa && is_lower_bound ob)
      then some true
      else ranged_intersects a b

  unfoldable pub intersects : Atom → Atom → Option Bool
  intersects a b =
      if not (text_eq (key a) (key b))
      then some false
      else if both_differ a.slot b.slot
      then some false
      else if both_differ a.subslot b.subslot
      then some false
      else if both_differ a.repo_id b.repo_id
      then some false
      else if use_conflict a.use_deps b.use_deps
      then some false
      else versions_intersect a a.op b b.op
