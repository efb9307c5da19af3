-- ===== src/Ebuild/Atom/SlotDeps.antt =====
-- The slot and the repository in `atom.__init__` of src/pkgcore/ebuild/atom.py.
use pkgcore.Prelude.{
  ℕ, Bool, false, not, ◌&&◌, ◌||◌, [], ◌∷◌, Option, none, some, ◌==◌, if◌then◌else◌, is_empty, all,
}
use pkgcore.Prelude.Text.{Text, codes, is_alpha, is_digit}
use pkgcore.Ebuild.Conditionals.{drop_last}
use pkgcore.Ebuild.TransitiveUse.{last_char}
use pkgcore.Ebuild.Atom.Syntax.{Outcome, ok, malformed, ◌>>=◌, Eapi, cut}

abbrev pub is_repo_char : ℕ → Bool
is_repo_char c = is_alpha c || is_digit c || c == b'_' || c == b'-'

abbrev pub is_slot_char : ℕ → Bool
is_slot_char c = is_alpha c || is_digit c || c == b'.' || c == b'+' || c == b'_' || c == b'-'

unfoldable pub repo_ok : Text → Bool
repo_ok [] = false
repo_ok (c ∷ s) = not (c == b'-') && all is_repo_char (c ∷ s)

-- One round of `for chunk in slots`
unfoldable pub chunk_ok : Text → Bool
chunk_ok [] = false
chunk_ok (c ∷ s) = not (c == b'-' || c == b'.') && all is_slot_char (c ∷ s)

pub record Slot : Type 0 where
  pub operator : Option Text
  pub slot : Option Text
  pub subslot : Option Text

abbrev pub make_slot : Option Text → Option (Text × Text) → Text → Outcome Slot
make_slot operator none slot =
    if chunk_ok slot
    then ok (record { operator = operator; slot = some slot; subslot = none })
    else malformed
make_slot operator (some (slot, subslot)) _ =
    if chunk_ok slot && chunk_ok subslot
    then ok (record { operator = operator; slot = some slot; subslot = some subslot })
    else malformed

-- The slot dependency behind a colon.
unfoldable pub parse_slot : Eapi → Text → Outcome Slot
unfolding cut last_char drop_last chunk_ok
parse_slot eapi [] = malformed
parse_slot eapi (c ∷ s) =
    if eapi.sub_slotting
    then (if c == b'*' || c == b'='
        then (if is_empty s
            then ok (record { operator = some (c ∷ s); slot = none; subslot = none })
            else malformed)
        else if last_char (c ∷ s) == b'='
        then make_slot (some (codes "=")) (cut b'/' (drop_last (c ∷ s))) (drop_last (c ∷ s))
        else make_slot none (cut b'/' (c ∷ s)) (c ∷ s))
    else if not eapi.has_slot_deps
    then malformed
    else make_slot none none (c ∷ s)

-- `atom[:slot_start]` and `atom[slot_start + 1:]`; without use dependencies, `use_start` is -1 and
-- the search leaves the last character out.
unfoldable pub cut_slot : Bool → Text → Option (Text × Text)
cut_slot has_use [] = none
cut_slot has_use (c ∷ s) =
    let rest = cut_slot has_use s in
    if c == b':' && (has_use || not (is_empty s))
    then some ([], s)
    else elim rest [ none ↦ none | some (before, behind) ↦ some (c ∷ before, behind) ]

-- What stands before the first "::" and what stands behind it.
unfoldable pub cut_repo : Text → Option (Text × Text)
cut_repo [] = none
cut_repo (c ∷ []) = none
cut_repo (c ∷ d ∷ s) =
    let rest = cut_repo (d ∷ s) in
    if c == b':' && d == b':'
    then some ([], s)
    else elim rest [ none ↦ none | some (before, behind) ↦ some (c ∷ before, behind) ]

abbrev pub no_slot : Slot
no_slot = record { operator = none; slot = none; subslot = none }

-- What stands behind the colon of the slot, where a repository follows it: the cut text begins with
-- that colon, unless the repository's begin there.
unfoldable pub anchored_slot : Eapi → Text → Outcome Slot
unfolding parse_slot
anchored_slot eapi [] = ok no_slot
anchored_slot eapi (c ∷ []) = ok no_slot
anchored_slot eapi (c ∷ d ∷ slot) = parse_slot eapi (d ∷ slot)

-- The text left of the slot and the repository, and these.
unfoldable pub parse_anchor : Eapi → Bool → Text → Outcome (Text × Option Text × Slot)
unfolding cut_slot cut_repo parse_slot anchored_slot repo_ok
parse_anchor eapi has_use atom = elim (cut_slot has_use atom) [
  | none ↦ ok (atom, none, no_slot)
  | some (before, behind) ↦ elim (cut_repo (b':' ∷ behind)) [
    | none ↦ (do slot ← parse_slot eapi behind; ok (before, none, slot))
    | some (anchor, repo_id) ↦
        if repo_ok repo_id
        then (do slot ← anchored_slot eapi anchor; ok (before, some repo_id, slot))
        else malformed
  ]
]
