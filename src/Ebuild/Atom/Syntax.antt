-- ===== src/Ebuild/Atom/Syntax.antt =====
-- What the parser of atoms in src/pkgcore/ebuild/atom.py asks and returns.
use pkgcore.Prelude.{ℕ, Bool, true, false, List, [], ◌∷◌, Option, none, some, ◌==◌, if◌then◌else◌}
use pkgcore.Prelude.Text.{Text}
use pkgcore.Ebuild.VersionMatch.{Op}

-- What a parse ends in: a value, MalformedAtom, or an exception that is not caught.
pub data Outcome {ℓ} (A : Type ℓ) : Type ℓ where
  ok : A → Outcome A
  malformed index_error unbound_local : Outcome A

infixl 5 ◌>>=◌
abbrev pub ◌>>=◌ {ℓ} : {A B : Type ℓ} → Outcome A → (A → Outcome B) → Outcome B
malformed >>= next = malformed
index_error >>= next = index_error
unbound_local >>= next = unbound_local
ok a >>= next = next a

abbrev pub or_malformed : {A : Type 0} → Option A → Outcome A
or_malformed none = malformed
or_malformed (some a) = ok a

-- The options of an EAPI that the parser asks for; `unnamed` is that no EAPI was asked for.
pub record Eapi : Type 0 where
  pub unnamed : Bool
  pub has_use_dep_defaults : Bool
  pub sub_slotting : Bool
  pub has_slot_deps : Bool
  pub strong_blockers : Bool
  pub has_use_deps : Bool
  pub is_valid_use_flag : Text → Bool

-- What `__init__` takes out of the text, before the package and its version are read.
pub record Fields : Type 0 where
  pub use_deps : Option (List Text)
  -- the class becomes `transitive_use_atom`
  pub transitive : Bool
  pub repo_id : Option Text
  pub slot : Option Text
  pub subslot : Option Text
  pub slot_operator : Option Text
  pub blocks : Bool
  pub blocks_strongly : Bool
  pub op : Op
  pub cpvstr : Text

-- What stands before the first `c` and what stands behind it.
unfoldable pub cut : ℕ → Text → Option (Text × Text)
cut c [] = none
cut c (d ∷ s) =
    let rest = cut c s in
    if d == c
    then some ([], s)
    else elim rest [ none ↦ none | some (before, behind) ↦ some (d ∷ before, behind) ]

abbrev pub is_some : {A : Type 0} → Option A → Bool
is_some none = false
is_some (some a) = true
