-- ===== src/Ebuild/Atom/UseDeps.antt =====
-- The use dependencies in `atom.__init__` of src/pkgcore/ebuild/atom.py.
use pkgcore.Prelude.{
  ◌-◌, Bool, true, false, not, ◌||◌, List, [], ◌∷◌, Option, none, some, ◌==◌, if◌then◌else◌,
  is_empty, length, drop,
}
use pkgcore.Prelude.Text.{Text, codes, text_eq, text_ltb, split}
use pkgcore.Ebuild.Conditionals.{drop_last}
use pkgcore.Ebuild.TransitiveUse.{last_char, is_conditional_char}
use pkgcore.Ebuild.Atom.Syntax.{Outcome, ok, malformed, Eapi, cut}

-- `sorted`, of texts
abbrev pub insert : Text → List Text → List Text
insert x [] = x ∷ []
insert x (y ∷ ys) = if text_ltb y x then y ∷ insert x ys else x ∷ y ∷ ys

unfoldable pub sorted : List Text → List Text
sorted [] = []
sorted (x ∷ xs) = insert x (sorted xs)

-- The flag without its operator, its negation or its minus, and whether it has an operator.
unfoldable pub not_minus : Text → Option Text
not_minus [] = none
not_minus (c ∷ s) = if c == b'-' then none else some (c ∷ s)

unfoldable pub behind_mark : Text → Option Text
unfolding not_minus
behind_mark [] = none
behind_mark (c ∷ s) = if c == b'!' then not_minus s else not_minus (c ∷ s)

unfoldable pub strip_mark : Text → Option (Bool × Text)
unfolding last_char drop_last behind_mark
strip_mark [] = none
strip_mark (c ∷ s) =
    if is_conditional_char (last_char (c ∷ s))
    then elim (behind_mark (drop_last (c ∷ s))) [ none ↦ none | some flag ↦ some (true, flag) ]
    else some (false, if c == b'-' then s else c ∷ s)

-- `s[-3:]`
abbrev pub last_three : Text → Text
last_three s = drop (length s - 3) s

-- The flag without its default.
unfoldable pub strip_default : Eapi → Text → Option Text
unfolding last_char drop_last
strip_default eapi [] = none
strip_default eapi (c ∷ s) =
    if not (last_char (c ∷ s) == b')')
    then some (c ∷ s)
    else if not eapi.has_use_dep_defaults
    then none
    else if text_eq (last_three (c ∷ s)) (codes "(+)") || text_eq (last_three (c ∷ s)) (codes "(-)")
    then some (drop_last (drop_last (drop_last (c ∷ s))))
    else some (c ∷ s)

abbrev pub checked : Eapi → Option Text → Option Bool
checked eapi none = none
checked eapi (some flag) =
    if is_empty flag || not (eapi.is_valid_use_flag flag) then none else some true

-- One round of the loop over `self.use`: `none` is MalformedAtom, else whether the flag has an
-- operator.
unfoldable pub check_flag : Eapi → Text → Option Bool
unfolding strip_mark strip_default
check_flag eapi x = elim (strip_mark x) [
  | none ↦ none
  | some (transitive, flag) ↦ elim (checked eapi (strip_default eapi flag)) [
    | none ↦ none
    | some b ↦ some transitive
  ]
]

unfoldable pub check_flags : Eapi → List Text → Option Bool
unfolding check_flag
check_flags eapi [] = some false
check_flags eapi (x ∷ xs) = elim (check_flag eapi x) [
  | none ↦ none
  | some b ↦ elim (check_flags eapi xs) [ none ↦ none | some c ↦ some (b || c) ]
]

-- The text left of the use dependencies, the sorted flags, and whether one has an operator.
unfoldable pub parse_use : Eapi → Text → Outcome (Text × Option (List Text) × Bool)
unfolding cut sorted split check_flags
parse_use eapi atom = elim (cut b'[' atom) [
  | none ↦ ok (atom, none, false)
  | some (before, behind) ↦ elim (cut b']' behind) [
    | none ↦ malformed
    | some (inside, garbage) ↦
        let uses = sorted (split b',' inside) in
        if not (is_empty garbage) then malformed else elim (check_flags eapi uses) [
          | none ↦ malformed
          | some transitive ↦ ok (before, some uses, transitive)
        ]
  ]
]
