-- ===== src/Ebuild/Atom/Parse/Defaults.antt =====
-- Use dependency defaults, as of x(+), in the parsed use dependencies of
-- src/pkgcore/ebuild/atom.py.
use pkgcore.Prelude.{
  ℕ, Bool, true, false, not, ◌||◌, ◌&&◌, ◌≡◌, refl, List, [], ◌∷◌, Option, none, some, ◌==◌,
  if◌then◌else◌, is_empty, any, arith, and_left, and_right, Bool-cases, inl, inr,
}
use pkgcore.Prelude.Text.{Text}
use pkgcore.Ebuild.Conditionals.{drop_last}
use pkgcore.Ebuild.TransitiveUse.{last_char, is_conditional_char}
use pkgcore.Ebuild.Atom.Syntax.{Eapi, is_some}
use pkgcore.Ebuild.Atom.UseDeps.{
  not_minus, behind_mark, strip_mark, strip_default, checked, check_flag, check_flags,
}

-- The use dependency without its operator, if it has one.
abbrev pub without_operator : Text → Text
without_operator x = if is_conditional_char (last_char x) then drop_last x else x

-- A use dependency that ends in a parenthesis, in front of its operator.
unfoldable pub ends_in_default : Text → Bool
unfolding last_char drop_last
ends_in_default x = last_char (without_operator x) == b')'

unfoldable pub defaults_allowed : Eapi → Option (List Text) → Bool
unfolding ends_in_default
defaults_allowed eapi none = true
defaults_allowed eapi (some uses) = eapi.has_use_dep_defaults || not (any ends_in_default uses)

abbrev closes : Text → Bool
closes s = last_char s == b')'

-- What is left, if it is not empty, still ends in a parenthesis where b says that it did.
abbrev keeps : Bool → Option Text → Bool
keeps b none = true
keeps b (some t) = is_empty t || (not b || closes t)

abbrev keeps_flag : Bool → Option (Bool × Text) → Bool
keeps_flag b none = true
keeps_flag b (some (transitive, t)) = is_empty t || (not b || closes t)

not_minus_lem : (s : Text) → keeps (closes s) (not_minus s) ≡ true
unfolding not_minus
not_minus_lem [] = refl
not_minus_lem (c ∷ s) = ground arith

behind_mark_lem : (s : Text) → keeps (closes s) (behind_mark s) ≡ true
unfolding behind_mark last_char
behind_mark_lem [] = refl
behind_mark_lem (c ∷ []) = ground (arith, not_minus_lem [], not_minus_lem (c ∷ []))
behind_mark_lem (c ∷ d ∷ s) = ground (arith, not_minus_lem (d ∷ s), not_minus_lem (c ∷ d ∷ s))

marked :
    (b : Bool) (o : Option Text)
    → keeps b o ≡ true
    → keeps_flag b (elim o [ none ↦ none | some flag ↦ some (true, flag) ]) ≡ true
marked b none h = refl
marked b (some t) h = h

plain_mark :
    (d : ℕ) (t : Text)
    → keeps_flag (closes (d ∷ t)) (some (false, if d == b'-' then t else d ∷ t)) ≡ true
unfolding last_char
plain_mark d [] = ground arith
plain_mark d (e ∷ t) = ground arith

strip_mark_lem : (x : Text) → keeps_flag (closes (without_operator x)) (strip_mark x) ≡ true
unfolding strip_mark
strip_mark_lem [] = refl
strip_mark_lem (c ∷ s) = elim (Bool-cases (is_conditional_char (last_char (c ∷ s)))) [
  | inl e ↦ rw e (
      marked (closes (drop_last (c ∷ s))) (behind_mark (drop_last (c ∷ s)))
        (behind_mark_lem (drop_last (c ∷ s))))
  | inr e ↦ rw e (plain_mark c s)
]

checked_lem :
    (eapi : Eapi) (flag : Text)
    → is_some (checked eapi (strip_default eapi flag)) ≡ true
    → (not (is_empty flag) && (eapi.has_use_dep_defaults || not (closes flag))) ≡ true
unfolding strip_default
checked_lem eapi [] h = cc
checked_lem eapi (c ∷ s) h = elim (Bool-cases (closes (c ∷ s))) [
  | inr e ↦ ground (arith, e)
  | inl e ↦ elim (Bool-cases eapi.has_use_dep_defaults) [
    | inl k ↦ ground (arith, k)
    | inr k ↦ ground (arith, e, k, h)
  ]
]

left_some :
    (o : Option Bool) (transitive : Bool)
    → is_some (elim o [ none ↦ none | some c ↦ some transitive ]) ≡ true
    → is_some o ≡ true
left_some none transitive h = h
left_some (some c) transitive h = refl

read_flag :
    (eapi : Eapi) (b : Bool) (o : Option (Bool × Text))
    → keeps_flag b o ≡ true
    → is_some (elim o [
      | none ↦ none
      | some (transitive, flag) ↦ elim (checked eapi (strip_default eapi flag)) [
        | none ↦ none
        | some c ↦ some transitive
      ]
    ])
      ≡ true
    → (eapi.has_use_dep_defaults || not b) ≡ true
read_flag eapi b none h k = cc
read_flag eapi b (some (transitive, flag)) h k = ground (
  arith,
  h,
  checked_lem eapi flag (left_some (checked eapi (strip_default eapi flag)) transitive k),
)

-- A use dependency that passes the checks ends in a default only where the EAPI has defaults.
check_flag_lem :
    (eapi : Eapi) (x : Text)
    → is_some (check_flag eapi x) ≡ true
    → (eapi.has_use_dep_defaults || not (ends_in_default x)) ≡ true
unfolding check_flag ends_in_default
check_flag_lem eapi x h =
    read_flag eapi (closes (without_operator x)) (strip_mark x) (strip_mark_lem x) h

all_or_none :
    (has a b : Bool) → (has || not a) ≡ true → (has || not b) ≡ true → (has || not (a || b)) ≡ true
all_or_none has a b h k = ground arith

both_some :
    (o m : Option Bool)
    → is_some (elim o [ none ↦ none | some b ↦ elim m [ none ↦ none | some c ↦ some (b || c) ] ])
      ≡ true
    → (is_some o && is_some m) ≡ true
both_some none m h = h
both_some (some b) none h = h
both_some (some b) (some c) h = refl

pub check_flags-defaults_allowed :
    (eapi : Eapi) (uses : List Text)
    → is_some (check_flags eapi uses) ≡ true
    → defaults_allowed eapi (some uses) ≡ true
unfolding check_flags defaults_allowed
check_flags-defaults_allowed eapi [] h = ground arith
check_flags-defaults_allowed eapi (x ∷ xs) h =
    let each = both_some (check_flag eapi x) (check_flags eapi xs) h in
    all_or_none eapi.has_use_dep_defaults (ends_in_default x) (any ends_in_default xs)
      (check_flag_lem eapi x (and_left _ _ each))
      (check_flags-defaults_allowed eapi xs (and_right _ _ each))
