-- ===== src/Ebuild/Version/Key.antt =====
-- The order of versions by keys: an independent description of what `ver_cmp` decides.
use pkgcore.Prelude.{
  ℕ, ◌≡◌, ◌≢◌, refl, List, [], ◌∷◌, Option, none, some, arith, ◌==◌, if◌then◌else◌, ltb,
}
use pkgcore.Prelude.Int.{ℤ, pos, negsuc, ltb_ℤ}
use pkgcore.Prelude.Text.{Text, rstrip, digits_value}
use pkgcore.Ebuild.Cmp.{Sign, less, equal, greater, three_way, flip}
use pkgcore.Ebuild.Cmp.Laws.{
  IsTotalPreorder, number-IsTotalPreorder, int-IsTotalPreorder, text_compare, text-IsTotalPreorder,
  both, both-IsTotalPreorder, list_compare, IsEnd, less-IsEnd, list-IsTotalPreorder,
  on-IsTotalPreorder,
}
use pkgcore.Ebuild.Version.{Revision, Suffix, alpha, beta, rc, pre, p, suffix_value}

-- The parts of a version: numbers between dots, a letter, and suffixes with their digits.
pub record Version : Type 0 where
  pub first : Text
  pub more : List Text
  pub letter : Option ℕ
  pub suffixes : List (Suffix × Text)

-- A component that begins with a zero is the digits of a fraction.
pub data ComponentKey : Type 0 where
  fraction : Text → ComponentKey
  whole : ℕ → ComponentKey

unfoldable pub component_key : Text → ComponentKey
component_key [] = whole 0
component_key (c ∷ s) =
    if c == b'0' then fraction (rstrip b'0' (c ∷ s)) else whole (digits_value 0 (c ∷ s))

-- Every fraction is below every whole number.
unfoldable pub key_compare : ComponentKey → ComponentKey → Sign
key_compare (fraction s) (fraction t) = text_compare s t
key_compare (fraction s) (whole n) = less
key_compare (whole m) (fraction t) = greater
key_compare (whole m) (whole n) = three_way ltb m n

pub key-IsTotalPreorder : IsTotalPreorder key_compare
unfolding key_compare
key-IsTotalPreorder = record { converse = converse; congruent = congruent; transitive = transitive }
  where
    converse : (a b : ComponentKey) → key_compare b a ≡ flip (key_compare a b)
    converse (fraction s) (fraction t) = text-IsTotalPreorder.converse s t
    converse (whole m) (whole n) = number-IsTotalPreorder.converse m n
    converse (fraction s) (whole n) = refl
    converse (whole m) (fraction t) = refl

    congruent : (a b c : ComponentKey) → key_compare a b ≡ equal → key_compare a c ≡ key_compare b c
    congruent (fraction s) (fraction t) (fraction u) h = text-IsTotalPreorder.congruent s t u h
    congruent (fraction s) (fraction t) (whole n) h = refl
    congruent (fraction s) (whole n) c h = cc
    congruent (whole m) (fraction t) c h = cc
    congruent (whole m) (whole n) (whole k) h = number-IsTotalPreorder.congruent m n k h
    congruent (whole m) (whole n) (fraction u) h = refl

    transitive :
        (a b c : ComponentKey)
        → key_compare a b ≡ less
        → key_compare b c ≡ less
        → key_compare a c ≡ less
    transitive (fraction s) (fraction t) (fraction u) h k =
        text-IsTotalPreorder.transitive s t u h k
    transitive (fraction s) b (whole n) h k = refl
    transitive (fraction s) (whole m) (fraction t) h k = cc
    transitive (whole m) (fraction t) c h k = cc
    transitive (whole m) (whole n) (fraction t) h k = cc
    transitive (whole m) (whole n) (whole i) h k = number-IsTotalPreorder.transitive m n i h k

unfoldable pub parts_compare : List Text → List Text → Sign
parts_compare = list_compare (λ v. less) (λ v w. key_compare (component_key v) (component_key w))

parts-IsTotalPreorder : IsTotalPreorder parts_compare
unfolding parts_compare
parts-IsTotalPreorder =
    list-IsTotalPreorder (less-IsEnd _) (on-IsTotalPreorder component_key key-IsTotalPreorder)

-- No letter sorts below every letter.
abbrev pub letter_value : Option ℕ → ℤ
letter_value none = negsuc 0
letter_value (some l) = pos l

abbrev pub suffix_number : Suffix × Text → ℕ
suffix_number (name, digits) = digits_value 0 (b'0' ∷ digits)

abbrev pub name_value : Suffix × Text → ℤ
name_value (name, digits) = suffix_value name

unfoldable pub suffix_compare : Suffix × Text → Suffix × Text → Sign
suffix_compare =
    both (λ x y. three_way ltb_ℤ (name_value x) (name_value y))
      (λ x y. three_way ltb (suffix_number x) (suffix_number y))

-- The end of the suffixes counts as a suffix of the value 0, which none has.
abbrev pub end_of_suffixes : Suffix × Text → Sign
end_of_suffixes x = three_way ltb_ℤ (pos 0) (name_value x)

value-ne-zero : (name : Suffix) → three_way ltb_ℤ (pos 0) (suffix_value name) ≢ equal
value-ne-zero alpha h = cc
value-ne-zero beta h = cc
value-ne-zero rc h = cc
value-ne-zero pre h = cc
value-ne-zero p h = cc

suffix-IsEnd : IsEnd end_of_suffixes suffix_compare
unfolding suffix_compare
suffix-IsEnd = record {
  apart = λ (name, _) h. value-ne-zero name h;
  congruent = λ (x, _) (y, _) h. ground arith;
  upward = λ (x, _) (y, _) h k. ground arith;
  downward = λ (x, _) (y, _) h k. ground arith;
  across = λ (x, _) (y, _) h k. ground arith;
}

pub suffix-IsTotalPreorder : IsTotalPreorder suffix_compare
unfolding suffix_compare
suffix-IsTotalPreorder =
    both-IsTotalPreorder (on-IsTotalPreorder name_value int-IsTotalPreorder)
      (on-IsTotalPreorder suffix_number number-IsTotalPreorder)

unfoldable pub suffixes_compare : List (Suffix × Text) → List (Suffix × Text) → Sign
suffixes_compare = list_compare end_of_suffixes suffix_compare

abbrev pub components : Version → List Text
components v = v.first ∷ v.more

-- Components and letter.
unfoldable pub base_compare : Version → Version → Sign
base_compare =
    both (λ v w. parts_compare (components v) (components w))
      (λ v w. three_way ltb_ℤ (letter_value v.letter) (letter_value w.letter))

pub base-IsTotalPreorder : IsTotalPreorder base_compare
unfolding base_compare
base-IsTotalPreorder =
    both-IsTotalPreorder (on-IsTotalPreorder components parts-IsTotalPreorder)
      (on-IsTotalPreorder (λ v. letter_value v.letter) int-IsTotalPreorder)

pub suffixes-IsTotalPreorder : IsTotalPreorder suffixes_compare
unfolding suffixes_compare
suffixes-IsTotalPreorder = list-IsTotalPreorder suffix-IsEnd suffix-IsTotalPreorder

-- Components, letter, suffixes: the first difference decides.
unfoldable pub version_compare : Version → Version → Sign
version_compare = both base_compare (λ v w. suffixes_compare v.suffixes w.suffixes)

pub version-IsTotalPreorder : IsTotalPreorder version_compare
unfolding version_compare
version-IsTotalPreorder =
    both-IsTotalPreorder base-IsTotalPreorder
      (on-IsTotalPreorder (λ v. v.suffixes) suffixes-IsTotalPreorder)

-- A version with its revision, which decides last.
abbrev pub Stamped : Type 0
Stamped = Version × Option Revision

abbrev pub revision_number : Option Revision → ℕ
revision_number none = 0
revision_number (some r) = r.number

unfoldable pub stamped_compare : Stamped → Stamped → Sign
stamped_compare =
    both (λ a b. version_compare a.0 b.0)
      (λ a b. three_way ltb (revision_number a.1) (revision_number b.1))

pub stamped-IsTotalPreorder : IsTotalPreorder stamped_compare
unfolding stamped_compare
stamped-IsTotalPreorder =
    both-IsTotalPreorder (on-IsTotalPreorder (λ a. a.0) version-IsTotalPreorder)
      (on-IsTotalPreorder (λ a. revision_number a.1) number-IsTotalPreorder)
