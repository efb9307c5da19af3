-- ===== src/Ebuild/Version.antt =====
-- `ver_cmp` of src/pkgcore/ebuild/cpv.py, on texts. `none` is an exception: an index out of range,
-- `int` of a text that is no number, or a regular expression that does not match.
pub mod Key
pub mod Render
pub mod Steps
pub mod Order
use pkgcore.Prelude.{
  ℕ, ◌-◌, Bool, true, false, not, ◌&&◌, ◌||◌, List, [], ◌∷◌, ◌++◌, Option, none, some, ◌>>=◌, ◌==◌,
  ltb, if◌then◌else◌, length,
}
use pkgcore.Prelude.Int.{ℤ, pos, negsuc, ltb_ℤ}
use pkgcore.Prelude.Text.{
  Text, codes, text_eq, text_ltb, is_alpha, all_digits, is_digit, split, rstrip, int, digits_value,
  starts_with,
}
use pkgcore.Ebuild.Cmp.{Sign, less, equal, greater, Snakeoil, then_by}

-- `class Revision`: the text, and the number that it is compared by.
pub record Revision : Type 0 where
  pub text : Text
  pub number : ℕ

-- Revision(text); `none` is InvalidCPV. The callers pass digits or nothing.
unfoldable pub make_revision : Text → Option Revision
unfolding int digits_value
make_revision [] = some (record { text = []; number = 0 })
make_revision (c ∷ s) = do n ← int (c ∷ s); some (record { text = c ∷ s; number = n })

-- `not rev`, of a Revision or None
abbrev pub no_revision : Option Revision → Bool
no_revision none = true
no_revision (some r) = elim r.text [ [] ↦ true | (c ∷ s) ↦ false ]

-- `<` of revisions: None sorts below every other value.
abbrev pub revision_ltb : Option Revision → Option Revision → Bool
revision_ltb none none = false
revision_ltb none (some r) = true
revision_ltb (some r) none = false
revision_ltb (some r) (some s) = ltb r.number s.number

pub data Suffix : Type 0 where
  alpha beta rc pre p : Suffix

abbrev pub suffix_value : Suffix → ℤ
suffix_value pre = negsuc 1
suffix_value p = pos 1
suffix_value alpha = negsuc 3
suffix_value beta = negsuc 2
suffix_value rc = negsuc 0

abbrev pub suffix_name : Suffix → Text
suffix_name alpha = codes "alpha"
suffix_name beta = codes "beta"
suffix_name rc = codes "rc"
suffix_name pre = codes "pre"
suffix_name p = codes "p"

-- `(\d*)$`: the digits up to the end, or up to a final newline.
unfoldable pub digits_to_end : Text → Option Text
digits_to_end [] = some []
digits_to_end (c ∷ s) =
    let more = (do r ← digits_to_end s; some (c ∷ r)) in
    if is_digit c then more else elim s [ [] ↦ if c == 10 then some [] else none | _ ↦ none ]

-- The rest of a text behind a prefix.
unfoldable pub strip_prefix : Text → Text → Option Text
strip_prefix [] s = some s
strip_prefix (c ∷ q) [] = none
strip_prefix (c ∷ q) (d ∷ s) = if c == d then strip_prefix q s else none

-- One alternative of `suffix_regexp`.
unfoldable pub suffix_named : Suffix → Text → Option (Suffix × Text)
unfolding digits_to_end strip_prefix
suffix_named name s = do
  rest ← strip_prefix (suffix_name name) s
  digits ← digits_to_end rest
  some (name, digits)

abbrev pub or_else {ℓ} : {A : Type ℓ} → Option A → Option A → Option A
or_else (some a) o = some a
or_else none o = o

-- `suffix_regexp.match`: the groups of `^(alpha|beta|rc|pre|p)(\d*)$`
unfoldable pub suffix_match : Text → Option (Suffix × Text)
unfolding suffix_named
suffix_match s = or_else (suffix_named alpha s) (
    or_else (suffix_named beta s)
      (or_else (suffix_named rc s) (or_else (suffix_named pre s) (suffix_named p s))))

-- `if ver_parts[-1][-1].isalpha()`: the components without the letter, and the letter or -1.
unfoldable pub split_last : Text → Option (Text × ℤ)
split_last [] = none
split_last (c ∷ []) = some (if is_alpha c then ([], pos c) else (c ∷ [], negsuc 0))
split_last (c ∷ d ∷ s) = do (t, l) ← split_last (d ∷ s); some (c ∷ t, l)

unfoldable pub strip_letter : List Text → Option (List Text × ℤ)
unfolding split_last
strip_letter [] = none
strip_letter (v ∷ []) = do (t, l) ← split_last v; some (t ∷ [], l)
strip_letter (v ∷ w ∷ vs) = do (ts, l) ← strip_letter (w ∷ vs); some (v ∷ ts, l)

-- `ver.split("_")` as `parts[0]` and the suffixes behind it
abbrev pub head_of : List Text → Text
head_of [] = []
head_of (t ∷ ts) = t

abbrev pub tail_of : List Text → List Text
tail_of [] = []
tail_of (t ∷ ts) = ts

-- `if c: return c`, where the code behind it may raise.
abbrev pub return_if : Sign → Option Sign → Option Sign
return_if less rest = some less
return_if equal rest = rest
return_if greater rest = some greater

module _ (snakeoil : Snakeoil) where
  open snakeoil use {cmp}

  -- The trailing zeros do not count where a component begins with a zero.
  unfoldable pub compare_fractions : Text → Text → Sign
  unfolding rstrip
  compare_fractions v1 v2 = cmp text_ltb (rstrip b'0' v1) (rstrip b'0' v2)

  -- One round of the loop over the components.
  unfoldable pub compare_components : Text → Text → Option Sign
  unfolding int digits_value compare_fractions
  compare_components [] [] = some equal
  compare_components [] (d ∷ t) = none
  compare_components (c ∷ s) v2 =
      if text_eq (c ∷ s) v2
      then some equal
      else if c == b'0'
      then some (compare_fractions (c ∷ s) v2)
      else elim v2 [
        | [] ↦ none
        | (d ∷ t) ↦
            if d == b'0'
            then some (compare_fractions (c ∷ s) (d ∷ t))
            else do m ← int (c ∷ s); n ← int (d ∷ t); some (cmp ltb m n)
      ]

  -- `for v1, v2 in zip(ver_parts1, ver_parts2)`, and the comparison of the lengths behind it.
  unfoldable pub compare_parts : List Text → List Text → Option Sign
  unfolding compare_components
  compare_parts [] [] = some equal
  compare_parts [] (w ∷ ws) = some less
  compare_parts (v ∷ vs) [] = some greater
  compare_parts (v ∷ vs) (w ∷ ws) =
      let rest = compare_parts vs ws in do c ← compare_components v w; return_if c rest

  -- `parts1[0]` and `parts2[0]`, which differ: components, then the letters.
  unfoldable pub compare_dotted : Text → Text → Option Sign
  unfolding split strip_letter compare_parts
  compare_dotted base1 base2 = do
    (ver_parts1, letter1) ← strip_letter (split b'.' base1)
    (ver_parts2, letter2) ← strip_letter (split b'.' base2)
    c ← compare_parts ver_parts1 ver_parts2
    return_if c (some (cmp ltb_ℤ letter1 letter2))

  -- What is behind the end of the shorter list of suffixes; `val` is never 0.
  unfoldable pub suffix_after_end : Text → Option Sign
  unfolding suffix_match int digits_value
  suffix_after_end y = do
    (name, digits) ← suffix_match y
    if ltb_ℤ (pos 0) (suffix_value name) || ltb_ℤ (suffix_value name) (pos 0)
        then some (cmp ltb_ℤ (pos 0) (suffix_value name))
        else (do n ← int (b'0' ∷ digits); some (cmp ltb 0 n))

  unfoldable pub suffix_before_end : Text → Option Sign
  unfolding suffix_match int digits_value
  suffix_before_end x = do
    (name, digits) ← suffix_match x
    if ltb_ℤ (pos 0) (suffix_value name) || ltb_ℤ (suffix_value name) (pos 0)
        then some (cmp ltb_ℤ (suffix_value name) (pos 0))
        else (do n ← int (b'0' ∷ digits); some (cmp ltb n 0))

  unfoldable pub compare_suffix : Text → Text → Option Sign
  unfolding suffix_match int digits_value
  compare_suffix x y = if text_eq x y then some equal else do
    (name1, digits1) ← suffix_match x
    (name2, digits2) ← suffix_match y
    n1 ← int (b'0' ∷ digits1)
    n2 ← int (b'0' ∷ digits2)
    return_if (cmp ltb_ℤ (suffix_value name1) (suffix_value name2)) (some (cmp ltb n1 n2))

  -- The loop over the suffixes.
  unfoldable pub compare_suffixes : List Text → List Text → Option Sign
  unfolding suffix_after_end suffix_before_end compare_suffix
  compare_suffixes [] [] = some equal
  compare_suffixes [] (y ∷ ys) = suffix_after_end y
  compare_suffixes (x ∷ xs) [] = suffix_before_end x
  compare_suffixes (x ∷ xs) (y ∷ ys) =
      let rest = compare_suffixes xs ys in do c ← compare_suffix x y; return_if c rest

  unfoldable pub ver_cmp : Text → Option Revision → Text → Option Revision → Option Sign
  unfolding split compare_dotted compare_suffixes
  ver_cmp ver1 rev1 ver2 rev2 =
      let parts1 = split b'_' ver1 in
      let parts2 = split b'_' ver2 in
      let detailed = (do
        c ←
            if text_eq (head_of parts1) (head_of parts2)
            then some equal
            else compare_dotted (head_of parts1) (head_of parts2)
        d ← return_if c (compare_suffixes (tail_of parts1) (tail_of parts2))
        return_if d (some (cmp revision_ltb rev1 rev2))) in
      if text_eq ver1 ver2
      then (if no_revision rev1 && no_revision rev2
          then some equal
          else some (cmp revision_ltb rev1 rev2))
      else detailed
