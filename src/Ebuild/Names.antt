-- ===== src/Ebuild/Names.antt =====
-- The checks of categories, package names, versions and revisions in src/pkgcore/ebuild/cpv.py.
-- Texts are ASCII.
use pkgcore.Prelude.{
  ℕ, Bool, true, false, not, ◌&&◌, ◌||◌, List, [], ◌∷◌, Option, none, some, ◌>>=◌, ◌==◌,
  if◌then◌else◌, any, all, is_empty,
}
use pkgcore.Prelude.Text.{Text, is_digit, is_alpha, all_digits, isdigit, split}
use pkgcore.Ebuild.Version.{alpha, beta, rc, pre, p, suffix_name, strip_prefix}

-- `$` also matches before a final newline.
unfoldable pub chomp : Text → Text
chomp [] = []
chomp (c ∷ s) = let rest = chomp s in if is_empty s && c == 10 then [] else c ∷ rest

abbrev pub is_word : ℕ → Bool
is_word c = is_alpha c || is_digit c || c == b'_'

-- `(?:\d+)(?:\.\d+)*[a-zA-Z]?`, from its start or after a digit
unfoldable mutual
  pub base_start : Text → Bool
  base_start [] = false
  base_start (c ∷ s) = is_digit c && base_rest s

  pub base_rest : Text → Bool
  base_rest [] = true
  base_rest (c ∷ s) =
      let rest = base_rest s in
      let start = base_start s in
      if is_digit c then rest else if c == b'.' then start else is_alpha c && is_empty s

-- `p(?:re)?|beta|alpha|rc` and `\d*`, to the end
abbrev pub ends_in_digits : Option Text → Bool
ends_in_digits none = false
ends_in_digits (some s) = all_digits s

unfoldable pub suffix_part : Text → Bool
unfolding strip_prefix
suffix_part s =
    any (λ name. ends_in_digits (strip_prefix (suffix_name name) s))
      (p ∷ pre ∷ beta ∷ alpha ∷ rc ∷ [])

unfoldable pub version_parts : List Text → Bool
unfolding base_start suffix_part
version_parts [] = false
version_parts (base ∷ suffixes) = base_start base && all suffix_part suffixes

-- `isvalid_version_re.match(s)`; an underscore stands before each suffix and nowhere else.
unfoldable pub isvalid_version : Text → Bool
unfolding chomp split version_parts
isvalid_version s = version_parts (split b'_' (chomp s))

abbrev pub cat_start : Text → Bool
cat_start [] = false
cat_start (c ∷ s) = is_word c && all (λ d. is_word d || d == b'+' || d == b'.' || d == b'-') s

-- `isvalid_cat_re.match(s)`
unfoldable pub isvalid_cat : Text → Bool
unfolding chomp
isvalid_cat s = cat_start (chomp s)

-- `_pkg_re.match(s)`
unfoldable pub pkg_match : Text → Bool
unfolding chomp
pkg_match s = not (is_empty (chomp s)) && all (λ c. is_word c || c == b'+') (chomp s)

unfoldable pub isvalid_rev : Text → Bool
isvalid_rev [] = false
isvalid_rev (c ∷ s) = c == b'r' && isdigit s

-- `chunks[-1]` and what stands before it, as of `chunks.pop(-1)`
unfoldable pub pop : List Text → Option (List Text × Text)
pop [] = none
pop (c ∷ []) = some ([], c)
pop (c ∷ d ∷ cs) = do (before, last) ← pop (d ∷ cs); some (c ∷ before, last)

-- The checks of `isvalid_pkg_name` on the last chunk, and on the one before it.
unfoldable pub before_last_ok : Option (List Text × Text) → Bool
unfolding isvalid_version
before_last_ok none = true
before_last_ok (some (before, s)) = not (isvalid_version s)

unfoldable pub last_ok : Option (List Text × Text) → Bool
unfolding isvalid_version isvalid_rev pop before_last_ok
last_ok none = true
last_ok (some ([], s)) = true
last_ok (some (c ∷ [], s)) = not (isvalid_version s)
last_ok (some (c ∷ d ∷ before, s)) =
    if isvalid_version s
    then false
    else if isvalid_rev s
    then before_last_ok (pop (c ∷ d ∷ before))
    else true

abbrev pub first_ok : List Text → Bool
first_ok [] = false
first_ok ([] ∷ chunks) = false
first_ok ((c ∷ s) ∷ chunks) = not (c == b'+')

unfoldable pub isvalid_pkg_name : List Text → Bool
unfolding pkg_match pop last_ok
isvalid_pkg_name chunks =
    first_ok chunks && (all (λ s. is_empty s || pkg_match s) chunks && last_ok (pop chunks))
