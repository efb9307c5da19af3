-- ===== src/Ebuild/Version/Render.antt =====
-- The text of a version, and how `ver_cmp` takes it apart again.
use pkgcore.Prelude.{
  ℕ, ◌≡◌, refl, ap, ◌∙◌, Bool, true, false, not, ◌||◌, List, [], ◌∷◌, ◌++◌, map, Option, none, some,
  arith, ◌==◌, all, all-append, and_left, and_right, append-nil, ◌>>=◌,
}
use pkgcore.Prelude.Int.{pos, negsuc}
use pkgcore.Prelude.Text.{Text, is_alpha, is_digit, all_digits, isdigit, split, join}
use pkgcore.Prelude.Text.Laws.{lacks, split-join, all-join, all_digits-lacks}
use pkgcore.Ebuild.Version.{
  Suffix, alpha, beta, rc, pre, p, suffix_name, digits_to_end, strip_prefix, suffix_named,
  suffix_match, split_last, strip_letter,
}
use pkgcore.Ebuild.Version.Key.{Version, letter_value, components}

abbrev pub letter_text : Option ℕ → Text
letter_text none = []
letter_text (some l) = l ∷ []

-- The letter hangs on the last component.
pub lettered : Text → List Text → Text → List Text
lettered v [] l = (v ++ l) ∷ []
lettered v (w ∷ ws) l = v ∷ lettered w ws l

abbrev pub suffix_text : Suffix × Text → Text
suffix_text (name, digits) = suffix_name name ++ digits

unfoldable pub base_text : Version → Text
unfolding lettered
base_text v = join b'.' (lettered v.first v.more (letter_text v.letter))

-- Components between dots, the letter, and each suffix behind an underscore.
unfoldable pub render : Version → Text
unfolding base_text
render v = join b'_' (base_text v ∷ map suffix_text v.suffixes)

-- What `isvalid_version_re` asks of the parts.
abbrev pub letter_ok : Option ℕ → Bool
letter_ok none = true
letter_ok (some l) = is_alpha l

abbrev pub suffix_ok : Suffix × Text → Bool
suffix_ok (name, digits) = all_digits digits

pub record IsWellFormed (v : Version) : Type 0 where
  pub numbers : all isdigit (components v) ≡ true
  pub letter : letter_ok v.letter ≡ true
  pub suffixes : all suffix_ok v.suffixes ≡ true

-- A character of a component: a digit or a letter.
abbrev alnum : ℕ → Bool
alnum c = is_alpha c || is_digit c

all_digits-alnum : (s : Text) → all_digits s ≡ true → all alnum s ≡ true
all_digits-alnum [] h = refl
all_digits-alnum (c ∷ s) h = ground (arith, all_digits-alnum s)

isdigit-all_digits : (s : Text) → isdigit s ≡ true → all_digits s ≡ true
isdigit-all_digits [] h = cc
isdigit-all_digits (c ∷ s) h = h

lettered-alnum :
    (v : Text) (ws : List Text) (l : Option ℕ)
    → all isdigit (v ∷ ws) ≡ true
    → letter_ok l ≡ true
    → all (all alnum) (lettered v ws (letter_text l)) ≡ true
unfolding lettered
lettered-alnum v [] none h k =
    rw (append-nil v) (rw (all_digits-alnum v (isdigit-all_digits v (and_left _ _ h))))
lettered-alnum v [] (some l) h k =
    rw (all-append alnum v (l ∷ []))
      (rw (all_digits-alnum v (isdigit-all_digits v (and_left _ _ h)), k))
lettered-alnum v (w ∷ ws) l h k = rw (
  all_digits-alnum v (isdigit-all_digits v (and_left _ _ h)),
  lettered-alnum w ws l (and_right (isdigit v) _ h) k,
)

alnum-lacks : (sep : ℕ) (s : Text) → alnum sep ≡ false → all alnum s ≡ true → lacks sep s ≡ true
alnum-lacks sep [] n h = refl
alnum-lacks sep (c ∷ s) n h = ground (arith, alnum-lacks sep s)

digits_to_end-all_digits : (s : Text) → all_digits s ≡ true → digits_to_end s ≡ some s
unfolding digits_to_end
digits_to_end-all_digits [] h = refl
digits_to_end-all_digits (c ∷ s) h = ground (arith, digits_to_end-all_digits s)

pre_refused :
    (c : ℕ) (s : Text) → all_digits (c ∷ s) ≡ true → suffix_named pre (b'p' ∷ c ∷ s) ≡ none
unfolding suffix_named strip_prefix
pre_refused c s h = ground arith

-- A rendered suffix is read back.
pub suffix_match-suffix_text :
    (x : Suffix × Text) → suffix_ok x ≡ true → suffix_match (suffix_text x) ≡ some x
unfolding suffix_match strip_prefix
suffix_match-suffix_text (alpha, s) h = rw (digits_to_end-all_digits s h)
suffix_match-suffix_text (beta, s) h = rw (digits_to_end-all_digits s h)
suffix_match-suffix_text (rc, s) h = rw (digits_to_end-all_digits s h)
suffix_match-suffix_text (pre, s) h = rw (digits_to_end-all_digits s h)
suffix_match-suffix_text (p, []) h = refl
suffix_match-suffix_text (p, c ∷ s) h =
    rw (pre_refused c s h)
      (ap (λ o. o >>= λ digits. some (p, digits)) (digits_to_end-all_digits (c ∷ s) h))

split_last-digits : (s : Text) → isdigit s ≡ true → split_last s ≡ some (s, negsuc 0)
unfolding split_last
split_last-digits [] h = cc
split_last-digits (c ∷ []) h = ground arith
split_last-digits (c ∷ d ∷ s) h = ground (arith, split_last-digits (d ∷ s))

split_last-snoc :
    (s : Text) (l : ℕ) → is_alpha l ≡ true → split_last (s ++ l ∷ []) ≡ some (s, pos l)
unfolding split_last
split_last-snoc [] l h = ground arith
split_last-snoc (c ∷ []) l h = ground arith
split_last-snoc (c ∷ d ∷ s) l h = ground (arith, split_last-snoc (d ∷ s) l)

strip_letter-lettered :
    (v : Text) (ws : List Text) (l : Option ℕ)
    → all isdigit (v ∷ ws) ≡ true
    → letter_ok l ≡ true
    → strip_letter (lettered v ws (letter_text l)) ≡ some (v ∷ ws, letter_value l)
unfolding strip_letter lettered
strip_letter-lettered v [] none h k = rw (append-nil v, split_last-digits v (and_left _ _ h))
strip_letter-lettered v [] (some l) h k = rw (split_last-snoc v l k)
strip_letter-lettered v (w ∷ []) l h k =
    rw (strip_letter-lettered w [] l (and_right (isdigit v) _ h) k)
strip_letter-lettered v (w ∷ x ∷ ws) l h k =
    rw (strip_letter-lettered w (x ∷ ws) l (and_right (isdigit v) _ h) k)

suffix_name-lacks : (name : Suffix) → lacks b'_' (suffix_name name) ≡ true
suffix_name-lacks alpha = refl
suffix_name-lacks beta = refl
suffix_name-lacks rc = refl
suffix_name-lacks pre = refl
suffix_name-lacks p = refl

suffix_text-lacks :
    (xs : List (Suffix × Text))
    → all suffix_ok xs ≡ true
    → all (lacks b'_') (map suffix_text xs) ≡ true
suffix_text-lacks [] h = refl
suffix_text-lacks ((name, s) ∷ xs) h = rw (
  all-append (λ c. not (c == b'_')) (suffix_name name) s,
  suffix_name-lacks name,
  all_digits-lacks b'_' s refl (and_left (all_digits s) _ h),
  suffix_text-lacks xs (and_right (all_digits s) _ h),
)

parts-lack :
    (sep : ℕ) (ps : List Text)
    → alnum sep ≡ false
    → all (all alnum) ps ≡ true
    → all (lacks sep) ps ≡ true
parts-lack sep [] n h = refl
parts-lack sep (q ∷ ps) n h = rw (
  alnum-lacks sep q n (and_left (all alnum q) _ h),
  parts-lack sep ps n (and_right (all alnum q) _ h),
)

split-lettered :
    (sep : ℕ) (v : Text) (ws : List Text) (l : Text)
    → all (lacks sep) (lettered v ws l) ≡ true
    → split sep (join sep (lettered v ws l)) ≡ lettered v ws l
unfolding lettered
split-lettered sep v [] l h = split-join sep (v ++ l) [] h
split-lettered sep v (w ∷ ws) l h = split-join sep v (lettered w ws l) h

module _ (v : Version) (ok : IsWellFormed v) where
  abbrev parts : List Text
  parts = lettered v.first v.more (letter_text v.letter)

  parts-alnum : all (all alnum) parts ≡ true
  parts-alnum = lettered-alnum v.first v.more v.letter ok.numbers ok.letter

  -- `ver.split("_")` gives the base and the suffixes.
  pub split-render : split b'_' (render v) ≡ base_text v ∷ map suffix_text v.suffixes
  unfolding render base_text
  split-render = split-join b'_' (base_text v) (map suffix_text v.suffixes) (
      rw (
        all-join b'.' (λ c. not (c == b'_')) parts refl (parts-lack b'_' parts refl parts-alnum),
        suffix_text-lacks v.suffixes ok.suffixes,
      ))

  -- Splitting the base at the dots gives the components and the letter.
  pub strip_letter-base_text :
      strip_letter (split b'.' (base_text v)) ≡ some (components v, letter_value v.letter)
  unfolding base_text
  strip_letter-base_text =
      ap strip_letter
        (split-lettered b'.' v.first v.more _ (parts-lack b'.' parts refl parts-alnum))
      ∙ strip_letter-lettered v.first v.more v.letter ok.numbers ok.letter
