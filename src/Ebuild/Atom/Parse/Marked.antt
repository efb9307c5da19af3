-- ===== src/Ebuild/Atom/Parse/Marked.antt =====
-- Blockers, operator and version that `__str__` wrote, read back.
use pkgcore.Prelude.{
  ℕ, Bool, true, false, not, ◌&&◌, ◌||◌, ◌≡◌, refl, ◌∙◌, [], ◌∷◌, ◌++◌, ◌==◌, if◌then◌else◌,
  is_empty, all, all-append, arith, Bool-cases, inl, inr, and_left,
}
use pkgcore.Prelude.Text.{Text, is_alpha, is_digit}
use pkgcore.Prelude.Text.Laws.{lacks}
use pkgcore.Ebuild.VersionMatch.{
  Op, unversioned, below, at_most, exactly, at_least, above, tilde, glob,
}
use pkgcore.Ebuild.Conditionals.Printed.{drop_last-append}
use pkgcore.Ebuild.TransitiveUse.{last_char}
use pkgcore.Ebuild.TransitiveUse.Parts.{last_char-append}
use pkgcore.Ebuild.Atom.Syntax.{ok, Eapi}
use pkgcore.Ebuild.Atom.Parse.{parse_blocks, parse_op}
use pkgcore.Ebuild.Atom.Print.{str_version}
use pkgcore.Ebuild.Atom.Parse.Pieces.{last_char-all}
use pkgcore.Ebuild.Atom.Parse.SlotText.{all_implied}

-- The characters of packages and versions.
abbrev is_cpv_char : ℕ → Bool
is_cpv_char c =
    is_alpha c || is_digit c || c == b'_' || c == b'+' || c == b'-' || c == b'.' || c == b'/'

abbrev pub is_cpvstr : Text → Bool
is_cpvstr s = not (is_empty s) && all is_cpv_char s

-- The text begins, and not with an exclamation mark.
abbrev Head : Text → Type 0
Head t = (d : ℕ) × (u : Text) × (t ≡ d ∷ u) × ((d == b'!') ≡ false)

abbrev pub is_atom_char : ℕ → Bool
is_atom_char c =
    is_cpv_char c || (c == b'!' || c == b'<' || c == b'>' || c == b'=' || c == b'~' || c == b'*')

module _ (c : ℕ) (s : Text) (chars : all is_cpv_char (c ∷ s) ≡ true) where
  first_char : is_cpv_char c ≡ true
  first_char = and_left (is_cpv_char c) _ chars

  char_differs : (d : ℕ) → is_cpv_char d ≡ false → (c == d) ≡ false
  char_differs d n =
      let h = first_char in elim (Bool-cases (c == d)) [ inl e ↦ ground arith | inr e ↦ e ]

  no_star : (last_char (c ∷ s) == b'*') ≡ false
  no_star =
      let h = last_char-all is_cpv_char c s chars in
      elim (Bool-cases (last_char (c ∷ s) == b'*')) [ inl e ↦ ground arith | inr e ↦ e ]

  unmarked : (t : Text) → parse_op (c ∷ t) ≡ ok (unversioned, c ∷ t)
  unfolding parse_op
  unmarked [] =
      rw (char_differs b'<' refl) (
        rw (char_differs b'>' refl)
          (rw (char_differs b'=' refl) (rw (char_differs b'~' refl) refl)))
  unmarked (d ∷ t) =
      rw (char_differs b'<' refl) (
        rw (char_differs b'>' refl)
          (rw (char_differs b'=' refl) (rw (char_differs b'~' refl) refl)))

  pub parse_op-text : (op : Op) → parse_op (str_version op (c ∷ s)) ≡ ok (op, c ∷ s)
  unfolding parse_op
  parse_op-text below = rw (char_differs b'=' refl) refl
  parse_op-text at_most = refl
  parse_op-text exactly = rw no_star refl
  parse_op-text at_least = refl
  parse_op-text above = rw (char_differs b'=' refl) refl
  parse_op-text tilde = refl
  parse_op-text glob = rw (last_char-append (c ∷ s) b'*') (rw (drop_last-append (c ∷ s) b'*') refl)
  parse_op-text unversioned = unmarked s

  pub str_version-Head : (op : Op) → Head (str_version op (c ∷ s))
  str_version-Head unversioned = (c, s, refl, char_differs b'!' refl)
  str_version-Head below = (_, _, refl, refl)
  str_version-Head at_most = (_, _, refl, refl)
  str_version-Head exactly = (_, _, refl, refl)
  str_version-Head at_least = (_, _, refl, refl)
  str_version-Head above = (_, _, refl, refl)
  str_version-Head tilde = (_, _, refl, refl)
  str_version-Head glob = (_, _, refl, refl)

  atom_chars : all is_atom_char (c ∷ s) ≡ true
  atom_chars = all_implied is_cpv_char is_atom_char (c ∷ s) (λ d h. ground (arith, h)) chars

  pub str_version-chars : (op : Op) → all is_atom_char (str_version op (c ∷ s)) ≡ true
  str_version-chars unversioned = atom_chars
  str_version-chars below = atom_chars
  str_version-chars at_most = atom_chars
  str_version-chars exactly = atom_chars
  str_version-chars at_least = atom_chars
  str_version-chars above = atom_chars
  str_version-chars tilde = atom_chars
  str_version-chars glob = all-append is_atom_char (c ∷ s) (b'*' ∷ []) ∙ rw atom_chars refl

parse_blocks-plain :
    (eapi : Eapi) (d : ℕ) (u : Text)
    → (d == b'!') ≡ false
    → parse_blocks eapi (d ∷ u) ≡ ok (false, false, d ∷ u)
unfolding parse_blocks
parse_blocks-plain eapi d [] h = rw h refl
parse_blocks-plain eapi d (e ∷ u) h = rw h refl

-- What `str_blocks` writes of the blockers.
abbrev pub marked : Bool → Bool → Text → Text
marked blocks strongly t = if blocks then (if strongly then b'!' ∷ b'!' ∷ t else b'!' ∷ t) else t

abbrev pub blocks_ok : Eapi → Bool → Bool → Bool
blocks_ok eapi blocks strongly = not strongly || (blocks && eapi.strong_blockers)

pub parse_blocks-marked :
    (eapi : Eapi) (blocks strongly : Bool) (t : Text)
    → Head t
    → blocks_ok eapi blocks strongly ≡ true
    → parse_blocks eapi (marked blocks strongly t) ≡ ok (blocks, strongly, t)
unfolding parse_blocks
parse_blocks-marked eapi true true t h k = rw k refl
parse_blocks-marked eapi true false t (d, u, e, n) k = rw e (rw n refl)
parse_blocks-marked eapi false true t h k = cc
parse_blocks-marked eapi false false t (d, u, e, n) k = rw e (parse_blocks-plain eapi d u n)

pub marked-chars :
    (blocks strongly : Bool) (t : Text)
    → all is_atom_char t ≡ true
    → all is_atom_char (marked blocks strongly t) ≡ true
marked-chars true true t h = h
marked-chars true false t h = h
marked-chars false strongly t h = h

pub marked-begun :
    (blocks strongly : Bool) (t : Text)
    → Head t
    → (u : Text) → is_empty (marked blocks strongly t ++ u) ≡ false
marked-begun true true t h u = refl
marked-begun true false t h u = refl
marked-begun false strongly t (d, v, e, n) u = rw e refl

pub atom_chars-lack :
    (d : ℕ) (t : Text) → is_atom_char d ≡ false → all is_atom_char t ≡ true → lacks d t ≡ true
atom_chars-lack d t n h =
    all_implied is_atom_char (λ c. not (c == d)) t
      (λ c k. elim (Bool-cases (c == d)) [ inl e ↦ ground arith | inr e ↦ ground arith ]) h
