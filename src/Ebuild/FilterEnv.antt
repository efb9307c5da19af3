-- ===== src/Ebuild/FilterEnv.antt =====
-- src/pkgcore/ebuild/filter_env.py: the scanners of a dump of a bash environment. A scanner takes
-- the position and the text from there on; `none` is that the scanner found nothing, or an
-- IndexError that the code catches.
pub mod Found
pub mod Here
use pkgcore.Prelude.{
  ℕ, zero, suc, ◌+◌, ◌-◌, Bool, true, false, not, ◌&&◌, ◌||◌, List, [], ◌∷◌, ◌++◌, Option, none,
  some, ◌>>=◌, ◌==◌, leb, if◌then◌else◌, is_empty, any, length, drop, take,
}
use pkgcore.Prelude.Text.{Text, codes, starts_with}

-- `c in s`
abbrev pub is_in : ℕ → Text → Bool
is_in c s = any (λ d. c == d) s

-- `c.isspace()`, of ASCII
abbrev pub isspace : ℕ → Bool
isspace c = c == b' ' || (leb 9 c && leb c 13) || (leb 28 c && leb c 31)

-- " \t", "\0 \t\n=\"'()" and "\0\"'()- \t\n"
abbrev pub is_blank : ℕ → Bool
is_blank c = c == b' ' || c == 9

abbrev pub ends_name : ℕ → Bool
ends_name c =
    c == 0
    || c == b' '
    || c == 9
    || c == 10
    || c == b'='
    || c == b'"'
    || c == b'\''
    || c == b'('
    || c == b')'

abbrev pub ends_variable : ℕ → Bool
ends_variable c =
    c == 0
    || c == b'"'
    || c == b'\''
    || c == b'('
    || c == b')'
    || c == b'-'
    || c == b' '
    || c == 9
    || c == 10

-- `while test(buff[pos]): pos += 1`: the position, and the text from there on, which is not empty.
unfoldable pub skip_while : (ℕ → Bool) → ℕ → Text → Option (ℕ × Text)
skip_while test pos [] = none
skip_while test pos (c ∷ s) =
    let rest = skip_while test (suc pos) s in if test c then rest else some (pos, c ∷ s)

-- `if buff[pos] != c: return None`, and `pos += 1`
abbrev pub expect : ℕ → ℕ × Text → Option (ℕ × Text)
expect c (pos, []) = none
expect c (pos, d ∷ s) = if d == c then some (suc pos, s) else none

-- The word "function" and the blank behind it.
unfoldable pub skip_function : ℕ × Text → ℕ × Text
skip_function (pos, s) =
    if starts_with (codes "function") s
    then elim (drop 8 s) [
      | [] ↦ (pos, s)
      | (c ∷ rest) ↦ if isspace c then (pos + 9, rest) else (pos, s)
    ]
    else (pos, s)

-- `is_function`: start and end of the name, and the position behind the brace.
unfoldable pub is_function : ℕ → Text → Option (ℕ × ℕ × ℕ)
unfolding skip_while skip_function
is_function pos s = do
  unblanked ← skip_while is_blank pos s
  (start, name) ← (let (p, t) = skip_function unblanked in skip_while isspace p t)
  (end, behind) ← skip_while (λ c. not (ends_name c)) start name
  if end == start then none else (do
    (p, t) ← skip_while is_blank end behind
    (q, u) ← expect b'(' (p, t)
    (v, w) ← skip_while is_blank q u
    (x, y) ← expect b')' (v, w)
    (z, brace) ← skip_while isspace x y
    (behind_brace, rest) ← expect b'{' (z, brace)
    some (start, end, behind_brace))

-- The loop of `is_envvar`, from `start` on.
unfoldable pub variable_end : ℕ → ℕ → Text → Option (ℕ × ℕ × ℕ)
variable_end start pos [] = none
variable_end start pos (c ∷ s) =
    let rest = variable_end start (suc pos) s in
    if ends_variable c
    then none
    else if c == b'='
    then (if pos == start then none else some (start, pos, suc pos))
    else rest

-- `is_envvar`: start and end of the name, and the position behind the equals sign.
unfoldable pub is_envvar : ℕ → Text → Option (ℕ × ℕ × ℕ)
unfolding skip_while variable_end
is_envvar pos s = do (start, t) ← skip_while is_blank pos s; variable_end start start t

-- `buff.find(c, pos)`
unfoldable pub find : ℕ → ℕ → Text → Option ℕ
find c pos [] = none
find c pos (d ∷ s) = let rest = find c (suc pos) s in if d == c then some pos else rest

-- `walk_statement_no_parsing`, in a text of `len` characters
unfoldable pub walk_statement_no_parsing : ℕ → ℕ → ℕ → Text → ℕ
unfolding find
walk_statement_no_parsing endchar len pos s = elim (find endchar pos s) [
  | none ↦ len - 1
  | some p ↦ p
]

-- `walk_statement_dollared_quote_parsing`
unfoldable pub walk_statement_dollared_quote_parsing : ℕ → ℕ → Text → ℕ
walk_statement_dollared_quote_parsing endchar pos [] = pos
walk_statement_dollared_quote_parsing endchar pos (c ∷ []) =
    if c == endchar then pos else if c == b'\\' then pos + 2 else suc pos
walk_statement_dollared_quote_parsing endchar pos (c ∷ d ∷ s) =
    let escaped = walk_statement_dollared_quote_parsing endchar (pos + 2) s in
    let plain = walk_statement_dollared_quote_parsing endchar (suc pos) (d ∷ s) in
    if c == endchar then pos else if c == b'\\' then escaped else plain

-- `buff.find(word, pos)`; the empty word is found at the end too.
unfoldable pub find_word : Text → ℕ → Text → Option ℕ
find_word word pos [] = if is_empty word then some pos else none
find_word word pos (c ∷ s) =
    let rest = find_word word (suc pos) s in if starts_with word (c ∷ s) then some pos else rest

-- What the search for the end of a here document comes to.
pub data Search : Type 0 where
  found : ℕ → Search
  index_error out_of_fuel : Search

-- `buff[i]`, where `i` goes back from the word over blanks, is a newline; from the text before it.
unfoldable pub behind_newline : Bool → Text → Bool
behind_newline b [] = b
behind_newline b (c ∷ s) = behind_newline (c == 10 || (b && is_blank c)) s

abbrev pub closes : ℕ → Bool
closes c = is_in c (b';' ∷ 10 ∷ 13 ∷ b'}' ∷ b')' ∷ [])

-- The search of `walk_here_statement` for the line of the word, from `pos` on, with fuel.
unfoldable pub search_here : ℕ → Text → Text → ℕ → Search
unfolding find_word behind_newline
search_here zero word buff pos = out_of_fuel
search_here (suc fuel) word buff pos = elim (find_word word pos (drop pos buff)) [
  | none ↦ found (length buff)
  | some p ↦
      let rest = search_here fuel word buff (p + length word) in
      elim (drop (p + length word) buff) [
        | [] ↦ index_error
        | (c ∷ s) ↦
            if closes c && behind_newline false (take p buff) then found (p + length word) else rest
      ]
]
