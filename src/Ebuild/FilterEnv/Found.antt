-- ===== src/Ebuild/FilterEnv/Found.antt =====
-- What the scanners find, and where.
use pkgcore.Prelude.{
  ℕ, suc, ◌+◌, ◌≤◌, Bool, true, false, not, ◌&&◌, ◌≡◌, ◌≢◌, ◌⊎◌, refl, ap, sym, ◌∙◌, [], ◌∷◌, ◌++◌,
  Option, none, some, >>=-eq-some, ◌==◌, ==_iff, if◌then◌else◌, is_empty, length, length-append,
  all, arith, Bool-cases, inl, inr,
}
use pkgcore.Prelude.Text.{Text}
use pkgcore.Ebuild.FilterEnv.{
  is_blank, ends_variable, skip_while, variable_end, is_envvar,
  walk_statement_dollared_quote_parsing,
}

-- The text up to the position passes the test.
record Skipped (test : ℕ → Bool) (pos : ℕ) (s : Text) (p : ℕ) (t : Text) : Type 0 where
  front : Text
  text : s ≡ front ++ t
  tested : all test front ≡ true
  moved : p ≡ pos + length front

skip_while-Skipped :
    (test : ℕ → Bool) (pos : ℕ) (s : Text) (p : ℕ) (t : Text)
    → skip_while test pos s ≡ some (p, t)
    → Skipped test pos s p t
unfolding skip_while
skip_while-Skipped test pos [] p t h = cc
skip_while-Skipped test pos (c ∷ s) p t h = elim (Bool-cases (test c)) [
  | inl e ↦
      let r =
        skip_while-Skipped test (suc pos) s p t
          (ap (λ b. if b then skip_while test (suc pos) s else some (pos, c ∷ s)) (sym e) ∙ h) in
      let m = r.moved in
      record {
        front = c ∷ r.front;
        text = ap (λ u. c ∷ u) r.text;
        tested = rw e r.tested;
        moved = omega (arith, m);
      }
  | inr e ↦
      let k = ap (λ b. if b then skip_while test (suc pos) s else some (pos, c ∷ s)) (sym e) ∙ h in
      let same : pos ≡ p = cc k in
      record { front = []; text = cc k; tested = refl; moved = omega (arith, same) }
]

-- A name without the characters that end a variable, and an equals sign behind it.
abbrev pub is_name_char : ℕ → Bool
is_name_char c = not (ends_variable c) && not (c == b'=')

record Ended (start pos : ℕ) (s : Text) (found : ℕ × ℕ × ℕ) : Type 0 where
  name : Text
  rest : Text
  text : s ≡ name ++ b'=' ∷ rest
  plain : all is_name_char name ≡ true
  begun : found.0 ≡ start
  ended : found.1 ≡ pos + length name
  behind : found.2 ≡ suc found.1
  moved : found.1 ≢ start

-- Which way the loop of `is_envvar` went.
chosen :
    (ends equals empty : Bool) (here found : ℕ × ℕ × ℕ) (rest : Option (ℕ × ℕ × ℕ))
    → (if ends then none else if equals then (if empty then none else some here) else rest)
      ≡ some found
    → (ends ≡ false)
      × (((equals ≡ true) × (empty ≡ false) × (here ≡ found))
          ⊎ ((equals ≡ false) × (rest ≡ some found)))
chosen true equals empty here found rest h = cc
chosen false true true here found rest h = cc
chosen false true false here found rest h = (refl, inl (refl, refl, cc h))
chosen false false empty here found rest h = (refl, inr (refl, h))

variable_end-Ended :
    (start pos : ℕ) (s : Text) (found : ℕ × ℕ × ℕ)
    → variable_end start pos s ≡ some found
    → Ended start pos s found
unfolding variable_end
variable_end-Ended start pos [] found h = cc
variable_end-Ended start pos (c ∷ s) found h =
    let (plain, way) =
      chosen (ends_variable c) (c == b'=') (pos == start) (start, pos, suc pos) found
        (variable_end start (suc pos) s) h in
    elim way [
      | inl (equals, moved, e) ↦
          let at : pos ≡ found.1 = ap (λ f. f.1) e in
          let after : suc pos ≡ found.2 = ap (λ f. f.2) e in
          record {
            name = [];
            rest = s;
            text = ap (λ d. d ∷ s) ((==_iff c b'=').0 equals);
            plain = refl;
            begun = ap (λ f. f.0) (sym e);
            ended = omega (arith, at);
            behind = omega (arith, at, after);
            moved = λ k. let same = (==_iff pos start).1 (at ∙ k) in cc (same, moved);
          }
      | inr (other, k) ↦
          let r = variable_end-Ended start (suc pos) s found k in
          let m = r.ended in
          record {
            name = c ∷ r.name;
            rest = r.rest;
            text = ap (λ u. c ∷ u) r.text;
            plain = ground (arith, plain, other, r.plain);
            begun = r.begun;
            ended = omega (arith, m);
            behind = r.behind;
            moved = r.moved;
          }
    ]

-- Where an assignment stands: behind blanks, a name that is not empty, and an equals sign.
pub record Assignment (pos : ℕ) (s : Text) (found : ℕ × ℕ × ℕ) : Type 0 where
  pub blanks : Text
  pub name : Text
  pub rest : Text
  pub text : s ≡ blanks ++ (name ++ b'=' ∷ rest)
  pub blank : all is_blank blanks ≡ true
  pub plain : all is_name_char name ≡ true
  pub named : is_empty name ≡ false
  pub start : found.0 ≡ pos + length blanks
  pub end : found.1 ≡ found.0 + length name
  pub behind : found.2 ≡ suc found.1
  pub within : found.2 ≤ pos + length s

assignment_length :
    (blanks name rest : Text)
    → length (blanks ++ (name ++ b'=' ∷ rest)) ≡ length blanks + (length name + suc (length rest))
assignment_length blanks name rest =
    length-append blanks (name ++ b'=' ∷ rest)
    ∙ ap (λ n. length blanks + n) (length-append name (b'=' ∷ rest))

not_moved :
    (start e : ℕ) (name : Text) → e ≡ start + length name → e ≢ start → is_empty name ≡ false
not_moved start e [] h k = ground (arith, h, k)
not_moved start e (c ∷ name) h k = refl

-- What `is_envvar` finds is an assignment that stands in the text: from `start` to `end` is its
-- name, which is not empty and has no character that ends a variable, before it are blanks, and
-- behind it is the equals sign; the position that it returns is within the text.
pub is_envvar_lem :
    (pos : ℕ) (s : Text) (found : ℕ × ℕ × ℕ) → is_envvar pos s ≡ some found → Assignment pos s found
unfolding is_envvar
is_envvar_lem pos s found h =
    let ((start, t), k, g) = >>=-eq-some (skip_while is_blank pos s) _ h in
    let a = skip_while-Skipped is_blank pos s start t k in
    let b = variable_end-Ended start start t found g in
    let ab = b.begun in
    let ae = b.ended in
    let am = a.moved in
    let behind = b.behind in
    let whole = assignment_length a.front b.name b.rest in
    let size = ap length (a.text ∙ ap (λ u. a.front ++ u) b.text) in
    record {
      blanks = a.front;
      name = b.name;
      rest = b.rest;
      text = a.text ∙ ap (λ u. a.front ++ u) b.text;
      blank = a.tested;
      plain = b.plain;
      named = not_moved start found.1 b.name ae b.moved;
      start = ab ∙ am;
      end = omega (arith, ab, ae);
      behind = behind;
      within = omega (arith, ab, ae, am, behind, whole, size);
    }

abbrev pub Between : ℕ → ℕ → ℕ → Type 0
Between low high n = (low ≤ n) × (n ≤ high)

Between-if :
    (low high x y z : ℕ) (a b : Bool)
    → Between low high x
    → Between low high y
    → Between low high z
    → Between low high (if a then x else if b then y else z)
Between-if low high x y z true b h k l = h
Between-if low high x y z false true h k l = k
Between-if low high x y z false false h k l = l

-- Behind a dollared quote the scanner stops at the end mark, or at the end of the text: it never
-- goes back, and past the end only by one, where a backslash is the last character.
walk_statement_dollared_quote_parsing_lem :
    (endchar pos : ℕ) (s : Text)
    → Between pos (suc (pos + length s)) (walk_statement_dollared_quote_parsing endchar pos s)
unfolding walk_statement_dollared_quote_parsing
walk_statement_dollared_quote_parsing_lem endchar pos [] = (omega arith, omega arith)
walk_statement_dollared_quote_parsing_lem endchar pos (c ∷ []) =
    Between-if pos _ pos (pos + 2) (suc pos) (c == endchar) (c == b'\\') (omega arith, omega arith)
      (omega arith, omega arith) (omega arith, omega arith)
walk_statement_dollared_quote_parsing_lem endchar pos (c ∷ d ∷ s) =
    let (a, b) = walk_statement_dollared_quote_parsing_lem endchar (pos + 2) s in
    let (e, f) = walk_statement_dollared_quote_parsing_lem endchar (suc pos) (d ∷ s) in
    Between-if pos _ pos _ _ (c == endchar) (c == b'\\') (omega arith, omega arith)
      (omega (arith, a), omega (arith, b)) (omega (arith, e), omega (arith, f))
