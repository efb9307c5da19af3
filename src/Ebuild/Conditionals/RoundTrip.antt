-- ===== src/Ebuild/Conditionals/RoundTrip.antt =====
-- The text of a dependency set, split into its words and parsed.
use pkgcore.Prelude.{
  Bool, true, false, not, ◌&&◌, ◌≡◌, refl, ◌∙◌, [], ◌∷◌, ◌++◌, Option, none, some, leb,
  if◌then◌else◌, all, is_empty, arith, all-append, and_left, and_right,
}
use pkgcore.Prelude.Text.{Text}
use pkgcore.Ebuild.Conditionals.{
  all_of, any_of, just_one_of, at_most_one_of, Node, element, conditional, group, Nodes, nil, cons,
  is_blank, visited, visited_all,
}
use pkgcore.Ebuild.Conditionals.Printed.{
  is_plain, is_flag, is_printable, all_printable, count_nodes,
}

-- A word that splitting at blanks leaves whole.
abbrev is_word : Text → Bool
is_word w = not (is_empty w) && all (λ c. not (is_blank c)) w

question_word : (s : Text) → all (λ c. not (is_blank c)) s ≡ true → is_word (s ++ b'?' ∷ []) ≡ true
question_word [] h = refl
question_word (c ∷ s) h = ground (arith, all-append (λ d. not (is_blank d)) s (b'?' ∷ []))

module _ {E : Type 0} (func : Node E → Text) (make : Text → Option Text → Option E)
    (make_func : (e : E) → make (func (element e)) none ≡ some e)
    (plain_func : (e : E) → is_plain (func (element e)) ≡ true) where
  element_word : (e : E) → is_word (func (element e)) ≡ true
  unfolding is_plain
  element_word e = let p = plain_func e in ground arith

  flag_word :
      (negate : Bool) (flag : Text)
      → is_flag flag ≡ true
      → is_word ((if negate then b'!' ∷ flag else flag) ++ b'?' ∷ []) ≡ true
  unfolding is_flag
  flag_word negate [] h = cc
  flag_word true (c ∷ s) h = question_word (b'!' ∷ c ∷ s) (and_right _ _ h)
  flag_word false (c ∷ s) h = question_word (c ∷ s) (and_right _ _ h)

  mutual
    unfolding visited is_printable

    visited_words : (n : Node E) → is_printable n ≡ true → all is_word (visited func n) ≡ true
    visited_words (element e) h = ground (arith, element_word e)
    visited_words (conditional negate flag ns) h = ground (
      arith,
      flag_word negate flag (and_left _ _ h),
      visited_all_words ns (
          and_right (leb 1 (count_nodes ns)) _
            (and_right (is_flag flag) (leb 1 (count_nodes ns) && all_printable ns) h)),
    )
    visited_words (group all_of ns) h = visited_all_words ns (and_right _ _ h)
    visited_words (group any_of ns) h = visited_all_words ns (and_right _ _ h)
    visited_words (group just_one_of ns) h = cc
    visited_words (group at_most_one_of ns) h = cc

    visited_all_words :
        (ns : Nodes E) → all_printable ns ≡ true → all is_word (visited_all func ns) ≡ true
    visited_all_words nil h = refl
    visited_all_words (cons n ns) h =
        all-append is_word (visited func n) (visited_all func ns)
        ∙ cc (
          visited_words n (and_left (is_printable n) (all_printable ns) h),
          visited_all_words ns (and_right (is_printable n) (all_printable ns) h),
        )
