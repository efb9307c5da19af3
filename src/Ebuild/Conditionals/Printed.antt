-- ===== src/Ebuild/Conditionals/Printed.antt =====
-- `DepSet.parse` reads back what `stringify_boolean` has written.
use pkgcore.Prelude.{
  ℕ, suc, Bool, true, false, not, ◌&&◌, ◌||◌, ◌≡◌, refl, ap, sym, ◌∙◌, List, [], ◌∷◌, ◌++◌, Option,
  none, some, ◌>>=◌, ◌==◌, leb, if◌then◌else◌, any, all, is_empty, arith, Bool-cases, inl, inr,
  append_assoc, append-nil, and_left, and_right,
}
use pkgcore.Prelude.Text.{Text, codes, text_eq}
use pkgcore.Prelude.Text.Laws.{text_eq_sound}
use pkgcore.Ebuild.Conditionals.{
  Class, all_of, any_of, just_one_of, at_most_one_of, Node, element, conditional, group, Nodes, nil,
  cons, nodes_of, is_blank, default_operators, ends_in_question, drop_last, no_word, open_after,
  State, conditional_of, closed, is_none, close_frame, append_element, parse_word, next_word,
  parse_words, visited, visited_all,
}

-- A word that stands for an element.
unfoldable pub is_plain : Text → Bool
is_plain k =
    not (is_empty k)
    && (all (λ c. not (is_blank c)) k
        && (not (text_eq k (codes ")"))
            && (not (text_eq k (codes "("))
                && (not (ends_in_question k)
                    && (is_none (default_operators k) && not (any (λ c. c == b'|') k))))))

-- A flag that is not empty, has no blanks and does not begin with an exclamation mark.
unfoldable pub is_flag : Text → Bool
is_flag [] = false
is_flag (c ∷ s) = not (c == b'!') && all (λ d. not (is_blank d)) (c ∷ s)

abbrev pub count_nodes : {E : Type 0} → Nodes E → ℕ
count_nodes nil = 0
count_nodes (cons n ns) = suc (count_nodes ns)

-- The trees that the syntax has a form for: groups of at least two nodes, conditionals of one.
unfoldable mutual
  pub is_printable : {E : Type 0} → Node E → Bool
  is_printable (element e) = true
  is_printable (conditional negate flag payload) =
      is_flag flag && (leb 1 (count_nodes payload) && all_printable payload)
  is_printable (group all_of nodes) = leb 2 (count_nodes nodes) && all_printable nodes
  is_printable (group any_of nodes) = leb 2 (count_nodes nodes) && all_printable nodes
  is_printable (group cls nodes) = false

  pub all_printable : {E : Type 0} → Nodes E → Bool
  all_printable nil = true
  all_printable (cons n ns) = is_printable n && all_printable ns

-- A conditional stands in the tree.
unfoldable mutual
  pub has_conditional : {E : Type 0} → Node E → Bool
  has_conditional (element e) = false
  has_conditional (conditional negate flag payload) = true
  has_conditional (group cls nodes) = any_conditional nodes

  pub any_conditional : {E : Type 0} → Nodes E → Bool
  any_conditional nil = false
  any_conditional (cons n ns) = has_conditional n || any_conditional ns

ends_in_question-append : (s : Text) → ends_in_question (s ++ b'?' ∷ []) ≡ true
unfolding ends_in_question
ends_in_question-append [] = refl
ends_in_question-append (c ∷ []) = refl
ends_in_question-append (c ∷ d ∷ s) = ends_in_question-append (d ∷ s)

pub drop_last-append : (s : Text) (c : ℕ) → drop_last (s ++ c ∷ []) ≡ s
unfolding drop_last
drop_last-append [] c = refl
drop_last-append (d ∷ []) c = refl
drop_last-append (d ∷ e ∷ s) c = ap (λ t. d ∷ t) (drop_last-append (e ∷ s) c)

not_question : (s t : Text) → ends_in_question t ≡ false → text_eq (s ++ b'?' ∷ []) t ≡ false
not_question s t h = elim (Bool-cases (text_eq (s ++ b'?' ∷ []) t)) [
  | inl e ↦
      (let same = sym (ends_in_question-append s) ∙ ap ends_in_question (text_eq_sound _ t e) ∙ h in
        cc same)
  | inr e ↦ e
]

unfoldable pub list_of : {E : Type 0} → Nodes E → List (Node E)
list_of nil = []
list_of (cons n ns) = n ∷ list_of ns

pub nodes_of-list_of : {E : Type 0} (ns : Nodes E) → nodes_of (list_of ns) ≡ ns
unfolding list_of
nodes_of-list_of nil = refl
nodes_of-list_of (cons n ns) = ap (cons n) (nodes_of-list_of ns)

pub or_false : (b : Bool) → (b || false) ≡ b
or_false true = refl
or_false false = refl

pub not-true : (b : Bool) → not b ≡ true → b ≡ false
not-true true h = cc
not-true false h = refl

pub pair_eq : {A B : Type 0} {x y : A} {u v : B} → x ≡ y → u ≡ v → Path (A × B) (x, u) (y, v)
pair_eq p q = cc

or_true : (b : Bool) → (b || true) ≡ true
or_true true = refl
or_true false = refl

pub or_assoc : (a b c : Bool) → ((a || b) || c) ≡ (a || (b || c))
or_assoc true b c = refl
or_assoc false b c = refl

is_empty-snoc : (s : Text) (c : ℕ) → is_empty (s ++ c ∷ []) ≡ false
is_empty-snoc [] c = refl
is_empty-snoc (d ∷ s) c = refl

-- A word that ends in a question mark is no operator.
question_operator : (s : Text) → default_operators (s ++ b'?' ∷ []) ≡ none
unfolding default_operators ends_in_question
question_operator s = rw (not_question s (codes "||") refl, is_empty-snoc s b'?')

module _ {E : Type 0} (func : Node E → Text) (make : Text → Option Text → Option E)
    (make_func : (e : E) → make (func (element e)) none ≡ some e)
    (plain_func : (e : E) → is_plain (func (element e)) ≡ true) where
  -- The state between words.
  abbrev pub state_at : List (Node E) → List (List (Node E)) → List Text → Bool → State E
  state_at f b r c = record {
    frame = f;
    below = b;
    raw_conditionals = r;
    node_conds = c;
    pending = no_word;
  }

  parse_element :
      (e : E) (f : List (Node E)) (b : List (List (Node E))) (r : List Text) (c : Bool)
      → parse_word default_operators false make (state_at f b r c) (func (element e))
        ≡ some (state_at (f ++ element e ∷ []) b r c)
  unfolding parse_word append_element is_plain
  parse_element e f b r c = let p = plain_func e in ground (arith, make_func e, p)

  parse_flag :
      (k : Text) (f : List (Node E)) (b : List (List (Node E))) (r : List Text) (c : Bool)
      → parse_word default_operators false make (state_at f b r c) (k ++ b'?' ∷ [])
        ≡ some (record (state_at f b r c) { pending = open_after (k ++ b'?' ∷ []) })
  unfolding parse_word
  parse_flag k f b r c =
      rw (
        not_question k (codes ")") refl,
        not_question k (codes "(") refl,
        ends_in_question-append k,
      )

  abbrev pub run : State E → List Text → Option (State E)
  run = parse_words default_operators false make

  abbrev run_after : List Text → Option (State E) → Option (State E)
  run_after rest o = o >>= λ t. run t rest

  -- The end of a group, and of a conditional.
  close_group :
      (cls : Class) (k : Text) (ns : Nodes E) (f : List (Node E)) (b : List (List (Node E)))
      (r : List Text) (c : Bool)
      → default_operators k ≡ some cls
      → leb 2 (count_nodes ns) ≡ true
      → close_frame default_operators false make (state_at (list_of ns) (f ∷ b) (k ∷ r) c)
        ≡ some (state_at (f ++ group cls ns ∷ []) b r c)
  unfolding close_frame closed list_of
  close_group cls k nil f b r c e h = cc
  close_group cls k (cons n nil) f b r c e h = cc
  close_group cls k (cons n (cons m ns)) f b r c e h = rw (e, nodes_of-list_of ns, or_false c)

  close_conditional :
      (negate : Bool) (flag : Text) (ns : Nodes E) (f : List (Node E)) (b : List (List (Node E)))
      (r : List Text) (c : Bool)
      → is_flag flag ≡ true
      → leb 1 (count_nodes ns) ≡ true
      → close_frame default_operators false make (
          state_at
            (list_of ns)
            (f ∷ b)
            (((if negate then b'!' ∷ flag else flag) ++ b'?' ∷ []) ∷ r)
            c)
        ≡ some (state_at (f ++ conditional negate flag ns ∷ []) b r true)
  unfolding close_frame closed conditional_of list_of is_flag
  close_conditional negate flag nil f b r c e h = cc
  close_conditional false [] (cons n ns) f b r c e h = cc
  close_conditional true flag (cons n ns) f b r c e h =
      rw (
        question_operator (b'!' ∷ flag),
        drop_last-append flag b'?',
        nodes_of-list_of ns,
        or_true c,
      )
  close_conditional false (d ∷ flag) (cons n ns) f b r c e h = rw (
    question_operator (d ∷ flag),
    not-true (d == b'!') (and_left _ _ e),
    drop_last-append (d ∷ flag) b'?',
    nodes_of-list_of ns,
    or_true c,
  )

  mutual
    unfolding visited default_operators parse_words next_word is_printable has_conditional list_of

    pub visit :
        (n : Node E) (f : List (Node E)) (b : List (List (Node E))) (r : List Text) (c : Bool)
        (rest : List Text)
        → is_printable n ≡ true
        → run (state_at f b r c) (visited func n ++ rest)
          ≡ run (state_at (f ++ n ∷ []) b r (c || has_conditional n)) rest
    visit (element e) f b r c rest h =
        ap (run_after rest) (parse_element e f b r c)
        ∙ ap (λ d. run (state_at (f ++ element e ∷ []) b r d) rest) (sym (or_false c))
    visit (conditional negate flag ns) f b r c rest h =
        ap
          (λ o. o >>= λ t. next_word default_operators false make t.pending t (codes "(") >>= λ u.
            run u (visited_all func ns ++ rest))
          (parse_flag (if negate then b'!' ∷ flag else flag) f b r c)
        ∙ visit_all ns [] (f ∷ b) (((if negate then b'!' ∷ flag else flag) ++ b'?' ∷ []) ∷ r) c rest
            (and_right _ _ (and_right (is_flag flag) _ h))
        ∙ ap (run_after rest) (
            close_conditional negate flag ns f b r (c || any_conditional ns) (and_left _ _ h)
              (and_left _ _ (and_right (is_flag flag) _ h)))
        ∙ ap (λ d. run (state_at (f ++ conditional negate flag ns ∷ []) b r d) rest)
            (sym (or_true c))
    visit (group all_of ns) f b r c rest h =
        visit_all ns [] (f ∷ b) ([] ∷ r) c rest (and_right _ _ h)
        ∙ ap (run_after rest)
            (close_group all_of ([]) ns f b r (c || any_conditional ns) refl (and_left _ _ h))
    visit (group any_of ns) f b r c rest h =
        visit_all ns [] (f ∷ b) (codes "||" ∷ r) c rest (and_right _ _ h)
        ∙ ap (run_after rest) (
            close_group any_of (codes "||") ns f b r (c || any_conditional ns) refl
              (and_left _ _ h))
    visit (group just_one_of ns) f b r c rest h = cc
    visit (group at_most_one_of ns) f b r c rest h = cc

    visit_all :
        (ns : Nodes E) (f : List (Node E)) (b : List (List (Node E))) (r : List Text) (c : Bool)
        (rest : List Text)
        → all_printable ns ≡ true
        → run (state_at f b r c) (visited_all func ns ++ rest)
          ≡ run_after rest (
              close_frame default_operators false make
                (state_at (f ++ list_of ns) b r (c || any_conditional ns)))
    visit_all nil f b r c rest h =
        ap (λ (g, d). run_after rest (close_frame default_operators false make (state_at g b r d)))
          (pair_eq (sym (append-nil f)) (sym (or_false c)))
    visit_all (cons n ns) f b r c rest h =
        ap (run (state_at f b r c)) (append_assoc (visited func n) (visited_all func ns) rest)
        ∙ visit n f b r c (visited_all func ns ++ rest) (and_left _ _ h)
        ∙ visit_all ns (f ++ n ∷ []) b r (c || has_conditional n) rest (and_right _ _ h)
        ∙ ap
            (λ (g, d). run_after rest (close_frame default_operators false make (state_at g b r d)))
            (pair_eq (append_assoc f (n ∷ []) (list_of ns)) (or_assoc c _ _))
