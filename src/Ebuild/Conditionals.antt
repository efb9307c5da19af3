-- ===== src/Ebuild/Conditionals.antt =====
-- `DepSet.parse` and `stringify_boolean` of src/pkgcore/ebuild/conditionals.py. `none` is
-- DepsetParseError. What makes an element of a word, and a word of an element, is a parameter.
pub mod Printed
pub mod RoundTrip
pub mod Evaluate
pub mod Known
pub mod OnTheWay
pub mod Depends
pub mod Wanted
pub mod Agree
pub mod Evaluated
use pkgcore.Prelude.{
  ℕ, Bool, true, false, not, ◌&&◌, ◌||◌, ◌≡◌, List, [], ◌∷◌, ◌++◌, map, Option, none, some, ◌>>=◌,
  ◌==◌, leb, if◌then◌else◌, any, all, is_empty, length,
}
use pkgcore.Prelude.Text.{Text, codes, text_eq, split, join}
use pkgcore.Resolver.Slots.{keep}

-- AndRestriction, OrRestriction, JustOneRestriction and AtMostOneOfRestriction
pub data Class : Type 0 where
  all_of any_of just_one_of at_most_one_of : Class

mutual
  pub data Node (E : Type 0) : Type 0 where
    element : E → Node E
    -- Conditional("use", ContainmentMatch(flag, negate), payload)
    conditional : Bool → Text → Nodes E → Node E
    group : Class → Nodes E → Node E

  pub data Nodes (E : Type 0) : Type 0 where
    nil : Nodes E
    cons : Node E → Nodes E → Nodes E

abbrev pub nodes_of : {E : Type 0} → List (Node E) → Nodes E
nodes_of [] = nil
nodes_of (n ∷ ns) = cons n (nodes_of ns)

abbrev pub is_blank : ℕ → Bool
is_blank c = c == b' ' || (leb 9 c && leb c 13) || (leb 28 c && leb c 31)

-- `dep_str.split()`
unfoldable pub split_words : Text → List Text
unfolding split
split_words s =
    keep (λ w. not (is_empty w)) (split b' ' (map (λ c. if is_blank c then b' ' else c) s))

-- The operators that `parse` takes where none are given.
unfoldable pub default_operators : Text → Option Class
default_operators k =
    if text_eq k (codes "||") then some any_of else if is_empty k then some all_of else none

unfoldable pub ends_in_question : Text → Bool
ends_in_question [] = false
ends_in_question (c ∷ []) = c == b'?'
ends_in_question (c ∷ d ∷ s) = ends_in_question (d ∷ s)

-- `c[:-1]`
unfoldable pub drop_last : Text → Text
drop_last [] = []
drop_last (c ∷ []) = []
drop_last (c ∷ d ∷ s) = c ∷ drop_last (d ∷ s)

-- The word that the next one is needed for, if any: one that opens a group, or a name that may be
-- renamed, or one that is.
pub data Pending : Type 0 where
  no_word : Pending
  open_after name_after rename_after : Text → Pending

-- `depsets[-1]`, the frames below it, and the other locals of the loop.
pub record State (E : Type 0) : Type 0 where
  pub frame : List (Node E)
  pub below : List (List (Node E))
  pub raw_conditionals : List Text
  pub node_conds : Bool
  pub pending : Pending

abbrev pub is_none : {A : Type 0} → Option A → Bool
is_none none = true
is_none (some a) = false

module _ {E : Type 0} where
  -- `packages.Conditional("use", c, tuple(depsets[-1]))`
  unfoldable pub conditional_of : Text → List (Node E) → Option (Node E)
  unfolding drop_last
  conditional_of [] nodes = none
  conditional_of (c ∷ s) nodes = some (
      if c == b'!'
      then conditional true (drop_last s) (nodes_of nodes)
      else conditional false (drop_last (c ∷ s)) (nodes_of nodes))

  -- a group of one node is the node
  abbrev pub group_of : Class → List (Node E) → Node E
  group_of cls (n ∷ []) = n
  group_of cls nodes = group cls (nodes_of nodes)

  unfoldable pub closed : Option Class → Text → List (Node E) → Option (Node E)
  unfolding conditional_of
  closed (some cls) c nodes = some (group_of cls nodes)
  closed none c nodes = conditional_of c nodes

  -- `depsets[-1].append(node)`
  abbrev pub append_node : State E → Node E → State E
  append_node s n = record s { frame = s.frame ++ n ∷ [] }

  -- `depsets.append([])` and `raw_conditionals.append(k)`
  abbrev pub push_frame : State E → Text → State E
  push_frame s k = record s {
    frame = [];
    below = s.frame ∷ s.below;
    raw_conditionals = k ∷ s.raw_conditionals;
    pending = no_word;
  }

  module _ (operators : Text → Option Class) (renames : Bool)
      (make : Text → Option Text → Option E) where
    -- `)`
    unfoldable pub close_frame : State E → Option (State E)
    unfolding closed
    close_frame s = if is_empty s.frame then none else elim s.raw_conditionals [
      | [] ↦ none
      | (c ∷ cs) ↦ elim s.below [
        | [] ↦ none
        | (parent ∷ rest) ↦ (do
          n ← closed (operators c) c s.frame
          some (record s {
            frame = parent ++ n ∷ [];
            below = rest;
            raw_conditionals = cs;
            node_conds = s.node_conds || is_none (operators c);
          }))
      ]
    ]

    unfoldable pub append_element : State E → Text → Option Text → Option (State E)
    append_element s k k3 = do
      e ← make k k3
      some (append_node (record s { pending = no_word }) (element e))

    -- One round of the loop for a word, and the rounds' `next(words)`.
    unfoldable pub parse_word : State E → Text → Option (State E)
    unfolding close_frame append_element ends_in_question
    parse_word s k =
        if text_eq k (codes ")")
        then close_frame s
        else if text_eq k (codes "(")
        then some (push_frame s [])
        else if ends_in_question k || not (is_none (operators k))
        then some (record s { pending = open_after k })
        else if any (λ c. c == b'|') k
        then none
        else if renames
        then some (record s { pending = name_after k })
        else append_element s k none

    unfoldable pub next_word : Pending → State E → Text → Option (State E)
    unfolding parse_word append_element
    next_word no_word s k = parse_word s k
    next_word (open_after c) s k = if text_eq k (codes "(") then some (push_frame s c) else none
    next_word (name_after w) s k =
        if text_eq k (codes "->")
        then some (record s { pending = rename_after w })
        else (do t ← append_element s w none; parse_word t k)
    next_word (rename_after w) s k = append_element s w (some k)

    unfoldable pub parse_words : State E → List Text → Option (State E)
    unfolding next_word
    parse_words s [] = some s
    parse_words s (k ∷ ks) = do t ← next_word s.pending s k; parse_words t ks

    -- The end of the words.
    unfoldable pub finish : Pending → State E → Option (State E)
    unfolding append_element
    finish no_word s = some s
    finish (name_after w) s = append_element s w none
    finish _ s = none

  abbrev pub start_state : State E
  start_state = record {
    frame = [];
    below = [];
    raw_conditionals = [];
    node_conds = false;
    pending = no_word;
  }

  module _ (is_transitive : E → Bool) where
    -- `_has_transitive_use_atoms`, which goes through the groups and the conditionals
    unfoldable mutual
      pub has_transitive : Node E → Bool
      has_transitive (element e) = is_transitive e
      has_transitive (conditional negate flag payload) = any_transitive payload
      has_transitive (group cls nodes) = any_transitive nodes

      pub any_transitive : Nodes E → Bool
      any_transitive nil = false
      any_transitive (cons n ns) = has_transitive n || any_transitive ns

    -- The restrictions, and `node_conds`.
    unfoldable pub only_frame : Bool → State E → Option (Nodes E × Bool)
    unfolding has_transitive
    only_frame transitive_use_atoms s =
        if is_empty s.below
        then some (
          nodes_of s.frame,
          if transitive_use_atoms && not s.node_conds
              then any_transitive (nodes_of s.frame)
              else s.node_conds,
        )
        else none

    -- `DepSet.parse(dep_str)`; what is a transitive_use_atom is a parameter.
    unfoldable pub parse :
        (Text → Option Class)
        → Bool
        → (Text → Option Text → Option E)
        → Bool
        → Text
        → Option (Nodes E × Bool)
    unfolding split_words parse_words finish only_frame
    parse operators renames make transitive_use_atoms dep_str = do
      s ← parse_words operators renames make start_state (split_words dep_str)
      t ← finish operators renames make s.pending s
      only_frame transitive_use_atoms t

  module _ (func : Node E → Text) where
    -- `_internal_stringify_boolean` without a domain: what it visits. A piece of two words, such as
    -- "|| (", is two pieces here, which the blank between pieces joins again.
    unfoldable mutual
      pub visited : Node E → List Text
      visited (element e) = func (element e) ∷ []
      visited (conditional negate flag payload) =
          ((if negate then b'!' ∷ flag else flag) ++ b'?' ∷ []) ∷ codes "(" ∷ visited_all payload
      visited (group any_of nodes) = codes "||" ∷ codes "(" ∷ visited_all nodes
      visited (group all_of nodes) = codes "(" ∷ visited_all nodes
      visited (group cls nodes) = func (group cls nodes) ∷ []

      -- the children, and the parenthesis behind them
      pub visited_all : Nodes E → List Text
      visited_all nil = codes ")" ∷ []
      visited_all (cons n ns) = visited n ++ visited_all ns

    unfoldable pub visited_top : Nodes E → List Text
    unfolding visited
    visited_top nil = []
    visited_top (cons n ns) = visited n ++ visited_top ns

    -- `stringify_boolean` of a DepSet
    unfoldable pub stringify : Nodes E → Text
    unfolding join visited_top
    stringify nodes = join b' ' (visited_top nodes)
