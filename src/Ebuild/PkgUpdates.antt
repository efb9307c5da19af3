-- ===== src/Ebuild/PkgUpdates.antt =====
-- src/pkgcore/ebuild/pkg_updates.py: the commands of package updates. A deque is a node of a heap,
-- told by its number; it holds commands and other deques, which several chains may share. `mods` is
-- the start and the tail of each key's chain. `atom` of atom.py is a parameter that gives the parts
-- which this code reads, `none` where it raises MalformedAtom, which nothing here catches.
pub mod Nodes
pub mod Solved
pub mod Relinked
pub mod Steps
pub mod Lines
pub mod Followed
use mathlib.Core.List.{flat_map}
use pkgcore.Prelude.{
  ℕ, zero, suc, Bool, true, false, not, ◌&&◌, ◌||◌, List, [], ◌∷◌, ◌++◌, map, Option, none, some,
  ◌>>=◌, ◌==◌, leb, length, is_empty, if◌then◌else◌,
}
use pkgcore.Prelude.Text.{Text, codes, text_eq}
use pkgcore.Restrictions.Solutions.Defined.{is_some}
use pkgcore.Dicts.{Dict, lookup, put, keys}

pub record Spec : Type 0 where
  pub text : Text
  pub key : Text
  pub fullver : Option Text
  pub slot : Option Text

pub data Command : Type 0 where
  move : Spec → Spec → Command
  slotmove : Spec → Text → Command

pub data Item : Type 0 where
  command : Command → Item
  deque : ℕ → Item

pub record State : Type 0 where
  pub nodes : List (List Item)
  pub mods : Dict Text (ℕ × ℕ)
  pub moved : Dict Text Spec

abbrev pub is_space : ℕ → Bool
is_space c = c == 32 || ((leb 9 c && leb c 13) || (leb 28 c && leb c 31))

-- `line.split()` of an ASCII text
abbrev pub push_word : Text → List Text → List Text
push_word [] ws = ws
push_word (c ∷ w) ws = (c ∷ w) ∷ ws

-- the word that the text starts with, and the words behind it
unfoldable pub split_from : Text → Text × List Text
split_from [] = ([], [])
split_from (c ∷ s) =
    let (w, ws) = split_from s in if is_space c then ([], push_word w ws) else (c ∷ w, ws)

unfoldable pub split_words : Text → List Text
unfolding split_from
split_words s = let (w, ws) = split_from s in push_word w ws

-- the deque with this number
unfoldable pub node : List (List Item) → ℕ → List Item
node [] i = []
node (n ∷ ns) zero = n
node (n ∷ ns) (suc i) = node ns i

unfoldable pub extend : List (List Item) → ℕ → List Item → List (List Item)
extend [] i xs = []
extend (n ∷ ns) zero xs = (n ++ xs) ∷ ns
extend (n ∷ ns) (suc i) xs = n ∷ extend ns i xs

-- `mods[key]` of the defaultdict
abbrev pub make_mods : State → Text → Option (ℕ × ℕ) → State
make_mods s k (some m) = s
make_mods s k none = record s {
  nodes = s.nodes ++ [] ∷ [];
  mods = put text_eq k (length s.nodes, length s.nodes) s.mods;
}

unfoldable pub ensure : State → Text → State
ensure s k = make_mods s k (lookup text_eq k s.mods)

abbrev pub start_of : Option (ℕ × ℕ) → ℕ
start_of none = 0
start_of (some m) = m.0

abbrev pub tail_of : Option (ℕ × ℕ) → ℕ
tail_of none = 0
tail_of (some m) = m.1

-- `mods[key][1]`
abbrev pub tail : State → Text → ℕ
tail s k = tail_of (lookup text_eq k s.mods)

abbrev pub start : State → Text → ℕ
start s k = start_of (lookup text_eq k s.mods)

abbrev pub extend_tail : State → Text → List Item → State
extend_tail s k xs = record s { nodes = extend s.nodes (tail s k) xs }

-- A line that is carried out.
pub data Event : Type 0 where
  moving : Spec → Spec → Event
  slotmoving : Spec → Spec → Text → Event

abbrev pub is_moved : Dict Text Spec → Spec → Bool
is_moved moved src = is_some (lookup text_eq src.key moved)

-- A move of src to trg; `skip` where the line is only reported.
abbrev pub read_move : Dict Text Spec → Spec → Spec → Option Event
read_move moved src trg =
    if is_some src.fullver || (is_some trg.fullver || is_moved moved src)
    then none
    else some (moving src trg)

module _ (atom : Text → Option Spec) where
  unfoldable pub read_slotmove : Dict Text Spec → Spec → Text → Text → Option (Option Event)
  read_slotmove moved src old new = if is_moved moved src || is_some src.slot then some none else do
    src_slot ← atom (src.text ++ 58 ∷ old)
    ignored ← atom (src.key ++ 58 ∷ new)
    some (some (slotmoving src src_slot new))

  abbrev pub read_move_words : Dict Text Spec → List Text → Option (Option Event)
  read_move_words moved (a ∷ b ∷ []) = do src ← atom a; trg ← atom b; some (read_move moved src trg)
  read_move_words moved _ = some none

  abbrev pub read_slotmove_words : Dict Text Spec → List Text → Option (Option Event)
  read_slotmove_words moved (a ∷ old ∷ new ∷ []) = do src ← atom a; read_slotmove moved src old new
  read_slotmove_words moved _ = some none

  -- The loop body up to the changes: what a line asks for, if anything.
  unfoldable pub read_words : Dict Text Spec → List Text → Option (Option Event)
  unfolding read_slotmove
  read_words moved [] = some none
  read_words moved (w ∷ ws) =
      if text_eq w (codes "move")
      then read_move_words moved ws
      else if text_eq w (codes "slotmove")
      then read_slotmove_words moved ws
      else some none

-- The changes of a line. Both chains and then the new deque get their numbers before any of them is
-- changed; the code makes them on the way.
unfoldable pub relink : State → Spec → Spec → State
unfolding extend
relink s src trg =
    let d = length s.nodes in
    record s {
      nodes =
          extend
            (extend (s.nodes ++ [] ∷ []) (tail s src.key) (command (move src trg) ∷ deque d ∷ []))
            (tail s trg.key) (deque d ∷ []);
      mods = put text_eq trg.key (start s trg.key, d) s.mods;
      moved = put text_eq src.key trg s.moved;
    }

unfoldable pub apply_move : State → Spec → Spec → State
unfolding ensure relink
apply_move s src trg = relink (ensure (ensure s src.key) trg.key) src trg

unfoldable pub apply_slotmove : State → Spec → Spec → Text → State
unfolding ensure extend
apply_slotmove s src src_slot new =
    extend_tail (ensure s src.key) src.key (command (slotmove src_slot new) ∷ [])

unfoldable pub apply_event : State → Option Event → State
unfolding apply_move apply_slotmove
apply_event s none = s
apply_event s (some (moving src trg)) = apply_move s src trg
apply_event s (some (slotmoving src src_slot new)) = apply_slotmove s src src_slot new

unfoldable pub process_updates : (Text → Option Spec) → List Text → State → Option State
unfolding read_words apply_event split_words
process_updates atom [] s = some s
process_updates atom (raw ∷ lines) s =
    read_words atom s.moved (split_words raw) >>= λ e. process_updates atom lines (apply_event s e)

-- `iflatten_instance(v[0], tuple)`: what a deque holds, deques opened, on fuel.
abbrev pub open_item : (ℕ → List Command) → Item → List Command
open_item rec (command c) = c ∷ []
open_item rec (deque i) = rec i

unfoldable pub flatten : ℕ → List (List Item) → ℕ → List Command
unfolding node flat_map
flatten zero nodes i = []
flatten (suc n) nodes i = flat_map (open_item (flatten n nodes)) (node nodes i)

-- `commands` of `read_updates`: a chain of no commands is left out.
unfoldable pub filled : List (List Item) → Dict Text (ℕ × ℕ) → Dict Text (List Command)
unfolding flatten
filled nodes [] = []
filled nodes ((k, m) ∷ ms) =
    let rest = filled nodes ms in
    let cs = flatten (length nodes) nodes (m.0) in if is_empty cs then rest else (k, cs) ∷ rest

unfoldable pub commands : State → Dict Text (List Command)
unfolding filled
commands s = filled s.nodes s.mods

abbrev pub empty_state : State
empty_state = record { nodes = []; mods = []; moved = [] }

-- `read_updates` on the lines of the files, one behind the other
unfoldable pub read_updates : (Text → Option Spec) → List Text → Option (Dict Text (List Command))
unfolding process_updates commands
read_updates atom lines = do s ← process_updates atom lines empty_state; some (commands s)
