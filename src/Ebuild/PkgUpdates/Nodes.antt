-- ===== src/Ebuild/PkgUpdates/Nodes.antt =====
-- Reading the deques of src/pkgcore/ebuild/pkg_updates.py after they were extended.
use mathlib.Core.List.{flat_map}
use pkgcore.Prelude.{
  ℕ, zero, suc, ◌+◌, ◌≤◌, ◌<◌, Bool, true, ◌≡◌, refl, sym, ap, ◌∙◌, List, [], ◌∷◌, ◌++◌, arith,
  ◌==◌, ltb, length, all, if◌then◌else◌, append_assoc, and_left, and_right,
}
use pkgcore.Ebuild.PkgUpdates.{Command, Item, command, deque, node, extend, open_item, flatten}

pub node-extend :
    (ns : List (List Item)) (j : ℕ) (xs : List Item) (i : ℕ)
    → j < length ns
    → node (extend ns j xs) i ≡ (if i == j then node ns j ++ xs else node ns i)
unfolding node extend
node-extend [] j xs i h = ground (arith, h)
node-extend (n ∷ ns) zero xs zero h = refl
node-extend (n ∷ ns) zero xs (suc i) h = ground arith
node-extend (n ∷ ns) (suc j) xs zero h = ground arith
node-extend (n ∷ ns) (suc j) xs (suc i) h = node-extend ns j xs i (ground (arith, h)) ∙ ground arith

pub length-extend :
    (ns : List (List Item)) (j : ℕ) (xs : List Item) → length (extend ns j xs) ≡ length ns
unfolding extend
length-extend [] j xs = refl
length-extend (n ∷ ns) zero xs = refl
length-extend (n ∷ ns) (suc j) xs = ap suc (length-extend ns j xs)

-- a new deque is empty, as is what there is not
pub node_new : (ns : List (List Item)) (i : ℕ) → node (ns ++ [] ∷ []) i ≡ node ns i
unfolding node
node_new [] zero = refl
node_new [] (suc i) = refl
node_new (n ∷ ns) zero = refl
node_new (n ∷ ns) (suc i) = node_new ns i

pub length_new : (ns : List (List Item)) → length (ns ++ [] ∷ []) ≡ suc (length ns)
length_new [] = refl
length_new (n ∷ ns) = ap suc (length_new ns)

pub node_beyond : (ns : List (List Item)) (i : ℕ) → length ns ≤ i → node ns i ≡ []
unfolding node
node_beyond [] i h = refl
node_beyond (n ∷ ns) zero h = ground (arith, h)
node_beyond (n ∷ ns) (suc i) h = node_beyond ns i (ground (arith, h))

-- what a deque gives, for what the deques in it give
abbrev pub opened : (ℕ → List Command) → List Item → List Command
opened v xs = flat_map (open_item v) xs

pub opened-append :
    (v : ℕ → List Command) (xs ys : List Item) → opened v (xs ++ ys) ≡ opened v xs ++ opened v ys
unfolding flat_map
opened-append v [] ys = refl
opened-append v (x ∷ xs) ys =
    ap (λ z. open_item v x ++ z) (opened-append v xs ys)
    ∙ sym (append_assoc (open_item v x) (opened v xs) (opened v ys))

-- Deques hold newer ones only, so that as much fuel as there are newer deques is enough.
abbrev pub newer : ℕ → Item → Bool
newer i (command c) = true
newer i (deque j) = ltb i j

opened-same :
    (v w : ℕ → List Command) (i : ℕ) (xs : List Item)
    → all (newer i) xs ≡ true
    → ((j : ℕ) → ltb i j ≡ true → v j ≡ w j)
    → opened v xs ≡ opened w xs
unfolding flat_map
opened-same v w i [] h k = refl
opened-same v w i (command c ∷ xs) h k = ap (λ z. c ∷ z) (opened-same v w i xs h k)
opened-same v w i (deque j ∷ xs) h k =
    ap (λ z. z ++ opened v xs) (k j (and_left (ltb i j) (all (newer i) xs) h))
    ∙ ap (λ z. w j ++ z) (opened-same v w i xs (and_right (ltb i j) (all (newer i) xs) h) k)

pub flatten_enough :
    (ns : List (List Item))
    → ((i : ℕ) → all (newer i) (node ns i) ≡ true)
    → (n i : ℕ) → length ns ≤ n + i
    → flatten n ns i ≡ opened (flatten n ns) (node ns i)
unfolding flatten
flatten_enough ns h zero i k = sym (ap (opened (λ j. [])) (node_beyond ns i (ground (arith, k))))
flatten_enough ns h (suc n) i k =
    opened-same (flatten n ns) (flatten (suc n) ns) i (node ns i) (h i)
      (λ j m. flatten_enough ns h n j (ground (arith, k, m)))
