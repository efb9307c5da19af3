-- ===== src/Ebuild/Incrementals.antt =====
-- Incremental variables of src/pkgcore/ebuild/misc.py: tokens that add to a set or take from it.
-- A set is the test of its members; `none` is ValueError or IndexError.
pub mod Tokens
pub mod Optimized
use pkgcore.Prelude.{
  ℕ, Bool, true, false, not, ◌&&◌, ◌||◌, List, [], ◌∷◌, ◌++◌, Option, none, some, ◌>>=◌, ◌==◌,
  if◌then◌else◌, is_empty, all, any,
}
use pkgcore.Prelude.Text.{Text, codes, text_eq}
use pkgcore.Ebuild.Atom.{contains}
use mathlib.Core.List.{reverse}

abbrev pub Members : Type 0
Members = Text → Bool

-- `s.add(x)`, `s.discard(x)` and `s.clear()`
unfoldable pub add : Text → Members → Members
add x s y = text_eq x y || s y

unfoldable pub discard : Text → Members → Members
discard x s y = not (text_eq x y) && s y

abbrev pub clear : Members
clear y = false

-- One round of `incremental_expansion`, of a token that is not malformed.
unfoldable pub expand_token : Bool → Text → Members → Members
unfolding add discard
expand_token finalize [] s = s
expand_token finalize (c ∷ i) s =
    if c == b'-'
    then (let left = if text_eq i (codes "*") then clear else discard i s in
        if finalize then left else add (c ∷ i) left)
    else add (c ∷ i) (discard (b'-' ∷ c ∷ i) s)

-- Not empty, and not a minus alone.
abbrev pub is_token : Text → Bool
is_token [] = false
is_token (c ∷ []) = not (c == b'-')
is_token (c ∷ d ∷ s) = true

-- `incremental_expansion`
unfoldable pub incremental_expansion : Bool → List Text → Members → Option Members
unfolding expand_token
incremental_expansion finalize [] orig = some orig
incremental_expansion finalize (token ∷ tokens) orig =
    if is_token token
    then incremental_expansion finalize tokens (expand_token finalize token orig)
    else none

-- The flag that a token is about.
abbrev pub flag_of : Text → Text
flag_of [] = []
flag_of (c ∷ i) = if c == b'-' then i else c ∷ i

abbrev pub clears : Text → Bool
clears [] = false
clears (c ∷ i) = c == b'-' && text_eq i (codes "*")

-- The loop of `optimize_incrementals`, over the tokens from the last one on.
unfoldable pub optimize_reversed : List Text → List Text → Option (List Text)
optimize_reversed finalized [] = some []
optimize_reversed finalized (item ∷ items) =
    let seen = contains finalized (flag_of item) in
    let rest = optimize_reversed (if seen then finalized else flag_of item ∷ finalized) items in
    if not (is_token item)
    then none
    else if clears item
    then some (item ∷ [])
    else if seen
    then rest
    else (do l ← rest; some (item ∷ l))

-- `optimize_incrementals`; a generator, as the list of what it yields.
unfoldable pub optimize_incrementals : List Text → Option (List Text)
unfolding optimize_reversed
optimize_incrementals sequence = optimize_reversed [] (reverse sequence)

-- One round of `incremental_expansion_license`; `license_groups.get(name, ())` and `licenses`.
module _ (license_groups : Text → List Text) (licenses : List Text) where
  abbrev update : List Text → Members → Members
  update xs s y = contains xs y || s y

  abbrev difference_update : List Text → Members → Members
  difference_update xs s y = not (contains xs y) && s y

  unfoldable pub expand_license : Text → Members → Option Members
  unfolding add discard
  expand_license [] seen = none
  expand_license (c ∷ []) seen =
      if c == b'-' || c == b'@'
      then none
      else some (if c == b'*' then update licenses seen else add (c ∷ []) seen)
  expand_license (c ∷ d ∷ i) seen =
      if c == b'-'
      then (if text_eq (d ∷ i) (codes "*")
          then some clear
          else if d == b'@'
          then (if is_empty i then none else some (difference_update (license_groups i) seen))
          else some (discard (d ∷ i) seen))
      else if c == b'@'
      then some (update (license_groups (d ∷ i)) seen)
      else some (add (c ∷ d ∷ i) seen)

  unfoldable pub expand_licenses : List Text → Members → Option Members
  unfolding expand_license
  expand_licenses [] seen = some seen
  expand_licenses (token ∷ tokens) seen = do s ← expand_license token seen; expand_licenses tokens s

  -- `incremental_expansion_license`
  unfoldable pub incremental_expansion_license : List Text → Option Members
  unfolding expand_licenses
  incremental_expansion_license tokens = expand_licenses tokens clear
