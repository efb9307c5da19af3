-- ===== src/Ebuild/TransitiveUse.antt =====
-- `transitive_use_atom` of src/pkgcore/ebuild/atom.py: use dependencies that follow the flags of the
-- package at hand. An atom is told by the list of the flags between its brackets.
pub mod Parts
pub mod Converted
pub mod Known
use pkgcore.Prelude.{
  ℕ, Bool, true, false, not, ◌&&◌, ◌||◌, List, [], ◌∷◌, ◌++◌, Option, none, some, ◌==◌,
  if◌then◌else◌, is_empty,
}
use pkgcore.Prelude.Text.{Text}
use pkgcore.Resolver.Slots.{keep}
use pkgcore.Ebuild.VersionMatch.{differs}
use pkgcore.Ebuild.Conditionals.{Node, element, conditional, Nodes, nil, cons, drop_last}
use pkgcore.Ebuild.Conditionals.Evaluate.{Flags}

-- `s[-1]` and `s[0]`, of texts that are not empty
unfoldable pub last_char : Text → ℕ
last_char [] = 0
last_char (c ∷ []) = c
last_char (c ∷ d ∷ s) = last_char (d ∷ s)

abbrev pub is_negated : Text → Bool
is_negated [] = false
is_negated (c ∷ s) = c == b'!'

abbrev pub is_conditional_char : ℕ → Bool
is_conditional_char c = c == b'?' || c == b'='

-- `use[-1] in "?="`
unfoldable pub is_variable : Text → Bool
unfolding last_char
is_variable flag = not (is_empty flag) && is_conditional_char (last_char flag)

unfoldable pub static_use : List Text → List Text
unfolding is_variable
static_use = keep (λ flag. not (is_variable flag))

unfoldable pub variable_use : List Text → List Text
unfolding is_variable
variable_use = keep is_variable

-- `flag.lstrip("!")` and `flag.rstrip("?=")`
unfoldable pub lstrip_mark : Text → Text
lstrip_mark [] = []
lstrip_mark (c ∷ s) = let rest = lstrip_mark s in if c == b'!' then rest else c ∷ s

unfoldable pub rstrip_conditional : Text → Text
rstrip_conditional [] = []
rstrip_conditional (c ∷ s) =
    let rest = rstrip_conditional s in
    if is_empty rest && is_conditional_char c then [] else c ∷ rest

abbrev pub tail_of : Text → Text
tail_of [] = []
tail_of (c ∷ s) = s

-- `flag[1:-1]` or `flag[:-1]`
unfoldable pub bare_flag : Text → Text
unfolding drop_last
bare_flag flag = if is_negated flag then drop_last (tail_of flag) else drop_last flag

-- without the default "(+)" or "(-)"
unfoldable pub raw_flag : Text → Text
unfolding last_char drop_last
raw_flag flag = if last_char flag == b')' then drop_last (drop_last (drop_last flag)) else flag

abbrev pub minus : Text → Text
minus flag = b'-' ∷ flag

-- The loop over the flags that appends what each of them yields.
unfoldable pub each : (Text → List Text) → List Text → List Text
each f [] = []
each f (flag ∷ uses) = f flag ++ each f uses

module _ (enabled : Text → Bool) where
  -- One round of the loop of `evaluate_conditionals` without a filter.
  unfoldable pub evaluate_flag : Text → List Text
  unfolding last_char bare_flag raw_flag
  evaluate_flag flag =
      let bare = bare_flag flag in
      let same = not (differs (enabled (raw_flag bare)) (is_negated flag)) in
      if last_char flag == b'='
      then (if same then minus bare else bare) ∷ []
      else if same
      then []
      else (if is_negated flag then minus bare else bare) ∷ []

  -- One round of `_evaluate_depset_qa_in_place`.
  unfoldable pub evaluate_locked : (Text → Bool) → Text → List Text
  unfolding last_char bare_flag raw_flag
  evaluate_locked tristate flag =
      let bare = bare_flag flag in
      let raw = raw_flag bare in
      let same = not (differs (enabled raw) (is_negated flag)) in
      if last_char flag == b'='
      then (if tristate raw && same then minus bare else bare) ∷ []
      else if tristate raw
      then (if same then [] else (if enabled raw then bare else minus bare) ∷ [])
      else (if is_negated flag then minus bare else bare) ∷ []

-- `evaluate_conditionals`: the flags of the atom that it appends.
unfoldable pub evaluate_use : Flags → List Text → List Text
unfolding each evaluate_flag evaluate_locked static_use variable_use
evaluate_use flags uses = static_use uses ++ elim flags.tristate_locked [
  | some tristate ↦ each (evaluate_locked flags.enabled tristate) (variable_use uses)
  | none ↦ each (evaluate_flag flags.enabled) (variable_use uses)
]

-- Two conditionals on a flag, and on its absence.
abbrev pub both_ways : Text → Nodes (List Text) → Nodes (List Text) → Nodes (List Text)
both_ways flag on off = cons (conditional false flag on) (cons (conditional true flag off) nil)

-- `_recurse_transitive_use_conds`
unfoldable pub recurse_use_conds : List Text → List Text → Nodes (List Text)
unfolding last_char lstrip_mark rstrip_conditional
recurse_use_conds forced_use [] = cons (element forced_use) nil
recurse_use_conds forced_use (flag ∷ varied) =
    let name = rstrip_conditional (lstrip_mark flag) in
    let without = recurse_use_conds forced_use varied in
    let on = recurse_use_conds (forced_use ++ name ∷ []) varied in
    let off = recurse_use_conds (forced_use ++ minus name ∷ []) varied in
    if last_char flag == b'?'
    then (if is_negated flag then both_ways name without off else both_ways name on without)
    else if is_negated flag
    then both_ways name off on
    else both_ways name on off

-- `convert_to_conditionals`: the members of its conjunction.
unfoldable pub convert_to_conditionals : List Text → Nodes (List Text)
unfolding static_use variable_use recurse_use_conds
convert_to_conditionals uses = recurse_use_conds (static_use uses) (variable_use uses)
