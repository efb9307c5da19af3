-- ===== src/Ebuild/Atom/Parse.antt =====
-- `atom.__init__` of src/pkgcore/ebuild/atom.py: blockers, operators and the whole.
pub mod Checked
pub mod Defaults
pub mod Pieces
pub mod Anchored
pub mod SlotText
pub mod Marked
pub mod Printed
use pkgcore.Prelude.{
  ℕ, ◌-◌, Bool, true, false, not, ◌&&◌, ◌||◌, List, [], ◌∷◌, ◌++◌, Option, none, some, ◌==◌, leb,
  if◌then◌else◌, is_empty, length, drop, all,
}
use pkgcore.Prelude.Text.{Text, codes, text_eq, text_ltb, is_alpha, is_digit, split, join}
use pkgcore.Ebuild.VersionMatch.{
  Op, unversioned, below, at_most, exactly, at_least, above, tilde, glob,
}
use pkgcore.Ebuild.Conditionals.{drop_last}
use pkgcore.Ebuild.TransitiveUse.{last_char, is_conditional_char}
use pkgcore.Ebuild.Atom.Syntax.{
  Outcome, ok, malformed, index_error, unbound_local, ◌>>=◌, or_malformed, Eapi, Fields, cut,
  is_some,
}
use pkgcore.Ebuild.Atom.UseDeps.{parse_use}
use pkgcore.Ebuild.Atom.SlotDeps.{Slot, parse_anchor}
use pkgcore.Ebuild.Cpv.{Cpv, one, make_cpv}
use pkgcore.Ebuild.Atom.{Atom, has_revision}

-- `blocks`, `blocks_strongly` and the text behind them
unfoldable pub parse_blocks : Eapi → Text → Outcome (Bool × Bool × Text)
parse_blocks eapi [] = index_error
parse_blocks eapi (c ∷ []) = if c == b'!' then ok (true, false, []) else ok (false, false, c ∷ [])
parse_blocks eapi (c ∷ d ∷ s) =
    if not (c == b'!')
    then ok (false, false, c ∷ d ∷ s)
    else if not (d == b'!')
    then ok (true, false, d ∷ s)
    else if eapi.strong_blockers
    then ok (true, true, s)
    else malformed

-- `op` and the text behind it
unfoldable pub parse_op : Text → Outcome (Op × Text)
unfolding last_char drop_last
parse_op [] = index_error
parse_op (c ∷ []) =
    if c == b'<' || c == b'>'
    then index_error
    else if c == b'='
    then ok (exactly, [])
    else if c == b'~'
    then ok (tilde, [])
    else ok (unversioned, c ∷ [])
parse_op (c ∷ d ∷ s) =
    if c == b'<'
    then (if d == b'=' then ok (at_most, s) else ok (below, d ∷ s))
    else if c == b'>'
    then (if d == b'=' then ok (at_least, s) else ok (above, d ∷ s))
    else if c == b'='
    then (if last_char (d ∷ s) == b'*' then ok (glob, drop_last (d ∷ s)) else ok (exactly, d ∷ s))
    else if c == b'~'
    then ok (tilde, d ∷ s)
    else ok (unversioned, c ∷ d ∷ s)

-- What the EAPI does not allow; a message names a variable that only use dependencies set.
unfoldable pub check_eapi : Eapi → Fields → Outcome Fields
check_eapi eapi f =
    if is_some f.slot && not eapi.has_slot_deps
    then (if is_some f.use_deps then malformed else unbound_local)
    else if is_some f.use_deps && not eapi.has_use_deps
    then malformed
    else if not eapi.unnamed && is_some f.repo_id
    then malformed
    else ok f

-- `__init__` up to the package and its version
unfoldable pub parse_fields : Eapi → Text → Outcome Fields
unfolding parse_use parse_anchor parse_blocks parse_op check_eapi
parse_fields eapi s = do
  (left, use_deps, transitive) ← if is_empty s then malformed else parse_use eapi s
  (anchored, repo_id, slot) ← parse_anchor eapi (is_some use_deps) left
  (blocks, blocks_strongly, unblocked) ← parse_blocks eapi anchored
  (op, cpvstr) ← parse_op unblocked
  check_eapi eapi (record {
    use_deps = use_deps;
    transitive = transitive;
    repo_id = repo_id;
    slot = slot.slot;
    subslot = slot.subslot;
    slot_operator = slot.operator;
    blocks = blocks;
    blocks_strongly = blocks_strongly;
    op = op;
    cpvstr = cpvstr;
  })

abbrev pub is_unversioned : Op → Bool
is_unversioned unversioned = true
is_unversioned _ = false

abbrev pub is_tilde : Op → Bool
is_tilde tilde = true
is_tilde _ = false

abbrev text_of : Option Text → Text
text_of none = []
text_of (some s) = s

-- The checks of the operator against the version; the package's attributes are the atom's.
unfoldable pub with_cpv : Bool → Fields → Cpv → Outcome Atom
with_cpv negate_vers f c =
    let atom : Atom = record {
      category = c.category;
      package_name = c.package_name;
      op = f.op;
      version = text_of c.version;
      revision = c.revision;
      fullver = text_of c.fullver;
      negate_vers = negate_vers;
      blocks = f.blocks;
      blocks_strongly = f.blocks_strongly;
      slot = f.slot;
      subslot = f.subslot;
      slot_operator = f.slot_operator;
      repo_id = f.repo_id;
      use_deps = f.use_deps;
    } in
    if is_unversioned f.op
    then (if is_some c.version then malformed else ok atom)
    else if not (is_some c.version)
    then malformed
    else if is_tilde f.op && has_revision c.revision
    then malformed
    else ok atom

-- `atom.__init__`
unfoldable pub make_atom : Eapi → Bool → Text → Outcome Atom
unfolding parse_fields make_cpv with_cpv
make_atom eapi negate_vers s = do
  f ← parse_fields eapi s
  c ← or_malformed (make_cpv (one f.cpvstr (not (is_unversioned f.op))))
  with_cpv negate_vers f c
