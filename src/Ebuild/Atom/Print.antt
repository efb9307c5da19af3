-- ===== src/Ebuild/Atom/Print.antt =====
-- `atom.__str__` of src/pkgcore/ebuild/atom.py.
use pkgcore.Prelude.{List, [], ◌∷◌, ◌++◌, Option, none, some, if◌then◌else◌}
use pkgcore.Prelude.Text.{Text, codes, text_eq, join}
use pkgcore.Ebuild.VersionMatch.{
  Op, unversioned, below, at_most, exactly, at_least, above, tilde, glob,
}
use pkgcore.Ebuild.Atom.Syntax.{Fields}

abbrev pub op_text : Op → Text
op_text unversioned = []
op_text below = codes "<"
op_text at_most = codes "<="
op_text exactly = codes "="
op_text at_least = codes ">="
op_text above = codes ">"
op_text tilde = codes "~"
op_text glob = codes "=*"

-- The parts that `__str__` appends.
abbrev pub str_version : Op → Text → Text
str_version glob s = b'=' ∷ s ++ b'*' ∷ []
str_version op s = op_text op ++ s

unfoldable pub str_blocks : Fields → Text
str_blocks f =
    let s = str_version f.op f.cpvstr in
    if f.blocks then (if f.blocks_strongly then b'!' ∷ b'!' ∷ s else b'!' ∷ s) else s

abbrev pub str_subslot : Option Text → Text
str_subslot (some (c ∷ s)) = b'/' ∷ c ∷ s
str_subslot _ = []

-- `if self.slot_operator == "="`
abbrev pub str_equals : Option Text → Text
str_equals (some s) = if text_eq s (codes "=") then s else []
str_equals none = []

abbrev pub str_operator : Option Text → Text
str_operator (some (c ∷ s)) = b':' ∷ c ∷ s
str_operator _ = []

unfoldable pub str_slot : Option Text → Option Text → Option Text → Text
str_slot (some (c ∷ s)) subslot operator =
    b':' ∷ (c ∷ s) ++ str_subslot subslot ++ str_equals operator
str_slot _ subslot operator = str_operator operator

abbrev pub str_repo : Option Text → Text
str_repo (some (c ∷ s)) = b':' ∷ b':' ∷ c ∷ s
str_repo _ = []

unfoldable pub str_use : Option (List Text) → Text
unfolding join
str_use (some (x ∷ xs)) = b'[' ∷ join b',' (x ∷ xs) ++ b']' ∷ []
str_use _ = []

-- `atom.__str__`
unfoldable pub str_atom : Fields → Text
unfolding str_blocks str_slot str_use
str_atom f =
    str_blocks f
    ++ str_slot f.slot f.subslot f.slot_operator
    ++ str_repo f.repo_id
    ++ str_use f.use_deps
