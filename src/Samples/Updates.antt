-- ===== src/Samples/Updates.antt =====
-- Lines of package updates: src/pkgcore/ebuild/pkg_updates.py.
use pkgcore.Prelude.{true, ◌≡◌, refl, List, [], ◌∷◌, Option, none, some}
use pkgcore.Prelude.Text.{Text, codes}
use pkgcore.Prelude.Text.{text_eq}
use pkgcore.Dicts.{Dict, lookup, put}
use pkgcore.Ebuild.PkgUpdates.{
  Spec, Command, split_words, split_from, read_words, read_slotmove, read_updates,
}
use pkgcore.Ebuild.PkgUpdates.Lines.{follow, readable}
use pkgcore.Ebuild.PkgUpdates.Followed.{unless_empty, read_updates_lem}

-- each word is an atom without version and slot
abbrev plain_atom : Text → Option Spec
plain_atom t = some (record { text = t; key = t; fullver = none; slot = none })

-- a/x moves to b/y, whose slot 0 then moves to 1; a/x is no name any more
abbrev lines : List Text
lines =
    codes "move a/x b/y"
    ∷ codes "slotmove b/y 0 1"
    ∷ codes "slotmove a/x 0 2"
    ∷ codes "nothing"
    ∷ []

lines-readable : readable plain_atom [] lines ≡ true
unfolding readable read_words read_slotmove split_words split_from lookup put
lines-readable = refl

read_updates_lem_example :
    (cs : Dict Text (List Command)) × (read_updates plain_atom lines ≡ some cs)
    × ((k : Text) → lookup text_eq k cs ≡ unless_empty (follow plain_atom [] lines k))
read_updates_lem_example = read_updates_lem plain_atom lines lines-readable
