-- ===== src/Samples/Depsets.antt =====
-- Dependency sets, atoms and incremental variables: src/pkgcore/ebuild.
use pkgcore.Prelude.{Bool, true, false, [], Option, none, some}
use pkgcore.Prelude.Text.{Text, codes, text_eq}
use pkgcore.Ebuild.Conditionals.{any_of, Node, element, conditional, group, Nodes, nil, cons}
use pkgcore.Ebuild.Conditionals.Evaluate.{Flags}

-- The elements are two names.
abbrev name : Bool → Text
name true = codes "app-a/b"
name false = codes "dev-c/d"

abbrev text_of : Node Bool → Text
text_of (element e) = name e
text_of _ = []

abbrev named : Text → Option Text → Option Bool
named k renamed = elim (text_eq k (codes "app-a/b")) [
  | true ↦ some true
  | false ↦ elim (text_eq k (codes "dev-c/d")) [ true ↦ some false | false ↦ none ]
]

-- x? ( app-a/b || ( dev-c/d !y? ( app-a/b ) ) )
abbrev depset : Nodes Bool
depset =
    cons
      (conditional false (codes "x") (
        cons (element true) (
          cons
            (group any_of (
              cons (element false)
                (cons (conditional true (codes "y") (cons (element true) nil)) nil)))
            nil)))
      nil

abbrev flags : Flags
flags = record { enabled = λ flag. text_eq flag (codes "x"); tristate_locked = none }
