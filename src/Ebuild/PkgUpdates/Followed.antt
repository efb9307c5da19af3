-- ===== src/Ebuild/PkgUpdates/Followed.antt =====
-- The commands of a key: what the lines say of the package that has this name at first, followed
-- through its moves. src/pkgcore/ebuild/pkg_updates.py.
use pkgcore.Prelude.{
  ℕ, true, ◌≡◌, refl, sym, ap, ◌∙◌, ◌>>=◌, is_empty, List, [], ◌∷◌, Option, none, some, arith,
  length, if◌then◌else◌, Bool-cases, Option-cases, inl, inr, append-nil,
}
use pkgcore.Prelude.Text.{Text, text_eq}
use pkgcore.Prelude.Text.Laws.{text_eq_sound}
use pkgcore.Restrictions.Solutions.Defined.{is_some}
use pkgcore.Dicts.{Dict, lookup}
use pkgcore.Ebuild.PkgUpdates.{Spec, Command, Item, State, node}
use pkgcore.Ebuild.PkgUpdates.Nodes.{opened}
use pkgcore.Prelude.{any}
use pkgcore.Repository.Mappings.Fresh.{not_some}
use pkgcore.Dicts.{keys, distinct, is_some-lookup}
use pkgcore.Ebuild.PkgUpdates.{
  process_updates, flatten, filled, commands, empty_state, read_updates,
}
use pkgcore.Ebuild.PkgUpdates.Nodes.{flatten_enough}
use pkgcore.Ebuild.PkgUpdates.Solved.{mods_at, Good, Solves}
use pkgcore.Ebuild.PkgUpdates.Steps.{Step}
use pkgcore.Ebuild.PkgUpdates.Lines.{
  follow, readable, process_updates-Step, process_updates-defined,
}

empty-Good : Good empty_state
unfolding lookup node distinct
empty-Good = record {
  below = λ k a i h. ground (arith, ap is_some h);
  apart = λ k j a b i h m. ground (arith, ap is_some h);
  ordered = λ i. refl;
  once = refl;
}

abbrev pub unless_empty : List Command → Option (List Command)
unless_empty cs = if is_empty cs then none else some cs

abbrev chain_of : List (List Item) → Option (ℕ × ℕ) → Option (List Command)
chain_of nodes none = none
chain_of nodes (some m) = unless_empty (flatten (length nodes) nodes (m.0))

lookup-filled :
    (nodes : List (List Item)) (ms : Dict Text (ℕ × ℕ)) (k : Text)
    → distinct text_eq ms ≡ true
    → lookup text_eq k (filled nodes ms) ≡ chain_of nodes (lookup text_eq k ms)
unfolding filled lookup distinct keys
lookup-filled nodes [] k h = refl
lookup-filled nodes ((j, m) ∷ ms) k h =
    elim (Bool-cases (is_empty (flatten (length nodes) nodes (m.0)))) [
      | inl x ↦ rw x (
          lookup-filled nodes ms k (ground (arith, h)) ∙ elim (Bool-cases (text_eq k j)) [
            | inr e ↦ rw e refl
            | inl e ↦ rw (e, x) (ap (chain_of nodes) (none_else e))
          ])
      | inr x ↦ elim (Bool-cases (text_eq k j)) [
        | inr e ↦ rw (x, e) (lookup-filled nodes ms k (ground (arith, h)))
        | inl e ↦ rw (x, e, x) refl
      ]
    ]
  where
    none_else : text_eq k j ≡ true → lookup text_eq k ms ≡ none
    none_else e = not_some (lookup text_eq k ms) (
        sym (is_some-lookup text_eq k ms)
        ∙ ap (λ x. any (text_eq x) (keys ms)) (text_eq_sound k j e)
        ∙ ground (arith, h))

mods_empty : (k : Text) → mods_at empty_state k ≡ none
unfolding lookup
mods_empty k = refl

-- in the end nothing is to come, and the deques give what they hold
flatten-Solves : (s : State) → Good s → Solves (flatten (length s.nodes) s.nodes) s (λ j. [])
flatten-Solves s g = record {
  at_tail = λ k a i h.
      enough i ∙ sym (append-nil (opened (flatten (length s.nodes) s.nodes) (node s.nodes i)));
  elsewhere = λ i h m. enough i;
}
  where
    enough :
        (i : ℕ)
        → flatten (length s.nodes) s.nodes i
          ≡ opened (flatten (length s.nodes) s.nodes) (node s.nodes i)
    enough i = flatten_enough s.nodes g.ordered (length s.nodes) i (ground arith)

-- Where no line makes `atom` raise, `read_updates` returns, and for each key it gives the commands
-- that the lines hold for the package that has this name at first, followed through its moves, and
-- no entry where there are none.
pub read_updates_lem :
    (atom : Text → Option Spec) (lines : List Text)
    → readable atom [] lines ≡ true
    → (cs : Dict Text (List Command)) × (read_updates atom lines ≡ some cs)
      × ((k : Text) → lookup text_eq k cs ≡ unless_empty (follow atom [] lines k))
unfolding read_updates commands
read_updates_lem atom lines h = elim (Option-cases (process_updates atom lines empty_state)) [
  | inl e ↦ (let d = process_updates-defined atom lines empty_state h in cc (d, e))
  | inr (s, e) ↦ (commands s, ap (λ o. o >>= λ x. some (commands x)) e, chains s e)
]
  where
    chains :
        (s : State)
        → process_updates atom lines empty_state ≡ some s
        → (k : Text) → lookup text_eq k (commands s) ≡ unless_empty (follow atom [] lines k)
    chains s e k = elim (Option-cases (mods_at s k)) [
      | inl n ↦
          lookup-filled s.nodes s.mods k step.good.once
          ∙ ap (chain_of s.nodes) n
          ∙ sym (ap unless_empty (step.same k n))
      | inr ((a, i), n) ↦
          lookup-filled s.nodes s.mods k step.good.once
          ∙ ap (chain_of s.nodes) n
          ∙ ap unless_empty (elim (step.starts solved k a i n) [
            | inl (l, m) ↦ ground (arith, ap is_some (sym (mods_empty k) ∙ m))
            | inr (m, p) ↦ p
          ])
    ]
      where
        v : ℕ → List Command
        v = flatten (length s.nodes) s.nodes

        step : Step v empty_state s (follow atom [] lines) (λ j. [])
        step = process_updates-Step atom v lines empty_state s e empty-Good

        solved : Solves v s (λ j. [])
        solved = flatten-Solves s step.good
