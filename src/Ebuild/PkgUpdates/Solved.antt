-- ===== src/Ebuild/PkgUpdates/Solved.antt =====
-- What the deques of src/pkgcore/ebuild/pkg_updates.py will give: their contents, and at the tail
-- of a key's chain what is still to come for that key.
use mathlib.Core.List.{flat_map}
use pkgcore.Prelude.{
  ℕ, ◌<◌, true, false, ◌≡◌, sym, ap, ◌∙◌, ◌⊎◌, List, ◌++◌, Option, none, some, arith, ◌==◌, length,
  all, if◌then◌else◌, Bool-cases, inl, inr,
}
use pkgcore.Prelude.Text.{Text, text_eq}
use pkgcore.Prelude.Text.Laws.{text_eq_sym, text_eq_sound, text_eq_refl}
use pkgcore.Restrictions.Solutions.Defined.{is_some}
use pkgcore.Dicts.{lookup, lookup-put, distinct, distinct-put}
use pkgcore.Ebuild.PkgUpdates.{Command, State, node, start_of, tail_of, make_mods}
use pkgcore.Ebuild.PkgUpdates.Nodes.{node_new, length_new, node_beyond, opened, newer}

abbrev pub mods_at : State → Text → Option (ℕ × ℕ)
mods_at s k = lookup text_eq k s.mods

-- The tails are deques, different ones for different keys, and deques hold newer ones only.
pub record Good (s : State) : Type 0 where
  pub below : (k : Text) (a i : ℕ) → mods_at s k ≡ some (a, i) → i < length s.nodes
  pub apart :
      (k j : Text) (a b i : ℕ)
      → mods_at s k ≡ some (a, i)
      → mods_at s j ≡ some (b, i)
      → text_eq k j ≡ true
  pub ordered : (i : ℕ) → all (newer i) (node s.nodes i) ≡ true
  pub once : distinct text_eq s.mods ≡ true

-- v is what the deques give in the end, and f what is to come for a key.
pub record Solves (v : ℕ → List Command) (s : State) (f : Text → List Command) : Type 0 where
  pub at_tail :
      (k : Text) (a i : ℕ) → mods_at s k ≡ some (a, i) → v i ≡ opened v (node s.nodes i) ++ f k
  pub elsewhere :
      (i : ℕ)
      → i < length s.nodes
      → ((k : Text) (a j : ℕ) → mods_at s k ≡ some (a, j) → (i == j) ≡ false)
      → v i ≡ opened v (node s.nodes i)

-- The key is there after `mods[key]`.
abbrev pub fresh_mods : State → Text → State
fresh_mods s k = make_mods s k none

pub mods-fresh :
    (s : State) (k j : Text)
    → mods_at (fresh_mods s k) j
      ≡ (if text_eq j k then some (length s.nodes, length s.nodes) else mods_at s j)
mods-fresh s k j = lookup-put text_eq text_eq_sound j k (length s.nodes, length s.nodes) s.mods

module _ (s : State) (k : Text) (absent : mods_at s k ≡ none) where
  -- an old key is another one
  old_key : (j : Text) (a i : ℕ) → mods_at s j ≡ some (a, i) → text_eq j k ≡ false
  old_key j a i h = elim (Bool-cases (text_eq j k)) [
    | inr e ↦ e
    | inl e ↦ ground (arith, ap is_some (sym h ∙ ap (mods_at s) (text_eq_sound j k e) ∙ absent))
  ]

  pub kept_key :
      (j : Text) (a i : ℕ) → mods_at s j ≡ some (a, i) → mods_at (fresh_mods s k) j ≡ some (a, i)
  kept_key j a i h =
      mods-fresh s k j
      ∙ ap (λ b. if b then some (length s.nodes, length s.nodes) else mods_at s j) (old_key j a i h)
      ∙ h

  -- a key of the new state is old, or the new one
  pub new_or_old :
      (j : Text) (a i : ℕ)
      → mods_at (fresh_mods s k) j ≡ some (a, i)
      → (mods_at s j ≡ some (a, i))
        ⊎ ((text_eq j k ≡ true) × (a ≡ length s.nodes) × (i ≡ length s.nodes))
  new_or_old j a i h = elim (Bool-cases (text_eq j k)) [
    | inr e ↦ inl (
        sym (
          mods-fresh s k j
          ∙ ap (λ b. if b then some (length s.nodes, length s.nodes) else mods_at s j) e)
        ∙ h)
    | inl e ↦
        let same =
          sym h
          ∙ mods-fresh s k j
          ∙ ap (λ b. if b then some (length s.nodes, length s.nodes) else mods_at s j) e in
        inr (e, ap start_of same, ap tail_of same)
  ]

  pub fresh-Good : Good s → Good (fresh_mods s k)
  fresh-Good g = record {
    below = λ j a i h. elim (new_or_old j a i h) [
      | inl e ↦ ground (arith, g.below j a i e, length_new s.nodes)
      | inr (e, p, q) ↦ ground (arith, q, length_new s.nodes)
    ];
    apart = λ j l a b i h m. elim (new_or_old j a i h) [
      | inl e ↦ elim (new_or_old l b i m) [
        | inl d ↦ g.apart j l a b i e d
        | inr (d, p, q) ↦ ground (arith, g.below j a i e, q)
      ]
      | inr (e, p, q) ↦ elim (new_or_old l b i m) [
        | inl d ↦ ground (arith, g.below l b i d, q)
        | inr (d, p2, q2) ↦ ap (text_eq j) (text_eq_sound l k d) ∙ e
      ]
    ];
    ordered = λ i. ap (all (newer i)) (node_new s.nodes i) ∙ g.ordered i;
    once =
        distinct-put text_eq text_eq_sound text_eq_sym k (length s.nodes, length s.nodes) s.mods
          g.once;
  }

  module _ (v : ℕ → List Command) (f : Text → List Command) where
    pub fresh-Solves : Good s → Solves v (fresh_mods s k) f → Solves v s f
    fresh-Solves g o = record {
      at_tail = λ j a i h.
          o.at_tail j a i (kept_key j a i h) ∙ ap (λ z. opened v z ++ f j) (node_new s.nodes i);
      elsewhere = λ i h m.
          o.elsewhere i (ground (arith, h, length_new s.nodes)) (λ j a l n.
            elim (new_or_old j a l n) [ inl e ↦ m j a l e | inr (e, p, q) ↦ ground (arith, h, q) ])
          ∙ ap (opened v) (node_new s.nodes i);
    }

    -- the new chain gives what is to come for its key
    pub fresh_value : Solves v (fresh_mods s k) f → v (length s.nodes) ≡ f k
    unfolding flat_map
    fresh_value o =
        o.at_tail k (length s.nodes) (length s.nodes) (
          mods-fresh s k k
          ∙ ap (λ b. if b then some (length s.nodes, length s.nodes) else mods_at s k)
              (text_eq_refl k))
        ∙ ap (λ z. opened v z ++ f k)
            (node_new s.nodes (length s.nodes)
              ∙ node_beyond s.nodes (length s.nodes) (ground arith))
