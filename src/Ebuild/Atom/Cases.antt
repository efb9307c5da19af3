-- ===== src/Ebuild/Atom/Cases.antt =====
-- What the cases of `intersects` say of two atoms whose versions one package satisfies.
use pkgcore.Prelude.{◌≡◌, ap, sym, ◌∙◌, Bool, true, ◌||◌, some, arith}
use pkgcore.Ebuild.Cmp.{equal, Snakeoil}
use pkgcore.Ebuild.Version.Key.{Stamped, revision_number, stamped_compare}
use pkgcore.Ebuild.Version.Render.{render}
use pkgcore.Ebuild.Version.Order.{Alike, Alike-sym}
use pkgcore.Ebuild.VersionMatch.{Op, exactly, tilde}
use pkgcore.Ebuild.VersionMatch.Meaning.{
  satisfies, satisfies_congruent, compares, IsStamped, match_version_plain,
}
use pkgcore.Ebuild.VersionMatch.Overlap.{opposite_bounds, tilde_lower, tilde_upper}
use pkgcore.Ebuild.Atom.{Atom, is_lower_bound, is_upper_bound, atom_matches, ranged_intersects}

-- The atom's version is the text of `a`.
pub record IsAtomAt (x : Atom) (a : Stamped) : Type 0 where
  pub stamped : IsStamped a
  pub version : x.version ≡ render a.0
  pub revision : x.revision ≡ a.1
  pub versioned : Alike a.1 a.1

exactly_equal : (a p : Stamped) → satisfies exactly a p ≡ true → stamped_compare p a ≡ equal
unfolding satisfies
exactly_equal a p h = ground arith

-- A ~ has no revision, since `atom` refuses one.
abbrev pub NoRevision : Op → Stamped → Type 0
NoRevision tilde a = revision_number a.1 ≡ 0
NoRevision _ a = Unit

-- Two ~ are compared as texts.
abbrev pub SameText : Op → Op → Stamped → Stamped → Type 0
SameText tilde tilde a b = (render a.0 ≡ render b.0) × (a.1 ≡ b.1)
SameText _ _ a b = Unit

pub exactly_on_left :
    (ob : Op) (a b p : Stamped)
    → satisfies exactly a p ≡ true
    → satisfies ob b p ≡ true
    → satisfies ob b a ≡ true
exactly_on_left ob a b p h k = sym (satisfies_congruent ob b p a (exactly_equal a p h)) ∙ k

lower-compares : (op : Op) → is_lower_bound op ≡ true → compares op ≡ true
lower-compares op h = ground arith

upper-compares : (op : Op) → is_upper_bound op ≡ true → compares op ≡ true
upper-compares op h = ground arith

ranged-compares : (op : Op) → (is_upper_bound op || is_lower_bound op) ≡ true → compares op ≡ true
ranged-compares op h = ground arith

or_left : (a b : Bool) → a ≡ true → (a || b) ≡ true
or_left a b h = ground arith

or_right : (a b : Bool) → b ≡ true → (a || b) ≡ true
or_right a b h = ground arith

module _ (snakeoil : Snakeoil) where
  pub atom_matches_lem :
      (x y : Atom) (a b : Stamped)
      → compares x.op ≡ true
      → IsAtomAt x a
      → IsAtomAt y b
      → Alike b.1 a.1
      → atom_matches snakeoil x y ≡ some (satisfies x.op a b)
  unfolding atom_matches
  atom_matches_lem x y a b h xa yb k =
      rw (xa.version, xa.revision, yb.version, yb.revision)
        (match_version_plain snakeoil x.op a b h xa.stamped yb.stamped k)

  module _ (p : Stamped) (x y : Atom) (a b : Stamped) (xa : IsAtomAt x a) (yb : IsAtomAt y b)
      (ab : Alike a.1 b.1) where
    -- Both are ranged, in opposite directions.
    ranged_lem :
        (is_upper_bound y.op || is_lower_bound y.op) ≡ true
        → compares x.op ≡ true
        → compares y.op ≡ true
        → satisfies y.op b a ≡ true
        → satisfies x.op a b ≡ true
        → ranged_intersects snakeoil x y ≡ some true
    unfolding ranged_intersects
    ranged_lem r xc yc h k = rw (
      r,
      atom_matches_lem y x b a yc yb xa ab,
      h,
      atom_matches_lem x y a b xc xa yb (Alike-sym a.1 b.1 ab),
      k,
    )

    pub opposite_lem :
        is_lower_bound x.op ≡ true
        → is_upper_bound y.op ≡ true
        → satisfies x.op a p ≡ true
        → satisfies y.op b p ≡ true
        → ranged_intersects snakeoil x y ≡ some true
    opposite_lem l u h k =
        let found = opposite_bounds x.op y.op a b p l u h k in
        ranged_lem (or_left _ _ u) (lower-compares x.op l) (upper-compares y.op u) found.0 found.1

    pub converse_lem :
        is_upper_bound x.op ≡ true
        → is_lower_bound y.op ≡ true
        → satisfies x.op a p ≡ true
        → satisfies y.op b p ≡ true
        → ranged_intersects snakeoil x y ≡ some true
    converse_lem u l h k =
        let found = opposite_bounds y.op x.op b a p l u k h in
        ranged_lem (or_right _ _ l) (upper-compares x.op u) (lower-compares y.op l) found.1 found.0

    -- `other` is a ~.
    pub tilde_lem :
        (is_upper_bound x.op || is_lower_bound x.op) ≡ true
        → y.op ≡ tilde
        → revision_number b.1 ≡ 0
        → satisfies x.op a p ≡ true
        → satisfies tilde b p ≡ true
        → ranged_intersects snakeoil x y ≡ some true
    unfolding ranged_intersects
    tilde_lem r t z h k = ground (
      arith,
      atom_matches_lem x y a b (ranged-compares x.op r) xa yb (Alike-sym a.1 b.1 ab),
      atom_matches_lem y x b a (ap compares t) yb xa ab,
      tilde_lower x.op a b p,
      tilde_upper x.op a b p,
    )
