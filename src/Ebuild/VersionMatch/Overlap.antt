-- ===== src/Ebuild/VersionMatch/Overlap.antt =====
-- What two operators that one package satisfies say of one another.
use pkgcore.Prelude.{◌≡◌, ◌≢◌, true, false, arith}
use pkgcore.Ebuild.Cmp.{equal, greater, flip}
use pkgcore.Ebuild.Cmp.Laws.{less_then_le, le_then_le, le_then_less, le_antisym}
use pkgcore.Ebuild.Version.Key.{
  version_compare, version-IsTotalPreorder, Stamped, revision_number, stamped_compare,
  stamped-IsTotalPreorder,
}
use pkgcore.Ebuild.VersionMatch.{
  Op, unversioned, below, at_most, exactly, at_least, above, tilde, glob,
}
use pkgcore.Ebuild.VersionMatch.Meaning.{satisfies}
use pkgcore.Ebuild.Atom.{is_lower_bound, is_upper_bound}

abbrev S : (a b : Stamped) → stamped_compare b a ≡ flip (stamped_compare a b)
S = stamped-IsTotalPreorder.converse

version_le : (a b : Stamped) → stamped_compare a b ≢ greater → version_compare a.0 b.0 ≢ greater
unfolding stamped_compare
version_le a b h e = ground arith

-- Revision 0 of a version is below every package of that version.
zero_revision_le :
    (b p : Stamped)
    → revision_number b.1 ≡ 0
    → version_compare p.0 b.0 ≡ equal
    → stamped_compare b p ≢ greater
unfolding stamped_compare
zero_revision_le b p z e g = ground (arith, version-IsTotalPreorder.converse p.0 b.0)

between_equal :
    (a b p : Stamped)
    → stamped_compare b a ≢ greater
    → stamped_compare a p ≢ greater
    → version_compare p.0 b.0 ≡ equal
    → version_compare a.0 b.0 ≡ equal
between_equal a b p h k e =
    le_antisym version-IsTotalPreorder a.0 b.0
      (le_then_le version-IsTotalPreorder a.0 p.0 b.0 (version_le a p k) (λ g. cc))
      (version_le b a h)

-- A lower and an upper bound that one package satisfies satisfy one another.
pub opposite_bounds :
    (oa ob : Op) (a b p : Stamped)
    → is_lower_bound oa ≡ true
    → is_upper_bound ob ≡ true
    → satisfies oa a p ≡ true
    → satisfies ob b p ≡ true
    → (satisfies ob b a ≡ true) × (satisfies oa a b ≡ true)
unfolding satisfies
opposite_bounds above below a b p l u h k =
    ground (arith, S a p, S a b, less_then_le stamped-IsTotalPreorder a p b)
opposite_bounds above at_most a b p l u h k =
    ground (arith, S a p, S a b, less_then_le stamped-IsTotalPreorder a p b)
opposite_bounds at_least below a b p l u h k =
    ground (arith, S a p, S a b, le_then_less stamped-IsTotalPreorder a p b)
opposite_bounds at_least at_most a b p l u h k =
    ground (arith, S a p, S a b, le_then_le stamped-IsTotalPreorder a p b)
opposite_bounds below ob a b p l u h k = cc
opposite_bounds at_most ob a b p l u h k = cc
opposite_bounds exactly ob a b p l u h k = cc
opposite_bounds tilde ob a b p l u h k = cc
opposite_bounds unversioned ob a b p l u h k = cc
opposite_bounds glob ob a b p l u h k = cc
opposite_bounds above ob a b p l u h k = cc
opposite_bounds at_least ob a b p l u h k = cc

-- A lower bound and a ~: the bound holds of the ~ itself, or the ~ holds of the bound.
pub tilde_lower :
    (oa : Op) (a b p : Stamped)
    → is_lower_bound oa ≡ true
    → revision_number b.1 ≡ 0
    → satisfies oa a p ≡ true
    → satisfies tilde b p ≡ true
    → satisfies oa a b ≡ false
    → satisfies tilde b a ≡ true
unfolding satisfies
tilde_lower above a b p l z h k n = ground (arith, S a p, S a b, between_equal a b p)
tilde_lower at_least a b p l z h k n = ground (arith, S a p, S a b, between_equal a b p)
tilde_lower oa a b p l z h k n = cc

-- An upper bound and a ~: the bound holds of the ~ itself.
pub tilde_upper :
    (oa : Op) (a b p : Stamped)
    → is_upper_bound oa ≡ true
    → revision_number b.1 ≡ 0
    → satisfies oa a p ≡ true
    → satisfies tilde b p ≡ true
    → satisfies oa a b ≡ true
unfolding satisfies
tilde_upper below a b p l z h k =
    ground (arith, zero_revision_le b p z, le_then_less stamped-IsTotalPreorder b p a)
tilde_upper at_most a b p l z h k =
    ground (arith, zero_revision_le b p z, le_then_le stamped-IsTotalPreorder b p a)
tilde_upper oa a b p l z h k = cc
