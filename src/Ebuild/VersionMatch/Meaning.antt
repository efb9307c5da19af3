-- ===== src/Ebuild/VersionMatch/Meaning.antt =====
-- What an operator asks of a package's version, in terms of the order of the keys.
use pkgcore.Prelude.{◌≡◌, refl, ap, ◌>>=◌, ◌∙◌, Bool, true, false, none, some, arith}
use pkgcore.Ebuild.Cmp.{Sign, less, equal, greater, Snakeoil}
use pkgcore.Ebuild.Version.Key.{
  Version, version_compare, version-IsTotalPreorder, Stamped, stamped_compare,
  stamped-IsTotalPreorder,
}
use pkgcore.Ebuild.Version.Render.{IsWellFormed, render}
use pkgcore.Ebuild.Version.Order.{Alike, ver_cmp_lem}
use pkgcore.Ebuild.VersionMatch.{
  Op, unversioned, below, at_most, exactly, at_least, above, tilde, glob, make_version_match,
  match_version, sign_eq, differs,
}

abbrev pub below_sign : Op → Sign → Bool
below_sign below less = true
below_sign at_most less = true
below_sign at_most equal = true
below_sign exactly equal = true
below_sign at_least equal = true
below_sign at_least greater = true
below_sign above greater = true
below_sign _ _ = false

-- The package `p` is on the side of `a` that the operator names; ~ leaves the revisions out.
unfoldable pub satisfies : Op → Stamped → Stamped → Bool
satisfies tilde a p = sign_eq (version_compare p.0 a.0) equal
satisfies op a p = below_sign op (stamped_compare p a)

-- The operators that compare versions; a glob compares texts.
abbrev pub compares : Op → Bool
compares unversioned = false
compares glob = false
compares _ = true

-- A version with its revision as a CPV holds them.
pub record IsStamped (a : Stamped) : Type 0 where
  pub version_ok : IsWellFormed a.0
  pub revision_ok : Alike a.1 a.1

module _ (snakeoil : Snakeoil) where
  version_only_lem :
      (v w : Version)
      → IsWellFormed v
      → IsWellFormed w
      → stamped_compare (v, none) (w, none) ≡ version_compare v w
  unfolding stamped_compare
  version_only_lem v w vo wo = ground arith

  pub match_version_lem :
      (op : Op) (a p : Stamped) (negate : Bool)
      → compares op ≡ true
      → IsStamped a
      → IsStamped p
      → Alike p.1 a.1
      → (make_version_match op (render a.0) a.1 negate >>= λ m.
          match_version snakeoil m (some (render p.0)) p.1)
        ≡ some (differs (satisfies op a p) negate)
  unfolding make_version_match match_version satisfies
  match_version_lem unversioned a p negate h ao po k = cc
  match_version_lem glob a p negate h ao po k = cc
  match_version_lem tilde a p negate h ao po k =
      rw
        (
          ver_cmp_lem snakeoil p.0 a.0 none none po.version_ok ao.version_ok tt,
          version_only_lem p.0 a.0 po.version_ok ao.version_ok,
        )
        (ground arith)
  match_version_lem below a p negate h ao po k =
      rw (ver_cmp_lem snakeoil p.0 a.0 p.1 a.1 po.version_ok ao.version_ok k) (ground arith)
  match_version_lem at_most a p negate h ao po k =
      rw (ver_cmp_lem snakeoil p.0 a.0 p.1 a.1 po.version_ok ao.version_ok k) (ground arith)
  match_version_lem exactly a p negate h ao po k =
      rw (ver_cmp_lem snakeoil p.0 a.0 p.1 a.1 po.version_ok ao.version_ok k) (ground arith)
  match_version_lem at_least a p negate h ao po k =
      rw (ver_cmp_lem snakeoil p.0 a.0 p.1 a.1 po.version_ok ao.version_ok k) (ground arith)
  match_version_lem above a p negate h ao po k =
      rw (ver_cmp_lem snakeoil p.0 a.0 p.1 a.1 po.version_ok ao.version_ok k) (ground arith)

  differs-false : (b : Bool) → differs b false ≡ b
  differs-false b = ground arith

  pub match_version_plain :
      (op : Op) (a p : Stamped)
      → compares op ≡ true
      → IsStamped a
      → IsStamped p
      → Alike p.1 a.1
      → (make_version_match op (render a.0) a.1 false >>= λ m.
          match_version snakeoil m (some (render p.0)) p.1)
        ≡ some (satisfies op a p)
  match_version_plain op a p h ao po k =
      match_version_lem op a p false h ao po k ∙ ap some (differs-false (satisfies op a p))

pub version_equal : (p q : Stamped) → stamped_compare p q ≡ equal → version_compare p.0 q.0 ≡ equal
unfolding stamped_compare
version_equal p q h = ground arith

-- Packages that compare equal satisfy the same.
pub satisfies_congruent :
    (op : Op) (b p q : Stamped) → stamped_compare p q ≡ equal → satisfies op b p ≡ satisfies op b q
unfolding satisfies
satisfies_congruent tilde b p q h =
    ap (λ c. sign_eq c equal) (version-IsTotalPreorder.congruent p.0 q.0 b.0 (version_equal p q h))
satisfies_congruent unversioned b p q h = refl
satisfies_congruent op b p q h = ap (below_sign op) (stamped-IsTotalPreorder.congruent p q b h)
