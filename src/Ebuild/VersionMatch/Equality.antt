-- ===== src/Ebuild/VersionMatch/Equality.antt =====
-- Equality of version restrictions in src/pkgcore/ebuild/restricts.py, and the default-aware match
-- of use dependencies.
use mathlib.Core.Option
use pkgcore.Prelude.Text.Laws.{text_eq_refl}
use pkgcore.Prelude.{
  ℕ, Bool, true, false, not, ◌&&◌, ◌||◌, ◌≡◌, refl, ap, ◌∙◌, List, [], ◌∷◌, Option, none, some,
  ◌>>=◌, ◌==◌, if◌then◌else◌, any, all, arith, is_empty, ==_refl,
}
use pkgcore.Prelude.Text.{Text, text_eq}
use pkgcore.Ebuild.Cmp.{Sign, less, equal, greater, Snakeoil}
use pkgcore.Ebuild.Version.{Revision, ver_cmp}
use pkgcore.Ebuild.VersionMatch.{VersionMatch, sign_eq, differs, match_version}
use pkgcore.Resolver.Slots.{keep}

-- `tuple(sorted({-1, 0, 1}.difference(vals)))`
abbrev pub complement : List Sign → List Sign
complement vals = keep (λ s. not (any (sign_eq s) vals)) (less ∷ equal ∷ greater ∷ [])

unfoldable pub convert_ops : VersionMatch → List Sign
convert_ops m = if m.negate then (if m.droprev then m.vals else complement m.vals) else m.vals

abbrev pub signs_eq : List Sign → List Sign → Bool
signs_eq [] [] = true
signs_eq (s ∷ ss) (t ∷ ts) = sign_eq s t && signs_eq ss ts
signs_eq _ _ = false

-- `==` of revisions: None is equal to revision 0.
abbrev pub same_revision : Option Revision → Option Revision → Bool
same_revision none none = true
same_revision none (some s) = s.number == 0
same_revision (some r) none = r.number == 0
same_revision (some r) (some s) = r.number == s.number

-- `__eq__`, of two version restrictions
unfoldable pub version_match_eq : VersionMatch → VersionMatch → Bool
unfolding convert_ops
version_match_eq m n =
    if differs m.droprev n.droprev || (not (text_eq m.ver n.ver) || not (same_revision m.rev n.rev))
    then false
    else signs_eq (convert_ops m) (convert_ops n)

sign_eq_refl : (s : Sign) → sign_eq s s ≡ true
sign_eq_refl less = refl
sign_eq_refl equal = refl
sign_eq_refl greater = refl

complement_lem :
    (vals : List Sign) (c : Sign) → any (sign_eq c) (complement vals) ≡ not (any (sign_eq c) vals)
complement_lem vals less = ground arith
complement_lem vals equal = ground arith
complement_lem vals greater = ground arith

accepted_signs :
    (m : VersionMatch) (c : Sign)
    → m.droprev ≡ false
    → differs (any (sign_eq c) m.vals) m.negate ≡ any (sign_eq c) (convert_ops m)
unfolding convert_ops
accepted_signs m c h = ground (arith, complement_lem m.vals c)

of_compared :
    (m : VersionMatch) (o : Option Sign)
    → m.droprev ≡ false
    → (o >>= λ c. some (differs (any (sign_eq c) m.vals) m.negate))
      ≡ (o >>= λ c. some (any (sign_eq c) (convert_ops m)))
of_compared m none h = refl
of_compared m (some c) h = ap some (accepted_signs m c h)

-- A restriction that does not drop revisions matches a package exactly where the sign of
-- `ver_cmp` is among the signs that equality compares, whether it is negated or not, and raises
-- where `ver_cmp` does.
pub convert_ops_lem :
    (snakeoil : Snakeoil) (m : VersionMatch) (version : Text) (revision : Option Revision)
    → m.droprev ≡ false
    → match_version snakeoil m (some version) revision ≡ (
        ver_cmp snakeoil version revision m.ver m.rev >>= λ c.
        some (any (sign_eq c) (convert_ops m)))
unfolding match_version
convert_ops_lem snakeoil m version revision h =
    ap
      (λ b.
        (if b
          then ver_cmp snakeoil version none m.ver none
          else ver_cmp snakeoil version revision m.ver m.rev)
        >>= λ c. some (differs (any (sign_eq c) m.vals) m.negate))
      h
    ∙ of_compared m (ver_cmp snakeoil version revision m.ver m.rev) h

abbrev contains_flag : List ℕ → ℕ → Bool
contains_flag on f = any (λ g. f == g) on

abbrev subset_of : List ℕ → List ℕ → Bool
subset_of vals on = all (contains_flag on) vals

-- `ContainmentMatch.match` with `match_all`, of the flags that are on
unfoldable pub containment : Bool → List ℕ → List ℕ → Bool
containment negate vals use_flags = differs (subset_of vals use_flags) negate

-- `_UseDepDefaultContainment.match`, of the flags that the package has and of those that are on
unfoldable pub match_default : Bool → Bool → List ℕ → List ℕ → List ℕ → Bool
unfolding containment
match_default if_missing negate vals iuse_stripped use_flags =
    let reduced_vals = keep (contains_flag iuse_stripped) vals in
    if subset_of vals iuse_stripped
    then containment negate vals use_flags
    else if not (differs if_missing negate)
    then false
    else if is_empty reduced_vals
    then true
    else containment negate reduced_vals use_flags

signs_eq_refl : (ss : List Sign) → signs_eq ss ss ≡ true
signs_eq_refl [] = refl
signs_eq_refl (s ∷ ss) = ground (arith, sign_eq_refl s, signs_eq_refl ss)

same_revision_refl : (r : Option Revision) → same_revision r r ≡ true
same_revision_refl none = refl
same_revision_refl (some r) = ==_refl r.number

differs-not : (a n : Bool) → differs a (not n) ≡ not (differs a n)
differs-not a n = ground arith

same_signs :
    (n : Bool) (vals : List Sign)
    → signs_eq (if n then vals else vals) (if not n then vals else vals) ≡ true
same_signs true vals = signs_eq_refl vals
same_signs false vals = signs_eq_refl vals

opposite :
    (o : Option Sign) (vals : List Sign) (n : Bool)
    → (o >>= λ c. some (differs (any (sign_eq c) vals) (not n)))
      ≡ Option.map not (o >>= λ c. some (differs (any (sign_eq c) vals) n))
opposite none vals n = refl
opposite (some c) vals n = ap some (differs-not (any (sign_eq c) vals) n)

-- Of a restriction that drops revisions, its negation compares equal to it, though the two give
-- opposite answers on every version.
pub version_match_eq-match_version :
    (snakeoil : Snakeoil) (m : VersionMatch) (v : Text) (r : Option Revision)
    → m.droprev ≡ true
    → (version_match_eq m (record m { negate = not m.negate }) ≡ true)
      × (match_version snakeoil (record m { negate = not m.negate }) (some v) r
          ≡ Option.map not (match_version snakeoil m (some v) r))
unfolding version_match_eq convert_ops match_version
version_match_eq-match_version snakeoil m v r h = (
  rw (h, text_eq_refl m.ver, same_revision_refl m.rev) (same_signs m.negate m.vals),
  opposite
      (if m.droprev then ver_cmp snakeoil v none m.ver none else ver_cmp snakeoil v r m.ver m.rev)
      m.vals m.negate,
)
