-- ===== src/Glsa/Ranges.antt =====
-- What a range of an advisory matches: src/pkgcore/pkgsets/glsa.py.
use pkgcore.Prelude.{
  Bool, true, false, not, ◌&&◌, ◌||◌, ◌≡◌, refl, sym, ap, ◌∙◌, List, [], ◌∷◌, ◌++◌, Option, none,
  some, ◌>>=◌, arith, is_empty, if◌then◌else◌, Bool-cases, inl, inr,
}
use pkgcore.Prelude.Text.{Text, text_eq}
use pkgcore.Ebuild.Cmp.{Snakeoil, equal}
use pkgcore.Ebuild.Version.{Revision, no_revision}
use pkgcore.Ebuild.Version.Key.{Stamped}
use pkgcore.Ebuild.Version.Render.{render}
use pkgcore.Ebuild.Version.Order.{Alike}
use pkgcore.Ebuild.VersionMatch.{tilde, VersionMatch, make_version_match, match_version, differs}
use pkgcore.Ebuild.VersionMatch.Meaning.{satisfies, compares, IsStamped, match_version_plain}
use pkgcore.Glsa.{
  RangeOp, ge, gt, lt, le, eq, op_translate, Range, Part, by_version, and_of, Package, slot_part,
  close_range, same_version, unrevised, generate_restrict_from_range, match_part, match_parts,
  match_range,
}

abbrev pub is_gt : RangeOp → Bool
is_gt gt = true
is_gt _ = false

-- A range of no glob, and a package.
abbrev pub range_of : RangeOp → Bool → Text → Stamped → Text → Range
range_of op revised slot a full = record {
  op = op;
  revised = revised;
  slot = slot;
  glob = false;
  version = render a.0;
  revision = a.1;
  fullver = full;
}

abbrev pub package_of : Stamped → Text → Text → Package
package_of q full slot = record {
  version = render q.0;
  revision = q.1;
  fullver = full;
  slot = slot;
}

-- The package is on the side of the version that the operator names, with the letter r of the same
-- version but for the revision, and in the slot, if one is given.
abbrev pub in_range : RangeOp → Bool → Text → Stamped → Stamped → Text → Bool
in_range op revised slot a q pslot =
    (not revised || satisfies tilde a q)
    && (satisfies (op_translate op) a q && (is_empty slot || text_eq slot pslot))

made :
    (op : RangeOp) (v : Text) (r : Option Revision)
    → (m : VersionMatch) × (make_version_match (op_translate op) v r false ≡ some m)
unfolding make_version_match
made ge v r = (_, refl)
made gt v r = (_, refl)
made lt v r = (_, refl)
made le v r = (_, refl)
made eq v r = (_, refl)

translated : (op : RangeOp) → compares (op_translate op) ≡ true
translated ge = refl
translated gt = refl
translated lt = refl
translated le = refl
translated eq = refl

module _ (snakeoil : Snakeoil) (a q : Stamped) (full slot : Text) (ao : IsStamped a)
    (qo : IsStamped q) (alike : Alike q.1 a.1) where
  abbrev pkg : Package
  pkg = package_of q full slot

  part_then :
      (x : Part) (xs : List Part) (n b : Bool)
      → match_part snakeoil pkg x ≡ some b
      → match_parts snakeoil pkg n (x ∷ xs)
        ≡ (if not b then some n else match_parts snakeoil pkg n xs)
  unfolding match_parts
  part_then x xs n b h =
      ap (λ o. o >>= λ c. if not c then some n else match_parts snakeoil pkg n xs) h

  slot_parts :
      (s : Text) (n : Bool)
      → match_parts snakeoil pkg n (slot_part s) ≡ some (differs (is_empty s || text_eq s slot) n)
  unfolding match_parts match_part
  slot_parts [] n = ground arith
  slot_parts (c ∷ s) n = ground arith

  closed :
      (op : RangeOp) (revised : Bool) (s : Text) (range_full : Text) (n : Bool) (xs : List Part)
      (b : Bool)
      → ((ys : List Part)
          → match_parts snakeoil pkg n (xs ++ ys)
            ≡ (if not b then some n else match_parts snakeoil pkg n ys))
      → (close_range (range_of op revised s a range_full) n xs >>= match_range snakeoil pkg)
        ≡ some
            (differs (b && (satisfies (op_translate op) a q && (is_empty s || text_eq s slot))) n)
  unfolding close_range match_range match_part
  closed op revised s range_full n xs b h =
      let (m, e) = made op (render a.0) a.1 in
      let meant =
        sym (ap (λ o. o >>= λ x. match_version snakeoil x (some (render q.0)) q.1) e)
        ∙ match_version_plain snakeoil (op_translate op) a q (translated op) ao qo alike in
      ap
        (λ o.
          (o >>= λ x. some (and_of n (xs ++ by_version x ∷ slot_part s)))
          >>= match_range snakeoil pkg)
        e
      ∙ h (by_version m ∷ slot_part s)
      ∙ ap (λ z. if not b then some n else z)
          (part_then (by_version m) (slot_part s) n (satisfies (op_translate op) a q) meant
            ∙ ap (λ z. if not (satisfies (op_translate op) a q) then some n else z)
                (slot_parts s n))
      ∙ ground arith

  tilde_any :
      (n : Bool) (ys : List Part)
      → match_parts snakeoil pkg n (
          by_version (record {
            ver = render a.0;
            rev = none;
            droprev = true;
            vals = equal ∷ [];
            negate = false;
          })
          ∷ ys)
        ≡ (if not (satisfies tilde a q) then some n else match_parts snakeoil pkg n ys)
  unfolding match_part make_version_match match_version
  tilde_any n ys =
      part_then _ ys n (satisfies tilde a q)
        (match_version_plain snakeoil tilde a q refl ao qo alike)

  revised_range :
      (op : RangeOp) (s : Text) (range_full : Text) (n : Bool)
      → (same_version (range_of op true s a range_full) n >>= match_range snakeoil pkg)
        ≡ some (differs (in_range op true s a q slot) n)
  unfolding same_version make_version_match
  revised_range op s range_full n =
      closed op true s range_full n
        (by_version (record {
          ver = render a.0;
          rev = none;
          droprev = true;
          vals = equal ∷ [];
          negate = false;
        })
          ∷ [])
        (satisfies tilde a q) (tilde_any n)

-- A range without a glob, on a well-formed version, that has a revision where the operator has
-- the letter r, unless that is rgt, makes a restriction, and it matches a well-formed package, both with
-- a revision or both without, exactly when the package is in the range, or with `negate` exactly
-- when it is not.
pub generate_restrict_from_range_lem :
    (snakeoil : Snakeoil) (op : RangeOp) (revised : Bool) (range_slot range_full : Text)
    (a : Stamped) (q : Stamped) (full slot : Text) (negate : Bool)
    → (not revised || (not (no_revision a.1) || is_gt op)) ≡ true
    → IsStamped a
    → IsStamped q
    → Alike q.1 a.1
    → (generate_restrict_from_range (range_of op revised range_slot a range_full) negate
        >>= match_range snakeoil (package_of q full slot))
      ≡ some (differs (in_range op revised range_slot a q slot) negate)
unfolding generate_restrict_from_range unrevised
generate_restrict_from_range_lem snakeoil op false range_slot range_full a q full slot negate h ao
      qo k =
    closed snakeoil a q full slot ao qo k op false range_slot range_full negate [] true (λ ys. refl)
generate_restrict_from_range_lem snakeoil op true range_slot range_full a q full slot negate h ao qo
      k =
    elim (Bool-cases (no_revision a.1)) [
      | inr e ↦ rw e (revised_range snakeoil a q full slot ao qo k op range_slot range_full negate)
      | inl e ↦ rw e (by_gt op (ground (arith, h, e)))
    ]
  where
    by_gt :
        (o : RangeOp)
        → is_gt o ≡ true
        → (unrevised o (range_of o true range_slot a range_full) negate
            >>= match_range snakeoil (package_of q full slot))
          ≡ some (differs (in_range o true range_slot a q slot) negate)
    by_gt gt m = revised_range snakeoil a q full slot ao qo k gt range_slot range_full negate
    by_gt ge m = ground (arith, m)
    by_gt lt m = ground (arith, m)
    by_gt le m = ground (arith, m)
    by_gt eq m = ground (arith, m)
