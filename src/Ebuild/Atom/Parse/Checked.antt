-- ===== src/Ebuild/Atom/Parse/Checked.antt =====
-- What an EAPI allows in an atom, and `atom.__init__` of src/pkgcore/ebuild/atom.py.
use pkgcore.Prelude.{
  Bool, true, false, not, ◌&&◌, ◌||◌, ◌≡◌, refl, ap, List, [], Option-cases, inl, inr, ◌∷◌, Option,
  none, some, ◌==◌, if◌then◌else◌, is_empty, arith,
}
use pkgcore.Prelude.Text.{Text, split}
use pkgcore.Ebuild.VersionMatch.{Op, unversioned}
use pkgcore.Ebuild.Cpv.{Cpv, make_cpv, one}
use pkgcore.Ebuild.Atom.{Atom, has_revision}
use pkgcore.Ebuild.Atom.Syntax.{
  Outcome, ok, malformed, index_error, unbound_local, ◌>>=◌, or_malformed, Eapi, Fields, is_some,
  cut,
}
use pkgcore.Ebuild.Atom.UseDeps.{parse_use, sorted, check_flags}
use pkgcore.Ebuild.Atom.Parse.Defaults.{defaults_allowed, check_flags-defaults_allowed}
use pkgcore.Ebuild.Atom.SlotDeps.{
  Slot, chunk_ok, make_slot, parse_slot, cut_slot, cut_repo, no_slot, repo_ok, anchored_slot,
  parse_anchor,
}
use pkgcore.Ebuild.Atom.Parse.{
  parse_blocks, parse_op, check_eapi, parse_fields, is_unversioned, is_tilde, with_cpv, make_atom,
}

-- What a parse gives, if it gives something, passes the test.
abbrev Gives : {A : Type 0} → (A → Bool) → Outcome A → Type 0
Gives {A} test m = (a : A) → m ≡ ok a → test a ≡ true

Gives-ok : {A : Type 0} (test : A → Bool) (a : A) → test a ≡ true → Gives test (ok a)
Gives-ok test a h b e = cc

Gives-malformed : {A : Type 0} (test : A → Bool) → Gives test malformed
Gives-malformed test a e = cc

Gives-option :
    {A B : Type 0} (test : B → Bool) (o : Option A) (m : Outcome B) (f : A → Outcome B)
    → Gives test m
    → ((a : A) → Gives test (f a))
    → Gives test (elim o [ none ↦ m | some a ↦ f a ])
Gives-option test none m f h k = h
Gives-option test (some a) m f h k = k a

Gives-if :
    {A : Type 0} (test : A → Bool) (b : Bool) (m n : Outcome A)
    → (b ≡ true → Gives test m)
    → (b ≡ false → Gives test n)
    → Gives test (if b then m else n)
Gives-if test true m n h k = h refl
Gives-if test false m n h k = k refl

Gives-bind :
    {A B : Type 0} (p : A → Bool) (q : B → Bool) (m : Outcome A) (f : A → Outcome B)
    → Gives p m
    → ((a : A) → p a ≡ true → Gives q (f a))
    → Gives q (m >>= f)
Gives-bind p q (ok a) f h k = k a (h a refl)
Gives-bind p q malformed f h k = Gives-malformed q
Gives-bind p q index_error f h k = λ b e. cc
Gives-bind p q unbound_local f h k = λ b e. cc

-- A subslot or an operator only where the EAPI has them.
abbrev slot_allowed : Eapi → Slot → Bool
slot_allowed eapi s = eapi.sub_slotting || (not (is_some s.subslot) && not (is_some s.operator))

make_slot-plain : (eapi : Eapi) (slot : Text) → Gives (slot_allowed eapi) (make_slot none none slot)
make_slot-plain eapi slot =
    Gives-if (slot_allowed eapi) (chunk_ok slot) _ malformed
      (λ h. Gives-ok (slot_allowed eapi) _ (ground arith))
      (λ h. Gives-malformed (slot_allowed eapi))

parse_slot-Gives : (eapi : Eapi) (s : Text) → Gives (slot_allowed eapi) (parse_slot eapi s)
unfolding parse_slot
parse_slot-Gives eapi [] = Gives-malformed (slot_allowed eapi)
parse_slot-Gives eapi (c ∷ s) =
    Gives-if (slot_allowed eapi) eapi.sub_slotting _ _ (λ h a e. rw h refl)
      (λ h.
        Gives-if (slot_allowed eapi) (not eapi.has_slot_deps) malformed _
          (λ k. Gives-malformed (slot_allowed eapi)) (λ k. make_slot-plain eapi (c ∷ s)))

anchored_slot-Gives : (eapi : Eapi) (s : Text) → Gives (slot_allowed eapi) (anchored_slot eapi s)
unfolding anchored_slot
anchored_slot-Gives eapi [] = Gives-ok (slot_allowed eapi) no_slot (ground arith)
anchored_slot-Gives eapi (c ∷ []) = Gives-ok (slot_allowed eapi) no_slot (ground arith)
anchored_slot-Gives eapi (c ∷ d ∷ s) = parse_slot-Gives eapi (d ∷ s)

abbrev anchor_allowed : Eapi → Text × Option Text × Slot → Bool
anchor_allowed eapi (left, repo_id, slot) = slot_allowed eapi slot

parse_anchor-Gives :
    (eapi : Eapi) (has_use : Bool) (s : Text)
    → Gives (anchor_allowed eapi) (parse_anchor eapi has_use s)
unfolding parse_anchor
parse_anchor-Gives eapi has_use s =
    Gives-option (anchor_allowed eapi) (cut_slot has_use s) _ _
      (Gives-ok (anchor_allowed eapi) (s, none, no_slot) (ground arith))
      (λ c.
        Gives-option (anchor_allowed eapi) (cut_repo (b':' ∷ c.1)) _ _
          (parsed c.0 none (parse_slot eapi c.1) (parse_slot-Gives eapi c.1))
          (λ d.
            Gives-if (anchor_allowed eapi) (repo_ok d.1) _ malformed
              (λ h. parsed c.0 (some d.1) (anchored_slot eapi d.0) (anchored_slot-Gives eapi d.0))
              (λ h. Gives-malformed (anchor_allowed eapi))))
  where
    parsed :
        (left : Text) (repo_id : Option Text) (m : Outcome Slot)
        → Gives (slot_allowed eapi) m
        → Gives (anchor_allowed eapi) (m >>= (λ slot. ok (left, repo_id, slot)))
    parsed left repo_id m h =
        Gives-bind (slot_allowed eapi) (anchor_allowed eapi) m _ h
          (λ a k. Gives-ok (anchor_allowed eapi) (left, repo_id, a) k)

abbrev blocks_allowed : Eapi → Bool × Bool × Text → Bool
blocks_allowed eapi (blocks, strongly, s) = not strongly || (blocks && eapi.strong_blockers)

parse_blocks-Gives : (eapi : Eapi) (s : Text) → Gives (blocks_allowed eapi) (parse_blocks eapi s)
unfolding parse_blocks
parse_blocks-Gives eapi [] = λ a e. cc
parse_blocks-Gives eapi (c ∷ []) =
    Gives-if (blocks_allowed eapi) (c == b'!') _ _ (λ h. Gives-ok (blocks_allowed eapi) _ refl)
      (λ h. Gives-ok (blocks_allowed eapi) _ refl)
parse_blocks-Gives eapi (c ∷ d ∷ s) =
    Gives-if (blocks_allowed eapi) (not (c == b'!')) _ _
      (λ h. Gives-ok (blocks_allowed eapi) _ refl)
      (λ h.
        Gives-if (blocks_allowed eapi) (not (d == b'!')) _ _
          (λ k. Gives-ok (blocks_allowed eapi) _ refl)
          (λ k.
            Gives-if (blocks_allowed eapi) eapi.strong_blockers _ malformed
              (λ l. Gives-ok (blocks_allowed eapi) _ l)
              (λ l. Gives-malformed (blocks_allowed eapi))))

abbrev use_allowed : Eapi → Text × Option (List Text) × Bool → Bool
use_allowed eapi (before, uses, transitive) = defaults_allowed eapi uses

parse_use-Gives : (eapi : Eapi) (s : Text) → Gives (use_allowed eapi) (parse_use eapi s)
unfolding parse_use defaults_allowed
parse_use-Gives eapi s =
    Gives-option (use_allowed eapi) (cut b'[' s) _ _
      (Gives-ok (use_allowed eapi) (s, none, false) refl)
      (λ c.
        Gives-option (use_allowed eapi) (cut b']' c.1) _ _ (Gives-malformed (use_allowed eapi))
          (λ d.
            Gives-if (use_allowed eapi) (not (is_empty d.1)) malformed _
              (λ h. Gives-malformed (use_allowed eapi))
              (λ h. uses_read c.0 (sorted (split b',' d.0)))))
  where
    uses_read :
        (before : Text) (uses : List Text)
        → Gives (use_allowed eapi) (elim (check_flags eapi uses) [
          | none ↦ malformed
          | some transitive ↦ ok (before, some uses, transitive)
        ])
    uses_read before uses = elim (Option-cases (check_flags eapi uses)) [
      | inl e ↦ rw e (Gives-malformed (use_allowed eapi))
      | inr (b, e) ↦ rw e (
          Gives-ok (use_allowed eapi) (before, some uses, b)
            (check_flags-defaults_allowed eapi uses (ap is_some e)))
    ]

-- What the EAPI says of the parsed fields.
unfoldable fields_allowed : Eapi → Fields → Bool
fields_allowed eapi f =
    (not f.blocks_strongly || (f.blocks && eapi.strong_blockers))
    && ((eapi.sub_slotting || (not (is_some f.subslot) && not (is_some f.slot_operator)))
        && ((not (is_some f.slot) || eapi.has_slot_deps)
            && ((not (is_some f.use_deps) || eapi.has_use_deps)
                && ((not (is_some f.repo_id) || eapi.unnamed)
                    && defaults_allowed eapi f.use_deps))))

check_eapi-Gives :
    (eapi : Eapi) (f : Fields)
    → (not f.blocks_strongly || (f.blocks && eapi.strong_blockers)) ≡ true
    → (eapi.sub_slotting || (not (is_some f.subslot) && not (is_some f.slot_operator))) ≡ true
    → defaults_allowed eapi f.use_deps ≡ true
    → Gives (fields_allowed eapi) (check_eapi eapi f)
unfolding check_eapi fields_allowed
check_eapi-Gives eapi f h k d =
    Gives-if (fields_allowed eapi) (is_some f.slot && not eapi.has_slot_deps) _ _
      (λ l.
        Gives-if (fields_allowed eapi) (is_some f.use_deps) malformed unbound_local (λ m a e. cc)
          (λ m a e. cc))
      (λ l.
        Gives-if (fields_allowed eapi) (is_some f.use_deps && not eapi.has_use_deps) malformed _
          (λ m a e. cc)
          (λ m.
            Gives-if (fields_allowed eapi) (not eapi.unnamed && is_some f.repo_id) malformed _
              (λ n a e. cc)
              (λ n. Gives-ok (fields_allowed eapi) f (ground (arith, h, k, l, m, n, d)))))

Gives-any : {A : Type 0} (m : Outcome A) → Gives (λ a. true) m
Gives-any m a e = refl

parse_fields-Gives : (eapi : Eapi) (s : Text) → Gives (fields_allowed eapi) (parse_fields eapi s)
unfolding parse_fields
parse_fields-Gives eapi s =
    Gives-bind (use_allowed eapi) (fields_allowed eapi)
      (if is_empty s then malformed else parse_use eapi s) _
      (Gives-if (use_allowed eapi) (is_empty s) malformed (parse_use eapi s)
        (λ b. Gives-malformed (use_allowed eapi)) (λ b. parse_use-Gives eapi s))
      (λ u t.
        Gives-bind (anchor_allowed eapi) (fields_allowed eapi) (parse_anchor eapi (is_some u.1) u.0)
          _ (parse_anchor-Gives eapi (is_some u.1) u.0)
          (λ v h.
            Gives-bind (blocks_allowed eapi) (fields_allowed eapi) (parse_blocks eapi v.0) _
              (parse_blocks-Gives eapi v.0)
              (λ w k.
                Gives-bind (λ a. true) (fields_allowed eapi) (parse_op w.2) _ (Gives-any _)
                  (λ x l. check_eapi-Gives eapi _ k h t))))

-- What the EAPI says of an atom, and the operator of its version.
unfoldable pub atom_allowed : Eapi → Atom → Bool
atom_allowed eapi a =
    (not a.blocks_strongly || (a.blocks && eapi.strong_blockers))
    && ((eapi.sub_slotting || (not (is_some a.subslot) && not (is_some a.slot_operator)))
        && ((not (is_some a.slot) || eapi.has_slot_deps)
            && ((not (is_some a.use_deps) || eapi.has_use_deps)
                && ((not (is_some a.repo_id) || eapi.unnamed)
                    && (defaults_allowed eapi a.use_deps
                        && not (is_tilde a.op && has_revision a.revision))))))

unversioned_tilde : (op : Op) → is_unversioned op ≡ true → is_tilde op ≡ false
unversioned_tilde unversioned h = refl
unversioned_tilde _ h = cc

with_cpv-Gives :
    (eapi : Eapi) (negate_vers : Bool) (f : Fields) (c : Cpv)
    → fields_allowed eapi f ≡ true
    → Gives (atom_allowed eapi) (with_cpv negate_vers f c)
unfolding with_cpv fields_allowed atom_allowed
with_cpv-Gives eapi negate_vers f c h =
    Gives-if (atom_allowed eapi) (is_unversioned f.op) _ _
      (λ u.
        Gives-if (atom_allowed eapi) (is_some c.version) malformed _
          (λ v. Gives-malformed (atom_allowed eapi))
          (λ v. Gives-ok (atom_allowed eapi) _ (ground (arith, h, unversioned_tilde f.op u))))
      (λ u.
        Gives-if (atom_allowed eapi) (not (is_some c.version)) malformed _
          (λ v. Gives-malformed (atom_allowed eapi))
          (λ v.
            Gives-if (atom_allowed eapi) (is_tilde f.op && has_revision c.revision) malformed _
              (λ w. Gives-malformed (atom_allowed eapi))
              (λ w. Gives-ok (atom_allowed eapi) _ (ground (arith, h, w)))))

-- An atom that was made holds nothing that its EAPI does not allow: a strong blocker, a slot, a
-- subslot or slot operator, use dependencies, a default of one, or, where an EAPI was asked for, a
-- repository; and an atom with the operator `~` has no revision.
pub make_atom_lem :
    (eapi : Eapi) (negate_vers : Bool) (s : Text) (a : Atom)
    → make_atom eapi negate_vers s ≡ ok a
    → atom_allowed eapi a ≡ true
unfolding make_atom
make_atom_lem eapi negate_vers s =
    Gives-bind (fields_allowed eapi) (atom_allowed eapi) (parse_fields eapi s) _
      (parse_fields-Gives eapi s)
      (λ f h.
        Gives-bind (λ c. true) (atom_allowed eapi)
          (or_malformed (make_cpv (one f.cpvstr (not (is_unversioned f.op))))) _ (Gives-any _)
          (λ c t. with_cpv-Gives eapi negate_vers f c h))
