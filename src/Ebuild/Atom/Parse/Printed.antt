-- ===== src/Ebuild/Atom/Parse/Printed.antt =====
-- `atom.__init__` reads back what `atom.__str__` has written.
use pkgcore.Prelude.{
  ℕ, Bool, true, false, not, ◌&&◌, ◌||◌, ◌≡◌, refl, ap, sym, ◌∙◌, [], ◌∷◌, ◌++◌, is_empty, all,
  append_assoc, arith, and_left, and_right,
}
use pkgcore.Prelude.Text.{Text}
use pkgcore.Prelude.Text.Laws.{lacks}
use pkgcore.Ebuild.Atom.Syntax.{ok, Eapi, Fields, is_some}
use pkgcore.Ebuild.Atom.UseDeps.{parse_use}
use pkgcore.Ebuild.Atom.SlotDeps.{parse_anchor}
use pkgcore.Ebuild.Atom.Parse.{parse_blocks, parse_op, check_eapi, parse_fields}
use pkgcore.Ebuild.Atom.Print.{str_version, str_blocks, str_slot, str_repo, str_use, str_atom}
use pkgcore.Ebuild.Atom.Parse.Pieces.{are_uses, parse_use-str}
use pkgcore.Ebuild.Atom.Parse.SlotText.{are_slots}
use pkgcore.Ebuild.Atom.Parse.Anchored.{
  are_repos, parse_anchor-str, joined-lacks, str_slot-lacks, str_repo-lacks,
}
use pkgcore.Ebuild.Atom.Parse.Marked.{
  is_cpvstr, is_atom_char, parse_op-text, str_version-Head, str_version-chars, blocks_ok,
  parse_blocks-marked, marked-chars, marked-begun, atom_chars-lack,
}

-- The fields as the parser leaves them, under an EAPI that allows what they hold.
unfoldable pub is_printable : Eapi → Fields → Bool
is_printable eapi f =
    is_cpvstr f.cpvstr
    && (blocks_ok eapi f.blocks f.blocks_strongly
        && (are_slots eapi f.slot f.subslot f.slot_operator
            && (are_repos f.repo_id
                && (are_uses eapi f.use_deps f.transitive
                    && ((not (is_some f.slot) || eapi.has_slot_deps)
                        && ((not (is_some f.use_deps) || eapi.has_use_deps)
                            && (not (is_some f.repo_id) || eapi.unnamed)))))))

record Printable (eapi : Eapi) (f : Fields) : Type 0 where
  cpvstr : is_cpvstr f.cpvstr ≡ true
  blocks : blocks_ok eapi f.blocks f.blocks_strongly ≡ true
  slots : are_slots eapi f.slot f.subslot f.slot_operator ≡ true
  repos : are_repos f.repo_id ≡ true
  uses : are_uses eapi f.use_deps f.transitive ≡ true
  allowed : check_eapi eapi f ≡ ok f

Printable-of : (eapi : Eapi) (f : Fields) → is_printable eapi f ≡ true → Printable eapi f
unfolding is_printable check_eapi
Printable-of eapi f h =
    let a = and_right (is_cpvstr f.cpvstr) _ h in
    let b = and_right (blocks_ok eapi f.blocks f.blocks_strongly) _ a in
    let c = and_right (are_slots eapi f.slot f.subslot f.slot_operator) _ b in
    let d = and_right (are_repos f.repo_id) _ c in
    let e = and_right (are_uses eapi f.use_deps f.transitive) _ d in
    record {
      cpvstr = and_left (is_cpvstr f.cpvstr) _ h;
      blocks = and_left (blocks_ok eapi f.blocks f.blocks_strongly) _ a;
      slots = and_left (are_slots eapi f.slot f.subslot f.slot_operator) _ b;
      repos = and_left (are_repos f.repo_id) _ c;
      uses = and_left (are_uses eapi f.use_deps f.transitive) _ d;
      allowed = ground (arith, e);
    }

-- What is left of the cut texts: blockers, operator and version.
record Version (eapi : Eapi) (f : Fields) : Type 0 where
  blocked :
      parse_blocks eapi (str_blocks f) ≡ ok (f.blocks, f.blocks_strongly, str_version f.op f.cpvstr)
  operator : parse_op (str_version f.op f.cpvstr) ≡ ok (f.op, f.cpvstr)
  chars : all is_atom_char (str_blocks f) ≡ true
  begun : (t : Text) → is_empty (str_blocks f ++ t) ≡ false

Version-of :
    (eapi : Eapi) (f : Fields) (c : ℕ) (s : Text)
    → f.cpvstr ≡ c ∷ s
    → Printable eapi f
    → Version eapi f
unfolding str_blocks
Version-of eapi f c s e p =
    let chars = and_right (not (is_empty (c ∷ s))) _ (ap is_cpvstr (sym e) ∙ p.cpvstr) in
    rw e (record {
      blocked =
          parse_blocks-marked eapi f.blocks f.blocks_strongly (str_version f.op (c ∷ s))
            (str_version-Head c s chars f.op) p.blocks;
      operator = parse_op-text c s chars f.op;
      chars =
          marked-chars f.blocks f.blocks_strongly (str_version f.op (c ∷ s))
            (str_version-chars c s chars f.op);
      begun =
          marked-begun f.blocks f.blocks_strongly (str_version f.op (c ∷ s))
            (str_version-Head c s chars f.op);
    })

Version-printable : (eapi : Eapi) (f : Fields) → Printable eapi f → Version eapi f
Version-printable eapi f p = cpvstr-cases f.cpvstr refl p.cpvstr
  where
    cpvstr-cases : (t : Text) → f.cpvstr ≡ t → is_cpvstr t ≡ true → Version eapi f
    cpvstr-cases [] e h = cc
    cpvstr-cases (c ∷ s) e h = Version-of eapi f c s e p

module _ (eapi : Eapi) (f : Fields) (p : Printable eapi f) where
  cut_off : Text
  cut_off = str_blocks f ++ str_slot f.slot f.subslot f.slot_operator ++ str_repo f.repo_id

  cut_off-lacks : lacks b'[' cut_off ≡ true
  unfolding cut_off
  cut_off-lacks =
      let v = Version-printable eapi f p in
      joined-lacks b'[' (str_blocks f ++ str_slot f.slot f.subslot f.slot_operator) _
        (joined-lacks b'[' (str_blocks f) _ (atom_chars-lack b'[' (str_blocks f) refl v.chars)
          (str_slot-lacks eapi f.slot f.subslot f.slot_operator p.slots))
        (str_repo-lacks f.repo_id p.repos)

  cut_off-begun : is_empty (cut_off ++ str_use f.use_deps) ≡ false
  unfolding cut_off
  cut_off-begun =
      let v = Version-printable eapi f p in
      rw
        (append_assoc (str_blocks f ++ str_slot f.slot f.subslot f.slot_operator)
          (str_repo f.repo_id) (str_use f.use_deps))
        (rw (append_assoc (str_blocks f) (str_slot f.slot f.subslot f.slot_operator) _) (v.begun _))

  parse_use-cut_off :
      parse_use eapi (cut_off ++ str_use f.use_deps) ≡ ok (cut_off, f.use_deps, f.transitive)
  parse_use-cut_off = parse_use-str eapi cut_off f.use_deps f.transitive cut_off-lacks p.uses

  parse_anchor-cut_off :
      parse_anchor eapi (is_some f.use_deps) cut_off
      ≡ ok (
        str_blocks f,
        f.repo_id,
        record { operator = f.slot_operator; slot = f.slot; subslot = f.subslot },
      )
  unfolding cut_off
  parse_anchor-cut_off =
      let v = Version-printable eapi f p in
      parse_anchor-str eapi (is_some f.use_deps) (str_blocks f) f.slot f.subslot f.slot_operator
        f.repo_id (atom_chars-lack b':' (str_blocks f) refl v.chars) p.slots p.repos

  parsed_again : parse_fields eapi (str_atom f) ≡ ok f
  unfolding parse_fields str_atom cut_off
  parsed_again =
      let v = Version-printable eapi f p in
      rw (cut_off-begun, parse_fields)
        (rw parse_use-cut_off (rw parse_anchor-cut_off (rw v.blocked (rw v.operator p.allowed))))

-- The text of an atom is read back as the atom's fields: its blockers and operator, a package and
-- version of letters, digits and `_+-./`, its slot, subslot and slot operator, its repository, and
-- its use dependencies in order, as long as the EAPI allows each of them and they are of the
-- form that the parser accepts.
pub parse_fields-str_atom :
    (eapi : Eapi) (f : Fields) → is_printable eapi f ≡ true → parse_fields eapi (str_atom f) ≡ ok f
parse_fields-str_atom eapi f h = parsed_again eapi f (Printable-of eapi f h)
