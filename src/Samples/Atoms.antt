-- ===== src/Samples/Atoms.antt =====
-- Atoms and incremental variables: src/pkgcore/ebuild/atom.py and misc.py.
use pkgcore.Prelude.{
  Bool, true, false, not, ◌||◌, all, ◌≡◌, inr, refl, List, [], ◌∷◌, none, some, is_empty, map,
}
use pkgcore.Prelude.Text.{Text, codes, text_eq}
use pkgcore.Ebuild.VersionMatch.{at_least, tilde}
use pkgcore.Ebuild.Conditionals.{all_of, element, conditional, Nodes, nil, cons}
use pkgcore.Ebuild.Conditionals.Known.{known_conditionals}
use pkgcore.Ebuild.Conditionals.OnTheWay.{same_state, unlocked}
use pkgcore.Ebuild.TransitiveUse.Known.{
  Dependency, transitive, conversion_of, evaluate_atom, evaluate_depset-known_conditionals,
}
use pkgcore.Ebuild.Conditionals.Evaluate.{evaluate_all, evaluate_depset}
use pkgcore.Ebuild.TransitiveUse.{
  recurse_use_conds, evaluate_use, variable_use, convert_to_conditionals,
}
use pkgcore.Ebuild.TransitiveUse.Converted.{convert_to_conditionals-evaluate_use}
use pkgcore.Ebuild.TransitiveUse.Parts.{Variable, render_variable, is_use_name, all_use_names}
use pkgcore.Ebuild.Atom.{Atom}
use pkgcore.Ebuild.Atom.Syntax.{ok, index_error, Eapi, Fields}
use pkgcore.Ebuild.Atom.Parse.{parse_fields, make_atom}
use pkgcore.Ebuild.Atom.UseDeps.{check_flags}
use pkgcore.Ebuild.Atom.SlotDeps.{chunk_ok, repo_ok}
use pkgcore.Ebuild.Atom.Parse.Pieces.{are_uses}
use pkgcore.Ebuild.Atom.Parse.SlotText.{are_slots}
use pkgcore.Ebuild.Atom.Print.{str_atom}
use pkgcore.Ebuild.Atom.Parse.Printed.{is_printable, parse_fields-str_atom}
use pkgcore.Ebuild.Atom.Parse.Checked.{atom_allowed, make_atom_lem}
use pkgcore.Ebuild.Incrementals.{Members, clear, incremental_expansion, optimize_incrementals}
use pkgcore.Ebuild.Incrementals.Optimized.{optimize_incrementals-incremental_expansion}
use pkgcore.Ebuild.Incrementals.Tokens.{NoNegations}
use mathlib.Core.List.{reverse}

abbrev uses : List Text
uses = codes "!y=" ∷ codes "-z" ∷ codes "x?" ∷ []

abbrev variables : List Variable
variables =
    record { negated = true; name = codes "y"; same = true }
    ∷ record { negated = false; name = codes "x"; same = false }
    ∷ []

uses-variables : variable_use uses ≡ map render_variable variables
unfolding variable_use render_variable
uses-variables = refl

variables-named : all_use_names variables ≡ true
unfolding is_use_name
variables-named = refl

abbrev enabled : Text → Bool
enabled flag = text_eq flag (codes "x")

convert_to_conditionals-evaluate_use_example :
    evaluate_all (unlocked enabled) (λ e. e) all_of (convert_to_conditionals uses)
    ≡ element (evaluate_use (unlocked enabled) uses) ∷ []
convert_to_conditionals-evaluate_use_example =
    convert_to_conditionals-evaluate_use enabled uses variables uses-variables variables-named

-- z? ( a[!y=,-z,x?] ), where the known conditionals are z, y and x
abbrev dependencies : Nodes Dependency
dependencies =
    cons
      (conditional false (codes "z")
        (cons (element (transitive uses variables uses-variables variables-named)) nil))
      nil

-- w is no known conditional.
abbrev enabled_too : Text → Bool
enabled_too flag = text_eq flag (codes "x") || text_eq flag (codes "w")

known-same :
    all (same_state enabled enabled_too) (known_conditionals conversion_of dependencies) ≡ true
unfolding known_conditionals conversion_of convert_to_conditionals recurse_use_conds
known-same = refl

evaluate_depset-known_conditionals_example :
    evaluate_depset (unlocked enabled) (evaluate_atom enabled) (dependencies, true)
    ≡ evaluate_depset (unlocked enabled_too) (evaluate_atom enabled_too) (dependencies, true)
evaluate_depset-known_conditionals_example =
    evaluate_depset-known_conditionals enabled enabled_too dependencies known-same

abbrev eapi : Eapi
eapi = record {
  unnamed = true;
  has_use_dep_defaults = true;
  sub_slotting = true;
  has_slot_deps = true;
  strong_blockers = true;
  has_use_deps = true;
  is_valid_use_flag = λ flag. not (is_empty flag);
}

-- !!>=dev-lang/perl-5.36-r1:0/5.36=::gentoo[-doc,debug?]
abbrev perl : Fields
perl = record {
  use_deps = some (codes "-doc" ∷ codes "debug?" ∷ []);
  transitive = true;
  repo_id = some (codes "gentoo");
  slot = some (codes "0");
  subslot = some (codes "5.36");
  slot_operator = some (codes "=");
  blocks = true;
  blocks_strongly = true;
  op = at_least;
  cpvstr = codes "dev-lang/perl-5.36-r1";
}

perl-printable : is_printable eapi perl ≡ true
unfolding is_printable are_slots chunk_ok repo_ok are_uses check_flags
perl-printable = refl

parse_fields-str_atom_example : parse_fields eapi (str_atom perl) ≡ ok perl
parse_fields-str_atom_example = parse_fields-str_atom eapi perl perl-printable

-- ~dev-lang/perl-5.36:0
abbrev perl_text : Text
perl_text = codes "~dev-lang/perl-5.36:0"

abbrev perl_atom : Atom
perl_atom = record {
  category = codes "dev-lang";
  package_name = codes "perl";
  op = tilde;
  version = codes "5.36";
  revision = some (record { text = []; number = 0 });
  fullver = codes "5.36";
  negate_vers = false;
  blocks = false;
  blocks_strongly = false;
  slot = some (codes "0");
  subslot = none;
  slot_operator = none;
  repo_id = none;
  use_deps = none;
}

perl_text-made : make_atom eapi false perl_text ≡ ok perl_atom
unfolding make_atom
perl_text-made = refl

make_atom_lem_example : atom_allowed eapi perl_atom ≡ true
make_atom_lem_example = make_atom_lem eapi false perl_text perl_atom perl_text-made

-- An exclamation mark alone is an IndexError.
mark_alone : make_atom eapi false (codes "!") ≡ index_error
unfolding make_atom
mark_alone = refl

abbrev keywords : List Text
keywords = codes "x" ∷ codes "-*" ∷ codes "amd64" ∷ codes "-amd64" ∷ codes "~arm" ∷ []

cleared-NoNegations : NoNegations clear
cleared-NoNegations m = refl

optimize_incrementals-incremental_expansion_example :
    (kept : List Text) × (s : Members) × (t : Members) × (optimize_incrementals keywords
      ≡ some kept)
    × (incremental_expansion true keywords clear ≡ some s)
    × (incremental_expansion true (reverse kept) clear ≡ some t)
    × ((m : Text) → s m ≡ t m)
optimize_incrementals-incremental_expansion_example =
    optimize_incrementals-incremental_expansion true keywords clear refl (inr cleared-NoNegations)
