-- ===== src/Samples/Versions.antt =====
-- Versions, package names and atoms: src/pkgcore/ebuild.
use mathlib.Core.Option
use pkgcore.Glsa.{le, generate_restrict_from_range, match_range}
use pkgcore.Glsa.Ranges.{range_of, package_of, in_range, generate_restrict_from_range_lem}
use pkgcore.Prelude.{any, true, false, not, ◌≡◌, ◌≢◌, refl, [], ◌∷◌, none, some, ◌>>=◌}
use pkgcore.Prelude.Text.{Text, codes, join}
use pkgcore.Ebuild.Cmp.{equal, less, greater, Snakeoil, three_way, flip}
use pkgcore.Ebuild.Version.{Revision, make_revision, rc, ver_cmp}
use pkgcore.Ebuild.Version.Key.{Version, stamped_compare, Stamped}
use pkgcore.Ebuild.Version.Render.{IsWellFormed, render}
use pkgcore.Ebuild.Version.Order.{IsRevision, ver_cmp_lem, ver_cmp_converse, ver_cmp_transitive}
use pkgcore.Ebuild.VersionMatch.Equality.{
  convert_ops, convert_ops_lem, version_match_eq, version_match_eq-match_version,
}
use pkgcore.Ebuild.VersionMatch.{VersionMatch, sign_eq, differs, at_least, below, match_version}
use pkgcore.Ebuild.VersionMatch.Meaning.{IsStamped}
use pkgcore.Ebuild.Atom.{Atom}
use pkgcore.Ebuild.Cpv.{Cpv, Args, one, cpvstr_of, versioned_of, make_cpv}
use pkgcore.Ebuild.Cpv.Kept.{whole_text, make_cpv-text}

abbrev by_order : Snakeoil
by_order = record { cmp = λ lt a b. three_way lt a b; cmp_lem = λ lt a b. refl }

abbrev one_two : Version
one_two = record { first = codes "1"; more = codes "2" ∷ []; letter = none; suffixes = [] }

abbrev one_ten_rc : Version
one_ten_rc = record {
  first = codes "1";
  more = codes "10" ∷ [];
  letter = some b'b';
  suffixes = (rc, codes "3") ∷ [];
}

abbrev two : Version
two = record { first = codes "2"; more = []; letter = none; suffixes = [] }

abbrev no_text : Revision
no_text = record { text = []; number = 0 }

abbrev third : Revision
third = record { text = codes "3"; number = 3 }

one_two-IsWellFormed : IsWellFormed one_two
one_two-IsWellFormed = record { numbers = refl; letter = refl; suffixes = refl }

one_ten_rc-IsWellFormed : IsWellFormed one_ten_rc
one_ten_rc-IsWellFormed = record { numbers = refl; letter = refl; suffixes = refl }

two-IsWellFormed : IsWellFormed two
two-IsWellFormed = record { numbers = refl; letter = refl; suffixes = refl }

no_text-IsRevision : IsRevision no_text
no_text-IsRevision = record { made = unfold make_revision in refl }

third-IsRevision : IsRevision third
third-IsRevision = record { made = unfold make_revision in refl }

ver_cmp_lem_example :
    ver_cmp by_order (render one_two) (some third) (render one_ten_rc) (some no_text)
    ≡ some (stamped_compare (one_two, some third) (one_ten_rc, some no_text))
ver_cmp_lem_example =
    ver_cmp_lem by_order one_two one_ten_rc (some third) (some no_text) one_two-IsWellFormed
      one_ten_rc-IsWellFormed (third-IsRevision, no_text-IsRevision)

ver_cmp_converse_example :
    ver_cmp by_order (render one_ten_rc) (some no_text) (render one_two) (some third)
    ≡ Option.map flip
        (ver_cmp by_order (render one_two) (some third) (render one_ten_rc) (some no_text))
ver_cmp_converse_example =
    ver_cmp_converse by_order one_two one_ten_rc (some third) (some no_text) one_two-IsWellFormed
      one_ten_rc-IsWellFormed (third-IsRevision, no_text-IsRevision)

one_two_below :
    ver_cmp by_order (render one_two) (some third) (render one_ten_rc) (some no_text) ≡ some less
unfolding ver_cmp render join
one_two_below = refl

one_ten_below :
    ver_cmp by_order (render one_ten_rc) (some no_text) (render two) (some third) ≡ some less
unfolding ver_cmp render join
one_ten_below = refl

one_ten_not_above :
    ver_cmp by_order (render one_ten_rc) (some no_text) (render two) (some third) ≢ some greater
one_ten_not_above e = cc (one_ten_below, e)

ver_cmp_transitive_example :
    ver_cmp by_order (render one_two) (some third) (render two) (some third) ≡ some less
ver_cmp_transitive_example =
    ver_cmp_transitive by_order one_two one_ten_rc two (some third) (some no_text) (some third)
      one_two-IsWellFormed one_ten_rc-IsWellFormed two-IsWellFormed
      (third-IsRevision, no_text-IsRevision) (no_text-IsRevision, third-IsRevision) one_two_below
      one_ten_not_above

one_two-IsStamped : IsStamped (one_two, some third)
one_two-IsStamped = record {
  version_ok = one_two-IsWellFormed;
  revision_ok = (third-IsRevision, third-IsRevision);
}

two-IsStamped : IsStamped (two, some third)
two-IsStamped = record {
  version_ok = two-IsWellFormed;
  revision_ok = (third-IsRevision, third-IsRevision);
}

abbrev new_atom : Text → Revision → Atom
new_atom version revision = record {
  category = codes "dev-lang";
  package_name = codes "python";
  op = at_least;
  version = version;
  revision = some revision;
  fullver = version;
  negate_vers = false;
  blocks = false;
  blocks_strongly = false;
  slot = none;
  subslot = none;
  slot_operator = none;
  repo_id = none;
  use_deps = none;
}

-- >=dev-lang/python-1.2-r3 and <dev-lang/python-2-r3; 1.10b_rc3 is between them.
abbrev lower : Atom
lower = new_atom (render one_two) third

abbrev upper : Atom
upper = record (new_atom (render two) third) { op = below }

abbrev at_three : Version → Stamped
at_three v = (v, some third)

abbrev python : Args
python = one (codes "dev-lang/python-1.2-r03") true

abbrev python_cpv : Cpv
python_cpv = record {
  category = codes "dev-lang";
  cpvstr = codes "dev-lang/python-1.2-r3";
  package_name = codes "python";
  key = codes "dev-lang/python";
  version = some (codes "1.2");
  fullver = some (codes "1.2-r03");
  revision = some (record { text = codes "03"; number = 3 });
}

make_python : make_cpv python ≡ some python_cpv
unfolding make_cpv
make_python = refl

make_cpv-text_example : cpvstr_of python ≡ whole_text python_cpv
make_cpv-text_example = make_cpv-text python python_cpv (unfold versioned_of in refl) make_python

abbrev tilde_one : VersionMatch
tilde_one = record {
  ver = codes "1.2";
  rev = none;
  droprev = true;
  vals = equal ∷ [];
  negate = false;
}

version_match_eq-match_version_example :
    (version_match_eq tilde_one (record tilde_one { negate = true }) ≡ true)
    × (match_version by_order (record tilde_one { negate = true }) (some (codes "1.20")) none
        ≡ Option.map not (match_version by_order tilde_one (some (codes "1.20")) none))
version_match_eq-match_version_example =
    version_match_eq-match_version by_order tilde_one (codes "1.20") none refl

abbrev not_below : VersionMatch
not_below = record tilde_one { droprev = false; vals = less ∷ []; negate = true }

convert_ops_lem_example : match_version by_order not_below (some (render one_two)) (some third) ≡ (
    ver_cmp by_order (render one_two) (some third) not_below.ver not_below.rev >>= λ c.
    some (any (sign_eq c) (convert_ops not_below)))
convert_ops_lem_example = convert_ops_lem by_order not_below (render one_two) (some third) refl

-- rle in the slot 0
generate_restrict_from_range_lem_example :
    (generate_restrict_from_range (range_of le true (codes "0") (two, some third) []) true >>= λ r.
    match_range by_order (package_of (one_two, some third) [] (codes "0")) r)
    ≡ some (
        differs
          (in_range le true (codes "0") (two, some third) (one_two, some third) (codes "0"))
          true)
generate_restrict_from_range_lem_example =
    generate_restrict_from_range_lem by_order le true (codes "0") [] (two, some third)
      (one_two, some third) [] (codes "0") true refl two-IsStamped one_two-IsStamped
      (third-IsRevision, third-IsRevision)
