-- ===== src/Lib.antt =====
-- pkgcore: the parts of a package manager that decide, modelled from its Python sources.
--
-- The program reads package versions, names and dependency atoms, combines them into trees of
-- restrictions, and resolves a set of atoms into a plan of package operations. A resolution takes a
-- choice point for an atom (the packages that match it, with their dependencies in conjunctive
-- form), filters out atoms that cannot be met, and records operations in a plan state, which keeps
-- the packages in slots and can be rolled back.
--
-- Ebuild (src/pkgcore/ebuild):
--   Version: `ver_cmp` of cpv.py. A text is the list of its code points; Version/Key has the parts
--   of a version and the order on them, Version/Render the texts of well-formed versions.
--   Names: the checks of categories, package names, versions and revisions in cpv.py. Cpv:
--   `CPV.__init__`; Cpv/Compare has the comparisons of CPV and Revision.
--   VersionMatch: `_VersionMatch` of restricts.py; VersionMatch/Equality has its `__eq__` and the
--   match of use dependencies with a default.
--   Atom: the fields of `atom`, `atom.intersects` and `atom.__cmp__` of atom.py. Atom/Parse has
--   `atom.__init__`, with its parts in Atom/UseDeps and Atom/SlotDeps, and Atom/Print `atom.__str__`;
--   Atom/Syntax has what they share. The options of an EAPI are a record that the parser asks.
--   TransitiveUse: `transitive_use_atom` of atom.py, told by the list of the atom's flags.
--   TransitiveUse/Known has the dependency sets of such atoms, with their known conditionals.
--   Conditionals: `DepSet.parse` and `stringify_boolean` of conditionals.py, on elements that a
--   parameter makes and prints. The loop over the words is a fold over states, in which a pending
--   word stands for the code's `next(words)`. Conditionals/Known has `find_cond_nodes`, `node_conds`
--   and `known_conditionals`, for any conversion of elements to conditionals,
--   and Conditionals/OnTheWay the conditions that an element stands under; Conditionals/Evaluate has `evaluate_conditionals` of
--   restrictions/boolean.py and restrictions/packages.py with `evaluate_depset`, which
--   TransitiveUse/Converted joins with the atoms.
--   Incrementals: the expansion of incremental variables of misc.py, on sets that are the tests of
--   their members.
--   FilterEnv: the scanners of filter_env.py for functions, assignments, quotes and the end of a
--   here document, on the position and the text from there on.
--   PkgUpdates: `_process_updates` and `read_updates` of pkg_updates.py; the deques that chains share
--   are a heap of numbered nodes. PkgUpdates/Lines says what a package's chain is to be.
--   Cmp: the three-way `cmp` of snakeoil, a parameter with its documented law.
-- Restrictions (src/pkgcore/restrictions):
--   the tree of boolean.py and restriction.py with `match`; Solutions has `dnf_solutions` and
--   `cnf_solutions`; RequiredUse has the constraints of required_use.py.
-- Repository (src/pkgcore/repository):
--   the data of a search of prototype.py, with the exact matches of restrictions/values.py, and the
--   collection of restrictions/util.py; Search has
--   `itermatch` with `_identify_candidates`, which looks at the solutions of Restrictions/Solutions.
--   Mappings has the mappings with their caches and the notifications of prototype.py, with the
--   store of util.py's SimpleTree; Dicts is Python's dict.
-- Glsa: the version ranges of security advisories, of pkgsets/glsa.py (src/pkgcore).
-- Resolver (src/pkgcore/resolver):
--   Slots: PigeonHoledSlots of pigeonholes.py. Plan: plan_state and its operations of state.py.
--   Choice: choice_point of choice_point.py. Events: the grouping of failures of util.py.
-- Samples: concrete inputs. Prelude: the shared names and lemmas.
--
-- An exception of the code is `none`, or a value where the caller tells exceptions apart. Dicts are
-- functions with an empty list for a missing key; a set of objects is a predicate, and a counting
-- set of snakeoil a parameter with its laws. Identity of objects is a parameter that decides
-- equality. Objects are values where no property depends on an alias; the
-- caches of a repository are a state that each read may change. The loops are
-- structural recursions on the lists that the code walks through; the search for the end of a
-- here document has fuel, since it does not end for every word, and the opening of nested deques,
-- for which their number is enough, since a deque holds newer ones only. Integers are unbounded as in
-- Python. Texts are ASCII where characters are classified.
--
-- Not modelled: the search of the merge plan, profiles, repositories on disk, the ebuild processor and the
-- command scanners of filter_env.py, fetching, synchronising and merging, which are file access,
-- processes and network, or are built on the parts above.
pub mod Prelude
pub mod Restrictions
pub mod Dicts
pub mod Repository
pub mod Ebuild
pub mod Glsa
pub mod Resolver
pub mod Samples
