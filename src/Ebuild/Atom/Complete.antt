-- ===== src/Ebuild/Atom/Complete.antt =====
-- If a package satisfies the version restrictions of two atoms, `intersects` finds that they do.
use pkgcore.Prelude.{Bool, ◌||◌}
use pkgcore.Ebuild.VersionMatch.{Op}
use pkgcore.Ebuild.Atom.{Atom, is_lower_bound, is_upper_bound}

abbrev ranged : Op → Bool
ranged op = is_upper_bound op || is_lower_bound op
