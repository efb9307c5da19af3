-- ===== src/Ebuild.antt =====
-- src/pkgcore/ebuild: versions, package names, atoms, dependency sets and incremental variables.
pub mod Cmp
pub mod Version
pub mod VersionMatch
pub mod Names
pub mod Cpv
pub mod Atom
pub mod Conditionals
pub mod TransitiveUse
pub mod Incrementals
pub mod FilterEnv
pub mod PkgUpdates
