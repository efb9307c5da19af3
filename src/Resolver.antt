-- ===== src/Resolver.antt =====
-- src/pkgcore/resolver: the state of a dependency resolution, and how a step of it is undone.
pub mod Slots
pub mod Plan
pub mod Choice
pub mod Events
