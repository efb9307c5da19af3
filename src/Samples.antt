-- ===== src/Samples.antt =====
-- Concrete inputs: versions, restrictions and states on which the theorems are used.
pub mod Versions
pub mod Searches
pub mod Updates
pub mod Trees
pub mod Plans
pub mod Depsets
pub mod Atoms
pub mod Scans
