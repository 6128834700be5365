-- ===== src/Clock.antt =====
-- The logical clocks of packages/shared/src/clock: version vectors for content, and the Lamport
-- register for paths.
pub mod VersionVector
pub mod Lamport
