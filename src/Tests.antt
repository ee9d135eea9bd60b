-- ===== src/Tests.antt =====
-- Tests: the theorems at concrete inputs.
mod Sample
mod Trees
mod TaskTests
mod StorageTests
mod Database
mod CommandTests
mod ServerTests
mod QueueTests
mod FramingTests
mod GraphTests
mod LevelsTests
mod ManagerTests
mod PoolTests
