-- ===== src/Dds/Examples.antt =====
-- The theorems on the DDS entities at concrete inputs.
pub mod Fixture
pub mod Reader
pub mod Writer
pub mod Discovery
pub mod StatusCondition
