-- ===== src/Rtps/Examples.antt =====
-- The theorems at concrete inputs, on one writer and one reader.
pub mod Fixture
pub mod Reader
pub mod Messages
pub mod Writer
pub mod Receiver
