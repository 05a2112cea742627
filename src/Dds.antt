-- ===== src/Dds.antt =====
-- dds/src/implementation/domain_participant_backend and the values of dds/src/dds that its entities
-- keep: the DDS entities above the RTPS protocol, and how they are matched.
pub mod Errors
pub mod Handles
pub mod Time
pub mod Qos
pub mod Status
pub mod TypeSupport
pub mod DataReader
pub mod DataWriter
pub mod Discovery
pub mod StatusCondition
pub mod Examples
