-- ===== src/Transport.antt =====
-- dds/src/transport: the types that the RTPS entities and their users share.
pub mod Types
pub mod History
