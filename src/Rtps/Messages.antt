-- ===== src/Rtps/Messages.antt =====
-- dds/src/rtps/messages: the submessages as values (their bytes stand in other modules).
pub mod Types
pub mod Submessages
