-- ===== src/Rtps.antt =====
-- dds/src/rtps: the RTPS protocol.
pub mod SequenceNumberSet
pub mod Messages
pub mod CacheChange
pub mod WriterProxy
pub mod StatefulReader
pub mod BehaviorTypes
pub mod ReaderProxy
pub mod StatefulWriter
pub mod Examples
pub mod ReaderLocator
pub mod StatelessReader
pub mod StatelessWriter
pub mod MessageReceiver
