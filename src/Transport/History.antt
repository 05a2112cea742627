-- ===== src/Transport/History.antt =====
-- dds/src/transport/{history_cache,reader,writer}.rs: a change of the history cache and the proxies that
-- the discovery hands to the RTPS entities.
use dust_dds.Base.{ℕ, Bool, Option, List}
use dust_dds.Transport.Types.{
  Guid, EntityId, Locator, SequenceNumber, ChangeKind, ReliabilityKind, DurabilityKind, Time,
}

pub record CacheChange : Type 0 where
  pub kind : ChangeKind
  pub writer_guid : Guid
  pub sequence_number : SequenceNumber
  pub source_timestamp : Option Time
  pub instance_handle : Option (List ℕ)
  pub data_value : List ℕ

pub record WriterProxy : Type 0 where
  pub remote_writer_guid : Guid
  pub remote_group_entity_id : EntityId
  pub reliability_kind : ReliabilityKind
  pub durability_kind : DurabilityKind
  pub unicast_locator_list : List Locator
  pub multicast_locator_list : List Locator
  pub data_max_size_serialized : ℕ

pub record ReaderProxy : Type 0 where
  pub remote_reader_guid : Guid
  pub remote_group_entity_id : EntityId
  pub reliability_kind : ReliabilityKind
  pub durability_kind : DurabilityKind
  pub unicast_locator_list : List Locator
  pub multicast_locator_list : List Locator
  pub expects_inline_qos : Bool
