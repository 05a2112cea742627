-- ===== src/Rtps/StatelessReader.antt =====
-- dds/src/rtps/stateless_reader.rs. The history cache, a trait, is the list of its `add_change`s.
use dust_dds.Base.{Option, List, [], ◌∷◌, ◌++◌, ◌||◌, if◌then◌else◌}
use dust_dds.Transport.Types.{Guid, GuidPrefix, entity_id_eq, entityid_unknown}
use dust_dds.Transport.History.{CacheChange}
use dust_dds.Rtps.Messages.Types.{Time}
use dust_dds.Rtps.Messages.Submessages.{DataSubmessage}
use dust_dds.Rtps.CacheChange.{Result, ok, err, try_from_data_submessage}

pub record RtpsStatelessReader : Type 0 where
  pub guid : Guid
  pub history_cache : List CacheChange

abbrev pub new : Guid → RtpsStatelessReader
new guid = record { guid = guid; history_cache = [] }

-- A change that cannot be converted is logged and discarded.
unfoldable pub deliver : RtpsStatelessReader → Result CacheChange → RtpsStatelessReader
deliver r (ok change) = record r { history_cache = r.history_cache ++ change ∷ [] }
deliver r (err e) = r

unfoldable pub on_data_submessage_received :
    RtpsStatelessReader → DataSubmessage → GuidPrefix → Option Time → RtpsStatelessReader
unfolding deliver
on_data_submessage_received r message source_guid_prefix source_timestamp =
    if entity_id_eq message.reader_id entityid_unknown
      || entity_id_eq message.reader_id r.guid.entity_id
    then deliver r (try_from_data_submessage message source_guid_prefix source_timestamp)
    else r
