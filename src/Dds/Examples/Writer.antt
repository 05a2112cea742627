-- ===== src/Dds/Examples/Writer.antt =====
-- The data writer's theorem on a reliable writer that keeps the last sample.
use dust_dds.Base.{refl, arith, true, [], ◌∷◌, inl}
use dust_dds.Base.Returns.{Returns}
use dust_dds.Transport.Types.{guidprefix_unknown, entityid_unknown}
use dust_dds.Dds.Time.{infinite}
use dust_dds.Dds.Qos.{
  DataWriterQos, limited, keep_last, by_source_timestamp, shared, volatile, automatic, reliable,
}
use dust_dds.Dds.DataWriter.{DataWriterEntity}
use dust_dds.Dds.DataWriter.Matching
use dust_dds.Dds.DataWriter.Writing.{Waiting, write_w_timestamp, next_number, total_samples}
use dust_dds.Dds.DataWriter.Writing.Evicting.{Waits}
use dust_dds.Dds.DataWriter.Writing.Results.{Wrote, write_w_timestamp-Wrote}
use dust_dds.Dds.Examples.Fixture.{first_handle, at, type_support}

abbrev pub writer_qos : DataWriterQos
writer_qos = record {
  durability = volatile;
  deadline = infinite;
  latency_budget = infinite;
  liveliness = record { kind = automatic; lease_duration = infinite };
  reliability = record { kind = reliable; max_blocking_time = infinite };
  destination_order = by_source_timestamp;
  history = keep_last 1;
  resource_limits = record {
    max_samples = limited 3;
    max_instances = limited 1;
    max_samples_per_instance = limited 2;
  };
  ownership = shared;
  ownership_strength = 0;
  representation = [];
}

abbrev with_one_sample : DataWriterEntity
with_one_sample =
    record (Matching.new (7 ∷ [])
      (record {
        is_stateful = true;
        guid = record { prefix = guidprefix_unknown; entity_id = entityid_unknown };
        history_cache = [];
      })
      type_support [] writer_qos) {
        enabled = true;
        last_change_sequence_number = 4;
        registered_instance_list = first_handle ∷ [];
        instance_samples = (first_handle, 4 ∷ []) ∷ [];
      }

abbrev acknowledged : Waiting
acknowledged = record { is_change_acknowledged = λ i sn. true; elapsed = λ i. i }

write_w_timestamp-Wrote_example :
    Returns
      (Wrote (next_number with_one_sample) (5 ∷ []) (at 2))
      (write_w_timestamp with_one_sample acknowledged 1 (5 ∷ []) (at 2))
unfolding Matching.new
write_w_timestamp-Wrote_example =
    write_w_timestamp-Wrote with_one_sample acknowledged 1 (5 ∷ []) (at 2)
      (omega arith, omega arith) (omega arith) (unfold Waits in λ sn. inl refl)
      (record {
        queues = ((omega arith, omega arith), tt);
        samples = unfold total_samples in omega arith;
        instances = omega arith;
      })
