-- ===== src/Dds/Examples/Fixture.antt =====
-- A reader with two samples of one instance, for the examples.
use dust_dds.Base.{ℕ, true, false, none, some, List, [], ◌∷◌}
use dust_dds.Transport.Types.{alive, guidprefix_unknown, entityid_unknown}
use dust_dds.Transport.History.{CacheChange}
use dust_dds.Dds.Errors.{ok}
use dust_dds.Dds.Handles.{InstanceHandle}
use dust_dds.Dds.Time.{Time, finite, infinite}
use dust_dds.Dds.Qos.{
  DataReaderQos, OwnershipQosPolicyKind, limited, unlimited, keep_last, by_source_timestamp,
  volatile, automatic, best_effort,
}
use dust_dds.Dds.TypeSupport.{TypeSupport}
use dust_dds.Dds.DataReader.{
  ReaderSample, DataReaderEntity, sample_not_read, view_new, view_not_new, instance_alive,
  new_instance_state,
}
use dust_dds.Dds.DataReader.Collection.{Selection}
use dust_dds.Dds.DataReader.Matching

abbrev pub first_handle : InstanceHandle
first_handle = 1 ∷ []

abbrev pub at : ℕ → Time
at sec = record { sec = sec; nanosec = 0 }

abbrev pub sample : ℕ → ReaderSample
sample sec = record {
  kind = alive;
  writer_guid = 9 ∷ [];
  instance_handle = first_handle;
  source_timestamp = some (at sec);
  data_value = sec ∷ [];
  sample_state = sample_not_read;
  disposed_generation_count = 0;
  no_writers_generation_count = 0;
  reception_timestamp = at sec;
}

abbrev pub qos : OwnershipQosPolicyKind → DataReaderQos
qos ownership = record {
  durability = volatile;
  deadline = infinite;
  latency_budget = infinite;
  liveliness = record { kind = automatic; lease_duration = infinite };
  reliability = record { kind = best_effort; max_blocking_time = infinite };
  destination_order = by_source_timestamp;
  history = keep_last 2;
  resource_limits = record {
    max_samples = limited 3;
    max_instances = limited 1;
    max_samples_per_instance = unlimited;
  };
  ownership = ownership;
  time_based_filter = finite (record { sec = 0; nanosec = 0 });
  representation = [];
}

abbrev pub type_support : TypeSupport
type_support = record {
  handle_from_serialized_foo = λ octets. ok first_handle;
  handle_from_serialized_key = λ octets. ok first_handle;
  members_is_key = ok true ∷ [];
}

abbrev pub reader_with : OwnershipQosPolicyKind → List ReaderSample → DataReaderEntity
reader_with ownership samples = record {
  instance_handle = 7 ∷ [];
  sample_list = samples;
  qos = qos ownership;
  type_support = type_support;
  requested_deadline_missed_status = record {
    total_count = 0;
    total_count_change = 0;
    last_instance_handle = [];
  };
  requested_incompatible_qos_status = record {
    total_count = 0;
    total_count_change = 0;
    last_policy_id = 0;
    policies = [];
  };
  sample_rejected_status = Matching.no_rejection;
  subscription_matched_status = Matching.no_match;
  matched_publication_list = [];
  enabled = true;
  data_available_status_changed_flag = false;
  incompatible_writer_list = [];
  status_condition = [];
  instances = (first_handle, new_instance_state) ∷ [];
  instance_deadline_missed_task = [];
  aborted_tasks = [];
  instance_ownership = (first_handle, 9 ∷ []) ∷ [];
}

abbrev pub change : ℕ → CacheChange
change sec = record {
  kind = alive;
  writer_guid = record { prefix = guidprefix_unknown; entity_id = entityid_unknown };
  sequence_number = 1;
  source_timestamp = some (record { sec = sec; nanosec = 0 });
  instance_handle = none;
  data_value = sec ∷ [];
}

-- At most `n` samples that were not read.
abbrev pub not_read : ℕ → Selection
not_read n = record {
  max_samples = n;
  sample_states = sample_not_read ∷ [];
  view_states = view_new ∷ view_not_new ∷ [];
  instance_states = instance_alive ∷ [];
  specific_instance_handle = some first_handle;
}
