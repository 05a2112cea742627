-- ===== src/Dds/DataReader/Adding.antt =====
-- `add_reader_change` of data_reader.rs, with `convert_cache_change_to_sample`: what a change of the
-- history cache does to the reader.
pub mod Limits
pub mod Distinct
pub mod Bounds
pub mod Instances
pub mod Converting
pub mod Ownership
pub mod Sorting
pub mod Storing
use dust_dds.Base.{
  ℕ, suc, ◌+◌, ◌%◌, ◌^◌, Bool, true, false, not, ◌&&◌, ◌||◌, Option, none, some, List, [], ◌∷◌,
  ◌++◌, any, retain, length, map, ltb, ◌==◌, if◌then◌else◌, i32_lt, Outcome, ret, panic, stuck,
  ◌>>=◌,
}
use dust_dds.Transport.Types.{
  ChangeKind, alive, alive_filtered, not_alive_disposed, not_alive_unregistered,
  not_alive_disposed_unregistered, Guid,
}
use dust_dds.Transport.History.{CacheChange}
use dust_dds.Dds.Errors.{DdsResult, ok, err, error}
use dust_dds.Dds.Handles.{
  InstanceHandle, HashMap, handle_eq, get, contains_key, index, insert, remove, update_or,
}
use dust_dds.Dds.Time.{Time, finite, from_transport, time_le, time_sub, duration_kind_le}
use dust_dds.Dds.Qos.{
  HistoryQosPolicyKind, keep_last, keep_all, ResourceLimitsQosPolicy, DestinationOrderQosPolicyKind,
  by_reception_timestamp, by_source_timestamp, OwnershipQosPolicyKind, shared, exclusive,
  usize_eq_length,
}
use dust_dds.Dds.Status.{
  SampleRejectedStatusKind, rejected_by_instances_limit, rejected_by_samples_limit,
  rejected_by_samples_per_instance_limit,
}
use dust_dds.Dds.TypeSupport.{TypeSupport}
use dust_dds.Dds.DataReader.{
  sample_not_read, InstanceState, new_instance_state, update_state, ReaderSample,
  PublicationBuiltinTopicData, DataReaderEntity,
}

pub data AddChangeResult : Type 0 where
  added : InstanceHandle → AddChangeResult
  not_added : AddChangeResult
  rejected : InstanceHandle → SampleRejectedStatusKind → AddChangeResult

-- `Guid` as 16 octets.
abbrev pub guid_octets : Guid → List ℕ
guid_octets g = g.prefix ++ g.entity_id.entity_key ++ g.entity_id.entity_kind ∷ []

abbrev pub has_data : ChangeKind → Bool
has_data alive = true
has_data alive_filtered = true
has_data _ = false

abbrev pub is_alive : ReaderSample → Bool
is_alive cc = elim cc.kind [ alive ↦ true | _ ↦ false ]

abbrev pub is_of_instance : InstanceHandle → ReaderSample → Bool
is_of_instance handle cc = handle_eq cc.instance_handle handle

abbrev pub count : (ReaderSample → Bool) → List ReaderSample → ℕ
count p ccs = length (retain p ccs)

unfoldable pub handle_of_change : TypeSupport → CacheChange → DdsResult InstanceHandle
handle_of_change type_support cache_change =
    if has_data cache_change.kind
    then type_support.handle_from_serialized_foo cache_change.data_value
    else elim cache_change.instance_handle [
      | some i ↦ ok i
      | none ↦ type_support.handle_from_serialized_key cache_change.data_value
    ]

-- The state of the sample's instance: a change with data makes the instance, another change finds
-- it or is an error.
unfoldable pub update_instances :
    InstanceHandle → ChangeKind → HashMap InstanceState → DdsResult (HashMap InstanceState)
unfolding update_or update_state get insert
update_instances handle kind instances =
    if has_data kind
    then ok (update_or new_instance_state (λ i. update_state i kind) handle instances)
    else elim (get handle instances) [
      | some i ↦ ok (insert handle (update_state i kind) instances)
      | none ↦ err error
    ]

unfoldable pub sample_of_change : CacheChange → Time → InstanceHandle → InstanceState → ReaderSample
unfolding from_transport
sample_of_change cache_change reception_timestamp handle state = record {
  kind = cache_change.kind;
  writer_guid = guid_octets cache_change.writer_guid;
  instance_handle = handle;
  source_timestamp = elim cache_change.source_timestamp [
    | none ↦ none
    | some t ↦ some (from_transport t)
  ];
  data_value = cache_change.data_value;
  sample_state = sample_not_read;
  disposed_generation_count = state.most_recent_disposed_generation_count;
  no_writers_generation_count = state.most_recent_no_writers_generation_count;
  reception_timestamp = reception_timestamp;
}

-- The sample, with the instances after the change.
unfoldable pub sample_in :
    DataReaderEntity
    → CacheChange
    → Time
    → InstanceHandle
    → DdsResult (HashMap InstanceState)
    → Outcome (DataReaderEntity × DdsResult ReaderSample)
unfolding index sample_of_change
sample_in r cache_change reception_timestamp handle (err e) = ret (r, err e)
sample_in r cache_change reception_timestamp handle (ok instances) = do
  state ← index instances handle
  ret (
    record r { instances = instances },
    ok (sample_of_change cache_change reception_timestamp handle state),
  )

unfoldable pub convert_cache_change_to_sample :
    DataReaderEntity → CacheChange → Time → Outcome (DataReaderEntity × DdsResult ReaderSample)
unfolding handle_of_change update_instances sample_in
convert_cache_change_to_sample r cache_change reception_timestamp =
    elim (handle_of_change r.type_support cache_change) [
      | err e ↦ ret (r, err e)
      | ok handle ↦
          sample_in r cache_change reception_timestamp handle
            (update_instances handle cache_change.kind r.instances)
    ]

-- Another writer owns the instance, and this one is not stronger.
unfoldable pub is_weaker :
    HashMap PublicationBuiltinTopicData → List ℕ → Option (List ℕ) → Outcome Bool
unfolding index handle_eq
is_weaker matched writer_guid none = ret false
is_weaker matched writer_guid (some owner) = if handle_eq owner writer_guid then ret false else (do
  writer ← index matched writer_guid
  owning ← index matched owner
  ret (not (i32_lt owning.ownership_strength writer.ownership_strength)))

unfoldable pub owner_refuses :
    OwnershipQosPolicyKind → DataReaderEntity → ReaderSample → Outcome Bool
unfolding get is_weaker
owner_refuses shared r sample = ret false
owner_refuses exclusive r sample =
    is_weaker r.matched_publication_list sample.writer_guid
      (get sample.instance_handle r.instance_ownership)

unfoldable pub take_ownership : DataReaderEntity → ReaderSample → DataReaderEntity
unfolding insert remove
take_ownership r sample =
    let owned : HashMap (List ℕ) = elim r.qos.ownership [
      | shared ↦ r.instance_ownership
      | exclusive ↦ insert sample.instance_handle sample.writer_guid r.instance_ownership
    ] in
    record r {
      instance_ownership =
          if has_data sample.kind then owned else remove sample.instance_handle owned;
    }

-- `Option<Time>` is ordered with None first.
abbrev pub timestamp_le : Option Time → Option Time → Bool
timestamp_le none b = true
timestamp_le (some a) none = false
timestamp_le (some a) (some b) = time_le a b

-- `.max()`.
unfoldable pub latest : List ReaderSample → Option (Option Time)
unfolding time_le
latest [] = none
latest (cc ∷ ccs) = elim (latest ccs) [
  | none ↦ some cc.source_timestamp
  | some t ↦ some (if timestamp_le cc.source_timestamp t then t else cc.source_timestamp)
]

unfoldable pub is_sample_of_interest_based_on_time : DataReaderEntity → ReaderSample → Bool
unfolding latest handle_eq time_le time_sub duration_kind_le
is_sample_of_interest_based_on_time r sample =
    elim (latest (
      retain
        (λ cc.
          is_of_instance sample.instance_handle cc
          && timestamp_le cc.source_timestamp sample.source_timestamp)
        r.sample_list)) [
          | some (some t) ↦ elim sample.source_timestamp [
            | some source ↦ duration_kind_le r.qos.time_based_filter (finite (time_sub source t))
            | none ↦ true
          ]
          | some none ↦ true
          | none ↦ true
        ]

-- The HashSet of the handles in the list.
unfoldable pub handles_of : List ReaderSample → List InstanceHandle
unfolding handle_eq
handles_of [] = []
handles_of (cc ∷ ccs) =
    let rest = handles_of ccs in
    if any (is_of_instance cc.instance_handle) ccs then rest else cc.instance_handle ∷ rest

-- The limit that the sample would pass, if any.
unfoldable pub rejection :
    ResourceLimitsQosPolicy → InstanceHandle → List ReaderSample → Option SampleRejectedStatusKind
unfolding usize_eq_length handles_of handle_eq
rejection limits handle ccs =
    if usize_eq_length (count is_alive ccs) limits.max_samples
    then some rejected_by_samples_limit
    else if not (any (is_of_instance handle) ccs)
        && usize_eq_length (length (handles_of ccs)) limits.max_instances
    then some rejected_by_instances_limit
    else if usize_eq_length (count (is_of_instance handle) ccs) limits.max_samples_per_instance
    then some rejected_by_samples_per_instance_limit
    else none

abbrev pub is_alive_of : InstanceHandle → ReaderSample → Bool
is_alive_of handle cc = is_of_instance handle cc && is_alive cc

-- `position(..).expect(..)` and `remove`.
unfoldable pub remove_first_alive : InstanceHandle → List ReaderSample → Outcome (List ReaderSample)
unfolding handle_eq
remove_first_alive handle [] = panic
remove_first_alive handle (cc ∷ ccs) =
    let rest = remove_first_alive handle ccs in
    if is_alive_of handle cc then ret ccs else (rest >>= λ ccs'. ret (cc ∷ ccs'))

unfoldable pub make_room :
    HistoryQosPolicyKind → InstanceHandle → List ReaderSample → Outcome (List ReaderSample)
unfolding remove_first_alive
make_room keep_all handle ccs = ret ccs
make_room (keep_last depth) handle ccs =
    if depth == count (is_alive_of handle) ccs % 2 ^ 32
    then remove_first_alive handle ccs
    else ret ccs

-- `sort_by` is stable.
unfoldable pub insert_by :
    (ReaderSample → ReaderSample → Bool) → ReaderSample → List ReaderSample → List ReaderSample
insert_by le x [] = x ∷ []
insert_by le x (y ∷ ys) = let rest = insert_by le x ys in if le x y then x ∷ y ∷ ys else y ∷ rest

unfoldable pub sort_by :
    (ReaderSample → ReaderSample → Bool) → List ReaderSample → List ReaderSample
unfolding insert_by
sort_by le [] = []
sort_by le (x ∷ xs) = insert_by le x (sort_by le xs)

abbrev pub has_no_timestamp : ReaderSample → Bool
has_no_timestamp cc = elim cc.source_timestamp [ none ↦ true | some t ↦ false ]

abbrev pub source_le : ReaderSample → ReaderSample → Bool
source_le a b = timestamp_le a.source_timestamp b.source_timestamp

abbrev pub reception_le : ReaderSample → ReaderSample → Bool
reception_le a b = time_le a.reception_timestamp b.reception_timestamp

-- Each sample of two or more is compared, and the comparison expects a source timestamp.
unfoldable pub put_in_order :
    DestinationOrderQosPolicyKind → List ReaderSample → Outcome (List ReaderSample)
unfolding sort_by time_le
put_in_order by_source_timestamp ccs =
    if ltb 1 (length ccs) && any has_no_timestamp ccs then panic else ret (sort_by source_le ccs)
put_in_order by_reception_timestamp ccs = ret (sort_by reception_le ccs)

abbrev pub abort_task : InstanceHandle → DataReaderEntity → DataReaderEntity
abort_task handle r = elim (get handle r.instance_deadline_missed_task) [
  | none ↦ r
  | some t ↦ record r {
    instance_deadline_missed_task = remove handle r.instance_deadline_missed_task;
    aborted_tasks = r.aborted_tasks ++ t ∷ [];
  }
]

-- The end of `add_reader_change`, with the instances after the sample.
unfoldable pub finish_store :
    DataReaderEntity
    → ReaderSample
    → List ReaderSample
    → DdsResult (HashMap InstanceState)
    → Outcome (DataReaderEntity × DdsResult AddChangeResult)
unfolding put_in_order get remove
finish_store r sample kept (err e) = ret (record r { sample_list = kept }, err e)
finish_store r sample kept (ok instances) = do
  sorted ← put_in_order r.qos.destination_order (kept ++ sample ∷ [])
  ret (
    abort_task sample.instance_handle (record r {
      sample_list = sorted;
      instances = instances;
      data_available_status_changed_flag = true;
    }),
    ok (added sample.instance_handle),
  )

unfoldable pub store_sample :
    DataReaderEntity → ReaderSample → Outcome (DataReaderEntity × DdsResult AddChangeResult)
unfolding make_room update_instances finish_store
store_sample r sample = do
  kept ← make_room r.qos.history sample.instance_handle r.sample_list
  finish_store r sample kept (update_instances sample.instance_handle sample.kind r.instances)

-- What follows the tests of ownership.
unfoldable pub filter_and_store :
    DataReaderEntity → ReaderSample → Outcome (DataReaderEntity × DdsResult AddChangeResult)
unfolding is_sample_of_interest_based_on_time rejection store_sample
filter_and_store r sample =
    if is_sample_of_interest_based_on_time r sample
    then elim (rejection r.qos.resource_limits sample.instance_handle r.sample_list) [
      | some reason ↦ ret (r, ok (rejected sample.instance_handle reason))
      | none ↦ store_sample r sample
    ]
    else ret (r, ok not_added)

-- What follows the conversion.
unfoldable pub add_sample :
    DataReaderEntity → ReaderSample → Outcome (DataReaderEntity × DdsResult AddChangeResult)
unfolding owner_refuses take_ownership filter_and_store
add_sample r sample = owner_refuses r.qos.ownership r sample >>= λ refused.
    if refused then ret (r, ok not_added) else filter_and_store (take_ownership r sample) sample

unfoldable pub add_reader_change :
    DataReaderEntity → CacheChange → Time → Outcome (DataReaderEntity × DdsResult AddChangeResult)
unfolding convert_cache_change_to_sample add_sample
add_reader_change r cache_change reception_timestamp = do
  (r', converted) ← convert_cache_change_to_sample r cache_change reception_timestamp
  elim converted [ err e ↦ ret (r', err e) | ok sample ↦ add_sample r' sample ]
