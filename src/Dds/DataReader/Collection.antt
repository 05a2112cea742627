-- ===== src/Dds/DataReader/Collection.antt =====
-- `create_indexed_sample_collection` of data_reader.rs. The iterator stops at the limit, so the
-- filter does not look at the samples after it. HashMap::into_keys gives some order, here that of
-- insertion; each key touches the samples and the state of its own instance only.
use dust_dds.Base.{
  ℕ, zero, suc, ◌+◌, ◌-◌, ◌%◌, ◌^◌, Bool, true, false, ◌&&◌, Option, none, some, List, [], ◌∷◌, any,
  retain, length, is_empty, ltb, if◌then◌else◌, Outcome, ret, panic, ◌>>=◌,
}
use dust_dds.Transport.Types.{ChangeKind, alive, alive_filtered}
use dust_dds.Dds.Errors.{DdsResult, ok, err, bad_parameter, no_data}
use dust_dds.Dds.Handles.{
  InstanceHandle, HashMap, handle_eq, contains_key, index, insert, keys, update_or,
}
use dust_dds.Dds.DataReader.{
  ViewStateKind, view_new, view_not_new, InstanceStateKind, instance_alive,
  instance_not_alive_disposed, instance_not_alive_no_writers, SampleStateKind, sample_read,
  sample_not_read, InstanceState, new_instance_state, update_state, mark_viewed, ReaderSample,
  IndexedSample, DataReaderEntity,
}

-- The derived `==`.
abbrev pub sample_state_eq : SampleStateKind → SampleStateKind → Bool
sample_state_eq sample_read sample_read = true
sample_state_eq sample_not_read sample_not_read = true
sample_state_eq _ _ = false

abbrev pub view_state_eq : ViewStateKind → ViewStateKind → Bool
view_state_eq view_new view_new = true
view_state_eq view_not_new view_not_new = true
view_state_eq _ _ = false

abbrev pub instance_state_eq : InstanceStateKind → InstanceStateKind → Bool
instance_state_eq instance_alive instance_alive = true
instance_state_eq instance_not_alive_disposed instance_not_alive_disposed = true
instance_state_eq instance_not_alive_no_writers instance_not_alive_no_writers = true
instance_state_eq _ _ = false

-- The arguments of `read` and `take`. `max_samples` is the bit pattern of an i32.
pub record Selection : Type 0 where
  pub max_samples : ℕ
  pub sample_states : List SampleStateKind
  pub view_states : List ViewStateKind
  pub instance_states : List InstanceStateKind
  pub specific_instance_handle : Option InstanceHandle

-- `max_samples as usize` extends the sign.
abbrev pub i32_as_usize : ℕ → ℕ
i32_as_usize a = if ltb a (2 ^ 31) then a else a + (2 ^ 64 - 2 ^ 32)

abbrev pub is_specific : Option InstanceHandle → InstanceHandle → Bool
is_specific none h = true
is_specific (some k) h = handle_eq k h

-- The closure of `filter`.
unfoldable pub is_selected : Selection → HashMap InstanceState → ReaderSample → Outcome Bool
unfolding index handle_eq
is_selected c instances cc =
    if any (sample_state_eq cc.sample_state) c.sample_states
    then (do
      instance_of ← index instances cc.instance_handle
      ret (
          any (view_state_eq instance_of.view_state) c.view_states
          && any (instance_state_eq instance_of.instance_state) c.instance_states
          && is_specific c.specific_instance_handle cc.instance_handle))
    else ret false

abbrev pub is_valid_data : ChangeKind → Bool
is_valid_data alive = true
is_valid_data alive_filtered = true
is_valid_data _ = false

-- The sum of the generation counts of an instance, and the difference of two such, on an i32.
abbrev pub generations : InstanceState → ℕ
generations i =
    (i.most_recent_disposed_generation_count + i.most_recent_no_writers_generation_count) % 2 ^ 32

abbrev pub i32_sub : ℕ → ℕ → ℕ
i32_sub a b = (a + 2 ^ 32 - b % 2 ^ 32) % 2 ^ 32

-- The sample that the loop pushes, from the state of its instance and that of the instance in the
-- collection.
unfoldable pub indexed_sample : ℕ → ReaderSample → InstanceState → InstanceState → IndexedSample
indexed_sample i cc current collected = record {
  index = i;
  data_value = if is_valid_data cc.kind then some cc.data_value else none;
  sample_info = record {
    sample_state = cc.sample_state;
    view_state = current.view_state;
    instance_state = current.instance_state;
    disposed_generation_count = cc.disposed_generation_count;
    no_writers_generation_count = cc.no_writers_generation_count;
    sample_rank = 0;
    generation_rank = 0;
    absolute_generation_rank = i32_sub (generations current) (generations collected);
    source_timestamp = cc.source_timestamp;
    instance_handle = cc.instance_handle;
    publication_handle = cc.writer_guid;
    valid_data = is_valid_data cc.kind;
  };
}

-- The loop over the filtered samples, from position `i` on, with at most `n` still to take.
unfoldable pub collect :
    Selection
    → HashMap InstanceState
    → ℕ
    → ℕ
    → List ReaderSample
    → HashMap InstanceState
    → Outcome (List IndexedSample × HashMap InstanceState)
unfolding is_selected index indexed_sample update_or update_state
collect c instances zero i ccs in_collection = ret ([], in_collection)
collect c instances (suc n) i [] in_collection = ret ([], in_collection)
collect c instances (suc n) i (cc ∷ ccs) in_collection = do
  chosen ← is_selected c instances cc
  elim chosen [
    | true ↦ (do
      let updated =
          update_or new_instance_state (λ s. update_state s cc.kind) cc.instance_handle
            in_collection
      current ← index instances cc.instance_handle
      collected ← index updated cc.instance_handle
      (samples, in_collection') ← collect c instances n (suc i) ccs updated
      ret (indexed_sample i cc current collected ∷ samples, in_collection'))
    | false ↦ collect c instances (suc n) (suc i) ccs in_collection
  ]

abbrev pub is_of : InstanceHandle → IndexedSample → Bool
is_of handle s = handle_eq s.sample_info.instance_handle handle

-- `.last().expect(..)`.
unfoldable pub last : List IndexedSample → Outcome IndexedSample
last [] = panic
last (x ∷ []) = ret x
last (x ∷ y ∷ ys) = last (y ∷ ys)

-- `total` counts the samples of the instance from here on.
unfoldable pub fill_ranks : InstanceHandle → ℕ → ℕ → List IndexedSample → List IndexedSample
unfolding handle_eq
fill_ranks handle recent total [] = []
fill_ranks handle recent total (s ∷ ss) =
    let of_others = fill_ranks handle recent total ss in
    let of_instance = fill_ranks handle recent (total - 1) ss in
    if is_of handle s
    then record s {
      sample_info = record s.sample_info {
        generation_rank = i32_sub s.sample_info.absolute_generation_rank recent;
        sample_rank = (total - 1) % 2 ^ 32;
      };
    }
      ∷ of_instance
    else s ∷ of_others

-- One handle of the loop after the collection.
unfoldable pub fill_instance :
    InstanceHandle
    → List IndexedSample
    → HashMap InstanceState
    → Outcome (List IndexedSample × HashMap InstanceState)
unfolding last fill_ranks index insert
fill_instance handle samples instances = do
  recent ← last (retain (is_of handle) samples)
  state ← index instances handle
  ret (
    fill_ranks handle recent.sample_info.absolute_generation_rank
        (length (retain (is_of handle) samples)) samples,
    insert handle (mark_viewed state) instances,
  )

unfoldable pub fill_instances :
    List InstanceHandle
    → List IndexedSample
    → HashMap InstanceState
    → Outcome (List IndexedSample × HashMap InstanceState)
unfolding fill_instance
fill_instances [] samples instances = ret (samples, instances)
fill_instances (handle ∷ handles) samples instances = do
  (samples', instances') ← fill_instance handle samples instances
  fill_instances handles samples' instances'

-- The handle, if one is given, is that of a known instance.
unfoldable pub handle_is_known : Option InstanceHandle → HashMap InstanceState → Bool
unfolding contains_key
handle_is_known none instances = true
handle_is_known (some h) instances = contains_key h instances

unfoldable pub create_indexed_sample_collection :
    DataReaderEntity → Selection → Outcome (DataReaderEntity × DdsResult (List IndexedSample))
unfolding handle_is_known collect fill_instances keys
create_indexed_sample_collection r c =
    if handle_is_known c.specific_instance_handle r.instances
    then (do
      (samples, in_collection) ←
          collect c r.instances (i32_as_usize c.max_samples) 0 r.sample_list []
      (samples', instances') ← fill_instances (keys in_collection) samples r.instances
      ret (
        record r { instances = instances' },
        if is_empty samples' then err no_data else ok samples',
      ))
    else ret (r, err bad_parameter)
