-- ===== src/Dds/DataReader/Reading.antt =====
-- `read`, `take` and their variants for the next instance, of data_reader.rs.
pub mod Positions
pub mod Collecting
pub mod Filling
pub mod Taking
use dust_dds.Base.{
  ℕ, zero, suc, Bool, true, false, Option, none, some, List, [], ◌∷◌, ◌++◌, retain, map,
  if◌then◌else◌, Outcome, ret, panic, stuck, ◌>>=◌,
}
use dust_dds.Dds.Errors.{DdsResult, ok, err, not_enabled, no_data}
use dust_dds.Dds.Handles.{InstanceHandle, HashMap, handle_lt, keys}
use dust_dds.Dds.Status.{StatusMail, remove_communication_state, data_available}
use dust_dds.Dds.DataReader.{
  SampleStateKind, sample_read, ReaderSample, SampleList, IndexedSample, DataReaderEntity,
}
use dust_dds.Dds.DataReader.Collection.{Selection, create_indexed_sample_collection}

abbrev pub samples_of : List IndexedSample → SampleList
samples_of = map (λ s. (s.data_value, s.sample_info))

abbrev pub indices_of : List IndexedSample → List ℕ
indices_of = map (λ s. s.index)

-- `list[index] = ..` and `Vec::remove` panic out of range.
unfoldable pub mark_read : ℕ → List ReaderSample → Outcome (List ReaderSample)
mark_read i [] = panic
mark_read zero (s ∷ ss) = ret (record s { sample_state = sample_read } ∷ ss)
mark_read (suc i) (s ∷ ss) = mark_read i ss >>= λ ss'. ret (s ∷ ss')

unfoldable pub mark_all_read : List ℕ → List ReaderSample → Outcome (List ReaderSample)
unfolding mark_read
mark_all_read [] ss = ret ss
mark_all_read (i ∷ is) ss = mark_read i ss >>= mark_all_read is

unfoldable pub remove_at : ℕ → List ReaderSample → Outcome (List ReaderSample)
remove_at i [] = panic
remove_at zero (s ∷ ss) = ret ss
remove_at (suc i) (s ∷ ss) = remove_at i ss >>= λ ss'. ret (s ∷ ss')

-- `while let Some(index) = list.pop()`: the last index goes first.
unfoldable pub remove_all : List ℕ → List ReaderSample → Outcome (List ReaderSample)
unfolding remove_at
remove_all [] ss = ret ss
remove_all (i ∷ is) ss = remove_all is ss >>= remove_at i

abbrev pub removes_data_available : DataReaderEntity → DataReaderEntity
removes_data_available r = record r {
  status_condition = r.status_condition ++ remove_communication_state data_available ∷ [];
}

-- What is done with the collection, which may be an error.
unfoldable pub mark_collection :
    DataReaderEntity × DdsResult (List IndexedSample)
    → Outcome (DataReaderEntity × DdsResult SampleList)
unfolding mark_all_read
mark_collection (r, err e) = ret (r, err e)
mark_collection (r, ok samples) = do
  marked ← mark_all_read (indices_of samples) r.sample_list
  ret (record r { sample_list = marked }, ok (samples_of samples))

unfoldable pub remove_collection :
    DataReaderEntity × DdsResult (List IndexedSample)
    → Outcome (DataReaderEntity × DdsResult SampleList)
unfolding remove_all
remove_collection (r, err e) = ret (r, err e)
remove_collection (r, ok samples) = do
  left ← remove_all (indices_of samples) r.sample_list
  ret (removes_data_available (record r { sample_list = left }), ok (samples_of samples))

unfoldable pub read :
    DataReaderEntity → Selection → Outcome (DataReaderEntity × DdsResult SampleList)
unfolding create_indexed_sample_collection mark_collection
read r c =
    if r.enabled
    then create_indexed_sample_collection (removes_data_available r) c >>= mark_collection
    else ret (r, err not_enabled)

unfoldable pub take :
    DataReaderEntity → Selection → Outcome (DataReaderEntity × DdsResult SampleList)
unfolding create_indexed_sample_collection remove_collection
take r c =
    if r.enabled
    then create_indexed_sample_collection r c >>= remove_collection
    else ret (r, err not_enabled)

-- `Iterator::min` of handles.
unfoldable pub min_handle : List InstanceHandle → Option InstanceHandle
unfolding handle_lt
min_handle [] = none
min_handle (h ∷ hs) = elim (min_handle hs) [
  | none ↦ some h
  | some k ↦ some (if handle_lt k h then k else h)
]

unfoldable pub next_instance : DataReaderEntity → Option InstanceHandle → Option InstanceHandle
unfolding min_handle keys handle_lt
next_instance r none = min_handle (keys r.instances)
next_instance r (some p) = min_handle (retain (λ h. handle_lt p h) (keys r.instances))

unfoldable pub take_next_instance :
    DataReaderEntity
    → Option InstanceHandle
    → Selection
    → Outcome (DataReaderEntity × DdsResult SampleList)
unfolding next_instance take
take_next_instance r previous_handle c =
    if r.enabled
    then elim (next_instance r previous_handle) [
      | some next_handle ↦ take r (record c { specific_instance_handle = some next_handle })
      | none ↦ ret (r, err no_data)
    ]
    else ret (r, err not_enabled)

unfoldable pub read_next_instance :
    DataReaderEntity
    → Option InstanceHandle
    → Selection
    → Outcome (DataReaderEntity × DdsResult SampleList)
unfolding next_instance read
read_next_instance r previous_handle c =
    if r.enabled
    then elim (next_instance r previous_handle) [
      | some next_handle ↦ read r (record c { specific_instance_handle = some next_handle })
      | none ↦ ret (r, err no_data)
    ]
    else ret (r, err not_enabled)
