-- ===== src/Dds/DataReader/Reading/Taking.antt =====
-- What `read` and `take` give and leave.
use dust_dds.Base.{
  ℕ, zero, suc, ◌-◌, ◌≡◌, refl, sym, ap, ◌∙◌, arith, Bool, true, false, ◌&&◌, ◌||◌, Option, none,
  some, List, [], ◌∷◌, any, retain, length, map, is_empty, All, if◌then◌else◌, Outcome, ret, panic,
  stuck, ◌>>=◌, Bool-cases, inl, inr, ◌⊎◌,
}
use dust_dds.Base
use mathlib.Core.Path.{ap₂, subst}
use dust_dds.Base.Returns.{Returns, Returns-bind}
use dust_dds.Dds.Errors.{DdsResult, ok, err, no_data, not_enabled}
use dust_dds.Dds.Handles.{InstanceHandle, HashMap, get, contains_key, keys, keys-contains_key}
use dust_dds.Dds.DataReader.{
  InstanceState, ReaderSample, IndexedSample, SampleList, SampleInfo, DataReaderEntity,
}
use dust_dds.Dds.DataReader.Collection.{
  Selection, i32_as_usize, handle_is_known, create_indexed_sample_collection,
}
use dust_dds.Dds.DataReader.Reading.{
  indices_of, samples_of, read, take, remove_all, mark_all_read, remove_collection, mark_collection,
  removes_data_available,
}
use dust_dds.Dds.DataReader.Reading.Positions.{
  positions, left, marked, remove_all-positions, mark_all_read-positions,
}
use dust_dds.Dds.DataReader.Reading.Collecting.{
  IsKnown, chosen, Content, content_of, content_of_sample, Collected, collect-Collected,
}
use dust_dds.Dds.DataReader.Reading.Filling.{Filled, Present, fill_instances-Filled}

-- The first samples that the selection asks for, at most as many as it says.
unfoldable pub first : Selection → DataReaderEntity → List ReaderSample
first c r = Base.take (i32_as_usize c.max_samples) (retain (chosen c r.instances) r.sample_list)

-- What the collection is, where the handle that is asked for is known. Only the states of the
-- instances change.
Made : Selection → DataReaderEntity → DataReaderEntity × DdsResult (List IndexedSample) → Type 0
Made c r (r', ok ss) =
    (instances : HashMap InstanceState) × (r' ≡ record r { instances = instances })
    × ((k : InstanceHandle) → contains_key k r.instances ≡ true → contains_key k instances ≡ true)
    × (indices_of ss
        ≡ positions (chosen c r.instances) (i32_as_usize c.max_samples) 0 r.sample_list)
    × (map content_of ss ≡ map content_of_sample (first c r))
Made c r (r', err e) =
    (instances : HashMap InstanceState) × (r' ≡ record r { instances = instances })
    × (e ≡ no_data)
    × (first c r ≡ [])

All-weaken :
    {A : Type 0} (P Q : A → Type 0) (xs : List A) → ((x : A) → P x → Q x) → All P xs → All Q xs
All-weaken P Q [] f h = tt
All-weaken P Q (x ∷ xs) f h = (f x h.0, All-weaken P Q xs f h.1)

map-nil : {A B : Type 0} (f : A → B) (xs : List A) → [] ≡ map f xs → xs ≡ []
map-nil f [] e = refl
map-nil f (x ∷ xs) e = absurd (cc e)

-- Each instance of a collection has a sample in it.
present :
    (c : Selection) (r : DataReaderEntity) (x : List IndexedSample × HashMap InstanceState)
    → Collected c r.instances (i32_as_usize c.max_samples) 0 r.sample_list [] x
    → (k : InstanceHandle) → contains_key k x.1 ≡ true
    → Present x.0 r.instances k
unfolding contains_key get
present c r x made k e = elim (made.counted k e) [
  | inl none_before ↦ absurd (cc none_before)
  | inr there ↦ there
]

Made-of :
    (c : Selection) (r : DataReaderEntity) (x : List IndexedSample × HashMap InstanceState)
    → Collected c r.instances (i32_as_usize c.max_samples) 0 r.sample_list [] x
    → (ss : List IndexedSample) (instances : HashMap InstanceState)
    → Filled x.0 r.instances (ss, instances)
    → Made c r (record r { instances = instances }, if is_empty ss then err no_data else ok ss)
unfolding Made first
Made-of c r x made [] instances f =
    (instances, refl, refl, map-nil content_of_sample _ (f.contents ∙ made.contents))
Made-of c r x made (s ∷ ss) instances f =
    (instances, refl, f.known, f.indices ∙ made.indices, f.contents ∙ made.contents)

collection-Made :
    (c : Selection) (r : DataReaderEntity)
    → handle_is_known c.specific_instance_handle r.instances ≡ true
    → All (IsKnown r.instances) r.sample_list
    → Returns (Made c r) (create_indexed_sample_collection r c)
unfolding create_indexed_sample_collection
collection-Made c r given known = rw given (
    Returns-bind (Collected c r.instances (i32_as_usize c.max_samples) 0 r.sample_list [])
      (Made c r) _ _
      (collect-Collected c r.instances (i32_as_usize c.max_samples) 0 r.sample_list [] known)
      (λ x made.
        Returns-bind (Filled x.0 r.instances) (Made c r) _ _
          (fill_instances-Filled (keys x.1) x.0 r.instances
            (All-weaken _ _ (keys x.1) (present c r x made) (keys-contains_key x.1)))
          (λ y f. Made-of c r x made y.0 y.1 f)))

-- The content of a pair that `read` and `take` give.
abbrev pub content_of_pair : Option (List ℕ) × SampleInfo → Content
content_of_pair (data_value, info) = record {
  data_value = data_value;
  instance_handle = info.instance_handle;
  publication_handle = info.publication_handle;
  source_timestamp = info.source_timestamp;
}

contents-samples_of :
    (ss : List IndexedSample) → map content_of_pair (samples_of ss) ≡ map content_of ss
contents-samples_of [] = refl
contents-samples_of (s ∷ ss) = ap (◌∷◌ (content_of s)) (contents-samples_of ss)

-- The result of `take` or `read`, where `rest` is the list that it leaves.
unfoldable pub Gives :
    Selection
    → DataReaderEntity
    → List ReaderSample
    → DataReaderEntity × DdsResult SampleList
    → Type 0
unfolding first
Gives c r rest (r', ok samples) =
    (map content_of_pair samples ≡ map content_of_sample (first c r)) × (r'.sample_list ≡ rest)
Gives c r rest (r', err e) = (e ≡ no_data) × (first c r ≡ []) × (r'.sample_list ≡ r.sample_list)

module _ (c : Selection) (r : DataReaderEntity) where
  abbrev pub rest_of : List ReaderSample
  rest_of = left (chosen c r.instances) (i32_as_usize c.max_samples) r.sample_list

  abbrev pub marked_of : List ReaderSample
  marked_of = marked (chosen c r.instances) (i32_as_usize c.max_samples) r.sample_list

  remove_collection-Gives :
      (x : DataReaderEntity × DdsResult (List IndexedSample))
      → Made c r x
      → Returns (Gives c r rest_of) (remove_collection x)
  unfolding Made Gives remove_collection
  remove_collection-Gives (r', err e) (instances, same, is_no_data, none_asked) =
      (is_no_data, none_asked, ap (λ s. s.sample_list) same)
  remove_collection-Gives (r', ok ss) (instances, same, known, at, contents) =
      let removed =
        ap₂ remove_all at (ap (λ s. s.sample_list) same)
        ∙ remove_all-positions (chosen c r.instances) (i32_as_usize c.max_samples) r.sample_list in
      rw removed (contents-samples_of ss ∙ contents, refl)

  mark_collection-Gives :
      (x : DataReaderEntity × DdsResult (List IndexedSample))
      → Made c r x
      → Returns (Gives c r marked_of) (mark_collection x)
  unfolding Made Gives mark_collection
  mark_collection-Gives (r', err e) (instances, same, is_no_data, none_asked) =
      (is_no_data, none_asked, ap (λ s. s.sample_list) same)
  mark_collection-Gives (r', ok ss) (instances, same, known, at, contents) =
      let marks =
        ap₂ mark_all_read at (ap (λ s. s.sample_list) same)
        ∙ mark_all_read-positions (chosen c r.instances) (i32_as_usize c.max_samples)
            r.sample_list in
      rw marks (contents-samples_of ss ∙ contents, refl)

-- An enabled reader, whose samples are all of known instances, is asked for samples, of a known
-- instance if a handle is given. Then `take` returns: it gives the content of the first samples that
-- are asked for, at most as many as asked for, and takes just these from the list, whose order it
-- keeps; where there is none it gives NoData and leaves the list.
pub take-Gives :
    (r : DataReaderEntity) (c : Selection)
    → r.enabled ≡ true
    → handle_is_known c.specific_instance_handle r.instances ≡ true
    → All (IsKnown r.instances) r.sample_list
    → Returns (Gives c r (rest_of c r)) (take r c)
unfolding take
take-Gives r c on given known =
    subst
      (λ b. Returns (Gives c r (rest_of c r)) (
        if b
        then create_indexed_sample_collection r c >>= remove_collection
        else ret (r, err not_enabled)))
      (sym on)
      (Returns-bind (Made c r) _ (create_indexed_sample_collection r c) _
        (collection-Made c r given known) (remove_collection-Gives c r))

-- Under the same conditions `read` returns the same samples and leaves all in the list, with these
-- marked as read.
pub read-Gives :
    (r : DataReaderEntity) (c : Selection)
    → r.enabled ≡ true
    → handle_is_known c.specific_instance_handle r.instances ≡ true
    → All (IsKnown r.instances) r.sample_list
    → Returns (Gives c r (marked_of c r)) (read r c)
unfolding read Gives
read-Gives r c on given known =
    subst
      (λ b. Returns (Gives c r (marked_of c r)) (
        if b
        then create_indexed_sample_collection (removes_data_available r) c >>= mark_collection
        else ret (r, err not_enabled)))
      (sym on)
      (Returns-bind (Made c (removes_data_available r)) _
        (create_indexed_sample_collection (removes_data_available r) c) _
        (collection-Made c (removes_data_available r) given known)
        (mark_collection-Gives c (removes_data_available r)))
