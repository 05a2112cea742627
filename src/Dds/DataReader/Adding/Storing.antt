-- ===== src/Dds/DataReader/Adding/Storing.antt =====
-- `add_reader_change` keeps the limits of the QoS.
use dust_dds.Base.{
  ◌≤◌, ◌≡◌, refl, sym, ◌∙◌, arith, true, false, none, some, List, [], ◌∷◌, ◌++◌, if◌then◌else◌, ret,
  Bool-cases, Option-cases, inl, inr,
}
use mathlib.Core.Path.{subst}
use dust_dds.Base.Returns.{Returns, Returns-bind}
use dust_dds.Transport.Types.{ChangeKind}
use dust_dds.Transport.History.{CacheChange}
use dust_dds.Transport.Types
use dust_dds.Dds.Errors.{DdsResult, ok, err}
use dust_dds.Dds.Handles.{InstanceHandle, HashMap, get}
use dust_dds.Dds.Time.{Time}
use dust_dds.Dds.Qos.{
  DataReaderQos, DestinationOrderQosPolicyKind, by_reception_timestamp, by_source_timestamp,
}
use dust_dds.Dds.DataReader.{ReaderSample, DataReaderEntity, InstanceState}
use dust_dds.Dds.DataReader.Adding.{
  AddChangeResult, guid_octets, count, sample_of_change, take_ownership, rejection,
  is_sample_of_interest_based_on_time, has_no_timestamp, abort_task, added, not_added, store_sample,
  finish_store, add_sample, filter_and_store, add_reader_change,
}
use dust_dds.Dds.DataReader.Adding.Limits.{count-append_one, IsDepth, Roomy, make_room-Roomy}
use dust_dds.Dds.DataReader.Adding.Bounds.{IsBounded, IsBounded-with, IsBounded-fewer}
use dust_dds.Dds.DataReader.Adding.Sorting.{IsTimed, IsOrdered, put_in_order-IsOrdered}
use dust_dds.Dds.DataReader.Adding.Instances.{
  KnownIn, update_instances-KnownIn, stored_known, is_unknown, AllKnown, AllKnown-le,
}
use dust_dds.Dds.DataReader.Adding.Converting.{Grown, Converts, convert-Converts}
use dust_dds.Dds.DataReader.Adding.Ownership.{OwnersMatched, owner_refuses-returns}

IsTimed-append :
    (order : DestinationOrderQosPolicyKind) (ccs kept : List ReaderSample) (sample : ReaderSample)
    → IsTimed order ccs
    → count has_no_timestamp kept ≤ count has_no_timestamp ccs
    → IsTimed order (sample ∷ [])
    → IsTimed order (kept ++ sample ∷ [])
IsTimed-append by_reception_timestamp ccs kept sample t le s = tt
IsTimed-append by_source_timestamp ccs kept sample t le s =
    ground (arith, count-append_one has_no_timestamp kept sample)

-- What a theorem of `add_reader_change` says of the state it ends in.
abbrev pub Ends : DataReaderQos → DataReaderEntity × DdsResult AddChangeResult → Type 0
Ends q x = (x.0.qos ≡ q) × IsBounded q x.0.sample_list × AllKnown x.0.instances x.0.sample_list

abort_task-Ends :
    (q : DataReaderQos) (h : InstanceHandle) (r : DataReaderEntity)
    (res : DdsResult AddChangeResult)
    → Ends q (r, res)
    → Ends q (abort_task h r, res)
abort_task-Ends q h r res e = elim (Option-cases (get h r.instance_deadline_missed_task)) [
  | inl gone ↦ rw (gone, abort_task) e
  | inr (t, there) ↦ rw (there, abort_task) e
]

finish_store-Bounded :
    (r : DataReaderEntity) (sample : ReaderSample) (kept : List ReaderSample)
    (o : DdsResult (HashMap InstanceState))
    → IsBounded r.qos r.sample_list
    → AllKnown r.instances r.sample_list
    → KnownIn sample.instance_handle r.instances o
    → IsTimed r.qos.destination_order (kept ++ sample ∷ [])
    → rejection r.qos.resource_limits sample.instance_handle r.sample_list ≡ none
    → Roomy r.qos.history sample.instance_handle r.sample_list kept
    → Returns (Ends r.qos) (finish_store r sample kept o)
unfolding finish_store
finish_store-Bounded r sample kept (err e) b known of_sample timed free room = (
  refl,
  IsBounded-fewer r.qos r.sample_list kept b room.fewer,
  AllKnown-le r.instances r.instances r.sample_list kept (λ k e. e) (room.fewer _) known,
)
finish_store-Bounded r sample kept (ok instances) b known of_sample timed free room =
    Returns-bind (IsOrdered r.qos.destination_order (kept ++ sample ∷ [])) (Ends r.qos) _ _
      (put_in_order-IsOrdered r.qos.destination_order (kept ++ sample ∷ []) timed)
      (λ sorted (_, same).
        abort_task-Ends r.qos sample.instance_handle _ (ok (added sample.instance_handle)) (
          refl,
          IsBounded-with r.qos sample r.sample_list kept sorted b free room
              (λ p. same p ∙ count-append_one p kept sample),
          stored_known r.instances instances sample r.sample_list kept sorted of_sample
              (room.fewer (is_unknown instances))
              (same (is_unknown instances) ∙ count-append_one (is_unknown instances) kept sample)
              known,
        ))

store_sample-Bounded :
    (r : DataReaderEntity) (sample : ReaderSample)
    → IsDepth r.qos.history
    → Ends r.qos (r, ok not_added)
    → IsTimed r.qos.destination_order r.sample_list
    → IsTimed r.qos.destination_order (sample ∷ [])
    → rejection r.qos.resource_limits sample.instance_handle r.sample_list ≡ none
    → Returns (Ends r.qos) (store_sample r sample)
unfolding store_sample
store_sample-Bounded r sample deep b timed new_timed free =
    Returns-bind (Roomy r.qos.history sample.instance_handle r.sample_list) (Ends r.qos) _ _
      (make_room-Roomy r.qos.history sample.instance_handle r.sample_list deep
        (b.1.depth sample.instance_handle))
      (λ kept room.
        finish_store-Bounded r sample kept _ b.1 b.2
          (update_instances-KnownIn sample.instance_handle sample.kind r.instances)
          (IsTimed-append r.qos.destination_order r.sample_list kept sample timed
            (room.fewer has_no_timestamp) new_timed)
          free room)

filter_and_store-Bounded :
    (r : DataReaderEntity) (sample : ReaderSample)
    → IsDepth r.qos.history
    → Ends r.qos (r, ok not_added)
    → IsTimed r.qos.destination_order r.sample_list
    → IsTimed r.qos.destination_order (sample ∷ [])
    → Returns (Ends r.qos) (filter_and_store r sample)
unfolding filter_and_store
filter_and_store-Bounded r sample deep b timed new_timed =
    elim (Bool-cases (is_sample_of_interest_based_on_time r sample)) [
      | inr e ↦ rw e b
      | inl e ↦
          elim (Option-cases
            (rejection r.qos.resource_limits sample.instance_handle r.sample_list)) [
              | inr (reason, k) ↦ rw (e, k) b
              | inl k ↦ rw (e, k) (store_sample-Bounded r sample deep b timed new_timed k)
            ]
    ]

add_sample-Bounded :
    (r : DataReaderEntity) (sample : ReaderSample)
    → IsDepth r.qos.history
    → Ends r.qos (r, ok not_added)
    → IsTimed r.qos.destination_order r.sample_list
    → IsTimed r.qos.destination_order (sample ∷ [])
    → OwnersMatched r.qos.ownership r.instance_ownership r.matched_publication_list
        sample.writer_guid
    → Returns (Ends r.qos) (add_sample r sample)
unfolding add_sample take_ownership
add_sample-Bounded r sample deep b timed new_timed m =
    Returns-bind (λ b. Unit {0}) (Ends r.qos) _ _ (owner_refuses-returns r.qos.ownership r sample m)
      (λ refused _.
        elim refused
          as (λ k. Returns (Ends r.qos) (
            if k
            then ret (r, ok not_added)
            else filter_and_store (take_ownership r sample) sample)) [
              | true ↦ b
              | false ↦
                  filter_and_store-Bounded (take_ownership r sample) sample deep b timed new_timed
            ])

-- The change has a source timestamp where the samples are ordered by it.
abbrev pub IsTimedChange : DestinationOrderQosPolicyKind → CacheChange → Type 0
IsTimedChange by_reception_timestamp c = Unit
IsTimedChange by_source_timestamp c = (t : Types.Time) × (c.source_timestamp ≡ some t)

sample_of_change-IsTimed :
    (order : DestinationOrderQosPolicyKind) (c : CacheChange) (t : Time) (h : InstanceHandle)
    (i : InstanceState)
    → IsTimedChange order c
    → IsTimed order (sample_of_change c t h i ∷ [])
unfolding sample_of_change
sample_of_change-IsTimed by_reception_timestamp c t h i e = tt
sample_of_change-IsTimed by_source_timestamp c t h i e = rw e.1 refl

Grown-Ends :
    (r r' : DataReaderEntity)
    → Grown r r'
    → Ends r.qos (r, ok not_added)
    → Ends r.qos (r', ok not_added)
Grown-Ends r r' (instances, same, grows) (is_qos, b, known) =
    subst (λ s. Ends r.qos (s, ok not_added)) (sym same)
      (
        refl,
        b,
        AllKnown-le r.instances instances r.sample_list r.sample_list grows (omega arith) known,
      )

after_conversion :
    (r : DataReaderEntity) (c : CacheChange) (t : Time)
    → IsDepth r.qos.history
    → Ends r.qos (r, ok not_added)
    → IsTimed r.qos.destination_order r.sample_list
    → IsTimedChange r.qos.destination_order c
    → OwnersMatched r.qos.ownership r.instance_ownership r.matched_publication_list
        (guid_octets c.writer_guid)
    → (x : DataReaderEntity × DdsResult ReaderSample) → Converts r c t x
    → Returns
        (Ends r.qos)
        (elim x.1 [ err e ↦ ret (x.0, err e) | ok sample ↦ add_sample x.0 sample ])
unfolding Converts
after_conversion r c t deep b timed new_timed m (r', err e) grown = Grown-Ends r r' grown b
after_conversion r c t deep b timed new_timed m (r', ok sample) (grown, h, state, made) =
    let (instances, same, grows) = grown in
    let with_instances = record r { instances = instances } in
    subst (λ s. Returns (Ends r.qos) (add_sample s sample)) (sym same)
      (subst (λ s. Returns (Ends r.qos) (add_sample with_instances s)) (sym made)
        (add_sample-Bounded with_instances (sample_of_change c t h state) deep
          (subst (λ s. Ends r.qos (s, ok not_added)) same (Grown-Ends r r' grown b)) timed
          (sample_of_change-IsTimed r.qos.destination_order c t h state new_timed)
          (unfold sample_of_change in m)))

-- A change is added to a reader of which these are within their limits: the alive samples of all
-- instances (max_samples), the samples of each instance (max_samples_per_instance), the alive ones of
-- each instance (the history's depth), and the number of distinct instances with samples
-- (max_instances). The samples are of known instances, and the depth is positive and below 2 ^ 32.
-- Where the samples are ordered by source, they and the change have source timestamps; under
-- exclusive ownership, the owners and the writer of the change are matched. Then the code returns,
-- whatever its result, and the samples are still within these limits and of known instances.
pub add_reader_change-IsBounded :
    (r : DataReaderEntity) (c : CacheChange) (t : Time)
    → IsDepth r.qos.history
    → IsBounded r.qos r.sample_list
    → AllKnown r.instances r.sample_list
    → IsTimed r.qos.destination_order r.sample_list
    → IsTimedChange r.qos.destination_order c
    → OwnersMatched r.qos.ownership r.instance_ownership r.matched_publication_list
        (guid_octets c.writer_guid)
    → Returns (Ends r.qos) (add_reader_change r c t)
unfolding add_reader_change
add_reader_change-IsBounded r c t deep b known timed new_timed m =
    Returns-bind (Converts r c t) (Ends r.qos) _ _ (convert-Converts r c t)
      (after_conversion r c t deep (refl, b, known) timed new_timed m)
