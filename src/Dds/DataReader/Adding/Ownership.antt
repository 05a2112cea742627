-- ===== src/Dds/DataReader/Adding/Ownership.antt =====
-- Exclusive ownership: when the test of the owner returns, and when it panics.
use dust_dds.Base.{
  ℕ, ◌≡◌, refl, ap, ◌∙◌, false, Option, none, some, List, if◌then◌else◌, ret, panic, ◌>>=◌,
  Bool-cases, Option-cases, inl, inr,
}
use dust_dds.Base.Returns.{Returns}
use dust_dds.Dds.Errors.{ok}
use dust_dds.Dds.Handles.{HashMap, handle_eq, get, index-get, index-none, get-remove_self, remove}
use dust_dds.Dds.Qos.{OwnershipQosPolicyKind, shared, exclusive}
use dust_dds.Dds.DataReader.{ReaderSample, DataReaderEntity, PublicationBuiltinTopicData}
use dust_dds.Dds.DataReader.Adding.{
  is_weaker, owner_refuses, take_ownership, not_added, add_sample, filter_and_store,
}
use dust_dds.Dds.DataReader.Matching.{remove_matched_publication}

-- Under exclusive ownership the owners and the writer of the change are matched publications.
abbrev pub IsMatched : HashMap PublicationBuiltinTopicData → List ℕ → Type 0
IsMatched matched guid = (d : PublicationBuiltinTopicData) × (get guid matched ≡ some d)

abbrev pub OwnersMatched :
    OwnershipQosPolicyKind
    → HashMap (List ℕ)
    → HashMap PublicationBuiltinTopicData
    → List ℕ
    → Type 0
OwnersMatched shared owners matched writer = Unit
OwnersMatched exclusive owners matched writer =
    ((h owner : List ℕ) → get h owners ≡ some owner → IsMatched matched owner)
    × IsMatched matched writer

is_weaker-returns :
    (matched : HashMap PublicationBuiltinTopicData) (writer : List ℕ) (owner : Option (List ℕ))
    → IsMatched matched writer
    → ((o : List ℕ) → owner ≡ some o → IsMatched matched o)
    → Returns (λ b. Unit {0}) (is_weaker matched writer owner)
unfolding is_weaker
is_weaker-returns matched writer none w o = tt
is_weaker-returns matched writer (some owner) w o = elim (Bool-cases (handle_eq owner writer)) [
  | inl e ↦ rw e tt
  | inr e ↦
      rw
        (
          e,
          index-get writer w.0 matched w.1,
          index-get owner (o owner refl).0 matched (o owner refl).1,
        )
        tt
]

pub owner_refuses-returns :
    (kind : OwnershipQosPolicyKind) (r : DataReaderEntity) (sample : ReaderSample)
    → OwnersMatched kind r.instance_ownership r.matched_publication_list sample.writer_guid
    → Returns (λ b. Unit {0}) (owner_refuses kind r sample)
unfolding owner_refuses
owner_refuses-returns shared r sample m = tt
owner_refuses-returns exclusive r sample m =
    is_weaker-returns r.matched_publication_list sample.writer_guid _ m.1
      (m.0 sample.instance_handle)

-- Where the owner is no matched publication, the test panics.
is_weaker_panics :
    (matched : HashMap PublicationBuiltinTopicData) (writer owner : List ℕ)
    → handle_eq owner writer ≡ false
    → get owner matched ≡ none
    → is_weaker matched writer (some owner) ≡ panic
unfolding is_weaker
is_weaker_panics matched writer owner other gone =
    rw (other, index-none owner matched gone)
      (elim (Option-cases (get writer matched)) [
        | inl e ↦ rw (index-none writer matched e) refl
        | inr (d, e) ↦ rw (index-get writer d matched e) refl
      ])

-- The publication that owns an instance is removed, and a sample of the instance arrives from
-- another writer: under exclusive ownership the code panics.
pub add_sample-removed_owner :
    (r : DataReaderEntity) (sample : ReaderSample) (owner : List ℕ)
    → r.qos.ownership ≡ exclusive
    → get sample.instance_handle r.instance_ownership ≡ some owner
    → handle_eq owner sample.writer_guid ≡ false
    → add_sample (remove_matched_publication r owner) sample ≡ panic
unfolding add_sample owner_refuses remove_matched_publication
add_sample-removed_owner r sample owner is_exclusive owned other =
    let refuses : owner_refuses r.qos.ownership (remove_matched_publication r owner) sample
        ≡ panic =
      ap (λ k. owner_refuses k (remove_matched_publication r owner) sample) is_exclusive
      ∙ ap (is_weaker (remove owner r.matched_publication_list) sample.writer_guid) owned
      ∙ is_weaker_panics (remove owner r.matched_publication_list) sample.writer_guid owner other
          (get-remove_self owner r.matched_publication_list) in
    ap
      (λ o. o >>= λ refused.
        if refused
        then ret (remove_matched_publication r owner, ok not_added)
        else filter_and_store (take_ownership (remove_matched_publication r owner) sample) sample)
      refuses
