-- ===== src/Dds/DataReader/Reading/Collecting.antt =====
-- The collection of a reader whose samples are all of known instances: which samples are in it.
use dust_dds.Base.{
  ℕ, zero, suc, ◌≡◌, refl, sym, ap, ◌∙◌, arith, Bool, true, false, ◌&&◌, ◌||◌, Option, none, some,
  List, [], ◌∷◌, any, retain, map, All, if◌then◌else◌, Outcome, ret, panic, stuck, ◌>>=◌,
  Bool-cases, Option-cases, inl, inr, ◌⊎◌,
}
use dust_dds.Base
use mathlib.Core.Path.{subst}
use dust_dds.Base.Returns.{Returns, Returns-bind, Returns-map}
use dust_dds.Dds.Handles.{
  InstanceHandle, HashMap, handle_eq, handle_eq_iff, get, contains_key, update_or, index-update_or,
  contains_key-update_or, index-get,
}
use dust_dds.Dds.Time.{Time}
use dust_dds.Dds.DataReader.{
  InstanceState, ReaderSample, IndexedSample, new_instance_state, update_state,
}
use dust_dds.Dds.DataReader.Collection.{
  Selection, sample_state_eq, view_state_eq, instance_state_eq, is_specific, is_selected,
  is_valid_data, indexed_sample, collect, is_of,
}
use dust_dds.Dds.DataReader.Reading.{indices_of}
use dust_dds.Dds.DataReader.Reading.Positions.{positions}

abbrev pub IsKnown : HashMap InstanceState → ReaderSample → Type 0
IsKnown instances cc = (i : InstanceState) × (get cc.instance_handle instances ≡ some i)

-- The samples that a selection asks for.
unfoldable pub chosen : Selection → HashMap InstanceState → ReaderSample → Bool
chosen c instances cc = elim (get cc.instance_handle instances) [
  | none ↦ false
  | some i ↦
      any (sample_state_eq cc.sample_state) c.sample_states
      && any (view_state_eq i.view_state) c.view_states
      && any (instance_state_eq i.instance_state) c.instance_states
      && is_specific c.specific_instance_handle cc.instance_handle
]

is_selected-chosen :
    (c : Selection) (instances : HashMap InstanceState) (cc : ReaderSample)
    → IsKnown instances cc
    → is_selected c instances cc ≡ ret (chosen c instances cc)
unfolding is_selected chosen
is_selected-chosen c instances cc (i, there) =
    elim (Bool-cases (any (sample_state_eq cc.sample_state) c.sample_states)) [
      | inl e ↦ rw (there, chosen, e, index-get cc.instance_handle i instances there) refl
      | inr e ↦ rw (there, chosen, e) refl
    ]

-- What a sample and its place in the collection have in common.
pub record Content : Type 0 where
  pub data_value : Option (List ℕ)
  pub instance_handle : InstanceHandle
  pub publication_handle : InstanceHandle
  pub source_timestamp : Option Time

abbrev pub content_of_sample : ReaderSample → Content
content_of_sample cc = record {
  data_value = if is_valid_data cc.kind then some cc.data_value else none;
  instance_handle = cc.instance_handle;
  publication_handle = cc.writer_guid;
  source_timestamp = cc.source_timestamp;
}

abbrev pub content_of : IndexedSample → Content
content_of s = record {
  data_value = s.data_value;
  instance_handle = s.sample_info.instance_handle;
  publication_handle = s.sample_info.publication_handle;
  source_timestamp = s.sample_info.source_timestamp;
}

-- The collection from position `i` on: the first `n` samples that the selection asks for. Each
-- instance in it that was not counted before has a sample in it, and is known.
pub record Collected (c : Selection) (instances : HashMap InstanceState) (n i : ℕ)
    (ccs : List ReaderSample) (before : HashMap InstanceState)
    (x : List IndexedSample × HashMap InstanceState) : Type 0 where
  pub indices : indices_of x.0 ≡ positions (chosen c instances) n i ccs
  pub contents :
      map content_of x.0 ≡ map content_of_sample (Base.take n (retain (chosen c instances) ccs))
  pub counted :
      (k : InstanceHandle)
      → contains_key k x.1 ≡ true
      → (contains_key k before ≡ true)
        ⊎ ((any (is_of k) x.0 ≡ true) × (contains_key k instances ≡ true))

take-nil : (n : ℕ) → Base.take {A = ReaderSample} n [] ≡ []
take-nil zero = refl
take-nil (suc n) = refl

contains_key-IsKnown :
    (instances : HashMap InstanceState) (cc : ReaderSample)
    → IsKnown instances cc
    → contains_key cc.instance_handle instances ≡ true
unfolding contains_key
contains_key-IsKnown instances cc known = rw (known.1, contains_key) refl

-- An instance that a sample added is that of the sample.
counted-cons :
    (instances before : HashMap InstanceState) (cc : ReaderSample) (rest : List IndexedSample)
    (k : InstanceHandle)
    → IsKnown instances cc
    → (contains_key k
          (update_or new_instance_state (λ s. update_state s cc.kind) cc.instance_handle before)
        ≡ true)
      ⊎ ((any (is_of k) rest ≡ true) × (contains_key k instances ≡ true))
    → (contains_key k before ≡ true)
      ⊎ (((handle_eq cc.instance_handle k || any (is_of k) rest) ≡ true)
          × (contains_key k instances ≡ true))
counted-cons instances before cc rest k known (inl e) =
    elim (Bool-cases (handle_eq cc.instance_handle k)) [
      | inl this ↦ inr (
        rw this refl,
        subst (λ h. contains_key h instances ≡ true) ((handle_eq_iff cc.instance_handle k).0 this)
            (contains_key-IsKnown instances cc known),
      )
      | inr other ↦ inl (
          ground (
            arith,
            contains_key-update_or new_instance_state (λ s. update_state s cc.kind)
                cc.instance_handle k before,
            e,
            other,
          ))
    ]
counted-cons instances before cc rest k known (inr (there, known_k)) = inr (ground arith, known_k)

pub collect-Collected :
    (c : Selection) (instances : HashMap InstanceState) (n i : ℕ) (ccs : List ReaderSample)
    (before : HashMap InstanceState)
    → All (IsKnown instances) ccs
    → Returns (Collected c instances n i ccs before) (collect c instances n i ccs before)
unfolding collect positions indexed_sample
collect-Collected c instances zero i ccs before known = record {
  indices = refl;
  contents = refl;
  counted = λ k e. inl e;
}
collect-Collected c instances (suc n) i [] before known = record {
  indices = refl;
  contents = refl;
  counted = λ k e. inl e;
}
collect-Collected c instances (suc n) i (cc ∷ ccs) before known =
    rw (is_selected-chosen c instances cc known.0) (elim (Bool-cases (chosen c instances cc)) [
      | inl e ↦
          rw
            (
              e,
              index-get cc.instance_handle known.0.0 instances known.0.1,
              index-update_or new_instance_state (λ s. update_state s cc.kind) cc.instance_handle
                  before,
            )
            (Returns-bind (Collected c instances n (suc i) ccs _) _ _ _
              (collect-Collected c instances n (suc i) ccs _ known.1)
              (λ x r. record {
                indices = rw e (ap (◌∷◌ i) r.indices);
                contents = rw e (ap (◌∷◌ (content_of_sample cc)) r.contents);
                counted = λ k t. counted-cons instances before cc x.0 k known.0 (r.counted k t);
              }))
      | inr e ↦ rw e (
          Returns-map (Collected c instances (suc n) (suc i) ccs before) _ _
            (λ x r. record {
              indices = rw e r.indices;
              contents = rw e r.contents;
              counted = r.counted;
            })
            (collect-Collected c instances (suc n) (suc i) ccs before known.1))
    ])
