-- ===== src/Dds/DataReader/Adding/Instances.antt =====
-- The instances of a reader while a change is added.
use dust_dds.Base.{
  ◌+◌, ◌≤◌, ◌≡◌, refl, arith, Bool, true, not, some, List, if◌then◌else◌, Bool-cases, Option-cases,
  inl, inr,
}
use dust_dds.Transport.Types.{ChangeKind}
use dust_dds.Dds.Errors.{DdsResult, ok, err}
use dust_dds.Dds.Handles.{
  InstanceHandle, HashMap, get, insert, update_or, get-insert_self, contains_key,
  contains_key-insert,
}
use dust_dds.Dds.DataReader.{ReaderSample, InstanceState}
use dust_dds.Dds.DataReader.Adding.{has_data, count, update_instances}
use dust_dds.Dds.DataReader.Adding.Limits.{count-le}

-- The instance of a change that is accepted is known, and no instance is forgotten.
abbrev pub KnownIn :
    InstanceHandle → HashMap InstanceState → DdsResult (HashMap InstanceState) → Type 0
KnownIn h before (err e) = Unit
KnownIn h before (ok m) =
    ((i : InstanceState) × (get h m ≡ some i))
    × ((k : InstanceHandle) → contains_key k before ≡ true → contains_key k m ≡ true)

inserted-KnownIn :
    (h : InstanceHandle) (i : InstanceState) (m : HashMap InstanceState)
    → KnownIn h m (ok (insert h i m))
inserted-KnownIn h i m = ((i, get-insert_self h i m), λ k e. contains_key-insert h k i m e)

pub update_instances-KnownIn :
    (h : InstanceHandle) (kind : ChangeKind) (m : HashMap InstanceState)
    → KnownIn h m (update_instances h kind m)
unfolding update_instances update_or
update_instances-KnownIn h kind m = elim (Bool-cases (has_data kind)) [
  | inl e ↦ rw (e, update_instances) (inserted-KnownIn h _ m)
  | inr e ↦ elim (Option-cases (get h m)) [
    | inl gone ↦ rw (e, gone, update_instances) tt
    | inr (i, there) ↦ rw (e, there, update_instances) (inserted-KnownIn h _ m)
  ]
]

-- The sample is of no known instance.
unfoldable pub is_unknown : HashMap InstanceState → ReaderSample → Bool
is_unknown instances cc = not (contains_key cc.instance_handle instances)

-- Every sample is of a known instance.
abbrev pub AllKnown : HashMap InstanceState → List ReaderSample → Type 0
AllKnown instances ccs = count (is_unknown instances) ccs ≡ 0

pub AllKnown-le :
    (before after : HashMap InstanceState) (ccs kept : List ReaderSample)
    → ((k : InstanceHandle) → contains_key k before ≡ true → contains_key k after ≡ true)
    → count (is_unknown after) kept ≤ count (is_unknown after) ccs
    → AllKnown before ccs
    → AllKnown after kept
unfolding is_unknown
AllKnown-le before after ccs kept grows fewer known = omega (
  arith,
  fewer,
  known,
  count-le (is_unknown before) (is_unknown after) ccs
      (λ cc. ground (arith, grows cc.instance_handle)),
)

pub stored_known :
    (before after : HashMap InstanceState) (sample : ReaderSample)
    (ccs kept sorted : List ReaderSample)
    → KnownIn sample.instance_handle before (ok after)
    → count (is_unknown after) kept ≤ count (is_unknown after) ccs
    → count (is_unknown after) sorted
      ≡ count (is_unknown after) kept + (if is_unknown after sample then 1 else 0)
    → AllKnown before ccs
    → AllKnown after sorted
unfolding is_unknown contains_key
stored_known before after sample ccs kept sorted (there, grows) fewer same known =
    let kept_known = AllKnown-le before after ccs kept grows fewer known in
    let not_new : contains_key sample.instance_handle after ≡ true =
      rw (there.1, contains_key) refl in
    ground (arith, same, kept_known, not_new)
