-- ===== src/Dds/DataReader/Adding/Converting.antt =====
-- `convert_cache_change_to_sample` keeps all but the instances.
use dust_dds.Base.{◌≡◌, refl, true, ret}
use dust_dds.Base.Returns.{Returns}
use dust_dds.Transport.History.{CacheChange}
use dust_dds.Dds.Errors.{DdsResult, ok, err}
use dust_dds.Dds.Handles.{InstanceHandle, HashMap, index-get, contains_key}
use dust_dds.Dds.Time.{Time}
use dust_dds.Dds.DataReader.{ReaderSample, DataReaderEntity, InstanceState}
use dust_dds.Dds.DataReader.Adding.{
  handle_of_change, update_instances, convert_cache_change_to_sample, sample_of_change, sample_in,
}
use dust_dds.Dds.DataReader.Adding.Instances.{KnownIn, update_instances-KnownIn}

-- The conversion keeps all but the instances, of which it forgets none.
abbrev pub Grown : DataReaderEntity → DataReaderEntity → Type 0
Grown r r' =
    (instances : HashMap InstanceState) × (r' ≡ record r { instances = instances })
    × ((k : InstanceHandle) → contains_key k r.instances ≡ true → contains_key k instances ≡ true)

unfoldable pub Converts :
    DataReaderEntity → CacheChange → Time → DataReaderEntity × DdsResult ReaderSample → Type 0
Converts r c t (r', err e) = Grown r r'
Converts r c t (r', ok sample) =
    Grown r r' × (h : InstanceHandle) × (i : InstanceState) × (sample ≡ sample_of_change c t h i)

sample_in-Converts :
    (r : DataReaderEntity) (c : CacheChange) (t : Time) (h : InstanceHandle)
    (o : DdsResult (HashMap InstanceState))
    → KnownIn h r.instances o
    → Returns (Converts r c t) (sample_in r c t h o)
unfolding sample_in Converts
sample_in-Converts r c t h (err e) known = (r.instances, refl, λ k e. e)
sample_in-Converts r c t h (ok m) known =
    rw (index-get h known.0.0 m known.0.1) ((m, refl, known.1), h, known.0.0, refl)

pub convert-Converts :
    (r : DataReaderEntity) (c : CacheChange) (t : Time)
    → Returns (Converts r c t) (convert_cache_change_to_sample r c t)
unfolding convert_cache_change_to_sample Converts
convert-Converts r c t = of_handle (handle_of_change r.type_support c)
  where
    of_handle :
        (o : DdsResult InstanceHandle)
        → Returns (Converts r c t) (elim o [
          | err e ↦ ret (r, err e)
          | ok handle ↦ sample_in r c t handle (update_instances handle c.kind r.instances)
        ])
    of_handle (err e) = (r.instances, refl, λ k t. t)
    of_handle (ok h) = sample_in-Converts r c t h _ (update_instances-KnownIn h c.kind r.instances)
