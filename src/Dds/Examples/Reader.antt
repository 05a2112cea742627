-- ===== src/Dds/Examples/Reader.antt =====
-- The data reader's theorems on a reader with samples of one instance.
use dust_dds.Base.{◌≡◌, refl, arith, [], ◌∷◌, panic}
use dust_dds.Base.Returns.{Returns}
use dust_dds.Dds.Handles.{handle_eq, get, contains_key}
use dust_dds.Dds.Qos.{limited, shared, exclusive, by_source_timestamp}
use dust_dds.Dds.DataReader.{DataReaderEntity, ReaderSample}
use dust_dds.Dds.DataReader.Collection.{handle_is_known}
use dust_dds.Dds.DataReader.Reading.{take, read}
use dust_dds.Dds.DataReader.Reading.Collecting.{chosen}
use dust_dds.Dds.DataReader.Reading.Positions.{left}
use dust_dds.Dds.DataReader.Reading.Taking.{Gives, marked_of, take-Gives, read-Gives}
use dust_dds.Dds.DataReader.Adding.{handles_of, add_sample, add_reader_change, put_in_order}
use dust_dds.Dds.DataReader.Adding.Instances.{is_unknown}
use dust_dds.Dds.DataReader.Adding.Bounds.{instances_fit, IsBounded}
use dust_dds.Dds.DataReader.Adding.Ownership.{add_sample-removed_owner}
use dust_dds.Dds.DataReader.Adding.Sorting.{IsOrdered, put_in_order-IsOrdered}
use dust_dds.Dds.DataReader.Adding.Storing.{Ends, add_reader_change-IsBounded}
use dust_dds.Dds.DataReader.Matching.{remove_matched_publication}
use dust_dds.Dds.Examples.Fixture.{at, sample, qos, reader_with, change, not_read}

abbrev two_samples : DataReaderEntity
two_samples = reader_with shared (sample 1 ∷ sample 2 ∷ [])

take-Gives_example :
    Returns (Gives (not_read 1) two_samples (sample 2 ∷ [])) (take two_samples (not_read 1))
unfolding left chosen handle_eq get
take-Gives_example =
    take-Gives two_samples (not_read 1) refl (unfold handle_is_known contains_key get in refl)
      ((_, refl), ((_, refl), tt))

read-Gives_example :
    Returns
      (Gives (not_read 1) two_samples (marked_of (not_read 1) two_samples))
      (read two_samples (not_read 1))
unfolding handle_eq get
read-Gives_example =
    read-Gives two_samples (not_read 1) refl (unfold handle_is_known contains_key get in refl)
      ((_, refl), ((_, refl), tt))

within_limits : IsBounded (qos shared) (sample 1 ∷ sample 2 ∷ [])
within_limits = record {
  samples = omega arith;
  samples_of_instance = λ h. tt;
  depth = λ h. ground arith;
  instances =
      instances_fit (limited 1) (sample 1 ∷ sample 2 ∷ [])
        (unfold handles_of handle_eq in omega arith);
}

add_reader_change-IsBounded_example :
    Returns (Ends (qos shared)) (add_reader_change two_samples (change 3) (at 5))
add_reader_change-IsBounded_example =
    add_reader_change-IsBounded two_samples (change 3) (at 5) (omega arith, omega arith)
      within_limits (unfold is_unknown contains_key get handle_eq in refl) refl (_, refl) tt

put_in_order-IsOrdered_example :
    Returns
      (IsOrdered by_source_timestamp (sample 4 ∷ sample 2 ∷ []))
      (put_in_order by_source_timestamp (sample 4 ∷ sample 2 ∷ []))
put_in_order-IsOrdered_example =
    put_in_order-IsOrdered by_source_timestamp (sample 4 ∷ sample 2 ∷ []) refl

abbrev from_another : ReaderSample
from_another = record (sample 3) { writer_guid = 8 ∷ [] }

add_sample-removed_owner_example :
    add_sample (remove_matched_publication (reader_with exclusive []) (9 ∷ [])) from_another ≡ panic
add_sample-removed_owner_example =
    add_sample-removed_owner (reader_with exclusive []) from_another (9 ∷ []) refl
      (unfold get handle_eq in refl) (unfold handle_eq in refl)
