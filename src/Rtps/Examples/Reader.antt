-- ===== src/Rtps/Examples/Reader.antt =====
-- The stateful reader's theorems on a reader with one matched writer.
use native.Mathlib.Decide.{ℕ_discrete}
use dust_dds.Base.{
  ◌&&◌, leb, ltb, max_of, contains, ℕ, ◌+◌, ℕ, ◌+◌, ◌≤◌, ◌<◌, ◌≡◌, refl, arith, true, false, none,
  some, [], ◌∷◌, contains, ret,
}
use dust_dds.Base.Increasing.{Increasing}
use dust_dds.Transport.Types.{
  ReliabilityKind, best_effort, reliable, guidprefix_unknown, guid_eq, Guid-discrete,
  EntityId-discrete,
}
use dust_dds.Rtps.SequenceNumberSet.{SequenceNumberSet, elements}
use dust_dds.Transport.History.{CacheChange}
use dust_dds.Rtps.CacheChange.{try_from_data_submessage, ok}
use dust_dds.Rtps.CacheChange.Laws.{try_from_data_submessage-as_data_submessage}
use dust_dds.Rtps.WriterProxy.{
  RtpsWriterProxy, available_changes_max, missing_changes, lost_changes_update,
  missing_changes_update, set_must_send_acknacks, set_last_received_heartbeat_count,
}
use dust_dds.Rtps.WriterProxy.Sending.{nack_frags}
use dust_dds.Rtps.WriterProxy.Acknack.{acknack_sent}
use dust_dds.Rtps.StatefulReader.{
  RtpsStatefulReader, on_data_submessage_received, on_gap_submessage_received,
  on_heartbeat_submessage_received, heartbeat_update, with_writer, matched_writer_lookup,
}
use dust_dds.Rtps.StatefulReader.Delivery.{delivered_by, proxy_of}
use dust_dds.Rtps.StatefulReader.Run.{Event, data_event, run}
use dust_dds.Rtps.StatefulReader.Order.{run-Increasing}
use dust_dds.Rtps.StatefulReader.Complete.{Complete, Keeps, run-Complete}
use dust_dds.Rtps.StatefulReader.Answers.{
  heartbeat_answered, heartbeat_final_silent, heartbeat_idempotent,
}
use dust_dds.Rtps.StatefulReader.Gaps.{gap_hides_earlier}
use dust_dds.Rtps.Examples.Fixture.{
  writer_guid, writer_id, reader_id, reader_guid, change, data_of, heartbeat_of, gap_between,
  reader, proxy,
}

abbrev given : RtpsStatefulReader → ℕ → RtpsStatefulReader
given r sn = on_data_submessage_received r (data_of sn) guidprefix_unknown none

abbrev event : ℕ → Event
event sn = data_event (data_of sn) guidprefix_unknown none

run-Increasing_example :
    Increasing 0 (delivered_by writer_guid (given (given (given (reader best_effort) 3) 2) 5))
run-Increasing_example =
    run-Increasing writer_guid (reader best_effort)
      (given (given (given (reader best_effort) 3) 2) 5) (event 3 ∷ event 2 ∷ event 5 ∷ []) refl
      (unfold run in refl)

found : (k : ReliabilityKind) → proxy_of writer_guid (reader k) ≡ some (proxy k)
unfolding matched_writer_lookup guid_eq Guid-discrete EntityId-discrete ℕ_discrete
found k = refl

convertible :
    (sn : ℕ)
    → (c : CacheChange) × (try_from_data_submessage (data_of sn) guidprefix_unknown none ≡ ok c)
convertible sn = (
  _,
  try_from_data_submessage-as_data_submessage (change sn (sn ∷ 10 ∷ [])) reader_id writer_id
      guidprefix_unknown none tt,
)

run-Complete_example : Complete writer_guid (given (given (given (reader reliable) 1) 3) 2)
run-Complete_example =
    run-Complete writer_guid (reader reliable) (given (given (given (reader reliable) 1) 3) 2)
      (event 1 ∷ event 3 ∷ event 2 ∷ []) (proxy reliable) refl (found reliable) refl (omega arith)
      refl (unfold Keeps in (convertible 1, (convertible 3, (convertible 2, tt))))
      (unfold run in refl)

heartbeat_answered_example :
    (s : SequenceNumberSet) × (on_heartbeat_submessage_received
        (reader reliable)
        (heartbeat_of false 3 1)
        guidprefix_unknown
      ≡ ret (
        with_writer (reader reliable) writer_guid (record (proxy reliable) {
          first_available_seq_num = 1;
          last_available_seq_num = 3;
          must_send_acknacks = false;
          last_received_heartbeat_count = 1;
          acknack_count = 1;
          nack_frag_count = 0;
        }),
        acknack_sent (proxy reliable) reader_guid s [] ∷ [],
      ))
    × (s.base ≡ max_of 1 1)
    × ((sn : ℕ)
        → contains sn (elements s) ≡ (leb 1 sn && ltb 0 sn && leb sn 3 && ltb sn (s.base + 256)))
heartbeat_answered_example =
    heartbeat_answered (reader reliable) (heartbeat_of false 3 1) guidprefix_unknown
      (proxy reliable) 0 [] (found reliable) refl refl (unfold nack_frags in refl)

heartbeat_final_silent_example :
    on_heartbeat_submessage_received (reader reliable) (heartbeat_of true 3 1) guidprefix_unknown
    ≡ ret (
      with_writer
          (reader reliable)
          writer_guid
          (heartbeat_update (proxy reliable) (heartbeat_of true 3 1)),
      [],
    )
heartbeat_final_silent_example =
    heartbeat_final_silent (reader reliable) (heartbeat_of true 3 1) guidprefix_unknown
      (proxy reliable) (found reliable) refl refl (unfold missing_changes in omega arith)
      (unfold missing_changes heartbeat_update lost_changes_update missing_changes_update
          set_must_send_acknacks set_last_received_heartbeat_count in
        omega arith)

gap_hides_earlier_example :
    (q : RtpsWriterProxy) × (proxy_of writer_guid
        (on_gap_submessage_received (reader reliable) (gap_between 5 7) guidprefix_unknown)
      ≡ some q)
    × (7 ≤ available_changes_max q + 1)
    × ((sn : ℕ) → sn < 7 → contains sn (missing_changes q) ≡ false)
gap_hides_earlier_example =
    gap_hides_earlier (reader reliable) (gap_between 5 7) guidprefix_unknown (proxy reliable)
      (found reliable) (omega arith)

heartbeat_idempotent_example :
    on_heartbeat_submessage_received
      (with_writer
        (reader reliable)
        writer_guid
        (heartbeat_update (proxy reliable) (heartbeat_of true 3 1)))
      (heartbeat_of true 3 1)
      guidprefix_unknown
    ≡ ret (
      with_writer
          (reader reliable)
          writer_guid
          (heartbeat_update (proxy reliable) (heartbeat_of true 3 1)),
      [],
    )
heartbeat_idempotent_example =
    heartbeat_idempotent (reader reliable)
      (with_writer (reader reliable) writer_guid
        (heartbeat_update (proxy reliable) (heartbeat_of true 3 1)))
      (heartbeat_of true 3 1) guidprefix_unknown []
      (heartbeat_final_silent (reader reliable) (heartbeat_of true 3 1) guidprefix_unknown
        (proxy reliable) (found reliable) refl refl (unfold missing_changes in omega arith)
        (unfold missing_changes heartbeat_update lost_changes_update missing_changes_update
            set_must_send_acknacks set_last_received_heartbeat_count in
          omega arith))
