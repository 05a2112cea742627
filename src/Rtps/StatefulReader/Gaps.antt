-- ===== src/Rtps/StatefulReader/Gaps.antt =====
-- What a GAP submessage does to a matched writer's proxy.
use mathlib.Core.List.{foldl}
use dust_dds.Base.{
  ℕ, zero, suc, ◌+◌, ◌-◌, ◌≤◌, ◌<◌, ◌≡◌, ◌∙◌, arith, false, some, contains, range, count_from,
}
use dust_dds.Transport.Types.{GuidPrefix}
use dust_dds.Rtps.SequenceNumberSet.{elements}
use dust_dds.Rtps.Messages.Submessages.{GapSubmessage}
use dust_dds.Rtps.WriterProxy.{
  RtpsWriterProxy, available_changes_max, irrelevant_change_set, missing_changes,
}
use dust_dds.Rtps.WriterProxy.Changes.{contains-missing_changes}
use dust_dds.Rtps.StatefulReader.{
  RtpsStatefulReader, irrelevant_changes, on_gap_submessage_received,
}
use dust_dds.Rtps.StatefulReader.Delivery.{proxy_of}
use dust_dds.Rtps.StatefulReader.Steps.{irrelevant_Grows, irrelevant_changes-Grows}
use dust_dds.Rtps.StatefulReader.Heartbeats.{sender}
use dust_dds.Rtps.StatefulReader.Lookup.{lookup_guid, lookup-put_self}

raised :
    (p : RtpsWriterProxy) (sn : ℕ) → sn ≤ (irrelevant_change_set p sn).highest_received_change_sn
unfolding irrelevant_change_set
raised p sn = ground arith

highest_range :
    (p : RtpsWriterProxy) (a n : ℕ)
    → a + n ≤ (foldl irrelevant_change_set p (count_from a (suc n))).highest_received_change_sn
highest_range p a zero = omega (arith, raised p a)
highest_range p a (suc n) = omega (arith, highest_range (irrelevant_change_set p a) (suc a) n)

range_highest :
    (p : RtpsWriterProxy) (a n k : ℕ)
    → n ≡ suc k
    → a + k ≤ (foldl irrelevant_change_set p (count_from a n)).highest_received_change_sn
range_highest p a n k e = rw e (highest_range p a k)

irrelevant_changes_highest :
    (p : RtpsWriterProxy) (m : GapSubmessage)
    → m.gap_start < m.gap_list.base
    → m.gap_list.base ≤ (irrelevant_changes p m).highest_received_change_sn + 1
unfolding irrelevant_changes
irrelevant_changes_highest p m h =
    let between = foldl irrelevant_change_set p (range m.gap_start m.gap_list.base) in
    let (grows, guid) = irrelevant_Grows between (elements m.gap_list) in
    let k = m.gap_list.base - m.gap_start - 1 in
    let reach = range_highest p m.gap_start (m.gap_list.base - m.gap_start) k (omega arith) in
    omega arith

available-ge : (p : RtpsWriterProxy) → p.highest_received_change_sn ≤ available_changes_max p
unfolding available_changes_max
available-ge p = ground arith

gap_some :
    (r : RtpsStatefulReader) (m : GapSubmessage) (prefix : GuidPrefix) (p : RtpsWriterProxy)
    → proxy_of (sender prefix m.writer_id) r ≡ some p
    → proxy_of (sender prefix m.writer_id) (on_gap_submessage_received r m prefix)
      ≡ some (irrelevant_changes p m)
unfolding on_gap_submessage_received
gap_some r m prefix p found =
    rw (found, on_gap_submessage_received)
      (lookup-put_self _ r.matched_writers p _ found
        ((irrelevant_changes-Grows p m).1 ∙ lookup_guid _ r.matched_writers p found))

-- A GAP whose list starts above its first number makes the reader take every change below the
-- list's base for received: none of them is missing any more and the next ACKNACK acknowledges
-- them all, also those below `gap_start`, of which the GAP says nothing.
pub gap_hides_earlier :
    (r : RtpsStatefulReader) (m : GapSubmessage) (prefix : GuidPrefix) (p : RtpsWriterProxy)
    → proxy_of (sender prefix m.writer_id) r ≡ some p
    → m.gap_start < m.gap_list.base
    → (q : RtpsWriterProxy) × (proxy_of
          (sender prefix m.writer_id)
          (on_gap_submessage_received r m prefix)
        ≡ some q)
      × (m.gap_list.base ≤ available_changes_max q + 1)
      × ((sn : ℕ) → sn < m.gap_list.base → contains sn (missing_changes q) ≡ false)
gap_hides_earlier r m prefix p found h =
    let q = irrelevant_changes p m in
    let high = irrelevant_changes_highest p m h in
    (
      q,
      gap_some r m prefix p found,
      omega (arith, available-ge q),
      λ sn below. contains-missing_changes q sn ∙ ground arith,
    )
