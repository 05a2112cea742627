-- ===== src/Rtps/WriterProxy/Changes.antt =====
-- What a writer proxy says of the changes of its writer.
use dust_dds.Base.{ℕ, ◌+◌, ◌-◌, ◌≡◌, arith, ◌&&◌, leb, ltb, contains, max_of, contains-count_from}
use dust_dds.Rtps.WriterProxy.{RtpsWriterProxy, missing_changes}

-- A change is missing exactly when the writer has it (it lies between the first and the last
-- available number) and it is above every change that was received or was declared irrelevant.
pub contains-missing_changes :
    (p : RtpsWriterProxy) (sn : ℕ)
    → contains sn (missing_changes p) ≡ (
        leb p.first_available_seq_num sn
        && ltb p.highest_received_change_sn sn
        && leb sn p.last_available_seq_num)
unfolding missing_changes
contains-missing_changes p sn = ground (
  arith,
  contains-count_from sn (max_of p.first_available_seq_num (p.highest_received_change_sn + 1)) (
      max_of p.last_available_seq_num p.highest_received_change_sn
      + 1
      - max_of p.first_available_seq_num (p.highest_received_change_sn + 1)),
)
