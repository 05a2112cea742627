-- ===== src/Rtps/WriterProxy/Acknack.antt =====
-- What `send_message` of a writer proxy sends, and when it is silent.
use dust_dds.Base.{
  ℕ, zero, suc, ◌+◌, ◌-◌, ◌^◌, ◌≤◌, ◌<◌, ◌≡◌, refl, ap, ◌∙◌, ◌⊎◌, inl, inr, arith, Bool, true,
  false, List, [], ◌∷◌, length, take, take_all, count_from, take-count_from, length-count_from, All,
  max_of, ret, i32_next,
}
use dust_dds.Base.Increasing.{count_from-Increasing}
use dust_dds.Transport.Types.{Guid}
use dust_dds.Rtps.SequenceNumberSet
use dust_dds.Rtps.SequenceNumberSet.{SequenceNumberSet, elements}
use dust_dds.Rtps.SequenceNumberSet.Laws.{InWindow, elements-new-Increasing}
use dust_dds.Rtps.Messages.Types.{Count}
use dust_dds.Rtps.Messages.Submessages.{Submessage, ack_nack, info_destination, Message}
use dust_dds.Rtps.WriterProxy.{RtpsWriterProxy, available_changes_max, missing_changes}
use dust_dds.Rtps.WriterProxy.Sending.{nack_frags, send_message, wants_to_send}

count_from-InWindow :
    (base a n : ℕ) → base ≤ a → a + n ≤ base + 256 → All (InWindow base) (count_from a n)
count_from-InWindow base a zero h k = tt
count_from-InWindow base a (suc n) h k =
    (omega arith, count_from-InWindow base (suc a) n (omega arith) (omega arith))

take_window :
    (m a n : ℕ) → (m ≤ n) ⊎ (n < m) → (k : ℕ) × (k ≤ m) × (take m (count_from a n) ≡ count_from a k)
take_window m a n (inl h) = (m, omega arith, take-count_from m a n h)
take_window m a n (inr h) =
    (n, omega arith, take_all m (count_from a n) (omega (arith, length-count_from a n)))

missing_from_base :
    (p : RtpsWriterProxy)
    → (n : ℕ) × (missing_changes p ≡ count_from (available_changes_max p + 1) n)
unfolding missing_changes available_changes_max
missing_from_base p =
    let first = max_of p.first_available_seq_num (p.highest_received_change_sn + 1) in
    let n = max_of p.last_available_seq_num p.highest_received_change_sn + 1 - first in
    (n, ap (λ (a : ℕ). count_from a n) (ground arith))

pub sent_set :
    (p : RtpsWriterProxy)
    → (s : SequenceNumberSet) × (SequenceNumberSet.new
          (available_changes_max p + 1)
          (take 256 (missing_changes p))
        ≡ ret s)
      × (s.base ≡ available_changes_max p + 1)
      × (elements s ≡ take 256 (missing_changes p))
sent_set p =
    let (n, e) = missing_from_base p in
    let base = available_changes_max p + 1 in
    let (k, small, taken) = take_window 256 base n (omega arith) in
    let shape : take 256 (missing_changes p) ≡ count_from base k = ap (take 256) e ∙ taken in
    rw shape (
      elements-new-Increasing base (count_from base k)
        (count_from-InWindow base base k (omega arith) (omega arith))
        (count_from-Increasing base base k (omega arith)))

-- The ACKNACK of a writer proxy.
abbrev pub acknack_sent : RtpsWriterProxy → Guid → SequenceNumberSet → List Submessage → Message
acknack_sent p reader_guid s nacks = record {
  submessages =
      info_destination (record { guid_prefix = p.remote_writer_guid.prefix })
      ∷ ack_nack (record {
        final_flag = true;
        reader_id = reader_guid.entity_id;
        writer_id = p.remote_writer_guid.entity_id;
        reader_sn_state = s;
        count = i32_next p.acknack_count;
      })
      ∷ nacks;
  destination_locator_list = p.unicast_locator_list;
}

-- The same numbers under the two fields that `send_message` has changed by then.
same_view :
    (p : RtpsWriterProxy) (must : Bool) (c : Count)
    → let q : RtpsWriterProxy = record p { must_send_acknacks = must; acknack_count = c } in
      (available_changes_max q ≡ available_changes_max p) × (missing_changes q ≡ missing_changes p)
unfolding available_changes_max missing_changes
same_view p must c = (refl, refl)

send_with :
    (p : RtpsWriterProxy) (reader_guid : Guid) (c : Count) (nacks : List Submessage)
    (s : SequenceNumberSet)
    → p.must_send_acknacks ≡ true
    → nack_frags reader_guid p.remote_writer_guid p.frag_buffer p.nack_frag_count ≡ ret (c, nacks)
    → SequenceNumberSet.new (available_changes_max p + 1) (take 256 (missing_changes p)) ≡ ret s
    → send_message p reader_guid
      ≡ ret (
        record p {
          must_send_acknacks = false;
          acknack_count = i32_next p.acknack_count;
          nack_frag_count = c;
        },
        acknack_sent p reader_guid s nacks ∷ [],
      )
unfolding send_message
send_with p reader_guid c nacks s due e made =
    let (max_eq, missing_eq) = same_view p false (i32_next p.acknack_count) in
    simp (due, max_eq, missing_eq, made, e)

-- With an acknowledgement due and a fragment buffer that yields `nacks`, `send_message` sends one
-- message to the writer's unicast locators: the destination, an ACKNACK under the next count and
-- the NACK_FRAGs. Its base acknowledges everything up to `available_changes_max`, and its set is
-- the first 256 missing changes, none lost in the bitmap. The request is then no longer due.
pub send_message_due :
    (p : RtpsWriterProxy) (reader_guid : Guid) (c : Count) (nacks : List Submessage)
    → p.must_send_acknacks ≡ true
    → nack_frags reader_guid p.remote_writer_guid p.frag_buffer p.nack_frag_count ≡ ret (c, nacks)
    → (s : SequenceNumberSet) × (send_message p reader_guid
        ≡ ret (
          record p {
            must_send_acknacks = false;
            acknack_count = i32_next p.acknack_count;
            nack_frag_count = c;
          },
          acknack_sent p reader_guid s nacks ∷ [],
        ))
      × (s.base ≡ available_changes_max p + 1)
      × (elements s ≡ take 256 (missing_changes p))
send_message_due p reader_guid c nacks due e =
    let (s, made, base, content) = sent_set p in
    (s, send_with p reader_guid c nacks s due e made, base, content)

-- `send_message` sends nothing and changes nothing when no acknowledgement is due, whatever is
-- missing (short of 2 ^ 64 - 1 changes, where the negated count is 0).
pub send_message_silent :
    (p : RtpsWriterProxy) (reader_guid : Guid)
    → p.must_send_acknacks ≡ false
    → length (missing_changes p) < 2 ^ 64 - 1
    → send_message p reader_guid ≡ ret (p, [])
unfolding send_message wants_to_send
send_message_silent p reader_guid due few = ground arith
