-- ===== src/Rtps/StatefulReader/Answers.antt =====
-- What a reader answers to a HEARTBEAT submessage.
use mathlib.Core.Path.{subst}
use dust_dds.Base.{
  ◌&&◌, leb, ltb, zero, suc, max_of, contains, count_from, ℕ, ◌+◌, ◌-◌, ◌^◌, ◌<◌, ◌≡◌, refl, sym,
  ap, ◌∙◌, inl, inr, arith, true, false, some, List, [], ◌∷◌, Outcome, ret, panic, stuck, ◌>>=◌,
  Bool-cases, Option-cases, i32_lt, length, take, i32_next,
}
use dust_dds.Transport.Types.{Guid, GuidPrefix}
use dust_dds.Rtps.SequenceNumberSet.{SequenceNumberSet, elements}
use dust_dds.Rtps.Messages.Types.{Count}
use dust_dds.Rtps.Messages.Submessages.{HeartbeatSubmessage, Message, Submessage}
use dust_dds.Rtps.WriterProxy.{
  lost_changes_update, missing_changes_update, set_must_send_acknacks, RtpsWriterProxy,
  set_last_received_heartbeat_count, available_changes_max, missing_changes,
}
use dust_dds.Rtps.WriterProxy.Sending.{send_message, nack_frags}
use dust_dds.Rtps.WriterProxy.Acknack.{send_message_due, send_message_silent, acknack_sent}
use dust_dds.Rtps.StatefulReader.{
  RtpsStatefulReader, with_writer, heartbeat_update, on_heartbeat_submessage_received,
}
use dust_dds.Rtps.StatefulReader.Delivery.{proxy_of}
use dust_dds.Rtps.StatefulReader.Steps.{send_message-Still, ret-injective}
use dust_dds.Rtps.StatefulReader.Lookup.{lookup_guid, lookup-put_self}
use dust_dds.Rtps.StatefulReader.Heartbeats.{
  sender, answered, heartbeat_update_lem, heartbeat_none, heartbeat_old, heartbeat_fresh,
}

-- The proxy that a heartbeat leaves for `send_message`: an answer is due exactly when the final
-- flag is off (while fewer than 2 ^ 64 - 1 changes are missing, where the negated count is 0).
update_due :
    (p : RtpsWriterProxy) (m : HeartbeatSubmessage)
    → m.final_flag ≡ false
    → (heartbeat_update p m).must_send_acknacks ≡ true
unfolding heartbeat_update
update_due p m e = ground arith

counted_missing :
    (p : RtpsWriterProxy) (c : Count)
    → missing_changes (set_last_received_heartbeat_count p c) ≡ missing_changes p
unfolding set_last_received_heartbeat_count missing_changes
counted_missing p c = refl

update_not_due :
    (p : RtpsWriterProxy) (m : HeartbeatSubmessage)
    → m.final_flag ≡ true
    → length (missing_changes p) < 2 ^ 64 - 1
    → (heartbeat_update p m).must_send_acknacks ≡ false
unfolding heartbeat_update
update_not_due p m e few = ground (arith, counted_missing p m.count)

-- What the proxy says once the heartbeat is heard.
abbrev pub heard : RtpsWriterProxy → HeartbeatSubmessage → RtpsWriterProxy
heard p m = record p {
  first_available_seq_num = m.first_sn;
  last_available_seq_num = m.last_sn;
  must_send_acknacks = true;
  last_received_heartbeat_count = m.count;
}

heard_lem :
    (p : RtpsWriterProxy) (m : HeartbeatSubmessage)
    → m.final_flag ≡ false
    → heartbeat_update p m ≡ heard p m
unfolding heartbeat_update set_must_send_acknacks set_last_received_heartbeat_count
    missing_changes_update lost_changes_update
heard_lem p m e = rw e refl

base_lem :
    (p : RtpsWriterProxy) (m : HeartbeatSubmessage)
    → available_changes_max (heard p m) + 1 ≡ max_of m.first_sn (p.highest_received_change_sn + 1)
unfolding available_changes_max
base_lem p m = ground arith

-- The first numbers of a range.
contains-take :
    (k b n sn : ℕ)
    → contains sn (take k (count_from b n)) ≡ (leb b sn && ltb sn (b + k) && ltb sn (b + n))
contains-take zero b n sn = ground arith
contains-take (suc k) b zero sn = ground arith
contains-take (suc k) b (suc n) sn = ground (arith, contains-take k (suc b) n sn)

window :
    (f h l sn k b e : ℕ)
    → b ≡ max_of f (h + 1)
    → e ≡ max_of l h
    → (leb b sn && ltb sn (b + k) && ltb sn (b + (e + 1 - b)))
      ≡ (leb f sn && ltb h sn && leb sn l && ltb sn (b + k))
window f h l sn k b e from to = ground (arith, from, to)

asked_lem :
    (p : RtpsWriterProxy) (m : HeartbeatSubmessage) (sn : ℕ)
    → contains sn (take 256 (missing_changes (heard p m))) ≡ (
        leb m.first_sn sn
        && ltb p.highest_received_change_sn sn
        && leb sn m.last_sn
        && ltb sn (max_of m.first_sn (p.highest_received_change_sn + 1) + 256))
unfolding missing_changes
asked_lem p m sn =
    contains-take 256 (max_of m.first_sn (p.highest_received_change_sn + 1))
      (max_of m.last_sn p.highest_received_change_sn
        + 1
        - max_of m.first_sn (p.highest_received_change_sn + 1))
      sn
    ∙ window m.first_sn p.highest_received_change_sn m.last_sn sn 256
        (max_of m.first_sn (p.highest_received_change_sn + 1))
        (max_of m.last_sn p.highest_received_change_sn) refl refl

-- A new heartbeat with the final flag off is answered by one message to the writer, with the
-- NACK_FRAGs that the fragment buffer yields and an ACKNACK. Its base is the larger of the
-- heartbeat's first number and the number after the highest that was received or declared irrelevant.
-- Its set has just the numbers from the heartbeat's first to its last that are above that highest,
-- up to 256 of them. The proxy has then the heartbeat's range and count, the next ACKNACK count, and
-- no answer due.
pub heartbeat_answered :
    (r : RtpsStatefulReader) (m : HeartbeatSubmessage) (prefix : GuidPrefix) (p : RtpsWriterProxy)
    (c : Count) (nacks : List Submessage)
    → proxy_of (sender prefix m.writer_id) r ≡ some p
    → i32_lt p.last_received_heartbeat_count m.count ≡ true
    → m.final_flag ≡ false
    → nack_frags r.guid p.remote_writer_guid p.frag_buffer p.nack_frag_count ≡ ret (c, nacks)
    → (s : SequenceNumberSet) × (on_heartbeat_submessage_received r m prefix
        ≡ ret (
          with_writer r (sender prefix m.writer_id) (record p {
            first_available_seq_num = m.first_sn;
            last_available_seq_num = m.last_sn;
            must_send_acknacks = false;
            last_received_heartbeat_count = m.count;
            acknack_count = i32_next p.acknack_count;
            nack_frag_count = c;
          }),
          acknack_sent p r.guid s nacks ∷ [],
        ))
      × (s.base ≡ max_of m.first_sn (p.highest_received_change_sn + 1))
      × ((sn : ℕ)
          → contains sn (elements s) ≡ (
              leb m.first_sn sn
              && ltb p.highest_received_change_sn sn
              && leb sn m.last_sn
              && ltb sn (s.base + 256)))
heartbeat_answered r m prefix p c nacks found fresh open_flag e =
    let (s, done, base, content) = send_message_due (heard p m) r.guid c nacks refl e in
    let from = base ∙ base_lem p m in
    (
      s,
      heartbeat_fresh r m prefix p found fresh ∙ rw (heard_lem p m open_flag, done) refl,
      from,
      λ sn. ap (contains sn) content ∙ asked_lem p m sn ∙ rw from refl,
    )

-- A new heartbeat with the final flag on is never answered, however many changes are missing
-- (short of 2 ^ 64 - 1, where the negated count is 0): the proxy is updated and nothing is sent.
pub heartbeat_final_silent :
    (r : RtpsStatefulReader) (m : HeartbeatSubmessage) (prefix : GuidPrefix) (p : RtpsWriterProxy)
    → proxy_of (sender prefix m.writer_id) r ≡ some p
    → i32_lt p.last_received_heartbeat_count m.count ≡ true
    → m.final_flag ≡ true
    → length (missing_changes p) < 2 ^ 64 - 1
    → length (missing_changes (heartbeat_update p m)) < 2 ^ 64 - 1
    → on_heartbeat_submessage_received r m prefix
      ≡ ret (with_writer r (sender prefix m.writer_id) (heartbeat_update p m), [])
heartbeat_final_silent r m prefix p found fresh final few later =
    heartbeat_fresh r m prefix p found fresh
    ∙ rw (send_message_silent (heartbeat_update p m) r.guid (update_not_due p m final few) later)

i32_irreflexive : (a : ℕ) → i32_lt a a ≡ false
i32_irreflexive a = ground arith

unmoved :
    (r r' : RtpsStatefulReader) (sent : List Message)
    → ◌≡◌ {A = Outcome (RtpsStatefulReader × List Message)} (ret (r, [])) (ret (r', sent))
    → r ≡ r'
unmoved r r' sent h = cc

-- The proxy that an answer leaves has the heartbeat's count.
answered_count :
    (k : Guid) (r r' : RtpsStatefulReader) (p : RtpsWriterProxy) (m : HeartbeatSubmessage)
    (sent : List Message)
    → proxy_of k r ≡ some p
    → (o : Outcome (RtpsWriterProxy × List Message))
    → send_message (heartbeat_update p m) r.guid ≡ o
    → (o >>= answered r k) ≡ ret (r', sent)
    → (q : RtpsWriterProxy) × (proxy_of k r' ≡ some q) × (q.last_received_heartbeat_count ≡ m.count)
answered_count k r r' p m sent found panic e h = cc
answered_count k r r' p m sent found stuck e h = cc
answered_count k r r' p m sent found (ret (q, out)) e h =
    let up = heartbeat_update_lem p m in
    let still = send_message-Still (heartbeat_update p m) q r.guid out e in
    let own = still.guid ∙ up.guid ∙ lookup_guid k r.matched_writers p found in
    let same : with_writer r k q ≡ r' =
      ap (λ (x : RtpsStatefulReader × List Message). x.0) (ret-injective h) in
    (
      q,
      subst (λ x. proxy_of k x ≡ some q) same
          (unfold with_writer in lookup-put_self k r.matched_writers p q found own),
      still.heartbeats ∙ up.heartbeats,
    )

-- A heartbeat that comes twice changes nothing the second time and is not answered again.
pub heartbeat_idempotent :
    (r r' : RtpsStatefulReader) (m : HeartbeatSubmessage) (prefix : GuidPrefix)
    (sent : List Message)
    → on_heartbeat_submessage_received r m prefix ≡ ret (r', sent)
    → on_heartbeat_submessage_received r' m prefix ≡ ret (r', [])
heartbeat_idempotent r r' m prefix sent e =
    elim (Option-cases (proxy_of (sender prefix m.writer_id) r)) [
      | inl gone ↦
          let same = unmoved r r' sent (sym (heartbeat_none r m prefix gone) ∙ e) in
          subst (λ x. on_heartbeat_submessage_received x m prefix ≡ ret (x, [])) same
            (heartbeat_none r m prefix gone)
      | inr (p, found) ↦ elim (Bool-cases (i32_lt p.last_received_heartbeat_count m.count)) [
        | inl fresh ↦
            let (q, stored, count) =
              answered_count _ r r' p m sent found _ refl
                (sym (heartbeat_fresh r m prefix p found fresh) ∙ e) in
            heartbeat_old r' m prefix q stored (rw count (i32_irreflexive m.count))
        | inr old ↦
            let same = unmoved r r' sent (sym (heartbeat_old r m prefix p found old) ∙ e) in
            subst (λ x. on_heartbeat_submessage_received x m prefix ≡ ret (x, [])) same
              (heartbeat_old r m prefix p found old)
      ]
    ]
