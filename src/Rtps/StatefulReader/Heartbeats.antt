-- ===== src/Rtps/StatefulReader/Heartbeats.antt =====
-- HEARTBEAT and HEARTBEAT_FRAG submessages at a reader: what they change, and what answers them.
use mathlib.Core.Path.{subst}
use dust_dds.Base.{
  ℕ, ◌≡◌, refl, sym, ap, ◌∙◌, inl, inr, arith, true, false, none, some, List, [], Outcome, ret,
  panic, stuck, ◌>>=◌, Bool-cases, Option-cases, i32_lt,
}
use dust_dds.Transport.Types.{Guid, GuidPrefix, EntityId}
use dust_dds.Rtps.Messages.Submessages.{HeartbeatSubmessage, HeartbeatFragSubmessage, Message}
use dust_dds.Rtps.WriterProxy.{RtpsWriterProxy, set_last_received_heartbeat_frag_count}
use dust_dds.Rtps.WriterProxy.Sending.{send_message}
use dust_dds.Rtps.StatefulReader.{
  RtpsStatefulReader, with_writer, heartbeat_update, on_heartbeat_submessage_received,
  on_heartbeat_frag_submessage_received,
}
use dust_dds.Rtps.StatefulReader.Delivery.{proxy_of, Moves, Moves-refl}
use dust_dds.Rtps.StatefulReader.Receive.{put_Moves}
use dust_dds.Rtps.StatefulReader.Steps.{send_message-Still, ret-injective}

abbrev pub sender : GuidPrefix → EntityId → Guid
sender prefix id = record { prefix = prefix; entity_id = id }

pub record Updated (p : RtpsWriterProxy) (m : HeartbeatSubmessage) (q : RtpsWriterProxy)
    : Type 0 where
  pub guid : q.remote_writer_guid ≡ p.remote_writer_guid
  highest : q.highest_received_change_sn ≡ p.highest_received_change_sn
  reliability : q.reliability ≡ p.reliability
  first : q.first_available_seq_num ≡ m.first_sn
  pub heartbeats : q.last_received_heartbeat_count ≡ m.count

pub heartbeat_update_lem :
    (p : RtpsWriterProxy) (m : HeartbeatSubmessage) → Updated p m (heartbeat_update p m)
unfolding heartbeat_update
heartbeat_update_lem p m = ground arith

-- The proxy is put back, and the messages go out.
abbrev pub answered :
    RtpsStatefulReader
    → Guid
    → RtpsWriterProxy × List Message
    → Outcome (RtpsStatefulReader × List Message)
answered r k x = ret (with_writer r k x.0, x.1)

heartbeat_found :
    (R : RtpsWriterProxy → RtpsWriterProxy → Type 0) (same : (p : RtpsWriterProxy) → R p p)
    (g k : Guid) (r r' : RtpsStatefulReader) (p : RtpsWriterProxy) (m : HeartbeatSubmessage)
    (sent : List Message)
    → ((p q : RtpsWriterProxy)
        → q.highest_received_change_sn ≡ p.highest_received_change_sn
        → q.reliability ≡ p.reliability
        → q.first_available_seq_num ≡ m.first_sn
        → R p q)
    → proxy_of k r ≡ some p
    → (o : Outcome (RtpsWriterProxy × List Message))
    → send_message (heartbeat_update p m) r.guid ≡ o
    → (o >>= answered r k) ≡ ret (r', sent)
    → Moves R g r r'
heartbeat_found R same g k r r' p m sent step found panic e h = cc
heartbeat_found R same g k r r' p m sent step found stuck e h = cc
heartbeat_found R same g k r r' p m sent step found (ret (q, out)) e h =
    let up = heartbeat_update_lem p m in
    let still = send_message-Still (heartbeat_update p m) q r.guid out e in
    subst (Moves R g r) (ap (λ (x : RtpsStatefulReader × List Message). x.0) (ret-injective h)) (
      put_Moves R same g k r p q found (still.guid ∙ up.guid) (
        step p q (still.highest ∙ up.highest) (still.reliability ∙ up.reliability)
          (still.first ∙ up.first)))

pub heartbeat_none :
    (r : RtpsStatefulReader) (m : HeartbeatSubmessage) (prefix : GuidPrefix)
    → proxy_of (sender prefix m.writer_id) r ≡ none
    → on_heartbeat_submessage_received r m prefix ≡ ret (r, [])
unfolding on_heartbeat_submessage_received
heartbeat_none r m prefix gone = rw (gone, on_heartbeat_submessage_received)

pub heartbeat_old :
    (r : RtpsStatefulReader) (m : HeartbeatSubmessage) (prefix : GuidPrefix) (p : RtpsWriterProxy)
    → proxy_of (sender prefix m.writer_id) r ≡ some p
    → i32_lt p.last_received_heartbeat_count m.count ≡ false
    → on_heartbeat_submessage_received r m prefix ≡ ret (r, [])
unfolding on_heartbeat_submessage_received
heartbeat_old r m prefix p found old = rw (found, old, on_heartbeat_submessage_received)

pub heartbeat_fresh :
    (r : RtpsStatefulReader) (m : HeartbeatSubmessage) (prefix : GuidPrefix) (p : RtpsWriterProxy)
    → proxy_of (sender prefix m.writer_id) r ≡ some p
    → i32_lt p.last_received_heartbeat_count m.count ≡ true
    → on_heartbeat_submessage_received r m prefix
      ≡ (send_message (heartbeat_update p m) r.guid >>= answered r (sender prefix m.writer_id))
unfolding on_heartbeat_submessage_received
heartbeat_fresh r m prefix p found fresh = rw (found, fresh, on_heartbeat_submessage_received)

-- A heartbeat delivers nothing.
pub heartbeat_Moves :
    (R : RtpsWriterProxy → RtpsWriterProxy → Type 0) (same : (p : RtpsWriterProxy) → R p p)
    (g : Guid) (r r' : RtpsStatefulReader) (m : HeartbeatSubmessage) (prefix : GuidPrefix)
    (sent : List Message)
    → ((p q : RtpsWriterProxy)
        → q.highest_received_change_sn ≡ p.highest_received_change_sn
        → q.reliability ≡ p.reliability
        → q.first_available_seq_num ≡ m.first_sn
        → R p q)
    → on_heartbeat_submessage_received r m prefix ≡ ret (r', sent)
    → Moves R g r r'
heartbeat_Moves R same g r r' m prefix sent step e =
    elim (Option-cases (proxy_of (sender prefix m.writer_id) r)) [
      | inl gone ↦ unmoved (sym (heartbeat_none r m prefix gone) ∙ e)
      | inr (p, found) ↦ elim (Bool-cases (i32_lt p.last_received_heartbeat_count m.count)) [
        | inl fresh ↦
            heartbeat_found R same g _ r r' p m sent step found _ refl
              (sym (heartbeat_fresh r m prefix p found fresh) ∙ e)
        | inr old ↦ unmoved (sym (heartbeat_old r m prefix p found old) ∙ e)
      ]
    ]
  where
    unmoved :
        ◌≡◌ {A = Outcome (RtpsStatefulReader × List Message)} (ret (r, [])) (ret (r', sent))
        → Moves R g r r'
    unmoved h =
        subst (Moves R g r) (ap (λ (x : RtpsStatefulReader × List Message). x.0) (ret-injective h))
          (Moves-refl R same g r)

pub heartbeat_frag_Moves :
    (R : RtpsWriterProxy → RtpsWriterProxy → Type 0) (same : (p : RtpsWriterProxy) → R p p)
    (g : Guid) (r : RtpsStatefulReader) (m : HeartbeatFragSubmessage) (prefix : GuidPrefix)
    → ((p : RtpsWriterProxy) (c : ℕ) → R p (set_last_received_heartbeat_frag_count p c))
    → Moves R g r (on_heartbeat_frag_submessage_received r m prefix)
unfolding on_heartbeat_frag_submessage_received
heartbeat_frag_Moves R same g r m prefix step =
    elim (Option-cases (proxy_of (sender prefix m.writer_id) r)) [
      | inl gone ↦ rw (gone, on_heartbeat_frag_submessage_received) (Moves-refl R same g r)
      | inr (p, found) ↦ elim (Bool-cases (i32_lt p.last_received_heartbeat_count m.count)) [
        | inl fresh ↦
            rw (found, fresh, on_heartbeat_frag_submessage_received)
              (put_Moves R same g _ r p _ found refl (step p m.count))
        | inr old ↦ rw (found, old, on_heartbeat_frag_submessage_received) (Moves-refl R same g r)
      ]
    ]
