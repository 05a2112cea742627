-- ===== src/Rtps/StatefulReader/Run.antt =====
-- Runs of a reader over the submessages that it is given.
use dust_dds.Base.{
  ◌≡◌, refl, ap, ◌∙◌, arith, Option, List, [], ◌∷◌, Outcome, ret, panic, stuck, ◌>>=◌, All,
}
use mathlib.Core.Path.{subst}
use dust_dds.Transport.Types.{Guid, GuidPrefix}
use dust_dds.Rtps.Messages.Types.{Time}
use dust_dds.Rtps.Messages.Submessages.{
  DataSubmessage, DataFragSubmessage, GapSubmessage, HeartbeatSubmessage, HeartbeatFragSubmessage,
  Message,
}
use dust_dds.Rtps.WriterProxy.{RtpsWriterProxy, set_last_received_heartbeat_frag_count}
use dust_dds.Rtps.StatefulReader.{
  RtpsStatefulReader, on_data_submessage_received, on_data_frag_submessage_received,
  on_gap_submessage_received, on_heartbeat_submessage_received,
  on_heartbeat_frag_submessage_received,
}
use dust_dds.Rtps.StatefulReader.Delivery.{Grows, Grows-refl, Moves}
use dust_dds.Rtps.StatefulReader.Receive.{data_Moves}
use dust_dds.Rtps.StatefulReader.Steps.{frag_Moves, gap_Moves, ret-injective}
use dust_dds.Rtps.StatefulReader.Heartbeats.{heartbeat_Moves, heartbeat_frag_Moves}

-- A submessage with the prefix of its source and, for data, its timestamp.
pub data Event : Type 0 where
  data_event : DataSubmessage → GuidPrefix → Option Time → Event
  data_frag_event : DataFragSubmessage → GuidPrefix → Option Time → Event
  gap_event : GapSubmessage → GuidPrefix → Event
  heartbeat_event : HeartbeatSubmessage → GuidPrefix → Event
  heartbeat_frag_event : HeartbeatFragSubmessage → GuidPrefix → Event

abbrev pub reader_of : RtpsStatefulReader × List Message → Outcome RtpsStatefulReader
reader_of x = ret x.0

unfoldable pub step : RtpsStatefulReader → Event → Outcome RtpsStatefulReader
step r (data_event m prefix t) = ret (on_data_submessage_received r m prefix t)
step r (data_frag_event m prefix t) = on_data_frag_submessage_received r m prefix t
step r (gap_event m prefix) = ret (on_gap_submessage_received r m prefix)
step r (heartbeat_event m prefix) = on_heartbeat_submessage_received r m prefix >>= reader_of
step r (heartbeat_frag_event m prefix) = ret (on_heartbeat_frag_submessage_received r m prefix)

unfoldable pub run : RtpsStatefulReader → List Event → Outcome RtpsStatefulReader
unfolding step
run r [] = ret r
run r (e ∷ es) = step r e >>= λ r'. run r' es

pub heartbeat_outcome :
    (R : RtpsWriterProxy → RtpsWriterProxy → Type 0) (same : (p : RtpsWriterProxy) → R p p)
    (g : Guid) (r r' : RtpsStatefulReader) (m : HeartbeatSubmessage) (prefix : GuidPrefix)
    → ((p q : RtpsWriterProxy)
        → q.highest_received_change_sn ≡ p.highest_received_change_sn
        → q.reliability ≡ p.reliability
        → q.first_available_seq_num ≡ m.first_sn
        → R p q)
    → (o : Outcome (RtpsStatefulReader × List Message))
    → on_heartbeat_submessage_received r m prefix ≡ o
    → (o >>= reader_of) ≡ ret r'
    → Moves R g r r'
heartbeat_outcome R same g r r' m prefix h panic e k = cc
heartbeat_outcome R same g r r' m prefix h stuck e k = cc
heartbeat_outcome R same g r r' m prefix h (ret (q, sent)) e k =
    heartbeat_Moves R same g r r' m prefix sent h
      (e ∙ ap (λ (x : RtpsStatefulReader). ret (x, sent)) (ret-injective k))

pub step-Moves :
    (g : Guid) (r r' : RtpsStatefulReader) (e : Event) → step r e ≡ ret r' → Moves Grows g r r'
unfolding step
step-Moves g r r' (data_event m prefix t) e =
    subst (Moves Grows g r) (ret-injective e) (data_Moves g r m prefix t)
step-Moves g r r' (data_frag_event m prefix t) e = frag_Moves g r r' m prefix t e
step-Moves g r r' (gap_event m prefix) e =
    subst (Moves Grows g r) (ret-injective e) (gap_Moves g r m prefix)
step-Moves g r r' (heartbeat_event m prefix) e =
    heartbeat_outcome Grows Grows-refl g r r' m prefix (λ p q high rel first. omega (arith, high)) _
      refl e
step-Moves g r r' (heartbeat_frag_event m prefix) e = subst (Moves Grows g r) (ret-injective e) (
    heartbeat_frag_Moves Grows Grows-refl g r m prefix
      (λ p c. unfold set_last_received_heartbeat_frag_count in omega arith))

run_cons :
    (r r' : RtpsStatefulReader) (es : List Event) (o : Outcome RtpsStatefulReader)
    → (o >>= λ s. run s es) ≡ ret r'
    → (s : RtpsStatefulReader) × (o ≡ ret s) × (run s es ≡ ret r')
run_cons r r' es panic k = absurd (cc k)
run_cons r r' es stuck k = absurd (cc k)
run_cons r r' es (ret s) k = (s, refl, k)

-- What holds at first and is kept by the steps that `Q` allows holds after a run of such steps.
pub run_keeps :
    (P : RtpsStatefulReader → Type 0) (Q : Event → Type 0)
    → ((r r' : RtpsStatefulReader) (e : Event) → Q e → step r e ≡ ret r' → P r → P r')
    → (r r' : RtpsStatefulReader) (es : List Event) → All Q es
    → P r
    → run r es ≡ ret r'
    → P r'
unfolding run
run_keeps P Q keep r r' [] q i h = subst P (ret-injective h) i
run_keeps P Q keep r r' (e ∷ es) q i h =
    let (s, one, rest) = run_cons r r' es (step r e) h in
    run_keeps P Q keep s r' es q.1 (keep r s e q.0 one i) rest
