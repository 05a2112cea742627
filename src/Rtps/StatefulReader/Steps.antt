-- ===== src/Rtps/StatefulReader/Steps.antt =====
-- How the other submessages move the changes that a reader has delivered from one writer.
use dust_dds.Base.{
  ℕ, ◌+◌, ◌≡◌, refl, ap, ◌∙◌, inl, inr, arith, Option, none, some, List, [], ◌∷◌, Outcome, ret,
  panic, stuck, ◌>>=◌, Option-cases, range,
}
use mathlib.Core.Path.{subst}
use mathlib.Core.List.{foldl}
use dust_dds.Transport.Types.{Guid, GuidPrefix, EntityId}
use dust_dds.Rtps.Messages.Types.{Time}
use dust_dds.Rtps.Messages.Submessages.{DataSubmessage, DataFragSubmessage, GapSubmessage, Message}
use dust_dds.Rtps.SequenceNumberSet.{elements}
use dust_dds.Rtps.WriterProxy.{RtpsWriterProxy, available_changes_max, irrelevant_change_set}
use dust_dds.Rtps.WriterProxy.Fragments.{
  push_data_frag, reconstruct_data_from_frag, reconstruct_from, get_fragments,
}
use dust_dds.Rtps.WriterProxy.Sending.{send_message}
use dust_dds.Rtps.StatefulReader.{
  RtpsStatefulReader, with_writer, receive_joined, irrelevant_changes,
  on_data_frag_submessage_received, on_gap_submessage_received,
}
use dust_dds.Rtps.StatefulReader.Delivery.{
  delivered, delivered_by, proxy_of, Same, Grows, Grows-refl, Moves, Moves-refl, with_writer-Same,
}
use dust_dds.Rtps.StatefulReader.Receive.{put_Moves, data_Moves}

pub ret-injective {ℓ} : {A : Type ℓ} {a b : A} → ret a ≡ ret b → a ≡ b
ret-injective e = cc

-- What delivery looks at is unchanged.
pub record Still (p q : RtpsWriterProxy) : Type 0 where
  pub guid : q.remote_writer_guid ≡ p.remote_writer_guid
  pub highest : q.highest_received_change_sn ≡ p.highest_received_change_sn
  pub reliability : q.reliability ≡ p.reliability
  pub first : q.first_available_seq_num ≡ p.first_available_seq_num
  pub heartbeats : q.last_received_heartbeat_count ≡ p.last_received_heartbeat_count

push_Still : (p : RtpsWriterProxy) (m : DataFragSubmessage) → Still p (push_data_frag p m)
unfolding push_data_frag
push_Still p m = record {
  guid = refl;
  highest = refl;
  reliability = refl;
  first = refl;
  heartbeats = refl;
}

reconstruct_from-Still :
    (p q : RtpsWriterProxy) (sn : ℕ) (frags : List DataFragSubmessage) (j : Option DataSubmessage)
    → reconstruct_from p sn frags ≡ ret (q, j)
    → Still p q
unfolding reconstruct_from
reconstruct_from-Still p q sn [] j e = cc
reconstruct_from-Still p q sn (f ∷ frags) j e = ground arith

refused_Still :
    (p q : RtpsWriterProxy) (j : Option DataSubmessage)
    → ◌≡◌ {A = Outcome (RtpsWriterProxy × Option DataSubmessage)} (ret (p, none)) (ret (q, j))
    → Still p q
refused_Still p q j e = ground arith

reconstruct_Still :
    (p q : RtpsWriterProxy) (sn : ℕ) (j : Option DataSubmessage)
    → reconstruct_data_from_frag p sn ≡ ret (q, j)
    → Still p q
unfolding reconstruct_data_from_frag
reconstruct_Still p q sn j e = elim (Option-cases (get_fragments sn p.frag_buffer)) [
  | inl gone ↦ refused_Still p q j (rw (gone, reconstruct_data_from_frag) at e)
  | inr (frags, found) ↦
      reconstruct_from-Still p q sn frags j (rw (found, reconstruct_data_from_frag) at e)
]

pub send_message-Still :
    (p q : RtpsWriterProxy) (g : Guid) (sent : List Message)
    → send_message p g ≡ ret (q, sent)
    → Still p q
unfolding send_message
send_message-Still p q g sent e = ground arith

irrelevant_step :
    (p : RtpsWriterProxy) (sn : ℕ)
    → Grows p (irrelevant_change_set p sn)
      × ((irrelevant_change_set p sn).remote_writer_guid ≡ p.remote_writer_guid)
unfolding irrelevant_change_set
irrelevant_step p sn = ground arith

pub irrelevant_Grows :
    (p : RtpsWriterProxy) (sns : List ℕ)
    → Grows p (foldl irrelevant_change_set p sns)
      × ((foldl irrelevant_change_set p sns).remote_writer_guid ≡ p.remote_writer_guid)
irrelevant_Grows p [] = (omega arith, refl)
irrelevant_Grows p (sn ∷ sns) =
    let (more, guid) = irrelevant_Grows (irrelevant_change_set p sn) sns in
    let (one, same) = irrelevant_step p sn in (omega arith, guid ∙ same)

pub irrelevant_changes-Grows :
    (p : RtpsWriterProxy) (m : GapSubmessage)
    → Grows p (irrelevant_changes p m)
      × ((irrelevant_changes p m).remote_writer_guid ≡ p.remote_writer_guid)
unfolding irrelevant_changes
irrelevant_changes-Grows p m =
    let between = foldl irrelevant_change_set p (range m.gap_start m.gap_list.base) in
    let (some_more, guid) = irrelevant_Grows p (range m.gap_start m.gap_list.base) in
    let (more, same) = irrelevant_Grows between (elements m.gap_list) in (omega arith, same ∙ guid)

Same-some :
    (R : RtpsWriterProxy → RtpsWriterProxy → Type 0) (o : Option RtpsWriterProxy)
    (q : RtpsWriterProxy)
    → Same R o (some q)
    → (p : RtpsWriterProxy) × (o ≡ some p) × R p q
Same-some R none q h = absurd h
Same-some R (some p) q h = (p, refl, h)

Same-trans :
    (o o1 o2 : Option RtpsWriterProxy) → Same Still o o1 → Same Grows o1 o2 → Same Grows o o2
Same-trans none none none h k = tt
Same-trans none none (some r) h k = absurd k
Same-trans none (some q) o2 h k = absurd h
Same-trans (some p) none o2 h k = absurd h
Same-trans (some p) (some q) none h k = absurd k
Same-trans (some p) (some q) (some r) h k = omega (arith, h.highest)

available_Still :
    (p q : RtpsWriterProxy) → Still p q → available_changes_max q ≡ available_changes_max p
unfolding available_changes_max
available_Still p q s = rw (s.first, s.highest)

-- A step that leaves the proxies still, then one that moves.
Still-Moves :
    (g : Guid) (r r1 r2 : RtpsStatefulReader)
    → delivered_by g r1 ≡ delivered_by g r
    → Same Still (proxy_of g r) (proxy_of g r1)
    → Moves Grows g r1 r2
    → Moves Grows g r r2
Still-Moves g r r1 r2 d s (inl (d', s')) =
    inl (d' ∙ d, Same-trans (proxy_of g r) (proxy_of g r1) (proxy_of g r2) s s')
Still-Moves g r r1 r2 d s (inr x) =
    let (p, found, still) = Same-some Still (proxy_of g r) x.before (rw x.found at s) in
    inr (record {
      before = p;
      after = x.after;
      sn = x.sn;
      found = found;
      stored = x.stored;
      above = omega (arith, still.highest, x.above);
      highest = x.highest;
      reliability = x.reliability ∙ still.reliability;
      next = λ rel.
          let (num, first) = x.next (still.reliability ∙ rel) in
          (num ∙ ap (λ (n : ℕ). n + 1) (available_Still p x.before still), first ∙ still.first);
      more = x.more ∙ rw d;
    })

Still-refl : (p : RtpsWriterProxy) → Still p p
Still-refl p = record {
  guid = refl;
  highest = refl;
  reliability = refl;
  first = refl;
  heartbeats = refl;
}

receive_joined-Moves :
    (g : Guid) (r : RtpsStatefulReader) (j : Option DataSubmessage) (prefix : GuidPrefix)
    (t : Option Time)
    → Moves Grows g r (receive_joined r j prefix t)
unfolding receive_joined
receive_joined-Moves g r none prefix t = Moves-refl Grows Grows-refl g r
receive_joined-Moves g r (some m) prefix t = data_Moves g r m prefix t

abbrev sender : GuidPrefix → EntityId → Guid
sender prefix id = record { prefix = prefix; entity_id = id }

frag_found :
    (g k : Guid) (r r' : RtpsStatefulReader) (m : DataFragSubmessage) (prefix : GuidPrefix)
    (t : Option Time) (p : RtpsWriterProxy)
    → proxy_of k r ≡ some p
    → (o : Outcome (RtpsWriterProxy × Option DataSubmessage))
    → reconstruct_data_from_frag (push_data_frag p m) m.writer_sn ≡ o
    → (do (p', joined) ← o; ret (receive_joined (with_writer r k p') joined prefix t)) ≡ ret r'
    → Moves Grows g r r'
frag_found g k r r' m prefix t p found panic e h = cc
frag_found g k r r' m prefix t p found stuck e h = cc
frag_found g k r r' m prefix t p found (ret (q, j)) e h =
    let pushed = push_Still p m in
    let rebuilt = reconstruct_Still (push_data_frag p m) q m.writer_sn j e in
    let still : Still p q = record {
      guid = rebuilt.guid ∙ pushed.guid;
      highest = rebuilt.highest ∙ pushed.highest;
      reliability = rebuilt.reliability ∙ pushed.reliability;
      first = rebuilt.first ∙ pushed.first;
      heartbeats = rebuilt.heartbeats ∙ pushed.heartbeats;
    } in
    Still-Moves g r (with_writer r k q) r' (ap (delivered g) (unfold with_writer in refl))
      (with_writer-Same Still Still-refl g k r p q found still.guid still)
      (subst (Moves Grows g (with_writer r k q)) (ret-injective h)
        (receive_joined-Moves g (with_writer r k q) j prefix t))

pub frag_Moves :
    (g : Guid) (r r' : RtpsStatefulReader) (m : DataFragSubmessage) (prefix : GuidPrefix)
    (t : Option Time)
    → on_data_frag_submessage_received r m prefix t ≡ ret r'
    → Moves Grows g r r'
unfolding on_data_frag_submessage_received
frag_Moves g r r' m prefix t e = elim (Option-cases (proxy_of (sender prefix m.writer_id) r)) [
  | inl gone ↦
      let same : r ≡ r' = ret-injective (rw (gone, on_data_frag_submessage_received) at e) in
      subst (Moves Grows g r) same (Moves-refl Grows Grows-refl g r)
  | inr (p, found) ↦
      frag_found g _ r r' m prefix t p found _ refl
        (rw (found, on_data_frag_submessage_received) at e)
]

pub gap_Moves :
    (g : Guid) (r : RtpsStatefulReader) (m : GapSubmessage) (prefix : GuidPrefix)
    → Moves Grows g r (on_gap_submessage_received r m prefix)
unfolding on_gap_submessage_received
gap_Moves g r m prefix = elim (Option-cases (proxy_of (sender prefix m.writer_id) r)) [
  | inl gone ↦ rw (gone, on_gap_submessage_received) (Moves-refl Grows Grows-refl g r)
  | inr (p, found) ↦
      rw (found, on_gap_submessage_received)
        (let (grows, guid) = irrelevant_changes-Grows p m in
          put_Moves Grows Grows-refl g _ r p _ found guid grows)
]
