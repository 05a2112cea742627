-- ===== src/Rtps/StatefulReader/Receive.antt =====
-- How DATA and DATA_FRAG submessages move the changes that a reader has delivered from one writer.
use dust_dds.Base.{
  ℕ, ◌+◌, ◌≤◌, ◌<◌, ◌≡◌, refl, sym, ap, ◌∙◌, inl, inr, arith, Option, none, some, List, [], ◌∷◌,
  ◌++◌, if◌then◌else◌, ltb, leb, ◌==◌, ◌≢◌, Bool-cases, Option-cases,
}
use mathlib.Core.List.{append-nil}
use dust_dds.Transport.Types.{
  Guid, GuidPrefix, Guid-discrete, guid_eq_iff, ReliabilityKind, best_effort, reliable,
}
use dust_dds.Transport.History.{CacheChange}
use dust_dds.Rtps.Messages.Types.{Time}
use dust_dds.Rtps.Messages.Submessages.{DataSubmessage}
use dust_dds.Rtps.CacheChange.{Result, ConversionError, ok, err, try_from_data_submessage}
use dust_dds.Rtps.WriterProxy.{
  RtpsWriterProxy, available_changes_max, received_change_set, lost_changes_update,
}
use dust_dds.Rtps.StatefulReader.{
  RtpsStatefulReader, with_writer, add_change, received_by, on_data_submessage_received,
}
use dust_dds.Rtps.StatefulReader.Lookup.{lookup_guid, lookup-put_self, lookup-put_ne}
use dust_dds.Rtps.StatefulReader.Delivery.{
  delivered, proxy_of, Grows, Grows-refl, Moves, Same-refl, Moves-refl, with_writer-Same,
  delivered-append, converted,
}

delivered_own :
    (g : Guid) (cs : List CacheChange) (c : CacheChange)
    → c.writer_guid ≡ g
    → delivered g (cs ++ c ∷ []) ≡ delivered g cs ++ c.sequence_number ∷ []
delivered_own g cs c e = ground (arith, delivered-append g cs c, guid_eq_iff c.writer_guid g)

delivered_other :
    (g : Guid) (cs : List CacheChange) (c : CacheChange)
    → c.writer_guid ≢ g
    → delivered g (cs ++ c ∷ []) ≡ delivered g cs
delivered_other g cs c n =
    ground
      (arith, delivered-append g cs c, guid_eq_iff c.writer_guid g, append-nil (delivered g cs))

-- The proxy after a change was accepted.
record Accepts (p q : RtpsWriterProxy) (sn : ℕ) : Type 0 where
  guid : q.remote_writer_guid ≡ p.remote_writer_guid
  above : p.highest_received_change_sn < sn
  highest : q.highest_received_change_sn ≡ sn
  reliability : q.reliability ≡ p.reliability
  next :
      p.reliability ≡ reliable
      → (sn ≡ available_changes_max p + 1) × (q.first_available_seq_num ≡ p.first_available_seq_num)

module _ (R : RtpsWriterProxy → RtpsWriterProxy → Type 0)
    (same : (p : RtpsWriterProxy) → R p p) where
  accepted-Moves :
      (g k : Guid) (r : RtpsStatefulReader) (p q : RtpsWriterProxy) (c : CacheChange)
      → proxy_of k r ≡ some p
      → c.writer_guid ≡ k
      → Accepts p q c.sequence_number
      → Moves R g r (add_change (with_writer r k q) (ok c))
  unfolding with_writer add_change
  accepted-Moves g k r p q c found of a =
      let own : q.remote_writer_guid ≡ k = a.guid ∙ lookup_guid k r.matched_writers p found in
      elim (Guid-discrete g k) [
        | yes e ↦ inr (record {
          before = p;
          after = q;
          sn = c.sequence_number;
          found = rw e found;
          stored = rw e (lookup-put_self k r.matched_writers p q found own);
          above = a.above;
          highest = a.highest;
          reliability = a.reliability;
          next = a.next;
          more = delivered_own g r.history_cache c (of ∙ sym e);
        })
        | no n ↦ inl (
          delivered_other g r.history_cache c (λ e. n (sym e ∙ of)),
          rw (lookup-put_ne g k r.matched_writers q n own) (Same-refl R same _),
        )
      ]

reliable-Accepts :
    (p : RtpsWriterProxy) (sn : ℕ)
    → sn ≡ available_changes_max p + 1
    → Accepts p (received_change_set p sn) sn
unfolding received_change_set available_changes_max
reliable-Accepts p sn e = ground arith

best_effort-Accepts :
    (p : RtpsWriterProxy) (sn : ℕ)
    → p.reliability ≡ best_effort
    → available_changes_max p + 1 ≤ sn
    → Accepts p
        (if ltb (available_changes_max p + 1) sn
          then lost_changes_update (received_change_set p sn) sn
          else received_change_set p sn)
        sn
unfolding received_change_set available_changes_max lost_changes_update
best_effort-Accepts p sn b h = ground arith

module _ (R : RtpsWriterProxy → RtpsWriterProxy → Type 0)
    (same : (p : RtpsWriterProxy) → R p p) where
  received_ok :
      (rel : ReliabilityKind) (g k : Guid) (r : RtpsStatefulReader) (p : RtpsWriterProxy)
      (m : DataSubmessage) (c : CacheChange)
      → p.reliability ≡ rel
      → proxy_of k r ≡ some p
      → c.writer_guid ≡ k
      → c.sequence_number ≡ m.writer_sn
      → Moves R g r (received_by rel r k p m (ok c))
  unfolding received_by
  received_ok best_effort g k r p m c e found of num =
      elim (Bool-cases (leb (available_changes_max p + 1) m.writer_sn)) [
        | inl due ↦ rw due (
            accepted-Moves R same g k r p _ c found of
              (rw num (best_effort-Accepts p m.writer_sn e (ground arith))))
        | inr late ↦ rw late (Moves-refl R same g r)
      ]
  received_ok reliable g k r p m c e found of num =
      elim (Bool-cases (m.writer_sn == available_changes_max p + 1)) [
        | inl due ↦ rw due (
            accepted-Moves R same g k r p _ c found of
              (rw num (reliable-Accepts p m.writer_sn (ground arith))))
        | inr other ↦ rw other (Moves-refl R same g r)
      ]

-- A proxy that is put back without a delivery.
pub put_Moves :
    (R : RtpsWriterProxy → RtpsWriterProxy → Type 0) (same : (p : RtpsWriterProxy) → R p p)
    (g k : Guid) (r : RtpsStatefulReader) (p q : RtpsWriterProxy)
    → proxy_of k r ≡ some p
    → q.remote_writer_guid ≡ p.remote_writer_guid
    → R p q
    → Moves R g r (with_writer r k q)
put_Moves R same g k r p q found guid step = inl (
  ap (delivered g) (unfold with_writer in refl),
  with_writer-Same R same g k r p q found guid step,
)

-- A change that cannot be converted advances the proxy though nothing is delivered.
received_err :
    (rel : ReliabilityKind) (g k : Guid) (r : RtpsStatefulReader) (p : RtpsWriterProxy)
    (m : DataSubmessage) (e : ConversionError)
    → p.reliability ≡ rel
    → proxy_of k r ≡ some p
    → Moves Grows g r (received_by rel r k p m (err e))
unfolding received_by add_change
received_err best_effort g k r p m x e found =
    elim (Bool-cases (leb (available_changes_max p + 1) m.writer_sn)) [
      | inl due ↦
          let a = best_effort-Accepts p m.writer_sn e (ground arith) in
          rw due
            (put_Moves Grows Grows-refl g k r p _ found a.guid (omega (arith, a.above, a.highest)))
      | inr late ↦ rw late (Moves-refl Grows Grows-refl g r)
    ]
received_err reliable g k r p m x e found =
    elim (Bool-cases (m.writer_sn == available_changes_max p + 1)) [
      | inl due ↦
          let a = reliable-Accepts p m.writer_sn (ground arith) in
          rw due
            (put_Moves Grows Grows-refl g k r p _ found a.guid (omega (arith, a.above, a.highest)))
      | inr other ↦ rw other (Moves-refl Grows Grows-refl g r)
    ]

abbrev sender : GuidPrefix → DataSubmessage → Guid
sender prefix m = record { prefix = prefix; entity_id = m.writer_id }

pub on_data_some :
    (r : RtpsStatefulReader) (m : DataSubmessage) (prefix : GuidPrefix) (t : Option Time)
    (p : RtpsWriterProxy)
    → proxy_of (sender prefix m) r ≡ some p
    → on_data_submessage_received r m prefix t
      ≡ received_by p.reliability r (sender prefix m) p m (try_from_data_submessage m prefix t)
unfolding on_data_submessage_received
on_data_some r m prefix t p found = rw (found, on_data_submessage_received)

pub on_data_none :
    (r : RtpsStatefulReader) (m : DataSubmessage) (prefix : GuidPrefix) (t : Option Time)
    → proxy_of (sender prefix m) r ≡ none
    → on_data_submessage_received r m prefix t ≡ r
unfolding on_data_submessage_received
on_data_none r m prefix t gone = rw (gone, on_data_submessage_received)

-- A DATA submessage that can be converted.
pub data_Moves_ok :
    (R : RtpsWriterProxy → RtpsWriterProxy → Type 0) (same : (p : RtpsWriterProxy) → R p p)
    (g : Guid) (r : RtpsStatefulReader) (m : DataSubmessage) (prefix : GuidPrefix) (t : Option Time)
    (c : CacheChange)
    → try_from_data_submessage m prefix t ≡ ok c
    → Moves R g r (on_data_submessage_received r m prefix t)
data_Moves_ok R same g r m prefix t c e =
    let k : Guid = sender prefix m in
    let (of, num) = converted m prefix t c e in
    elim (Option-cases (proxy_of k r)) [
      | inl gone ↦ rw (on_data_none r m prefix t gone) (Moves-refl R same g r)
      | inr (p, found) ↦
          rw (on_data_some r m prefix t p found, e)
            (received_ok R same p.reliability g k r p m c refl found of num)
    ]

data_Moves_cases :
    (g : Guid) (r : RtpsStatefulReader) (m : DataSubmessage) (prefix : GuidPrefix) (t : Option Time)
    (o : Option RtpsWriterProxy) (change : Result CacheChange)
    → proxy_of (record { prefix = prefix; entity_id = m.writer_id }) r ≡ o
    → try_from_data_submessage m prefix t ≡ change
    → Moves Grows g r (on_data_submessage_received r m prefix t)
data_Moves_cases g r m prefix t o (ok c) found e = data_Moves_ok Grows Grows-refl g r m prefix t c e
data_Moves_cases g r m prefix t none (err x) found e =
    rw (on_data_none r m prefix t found) (Moves-refl Grows Grows-refl g r)
data_Moves_cases g r m prefix t (some p) (err x) found e =
    rw (on_data_some r m prefix t p found, e) (received_err p.reliability g _ r p m x refl found)

pub data_Moves :
    (g : Guid) (r : RtpsStatefulReader) (m : DataSubmessage) (prefix : GuidPrefix) (t : Option Time)
    → Moves Grows g r (on_data_submessage_received r m prefix t)
data_Moves g r m prefix t = data_Moves_cases g r m prefix t _ _ refl refl
