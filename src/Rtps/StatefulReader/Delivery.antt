-- ===== src/Rtps/StatefulReader/Delivery.antt =====
-- What one submessage does to the changes that a reader has delivered from one writer.
use dust_dds.Base.{
  ℕ, ◌+◌, ◌≤◌, ◌<◌, ◌≡◌, refl, ◌∙◌, ◌⊎◌, inl, arith, Option, none, some, List, [], ◌∷◌, ◌++◌,
  if◌then◌else◌,
}
use dust_dds.Transport.Types.{Guid, GuidPrefix, Guid-discrete, guid_eq, reliable}
use dust_dds.Transport.History.{CacheChange}
use dust_dds.Rtps.Messages.Types.{Time}
use dust_dds.Rtps.Messages.Submessages.{DataSubmessage}
use dust_dds.Rtps.CacheChange.{ok, try_from_data_submessage}
use dust_dds.Rtps.WriterProxy.{RtpsWriterProxy, available_changes_max}
use dust_dds.Rtps.StatefulReader.{RtpsStatefulReader, matched_writer_lookup, with_writer}
use dust_dds.Rtps.StatefulReader.Lookup.{lookup_guid, lookup-put_self, lookup-put_ne}

-- The sequence numbers of the changes from the writer `g`.
pub delivered : Guid → List CacheChange → List ℕ
delivered g [] = []
delivered g (c ∷ cs) =
    let rest = delivered g cs in if guid_eq c.writer_guid g then c.sequence_number ∷ rest else rest

pub delivered-nil : (g : Guid) → delivered g [] ≡ []
unfolding delivered
delivered-nil g = refl

abbrev pub delivered_by : Guid → RtpsStatefulReader → List ℕ
delivered_by g r = delivered g r.history_cache

abbrev pub proxy_of : Guid → RtpsStatefulReader → Option RtpsWriterProxy
proxy_of g r = matched_writer_lookup g r.matched_writers

-- The proxy is there before and after, and `R` holds between the two.
abbrev pub Same :
    (RtpsWriterProxy → RtpsWriterProxy → Type 0)
    → Option RtpsWriterProxy
    → Option RtpsWriterProxy
    → Type 0
Same R none none = Unit {0}
Same R (some p) (some q) = R p q
Same R _ _ = ⊥

abbrev pub Grows : RtpsWriterProxy → RtpsWriterProxy → Type 0
Grows p q = p.highest_received_change_sn ≤ q.highest_received_change_sn

abbrev pub Steady : RtpsWriterProxy → RtpsWriterProxy → Type 0
Steady p q =
    (q.highest_received_change_sn ≡ p.highest_received_change_sn)
    × (q.reliability ≡ p.reliability)
    × (p.first_available_seq_num ≤ 1 → q.first_available_seq_num ≤ 1)

pub Steady-refl : (p : RtpsWriterProxy) → Steady p p
Steady-refl p = (refl, refl, λ h. h)

pub Grows-refl : (p : RtpsWriterProxy) → Grows p p
Grows-refl p = omega arith

-- One change of `g` is delivered: it is above all before it, and of a reliable writer it is the
-- next one.
pub record Delivers (g : Guid) (r r' : RtpsStatefulReader) : Type 0 where
  pub before : RtpsWriterProxy
  pub after : RtpsWriterProxy
  pub sn : ℕ
  pub found : proxy_of g r ≡ some before
  pub stored : proxy_of g r' ≡ some after
  pub above : before.highest_received_change_sn < sn
  pub highest : after.highest_received_change_sn ≡ sn
  pub reliability : after.reliability ≡ before.reliability
  pub next :
      before.reliability ≡ reliable
      → (sn ≡ available_changes_max before + 1)
        × (after.first_available_seq_num ≡ before.first_available_seq_num)
  pub more : delivered_by g r' ≡ delivered_by g r ++ sn ∷ []

abbrev pub Moves :
    (RtpsWriterProxy → RtpsWriterProxy → Type 0)
    → Guid
    → RtpsStatefulReader
    → RtpsStatefulReader
    → Type 0
Moves R g r r' =
    ((delivered_by g r' ≡ delivered_by g r) × Same R (proxy_of g r) (proxy_of g r'))
    ⊎ Delivers g r r'

module _ (R : RtpsWriterProxy → RtpsWriterProxy → Type 0)
    (same : (p : RtpsWriterProxy) → R p p) where
  pub Same-refl : (o : Option RtpsWriterProxy) → Same R o o
  Same-refl none = tt
  Same-refl (some p) = same p

  pub Moves-refl : (g : Guid) (r : RtpsStatefulReader) → Moves R g r r
  Moves-refl g r = inl (refl, Same-refl (proxy_of g r))

  -- Putting a proxy back is seen by its own writer only.
  pub with_writer-Same :
      (g k : Guid) (r : RtpsStatefulReader) (p q : RtpsWriterProxy)
      → proxy_of k r ≡ some p
      → q.remote_writer_guid ≡ p.remote_writer_guid
      → R p q
      → Same R (proxy_of g r) (proxy_of g (with_writer r k q))
  unfolding with_writer
  with_writer-Same g k r p q found guid step =
      let own : q.remote_writer_guid ≡ k = guid ∙ lookup_guid k r.matched_writers p found in
      elim (Guid-discrete g k) [
        | yes e ↦ rw (e, found, lookup-put_self k r.matched_writers p q found own) step
        | no n ↦ rw (lookup-put_ne g k r.matched_writers q n own) (Same-refl _)
      ]

pub delivered-append :
    (g : Guid) (cs : List CacheChange) (c : CacheChange)
    → delivered g (cs ++ c ∷ [])
      ≡ delivered g cs ++ (if guid_eq c.writer_guid g then c.sequence_number ∷ [] else [])
unfolding delivered
delivered-append g [] c = ground arith
delivered-append g (d ∷ cs) c = ground (arith, delivered-append g cs c)

-- A converted change is of the message's writer and number.
pub converted :
    (m : DataSubmessage) (prefix : GuidPrefix) (t : Option Time) (c : CacheChange)
    → try_from_data_submessage m prefix t ≡ ok c
    → (c.writer_guid ≡ record { prefix = prefix; entity_id = m.writer_id })
      × (c.sequence_number ≡ m.writer_sn)
unfolding try_from_data_submessage
converted m prefix t c h = ground arith
