-- ===== src/Rtps/StatefulReader/Lookup.antt =====
-- Finding a matched writer and putting it back.
use dust_dds.Base.{◌≡◌, refl, arith, some, List, [], ◌∷◌, ◌≢◌}
use dust_dds.Transport.Types.{Guid, guid_eq_iff}
use dust_dds.Rtps.WriterProxy.{RtpsWriterProxy}
use dust_dds.Rtps.StatefulReader.{matched_writer_lookup, put_writer}

pub lookup_guid :
    (g : Guid) (ws : List RtpsWriterProxy) (p : RtpsWriterProxy)
    → matched_writer_lookup g ws ≡ some p
    → p.remote_writer_guid ≡ g
unfolding matched_writer_lookup
lookup_guid g [] p h = cc
lookup_guid g (x ∷ ws) p h = ground (arith, lookup_guid g ws p, guid_eq_iff x.remote_writer_guid g)

pub lookup-put_self :
    (g : Guid) (ws : List RtpsWriterProxy) (p q : RtpsWriterProxy)
    → matched_writer_lookup g ws ≡ some p
    → q.remote_writer_guid ≡ g
    → matched_writer_lookup g (put_writer g q ws) ≡ some q
unfolding matched_writer_lookup put_writer
lookup-put_self g [] p q h e = cc
lookup-put_self g (x ∷ ws) p q h e =
    ground (arith, lookup-put_self g ws p q, guid_eq_iff q.remote_writer_guid g)

pub lookup-put_ne :
    (g k : Guid) (ws : List RtpsWriterProxy) (q : RtpsWriterProxy)
    → g ≢ k
    → q.remote_writer_guid ≡ k
    → matched_writer_lookup g (put_writer k q ws) ≡ matched_writer_lookup g ws
unfolding matched_writer_lookup put_writer
lookup-put_ne g k [] q n e = refl
lookup-put_ne g k (x ∷ ws) q n e = ground (
  arith,
  lookup-put_ne g k ws q,
  guid_eq_iff q.remote_writer_guid g,
  guid_eq_iff x.remote_writer_guid g,
  guid_eq_iff x.remote_writer_guid k,
)
