-- ===== src/Rtps/StatefulReader/Complete.antt =====
-- A reliable reader delivers without holes what its writer still has.
use dust_dds.Base.{
  ℕ, zero, suc, ◌+◌, ◌≤◌, ◌≡◌, refl, sym, ap, ◌∙◌, inl, inr, arith, Option, none, some, List, [],
  ◌∷◌, ◌++◌, ret, All, count_from,
}
use mathlib.Core.Path.{subst}
use dust_dds.Transport.Types.{Guid, reliable}
use dust_dds.Transport.History.{CacheChange}
use dust_dds.Rtps.CacheChange.{ok, try_from_data_submessage}
use dust_dds.Rtps.WriterProxy.{
  RtpsWriterProxy, available_changes_max, set_last_received_heartbeat_frag_count,
}
use dust_dds.Rtps.StatefulReader.{RtpsStatefulReader}
use dust_dds.Rtps.StatefulReader.Delivery.{
  delivered-nil, delivered_by, proxy_of, Same, Steady, Steady-refl, Delivers, Moves,
}
use dust_dds.Rtps.StatefulReader.Receive.{data_Moves_ok}
use dust_dds.Rtps.StatefulReader.Steps.{ret-injective}
use dust_dds.Rtps.StatefulReader.Heartbeats.{heartbeat_frag_Moves}
use dust_dds.Rtps.StatefulReader.Run.{
  Event, data_event, data_frag_event, gap_event, heartbeat_event, heartbeat_frag_event, run, step,
  heartbeat_outcome, run_keeps,
}

-- A submessage that withdraws nothing: data that can be converted, and heartbeats that still
-- announce the first change.
unfoldable pub Keeps : Event → Type 0
Keeps (data_event m prefix t) = (c : CacheChange) × (try_from_data_submessage m prefix t ≡ ok c)
Keeps (data_frag_event m prefix t) = ⊥
Keeps (gap_event m prefix) = ⊥
Keeps (heartbeat_event m prefix) = m.first_sn ≤ 1
Keeps (heartbeat_frag_event m prefix) = Unit

-- The changes 1 to the highest received were delivered.
pub record Complete (g : Guid) (r : RtpsStatefulReader) : Type 0 where
  pub proxy : RtpsWriterProxy
  pub found : proxy_of g r ≡ some proxy
  pub is_reliable : proxy.reliability ≡ reliable
  pub from_first : proxy.first_available_seq_num ≤ 1
  pub all : delivered_by g r ≡ count_from 1 proxy.highest_received_change_sn

step-Steady :
    (g : Guid) (r r' : RtpsStatefulReader) (e : Event)
    → Keeps e
    → step r e ≡ ret r'
    → Moves Steady g r r'
unfolding step Keeps
step-Steady g r r' (data_event m prefix t) k e =
    subst (Moves Steady g r) (ret-injective e)
      (data_Moves_ok Steady Steady-refl g r m prefix t k.0 k.1)
step-Steady g r r' (data_frag_event m prefix t) k e = absurd k
step-Steady g r r' (gap_event m prefix) k e = absurd k
step-Steady g r r' (heartbeat_event m prefix) k e =
    heartbeat_outcome Steady Steady-refl g r r' m prefix
      (λ p q high rel first. (high, rel, λ h. omega (arith, first, k))) _ refl e
step-Steady g r r' (heartbeat_frag_event m prefix) k e =
    subst (Moves Steady g r) (ret-injective e) (
      heartbeat_frag_Moves Steady Steady-refl g r m prefix
        (λ p c. unfold set_last_received_heartbeat_frag_count in (refl, refl, λ h. h)))

count_from-snoc : (a n : ℕ) → count_from a (suc n) ≡ count_from a n ++ (a + n) ∷ []
count_from-snoc a zero = ap (λ (x : ℕ). x ∷ []) (omega arith)
count_from-snoc a (suc n) =
    ap (◌∷◌ a)
      (count_from-snoc (suc a) n ∙ ap (λ (x : ℕ). count_from (suc a) n ++ x ∷ []) (omega arith))

available_of_first :
    (p : RtpsWriterProxy)
    → p.first_available_seq_num ≤ 1
    → available_changes_max p ≡ p.highest_received_change_sn
unfolding available_changes_max
available_of_first p h = ground arith

Same-before :
    (R : RtpsWriterProxy → RtpsWriterProxy → Type 0) (p : RtpsWriterProxy)
    (o : Option RtpsWriterProxy)
    → Same R (some p) o
    → (q : RtpsWriterProxy) × (o ≡ some q) × R p q
Same-before R p none h = absurd h
Same-before R p (some q) h = (q, refl, h)

some-eq : {p q : RtpsWriterProxy} → some p ≡ some q → p ≡ q
some-eq e = cc

Delivers-Complete :
    (g : Guid) (r r' : RtpsStatefulReader) (x : Delivers g r r') (c : Complete g r)
    → x.before ≡ c.proxy
    → Complete g r'
Delivers-Complete g r r' x c same =
    let rel : x.before.reliability ≡ reliable = rw same c.is_reliable in
    let low : x.before.first_available_seq_num ≤ 1 = rw same c.from_first in
    let all : delivered_by g r ≡ count_from 1 x.before.highest_received_change_sn = rw same c.all in
    let (number, first) = x.next rel in
    let h = x.before.highest_received_change_sn in
    let number' : x.sn ≡ suc h = omega (arith, number, available_of_first x.before low) in
    record {
      proxy = x.after;
      found = x.stored;
      is_reliable = x.reliability ∙ rel;
      from_first = rw first low;
      all =
          x.more
          ∙ ap (λ (xs : List ℕ). xs ++ x.sn ∷ []) all
          ∙ ap (λ (n : ℕ). count_from 1 h ++ n ∷ []) (omega (arith, number'))
          ∙ sym (count_from-snoc 1 h)
          ∙ ap (count_from 1) (sym (x.highest ∙ number'));
    }

Moves-Complete :
    (g : Guid) (r r' : RtpsStatefulReader) → Moves Steady g r r' → Complete g r → Complete g r'
Moves-Complete g r r' (inl (d, s)) c =
    let (q, found, steady) = Same-before Steady c.proxy (proxy_of g r') (rw c.found at s) in
    record {
      proxy = q;
      found = found;
      is_reliable = steady.1 ∙ c.is_reliable;
      from_first = steady.2 c.from_first;
      all = d ∙ c.all ∙ ap (count_from 1) (sym steady.0);
    }
Moves-Complete g r r' (inr x) c = Delivers-Complete g r r' x c (some-eq (sym x.found ∙ c.found))

-- A reader with an empty history and a matched reliable writer, of which nothing was received and the
-- first change is available, is given DATA that can be converted (repeated, lost or out of order),
-- heartbeats that announce the changes from the first on, and heartbeats of fragments. When the run
-- returns, the reader has delivered exactly the changes 1 to the highest that it received, each once
-- and in order.
pub run-Complete :
    (g : Guid) (r r' : RtpsStatefulReader) (es : List Event) (p : RtpsWriterProxy)
    → r.history_cache ≡ []
    → proxy_of g r ≡ some p
    → p.reliability ≡ reliable
    → p.first_available_seq_num ≤ 1
    → p.highest_received_change_sn ≡ 0
    → All Keeps es
    → run r es ≡ ret r'
    → Complete g r'
run-Complete g r r' es p fresh found rel first zero_received keeps h =
    run_keeps (Complete g) Keeps
      (λ s s' e k one c. Moves-Complete g s s' (step-Steady g s s' e k one) c) r r' es keeps start h
  where
    start : Complete g r
    start = record {
      proxy = p;
      found = found;
      is_reliable = rel;
      from_first = first;
      all = rw (fresh, zero_received) (delivered-nil g);
    }
