-- ===== src/Rtps/StatefulReader/Order.antt =====
-- The order in which a reader delivers the changes of one writer.
use dust_dds.Base.{
  ℕ, suc, ◌≤◌, ◌<◌, ◌≡◌, refl, sym, ◌∙◌, inl, inr, arith, Option, none, some, List, [], ◌∷◌, ◌++◌,
  ret, All,
}
use dust_dds.Base.Increasing.{Increasing}
use dust_dds.Transport.Types.{Guid}
use dust_dds.Rtps.WriterProxy.{RtpsWriterProxy}
use dust_dds.Rtps.StatefulReader.{RtpsStatefulReader}
use dust_dds.Rtps.StatefulReader.Delivery.{
  delivered-nil, delivered_by, proxy_of, Same, Grows, Moves,
}
use dust_dds.Rtps.StatefulReader.Run.{Event, run, step-Moves, run_keeps}

-- The changes of `g` came in increasing order, all at or below what the proxy has received.
pub record InOrder (g : Guid) (r : RtpsStatefulReader) : Type 0 where
  pub increasing : Increasing 0 (delivered_by g r)
  pub below :
      (p : RtpsWriterProxy)
      → proxy_of g r ≡ some p
      → All (λ x. x ≤ p.highest_received_change_sn) (delivered_by g r)

Increasing-snoc :
    (b h x : ℕ) (xs : List ℕ)
    → Increasing b xs
    → All (λ y. y ≤ h) xs
    → b ≤ x
    → h < x
    → Increasing b (xs ++ x ∷ [])
Increasing-snoc b h x [] i a le lt = (le, tt)
Increasing-snoc b h x (y ∷ xs) i a le lt =
    (i.0, Increasing-snoc (suc y) h x xs i.1 a.1 (omega (arith, a.0)) lt)

All-le : (h k : ℕ) (xs : List ℕ) → h ≤ k → All (λ y. y ≤ h) xs → All (λ y. y ≤ k) xs
All-le h k [] le a = tt
All-le h k (y ∷ xs) le a = (omega (arith, a.0), All-le h k xs le a.1)

All-snoc : (h x : ℕ) (xs : List ℕ) → h < x → All (λ y. y ≤ h) xs → All (λ y. y ≤ x) (xs ++ x ∷ [])
All-snoc h x [] lt a = (omega arith, tt)
All-snoc h x (y ∷ xs) lt a = (omega (arith, a.0), All-snoc h x xs lt a.1)

Same-after :
    (R : RtpsWriterProxy → RtpsWriterProxy → Type 0) (o : Option RtpsWriterProxy)
    (q : RtpsWriterProxy)
    → Same R o (some q)
    → (p : RtpsWriterProxy) × (o ≡ some p) × R p q
Same-after R none q h = absurd h
Same-after R (some p) q h = (p, refl, h)

some-eq : {p q : RtpsWriterProxy} → some p ≡ some q → p ≡ q
some-eq e = cc

Moves-InOrder :
    (g : Guid) (r r' : RtpsStatefulReader) → Moves Grows g r r' → InOrder g r → InOrder g r'
Moves-InOrder g r r' (inl (d, s)) i = record {
  increasing = rw d i.increasing;
  below = λ q found.
      let (p, was, grows) = Same-after Grows (proxy_of g r) q (rw found at s) in
      rw d
        (All-le p.highest_received_change_sn q.highest_received_change_sn _ grows (i.below p was));
}
Moves-InOrder g r r' (inr x) i = record {
  increasing = rw x.more (
      Increasing-snoc 0 x.before.highest_received_change_sn x.sn _ i.increasing
        (i.below x.before x.found) (omega arith) x.above);
  below = λ q found.
      let e : q ≡ x.after = some-eq (sym found ∙ x.stored) in
      rw (e, x.more, x.highest)
        (All-snoc x.before.highest_received_change_sn x.sn _ x.above (i.below x.before x.found));
}

any_event : (es : List Event) → All (λ e. Unit {0}) es
any_event [] = tt
any_event (e ∷ es) = (tt, any_event es)

-- From an empty history, whatever submessages arrive, in whatever order and however often, when the
-- run returns the changes that are delivered from one writer have strictly increasing sequence
-- numbers: none is delivered twice or behind a later one.
pub run-Increasing :
    (g : Guid) (r r' : RtpsStatefulReader) (es : List Event)
    → r.history_cache ≡ []
    → run r es ≡ ret r'
    → Increasing 0 (delivered_by g r')
run-Increasing g r r' es fresh h = final.increasing
  where
    nothing : delivered_by g r ≡ []
    nothing = rw fresh (delivered-nil g)

    start : InOrder g r
    start = record { increasing = rw nothing tt; below = λ p found. rw nothing tt }

    final : InOrder g r'
    final =
        run_keeps (InOrder g) (λ e. Unit {0})
          (λ s s' e q one i. Moves-InOrder g s s' (step-Moves g s s' e one) i) r r' es
          (any_event es) start h
