-- ===== src/Rtps/StatefulWriter/Requested.antt =====
-- The loop over the requested changes of a reliable reader.
use mathlib.Core.Path.{subst}
use dust_dds.Base.{
  ℕ, zero, suc, ◌<◌, ◌≡◌, refl, sym, ap, ◌∙◌, arith, true, not, ◌&&◌, Bool-cases, inl, inr, Option,
  none, some, List, [], ◌∷◌, ◌++◌, ◌==◌, contains, length, is_empty, All,
}
use dust_dds.Base.Returns.{Returns, Returns-bind}
use dust_dds.Transport.Types.{SequenceNumber}
use dust_dds.Transport.History.{CacheChange}
use dust_dds.Rtps.Messages.Submessages.{Message}
use dust_dds.Rtps.ReaderProxy.{RtpsReaderProxy, next_requested_change}
use dust_dds.Rtps.ReaderProxy.Requests.{Next, next_requested_change-Next}
use dust_dds.Rtps.StatefulWriter.Reliable.{
  Sender, send_change_message_reader_proxy_reliable, requested_loop, send_requested,
}
use dust_dds.Rtps.StatefulWriter.Answering.{
  Settled, Settled-append_left, Settled-append_right, IsSendable, SentFor, send_change-Returns,
}

-- Every request of `p` is settled and none is left; what else `p` says stays, but for the heartbeat
-- machine.
pub record Drained (changes : List CacheChange) (p : RtpsReaderProxy)
    (x : RtpsReaderProxy × List Message) : Type 0 where
  pub empty : x.0.requested_changes ≡ []
  pub settled :
      (sn : ℕ)
      → contains sn p.requested_changes ≡ true
      → Settled changes p.first_relevant_sample_seq_num sn x.1
  pub rest : x.0 ≡ record p { requested_changes = []; heartbeat_machine = x.0.heartbeat_machine }

is_empty-nil : (xs : List ℕ) → is_empty xs ≡ true → xs ≡ []
is_empty-nil [] h = refl
is_empty-nil (x ∷ xs) h = absurd (cc h)

Drained-none :
    (changes : List CacheChange) (p q : RtpsReaderProxy)
    → p.requested_changes ≡ []
    → q ≡ p
    → Drained changes p (q, [])
Drained-none changes p q nothing same = record {
  empty = ap (λ (r : RtpsReaderProxy). r.requested_changes) same ∙ nothing;
  settled = λ sn h. absurd (cc (ap (contains sn) nothing, h));
  rest =
      same
      ∙ ap (λ rs. record p { requested_changes = rs }) nothing
      ∙ ap
          (λ (r : RtpsReaderProxy). record p {
            requested_changes = [];
            heartbeat_machine = r.heartbeat_machine;
          })
          (sym same);
}

Drained-some :
    (changes : List CacheChange) (p q : RtpsReaderProxy) (sn : SequenceNumber)
    (x y : RtpsReaderProxy × List Message)
    → q ≡ record p { requested_changes = q.requested_changes }
    → ((a : ℕ) → contains a q.requested_changes ≡ (contains a p.requested_changes && not (a == sn)))
    → SentFor changes sn q x
    → Drained changes x.0 y
    → Drained changes p (y.0, x.1 ++ y.1)
Drained-some changes p q sn x y rest others sent later = record {
  empty = later.empty;
  settled = λ a h. elim (Bool-cases (a == sn)) [
    | inl same ↦
        let equal : sn ≡ a = ground arith in
        Settled-append_left changes p.first_relevant_sample_seq_num a x.1 y.1 (
          subst (λ n. Settled changes p.first_relevant_sample_seq_num n x.1) equal
            (subst (λ f. Settled changes f sn x.1) same_first sent.0))
    | inr other ↦
        let asked =
          ap (λ (r : RtpsReaderProxy). contains a r.requested_changes) sent.1.rest
          ∙ others a
          ∙ rw (h, other) refl in
        Settled-append_right changes p.first_relevant_sample_seq_num a x.1 y.1 (
          subst (λ f. Settled changes f a y.1)
            (ap (λ (r : RtpsReaderProxy). r.first_relevant_sample_seq_num) sent.1.rest ∙ same_first)
            (later.settled a asked))
  ];
  rest =
      later.rest
      ∙ ap
          (λ (r : RtpsReaderProxy). record r {
            requested_changes = [];
            heartbeat_machine = y.0.heartbeat_machine;
          })
          (sent.1.rest
            ∙ ap (λ (r : RtpsReaderProxy). record r { heartbeat_machine = x.0.heartbeat_machine })
                rest);
}
  where
    same_first : q.first_relevant_sample_seq_num ≡ p.first_relevant_sample_seq_num
    same_first = ap (λ (r : RtpsReaderProxy). r.first_relevant_sample_seq_num) rest

module _ (w : Sender) (pos : 0 < w.data_max_size_serialized) (all : All IsSendable w.changes) where
  requested_round :
      (fuel : ℕ)
      → ((q : RtpsReaderProxy)
          → length q.requested_changes < fuel
          → Returns (Drained w.changes q) (requested_loop fuel w q))
      → (p : RtpsReaderProxy) (o : Option SequenceNumber) → (next_requested_change p).0 ≡ o
      → Next p (o, (next_requested_change p).1)
      → length p.requested_changes < suc fuel
      → Returns (Drained w.changes p) (requested_loop (suc fuel) w p)
  unfolding requested_loop
  requested_round fuel ih p none e (nothing, same) enough =
      rw (e, requested_loop) (Drained-none w.changes p (next_requested_change p).1 nothing same)
  requested_round fuel ih p (some sn) e (asked, least, others, shorter, rest) enough =
      rw (e, requested_loop)
        (Returns-bind _ _
          (send_change_message_reader_proxy_reliable w (next_requested_change p).1 sn) _
          (send_change-Returns w (next_requested_change p).1 sn pos all)
          (λ x sent.
            Returns-bind _ _ (requested_loop fuel w x.0) _
              (ih x.0 (
                omega (
                  arith,
                  shorter,
                  ap (λ (r : RtpsReaderProxy). length r.requested_changes) sent.1.rest,
                )))
              (λ y later.
                Drained-some w.changes p (next_requested_change p).1 sn x y rest others sent
                  later)))

  pub requested_loop-Returns :
      (fuel : ℕ) (p : RtpsReaderProxy)
      → length p.requested_changes < fuel
      → Returns (Drained w.changes p) (requested_loop fuel w p)
  requested_loop-Returns zero p enough = absurd (omega arith)
  requested_loop-Returns (suc fuel) p enough =
      requested_round fuel (requested_loop-Returns fuel) p (next_requested_change p).0 refl
        (next_requested_change-Next p) enough

  -- Whatever the reader requests is settled, and no request is left.
  pub send_requested-Drained :
      (p : RtpsReaderProxy) → Returns (Drained w.changes p) (send_requested w p)
  unfolding send_requested
  send_requested-Drained p = elim (Bool-cases (is_empty p.requested_changes)) [
    | inl none_asked ↦
        rw (none_asked, send_requested)
          (Drained-none w.changes p p (is_empty-nil p.requested_changes none_asked) refl)
    | inr some_asked ↦
        rw (some_asked, send_requested)
          (requested_loop-Returns (suc (length p.requested_changes)) p (omega arith))
  ]
