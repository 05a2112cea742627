-- ===== src/Rtps/StatefulWriter/Unsent.antt =====
-- The loop over the unsent changes of a reliable reader, and the whole state machine.

use dust_dds.Base.{
  sym, true, ◌≤◌, contains, ◌==◌, ℕ, zero, suc, ◌+◌, ◌<◌, ◌≡◌, refl, ap, ◌∙◌, arith, false,
  Bool-cases, inl, inr, Option, none, some, List, [], ◌++◌, ltb, length, All,
}
use mathlib.Core.Path.{subst}
use dust_dds.Base.Returns.{Returns, Returns-bind, Returns-map}
use dust_dds.Transport.Types.{SequenceNumber}
use dust_dds.Transport.History.{CacheChange}
use dust_dds.Rtps.Messages.Submessages.{Message}
use dust_dds.Rtps.ReaderProxy.{
  RtpsReaderProxy, sequence_numbers, next_unsent_change, set_highest_sent_seq_num,
  generate_new_heartbeat, unsent_changes, unacked_changes, is_time_for_heartbeat,
}
use dust_dds.Rtps.ReaderProxy.Unsent.{
  unsent, NextUnsent, next_unsent_change-NextUnsent, set_highest_sent_lem, unsent_shrinks,
  unsent-le, present,
}
use dust_dds.Rtps.StatefulWriter.Reliable.{
  Sender, new_heartbeat, unsent_round, unsent_loop, send_unsent,
}
use dust_dds.Rtps.StatefulWriter.Answering.{
  Settled, Settled-append_left, Settled-append_right, IsSendable, Beaten, SentFor,
  send_change-Returns,
}

-- Nothing is left unsent, and the changes that follow the last one sent without a gap are settled; of
-- the proxy only the highest number sent and the heartbeat machine have moved.
pub record Exhausted (changes : List CacheChange) (p : RtpsReaderProxy)
    (x : RtpsReaderProxy × List Message) : Type 0 where
  pub nothing : unsent x.0 changes ≡ []
  pub contiguous :
      (a : ℕ)
      → p.highest_sent_seq_num < a
      → ((b : ℕ)
          → p.highest_sent_seq_num < b
          → b ≤ a
          → contains b (sequence_numbers changes) ≡ true)
      → Settled changes p.first_relevant_sample_seq_num a x.1
  pub rest : x.0 ≡ record p {
    highest_sent_seq_num = x.0.highest_sent_seq_num;
    heartbeat_machine = x.0.heartbeat_machine;
  }

reached :
    (p q : RtpsReaderProxy) (sn : SequenceNumber)
    → Beaten p q
    → p.highest_sent_seq_num < sn
    → (set_highest_sent_seq_num q sn).highest_sent_seq_num ≡ sn
reached p q sn sent above =
    ap (λ (r : RtpsReaderProxy). r.highest_sent_seq_num) (set_highest_sent_lem q sn)
    ∙ ground (arith, ap (λ (r : RtpsReaderProxy). r.highest_sent_seq_num) sent.rest)

-- One round: a number that follows the last one sent is settled.
record Round (changes : List CacheChange) (p : RtpsReaderProxy) (sn : SequenceNumber)
    (x : RtpsReaderProxy × List Message) : Type 0 where
  pub beaten : Beaten p x.0
  pub here :
      sn ≤ p.highest_sent_seq_num + 1 → Settled changes p.first_relevant_sample_seq_num sn x.1

Exhausted-later :
    (changes : List CacheChange) (p : RtpsReaderProxy) (sn : SequenceNumber)
    (x y : RtpsReaderProxy × List Message)
    → p.highest_sent_seq_num < sn
    → ((b : ℕ) → contains b (sequence_numbers changes) ≡ true → p.highest_sent_seq_num < b → sn ≤ b)
    → Round changes p sn x
    → Exhausted changes (set_highest_sent_seq_num x.0 sn) y
    → Exhausted changes p (y.0, x.1 ++ y.1)
Exhausted-later changes p sn x y above least round later = record {
  nothing = later.nothing;
  contiguous = λ a lt dense.
      let first : sn ≤ p.highest_sent_seq_num + 1 =
        least (p.highest_sent_seq_num + 1)
          (dense (p.highest_sent_seq_num + 1) (omega arith) (omega arith)) (omega arith) in
      elim (Bool-cases (a == sn)) [
        | inl same ↦
            let equal : sn ≡ a = ground arith in
            Settled-append_left changes p.first_relevant_sample_seq_num a x.1 y.1 (
              subst (λ n. Settled changes p.first_relevant_sample_seq_num n x.1) equal
                (round.here first))
        | inr other ↦
            let apart : sn < a = ground (arith, first) in
            Settled-append_right changes p.first_relevant_sample_seq_num a x.1 y.1 (
              subst (λ f. Settled changes f a y.1) same_first
                (later.contiguous a (omega (arith, at_sn))
                  (λ b low high. dense b (omega (arith, at_sn)) high)))
      ];
  rest = later.rest ∙ ap moved (set_highest_sent_lem x.0 sn) ∙ ap moved round.beaten.rest;
}
  where
    moved : RtpsReaderProxy → RtpsReaderProxy
    moved r = record r {
      highest_sent_seq_num = y.0.highest_sent_seq_num;
      heartbeat_machine = y.0.heartbeat_machine;
    }

    at_sn : (set_highest_sent_seq_num x.0 sn).highest_sent_seq_num ≡ sn
    at_sn = reached p x.0 sn round.beaten above

    same_first :
        (set_highest_sent_seq_num x.0 sn).first_relevant_sample_seq_num
        ≡ p.first_relevant_sample_seq_num
    same_first =
        ap (λ (r : RtpsReaderProxy). r.first_relevant_sample_seq_num) (set_highest_sent_lem x.0 sn)
        ∙ ap (λ (r : RtpsReaderProxy). r.first_relevant_sample_seq_num) round.beaten.rest

-- Where nothing is unsent, no number is to be settled.
none_to_settle :
    (changes : List CacheChange) (p : RtpsReaderProxy) (sent : List Message)
    → unsent p changes ≡ []
    → (a : ℕ) → p.highest_sent_seq_num < a
    → ((b : ℕ) → p.highest_sent_seq_num < b → b ≤ a → contains b (sequence_numbers changes) ≡ true)
    → Settled changes p.first_relevant_sample_seq_num a sent
none_to_settle changes p sent nothing a above dense =
    absurd
      (cc (sym (ap (contains a) nothing) ∙ present p changes a above (dense a above (omega arith))))

none_unsent :
    (p : RtpsReaderProxy) (changes : List CacheChange) (o : Option SequenceNumber)
    → next_unsent_change p changes ≡ o
    → NextUnsent p changes o
    → unsent_changes p changes ≡ false
    → unsent p changes ≡ []
unfolding unsent_changes
none_unsent p changes none e nothing h = nothing
none_unsent p changes (some sn) e found h = absurd (cc (rw (e, unsent_changes) at h))

module _ (w : Sender) (pos : 0 < w.data_max_size_serialized) (all : All IsSendable w.changes) where
  unsent_round-Returns :
      (p : RtpsReaderProxy) (sn : SequenceNumber)
      → Returns (Round w.changes p sn) (unsent_round w p sn)
  unfolding unsent_round new_heartbeat generate_new_heartbeat
  unsent_round-Returns p sn = elim (Bool-cases (ltb (p.highest_sent_seq_num + 1) sn)) [
    | inl apart ↦
        rw (apart, unsent_round)
          (record { beaten = record { rest = refl }; here = λ le. absurd (ground arith) })
    | inr next ↦
        rw (next, unsent_round)
          (Returns-map (SentFor w.changes sn p) (Round w.changes p sn) _
            (λ x h. record { beaten = h.1; here = λ le. h.0 }) (send_change-Returns w p sn pos all))
  ]

  unsent_step :
      (fuel : ℕ)
      → ((q : RtpsReaderProxy)
          → length (unsent q w.changes) < fuel
          → Returns (Exhausted w.changes q) (unsent_loop fuel w q))
      → (p : RtpsReaderProxy) (o : Option SequenceNumber) → next_unsent_change p w.changes ≡ o
      → NextUnsent p w.changes o
      → length (unsent p w.changes) < suc fuel
      → Returns (Exhausted w.changes p) (unsent_loop (suc fuel) w p)
  unfolding unsent_loop
  unsent_step fuel ih p none e nothing enough =
      rw (e, unsent_loop)
        (record {
          nothing = nothing;
          contiguous = none_to_settle w.changes p _ nothing;
          rest = refl;
        })
  unsent_step fuel ih p (some sn) e (there, above, least) enough =
      rw (e, unsent_loop)
        (Returns-bind _ _ (unsent_round w p sn) _ (unsent_round-Returns p sn) (λ x sent.
          Returns-bind _ _ (unsent_loop fuel w (set_highest_sent_seq_num x.0 sn)) _
            (ih (set_highest_sent_seq_num x.0 sn) (
              omega (
                arith,
                unsent_shrinks p (set_highest_sent_seq_num x.0 sn) w.changes sn there above
                    (reached p x.0 sn sent.beaten above),
              )))
            (λ y later. Exhausted-later w.changes p sn x y above least sent later)))

  pub unsent_loop-Exhausted :
      (fuel : ℕ) (p : RtpsReaderProxy)
      → length (unsent p w.changes) < fuel
      → Returns (Exhausted w.changes p) (unsent_loop fuel w p)
  unsent_loop-Exhausted zero p enough = absurd (omega arith)
  unsent_loop-Exhausted (suc fuel) p enough =
      unsent_step fuel (unsent_loop-Exhausted fuel) p (next_unsent_change p w.changes) refl
        (next_unsent_change-NextUnsent p w.changes) enough

  pub send_unsent-Exhausted :
      (p : RtpsReaderProxy) → Returns (Exhausted w.changes p) (send_unsent w p)
  unfolding send_unsent new_heartbeat generate_new_heartbeat
  send_unsent-Exhausted p = elim (Bool-cases (unsent_changes p w.changes)) [
    | inl some_unsent ↦
        rw (some_unsent, send_unsent)
          (unsent_loop-Exhausted (suc (length w.changes)) p (omega (arith, unsent-le p w.changes)))
    | inr all_sent ↦
        let nothing =
          none_unsent p w.changes _ refl (next_unsent_change-NextUnsent p w.changes) all_sent in
        elim (Bool-cases (unacked_changes p w.seq_num_max)) [
          | inr acked ↦
              rw (all_sent, acked, send_unsent)
                (record {
                  nothing = nothing;
                  contiguous = none_to_settle w.changes p _ nothing;
                  rest = refl;
                })
          | inl unacked ↦
              elim (Bool-cases
                (is_time_for_heartbeat p.heartbeat_machine w.heartbeat_period w.now)) [
                  | inl due ↦
                      rw (all_sent, unacked, due, send_unsent)
                        (record {
                          nothing = nothing;
                          contiguous = none_to_settle w.changes p _ nothing;
                          rest = refl;
                        })
                  | inr early ↦
                      rw (all_sent, unacked, early, send_unsent)
                        (record {
                          nothing = nothing;
                          contiguous = none_to_settle w.changes p _ nothing;
                          rest = refl;
                        })
                ]
        ]
  ]
