-- ===== src/Rtps/StatefulWriter/BestEffort.antt =====
-- What the best-effort half sends.
use mathlib.Core.Path.{subst}
use dust_dds.Base.Panics.{panic, stuck}
use dust_dds.Base.{
  ℕ, zero, suc, ◌+◌, ◌<◌, ◌≤◌, ◌≡◌, refl, sym, ap, ◌∙◌, arith, true, false, Bool-cases,
  Option-cases, inl, inr, Option, none, some, List, [], ◌∷◌, ◌++◌, ◌==◌, ltb, contains, length,
  range, max_of, All, Outcome, ret,
}
use dust_dds.Base.Returns.{Returns, Returns-bind, Returns-map}
use dust_dds.Transport.Types.{EntityId, SequenceNumber}
use dust_dds.Transport.History.{CacheChange}
use dust_dds.Rtps.Messages.Submessages.{Message}
use dust_dds.Rtps.CacheChange.{as_data_submessage}
use dust_dds.Rtps.ReaderProxy.{
  RtpsReaderProxy, sequence_numbers, next_unsent_change, set_highest_sent_seq_num,
}
use dust_dds.Rtps.ReaderProxy.Unsent.{
  unsent, NextUnsent, next_unsent_change-NextUnsent, set_highest_sent_lem, unsent_shrinks, present,
}
use dust_dds.Rtps.StatefulWriter.Sending.{
  number_of_fragments, key_flag_of, fragment_of, fragment_messages, find_change, change_messages,
  best_effort_round, best_effort_loop,
}
use dust_dds.Rtps.StatefulWriter.Answering.{
  answers, answers-append, brings, brings-append, found_there, or_right, timestamp-carries,
  IsSendable, fragments-Returns, timestamp-settles, key_flag-Returns, range-some, fragment_count,
  find_change-All,
}

-- Messages with the data of the change `sn`, and about no other.
abbrev pub Only : SequenceNumber → List Message → Type 0
Only sn sent = (brings sn sent ≡ true) × ((a : ℕ) → (sn == a) ≡ false → answers a sent ≡ false)

fragments_other :
    (p : RtpsReaderProxy) (writer_id : EntityId) (c : CacheChange) (size : ℕ) (is : List ℕ)
    → IsSendable c
    → Returns
        (λ sent. (a : ℕ) → (c.sequence_number == a) ≡ false → answers a sent ≡ false)
        (fragment_messages p writer_id c size is)
unfolding fragment_messages fragment_of
fragments_other p writer_id c size [] h = λ a other. refl
fragments_other p writer_id c size (i ∷ is) h =
    Returns-bind (λ b. Unit {0}) _ (key_flag_of c.kind) _ (key_flag-Returns c.kind c refl h)
      (λ b u.
        Returns-bind _ _ (fragment_messages p writer_id c size is) _
          (fragments_other p writer_id c size is h)
          (λ sent later a other. ground (arith, timestamp-settles a c, later a other)))

both :
    (P Q : List Message → Type 0) (m : Outcome (List Message))
    → Returns P m
    → Returns Q m
    → Returns (λ a. P a × Q a) m
both P Q (ret a) h k = (h, k)
both P Q panic h k = absurd h
both P Q stuck h k = absurd h

change_messages-Only :
    (p : RtpsReaderProxy) (writer_id : EntityId) (c : CacheChange) (size : ℕ)
    → 0 < size
    → IsSendable c
    → Returns (Only c.sequence_number) (change_messages p writer_id c size)
unfolding change_messages as_data_submessage
change_messages-Only p writer_id c size pos h =
    Returns-bind _ _ (number_of_fragments (length c.data_value) size) _
      (fragment_count (length c.data_value) size pos)
      (λ n u. elim (Bool-cases (ltb 1 n)) [
        | inl many ↦ rw many (
            Returns-map _ _ (fragment_messages p writer_id c size (range 0 n))
              (λ sent x. (x.0 (range-some n many), x.1))
              (both _ _ (fragment_messages p writer_id c size (range 0 n))
                (fragments-Returns p writer_id c size (range 0 n) h)
                (fragments_other p writer_id c size (range 0 n) h)))
        | inr one ↦ rw one (
          ground (arith, timestamp-carries c.sequence_number c),
          λ a other. ground (arith, timestamp-settles a c),
        )
      ])

-- One round for the number `next`.
record Round (changes : List CacheChange) (p : RtpsReaderProxy) (next : SequenceNumber)
    (x : RtpsReaderProxy × List Message) : Type 0 where
  pub reached : (set_highest_sent_seq_num x.0 next).highest_sent_seq_num ≡ next
  pub earlier : (a : ℕ) → a ≤ p.highest_sent_seq_num → answers a x.1 ≡ false
  pub here :
      next ≡ p.highest_sent_seq_num + 1
      → contains next (sequence_numbers changes) ≡ true
      → brings next x.1 ≡ true
  pub skipped : p.highest_sent_seq_num + 1 < next → answers next x.1 ≡ false

-- What a best-effort reader is sent: nothing is left, no change is sent again, the changes that
-- follow the last one without a gap are all sent, and the first change after a gap is not.
pub record Sent (changes : List CacheChange) (p : RtpsReaderProxy)
    (x : RtpsReaderProxy × List Message) : Type 0 where
  pub nothing : unsent x.0 changes ≡ []
  pub once : (a : ℕ) → a ≤ p.highest_sent_seq_num → answers a x.1 ≡ false
  pub contiguous :
      (a : ℕ)
      → p.highest_sent_seq_num < a
      → ((b : ℕ)
          → p.highest_sent_seq_num < b
          → b ≤ a
          → contains b (sequence_numbers changes) ≡ true)
      → brings a x.1 ≡ true
  pub skips :
      (a : ℕ)
      → next_unsent_change p changes ≡ some a
      → p.highest_sent_seq_num + 1 < a
      → answers a x.1 ≡ false

module _ (writer_id : EntityId) (changes : List CacheChange) (size : ℕ) (pos : 0 < size)
    (all : All IsSendable changes) where
  highest :
      (p : RtpsReaderProxy) (sn : ℕ)
      → (set_highest_sent_seq_num p sn).highest_sent_seq_num ≡ max_of p.highest_sent_seq_num sn
  highest p sn = ap (λ (r : RtpsReaderProxy). r.highest_sent_seq_num) (set_highest_sent_lem p sn)

  Round-Returns :
      (p : RtpsReaderProxy) (next : SequenceNumber)
      → p.highest_sent_seq_num < next
      → Returns (Round changes p next) (best_effort_round p writer_id changes size next)
  unfolding best_effort_round
  Round-Returns p next above = elim (Bool-cases (ltb (p.highest_sent_seq_num + 1) next)) [
    | inl apart ↦
        rw (apart, best_effort_round)
          (record {
            reached =
                ground (arith, highest (set_highest_sent_seq_num p next) next, highest p next);
            earlier = λ a le. ground arith;
            here = λ e t. absurd (ground arith);
            skipped = λ lt. ground arith;
          })
    | inr close ↦ elim (Option-cases (find_change changes next)) [
      | inl gone ↦
          rw (close, gone, best_effort_round)
            (record {
              reached = ground (arith, highest p next);
              earlier = λ a le. ground arith;
              here = λ e t. absurd (cc (t, found_there changes next gone));
              skipped = λ lt. absurd (ground arith);
            })
      | inr (c, found) ↦
          let (same, sendable) = find_change-All changes next c all found in
          rw (close, found, best_effort_round)
            (Returns-bind _ _ (change_messages p writer_id c size) _
              (change_messages-Only p writer_id c size pos sendable)
              (λ sent only. record {
                reached = ground (arith, highest p next);
                earlier = λ a le. only.1 a (ground (arith, same));
                here = λ e t. subst (λ n. brings n sent ≡ true) same only.0;
                skipped = λ lt. absurd (ground arith);
              }))
    ]
  ]

  Sent-later :
      (p : RtpsReaderProxy) (next : SequenceNumber) (x y : RtpsReaderProxy × List Message)
      → next_unsent_change p changes ≡ some next
      → contains next (sequence_numbers changes) ≡ true
      → p.highest_sent_seq_num < next
      → ((b : ℕ)
          → contains b (sequence_numbers changes) ≡ true
          → p.highest_sent_seq_num < b
          → next ≤ b)
      → Round changes p next x
      → Sent changes (set_highest_sent_seq_num x.0 next) y
      → Sent changes p (y.0, x.1 ++ y.1)
  Sent-later p next x y e there above least round later = record {
    nothing = later.nothing;
    once = λ a le.
        answers-append a x.1 y.1
        ∙ rw (round.earlier a le) (later.once a (omega (arith, round.reached)));
    contiguous = λ a lt dense.
        let first : next ≤ p.highest_sent_seq_num + 1 =
          least (p.highest_sent_seq_num + 1)
            (dense (p.highest_sent_seq_num + 1) (omega arith) (omega arith)) (omega arith) in
        brings-append a x.1 y.1 ∙ elim (Bool-cases (a == next)) [
          | inl same ↦
              let equal : next ≡ a = ground arith in
              let now : brings next x.1 ≡ true = round.here (omega (arith, first)) there in
              rw (subst (λ n. brings n x.1 ≡ true) equal now) refl
          | inr other ↦
              let apart : next < a = ground (arith, first) in
              or_right (brings a x.1) (brings a y.1) (
                later.contiguous a (omega (arith, round.reached))
                  (λ b low high. dense b (omega (arith, round.reached)) high))
        ];
    skips = λ a found gap.
        let equal : next ≡ a = cc (sym e ∙ found) in
        let now : answers next x.1 ≡ false = round.skipped (omega (arith, equal)) in
        answers-append a x.1 y.1
        ∙ rw (subst (λ n. answers n x.1 ≡ false) equal now)
            (later.once a (omega (arith, round.reached, equal)));
  }

  loop_step :
      (fuel : ℕ)
      → ((q : RtpsReaderProxy)
          → length (unsent q changes) < fuel
          → Returns (Sent changes q) (best_effort_loop fuel q writer_id changes size))
      → (p : RtpsReaderProxy) (o : Option SequenceNumber) → next_unsent_change p changes ≡ o
      → NextUnsent p changes o
      → length (unsent p changes) < suc fuel
      → Returns (Sent changes p) (best_effort_loop (suc fuel) p writer_id changes size)
  unfolding best_effort_loop
  loop_step fuel ih p none e nothing enough =
      rw (e, best_effort_loop)
        (record {
          nothing = nothing;
          once = λ a le. refl;
          contiguous = λ a above dense. absurd (
              cc (
                sym (ap (contains a) nothing)
                ∙ present p changes a above (dense a above (omega arith))));
          skips = λ a found gap. refl;
        })
  loop_step fuel ih p (some next) e (there, above, least) enough =
      rw (e, best_effort_loop)
        (Returns-bind _ _ (best_effort_round p writer_id changes size next) _
          (Round-Returns p next above)
          (λ x round.
            Returns-bind _ _
              (best_effort_loop fuel (set_highest_sent_seq_num x.0 next) writer_id changes size) _
              (ih (set_highest_sent_seq_num x.0 next) (
                omega (
                  arith,
                  unsent_shrinks p (set_highest_sent_seq_num x.0 next) changes next there above
                      round.reached,
                )))
              (λ y later. Sent-later p next x y e there above least round later)))

  pub best_effort_loop-Sent :
      (fuel : ℕ) (p : RtpsReaderProxy)
      → length (unsent p changes) < fuel
      → Returns (Sent changes p) (best_effort_loop fuel p writer_id changes size)
  best_effort_loop-Sent zero p enough = absurd (omega arith)
  best_effort_loop-Sent (suc fuel) p enough =
      loop_step fuel (best_effort_loop-Sent fuel) p (next_unsent_change p changes) refl
        (next_unsent_change-NextUnsent p changes) enough
