-- ===== src/Rtps/StatefulWriter/Answering.antt =====
-- What sending one change to a reliable reader sends and changes.
use mathlib.Core.Path.{subst}
use dust_dds.Base.{
  ℕ, ◌-◌, ◌<◌, ◌≡◌, refl, ◌∙◌, arith, none, contains, inl, inr, Bool, true, false, ◌&&◌, ◌||◌, some,
  List, [], ◌∷◌, ◌++◌, ◌==◌, ltb, leb, any, length, length-count_from, ltb→lt, range, All,
  Bool-cases, Option-cases,
}
use dust_dds.Base.Returns.{Returns, Returns-bind, Returns-map}
use dust_dds.Transport.Types.{
  SequenceNumber, EntityId, ChangeKind, alive, alive_filtered, not_alive_disposed,
  not_alive_unregistered, not_alive_disposed_unregistered,
}
use dust_dds.Transport.History.{CacheChange}
use dust_dds.Rtps.Messages.Submessages.{Submessage, data_message, data_frag, gap, Message}
use dust_dds.Rtps.CacheChange.{as_data_submessage}
use dust_dds.Rtps.ReaderProxy.{RtpsReaderProxy, sequence_numbers, generate_new_heartbeat}
use dust_dds.Rtps.StatefulWriter.Sending.{
  number_of_fragments, key_flag_of, fragment_of, fragment_messages, find_change, info_timestamp_of,
}
use dust_dds.Rtps.StatefulWriter.Reliable.{
  Sender, new_heartbeat, send_relevant_change, send_change_message_reader_proxy_reliable,
}

-- A submessage that brings the change `sn` or says that it is irrelevant.
abbrev pub settles : SequenceNumber → Submessage → Bool
settles sn (data_message m) = m.writer_sn == sn
settles sn (data_frag m) = m.writer_sn == sn
settles sn (gap m) = leb m.gap_start sn && ltb sn m.gap_list.base
settles sn _ = false

abbrev pub answers : SequenceNumber → List Message → Bool
answers sn sent = any (λ (m : Message). any (settles sn) m.submessages) sent

-- A submessage with the data of the change `sn`.
abbrev pub carries : SequenceNumber → Submessage → Bool
carries sn (data_message m) = m.writer_sn == sn
carries sn (data_frag m) = m.writer_sn == sn
carries sn _ = false

abbrev pub brings : SequenceNumber → List Message → Bool
brings sn sent = any (λ (m : Message). any (carries sn) m.submessages) sent

-- The number `sn` is answered: with the data, if the history has the change and it is above the
-- first relevant number of the reader.
pub record Settled (changes : List CacheChange) (first : SequenceNumber) (sn : SequenceNumber)
    (sent : List Message) : Type 0 where
  pub answered : answers sn sent ≡ true
  pub brought : contains sn (sequence_numbers changes) ≡ true → first < sn → brings sn sent ≡ true

-- The kinds for which a DATA_FRAG can be made.
abbrev pub IsSendable : CacheChange → Type 0
IsSendable c = elim c.kind [
  | alive_filtered ↦ ⊥
  | not_alive_disposed_unregistered ↦ ⊥
  | _ ↦ Unit {0}
]

pub answers-append :
    (sn : SequenceNumber) (xs ys : List Message)
    → answers sn (xs ++ ys) ≡ (answers sn xs || answers sn ys)
answers-append sn [] ys = refl
answers-append sn (x ∷ xs) ys = ground (arith, answers-append sn xs ys)

pub brings-append :
    (sn : SequenceNumber) (xs ys : List Message)
    → brings sn (xs ++ ys) ≡ (brings sn xs || brings sn ys)
brings-append sn [] ys = refl
brings-append sn (x ∷ xs) ys = ground (arith, brings-append sn xs ys)

carries-settles :
    (sn : ℕ) (xs : List Submessage) → any (carries sn) xs ≡ true → any (settles sn) xs ≡ true
carries-settles sn [] e = absurd (cc e)
carries-settles sn (x ∷ xs) e = ground (arith, carries-settles sn xs)

pub brings-answers :
    (sn : SequenceNumber) (sent : List Message) → brings sn sent ≡ true → answers sn sent ≡ true
brings-answers sn [] e = absurd (cc e)
brings-answers sn (m ∷ sent) e =
    ground (arith, brings-answers sn sent, carries-settles sn m.submessages)

pub Settled-append_left :
    (changes : List CacheChange) (first sn : SequenceNumber) (xs ys : List Message)
    → Settled changes first sn xs
    → Settled changes first sn (xs ++ ys)
Settled-append_left changes first sn xs ys s = record {
  answered = answers-append sn xs ys ∙ rw s.answered refl;
  brought = λ there above. brings-append sn xs ys ∙ rw (s.brought there above) refl;
}

pub or_right : (a b : Bool) → b ≡ true → (a || b) ≡ true
or_right true b h = refl
or_right false b h = h

pub Settled-append_right :
    (changes : List CacheChange) (first sn : SequenceNumber) (xs ys : List Message)
    → Settled changes first sn ys
    → Settled changes first sn (xs ++ ys)
Settled-append_right changes first sn xs ys s = record {
  answered = answers-append sn xs ys ∙ or_right _ _ s.answered;
  brought = λ there above. brings-append sn xs ys ∙ or_right _ _ (s.brought there above);
}

pub timestamp-carries : (sn : ℕ) (c : CacheChange) → carries sn (info_timestamp_of c) ≡ false
unfolding info_timestamp_of
timestamp-carries sn c = elim (Option-cases c.source_timestamp) [
  | inl e ↦ rw e refl
  | inr (t, e) ↦ rw e refl
]

pub timestamp-settles : (sn : ℕ) (c : CacheChange) → settles sn (info_timestamp_of c) ≡ false
unfolding info_timestamp_of
timestamp-settles sn c = elim (Option-cases c.source_timestamp) [
  | inl e ↦ rw e refl
  | inr (t, e) ↦ rw e refl
]

pub key_flag-Returns :
    (k : ChangeKind) (c : CacheChange)
    → c.kind ≡ k
    → IsSendable c
    → Returns (λ b. Unit {0}) (key_flag_of k)
unfolding key_flag_of
key_flag-Returns alive c e h = tt
key_flag-Returns alive_filtered c e h = absurd (rw e at h)
key_flag-Returns not_alive_disposed c e h = tt
key_flag-Returns not_alive_unregistered c e h = tt
key_flag-Returns not_alive_disposed_unregistered c e h = absurd (rw e at h)

pub fragments-Returns :
    (p : RtpsReaderProxy) (writer_id : EntityId) (c : CacheChange) (size : ℕ) (is : List ℕ)
    → IsSendable c
    → Returns
        (λ sent. (0 < length is) → brings c.sequence_number sent ≡ true)
        (fragment_messages p writer_id c size is)
unfolding fragment_messages fragment_of
fragments-Returns p writer_id c size [] h = λ lt. absurd (omega arith)
fragments-Returns p writer_id c size (i ∷ is) h =
    Returns-bind (λ b. Unit {0}) _ (key_flag_of c.kind) _ (key_flag-Returns c.kind c refl h)
      (λ b u.
        Returns-bind _ _ (fragment_messages p writer_id c size is) _
          (fragments-Returns p writer_id c size is h)
          (λ sent later lt. ground (arith, timestamp-carries c.sequence_number c)))

-- What sending leaves alone: everything but the heartbeat machine.
pub record Beaten (p q : RtpsReaderProxy) : Type 0 where
  pub rest : q ≡ record p { heartbeat_machine = q.heartbeat_machine }

abbrev BroughtFor : SequenceNumber → RtpsReaderProxy → RtpsReaderProxy × List Message → Type 0
BroughtFor sn p x = (brings sn x.1 ≡ true) × Beaten p x.0

abbrev pub SentFor :
    List CacheChange → SequenceNumber → RtpsReaderProxy → RtpsReaderProxy × List Message → Type 0
SentFor changes sn p x = Settled changes p.first_relevant_sample_seq_num sn x.1 × Beaten p x.0

pub range-some : (n : ℕ) → ltb 1 n ≡ true → 0 < length (range 0 n)
range-some n h = omega (arith, length-count_from 0 (n - 0), ltb→lt 1 n h)

pub fragment_count :
    (size limit : ℕ) → 0 < limit → Returns (λ n. Unit {0}) (number_of_fragments size limit)
unfolding number_of_fragments
fragment_count size limit h = rw positive tt
  where
    positive : (limit == 0) ≡ false
    positive = ground arith

relevant-Returns :
    (w : Sender) (p : RtpsReaderProxy) (c : CacheChange)
    → 0 < w.data_max_size_serialized
    → IsSendable c
    → Returns (BroughtFor c.sequence_number p) (send_relevant_change w p c)
unfolding send_relevant_change new_heartbeat generate_new_heartbeat as_data_submessage
relevant-Returns w p c pos h =
    Returns-bind _ _ (number_of_fragments (length c.data_value) w.data_max_size_serialized) _
      (fragment_count (length c.data_value) w.data_max_size_serialized pos)
      (λ n u. elim (Bool-cases (ltb 1 n)) [
        | inl many ↦ rw many (
            Returns-bind _ _
              (fragment_messages p w.writer_id c w.data_max_size_serialized (range 0 n)) _
              (fragments-Returns p w.writer_id c w.data_max_size_serialized (range 0 n) h)
              (λ sent a. (a (range-some n many), record { rest = refl })))
        | inr one ↦
            rw one (ground (arith, timestamp-carries c.sequence_number c), record { rest = refl })
      ])

-- A change of the history is found.
pub found_there :
    (changes : List CacheChange) (sn : ℕ)
    → find_change changes sn ≡ none
    → contains sn (sequence_numbers changes) ≡ false
unfolding find_change
found_there [] sn e = refl
found_there (x ∷ xs) sn e = elim (Bool-cases (x.sequence_number == sn)) [
  | inl same ↦ absurd (cc (rw same at e))
  | inr other ↦ rw other (found_there xs sn (rw other at e))
]

pub find_change-All :
    (changes : List CacheChange) (sn : ℕ) (c : CacheChange)
    → All IsSendable changes
    → find_change changes sn ≡ some c
    → (c.sequence_number ≡ sn) × IsSendable c
unfolding find_change
find_change-All [] sn c h e = absurd (cc e)
find_change-All (x ∷ xs) sn c h e = elim (Bool-cases (x.sequence_number == sn)) [
  | inl same ↦
      let equal : x ≡ c = cc (rw same at e) in
      subst (λ y. (y.sequence_number ≡ sn) × IsSendable y) equal (ground arith, h.0)
  | inr other ↦ find_change-All xs sn c h.1 (rw other at e)
]

brought_Settled :
    (changes : List CacheChange) (first sn : SequenceNumber) (sent : List Message)
    → brings sn sent ≡ true
    → Settled changes first sn sent
brought_Settled changes first sn sent b = record {
  answered = brings-answers sn sent b;
  brought = λ there above. b;
}

-- What settles the number, whatever the history has under it.
pub send_change-Returns :
    (w : Sender) (p : RtpsReaderProxy) (sn : ℕ)
    → 0 < w.data_max_size_serialized
    → All IsSendable w.changes
    → Returns (SentFor w.changes sn p) (send_change_message_reader_proxy_reliable w p sn)
unfolding send_change_message_reader_proxy_reliable
send_change-Returns w p sn pos all = elim (Option-cases (find_change w.changes sn)) [
  | inl e ↦
      rw (e, send_change_message_reader_proxy_reliable)
        (
          record {
            answered = ground arith;
            brought = λ there above. absurd (cc (there, found_there w.changes sn e));
          },
          record { rest = refl },
        )
  | inr (c, e) ↦ elim (Bool-cases (ltb p.first_relevant_sample_seq_num sn)) [
    | inl relevant ↦
        rw (e, relevant, send_change_message_reader_proxy_reliable)
          (let (same, sendable) = find_change-All w.changes sn c all e in
            Returns-map _ _ (send_relevant_change w p c)
              (λ x b. (brought_Settled w.changes p.first_relevant_sample_seq_num sn x.1 b.0, b.1))
              (subst (λ n. Returns (BroughtFor n p) (send_relevant_change w p c)) same
                (relevant-Returns w p c pos sendable)))
    | inr old ↦
        rw (e, old, send_change_message_reader_proxy_reliable)
          (
            record { answered = ground arith; brought = λ there above. absurd (ground arith) },
            record { rest = refl },
          )
  ]
]
