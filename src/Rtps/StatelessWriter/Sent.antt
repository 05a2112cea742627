-- ===== src/Rtps/StatelessWriter/Sent.antt =====
-- What the stateless writer sends to one locator.
use mathlib.Core.Path.{subst}
use dust_dds.Base.{
  ℕ, zero, suc, ◌<◌, ◌≤◌, ◌≡◌, refl, sym, ap, ◌∙◌, arith, true, false, ◌&&◌, Bool-cases,
  Option-cases, inl, inr, Option, none, some, List, [], ◌∷◌, ◌==◌, ltb, contains, retain, length,
  any,
}
use dust_dds.Base.Minimum.{IsMinimum, minimum-IsMinimum, contains-retain, length-retain-lt}
use dust_dds.Base.Returns.{Returns, Returns-bind}
use dust_dds.Transport.Types.{EntityId, SequenceNumber}
use dust_dds.Transport.History.{CacheChange}
use dust_dds.Rtps.Messages.Submessages.{Message}
use dust_dds.Rtps.CacheChange.{as_data_submessage}
use dust_dds.Rtps.ReaderProxy.{sequence_numbers}
use dust_dds.Rtps.ReaderLocator.{RtpsReaderLocator, next_unsent_change, set_highest_sent_change_sn}
use dust_dds.Rtps.StatefulWriter.Sending.{find_change}
use dust_dds.Rtps.StatefulWriter.Answering.{
  settles, answers, timestamp-settles, carries, brings, timestamp-carries, found_there, or_right,
}
use dust_dds.Rtps.StatelessWriter.{change_message, locator_loop}

abbrev pub above : RtpsReaderLocator → List CacheChange → List ℕ
above r changes = retain (λ sn. ltb r.highest_sent_change_sn sn) (sequence_numbers changes)

find_change-number :
    (changes : List CacheChange) (sn : ℕ) (c : CacheChange)
    → find_change changes sn ≡ some c
    → c.sequence_number ≡ sn
unfolding find_change
find_change-number [] sn c e = absurd (cc e)
find_change-number (x ∷ xs) sn c e = elim (Bool-cases (x.sequence_number == sn)) [
  | inl same ↦
      let equal : x ≡ c = cc (rw same at e) in
      subst (λ y. y.sequence_number ≡ sn) equal (ground arith)
  | inr other ↦ find_change-number xs sn c (rw other at e)
]

change_message-settles :
    (writer_id : EntityId) (changes : List CacheChange) (r : RtpsReaderLocator) (sn a : ℕ)
    → any (settles a) (change_message writer_id changes r sn).submessages ≡ (sn == a)
unfolding change_message as_data_submessage
change_message-settles writer_id changes r sn a = elim (Option-cases (find_change changes sn)) [
  | inl gone ↦ rw (gone, change_message) (ground arith)
  | inr (c, found) ↦
      rw (found, change_message)
        (ground (arith, timestamp-settles a c, find_change-number changes sn c found))
]

change_message-carries :
    (writer_id : EntityId) (changes : List CacheChange) (r : RtpsReaderLocator) (sn : ℕ)
    → contains sn (sequence_numbers changes) ≡ true
    → any (carries sn) (change_message writer_id changes r sn).submessages ≡ true
unfolding change_message as_data_submessage
change_message-carries writer_id changes r sn there = elim (Option-cases (find_change changes sn)) [
  | inl gone ↦ absurd (cc (there, found_there changes sn gone))
  | inr (c, found) ↦
      rw (found, change_message)
        (ground (arith, timestamp-carries sn c, find_change-number changes sn c found))
]

contains-above :
    (r : RtpsReaderLocator) (changes : List CacheChange) (a : ℕ)
    → r.highest_sent_change_sn < a
    → contains a (sequence_numbers changes) ≡ true
    → contains a (above r changes) ≡ true
contains-above r changes a lt there =
    contains-retain (λ sn. ltb r.highest_sent_change_sn sn) a (sequence_numbers changes)
    ∙ ground (arith, there)

-- A locator is sent every change above the last one that it was sent, and no other.
pub record SentTo (changes : List CacheChange) (r : RtpsReaderLocator)
    (x : RtpsReaderLocator × List Message) : Type 0 where
  pub nothing : above x.0 changes ≡ []
  pub once : (a : ℕ) → a ≤ r.highest_sent_change_sn → answers a x.1 ≡ false
  pub all_sent :
      (a : ℕ)
      → r.highest_sent_change_sn < a
      → contains a (sequence_numbers changes) ≡ true
      → brings a x.1 ≡ true

module _ (writer_id : EntityId) (changes : List CacheChange) where
  locator_step :
      (fuel : ℕ)
      → ((q : RtpsReaderLocator)
          → length (above q changes) < fuel
          → Returns (SentTo changes q) (locator_loop fuel writer_id changes q))
      → (r : RtpsReaderLocator) (o : Option SequenceNumber) → next_unsent_change r changes ≡ o
      → IsMinimum (above r changes) o
      → length (above r changes) < suc fuel
      → Returns (SentTo changes r) (locator_loop (suc fuel) writer_id changes r)
  unfolding locator_loop
  locator_step fuel ih r none e empty enough =
      rw (e, locator_loop)
        (record {
          nothing = empty;
          once = λ a le. refl;
          all_sent = λ a lt there.
              absurd (cc (sym (ap (contains a) empty) ∙ contains-above r changes a lt there));
        })
  locator_step fuel ih r (some sn) e (member, least) enough =
      let kept : (contains sn (sequence_numbers changes) && ltb r.highest_sent_change_sn sn)
          ≡ true =
        sym (contains-retain (λ x. ltb r.highest_sent_change_sn x) sn (sequence_numbers changes))
        ∙ member in
      rw (e, locator_loop)
        (Returns-bind _ _ (locator_loop fuel writer_id changes (set_highest_sent_change_sn r sn)) _
          (ih (set_highest_sent_change_sn r sn) (omega (arith, fewer r sn kept)))
          (λ x later. record {
            nothing = later.nothing;
            once = λ a le.
                ground (arith, change_message-settles writer_id changes r sn a, later.once a, kept);
            all_sent = λ a lt there. elim (Bool-cases (a == sn)) [
              | inl same ↦
                  let equal : sn ≡ a = ground arith in
                  rw
                    (subst
                      (λ n.
                        contains n (sequence_numbers changes) ≡ true
                        → any (carries n) (change_message writer_id changes r sn).submessages
                          ≡ true)
                      equal (change_message-carries writer_id changes r sn) there)
                    refl
              | inr other ↦ or_right _ (brings a x.1) (
                  later.all_sent a (ground (arith, least a (contains-above r changes a lt there)))
                    there)
            ];
          }))
    where
      fewer :
          (q : RtpsReaderLocator) (n : ℕ)
          → (contains n (sequence_numbers changes) && ltb q.highest_sent_change_sn n) ≡ true
          → length (above (set_highest_sent_change_sn q n) changes) < length (above q changes)
      fewer q n k =
          length-retain-lt (λ x. ltb n x) (λ x. ltb q.highest_sent_change_sn x) n
            (sequence_numbers changes) (λ x h. ground (arith, k)) (ground (arith, k)) (ground arith)
            (ground (arith, k))

  pub locator_loop-SentTo :
      (fuel : ℕ) (r : RtpsReaderLocator)
      → length (above r changes) < fuel
      → Returns (SentTo changes r) (locator_loop fuel writer_id changes r)
  unfolding next_unsent_change
  locator_loop-SentTo zero r enough = absurd (omega arith)
  locator_loop-SentTo (suc fuel) r enough =
      locator_step fuel (locator_loop-SentTo fuel) r (next_unsent_change r changes) refl
        (minimum-IsMinimum (above r changes)) enough
