-- ===== src/Rtps/MessageReceiver/Alone.antt =====
-- Entities do not disturb each other: in the processing of a message each runs as it would alone
-- over the events that concern its kind.
use dust_dds.Base.{
  ℕ, suc, ◌≡◌, refl, sym, ap, ◌∙◌, arith, List, [], ◌∷◌, ◌++◌, map, Outcome, ret, ◌>>=◌,
}
use dust_dds.Rtps.Messages.Submessages.{
  Submessage, ack_nack, data_message, data_frag, gap, heartbeat, heartbeat_frag, info_destination,
  info_reply, info_source, info_timestamp, nack_frag, pad, Message,
}
use dust_dds.Rtps.StatelessReader.{RtpsStatelessReader}
use dust_dds.Rtps.StatefulReader.{RtpsStatefulReader}
use dust_dds.Rtps.StatefulReader.Run.{Event, run, step}
use dust_dds.Rtps.StatefulWriter.{RtpsStatefulWriter}
use dust_dds.Rtps.MessageReceiver.Each.{
  Pointwise, Pointwise-bind, Pointwise-map, map_ends, each_ends, each_sending_ends, same_ends,
  map_id, bind_ret_id, bind_assoc,
}
use dust_dds.Rtps.MessageReceiver.{
  MessageReceiver, interpret, Entities, dispatch, process_from, process_message,
}
use dust_dds.Rtps.MessageReceiver.Events.{
  WriterEvent, writer_step, run_writer, after, to_reader, to_stateless, to_writer, reader_events,
  run_stateless, writer_events, Readable,
}

-- The events lead each entity of the first list to that of the second.
abbrev pub Ends : List Event → List RtpsStatefulReader → List RtpsStatefulReader → Type 0
Ends es = Pointwise (λ r r'. run r es ≡ ret r')

abbrev pub WriterEnds :
    List WriterEvent → List RtpsStatefulWriter → List RtpsStatefulWriter → Type 0
WriterEnds es = Pointwise (λ w w'. run_writer w es ≡ ret w')

run-append :
    (r : RtpsStatefulReader) (es fs : List Event)
    → run r (es ++ fs) ≡ (run r es >>= λ r'. run r' fs)
unfolding run
run-append r [] fs = refl
run-append r (e ∷ es) fs =
    ap (λ f. step r e >>= f) (λ i r'. run-append r' es fs i)
    ∙ bind_assoc (step r e) (λ r'. run r' es) (λ r'. run r' fs)

run_writer-append :
    (w : RtpsStatefulWriter) (es fs : List WriterEvent)
    → run_writer w (es ++ fs) ≡ (run_writer w es >>= λ w'. run_writer w' fs)
unfolding run_writer
run_writer-append w [] fs = refl
run_writer-append w (e ∷ es) fs =
    ap (λ f. writer_step w e >>= f) (λ i w'. run_writer-append w' es fs i)
    ∙ bind_assoc (writer_step w e) (λ w'. run_writer w' es) (λ w'. run_writer w' fs)

reader_cons :
    (e : Event) (rs rs' : List RtpsStatefulReader)
    → Ends (e ∷ []) rs rs'
    → Pointwise (λ r r'. step r e ≡ ret r') rs rs'
unfolding run
reader_cons e rs rs' h =
    Pointwise-map (λ r r'. run r (e ∷ []) ≡ ret r') (λ r r'. step r e ≡ ret r') rs rs'
      (λ r r' k. rw (bind_ret_id (step r e)) at k) h

writer_cons :
    (e : WriterEvent) (ws ws' : List RtpsStatefulWriter)
    → WriterEnds (e ∷ []) ws ws'
    → Pointwise (λ w w'. writer_step w e ≡ ret w') ws ws'
unfolding run_writer
writer_cons e ws ws' h =
    Pointwise-map (λ w w'. run_writer w (e ∷ []) ≡ ret w') (λ w w'. writer_step w e ≡ ret w') ws ws'
      (λ w w' k. rw (bind_ret_id (writer_step w e)) at k) h

reader_nil : (rs rs' : List RtpsStatefulReader) → Ends [] rs rs' → rs ≡ rs'
unfolding run
reader_nil rs rs' h = same_ends rs rs' h

writer_nil : (ws ws' : List RtpsStatefulWriter) → WriterEnds [] ws ws' → ws ≡ ws'
unfolding run_writer
writer_nil ws ws' h = same_ends ws ws' h

-- The entities, where the stateless readers ran over a submessage and the others ended in lists.
abbrev moved :
    MessageReceiver
    → Submessage
    → Entities
    → List RtpsStatefulReader
    → List RtpsStatefulWriter
    → Entities
moved s m e readers writers = record {
  stateless_reader_list = map (to_stateless s m) e.stateless_reader_list;
  stateful_reader_list = readers;
  stateful_writer_list = writers;
}

Dispatched :
    ℕ
    → MessageReceiver
    → Entities
    → Submessage
    → List RtpsStatefulReader
    → List RtpsStatefulWriter
    → Type 0
Dispatched now s e m readers writers =
    (sent : List Message) × (dispatch now s e m ≡ ret (moved s m e readers writers, sent))

abbrev pub outcome :
    List RtpsStatelessReader
    → List RtpsStatefulReader
    → List RtpsStatefulWriter
    → List Message
    → Outcome (Entities × List Message)
outcome a b c sent =
    ret (
      record { stateless_reader_list = a; stateful_reader_list = b; stateful_writer_list = c },
      sent,
    )

outcome_ext :
    {a a' : List RtpsStatelessReader} {b b' : List RtpsStatefulReader}
    {c c' : List RtpsStatefulWriter}
    → a ≡ a'
    → b ≡ b'
    → c ≡ c'
    → (sent : List Message) → outcome a b c sent ≡ outcome a' b' c' sent
outcome_ext p q r sent i = outcome (p i) (q i) (r i) sent

dispatch-Ends :
    (now : ℕ) (s : MessageReceiver) (e : Entities) (m : Submessage)
    (readers : List RtpsStatefulReader) (writers : List RtpsStatefulWriter)
    → Ends (to_reader s m) e.stateful_reader_list readers
    → WriterEnds (to_writer now s m) e.stateful_writer_list writers
    → Dispatched now s e m readers writers
unfolding Dispatched dispatch to_reader to_writer to_stateless step writer_step
dispatch-Ends now s e (ack_nack m) readers writers h k =
    let (sent, done) = each_sending_ends _ e.stateful_writer_list writers (writer_cons _ _ _ k) in
    (
      sent,
      rw done (outcome_ext (sym (map_id e.stateless_reader_list)) (reader_nil _ _ h) refl sent),
    )
dispatch-Ends now s e (nack_frag m) readers writers h k =
    let (sent, done) = each_sending_ends _ e.stateful_writer_list writers (writer_cons _ _ _ k) in
    (
      sent,
      rw done (outcome_ext (sym (map_id e.stateless_reader_list)) (reader_nil _ _ h) refl sent),
    )
dispatch-Ends now s e (data_message m) readers writers h k =
    ([], outcome_ext refl (map_ends _ _ _ (reader_cons _ _ _ h)) (writer_nil _ _ k) [])
dispatch-Ends now s e (gap m) readers writers h k =
    ([], outcome_ext (sym (map_id _)) (map_ends _ _ _ (reader_cons _ _ _ h)) (writer_nil _ _ k) [])
dispatch-Ends now s e (heartbeat_frag m) readers writers h k =
    ([], outcome_ext (sym (map_id _)) (map_ends _ _ _ (reader_cons _ _ _ h)) (writer_nil _ _ k) [])
dispatch-Ends now s e (data_frag m) readers writers h k = (
  [],
  rw (each_ends _ e.stateful_reader_list readers (reader_cons _ _ _ h))
      (outcome_ext (sym (map_id _)) refl (writer_nil _ _ k) []),
)
dispatch-Ends now s e (heartbeat m) readers writers h k =
    let (sent, done) = each_sending_ends _ e.stateful_reader_list readers (reader_cons _ _ _ h) in
    (sent, rw done (outcome_ext (sym (map_id _)) refl (writer_nil _ _ k) sent))
dispatch-Ends now s e (info_destination m) readers writers h k =
    ([], outcome_ext (sym (map_id _)) (reader_nil _ _ h) (writer_nil _ _ k) [])
dispatch-Ends now s e (info_reply m) readers writers h k =
    ([], outcome_ext (sym (map_id _)) (reader_nil _ _ h) (writer_nil _ _ k) [])
dispatch-Ends now s e (info_source m) readers writers h k =
    ([], outcome_ext (sym (map_id _)) (reader_nil _ _ h) (writer_nil _ _ k) [])
dispatch-Ends now s e (info_timestamp m) readers writers h k =
    ([], outcome_ext (sym (map_id _)) (reader_nil _ _ h) (writer_nil _ _ k) [])
dispatch-Ends now s e pad readers writers h k =
    ([], outcome_ext (sym (map_id _)) (reader_nil _ _ h) (writer_nil _ _ k) [])

after_lem :
    (s : MessageReceiver) (m : Submessage) (ms : List Submessage)
    → Readable (m ∷ ms)
    → (interpret s m ≡ ret (after s m)) × Readable ms
unfolding interpret after Readable
after_lem s (info_destination m) ms h = (refl, h)
after_lem s (info_source m) ms h = (refl, h)
after_lem s (info_timestamp m) ms h = (ground arith, h)
after_lem s (info_reply m) ms h = absurd h
after_lem s (ack_nack m) ms h = (refl, h)
after_lem s (nack_frag m) ms h = (refl, h)
after_lem s (data_message m) ms h = (refl, h)
after_lem s (data_frag m) ms h = (refl, h)
after_lem s (gap m) ms h = (refl, h)
after_lem s (heartbeat m) ms h = (refl, h)
after_lem s (heartbeat_frag m) ms h = (refl, h)
after_lem s pad ms h = (refl, h)

map-map {ℓ} : {A : Type ℓ} (f g : A → A) (xs : List A) → map g (map f xs) ≡ map (λ x. g (f x)) xs
map-map f g [] = refl
map-map f g (x ∷ xs) = ap (◌∷◌ (g (f x))) (map-map f g xs)

process_from-Alone :
    (now : ℕ → ℕ) (s : MessageReceiver) (ms : List Submessage) (e : Entities)
    (readers : List RtpsStatefulReader) (writers : List RtpsStatefulWriter)
    → Readable ms
    → Ends (reader_events s ms) e.stateful_reader_list readers
    → WriterEnds (writer_events now s ms) e.stateful_writer_list writers
    → (sent : List Message) × (process_from now s e ms
        ≡ outcome (map (run_stateless s ms) e.stateless_reader_list) readers writers sent)
unfolding process_from reader_events writer_events run_stateless Dispatched
process_from-Alone now s [] e readers writers ok h k =
    ([], outcome_ext (sym (map_id _)) (reader_nil _ _ h) (writer_nil _ _ k) [])
process_from-Alone now s (m ∷ ms) e readers writers ok h k =
    let (read, ok') = after_lem s m ms ok in
    let (readers', one, rest) =
      Pointwise-bind (λ r. run r (to_reader s m)) (λ r. run r (reader_events (after s m) ms))
        e.stateful_reader_list readers
        (Pointwise-map _ _ _ _ (λ r r' q. sym (run-append r (to_reader s m) _) ∙ q) h) in
    let (writers', wone, wrest) =
      Pointwise-bind (λ w. run_writer w (to_writer (now 0) s m))
        (λ w. run_writer w (writer_events (λ i. now (suc i)) (after s m) ms)) e.stateful_writer_list
        writers
        (Pointwise-map _ _ _ _ (λ w w' q. sym (run_writer-append w (to_writer (now 0) s m) _) ∙ q)
          k) in
    let (sent, done) = dispatch-Ends (now 0) s e m readers' writers' one wone in
    let (more, all) =
      process_from-Alone (λ i. now (suc i)) (after s m) ms (moved s m e readers' writers') readers
        writers ok' rest wrest in
    (
      sent ++ more,
      rw (read, done, all) (outcome_ext (map-map _ _ e.stateless_reader_list) refl refl _),
    )

-- A message without INFO_REPLY is given to entities that, each alone, end in given states over the
-- events of the message: its submessages with the source and the timestamp that the INFO
-- submessages before them set. Then the processing returns, with each entity in that state.
pub process_message-Alone :
    (now : ℕ → ℕ) (s : MessageReceiver) (e : Entities) (readers : List RtpsStatefulReader)
    (writers : List RtpsStatefulWriter)
    → Readable s.submessages
    → Ends (reader_events s s.submessages) e.stateful_reader_list readers
    → WriterEnds (writer_events now s s.submessages) e.stateful_writer_list writers
    → (sent : List Message) × (process_message now s e
        ≡ outcome
            (map (run_stateless s s.submessages) e.stateless_reader_list)
            readers
            writers
            sent)
unfolding process_message
process_message-Alone now s e readers writers ok h k =
    process_from-Alone now s s.submessages e readers writers ok h k
