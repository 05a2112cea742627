-- ===== src/Lib.antt =====
-- Verification of two layers of dust-dds: the RTPS protocol, by which the writers and the readers of
-- a DDS domain exchange the changes of their data, and the data writer and the data reader above it,
-- which hold the samples within the limits of their QoS.
--
-- The program's parts and their files:
--   * Transport.Types and Transport.History: the values of dds/src/transport/types.rs and the
--     CacheChange, WriterProxy and ReaderProxy of dds/src/transport/{history_cache,reader,writer}.rs.
--   * Rtps.SequenceNumberSet: the bitmap of dds/src/rtps/messages/submessage_elements.rs.
--   * Rtps.Messages: the message's time (dds/src/rtps/messages/types.rs) and the submessages as
--     values (dds/src/rtps/messages/submessages).
--   * Rtps.CacheChange: a change as a DATA submessage and back (dds/src/rtps/cache_change.rs).
--   * Rtps.BehaviorTypes: Duration (dds/src/rtps/behavior_types.rs).
--   * Rtps.WriterProxy: what a reader knows of a writer (dds/src/rtps/writer_proxy.rs). Fragments
--     has the fragment buffer and Sending the ACKNACK and the NACK_FRAGs.
--   * Rtps.StatefulReader: the reader's handlers (dds/src/rtps/stateful_reader.rs). Run gives one
--     reader a sequence of submessages, as MessageReceiver does.
--   * Rtps.ReaderProxy: what a writer knows of a reader (dds/src/rtps/reader_proxy.rs).
--   * Rtps.StatefulWriter: the writer (dds/src/rtps/stateful_writer.rs). Sending has the messages
--     of a change and the best-effort half, Reliable the reliable half.
--   * Rtps.ReaderLocator, Rtps.StatelessWriter and Rtps.StatelessReader: the entities that keep no
--     state of the other side (dds/src/rtps/{reader_locator,stateless_writer,stateless_reader}.rs).
--   * Rtps.MessageReceiver: the interpretation of a message's submessages and their distribution to
--     the entities of every kind (dds/src/rtps/message_receiver.rs). Alone compares it with what each
--     entity does by itself on the events of the message.
--   * Dds.Errors, Dds.Handles, Dds.Time, Dds.Qos and Dds.Status: the values of
--     dds/src/dds/infrastructure. Dds.TypeSupport: the type of the data, with the functions that the
--     entities use of it.
--   * Dds.DataReader: the reader's samples, instances, owners, matched publications and statuses
--     (dds/src/implementation/domain_participant_backend/entities/data_reader.rs). Reading has read
--     and take, Adding the way of a change into the list, Matching the other operations.
--   * Dds.DataWriter: the writer's numbers, samples and instances (data_writer.rs beside it).
--     Writing has the writing, disposing and unregistering, Matching the other operations.
--   * Dds.StatusCondition: the actor to which the entities send the changes of their statuses
--     (dds/src/implementation/status_condition/status_condition_actor.rs).
--   * Dds.Discovery: what endpoints announce of their QoS and which policies keep them from matching
--     (dds/src/implementation/domain_participant_backend/services/discovery_service.rs), with the
--     orders of the policies in Dds.Qos.Orders and, by ranks, in
--     Dds.Qos.Ranks.
--   * Rtps.Examples and Dds.Examples: tests.
-- A reader's handler takes the reader and a submessage and returns the reader and what it sends. A
-- writer's operation does the same; the two meet in the submessages. The data writer gives its
-- changes to a history cache, and the data reader is given those that its RTPS reader delivers.
--
-- Conventions. A method with `&mut self` is a function that returns the new state. A call of
-- MessageSender::write_message is a Message in the list that is returned: the encoding and the
-- sockets are not modelled. A HistoryCache, which is a trait, is the list of the changes that
-- `add_change` was given, and for the data writer, which also removes changes, the list of its calls.
-- `Instant::now` is an argument. A HashMap is an association list, whose order stands for the order
-- in which the map is gone through. The type support, a trait, is a record of functions. The status
-- condition, an actor, is the list of the mails that it was sent. A timer task is a number, and the
-- tasks that were aborted are a list. A
-- SequenceNumber, an i64, is a natural number: the protocol's numbers are positive, and overflow at
-- the largest i64 is left out. A Count, an i32, is its bit pattern, compared and incremented with
-- wrap-around; casts to u32 and u16 are written `% 2 ^ w`. Arithmetic wraps as in a release build.
-- A panic (a division by zero, an index out of range, `todo!()`) is the outcome `panic`.
-- The log's messages are left out.
--
-- Loops. The loops over a list or a range are structural. The `while let` loops of the writer run
-- on fuel and end in `stuck` without it: the loops over the unsent changes get one round more than
-- there are changes, the loop over the requested changes one more than there are requests. Each
-- round sends a change that was not sent before, or takes at least one request away, which is why
-- this is enough. The data writer's wait for an acknowledgement has no bound where the blocking time is
-- infinite: its theorem takes as a condition that the wait ends within the fuel, by an acknowledgement
-- or by the time.
--
-- Not modelled: the encoding of messages in octets, the participant, the rest of discovery, the other
-- DDS entities, the listeners, the representation of data (dds/src/xtypes), the runtime, the derive
-- macros, the IDL compiler and the bindings.
pub mod Base
pub mod Transport
pub mod Rtps
pub mod Dds
