-- ===== src/Rtps/WriterProxy/Fragments.antt =====
-- The fragment buffer of a writer proxy (dds/src/rtps/writer_proxy.rs): collecting DATA_FRAG
-- submessages and joining them to the change that they are parts of.
use dust_dds.Base.{
  ℕ, ◌+◌, ◌/◌, ◌%◌, ◌^◌, Bool, false, not, ◌&&◌, Option, none, some, List, [], ◌∷◌, ◌++◌, ◌==◌, leb,
  if◌then◌else◌, any, retain, range_inclusive, Outcome, ret, panic, ◌>>=◌, ltb,
}
use dust_dds.Transport.Types.{SequenceNumber}
use dust_dds.Rtps.Messages.Types.{FragmentNumber}
use dust_dds.Rtps.Messages.Submessages.{DataFragSubmessage, DataSubmessage, as_ref, data_frag_eq}
use dust_dds.Rtps.WriterProxy.{RtpsWriterProxy}

abbrev pub FragBuffer : Type 0
FragBuffer = List (SequenceNumber × List DataFragSubmessage)

-- A fragment size of 0 divides by zero.
unfoldable pub total_fragments_expected : DataFragSubmessage → Outcome ℕ
total_fragments_expected f =
    if f.fragment_size == 0
    then panic
    else ret (f.data_size / f.fragment_size + (if f.data_size % f.fragment_size == 0 then 0 else 1))

unfoldable pub push_fragment :
    DataFragSubmessage → List DataFragSubmessage → List DataFragSubmessage
push_fragment f frags = if any (data_frag_eq f) frags then frags else frags ++ f ∷ []

unfoldable pub push_to_buffer : FragBuffer → DataFragSubmessage → FragBuffer
unfolding push_fragment
push_to_buffer [] f = (f.writer_sn, push_fragment f []) ∷ []
push_to_buffer ((sn, frags) ∷ rest) f =
    if sn == f.writer_sn
    then (sn, push_fragment f frags) ∷ rest
    else (sn, frags) ∷ push_to_buffer rest f

unfoldable pub push_data_frag : RtpsWriterProxy → DataFragSubmessage → RtpsWriterProxy
unfolding push_to_buffer
push_data_frag p submessage = record p { frag_buffer = push_to_buffer p.frag_buffer submessage }

unfoldable pub get_fragments : SequenceNumber → FragBuffer → Option (List DataFragSubmessage)
get_fragments sn [] = none
get_fragments sn ((k, frags) ∷ rest) = if k == sn then some frags else get_fragments sn rest

unfoldable pub remove_fragments : SequenceNumber → FragBuffer → FragBuffer
remove_fragments sn [] = []
remove_fragments sn ((k, frags) ∷ rest) =
    if k == sn then rest else (k, frags) ∷ remove_fragments sn rest

unfoldable pub total_fragments : List DataFragSubmessage → ℕ → ℕ
total_fragments [] total = total
total_fragments (f ∷ frags) total =
    total_fragments frags ((total + f.fragments_in_submessage) % 2 ^ 32)

-- `sort_by_key`, which is stable.
unfoldable pub insert_by_start :
    DataFragSubmessage → List DataFragSubmessage → List DataFragSubmessage
insert_by_start f [] = f ∷ []
insert_by_start f (g ∷ gs) =
    if leb f.fragment_starting_num g.fragment_starting_num
    then f ∷ g ∷ gs
    else g ∷ insert_by_start f gs

unfoldable pub sort_by_start : List DataFragSubmessage → List DataFragSubmessage
unfolding insert_by_start
sort_by_start [] = []
sort_by_start (f ∷ fs) = insert_by_start f (sort_by_start fs)

unfoldable pub payload_of : List DataFragSubmessage → List ℕ
payload_of [] = []
payload_of (f ∷ fs) = as_ref f.serialized_payload ++ payload_of fs

-- `frag_seq_num_list[0]` panics on the empty list.
unfoldable pub data_of_fragments :
    RtpsWriterProxy → SequenceNumber → List DataFragSubmessage → Outcome DataSubmessage
unfolding payload_of
data_of_fragments p seq_num [] = panic
data_of_fragments p seq_num (first ∷ rest) = ret (record {
  inline_qos_flag = first.inline_qos_flag;
  data_flag = not first.key_flag;
  key_flag = first.key_flag;
  non_standard_payload_flag = false;
  reader_id = first.reader_id;
  writer_id = p.remote_writer_guid.entity_id;
  writer_sn = seq_num;
  inline_qos = first.inline_qos;
  serialized_payload = payload_of (first ∷ rest);
})

unfoldable pub reconstruct_from :
    RtpsWriterProxy
    → SequenceNumber
    → List DataFragSubmessage
    → Outcome (RtpsWriterProxy × Option DataSubmessage)
unfolding total_fragments sort_by_start data_of_fragments remove_fragments
reconstruct_from p seq_num [] = panic
reconstruct_from p seq_num (first ∷ rest) = do
  expected ← total_fragments_expected first
  if total_fragments (first ∷ rest) 0 == expected
      then (do
        message ← data_of_fragments p seq_num (sort_by_start (first ∷ rest))
        ret (record p { frag_buffer = remove_fragments seq_num p.frag_buffer }, some message))
      else ret (p, none)

unfoldable pub reconstruct_data_from_frag :
    RtpsWriterProxy → SequenceNumber → Outcome (RtpsWriterProxy × Option DataSubmessage)
unfolding reconstruct_from get_fragments
reconstruct_data_from_frag p seq_num = elim (get_fragments seq_num p.frag_buffer) [
  | some frags ↦ reconstruct_from p seq_num frags
  | none ↦ ret (p, none)
]

-- A fragment number that none of the fragments covers.
unfoldable pub is_missing : List DataFragSubmessage → FragmentNumber → Bool
is_missing frags n = not (
    any
      (λ x.
        leb x.fragment_starting_num n
        && ltb n ((x.fragment_starting_num + x.fragments_in_submessage) % 2 ^ 32))
      frags)

unfoldable pub missing_fragments : List DataFragSubmessage → ℕ → List FragmentNumber
unfolding is_missing
missing_fragments frags expected = retain (is_missing frags) (range_inclusive 1 expected)
