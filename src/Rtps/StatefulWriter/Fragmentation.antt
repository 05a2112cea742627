-- ===== src/Rtps/StatefulWriter/Fragmentation.antt =====
-- The DATA_FRAGs of a change, joined by the reader.

use native.Mathlib.Nat.{div-add-mod', div-le_self, lt-div-mul-add, mul-le-mul_left}
use dust_dds.Base.{
  ltb, ℕ, zero, suc, ◌+◌, ◌-◌, ◌*◌, ◌/◌, ◌%◌, ◌^◌, ◌<◌, ◌≤◌, ◌≡◌, refl, sym, ap, ◌∙◌, arith, Bool,
  true, false, not, Bool-cases, inl, inr, some, List, [], ◌∷◌, ◌++◌, map, ◌==◌, leb, min, take,
  drop, length, length-drop, take_all, range, count_from, ret, if◌then◌else◌,
}
use dust_dds.Base.Slices.{take-add, drop-add, take-min}
use dust_dds.Transport.Types.{EntityId}
use dust_dds.Transport.History.{CacheChange}
use dust_dds.Rtps.Messages.Submessages.{
  DataFragSubmessage, DataSubmessage, as_ref, Message, data_frag,
}
use dust_dds.Rtps.WriterProxy.{RtpsWriterProxy}
use dust_dds.Rtps.WriterProxy.Fragments.{
  total_fragments_expected, total_fragments, insert_by_start, sort_by_start, payload_of,
  data_of_fragments, reconstruct_from, remove_fragments,
}
use dust_dds.Rtps.ReaderProxy.{RtpsReaderProxy}
use dust_dds.Rtps.StatefulWriter.Reliable.{Sender, send_relevant_change}
use dust_dds.Rtps.StatefulWriter.Sending.{
  change_messages, number_of_fragments, fragment_of, fragment_messages, key_flag_of, info_dst,
  info_timestamp_of,
}

ret-injective : (a b : ℕ) → ret a ≡ ret b → a ≡ b
ret-injective a b e = cc e

-- The fragments cover the change, and no fragment is empty.
number_of_fragments_bounds :
    (len size n : ℕ)
    → 0 < size
    → number_of_fragments len size ≡ ret n
    → (len ≤ n * size) × (n ≤ len)
unfolding number_of_fragments
number_of_fragments_bounds len size n pos e = elim (Bool-cases (len % size == 0)) [
  | inl exact ↦
      let count : n ≡ len / size = ground (arith, rw exact at counted) in
      (grind (arith, count, div-add-mod' len size), omega (arith, count, div-le_self len size))
  | inr part ↦
      let count : n ≡ len / size + 1 = ground (arith, rw part at counted) in
      (
        grind (arith, count, lt-div-mul-add {a = len} pos),
        grind (arith, count, div-add-mod' len size, mul-le-mul_left (len / size) pos),
      )
]
  where
    positive : (size == 0) ≡ false
    positive = ground arith

    counted : n ≡ len / size + (if len % size == 0 then 0 else 1)
    counted = sym (ret-injective _ n (rw positive at e))

module _ (p : RtpsReaderProxy) (writer_id : EntityId) (c : CacheChange) (size : ℕ)
    (key_flag : Bool) where
  abbrev pub fragment : ℕ → DataFragSubmessage
  fragment i = fragment_of p writer_id c size key_flag i

  fragment_octets :
      (i : ℕ) → as_ref (fragment i).serialized_payload ≡ take size (drop (i * size) c.data_value)
  unfolding fragment_of
  fragment_octets i =
      ap (λ (k : ℕ). take k (drop (i * size) c.data_value)) window
      ∙ take-min size (length c.data_value - i * size) (drop (i * size) c.data_value)
          (omega (arith, length-drop (i * size) c.data_value))
    where
      window :
          min ((i + 1) * size) (length c.data_value) - i * size
          ≡ min size (length c.data_value - i * size)
      window = grind arith

  payload_of-fragments :
      (k i : ℕ)
      → payload_of (map fragment (count_from i k)) ≡ take (k * size) (drop (i * size) c.data_value)
  unfolding payload_of
  payload_of-fragments zero i =
      ap (λ (k : ℕ). take k (drop (i * size) c.data_value)) {x = 0} (omega arith)
  payload_of-fragments (suc k) i =
      ap (λ xs. xs ++ payload_of (map fragment (count_from (suc i) k))) (fragment_octets i)
      ∙ ap (◌++◌ (take size (drop (i * size) c.data_value)))
          (payload_of-fragments k (suc i) ∙ ap (take (k * size)) following)
      ∙ sym (take-add size (k * size) (drop (i * size) c.data_value))
      ∙ ap (λ (n : ℕ). take n (drop (i * size) c.data_value)) {y = suc k * size} (grind arith)
    where
      following : drop (suc i * size) c.data_value ≡ drop size (drop (i * size) c.data_value)
      following =
          ap (λ (n : ℕ). drop n c.data_value) {y = i * size + size} (grind arith)
          ∙ drop-add (i * size) size c.data_value

  insert_by_start-fragment :
      (k i j : ℕ)
      → i < j
      → j + k < 2 ^ 32
      → insert_by_start (fragment i) (map fragment (count_from j k))
        ≡ fragment i ∷ map fragment (count_from j k)
  unfolding insert_by_start fragment_of
  insert_by_start-fragment zero i j lt small = refl
  insert_by_start-fragment (suc k) i j lt small = rw earlier refl
    where
      earlier : leb ((i + 1) % 2 ^ 32) ((j + 1) % 2 ^ 32) ≡ true
      earlier = ground arith

  sort_by_start-fragments :
      (k i : ℕ)
      → i + k < 2 ^ 32
      → sort_by_start (map fragment (count_from i k)) ≡ map fragment (count_from i k)
  unfolding sort_by_start
  sort_by_start-fragments zero i small = refl
  sort_by_start-fragments (suc k) i small =
      ap (insert_by_start (fragment i)) (sort_by_start-fragments k (suc i) (omega arith))
      ∙ insert_by_start-fragment k i (suc i) (omega arith) (omega arith)

  total_fragments-fragments :
      (k i n : ℕ) → n + k < 2 ^ 32 → total_fragments (map fragment (count_from i k)) n ≡ n + k
  unfolding total_fragments fragment_of
  total_fragments-fragments zero i n small = omega arith
  total_fragments-fragments (suc k) i n small =
      ap (total_fragments (map fragment (count_from (suc i) k))) {y = n + 1} (omega arith)
      ∙ total_fragments-fragments k (suc i) (n + 1) (omega arith)
      ∙ omega arith

  expected_fragments :
      (i : ℕ)
      → size < 2 ^ 16
      → length c.data_value < 2 ^ 32
      → total_fragments_expected (fragment i) ≡ number_of_fragments (length c.data_value) size
  unfolding total_fragments_expected number_of_fragments fragment_of
  expected_fragments i small short = rw (size_fits, length_fits) refl
    where
      size_fits : size % 2 ^ 16 ≡ size
      size_fits = omega arith

      length_fits : length c.data_value % 2 ^ 32 ≡ length c.data_value
      length_fits = omega arith

  -- The message that the reader makes of the fragments.
  abbrev pub joined : RtpsWriterProxy → DataSubmessage
  joined q = record {
    inline_qos_flag = true;
    data_flag = not key_flag;
    key_flag = key_flag;
    non_standard_payload_flag = false;
    reader_id = p.remote_reader_guid.entity_id;
    writer_id = q.remote_writer_guid.entity_id;
    writer_sn = c.sequence_number;
    inline_qos = [];
    serialized_payload = c.data_value;
  }

  whole_payload :
      (n : ℕ)
      → length c.data_value ≤ n * size
      → payload_of (map fragment (count_from 0 n)) ≡ c.data_value
  whole_payload n cover =
      payload_of-fragments n 0
      ∙ ap (λ (m : ℕ). take (n * size) (drop m c.data_value)) {y = 0} (omega arith)
      ∙ take_all (n * size) c.data_value cover

  join_from_first :
      (q : RtpsWriterProxy) (k : ℕ)
      → size < 2 ^ 16
      → length c.data_value < 2 ^ 32
      → number_of_fragments (length c.data_value) size ≡ ret (suc k)
      → length c.data_value ≤ suc k * size
      → 0 + suc k < 2 ^ 32
      → reconstruct_from q c.sequence_number (map fragment (count_from 0 (suc k)))
        ≡ ret (
          record q { frag_buffer = remove_fragments c.sequence_number q.frag_buffer },
          some (joined q),
        )
  unfolding reconstruct_from data_of_fragments
  join_from_first q k small short e cover few =
      rw
        (
          expected_fragments 0 small short ∙ e,
          total,
          sort_by_start-fragments (suc k) 0 few,
          whole_payload (suc k) cover,
          reconstruct_from,
          data_of_fragments,
        )
        (unfold fragment_of in refl)
    where
      total : (total_fragments (map fragment (count_from 0 (suc k))) 0 == suc k) ≡ true
      total = ground (arith, total_fragments-fragments (suc k) 0 0 few)

  abbrev pub fragment_message : ℕ → Message
  fragment_message i = record {
    submessages = info_dst p ∷ info_timestamp_of c ∷ data_frag (fragment i) ∷ [];
    destination_locator_list = p.unicast_locator_list;
  }

  fragment_messages_lem :
      (is : List ℕ)
      → key_flag_of c.kind ≡ ret key_flag
      → fragment_messages p writer_id c size is ≡ ret (map fragment_message is)
  unfolding fragment_messages
  fragment_messages_lem [] e = refl
  fragment_messages_lem (i ∷ is) e = rw (e, fragment_messages_lem is e) refl

  join_counted :
      (q : RtpsWriterProxy) (n : ℕ)
      → 0 < length c.data_value
      → size < 2 ^ 16
      → length c.data_value < 2 ^ 32
      → number_of_fragments (length c.data_value) size ≡ ret n
      → (length c.data_value ≤ n * size) × (n ≤ length c.data_value)
      → reconstruct_from q c.sequence_number (map fragment (count_from 0 n))
        ≡ ret (
          record q { frag_buffer = remove_fragments c.sequence_number q.frag_buffer },
          some (joined q),
        )
  join_counted q zero some_data small short e bounds = absurd (omega (arith, bounds.0))
  join_counted q (suc k) some_data small short e bounds =
      join_from_first q k small short e bounds.0 (omega (arith, bounds.1))

two_fragments : (octets n size : ℕ) → size < octets → octets ≤ n * size → ltb 1 n ≡ true
two_fragments octets zero size more cover = absurd (omega arith)
two_fragments octets (suc zero) size more cover = absurd (omega arith)
two_fragments octets (suc (suc n)) size more cover = ground arith

-- A change whose data is longer than the fragment size, of a kind that a DATA_FRAG can carry, is
-- sent, to a best-effort and to a reliable reader, as one DATA_FRAG for each fragment, where the
-- fragment size is positive and below 2 ^ 16 and the data is shorter than 2 ^ 32. A reader that holds
-- exactly these, in this order, joins them to a message with the whole data and the change's number,
-- and forgets them. The message has no inline QoS: the status and the handle of the change are lost.
pub reconstruct_from-change_messages :
    (w : Sender) (p : RtpsReaderProxy) (c : CacheChange) (key_flag : Bool) (q : RtpsWriterProxy)
    (n : ℕ)
    → w.data_max_size_serialized < length c.data_value
    → 0 < w.data_max_size_serialized
    → w.data_max_size_serialized < 2 ^ 16
    → length c.data_value < 2 ^ 32
    → key_flag_of c.kind ≡ ret key_flag
    → number_of_fragments (length c.data_value) w.data_max_size_serialized ≡ ret n
    → let size = w.data_max_size_serialized in
      let messages = map (fragment_message p w.writer_id c size key_flag) (range 0 n) in
      (change_messages p w.writer_id c size ≡ ret messages)
      × (send_relevant_change w p c ≡ ret (p, messages))
      × (reconstruct_from q c.sequence_number
            (map (fragment p w.writer_id c size key_flag) (range 0 n))
          ≡ ret (
            record q { frag_buffer = remove_fragments c.sequence_number q.frag_buffer },
            some (joined p w.writer_id c size key_flag q),
          ))
unfolding change_messages send_relevant_change
reconstruct_from-change_messages w p c key_flag q n more pos small short kind e =
    let size = w.data_max_size_serialized in
    let bounds = number_of_fragments_bounds (length c.data_value) size n pos e in
    let many = two_fragments (length c.data_value) n size more bounds.0 in
    let sent = fragment_messages_lem p w.writer_id c size key_flag (range 0 n) kind in
    (
      rw (e, many, sent) refl,
      rw (e, many, sent) refl,
      ap
            (λ (m : ℕ).
              reconstruct_from q c.sequence_number
                (map (fragment p w.writer_id c size key_flag) (count_from 0 m)))
            {y = n} (omega arith)
          ∙ join_counted p w.writer_id c size key_flag q n (omega arith) small short e bounds,
    )
