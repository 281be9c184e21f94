-- ===== src/Tests/Messages.antt =====
-- The framing of ethwire/messaging.go at concrete inputs.
use goeth_self_training.Prelude.{◌≡◌, refl, inl, some, none, [], ◌∷◌, map, arith}
use goeth_self_training.Prelude.Result.{ok}
use goeth_self_training.Bytes.{be_bytes, big_bytes, bytes_to_number}
use goeth_self_training.Item.{bytes, list, item, no_items}
use goeth_self_training.Rlp.{encode, encode_big, encode_bytes, slice_header}
use goeth_self_training.Rlp.Plain.{Fits}
use goeth_self_training.Value.{to_slice}
use goeth_self_training.Wire.{Msg, recovered, read_body, read_messages}
use goeth_self_training.Wire.Framing.{IsSendable, received, sent, read_messages-sent}

abbrev ping : Msg
ping = record { msg_type = 2; content = list no_items }

abbrev talk : Msg
talk = record { msg_type = 255; content = list (item (bytes (1 ∷ 200 ∷ [])) no_items) }

ping-IsSendable : IsSendable ping
unfolding Fits encode encode_big encode_bytes slice_header big_bytes be_bytes to_slice
ping-IsSendable = record {
  msg_type = omega arith;
  fits = (inl (omega arith), (inl (omega arith), tt));
  short = omega arith;
}

talk-IsSendable : IsSendable talk
unfolding Fits encode encode_big encode_bytes slice_header big_bytes be_bytes to_slice
talk-IsSendable = record {
  msg_type = omega arith;
  fits = (inl (omega arith), (inl (omega arith), (inl (omega arith), tt)));
  short = omega arith;
}

read_messages-sent_example :
    read_messages (sent (ping ∷ talk ∷ ping ∷ []))
    ≡ ok (map received (ping ∷ talk ∷ ping ∷ []), none)
read_messages-sent_example =
    read_messages-sent (ping ∷ talk ∷ ping ∷ [])
      (ping-IsSendable, (talk-IsSendable, (ping-IsSendable, tt)))

-- A wrong magic token leaves no error behind, and a message that is cut short panics.
magic_lost : read_messages (1 ∷ 2 ∷ 3 ∷ 4 ∷ 5 ∷ 6 ∷ 7 ∷ 8 ∷ 9 ∷ []) ≡ ok ([], none)
unfolding read_messages
magic_lost = refl

cut_short : read_messages (34 ∷ 64 ∷ 8 ∷ 145 ∷ 0 ∷ 0 ∷ 0 ∷ 5 ∷ 193 ∷ []) ≡ ok ([], some recovered)
unfolding read_messages bytes_to_number read_body
cut_short = refl
