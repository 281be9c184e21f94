-- ===== src/Wire.antt =====
-- ethwire/messaging.go: the framing of messages. The bytes that ReadMessages has received are one
-- list with no room behind it; the connection is left out.
pub mod Framing
use goeth_self_training.Prelude.{
  ℕ, zero, suc, ◌+◌, ◌%◌, ◌^◌, ◌==◌, not, Bool, true, false, Option, some, none, List, [], ◌∷◌,
  ◌++◌, list_eq, leb, ltb, if◌then◌else◌, length, take, drop,
}
use goeth_self_training.Prelude.Result.{Result, ok, panic, out_of_fuel, ◌>>=◌, or_panic}
use goeth_self_training.Bytes.{number_to_bytes32, bytes_to_number}
use goeth_self_training.Item.{Item, Items, nil, uint8, list, item, no_items}
use goeth_self_training.Rlp.{encode, decode_from}
use goeth_self_training.Value
use goeth_self_training.Value.{new_value, to_uint, to_slice, slice_from}

pub record Msg : Type 0 where
  pub msg_type : ℕ
  pub content : Item

pub data WireError : Type 0 where
  invalid_message magic_mismatch short_message recovered : WireError

-- What ReadMessage returns.
pub record Read : Type 0 where
  pub msg : Option Msg
  pub remaining : List ℕ
  pub done : Bool
  pub error : Option WireError

abbrev pub magic_token : List ℕ
magic_token = 34 ∷ 64 ∷ 8 ∷ 145 ∷ []

abbrev failed : WireError → Read
failed e = record { msg = none; remaining = []; done = false; error = some e }

-- NewValueFromBytes of a slice, where `beyond` lies between its length and its capacity.
unfoldable pub value_from : List ℕ → List ℕ → Result Item
unfolding new_value
value_from [] beyond = ok nil
value_from (b ∷ bs) beyond = do (v, p) ← decode_from (b ∷ bs) beyond 0; ok (new_value v)

-- data[from:], which panics past the length.
abbrev pub tail_from : List ℕ → ℕ → Result (List ℕ)
tail_from data' from = if leb from (length data') then ok (drop from data') else panic

-- The message behind the 8 bytes of the head; the rest is cut off before its length is tested.
unfoldable pub read_body : ℕ → List ℕ → Result Read
unfolding value_from to_uint slice_from Value.get
read_body size data' = do
  rest ← tail_from data' (8 + size)
  if ltb (length (drop 8 data')) size then ok (failed short_message) else (do
    decoder ← value_from (take size (drop 8 data')) rest
    content ← slice_from decoder 1
    ok (record {
      msg = some (record { msg_type = to_uint (Value.get decoder 0) % 256; content = content });
      remaining = rest;
      done = false;
      error = none;
    }))

-- `ReadMessage`
unfoldable pub read_message : List ℕ → Result Read
unfolding read_body bytes_to_number
read_message [] = ok (record { msg = none; remaining = []; done = true; error = none })
read_message (b ∷ bs) =
    if leb (length (b ∷ bs)) 8
    then ok (failed invalid_message)
    else if list_eq magic_token (take 4 (b ∷ bs))
    then (do size ← or_panic (bytes_to_number (take 4 (drop 4 (b ∷ bs)))); read_body size (b ∷ bs))
    else ok (failed magic_mismatch)

-- What `WriteMessage` writes.
unfoldable pub written_message : Msg → List ℕ
unfolding number_to_bytes32 to_slice
written_message m =
    let encoded = encode (list (item (uint8 (m.msg_type % 256)) (to_slice m.content))) in
    magic_token ++ (number_to_bytes32 (length encoded % 2 ^ 32) ++ encoded)

abbrev pub with_msg : List Msg → Option Msg → List Msg
with_msg msgs none = msgs
with_msg msgs (some m) = msgs ++ m ∷ []

-- The loop of `ReadMessages` over what was received; a panic is recovered, with the messages so
-- far. Each call that is not the last takes something off, so the length and 1 is fuel enough.
unfoldable pub read_loop : ℕ → List ℕ → List Msg → Result (List Msg × Option WireError)
unfolding read_message
read_loop zero data' msgs = out_of_fuel
read_loop (suc fuel) data' msgs = elim (read_message data') [
  | panic ↦ ok (msgs, some recovered)
  | out_of_fuel ↦ out_of_fuel
  | ok r ↦ if r.done then ok (msgs, r.error) else read_loop fuel r.remaining (with_msg msgs r.msg)
]

unfoldable pub read_messages : List ℕ → Result (List Msg × Option WireError)
unfolding read_loop
read_messages buff = read_loop (length buff + 1) buff []
