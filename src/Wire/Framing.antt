-- ===== src/Wire/Framing.antt =====
-- What `WriteMessage` of ethwire/messaging.go writes is read back.
use goeth_self_training.Prelude.{
  subst, ℕ, zero, suc, ◌+◌, ◌*◌, ◌/◌, ◌%◌, ◌^◌, ◌<◌, ◌≤◌, ◌≡◌, ◌∙◌, refl, ap, true, false, some,
  none, List, [], ◌∷◌, ◌++◌, append_assoc, append-nil, map, leb, ltb, if◌then◌else◌, length,
  length-append, take-append, drop, drop-append, All, arith,
}
use goeth_self_training.Prelude.Result.{ok}
use goeth_self_training.Bytes.{number_to_bytes32, bytes_to_number, big_d}
use goeth_self_training.Item.{Item, uint8, list, item}
use goeth_self_training.Rlp.{encode, decode_from}
use goeth_self_training.Rlp.Plain.{plain, plain_items, Fits}
use goeth_self_training.Rlp.RoundTrip.{decode-encode, length-encode_pos}
use goeth_self_training.Value
use goeth_self_training.Value.{new_value, to_uint, to_slice, slice_from, drop_items}
use goeth_self_training.Value.Numbers.{stored}
use goeth_self_training.Blocks.Fields.{v_kept}
use goeth_self_training.Wire.{
  Msg, Read, magic_token, value_from, tail_from, read_body, read_message, written_message, with_msg,
  read_loop, read_messages,
}

-- The four bytes of a number, put together as BytesToNumber does.
from_bytes :
    (n : ℕ)
    → n < 2 ^ 32
    → (((0 + n / 2 ^ 24 % 256) * 256 + n / 2 ^ 16 % 256) * 256 + n / 2 ^ 8 % 256) * 256 + n % 256
      ≡ n
from_bytes n h = omega arith

-- The head of a message names how long its code is.
read_message-head :
    (n : ℕ) (more : List ℕ)
    → n < 2 ^ 32
    → 1 ≤ length more
    → read_message (magic_token ++ (number_to_bytes32 n ++ more))
      ≡ read_body n ((magic_token ++ number_to_bytes32 n) ++ more)
unfolding read_message bytes_to_number number_to_bytes32 big_d
read_message-head n more h k =
    let long : leb (8 + length more) 8 ≡ false = ground (arith, k) in
    let sizes : 8 + length more ≡ suc (suc (suc (suc (suc (suc (suc (suc (length more)))))))) =
      omega arith in
    rw (rw sizes at long)
      (ap (λ size. read_body size ((magic_token ++ number_to_bytes32 n) ++ more)) (from_bytes n h))

-- The items of a message, with its type in front.
abbrev body : Msg → Item
body m = list (item (uint8 (m.msg_type % 256)) (to_slice m.content))

-- What a message comes back as: its type, and its items as Decode leaves them.
abbrev pub received : Msg → Msg
received m = record { msg_type = m.msg_type; content = list (plain_items (to_slice m.content)) }

value_from-cons :
    (code beyond : List ℕ) (v : Item) (q : ℕ)
    → 1 ≤ length code
    → decode_from code beyond 0 ≡ ok (v, q)
    → value_from code beyond ≡ ok (new_value v)
unfolding value_from
value_from-cons [] beyond v q h e = absurd (omega arith)
value_from-cons (b ∷ bs) beyond v q h e = rw e refl

value_from-encode :
    (v : Item) (beyond : List ℕ)
    → Fits v
    → length (encode v) < 2 ^ 63
    → value_from (encode v) beyond ≡ ok (stored v)
value_from-encode v beyond fits k =
    let e = decode-encode v [] [] beyond fits (rw (append-nil (encode v)) k) in
    value_from-cons (encode v) beyond (plain v) _ (length-encode_pos v)
      (rw (append-nil (encode v)) at e)

-- A message that can be framed: its type is a byte, its code has fewer than 2 ^ 32 bytes and can be
-- read back.
pub record IsSendable (m : Msg) : Type 0 where
  pub msg_type : m.msg_type < 256
  pub fits : Fits (body m)
  pub short : length (encode (body m)) < 2 ^ 32

drop_head : (head more : List ℕ) → length head ≡ 8 → drop 8 (head ++ more) ≡ more
drop_head head more h = subst (λ n. drop n (head ++ more) ≡ more) h (drop-append head more)

tail_from-append : (front more : List ℕ) → tail_from (front ++ more) (length front) ≡ ok more
tail_from-append front more =
    let inside : leb (length front) (length (front ++ more)) ≡ true =
      ground (arith, length-append front more) in
    rw (inside, drop-append front more) refl

tail_from-framed :
    (head code rest : List ℕ)
    → length head ≡ 8
    → tail_from (head ++ (code ++ rest)) (8 + length code) ≡ ok rest
tail_from-framed head code rest h =
    let size : length (head ++ code) ≡ 8 + length code =
      omega (arith, length-append head code, h) in
    subst (λ n. tail_from (head ++ (code ++ rest)) n ≡ ok rest) size
      (subst (λ l. tail_from l (length (head ++ code)) ≡ ok rest) (append_assoc head code rest)
        (tail_from-append (head ++ code) rest))

-- The type and the items of a decoded message.
content_read : (m : Msg) → slice_from (stored (body m)) 1 ≡ ok (received m).content
unfolding slice_from to_slice drop_items plain new_value
content_read m = refl

type_read :
    (m : Msg) → m.msg_type < 256 → to_uint (Value.get (stored (body m)) 0) % 256 ≡ m.msg_type
type_read m h =
    let same : m.msg_type % 256 ≡ m.msg_type = omega arith in
    let first : Value.get (stored (body m)) 0 ≡ stored (uint8 (m.msg_type % 256)) =
      unfold Value.get in unfold plain in refl in
    rw (first, same) (v_kept m.msg_type h)

read_body-written :
    (m : Msg) (head rest : List ℕ)
    → IsSendable m
    → length head ≡ 8
    → read_body (length (encode (body m))) (head ++ (encode (body m) ++ rest))
      ≡ ok (record { msg = some (received m); remaining = rest; done = false; error = none })
unfolding read_body
read_body-written m head rest s h =
    let code = encode (body m) in
    let whole : ltb (length (code ++ rest)) (length code) ≡ false =
      ground (arith, length-append code rest) in
    rw (tail_from-framed head code rest h, drop_head head (code ++ rest) h, take-append code rest)
      (rw (whole, value_from-encode (body m) rest s.fits (omega (arith, s.short)))
        (rw (content_read m, type_read m s.msg_type) refl))

-- `ReadMessage` of what `WriteMessage` wrote, with anything behind it, returns the message's type,
-- its items as Decode leaves them, and the rest. The type is a byte, and the code has fewer than
-- 2 ^ 32 bytes, with payload lengths that ReadVarint reads whole.
pub read_message-written_message :
    (m : Msg) (rest : List ℕ)
    → IsSendable m
    → read_message (written_message m ++ rest)
      ≡ ok (record { msg = some (received m); remaining = rest; done = false; error = none })
unfolding written_message
read_message-written_message m rest s =
    let code = encode (body m) in
    let fits : length code % 2 ^ 32 ≡ length code = omega (arith, s.short) in
    let head : length (magic_token ++ number_to_bytes32 (length code)) ≡ 8 =
      unfold number_to_bytes32 in refl in
    rw fits (
      ap read_message (unfold number_to_bytes32 in refl)
      ∙ read_message-head (length code) (code ++ rest) s.short
          (omega (arith, length-append code rest, length-encode_pos (body m)))
      ∙ read_body-written m (magic_token ++ number_to_bytes32 (length code)) rest s head)

-- What several messages are sent as.
abbrev pub sent : List Msg → List ℕ
sent [] = []
sent (m ∷ ms) = written_message m ++ sent ms

read_loop-suc :
    (fuel : ℕ) (data' : List ℕ) (msgs : List Msg) (r : Read)
    → read_message data' ≡ ok r
    → read_loop (suc fuel) data' msgs
      ≡ (if r.done then ok (msgs, r.error) else read_loop fuel r.remaining (with_msg msgs r.msg))
unfolding read_loop
read_loop-suc fuel data' msgs r e = rw (e, read_loop) refl

read_loop-sent :
    (ms msgs : List Msg) (fuel : ℕ)
    → All IsSendable ms
    → length ms < fuel
    → read_loop fuel (sent ms) msgs ≡ ok (msgs ++ map received ms, none)
unfolding read_loop
read_loop-sent ms msgs zero all h = absurd (omega arith)
read_loop-sent [] msgs (suc fuel) all h = unfold read_message in rw append-nil refl
read_loop-sent (m ∷ ms) msgs (suc fuel) all h =
    read_loop-suc fuel (sent (m ∷ ms)) msgs _ (read_message-written_message m (sent ms) all.0)
    ∙ read_loop-sent ms (msgs ++ received m ∷ []) fuel all.1 (omega arith)
    ∙ ap (λ l. ok (l, none)) (append_assoc msgs (received m ∷ []) (map received ms))

length-sent : (ms : List Msg) → length ms ≤ length (sent ms)
unfolding written_message
length-sent [] = omega arith
length-sent (m ∷ ms) = omega (arith, length-sent ms, length-append (written_message m) (sent ms))

-- `ReadMessages` of any messages that were written one behind the other returns one message for each,
-- in their order, and no error, where each type is a byte, and each code has fewer than 2 ^ 32 bytes,
-- with payload lengths that ReadVarint reads whole. A message has the type that was written, and the
-- content as `plain` leaves it: numbers have lost their signs and types, and a byte string of one byte
-- has become a number.
pub read_messages-sent :
    (ms : List Msg) → All IsSendable ms → read_messages (sent ms) ≡ ok (map received ms, none)
unfolding read_messages
read_messages-sent ms all =
    read_loop-sent ms [] (length (sent ms) + 1) all (omega (arith, length-sent ms))
