-- ===== src/Tests/Paying.antt =====
-- A payment in the nodes of a trie (ethchain/transaction_pool.go, ethutil/trie.go) at concrete inputs.
use goeth_self_training.Prelude.{
  ℕ, zero, suc, ◌+◌, ◌-◌, ◌^◌, ◌≡◌, ◌≤◌, refl, arith, true, All, List, [], length, replicate, inl,
}
use goeth_self_training.Prelude.Int.{pos, ◌+ℤ◌, ◌-ℤ◌, ◌*ℤ◌}
use goeth_self_training.Prelude.Result.{Result, ok}
use goeth_self_training.Bytes.{IsByte, be_bytes, big_bytes}
use goeth_self_training.Item.{Item, str, bytes, nil}
use goeth_self_training.Rlp.Plain.{Fits}
use goeth_self_training.Compact.{compact_encode, compact_decode}
use goeth_self_training.Rlp.{encode, encode_bytes, encode_big, slice_header, decode_from}
use goeth_self_training.Rlp.RoundTrip.{length-encode_pos}
use goeth_self_training.Value
use goeth_self_training.Value.{new_value_from_bytes, to_big}
use goeth_self_training.Trie.Ops.{RawTrie, new_trie, get_key, update_key}
use goeth_self_training.Trie.Refines.{start}
use goeth_self_training.Trie.Instance.{trie_or, IsSound}
use goeth_self_training.State.{
  add_amount, sub_amount, StateObject, World, new_account, object_item, updated, get_account,
  update_state_object,
}
use goeth_self_training.State.Objects.{view}
use goeth_self_training.Transaction.{sender, new_transaction_message}
use goeth_self_training.TxPool.Process.{process_transaction}
use goeth_self_training.TxPool.Transfer.{
  GoodAfter, Payable, Paid, payer, payee, process_transaction_pays,
}
use goeth_self_training.Tests.Accounts.{one_key, bob, bob-bytes, payment, IsShort-amount}
use goeth_self_training.Tests.Writing.{
  mixed, length-mixed, nothing, nodes, apart, empty_trie, Written, one_more, Written-IsSound,
  yielded,
}

-- The address that one_key and the hash give, with an account of 1000 and the nonce 3.
abbrev pub alice : List ℕ
alice = replicate 20 0

abbrev pub alices_code : List ℕ
alices_code =
    encode (object_item mixed (record (new_account alice (pos 1000)) { nonce = 3 }) (str []))

abbrev pub alices_trie : RawTrie
alices_trie = trie_or empty_trie (update_key mixed nothing alice alices_code empty_trie)

abbrev pub alices : World nodes
alices = record { trie = alices_trie; states = []; heap = []; db = λ k. []; changed = [] }

pub sees_alice : view nodes alice alices ≡ ok (pos 1000, 3)
unfolding view get_account update_key get_key new_trie compact_encode compact_decode encode
    slice_header encode_bytes encode_big be_bytes big_bytes object_item new_value_from_bytes
    decode_from to_big Value.get goeth_self_training.Bytes.big_d
sees_alice = refl

signed : sender mixed one_key (payment bob 3) ≡ ok alice
unfolding sender new_transaction_message encode
signed = refl

-- The trie with alice's account.
alices_eq : update_key mixed nothing alice alices_code empty_trie ≡ ok alices_trie
unfolding view get_account sender new_transaction_message update_key get_key new_trie compact_encode
    compact_decode encode slice_header encode_bytes encode_big be_bytes big_bytes object_item
    new_value_from_bytes decode_from to_big Value.get goeth_self_training.Bytes.big_d
    update_state_object updated ◌+ℤ◌ ◌-ℤ◌ ◌*ℤ◌ add_amount sub_amount
alices_eq = refl

alices_apart : apart alices_trie.cache.nodes ≡ true
unfolding view get_account sender new_transaction_message update_key get_key new_trie compact_encode
    compact_decode encode slice_header encode_bytes encode_big be_bytes big_bytes object_item
    new_value_from_bytes decode_from to_big Value.get goeth_self_training.Bytes.big_d
    update_state_object updated ◌+ℤ◌ ◌-ℤ◌ ◌*ℤ◌ add_amount sub_amount
alices_apart = refl

zeros-bytes : (n : ℕ) → All IsByte (replicate n 0)
zeros-bytes zero = tt
zeros-bytes (suc n) = (omega arith, zeros-bytes n)

pub alice-bytes : All IsByte alice
alice-bytes = zeros-bytes 20

pub alices-Written : Written alices_trie
alices-Written =
    one_more empty_trie alices_trie alice alices_code ([], start) alice-bytes
      (length-encode_pos
        (object_item mixed (record (new_account alice (pos 1000)) { nonce = 3 }) (str [])))
      alices_eq alices_apart

abbrev pub pair_of : Result (StateObject × World nodes) → StateObject × World nodes
pair_of (ok p) = p
pair_of r = (new_account alice (pos 0), alices)

abbrev pub world_of : Result (World nodes) → World nodes
world_of (ok w) = w
world_of r = alices

-- The two accounts as they are found, and the state after each of the two updates.
abbrev pub sender' : StateObject × World nodes
sender' = pair_of (get_account nodes alice alices)

abbrev receiver : StateObject × World nodes
receiver = pair_of (get_account nodes bob sender'.1)

abbrev once : World nodes
once =
    world_of
      (update_state_object nodes mixed (payee nodes mixed (payment bob 3) receiver.0) receiver.1)

abbrev twice : World nodes
twice =
    world_of (update_state_object nodes mixed (payer nodes mixed (payment bob 3) sender'.0) once)

abbrev bobs_code : List ℕ
bobs_code = encode (object_item mixed (payee nodes mixed (payment bob 3) receiver.0) (str []))

abbrev left_code : List ℕ
left_code = encode (object_item mixed (payer nodes mixed (payment bob 3) sender'.0) (str []))

pub sender_eq : get_account nodes alice alices ≡ ok sender'
unfolding view get_account sender new_transaction_message update_key get_key new_trie compact_encode
    compact_decode encode slice_header encode_bytes encode_big be_bytes big_bytes object_item
    new_value_from_bytes decode_from to_big Value.get goeth_self_training.Bytes.big_d
    update_state_object updated ◌+ℤ◌ ◌-ℤ◌ ◌*ℤ◌ add_amount sub_amount
sender_eq = refl

receiver_eq : get_account nodes bob sender'.1 ≡ ok receiver
unfolding view get_account sender new_transaction_message update_key get_key new_trie compact_encode
    compact_decode encode slice_header encode_bytes encode_big be_bytes big_bytes object_item
    new_value_from_bytes decode_from to_big Value.get goeth_self_training.Bytes.big_d
    update_state_object updated ◌+ℤ◌ ◌-ℤ◌ ◌*ℤ◌ add_amount sub_amount
receiver_eq = refl

once_eq :
    update_state_object nodes mixed (payee nodes mixed (payment bob 3) receiver.0) receiver.1
    ≡ ok once
unfolding view get_account sender new_transaction_message update_key get_key new_trie compact_encode
    compact_decode encode slice_header encode_bytes encode_big be_bytes big_bytes object_item
    new_value_from_bytes decode_from to_big Value.get goeth_self_training.Bytes.big_d
    update_state_object updated ◌+ℤ◌ ◌-ℤ◌ ◌*ℤ◌ add_amount sub_amount
once_eq = refl

twice_eq :
    update_state_object nodes mixed (payer nodes mixed (payment bob 3) sender'.0) once ≡ ok twice
unfolding view get_account sender new_transaction_message update_key get_key new_trie compact_encode
    compact_decode encode slice_header encode_bytes encode_big be_bytes big_bytes object_item
    new_value_from_bytes decode_from to_big Value.get goeth_self_training.Bytes.big_d
    update_state_object updated ◌+ℤ◌ ◌-ℤ◌ ◌*ℤ◌ add_amount sub_amount
twice_eq = refl

once_trie : update_key mixed nothing bob bobs_code alices_trie ≡ ok once.trie
unfolding view get_account sender new_transaction_message update_key get_key new_trie compact_encode
    compact_decode encode slice_header encode_bytes encode_big be_bytes big_bytes object_item
    new_value_from_bytes decode_from to_big Value.get goeth_self_training.Bytes.big_d
    update_state_object updated ◌+ℤ◌ ◌-ℤ◌ ◌*ℤ◌ add_amount sub_amount
once_trie = refl

twice_trie : update_key mixed nothing alice left_code once.trie ≡ ok twice.trie
unfolding view get_account sender new_transaction_message update_key get_key new_trie compact_encode
    compact_decode encode slice_header encode_bytes encode_big be_bytes big_bytes object_item
    new_value_from_bytes decode_from to_big Value.get goeth_self_training.Bytes.big_d
    update_state_object updated ◌+ℤ◌ ◌-ℤ◌ ◌*ℤ◌ add_amount sub_amount
twice_trie = refl

once_apart : apart once.trie.cache.nodes ≡ true
unfolding view get_account sender new_transaction_message update_key get_key new_trie compact_encode
    compact_decode encode slice_header encode_bytes encode_big be_bytes big_bytes object_item
    new_value_from_bytes decode_from to_big Value.get goeth_self_training.Bytes.big_d
    update_state_object updated ◌+ℤ◌ ◌-ℤ◌ ◌*ℤ◌ add_amount sub_amount
once_apart = refl

twice_apart : apart twice.trie.cache.nodes ≡ true
unfolding view get_account sender new_transaction_message update_key get_key new_trie compact_encode
    compact_decode encode slice_header encode_bytes encode_big be_bytes big_bytes object_item
    new_value_from_bytes decode_from to_big Value.get goeth_self_training.Bytes.big_d
    update_state_object updated ◌+ℤ◌ ◌-ℤ◌ ◌*ℤ◌ add_amount sub_amount
twice_apart = refl

once-Written : Written once.trie
once-Written =
    one_more alices_trie once.trie bob bobs_code alices-Written bob-bytes
      (length-encode_pos
        (object_item mixed (payee nodes mixed (payment bob 3) receiver.0) (str [])))
      once_trie once_apart

twice-Written : Written twice.trie
twice-Written =
    one_more once.trie twice.trie alice left_code once-Written alice-bytes
      (length-encode_pos (object_item mixed (payer nodes mixed (payment bob 3) sender'.0) (str [])))
      twice_trie twice_apart

good_once' :
    (p q : StateObject × World nodes)
    → get_account nodes alice alices ≡ ok p
    → get_account nodes bob p.1 ≡ ok q
    → GoodAfter nodes mixed (payee nodes mixed (payment bob 3) q.0) q.1
good_once' p q e =
    yielded
      (λ p.
        get_account nodes bob p.1 ≡ ok q
        → GoodAfter nodes mixed (payee nodes mixed (payment bob 3) q.0) q.1)
      (get_account nodes alice alices) sender' p sender_eq e
      (λ f.
        yielded (λ q. GoodAfter nodes mixed (payee nodes mixed (payment bob 3) q.0) q.1)
          (get_account nodes bob sender'.1) receiver q receiver_eq f
          (λ w' g.
            yielded (λ w. IsSound w.trie) _ once w' once_eq g
              (Written-IsSound once.trie once-Written)))

good_twice' :
    (p q : StateObject × World nodes) (w₃ : World nodes)
    → get_account nodes alice alices ≡ ok p
    → get_account nodes bob p.1 ≡ ok q
    → update_state_object nodes mixed (payee nodes mixed (payment bob 3) q.0) q.1 ≡ ok w₃
    → GoodAfter nodes mixed (payer nodes mixed (payment bob 3) p.0) w₃
good_twice' p q w₃ e =
    yielded
      (λ p.
        get_account nodes bob p.1 ≡ ok q
        → update_state_object nodes mixed (payee nodes mixed (payment bob 3) q.0) q.1 ≡ ok w₃
        → GoodAfter nodes mixed (payer nodes mixed (payment bob 3) p.0) w₃)
      (get_account nodes alice alices) sender' p sender_eq e
      (λ f.
        yielded
          (λ q.
            update_state_object nodes mixed (payee nodes mixed (payment bob 3) q.0) q.1 ≡ ok w₃
            → GoodAfter nodes mixed (payer nodes mixed (payment bob 3) sender'.0) w₃)
          (get_account nodes bob sender'.1) receiver q receiver_eq f
          (λ g.
            yielded (λ w. GoodAfter nodes mixed (payer nodes mixed (payment bob 3) sender'.0) w) _
              once w₃ once_eq g
              (λ w' h.
                yielded (λ w. IsSound w.trie) _ twice w' twice_eq h
                  (Written-IsSound twice.trie twice-Written))))

Fits-bytes : Fits (bytes [])
unfolding Fits
Fits-bytes = inl (omega arith)

Fits-nil : Fits nil
unfolding Fits
Fits-nil = tt

abbrev pub item_of : Result Item → Item
item_of (ok v) = v
item_of r = str []

abbrev pub IsShortAt : Item → Type 0
IsShortAt v = Fits (Value.get v 2) × (length (encode (Value.get v 2)) ≤ 2 ^ 10)

abbrev pub read_of : List ℕ → Result Item
read_of addr = new_value_from_bytes (nodes.get alices_trie addr)

pub alices_item : read_of alice ≡ ok (item_of (read_of alice))
unfolding view get_account sender new_transaction_message update_key get_key new_trie compact_encode
    compact_decode encode slice_header encode_bytes encode_big be_bytes big_bytes object_item
    new_value_from_bytes decode_from to_big Value.get goeth_self_training.Bytes.big_d
    update_state_object updated ◌+ℤ◌ ◌-ℤ◌ ◌*ℤ◌ add_amount sub_amount
alices_item = refl

pub alices_short : IsShortAt (item_of (read_of alice))
unfolding view get_account sender new_transaction_message update_key get_key new_trie compact_encode
    compact_decode encode slice_header encode_bytes encode_big be_bytes big_bytes object_item
    new_value_from_bytes decode_from to_big Value.get goeth_self_training.Bytes.big_d
    update_state_object updated ◌+ℤ◌ ◌-ℤ◌ ◌*ℤ◌ add_amount sub_amount
alices_short = (Fits-bytes, omega arith)

bobs_item : read_of bob ≡ ok (item_of (read_of bob))
unfolding view get_account sender new_transaction_message update_key get_key new_trie compact_encode
    compact_decode encode slice_header encode_bytes encode_big be_bytes big_bytes object_item
    new_value_from_bytes decode_from to_big Value.get goeth_self_training.Bytes.big_d
    update_state_object updated ◌+ℤ◌ ◌-ℤ◌ ◌*ℤ◌ add_amount sub_amount
bobs_item = refl

bobs_short : IsShortAt (item_of (read_of bob))
unfolding view get_account sender new_transaction_message update_key get_key new_trie compact_encode
    compact_decode encode slice_header encode_bytes encode_big be_bytes big_bytes object_item
    new_value_from_bytes decode_from to_big Value.get goeth_self_training.Bytes.big_d
    update_state_object updated ◌+ℤ◌ ◌-ℤ◌ ◌*ℤ◌ add_amount sub_amount
bobs_short = (Fits-nil, omega arith)

sees_bob : view nodes bob alices ≡ ok (pos 0, 0)
unfolding view get_account sender new_transaction_message update_key get_key new_trie compact_encode
    compact_decode encode slice_header encode_bytes encode_big be_bytes big_bytes object_item
    new_value_from_bytes decode_from to_big Value.get goeth_self_training.Bytes.big_d
    update_state_object updated ◌+ℤ◌ ◌-ℤ◌ ◌*ℤ◌ add_amount sub_amount
sees_bob = refl

paying : Payable nodes mixed one_key (payment bob 3) alices
unfolding new_transaction_message new_trie ◌+ℤ◌ ◌*ℤ◌
paying = record {
  from = alice;
  signed = signed;
  other = refl;
  have = 1000;
  sees_sender = sees_alice;
  got = 0;
  got_nonce = 0;
  sees_receiver = sees_bob;
  value' = 100;
  value_eq = refl;
  total = 120;
  total_eq = refl;
  enough = omega arith;
  short_sender = IsShort-amount 880 (omega arith);
  short_receiver = IsShort-amount 100 (omega arith);
  nonce_small = omega arith;
  got_nonce_small = omega arith;
  from_bytes = alice-bytes;
  to_bytes = bob-bytes;
  sender_root = λ v e. yielded IsShortAt (read_of alice) _ v alices_item e alices_short;
  receiver_root = λ v e. yielded IsShortAt (read_of bob) _ v bobs_item e bobs_short;
  good = Written-IsSound alices_trie alices-Written;
  good_once = λ c d w₁ w₂ e f. good_once' (c, w₁) (d, w₂) e f;
  good_twice = λ c d w₁ w₂ w₃ e f g. good_twice' (c, w₁) (d, w₂) w₃ e f g;
}

pub mixed_short : (t : List ℕ) → length (mixed t) ≤ 2 ^ 10
mixed_short t = omega (arith, length-mixed t)

process_transaction_pays_example :
    Paid nodes mixed
      (payment bob 3)
      paying.from
      (paying.have - paying.total)
      (paying.got + paying.value')
      paying.got_nonce
      alices
      (process_transaction nodes mixed one_key (payment bob 3) alices)
process_transaction_pays_example =
    process_transaction_pays nodes mixed mixed_short one_key (payment bob 3) alices paying
