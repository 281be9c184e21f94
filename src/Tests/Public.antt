-- ===== src/Tests/Public.antt =====
-- The end of `createTx` (ethpub/pub.go) at concrete inputs.
use goeth_self_training.Prelude.{◌+◌, ◌≡◌, refl, arith, All, inl, some, Option, [], ◌∷◌, replicate}
use goeth_self_training.Prelude.Int.{pos}
use goeth_self_training.Prelude.Result.{Result, ok}
use goeth_self_training.Bytes.{IsByte, u64}
use goeth_self_training.Item.{str}
use goeth_self_training.Trie.{by_function}
use goeth_self_training.State.{StateObject, World, new_account, root_of, get_state_object}
use goeth_self_training.State.Objects.{IsStorable}
use goeth_self_training.Public.{Submitted, submit_tx, IsCounted, submit_tx-IsCounted}
use goeth_self_training.Tests.Accounts.{
  alice, alice-bytes, alices, bob, payment, sevens, hashes_short, empty_root-Fits, empty_root_short,
  IsShort-amount,
}

abbrev found : Result (Option StateObject × World by_function)
found = get_state_object by_function alice alices

abbrev account_of :
    Result (Option StateObject × World by_function) → StateObject × World by_function
account_of (ok (some c, w)) = (c, w)
account_of r = (new_account alice (pos 0), alices)

abbrev account : StateObject
account = (account_of found).0

abbrev world : World by_function
world = (account_of found).1

found_eq : get_state_object by_function alice alices ≡ ok (some account, world)
unfolding get_state_object goeth_self_training.Rlp.encode goeth_self_training.State.object_item
    goeth_self_training.Rlp.slice_header goeth_self_training.Rlp.encode_big
    goeth_self_training.Bytes.big_bytes goeth_self_training.Value.new_value_from_bytes
    goeth_self_training.Rlp.decode_from goeth_self_training.Value.to_big
    goeth_self_training.Value.get goeth_self_training.Bytes.big_d
found_eq = refl

abbrev submitted : Result (Submitted by_function)
submitted =
    submit_tx by_function sevens (λ id key. replicate 65 1) alice (5 ∷ []) (payment bob 0) alices []

abbrev submitted_of : Result (Submitted by_function) → Submitted by_function
submitted_of (ok s) = s
submitted_of r = record { tx = payment bob 0; state = alices; queued = [] }

submitted_eq : submitted ≡ ok (submitted_of submitted)
unfolding submit_tx get_state_object goeth_self_training.Rlp.encode
    goeth_self_training.State.object_item goeth_self_training.Rlp.slice_header
    goeth_self_training.Rlp.encode_big goeth_self_training.Bytes.big_bytes
    goeth_self_training.Value.new_value_from_bytes goeth_self_training.Rlp.decode_from
    goeth_self_training.Value.to_big goeth_self_training.Value.get goeth_self_training.Bytes.big_d
submitted_eq = refl

account-IsStorable : IsStorable sevens (record account { nonce = 4 }) 1000 (str [])
unfolding get_state_object goeth_self_training.Rlp.encode goeth_self_training.State.object_item
    goeth_self_training.Rlp.slice_header goeth_self_training.Rlp.encode_big
    goeth_self_training.Bytes.big_bytes goeth_self_training.Value.new_value_from_bytes
    goeth_self_training.Rlp.decode_from goeth_self_training.Value.to_big
    goeth_self_training.Value.get goeth_self_training.Bytes.big_d
account-IsStorable = record {
  amount_eq = refl;
  amount_short = IsShort-amount 1000 (omega arith);
  nonce_small = omega arith;
  root_fits = empty_root-Fits;
  root_short = empty_root_short;
  hash_short = hashes_short (account.script);
}

its_root : root_of by_function world.heap account.state ≡ ok (str [])
unfolding root_of get_state_object goeth_self_training.Rlp.encode
    goeth_self_training.State.object_item goeth_self_training.Rlp.slice_header
    goeth_self_training.Rlp.encode_big goeth_self_training.Bytes.big_bytes
    goeth_self_training.Value.new_value_from_bytes goeth_self_training.Rlp.decode_from
    goeth_self_training.Value.to_big goeth_self_training.Value.get goeth_self_training.Bytes.big_d
its_root = refl

next_nonce : u64 (account.nonce + 1) ≡ 4
unfolding get_state_object goeth_self_training.Rlp.encode goeth_self_training.State.object_item
    goeth_self_training.Rlp.slice_header goeth_self_training.Rlp.encode_big
    goeth_self_training.Bytes.big_bytes goeth_self_training.Value.new_value_from_bytes
    goeth_self_training.Rlp.decode_from goeth_self_training.Value.to_big
    goeth_self_training.Value.get goeth_self_training.Bytes.big_d
next_nonce = refl

own-bytes : All IsByte account.address
unfolding get_state_object goeth_self_training.Rlp.encode goeth_self_training.State.object_item
    goeth_self_training.Rlp.slice_header goeth_self_training.Rlp.encode_big
    goeth_self_training.Bytes.big_bytes goeth_self_training.Value.new_value_from_bytes
    goeth_self_training.Rlp.decode_from goeth_self_training.Value.to_big
    goeth_self_training.Value.get
own-bytes = alice-bytes

submit_tx-IsCounted_example :
    IsCounted by_function sevens
      (λ id key. replicate 65 1)
      account
      world
      []
      (submitted_of submitted)
submit_tx-IsCounted_example =
    submit_tx-IsCounted by_function sevens (λ id key. replicate 65 1) alice (5 ∷ []) (payment bob 0)
      alices world [] (submitted_of submitted) account 1000 (str []) found_eq its_root
      (rw next_nonce account-IsStorable) (rw next_nonce (inl (omega arith))) submitted_eq tt tt
      own-bytes
