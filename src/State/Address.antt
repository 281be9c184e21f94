-- ===== src/State/Address.antt =====
-- ethchain/address.go: an address with its amount and nonce, and the store of addresses. A state of
-- the store holds its account by a pointer; here it holds the account.
use goeth_self_training.Prelude.{ℕ, lookup, Option, some, List, ◌∷◌}
use goeth_self_training.Prelude.Int.{ℤ, ◌+ℤ◌}
use goeth_self_training.Prelude.Result.{Result, ok, ◌>>=◌, or_panic}
use goeth_self_training.Item.{big, uint64, list, item, no_items}
use goeth_self_training.Rlp.{encode}
use goeth_self_training.Value
use goeth_self_training.Value.{new_value_from_bytes, to_big, to_uint}

pub record Address : Type 0 where
  pub amount : Option ℤ
  pub nonce : ℕ

-- NewAddress
abbrev pub new_address : Option ℤ → Address
new_address amount = record { amount = amount; nonce = 0 }

-- `AddFee`
unfoldable pub add_fee : ℤ → Address → Result Address
add_fee fee a = do amount ← or_panic a.amount; ok (record a { amount = some (amount +ℤ fee) })

-- `RlpEncode` and `RlpDecode`, which is NewAddressFromData.
unfoldable pub address_encode : Address → List ℕ
address_encode a = encode (list (item (big a.amount) (item (uint64 a.nonce) no_items)))

unfoldable pub address_decode : List ℕ → Result Address
unfolding Value.get to_big to_uint
address_decode data' = do
  v ← new_value_from_bytes data'
  ok (record { amount = to_big (Value.get v 0); nonce = to_uint (Value.get v 1) })

pub record AddressState : Type 0 where
  pub nonce : ℕ
  pub account : Address

abbrev pub AddrStateStore : Type 0
AddrStateStore = List (List ℕ × AddressState)

-- `Add` and `Get`
unfoldable pub add_address : List ℕ → Address → AddrStateStore → AddressState × AddrStateStore
add_address addr account s =
    let state : AddressState = record { nonce = account.nonce; account = account } in
    (state, (addr, state) ∷ s)

unfoldable pub get_address : List ℕ → AddrStateStore → Option AddressState
get_address addr s = lookup addr s
