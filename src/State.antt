-- ===== src/State.antt =====
-- ethchain/state.go and ethchain/state_object.go: accounts and contracts in the state's trie.
-- A `World` is a State with what its objects point to: `heap` holds the tries of the nested states
-- (`StateObject.state` and `State.states` point into it, so that both see one storage), `db` is
-- the database of ethutil.Config. Of the manifest the object changes are kept, newest first.
pub mod Objects
pub mod Fetch
pub mod Contract
pub mod Address
pub mod Nested
use goeth_self_training.Prelude.{
  lookup, ℕ, zero, suc, ◌+◌, Bool, true, false, Option, some, none, List, [], ◌∷◌, ◌++◌, list_eq,
  if◌then◌else◌, length, get_elem?,
}
use goeth_self_training.Prelude.Int.{ℤ, pos, negsuc, ◌+ℤ◌, ◌-ℤ◌, ◌*ℤ◌, ltb_ℤ}
use goeth_self_training.Prelude.Result.{Result, ok, panic, out_of_fuel, ◌>>=◌, or_panic}
use goeth_self_training.Item.{Item, Items, big, uint64, bytes, str, list, item, no_items}
use goeth_self_training.Rlp.{encode}
use goeth_self_training.Value
use goeth_self_training.Value.{new_value_from_bytes, to_big, to_uint, to_bytes}
use goeth_self_training.Trie.{Trie}

pub record StateObject : Type 0 where
  pub address : List ℕ
  pub amount : ℤ
  pub script_hash : List ℕ
  pub nonce : ℕ
  pub state : Option ℕ
  pub script : List ℕ
  pub init_script : List ℕ

-- NewAccount
abbrev pub new_account : List ℕ → ℤ → StateObject
new_account addr amount = record {
  address = addr;
  amount = amount;
  script_hash = [];
  nonce = 0;
  state = none;
  script = [];
  init_script = [];
}

-- `AddAmount` and `SubAmount`; amounts may fall below 0.
unfoldable pub add_amount : ℤ → StateObject → StateObject
add_amount amount c = record c { amount = c.amount +ℤ amount }

unfoldable pub sub_amount : ℤ → StateObject → StateObject
sub_amount amount c = record c { amount = c.amount -ℤ amount }

-- `ConvertGas`: none is its error.
unfoldable pub convert_gas : ℤ → ℤ → StateObject → Option StateObject
unfolding sub_amount
convert_gas gas price c =
    let total = gas *ℤ price in if ltb_ℤ c.amount total then none else some (sub_amount total c)

-- `ReturnGas` of an object: the gas is paid back at its price.
unfoldable pub return_gas : ℤ → ℤ → StateObject → StateObject
unfolding add_amount
return_gas gas price c = add_amount (gas *ℤ price) c

module _ (tries : Trie) where
  open tries use {T, get, update, root, at_root}

  pub record World : Type 0 where
    pub trie : T
    pub states : List (List ℕ × ℕ)
    pub heap : List T
    pub db : List ℕ → List ℕ
    pub changed : List (List ℕ × StateObject)

abbrev cached : Option ℕ → StateObject → StateObject
cached none c = c
cached (some r) c = record c { state = some r }

-- The nested state is cached unless the address has one.
abbrev register : StateObject → List (List ℕ × ℕ) → List (List ℕ × ℕ)
register c states = elim c.state [
  | none ↦ states
  | some r ↦ elim (lookup c.address states) [ none ↦ (c.address, r) ∷ states | some _ ↦ states ]
]

-- What `RlpEncode` of an object encodes.
unfoldable pub object_item : (List ℕ → List ℕ) → StateObject → Item → Item
object_item sha3 c r = list (
    item (big (some c.amount))
      (item (uint64 c.nonce) (item r (item (bytes (sha3 c.script)) no_items))))

module _ (tries : Trie) where
  open tries use {T, get, update, root, at_root}

  -- The root item of `RlpEncode`: the nested trie's, or the empty string.
  unfoldable pub root_of : List T → Option ℕ → Result Item
  root_of heap none = ok (str [])
  root_of heap (some r) = or_panic (get_elem? heap r) >>= λ t. ok (root t)

  -- The object that the item `v` holds, with a new nested state at the root that it names.
  abbrev pub loaded : List ℕ → ℤ → Item → World tries → StateObject × World tries
  loaded addr amount v w = (
    record {
      address = addr;
      amount = amount;
      script_hash = to_bytes (Value.get v 3);
      nonce = to_uint (Value.get v 1);
      state = some (length w.heap);
      script = w.db (to_bytes (Value.get v 3));
      init_script = [];
    },
    record w { heap = w.heap ++ at_root w.db (Value.get v 2) ∷ [] },
  )

  -- `NewStateObjectFromBytes`
  unfoldable pub from_bytes : List ℕ → List ℕ → World tries → Result (StateObject × World tries)
  from_bytes addr bytes' w = do
    v ← new_value_from_bytes bytes'
    amount ← or_panic (to_big (Value.get v 0))
    ok (loaded addr amount v w)

  abbrev pub from_data : List ℕ → List ℕ → World tries → Result (StateObject × World tries)
  from_data addr [] w = ok (new_account addr (pos 0), w)
  from_data addr (b ∷ bs) w = from_bytes addr (b ∷ bs) w

  -- `GetAccount`: the object under an address, or a new account of amount 0.
  unfoldable pub get_account : List ℕ → World tries → Result (StateObject × World tries)
  unfolding from_bytes
  get_account addr w = from_data addr (get w.trie addr) w

  abbrev object_data : List ℕ → List ℕ → World tries → Result (Option StateObject × World tries)
  object_data addr [] w = ok (none, w)
  object_data addr (b ∷ bs) w =
      from_bytes addr (b ∷ bs) w >>= λ (c, w'). ok (some (cached (lookup addr w.states) c), w')

  -- `GetStateObject`: none where there is no object; its nested state is the cached one.
  unfoldable pub get_state_object : List ℕ → World tries → Result (Option StateObject × World tries)
  unfolding from_bytes
  get_state_object addr w = object_data addr (get w.trie addr) w

module _ (tries : Trie) (sha3 : List ℕ → List ℕ) where
  open tries use {update}

  -- The world after `UpdateStateObject` of an object whose root is `r`: the script goes to the
  -- database under its hash, the object to the trie.
  unfoldable pub updated : StateObject → Item → World tries → World tries
  unfolding object_item
  updated c r w = record w {
    states = register c w.states;
    db = λ k. if list_eq (sha3 c.script) k then c.script else w.db k;
    trie = update w.trie c.address (encode (object_item sha3 c r));
    changed = (c.address, c) ∷ w.changed;
  }

  -- `UpdateStateObject`
  unfoldable pub update_state_object : StateObject → World tries → Result (World tries)
  unfolding root_of updated
  update_state_object c w = do r ← root_of tries w.heap c.state; ok (updated c r w)
