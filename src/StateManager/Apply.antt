-- ===== src/StateManager/Apply.antt =====
-- `MakeStateObject`, `EvalScript`, `ApplyTransaction` and `ApplyTransactions` of
-- ethchain/state_manager.go: the transactions of a block on a state. `Node` holds what stands for
-- code outside of the repository and for Go's slices, and the chain; `fuel` bounds the rounds of
-- each loop of the machine. A block with no difficulty is a panic where a script is run on it.
pub mod Receipts
pub mod Nonces
pub mod Charges
use goeth_self_training.Prelude.{
  ℕ, zero, suc, Bool, true, false, Option, some, none, List, [], ◌∷◌, ◌++◌, if◌then◌else◌,
}
use goeth_self_training.Prelude.Int.{ℤ, pos, ◌+ℤ◌}
use goeth_self_training.Prelude.Result.{Result, ok, panic, out_of_fuel, ◌>>=◌, or_panic}
use goeth_self_training.Item.{Item, bytes}
use goeth_self_training.Rlp.{to_int64}
use goeth_self_training.Stack.{Stack}
use goeth_self_training.Stack.Memory
use goeth_self_training.Trie.{Trie}
use goeth_self_training.State.{
  StateObject, World, convert_gas, return_gas, get_account, get_state_object, update_state_object,
}
use goeth_self_training.State.Contract.{make_contract}
use goeth_self_training.State.Nested.{root_item}
use goeth_self_training.Transaction.{Transaction, Receipt, sender, creation_address, is_contract}
use goeth_self_training.TxPool.Process.{TxError, nonce_err, process_transaction}
use goeth_self_training.Vm.Machine.{Env}
use goeth_self_training.Vm.Exec.{Fault}
use goeth_self_training.Vm.Calls.{Scene, Ended, new_closure, refunds, call_closure}
use goeth_self_training.Blocks.{Block, block_hash}
use goeth_self_training.Chain.Store.{BlockChain, block_info_by_hash}

-- What is given from outside, with the slices of Go: the functions are those of `Vm.Machine.Env`,
-- `spare` is what lies behind a script, `recover` is secp256k1.RecoverPubkey.
pub record Given : Type 0 where
  pub sha3 : List ℕ → List ℕ
  pub recover : List ℕ → List ℕ → List ℕ
  pub spare : List ℕ → List ℕ
  pub grow : ℕ → ℕ → ℕ
  pub stale : Stack → Option (ℤ × ℤ)
  pub inverse : ℤ → Option ℕ

-- The errors of `EvalScript`.
pub data EvalError : Type 0 where
  insufficient_amount : EvalError
  script_fault : Fault → EvalError

-- The errors of `ApplyTransaction`: the first alone is what the pool returned, the others are made by
-- fmt.Errorf or come from `EvalScript`.
pub data ApplyError : Type 0 where
  tx_error : TxError → ApplyError
  creation_error : TxError → ApplyError
  init_error : EvalError → ApplyError
  no_contract : ApplyError
  script_error : EvalError → ApplyError

-- `IsNonceErr` of ethchain/error.go.
unfoldable pub is_nonce_err : ApplyError → Bool
is_nonce_err (tx_error (nonce_err is exp)) = true
is_nonce_err _ = false

-- RuntimeVars, in the form that the machine takes; the fields of the closure are still empty.
unfoldable pub runtime_vars : Given → BlockChain → Block → Transaction → List ℕ → Result Env
unfolding block_info_by_hash block_hash
runtime_vars given bc b tx origin = do
  info ← block_info_by_hash (block_hash given.sha3 b) bc
  diff ← or_panic b.head.difficulty
  ok (record {
    script = [];
    spare = [];
    args = [];
    price = tx.gas_price;
    address = [];
    caller = [];
    balance = pos 0;
    origin = origin;
    call_value = tx.value;
    prev_hash = b.head.prev_hash;
    coinbase = b.head.coinbase;
    time = b.head.time;
    number = info.number;
    diff = diff;
    grow = given.grow;
    stale = given.stale;
    inverse = given.inverse;
    sha3 = given.sha3;
  })

-- ReturnGas of an account, once for each refund.
unfoldable pub refunded : ℤ → List ℤ → StateObject → StateObject
unfolding return_gas
refunded price [] c = c
refunded price (gas ∷ more) c = refunded price more (return_gas gas price c)

-- `state.Root().([]byte)`
unfoldable pub root_hash : Item → Result (List ℕ)
root_hash (bytes s) = ok s
root_hash v = panic

module _ (tries : Trie) where
  -- What `EvalScript` returns; the gas is nil where the account could not pay.
  pub record Evaluated : Type 0 where
    pub ret : List ℕ
    pub gas : Option ℤ
    pub error : Option EvalError
    pub scene : Scene tries

  -- What `ApplyTransaction` returns, with the state behind it.
  pub record Applied : Type 0 where
    pub gas : ℤ
    pub error : Option ApplyError
    pub scene : Scene tries

  -- What `ApplyTransactions` returns.
  pub record Batch : Type 0 where
    pub receipts : List Receipt
    pub valid : List Transaction
    pub scene : Scene tries

  -- `MakeStateObject`: the contract's nested state becomes the one of its address.
  unfoldable pub make_state_object :
      Given → Transaction → World tries → Result (Option StateObject × World tries)
  unfolding make_contract creation_address
  make_state_object given tx w = do
    (made, w₁) ← make_contract tries given.sha3 given.recover tx w
    elim made [
      | none ↦ ok (none, w₁)
      | some c ↦ (do
        addr ← creation_address given.sha3 given.recover tx
        r ← or_panic c.state
        ok (some c, record w₁ { states = (addr, r) ∷ w₁.states }))
    ]

  module _ (given : Given) (fuel : ℕ) (bc : BlockChain) (b : Block) where
    -- From ConvertGas on, for an account that has paid.
    unfoldable pub eval_paid :
        List ℕ → StateObject → Transaction → StateObject → Scene tries → Result Evaluated
    unfolding runtime_vars new_closure call_closure refunds refunded update_state_object
    eval_paid script object tx account s = do
      vars ← runtime_vars given bc b tx account.address
      let closure =
          new_closure given.spare vars object account.address account.nonce script tx.payload
      e ← call_closure tries given.sha3 given.spare fuel closure tx.gas s
      let paid = refunded tx.gas_price (refunds tries e) account
      w₁ ← update_state_object tries given.sha3 paid e.scene.world
      w₂ ← update_state_object tries given.sha3 object w₁
      ok (record {
        ret = e.ret;
        gas = some e.used_gas;
        error = elim e.error [ none ↦ none | some f ↦ some (script_fault f) ];
        scene = record (e.scene) { world = w₂ };
      })

    -- `EvalScript`
    unfoldable pub eval_script : List ℕ → StateObject → Transaction → Scene tries → Result Evaluated
    unfolding sender get_account convert_gas eval_paid
    eval_script script object tx s = do
      from ← sender given.sha3 given.recover tx
      (account, w) ← get_account tries from s.world
      let s' = record s { world = w }
      elim (convert_gas tx.gas tx.gas_price account) [
        | none ↦ ok (record { ret = []; gas = none; error = some insufficient_amount; scene = s' })
        | some paid ↦ eval_paid script object tx paid s'
      ]

    -- The creation of a contract, once its transaction was processed; adding a nil gas panics.
    unfoldable pub apply_creation : Transaction → ℤ → Scene tries → Result Applied
    unfolding make_state_object eval_script update_state_object
    apply_creation tx total s = do
      (made, w) ← make_state_object given tx s.world
      let s₁ = record s { world = w }
      elim made [
        | none ↦ ok (record { gas = total; error = some no_contract; scene = s₁ })
        | some contract ↦ (do
          r ← eval_script contract.init_script contract tx s₁
          gas ← or_panic r.gas
          elim r.error [
            | some e ↦
                ok (record { gas = total +ℤ gas; error = some (init_error e); scene = r.scene })
            | none ↦ (do
              w' ←
                  update_state_object tries given.sha3 (record contract { script = r.ret })
                    r.scene.world
              ok (record {
                gas = total +ℤ gas;
                error = none;
                scene = record (r.scene) { world = w' };
              }))
          ])
      ]

    -- The script of the recipient, once the transaction was processed.
    unfoldable pub apply_script : StateObject → Transaction → ℤ → Scene tries → Result Applied
    unfolding eval_script
    apply_script object tx total s = elim object.script [
      | [] ↦ ok (record { gas = total; error = none; scene = s })
      | op ∷ ops ↦ (do
        r ← eval_script (op ∷ ops) object tx s
        gas ← or_panic r.gas
        ok (record {
          gas = total +ℤ gas;
          error = elim r.error [ none ↦ none | some e ↦ some (script_error e) ];
          scene = r.scene;
        }))
    ]

    -- `ApplyTransaction`
    unfoldable pub apply_transaction : Transaction → Scene tries → Result Applied
    unfolding process_transaction is_contract apply_creation apply_script get_state_object
    apply_transaction tx s =
        let p = process_transaction tries given.sha3 given.recover tx s.world in
        let s₁ = record s { world = p.world } in
        if is_contract tx
        then elim p.error [
          | some e ↦ ok (record { gas = p.gas; error = some (creation_error e); scene = s₁ })
          | none ↦ apply_creation tx p.gas s₁
        ]
        else (do
          (found, w) ← get_state_object tries tx.recipient p.world
          let s₂ = record s₁ { world = w }
          elim p.error [
            | some e ↦ ok (record { gas = p.gas; error = some (tx_error e); scene = s₂ })
            | none ↦ elim found [
              | none ↦ ok (record { gas = p.gas; error = none; scene = s₂ })
              | some object ↦ apply_script object tx p.gas s₂
            ]
          ])

    -- A transaction is passed over for its nonce alone.
    abbrev pub skipped : Option ApplyError → Bool
    skipped none = false
    skipped (some e) = is_nonce_err e

    -- `ApplyTransactions`, from the total of the gas on.
    unfoldable pub apply_transactions : ℤ → List Transaction → Scene tries → Result Batch
    unfolding apply_transaction is_nonce_err root_item root_hash
    apply_transactions total [] s = ok (record { receipts = []; valid = []; scene = s })
    apply_transactions total (tx ∷ txs) s = apply_transaction tx s >>= λ a.
        if skipped a.error then apply_transactions total txs a.scene else (do
          root ← root_hash (root_item tries a.scene.world)
          let sum = total +ℤ a.gas
          rest ← apply_transactions sum txs a.scene
          ok (record rest {
            receipts =
                record { tx = tx; post_state = root; cumulative_gas_used = sum } ∷ rest.receipts;
            valid = tx ∷ rest.valid;
          }))
