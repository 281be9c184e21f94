-- ===== src/Vm/Calls.antt =====
-- Whole runs of a closure (ethchain/vm.go, ethchain/closure.go): the loop of `RunClosure` with its
-- CREATE, CALL and SUICIDE, which run other closures and work on the state. A `Scene` is the state
-- with the storage changes that its manifest was told of, newest first. The stored trie of the
-- closure's object is in the machine while its own code runs, else in the heap of the state, where
-- every object of that address sees it. What is given back to the callee is listed, oldest first:
-- nothing reads the callee's gas or amount before the run ends. An object that is run has a nested
-- state. `spare` is what the slice of a script holds behind its length.
pub mod Gas
use goeth_self_training.Prelude.{
  ℕ, zero, suc, Option, some, none, List, [], ◌∷◌, ◌++◌, map, if◌then◌else◌, get_elem?, drop,
}
use goeth_self_training.Prelude.Int.{ℤ, pos, ◌+ℤ◌, eqb_ℤ}
use goeth_self_training.Prelude.Result.{Result, ok, panic, out_of_fuel, ◌>>=◌, or_panic}
use goeth_self_training.Bytes.{big_d, big_bytes}
use goeth_self_training.Rlp.{to_int64}
use goeth_self_training.Stack.Memory
use goeth_self_training.Trie.{Trie}
use goeth_self_training.State.{
  StateObject, World, add_amount, get_account, get_state_object, update_state_object,
}
use goeth_self_training.State.Contract.{new_contract}
use goeth_self_training.State.Nested.{Snapshot, put_at, snapshot, revert}
use goeth_self_training.Vm.Ints.{int64_of}
use goeth_self_training.Vm.Machine
use goeth_self_training.Vm.Machine.{Env, Machine, start, use_gas}
use goeth_self_training.Vm.Exec.{
  Request, suicide, create, call, Fault, panicked, Outcome, running, returned, failed, request,
  big_true, big_false,
}
use goeth_self_training.Vm.Step.{run}

-- A closure: `object` is its object, `callee_nonce` the nonce of the object of its callee.
pub record Frame : Type 0 where
  pub env : Env
  pub object : StateObject
  pub callee_nonce : ℕ

-- NewClosure, for an object, its callee's address and nonce, a script and its arguments; `env` holds
-- the machine's variables.
unfoldable pub new_closure :
    (List ℕ → List ℕ) → Env → StateObject → List ℕ → ℕ → List ℕ → List ℕ → Frame
new_closure spare env object callee callee_nonce script args = record {
  env = record env {
    script = script;
    spare = spare script;
    args = args;
    address = object.address;
    caller = callee;
    balance = object.amount;
  };
  object = object;
  callee_nonce = callee_nonce;
}

-- `CreateAddress` of ethutil/common.go.
unfoldable pub create_address : (List ℕ → List ℕ) → List ℕ → ℤ → List ℕ
unfolding big_bytes
create_address sha3 b nonce = drop 12 (sha3 (b ++ big_bytes nonce))

module _ (tries : Trie) where
  open tries use {T}

  pub record Scene : Type 0 where
    pub world : World tries
    pub stored : List (List ℕ × List ℕ × ℤ)

  -- What Call of a closure returns, with the gas that was left, and the scene behind it. `earlier` was
  -- given to the callee by closures that CREATE ran.
  pub record Ended : Type 0 where
    pub ret : List ℕ
    pub error : Option Fault
    pub gas : ℤ
    pub used_gas : ℤ
    pub earlier : List ℤ
    pub scene : Scene

  -- After a request the loop goes on, or the run has ended.
  pub data Next : Type 0 where
    goes_on : Machine T → List ℤ → Scene → Next
    ends : Ended → Next

  -- The machine's trie goes back to the heap, and its storage changes to the manifest.
  unfoldable pub stow : Frame → Machine T → Scene → Scene
  stow f m s = record {
    world = elim f.object.state [
      | none ↦ s.world
      | some r ↦ record (s.world) { heap = put_at r m.storage s.world.heap }
    ];
    stored = map (λ (loc, val). (f.object.address, loc, val)) m.changes ++ s.stored;
  }

  -- `Return`: the gas that is left goes to the callee.
  unfoldable pub finish : Frame → Scene → List ℤ → Machine T → List ℕ → Option Fault → Ended
  unfolding stow
  finish f s back m ret error = record {
    ret = ret;
    error = error;
    gas = m.gas;
    used_gas = m.used_gas;
    earlier = back;
    scene = stow f m s;
  }

  -- All that the callee was given, `Return` of the closure last.
  unfoldable pub refunds : Ended → List ℤ
  refunds e = e.earlier ++ e.gas ∷ []

  abbrev pub cell : Frame → Scene → Result T
  cell f s = or_panic f.object.state >>= λ r. or_panic (get_elem? s.world.heap r)

  -- A new machine for a closure with its gas, in the loop `go`.
  unfoldable pub enter :
      (Frame → Scene → List ℤ → Machine T → Result Ended) → Frame → ℤ → Scene → Result Ended
  unfolding start
  enter go f gas s = cell f s >>= λ t. go f s [] (start gas t)

  abbrev pub push_on : ℤ → Machine T → Machine T
  push_on z m = record m { stack = z ∷ m.stack; pc = m.pc +ℤ pos 1 }

  -- ReturnGas of the calling closure, once for each refund.
  unfoldable pub give_back : List ℤ → Machine T → Machine T
  unfolding Machine.return_gas
  give_back [] m = m
  give_back (gas ∷ more) m = give_back more (Machine.return_gas gas m)

  -- UseGas where its result is not read.
  unfoldable pub take_gas : ℤ → Machine T → Machine T
  unfolding use_gas
  take_gas gas m = elim (use_gas gas m) [ none ↦ m | some m' ↦ m' ]

  -- `vm.state.Revert(snapshot)`
  abbrev pub reverted : Snapshot tries → Scene → Scene
  reverted snap s = record s { world = revert tries snap s.world }

  module _ (sha3 : List ℕ → List ℕ) (spare : List ℕ → List ℕ) where
    abbrev pub Nested : Type 0
    Nested = Frame → ℤ → Scene → Result Ended

    -- SUICIDE, with `Purge` of the closure's nested state.
    unfoldable pub serve_suicide : ℤ → Frame → Scene → List ℤ → Machine T → Result Next
    unfolding get_account update_state_object add_amount finish big_bytes
    serve_suicide receiver f s back m = do
      (account, w) ← get_account tries (big_bytes receiver) s.world
      w' ← update_state_object tries sha3 (add_amount f.object.amount account) w
      let purged = record m { storage = tries.purge m.storage }
      ok (ends (finish f (record s { world = w' }) back purged [] none))

    -- CREATE: the init script runs on the creating closure's own object, and its gas is given back to the
    -- creating closure's callee.
    unfoldable pub serve_create :
        Nested → ℤ → List ℕ → Frame → Scene → List ℤ → Machine T → Result Next
    unfolding snapshot revert new_contract new_closure create_address update_state_object take_gas
        big_d refunds
    serve_create nested value init f s back m = do
      (snap, w) ← snapshot tries s.world
      let addr = create_address sha3 f.env.caller (to_int64 f.callee_nonce)
      let (contract, w₁) = new_contract tries addr value [] w
      let inner = new_closure spare f.env f.object f.env.caller f.callee_nonce init []
      child ← nested inner m.gas (record s { world = w₁ })
      let m₁ = take_gas m.gas m
      elim child.error [
        | some e ↦
            ok (goes_on (push_on big_false m₁) (back ++ refunds child) (reverted snap child.scene))
        | none ↦ (do
          w₂ ←
              update_state_object tries sha3 (record contract { init_script = init })
                child.scene.world
          ok (
              goes_on (push_on (pos (big_d addr)) m₁) (back ++ refunds child)
                (record (child.scene) { world = w₂ })))
      ]

    -- CALL from the result of the inner closure on; `m` has the gas that was given back.
    unfoldable pub call_returned :
        Snapshot tries → StateObject → ℤ → ℤ → Frame → List ℤ → Machine T → Ended → Result Next
    unfolding revert update_state_object finish Memory.set int64_of
    call_returned snap contract ret_size ret_offset f back m child = elim child.error [
      | some e ↦ ok (goes_on (push_on big_false m) back (reverted snap child.scene))
      | none ↦ (do
        w ← update_state_object tries sha3 contract child.scene.world
        let s = record (child.scene) { world = w }
        let m' = record m { stack = big_true ∷ m.stack }
        ok (elim (Memory.set f.env.grow (int64_of ret_offset) (int64_of ret_size) child.ret m.mem) [
          | none ↦ ends (finish f s back m' [] (some panicked))
          | some mem' ↦ goes_on (record m' { mem = mem'; pc = m'.pc +ℤ pos 1 }) back s
        ]))
    ]

    -- CALL of an object that was found.
    unfoldable pub call_object :
        Nested
        → Snapshot tries
        → StateObject
        → ℤ
        → ℤ
        → List ℕ
        → ℤ
        → ℤ
        → Frame
        → Scene
        → List ℤ
        → Machine T
        → Result Next
    unfolding new_closure add_amount take_gas give_back refunds call_returned
    call_object nested snap object gas value args ret_size ret_offset f s back m = do
      let gas' = if eqb_ℤ gas (pos 0) then m.gas else gas
      let contract = add_amount value object
      let inner =
          new_closure spare f.env contract f.object.address f.object.nonce contract.script args
      child ← nested inner gas' s
      call_returned snap contract ret_size ret_offset f back
          (give_back (refunds child) (take_gas gas' m)) child

    -- CALL
    unfoldable pub serve_call :
        Nested → ℤ → ℤ → ℤ → List ℕ → ℤ → ℤ → Frame → Scene → List ℤ → Machine T → Result Next
    unfolding snapshot get_state_object call_object big_bytes
    serve_call nested addr gas value args ret_size ret_offset f s back m = do
      (snap, w) ← snapshot tries s.world
      (found, w₁) ← get_state_object tries (big_bytes addr) w
      elim found [
        | none ↦ ok (goes_on (push_on big_false m) back (record s { world = w₁ }))
        | some object ↦
            call_object nested snap object gas value args ret_size ret_offset f
              (record s { world = w₁ }) back m
      ]

    unfoldable pub serve : Nested → Request → Frame → Scene → List ℤ → Machine T → Result Next
    unfolding serve_suicide serve_create serve_call
    serve nested (suicide receiver) f s back m = serve_suicide receiver f s back m
    serve nested (create value init) f s back m = serve_create nested value init f s back m
    serve nested (call addr gas value args ret_size ret_offset) f s back m =
        serve_call nested addr gas value args ret_size ret_offset f s back m

    abbrev pub Loop : Type 0
    Loop = Frame → Scene → List ℤ → Machine T → Result Ended

    -- A panic while a request is served is recovered like any other.
    unfoldable pub after : Loop → Frame → Scene → List ℤ → Machine T → Result Next → Result Ended
    unfolding finish
    after go f s back m (ok (ends e)) = ok e
    after go f s back m (ok (goes_on m' back' s')) =
        cell f s' >>= λ t. go f s' back' (record m' { storage = t })
    after go f s back m panic = ok (finish f s back m [] (some panicked))
    after go f s back m out_of_fuel = out_of_fuel

    unfoldable pub settle : Loop → Frame → Scene → List ℤ → Outcome T → Result Ended
    unfolding finish stow serve enter after
    settle go f s back (running m) = out_of_fuel
    settle go f s back (returned t m) = ok (finish f s back m t none)
    settle go f s back (failed e m) = ok (finish f s back m [] (some e))
    settle go f s back (request q m) =
        let s' = stow f m s in
        let m' = record m { changes = [] } in
        after go f s' back m' (serve (enter go) q f s' back m')

    -- The loop, over the requests.
    unfoldable pub resume : ℕ → Loop
    unfolding settle run
    resume zero f s back m = out_of_fuel
    resume (suc fuel) f s back m =
        run tries fuel f.env m >>= λ o. settle (λ f' s' b m'. resume fuel f' s' b m') f s back o

    -- `Call` of a closure with its gas.
    unfoldable pub call_closure : ℕ → Frame → ℤ → Scene → Result Ended
    unfolding enter resume
    call_closure fuel f gas s = enter (λ f' s' b m. resume fuel f' s' b m) f gas s
