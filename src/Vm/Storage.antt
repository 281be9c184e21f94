-- ===== src/Vm/Storage.antt =====
-- SSTORE and SLOAD of ethchain/vm.go, by `SetStorage` and `GetMem` of ethchain/closure.go.
use goeth_self_training.Prelude.{
  ℕ, zero, suc, arith, ◌-◌, ◌/◌, ltb, All, All-append, replicate, ◌<◌, ◌^◌, ◌≡◌, ◌∙◌, refl, some,
  List, ◌∷◌, length, list_eq, if◌then◌else◌, Bool-cases, inl, inr,
}
use goeth_self_training.Prelude.Int.{ℤ, pos, negsuc, nat_abs, ◌+ℤ◌}
use goeth_self_training.Prelude.Result.{Result, ok, panic, out_of_fuel, ◌>>=◌, or_panic}
use goeth_self_training.Bytes.{IsByte, be_bytes, big_bytes, big_to_bytes}
use goeth_self_training.Bytes.BigEndian.{be_bytes-IsByte}
use goeth_self_training.Item.{big, value}
use goeth_self_training.Rlp.{encode, encode_big}
use goeth_self_training.Rlp.RoundTrip.{length-encode_pos}
use goeth_self_training.Value.{new_value, to_big}
use goeth_self_training.Value.Numbers.{big_stored}
use goeth_self_training.Trie.{Trie}
use goeth_self_training.Vm.OpCode
use goeth_self_training.Vm.Machine.{Env, Machine, get_storage, set_storage}
use goeth_self_training.Vm.Exec.{Outcome, running, or_fail, pushed, exec}

module _ (tries : Trie) where
  open tries use {T, get, update, IsGood, get-update}

  -- The number that SLOAD finds in a cell.
  abbrev pub cell : ℤ → T → Result ℤ
  cell loc t = get_storage tries loc t >>= λ v. or_panic (to_big v)

  big_bytes-IsByte : (z : ℤ) → All IsByte (big_bytes z)
  unfolding big_bytes
  big_bytes-IsByte z = be_bytes-IsByte (nat_abs z)

  zeros-IsByte : (n : ℕ) → All IsByte (replicate n 0)
  zeros-IsByte zero = tt
  zeros-IsByte (suc n) = (omega arith, zeros-IsByte n)

  pub big_to_bytes-IsByte : (z : ℤ) (base : ℕ) → All IsByte (big_to_bytes z base)
  unfolding big_to_bytes
  big_to_bytes-IsByte z base = elim (Bool-cases (ltb (base / 8) (length (big_bytes z)))) [
    | inl e ↦ rw e (big_bytes-IsByte z)
    | inr e ↦ rw e (
        All-append IsByte _ (big_bytes z) (zeros-IsByte (base / 8 - length (big_bytes z)))
          (big_bytes-IsByte z))
  ]

  code_nat_abs :
      (z : ℤ) → encode (new_value (value (big (some z)))) ≡ encode (big (some (pos (nat_abs z))))
  unfolding encode encode_big big_bytes new_value
  code_nat_abs (pos n) = refl
  code_nat_abs (negsuc n) = refl

  cell-set_storage :
      (loc val k : ℤ) (t : T)
      → length (be_bytes (nat_abs val)) < 2 ^ 16
      → IsGood t
      → IsGood (set_storage tries loc val t)
      → cell k (set_storage tries loc val t) ≡ (
          if list_eq (big_to_bytes loc 256) (big_to_bytes k 256)
          then ok (pos (nat_abs val))
          else cell k t)
  unfolding get_storage set_storage
  cell-set_storage loc val k t few before after =
      rw
        (
          get-update t (big_to_bytes loc 256) (encode (new_value (value (big (some val)))))
              (big_to_bytes k 256) before after (big_to_bytes-IsByte loc 256)
              (big_to_bytes-IsByte k 256) (length-encode_pos (new_value (value (big (some val))))),
          code_nat_abs val,
        )
        (elim (Bool-cases (list_eq (big_to_bytes loc 256) (big_to_bytes k 256))) [
          | inl e ↦ let (v, p, q) = big_stored (nat_abs val) few in rw (e, p, q) refl
          | inr e ↦ rw e refl
        ])

  or_fail-bind :
      {A B S : Type 0} (m : Machine S) (r : Result A) (f : A → Result B) (k : B → Outcome S)
      → or_fail m r (λ a. or_fail m (f a) k) ≡ or_fail m (r >>= f) k
  or_fail-bind m (ok a) f k = refl
  or_fail-bind m panic f k = refl
  or_fail-bind m out_of_fuel f k = refl

  exec_sload :
      (env : Env) (m : Machine T) (k : ℤ) (rest : List ℤ)
      → m.stack ≡ k ∷ rest
      → exec tries env OpCode.Op.sload m
        ≡ (let m' = record m { stack = rest } in or_fail m' (cell k m.storage) (λ z. pushed z m'))
  unfolding exec
  exec_sload env m k rest e =
      rw e (or_fail-bind (record m { stack = rest }) (get_storage tries k m.storage) _ _)

  exec_sstore :
      (env : Env) (m : Machine T) (val loc : ℤ) (st : List ℤ)
      → m.stack ≡ loc ∷ val ∷ st
      → exec tries env OpCode.Op.sstore m
        ≡ running (record m {
          stack = st;
          storage = set_storage tries loc val m.storage;
          changes = (big_bytes loc, val) ∷ m.changes;
          pc = m.pc +ℤ pos 1;
        })
  unfolding exec
  exec_sstore env m val loc st e = rw e refl

  -- Where the value has fewer than 2 ^ 16 bytes and the storage is a good trie before and after, SSTORE
  -- goes on without the two values on the stack, and an SLOAD that follows, at any state of the stack,
  -- pushes the absolute value of what was stored if its cell has the same bytes, of which `BigToBytes`
  -- makes 32 or more, and otherwise does what it would do over the old storage.
  pub exec_sload-exec_sstore :
      (env : Env) (m : Machine T) (val loc : ℤ) (st : List ℤ)
      → m.stack ≡ loc ∷ val ∷ st
      → length (be_bytes (nat_abs val)) < 2 ^ 16
      → IsGood m.storage
      → IsGood (set_storage tries loc val m.storage)
      → (m' : Machine T) × (exec tries env OpCode.Op.sstore m ≡ running m')
        × (m'.stack ≡ st)
        × ((k : ℤ) (rest : List ℤ)
            → exec tries env OpCode.Op.sload (record m' { stack = k ∷ rest }) ≡ (
                let m'' = record m' { stack = rest } in
                or_fail m''
                  (if list_eq (big_to_bytes loc 256) (big_to_bytes k 256)
                    then ok (pos (nat_abs val))
                    else cell k m.storage)
                  (λ z. pushed z m'')))
  exec_sload-exec_sstore env m val loc st e few before after = (
    record m {
      stack = st;
      storage = set_storage tries loc val m.storage;
      changes = (big_bytes loc, val) ∷ m.changes;
      pc = m.pc +ℤ pos 1;
    },
    exec_sstore env m val loc st e,
    refl,
    λ k rest.
        exec_sload env _ k rest refl
        ∙ rw (cell-set_storage loc val k m.storage few before after) refl,
  )
