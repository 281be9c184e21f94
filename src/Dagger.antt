-- ===== src/Dagger.antt =====
-- `Dagger` of ethchain/dagger.go: the nodes of its graph, `Eval`, `Verify` and `DaggerVerify`, with
-- `keccak` for Keccak256 of all that was written. The search tries random numbers and is left out.
pub mod Returning
use goeth_self_training.Prelude.{
  ℕ, zero, suc, ◌+◌, ◌-◌, ◌*◌, ◌%◌, ◌^◌, ◌==◌, Bool, true, false, List, [], ◌∷◌, ◌++◌, ltb,
  if◌then◌else◌,
}
use goeth_self_training.Prelude.Int.{ℤ, pos, ltb_ℤ}
use goeth_self_training.Prelude.Result.{Result, ok, panic, out_of_fuel, ◌>>=◌}
use goeth_self_training.Bytes.{u64, big_d, big_bytes}
use goeth_self_training.Rlp.{to_int64}
use goeth_self_training.Chain.{div_floor}
use goeth_self_training.StateManager.{quotient}

-- big.NewInt(int64(n)).Bytes()
unfoldable pub number_bytes : ℕ → List ℕ
unfolding big_bytes
number_bytes n = big_bytes (to_int64 n)

-- x & ((1 << shift) - 1) of uint64.
unfoldable pub low_bits : ℕ → ℕ → ℕ
low_bits shift x = if ltb shift 64 then x % 2 ^ shift else x

-- What the loop over k writes: the bytes of the nodes that `node` gives.
unfoldable pub write_nodes : (ℕ → Result ℤ) → ℕ → ℕ → Result (List ℕ)
unfolding big_bytes
write_nodes node zero k = ok []
write_nodes node (suc count) k = do
  n ← node k
  rest ← write_nodes node count (k + 1)
  ok (big_bytes n ++ rest)

module _ (keccak : List ℕ → List ℕ) (hash xn : ℤ) where
  -- The index of a node's k-th child.
  unfoldable pub child_index : ℕ → ℕ → ℕ → ℕ
  unfolding number_bytes low_bits big_bytes big_d
  child_index l i k = low_bits (u64 (u64 (l + 2 ^ 64 - 1) * 3)) (
      u64 (
        big_d (
          keccak (
            big_bytes hash
            ++ (big_bytes xn ++ (number_bytes l ++ (number_bytes i ++ number_bytes k)))))))

  -- `Node`; the level below 0 is the largest uint64.
  unfoldable pub node : ℕ → ℕ → ℕ → Result ℤ
  unfolding child_index write_nodes big_d
  node zero l i = out_of_fuel
  node (suc fuel) l i =
      let rest =
        write_nodes (λ k. node fuel (u64 (l + 2 ^ 64 - 1)) (child_index l i k))
          (if l == 9 then 16 else 3) 0 in
      if l == i then ok hash else (rest >>= λ t. ok (pos (big_d (keccak t))))

-- The index that `Eval` gives to its k-th node.
unfoldable pub eval_index : (List ℕ → List ℕ) → ℤ → ℤ → ℤ → ℕ → ℕ
unfolding number_bytes big_bytes big_d
eval_index keccak hash xn n k =
    u64 (big_d (keccak (big_bytes hash ++ (big_bytes xn ++ (big_bytes n ++ number_bytes k)))))
    % 2 ^ 25

-- `Eval`
unfoldable pub eval : (List ℕ → List ℕ) → ℕ → ℤ → ℤ → Result ℤ
unfolding eval_index node write_nodes big_d
eval keccak fuel hash n =
    let xn = div_floor n (2 ^ 26) in
    write_nodes (λ k. node keccak hash xn fuel 9 (eval_index keccak hash xn n k)) 4 0 >>= λ t.
    ok (pos (big_d (keccak t)))

-- `Verify`, and `DaggerVerify`, which does the same on a new value; the level 9 is 10 calls deep.
unfoldable pub dagger_verify : (List ℕ → List ℕ) → ℤ → ℤ → ℤ → Result Bool
unfolding eval
dagger_verify keccak hash diff nonce = do
  obj ← quotient (2 ^ 256) diff
  res ← eval keccak 10 hash nonce
  ok (ltb_ℤ res obj)
