-- ===== src/Dagger/Returning.antt =====
-- The recursion of `Node` (ethchain/dagger.go) ends.
use goeth_self_training.Prelude.{
  ℕ, zero, suc, ◌+◌, ◌-◌, ◌^◌, ◌/◌, ◌≡◌, ◌≤◌, ◌<◌, ◌⊎◌, inl, inr, ◌==◌, sym, ap, subst, Bool-cases,
  List, arith, if◌then◌else◌,
}
use goeth_self_training.Prelude.Int.{ℤ, pos, ltb_ℤ}
use goeth_self_training.Prelude.Result.{Result, ok, ◌>>=◌, Returns, Returns-bind, Returns-ok}
use goeth_self_training.Bytes.{u64}
use goeth_self_training.Chain.{div_floor}
use goeth_self_training.Dagger.{
  write_nodes, low_bits, child_index, node, eval_index, eval, dagger_verify,
}

abbrev Done : {A : Type 0} → A → Type 0
Done a = Unit

write_nodes-Returns :
    (node' : ℕ → Result ℤ) (count k : ℕ)
    → ((j : ℕ) → Returns Done (node' j))
    → Returns Done (write_nodes node' count k)
unfolding write_nodes
write_nodes-Returns node' zero k h = tt
write_nodes-Returns node' (suc count) k h = Returns-bind Done Done (node' k) _ (h k) λ n d.
    Returns-bind Done Done (write_nodes node' count (k + 1)) _
      (write_nodes-Returns node' count (k + 1) h) λ rest d'. tt

previous : (l : ℕ) → l ≤ 8 → u64 (suc l + 2 ^ 64 - 1) ≡ l
previous l h = omega arith

module _ (keccak : List ℕ → List ℕ) (hash xn : ℤ) where
  -- Level 0 is reached at the index 0 alone.
  child_index_one : (i k : ℕ) → child_index keccak hash xn 1 i k ≡ 0
  unfolding child_index low_bits
  child_index_one i k = omega arith

  -- The child stands at a level above 0, or at the index 0.
  IsReached : ℕ → ℕ → Type 0
  IsReached l i = (1 ≤ l) ⊎ (i ≡ 0)

  child-IsReached : (l i k : ℕ) → IsReached l (child_index keccak hash xn (suc l) i k)
  unfolding IsReached
  child-IsReached zero i k = inr (child_index_one i k)
  child-IsReached (suc l) i k = inl (omega arith)

  node-Returns :
      (fuel l i : ℕ)
      → l < fuel
      → l ≤ 9
      → IsReached l i
      → Returns Done (node keccak hash xn fuel l i)
  unfolding node IsReached
  node-Returns zero l i below small r = absurd (omega arith)
  node-Returns (suc fuel) zero i below small (inl h) = absurd (omega arith)
  node-Returns (suc fuel) zero i below small (inr h) = rw h tt
  node-Returns (suc fuel) (suc l) i below small r = elim (Bool-cases (suc l == i)) [
    | inl e ↦ rw e tt
    | inr e ↦ rw e (
        let p = previous l (omega arith) in
        Returns-bind Done Done (write_nodes _ (if suc l == 9 then 16 else 3) 0) _
          (write_nodes-Returns _ (if suc l == 9 then 16 else 3) 0 λ k.
            node-Returns fuel (u64 (suc l + 2 ^ 64 - 1)) (child_index keccak hash xn (suc l) i k)
              (omega (arith, p)) (omega (arith, p))
              (subst (λ l'. IsReached l' (child_index keccak hash xn (suc l) i k)) (sym p)
                (child-IsReached l i k)))
          λ t d. tt)
  ]

module _ (keccak : List ℕ → List ℕ) where
  eval-Returns : (hash n : ℤ) → Returns Done (eval keccak 10 hash n)
  unfolding eval
  eval-Returns hash n =
      let xn = div_floor n (2 ^ 26) in
      Returns-bind Done Done
        (write_nodes (λ k. node keccak hash xn 10 9 (eval_index keccak hash xn n k)) 4 0) _
        (write_nodes-Returns _ 4 0 λ k.
          node-Returns keccak hash xn 10 9 (eval_index keccak hash xn n k) (omega arith)
            (omega arith) (unfold IsReached in inl (omega arith)))
        λ t d. tt

  -- The recursion of Eval ends with 10 calls, for every hash and nonce, and Verify of a positive
  -- difficulty returns whether the value is below 2^256 divided by the difficulty.
  pub dagger_verify-returns :
      (hash nonce : ℤ) (d : ℕ)
      → (res : ℤ) × (eval keccak 10 hash nonce ≡ ok res)
        × (dagger_verify keccak hash (pos (suc d)) nonce ≡ ok (ltb_ℤ res (pos (2 ^ 256 / suc d))))
  unfolding dagger_verify
  dagger_verify-returns hash nonce d =
      let (res, e) = Returns-ok Done (eval keccak 10 hash nonce) (eval-Returns hash nonce) in
      (res, e, ap (λ r. r >>= λ x. ok (ltb_ℤ x (pos (2 ^ 256 / suc d)))) e)
