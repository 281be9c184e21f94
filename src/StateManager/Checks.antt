-- ===== src/StateManager/Checks.antt =====
-- `CalculateTD` and `ValidateBlock` of ethchain/state_manager.go.
use goeth_self_training.Prelude.{
  ℕ, ◌+◌, ◌≤◌, ◌≡◌, ◌∙◌, refl, ap, true, false, Option, some, none, List, [], ◌∷◌, list_eq_iff, ltb,
  if◌then◌else◌, All, arith,
}
use goeth_self_training.Prelude.Int.{pos, ◌+ℤ◌, ltb_ℤ, pos-plus}
use goeth_self_training.Prelude.Result.{ok}
use goeth_self_training.Chain.Store.{BlockChain, set_total_difficulty}
use goeth_self_training.Blocks.{Header, Block, hash_no_nonce}
use goeth_self_training.StateManager.{
  uncle_difficulty, calculate_td, verify, int64_sub, uncles_match, validate_block,
}

-- The difficulties of the uncles.
abbrev pub total_of : List ℕ → ℕ
total_of [] = 0
total_of (d ∷ ds) = d + total_of ds

pub data Difficulties : List Header → List ℕ → Type 0 where
  no_uncle : Difficulties [] []
  one_more :
      {us : List Header} {ds : List ℕ} (u : Header) (d : ℕ)
      → u.difficulty ≡ some (pos d)
      → Difficulties us ds
      → Difficulties (u ∷ us) (d ∷ ds)

uncle_difficulty-total :
    (us : List Header) (ds : List ℕ) (acc : ℕ)
    → Difficulties us ds
    → uncle_difficulty (pos acc) us ≡ ok (pos (acc + total_of ds))
unfolding uncle_difficulty
uncle_difficulty-total _ _ acc no_uncle = ap (λ n. ok (pos n)) (omega arith)
uncle_difficulty-total _ _ acc (one_more {us = us} {ds = ds} u d e more) =
    rw (e, pos-plus acc d)
      (uncle_difficulty-total us ds (acc + d) more ∙ ap (λ n. ok (pos n)) (omega arith))

td_sum :
    (total uncles own : ℕ) → pos total +ℤ pos (0 + uncles) +ℤ pos own ≡ pos (total + uncles + own)
td_sum total uncles own =
    rw (pos-plus total (0 + uncles), pos-plus (total + (0 + uncles)) own) (ap pos (omega arith))

accepted-pos : (total more td : ℕ) → td ≡ total + more → ltb_ℤ (pos total) (pos td) ≡ ltb 0 more
accepted-pos total more td e = ground (arith, e)

-- `CalculateTD` of a block with difficulties that are there and not negative, on a chain whose total
-- is not negative, accepts the block and sets the chain's total to the sum of the old one and of the
-- difficulties of the uncles and of the block, unless those are all 0: then the block is refused and
-- the chain stays as it is.
pub calculate_td-total :
    (total own : ℕ) (ds : List ℕ) (bc : BlockChain) (b : Block)
    → bc.td ≡ pos total
    → Difficulties b.uncles ds
    → b.head.difficulty ≡ some (pos own)
    → calculate_td bc b
      ≡ ok (
          if ltb 0 (total_of ds + own)
          then (true, set_total_difficulty (pos (total + total_of ds + own)) bc)
          else (false, bc))
unfolding calculate_td
calculate_td-total total own ds bc b t us e =
    rw (uncle_difficulty-total b.uncles ds 0 us, e)
      (rw
        (
          t,
          td_sum total (total_of ds) own,
          accepted-pos total (total_of ds + own) (total + total_of ds + own) (omega arith),
        )
        refl)

-- What `ValidateBlock` asks of the uncles.
abbrev pub HasPrevious : List ℕ → List Header → Type 0
HasPrevious prev us = All (λ u. u.prev_hash ≡ prev) us

uncles_match-true :
    (p : Header) (us : List Header)
    → HasPrevious p.prev_hash us
    → uncles_match (some p) us ≡ ok true
unfolding uncles_match
uncles_match-true p [] h = refl
uncles_match-true p (u ∷ us) h =
    rw ((list_eq_iff u.prev_hash p.prev_hash).1 h.0) (uncles_match-true p us h.1)

-- `ValidateBlock` accepts a block with a nonce that `Verify` accepts, whose uncles share the
-- previous hash of the block before it and whose time is up to 900000000000 after that of the
-- current block of the chain; the times are counted in seconds.
pub validate_block-accepts :
    (keccak sha3 : List ℕ → List ℕ) (get_block : List ℕ → Option Header) (current p : Header)
    (b : Block) (diff : ℕ)
    → get_block b.head.prev_hash ≡ some p
    → HasPrevious p.prev_hash b.uncles
    → int64_sub b.head.time current.time ≡ pos diff
    → diff ≤ 900000000000
    → verify keccak (hash_no_nonce sha3 b) b.head.difficulty b.head.nonce ≡ ok true
    → validate_block keccak sha3 get_block current b ≡ ok none
unfolding validate_block
validate_block-accepts keccak sha3 get_block current p b diff found same e le good =
    rw (found, uncles_match-true p b.uncles same, e, good) (ground (arith, le))
