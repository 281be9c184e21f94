-- ===== src/Tests/Words.antt =====
-- The words of ethutil/mnemonic.go at a concrete list.
use goeth_self_training.Prelude.{
  ℕ, zero, suc, ◌+◌, ◌<◌, ◌≡◌, refl, ap, false, List, [], ◌∷◌, arith, All, length, list_eq,
}
use goeth_self_training.Prelude.Int.{pos}
use goeth_self_training.Prelude.Result.{ok}
use goeth_self_training.Mnemonic.{encode_three, decode_three}
use goeth_self_training.Mnemonic.RoundTrip.{Distinct, decode_three-encode_three}

-- `count` words of one letter each, from `k` on.
letters : ℕ → ℕ → List (List ℕ)
letters zero k = []
letters (suc count) k = (k ∷ []) ∷ letters count (k + 1)

letters_apart : (count k j : ℕ) → k < j → All (λ t. list_eq (k ∷ []) t ≡ false) (letters count j)
unfolding letters
letters_apart zero k j h = tt
letters_apart (suc count) k j h = (ground arith, letters_apart count k (j + 1) (omega arith))

letters-Distinct : (count k : ℕ) → Distinct (letters count k)
unfolding letters Distinct
letters-Distinct zero k = tt
letters-Distinct (suc count) k =
    (letters_apart count k (k + 1) (omega arith), letters-Distinct count (k + 1))

length-letters : (count k : ℕ) → length (letters count k) ≡ count
unfolding letters
length-letters zero k = refl
length-letters (suc count) k = ap (λ n. suc n) (length-letters count (k + 1))

decode_three-encode_three_example :
    (a : List ℕ) × (b : List ℕ) × (c : List ℕ) × (encode_three (letters 1626 0) (pos 3735928559)
      ≡ ok (a ∷ b ∷ c ∷ []))
    × (decode_three (letters 1626 0) a b c ≡ ok (pos 3735928559))
decode_three-encode_three_example =
    decode_three-encode_three (letters 1626 0) 3735928559 (length-letters 1626 0)
      (letters-Distinct 1626 0) (omega arith)
