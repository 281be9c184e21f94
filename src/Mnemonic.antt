-- ===== src/Mnemonic.antt =====
-- ethutil/mnemonic.go: eight hex digits as three words and back. `words` is the list of words, each
-- as its bytes;
-- `parse` is ParseInt of a text with the base 16 and `print` is Sprintf of "%08x", on int64.
pub mod RoundTrip
use goeth_self_training.Prelude.{
  ℕ, list_eq, zero, suc, ◌+◌, ◌-◌, ◌/◌, ◌%◌, ◌==◌, Bool, true, false, Option, some, none, List, [],
  ◌∷◌, ◌++◌, if◌then◌else◌, length, get_elem?, ltb,
}
use goeth_self_training.Prelude.Int.{ℤ, pos, negsuc, sub_ℕ, ◌+ℤ◌, ◌-ℤ◌, ◌*ℤ◌, ltb_ℤ}
use goeth_self_training.Prelude.Result.{Result, ok, panic, out_of_fuel, ◌>>=◌, or_panic}
use goeth_self_training.Bytes.{slice}

-- `IndexOf`: none is -1.
unfoldable pub position : List (List ℕ) → List ℕ → ℕ → Option ℕ
position [] value' i = none
position (w ∷ ws) value' i =
    let rest = position ws value' (i + 1) in if list_eq w value' then some i else rest

unfoldable pub index_of : List (List ℕ) → List ℕ → ℤ
unfolding position
index_of slice' value' = elim (position slice' value' 0) [ none ↦ negsuc 0 | some p ↦ pos p ]

-- a / n and a % n of int64, which round to 0, for n of 1 and more; n = 0 panics.
abbrev pub quo : ℤ → ℕ → ℤ
quo (pos a) n = pos (a / n)
quo (negsuc a) n = sub_ℕ 0 ((a + 1) / n)

abbrev pub rem : ℤ → ℕ → ℤ
rem (pos a) n = pos (a % n)
rem (negsuc a) n = sub_ℕ 0 ((a + 1) % n)

-- words[i]
abbrev pub word_at : List (List ℕ) → ℤ → Result (List ℕ)
word_at words (pos i) = or_panic (get_elem? words i)
word_at words (negsuc i) = panic

-- The three indices of a number.
abbrev pub w1_of : ℕ → ℤ → ℤ
w1_of n bit = rem bit n

abbrev pub w2_of : ℕ → ℤ → ℤ
w2_of n bit = rem (quo bit n +ℤ w1_of n bit) n

abbrev pub w3_of : ℕ → ℤ → ℤ
w3_of n bit = rem (quo (quo bit n) n +ℤ w2_of n bit) n

-- One round of `MnemonicEncode`, and one of `MnemonicDecode`.
unfoldable pub encode_three : List (List ℕ) → ℤ → Result (List (List ℕ))
encode_three words bit = if length words == 0 then panic else (do
  let n = length words
  a ← word_at words (w1_of n bit)
  b ← word_at words (w2_of n bit)
  c ← word_at words (w3_of n bit)
  ok (a ∷ b ∷ c ∷ []))

abbrev pub not_below : ℕ → ℤ → ℤ
not_below n z = if ltb_ℤ z (pos 0) then z +ℤ pos n else z

unfoldable pub decode_three : List (List ℕ) → List ℕ → List ℕ → List ℕ → Result ℤ
unfolding index_of
decode_three words word1 word2 word3 =
    let n = length words in
    let w1 = index_of words word1 in
    let w2 = index_of words word2 in
    let w3 = index_of words word3 in
    let y = not_below n (rem (w2 -ℤ w1) n) in
    let z = not_below n (rem (w3 -ℤ w2) n) in
    if n == 0 then panic else ok (w1 +ℤ pos n *ℤ y +ℤ pos n *ℤ pos n *ℤ z)

-- `MnemonicEncode` from the place `i` on.
unfoldable pub encode_loop : (List ℕ → ℤ) → List (List ℕ) → ℕ → List ℕ → ℕ → Result (List (List ℕ))
unfolding slice encode_three
encode_loop parse words zero message i = out_of_fuel
encode_loop parse words (suc fuel) message i =
    let rest : Result (List (List ℕ)) = (do
      x ← or_panic (slice message i (i + 8))
      out ← encode_three words (parse x)
      more ← encode_loop parse words fuel message (i + length message / 8)
      ok (out ++ more)) in
    if ltb i (length message) then rest else ok []

unfoldable pub mnemonic_encode : (List ℕ → ℤ) → List (List ℕ) → ℕ → List ℕ → Result (List (List ℕ))
unfolding encode_loop
mnemonic_encode parse words fuel message = encode_loop parse words fuel message 0

-- `MnemonicDecode`: an incomplete group of words panics.
unfoldable pub mnemonic_decode : (ℤ → List ℕ) → List (List ℕ) → List (List ℕ) → Result (List ℕ)
unfolding decode_three
mnemonic_decode print words [] = ok []
mnemonic_decode print words (a ∷ []) = panic
mnemonic_decode print words (a ∷ b ∷ []) = panic
mnemonic_decode print words (a ∷ b ∷ c ∷ more) =
    let rest = mnemonic_decode print words more in
    decode_three words a b c >>= λ x. rest >>= λ out. ok (print x ++ out)
