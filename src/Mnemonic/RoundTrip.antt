-- ===== src/Mnemonic/RoundTrip.antt =====
-- The words of ethutil/mnemonic.go are read back.
use goeth_self_training.Prelude.{
  ℕ, list_eq, list_eq_refl, zero, suc, ◌+◌, ◌-◌, ◌/◌, ◌%◌, ◌^◌, ◌<◌, ◌≤◌, ◌≡◌, refl, ap, subst, ◌∙◌,
  ltb, inl, inr, true, false, Bool-cases, some, List, [], ◌∷◌, arith, All, length, get_elem?,
}
use goeth_self_training.Prelude.Int.{pos, pos-plus, ◌+ℤ◌, ◌-ℤ◌, ◌*ℤ◌}
use goeth_self_training.Prelude.Result.{ok}
use mathlib.Core.Option.{some-injective}
use goeth_self_training.Mnemonic.{
  position, index_of, rem, not_below, w2_of, w3_of, encode_three, decode_three,
}

up : (a q : ℕ) → a < 1626 → a ≤ (q + a) % 1626 → ((q + a) % 1626 - a) % 1626 ≡ q % 1626
up a q h k = omega arith

down : (a q : ℕ) → a < 1626 → (q + a) % 1626 < a → 1626 - (a - (q + a) % 1626) % 1626 ≡ q % 1626
down a q h k = omega arith

forward : (a r : ℕ) → a ≤ r → not_below 1626 (rem (pos r -ℤ pos a) 1626) ≡ pos ((r - a) % 1626)
unfolding ◌-ℤ◌
forward a r h = ground arith

backward :
    (a r : ℕ)
    → r < a
    → a < 1626
    → not_below 1626 (rem (pos r -ℤ pos a) 1626) ≡ pos (1626 - (a - r) % 1626)
unfolding ◌-ℤ◌ ◌+ℤ◌
backward a r h k = ground arith

below : (r a : ℕ) → ltb r a ≡ true → r < a
below r a e = ground arith

above : (r a : ℕ) → ltb r a ≡ false → a ≤ r
above r a e = ground arith

turn :
    (a q : ℕ)
    → a < 1626
    → not_below 1626 (rem (pos ((q + a) % 1626) -ℤ pos a) 1626) ≡ pos (q % 1626)
turn a q h = elim (Bool-cases (ltb ((q + a) % 1626) a)) [
  | inl e ↦ backward a ((q + a) % 1626) (below _ _ e) h ∙ ap (λ n. pos n) (down a q h (below _ _ e))
  | inr e ↦ forward a ((q + a) % 1626) (above _ _ e) ∙ ap (λ n. pos n) (up a q h (above _ _ e))
]

-- The three indices of a number below 2^32.
second : ℕ → ℕ
second bit = (bit / 1626 + bit % 1626) % 1626

third : ℕ → ℕ
third bit = (bit / 1626 / 1626 + second bit) % 1626

w2-second : (bit : ℕ) → w2_of 1626 (pos bit) ≡ pos (second bit)
unfolding second
w2-second bit = ap (λ z. rem z 1626) (pos-plus (bit / 1626) (bit % 1626))

w3-third : (bit : ℕ) → w3_of 1626 (pos bit) ≡ pos (third bit)
unfolding third
w3-third bit =
    ap (λ w. rem (pos (bit / 1626 / 1626) +ℤ w) 1626) (w2-second bit)
    ∙ ap (λ z. rem z 1626) (pos-plus (bit / 1626 / 1626) (second bit))

sum_of_digits :
    (bit : ℕ)
    → bit < 2 ^ 32
    → pos (bit % 1626)
        +ℤ pos 1626 *ℤ pos (bit / 1626 % 1626)
        +ℤ pos 1626 *ℤ pos 1626 *ℤ pos (bit / 1626 / 1626 % 1626)
      ≡ pos bit
unfolding ◌+ℤ◌ ◌*ℤ◌
sum_of_digits bit h = ground arith

unfoldable pub Distinct : List (List ℕ) → Type 0
Distinct [] = Unit
Distinct (w ∷ ws) = All (λ t. list_eq w t ≡ false) ws × Distinct ws

All-at :
    (P : List ℕ → Type 0) (ws : List (List ℕ)) (i : ℕ) (w : List ℕ)
    → All P ws
    → get_elem? ws i ≡ some w
    → P w
All-at P [] i w h e = cc
All-at P (v ∷ ws) zero w (h, hs) e = subst P (some-injective _ _ e) h
All-at P (v ∷ ws) (suc i) w (h, hs) e = All-at P ws i w hs e

position-at :
    (ws : List (List ℕ)) (i k : ℕ) (w : List ℕ)
    → Distinct ws
    → get_elem? ws i ≡ some w
    → position ws w k ≡ some (i + k)
unfolding position Distinct
position-at [] i k w d e = cc
position-at (v ∷ ws) zero k w d e =
    let s : list_eq v w ≡ true =
      subst (λ t. list_eq v t ≡ true) (some-injective _ _ e) (list_eq_refl v) in
    rw s (ap (λ n. some n) (omega arith))
position-at (v ∷ ws) (suc i) k w (apart, d) e =
    rw (All-at (λ t. list_eq v t ≡ false) ws i w apart e)
      (position-at ws i (k + 1) w d e ∙ ap (λ n. some n) (omega arith))

found : (ws : List (List ℕ)) (i : ℕ) → i < length ws → (w : List ℕ) × (get_elem? ws i ≡ some w)
found [] i h = absurd (omega arith)
found (v ∷ ws) zero h = (v, refl)
found (v ∷ ws) (suc i) h = found ws i (omega arith)

index_of-at :
    (ws : List (List ℕ)) (i : ℕ) (w : List ℕ)
    → Distinct ws
    → get_elem? ws i ≡ some w
    → index_of ws w ≡ pos i
unfolding index_of
index_of-at ws i w d e = rw (position-at ws i 0 w d e, index_of) (ap (λ n. pos n) (omega arith))

module _ (words : List (List ℕ)) (bit : ℕ) (many : length words ≡ 1626) (distinct : Distinct words)
    (small : bit < 2 ^ 32) (a b c : List ℕ) (at_a : get_elem? words (bit % 1626) ≡ some a)
    (at_b : get_elem? words (second bit) ≡ some b)
    (at_c : get_elem? words (third bit) ≡ some c) where
  encodes : encode_three words (pos bit) ≡ ok (a ∷ b ∷ c ∷ [])
  unfolding encode_three third
  encodes =
      rw
        (
          many,
          encode_three,
          w2-second bit,
          pos-plus (bit / 1626 / 1626) (second bit),
          at_a,
          at_b,
          at_c,
        )
        refl

  decodes : decode_three words a b c ≡ ok (pos bit)
  unfolding decode_three second third
  decodes =
      rw
        (
          many,
          index_of-at words (bit % 1626) a distinct at_a,
          index_of-at words (second bit) b distinct at_b,
          index_of-at words (third bit) c distinct at_c,
          decode_three,
        )
        (ap
            (λ y. ok (
              pos (bit % 1626)
              +ℤ pos 1626 *ℤ y
              +ℤ pos 1626
                *ℤ pos 1626
                *ℤ not_below 1626 (rem (pos (third bit) -ℤ pos (second bit)) 1626)))
            (turn (bit % 1626) (bit / 1626) (omega arith))
          ∙ ap
              (λ z. ok (
                pos (bit % 1626)
                +ℤ pos 1626 *ℤ pos (bit / 1626 % 1626)
                +ℤ pos 1626 *ℤ pos 1626 *ℤ z))
              (turn (second bit) (bit / 1626 / 1626) (omega arith))
          ∙ ap (λ v. ok v) (sum_of_digits bit small))

-- Of 1626 words no two of which are the same, MnemonicEncode takes three for a number below 2^32,
-- and MnemonicDecode reads the number back from them.
pub decode_three-encode_three :
    (words : List (List ℕ)) (bit : ℕ)
    → length words ≡ 1626
    → Distinct words
    → bit < 2 ^ 32
    → (a : List ℕ) × (b : List ℕ) × (c : List ℕ) × (encode_three words (pos bit)
        ≡ ok (a ∷ b ∷ c ∷ []))
      × (decode_three words a b c ≡ ok (pos bit))
unfolding second third
decode_three-encode_three words bit many distinct small =
    let (a, at_a) = found words (bit % 1626) (omega (arith, many)) in
    let (b, at_b) = found words (second bit) (omega (arith, many)) in
    let (c, at_c) = found words (third bit) (omega (arith, many)) in
    (
      a,
      b,
      c,
      encodes words bit many distinct small a b c at_a at_b at_c,
      decodes words bit many distinct small a b c at_a at_b at_c,
    )
