-- ===== src/Network/Address/RoundTrip.antt =====
-- What `packAddr` reads of the host that `unpackAddr` writes (peer.go).
use goeth_self_training.Prelude.{
  ℕ, zero, suc, ◌+◌, ◌-◌, ◌*◌, ◌/◌, ◌%◌, ◌^◌, ◌<◌, ◌≤◌, ◌≡◌, ◌==◌, refl, ◌∙◌, sym, ap, arith, false,
  some, List, [], ◌∷◌, ◌++◌, append_assoc, append-nil, ltb, All, Bool-cases, inl, inr, ltb→lt,
  lt→ltb,
}
use goeth_self_training.Prelude.Int.{pos}
use goeth_self_training.Prelude.Result.{ok, ◌>>=◌}
use goeth_self_training.Value.{int_to_u64}
use goeth_self_training.Blocks.{digits_of}
use goeth_self_training.Network.Address.{
  split_at, read_digits, int_of, signed_number, atoi, pack_addr, itoa, host_text,
}

abbrev IsDigit : ℕ → Type 0
IsDigit c = (48 ≤ c) × (c ≤ 57)

digits_of-IsDigit :
    (fuel n : ℕ) (more : List ℕ) → All IsDigit more → All IsDigit (digits_of fuel n more)
unfolding digits_of
digits_of-IsDigit zero n more h = h
digits_of-IsDigit (suc fuel) n more h = elim (Bool-cases (ltb n 10)) [
  | inl e ↦ let small = ltb→lt n 10 e in rw e ((omega arith, omega arith), h)
  | inr e ↦ rw e (digits_of-IsDigit fuel (n / 10) _ ((omega arith, omega arith), h))
]

digits_of-append :
    (fuel n : ℕ) (more : List ℕ) → digits_of fuel n more ≡ digits_of fuel n [] ++ more
unfolding digits_of
digits_of-append zero n more = refl
digits_of-append (suc fuel) n more = elim (Bool-cases (ltb n 10)) [
  | inl e ↦ rw e refl
  | inr e ↦ rw e (
      digits_of-append fuel (n / 10) ((48 + n % 10) ∷ more)
      ∙ (sym (append_assoc (digits_of fuel (n / 10) []) ((48 + n % 10) ∷ []) more)
          ∙ ap (λ t. t ++ more) (sym (digits_of-append fuel (n / 10) ((48 + n % 10) ∷ [])))))
]

read_digit :
    (acc c : ℕ) (cs : List ℕ)
    → IsDigit c
    → read_digits acc (c ∷ cs) ≡ read_digits (acc * 10 + (c - 48)) cs
unfolding read_digits
read_digit acc c cs (h, k) = ground arith

-- The digits of a number are read back, whatever comes behind them.
read_digits-digits_of :
    (fuel n : ℕ) (more : List ℕ)
    → n < fuel
    → read_digits 0 (digits_of fuel n more) ≡ read_digits n more
unfolding digits_of read_digits
read_digits-digits_of zero n more h = absurd (omega arith)
read_digits-digits_of (suc fuel) n more h = elim (Bool-cases (ltb n 10)) [
  | inl e ↦
      let small = ltb→lt n 10 e in
      rw e (
        read_digit 0 (48 + n) more (omega arith, omega arith)
        ∙ ap (λ k. read_digits k more) (let q : 0 * 10 + (48 + n - 48) ≡ n = omega arith in q))
  | inr e ↦
      let big : 10 ≤ n = ground arith in
      rw e (
        read_digits-digits_of fuel (n / 10) ((48 + n % 10) ∷ more) (omega arith)
        ∙ (read_digit (n / 10) (48 + n % 10) more (omega arith, omega arith)
            ∙ ap (λ k. read_digits k more)
                (let q : n / 10 * 10 + (48 + n % 10 - 48) ≡ n = omega arith in q)))
]

int_of-pos : (n : ℕ) → n < 2 ^ 63 → int_of false n ≡ pos n
int_of-pos zero h = refl
int_of-pos (suc k) h = rw (lt→ltb (suc k) (2 ^ 63) h) refl

signed_number-digits :
    (c : ℕ) (cs : List ℕ) (n : ℕ)
    → read_digits 0 (c ∷ cs) ≡ some n
    → n < 2 ^ 63
    → signed_number false (c ∷ cs) ≡ pos n
signed_number-digits c cs n e h = rw (e, signed_number) (int_of-pos n h)

atoi-digits :
    (t : List ℕ) (n : ℕ) → All IsDigit t → read_digits 0 t ≡ some n → n < 2 ^ 63 → atoi t ≡ pos n
unfolding atoi read_digits
atoi-digits [] n d e h = ap pos (let q : 0 ≡ n = cc in q)
atoi-digits (c ∷ cs) n (d, ds) e h =
    let minus : c == 45 ≡ false = ground arith in
    let plus : c == 43 ≡ false = ground arith in rw (minus, plus) (signed_number-digits c cs n e h)

split_at-digits :
    (t part rest : List ℕ)
    → All IsDigit t
    → split_at 46 part (t ++ 46 ∷ rest) ≡ (part ++ t) ∷ split_at 46 [] rest
unfolding split_at
split_at-digits [] part rest d = ap (λ p. p ∷ split_at 46 [] rest) (sym (append-nil part))
split_at-digits (c ∷ cs) part rest (d, ds) =
    let other : c == 46 ≡ false = ground arith in
    rw other (
      split_at-digits cs (part ++ c ∷ []) rest ds
      ∙ ap (λ p. p ∷ split_at 46 [] rest) (append_assoc part (c ∷ []) cs))

split_at-last : (t part : List ℕ) → All IsDigit t → split_at 46 part t ≡ (part ++ t) ∷ []
unfolding split_at
split_at-last [] part d = ap (λ p. p ∷ []) (sym (append-nil part))
split_at-last (c ∷ cs) part (d, ds) =
    let other : c == 46 ≡ false = ground arith in
    rw other
      (split_at-last cs (part ++ c ∷ []) ds ∙ ap (λ p. p ∷ []) (append_assoc part (c ∷ []) cs))

itoa-IsDigit : (n : ℕ) → All IsDigit (itoa n)
itoa-IsDigit n = digits_of-IsDigit (suc n) n [] tt

atoi-itoa : (n : ℕ) → n < 2 ^ 63 → atoi (itoa n) ≡ pos n
unfolding read_digits
atoi-itoa n h =
    atoi-digits (itoa n) n (itoa-IsDigit n) (read_digits-digits_of (suc n) n [] (omega arith)) h

low_byte : (n : ℕ) → n < 256 → int_to_u64 (atoi (itoa n)) % 256 ≡ n
low_byte n h = rw (atoi-itoa n (omega arith)) (let q : n % 2 ^ 64 % 256 ≡ n = omega arith in q)

low_port : (n : ℕ) → n < 2 ^ 16 → int_to_u64 (atoi (itoa n)) % 2 ^ 16 ≡ n
low_port n h = rw (atoi-itoa n (omega arith)) (let q : n % 2 ^ 64 % 2 ^ 16 ≡ n = omega arith in q)

split_at-hosts :
    (a b c d : ℕ)
    → split_at 46 [] (itoa a ++ 46 ∷ (itoa b ++ 46 ∷ (itoa c ++ 46 ∷ itoa d)))
      ≡ itoa a ∷ itoa b ∷ itoa c ∷ itoa d ∷ []
split_at-hosts a b c d =
    split_at-digits (itoa a) [] (itoa b ++ 46 ∷ (itoa c ++ 46 ∷ itoa d)) (itoa-IsDigit a)
    ∙ (ap (λ t. itoa a ∷ t) (split_at-digits (itoa b) [] (itoa c ++ 46 ∷ itoa d) (itoa-IsDigit b))
        ∙ (ap (λ t. itoa a ∷ itoa b ∷ t) (split_at-digits (itoa c) [] (itoa d) (itoa-IsDigit c))
            ∙ ap (λ t. itoa a ∷ itoa b ∷ itoa c ∷ t) (split_at-last (itoa d) [] (itoa-IsDigit d))))

-- `packAddr` of the host that `unpackAddr` writes for four bytes and of the text of a port of 16
-- bits gives the bytes and the port.
pub pack_addr-host_text :
    (a b c d port : ℕ)
    → (a < 256) × (b < 256) × (c < 256) × (d < 256)
    → port < 2 ^ 16
    → (host_text (a ∷ b ∷ c ∷ d ∷ []) >>= λ host. pack_addr host (itoa port))
      ≡ ok (a ∷ b ∷ c ∷ d ∷ [], port)
unfolding pack_addr host_text
pack_addr-host_text a b c d port (ha, hb, hc, hd) hp =
    rw (split_at-hosts a b c d)
      (rw (low_byte a ha, low_byte b hb, low_byte c hc, low_byte d hd, low_port port hp) refl)
