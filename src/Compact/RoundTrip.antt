-- ===== src/Compact/RoundTrip.antt =====
-- The compact form of ethutil/encoding.go is read back, and so are the nibbles of a key.
use goeth_self_training.Prelude.{
  ℕ, zero, suc, ◌+◌, ◌-◌, ◌*◌, ◌/◌, ◌%◌, ◌<◌, ◌≡◌, ◌∙◌, refl, inl, inr, some, List, [], ◌∷◌, ◌++◌,
  ◌==◌, if◌then◌else◌, length, take, get_elem?, Bool, true, false, All, arith, Bool-cases,
  length-append, take-append, get_elem?-append,
}
use goeth_self_training.Prelude.Result.{ok}
use goeth_self_training.Bytes.{IsByte}
use goeth_self_training.Compact.{
  pack_nibbles, with_flags, compact_encode, nibbles, compact_hex_decode, compact_decode, digits,
  pair_up, decode_compact,
}

abbrev pub IsNibble : ℕ → Type 0
IsNibble v = v < 16

-- A key of nibbles, with or without the terminator 16 at its end.
abbrev pub key : Bool → List ℕ → List ℕ
key ended body = if ended then body ++ 16 ∷ [] else body

-- A list of even length is packed, and its nibbles are read back.
pub nibbles-pack :
    (h : ℕ) (hex : List ℕ)
    → length hex ≡ 2 * h
    → All IsNibble hex
    → (packed : List ℕ) × (pack_nibbles hex ≡ ok packed) × (nibbles packed ≡ hex)
unfolding pack_nibbles nibbles
nibbles-pack zero [] e all = ([], refl, refl)
nibbles-pack zero (a ∷ hex) e all = absurd (omega arith)
nibbles-pack (suc h) [] e all = absurd (omega arith)
nibbles-pack (suc h) (a ∷ []) e all = absurd (omega arith)
nibbles-pack (suc h) (a ∷ b ∷ hex) e (ha, (hb, all)) =
    let (packed, p, q) = nibbles-pack h hex (omega arith) all in
    (((16 * a + b) % 256) ∷ packed, rw p, rw q (ground arith))

get_elem?-IsNibble :
    (hex : List ℕ) (i : ℕ)
    → All IsNibble hex
    → i < length hex
    → (v : ℕ) × (get_elem? hex i ≡ some v) × (v < 16)
get_elem?-IsNibble [] i all h = absurd (omega arith)
get_elem?-IsNibble (x ∷ hex) zero all h = (x, refl, all.0)
get_elem?-IsNibble (x ∷ hex) (suc i) all h = get_elem?-IsNibble hex i all.1 (omega arith)

abbrev flag : Bool → ℕ
flag ended = if ended then 1 else 0

compact_encode-open :
    (body : List ℕ) (v : ℕ)
    → get_elem? body (length body - 1) ≡ some v
    → v < 16
    → compact_encode body ≡ pack_nibbles (with_flags 0 body)
unfolding compact_encode
compact_encode-open body v e k = let ne : (v == 16) ≡ false = ground arith in rw (e, ne)

compact_encode-key :
    (ended : Bool) (body : List ℕ)
    → All IsNibble body
    → 0 < length (key ended body)
    → compact_encode (key ended body) ≡ pack_nibbles (with_flags (flag ended) body)
unfolding compact_encode
compact_encode-key true body all h =
    let e : length (body ++ 16 ∷ []) - 1 ≡ length body =
      omega (arith, length-append body (16 ∷ [])) in
    rw (e, get_elem?-append body [] 16, take-append body (16 ∷ []))
compact_encode-key false body all h =
    let (v, e, k) = get_elem?-IsNibble body (length body - 1) all (omega arith) in
    compact_encode-open body v e k

with_flags-shape :
    (t : ℕ) (body : List ℕ)
    → t < 2
    → All IsNibble body
    → All IsNibble (with_flags t body) × (length (with_flags t body) ≡ 2 * (length body / 2 + 1))
unfolding with_flags
with_flags-shape t body h all = ground arith

without_last : (hex : List ℕ) (v : ℕ) → take (length (hex ++ v ∷ []) - 1) (hex ++ v ∷ []) ≡ hex
without_last hex v =
    let e : length (hex ++ v ∷ []) - 1 ≡ length hex = omega (arith, length-append hex (v ∷ [])) in
    rw (e, take-append)

compact_decode-nibbles :
    (ended : Bool) (body code : List ℕ)
    → nibbles code ≡ with_flags (flag ended) body
    → compact_decode code ≡ ok (key ended body)
unfolding compact_decode
compact_decode-nibbles true body code e =
    rw (e, without_last)
      (unfold with_flags in
        elim (Bool-cases (length body % 2 == 0)) [
          | inl even ↦ rw even (ground arith)
          | inr odd ↦ rw odd (ground arith)
        ])
compact_decode-nibbles false body code e =
    rw (e, without_last)
      (unfold with_flags in
        elim (Bool-cases (length body % 2 == 0)) [
          | inl even ↦ rw even (ground arith)
          | inr odd ↦ rw odd (ground arith)
        ])

-- A key of nibbles that is not empty, with or without the terminator, has a compact form, and
-- `CompactDecode` reads the key back from it.
pub compact_decode-compact_encode :
    (ended : Bool) (body : List ℕ)
    → All IsNibble body
    → 0 < length (key ended body)
    → (code : List ℕ) × (compact_encode (key ended body) ≡ ok code)
      × (compact_decode code ≡ ok (key ended body))
compact_decode-compact_encode ended body all h =
    let (nib, even) = with_flags-shape (flag ended) body (ground arith) all in
    let (code, p, q) = nibbles-pack (length body / 2 + 1) (with_flags (flag ended) body) even nib in
    (code, compact_encode-key ended body all h ∙ p, compact_decode-nibbles ended body code q)

digits-nibbles : (str : List ℕ) → digits (nibbles str ++ 16 ∷ []) ≡ nibbles str
unfolding digits nibbles
digits-nibbles [] = refl
digits-nibbles (b ∷ str) = ground (arith, digits-nibbles str)

pair_up-nibbles : (str : List ℕ) → All IsByte str → pair_up (nibbles str) ≡ str
unfolding pair_up nibbles
pair_up-nibbles [] all = refl
pair_up-nibbles (b ∷ str) all = ground (arith, pair_up-nibbles str)

-- `DecodeCompact` gives back the bytes whose nibbles and terminator `CompactHexDecode` wrote.
pub decode_compact-compact_hex_decode :
    (str : List ℕ) → All IsByte str → decode_compact (compact_hex_decode str) ≡ str
unfolding decode_compact compact_hex_decode
decode_compact-compact_hex_decode str all = rw digits-nibbles (pair_up-nibbles str all)
