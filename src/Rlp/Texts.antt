-- ===== src/Rlp/Texts.antt =====
-- `Decode` of encoded byte strings, and of the headers of lists (ethutil/rlp.go).
use goeth_self_training.Prelude.{
  ℕ, zero, suc, ◌+◌, ◌<◌, ◌≤◌, ◌^◌, ◌≡◌, ◌⊎◌, ◌∙◌, refl, inl, inr, List, [], ◌∷◌, ◌++◌, arith,
  length, leb, ltb, length-append, Bool-cases, append_assoc, ap,
}
use goeth_self_training.Prelude.Result.{ok}
use goeth_self_training.Bytes.{u64, be_bytes}
use goeth_self_training.Bytes.BigEndian.{
  IsReadable, read_varint-be_bytes, length-be_bytes_le, length-be_bytes_lt,
}
use goeth_self_training.Item.{Item, uint8, bytes}
use goeth_self_training.Rlp.{
  Head, text, items_at, cut, head_at, text_at, at_head, decode, decode_items, encode_bytes,
  slice_header,
}
use goeth_self_training.Rlp.Header.{
  head_single, head_text, head_items, head_long_text, head_long_items, cut-append,
}
use goeth_self_training.Rlp.Plain.{plain_bytes}

-- `encode_bytes` by its three shapes.
pub data BytesCode (t : List ℕ) : Type 0 where
  one_byte :
      (b : ℕ)
      → b < 0x80
      → t ≡ b ∷ []
      → encode_bytes t ≡ b ∷ []
      → plain_bytes t ≡ uint8 b
      → BytesCode t
  short :
      length t < 56 → encode_bytes t ≡ (length t + 0x80) ∷ t → plain_bytes t ≡ bytes t → BytesCode t
  long :
      56 ≤ length t
      → encode_bytes t ≡ (length (be_bytes (length t)) + 0xb7) ∷ (be_bytes (length t) ++ t)
      → plain_bytes t ≡ bytes t
      → BytesCode t

digits_few : (n : ℕ) → 56 ≤ n → n < 2 ^ 63 → (1 ≤ length (be_bytes n)) × (length (be_bytes n) ≤ 8)
digits_few n low high = (length-be_bytes_lt 0 n (omega arith), length-be_bytes_le 8 n (omega arith))

bytes_code : (t : List ℕ) → length t < 2 ^ 63 → BytesCode t
bytes_code [] h = short (omega arith) (unfold encode_bytes in refl) (unfold plain_bytes in refl)
bytes_code (b ∷ []) h = elim (Bool-cases (leb b 0x7f)) [
  | inl e ↦
      one_byte b (ground arith) refl (unfold encode_bytes in rw e) (unfold plain_bytes in rw e)
  | inr e ↦ short (omega arith) (unfold encode_bytes in rw e) (unfold plain_bytes in rw e)
]
bytes_code (b ∷ c ∷ t) h = elim (Bool-cases (ltb (length (b ∷ c ∷ t)) 56)) [
  | inl e ↦
      short (ground arith) (unfold encode_bytes in rw e (ground arith)) (unfold plain_bytes in refl)
  | inr e ↦
      long (ground arith)
        (unfold encode_bytes in
          rw e (ground (arith, digits_few (length (b ∷ c ∷ t)) (ground arith) h)))
        (unfold plain_bytes in refl)
]

module _ (pre hd t ys spare : List ℕ) (from : ℕ) (at : from ≡ length pre + length hd) where
  payload_cut : cut (pre ++ (hd ++ (t ++ ys))) spare from (from + length t) ≡ ok t
  payload_cut =
      let e : length (pre ++ hd) ≡ from = omega (arith, length-append pre hd) in
      rw (e, append_assoc pre hd (t ++ ys)) at (cut-append (pre ++ hd) t ys spare)

  payload_text :
      from + length t < 2 ^ 64
      → text_at (pre ++ (hd ++ (t ++ ys))) spare from (length t) ≡ ok (bytes t, from + length t)
  unfolding text_at
  payload_text k =
      let e : u64 (from + length t) ≡ from + length t = omega arith in rw (e, payload_cut)

pub decode-head :
    (f : ℕ) (data' spare : List ℕ) (p : ℕ) (h : Head)
    → head_at data' spare p ≡ ok h
    → decode (suc f) data' spare p
      ≡ at_head (λ from n. decode_items f data' spare 0 n from) data' spare p h
unfolding decode
decode-head f data' spare p h e = rw e

-- A decoder that reads `v` in front of any rest, and its position behind.
abbrev pub Reads : ℕ → List ℕ → Item → Type 0
Reads f code v =
    (pre ys spare : List ℕ)
    → length (pre ++ (code ++ ys)) < 2 ^ 63
    → decode f (pre ++ (code ++ ys)) spare (length pre) ≡ ok (v, length pre + length code)

Reads-single : (f b : ℕ) → b < 0x80 → Reads (suc f) (b ∷ []) (uint8 b)
Reads-single f b h pre ys spare k =
    decode-head f _ spare _ _ (head_single pre ys spare b h)
    ∙ unfold at_head in ground (arith, length-append pre (b ∷ ys))

Reads-short : (f : ℕ) (t : List ℕ) → length t < 56 → Reads (suc f) ((length t + 0x80) ∷ t) (bytes t)
Reads-short f t h pre ys spare k =
    let n = length-append pre ((length t + 0x80) ∷ (t ++ ys)) in
    let m = length-append t ys in
    decode-head f _ spare _ _ (head_text pre (t ++ ys) spare (length t) h (omega arith))
    ∙ unfold at_head in
      payload_text pre ((length t + 0x80) ∷ []) t ys spare (length pre + 1) refl (omega arith)
      ∙ ap (λ q. ok (bytes t, q)) (omega arith)

module _ (pre ys spare : List ℕ) (n : ℕ) (low : 56 ≤ n) (high : n < 2 ^ 63) (fits : IsReadable n)
    (k : length pre < 2 ^ 63) where
  head_be_text :
      head_at (pre ++ (length (be_bytes n) + 0xb7) ∷ (be_bytes n ++ ys)) spare (length pre)
      ≡ ok (text (length pre + 1 + length (be_bytes n)) n)
  head_be_text =
      let (few, many) = digits_few n low high in
      head_long_text pre (be_bytes n) ys spare few many k
      ∙ ap (λ m. ok (text (length pre + 1 + length (be_bytes n)) m)) (read_varint-be_bytes n fits)

  head_be_items :
      head_at (pre ++ (length (be_bytes n) + 0xf7) ∷ (be_bytes n ++ ys)) spare (length pre)
      ≡ ok (items_at (length pre + 1 + length (be_bytes n)) n)
  head_be_items =
      let (few, many) = digits_few n low high in
      head_long_items pre (be_bytes n) ys spare few many k
      ∙ ap (λ m. ok (items_at (length pre + 1 + length (be_bytes n)) m))
          (read_varint-be_bytes n fits)

slice_header_short : (n : ℕ) → n < 56 → slice_header n ≡ (n + 0xc0) ∷ []
unfolding slice_header
slice_header_short n h = ground arith

slice_header_long :
    (n : ℕ) → 56 ≤ n → n < 2 ^ 63 → slice_header n ≡ (length (be_bytes n) + 0xf7) ∷ be_bytes n
unfolding slice_header
slice_header_long n h k = ground (arith, digits_few n h k)

head_list_cases :
    (pre ys spare : List ℕ) (n : ℕ)
    → n < 2 ^ 63
    → IsReadable n
    → length pre < 2 ^ 63
    → (n < 56) ⊎ (56 ≤ n)
    → head_at (pre ++ (slice_header n ++ ys)) spare (length pre)
      ≡ ok (items_at (length pre + length (slice_header n)) n)
head_list_cases pre ys spare n small fits k (inl h) =
    rw (slice_header_short n h) (head_items pre ys spare n h k)
head_list_cases pre ys spare n small fits k (inr h) =
    rw (slice_header_long n h small)
      (head_be_items pre ys spare n h small fits k ∙ ap (λ q. ok (items_at q n)) (omega arith))

-- The header of a list, of either shape, is read back with its length.
pub head_list :
    (pre ys spare : List ℕ) (n : ℕ)
    → n < 2 ^ 63
    → IsReadable n
    → length pre < 2 ^ 63
    → head_at (pre ++ (slice_header n ++ ys)) spare (length pre)
      ≡ ok (items_at (length pre + length (slice_header n)) n)
head_list pre ys spare n small fits k = head_list_cases pre ys spare n small fits k (omega arith)

length-append₃ :
    (pre size t ys : List ℕ) (c : ℕ)
    → length (pre ++ c ∷ (size ++ (t ++ ys))) ≡ length pre + 1 + length size + length t + length ys
length-append₃ pre size t ys c = omega (
  arith,
  length-append pre (c ∷ (size ++ (t ++ ys))),
  length-append size (t ++ ys),
  length-append t ys,
)

module _ (f : ℕ) (t : List ℕ) (low : 56 ≤ length t) (high : length t < 2 ^ 63)
    (fits : IsReadable (length t)) where
  reads_long_plain :
      (pre ys spare : List ℕ) (c : ℕ)
      → c ≡ length (be_bytes (length t)) + 0xb7
      → length (pre ++ c ∷ (be_bytes (length t) ++ (t ++ ys))) < 2 ^ 63
      → decode (suc f) (pre ++ c ∷ (be_bytes (length t) ++ (t ++ ys))) spare (length pre)
        ≡ ok (bytes t, length pre + length (c ∷ (be_bytes (length t) ++ t)))
  reads_long_plain pre ys spare c e k =
      let size = be_bytes (length t) in
      let l = length-append₃ pre size t ys c in
      let q = length-append size t in
      decode-head f (pre ++ c ∷ (size ++ (t ++ ys))) spare (length pre)
        (text (length pre + 1 + length size) (length t))
        (rw e (head_be_text pre (t ++ ys) spare (length t) low high fits (omega arith)))
      ∙ unfold at_head in
        payload_text pre (c ∷ size) t ys spare (length pre + 1 + length size) (omega arith)
          (omega arith)
        ∙ ap (λ r. ok (bytes t, r)) (omega arith)

  Reads-long :
      Reads (suc f) ((length (be_bytes (length t)) + 0xb7) ∷ (be_bytes (length t) ++ t)) (bytes t)
  Reads-long pre ys spare k =
      rw (append_assoc (be_bytes (length t)) t ys)
        (reads_long_plain pre ys spare _ refl (rw (append_assoc (be_bytes (length t)) t ys) at k))

Reads-bytes :
    (f : ℕ) (t : List ℕ)
    → length t < 2 ^ 63
    → IsReadable (length t)
    → Reads (suc f) (encode_bytes t) (plain_bytes t)
Reads-bytes f t k fits = elim (bytes_code t k) [
  | one_byte b h e ec ep ↦ rw (ec, ep) (Reads-single f b h)
  | short h ec ep ↦ rw (ec, ep) (Reads-short f t h)
  | long h ec ep ↦ rw (ec, ep) (Reads-long f t h k fits)
]

length-encode_bytes : (t : List ℕ) → length t ≤ length (encode_bytes t)
unfolding encode_bytes
length-encode_bytes [] = omega arith
length-encode_bytes (b ∷ []) = ground arith
length-encode_bytes (b ∷ c ∷ t) =
    ground (arith, length-append (be_bytes (length (b ∷ c ∷ t))) (b ∷ c ∷ t))

-- With fuel for its code, a byte string of any length that fits is read.
pub Reads-bytes_fuel :
    (t : List ℕ)
    → IsReadable (length t)
    → length (encode_bytes t) < 2 ^ 63
    → (f : ℕ) → 1 ≤ f
    → Reads f (encode_bytes t) (plain_bytes t)
Reads-bytes_fuel t fits k zero h = absurd (omega arith)
Reads-bytes_fuel t fits k (suc f) h = Reads-bytes f t (omega (arith, length-encode_bytes t)) fits
