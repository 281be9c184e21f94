-- ===== src/Rlp/ListItems.antt =====
-- The loop of `Decode` over the items of a list (ethutil/rlp.go).
use goeth_self_training.Prelude.{
  ℕ, zero, suc, ◌+◌, ◌-◌, ◌*◌, ◌<◌, ◌≤◌, ◌^◌, ◌≡◌, ◌∙◌, refl, List, [], ◌∷◌, ◌++◌, arith, length,
  length-append, Option, some, none, append_assoc, ap, lt→ltb, le→ltb,
}
use goeth_self_training.Prelude.Int.{ℤ}
use goeth_self_training.Prelude.Result.{ok}
use goeth_self_training.Bytes.{u64, big_bytes}
use goeth_self_training.Bytes.BigEndian.{IsReadable}
use goeth_self_training.Item.{Item, Items, list, no_items, item}
use goeth_self_training.Rlp.{
  items_at, head_at, at_head, decode, decode_items, encode_big, encode_bytes, slice_header,
}
use goeth_self_training.Rlp.Header.{head_items}
use goeth_self_training.Rlp.Texts.{decode-head, Reads, head_list}

pub Reads-nil : (f : ℕ) → 2 ≤ f → Reads f (0xc0 ∷ []) (list no_items)
Reads-nil zero h pre ys spare k = absurd (omega arith)
Reads-nil (suc zero) h pre ys spare k = absurd (omega arith)
Reads-nil (suc (suc f)) h pre ys spare k =
    decode-head (suc f) _ spare _ _
      (head_items pre ys spare 0 (omega arith) (omega (arith, length-append pre (0xc0 ∷ ys))))
    ∙ unfold at_head decode in refl

-- The loop over the items, from the count `i` up to `b`.
abbrev pub ReadsItems : ℕ → List ℕ → Items → Type 0
ReadsItems f code vs =
    (pre ys spare : List ℕ) (i b : ℕ)
    → length (pre ++ (code ++ ys)) < 2 ^ 63
    → i + length code ≡ b
    → b < 2 ^ 63
    → decode_items f (pre ++ (code ++ ys)) spare i b (length pre)
      ≡ ok (vs, length pre + length code)

pub reads_no_items : (f : ℕ) → ReadsItems (suc f) [] no_items
reads_no_items f pre ys spare i b k e h =
    unfold decode in rw (le→ltb i b (omega arith)) (ap (λ q. ok (no_items, q)) (omega arith))

decode_items-step :
    (f : ℕ) (data' spare : List ℕ) (i b p j : ℕ) (v : Item) (q : ℕ) (vs : Items) (r : ℕ)
    → i < b
    → decode f data' spare p ≡ ok (v, q)
    → u64 (i + (q + 2 ^ 64 - p)) ≡ j
    → decode_items f data' spare j b q ≡ ok (vs, r)
    → decode_items (suc f) data' spare i b p ≡ ok (item v vs, r)
unfolding decode
decode_items-step f data' spare i b p j v q vs r h e u e' = rw (lt→ltb i b h, e, u, e')

module _ (f : ℕ) (code codes : List ℕ) (v : Item) (vs : Items) (some' : 1 ≤ length code)
    (first : Reads f code v) (rest : ReadsItems f codes vs) where
  pub reads_item : ReadsItems (suc f) (code ++ codes) (item v vs)
  reads_item pre ys spare i b k e h =
      let l = length-append code codes in
      let l' = length-append pre code in
      let k' : length (pre ++ (code ++ (codes ++ ys))) < 2 ^ 63 =
        rw (append_assoc code codes ys) at k in
      let k'' : length ((pre ++ code) ++ (codes ++ ys)) < 2 ^ 63 =
        rw (append_assoc pre code (codes ++ ys)) k' in
      let tail = rest (pre ++ code) ys spare (i + length code) b k'' (omega (arith, e, l)) h in
      rw (append_assoc code codes ys) (
        decode_items-step f _ spare i b (length pre) (i + length code) v (length pre + length code)
          vs _ (omega (arith, e, l)) (first pre (codes ++ ys) spare k') (omega (arith, e, l))
          (rw (append_assoc pre code (codes ++ ys), l') at tail)
        ∙ ap (λ q. ok (item v vs, q)) (omega (arith, l)))

module _ (f : ℕ) (code : List ℕ) (vs : Items) (rest : ReadsItems f code vs)
    (small : length code < 2 ^ 63) (fits : IsReadable (length code)) where
  payload_items :
      (pre hd ys spare : List ℕ) (from : ℕ)
      → from ≡ length pre + length hd
      → length (pre ++ (hd ++ (code ++ ys))) < 2 ^ 63
      → decode_items f (pre ++ (hd ++ (code ++ ys))) spare 0 (length code) from
        ≡ ok (vs, from + length code)
  payload_items pre hd ys spare from at k =
      let e : length (pre ++ hd) ≡ from = omega (arith, length-append pre hd) in
      rw (append_assoc pre hd (code ++ ys), e) at
        (rest (pre ++ hd) ys spare 0 (length code) (rw (append_assoc pre hd (code ++ ys)) k)
          (omega arith) small)

  at_items :
      (pre hd ys spare : List ℕ) (from : ℕ)
      → from ≡ length pre + length hd
      → length (pre ++ (hd ++ (code ++ ys))) < 2 ^ 63
      → head_at (pre ++ (hd ++ (code ++ ys))) spare (length pre) ≡ ok (items_at from (length code))
      → decode (suc f) (pre ++ (hd ++ (code ++ ys))) spare (length pre)
        ≡ ok (list vs, length pre + length (hd ++ code))
  at_items pre hd ys spare from at k e =
      decode-head f (pre ++ (hd ++ (code ++ ys))) spare (length pre) (items_at from (length code)) e
      ∙ unfold at_head in
        rw (payload_items pre hd ys spare from at k)
          (ap (λ q. ok (list vs, q)) (omega (arith, at, length-append hd code)))

  Reads-list : Reads (suc f) (slice_header (length code) ++ code) (list vs)
  Reads-list pre ys spare k =
      let hd = slice_header (length code) in
      let k' : length (pre ++ (hd ++ (code ++ ys))) < 2 ^ 63 = rw (append_assoc hd code ys) at k in
      rw (append_assoc hd code ys) (
        at_items pre hd ys spare (length pre + length hd) refl k' (
          head_list pre (code ++ ys) spare (length code) small fits
            (omega (arith, length-append pre (hd ++ (code ++ ys))))))

pub length-slice_header : (n : ℕ) → 1 ≤ length (slice_header n)
unfolding slice_header
length-slice_header n = ground arith

pub Reads-list_fuel :
    (code : List ℕ) (vs : Items)
    → length (slice_header (length code) ++ code) < 2 ^ 63
    → (length code < 2 ^ 63 → (f : ℕ) → 2 * length code + 1 ≤ f → ReadsItems f code vs)
    → IsReadable (length code)
    → (f : ℕ) → 2 * length (slice_header (length code) ++ code) ≤ f
    → Reads f (slice_header (length code) ++ code) (list vs)
Reads-list_fuel code vs k rest fits zero h = absurd (
    omega
      (arith, length-append (slice_header (length code)) code, length-slice_header (length code)))
Reads-list_fuel code vs k rest fits (suc f) h =
    let l = length-append (slice_header (length code)) code in
    let small : length code < 2 ^ 63 = omega (arith, l) in
    Reads-list f code vs (rest small f (omega (arith, l, length-slice_header (length code)))) small
      fits

pub length-encode_bytes_pos : (t : List ℕ) → 1 ≤ length (encode_bytes t)
unfolding encode_bytes
length-encode_bytes_pos [] = omega arith
length-encode_bytes_pos (b ∷ []) = ground arith
length-encode_bytes_pos (b ∷ c ∷ t) = ground arith

pub length-encode_big_pos : (z : Option ℤ) → 1 ≤ length (encode_big z)
unfolding encode_big
length-encode_big_pos none = omega arith
length-encode_big_pos (some z) = length-encode_bytes_pos (big_bytes z)
