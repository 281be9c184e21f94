-- ===== src/Rlp/Header.antt =====
-- What `Decode` reads of a header that `Encode` wrote.
use goeth_self_training.Prelude.{
  ℕ, ◌+◌, ◌-◌, ◌<◌, ◌≤◌, ◌^◌, ◌≡◌, List, [], ◌∷◌, ◌++◌, arith, length, get_elem?-append,
  length-append, take-append, drop-append, some, append_assoc, le→leb,
}
use goeth_self_training.Prelude.Result.{ok}
use goeth_self_training.Bytes.{slice, read_varint}
use goeth_self_training.Rlp.{single, text, items_at, byte_at, cut, head_at}

-- The byte and the bytes that stand behind `pre`.
byte_at-append : (pre ys : List ℕ) (x : ℕ) → byte_at (pre ++ x ∷ ys) (length pre) ≡ ok x
unfolding byte_at
byte_at-append pre ys x = rw get_elem?-append

slice-append :
    (pre t ys : List ℕ) → slice (pre ++ (t ++ ys)) (length pre) (length pre + length t) ≡ some t
unfolding slice
slice-append pre t ys =
    rw
      (
        le→leb (length pre) (length pre + length t) (omega arith),
        le→leb (length pre + length t) (length (pre ++ (t ++ ys)))
            (omega (arith, length-append pre (t ++ ys), length-append t ys)),
        drop-append pre (t ++ ys),
      )
      (let e : length pre + length t - length pre ≡ length t = omega arith in rw (e, take-append))

pub cut-append :
    (pre t ys spare : List ℕ)
    → cut (pre ++ (t ++ ys)) spare (length pre) (length pre + length t) ≡ ok t
unfolding cut
cut-append pre t ys spare =
    rw (append_assoc pre (t ++ ys) spare, append_assoc t ys spare, slice-append pre t (ys ++ spare))

cut_behind :
    (pre t ys spare : List ℕ) (c : ℕ)
    → cut (pre ++ c ∷ (t ++ ys)) spare (length pre + 1) (length pre + 1 + length t) ≡ ok t
cut_behind pre t ys spare c =
    let e : length (pre ++ c ∷ []) ≡ length pre + 1 = length-append pre (c ∷ []) in
    rw (e, append_assoc pre (c ∷ []) (t ++ ys)) at (cut-append (pre ++ c ∷ []) t ys spare)

module _ (pre ys spare : List ℕ) where
  abbrev behind : ℕ → List ℕ
  behind c = pre ++ c ∷ ys

  pub head_single : (c : ℕ) → c < 0x80 → head_at (behind c) spare (length pre) ≡ ok (single c)
  unfolding head_at
  head_single c h = rw (get_elem?-append pre ys c) (ground arith)

  pub head_text :
      (n : ℕ)
      → n < 56
      → length pre < 2 ^ 63
      → head_at (behind (n + 0x80)) spare (length pre) ≡ ok (text (length pre + 1) n)
  unfolding head_at
  head_text n h k = rw (get_elem?-append pre ys (n + 0x80)) (ground arith)

  pub head_items :
      (n : ℕ)
      → n < 56
      → length pre < 2 ^ 63
      → head_at (behind (n + 0xc0)) spare (length pre) ≡ ok (items_at (length pre + 1) n)
  unfolding head_at
  head_items n h k = rw (get_elem?-append pre ys (n + 0xc0)) (ground arith)

module _ (pre size ys spare : List ℕ) (low : 1 ≤ length size) (high : length size ≤ 8)
    (k : length pre < 2 ^ 63) where
  abbrev sized_behind : ℕ → List ℕ
  sized_behind c = pre ++ c ∷ (size ++ ys)

  size_cut :
      (c : ℕ) → cut (sized_behind c) spare (length pre + 1) (length pre + 1 + length size) ≡ ok size
  size_cut c = cut_behind pre size ys spare c

  pub head_long_text :
      head_at (sized_behind (length size + 0xb7)) spare (length pre)
      ≡ ok (text (length pre + 1 + length size) (read_varint size))
  unfolding head_at
  head_long_text =
      rw (get_elem?-append pre (size ++ ys) (length size + 0xb7))
        (ground (arith, size_cut (length size + 0xb7)))

  pub head_long_items :
      head_at (sized_behind (length size + 0xf7)) spare (length pre)
      ≡ ok (items_at (length pre + 1 + length size) (read_varint size))
  unfolding head_at
  head_long_items =
      rw (get_elem?-append pre (size ++ ys) (length size + 0xf7))
        (ground (arith, size_cut (length size + 0xf7)))
