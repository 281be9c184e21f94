-- ===== src/Rlp/Fuel.antt =====
-- `Decode` of ethutil/rlp.go ends: each call moves the position on, so the fuel of `decode_from`
-- is enough on every input.
use goeth_self_training.Prelude.{
  ℕ, zero, suc, ◌+◌, ◌-◌, ◌*◌, ◌<◌, ◌≤◌, ◌^◌, List, ◌++◌, arith, length, ltb, Bool, get_elem?-ge,
  length-append, if◌then◌else◌, true, false,
}
use goeth_self_training.Prelude.Result.{Result, ok, Safe, Safe-bind}
use goeth_self_training.Bytes.{u64}
use goeth_self_training.Item.{Item, Items, list, item, no_items}
use goeth_self_training.Rlp.{
  Head, single, text, items_at, byte_at, cut, head_at, text_at, at_head, decode, decode_items,
  decode_from,
}

if_Safe {ℓ} :
    {A : Type ℓ} (P : A → Type 0) (b : Bool) (m n : Result A)
    → Safe P m
    → Safe P n
    → Safe P (if b then m else n)
if_Safe P true m n h k = h
if_Safe P false m n h k = k

module _ (data' spare : List ℕ) (small : length (data' ++ spare) < 2 ^ 63) where
  byte_at-Safe : (p : ℕ) → Safe (λ _. p < length data') (byte_at data' p)
  unfolding byte_at
  byte_at-Safe p = ground (arith, get_elem?-ge data' p)

  cut-Safe :
      (from to : ℕ)
      → Safe (λ _. (from ≤ to) × (to ≤ length (data' ++ spare))) (cut data' spare from to)
  unfolding cut
  cut-Safe from to = ground arith

  -- A payload begins behind the header, inside the data.
  abbrev HeadFits : ℕ → Head → Type 0
  HeadFits p (single b) = p < length data'
  HeadFits p (text from n) = (p < from) × (from ≤ length (data' ++ spare))
  HeadFits p (items_at from n) = (p < from) × (from ≤ length (data' ++ spare))

  head_at-Safe : (p : ℕ) → Safe (HeadFits p) (head_at data' spare p)
  unfolding head_at
  head_at-Safe p = ground (arith, length-append data' spare, get_elem?-ge data' p)

  abbrev Moves : {A : Type 0} → ℕ → A × ℕ → Type 0
  Moves p (v, q) = (p < q) × (q ≤ length (data' ++ spare))

  text_at-Safe : (p from n : ℕ) → p < from → Safe (Moves {A = Item} p) (text_at data' spare from n)
  unfolding text_at
  text_at-Safe p from n h = ground (arith, cut-Safe from (u64 (from + n)))

  abbrev Ends : {A : Type 0} → ℕ → A × ℕ → Type 0
  Ends p (v, q) = (p ≤ q) × (q ≤ length (data' ++ spare))

  at_head-Safe :
      (loop : ℕ → ℕ → Result (Items × ℕ)) (p : ℕ) (h : Head)
      → ((from n : ℕ)
          → p < from
          → from ≤ length (data' ++ spare)
          → Safe (Ends {A = Items} from) (loop from n))
      → HeadFits p h
      → Safe (Moves {A = Item} p) (at_head loop data' spare p h)
  unfolding at_head
  at_head-Safe loop p (single b) safe fits = omega (arith, length-append data' spare)
  at_head-Safe loop p (text from n) safe fits = text_at-Safe p from n fits.0
  at_head-Safe loop p (items_at from n) safe fits =
      Safe-bind (Ends {A = Items} from) (Moves {A = Item} p) (loop from n)
        (λ (vs, q). ok (list vs, q)) (safe from n fits.0 fits.1)
        (λ (vs, q) e. (omega arith, omega arith))

  mutual
    unfolding decode

    decode-Safe :
        (f p : ℕ)
        → 2 * (length (data' ++ spare) - p) + 1 ≤ f
        → Safe (Moves {A = Item} p) (decode f data' spare p)
    decode-Safe zero p h = absurd (omega arith)
    decode-Safe (suc f) p h =
        Safe-bind (HeadFits p) (Moves {A = Item} p) (head_at data' spare p) _ (head_at-Safe p)
          (λ hd fits.
            at_head-Safe (λ from n. decode_items f data' spare 0 n from) p hd
              (λ from n moved inside. decode_items-Safe f 0 n from inside (omega arith)) fits)

    decode_items-Safe :
        (f i b p : ℕ)
        → p ≤ length (data' ++ spare)
        → 2 * (length (data' ++ spare) - p) + 2 ≤ f
        → Safe (Ends {A = Items} p) (decode_items f data' spare i b p)
    decode_items-Safe zero i b p k h = absurd (omega arith)
    decode_items-Safe (suc f) i b p k h =
        if_Safe (Ends {A = Items} p) (ltb i b) _ (ok (no_items, p))
          (Safe-bind (Moves {A = Item} p) (Ends {A = Items} p) (decode f data' spare p) _
            (decode-Safe f p (omega arith))
            (λ (v, q) m.
              Safe-bind (Ends {A = Items} q) (Ends {A = Items} p)
                (decode_items f data' spare (u64 (i + (q + 2 ^ 64 - p))) b q)
                (λ (vs, r). ok (item v vs, r))
                (decode_items-Safe f (u64 (i + (q + 2 ^ 64 - p))) b q m.1 (omega arith))
                (λ (vs, r) e. (omega arith, omega arith))))
          (omega arith)

-- Where the data and the spare capacity behind it are together shorter than 2 ^ 63 bytes, `Decode`
-- ends, at every position: it returns an item and a later position, which is not behind the end of
-- the data with its spare capacity, or it panics.
pub decode_ends :
    (data' spare : List ℕ) (p : ℕ)
    → length (data' ++ spare) < 2 ^ 63
    → Safe (λ r. (p < r.1) × (r.1 ≤ length (data' ++ spare))) (decode_from data' spare p)
decode_ends data' spare p small =
    unfold decode_from in
    decode-Safe data' spare small (2 * length (data' ++ spare) + 2) p (omega arith)
