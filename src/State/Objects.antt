-- ===== src/State/Objects.antt =====
-- Accounts that `UpdateStateObject` stores (ethchain/state.go) and `GetAccount` reads back: the
-- amount and the nonce of an address as a client sees them.
use goeth_self_training.Prelude.{
  ℕ, ◌+◌, ◌^◌, ◌<◌, ◌≤◌, ◌≡◌, ◌∙◌, inl, inr, refl, ap, sym, subst, All, some, List, [], ◌∷◌, ◌++◌,
  list_eq, if◌then◌else◌, length, length-append, arith, Bool-cases,
}
use goeth_self_training.Prelude.Int.{ℤ, pos}
use goeth_self_training.Prelude.Result.{Result, ok, ◌>>=◌, or_panic, ok-injective}
use goeth_self_training.Bytes.{IsByte, be_bytes, big_bytes, read_varint}
use goeth_self_training.Bytes.BigEndian.{IsReadable, length-be_bytes_le, read_varint-be_bytes}
use goeth_self_training.Item.{Item, Items, big, uint64, bytes, list, item, no_items}
use goeth_self_training.Rlp.{encode, encode_items, encode_big, encode_bytes, slice_header, to_int64}
use goeth_self_training.Rlp.Plain.{plain, Fits, FitsItems}
use goeth_self_training.Rlp.RoundTrip.{length-encode_pos}
use goeth_self_training.Value
use goeth_self_training.Value.{new_value, new_value_from_bytes, to_big, to_uint, to_bytes}
use goeth_self_training.Value.Numbers.{
  new_value_from_bytes-encode, to_big-stored, to_uint-stored, Fits-big, Fits-uint64, stored,
}
use goeth_self_training.Trie.{Trie}
use goeth_self_training.State.{
  StateObject, World, from_bytes, get_account, from_data, object_item, root_of, updated,
  update_state_object,
}

-- What `view` reads of an address' bytes.
abbrev pub view_data : List ℕ → Result (ℤ × ℕ)
view_data [] = ok (pos 0, 0)
view_data (b ∷ bs) = do
  v ← new_value_from_bytes (b ∷ bs)
  amount ← or_panic (to_big (Value.get v 0))
  ok (amount, to_uint (Value.get v 1))

-- An object with an amount that is not negative and a nonce below 2 ^ 63, whose parts have short
-- codes.
pub record IsStorable (sha3 : List ℕ → List ℕ) (c : StateObject) (a : ℕ) (r : Item) : Type 0 where
  pub amount_eq : c.amount ≡ pos a
  pub amount_short : length (be_bytes a) ≤ 2 ^ 10
  pub nonce_small : c.nonce < 2 ^ 63
  pub root_fits : Fits r
  pub root_short : length (encode r) ≤ 2 ^ 10
  pub hash_short : length (sha3 c.script) ≤ 2 ^ 10

code_bytes_le : (t : List ℕ) → length t ≤ 2 ^ 10 → length (encode_bytes t) ≤ length t + 9
unfolding encode_bytes
code_bytes_le [] h = omega arith
code_bytes_le (b ∷ []) h = ground arith
code_bytes_le (b ∷ c ∷ t) h = ground (
  arith,
  length-append (be_bytes (length (b ∷ c ∷ t))) (b ∷ c ∷ t),
  length-be_bytes_le 8 (length (b ∷ c ∷ t)),
)

code_big_le : (a : ℕ) → length (be_bytes a) ≤ 2 ^ 10 → length (encode (big (some (pos a)))) ≤ 2 ^ 11
unfolding encode encode_big big_bytes
code_big_le a h = omega (arith, code_bytes_le (be_bytes a) h)

code_uint64_le : (n : ℕ) → n < 2 ^ 63 → length (encode (uint64 n)) ≤ 2 ^ 11
unfolding encode encode_big big_bytes
code_uint64_le n h =
    let e : to_int64 n ≡ pos n = ground arith in
    let l = length-be_bytes_le 8 n (omega arith) in
    rw e (omega (arith, l, code_bytes_le (be_bytes n) (omega (arith, l))))

code_bytes_item : (t : List ℕ) → length t ≤ 2 ^ 10 → length (encode (bytes t)) ≤ 2 ^ 11
unfolding encode
code_bytes_item t h = omega (arith, code_bytes_le t h)

Fits-list : (vs : Items) → length (encode_items vs) < 2 ^ 16 → FitsItems vs → Fits (list vs)
unfolding Fits
Fits-list vs h k = (inl h, k)

Fits-item : (v : Item) (vs : Items) → Fits v → FitsItems vs → FitsItems (item v vs)
unfolding Fits
Fits-item v vs h k = (h, k)

fits_no_items : FitsItems no_items
unfolding Fits
fits_no_items = tt

Fits-bytes : (t : List ℕ) → length t ≤ 2 ^ 10 → Fits (bytes t)
unfolding Fits
Fits-bytes t h = inl (omega arith)

module _ (sha3 : List ℕ → List ℕ) (c : StateObject) (a : ℕ) (r : Item)
    (s : IsStorable sha3 c a r) where
  abbrev fields : Items
  fields =
      item (big (some c.amount))
        (item (uint64 c.nonce) (item r (item (bytes (sha3 c.script)) no_items)))

  code_fields : length (encode_items fields) < 2 ^ 16
  code_fields = rw s.amount_eq (
      unfold encode_items in
      omega (
        arith,
        code_big_le a s.amount_short,
        code_uint64_le c.nonce s.nonce_small,
        code_bytes_item (sha3 c.script) s.hash_short,
        s.root_short,
        length-append (encode (big (some (pos a))))
            (encode (uint64 c.nonce) ++ (encode r ++ (encode (bytes (sha3 c.script)) ++ []))),
        length-append (encode (uint64 c.nonce))
            (encode r ++ (encode (bytes (sha3 c.script)) ++ [])),
        length-append (encode r) (encode (bytes (sha3 c.script)) ++ []),
        length-append (encode (bytes (sha3 c.script))) [],
      ))

  Fits-object : Fits (object_item sha3 c r)
  unfolding object_item
  Fits-object = Fits-list fields code_fields (
      Fits-item (big (some c.amount)) _
        (rw s.amount_eq (Fits-big a (omega (arith, s.amount_short))))
        (Fits-item (uint64 c.nonce) _ (Fits-uint64 c.nonce s.nonce_small) (
          Fits-item r _ s.root_fits (
            Fits-item (bytes (sha3 c.script)) _ (Fits-bytes (sha3 c.script) s.hash_short)
              fits_no_items))))

  code_object : length (encode (object_item sha3 c r)) < 2 ^ 63
  unfolding encode object_item slice_header
  code_object = ground (
    arith,
    code_fields,
    length-append (slice_header (length (encode_items fields))) (encode_items fields),
    length-be_bytes_le 8 (length (encode_items fields)),
  )

  read_object :
      new_value_from_bytes (encode (object_item sha3 c r)) ≡ ok (stored (object_item sha3 c r))
  read_object = new_value_from_bytes-encode (object_item sha3 c r) Fits-object code_object

  amount_of_stored : Value.get (stored (object_item sha3 c r)) 0 ≡ stored (big (some c.amount))
  unfolding Value.get plain object_item
  amount_of_stored = refl

  nonce_of_stored : Value.get (stored (object_item sha3 c r)) 1 ≡ stored (uint64 c.nonce)
  unfolding Value.get plain object_item
  nonce_of_stored = refl

  view_data-code :
      (code : List ℕ) (v : Item)
      → 1 ≤ length code
      → new_value_from_bytes code ≡ ok v
      → view_data code
        ≡ (or_panic (to_big (Value.get v 0)) >>= λ amount. ok (amount, to_uint (Value.get v 1)))
  view_data-code [] v h e = absurd (omega arith)
  view_data-code (b ∷ bs) v h e = rw e

  -- What is read of a stored object.
  pub view_data-object :
      view_data (encode (object_item sha3 c r)) ≡ ok (c.amount, read_varint (be_bytes c.nonce))
  view_data-object =
      view_data-code (encode (object_item sha3 c r)) (stored (object_item sha3 c r))
        (length-encode_pos (object_item sha3 c r)) read_object
      ∙ rw (
        amount_of_stored,
        nonce_of_stored,
        s.amount_eq,
        to_big-stored a,
        to_uint-stored c.nonce s.nonce_small,
      )

module _ (tries : Trie) where
  open tries use {T, get, update, IsGood, get-update}

  abbrev pub shown : Result (StateObject × World tries) → Result (ℤ × ℕ)
  shown m = m >>= λ (c, w'). ok (c.amount, c.nonce)

  -- The amount and the nonce that `GetAccount` finds under an address.
  unfoldable pub view : List ℕ → World tries → Result (ℤ × ℕ)
  view addr w = shown (get_account tries addr w)

  view_from_data :
      (addr data' : List ℕ) (w : World tries)
      → shown (from_data tries addr data' w) ≡ view_data data'
  view_from_data addr [] w = refl
  view_from_data addr (b ∷ bs) w = unfold from_bytes in ground arith

  pub view-eq : (addr : List ℕ) (w : World tries) → view addr w ≡ view_data (get w.trie addr)
  unfolding view get_account
  view-eq addr w = view_from_data addr (get w.trie addr) w

  module _ (sha3 : List ℕ → List ℕ) where
    trie-update :
        (c : StateObject) (w w' : World tries) (r : Item)
        → root_of tries w.heap c.state ≡ ok r
        → update_state_object tries sha3 c w ≡ ok w'
        → w'.trie ≡ update w.trie c.address (encode (object_item sha3 c r))
    unfolding update_state_object
    trie-update c w w' r e u =
        let h : ok (updated tries sha3 c r w) ≡ ok w' = rw e at u in
        sym (ap (λ v. v.trie) (ok-injective h))

    -- After an `UpdateStateObject` that succeeds, between good tries, of an object whose amount is not
    -- negative and, like its root and hash, at most 1024 bytes long, with a nonce below 2 ^ 63 that
    -- `ReadVarint` reads whole: the object's address shows its amount and nonce, and every other address
    -- shows what it did. The addresses are bytes.
    pub view-update_state_object :
        (c : StateObject) (a : ℕ) (r : Item) (w w' : World tries)
        → IsStorable sha3 c a r
        → IsReadable c.nonce
        → root_of tries w.heap c.state ≡ ok r
        → update_state_object tries sha3 c w ≡ ok w'
        → IsGood w.trie
        → IsGood w'.trie
        → All IsByte c.address
        → (addr : List ℕ) → All IsByte addr
        → view addr w' ≡ (if list_eq c.address addr then ok (c.amount, c.nonce) else view addr w)
    view-update_state_object c a r w w' s readable e u before after key addr key' =
        let t_eq = trie-update c w w' r e u in
        rw
          (
            view-eq addr w',
            view-eq addr w,
            t_eq,
            get-update w.trie c.address (encode (object_item sha3 c r)) addr before
                (subst IsGood t_eq after) key key' (length-encode_pos (object_item sha3 c r)),
          )
          (elim (Bool-cases (list_eq c.address addr)) [
            | inl same ↦
                rw same (view_data-object sha3 c a r s ∙ rw (read_varint-be_bytes c.nonce readable))
            | inr other ↦ rw other
          ])
