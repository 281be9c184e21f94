-- ===== src/Chain/Store/Laws.antt =====
-- What `Add` and `ResetTillBlockHash` of ethchain/block_chain.go do to the blocks of the database.
use goeth_self_training.Prelude.{
  ℕ, ◌≤◌, ◌<◌, ◌^◌, ◌≡◌, ◌≢◌, ◌∙◌, refl, sym, ap, inl, inr, false, some, none, List, [], ◌∷◌,
  list_eq, list_eq_sound, if◌then◌else◌, length, length-append, arith, Bool-cases,
}
use goeth_self_training.Prelude.Result.{ok, or_panic, >>=-Yields, ok-injective, or_panic-ok}
use goeth_self_training.Database
use goeth_self_training.Database.{MemDatabase, get-put-delete}
use goeth_self_training.Rlp.{encode}
use goeth_self_training.Rlp.Plain.{Fits}
use goeth_self_training.Rlp.RoundTrip.{length-encode_pos}
use goeth_self_training.Blocks.{Block, block_value, block_hash, block_encode, block_decode}
use goeth_self_training.Blocks.RoundTrip.{IsBlock, block_decode-block_encode}
use goeth_self_training.Chain.Store.{
  BlockChain, last_block_key, info_key, block_of, get_block, write_block_info, add, return_to,
  reset_till_block_hash,
}

-- Lists of different lengths are different keys.
apart_by_length : (a b : List ℕ) → length a ≢ length b → list_eq a b ≡ false
apart_by_length a b h = elim (Bool-cases (list_eq a b)) [
  | inl e ↦ absurd (h (ap length (list_eq_sound a b e)))
  | inr e ↦ e
]

some-injective {ℓ} : {A : Type ℓ} {a b : A} → some a ≡ some b → a ≡ b
some-injective h = cc

module _ (sha3 : List ℕ → List ℕ) (sha3_length : (s : List ℕ) → length (sha3 s) ≡ 32) where
  length-block_hash : (b : Block) → length (block_hash sha3 b) ≡ 32
  unfolding block_hash
  length-block_hash b = sha3_length (encode (block_value b))

  -- What a key of 32 bytes reads after `Add`.
  get-add :
      (b : Block) (bc : BlockChain) (id : List ℕ)
      → length id ≡ 32
      → Database.get id (add sha3 b bc).db
        ≡ (if list_eq (block_hash sha3 b) id then block_encode b else Database.get id bc.db)
  unfolding add write_block_info
  get-add b bc id h =
      let last : list_eq last_block_key id ≡ false =
        apart_by_length last_block_key id (λ e. omega (arith, e, h)) in
      let info : list_eq (info_key (block_hash sha3 b)) id ≡ false =
        apart_by_length (info_key (block_hash sha3 b)) id (λ e. omega (
          arith,
          e,
          h,
          length-block_hash b,
          length-append (block_hash sha3 b) (73 ∷ 110 ∷ 102 ∷ 111 ∷ []),
        )) in
      (get-put-delete last_block_key (block_encode b) id _).0
      ∙ rw last (
          (get-put-delete (block_hash sha3 b) (block_encode b) id _).0
          ∙ rw ((get-put-delete (info_key (block_hash sha3 b)) _ id bc.db).0, info) refl)

  block_of-block_encode :
      (b : Block)
      → IsBlock b
      → Fits (block_value b)
      → length (block_encode b) < 2 ^ 63
      → block_of (block_encode b) ≡ ok (some b)
  block_of-block_encode b is fits small =
      by_code (block_encode b) (unfold block_encode in length-encode_pos (block_value b))
        (block_decode-block_encode b is fits small)
    where
      by_code :
          (code : List ℕ) → 1 ≤ length code → block_decode code ≡ ok b → block_of code ≡ ok (some b)
      by_code [] h e = absurd (omega arith)
      by_code (x ∷ code) h e = rw e refl

  -- After `Add` of a block, `GetBlock` finds it under its hash, and under every other key of 32
  -- bytes what it found before. The block's fields come back from its RLP form, its code is shorter
  -- than 2 ^ 63 bytes, and the hash is 32 bytes long.
  pub get_block-add :
      (b : Block) (bc : BlockChain) (id : List ℕ)
      → IsBlock b
      → Fits (block_value b)
      → length (block_encode b) < 2 ^ 63
      → length id ≡ 32
      → get_block id (add sha3 b bc)
        ≡ (if list_eq (block_hash sha3 b) id then ok (some b) else get_block id bc)
  unfolding get_block
  get_block-add b bc id is fits small h =
      rw (get-add b bc id h) (elim (Bool-cases (list_eq (block_hash sha3 b) id)) [
        | inl e ↦ rw e (block_of-block_encode b is fits small)
        | inr e ↦ rw e refl
      ])

module _ (sha3 : List ℕ → List ℕ) where
  -- Where `ResetTillBlockHash` returns, it has removed the last block alone: `GetBlock` finds nothing
  -- under that block's hash, and under every other key what it found before, so that the other
  -- blocks behind the one that it returns to stay.
  pub get_block-reset_till_block_hash :
      (target : List ℕ) (bc bc' : BlockChain) (last : Block) (id : List ℕ)
      → bc.current ≡ some last
      → reset_till_block_hash sha3 target bc ≡ ok bc'
      → get_block id bc' ≡ (if list_eq (block_hash sha3 last) id then ok none else get_block id bc)
  unfolding get_block reset_till_block_hash
  get_block-reset_till_block_hash target bc bc' last id cur e =
      let (p, e₁, f) = >>=-Yields (return_to sha3 target bc) _ e in
      let (b, e₂, g) = >>=-Yields (or_panic bc.current) _ f in
      let same : b ≡ last = some-injective (sym (or_panic-ok bc.current b e₂) ∙ cur) in
      let db_eq : bc'.db ≡ Database.delete (block_hash sha3 last) bc.db =
        sym (ap (λ c. c.db) (ok-injective g))
        ∙ ap (λ a. Database.delete (block_hash sha3 a) bc.db) same in
      ap block_of (
        ap (λ db. Database.get id db) db_eq ∙ (get-put-delete (block_hash sha3 last) [] id bc.db).1)
      ∙ elim (Bool-cases (list_eq (block_hash sha3 last) id)) [
        | inl e' ↦ rw e' refl
        | inr e' ↦ rw e' refl
      ]
