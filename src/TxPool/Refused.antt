-- ===== src/TxPool/Refused.antt =====
-- The transactions that `ProcessTransaction` (ethchain/transaction_pool.go) turns down, and those
-- of an account to itself.
use goeth_self_training.Prelude.{
  All, subst, ℕ, ◌+◌, ◌<◌, ◌≤◌, ◌^◌, ◌==◌, ◌≡◌, ◌∙◌, refl, ap, sym, some, none, List, length, arith,
  false, if◌then◌else◌, list_eq, list_eq_refl,
}
use goeth_self_training.Prelude.Int.{ℤ, pos, negsuc, nat_abs, ◌+ℤ◌, ◌-ℤ◌, ◌*ℤ◌, ltb_ℤ}
use goeth_self_training.Prelude.Result.{ok, ok-injective}
use goeth_self_training.Bytes.{IsByte, u64, big_bytes}
use goeth_self_training.Item.{Item, big}
use goeth_self_training.Rlp.{encode, encode_big}
use goeth_self_training.Trie.{Trie}
use goeth_self_training.State.{
  get_account, sub_amount, StateObject, World, updated, update_state_object, object_item,
}
use goeth_self_training.State.Objects.{view}
use goeth_self_training.State.Fetch.{
  HasShortRoots, HasShortRoot, HasShortRoot-same, IsRooted, fetch, IsRooted-append,
}
use goeth_self_training.Transaction.{Transaction, sender}
use goeth_self_training.TxPool.Process.{
  Processed, TxError, insufficient_amount, nonce_err, total_amount, payload_gas,
  process_transaction,
}
use goeth_self_training.Vm.Gas.{gas_tx}
use goeth_self_training.TxPool.Transfer.{same_nonce, view_same, IsShort, GoodAfter, store}

-- The error of a transaction whose sender has the nonce `n`.
abbrev pub refusal : Transaction → ℕ → TxError
refusal tx n = if n == tx.nonce then insufficient_amount else nonce_err tx.nonce n

module _ (tries : Trie) (roots : HasShortRoots tries) (sha3 : List ℕ → List ℕ) where
  pub record Refused (tx : Transaction) (n : ℕ) (w : World tries) (p : Processed tries)
      : Type 0 where
    pub error_eq : p.error ≡ some (refusal tx n)
    pub shows : (addr : List ℕ) → view tries addr p.world ≡ view tries addr w

encode-nat_abs : (z : ℤ) → encode (big (some z)) ≡ encode (big (some (pos (nat_abs z))))
unfolding encode encode_big big_bytes
encode-nat_abs (pos n) = refl
encode-nat_abs (negsuc n) = refl

module _ (tries : Trie) (sha3 : List ℕ → List ℕ) where
  -- The object with the absolute value of its amount.
  abbrev made_positive : StateObject → StateObject
  made_positive c = record c { amount = pos (nat_abs c.amount) }

  object_item-made_positive :
      (c : StateObject) (r : Item)
      → encode (object_item sha3 c r) ≡ encode (object_item sha3 (made_positive c) r)
  unfolding object_item encode
  object_item-made_positive c r = rw (encode-nat_abs c.amount) refl

  -- An object is stored with the absolute value of its amount.
  stores_absolute :
      (short : (t : List ℕ) → length (sha3 t) ≤ 2 ^ 10) (c : StateObject) (w : World tries)
      → IsShort (nat_abs c.amount)
      → c.nonce < 2 ^ 16
      → IsRooted tries w.heap c.state
      → tries.IsGood w.trie
      → GoodAfter tries sha3 c w
      → All IsByte c.address
      → (w' : World tries) × (update_state_object tries sha3 c w ≡ ok w')
        × ((addr : List ℕ)
            → All IsByte addr
            → view tries addr w' ≡ (
                if list_eq c.address addr
                then ok (pos (nat_abs c.amount), c.nonce)
                else view tries addr w))
  stores_absolute short c w small n rooted before after key =
      let r = rooted.item_at in
      let done : update_state_object tries sha3 c w ≡ ok (updated tries sha3 c r w) =
        unfold update_state_object in rw (rooted.found) in
      let one_trie : (updated tries sha3 c r w).trie
          ≡ (updated tries sha3 (made_positive c) r w).trie =
        unfold updated in
        ap (λ b. tries.update w.trie c.address b) (object_item-made_positive c r) in
      let e : update_state_object tries sha3 (made_positive c) w
          ≡ ok (updated tries sha3 (made_positive c) r w) =
        unfold update_state_object in rw (rooted.found) in
      let good : GoodAfter tries sha3 (made_positive c) w = λ w' f.
        subst (λ v. tries.IsGood v.trie) (ok-injective (sym e ∙ f))
          (subst tries.IsGood one_trie (after _ done)) in
      let p =
        store tries sha3 short (made_positive c) (nat_abs c.amount) w refl small n rooted before
          good key in
      let same : p.world ≡ updated tries sha3 (made_positive c) r w = ok-injective (sym p.eq ∙ e) in
      let trie_eq : (updated tries sha3 c r w).trie ≡ p.world.trie = rw same one_trie in
      (
        updated tries sha3 c r w,
        done,
        λ addr j.
            view_same tries sha3 addr (updated tries sha3 c r w) p.world trie_eq ∙ p.shows addr j,
      )

  -- What a client sees after a transaction of `from` to itself.
  pub record Kept (tx : Transaction) (from : List ℕ) (left : ℤ) (w : World tries)
      (p : Processed tries) : Type 0 where
    pub gas_eq : p.gas ≡ payload_gas tx +ℤ gas_tx
    pub error_eq : p.error ≡ none
    pub shows :
        (addr : List ℕ)
        → All IsByte addr
        → view tries addr p.world
          ≡ (if list_eq from addr then ok (pos (nat_abs left), tx.nonce + 1) else view tries addr w)

  -- Where the account's root, the hashes and what is left are at most 1024 bytes long, the next nonce is
  -- below 2 ^ 16, the address is bytes, and the state's trie is good before and after: of a transaction
  -- with its sender's nonce to that same sender, who has its value and gas cost, nothing is moved, and
  -- the price of 500 units of gas is taken off. The account then shows the absolute value of what is
  -- left, which may be below 0, and its next nonce, and every other account shows what it did.
  pub process_transaction_to_itself :
      (short : (t : List ℕ) → length (sha3 t) ≤ 2 ^ 10) (recover : List ℕ → List ℕ → List ℕ)
      (tx : Transaction) (w : World tries) (from : List ℕ) (amount : ℤ)
      → sender sha3 recover tx ≡ ok from
      → tx.recipient ≡ from
      → view tries from w ≡ ok (amount, tx.nonce)
      → ltb_ℤ amount (total_amount tx) ≡ false
      → IsShort (nat_abs (amount -ℤ gas_tx *ℤ tx.gas_price))
      → tx.nonce + 1 < 2 ^ 16
      → All IsByte from
      → HasShortRoot tries from w
      → tries.IsGood w.trie
      → ((c d : StateObject) (w₁ w₂ : World tries)
          → get_account tries from w ≡ ok (c, w₁)
          → get_account tries from w₁ ≡ ok (d, w₂)
          → GoodAfter tries sha3
              (sub_amount (gas_tx *ℤ tx.gas_price) (record c { nonce = u64 (c.nonce + 1) }))
              w₂)
      → Kept tx from
          (amount -ℤ gas_tx *ℤ tx.gas_price)
          w
          (process_transaction tries sha3 recover tx w)
  process_transaction_to_itself short recover tx w from amount signed self sees enough small n key
        root good after =
      let f = fetch tries from w amount tx.nonce root sees in
      let g =
        fetch tries from f.world amount tx.nonce
          (HasShortRoot-same tries from f.world w f.trie_eq f.db_eq root)
          (view_same tries sha3 from f.world w f.trie_eq ∙ sees) in
      let counted : StateObject = record f.object { nonce = u64 (f.object.nonce + 1) } in
      let c : StateObject = record counted { amount = counted.amount -ℤ gas_tx *ℤ tx.gas_price } in
      let wraps : u64 (f.object.nonce + 1) ≡ tx.nonce + 1 = rw f.nonce_eq (ground (arith, n)) in
      let after' : GoodAfter tries sha3 c g.world =
        unfold sub_amount in after f.object g.object f.world g.world f.eq g.eq in
      let (w', e, shows') =
        stores_absolute short c g.world (rw f.amount_eq small) (rw wraps n)
          (rw g.heap_eq (IsRooted-append tries f.world.heap g.grown f.object.state f.rooted))
          (rw (g.trie_eq, f.trie_eq) good) after' (rw f.address_eq key) in
      let seen : (addr : List ℕ) → view tries addr g.world ≡ view tries addr w = λ addr.
        view_same tries sha3 addr g.world f.world g.trie_eq
        ∙ view_same tries sha3 addr f.world w f.trie_eq in
      let covers : ltb_ℤ f.object.amount (total_amount tx) ≡ false = rw f.amount_eq enough in
      unfold process_transaction in
      rw (signed) (
        rw (f.eq) (
          rw (same_nonce f.object.nonce tx.nonce f.nonce_eq) (
            rw covers (
              rw self (
                rw (g.eq) (
                  rw (list_eq_refl from) (
                    rw e (record {
                      gas_eq = refl;
                      error_eq = refl;
                      shows = λ addr j.
                          shows' addr j ∙ rw (seen addr, f.amount_eq, f.address_eq, wraps) refl;
                    }))))))))
