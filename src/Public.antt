-- ===== src/Public.antt =====
-- ethpub/pub.go: the end of `createTx`, from the transaction on that was made of the caller's texts.
-- `w` is the transient state of the state manager and `queued` the channel of the pool.
use goeth_self_training.Prelude.{
  ℕ, ◌+◌, ◌%◌, ◌≡◌, some, List, [], ◌∷◌, ◌++◌, list_eq, refl, sym, subst, All, get_elem?,
  if◌then◌else◌,
}
use goeth_self_training.Prelude.Result.{
  Result, ok, ◌>>=◌, or_panic, >>=-Yields, ok-injective, Holds, Holds-intro, Holds-bind, Holds-ok,
}
use goeth_self_training.Bytes
use goeth_self_training.Bytes.{IsByte, u64}
use goeth_self_training.Bytes.BigEndian.{IsReadable}
use goeth_self_training.Item.{Item}
use goeth_self_training.Trie.{Trie}
use goeth_self_training.State.{StateObject, World, root_of, get_state_object, update_state_object}
use goeth_self_training.State.Objects.{IsStorable, view, view-update_state_object}
use goeth_self_training.Transaction
use goeth_self_training.Transaction.{Transaction, signed}

pub record Submitted (tries : Trie) : Type 0 where
  pub tx : Transaction
  pub state : World tries
  pub queued : List Transaction

module _ (tries : Trie) (sha3 : List ℕ → List ℕ) (sign : List ℕ → List ℕ → List ℕ) where
  -- The sender's nonce goes into the transaction and is counted up; an address without an object
  -- panics.
  unfoldable pub submit_tx :
      List ℕ → List ℕ → Transaction → World tries → List Transaction → Result (Submitted tries)
  unfolding get_state_object update_state_object signed
  submit_tx addr key tx w queued = do
    (found, w₁) ← get_state_object tries addr w
    acc ← or_panic found
    w₂ ← update_state_object tries sha3 (record acc { nonce = u64 (acc.nonce + 1) }) w₁
    tx' ← signed sha3 sign key (record tx { nonce = acc.nonce })
    ok (record { tx = tx'; state = w₂; queued = queued ++ tx' ∷ [] })

  signed-nonce :
      (key : List ℕ) (tx : Transaction) → Holds (λ t. t.nonce ≡ tx.nonce) (signed sha3 sign key tx)
  unfolding signed
  signed-nonce key tx =
      Holds-bind (λ t. t.nonce ≡ tx.nonce)
        (or_panic (Bytes.slice (sign (Transaction.hash sha3 tx) key) 0 32)) _
        λ r.
          Holds-bind (λ t. t.nonce ≡ tx.nonce)
            (or_panic (Bytes.slice (sign (Transaction.hash sha3 tx) key) 32 64)) _
            λ s.
              Holds-bind (λ t. t.nonce ≡ tx.nonce)
                (or_panic (get_elem? (sign (Transaction.hash sha3 tx) key) 64)) _
                λ last.
                  Holds-intro (λ t. t.nonce ≡ tx.nonce)
                    (record tx { r = r; s = s; v = (last + 27) % 256 }) refl

  -- The transaction has the nonce of the account and is behind the others in the queue, and the state
  -- shows the account with the next nonce and every other address as before.
  pub record IsCounted (acc : StateObject) (w : World tries) (queued : List Transaction)
      (s : Submitted tries) : Type 0 where
    pub nonce_eq : s.tx.nonce ≡ acc.nonce
    pub queued_eq : s.queued ≡ queued ++ s.tx ∷ []
    pub shows :
        (addr : List ℕ)
        → All IsByte addr
        → view tries addr s.state ≡ (
            if list_eq acc.address addr
            then ok (acc.amount, u64 (acc.nonce + 1))
            else view tries addr w)

  -- A transaction that is submitted for an account that the state has: it has the account's nonce and
  -- is queued last, and the state shows the account with the next nonce and every other address as it
  -- did. The account's amount is not negative and, like its root and hash, at most 1024 bytes long, the
  -- next nonce is below 2 ^ 63 and is one that `ReadVarint` reads whole, the addresses are bytes, and the
  -- state's trie is good before and after.
  pub submit_tx-IsCounted :
      (addr key : List ℕ) (tx : Transaction) (w w₁ : World tries) (queued : List Transaction)
      (s : Submitted tries) (acc : StateObject) (a : ℕ) (r : Item)
      → get_state_object tries addr w ≡ ok (some acc, w₁)
      → root_of tries w₁.heap acc.state ≡ ok r
      → IsStorable sha3 (record acc { nonce = u64 (acc.nonce + 1) }) a r
      → IsReadable (u64 (acc.nonce + 1))
      → submit_tx addr key tx w queued ≡ ok s
      → tries.IsGood w₁.trie
      → tries.IsGood s.state.trie
      → All IsByte acc.address
      → IsCounted acc w₁ queued s
  unfolding submit_tx
  submit_tx-IsCounted addr key tx w w₁ queued s acc a r found rooted storable readable e before
        after own =
      let counted = record acc { nonce = u64 (acc.nonce + 1) } in
      let asked = record tx { nonce = acc.nonce } in
      let built : World tries → Transaction → Result (Submitted tries) =
        (λ w₂ tx'. ok (record { tx = tx'; state = w₂; queued = queued ++ tx' ∷ [] })) in
      let e' : (update_state_object tries sha3 counted w₁ >>= λ w₂.
      signed sha3 sign key asked >>= λ tx'. built w₂ tx')
          ≡ ok s =
        (rw found at e) in
      let (w₂, e₁, e₂) = >>=-Yields (update_state_object tries sha3 counted w₁) _ e' in
      let (tx', e₃, e₄) = >>=-Yields (signed sha3 sign key asked) _ e₂ in
      let good : tries.IsGood w₂.trie =
        subst (λ q. tries.IsGood q.state.trie) (sym (ok-injective e₄)) after in
      rw (← ok-injective e₄) (record {
        nonce_eq = Holds-ok (λ t. t.nonce ≡ acc.nonce) _ (signed-nonce key asked) e₃;
        queued_eq = refl;
        shows =
            view-update_state_object tries sha3 counted a r w₁ w₂ storable readable rooted e₁ before
              good own;
      })
