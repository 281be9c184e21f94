-- ===== src/TxPool/Queue.antt =====
-- The pool of ethchain/transaction_pool.go: what the queue's handler adds, and what is taken out.
-- `pool` is the list; `sent` are the transactions given to Broadcast, newest first. The locks are
-- left out: each function here holds the pool's one. What GetAccount adds to a state is dropped.
use goeth_self_training.Prelude.{
  subst, arith, ◌≤◌, ◌<◌, ℕ, ◌*◌, ◌^◌, ◌≡◌, ◌≢◌, ◌∙◌, inl, inr, refl, sym, Bool, true, false,
  Option, some, none, List, [], ◌∷◌, ◌++◌, list_eq, list_eq_iff, leb, if◌then◌else◌, All,
  All-append, Bool-cases,
}
use mathlib.Core.Bool.{true≢false}
use goeth_self_training.Prelude.Int.{ℤ, pos, ◌+ℤ◌, ltb_ℤ}
use goeth_self_training.Prelude.Result.{Result, ok, ◌>>=◌, >>=-Yields, ok-injective}
use goeth_self_training.Trie.{Trie}
use goeth_self_training.State.{StateObject, World, get_account}
use goeth_self_training.Transaction.{Transaction, sender, hash}

pub record Pool : Type 0 where
  pub pool : List Transaction
  pub sent : List Transaction

-- TxFee * TxFeeRat of ethchain/fees.go.
abbrev pub flat_fee : ℤ
flat_fee = pos (100 * 10 ^ 14)

-- `FindTx`: the first transaction that the finder takes.
unfoldable pub find_tx : (Transaction → Bool) → List Transaction → Option Transaction
find_tx finder [] = none
find_tx finder (tx ∷ txs) = let more = find_tx finder txs in if finder tx then some tx else more

-- `addTransaction`
unfoldable pub add_transaction : Transaction → Pool → Pool
add_transaction tx p = record { pool = p.pool ++ tx ∷ []; sent = tx ∷ p.sent }

-- `CurrentTransactions`, and `Flush`, which empties the pool.
unfoldable pub current_transactions : Pool → List Transaction
current_transactions p = p.pool

unfoldable pub flush : Pool → List Transaction × Pool
unfolding current_transactions
flush p = (current_transactions p, record p { pool = [] })

module _ (tries : Trie) (sha3 : List ℕ → List ℕ) (recover : List ℕ → List ℕ → List ℕ) where
  unfoldable pub sender_account : Transaction → World tries → Result StateObject
  sender_account tx w = do
    from ← sender sha3 recover tx
    found ← get_account tries from w
    ok found.0

  -- `ValidateTransaction` where there is a current block: true for a nil error. `w` is the state
  -- manager's current state.
  unfoldable pub validate_transaction : World tries → Transaction → Result Bool
  unfolding sender_account
  validate_transaction w tx = do
    from ← sender_account tx w
    ok (if ltb_ℤ from.amount (tx.value +ℤ flat_fee) then false else true)

  -- One transaction from the channel of `queueHandler`.
  unfoldable pub handle_queued : World tries → Transaction → Pool → Result Pool
  unfolding find_tx validate_transaction add_transaction
  handle_queued w tx p = elim (find_tx (λ t. list_eq (hash sha3 t) (hash sha3 tx)) p.pool) [
    | some found ↦ ok p
    | none ↦ validate_transaction w tx >>= λ valid. ok (if valid then add_transaction tx p else p)
  ]

  -- The test of `RemoveInvalid` over the state `w` and the current state `cur`.
  unfoldable pub is_invalid : World tries → World tries → Transaction → Result Bool
  unfolding sender_account validate_transaction
  is_invalid w cur tx = do
    from ← sender_account tx w
    valid ← validate_transaction cur tx
    ok (if valid then leb tx.nonce from.nonce else true)

  abbrev drop_or :
      Transaction → List Transaction → Result (List Transaction) → Bool → Result (List Transaction)
  drop_or tx txs rest true = ok txs
  drop_or tx txs rest false = rest >>= λ kept. ok (tx ∷ kept)

  -- `RemoveInvalid`: a removed element of a container/list has no next one, so the loop ends there.
  unfoldable pub remove_invalid :
      World tries → World tries → List Transaction → Result (List Transaction)
  unfolding is_invalid
  remove_invalid w cur [] = ok []
  remove_invalid w cur (tx ∷ txs) =
      let rest = remove_invalid w cur txs in is_invalid w cur tx >>= drop_or tx txs rest

  -- No two transactions of the list have one hash.
  abbrev pub Distinct : List Transaction → Type 0
  Distinct [] = Unit
  Distinct (tx ∷ txs) = All (λ t. hash sha3 tx ≢ hash sha3 t) txs × Distinct txs

  Distinct-append :
      (txs : List Transaction) (tx : Transaction)
      → Distinct txs
      → All (λ t. hash sha3 t ≢ hash sha3 tx) txs
      → Distinct (txs ++ tx ∷ [])
  Distinct-append [] tx d a = (tt, tt)
  Distinct-append (t ∷ txs) tx (apart, d) (other, a) = (
    All-append (λ u. hash sha3 t ≢ hash sha3 u) txs (tx ∷ []) apart (other, tt),
    Distinct-append txs tx d a,
  )

  not_found :
      (txs : List Transaction) (h : List ℕ)
      → find_tx (λ t. list_eq (hash sha3 t) h) txs ≡ none
      → All (λ t. hash sha3 t ≢ h) txs
  unfolding find_tx
  not_found [] h e = tt
  not_found (t ∷ txs) h e = elim (Bool-cases (list_eq (hash sha3 t) h)) [
    | inl same ↦ absurd (let q : some t ≡ none = (rw same at e) in cc)
    | inr other ↦ (
      (λ q. true≢false (sym ((list_eq_iff (hash sha3 t) h).1 q) ∙ other)),
      not_found txs h (rw other at e),
    )
  ]

  added_Distinct :
      (tx : Transaction) (p p' : Pool) (valid : Bool)
      → Distinct p.pool
      → All (λ t. hash sha3 t ≢ hash sha3 tx) p.pool
      → (if valid then add_transaction tx p else p) ≡ p'
      → Distinct p'.pool
  unfolding add_transaction
  added_Distinct tx p p' true d a e = rw (← e) (Distinct-append p.pool tx d a)
  added_Distinct tx p p' false d a e = rw (← e) d

  -- If the pool's transactions have different hashes, then so they do after the handler of the queue
  -- has taken a transaction, where it does not panic.
  pub handle_queued-Distinct :
      (w : World tries) (tx : Transaction) (p p' : Pool)
      → Distinct p.pool
      → handle_queued w tx p ≡ ok p'
      → Distinct p'.pool
  unfolding handle_queued
  handle_queued-Distinct w tx p p' d e =
      by_case (find_tx (λ t. list_eq (hash sha3 t) (hash sha3 tx)) p.pool)
        (not_found p.pool (hash sha3 tx)) e
    where
      by_case :
          (o : Option Transaction)
          → (o ≡ none → All (λ t. hash sha3 t ≢ hash sha3 tx) p.pool)
          → (elim o [
            | some found ↦ ok p
            | none ↦ validate_transaction w tx >>= λ valid.
                ok (if valid then add_transaction tx p else p)
          ])
            ≡ ok p'
          → Distinct p'.pool
      by_case (some found) a e = rw (← ok-injective e) d
      by_case none a e =
          let (valid, e₁, e₂) = >>=-Yields (validate_transaction w tx) _ e in
          added_Distinct tx p p' valid d (a refl) (ok-injective e₂)

  -- The sender's account in the current state has less than the value and the flat fee, or the one of
  -- the manager's state has had the nonce already.
  pub data IsInvalid (w cur : World tries) (tx : Transaction) : Type 0 where
    poor :
        (now : StateObject)
        → sender_account tx cur ≡ ok now
        → ltb_ℤ now.amount (tx.value +ℤ flat_fee) ≡ true
        → IsInvalid w cur tx
    stale :
        (from : StateObject)
        → sender_account tx w ≡ ok from
        → tx.nonce ≤ from.nonce
        → IsInvalid w cur tx

  pub record IsValid (w cur : World tries) (tx : Transaction) : Type 0 where
    pub from : StateObject
    pub now : StateObject
    pub from_eq : sender_account tx w ≡ ok from
    pub now_eq : sender_account tx cur ≡ ok now
    pub rich : ltb_ℤ now.amount (tx.value +ℤ flat_fee) ≡ false
    pub fresh : from.nonce < tx.nonce

  -- What the answer of `is_invalid` says.
  abbrev Verdict : World tries → World tries → Transaction → Bool → Type 0
  Verdict w cur tx true = IsInvalid w cur tx
  Verdict w cur tx false = IsValid w cur tx

  is_invalid-Verdict :
      (w cur : World tries) (tx : Transaction) (b : Bool)
      → is_invalid w cur tx ≡ ok b
      → Verdict w cur tx b
  unfolding is_invalid validate_transaction
  is_invalid-Verdict w cur tx b e =
      let (from, e₁, f) = >>=-Yields (sender_account tx w) _ e in
      let (valid, e₂, g) = >>=-Yields (validate_transaction cur tx) _ f in
      let (now, e₃, h) = >>=-Yields (sender_account tx cur) _ e₂ in
      by_tests from now valid e₁ e₃ (ok-injective h) (ok-injective g)
    where
      by_nonce :
          (from now : StateObject) (b : Bool)
          → sender_account tx w ≡ ok from
          → sender_account tx cur ≡ ok now
          → ltb_ℤ now.amount (tx.value +ℤ flat_fee) ≡ false
          → leb tx.nonce from.nonce ≡ b
          → Verdict w cur tx b
      by_nonce from now true e₁ e₃ rich' h = stale from e₁ (ground (arith, h))
      by_nonce from now false e₁ e₃ rich' h = record {
        from = from;
        now = now;
        from_eq = e₁;
        now_eq = e₃;
        rich = rich';
        fresh = ground (arith, h);
      }

      by_tests :
          (from now : StateObject) (valid : Bool)
          → sender_account tx w ≡ ok from
          → sender_account tx cur ≡ ok now
          → (if ltb_ℤ now.amount (tx.value +ℤ flat_fee) then false else true) ≡ valid
          → (if valid then leb tx.nonce from.nonce else true) ≡ b
          → Verdict w cur tx b
      by_tests from now valid e₁ e₃ h g =
          elim (Bool-cases (ltb_ℤ now.amount (tx.value +ℤ flat_fee))) [
            | inl p ↦
                let v : false ≡ valid = rw p at h in
                let t : true ≡ b = rw (← v) at g in subst (Verdict w cur tx) t (poor now e₃ p)
            | inr p ↦
                let v : true ≡ valid = rw p at h in
                let t : leb tx.nonce from.nonce ≡ b = rw (← v) at g in by_nonce from now b e₁ e₃ p t
          ]

  -- The list without its first invalid transaction, if there is one.
  pub data FirstRemoved (w cur : World tries) : List Transaction → List Transaction → Type 0 where
    all_valid : FirstRemoved w cur [] []
    removed :
        (tx : Transaction) (txs : List Transaction)
        → IsInvalid w cur tx
        → FirstRemoved w cur (tx ∷ txs) txs
    kept :
        (tx : Transaction) (txs rest : List Transaction)
        → IsValid w cur tx
        → FirstRemoved w cur txs rest
        → FirstRemoved w cur (tx ∷ txs) (tx ∷ rest)

  -- `RemoveInvalid`, where it does not panic, takes out the first invalid transaction and no other:
  -- one whose sender has less than its value and the flat fee in the current state, or has a nonce not
  -- below the transaction's in the manager's state. Of those before it neither is true.
  pub remove_invalid-FirstRemoved :
      (w cur : World tries) (txs txs' : List Transaction)
      → remove_invalid w cur txs ≡ ok txs'
      → FirstRemoved w cur txs txs'
  unfolding remove_invalid
  remove_invalid-FirstRemoved w cur [] txs' e = rw (← ok-injective e) all_valid
  remove_invalid-FirstRemoved w cur (tx ∷ txs) txs' e =
      let (invalid, e₁, e₂) = >>=-Yields (is_invalid w cur tx) _ e in
      step (remove_invalid-FirstRemoved w cur txs) invalid e₁ e₂
    where
      step :
          ((rest : List Transaction)
            → remove_invalid w cur txs ≡ ok rest
            → FirstRemoved w cur txs rest)
          → (invalid : Bool) → is_invalid w cur tx ≡ ok invalid
          → drop_or tx txs (remove_invalid w cur txs) invalid ≡ ok txs'
          → FirstRemoved w cur (tx ∷ txs) txs'
      step more true e₁ e₂ =
          rw (← ok-injective e₂) (removed tx txs (is_invalid-Verdict w cur tx true e₁))
      step more false e₁ e₂ =
          let (rest, e₃, e₄) = >>=-Yields (remove_invalid w cur txs) _ e₂ in
          rw (← ok-injective e₄)
            (kept tx txs rest (is_invalid-Verdict w cur tx false e₁) (more rest e₃))
