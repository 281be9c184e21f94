-- ===== src/TxPool/Transfer.antt =====
-- What `ProcessTransaction` (ethchain/transaction_pool.go) does to the accounts.
use goeth_self_training.Prelude.{
  ℕ, ◌+◌, ◌-◌, ◌<◌, ◌≤◌, ◌^◌, ◌==◌, ◌≡◌, ◌∙◌, inl, refl, sym, none, List, All, length, arith, true,
  false, if◌then◌else◌, list_eq,
}
use goeth_self_training.Prelude.Int.{ℤ, pos, ◌+ℤ◌, ◌-ℤ◌, ltb_ℤ, pos-minus, pos-plus, ltb_ℤ-pos}
use goeth_self_training.Prelude.Result.{Result, ok}
use goeth_self_training.Bytes.{IsByte, be_bytes, u64}
use goeth_self_training.Trie.{Trie}
use goeth_self_training.State.{
  StateObject, World, get_account, add_amount, sub_amount, updated, update_state_object,
}
use goeth_self_training.State.Objects.{IsStorable, view, view-eq, view-update_state_object}
use goeth_self_training.State.Fetch.{
  HasShortRoot, HasShortRoot-same, IsRooted, fetch, IsRooted-append,
}
use goeth_self_training.Transaction.{Transaction, sender}
use goeth_self_training.TxPool.Process.{
  Processed, total_amount, payload_gas, transfer, process_transaction,
}

-- An amount of at most 1024 bytes.
abbrev pub IsShort : ℕ → Type 0
IsShort a = length (be_bytes a) ≤ 2 ^ 10

pub same_nonce : (a b : ℕ) → a ≡ b → (a == b) ≡ true
same_nonce a b h = ground arith

module _ (tries : Trie) (sha3 : List ℕ → List ℕ) where
  -- `UpdateStateObject` of an object with a short amount and a rooted state succeeds.
  pub record Stored (c : StateObject) (w : World tries) : Type 0 where
    pub world : World tries
    pub eq : update_state_object tries sha3 c w ≡ ok world
    pub heap_eq : world.heap ≡ w.heap
    pub shows :
        (addr : List ℕ)
        → All IsByte addr
        → view tries addr world
          ≡ (if list_eq c.address addr then ok (c.amount, c.nonce) else view tries addr w)

  -- The trie is good once the object is stored.
  abbrev pub GoodAfter : StateObject → World tries → Type 0
  GoodAfter c w =
      (w' : World tries) → update_state_object tries sha3 c w ≡ ok w' → tries.IsGood w'.trie

  module _ (short : (t : List ℕ) → length (sha3 t) ≤ 2 ^ 10) where
    pub store :
        (c : StateObject) (a : ℕ) (w : World tries)
        → c.amount ≡ pos a
        → IsShort a
        → c.nonce < 2 ^ 16
        → IsRooted tries w.heap c.state
        → tries.IsGood w.trie
        → GoodAfter c w
        → All IsByte c.address
        → Stored c w
    store c a w e small n rooted before after key =
        let s : IsStorable sha3 c a rooted.item_at = record {
          amount_eq = e;
          amount_short = small;
          nonce_small = omega arith;
          root_fits = rooted.fits;
          root_short = rooted.short;
          hash_short = short c.script;
        } in
        let done : update_state_object tries sha3 c w ≡ ok (updated tries sha3 c rooted.item_at w) =
          unfold update_state_object in rw (rooted.found) in
        record {
          world = updated tries sha3 c rooted.item_at w;
          eq = done;
          heap_eq = unfold updated in refl;
          shows =
              view-update_state_object tries sha3 c a rooted.item_at w _ s (inl n) rooted.found done
                before (after _ done) key;
        }

    -- Two objects stored one after the other, the second last.
    two_stored :
        (c d : StateObject) (a b : ℕ) (w : World tries)
        → c.amount ≡ pos a
        → IsShort a
        → c.nonce < 2 ^ 16
        → IsRooted tries w.heap c.state
        → d.amount ≡ pos b
        → IsShort b
        → d.nonce < 2 ^ 16
        → IsRooted tries w.heap d.state
        → tries.IsGood w.trie
        → GoodAfter c w
        → ((w' : World tries) → update_state_object tries sha3 c w ≡ ok w' → GoodAfter d w')
        → All IsByte c.address
        → All IsByte d.address
        → (w' : World tries) × (w'' : World tries) × (update_state_object tries sha3 c w ≡ ok w')
          × (update_state_object tries sha3 d w' ≡ ok w'')
          × ((addr : List ℕ)
              → All IsByte addr
              → view tries addr w'' ≡ (
                  if list_eq d.address addr
                  then ok (d.amount, d.nonce)
                  else (if list_eq c.address addr
                      then ok (c.amount, c.nonce)
                      else view tries addr w)))
    two_stored c d a b w e small n rooted e' small' n' rooted' good once twice key key' =
        let first = store c a w e small n rooted good once key in
        let second =
          store d b first.world e' small' n' (rw (first.heap_eq) rooted')
            (once first.world first.eq) (twice first.world first.eq) key' in
        (
          first.world,
          second.world,
          first.eq,
          second.eq,
          λ addr j. second.shows addr j ∙ rw (first.shows addr j) refl,
        )

module _ (tries : Trie) (sha3 : List ℕ → List ℕ) where
  -- What a client sees after a transfer from `from` to another address.
  abbrev pub paid : Transaction → List ℕ → ℕ → ℕ → ℕ → World tries → List ℕ → Result (ℤ × ℕ)
  paid tx from have' got nonce' w addr =
      if list_eq from addr
      then ok (pos have', tx.nonce + 1)
      else (if list_eq tx.recipient addr then ok (pos got, nonce') else view tries addr w)

  pub record Paid (tx : Transaction) (from : List ℕ) (have' got nonce' : ℕ) (w : World tries)
      (p : Processed tries) : Type 0 where
    pub gas_eq : p.gas ≡ payload_gas tx
    pub error_eq : p.error ≡ none
    pub shows :
        (addr : List ℕ)
        → All IsByte addr
        → view tries addr p.world ≡ paid tx from have' got nonce' w addr

  -- The sender after it has paid, and the recipient with the value.
  abbrev pub payer : Transaction → StateObject → StateObject
  payer tx c = sub_amount (total_amount tx) (record c { nonce = u64 (c.nonce + 1) })

  abbrev pub payee : Transaction → StateObject → StateObject
  payee tx d = add_amount tx.value d

  transfer_pays :
      (short : (t : List ℕ) → length (sha3 t) ≤ 2 ^ 10) (tx : Transaction) (from : List ℕ)
      (c d : StateObject) (have' got : ℕ) (w : World tries)
      → list_eq tx.recipient from ≡ false
      → c.address ≡ from
      → d.address ≡ tx.recipient
      → c.nonce ≡ tx.nonce
      → c.amount -ℤ total_amount tx ≡ pos have'
      → d.amount +ℤ tx.value ≡ pos got
      → IsShort have'
      → IsShort got
      → c.nonce + 1 < 2 ^ 16
      → d.nonce < 2 ^ 16
      → IsRooted tries w.heap c.state
      → IsRooted tries w.heap d.state
      → tries.IsGood w.trie
      → GoodAfter tries sha3 (payee tx d) w
      → ((w' : World tries)
          → update_state_object tries sha3 (payee tx d) w ≡ ok w'
          → GoodAfter tries sha3 (payer tx c) w')
      → All IsByte from
      → All IsByte tx.recipient
      → Paid tx from have' got d.nonce w (transfer tries sha3 tx from c d w)
  transfer_pays short tx from c d have' got w other ec ed en ea eb sa sb nc nd rc rd good once twice
        key key' =
      let counted : StateObject = record c { nonce = u64 (c.nonce + 1) } in
      let wraps : u64 (c.nonce + 1) ≡ c.nonce + 1 = ground arith in
      let c' : StateObject = record counted { amount = counted.amount -ℤ total_amount tx } in
      let d' : StateObject = record d { amount = d.amount +ℤ tx.value } in
      let once' : GoodAfter tries sha3 d' w = unfold add_amount in once in
      let twice' : (v : World tries)
          → update_state_object tries sha3 d' w ≡ ok v
          → GoodAfter tries sha3 c' v =
        unfold add_amount in unfold sub_amount in twice in
      let (w', w'', e, e', shows') =
        two_stored tries sha3 short d' c' got have' w eb sb nd rd ea sa (rw wraps nc) rc good once'
          twice' (rw ed key') (rw ec key) in
      unfold transfer in
      unfold add_amount in
      unfold sub_amount in
      rw other (
        rw e (
          rw e' (record {
            gas_eq = refl;
            error_eq = refl;
            shows = λ addr j. shows' addr j ∙ rw (ec, ed, ea, eb, wraps, en) refl;
          })))

  -- The accounts of a transaction that asks for a transfer which its sender can pay. The amounts
  -- are not negative and of at most 1024 bytes, the nonces below 2 ^ 16, the addresses bytes, and the
  -- roots of the two accounts' nested tries short. The trie is good at the start, with the recipient
  -- stored, and with the sender stored as well.
  pub record Payable (recover : List ℕ → List ℕ → List ℕ) (tx : Transaction) (w : World tries)
      : Type 0 where
    pub from : List ℕ
    pub signed : sender sha3 recover tx ≡ ok from
    pub other : list_eq tx.recipient from ≡ false
    pub have : ℕ
    pub sees_sender : view tries from w ≡ ok (pos have, tx.nonce)
    pub got : ℕ
    pub got_nonce : ℕ
    pub sees_receiver : view tries tx.recipient w ≡ ok (pos got, got_nonce)
    pub value' : ℕ
    pub value_eq : tx.value ≡ pos value'
    pub total : ℕ
    pub total_eq : total_amount tx ≡ pos total
    pub enough : total ≤ have
    pub short_sender : IsShort (have - total)
    pub short_receiver : IsShort (got + value')
    pub nonce_small : tx.nonce + 1 < 2 ^ 16
    pub got_nonce_small : got_nonce < 2 ^ 16
    pub from_bytes : All IsByte from
    pub to_bytes : All IsByte tx.recipient
    pub sender_root : HasShortRoot tries from w
    pub receiver_root : HasShortRoot tries tx.recipient w
    pub good : tries.IsGood w.trie
    pub good_once :
        (c d : StateObject) (w₁ w₂ : World tries)
        → get_account tries from w ≡ ok (c, w₁)
        → get_account tries tx.recipient w₁ ≡ ok (d, w₂)
        → GoodAfter tries sha3 (payee tx d) w₂
    pub good_twice :
        (c d : StateObject) (w₁ w₂ w₃ : World tries)
        → get_account tries from w ≡ ok (c, w₁)
        → get_account tries tx.recipient w₁ ≡ ok (d, w₂)
        → update_state_object tries sha3 (payee tx d) w₂ ≡ ok w₃
        → GoodAfter tries sha3 (payer tx c) w₃

  pub view_same :
      (addr : List ℕ) (v w : World tries) → v.trie ≡ w.trie → view tries addr v ≡ view tries addr w
  view_same addr v w e = view-eq tries addr v ∙ (rw e (sym (view-eq tries addr w)))

  -- A transaction with its sender's nonce to another account, of a sender who has its value and gas
  -- cost, is processed without an error, for the gas of its payload: its sender then shows the old
  -- amount less the value and the gas cost, and the next nonce, its recipient the old amount and the
  -- value more, and every other account what it did. The amounts are not negative and, as the hashes
  -- and the roots of the two accounts, at most 1024 bytes long, the nonces, the next one included, are
  -- below 2 ^ 16, the addresses are bytes, and the state's trie is good before and after each of the two
  -- updates.
  pub process_transaction_pays :
      (short : (t : List ℕ) → length (sha3 t) ≤ 2 ^ 10) (recover : List ℕ → List ℕ → List ℕ)
      (tx : Transaction) (w : World tries) (h : Payable recover tx w)
      → Paid tx h.from
          (h.have - h.total)
          (h.got + h.value')
          h.got_nonce
          w
          (process_transaction tries sha3 recover tx w)
  process_transaction_pays short recover tx w h =
      let f = fetch tries h.from w (pos h.have) tx.nonce h.sender_root h.sees_sender in
      let g =
        fetch tries tx.recipient f.world (pos h.got) h.got_nonce
          (HasShortRoot-same tries tx.recipient f.world w f.trie_eq f.db_eq h.receiver_root)
          (view_same tx.recipient f.world w f.trie_eq ∙ h.sees_receiver) in
      let done =
        transfer_pays short tx h.from f.object g.object (h.have - h.total) (h.got + h.value')
          g.world h.other f.address_eq g.address_eq f.nonce_eq
          (rw (f.amount_eq, h.total_eq) (pos-minus h.have h.total h.enough))
          (rw (g.amount_eq, h.value_eq) (pos-plus h.got h.value')) h.short_sender h.short_receiver
          (rw f.nonce_eq h.nonce_small) (rw g.nonce_eq h.got_nonce_small)
          (rw g.heap_eq (IsRooted-append tries f.world.heap g.grown f.object.state f.rooted))
          g.rooted (rw (g.trie_eq, f.trie_eq) h.good)
          (h.good_once f.object g.object f.world g.world f.eq g.eq)
          (λ w₃. h.good_twice f.object g.object f.world g.world w₃ f.eq g.eq) h.from_bytes
          h.to_bytes in
      let seen : (addr : List ℕ) → view tries addr g.world ≡ view tries addr w =
        λ addr. view_same addr g.world f.world g.trie_eq ∙ view_same addr f.world w f.trie_eq in
      let covers : ltb_ℤ f.object.amount (total_amount tx) ≡ false =
        rw (f.amount_eq, h.total_eq) (ltb_ℤ-pos h.have h.total h.enough) in
      unfold process_transaction in
      rw (h.signed) (
        rw (f.eq) (
          rw (same_nonce f.object.nonce tx.nonce f.nonce_eq) (
            rw covers (
              rw (g.eq) (record {
                gas_eq = done.gas_eq;
                error_eq = done.error_eq;
                shows = λ addr j. done.shows addr j ∙ rw (seen addr, g.nonce_eq) refl;
              })))))
