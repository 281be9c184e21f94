-- ===== src/StateManager/Rewards.antt =====
-- What `AccumelateRewards` (ethchain/state_manager.go) adds to the accounts.
use goeth_self_training.Prelude.{
  inl, inr, ℕ, zero, suc, ◌+◌, ◌*◌, ◌<◌, ◌≤◌, ◌^◌, ◌≡◌, ◌∙◌, refl, ap, List, [], ◌∷◌, list_eq,
  list_eq_sound, list_eq_refl, map, if◌then◌else◌, length, All, arith, Bool-cases,
}
use goeth_self_training.Prelude.Int.{pos_part, ℤ, pos, ◌+ℤ◌, ◌-ℤ◌, pos-plus, pos-minus}
use goeth_self_training.Prelude.Result.{
  Result, ok, panic, out_of_fuel, ◌>>=◌, Returns, Returns-bind, Returns-map,
}
use goeth_self_training.Bytes.{IsByte}
use goeth_self_training.Bytes.BigEndian.{length-be_bytes_le}
use goeth_self_training.Trie.{Trie}
use goeth_self_training.State.{StateObject, World, add_amount}
use goeth_self_training.State.Objects.{view}
use goeth_self_training.State.Fetch.{HasShortRoot, fetch}
use goeth_self_training.Transaction.{Receipt}
use goeth_self_training.TxPool.Transfer.{IsShort, store, view_same}
use goeth_self_training.Blocks.{Header, Block}
use goeth_self_training.StateManager.{
  block_reward, uncle_reward, uncle_inclusion_reward, calculate_block_reward, inclusion_reward,
  gas_reward, calculate_uncle_reward, add_reward, reward_uncles, accumelate_rewards,
}

-- What some payments come to for an address.
abbrev pub credited : List (List ℕ × ℕ) → List ℕ → ℕ
credited [] addr = 0
credited ((to, amount) ∷ more) addr =
    let rest = credited more addr in if list_eq to addr then amount + rest else rest

-- The payments of a block: the reward to its coinbase, and one to each uncle's.
abbrev pub uncle_credits : List Header → List (List ℕ × ℕ)
uncle_credits us = map (λ u. (u.coinbase, uncle_reward)) us

amount-IsShort : (a : ℕ) → a < 2 ^ 256 → IsShort a
amount-IsShort a h = omega (arith, length-be_bytes_le 32 a h)

abbrev shown_as : ℤ → ℕ → Result (ℤ × ℕ)
shown_as amount nonce = ok (amount, nonce)

-- One payment of several.
credited-∷ :
    (have : List ℕ → ℕ) (to : List ℕ) (amount : ℕ) (more : List (List ℕ × ℕ)) (addr : List ℕ)
    → (if list_eq to addr then have addr + amount else have addr) + credited more addr
      ≡ have addr + credited ((to, amount) ∷ more) addr
credited-∷ have to amount more addr = elim (Bool-cases (list_eq to addr)) [
  | inl same ↦ rw same (omega arith)
  | inr other ↦ rw other refl
]

credited_self :
    (have : List ℕ → ℕ) (to : List ℕ) (amount : ℕ) (more : List (List ℕ × ℕ))
    → have to + credited ((to, amount) ∷ more) to < 2 ^ 256
    → have to + amount < 2 ^ 256
credited_self have to amount more h =
    let same : credited ((to, amount) ∷ more) to ≡ amount + credited more to =
      rw (list_eq_refl to) refl in
    omega (arith, same)

module _ (tries : Trie) where
  -- Every address shows the amount and the nonce of the books; all are small.
  pub record Books (have nonces : List ℕ → ℕ) (w : World tries) : Type 0 where
    pub shows :
        (addr : List ℕ) → All IsByte addr → view tries addr w ≡ ok (pos (have addr), nonces addr)
    pub small : (addr : List ℕ) → nonces addr < 2 ^ 16

  Books-same :
      (f g nonces : List ℕ → ℕ) (w : World tries)
      → ((addr : List ℕ) → f addr ≡ g addr)
      → Books f nonces w
      → Books g nonces w
  Books-same f g nonces w e books = record {
    shows = λ addr j. books.shows addr j ∙ ap (λ n. shown_as (pos n) (nonces addr)) (e addr);
    small = books.small;
  }

  module _ (sha3 : List ℕ → List ℕ) where
    -- Along the payments, one after the other: each address is bytes and has an account with a short
    -- root, and the trie is good before each payment and behind the last.
    abbrev pub GoodAlong : List (List ℕ × ℕ) → World tries → Type 0
    GoodAlong [] w = tries.IsGood w.trie
    GoodAlong ((to, amount) ∷ more) w =
        All IsByte to
        × HasShortRoot tries to w
        × tries.IsGood w.trie
        × ((w' : World tries) → add_reward tries sha3 to (pos amount) w ≡ ok w' → GoodAlong more w')

    GoodAlong-IsGood :
        (credits : List (List ℕ × ℕ)) (w : World tries) → GoodAlong credits w → tries.IsGood w.trie
    GoodAlong-IsGood [] w g = g
    GoodAlong-IsGood ((to, amount) ∷ more) w (key, root, good, rest) = good

  module _ (sha3 : List ℕ → List ℕ) (short : (t : List ℕ) → length (sha3 t) ≤ 2 ^ 10) where
    add_reward-Books :
        (have nonces : List ℕ → ℕ) (to : List ℕ) (amount : ℕ) (w : World tries)
        → Books have nonces w
        → have to + amount < 2 ^ 256
        → All IsByte to
        → HasShortRoot tries to w
        → tries.IsGood w.trie
        → ((w' : World tries)
            → add_reward tries sha3 to (pos amount) w ≡ ok w'
            → tries.IsGood w'.trie)
        → Returns
            (Books (λ addr. if list_eq to addr then have addr + amount else have addr) nonces)
            (add_reward tries sha3 to (pos amount) w)
    unfolding add_reward add_amount
    add_reward-Books have nonces to amount w books h key root good after =
        let f = fetch tries to w (pos (have to)) (nonces to) root (books.shows to key) in
        let c : StateObject = record f.object { amount = f.object.amount +ℤ pos amount } in
        let sum : c.amount ≡ pos (have to + amount) =
          rw (f.amount_eq) (pos-plus (have to) amount) in
        let few : c.nonce < 2 ^ 16 = omega (arith, f.nonce_eq, books.small to) in
        let s =
          store tries sha3 short c (have to + amount) f.world sum
            (amount-IsShort (have to + amount) h) few f.rooted (rw f.trie_eq good)
            (λ w' e. after w' (rw f.eq e)) (rw f.address_eq key) in
        rw (f.eq, s.eq)
          (record {
            shows = λ addr j.
                s.shows addr j
                ∙ rw (view_same tries sha3 addr f.world w f.trie_eq, books.shows addr j)
                    (credit addr f.object sum f.address_eq f.nonce_eq);
            small = books.small;
          })
      where
        credit :
            (addr : List ℕ) (o : StateObject)
            → (o.amount +ℤ pos amount ≡ pos (have to + amount))
            → o.address ≡ to
            → o.nonce ≡ nonces to
            → (if list_eq o.address addr
                then shown_as (o.amount +ℤ pos amount) o.nonce
                else shown_as (pos (have addr)) (nonces addr))
              ≡ ok (pos (if list_eq to addr then have addr + amount else have addr), nonces addr)
        credit addr o e a n =
            rw (e, a, n)
              (elim (Bool-cases (list_eq to addr)) [
                | inl same ↦ rw (same, list_eq_sound to addr same) refl
                | inr other ↦ rw other refl
              ])

    -- What holds of every answer holds of the one that comes.
    Returns-along :
        (m : Result (World tries)) (P Q : World tries → Type 0)
        → Returns P m
        → ((w' : World tries) → m ≡ ok w' → Q w')
        → Returns (λ w'. P w' × Q w') m
    Returns-along (ok w') P Q p q = (p, q w' refl)
    Returns-along panic P Q p q = p
    Returns-along out_of_fuel P Q p q = p

    -- A payment in front of others, which the rest of a run makes.
    after_add_reward :
        (have nonces : List ℕ → ℕ) (to : List ℕ) (amount : ℕ) (more : List (List ℕ × ℕ))
        (run : World tries → Result (World tries)) (w : World tries)
        → Books have nonces w
        → ((addr : List ℕ) → have addr + credited ((to, amount) ∷ more) addr < 2 ^ 256)
        → GoodAlong sha3 ((to, amount) ∷ more) w
        → ((got : List ℕ → ℕ) (w' : World tries)
            → Books got nonces w'
            → GoodAlong sha3 more w'
            → ((addr : List ℕ) → got addr + credited more addr < 2 ^ 256)
            → Returns (Books (λ addr. got addr + credited more addr) nonces) (run w'))
        → Returns
            (Books (λ addr. have addr + credited ((to, amount) ∷ more) addr) nonces)
            (add_reward tries sha3 to (pos amount) w >>= run)
    after_add_reward have nonces to amount more run w books h (key, root, good, along) rest =
        let got : List ℕ → ℕ = λ addr. if list_eq to addr then have addr + amount else have addr in
        let end : List ℕ → ℕ = λ addr. have addr + credited ((to, amount) ∷ more) addr in
        Returns-bind (λ w'. Books got nonces w' × GoodAlong sha3 more w') (Books end nonces)
          (add_reward tries sha3 to (pos amount) w) run
          (Returns-along _ (Books got nonces) (GoodAlong sha3 more)
            (add_reward-Books have nonces to amount w books
              (credited_self have to amount more (h to)) key root good
              (λ w' e. GoodAlong-IsGood sha3 more w' (along w' e)))
            along)
          (λ w' (books', along').
            Returns-map (Books (λ addr. got addr + credited more addr) nonces) (Books end nonces)
              (run w') (λ w''. Books-same _ end nonces w'' (credited-∷ have to amount more))
              (rest got w' books' along'
                (λ addr. rw (credited-∷ have to amount more addr) (h addr))))

    reward_uncles-Books :
        (us : List Header) (have nonces : List ℕ → ℕ) (w : World tries)
        → Books have nonces w
        → ((addr : List ℕ) → have addr + credited (uncle_credits us) addr < 2 ^ 256)
        → GoodAlong sha3 (uncle_credits us) w
        → Returns
            (Books (λ addr. have addr + credited (uncle_credits us) addr) nonces)
            (reward_uncles tries sha3 us w)
    unfolding reward_uncles calculate_uncle_reward
    reward_uncles-Books [] have nonces w books h g =
        Books-same have _ nonces w (λ addr. omega arith) books
    reward_uncles-Books (u ∷ us) have nonces w books h g =
        after_add_reward have nonces u.coinbase uncle_reward (uncle_credits us)
          (λ w'. reward_uncles tries sha3 us w') w books h g
          (λ got w' books' g' h'. reward_uncles-Books us got nonces w' books' h' g')

    -- `AccumelateRewards` succeeds, and adds the block's reward to its coinbase and UncleReward to
    -- the coinbase of each uncle, as often as they are named, and nothing to any other address; no
    -- nonce changes. Before, every address of bytes shows an amount that is not negative and a nonce
    -- below 2 ^ 16, no amount comes to 2 ^ 256, the block's reward is not negative, and the hashes are
    -- at most 1024 bytes long. The coinbases are bytes, the roots of their accounts are short, and the
    -- state's trie is good before and after each payment.
    pub accumelate_rewards-Books :
        (b : Block) (reward : ℕ) (have nonces : List ℕ → ℕ) (w : World tries)
        → Books have nonces w
        → calculate_block_reward b (length b.uncles) ≡ pos reward
        → ((addr : List ℕ)
            → have addr + credited ((b.head.coinbase, reward) ∷ uncle_credits b.uncles) addr
              < 2 ^ 256)
        → GoodAlong sha3 ((b.head.coinbase, reward) ∷ uncle_credits b.uncles) w
        → Returns
            (Books
              (λ addr.
                have addr + credited ((b.head.coinbase, reward) ∷ uncle_credits b.uncles) addr)
              nonces)
            (accumelate_rewards tries sha3 b w)
    unfolding accumelate_rewards
    accumelate_rewards-Books b reward have nonces w books e h g = rw e (
        after_add_reward have nonces b.head.coinbase reward (uncle_credits b.uncles)
          (λ w'. reward_uncles tries sha3 b.uncles w') w books h g
          (λ got w' books' g' h'. reward_uncles-Books b.uncles got nonces w' books' h' g'))

-- The cumulative gas and the gas price of the receipts, added up.
abbrev pub gas_total : List Receipt → ℕ
gas_total [] = 0
gas_total (r ∷ rs) = pos_part r.cumulative_gas_used + pos_part r.tx.gas_price + gas_total rs

abbrev pub IsPaid : Receipt → Type 0
IsPaid r = (c : ℕ) × (p : ℕ) × (r.cumulative_gas_used ≡ pos c) × (r.tx.gas_price ≡ pos p)

minus_zero : (c : ℕ) → pos c -ℤ pos 0 ≡ pos c
minus_zero c = pos-minus c 0 (omega arith) ∙ ap pos (omega arith)

gas_reward-pos :
    (rs : List Receipt) (base : ℕ)
    → All IsPaid rs
    → gas_reward (pos base) rs ≡ pos (base + gas_total rs)
unfolding gas_reward
gas_reward-pos [] base all = ap pos (omega arith)
gas_reward-pos (r ∷ rs) base ((c, p, ec, ep), all) =
    rw (ec, ep, minus_zero c, pos-plus c p, pos-plus base (c + p))
      (gas_reward-pos rs (base + (c + p)) all ∙ ap pos (omega arith))

inclusion_reward-pos :
    (n base : ℕ) → inclusion_reward (pos base) n ≡ pos (base + n * uncle_inclusion_reward)
unfolding inclusion_reward
inclusion_reward-pos zero base = ap pos (omega arith)
inclusion_reward-pos (suc n) base =
    rw (pos-plus base uncle_inclusion_reward)
      (inclusion_reward-pos n (base + uncle_inclusion_reward) ∙ ap pos (omega arith))

-- The reward of a block whose receipts have no negative amounts: the fixed reward, a share for each
-- uncle, and for each receipt its gas price and all the gas that was used up to it, so that the gas
-- of a transaction counts again with every receipt behind it.
pub calculate_block_reward-total :
    (b : Block) (uncles : ℕ)
    → All IsPaid b.receipts
    → calculate_block_reward b uncles
      ≡ pos (block_reward + uncles * uncle_inclusion_reward + gas_total b.receipts)
unfolding calculate_block_reward
calculate_block_reward-total b uncles paid =
    let shares = uncles * uncle_inclusion_reward in
    rw
      (
        inclusion_reward-pos uncles 0,
        gas_reward-pos b.receipts (0 + shares) paid,
        pos-plus (0 + shares + gas_total b.receipts) block_reward,
      )
      (ap pos (omega arith))
