-- ===== src/State/Fetch.antt =====
-- What `GetAccount` (ethchain/state.go) returns for an address with a given amount and nonce.
use goeth_self_training.Prelude.{
  ℕ, ◌≤◌, ◌^◌, ◌≡◌, inl, refl, ap, sym, Option, some, none, List, [], ◌∷◌, ◌++◌, length, get_elem?,
  arith, get_elem?-append, append-nil, get_elem?-prefix,
}
use goeth_self_training.Prelude.Int.{ℤ}
use goeth_self_training.Prelude.Result.{ok, or_panic, ok-injective, >>=-Yields, or_panic-ok}
use goeth_self_training.Item.{Item, str}
use goeth_self_training.Rlp.{encode, encode_bytes}
use goeth_self_training.Rlp.Plain.{Fits}
use goeth_self_training.Value
use goeth_self_training.Value.{new_value_from_bytes, to_big}
use goeth_self_training.Trie.{Trie}
use goeth_self_training.State.{
  StateObject, World, loaded, from_bytes, from_data, get_account, root_of,
}
use goeth_self_training.State.Objects.{view}

-- The root item of every trie has a short code that can be read back.
pub record HasShortRoots (tries : Trie) : Type 0 where
  pub fits : (t : tries.T) → Fits (tries.root t)
  pub short : (t : tries.T) → length (encode (tries.root t)) ≤ 2 ^ 10

module _ (tries : Trie) where
  -- The same of the one root that the account of an address has.
  abbrev pub HasShortRoot : List ℕ → World tries → Type 0
  HasShortRoot addr w =
      (v : Item)
      → new_value_from_bytes (tries.get w.trie addr) ≡ ok v
      → Fits (tries.root (tries.at_root w.db (Value.get v 2)))
        × (length (encode (tries.root (tries.at_root w.db (Value.get v 2)))) ≤ 2 ^ 10)

  pub HasShortRoots-one :
      (roots : HasShortRoots tries) (addr : List ℕ) (w : World tries) → HasShortRoot addr w
  HasShortRoots-one roots addr w = λ v e. (roots.fits _, roots.short _)

  pub HasShortRoot-same :
      (addr : List ℕ) (v w : World tries)
      → v.trie ≡ w.trie
      → v.db ≡ w.db
      → HasShortRoot addr w
      → HasShortRoot addr v
  HasShortRoot-same addr v w e e' h = λ i f. rw e' (h i (rw e at f))

  -- The object's nested trie is in the heap, or it has none.
  pub record IsRooted (heap : List tries.T) (state : Option ℕ) : Type 0 where
    pub item_at : Item
    pub found : root_of tries heap state ≡ ok item_at
    pub fits : Fits item_at
    pub short : length (encode item_at) ≤ 2 ^ 10

  pub record Fetched (addr : List ℕ) (w : World tries) (amount : ℤ) (nonce : ℕ) : Type 0 where
    pub object : StateObject
    pub world : World tries
    pub eq : get_account tries addr w ≡ ok (object, world)
    pub amount_eq : object.amount ≡ amount
    pub nonce_eq : object.nonce ≡ nonce
    pub address_eq : object.address ≡ addr
    pub trie_eq : world.trie ≡ w.trie
    pub db_eq : world.db ≡ w.db
    pub rooted : IsRooted world.heap object.state
    pub grown : List tries.T
    pub heap_eq : world.heap ≡ w.heap ++ grown

  -- A value of `GetAccount` at an address.
  abbrev IsFetch : List ℕ → World tries → StateObject × World tries → Type 0
  IsFetch addr w (c, w') =
      (c.address ≡ addr)
      × (w'.trie ≡ w.trie)
      × (w'.db ≡ w.db)
      × IsRooted w'.heap c.state
      × ((grown : List tries.T) × (w'.heap ≡ w.heap ++ grown))

module _ (tries : Trie) where
  loaded-IsFetch :
      (addr : List ℕ) (amount : ℤ) (v : Item) (w : World tries)
      → Fits (tries.root (tries.at_root w.db (Value.get v 2)))
        × (length (encode (tries.root (tries.at_root w.db (Value.get v 2)))) ≤ 2 ^ 10)
      → IsFetch tries addr w (loaded tries addr amount v w)
  unfolding root_of
  loaded-IsFetch addr amount v w root =
      let t = tries.at_root w.db (Value.get v 2) in
      (
        refl,
        refl,
        refl,
        record {
          item_at = tries.root t;
          found = rw (get_elem?-append w.heap [] t, root_of);
          fits = root.0;
          short = root.1;
        },
        (t ∷ [], refl),
      )

  from_bytes-IsFetch :
      (addr data' : List ℕ) (w : World tries) (p : StateObject × World tries)
      → from_bytes tries addr data' w ≡ ok p
      → ((v : Item)
          → new_value_from_bytes data' ≡ ok v
          → Fits (tries.root (tries.at_root w.db (Value.get v 2)))
            × (length (encode (tries.root (tries.at_root w.db (Value.get v 2)))) ≤ 2 ^ 10))
      → IsFetch tries addr w p
  unfolding from_bytes
  from_bytes-IsFetch addr data' w p e root =
      let (v, e₁, f) = >>=-Yields (new_value_from_bytes data') _ e in
      let (amount, e₂, g) = >>=-Yields (or_panic (to_big (Value.get v 0))) _ f in
      rw (← ok-injective g) (loaded-IsFetch addr amount v w (root v e₁))

  empty-Fits : Fits (str [])
  unfolding Fits
  empty-Fits = inl (omega arith)

  empty_short : length (encode (str [])) ≤ 2 ^ 10
  unfolding encode encode_bytes
  empty_short = omega arith

  from_data-IsFetch :
      (addr data' : List ℕ) (w : World tries) (p : StateObject × World tries)
      → from_data tries addr data' w ≡ ok p
      → ((v : Item)
          → new_value_from_bytes data' ≡ ok v
          → Fits (tries.root (tries.at_root w.db (Value.get v 2)))
            × (length (encode (tries.root (tries.at_root w.db (Value.get v 2)))) ≤ 2 ^ 10))
      → IsFetch tries addr w p
  unfolding root_of
  from_data-IsFetch addr [] w p e root = rw (← ok-injective e) (
    refl,
    refl,
    refl,
    record { item_at = str []; found = refl; fits = empty-Fits; short = empty_short },
    ([], sym (append-nil w.heap)),
  )
  from_data-IsFetch addr (b ∷ bs) w p e root = from_bytes-IsFetch addr (b ∷ bs) w p e root

  -- Where the view of an address is known, `GetAccount` returns an object with it.
  pub fetch :
      (addr : List ℕ) (w : World tries) (amount : ℤ) (nonce : ℕ)
      → HasShortRoot tries addr w
      → view tries addr w ≡ ok (amount, nonce)
      → Fetched tries addr w amount nonce
  unfolding view get_account
  fetch addr w amount nonce root e =
      let (p, e₁, e₂) = >>=-Yields (get_account tries addr w) _ e in
      let same = ok-injective e₂ in
      let (addr_eq, trie_eq', db_eq', rooted', (grown', heap_eq')) =
        from_data-IsFetch addr (tries.get w.trie addr) w p e₁ root in
      record {
        object = p.0;
        world = p.1;
        eq = e₁;
        amount_eq = ap (λ q. q.0) same;
        nonce_eq = ap (λ q. q.1) same;
        address_eq = addr_eq;
        trie_eq = trie_eq';
        db_eq = db_eq';
        rooted = rooted';
        grown = grown';
        heap_eq = heap_eq';
      }

module _ (tries : Trie) where
  -- A trie of the heap stays where it is when more are added.
  pub IsRooted-append :
      (heap more : List tries.T) (state : Option ℕ)
      → IsRooted tries heap state
      → IsRooted tries (heap ++ more) state
  unfolding root_of
  IsRooted-append heap more none r = record {
    item_at = r.item_at;
    found = r.found;
    fits = r.fits;
    short = r.short;
  }
  IsRooted-append heap more (some i) r =
      let (t, e₁, e₂) = >>=-Yields (or_panic (get_elem? heap i)) _ r.found in
      record {
        item_at = r.item_at;
        found = rw (get_elem?-prefix heap more i t (or_panic-ok (get_elem? heap i) t e₁)) e₂;
        fits = r.fits;
        short = r.short;
      }
