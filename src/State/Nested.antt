-- ===== src/State/Nested.antt =====
-- `Reset`, `Sync`, `Copy`, `Snapshot`, `Revert`, `Cmp`, `Put` and `Root` of ethchain/state.go. The
-- states that are nested in a nested state are left out: none is ever put there. Copy makes a new
-- manifest, but of a copy only the tries are read.
use goeth_self_training.Prelude.{ℕ, zero, suc, Bool, List, [], ◌∷◌, ◌++◌, length, get_elem?}
use goeth_self_training.Prelude.Result.{Result, ok, ◌>>=◌, or_panic}
use goeth_self_training.Item.{Item}
use goeth_self_training.Value.{new_value}
use goeth_self_training.Trie.{Trie}
use goeth_self_training.Trie.Ops.{deep_equal}
use goeth_self_training.State.{World}

-- A slice with one element put anew.
abbrev pub put_at {ℓ} : {A : Type ℓ} → ℕ → A → List A → List A
put_at i a [] = []
put_at zero a (x ∷ xs) = a ∷ xs
put_at (suc i) a (x ∷ xs) = x ∷ put_at i a xs

-- The trie and the nested states that `Snapshot` keeps.
pub record Snapshot (tries : Trie) : Type 0 where
  pub trie : tries.T
  pub states : List (List ℕ × ℕ)

module _ (tries : Trie) where
  open tries use {T, get, update, root}

  -- `NewState` over a trie: no nested states, and a new manifest.
  unfoldable pub new_state : T → (List ℕ → List ℕ) → World tries
  new_state t db = record { trie = t; states = []; heap = []; db = db; changed = [] }

  -- `Reset`: Undo of the trie and of each nested one.
  unfoldable pub reset_states : List (List ℕ × ℕ) → List T → Result (List T)
  reset_states [] heap = ok heap
  reset_states ((k, r) ∷ states) heap = do
    t ← or_panic (get_elem? heap r)
    reset_states states (put_at r (tries.undo t) heap)

  unfoldable pub reset_state : World tries → Result (World tries)
  unfolding reset_states
  reset_state w = do
    heap ← reset_states w.states w.heap
    ok (record w { trie = tries.undo w.trie; heap = heap })

  -- `Sync`: the nested tries first, then the state's own.
  unfoldable pub sync_states :
      List (List ℕ × ℕ) → List T → (List ℕ → List ℕ) → Result (List T × (List ℕ → List ℕ))
  sync_states [] heap db = ok (heap, db)
  sync_states ((k, r) ∷ states) heap db = do
    t ← or_panic (get_elem? heap r)
    let (t', db') = tries.sync t db
    sync_states states (put_at r t' heap) db'

  unfoldable pub sync_state : World tries → Result (World tries)
  unfolding sync_states
  sync_state w = do
    (heap, db) ← sync_states w.states w.heap w.db
    let (t, db') = tries.sync w.trie db
    ok (record w { trie = t; heap = heap; db = db' })

  -- The copies of the nested states, at the end of the heap.
  unfoldable pub copy_states : List (List ℕ × ℕ) → List T → Result (List (List ℕ × ℕ) × List T)
  copy_states [] heap = ok ([], heap)
  copy_states ((k, r) ∷ states) heap = do
    t ← or_panic (get_elem? heap r)
    (copied, heap') ← copy_states states (heap ++ tries.copy t ∷ [])
    ok ((k, length heap) ∷ copied, heap')

  -- `Snapshot`, which is `Copy`: the copy, and the world with the copied tries in its heap.
  unfoldable pub snapshot : World tries → Result (Snapshot tries × World tries)
  unfolding copy_states
  snapshot w = do
    (states, heap) ← copy_states w.states w.heap
    ok (record { trie = tries.copy w.trie; states = states }, record w { heap = heap })

  -- `Revert`: objects that were read before keep the nested states that they had.
  unfoldable pub revert : Snapshot tries → World tries → World tries
  revert s w = record w { trie = s.trie; states = s.states }

  -- `Cmp`
  unfoldable pub cmp_states : World tries → World tries → Bool
  unfolding deep_equal new_value
  cmp_states w other = deep_equal (new_value (root w.trie)) (new_value (root other.trie))

  -- `Put` and `Root`
  unfoldable pub put_object : List ℕ → List ℕ → World tries → World tries
  put_object key object w = record w { trie = update w.trie key object }

  unfoldable pub root_item : World tries → Item
  root_item w = root w.trie
