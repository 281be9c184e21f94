-- ===== src/Network/Caps.antt =====
-- The capabilities of a peer and the reasons of a disconnect (peer.go).
use goeth_self_training.Prelude.{
  ℕ, zero, suc, ◌/◌, ◌%◌, ◌==◌, Option, some, none, Bool, List, [], ◌∷◌, ◌++◌, ltb, if◌then◌else◌,
  length, get_elem?,
}
use goeth_self_training.Prelude.Result.{Result, ok, ◌>>=◌, or_panic}

-- c & cap > 0 for a `cap` of one bit, 1 << k.
abbrev pub bit : ℕ → ℕ → Bool
bit zero c = c % 2 == 1
bit (suc k) c = bit k (c / 2)

-- `IsCap`, for the capability 1 << k: peer discovery, transactions and the chain are 0, 1 and 2.
unfoldable pub is_cap : ℕ → ℕ → Bool
is_cap k c = bit k c

-- `String` by the numbers of the names that strings.Join puts together.
unfoldable pub caps_named : ℕ → List ℕ
unfolding is_cap
caps_named c =
    (if is_cap 0 c then 0 ∷ [] else [])
    ++ ((if is_cap 2 c then 2 ∷ [] else []) ++ (if is_cap 1 c then 1 ∷ [] else []))

-- The names of the eight reasons, by their numbers.
abbrev pub reasons : List ℕ
reasons = 0 ∷ 1 ∷ 2 ∷ 3 ∷ 4 ∷ 5 ∷ 6 ∷ 7 ∷ []

-- `String` of a reason, none for "Unknown".
unfoldable pub reason_named : ℕ → Result (Option ℕ)
reason_named d =
    if ltb (length reasons) d
    then ok none
    else (or_panic (get_elem? reasons d) >>= λ r. ok (some r))
