-- ===== src/Database.antt =====
-- ethdb/memory_database.go: a database in memory, as a list of its entries, the newest first. The
-- entry none stands for a deleted key; a missing key reads as nil.
use goeth_self_training.Prelude.{
  lookup, ℕ, ◌≡◌, refl, Option, some, none, List, [], ◌∷◌, list_eq, if◌then◌else◌, Bool-cases, inl,
  inr,
}

abbrev pub MemDatabase : Type 0
MemDatabase = List (List ℕ × Option (List ℕ))

unfoldable pub put : List ℕ → List ℕ → MemDatabase → MemDatabase
put key value' db = (key, some value') ∷ db

abbrev or_nil : Option (Option (List ℕ)) → List ℕ
or_nil none = []
or_nil (some none) = []
or_nil (some (some v)) = v

unfoldable pub get : List ℕ → MemDatabase → List ℕ
get key db = or_nil (lookup key db)

unfoldable pub delete : List ℕ → MemDatabase → MemDatabase
delete key db = (key, none) ∷ db

-- The bytes of "LastKnownTotalDifficulty".
abbrev pub last_known_key : List ℕ
last_known_key =
    76 ∷ 97 ∷ 115 ∷ 116 ∷ 75 ∷ 110 ∷ 111 ∷ 119 ∷ 110 ∷ 84 ∷ 111 ∷ 116 ∷ 97 ∷ 108 ∷ 68 ∷ 105 ∷ 102
    ∷ 102 ∷ 105 ∷ 99 ∷ 117 ∷ 108 ∷ 116 ∷ 121 ∷ []

abbrev or_zero : List ℕ → List ℕ
or_zero [] = 0 ∷ []
or_zero (b ∷ bs) = b ∷ bs

unfoldable pub last_known_td : MemDatabase → List ℕ
unfolding get
last_known_td db = or_zero (get last_known_key db)

-- After a `Put` its key reads the value; after a `Delete` it reads nil; after either every other
-- key reads what it did.
pub get-put-delete :
    (key value' j : List ℕ) (db : MemDatabase)
    → (get j (put key value' db) ≡ (if list_eq key j then value' else get j db))
      × (get j (delete key db) ≡ (if list_eq key j then [] else get j db))
unfolding get put delete
get-put-delete key value' j db = elim (Bool-cases (list_eq key j)) [
  | inl e ↦ (rw e refl, rw e refl)
  | inr e ↦ (rw e refl, rw e refl)
]
