-- ===== src/Tests/Writing.antt =====
-- Tries of ethutil/trie.go that grow by single updates, with a hash that takes in all of its bytes.
use goeth_self_training.Prelude.{
  ℕ, zero, ◌+◌, ◌*◌, ◌%◌, ◌≡◌, ◌≤◌, ◌∙◌, sym, subst, arith, Bool, true, false, All, List, [], ◌∷◌,
  ◌++◌, length, length-append, length-take, length-replicate, list_eq, list_eq_refl, if◌then◌else◌,
  take, replicate, Bool-cases, inl, inr,
}
use goeth_self_training.Prelude.Result.{Result, ok, ok-injective}
use goeth_self_training.Bytes.{IsByte}
use goeth_self_training.Item.{Item, str}
use mathlib.Core.Bool.{true≢false}
use goeth_self_training.Trie.{Trie}
use goeth_self_training.Trie.Cache.{Nodes}
use goeth_self_training.Trie.Ops.{RawTrie, new_trie, update_key}
use goeth_self_training.Trie.Rep.{Known, Coherent}
use goeth_self_training.Trie.Refines.{Updates, then_update, Updates-Stands}
use goeth_self_training.Trie.Instance.{by_nodes, IsSound}

-- A number that depends on all of the bytes, in front of the first 31.
abbrev checksum : List ℕ → ℕ
checksum [] = 0
checksum (b ∷ s) = (b + 1 + 31 * checksum s) % 1000003

abbrev pub mixed : List ℕ → List ℕ
mixed s = take 32 (checksum s ∷ s ++ replicate 32 0)

pub length-mixed : (s : List ℕ) → length (mixed s) ≡ 32
length-mixed s = omega (
  arith,
  length-take 32 (checksum s ∷ s ++ replicate 32 0),
  length-append s (replicate 32 0),
  length-replicate 32 zero,
)

abbrev pub nothing : List ℕ → List ℕ
nothing s = []

abbrev pub nodes : Trie
nodes = by_nodes mixed length-mixed nothing 100

-- No two entries of a cache have one hash.
abbrev absent : List ℕ → Nodes → Bool
absent h [] = true
absent h ((g, o) ∷ ns) = let rest = absent h ns in if list_eq g h then false else rest

abbrev pub apart : Nodes → Bool
apart [] = true
apart ((h, o) ∷ ns) = let rest = apart ns in if absent h ns then rest else false

absent-Known : (h : List ℕ) (ns : Nodes) (v : Item) → absent h ns ≡ true → Known ns h v → ⊥
absent-Known h [] v e k = elim k [ ]
absent-Known h ((g, o) ∷ ns) v e k = elim (Bool-cases (list_eq g h)) [
  | inl same ↦ true≢false (sym (rw same at e))
  | inr other ↦ elim k [
    | inl p ↦ true≢false (sym (list_eq_refl h) ∙ (rw (p.0) at other))
    | inr q ↦ absent-Known h ns v (rw other at e) q
  ]
]

apart-Coherent : (ns : Nodes) → apart ns ≡ true → Coherent ns
apart-Coherent [] e = tt
apart-Coherent ((h, o) ∷ ns) e = elim (Bool-cases (absent h ns)) [
  | inl new ↦ ((λ v k. absurd (absent-Known h ns v new k)), apart-Coherent ns (rw new at e))
  | inr old ↦ absurd (true≢false (sym (rw old at e)))
]

-- One more value.
abbrev pub Written : RawTrie → Type 0
Written t =
    (history : List (List ℕ × List ℕ)) × Updates mixed length-mixed nothing nothing t history

pub one_more :
    (t u : RawTrie) (key v : List ℕ)
    → Written t
    → All IsByte key
    → 1 ≤ length v
    → update_key mixed nothing key v t ≡ ok u
    → apart u.cache.nodes ≡ true
    → Written u
one_more t u key [] us bytes' full e co = absurd (omega (arith, full))
one_more t u key (b ∷ bs) (history, us) bytes' full e co =
    (_, then_update key b bs us bytes' e (apart-Coherent u.cache.nodes co))

pub Written-IsSound : (t : RawTrie) → Written t → IsSound t
Written-IsSound t (history, us) = (_, Updates-Stands mixed length-mixed nothing us)

-- What holds of the value that a call yields.
pub yielded {ℓ} :
    {A : Type ℓ} (P : A → Type 0) (m : Result A) (a b : A) → m ≡ ok a → m ≡ ok b → P a → P b
yielded P m a b e f p = subst P (ok-injective (sym e ∙ f)) p

abbrev pub empty_trie : RawTrie
empty_trie = new_trie nothing (str [])
