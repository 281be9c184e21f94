-- ===== src/Reactor.antt =====
-- ethutil/reactor.go: the events and the channels that subscribe to them. A channel is a number, an
-- event its name's bytes; the mutexes are left out, since each function here holds its one. The
-- result of a post are the channels that get the resource, in the order of their goroutines' start.
use goeth_self_training.Prelude.{
  lookup, ℕ, zero, suc, ◌+◌, ◌-◌, ◌==◌, some, none, List, [], ◌∷◌, ◌++◌, leb, if◌then◌else◌, take,
  drop, get_elem?,
}
use goeth_self_training.Prelude.Result.{Result, ok, panic, ◌>>=◌, or_panic}

-- `ReactorEvent`: the array behind `chans`, and the slice's length.
pub record ReactorEvent : Type 0 where
  pub array : List ℕ
  pub count : ℕ

abbrev pub chans : ReactorEvent → List ℕ
chans e = take e.count e.array

-- `Add`: append to the slice.
unfoldable pub add : ℕ → ReactorEvent → ReactorEvent
add ch e = record { array = chans e ++ ch ∷ []; count = e.count + 1 }

-- append(e.chans[:i], e.chans[i+1:]...), which shifts within the array.
unfoldable pub cut_out : ℕ → ReactorEvent → Result ReactorEvent
cut_out i e =
    if leb (i + 1) e.count
    then ok (record {
      array = take i e.array ++ (drop (i + 1) (take e.count e.array) ++ drop (e.count - 1) e.array);
      count = e.count - 1;
    })
    else panic

-- The loop of `Remove` from the index `i` on, over the `left` places that the slice had when the
-- loop began; it reads the array as it is by then.
unfoldable pub remove_loop : ℕ → ℕ → ℕ → ReactorEvent → Result ReactorEvent
unfolding cut_out
remove_loop ch zero i e = ok e
remove_loop ch (suc left) i e = do
  c ← or_panic (get_elem? e.array i)
  e' ← (if c == ch then cut_out i e else ok e)
  remove_loop ch left (i + 1) e'

unfoldable pub remove : ℕ → ReactorEvent → Result ReactorEvent
unfolding remove_loop
remove ch e = remove_loop ch e.count 0 e

-- `ReactorEngine`: the events by their names, the newest entry first.
abbrev pub ReactorEngine : Type 0
ReactorEngine = List (List ℕ × ReactorEvent)

unfoldable pub subscribe : List ℕ → ℕ → ReactorEngine → ReactorEngine
unfolding add
subscribe event ch patterns = elim (lookup event patterns) [
  | none ↦ (event, add ch (record { array = []; count = 0 })) ∷ patterns
  | some e ↦ (event, add ch e) ∷ patterns
]

unfoldable pub unsubscribe : List ℕ → ℕ → ReactorEngine → Result ReactorEngine
unfolding remove
unsubscribe event ch patterns = elim (lookup event patterns) [
  | none ↦ ok patterns
  | some e ↦ remove ch e >>= λ e'. ok ((event, e') ∷ patterns)
]

unfoldable pub post : List ℕ → ReactorEngine → List ℕ
post event patterns = elim (lookup event patterns) [ none ↦ [] | some e ↦ chans e ]
