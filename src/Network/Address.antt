-- ===== src/Network/Address.antt =====
-- `packAddr` and `unpackAddr` of peer.go: the four bytes of a host and its port, and their text.
-- strings.Split, strconv.Atoi and strconv.Itoa are those of Go's library.
pub mod RoundTrip
use goeth_self_training.Prelude.{
  ℕ, zero, suc, ◌+◌, ◌-◌, ◌*◌, ◌%◌, ◌^◌, ◌==◌, ◌&&◌, Bool, true, false, Option, some, none, List,
  [], ◌∷◌, ◌++◌, leb, ltb, if◌then◌else◌, get_elem?,
}
use goeth_self_training.Prelude.Int.{ℤ, pos, negsuc}
use goeth_self_training.Prelude.Result.{Result, ok, panic, out_of_fuel, ◌>>=◌, or_panic}
use goeth_self_training.Item.{Item}
use goeth_self_training.Value.{to_bytes, int_to_u64}
use goeth_self_training.Blocks.{digits_of}

-- strings.Split(s, sep) for a separator of one byte; `part` is what was read of the present part.
unfoldable pub split_at : ℕ → List ℕ → List ℕ → List (List ℕ)
split_at sep part [] = part ∷ []
split_at sep part (c ∷ cs) =
    let ended = split_at sep [] cs in
    let longer = split_at sep (part ++ c ∷ []) cs in if c == sep then part ∷ ended else longer

-- The digits of strconv.Atoi, none for a byte that is no digit.
unfoldable pub read_digits : ℕ → List ℕ → Option ℕ
read_digits acc [] = some acc
read_digits acc (c ∷ cs) =
    let more = read_digits (acc * 10 + (c - 48)) cs in if leb 48 c && leb c 57 then more else none

-- The number behind a sign, as near as an int has room for it. What is no number gives 0, as the
-- error is not looked at.
abbrev pub int_of : Bool → ℕ → ℤ
int_of minus zero = pos 0
int_of true (suc k) = negsuc (if ltb k (2 ^ 63) then k else 2 ^ 63 - 1)
int_of false (suc k) = pos (if ltb (suc k) (2 ^ 63) then suc k else 2 ^ 63 - 1)

abbrev pub signed_number : Bool → List ℕ → ℤ
signed_number minus [] = pos 0
signed_number minus (c ∷ cs) = elim (read_digits 0 (c ∷ cs)) [
  | none ↦ pos 0
  | some n ↦ int_of minus n
]

unfoldable pub atoi : List ℕ → ℤ
unfolding read_digits
atoi [] = pos 0
atoi (c ∷ cs) =
    if c == 45
    then signed_number true cs
    else if c == 43
    then signed_number false cs
    else signed_number false (c ∷ cs)

-- `packAddr`: byte(a) and uint16(prt) keep the low bits.
unfoldable pub pack_addr : List ℕ → List ℕ → Result (List ℕ × ℕ)
unfolding split_at atoi
pack_addr address port = do
  let addr = split_at 46 [] address
  a ← or_panic (get_elem? addr 0)
  b ← or_panic (get_elem? addr 1)
  c ← or_panic (get_elem? addr 2)
  d ← or_panic (get_elem? addr 3)
  ok (
    (int_to_u64 (atoi a) % 256)
        ∷ (int_to_u64 (atoi b) % 256)
        ∷ (int_to_u64 (atoi c) % 256)
        ∷ (int_to_u64 (atoi d) % 256)
        ∷ [],
    int_to_u64 (atoi port) % 2 ^ 16,
  )

-- strconv.Itoa of a number that is not negative.
abbrev pub itoa : ℕ → List ℕ
itoa n = digits_of (suc n) n []

-- strconv.Itoa(int(p)) of a uint64.
abbrev pub itoa_uint64 : ℕ → List ℕ
itoa_uint64 p = if ltb p (2 ^ 63) then itoa p else 45 ∷ itoa (2 ^ 64 - p)

-- The host of `unpackAddr`: the bytes' numbers with points between.
unfoldable pub host_text : List ℕ → Result (List ℕ)
unfolding digits_of
host_text byts = do
  a ← or_panic (get_elem? byts 0)
  b ← or_panic (get_elem? byts 1)
  c ← or_panic (get_elem? byts 2)
  d ← or_panic (get_elem? byts 3)
  ok (itoa a ++ 46 ∷ (itoa b ++ 46 ∷ (itoa c ++ 46 ∷ itoa d)))

-- `unpackAddr`; net.JoinHostPort puts a colon between, as the host has none.
unfoldable pub unpack_addr : Item → ℕ → Result (List ℕ)
unfolding host_text digits_of to_bytes
unpack_addr host_value p =
    host_text (to_bytes host_value) >>= λ host. ok (host ++ 58 ∷ itoa_uint64 p)
