-- ===== src/Compact.antt =====
-- ethutil/encoding.go: the nibbles of a trie key and their compact form. A Go string is its bytes.
pub mod RoundTrip
use goeth_self_training.Prelude.{
  ℕ, zero, suc, ◌+◌, ◌-◌, ◌*◌, ◌/◌, ◌%◌, ◌<◌, ◌≤◌, Option, some, none, List, [], ◌∷◌, ◌++◌, leb,
  ltb, ◌==◌, if◌then◌else◌, length, take, drop, get_elem?, Bool,
}
use goeth_self_training.Prelude.Result.{Result, ok, panic, out_of_fuel, ◌>>=◌, or_panic}

-- `for i := 0; i < len(hexSlice); i += 2` with `byte(16*hexSlice[i] + hexSlice[i+1])`.
unfoldable pub pack_nibbles : List ℕ → Result (List ℕ)
pack_nibbles [] = ok []
pack_nibbles (a ∷ []) = panic
pack_nibbles (a ∷ b ∷ rest) = do packed ← pack_nibbles rest; ok (((16 * a + b) % 256) ∷ packed)

-- The slice without its terminator, the flag of the terminator, and the flags put in front.
unfoldable pub with_flags : ℕ → List ℕ → List ℕ
with_flags terminator hex =
    let oddlen = length hex % 2 in
    let flags = 2 * terminator + oddlen in if oddlen == 0 then flags ∷ 0 ∷ hex else flags ∷ hex

unfoldable pub compact_encode : List ℕ → Result (List ℕ)
unfolding pack_nibbles with_flags
compact_encode hex = do
  last ← or_panic (get_elem? hex (length hex - 1))
  if last == 16
      then pack_nibbles (with_flags 1 (take (length hex - 1) hex))
      else pack_nibbles (with_flags 0 hex)

-- hex.EncodeToString and strings.IndexByte give the two nibbles of each byte.
unfoldable pub nibbles : List ℕ → List ℕ
nibbles [] = []
nibbles (b ∷ rest) = (b / 16 % 16) ∷ (b % 16) ∷ nibbles rest

unfoldable pub compact_hex_decode : List ℕ → List ℕ
unfolding nibbles
compact_hex_decode str = nibbles str ++ 16 ∷ []

unfoldable pub compact_decode : List ℕ → Result (List ℕ)
unfolding compact_hex_decode
compact_decode str = do
  let hex = compact_hex_decode str
  let base = take (length hex - 1) hex
  flags ← or_panic (get_elem? base 0)
  let base' = if leb 2 flags then base ++ 16 ∷ [] else base
  ok (if flags % 2 == 1 then drop 1 base' else drop 2 base')

-- The digits of `DecodeCompact`: nibbles of 16 and more are left out.
unfoldable pub digits : List ℕ → List ℕ
digits [] = []
digits (v ∷ rest) = let more = digits rest in if ltb v 16 then v ∷ more else more

-- hex.DecodeString: the bytes of the pairs in front of a digit that is left alone.
unfoldable pub pair_up : List ℕ → List ℕ
pair_up [] = []
pair_up (a ∷ []) = []
pair_up (a ∷ b ∷ rest) = (16 * a + b) ∷ pair_up rest

unfoldable pub decode_compact : List ℕ → List ℕ
unfolding digits pair_up
decode_compact key = pair_up (digits key)
