-- ===== src/Vm/OpCode.antt =====
-- The op codes of ethchain/types.go.
use goeth_self_training.Prelude.{ℕ, ◌+◌, ◌-◌, ◌&&◌, leb, ◌==◌, if◌then◌else◌, List, [], ◌∷◌}

pub data Op : Type 0 where
  stop add mul sub div sdiv modulo smod exp neg lt gt eq not : Op
  and or xor byte : Op
  sha3 : Op
  address balance origin caller call_value call_data_load call_data_size gas_price : Op
  prev_hash coinbase timestamp number difficulty gas_limit : Op
  pop dup swap mload mstore mstore8 sload sstore jump jumpi pc msize : Op
  push : ℕ → Op
  create call return log suicide : Op
  invalid : ℕ → Op

-- The constants, but for PUSH1 = 0x60 to PUSH32 = 0x7f.
abbrev codes : List (ℕ × Op)
codes =
    (0x00, stop)
    ∷ (0x01, add)
    ∷ (0x02, mul)
    ∷ (0x03, sub)
    ∷ (0x04, div)
    ∷ (0x05, sdiv)
    ∷ (0x06, modulo)
    ∷ (0x07, smod)
    ∷ (0x08, exp)
    ∷ (0x09, neg)
    ∷ (0x0a, lt)
    ∷ (0x0b, gt)
    ∷ (0x0c, eq)
    ∷ (0x0d, not)
    ∷ (0x10, and)
    ∷ (0x11, or)
    ∷ (0x12, xor)
    ∷ (0x13, byte)
    ∷ (0x20, sha3)
    ∷ (0x30, address)
    ∷ (0x31, balance)
    ∷ (0x32, origin)
    ∷ (0x33, caller)
    ∷ (0x34, call_value)
    ∷ (0x35, call_data_load)
    ∷ (0x36, call_data_size)
    ∷ (0x37, gas_price)
    ∷ (0x40, prev_hash)
    ∷ (0x41, coinbase)
    ∷ (0x42, timestamp)
    ∷ (0x43, number)
    ∷ (0x44, difficulty)
    ∷ (0x45, gas_limit)
    ∷ (0x51, pop)
    ∷ (0x52, dup)
    ∷ (0x53, swap)
    ∷ (0x54, mload)
    ∷ (0x55, mstore)
    ∷ (0x56, mstore8)
    ∷ (0x57, sload)
    ∷ (0x58, sstore)
    ∷ (0x59, jump)
    ∷ (0x5a, jumpi)
    ∷ (0x5b, pc)
    ∷ (0x5c, msize)
    ∷ (0xf0, create)
    ∷ (0xf1, call)
    ∷ (0xf2, return)
    ∷ (0xfe, log)
    ∷ (0xff, suicide)
    ∷ []

find_code : ℕ → List (ℕ × Op) → Op
find_code n [] = invalid n
find_code n ((m, op) ∷ rest) = let more = find_code n rest in if m == n then op else more

-- OpCode(n): `push k` is the op code PUSHk.
unfoldable pub op_code : ℕ → Op
unfolding find_code
op_code n = if leb 0x60 n && leb n 0x7f then push (n - 0x60 + 1) else find_code n codes
