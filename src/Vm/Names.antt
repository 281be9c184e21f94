-- ===== src/Vm/Names.antt =====
-- The names of the op codes (ethchain/types.go): `opCodeToString` with `String`, and the table
-- `OpCodes` of the assembler with `IsOpCode`. A Go map that has no entry gives 0 and the empty text.
pub mod Agreement
use goeth_self_training.Prelude.{
  ℕ, ◌==◌, Bool, true, false, Option, some, none, List, [], ◌∷◌, if◌then◌else◌,
}
use Prim.Native.String.{String}
use text.Mathlib.Text.{◌==◌ as str_eq}

-- `opCodeToString`
abbrev pub op_code_to_string : List (ℕ × String)
op_code_to_string =
    (0x00, "STOP")
    ∷ (0x01, "ADD")
    ∷ (0x02, "MUL")
    ∷ (0x03, "SUB")
    ∷ (0x04, "DIV")
    ∷ (0x05, "SDIV")
    ∷ (0x06, "MOD")
    ∷ (0x07, "SMOD")
    ∷ (0x08, "EXP")
    ∷ (0x09, "NEG")
    ∷ (0x0a, "LT")
    ∷ (0x0b, "GT")
    ∷ (0x0c, "EQ")
    ∷ (0x0d, "NOT")
    ∷ (0x10, "AND")
    ∷ (0x11, "OR")
    ∷ (0x12, "XOR")
    ∷ (0x13, "BYTE")
    ∷ (0x20, "SHA3")
    ∷ (0x30, "ADDRESS")
    ∷ (0x31, "BALANCE")
    ∷ (0x32, "ORIGIN")
    ∷ (0x33, "CALLER")
    ∷ (0x34, "CALLVALUE")
    ∷ (0x35, "CALLDATALOAD")
    ∷ (0x36, "CALLDATASIZE")
    ∷ (0x37, "TXGASPRICE")
    ∷ (0x40, "PREVHASH")
    ∷ (0x41, "COINBASE")
    ∷ (0x42, "TIMESTAMP")
    ∷ (0x43, "NUMBER")
    ∷ (0x44, "DIFFICULTY")
    ∷ (0x45, "GASLIMIT")
    ∷ (0x52, "DUP")
    ∷ (0x53, "SWAP")
    ∷ (0x54, "MLOAD")
    ∷ (0x55, "MSTORE")
    ∷ (0x56, "MSTORE8")
    ∷ (0x57, "SLOAD")
    ∷ (0x58, "SSTORE")
    ∷ (0x59, "JUMP")
    ∷ (0x5a, "JUMPI")
    ∷ (0x5b, "PC")
    ∷ (0x5c, "MSIZE")
    ∷ (0x60, "PUSH1")
    ∷ (0x61, "PUSH2")
    ∷ (0x62, "PUSH3")
    ∷ (0x63, "PUSH4")
    ∷ (0x64, "PUSH5")
    ∷ (0x65, "PUSH6")
    ∷ (0x66, "PUSH7")
    ∷ (0x67, "PUSH8")
    ∷ (0x68, "PUSH9")
    ∷ (0x69, "PUSH10")
    ∷ (0x6a, "PUSH11")
    ∷ (0x6b, "PUSH12")
    ∷ (0x6c, "PUSH13")
    ∷ (0x6d, "PUSH14")
    ∷ (0x6e, "PUSH15")
    ∷ (0x6f, "PUSH16")
    ∷ (0x70, "PUSH17")
    ∷ (0x71, "PUSH18")
    ∷ (0x72, "PUSH19")
    ∷ (0x73, "PUSH20")
    ∷ (0x74, "PUSH21")
    ∷ (0x75, "PUSH22")
    ∷ (0x76, "PUSH23")
    ∷ (0x77, "PUSH24")
    ∷ (0x78, "PUSH25")
    ∷ (0x79, "PUSH26")
    ∷ (0x7a, "PUSH27")
    ∷ (0x7b, "PUSH28")
    ∷ (0x7c, "PUSH29")
    ∷ (0x7d, "PUSH30")
    ∷ (0x7e, "PUSH31")
    ∷ (0x7f, "PUSH32")
    ∷ (0xf0, "CREATE")
    ∷ (0xf1, "CALL")
    ∷ (0xf2, "RETURN")
    ∷ (0xfe, "LOG")
    ∷ (0xff, "SUICIDE")
    ∷ []

-- `OpCodes`
abbrev pub op_codes : List (String × ℕ)
op_codes =
    ("STOP", 0x00)
    ∷ ("ADD", 0x01)
    ∷ ("MUL", 0x02)
    ∷ ("SUB", 0x03)
    ∷ ("DIV", 0x04)
    ∷ ("SDIV", 0x05)
    ∷ ("MOD", 0x06)
    ∷ ("SMOD", 0x07)
    ∷ ("EXP", 0x08)
    ∷ ("NEG", 0x09)
    ∷ ("LT", 0x0a)
    ∷ ("GT", 0x0b)
    ∷ ("EQ", 0x0c)
    ∷ ("NOT", 0x0d)
    ∷ ("AND", 0x10)
    ∷ ("OR", 0x11)
    ∷ ("XOR", 0x12)
    ∷ ("BYTE", 0x13)
    ∷ ("SHA3", 0x20)
    ∷ ("ADDRESS", 0x30)
    ∷ ("BALANCE", 0x31)
    ∷ ("ORIGIN", 0x32)
    ∷ ("CALLER", 0x33)
    ∷ ("CALLVALUE", 0x34)
    ∷ ("CALLDATALOAD", 0x35)
    ∷ ("CALLDATASIZE", 0x36)
    ∷ ("GASPRICE", 0x38)
    ∷ ("PREVHASH", 0x40)
    ∷ ("COINBASE", 0x41)
    ∷ ("TIMESTAMP", 0x42)
    ∷ ("NUMBER", 0x43)
    ∷ ("DIFFICULTY", 0x44)
    ∷ ("GASLIMIT", 0x45)
    ∷ ("POP", 0x51)
    ∷ ("DUP", 0x52)
    ∷ ("SWAP", 0x53)
    ∷ ("MLOAD", 0x54)
    ∷ ("MSTORE", 0x55)
    ∷ ("MSTORE8", 0x56)
    ∷ ("SLOAD", 0x57)
    ∷ ("SSTORE", 0x58)
    ∷ ("JUMP", 0x59)
    ∷ ("JUMPI", 0x5a)
    ∷ ("PC", 0x5b)
    ∷ ("MSIZE", 0x5c)
    ∷ ("PUSH1", 0x60)
    ∷ ("PUSH2", 0x61)
    ∷ ("PUSH3", 0x62)
    ∷ ("PUSH4", 0x63)
    ∷ ("PUSH5", 0x64)
    ∷ ("PUSH6", 0x65)
    ∷ ("PUSH7", 0x66)
    ∷ ("PUSH8", 0x67)
    ∷ ("PUSH9", 0x68)
    ∷ ("PUSH10", 0x69)
    ∷ ("PUSH11", 0x6a)
    ∷ ("PUSH12", 0x6b)
    ∷ ("PUSH13", 0x6c)
    ∷ ("PUSH14", 0x6d)
    ∷ ("PUSH15", 0x6e)
    ∷ ("PUSH16", 0x6f)
    ∷ ("PUSH17", 0x70)
    ∷ ("PUSH18", 0x71)
    ∷ ("PUSH19", 0x72)
    ∷ ("PUSH20", 0x73)
    ∷ ("PUSH21", 0x74)
    ∷ ("PUSH22", 0x75)
    ∷ ("PUSH23", 0x76)
    ∷ ("PUSH24", 0x77)
    ∷ ("PUSH25", 0x78)
    ∷ ("PUSH26", 0x70)
    ∷ ("PUSH27", 0x7a)
    ∷ ("PUSH28", 0x7b)
    ∷ ("PUSH29", 0x7c)
    ∷ ("PUSH30", 0x7d)
    ∷ ("PUSH31", 0x7e)
    ∷ ("PUSH32", 0x7f)
    ∷ ("CREATE", 0xf0)
    ∷ ("CALL", 0xf1)
    ∷ ("RETURN", 0xf2)
    ∷ ("LOG", 0xfe)
    ∷ ("SUICIDE", 0x7f)
    ∷ []

-- `String` of an op code.
unfoldable pub string_of : ℕ → List (ℕ × String) → String
string_of code [] = ""
string_of code ((c, name) ∷ more) =
    let rest = string_of code more in if c == code then name else rest

-- `IsOpCode`, and the code that a name is looked up to.
unfoldable pub is_op_code : String → List (String × ℕ) → Bool
is_op_code s [] = false
is_op_code s ((name, c) ∷ more) =
    let rest = is_op_code s more in if str_eq name s then true else rest

unfoldable pub code_of : String → List (String × ℕ) → ℕ
code_of s [] = 0
code_of s ((name, c) ∷ more) = let rest = code_of s more in if str_eq name s then c else rest
