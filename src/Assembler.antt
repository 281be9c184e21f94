-- ===== src/Assembler.antt =====
-- ethutil/parsing.go: the op codes that it knows, `CompileInstr` and `Instr`. `set_string` is the
-- number that SetString of math/big reads with the base 0; the arguments of an instruction, which
-- are decimal texts, are numbers here.
use goeth_self_training.Prelude.{
  ℕ, zero, suc, ◌+◌, ◌-◌, ◌%◌, ◌^◌, Bool, List, [], ◌∷◌, if◌then◌else◌,
}
use goeth_self_training.Prelude.Int.{ℤ, pos, negsuc}
use Prim.Native.String.{String}
use goeth_self_training.Bytes.{big_bytes}
use goeth_self_training.Chain.{div_floor}
use goeth_self_training.Vm.Names.{is_op_code, code_of}

-- `OpCodes`
abbrev pub known_codes : List (String × ℕ)
known_codes =
    ("STOP", 0x00)
    ∷ ("ADD", 0x01)
    ∷ ("MUL", 0x02)
    ∷ ("SUB", 0x03)
    ∷ ("DIV", 0x04)
    ∷ ("SDIV", 0x05)
    ∷ ("MOD", 0x06)
    ∷ ("SMOD", 0x07)
    ∷ ("EXP", 0x08)
    ∷ ("NEG", 0x09)
    ∷ ("LT", 0x0a)
    ∷ ("LE", 0x0b)
    ∷ ("GT", 0x0c)
    ∷ ("GE", 0x0d)
    ∷ ("EQ", 0x0e)
    ∷ ("NOT", 0x0f)
    ∷ ("MYADDRESS", 0x10)
    ∷ ("TXSENDER", 0x11)
    ∷ ("TXVALUE", 0x12)
    ∷ ("TXDATAN", 0x13)
    ∷ ("TXDATA", 0x14)
    ∷ ("BLK_PREVHASH", 0x15)
    ∷ ("BLK_COINBASE", 0x16)
    ∷ ("BLK_TIMESTAMP", 0x17)
    ∷ ("BLK_NUMBER", 0x18)
    ∷ ("BLK_DIFFICULTY", 0x19)
    ∷ ("BLK_NONCE", 0x1a)
    ∷ ("BASEFEE", 0x1b)
    ∷ ("SHA256", 0x20)
    ∷ ("RIPEMD160", 0x21)
    ∷ ("ECMUL", 0x22)
    ∷ ("ECADD", 0x23)
    ∷ ("ECSIGN", 0x24)
    ∷ ("ECRECOVER", 0x25)
    ∷ ("ECVALID", 0x26)
    ∷ ("SHA3", 0x27)
    ∷ ("PUSH", 0x30)
    ∷ ("POP", 0x31)
    ∷ ("DUP", 0x32)
    ∷ ("SWAP", 0x33)
    ∷ ("MLOAD", 0x34)
    ∷ ("MSTORE", 0x35)
    ∷ ("SLOAD", 0x36)
    ∷ ("SSTORE", 0x37)
    ∷ ("JMP", 0x38)
    ∷ ("JMPI", 0x39)
    ∷ ("IND", 0x3a)
    ∷ ("EXTRO", 0x3b)
    ∷ ("BALANCE", 0x3c)
    ∷ ("MKTX", 0x3d)
    ∷ ("SUICIDE", 0x3f)
    ∷ []

-- `IsOpCode`
unfoldable pub is_known : String → Bool
unfolding is_op_code
is_known s = is_op_code s known_codes

-- `CompileInstr`: an op code, or the bytes of a number.
unfoldable pub compile_instr : (String → ℤ) → String → List ℕ
unfolding is_known code_of big_bytes
compile_instr set_string s =
    if is_known s then code_of s known_codes ∷ [] else big_bytes (set_string s)

-- x.Mod(x, 256) of an integer.
abbrev pub mod_256 : ℤ → ℕ
mod_256 (pos n) = n % 256
mod_256 (negsuc n) = 255 - n % 256

-- The loop of `Instr`, from the argument `i` on.
unfoldable pub instr_args : ℕ → ℕ → ℤ → List ℕ
instr_args zero i base = []
instr_args (suc count) i base = mod_256 (div_floor base (256 ^ i)) ∷ instr_args count (i + 1) base

-- `Instr`: the op code and its six arguments.
unfoldable pub instr : (String → ℤ) → String → ℕ × List ℕ
unfolding instr_args
instr set_string text =
    let base = set_string text in (mod_256 (div_floor base (256 ^ 0)), instr_args 6 1 base)
