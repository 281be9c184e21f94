-- ===== src/Vm/Disassemble.antt =====
-- `Disassemble` of ethchain/asm.go. A line of the result is an op code or the bytes of a pushed
-- number; their text is left out. `spare` are the bytes behind the script up to its capacity.
use goeth_self_training.Prelude.{
  ℕ, zero, suc, ◌+◌, ◌<◌, ◌≡◌, arith, Bool, true, false, Option, some, none, List, [], ◌∷◌, ◌++◌,
  leb, if◌then◌else◌, length, get_elem?, Bool-cases, inl, inr,
}
use goeth_self_training.Prelude.Int.{ℤ, pos}
use goeth_self_training.Prelude.Result.{Result, ok, out_of_fuel, ◌>>=◌, or_panic, Safe, Safe-bind}
use goeth_self_training.Bytes.{slice, big_d, be_bytes}
use goeth_self_training.Vm.Ints.{int64_of}
use goeth_self_training.Vm.OpCode.{Op, push, op_code}

pub data Line : Type 0 where
  operation : Op → Line
  number : List ℕ → Line

-- val.Int64() == 0, where a number of more than 64 bits is cut off.
abbrev is_zero : ℤ → Bool
is_zero (pos zero) = true
is_zero _ = false

unfoldable pub shown_bytes : ℕ → List ℕ
unfolding int64_of
shown_bytes n = if is_zero (int64_of (pos n)) then 0 ∷ [] else be_bytes n

-- The lines of one op code, and the place of the next.
unfoldable pub disassemble_op : List ℕ → List ℕ → ℕ → Op → Result (List Line × ℕ)
unfolding shown_bytes
disassemble_op script spare pc (push n) = do
  data' ← or_panic (slice (script ++ spare) (pc + 1) (pc + 1 + n))
  ok (operation (push n) ∷ number (shown_bytes (big_d data')) ∷ [], pc + 1 + n)
disassemble_op script spare pc op = ok (operation op ∷ [], pc + 1)

unfoldable pub disassemble_loop : ℕ → List ℕ → List ℕ → ℕ → Result (List Line)
unfolding disassemble_op
disassemble_loop zero script spare pc = out_of_fuel
disassemble_loop (suc fuel) script spare pc =
    let go : ℕ → Result (List Line) = λ next. disassemble_loop fuel script spare next in
    if leb (length script) pc
    then ok []
    else (or_panic (get_elem? script pc) >>= λ b.
        disassemble_op script spare pc (op_code b) >>= λ (lines, next).
        go next >>= λ rest. ok (lines ++ rest))

unfoldable pub disassemble : List ℕ → List ℕ → Result (List Line)
unfolding disassemble_loop
disassemble script spare = disassemble_loop (length script + 1) script spare 0

or_panic-Safe : {A : Type 0} (P : A → Type 0) (o : Option A) → ((a : A) → P a) → Safe P (or_panic o)
or_panic-Safe P none h = tt
or_panic-Safe P (some a) h = h a

-- A step forward.
abbrev Forward : ℕ → List Line × ℕ → Type 0
Forward pc r = pc < r.1

disassemble_op-Safe :
    (script spare : List ℕ) (pc : ℕ) (op : Op)
    → Safe (Forward pc) (disassemble_op script spare pc op)
unfolding disassemble_op
disassemble_op-Safe script spare pc (push n) =
    Safe-bind (λ t. Unit) (Forward pc) (or_panic (slice (script ++ spare) (pc + 1) (pc + 1 + n))) _
      (or_panic-Safe (λ t. Unit) (slice (script ++ spare) (pc + 1) (pc + 1 + n)) (λ t. tt))
      (λ t h. omega arith)
disassemble_op-Safe script spare pc op = omega arith

disassemble_loop-Safe :
    (fuel : ℕ) (script spare : List ℕ) (pc : ℕ)
    → 0 < fuel
    → length script < fuel + pc
    → Safe (λ lines. Unit) (disassemble_loop fuel script spare pc)
unfolding disassemble_loop
disassemble_loop-Safe zero script spare pc pos' h = absurd (omega arith)
disassemble_loop-Safe (suc fuel) script spare pc pos' h =
    elim (Bool-cases (leb (length script) pc)) [
      | inl e ↦ rw e tt
      | inr e ↦ rw e (
          Safe-bind (λ b. Unit) (λ lines. Unit) (or_panic (get_elem? script pc)) _
            (or_panic-Safe (λ b. Unit) (get_elem? script pc) (λ b. tt))
            (λ b u.
              Safe-bind (Forward pc) (λ lines. Unit) (disassemble_op script spare pc (op_code b)) _
                (disassemble_op-Safe script spare pc (op_code b))
                (λ r moved.
                  Safe-bind (λ lines. Unit) (λ lines. Unit) (disassemble_loop fuel script spare r.1)
                    _
                    (disassemble_loop-Safe fuel script spare r.1 (inside e)
                      (omega (arith, inside e, moved)))
                    (λ rest v. tt))))
    ]
  where
    inside : leb (length script) pc ≡ false → 0 < fuel
    inside e = ground arith

-- `Disassemble` ends on every script: it returns lines or panics.
pub disassemble-Safe : (script spare : List ℕ) → Safe (λ lines. Unit) (disassemble script spare)
unfolding disassemble
disassemble-Safe script spare =
    disassemble_loop-Safe (length script + 1) script spare 0 (omega arith) (omega arith)
