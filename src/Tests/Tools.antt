-- ===== src/Tests/Tools.antt =====
-- The reactor, the names of the op codes and Dagger (ethutil/reactor.go, ethchain/types.go,
-- ethchain/dagger.go) at concrete inputs.
use goeth_self_training.Prelude.{suc, ◌/◌, ◌^◌, ◌≡◌, refl, true, false, [], ◌∷◌, replicate}
use goeth_self_training.Prelude.Int.{ℤ, pos, ltb_ℤ}
use goeth_self_training.Dagger.{eval, dagger_verify}
use goeth_self_training.Dagger.Returning.{dagger_verify-returns}
use goeth_self_training.Vm.Names.{op_code_to_string, op_codes, string_of, is_op_code, code_of}
use goeth_self_training.Vm.Names.Agreement.{misplaced, is_among, string_of-code_of}
use goeth_self_training.Prelude.Result.{ok, panic}
use goeth_self_training.Reactor.{remove}

-- A channel that subscribed twice cannot be removed.
remove-twice : remove 5 (record { array = 5 ∷ 5 ∷ []; count = 2 }) ≡ panic
unfolding remove
remove-twice = refl

remove-first :
    remove 5 (record { array = 5 ∷ 6 ∷ []; count = 2 })
    ≡ ok (record { array = 6 ∷ 6 ∷ []; count = 1 })
unfolding remove
remove-first = refl

-- Verify of Dagger with a hash function that yields 32 zeros.
dagger_verify-returns_example :
    (res : ℤ) × (eval (λ s. replicate 32 0) 10 (pos 5) (pos 7) ≡ ok res)
    × (dagger_verify (λ s. replicate 32 0) (pos 5) (pos (suc 3)) (pos 7)
        ≡ ok (ltb_ℤ res (pos (2 ^ 256 / suc 3))))
dagger_verify-returns_example = dagger_verify-returns (λ s. replicate 32 0) (pos 5) (pos 7) 3

push_known : is_op_code "PUSH1" op_codes ≡ true
unfolding is_op_code
push_known = refl

push_placed : is_among "PUSH1" misplaced ≡ false
unfolding is_among
push_placed = refl

string_of-code_of_example : string_of (code_of "PUSH1" op_codes) op_code_to_string ≡ "PUSH1"
string_of-code_of_example = string_of-code_of "PUSH1" push_known push_placed

-- The names that the two tables give other codes.
code_of_misplaced :
    (code_of "GASPRICE" op_codes ≡ 0x38)
    × (code_of "PUSH26" op_codes ≡ code_of "PUSH17" op_codes)
    × (code_of "SUICIDE" op_codes ≡ code_of "PUSH32" op_codes)
unfolding code_of
code_of_misplaced = (refl, refl, refl)
