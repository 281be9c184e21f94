-- ===== src/Vm.antt =====
-- ethchain/vm.go, ethchain/closure.go and ethchain/types.go: the virtual machine. A machine is one
-- run of a closure; `Vm.Step` has the loop of `RunClosure`. The values on the stack are
-- numbers: `Push` copies the *big.Int that it is given, so that no two of them are one.
pub mod Ints
pub mod OpCode
pub mod Machine
pub mod Gas
pub mod Exec
pub mod Step
pub mod Calls
pub mod Conservation
pub mod Storage
pub mod Disassemble
pub mod Names
