-- ===== src/Lib.antt =====
-- goeth_self_training: the core of the node, in the packages ethutil and ethchain, the framing of
-- ethwire, and the peers of a node.
--
-- Parts. ethutil/rlp.go codes Go values of dynamic types as bytes; ethutil/value.go reads what was
-- decoded; ethutil/encoding.go codes the keys of the trie. ethchain/state.go keeps accounts and
-- contracts, RLP coded, in a trie of ethutil/trie.go; ethchain/transaction_pool.go moves amounts
-- between them for a transaction (ethchain/transaction.go); ethchain/vm.go runs the scripts of
-- contracts over a stack and a memory (ethchain/stack.go) and the gas and the storage of a closure
-- (ethchain/closure.go). ethchain/block.go puts transactions and their receipts into blocks;
-- ethchain/state_manager.go checks a block and pays its rewards; ethchain/block_chain.go keeps the
-- blocks in the database and chooses between two chains; ethwire/messaging.go frames what the nodes
-- send to each other. peer.go answers the messages of a peer, gives blocks to the state manager and
-- transactions to the pool, and ethereum.go keeps the list of the peers.
--
-- Files.
--   Prelude       shared names, Boolean tests, lists, integers, and the results of calls
--   Bytes         ethutil/bytes.go and big.go: big-endian digits, ReadVarint, BigToBytes, BigMax
--   Item          the dynamic types of ethutil/value.go: `Item` has a constructor for each
--   Rlp           Encode (`encode`) and Decode (`decode`, `decode_from`); Rlp/Plain says what an
--                 item decodes to
--   Compact       CompactEncode, CompactDecode, CompactHexDecode, DecodeCompact
--   Value         the methods of Value: `to_uint` is Uint, `to_big` BigInt, `to_bytes` Bytes, …
--   Stack         Stack, and Memory in Stack/Memory
--   Trie          what the state relies on of ethutil/trie.go, as a record of operations with one
--                 law, for tries that are good; below it the nodes themselves: Trie/Cache,
--                 Trie/Nodes with Trie/Nodes/Delete, Trie/Ops with the methods, Trie/Tree as their
--                 abstract form and Trie/Rep as what ties the two. Trie/Instance is the record made
--                 of the nodes: a trie of them is good if its root stands for a tree and no two
--                 nodes of its cache share a hash
--   Vm            op codes, gas, one step and the loop of RunClosure; Vm/Calls runs whole closures,
--                 with the closures that CREATE and CALL run
--   State         StateObject and State; `view` is the amount and nonce that GetAccount finds;
--                 State/Nested has Reset, Sync, Snapshot and Revert
--   Transaction   the fields, the RLP form, the hash and the sender of a transaction
--   TxPool        ProcessTransaction, and the pool's list in TxPool/Queue
--   Chain         ethchain/block_chain.go: the limits of a new block, FindCanonicalChain
--                 and GetChain, and the blocks in the database in Chain/Store, with its start
--   Blocks        ethchain/block.go: blocks and their RLP form
--   Assembler     ethutil/parsing.go; the names of the op codes are in Vm/Names
--   Dagger        ethchain/dagger.go: Eval and Verify of Dagger
--   StateManager  ethchain/state_manager.go: CalculateTD, ValidateBlock and the rewards, with Verify
--                 of ethchain/dagger.go; ApplyTransactions and EvalScript in StateManager/Apply,
--                 Process and ProcessBlock in StateManager/Process
--   Wire          ethwire/messaging.go: the framing of messages
--   Mnemonic      ethutil/mnemonic.go: numbers as three words
--   Reactor       ethutil/reactor.go; Database is ethdb/memory_database.go, and Vm/Disassemble is
--                 ethchain/asm.go
--   Network       peer.go and ethereum.go: a peer and its node, with `Stop`; Network/Peers has
--                 the list and who comes in, Network/Connect who is dialed, Network/Sync the
--                 handshake and the catching up, Network/Download the block messages,
--                 Network/Handler the switch over the messages, Network/Steps the calls of the
--                 peers' goroutines as steps, one whole call after another; Network/Stable is what all of it keeps
--   Miner         ethminer/miner.go, with the search of ethchain/dagger.go for a proof of work;
--                 NewBlock is in Chain/Store/Create
--   Public        ethpub/pub.go: the end of createTx
--   Tests         runs at concrete inputs
--
-- Conventions. A panic of Go is the value `panic`; the model's loops that may run long take fuel,
-- and running out of it is the value `out_of_fuel`. `decode_from` gives itself twice the length of
-- the data and 2, since each call of Decode reads a byte; a run of the machine takes its fuel as an
-- argument, and twice the gas and the height of the stack is enough for one run of its loop. A
-- closure that calls others takes fuel as an argument too; none is chosen, since a CREATE with a
-- negative size raises the gas. `dagger_verify` gives Eval one call for each level of the graph;
-- `find_canonical_chain` needs more than the current chain has blocks after the common one; the
-- walks over the stored chain for a message take `depth`, which has to be more than its blocks; a
-- lookup in the nodes of a trie, or a change of them, takes one more than the key's nibbles.
-- uint64 and byte wrap around; int64 is kept where the code converts to it. A Go map is the list
-- of its writes, the newest first; a pointer that the code reads and that may be nil is an Option.
-- A byte slice is the list of its bytes; where Go may reslice past a length, the bytes up to the
-- capacity are an argument. The database is kept in two parts: what the chain writes, and what the
-- states read and write.
--
-- Parameters: the trie that the state is over, for which Trie/Instance is the one of the program,
-- with the good tries named where a theorem is about updates; the hash functions, secp256k1, Go's growth
-- of slices, the inverse of math/big, and of the package net what the peers call (`Net`).
--
-- Not modelled: Dagger's search for a proof of work, the key pairs, the transient and mining
-- states, the sockets, the seeding and the mapping of ports, the database on disk and the rest of
-- the public interface, which converts texts.

pub mod Prelude
pub mod Bytes
pub mod Item
pub mod Rlp
pub mod Compact
pub mod Value
pub mod Stack
pub mod Trie
pub mod Vm
pub mod Assembler
pub mod State
pub mod Transaction
pub mod TxPool
pub mod Chain
pub mod Blocks
pub mod StateManager
pub mod Dagger
pub mod Wire
pub mod Reactor
pub mod Network
pub mod Miner
pub mod Public
pub mod Mnemonic
pub mod Database
pub mod Tests
