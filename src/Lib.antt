-- ===== src/Lib.antt =====
-- The core of Ryther, a DAG-based chain with optimistic parallel execution, as definitions and
-- theorems about them. The program: validators exchange events that form a DAG (types/event.rs,
-- dag/store.rs), a commit rule orders them without further messages (consensus/), and the ordered
-- transactions run speculatively in parallel over versioned state (execution/), with conflicts found
-- afterwards. What these parts share stands in types/.
--
-- Types:
--   Types/Lamport.antt    src/types/lamport.rs    LamportClock: tick, witness, witness_many. The atomic
--                         counter is a record that threads change in single steps (load, exchange,
--                         fetch and add); a run is a list of such steps.
--   Types/Uint.antt       src/types/mod.rs        U256 (limb 0 the least significant), StateKey.
--   Types/State.antt      src/types/state.rs      VersionChain, ReadSet, WriteSet, ExecutionResult.
--   Types/Validator.antt  src/types/validator.rs  ValidatorSet, QuorumTracker.
--   Types/Event.antt      src/types/event.rs      DagEvent, its identifier, validation and builder.
--   Types/Transaction.antt src/types/transaction.rs EncryptedBatch and its Merkle root, OrderedBatch.
--   Types/Block.antt      src/types/block.rs      Block, TransactionReceipt, Log.
-- Execution:
--   Execution/Mvcc.antt      src/execution/mvcc.rs      MultiVersionState: read, write, commit, abort,
--                            finalize.
--   Execution/Conflict.antt  src/execution/conflict.rs  ConflictDetector, validate_batch.
--   Execution/Executor.antt  src/execution/executor.rs  execute_batch.
--   Evm/Words.antt           src/evm/vm.rs              the helpers on U256.
--   Evm/Slots.antt           src/evm/vm.rs              reads and writes of balances and nonces.
--   Evm/Vm.antt              src/evm/vm.rs              RytherVm: execute, calls and creations.
-- Storage:
--   Storage/Jmt.antt    src/storage/jmt.rs    JellyfishMerkleTree: put, get, proofs. Of a recursion at
--                       depth d the levels below it, 256 - d, are counted down.
--   Storage/Cache.antt  src/storage/cache.rs  LruCache: the entries linked by their indices; an index
--                       out of bounds is a panic.
-- Crypto:
--   Crypto/Threshold.antt  src/crypto/threshold.rs  the sharing of a key, encryption, decryption.
--   Crypto/Dkg.antt        src/crypto/threshold.rs  DkgSession.
--   Crypto/Xor.antt        exclusive or of numbers of a fixed width, with its laws.
-- Network:
--   Network/Peer.antt  src/network/peer.rs  PeerInfo, PeerManager; the time is an argument.
-- Consensus:
--   Dag/Store.antt         src/dag/store.rs         DagStore: insert and its indexes, can_reach.
--   Consensus/Leader.antt  src/consensus/leader.rs  elect_leader.
--   Consensus/Commit.antt  src/consensus/commit.rs  CommitDetector: check_commit, try_advance.
-- Node:
--   Node/Mempool.antt  src/node/mempool.rs  TransactionPool; the time is an argument.
--   Node/Blocks.antt   src/node/blocks.rs   BlockStore.
--
-- Base, Dict, Bytes, Search and Sort hold what the standard library gives the source: tests on
-- numbers, maps and sets as association lists (the order of iteration is the order of the list, and
-- theorems range over every list), byte encodings, binary search and the stable sort. Files below a
-- component's file prove what their names say; Tests applies the theorems to concrete inputs.
--
-- Conventions. A function keeps its name; a helper by clauses stands for the loop or the match that
-- its map entry names. Addresses, public keys and hashes are the numbers of their bytes, big end
-- first, with the same equality and order. Numbers of type u64 wrap around, as in a release build.
-- SHA-256, Keccak and the random generators are parameters, as are the Merkle tree of the multi-version state and the virtual
-- machine of the executor. A method
-- behind a lock or on a concurrent map is one step.
--
-- Fuel. can_reach searches with two more than the number of stored parent links: every round takes
-- an identifier from the queue or marks an event as visited and trades its links for queue entries.
-- try_advance loops with one more than the number of rounds after the last committed one. In both the
-- result is none if the fuel runs out, and the theorems show that it never is.
--
-- Not modelled: the crates for signatures, sockets, JSON and files; the pages of the storage, gossip
-- and messages, and the node loop.
pub mod Base
pub mod Dict
pub mod Bytes
pub mod Search
pub mod Sort
pub mod Types
pub mod Execution
pub mod Evm
pub mod Storage
pub mod Crypto
pub mod Network
pub mod Dag
pub mod Consensus
pub mod Node
pub mod Tests
