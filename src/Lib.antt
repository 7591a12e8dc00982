-- ===== src/Lib.antt =====
-- A model of x-chain, an Ethereum node with a sealing engine for practical Byzantine fault tolerance.
-- This library is about its virtual machine, the interpreter that runs the code of contracts, and
-- about the data structures of its core library that the state of the chain is kept in, the execution of
-- transactions, the votes of its sealing engine, the table of the nodes that it knows, and the filter of
-- the topics of its messages.
--
-- The parts of the machine, and the files that model them:
--   Evm/Word         the arithmetic of 256-bit words (libevm/VM.cpp, libevm/VMOpt.cpp exp256,
--                    libdevcore/Common.h u2s and s2u)
--   Evm/Instruction  the instructions, their tiers and arguments (libevmcore/Instruction.h and .cpp)
--   Evm/Schedule     the gas schedules (libevmcore/EVMSchedule.h)
--   Evm/State        the state of class VM (libevm/VM.h), its exceptions (libevm/VMFace.h), and the
--                    interface to the world, ExtVMFace, which is not in the repository
--   Evm/Gas          metering, memory growth and stack pointers (libevm/VM.cpp: memNeed, adjustStack,
--                    gasForMem, updateIOGas, updateGas, updateMem, logGasMem, fetchInstruction)
--   Evm/Bytes        byte strings (libevm/VMCalls.cpp copyDataToMemory, libdevcore/FixedHash.h)
--   Evm/Optimize     copyCode and optimize (libevm/VMOpt.cpp)
--   Evm/Cases        one function `case_x` for each case X of the switch of interpretCases
--                    (libevm/VM.cpp), and caseCreate, caseCallSetup, caseCall and verifyJumpDest
--                    (libevm/VMCalls.cpp)
--   Evm/Interpreter  the switch, the trampoline and exec (libevm/VM.cpp)
-- and the proofs:
--   Evm/Growth, Evm/Shape, Evm/Prices  what a growth of the memory does and costs
--   Evm/Termination  a run ends        Evm/Invariant   what every reached state satisfies
--   Evm/Jumps        jump destinations Evm/Refinement  instructions on the list of the stack
--   Evm/Stack        adjustStack       Evm/Calls       message calls and creations
--   Evm/Duplicates   DUP1 to DUP16
--   Evm/Memory, Evm/Copy               reading the memory back
--   Evm/Arithmetic   powers            Evm/Signed      two's complement, signed division
--   Evm/Tests        runs on small programs, and the theorems at concrete inputs
--
-- The parts of the core library, and the files that model them:
--   Core/RangeMask   a set of numbers as a map of ranges (libdevcore/RangeMask.h): the loop of unionWith,
--                    inverted, operator-=, contains, next, size, lowest and the rest
--   Core/MemoryDb    trie nodes with reference counts, and auxiliary data (libdevcore/MemoryDB.h and .cpp)
--   Core/OverlayDb   the same over a database on disk (libdevcore/OverlayDB.h and .cpp); LevelDB, of
--                    another project, is the record Disk of functions, and that a write applies all of
--                    a batch or nothing is the hypothesis IsAtomic
--   Core/TrieCommon  nibbles, slices of them, and the hex-prefix encoding of the keys of a trie
--                    (libdevcore/TrieCommon.h and .cpp)
--   Core/TrieDb      class GenericTrieDB (libdevcore/TrieDB.h): init, at, insert, remove. A node is an item
--                    of Core/Rlp; RLP, which is not in the repository, and sha3 (libdevcore/SHA3.cpp, a copy
--                    of libkeccak-tiny) are the record Coding; the database below it is the record Database
--                    of Core/Database, which Core/MemoryDb fills. That an item and a hash are read back is
--                    the hypothesis IsCoding. The lemmas on insert suppose a hash without collisions
--                    besides, IsCollisionFree, which a hash of 32 bytes is not
--   Core/CommonData  hexadecimal text and big-endian numbers (libdevcore/CommonData.h and .cpp)
--   Core/Maps        finite maps, for the unordered maps of libdevcore
-- with the proofs in the files below them, and Core/Tests with runs and the theorems at concrete inputs.
--
-- Around them:
--   Chain/Executive  class Executive (libethereum/Executive.cpp): the checks of a transaction, its call or
--                    creation, the run of its code, its refund and its fees. State, the seal engine and
--                    the machine are the record World of functions; what State says of balances and of
--                    savepoints is the hypothesis IsLedger of Chain/Executive/Money
--   Chain/BlockQueue the containers SizedBlockQueue and SizedBlockMap (libethereum/BlockQueue.h)
--   Pbft             class PBFT and its messages (libpdftseal/PBFT.h, PBFT.cpp and Common.h): set-up,
--                    quorum, generateSeal and generateCommit. The handlers of messages, which the
--                    repository does not define, are the record Handlers of functions
--   P2p/NodeTable    the table of known nodes (libp2p/NodeTable.h and .cpp): its buckets by distance,
--                    addNode, noteActiveNode, evict, dropNode; Packets has the handlers of onReceived and
--                    doCheckEvictions, Nearest has nearestNodeEntries, Discovery has doDiscover, and
--                    Receive any run of these. A shared pointer is the number of an entry, `alive` says
--                    which weak pointers have an owner, and the hash of an id and the tests of boost on
--                    addresses are the record Network
--   Whisper/BloomFilter  the counting Bloom filter of topics (libwhisper/BloomFilter.h); a hash is the
--                    function of its bits, and their number is a parameter
-- with Chain/Tests, Chain/BlockQueue/Tests, Pbft/Tests, P2p/Tests and Whisper/Tests. A run of the
-- machine that ends with no more gas and no more money than it was given is a hypothesis of Chain/Executive/Transactions.
--
-- A member function is a function from the state to an outcome, which is a value and a state, or an
-- exception and the state that it leaves. A u256 is a number below 2^256, a uint64_t one below 2^64,
-- with each wrap-around written out; a bigint, u512 or s512 does not wrap. The stack is a function of
-- the index into m_stack, and the two pointers into it are indices that go down from 1024. ExtVMFace
-- and sha3 are functions over an abstract world; where a theorem needs it, the world is supposed to
-- return no more gas from a call or a creation than it was offered.
--
-- The trampoline of exec runs on fuel, one unit for each of its rounds and one for each instruction;
-- twice the gas and three are enough for a schedule in which every instruction that does not end the
-- run costs something, as those of libevmcore/EVMSchedule.h do.
--
-- The loop of RangeMask::unionWith runs on fuel too: it moves its index up in each round, so the length
-- of the range that is added is enough. An assertion that fails is the outcome `none`. The loops of
-- libdevcore/TrieCommon.cpp run as often as they have nibbles. atAux and deleteAt take one round for each
-- nibble of the key and one more, mergeAt two for each and two more, since it may split a node before it
-- goes down. The loop of NodeTable::distance runs as often as a hash has bits, and the loops over the
-- buckets as often as there are buckets.
--
-- Not modelled: the tracing callback of onOperation beyond its count of steps, the passes behind
-- EVM_OPTIMIZE and EVM_JUMPS_AND_SUBS, which libevm/VMConfig.h turns off (so libevm/VMValidate.cpp
-- too), the just-in-time compiler, the iterators and debugging scans of
-- libdevcore/TrieDB.h, and the other parts of the node: blocks, the rest of the network (the
-- encoding of packets, sessions and sockets), the sealing loop of libpdftseal/PBFTClient.cpp, and programs.
pub mod Prelude
pub mod Core
pub mod Evm
pub mod Pbft
pub mod Chain
pub mod P2p
pub mod Whisper
