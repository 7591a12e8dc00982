-- ===== src/Evm/Instruction.antt =====
-- The instruction set: libevmcore/Instruction.h (Instruction, Tier, InstructionInfo) and the table
-- of libevmcore/Instruction.cpp. The families PUSH1..PUSH32, DUP1..DUP16, SWAP1..SWAP16 and
-- LOG0..LOG4 are one constructor each, with the number in the name. MOD is `modulo`.
use x_chain.Prelude.{ℕ, zero, suc, ◌+◌, ◌-◌, ◌/◌, ◌%◌, List, [], ◌∷◌, ltb, get_or, if◌then◌else◌}

pub data Instruction : Type 0 where
  stop add mul sub div sdiv modulo smod addmod mulmod exp signextend : Instruction
  lt gt slt sgt eq iszero and or xor not byte : Instruction
  sha3 : Instruction
  address balance origin caller callvalue calldataload calldatasize calldatacopy : Instruction
  codesize codecopy gasprice extcodesize extcodecopy : Instruction
  blockhash coinbase timestamp number difficulty gaslimit : Instruction
  jumpto jumpif jumpv jumpsub jumpsubv returnsub : Instruction
  pop mload mstore mstore8 sload sstore jump jumpi pc msize gas : Instruction
  jumpdest beginsub begindata : Instruction
  push : ℕ → Instruction
  dup : ℕ → Instruction
  swap : ℕ → Instruction
  log : ℕ → Instruction
  pushc jumpc jumpci bad : Instruction
  create call callcode return delegatecall revert suicide : Instruction
  undefined : ℕ → Instruction

pub data Tier : Type 0 where
  zero_tier base very_low low mid high ext special invalid : Tier

-- `static_cast<unsigned>(tier)`
unfoldable pub tier_index : Tier → ℕ
tier_index zero_tier = 0
tier_index base = 1
tier_index very_low = 2
tier_index low = 3
tier_index mid = 4
tier_index high = 5
tier_index ext = 6
tier_index special = 7
tier_index invalid = 8

-- The part of `InstructionInfo` that `InstructionMetric` keeps.
pub record Metric : Type 0 where
  pub args : ℕ
  pub ret : ℕ
  pub tier : Tier

abbrev metric_of : ℕ → ℕ → Tier → Metric
metric_of a r t = record { args = a; ret = r; tier = t }

-- `instructionInfo`: an instruction that the table lacks gets no arguments and the tier `invalid`.
-- BAD has no entry: its line of the table repeats the key STOP, and a map keeps the first.
unfoldable pub instruction_info : Instruction → Metric
instruction_info stop = metric_of 0 0 zero_tier
instruction_info add = metric_of 2 1 very_low
instruction_info sub = metric_of 2 1 very_low
instruction_info mul = metric_of 2 1 low
instruction_info div = metric_of 2 1 low
instruction_info sdiv = metric_of 2 1 low
instruction_info modulo = metric_of 2 1 low
instruction_info smod = metric_of 2 1 low
instruction_info exp = metric_of 2 1 special
instruction_info not = metric_of 1 1 very_low
instruction_info lt = metric_of 2 1 very_low
instruction_info gt = metric_of 2 1 very_low
instruction_info slt = metric_of 2 1 very_low
instruction_info sgt = metric_of 2 1 very_low
instruction_info eq = metric_of 2 1 very_low
instruction_info iszero = metric_of 1 1 very_low
instruction_info and = metric_of 2 1 very_low
instruction_info or = metric_of 2 1 very_low
instruction_info xor = metric_of 2 1 very_low
instruction_info byte = metric_of 2 1 very_low
instruction_info addmod = metric_of 3 1 mid
instruction_info mulmod = metric_of 3 1 mid
instruction_info signextend = metric_of 2 1 low
instruction_info sha3 = metric_of 2 1 special
instruction_info address = metric_of 0 1 base
instruction_info balance = metric_of 1 1 special
instruction_info origin = metric_of 0 1 base
instruction_info caller = metric_of 0 1 base
instruction_info callvalue = metric_of 0 1 base
instruction_info calldataload = metric_of 1 1 very_low
instruction_info calldatasize = metric_of 0 1 base
instruction_info calldatacopy = metric_of 3 0 very_low
instruction_info codesize = metric_of 0 1 base
instruction_info codecopy = metric_of 3 0 very_low
instruction_info gasprice = metric_of 0 1 base
instruction_info extcodesize = metric_of 1 1 special
instruction_info extcodecopy = metric_of 4 0 special
instruction_info blockhash = metric_of 1 1 ext
instruction_info coinbase = metric_of 0 1 base
instruction_info timestamp = metric_of 0 1 base
instruction_info number = metric_of 0 1 base
instruction_info difficulty = metric_of 0 1 base
instruction_info gaslimit = metric_of 0 1 base
instruction_info jumpto = metric_of 1 0 very_low
instruction_info jumpif = metric_of 2 0 low
instruction_info jumpv = metric_of 1 0 mid
instruction_info jumpsub = metric_of 1 0 low
instruction_info jumpsubv = metric_of 1 0 mid
instruction_info returnsub = metric_of 1 0 mid
instruction_info pop = metric_of 1 0 base
instruction_info mload = metric_of 1 1 very_low
instruction_info mstore = metric_of 2 0 very_low
instruction_info mstore8 = metric_of 2 0 very_low
instruction_info sload = metric_of 1 1 special
instruction_info sstore = metric_of 2 0 special
instruction_info jump = metric_of 1 0 mid
instruction_info jumpi = metric_of 2 0 high
instruction_info pc = metric_of 0 1 base
instruction_info msize = metric_of 0 1 base
instruction_info gas = metric_of 0 1 base
instruction_info jumpdest = metric_of 0 0 special
instruction_info begindata = metric_of 0 0 special
instruction_info beginsub = metric_of 0 0 special
instruction_info (push n) = metric_of 0 1 very_low
instruction_info (dup n) = metric_of n (n + 1) very_low
instruction_info (swap n) = metric_of (n + 1) (n + 1) very_low
instruction_info (log n) = metric_of (n + 2) 0 special
instruction_info create = metric_of 3 1 special
instruction_info call = metric_of 7 1 special
instruction_info callcode = metric_of 7 1 special
instruction_info return = metric_of 2 0 zero_tier
instruction_info delegatecall = metric_of 6 1 special
instruction_info revert = metric_of 2 0 special
instruction_info suicide = metric_of 1 0 special
instruction_info pushc = metric_of 0 1 very_low
instruction_info jumpc = metric_of 1 0 mid
instruction_info jumpci = metric_of 1 0 high
instruction_info bad = metric_of 0 0 invalid
instruction_info (undefined n) = metric_of 0 0 invalid

-- The rows of the enumeration, sixteen bytes each; the rows of the families are by number.
unfoldable pub row : ℕ → List Instruction
row zero =
    stop ∷ add ∷ mul ∷ sub ∷ div ∷ sdiv ∷ modulo ∷ smod ∷ addmod ∷ mulmod ∷ exp ∷ signextend ∷ []
row (suc zero) = lt ∷ gt ∷ slt ∷ sgt ∷ eq ∷ iszero ∷ and ∷ or ∷ xor ∷ not ∷ byte ∷ []
row (suc (suc zero)) = sha3 ∷ []
row (suc (suc (suc zero))) =
    address ∷ balance ∷ origin ∷ caller ∷ callvalue ∷ calldataload ∷ calldatasize ∷ calldatacopy
    ∷ codesize ∷ codecopy ∷ gasprice ∷ extcodesize ∷ extcodecopy ∷ []
row (suc (suc (suc (suc zero)))) =
    blockhash
    ∷ coinbase
    ∷ timestamp
    ∷ number
    ∷ difficulty
    ∷ gaslimit
    ∷ undefined 0x46
    ∷ undefined 0x47
    ∷ undefined 0x48
    ∷ undefined 0x49
    ∷ jumpto
    ∷ jumpif
    ∷ jumpv
    ∷ jumpsub
    ∷ jumpsubv
    ∷ returnsub
    ∷ []
row (suc (suc (suc (suc (suc zero))))) =
    pop ∷ mload ∷ mstore ∷ mstore8 ∷ sload ∷ sstore ∷ jump ∷ jumpi ∷ pc ∷ msize ∷ gas ∷ jumpdest
    ∷ beginsub ∷ begindata ∷ []
row _ = []

abbrev pub items_a : List Instruction
items_a =
    log 0
    ∷ log 1
    ∷ log 2
    ∷ log 3
    ∷ log 4
    ∷ undefined 0xa5
    ∷ undefined 0xa6
    ∷ undefined 0xa7
    ∷ undefined 0xa8
    ∷ undefined 0xa9
    ∷ undefined 0xaa
    ∷ undefined 0xab
    ∷ pushc
    ∷ jumpc
    ∷ jumpci
    ∷ bad
    ∷ []

abbrev pub items_f : List Instruction
items_f =
    create
    ∷ call
    ∷ callcode
    ∷ return
    ∷ delegatecall
    ∷ undefined 0xf5
    ∷ undefined 0xf6
    ∷ undefined 0xf7
    ∷ undefined 0xf8
    ∷ undefined 0xf9
    ∷ undefined 0xfa
    ∷ undefined 0xfb
    ∷ undefined 0xfc
    ∷ revert
    ∷ undefined 0xfe
    ∷ suicide
    ∷ []

unfoldable pub row_a : ℕ → Instruction
row_a i = get_or items_a i (undefined (0xa0 + i))

unfoldable pub row_f : ℕ → Instruction
row_f i = get_or items_f i (undefined (0xf0 + i))

-- `Instruction(byte)`
unfoldable pub decode : ℕ → Instruction
unfolding row row_a row_f
decode b =
    if ltb b 0x60
    then get_or (row (b / 16)) (b % 16) (undefined b)
    else if ltb b 0x80
    then push (b - 0x60 + 1)
    else if ltb b 0x90
    then dup (b - 0x80 + 1)
    else if ltb b 0xa0
    then swap (b - 0x90 + 1)
    else if ltb b 0xb0
    then row_a (b - 0xa0)
    else if ltb b 0xf0
    then undefined b
    else row_f (b - 0xf0)
