-- ===== src/Chain/Executive.antt =====
-- libethereum/Executive.cpp: the execution of one transaction, its checks, its payment and its gas.
-- A u256 is a number below 2^256 with its wrap-around written out, a bigint does not wrap. The state of the accounts
-- (State), the seal engine and the machine that runs the code are records of functions: State is not in the
-- repository. `m_res`, the optional record of results, the tracing and the logging are left out.
use x_chain.Prelude.{
  ℕ, zero, suc, ◌+◌, ◌-◌, ◌*◌, ◌/◌, ◌%◌, ◌^◌, ◌≤◌, ◌<◌, min, max, bit_and, bit_or, bit_xor, ◌≡◌,
  refl, sym, ap, ◌∙◌, subst, ◌≢◌, ◌↔◌, ◌⊎◌, inl, inr, Bool, true, false, not, ◌&&◌, ◌||◌, Option,
  none, some, List, [], ◌∷◌, ◌++◌, map, arith, ltb, leb, ◌==◌, if◌then◌else◌, ltb→lt, lt→ltb,
  leb→le, ==_iff, Bool-cases, Option-cases, length, get_elem?, get_or, set, take, drop, replicate,
  length-append, length-set, length-replicate, All,
}
use mathlib.Core.Option
pub mod Payment
pub mod Money
pub mod Transactions

abbrev pub Bytes : Type 0
Bytes = List ℕ

abbrev pub word : ℕ
word = 2 ^ 256

abbrev pub minus256 : ℕ → ℕ → ℕ
minus256 a b = (a + word - b) % word

-- Without `None`, which is the option `none`.
pub data TransactionException : Type 0 where
  unknown : TransactionException
  bad_rlp : TransactionException
  invalid_format : TransactionException
  out_of_gas_intrinsic : TransactionException
  invalid_signature : TransactionException
  invalid_nonce : TransactionException
  not_enough_cash : TransactionException
  out_of_gas_base : TransactionException
  block_gas_limit_reached : TransactionException
  bad_instruction : TransactionException
  bad_jump_destination : TransactionException
  out_of_gas : TransactionException
  out_of_stack : TransactionException
  stack_underflow : TransactionException
  revert_instruction : TransactionException
  invalid_zero_signature_format : TransactionException

pub record Transaction : Type 0 where
  pub null : Bool
  pub sender : ℕ
  pub receive_address : ℕ
  pub nonce : ℕ
  pub gas : ℕ
  pub gas_price : ℕ
  pub value : ℕ
  pub is_creation : Bool
  pub zero_signature : Bool
  pub payload : Bytes
  pub base_gas : ℕ

-- SubState; the logs are of another type.
pub record SubState (L : Type 0) : Type 0 where
  pub refunds : ℕ
  pub suicides : List ℕ
  pub logs : List L

-- ExtVM, as far as the executive sees it: the account whose code runs, the code, and the four fields of the schedule.
pub record Ext (L : Type 0) : Type 0 where
  pub my_address : ℕ
  pub code : Bytes
  pub call_data : Bytes
  pub max_code_size : ℕ
  pub create_data_gas : ℕ
  pub exceptional_failed_code_deposit : Bool
  pub suicide_refund_gas : ℕ
  pub sub : SubState L

-- How the machine ends: with output, with REVERT, with another VMException, or with an exception that ends the program.
pub data Ended (W L : Type 0) : Type 0 where
  returned : ℕ → Bytes → W → SubState L → Ended W L
  reverted : ℕ → Bytes → W → SubState L → Ended W L
  failed : TransactionException → W → SubState L → Ended W L
  fatal : Ended W L

pub record World (W L : Type 0) : Type 0 where
  pub balance : W → ℕ → ℕ
  pub get_nonce : W → ℕ → Option ℕ
  pub add_balance : W → ℕ → ℕ → W
  pub sub_balance : W → ℕ → ℕ → W
  pub transfer_balance : W → ℕ → ℕ → ℕ → W
  pub inc_nonce : W → ℕ → W
  pub savepoint : W → ℕ
  pub rollback : W → ℕ → W
  pub kill : W → ℕ → W
  pub code : W → ℕ → Option Bytes
  pub set_new_code : W → ℕ → Bytes → W
  pub new_address : ℕ → ℕ → ℕ
  pub verify_transaction : Transaction → Option TransactionException
  pub is_precompiled : ℕ → Bool
  pub cost_of_precompiled : ℕ → Bytes → ℕ
  pub execute_precompiled : ℕ → Bytes → Bool × Bytes
  pub eip158 : Bool
  pub max_address : ℕ
  pub author : ℕ
  pub block_gas_used : ℕ
  pub block_gas_limit : ℕ
  pub new_ext : ℕ → Bytes → Bytes → Ext L
  pub run_code : ℕ → Ext L → W → Ended W L

pub record Executive (W L : Type 0) : Type 0 where
  pub t : Transaction
  pub gas : ℕ
  pub gas_cost : ℕ
  pub base_gas_required : ℕ
  pub refunded : ℕ
  pub is_creation : Bool
  pub new_address : ℕ
  pub saved : ℕ
  pub excepted : Option TransactionException
  pub ext : Option (Ext L)
  pub output : Bytes
  pub logs : List L
  pub s : W

-- What `initialize` throws, with the state that it leaves, or the state.
pub data Initialized (W L : Type 0) : Type 0 where
  throws : TransactionException → Executive W L → Initialized W L
  accepts : Executive W L → Initialized W L

pub record CallParameters : Type 0 where
  pub sender_address : ℕ
  pub code_address : ℕ
  pub receive_address : ℕ
  pub value_transfer : ℕ
  pub gas : ℕ
  pub payload : Bytes

module _ {W L : Type 0} (w : World W L) where
  unfoldable pub reject : TransactionException → Executive W L → Initialized W L
  reject x e = Initialized.throws x (record e { excepted = some x })

  -- The checks of nonce and balance.
  unfoldable pub check_sender : Executive W L → Option ℕ → Initialized W L
  check_sender e none = reject TransactionException.invalid_signature e
  check_sender e (some nonce_req) =
      let gas_cost = e.t.gas * e.t.gas_price in
      if not (e.t.nonce == nonce_req)
      then reject TransactionException.invalid_nonce e
      else if ltb (w.balance e.s e.t.sender) (e.t.value + gas_cost)
      then reject TransactionException.not_enough_cash e
      else Initialized.accepts (record e { gas_cost = gas_cost % word })

  unfoldable pub check_gas : Executive W L → Initialized W L
  check_gas e =
      if ltb w.block_gas_limit (w.block_gas_used + e.t.gas)
      then reject TransactionException.block_gas_limit_reached e
      else (let e' = record e { base_gas_required = e.t.base_gas } in
          if ltb e.t.gas e.t.base_gas
          then reject TransactionException.out_of_gas_base e'
          else if e.t.zero_signature
          then Initialized.accepts e'
          else check_sender e' (w.get_nonce e.s e.t.sender))

  unfoldable pub initialize : Executive W L → Transaction → Initialized W L
  initialize e t =
      let e' = record e { t = t } in
      elim (w.verify_transaction t) [ none ↦ check_gas e' | some x ↦ reject x e' ]

  unfoldable pub gas_used : Executive W L → ℕ
  gas_used e = minus256 e.t.gas e.gas

  -- A precompiled contract: whether there is nothing more to do, and the state.
  unfoldable pub call_precompiled : Executive W L → CallParameters → Bool × Executive W L
  call_precompiled e p =
      let g = w.cost_of_precompiled p.code_address p.payload in
      let (success, output) = w.execute_precompiled p.code_address p.payload in
      if ltb p.gas g
      then (
        true,
        record e {
          excepted = some TransactionException.out_of_gas_base;
          s = if w.eip158 then w.add_balance e.s p.code_address 0 else e.s;
        },
      )
      else if success
      then (false, record e { gas = p.gas - g; output = output })
      else (
        false,
        record e { gas = 0; excepted = some TransactionException.out_of_gas; output = output },
      )

  unfoldable pub call_code : Executive W L → CallParameters → Executive W L
  call_code e p = elim (w.code e.s p.code_address) [
    | none ↦ record e { gas = p.gas }
    | some c ↦ record e { gas = p.gas; ext = some (w.new_ext p.receive_address c p.payload) }
  ]

  unfoldable pub no_ext : Option (Ext L) → Bool
  no_ext none = true
  no_ext (some x) = false

  unfoldable pub pay_call : CallParameters → Executive W L → Bool × Executive W L
  pay_call p e = (
    no_ext e.ext,
    record e { s = w.transfer_balance e.s p.sender_address p.receive_address p.value_transfer },
  )

  unfoldable pub called : Executive W L → CallParameters → Bool × Executive W L
  called e p =
      let (done, e') = call_precompiled e p in
      if w.is_precompiled p.code_address
      then if done then (true, e') else pay_call p e'
      else pay_call p (call_code e p)

  unfoldable pub call : Executive W L → CallParameters → Bool × Executive W L
  call e p =
      let counted =
        if e.t.null || (p.sender_address == w.max_address)
        then e.s
        else w.inc_nonce e.s p.sender_address in
      called (record e { s = counted; saved = w.savepoint counted }) p

  -- `none` where getNonce throws.
  unfoldable pub create_with :
      Executive W L → ℕ → ℕ → ℕ → Bytes → Option ℕ → Option (Bool × Executive W L)
  create_with e sender endowment gas init none = none
  create_with e sender endowment gas init (some nonce) =
      let s1 = if sender == w.max_address then e.s else w.inc_nonce e.s sender in
      let address = w.new_address sender nonce in
      let s2 = w.transfer_balance s1 sender address endowment in
      let s3 = if w.eip158 then w.inc_nonce s2 address else s2 in
      let e' = record e {
        saved = w.savepoint s1;
        is_creation = true;
        new_address = address;
        gas = gas;
        s = s3;
      } in
      some (elim init [
        | [] ↦ (
          no_ext e'.ext,
          record e' {
            s = elim (w.code s3 address) [ none ↦ s3 | some c ↦ w.set_new_code s3 address [] ];
          },
        )
        | b ∷ code ↦ (false, record e' { ext = some (w.new_ext address (b ∷ code) []) })
      ])

  unfoldable pub create : Executive W L → ℕ → ℕ → ℕ → Bytes → Option (Bool × Executive W L)
  create e sender endowment gas init =
      create_with e sender endowment gas init (w.get_nonce e.s sender)

  unfoldable pub execute : Executive W L → Option (Bool × Executive W L)
  execute e =
      let e' = record e { s = w.sub_balance e.s e.t.sender e.gas_cost } in
      let gas = minus256 e.t.gas e.base_gas_required in
      if e.t.is_creation
      then create e' e.t.sender e.t.value gas e.t.payload
      else some (
          call e' (record {
            sender_address = e.t.sender;
            code_address = e.t.receive_address;
            receive_address = e.t.receive_address;
            value_transfer = e.t.value;
            gas = gas;
            payload = e.t.payload;
          }))

  unfoldable pub cleared : Ext L → Ext L
  cleared x = record x { sub = record { refunds = 0; suicides = []; logs = [] } }

  unfoldable pub revert : Executive W L → Executive W L
  revert e = record e {
    ext = Option.map cleared e.ext;
    new_address = 0;
    s = w.rollback e.s e.saved;
  }

  unfoldable pub fail_with : TransactionException → Executive W L → Executive W L
  fail_with x e = revert (record e { gas = 0; excepted = some x })

  -- The code of a new account, with its price of 64 bits.
  unfoldable pub deposit : Executive W L → Ext L → Bytes → Executive W L
  deposit e x out =
      let price = (length out * x.create_data_gas) % 2 ^ 64 in
      if ltb x.max_code_size (length out)
      then fail_with TransactionException.out_of_gas e
      else if leb price e.gas
      then record e { gas = e.gas - price; s = w.set_new_code e.s x.my_address out }
      else if x.exceptional_failed_code_deposit
      then fail_with TransactionException.out_of_gas e
      else record e { s = w.set_new_code e.s x.my_address [] }

  unfoldable pub after_exec : Executive W L → Ext L → Ended W L → Option (Executive W L)
  after_exec e x (Ended.returned gas out s sub) =
      let x' = record x { sub = sub } in
      let e' = record e { gas = gas; s = s; ext = some x' } in
      some (if e.is_creation then deposit e' x' out else record e' { output = out })
  after_exec e x (Ended.reverted gas out s sub) =
      some (record (revert (record e { gas = gas; s = s; ext = some (record x { sub = sub }) })) {
        output = out;
        excepted = some TransactionException.revert_instruction;
      })
  after_exec e x (Ended.failed why s sub) =
      some (fail_with why (record e { s = s; ext = some (record x { sub = sub }) }))
  after_exec e x Ended.fatal = none

  -- `none` is `exit(1)`.
  unfoldable pub go_on : Executive W L → Option (Ext L) → Option (Executive W L)
  go_on e none = some e
  go_on e (some x) = after_exec e x (w.run_code e.gas x e.s)

  unfoldable pub go : Executive W L → Option (Executive W L)
  go e = go_on e e.ext

  unfoldable pub kill_all : W → List ℕ → W
  kill_all s [] = s
  kill_all s (a ∷ l) = kill_all (w.kill s a) l

  unfoldable pub total_refunds : Ext L → ℕ
  total_refunds x = (x.sub.refunds + x.suicide_refund_gas * length x.sub.suicides % 2 ^ 64) % word

  unfoldable pub with_refunds : Ext L → Ext L
  with_refunds x = record x { sub = record x.sub { refunds = total_refunds x } }

  unfoldable pub refund : Executive W L → Option (Ext L) → ℕ
  refund e none = 0
  refund e (some x) = min (minus256 e.t.gas e.gas / 2) (total_refunds x)

  unfoldable pub returned_fee : Executive W L → ℕ
  returned_fee e = (e.gas * e.t.gas_price) % word

  unfoldable pub fees_earned : Executive W L → ℕ
  fees_earned e = (minus256 e.t.gas e.gas * e.t.gas_price) % word

  -- The balances, the refund being in the gas already.
  unfoldable pub settle : Executive W L → Executive W L
  settle e = if e.t.null then e else record e {
    s = w.add_balance (w.add_balance e.s e.t.sender (returned_fee e)) w.author (fees_earned e);
  }

  unfoldable pub end_accounts : Executive W L → Option (Ext L) → Executive W L
  end_accounts e none = e
  end_accounts e (some x) = record e { s = kill_all e.s x.sub.suicides; logs = x.sub.logs }

  unfoldable pub finalize : Executive W L → Executive W L
  finalize e =
      let refunded = refund e e.ext in
      end_accounts
        (settle (record e {
          refunded = refunded;
          gas = (e.gas + refunded) % word;
          ext = Option.map with_refunds e.ext;
        }))
        e.ext
