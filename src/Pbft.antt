-- ===== src/Pbft.antt =====
-- libpdftseal/PBFT.{h,cpp} and libpdftseal/Common.h: the sealing engine for practical Byzantine fault tolerance.
-- The state is that of class PBFT without its pointers and locks. A u256 is a number. What the
-- repository does not define is a parameter: the handlers of messages, the signatures and the hash of the fields of
-- a message, which RLP and sha3 make. Logging is left out.
use x_chain.Prelude.{
  ℕ, zero, suc, ◌+◌, ◌-◌, ◌*◌, ◌/◌, ◌%◌, ◌^◌, ◌≤◌, ◌<◌, min, max, bit_and, bit_or, bit_xor, ◌≡◌,
  refl, sym, ap, ◌∙◌, subst, ◌≢◌, ◌↔◌, ◌⊎◌, inl, inr, Bool, true, false, not, ◌&&◌, ◌||◌, Option,
  none, some, List, [], ◌∷◌, ◌++◌, map, arith, ltb, leb, ◌==◌, if◌then◌else◌, ltb→lt, lt→ltb,
  leb→le, ==_iff, Bool-cases, Option-cases, length, get_elem?, get_or, set, take, drop, replicate,
  length-append, length-set, length-replicate, All,
}
pub mod Quorum
pub mod Commit
mod Tests

abbrev pub Bytes : Type 0
Bytes = List ℕ

abbrev pub invalid_256 : ℕ
invalid_256 = 2 ^ 256 - 1

abbrev pub word256 : ℕ
word256 = 2 ^ 256

-- PBFTMsg with the `block` of PrepareReq; a null hash or signature is the empty string.
pub record PrepareReq : Type 0 where
  pub height : ℕ
  pub view : ℕ
  pub idx : ℕ
  pub timestamp : ℕ
  pub block_hash : Bytes
  pub sig : Bytes
  pub sig2 : Bytes
  pub block : Bytes

abbrev pub new_request : PrepareReq
new_request = record {
  height = invalid_256;
  view = invalid_256;
  idx = invalid_256;
  timestamp = invalid_256;
  block_hash = [];
  sig = [];
  sig2 = [];
  block = [];
}

-- `PBFTMsg::clear`, which does not know of `block`.
unfoldable pub clear : PrepareReq → PrepareReq
clear r = record new_request { block = r.block }

-- The caches of messages are lists of entries that only the handlers use.
pub record Pbft (X : Type 0) : Type 0 where
  pub account_type : ℕ
  pub node_num : ℕ
  pub node_idx : ℕ
  pub f : ℕ
  pub view : ℕ
  pub to_view : ℕ
  pub view_timeout : ℕ
  pub last_consensus_time : ℕ
  pub change_cycle : ℕ
  pub leader_failed : Bool
  pub last_sign_time : ℕ
  pub last_exec_finish_time : ℕ
  pub consensus_block_number : ℕ
  pub prepare_cache : PrepareReq
  pub future_prepare_cache : ℕ × PrepareReq
  pub sign_cache : List X
  pub commit_cache : List X
  pub recv_view_change_req : List X
  pub commit_map : List (Bytes × Bool)

-- What the engine reads of a block header.
pub record Header : Type 0 where
  pub number : ℕ
  pub hash : Bytes

-- The functions that the repository declares and does not define.
pub record Handlers (X : Type 0) : Type 0 where
  pub broadcast_prepare_req : Header → Bytes → Pbft X → Bool × Pbft X
  pub add_prepare_req : PrepareReq → Pbft X → Bool × Pbft X
  pub broadcast_sign_req : PrepareReq → Pbft X → Bool × Pbft X
  pub check_and_commit : Pbft X → Pbft X
  pub sign_hash : Bytes → Bytes
  pub hash_fields : ℕ → ℕ → ℕ → ℕ → Bytes

module _ {X : Type 0} where
  unfoldable pub reset_config : Pbft X → Pbft X
  reset_config p = record p {
    account_type = 1;
    node_num = 1;
    node_idx = 0;
    f = (1 - 1) / 3;
    prepare_cache = clear p.prepare_cache;
    sign_cache = [];
    recv_view_change_req = [];
    commit_map = [];
  }

  -- `times` are those that the three calls of the clock return, `backup` is initBackupDB.
  unfoldable pub init_env : (Pbft X → Pbft X) → ℕ → ℕ → ℕ → Pbft X → Pbft X
  init_env backup view_timeout time1 time2 p = backup (record (reset_config p) {
    view_timeout = view_timeout;
    consensus_block_number = 0;
    last_consensus_time = time1;
    change_cycle = 0;
    to_view = 0;
    leader_failed = false;
    last_sign_time = 0;
    future_prepare_cache = (invalid_256, new_request);
    last_exec_finish_time = time2;
  })

  unfoldable pub start_generation : ℕ → Pbft X → Pbft X
  start_generation time p = reset_config (record p { last_consensus_time = time })

  unfoldable pub quorum : Pbft X → ℕ
  quorum p = (p.node_num + word256 - p.f) % word256

  -- `leader` is what getLeader returns: whether there is one, and its index.
  unfoldable pub is_leader : Bool × ℕ → Pbft X → Bool
  is_leader leader p = leader.0 && (leader.1 == p.node_idx)

  module _ (h : Handlers X) where
    -- What it returns, the view that it writes to its argument, and the state.
    unfoldable pub generate_seal : Header → Bytes → Pbft X → Bool × ℕ × Pbft X
    generate_seal bi block_data p =
        let (sent, p') = h.broadcast_prepare_req bi block_data p in (sent, p.view, p')

    unfoldable pub request : Header → Bytes → ℕ → ℕ → Pbft X → PrepareReq
    request bi block_data view now p = record {
      height = bi.number;
      view = view;
      idx = p.node_idx;
      timestamp = now;
      block_hash = bi.hash;
      sig = h.sign_hash bi.hash;
      sig2 = h.sign_hash (h.hash_fields bi.number view p.node_idx now);
      block = block_data;
    }

    unfoldable pub offer_request : PrepareReq → Pbft X → Pbft X
    offer_request req p =
        let (added, p1) = h.add_prepare_req req p in
        let (sent, p2) = h.broadcast_sign_req req p1 in
        if added then if sent then h.check_and_commit p2 else p2 else p1

    unfoldable pub generate_commit : Header → Bytes → ℕ → ℕ → Pbft X → Bool × Pbft X
    generate_commit bi block_data view now p =
        if view == p.view
        then (true, offer_request (request bi block_data view now p) p)
        else (false, p)
