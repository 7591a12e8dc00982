-- ===== src/Pbft/Tests.antt =====
-- The sealing engine of libpdftseal/PBFT.cpp at concrete inputs.
use x_chain.Prelude.{ℕ, ◌≤◌, ◌<◌, ◌≡◌, refl, Bool, true, false, not, ◌&&◌, [], ◌∷◌, arith, ◌==◌}
use x_chain.Pbft.{
  Pbft, Header, Handlers, new_request, generate_commit, request, offer_request, quorum,
}
use x_chain.Pbft.Quorum.{votes, IsConfigured, quorums_meet}

-- Four nodes, of which one may be faulty, in view 5.
abbrev four_nodes : Pbft ℕ
four_nodes = record {
  account_type = 1;
  node_num = 4;
  node_idx = 2;
  f = 1;
  view = 5;
  to_view = 5;
  view_timeout = 3000;
  last_consensus_time = 0;
  change_cycle = 0;
  leader_failed = false;
  last_sign_time = 0;
  last_exec_finish_time = 0;
  consensus_block_number = 0;
  prepare_cache = new_request;
  future_prepare_cache = (0, new_request);
  sign_cache = [];
  commit_cache = [];
  recv_view_change_req = [];
  commit_map = [];
}

abbrev next_view : Pbft ℕ
next_view = record four_nodes { view = 6 }

-- Handlers that keep the request and send all messages.
abbrev toy_handlers : Handlers ℕ
toy_handlers = record {
  broadcast_prepare_req = λ bi block p. (true, p);
  add_prepare_req = λ req p. (true, record p { prepare_cache = req });
  broadcast_sign_req = λ req p. (true, record p { last_sign_time = req.timestamp });
  check_and_commit = λ p. record p { consensus_block_number = p.prepare_cache.height };
  sign_hash = λ b. 1 ∷ b;
  hash_fields = λ height view idx now. height ∷ view ∷ idx ∷ now ∷ [];
}

abbrev a_header : Header
a_header = record { number = 7; hash = 70 ∷ [] }

four_nodes-IsConfigured : IsConfigured four_nodes
four_nodes-IsConfigured = record { some_node = omega arith; faults = refl; small = omega arith }

abbrev all_but : ℕ → ℕ → Bool
all_but n i = not (i == n)

stale_commit : generate_commit toy_handlers a_header [] 5 9 next_view ≡ (false, next_view)
unfolding generate_commit
stale_commit = refl

committed_block :
    (generate_commit toy_handlers a_header [] 5 9 four_nodes).1.consensus_block_number ≡ 7
unfolding generate_commit offer_request request
committed_block = refl

few_faults : votes (λ i. i == 1) 4 ≤ 1
few_faults = omega arith

enough_without_first : quorum four_nodes ≤ votes (all_but 0) 4
unfolding quorum
enough_without_first = omega arith

enough_without_last : quorum four_nodes ≤ votes (all_but 3) 4
unfolding quorum
enough_without_last = omega arith

quorums_meet_example : (i : ℕ) × (i < 4) × (all_but 0 i && all_but 3 i ≡ true) × ((i == 1) ≡ false)
quorums_meet_example =
    quorums_meet four_nodes (all_but 0) (all_but 3) (λ i. i == 1) four_nodes-IsConfigured
      enough_without_first enough_without_last few_faults
