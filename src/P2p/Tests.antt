-- ===== src/P2p/Tests.antt =====
-- Small tables for the theorems on the node table of libp2p.
use x_chain.Prelude.{
  List, ℕ, ◌≤◌, ◌<◌, ◌*◌, ◌≡◌, refl, Bool, true, false, [], ◌∷◌, map, ltb, ◌==◌, if◌then◌else◌,
  length, get_elem?, arith, All,
}
use x_chain.P2p.NodeTable.{
  Network, NodeTable, NodeEntry, NodeIpEndpoint, node_entry, find, bucket_index, is_allowed,
  is_given, distance, shifts, add_known, note_active_node,
}
use x_chain.P2p.NodeTable.Nearest.{
  nearest_node_entries, reachable, pick, found_nodes, spread, push_bucket, push_entry, push_found,
}
use x_chain.P2p.NodeTable.Buckets.{IsBounded}
use x_chain.P2p.NodeTable.Receive.{
  ping_in, on_received, receive, know, Reaches, here, next, Reaches-IsBounded,
}
use x_chain.P2p.NodeTable.Moves.{note_active_node-moves}
use x_chain.P2p.NodeTable.Order.{IsSorted, distance_of, nearest_node_entries_lem}
use x_chain.P2p.NodeTable.Discovery.{
  do_discover, choose, is_tried, ask_round, begin, later, Comes-length,
}
use x_chain.P2p.NodeTable.Distance.{IsLog, distance_lem}

-- Ids are their own hashes; the address 0 is unspecified, and the others are public.
abbrev plain : Network
plain = record {
  sha3 = λ id. id;
  is_unspecified = λ a. a == 0;
  is_public_address = λ a. ltb 0 a;
  allow_local = false;
}

abbrev home : NodeIpEndpoint
home = record { address = 9; udp_port = 30303; tcp_port = 30303 }

abbrev empty_table : NodeTable
empty_table = record {
  self = 1;
  self_endpoint = home;
  entries = [];
  nodes = [];
  buckets = λ i. [];
  evictions = [];
  discover_pings = [];
  find_node_timeout = [];
  events = [];
  is_open = true;
  sent = [];
}

abbrev entry : ℕ → ℕ → NodeEntry
entry id d = record { id = id; endpoint = home; distance = d; pending = false }

-- Three nodes at distance 3 from the node 1, in one bucket.
abbrev three_nodes : NodeTable
three_nodes = record empty_table {
  entries = entry 8 3 ∷ entry 10 3 ∷ entry 12 3 ∷ [];
  nodes = (8, 0) ∷ (10, 1) ∷ (12, 2) ∷ [];
  buckets = λ i. if i == 2 then 0 ∷ 1 ∷ 2 ∷ [] else [];
}

abbrev alive : ℕ → Bool
alive h = true

abbrev run_to : NodeTable
run_to =
    on_received plain alive (add_known plain alive empty_table 4 8 home) 5 8 home (ping_in home)

abbrev run : Reaches plain empty_table run_to
run =
    next (next here (know empty_table alive 4 8 home))
      (receive (add_known plain alive empty_table 4 8 home) alive 5 8 home (ping_in home))

Reaches-IsBounded_example : IsBounded run_to
Reaches-IsBounded_example = Reaches-IsBounded plain empty_table run_to (λ i. omega arith) run

nearest_node_entries_lem_example :
    IsSorted
      (map (distance_of plain three_nodes 13) (nearest_node_entries plain alive three_nodes 13))
    × (length (nearest_node_entries plain alive three_nodes 13) ≤ 16)
    × All
        (λ h. reachable plain alive three_nodes 13 (get_elem? three_nodes.entries h) ≡ true)
        (nearest_node_entries plain alive three_nodes 13)
nearest_node_entries_lem_example = nearest_node_entries_lem plain alive three_nodes 13

note_active_node-moves_example :
    let t = note_active_node plain alive three_nodes 7 10 9 40000 in
    (t.buckets 2 ≡ 0 ∷ 1 ∷ []) × (t.events ≡ []) × (t.evictions ≡ [])
unfolding node_entry find is_allowed bucket_index
note_active_node-moves_example =
    note_active_node-moves plain alive three_nodes 7 1 9 40000 (entry 10 3) refl refl refl refl refl
      (0 ∷ []) (2 ∷ []) refl (refl, tt) (omega arith)

distance_lem_example : IsLog 12 (distance plain 1 13) × (distance plain 1 13 < 256)
distance_lem_example = distance_lem plain 1 13 (omega arith) (omega arith)

-- The target 13 is at the distances 2, 2 and 0 from the nodes 8, 10 and 12.
nearest_run : nearest_node_entries plain alive three_nodes 13 ≡ 2 ∷ 0 ∷ 1 ∷ []
unfolding nearest_node_entries distance pick found_nodes shifts spread push_bucket push_entry
    push_found reachable is_given is_allowed
nearest_run = refl

abbrev asked : List ℕ
asked = 2 ∷ 0 ∷ 1 ∷ []

Comes-length_example : (1 ≤ 8) × (1 ≤ length asked) × (length asked ≤ 3 * 1)
unfolding do_discover choose is_tried ask_round nearest_node_entries distance pick found_nodes
    shifts spread push_bucket push_entry push_found reachable is_given is_allowed
Comes-length_example = Comes-length plain 13 1 asked (later begin alive three_nodes 5 refl)
