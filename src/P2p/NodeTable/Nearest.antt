-- ===== src/P2p/NodeTable/Nearest.antt =====
-- `nearestNodeEntries` of libp2p/NodeTable.cpp, and the answer to FindNode.
-- The code never counts `count` up, so the tests on it hold and are left out.
use x_chain.Prelude.{
  ℕ, zero, suc, ◌+◌, ◌-◌, ◌%◌, Bool, false, not, ◌&&◌, Option, none, some, List, [], ◌∷◌, ◌++◌, ltb,
  ◌==◌, if◌then◌else◌, length, get_elem?, take, drop,
}
use x_chain.P2p.NodeTable.Packets.{note_after}
use x_chain.P2p.NodeTable.{
  Network, NodeTable, NodeEntry, NodeIpEndpoint, Packet, neighbours, bins, bucket_size, distance,
  is_given, is_allowed,
}

-- `found[distance(_target, p->id)].push_back(p)`: behind the nodes that are as far.
unfoldable pub push_found : ℕ → ℕ → List (ℕ × ℕ) → List (ℕ × ℕ)
push_found d h [] = (d, h) ∷ []
push_found d h (e ∷ l) = if ltb d e.0 then (d, h) ∷ e ∷ l else e ∷ push_found d h l

module _ (net : Network) (alive : ℕ → Bool) (t : NodeTable) (target : ℕ) where
  unfoldable pub push_entry : ℕ → Option NodeEntry → List (ℕ × ℕ) → List (ℕ × ℕ)
  push_entry h none found = found
  push_entry h (some e) found =
      if alive h then push_found (distance net target e.id) h found else found

  unfoldable pub push_bucket : List ℕ → List (ℕ × ℕ) → List (ℕ × ℕ)
  push_bucket [] found = found
  push_bucket (h ∷ l) found = push_bucket l (push_entry h (get_elem? t.entries h) found)

  -- The loop that spreads from the middle.
  unfoldable pub spread : ℕ → ℕ → ℕ → List (ℕ × ℕ) → List (ℕ × ℕ)
  spread zero head tail found = found
  spread (suc n) head tail found =
      let up = push_bucket (t.buckets head) found in
      let both = if ltb 0 tail then push_bucket (t.buckets tail) up else up in
      let rest = spread n (head + 1) (tail - 1) both in
      if not (head == tail) && ltb head bins then rest else found

  unfoldable pub upwards : ℕ → ℕ → List (ℕ × ℕ) → List (ℕ × ℕ)
  upwards zero head found = found
  upwards (suc n) head found =
      let rest = upwards n (head + 1) (push_bucket (t.buckets head) found) in
      if ltb head bins then rest else found

  unfoldable pub downwards : ℕ → List (ℕ × ℕ) → List (ℕ × ℕ)
  downwards zero found = found
  downwards (suc n) found = downwards n (push_bucket (t.buckets (suc n)) found)

  unfoldable pub found_nodes : List (ℕ × ℕ)
  found_nodes =
      let head = distance net t.self target in
      let tail = if head == 0 then bins - 1 else (head - 1) % bins in
      if ltb 1 head && not (tail == bins - 1)
      then spread bins head tail []
      else if ltb head 2
      then upwards bins head []
      else downwards tail []

  unfoldable pub reachable : Option NodeEntry → Bool
  reachable none = false
  reachable (some e) = is_given net e.endpoint && is_allowed net e.endpoint

  -- The loop over the found nodes, with the room that is left.
  unfoldable pub pick : ℕ → List (ℕ × ℕ) → List ℕ
  pick room [] = []
  pick room (e ∷ l) =
      let next = pick (room - 1) l in
      let skip = pick room l in
      if ltb 0 room && reachable (get_elem? t.entries e.1) then e.1 ∷ next else skip

  unfoldable pub nearest_node_entries : List ℕ
  nearest_node_entries = pick bucket_size found_nodes

-- The packets that answer FindNode, with at most `limit` nodes each.
unfoldable pub answers : ℕ → NodeIpEndpoint → ℕ → List ℕ → List Packet
answers zero to limit nearest = []
answers (suc n) to limit [] = []
answers (suc n) to limit (h ∷ l) =
    neighbours to (take limit (h ∷ l)) ∷ answers n to limit (drop limit (h ∷ l))

-- 13 nodes fit into a datagram of 1280 bytes.
unfoldable pub on_find_node :
    Network → (ℕ → Bool) → NodeTable → ℕ → ℕ → NodeIpEndpoint → ℕ → NodeTable
on_find_node net alive t now id from target =
    let nearest = nearest_node_entries net alive t target in
    note_after net alive now id from
      (record t { sent = t.sent ++ answers (length nearest) from 13 nearest })
