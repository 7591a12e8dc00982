-- ===== src/P2p/NodeTable/Receive.antt =====
-- `onReceived` of libp2p/NodeTable.cpp on a packet that was read, and any run of packets and timers.
use x_chain.Prelude.{
  ℕ, ◌≤◌, length, sym, subst, inl, inr, Bool, Option, none, some, List, [], ◌∷◌, Bool-cases,
  Option-cases, get_elem?,
}
use x_chain.P2p.NodeTable.{
  Network, NodeTable, NodeIpEndpoint, EvictionTimeout, bucket_size, add_node, add_known, drop_node,
  drop_found, node_entry, find, erase, send,
}
use x_chain.P2p.NodeTable.Packets.{
  settle_entry, settle, take_eviction, pong_pinged, pong_unknown, pong_end, pong_known, pong_found,
  update_self, note_after, on_pong, awaited, add_all, on_neighbours, on_ping, drop_all,
  check_evictions, unique, timed_out,
}
use x_chain.P2p.NodeTable.Nearest.{on_find_node}
use x_chain.P2p.NodeTable.Discovery.{do_discover, do_discover-buckets}
use x_chain.P2p.NodeTable.Buckets.{
  IsBounded, note_active_node-IsBounded, drop_node-IsBounded, add_known-IsBounded, add_node-buckets,
}

-- A packet from a node: the endpoint of ourselves in a pong, the nodes that are near, the target, or the endpoint that
-- the sender gives for itself.
pub data Received : Type 0 where
  pong_in : NodeIpEndpoint → Received
  neighbours_in : List (ℕ × NodeIpEndpoint) → Received
  find_node_in : ℕ → Received
  ping_in : NodeIpEndpoint → Received

unfoldable pub on_received :
    Network → (ℕ → Bool) → NodeTable → ℕ → ℕ → NodeIpEndpoint → Received → NodeTable
on_received net alive t now id from (pong_in destination) =
    on_pong net alive t now id from destination
on_received net alive t now id from (neighbours_in l) = on_neighbours net alive t now id from l
on_received net alive t now id from (find_node_in target) =
    on_find_node net alive t now id from target
on_received net alive t now id from (ping_in source) = on_ping net alive t now id from source

-- What can happen to a table: a packet, a check of the evictions, a node that a user adds, or a round of a discovery.
pub data Step (net : Network) : NodeTable → NodeTable → Type 0 where
  receive :
      (t : NodeTable) (alive : ℕ → Bool) (now id : ℕ) (from : NodeIpEndpoint) (p : Received)
      → Step net t (on_received net alive t now id from p)
  check : (t : NodeTable) (now : ℕ) → Step net t (check_evictions t now).0
  know :
      (t : NodeTable) (alive : ℕ → Bool) (now id : ℕ) (e : NodeIpEndpoint)
      → Step net t (add_known net alive t now id e)
  meet : (t : NodeTable) (now id : ℕ) (e : NodeIpEndpoint) → Step net t (add_node net t now id e)
  discover :
      (t : NodeTable) (alive : ℕ → Bool) (now target round : ℕ) (tried : List ℕ)
      → Step net t (do_discover net alive t now target round tried).0

pub data Reaches (net : Network) (t : NodeTable) : NodeTable → Type 0 where
  here : Reaches net t t
  next : {u w : NodeTable} → Reaches net t u → Step net u w → Reaches net t w

settle-IsBounded : (t : NodeTable) (o : Option ℕ) → IsBounded t → IsBounded (settle t o)
unfolding settle settle_entry
settle-IsBounded t none b = b
settle-IsBounded t (some h) b = elim (Option-cases (get_elem? t.entries h)) [
  | inl p ↦ rw p b
  | inr (e, p) ↦ rw p b
]

add_node-IsBounded :
    (net : Network) (t : NodeTable) (now id : ℕ) (e : NodeIpEndpoint)
    → IsBounded t
    → IsBounded (add_node net t now id e)
add_node-IsBounded net t now id e b i = rw (add_node-buckets net t now id e i) (b i)

add_all-IsBounded :
    (net : Network) (t : NodeTable) (now : ℕ) (l : List (ℕ × NodeIpEndpoint))
    → IsBounded t
    → IsBounded (add_all net t now l)
unfolding add_all
add_all-IsBounded net t now [] b = b
add_all-IsBounded net t now (n ∷ l) b =
    add_all-IsBounded net (add_node net t now n.0 n.1) now l
      (add_node-IsBounded net t now n.0 n.1 b)

drop_all-IsBounded : (t : NodeTable) (l : List ℕ) → IsBounded t → IsBounded (drop_all t l)
unfolding drop_all
drop_all-IsBounded t [] b = b
drop_all-IsBounded t (h ∷ l) b = drop_all-IsBounded (drop_node t h) l (drop_node-IsBounded t h b)

module _ (net : Network) (alive : ℕ → Bool) (now id : ℕ) (from : NodeIpEndpoint) where
  note_after-IsBounded :
      (t : NodeTable) → IsBounded t → IsBounded (note_after net alive now id from t)
  unfolding note_after
  note_after-IsBounded t b =
      note_active_node-IsBounded net alive t now id from.address from.udp_port b

  -- The bound on what a handler may return.
  abbrev Bounded : Option NodeTable → Type 0
  Bounded none = Unit
  Bounded (some t) = IsBounded t

  drop_found-IsBounded : (t : NodeTable) (o : Option ℕ) → IsBounded t → IsBounded (drop_found t o)
  unfolding drop_found
  drop_found-IsBounded t none b = b
  drop_found-IsBounded t (some h) b = drop_node-IsBounded t h b

  pong_pinged-Bounded :
      (t : NodeTable) (o : Option ℕ) → IsBounded t → Bounded (pong_pinged net t now id from o)
  unfolding pong_pinged
  pong_pinged-Bounded t none b = tt
  pong_pinged-Bounded t (some time) b =
      add_node-IsBounded net (record t { discover_pings = erase from.address t.discover_pings }) now
        id from b

  pong_known-Bounded :
      (t : NodeTable) (o : Option ℕ) → IsBounded t → Bounded (pong_known net t now id from o)
  unfolding pong_known pong_unknown
  pong_known-Bounded t (some h) b = settle-IsBounded t (some h) b
  pong_known-Bounded t none b = pong_pinged-Bounded t (find from.address t.discover_pings) b

  pong_found-Bounded :
      (t : NodeTable) (o : Option EvictionTimeout) (rest : List EvictionTimeout)
      → IsBounded t
      → Bounded (pong_found net t now id from (o, rest))
  unfolding pong_found
  pong_found-Bounded t none rest b = pong_known-Bounded t (node_entry t id) b
  pong_found-Bounded t (some e) rest b =
      settle-IsBounded _ _ (drop_found-IsBounded (record t { evictions = rest }) _ b)

  pong_end-IsBounded :
      (t : NodeTable) (destination : NodeIpEndpoint) (o : Option NodeTable)
      → IsBounded t
      → Bounded o
      → IsBounded (pong_end net alive t now id from destination o)
  unfolding pong_end update_self
  pong_end-IsBounded t destination none b h = b
  pong_end-IsBounded t destination (some t') b h = note_after-IsBounded _ h

  on_received-IsBounded :
      (t : NodeTable) (p : Received)
      → IsBounded t
      → IsBounded (on_received net alive t now id from p)
  unfolding on_received on_pong on_neighbours on_ping on_find_node send
  on_received-IsBounded t (pong_in destination) b =
      let (o, rest) = take_eviction id now t.evictions in
      pong_end-IsBounded t destination (pong_found net t now id from (o, rest)) b
        (pong_found-Bounded t o rest b)
  on_received-IsBounded t (neighbours_in l) b =
      let out = awaited id now t.find_node_timeout in
      let t' = record t { find_node_timeout = out.0 } in
      elim (Bool-cases out.1) [
        | inl expected ↦ rw expected (note_after-IsBounded _ (add_all-IsBounded net t' now l b))
        | inr dropped ↦ rw dropped (note_after-IsBounded t' b)
      ]
  on_received-IsBounded t (find_node_in target) b = note_after-IsBounded _ b
  on_received-IsBounded t (ping_in source) b =
      note_after-IsBounded _ (add_node-IsBounded net t now id _ b)

Step-IsBounded : (net : Network) {t u : NodeTable} → Step net t u → IsBounded t → IsBounded u
unfolding check_evictions
Step-IsBounded net (receive t alive now id from p) b =
    on_received-IsBounded net alive now id from t p b
Step-IsBounded net (check t now) b = drop_all-IsBounded t (unique (timed_out t now t.evictions)) b
Step-IsBounded net (know t alive now id e) b = add_known-IsBounded net alive t now id e b
Step-IsBounded net (meet t now id e) b = add_node-IsBounded net t now id e b
Step-IsBounded net (discover t alive now target round tried) b = λ i.
    subst (λ f. length (f i) ≤ bucket_size)
      (sym (do_discover-buckets net alive t now target round tried)) (b i)

-- Whatever packets come in, nodes are added, evictions checked and rounds of discoveries made, from a table in which no
-- bucket holds more than 16 nodes, no bucket ever holds more than 16 nodes.
pub Reaches-IsBounded :
    (net : Network) (t u : NodeTable) → IsBounded t → Reaches net t u → IsBounded u
Reaches-IsBounded net t u b here = b
Reaches-IsBounded net t u b (next {u = m} r s) =
    Step-IsBounded net s (Reaches-IsBounded net t m b r)
