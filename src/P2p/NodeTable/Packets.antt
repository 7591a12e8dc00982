-- ===== src/P2p/NodeTable/Packets.antt =====
-- The handlers of packets and timers of libp2p/NodeTable.cpp: onReceived and doCheckEvictions.
-- A time is in milliseconds of a steady clock.
use x_chain.Prelude.{
  ℕ, ◌-◌, Bool, true, false, not, ◌&&◌, ◌||◌, Option, none, some, List, [], ◌∷◌, ltb, ◌==◌,
  if◌then◌else◌, length, get_elem?, set,
}
use x_chain.P2p.NodeTable.{
  Network, NodeTable, NodeEntry, NodeIpEndpoint, EvictionTimeout, pong, find, erase, node_entry,
  send, is_given, is_allowed, add_node, note_active_node, drop_node, drop_found, req_timeout,
}

-- `n->pending = false`
unfoldable pub settle_entry : NodeTable → ℕ → Option NodeEntry → NodeTable
settle_entry t h none = t
settle_entry t h (some e) = record t { entries = set t.entries h (record e { pending = false }) }

unfoldable pub settle : NodeTable → Option ℕ → NodeTable
settle t none = t
settle t (some h) = settle_entry t h (get_elem? t.entries h)

-- The first eviction that waits for the node and whose time is after `now`, with the others.
unfoldable pub take_eviction :
    ℕ → ℕ → List EvictionTimeout → Option EvictionTimeout × List EvictionTimeout
take_eviction id now [] = (none, [])
take_eviction id now (e ∷ l) =
    let rest = take_eviction id now l in
    if (e.least_seen == id) && ltb now e.time then (some e, l) else (rest.0, e ∷ rest.1)

-- `none` is the early return: an unsolicited pong.
unfoldable pub pong_pinged :
    Network → NodeTable → ℕ → ℕ → NodeIpEndpoint → Option ℕ → Option NodeTable
pong_pinged net t now id from none = none
pong_pinged net t now id from (some time) =
    some
      (add_node net (record t { discover_pings = erase from.address t.discover_pings }) now id from)

unfoldable pub pong_unknown : Network → NodeTable → ℕ → ℕ → NodeIpEndpoint → Option NodeTable
pong_unknown net t now id from = pong_pinged net t now id from (find from.address t.discover_pings)

unfoldable pub pong_known :
    Network → NodeTable → ℕ → ℕ → NodeIpEndpoint → Option ℕ → Option NodeTable
pong_known net t now id from (some h) = some (settle t (some h))
pong_known net t now id from none = pong_unknown net t now id from

unfoldable pub pong_found :
    Network
    → NodeTable
    → ℕ
    → ℕ
    → NodeIpEndpoint
    → Option EvictionTimeout × List EvictionTimeout
    → Option NodeTable
pong_found net t now id from (some e, rest) =
    let t' = record t { evictions = rest } in
    let t'' = drop_found t' (node_entry t' e.replacement) in
    some (settle t'' (node_entry t'' e.least_seen))
pong_found net t now id from (none, rest) = pong_known net t now id from (node_entry t id)

-- Our own endpoint, from the destination of the pong.
unfoldable pub update_self : Network → NodeTable → NodeIpEndpoint → NodeTable
update_self net t destination =
    let own = t.self_endpoint in
    let wanted =
      (not (is_given net own) || not (is_allowed net own))
      && net.is_public_address destination.address in
    record t {
      self_endpoint = record own {
        address = if wanted then destination.address else own.address;
        udp_port = destination.udp_port;
      };
    }

unfoldable pub note_after : Network → (ℕ → Bool) → ℕ → ℕ → NodeIpEndpoint → NodeTable → NodeTable
note_after net alive now id from t = note_active_node net alive t now id from.address from.udp_port

unfoldable pub pong_end :
    Network
    → (ℕ → Bool)
    → NodeTable
    → ℕ
    → ℕ
    → NodeIpEndpoint
    → NodeIpEndpoint
    → Option NodeTable
    → NodeTable
pong_end net alive t now id from destination none = t
pong_end net alive t now id from destination (some t') =
    note_after net alive now id from (update_self net t' destination)

unfoldable pub on_pong :
    Network → (ℕ → Bool) → NodeTable → ℕ → ℕ → NodeIpEndpoint → NodeIpEndpoint → NodeTable
on_pong net alive t now id from destination =
    pong_end net alive t now id from destination
      (pong_found net t now id from (take_eviction id now t.evictions))

-- The requests to the node that are still awaited, and whether there is one.
unfoldable pub awaited : ℕ → ℕ → List (ℕ × ℕ) → List (ℕ × ℕ) × Bool
awaited id now [] = ([], false)
awaited id now (e ∷ l) =
    let rest = awaited id now l in
    if e.0 == id
    then if ltb (now - e.1) req_timeout then (e ∷ rest.0, true) else rest
    else (e ∷ rest.0, rest.1)

unfoldable pub add_all : Network → NodeTable → ℕ → List (ℕ × NodeIpEndpoint) → NodeTable
add_all net t now [] = t
add_all net t now (n ∷ l) = add_all net (add_node net t now n.0 n.1) now l

unfoldable pub on_neighbours :
    Network
    → (ℕ → Bool)
    → NodeTable
    → ℕ
    → ℕ
    → NodeIpEndpoint
    → List (ℕ × NodeIpEndpoint)
    → NodeTable
on_neighbours net alive t now id from found =
    let out = awaited id now t.find_node_timeout in
    let t' = record t { find_node_timeout = out.0 } in
    note_after net alive now id from (if out.1 then add_all net t' now found else t')

-- A ping is answered to the address that it came from.
unfoldable pub on_ping :
    Network → (ℕ → Bool) → NodeTable → ℕ → ℕ → NodeIpEndpoint → NodeIpEndpoint → NodeTable
on_ping net alive t now id from source =
    let to = record source { address = from.address; udp_port = from.udp_port } in
    note_after net alive now id from (send (add_node net t now id to) (pong to))

-- The entries whose replacement is dropped at a check, and those dropped one after another.
unfoldable pub timed_out : NodeTable → ℕ → List EvictionTimeout → List ℕ
timed_out t now [] = []
timed_out t now (e ∷ l) =
    let rest = timed_out t now l in
    if ltb req_timeout (now - e.time)
    then elim (node_entry t e.replacement) [ none ↦ rest | some h ↦ h ∷ rest ]
    else rest

unfoldable pub unique_from : ℕ → List ℕ → List ℕ
unique_from h [] = []
unique_from h (x ∷ l) = let rest = unique_from x l in if x == h then rest else x ∷ rest

unfoldable pub unique : List ℕ → List ℕ
unique [] = []
unique (x ∷ l) = x ∷ unique_from x l

unfoldable pub drop_all : NodeTable → List ℕ → NodeTable
drop_all t [] = t
drop_all t (h ∷ l) = drop_all (drop_node t h) l

-- `doCheckEvictions`, with whether another check is scheduled.
unfoldable pub check_evictions : NodeTable → ℕ → NodeTable × Bool
check_evictions t now =
    let out = timed_out t now t.evictions in
    (drop_all t (unique out), not (length t.evictions == length out))
