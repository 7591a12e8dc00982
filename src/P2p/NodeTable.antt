-- ===== src/P2p/NodeTable.antt =====
-- libp2p/NodeTable.{h,cpp}: the table of the nodes that are known, in buckets by their distance.
-- An id is a number; an address of an endpoint too. A weak pointer is the number of an entry, and `alive` says which
-- entries have an owner left. The handler of events is set. Locks and logging are left out; packets that are sent are kept in the order of sending.
use x_chain.Prelude.{
  ℕ, zero, suc, ◌+◌, ◌-◌, ◌/◌, ◌%◌, ◌^◌, bit_xor, Bool, true, false, not, ◌&&◌, ◌||◌, Option, none,
  some, List, [], ◌∷◌, ◌++◌, map, ltb, leb, ◌==◌, if◌then◌else◌, length, get_elem?, set,
}
pub mod Packets
pub mod Nearest
pub mod Buckets
pub mod Receive
pub mod Moves
pub mod Order
pub mod Distance
pub mod Discovery

abbrev pub bins : ℕ
bins = 255

abbrev pub bucket_size : ℕ
bucket_size = 16

abbrev pub alpha : ℕ
alpha = 3

abbrev pub max_steps : ℕ
max_steps = 8

abbrev pub req_timeout : ℕ
req_timeout = 300

pub record NodeIpEndpoint : Type 0 where
  pub address : ℕ
  pub udp_port : ℕ
  pub tcp_port : ℕ

-- The hash of an id as a number, and what boost tells of addresses.
pub record Network : Type 0 where
  pub sha3 : ℕ → ℕ
  pub is_unspecified : ℕ → Bool
  pub is_public_address : ℕ → Bool
  pub allow_local : Bool

pub record NodeEntry : Type 0 where
  pub id : ℕ
  pub endpoint : NodeIpEndpoint
  pub distance : ℕ
  pub pending : Bool

pub data Event : Type 0 where
  added : Event
  dropped : Event

-- A node that may be evicted with the time of the ping, and the node that is new.
pub record EvictionTimeout : Type 0 where
  pub least_seen : ℕ
  pub time : ℕ
  pub replacement : ℕ

pub data Packet : Type 0 where
  ping_node : NodeIpEndpoint → Packet
  pong : NodeIpEndpoint → Packet
  neighbours : NodeIpEndpoint → List ℕ → Packet
  find_node : NodeIpEndpoint → ℕ → Packet

pub record NodeTable : Type 0 where
  pub self : ℕ
  pub self_endpoint : NodeIpEndpoint
  pub entries : List NodeEntry
  pub nodes : List (ℕ × ℕ)
  pub buckets : ℕ → List ℕ
  pub evictions : List EvictionTimeout
  pub discover_pings : List (ℕ × ℕ)
  pub find_node_timeout : List (ℕ × ℕ)
  pub events : List (ℕ × Event)
  pub is_open : Bool
  pub sent : List Packet

-- `operator bool` and `isAllowed`
unfoldable pub is_given : Network → NodeIpEndpoint → Bool
is_given net e = not (net.is_unspecified e.address) && ltb 0 e.udp_port && ltb 0 e.tcp_port

unfoldable pub is_allowed : Network → NodeIpEndpoint → Bool
is_allowed net e =
    if net.allow_local then not (net.is_unspecified e.address) else net.is_public_address e.address

-- The loop of `distance`, which ends within as many rounds as `d` has bits.
unfoldable pub shifts : ℕ → ℕ → ℕ → ℕ
shifts zero d ret = ret
shifts (suc n) d ret = let rest = shifts n (d / 2) (ret + 1) in if d / 2 == 0 then ret else rest

unfoldable pub distance : Network → ℕ → ℕ → ℕ
distance net a b = shifts 256 (bit_xor (net.sha3 a) (net.sha3 b)) 0

unfoldable pub new_entry : Network → ℕ → ℕ → NodeIpEndpoint → Bool → NodeEntry
new_entry net src id e pending = record {
  id = id;
  endpoint = e;
  distance = distance net src id;
  pending = pending;
}

unfoldable pub find : ℕ → List (ℕ × ℕ) → Option ℕ
find k [] = none
find k (e ∷ m) = if k == e.0 then some e.1 else find k m

unfoldable pub put : ℕ → ℕ → List (ℕ × ℕ) → List (ℕ × ℕ)
put k v [] = (k, v) ∷ []
put k v (e ∷ m) = if k == e.0 then (k, v) ∷ m else e ∷ put k v m

unfoldable pub erase : ℕ → List (ℕ × ℕ) → List (ℕ × ℕ)
erase k [] = []
erase k (e ∷ m) = let rest = erase k m in if k == e.0 then rest else e ∷ rest

-- `nodeEntry`
unfoldable pub node_entry : NodeTable → ℕ → Option ℕ
node_entry t id = find id t.nodes

-- `bucket_UNSAFE`; an unsigned index wraps.
unfoldable pub bucket_index : NodeEntry → ℕ
bucket_index e = (e.distance + 4294967296 - 1) % 4294967296

unfoldable pub set_bucket : NodeTable → ℕ → List ℕ → NodeTable
set_bucket t i b = record t { buckets = λ j. if j == i then b else t.buckets j }

unfoldable pub append_event : NodeTable → ℕ → Event → NodeTable
append_event t id e = record t { events = t.events ++ ((id, e) ∷ []) }

unfoldable pub send : NodeTable → Packet → NodeTable
send t p = record t { sent = t.sent ++ (p ∷ []) }

-- The loop of `remove_if` in `noteActiveNode`; what it removes, and whether it has found the node.
unfoldable pub remove_active : ℕ → List ℕ → Bool → List ℕ × Bool
remove_active h [] removed = ([], removed)
remove_active h (x ∷ l) removed =
    let removed' = removed || (x == h) in
    let rest = remove_active h l removed' in if removed' then rest else (x ∷ rest.0, rest.1)

-- `evict`; the check that it schedules is `check_evictions`.
unfoldable pub evict : NodeTable → ℕ → NodeEntry → NodeEntry → NodeTable
evict t now least fresh =
    if t.is_open
    then send
        (record t {
          evictions =
              t.evictions
              ++ (record { least_seen = least.id; time = now; replacement = fresh.id } ∷ []);
        })
        (ping_node least.endpoint)
    else t

-- The end of the list: the event is sent for a node that was not in the bucket.
unfoldable pub join : NodeTable → ℕ → ℕ → NodeEntry → List ℕ → Bool → NodeTable
join t i h e rest removed =
    let t' = set_bucket t i (rest ++ (h ∷ [])) in if removed then t' else append_event t' e.id added

unfoldable pub evict_maybe : NodeTable → ℕ → Option NodeEntry → NodeEntry → NodeTable
evict_maybe t now none e = t
evict_maybe t now (some c) e = evict t now c e

-- The bucket once the node is out of it.
unfoldable pub into_bucket :
    (ℕ → Bool) → NodeTable → ℕ → ℕ → ℕ → NodeEntry → List ℕ → Bool → NodeTable
into_bucket alive t now i h e [] removed = join t i h e [] removed
into_bucket alive t now i h e (c ∷ rest) removed =
    if leb bucket_size (length (c ∷ rest))
    then if alive c
      then evict_maybe (set_bucket t i (c ∷ rest)) now (get_elem? t.entries c) e
      else join t i h e rest removed
    else join t i h e (c ∷ rest) removed

-- The part of `noteActiveNode` under its test of `pending`.
unfoldable pub note_if : Bool → (ℕ → Bool) → NodeTable → ℕ → ℕ → NodeEntry → ℕ → ℕ → NodeTable
note_if true alive t now h e address port = t
note_if false alive t now h e address port =
    let e' = record e { endpoint = record e.endpoint { address = address; udp_port = port } } in
    let t' = record t { entries = set t.entries h e' } in
    let out = remove_active h (t.buckets (bucket_index e)) false in
    into_bucket alive t' now (bucket_index e) h e' out.0 out.1

unfoldable pub note_entry : (ℕ → Bool) → NodeTable → ℕ → ℕ → Option NodeEntry → ℕ → ℕ → NodeTable
note_entry alive t now h none address port = t
note_entry alive t now h (some e) address port = note_if e.pending alive t now h e address port

unfoldable pub note_found : (ℕ → Bool) → NodeTable → ℕ → Option ℕ → ℕ → ℕ → NodeTable
note_found alive t now none address port = t
note_found alive t now (some h) address port =
    note_entry alive t now h (get_elem? t.entries h) address port

unfoldable pub note_active_node : Network → (ℕ → Bool) → NodeTable → ℕ → ℕ → ℕ → ℕ → NodeTable
note_active_node net alive t now id address port =
    if id == t.self
      || not (is_allowed net (record { address = address; udp_port = port; tcp_port = port }))
    then t
    else note_found alive t now (node_entry t id) address port

-- A new entry under its id; another entry that was there loses its owner.
unfoldable pub store : NodeTable → NodeEntry → NodeTable
store t e = record t {
  entries = t.entries ++ (e ∷ []);
  nodes = put e.id (length t.entries) t.nodes;
}

unfoldable pub add_known : Network → (ℕ → Bool) → NodeTable → ℕ → ℕ → NodeIpEndpoint → NodeTable
add_known net alive t now id e =
    note_active_node net alive (store t (new_entry net t.self id e false)) now id e.address
      e.udp_port

unfoldable pub add_unknown : Network → NodeTable → ℕ → NodeIpEndpoint → Option ℕ → NodeTable
add_unknown net t id e (some h) = t
add_unknown net t id e none = send (store t (new_entry net t.self id e true)) (ping_node e)

-- `addNode` with the relation Unknown.
unfoldable pub add_node : Network → NodeTable → ℕ → ℕ → NodeIpEndpoint → NodeTable
add_node net t now id e =
    if not (is_given net e)
    then t
    else if id == 0
    then send (record t { discover_pings = put e.address now t.discover_pings }) (ping_node e)
    else add_unknown net t id e (node_entry t id)

unfoldable pub without : ℕ → List ℕ → List ℕ
without h [] = []
without h (x ∷ l) = let rest = without h l in if x == h then rest else x ∷ rest

unfoldable pub drop_entry : NodeTable → ℕ → Option NodeEntry → NodeTable
drop_entry t h none = t
drop_entry t h (some e) =
    append_event (set_bucket t (bucket_index e) (without h (t.buckets (bucket_index e)))) e.id
      dropped

unfoldable pub drop_node : NodeTable → ℕ → NodeTable
drop_node t h = drop_entry t h (get_elem? t.entries h)

unfoldable pub drop_found : NodeTable → Option ℕ → NodeTable
drop_found t none = t
drop_found t (some h) = drop_node t h
