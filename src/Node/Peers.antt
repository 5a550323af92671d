-- ===== src/Node/Peers.antt =====
-- network-node/src/p2p.rs: the routing table and the connected peers. An identifier of a node in the
-- table is its list of 32 bytes, by which the table treats the text that a peer is declared with. Other
-- texts and addresses are numbers. The calls that do nothing yet, the session identifier, the version
-- text, which is a constant, and the logs are left out.
pub mod Routing
pub mod Closest
pub mod Connections
use axionvera_network.Base.{
  ℕ, zero, suc, ◌+◌, ◌-◌, ◌*◌, Bool, true, false, ◌||◌, ◌&&◌, Option, none, some, List, [], ◌∷◌,
  ◌++◌, length, ltb, leb, ◌==◌, if◌then◌else◌,
}
use Prim.Native.Nat.{bit_xor}
use axionvera_network.Base.Maps.{Map, lookup, insert}

abbrev pub NodeId : Type 0
NodeId = List ℕ

pub record PeerInfo : Type 0 where
  pub id : NodeId
  pub address : ℕ
  pub is_connected : Bool
  pub last_seen : ℕ
  pub latency_ms : ℕ

-- Byte by byte; both have the same length.
unfoldable pub xor_distance : NodeId → NodeId → NodeId
xor_distance [] bs = []
xor_distance (a ∷ xs) [] = []
xor_distance (a ∷ xs) (b ∷ bs) = bit_xor a b ∷ xor_distance xs bs

-- `(d as f32).log2() as usize` of a byte that is not 0.
abbrev pub log2_byte : ℕ → ℕ
log2_byte d =
    if ltb d 2
    then 0
    else if ltb d 4
    then 1
    else if ltb d 8
    then 2
    else if ltb d 16
    then 3
    else if ltb d 32
    then 4
    else if ltb d 64
    then 5
    else if ltb d 128
    then 6
    else 7

-- The loop over the bytes, from index `i` on.
unfoldable pub first_difference : ℕ → NodeId → ℕ
first_difference i [] = 255
first_difference i (d ∷ ds) =
    if d == 0 then first_difference (i + 1) ds else i * 8 + (7 - log2_byte d)

unfoldable pub bucket_index : NodeId → NodeId → ℕ
bucket_index local_id id = first_difference 0 (xor_distance local_id id)

-- The order of byte strings.
unfoldable pub is_before : NodeId → NodeId → Bool
is_before [] bs = true
is_before (a ∷ xs) [] = false
is_before (a ∷ xs) (b ∷ bs) = ltb a b || (a == b && is_before xs bs)

unfoldable pub eq_id : NodeId → NodeId → Bool
eq_id [] [] = true
eq_id [] (b ∷ bs) = false
eq_id (a ∷ xs) [] = false
eq_id (a ∷ xs) (b ∷ bs) = a == b && eq_id xs bs

-- A bucket is a B-tree map by identifier, in the order of its keys.
abbrev pub Bucket : Type 0
Bucket = List PeerInfo

unfoldable pub insert_peer : PeerInfo → Bucket → Bucket
insert_peer p [] = p ∷ []
insert_peer p (q ∷ qs) =
    if eq_id p.id q.id
    then p ∷ qs
    else if is_before p.id q.id
    then p ∷ q ∷ qs
    else q ∷ insert_peer p qs

pub record KademliaRoutingTable : Type 0 where
  pub local_id : NodeId
  pub buckets : List Bucket

unfoldable pub replicate : ℕ → List Bucket
replicate zero = []
replicate (suc n) = [] ∷ replicate n

abbrev pub new_table : NodeId → KademliaRoutingTable
new_table local_id = record { local_id = local_id; buckets = replicate 256 }

unfoldable pub add_to_bucket : PeerInfo → Bucket → Bucket
add_to_bucket peer bucket = if ltb (length bucket) 20 then insert_peer peer bucket else bucket

-- `&mut buckets[index]`, which is in range.
unfoldable pub modify_at : ℕ → (Bucket → Bucket) → List Bucket → List Bucket
modify_at i f [] = []
modify_at zero f (b ∷ bs) = f b ∷ bs
modify_at (suc i) f (b ∷ bs) = b ∷ modify_at i f bs

unfoldable pub update_table : PeerInfo → KademliaRoutingTable → KademliaRoutingTable
update_table peer t = record t {
  buckets = modify_at (bucket_index t.local_id peer.id) (add_to_bucket peer) t.buckets;
}

unfoldable pub all_peers : List Bucket → List PeerInfo
all_peers [] = []
all_peers (b ∷ bs) = b ++ all_peers bs

-- `sort_by` the distance to the target.
unfoldable pub insert_closest : NodeId → PeerInfo → List PeerInfo → List PeerInfo
insert_closest target p [] = p ∷ []
insert_closest target p (q ∷ qs) =
    if is_before (xor_distance p.id target) (xor_distance q.id target)
    then p ∷ q ∷ qs
    else q ∷ insert_closest target p qs

unfoldable pub sort_closest : NodeId → List PeerInfo → List PeerInfo
sort_closest target [] = []
sort_closest target (p ∷ ps) = insert_closest target p (sort_closest target ps)

abbrev pub take : ℕ → List PeerInfo → List PeerInfo
take zero ps = []
take (suc k) [] = []
take (suc k) (p ∷ ps) = p ∷ take k ps

unfoldable pub find_closest : NodeId → ℕ → KademliaRoutingTable → List PeerInfo
find_closest target k t = take k (sort_closest target (all_peers t.buckets))

-- A `PeerInfo` under the text that it is declared with.
pub record ConnectedPeer : Type 0 where
  pub id : ℕ
  pub address : ℕ
  pub is_connected : Bool
  pub last_seen : ℕ
  pub latency_ms : ℕ

abbrev pub ConnectedPeers : Type 0
ConnectedPeers = Map ConnectedPeer

abbrev pub peer_info : ℕ → ℕ → ℕ → ConnectedPeer
peer_info now address peer_id = record {
  id = peer_id;
  address = address;
  is_connected = true;
  last_seen = now;
  latency_ms = 50;
}

unfoldable pub connect_to_peer : ℕ → ℕ → ℕ → ConnectedPeers → ConnectedPeers
connect_to_peer now address peer_id peers = insert peer_id (peer_info now address peer_id) peers

unfoldable pub remove : ℕ → ConnectedPeers → ConnectedPeers
remove peer_id [] = []
remove peer_id ((k, a) ∷ m) =
    let rest = remove peer_id m in if k == peer_id then rest else (k, a) ∷ rest

-- `none` is the error for a peer that was not connected.
unfoldable pub disconnect_from_peer : ℕ → ConnectedPeers → Option ConnectedPeers
disconnect_from_peer peer_id peers = elim (lookup peer_id peers) [
  | none ↦ none
  | some address ↦ some (remove peer_id peers)
]

abbrev pub get_connected_peers_count : ConnectedPeers → ℕ
get_connected_peers_count peers = length peers

-- The loop over the targets: how many are connected, and which are not.
unfoldable pub count_recipients : ConnectedPeers → List ℕ → ℕ × List ℕ
count_recipients peers [] = (0, [])
count_recipients peers (id ∷ ids) =
    let (recipients, failed) = count_recipients peers ids in
    elim (lookup id peers) [
      | some address ↦ (recipients + 1, failed)
      | none ↦ (recipients, id ∷ failed)
    ]

unfoldable pub broadcast_message : List ℕ → ConnectedPeers → ℕ × List ℕ
broadcast_message [] peers = (length peers, [])
broadcast_message (id ∷ ids) peers = count_recipients peers (id ∷ ids)

unfoldable pub get_peer_list : ConnectedPeers → List ConnectedPeer
get_peer_list [] = []
get_peer_list ((k, p) ∷ peers) = p ∷ get_peer_list peers
