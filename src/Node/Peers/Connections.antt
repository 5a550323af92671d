-- ===== src/Node/Peers/Connections.antt =====
-- The connected peers of network-node/src/p2p.rs.
use axionvera_network.Base.{
  ℕ, ◌+◌, ◌≡◌, refl, inl, inr, none, some, List, [], ◌∷◌, All, length, ◌==◌, if◌then◌else◌, arith,
  Option-cases,
}
use axionvera_network.Base.Maps.{lookup, insert, lookup-insert}
use axionvera_network.Node.Peers.{
  ConnectedPeers, peer_info, connect_to_peer, disconnect_from_peer, remove, count_recipients,
  broadcast_message,
}

lookup-remove :
    (j k : ℕ) (m : ConnectedPeers) → lookup j (remove k m) ≡ (if k == j then none else lookup j m)
unfolding lookup remove
lookup-remove j k [] = ground arith
lookup-remove j k ((i, a) ∷ m) = ground (arith, lookup-remove j k m)

-- Connecting to a peer and disconnecting from it leaves the others as they were, and this peer not
-- connected; a disconnection fails exactly where the peer is not connected.
pub disconnect-connect :
    (now address peer_id j : ℕ) (peers : ConnectedPeers)
    → ((after : ConnectedPeers) × (disconnect_from_peer peer_id
            (connect_to_peer now address peer_id peers)
          ≡ some after)
        × (lookup j after ≡ (if peer_id == j then none else lookup j peers)))
      × (lookup peer_id peers ≡ none → disconnect_from_peer peer_id peers ≡ none)
unfolding connect_to_peer disconnect_from_peer
disconnect-connect now address peer_id j peers =
    let peer = peer_info now address peer_id in
    let there = lookup-insert peer_id peer_id peer peers in
    (
      (
        remove peer_id (insert peer_id peer peers),
        ground arith,
        ground (
          arith,
          lookup-remove j peer_id (insert peer_id peer peers),
          lookup-insert j peer_id peer peers,
        ),
      ),
      λ gone. ground arith,
    )

counted :
    (peers : ConnectedPeers) (ids : List ℕ)
    → ((count_recipients peers ids).0 + length (count_recipients peers ids).1 ≡ length ids)
      × All (λ p. lookup p peers ≡ none) (count_recipients peers ids).1
unfolding count_recipients
counted peers [] = (refl, tt)
counted peers (id ∷ ids) =
    let (sum, absent) = counted peers ids in
    elim (Option-cases (lookup id peers)) [
      | inl gone ↦ rw (gone, count_recipients) (omega (arith, sum), (gone, absent))
      | inr (a, found) ↦ rw (found, count_recipients) (omega (arith, sum), absent)
    ]

-- Every target of a broadcast is counted once: as a recipient, if it is connected, or in the list of
-- those that failed, all of which are not connected.
pub broadcast_counts :
    (peers : ConnectedPeers) (id : ℕ) (ids : List ℕ)
    → let answer = broadcast_message (id ∷ ids) peers in
      (answer.0 + length answer.1 ≡ length (id ∷ ids)) × All (λ p. lookup p peers ≡ none) answer.1
unfolding broadcast_message
broadcast_counts peers id ids = counted peers (id ∷ ids)
