-- ===== src/Node/Peers/Routing.antt =====
-- The buckets of the routing table of network-node/src/p2p.rs.
use axionvera_network.Base.{
  ℕ, zero, suc, ◌+◌, ◌≤◌, ◌≡◌, refl, inl, inr, List, [], ◌∷◌, All, length, ltb, arith, Bool-cases,
}
use axionvera_network.Node.Peers.{
  NodeId, PeerInfo, Bucket, KademliaRoutingTable, new_table, replicate, eq_id, is_before,
  insert_peer, add_to_bucket, modify_at, bucket_index, update_table,
}

length-insert_peer : (p : PeerInfo) (b : Bucket) → length (insert_peer p b) ≤ length b + 1
unfolding insert_peer
length-insert_peer p [] = omega arith
length-insert_peer p (q ∷ qs) = ground (arith, length-insert_peer p qs)

module _ (P : PeerInfo → Type 0) where
  All-insert_peer : (p : PeerInfo) (b : Bucket) → P p → All P b → All P (insert_peer p b)
  unfolding insert_peer
  All-insert_peer p [] here a = (here, tt)
  All-insert_peer p (q ∷ qs) here (first, a) = elim (Bool-cases (eq_id p.id q.id)) [
    | inl same ↦ rw same (here, a)
    | inr apart ↦ elim (Bool-cases (is_before p.id q.id)) [
      | inl before ↦ rw (apart, before) (here, (first, a))
      | inr after ↦ rw (apart, after) (first, All-insert_peer p qs here a)
    ]
  ]

module _ (local_id : NodeId) where
  -- A bucket at an index: at most 20 peers, each of which belongs there.
  abbrev pub IsBucket : ℕ → Bucket → Type 0
  IsBucket i b = (length b ≤ 20) × All (λ p. bucket_index local_id p.id ≡ i) b

  -- The buckets from an index on.
  abbrev pub AreBuckets : ℕ → List Bucket → Type 0
  AreBuckets i [] = Unit
  AreBuckets i (b ∷ bs) = IsBucket i b × AreBuckets (i + 1) bs

  replicate-AreBuckets : (i n : ℕ) → AreBuckets i (replicate n)
  unfolding replicate
  replicate-AreBuckets i zero = tt
  replicate-AreBuckets i (suc n) = ((omega arith, tt), replicate-AreBuckets (i + 1) n)

  add-IsBucket :
      (i : ℕ) (p : PeerInfo) (b : Bucket)
      → bucket_index local_id p.id ≡ i
      → IsBucket i b
      → IsBucket i (add_to_bucket p b)
  unfolding add_to_bucket
  add-IsBucket i p b at (small, placed) = elim (Bool-cases (ltb (length b) 20)) [
    | inl room ↦ rw room (
      ground (arith, length-insert_peer p b),
      All-insert_peer (λ q. bucket_index local_id q.id ≡ i) p b at placed,
    )
    | inr full ↦ rw full (small, placed)
  ]

  modify-AreBuckets :
      (i j : ℕ) (p : PeerInfo) (bs : List Bucket)
      → bucket_index local_id p.id ≡ i + j
      → AreBuckets i bs
      → AreBuckets i (modify_at j (add_to_bucket p) bs)
  unfolding modify_at
  modify-AreBuckets i j p [] at a = tt
  modify-AreBuckets i zero p (b ∷ bs) at (first, a) =
      (add-IsBucket i p b (omega (arith, at)) first, a)
  modify-AreBuckets i (suc j) p (b ∷ bs) at (first, a) =
      (first, modify-AreBuckets (i + 1) j p bs (omega (arith, at)) a)

  -- A table that has grown by updates.
  pub data History : KademliaRoutingTable → Type 0 where
    start : History (new_table local_id)
    updated :
        {t : KademliaRoutingTable} (peer : PeerInfo) → History t → History (update_table peer t)

  local_kept : {t : KademliaRoutingTable} → History t → t.local_id ≡ local_id
  unfolding update_table
  local_kept start = refl
  local_kept (updated peer h) = local_kept h

  -- After any updates, each bucket holds at most 20 peers, all of which belong to it by their
  -- distance from the node's own identifier.
  pub routing_sound : {t : KademliaRoutingTable} → History t → AreBuckets 0 t.buckets
  unfolding update_table
  routing_sound start = replicate-AreBuckets 0 256
  routing_sound (updated {t} peer h) = rw (local_kept h) (
      modify-AreBuckets 0 (bucket_index local_id peer.id) peer t.buckets (omega arith)
        (routing_sound h))
