-- ===== src/Node/Peers/Closest.antt =====
-- The closest peers that the routing table of network-node/src/p2p.rs finds.
use axionvera_network.Base.{
  ℕ, zero, suc, ◌+◌, ◌≤◌, ◌≡◌, refl, ◌∙◌, inl, inr, Bool, true, false, List, [], ◌∷◌, All, length,
  if◌then◌else◌, arith, Bool-cases, ltb, ◌⊎◌, ◌<◌,
}
use Prim.Native.Nat.{bit_xor}
use axionvera_network.Node.Peers.{
  NodeId, PeerInfo, KademliaRoutingTable, is_before, xor_distance, insert_closest, sort_closest,
  all_peers, take, find_closest,
}

is_before_total : (a b : NodeId) → is_before a b ≡ false → is_before b a ≡ true
unfolding is_before
is_before_total [] bs e = absurd (ground arith)
is_before_total (x ∷ xs) [] e = refl
is_before_total (x ∷ xs) (y ∷ ys) e = ground (arith, is_before_total xs ys)

is_before_trans :
    (a b c : NodeId) → is_before a b ≡ true → is_before b c ≡ true → is_before a c ≡ true
unfolding is_before
is_before_trans [] b c p q = refl
is_before_trans (x ∷ xs) [] c p q = absurd (ground arith)
is_before_trans (x ∷ xs) (y ∷ ys) [] p q = absurd (ground arith)
is_before_trans (x ∷ xs) (y ∷ ys) (z ∷ zs) p q = ground (arith, is_before_trans xs ys zs)

-- Identifier `a` is no further from the target than `b`: at the first byte at which they differ, the
-- byte of `a` exclusive or that of the target is the smaller number. All three have 32 bytes.
abbrev pub IsNearer : NodeId → NodeId → NodeId → Type 0
IsNearer [] a b = Unit
IsNearer (t ∷ ts) [] b = Unit
IsNearer (t ∷ ts) (x ∷ xs) [] = ⊥
IsNearer (t ∷ ts) (x ∷ xs) (y ∷ ys) =
    (bit_xor x t < bit_xor y t) ⊎ ((bit_xor x t ≡ bit_xor y t) × IsNearer ts xs ys)

-- The order of the distances that the code computes is that one.
is_before-IsNearer :
    (target a b : NodeId)
    → is_before (xor_distance a target) (xor_distance b target) ≡ true
    → IsNearer target a b
unfolding is_before xor_distance
is_before-IsNearer [] a b e = tt
is_before-IsNearer (t ∷ ts) [] b e = tt
is_before-IsNearer (t ∷ ts) (x ∷ xs) [] e = absurd (ground arith)
is_before-IsNearer (t ∷ ts) (x ∷ xs) (y ∷ ys) e =
    elim (Bool-cases (ltb (bit_xor x t) (bit_xor y t))) [
      | inl below ↦ inl (ground arith)
      | inr above ↦ inr (ground arith, is_before-IsNearer ts xs ys (ground arith))
    ]

IsNearer-is_before :
    (target a b : NodeId)
    → IsNearer target a b
    → is_before (xor_distance a target) (xor_distance b target) ≡ true
unfolding is_before xor_distance
IsNearer-is_before [] [] b n = refl
IsNearer-is_before [] (x ∷ xs) b n = refl
IsNearer-is_before (t ∷ ts) [] b n = refl
IsNearer-is_before (t ∷ ts) (x ∷ xs) [] n = absurd n
IsNearer-is_before (t ∷ ts) (x ∷ xs) (y ∷ ys) (inl below) = ground arith
IsNearer-is_before (t ∷ ts) (x ∷ xs) (y ∷ ys) (inr (same, n)) =
    ground (arith, IsNearer-is_before ts xs ys n)

module _ (target : NodeId) where
  abbrev pub IsCloser : PeerInfo → PeerInfo → Type 0
  IsCloser p q = IsNearer target p.id q.id

  -- Each peer is no further from the target than those after it.
  abbrev pub AreOrdered : List PeerInfo → Type 0
  AreOrdered [] = Unit
  AreOrdered (p ∷ ps) = All (IsCloser p) ps × AreOrdered ps

  All-IsCloser :
      (p q : PeerInfo) (ps : List PeerInfo)
      → IsCloser p q
      → All (IsCloser q) ps
      → All (IsCloser p) ps
  All-IsCloser p q [] near a = tt
  All-IsCloser p q (r ∷ ps) near (first, a) = (
    is_before-IsNearer target p.id r.id (
        is_before_trans (xor_distance p.id target) (xor_distance q.id target)
          (xor_distance r.id target) (IsNearer-is_before target p.id q.id near)
          (IsNearer-is_before target q.id r.id first)),
    All-IsCloser p q ps near a,
  )

  insert_closest-All :
      (r p : PeerInfo) (ps : List PeerInfo)
      → IsCloser r p
      → All (IsCloser r) ps
      → All (IsCloser r) (insert_closest target p ps)
  unfolding insert_closest
  insert_closest-All r p [] near a = (near, tt)
  insert_closest-All r p (q ∷ qs) near (first, a) =
      elim (Bool-cases (is_before (xor_distance p.id target) (xor_distance q.id target))) [
        | inl before ↦ rw before (near, (first, a))
        | inr after ↦ rw after (first, insert_closest-All r p qs near a)
      ]

  insert_closest-AreOrdered :
      (p : PeerInfo) (ps : List PeerInfo) → AreOrdered ps → AreOrdered (insert_closest target p ps)
  unfolding insert_closest
  insert_closest-AreOrdered p [] o = (tt, tt)
  insert_closest-AreOrdered p (q ∷ qs) (first, o) =
      elim (Bool-cases (is_before (xor_distance p.id target) (xor_distance q.id target))) [
        | inl before ↦
            let near : IsCloser p q = is_before-IsNearer target p.id q.id before in
            rw before ((near, All-IsCloser p q qs near first), (first, o))
        | inr after ↦
            let near : IsCloser q p =
              is_before-IsNearer target q.id p.id
                (is_before_total (xor_distance p.id target) (xor_distance q.id target) after) in
            rw after (insert_closest-All q p qs near first, insert_closest-AreOrdered p qs o)
      ]

  sort_closest-AreOrdered : (ps : List PeerInfo) → AreOrdered (sort_closest target ps)
  unfolding sort_closest
  sort_closest-AreOrdered [] = tt
  sort_closest-AreOrdered (p ∷ ps) =
      insert_closest-AreOrdered p (sort_closest target ps) (sort_closest-AreOrdered ps)

  -- How often a test holds; sorting does not change it.
  abbrev pub count : (PeerInfo → Bool) → List PeerInfo → ℕ
  count test [] = 0
  count test (p ∷ ps) = (if test p then 1 else 0) + count test ps

  count-insert_closest :
      (test : PeerInfo → Bool) (p : PeerInfo) (ps : List PeerInfo)
      → count test (insert_closest target p ps) ≡ count test (p ∷ ps)
  unfolding insert_closest
  count-insert_closest test p [] = refl
  count-insert_closest test p (q ∷ qs) =
      elim (Bool-cases (is_before (xor_distance p.id target) (xor_distance q.id target))) [
        | inl before ↦ rw before refl
        | inr after ↦ rw after (omega (arith, count-insert_closest test p qs))
      ]

  count-sort_closest :
      (test : PeerInfo → Bool) (ps : List PeerInfo)
      → count test (sort_closest target ps) ≡ count test ps
  unfolding sort_closest
  count-sort_closest test [] = refl
  count-sort_closest test (p ∷ ps) =
      count-insert_closest test p (sort_closest target ps)
      ∙ omega (arith, count-sort_closest test ps)

  abbrev pub drop : ℕ → List PeerInfo → List PeerInfo
  drop zero ps = ps
  drop (suc k) [] = []
  drop (suc k) (p ∷ ps) = drop k ps

  All-drop : (P : PeerInfo → Type 0) (k : ℕ) (ps : List PeerInfo) → All P ps → All P (drop k ps)
  All-drop P zero ps a = a
  All-drop P (suc k) [] a = tt
  All-drop P (suc k) (p ∷ ps) (first, a) = All-drop P k ps a

  All-take : (P : PeerInfo → Type 0) (k : ℕ) (ps : List PeerInfo) → All P ps → All P (take k ps)
  All-take P zero ps a = tt
  All-take P (suc k) [] a = tt
  All-take P (suc k) (p ∷ ps) (first, a) = (first, All-take P k ps a)

  take-drop :
      (k : ℕ) (ps : List PeerInfo)
      → AreOrdered ps
      → AreOrdered (take k ps)
        × All (λ p. All (IsCloser p) (drop k ps)) (take k ps)
        × (length (take k ps) ≤ k)
  take-drop zero ps o = (tt, tt, omega arith)
  take-drop (suc k) [] o = (tt, tt, omega arith)
  take-drop (suc k) (p ∷ ps) (first, o) =
      let (ordered, closer, short) = take-drop k ps o in
      (
        (All-take (IsCloser p) k ps first, ordered),
        (All-drop (IsCloser p) k ps first, closer),
        omega (arith, short),
      )

  count-take-drop :
      (test : PeerInfo → Bool) (k : ℕ) (ps : List PeerInfo)
      → count test (take k ps) + count test (drop k ps) ≡ count test ps
  count-take-drop test zero ps = omega arith
  count-take-drop test (suc k) [] = refl
  count-take-drop test (suc k) (p ∷ ps) = omega (arith, count-take-drop test k ps)

  -- The peers that are found are at most `k`, each no further from the target than those after
  -- it by the exclusive or of the identifiers' bytes with the target's, the first byte first,
  -- and with the others they make up the peers of the table, none of which is closer than one
  -- found.
  pub find_closest_lem :
      (k : ℕ) (t : KademliaRoutingTable)
      → let found = find_closest target k t in
        (others : List PeerInfo) × AreOrdered found
        × (length found ≤ k)
        × All (λ p. All (IsCloser p) others) found
        × ((test : PeerInfo → Bool)
            → count test found + count test others ≡ count test (all_peers t.buckets))
  unfolding find_closest
  find_closest_lem k t =
      let sorted = sort_closest target (all_peers t.buckets) in
      let (ordered, closer, short) =
        take-drop k sorted (sort_closest-AreOrdered (all_peers t.buckets)) in
      (
        drop k sorted,
        ordered,
        short,
        closer,
        λ test. count-take-drop test k sorted ∙ count-sort_closest test (all_peers t.buckets),
      )
