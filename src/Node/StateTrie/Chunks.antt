-- ===== src/Node/StateTrie/Chunks.antt =====
-- The chunks of a snapshot in network-node/src/state_trie.rs.
use axionvera_network.Base.{
  ℕ, zero, suc, ◌+◌, ◌*◌, ◌≤◌, ◌≡◌, refl, sym, ap, ◌∙◌, Option, none, some, List, [], ◌∷◌, ◌++◌,
  length, ltb, if◌then◌else◌, arith, inl, inr, Bool-cases,
}
use axionvera_network.Node.StateTrie.{Hash, Leaf, StateTrie, chunk_from, get_snapshot_chunk}

module _ (Db : Type 0) (hash_node : Leaf → Hash) (put : Hash → Leaf → Db → Option Db)
    (items : Db → List (Option (ℕ × ℕ))) where
  -- The entries that the iterator yields without an error.
  abbrev pub entries : List (Option (ℕ × ℕ)) → List (ℕ × ℕ)
  entries [] = []
  entries (none ∷ rest) = entries rest
  entries (some kv ∷ rest) = kv ∷ entries rest

  -- The first `n` chunks, one after the other.
  unfoldable pub first_chunks : ℕ → StateTrie Db hash_node put items → List (ℕ × ℕ)
  first_chunks zero trie = []
  first_chunks (suc n) trie =
      first_chunks n trie ++ get_snapshot_chunk Db hash_node put items n trie

  -- The items with an index below a bound.
  below : ℕ → ℕ → List (Option (ℕ × ℕ)) → List (ℕ × ℕ)
  below bound i [] = []
  below bound i (item ∷ rest) =
      let later = below bound (i + 1) rest in
      if ltb i bound then elim item [ some kv ↦ kv ∷ later | none ↦ later ] else later

  below_done : (bound i : ℕ) (l : List (Option (ℕ × ℕ))) → bound ≤ i → below bound i l ≡ []
  unfolding below
  below_done bound i [] le = refl
  below_done bound i (item ∷ rest) le = ground (arith, below_done bound (i + 1) rest)

  below_all :
      (bound i : ℕ) (l : List (Option (ℕ × ℕ))) → i + length l ≤ bound → below bound i l ≡ entries l
  unfolding below
  below_all bound i [] le = refl
  below_all bound i (none ∷ rest) le = ground (arith, below_all bound (i + 1) rest)
  below_all bound i (some kv ∷ rest) le = ground (arith, below_all bound (i + 1) rest)

  below_chunk :
      (n i : ℕ) (l : List (Option (ℕ × ℕ)))
      → below (n * 100) i l ++ chunk_from Db hash_node put items n i l ≡ below ((n + 1) * 100) i l
  unfolding below chunk_from
  below_chunk n i [] = refl
  below_chunk n i (item ∷ rest) = elim (Bool-cases (ltb i (n * 100))) [
    | inl early ↦ ground (arith, below_chunk n (i + 1) rest)
    | inr late ↦ ground (arith, below_done (n * 100) (i + 1) rest, below_chunk n (i + 1) rest)
  ]

  first_chunks-below :
      (n : ℕ) (trie : StateTrie Db hash_node put items)
      → first_chunks n trie ≡ below (n * 100) 0 (items trie.db)
  unfolding first_chunks get_snapshot_chunk
  first_chunks-below zero trie =
      let e : zero * 100 ≡ 0 = omega arith in
      sym (rw e (below_done 0 0 (items trie.db) (omega arith)))
  first_chunks-below (suc n) trie =
      let e : suc n * 100 ≡ (n + 1) * 100 = omega arith in
      rw e (
        ap (λ l. l ++ chunk_from Db hash_node put items n 0 (items trie.db))
          (first_chunks-below n trie)
        ∙ below_chunk n 0 (items trie.db))

  -- The chunks of a snapshot, one after the other and as many as cover the database, are all
  -- the entries that are read without an error, in their order and each once.
  pub chunks-eq-entries :
      (n : ℕ) (trie : StateTrie Db hash_node put items)
      → length (items trie.db) ≤ n * 100
      → first_chunks n trie ≡ entries (items trie.db)
  chunks-eq-entries n trie enough =
      first_chunks-below n trie ∙ below_all (n * 100) 0 (items trie.db) (omega arith)
