-- ===== src/Node/StateTrie.antt =====
-- network-node/src/state_trie.rs: the root hash and the chunks of a snapshot. The database, the encoding
-- and the hash are not part of the repository: `hash_node` gives the bits of the hash of a leaf, `put`
-- the database after a write, or `none` for an error, and `items` what its iterator yields, where an
-- error is `none`. The 32 bytes of a hash are read as their bits.
pub mod Root
pub mod Chunks
use axionvera_network.Base.{
  ℕ, suc, ◌+◌, ◌*◌, Bool, true, false, not, ◌&&◌, Option, none, some, List, [], ◌∷◌, ◌++◌, leb, ltb,
  if◌then◌else◌,
}

abbrev pub Hash : Type 0
Hash = ℕ → Bool

abbrev pub xor : Bool → Bool → Bool
xor true b = not b
xor false b = b

-- The loop over the bytes, `root_hash[i] ^= node_hash[i]`.
abbrev pub xor_hash : Hash → Hash → Hash
xor_hash a b i = xor (a i) (b i)

-- The empty root.
abbrev pub zero_hash : Hash
zero_hash i = false

pub record Leaf : Type 0 where
  pub key : ℕ
  pub value : ℕ

module _ (Db : Type 0) (hash_node : Leaf → Hash) (put : Hash → Leaf → Db → Option Db)
    (items : Db → List (Option (ℕ × ℕ))) where
  pub record StateTrie : Type 0 where
    pub db : Db
    pub root_hash : Hash

  abbrev pub new_trie : Db → StateTrie
  new_trie db = record { db = db; root_hash = zero_hash }

  -- `none` is the error of the database, with the trie as it was.
  unfoldable pub insert : Leaf → StateTrie → Option StateTrie
  insert leaf trie =
      let node_hash = hash_node leaf in
      elim (put node_hash leaf trie.db) [
        | none ↦ none
        | some db ↦ some (record { db = db; root_hash = xor_hash trie.root_hash node_hash })
      ]

  -- The lookup is not written yet.
  unfoldable pub get : ℕ → StateTrie → Option ℕ
  get key trie = none

  -- The loop over the items, of which `i` is the index of the first.
  unfoldable pub chunk_from : ℕ → ℕ → List (Option (ℕ × ℕ)) → List (ℕ × ℕ)
  chunk_from chunk_index i [] = []
  chunk_from chunk_index i (item ∷ rest) =
      let later = chunk_from chunk_index (i + 1) rest in
      if leb (chunk_index * 100) i && ltb i ((chunk_index + 1) * 100)
      then elim item [ some kv ↦ kv ∷ later | none ↦ later ]
      else later

  unfoldable pub get_snapshot_chunk : ℕ → StateTrie → List (ℕ × ℕ)
  get_snapshot_chunk chunk_index trie = chunk_from chunk_index 0 (items trie.db)
