-- ===== src/Node/StateTrie/Root.antt =====
-- What the root hash of network-node/src/state_trie.rs tells of the leaves.
use mathlib.Core.Path.{fun_ext}
use axionvera_network.Base.{
  ℕ, Bool, true, false, ◌≡◌, refl, ap, sym, ◌∙◌, Option, some, List, [], ◌∷◌, ◌++◌, arith,
}
use axionvera_network.Node.StateTrie.{Hash, xor, xor_hash, Leaf, StateTrie, insert}

xor_swap : (a b c : Bool) → xor (xor a b) c ≡ xor (xor a c) b
xor_swap true true true = refl
xor_swap true true false = refl
xor_swap true false true = refl
xor_swap true false false = refl
xor_swap false true true = refl
xor_swap false true false = refl
xor_swap false false true = refl
xor_swap false false false = refl

xor_cancel : (a b : Bool) → xor (xor a b) b ≡ a
xor_cancel true true = refl
xor_cancel true false = refl
xor_cancel false true = refl
xor_cancel false false = refl

module _ (Db : Type 0) (hash_node : Leaf → Hash) (put : Hash → Leaf → Db → Option Db)
    (items : Db → List (Option (ℕ × ℕ))) where
  abbrev Trie : Type 0
  Trie = StateTrie Db hash_node put items

  insert_root :
      (leaf : Leaf) (trie trie' : Trie)
      → insert Db hash_node put items leaf trie ≡ some trie'
      → trie'.root_hash ≡ xor_hash trie.root_hash (hash_node leaf)
  unfolding insert
  insert_root leaf trie trie' e = ground arith

  -- Leaves inserted one after the other, all with success.
  pub data Inserted (trie : Trie) : List Leaf → Trie → Type 0 where
    nothing : Inserted trie [] trie
    one :
        (leaf : Leaf) {leaves : List Leaf} {trie' trie'' : Trie}
        → Inserted trie leaves trie'
        → insert Db hash_node put items leaf trie' ≡ some trie''
        → Inserted trie (leaf ∷ leaves) trie''

  -- The root hash of the leaves alone.
  abbrev pub fold_root : Hash → List Leaf → Hash
  fold_root h [] = h
  fold_root h (leaf ∷ leaves) = xor_hash (fold_root h leaves) (hash_node leaf)

  Inserted-root :
      {trie trie' : Trie} {leaves : List Leaf}
      → Inserted trie leaves trie'
      → trie'.root_hash ≡ fold_root trie.root_hash leaves
  Inserted-root nothing = refl
  Inserted-root (one leaf {leaves} {trie'} {trie''} earlier e) =
      insert_root leaf trie' trie'' e
      ∙ ap (λ h. xor_hash h (hash_node leaf)) (Inserted-root earlier)

  fold_root-append :
      (h : Hash) (leaf : Leaf) (ls ms : List Leaf)
      → fold_root h (ls ++ leaf ∷ ms) ≡ xor_hash (fold_root h (ls ++ ms)) (hash_node leaf)
  fold_root-append h leaf [] ms = refl
  fold_root-append h leaf (l ∷ ls) ms =
      ap (λ k. xor_hash k (hash_node l)) (fold_root-append h leaf ls ms)
      ∙ fun_ext (λ i. xor_swap (fold_root h (ls ++ ms) i) (hash_node leaf i) (hash_node l i))

  -- A leaf that is inserted again, after any other insertions, leaves the root hash of the sequence
  -- in which it was never inserted, and the root hash does not depend on where in a sequence a leaf
  -- is inserted. So it does not tell which leaves are stored.
  pub root_forgets :
      (leaf : Leaf) (vs ws : List Leaf) (trie twice without early late : Trie)
      → Inserted trie (leaf ∷ (vs ++ leaf ∷ ws)) twice
      → Inserted trie (vs ++ ws) without
      → Inserted trie (vs ++ leaf ∷ ws) early
      → Inserted trie (leaf ∷ (vs ++ ws)) late
      → (twice.root_hash ≡ without.root_hash) × (early.root_hash ≡ late.root_hash)
  root_forgets leaf vs ws trie twice without early late i j k l =
      let h = trie.root_hash in
      let moved = fold_root-append h leaf vs ws in
      (
        Inserted-root i
            ∙ ap (λ x. xor_hash x (hash_node leaf)) moved
            ∙ fun_ext (λ n. xor_cancel (fold_root h (vs ++ ws) n) (hash_node leaf n))
            ∙ sym (Inserted-root j),
        Inserted-root k ∙ moved ∙ sym (Inserted-root l),
      )
