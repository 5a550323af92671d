-- ===== src/Base/Maps.antt =====
-- Hash maps with keys that are numbers, as association lists in the order in which they are iterated.
use Prim.Native.Nat.{ℕ}
use mathlib.Core.Path.{◌≡◌}
use mathlib.Core.Option.{Option, none, some}
use mathlib.Core.List.{List, [], ◌∷◌}
use native.Mathlib.Omega.{arith}
use mathlib.Core.Logic.{◌≢◌, inl, inr}
use axionvera_network.Base.Tests.{◌==◌, if◌then◌else◌, Bool-cases}
use axionvera_network.Base.Lists.{IsFresh, IsDistinct}

abbrev pub Map : Type 0 → Type 0
Map V = List (ℕ × V)

module _ {V : Type 0} where
  unfoldable pub lookup : ℕ → Map V → Option V
  lookup k [] = none
  lookup k ((j, v) ∷ m) = if j == k then some v else lookup k m

  -- `insert(k, v)`
  unfoldable pub insert : ℕ → V → Map V → Map V
  insert k v [] = (k, v) ∷ []
  insert k v ((j, w) ∷ m) = if j == k then (k, v) ∷ m else (j, w) ∷ insert k v m

  -- `if let Some(v) = get_mut(k) { *v = f(v) }`
  unfoldable pub modify : ℕ → (V → V) → Map V → Map V
  modify k f [] = []
  modify k f ((j, w) ∷ m) = if j == k then (j, f w) ∷ m else (j, w) ∷ modify k f m

  -- `entry(k).or_insert(v)` and a change of what is there.
  unfoldable pub upsert : ℕ → V → (V → V) → Map V → Map V
  upsert k v f [] = (k, f v) ∷ []
  upsert k v f ((j, w) ∷ m) = if j == k then (j, f w) ∷ m else (j, w) ∷ upsert k v f m

  abbrev pub map_option : (V → V) → Option V → Option V
  map_option f none = none
  map_option f (some v) = some (f v)

  abbrev pub with_default : V → (V → V) → Option V → V
  with_default v f none = f v
  with_default v f (some w) = f w

  pub lookup-insert :
      (j k : ℕ) (v : V) (m : Map V)
      → lookup j (insert k v m) ≡ (if k == j then some v else lookup j m)
  unfolding lookup insert
  lookup-insert j k v [] = ground arith
  lookup-insert j k v ((i, w) ∷ m) = ground (arith, lookup-insert j k v m)

  pub lookup-modify :
      (j k : ℕ) (f : V → V) (m : Map V)
      → lookup j (modify k f m) ≡ (if k == j then map_option f (lookup j m) else lookup j m)
  unfolding lookup modify
  lookup-modify j k f [] = ground arith
  lookup-modify j k f ((i, w) ∷ m) = ground (arith, lookup-modify j k f m)

  pub lookup-upsert :
      (j k : ℕ) (v : V) (f : V → V) (m : Map V)
      → lookup j (upsert k v f m)
        ≡ (if k == j then some (with_default v f (lookup j m)) else lookup j m)
  unfolding lookup upsert
  lookup-upsert j k v f [] = ground arith
  lookup-upsert j k v f ((i, w) ∷ m) = ground (arith, lookup-upsert j k v f m)

  -- Every value satisfies `P`.
  abbrev pub AllValues : (V → Type 0) → Map V → Type 0
  AllValues P [] = Unit
  AllValues P ((k, v) ∷ m) = P v × AllValues P m

  pub AllValues-insert :
      (P : V → Type 0) (k : ℕ) (v : V) (m : Map V)
      → P v
      → AllValues P m
      → AllValues P (insert k v m)
  unfolding insert
  AllValues-insert P k v [] p a = (p, tt)
  AllValues-insert P k v ((j, w) ∷ m) p (first, a) = ground (arith, AllValues-insert P k v m p a)

  pub AllValues-modify :
      (P : V → Type 0) (k : ℕ) (f : V → V) (m : Map V)
      → ((v : V) → P v → P (f v))
      → AllValues P m
      → AllValues P (modify k f m)
  unfolding modify
  AllValues-modify P k f [] keep a = tt
  AllValues-modify P k f ((j, w) ∷ m) keep (first, a) =
      ground (arith, keep w first, AllValues-modify P k f m keep a)

  pub AllValues-upsert :
      (P : V → Type 0) (k : ℕ) (v : V) (f : V → V) (m : Map V)
      → P (f v)
      → ((w : V) → P w → P (f w))
      → AllValues P m
      → AllValues P (upsert k v f m)
  unfolding upsert
  AllValues-upsert P k v f [] p keep a = (p, tt)
  AllValues-upsert P k v f ((j, w) ∷ m) p keep (first, a) =
      ground (arith, keep w first, AllValues-upsert P k v f m p keep a)

  pub AllValues-lookup :
      (P : V → Type 0) (k : ℕ) (v : V) (m : Map V) → AllValues P m → lookup k m ≡ some v → P v
  unfolding lookup
  AllValues-lookup P k v [] a e = ground arith
  AllValues-lookup P k v ((j, w) ∷ m) (first, a) e = elim (Bool-cases (j == k)) [
    | inl same ↦ ground arith
    | inr apart ↦ AllValues-lookup P k v m a (ground arith)
  ]

  abbrev pub keys : Map V → List ℕ
  keys [] = []
  keys ((k, v) ∷ m) = k ∷ keys m

  -- Every entry satisfies `P`.
  abbrev pub AllEntries : (ℕ → V → Type 0) → Map V → Type 0
  AllEntries P [] = Unit
  AllEntries P ((k, v) ∷ m) = P k v × AllEntries P m

  IsFresh-insert :
      (j k : ℕ) (v : V) (m : Map V) → j ≢ k → IsFresh j (keys m) → IsFresh j (keys (insert k v m))
  unfolding insert
  IsFresh-insert j k v [] apart fresh = (apart, tt)
  IsFresh-insert j k v ((i, w) ∷ m) apart (first, fresh) =
      ground (arith, IsFresh-insert j k v m apart fresh)

  -- A hash map stays one.
  pub insert-IsDistinct :
      (k : ℕ) (v : V) (m : Map V) → IsDistinct (keys m) → IsDistinct (keys (insert k v m))
  unfolding insert
  insert-IsDistinct k v [] d = (tt, tt)
  insert-IsDistinct k v ((j, w) ∷ m) (fresh, d) =
      ground (arith, insert-IsDistinct k v m d, IsFresh-insert j k v m)

  pub keys-modify : (k : ℕ) (f : V → V) (m : Map V) → keys (modify k f m) ≡ keys m
  unfolding modify
  keys-modify k f [] = ground arith
  keys-modify k f ((j, w) ∷ m) = ground (arith, keys-modify k f m)

  pub AllEntries-insert :
      (P : ℕ → V → Type 0) (k : ℕ) (v : V) (m : Map V)
      → P k v
      → AllEntries P m
      → AllEntries P (insert k v m)
  unfolding insert
  AllEntries-insert P k v [] p a = (p, tt)
  AllEntries-insert P k v ((j, w) ∷ m) p (first, a) = ground (arith, AllEntries-insert P k v m p a)

  pub AllEntries-modify :
      (P : ℕ → V → Type 0) (k : ℕ) (f : V → V) (m : Map V)
      → ((j : ℕ) (v : V) → k ≡ j → lookup k m ≡ some v → P j v → P j (f v))
      → AllEntries P m
      → AllEntries P (modify k f m)
  unfolding modify lookup
  AllEntries-modify P k f [] keep a = tt
  AllEntries-modify P k f ((j, w) ∷ m) keep (first, a) = elim (Bool-cases (j == k)) [
    | inl same ↦ ground (arith, keep j w (ground arith) (ground arith) first)
    | inr apart ↦
        ground (arith, AllEntries-modify P k f m (λ i v e found p. keep i v e (ground arith) p) a)
  ]

  pub AllEntries-lookup :
      (P : ℕ → V → Type 0) (k : ℕ) (v : V) (m : Map V)
      → AllEntries P m
      → lookup k m ≡ some v
      → P k v
  unfolding lookup
  AllEntries-lookup P k v [] a e = ground arith
  AllEntries-lookup P k v ((j, w) ∷ m) (first, a) e = elim (Bool-cases (j == k)) [
    | inl same ↦ ground arith
    | inr apart ↦ AllEntries-lookup P k v m a (ground arith)
  ]
