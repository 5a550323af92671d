-- ===== src/Node/Signing/Freshness.antt =====
-- How old a public key of the cache of network-node/src/signing.rs can be, and whose it is.
use axionvera_network.Base.{
  ℕ, ◌+◌, ◌*◌, ◌≤◌, ◌≡◌, refl, ◌⊎◌, inl, inr, false, some, [], ◌∷◌, ◌==◌, arith, Bool-cases,
  Option-cases,
}
use axionvera_network.Base.Maps.{
  Map, lookup, lookup-insert, AllEntries, AllEntries-insert, AllEntries-lookup,
}
use axionvera_network.Node.Signing.{
  Result, ok, err, CacheEntry, new_entry, is_expired, PublicKeyCache, get_or_fetch, remove,
  invalidate, clear, Signer, SigningService, add_signer, get_signer, get_public_key,
}
use axionvera_network.Node.Signing.Registry.{add_runs}

-- `Fetched key_id public_key t` tells that the key's signer has given this public key, which was
-- stored at `t`.
module _ (Fetched : ℕ → ℕ → ℕ → Type 0) where
  -- The calls on a cache, each of which fetches what its key's signer gives.
  pub data History : PublicKeyCache → Type 0 where
    start : (ttl_seconds : ℕ) → History (record { cache = []; default_ttl_seconds = ttl_seconds })
    called :
        {c : PublicKeyCache} (now later key_id : ℕ) (fetched : Result ℕ)
        → History c
        → ((public_key : ℕ) → fetched ≡ ok public_key → Fetched key_id public_key later)
        → History (get_or_fetch now later key_id fetched c).1
    invalidated : {c : PublicKeyCache} (key_id : ℕ) → History c → History (invalidate key_id c)
    cleared : {c : PublicKeyCache} → History c → History (clear c)

  abbrev IsFetched : ℕ → ℕ → CacheEntry → Type 0
  IsFetched ttl_seconds k e =
      Fetched k e.public_key e.cached_at × (e.ttl ≡ ttl_seconds * 1_000_000_000)

  abbrev AreFetched : PublicKeyCache → Type 0
  AreFetched c = AllEntries (IsFetched c.default_ttl_seconds) c.cache

  remove-AreFetched :
      (ttl_seconds key_id : ℕ) (m : Map CacheEntry)
      → AllEntries (IsFetched ttl_seconds) m
      → AllEntries (IsFetched ttl_seconds) (remove key_id m)
  unfolding remove
  remove-AreFetched ttl_seconds key_id [] a = tt
  remove-AreFetched ttl_seconds key_id ((k, e) ∷ m) (first, a) = elim (Bool-cases (k == key_id)) [
    | inl hit ↦ rw hit (remove-AreFetched ttl_seconds key_id m a)
    | inr miss ↦ rw miss (first, remove-AreFetched ttl_seconds key_id m a)
  ]

  fetch-AreFetched :
      (now later key_id : ℕ) (fetched : Result ℕ) (c : PublicKeyCache)
      → ((public_key : ℕ) → fetched ≡ ok public_key → Fetched key_id public_key later)
      → AreFetched c
      → AreFetched (get_or_fetch now later key_id fetched c).1
  unfolding get_or_fetch
  fetch-AreFetched now later key_id (ok pk) c real a =
      let added =
        AllEntries-insert (IsFetched c.default_ttl_seconds) key_id
          (new_entry later pk c.default_ttl_seconds) c.cache (real pk refl, refl) a in
      elim (Option-cases (lookup key_id c.cache)) [
        | inl gone ↦ rw (gone, get_or_fetch) added
        | inr (entry, found) ↦
            rw (found, get_or_fetch)
              (elim (Bool-cases (is_expired now entry)) [
                | inl old ↦ rw old added
                | inr fresh ↦ rw fresh a
              ])
      ]
  fetch-AreFetched now later key_id (err e) c real a = elim (Option-cases (lookup key_id c.cache)) [
    | inl gone ↦ rw (gone, get_or_fetch) a
    | inr (entry, found) ↦
        rw (found, get_or_fetch)
          (elim (Bool-cases (is_expired now entry)) [ inl old ↦ rw old a | inr fresh ↦ rw fresh a ])
  ]

  History-AreFetched : {c : PublicKeyCache} → History c → AreFetched c
  History-AreFetched (start ttl_seconds) = tt
  History-AreFetched (called {c} now later key_id fetched h real) =
      fetch-AreFetched now later key_id fetched c real (History-AreFetched h)
  History-AreFetched (invalidated {c} key_id h) =
      remove-AreFetched c.default_ttl_seconds key_id c.cache (History-AreFetched h)
  History-AreFetched (cleared {c} h) = tt

  -- In every history of a cache, a public key that it returns for a key identifier is one that
  -- the signer of this identifier has given: in this call, or in one that stored it no longer
  -- ago than the time to live.
  pub get_or_fetch_fresh :
      (c : PublicKeyCache) (now later key_id public_key : ℕ) (fetched : Result ℕ)
      → History c
      → (get_or_fetch now later key_id fetched c).0 ≡ ok public_key
      → (fetched ≡ ok public_key)
        ⊎ ((t : ℕ) × Fetched key_id public_key t
            × (now ≤ t + c.default_ttl_seconds * 1_000_000_000))
  unfolding get_or_fetch
  get_or_fetch_fresh c now later key_id public_key fetched h e =
      elim (Option-cases (lookup key_id c.cache)) [
        | inl gone ↦ inl (ground arith)
        | inr (entry, found) ↦ elim (Bool-cases (is_expired now entry)) [
          | inl old ↦ inl (ground arith)
          | inr fresh ↦
              let (given, ttl) =
                AllEntries-lookup (IsFetched c.default_ttl_seconds) key_id entry c.cache
                  (History-AreFetched h) found in
              let same : entry.public_key ≡ public_key = ground arith in
              inr (entry.cached_at, rw same at given, ground arith)
        ]
      ]

-- Where a signer is added under an identifier whose cached public key has not expired, the service
-- goes on to give the cached key, whatever key the new signer has.
pub stale_key :
    (s s' : SigningService) (now later key_id : ℕ) (entry : CacheEntry) (signer : Signer)
    → lookup key_id s.public_key_cache.cache ≡ some entry
    → is_expired now entry ≡ false
    → add_signer key_id signer s ≡ ok s'
    → (get_public_key now later key_id s').0 ≡ ok entry.public_key
unfolding get_public_key get_signer get_or_fetch
stale_key s s' now later key_id entry signer cached fresh added =
    let (well, stored, default, same) = add_runs s s' key_id signer added in
    ground (arith, lookup-insert key_id key_id signer s.signers)
