-- ===== src/Node/Signing.antt =====
-- network-node/src/signing.rs: the signers of the node, their registry, and the cache of their public
-- keys. Keys, texts and bytes are numbers, and a time is in nanoseconds. A signer is what its methods
-- answer; the key pair of a local signer and the service behind an AWS KMS signer are parameters. A
-- time to live is not negative. Logging is left out.
pub mod Freshness
pub mod Registry
pub mod Kms
use axionvera_network.Base.{
  ℕ, suc, ◌+◌, ◌-◌, ◌*◌, Bool, true, false, Option, none, some, List, [], ◌∷◌, length, ltb, ◌==◌,
  if◌then◌else◌,
}
use axionvera_network.Base.Maps.{Map, lookup, insert, keys}
use axionvera_network.Node.Errors.{NetworkError}

-- The errors of the service itself, and those that a signer passes on.
pub data SigningError : Type 0 where
  not_healthy : (key_id : ℕ) → SigningError
  not_found : (key_id : ℕ) → SigningError
  no_default : SigningError
  hsm_not_implemented : SigningError
  passed_on : NetworkError → SigningError

pub data Result (A : Type 0) : Type 0 where
  ok : A → Result A
  err : SigningError → Result A

infixl 5 ◌>>=◌ ◌>>◌
abbrev pub ◌>>=◌ : {A B : Type 0} → Result A → (A → Result B) → Result B
ok a >>= f = f a
err e >>= f = err e

abbrev pub ◌>>◌ : {B : Type 0} → Result (Unit {0}) → Result B → Result B
m >> k = m >>= λ _. k

pub record Signer : Type 0 where
  pub get_public_key : Result ℕ
  pub sign : List ℕ → Result (List ℕ)
  pub get_key_id : Result ℕ
  pub health_check : Result Bool

abbrev pub local_signer : (public : ℕ) → (List ℕ → List ℕ) → (key_id : ℕ) → Signer
local_signer public sign key_id = record {
  get_public_key = ok public;
  sign = λ message. ok (sign message);
  get_key_id = ok key_id;
  health_check = ok true;
}

abbrev pub hsm_signer : (key_id : ℕ) → Signer
hsm_signer key_id = record {
  get_public_key = err SigningError.hsm_not_implemented;
  sign = λ message. err SigningError.hsm_not_implemented;
  get_key_id = ok key_id;
  health_check = ok false;
}

pub record CacheEntry : Type 0 where
  pub public_key : ℕ
  pub cached_at : ℕ
  pub ttl : ℕ

abbrev pub new_entry : ℕ → ℕ → ℕ → CacheEntry
new_entry now public_key ttl_seconds = record {
  public_key = public_key;
  cached_at = now;
  ttl = ttl_seconds * 1_000_000_000;
}

abbrev pub is_expired : ℕ → CacheEntry → Bool
is_expired now e = ltb (e.cached_at + e.ttl) now

pub record PublicKeyCache : Type 0 where
  pub cache : Map CacheEntry
  pub default_ttl_seconds : ℕ

-- The cache is read at `now`. A key that is fetched, with the answer `fetched`, is stored at `later`.
unfoldable pub get_or_fetch : ℕ → ℕ → ℕ → Result ℕ → PublicKeyCache → Result ℕ × PublicKeyCache
get_or_fetch now later key_id fetched c =
    let fetch : Result ℕ × PublicKeyCache = elim fetched [
      | err e ↦ (err e, c)
      | ok public_key ↦ (
        ok public_key,
        record c {
          cache = insert key_id (new_entry later public_key c.default_ttl_seconds) c.cache;
        },
      )
    ] in
    elim (lookup key_id c.cache) [
      | none ↦ fetch
      | some entry ↦ if is_expired now entry then fetch else (ok entry.public_key, c)
    ]

-- `cache.remove(key_id)`
unfoldable pub remove : ℕ → Map CacheEntry → Map CacheEntry
remove key_id [] = []
remove key_id ((k, e) ∷ m) =
    let rest = remove key_id m in if k == key_id then rest else (k, e) ∷ rest

abbrev pub invalidate : ℕ → PublicKeyCache → PublicKeyCache
invalidate key_id c = record c { cache = remove key_id c.cache }

abbrev pub clear : PublicKeyCache → PublicKeyCache
clear c = record c { cache = [] }

unfoldable pub count_expired : ℕ → Map CacheEntry → ℕ
count_expired now [] = 0
count_expired now ((k, e) ∷ m) = (if is_expired now e then 1 else 0) + count_expired now m

pub record CacheStats : Type 0 where
  pub total_entries : ℕ
  pub expired_entries : ℕ
  pub valid_entries : ℕ

abbrev pub stats : ℕ → PublicKeyCache → CacheStats
stats now c = record {
  total_entries = length c.cache;
  expired_entries = count_expired now c.cache;
  valid_entries = length c.cache - count_expired now c.cache;
}

pub record SigningService : Type 0 where
  pub signers : Map Signer
  pub public_key_cache : PublicKeyCache
  pub default_signer_key : Option ℕ

abbrev pub new_service : ℕ → SigningService
new_service cache_ttl_seconds = record {
  signers = [];
  public_key_cache = record { cache = []; default_ttl_seconds = cache_ttl_seconds };
  default_signer_key = none;
}

abbrev pub or_first : Option ℕ → ℕ → Option ℕ
or_first none key_id = some key_id
or_first (some k) key_id = some k

unfoldable pub add_signer : ℕ → Signer → SigningService → Result SigningService
add_signer key_id signer s = do
  healthy ← signer.health_check
  if healthy
      then ok (record s {
        signers = insert key_id signer s.signers;
        default_signer_key = or_first s.default_signer_key key_id;
      })
      else err (SigningError.not_healthy key_id)

unfoldable pub get_signer : ℕ → SigningService → Result Signer
get_signer key_id s = elim (lookup key_id s.signers) [
  | none ↦ err (SigningError.not_found key_id)
  | some signer ↦ ok signer
]

unfoldable pub get_default_signer : SigningService → Result Signer
get_default_signer s = elim s.default_signer_key [
  | none ↦ err SigningError.no_default
  | some key_id ↦ get_signer key_id s
]

unfoldable pub set_default_signer : ℕ → SigningService → Result SigningService
set_default_signer key_id s = elim (lookup key_id s.signers) [
  | none ↦ err (SigningError.not_found key_id)
  | some signer ↦ ok (record s { default_signer_key = some key_id })
]

unfoldable pub sign : List ℕ → SigningService → Result (List ℕ)
sign message s = do signer ← get_default_signer s; signer.sign message

unfoldable pub sign_with : ℕ → List ℕ → SigningService → Result (List ℕ)
sign_with key_id message s = do signer ← get_signer key_id s; signer.sign message

unfoldable pub get_public_key : ℕ → ℕ → ℕ → SigningService → Result ℕ × SigningService
get_public_key now later key_id s = elim (get_signer key_id s) [
  | err e ↦ (err e, s)
  | ok signer ↦
      let (answer, c) = get_or_fetch now later key_id signer.get_public_key s.public_key_cache in
      (answer, record s { public_key_cache = c })
]

unfoldable pub get_default_public_key : ℕ → ℕ → SigningService → Result ℕ × SigningService
get_default_public_key now later s = elim s.default_signer_key [
  | none ↦ (err SigningError.no_default, s)
  | some key_id ↦ get_public_key now later key_id s
]

abbrev pub invalidate_cache : ℕ → SigningService → SigningService
invalidate_cache key_id s = record s { public_key_cache = invalidate key_id s.public_key_cache }

abbrev pub list_signers : SigningService → List ℕ
list_signers s = keys s.signers

-- A signer whose check fails with an error counts as not healthy.
unfoldable pub health_check_all : Map Signer → Map Bool
health_check_all [] = []
health_check_all ((k, signer) ∷ rest) =
    (k, elim signer.health_check [ ok healthy ↦ healthy | err e ↦ false ]) ∷ health_check_all rest
