-- ===== src/Node/Signing/Registry.antt =====
-- What the registry of network-node/src/signing.rs holds over its life.
use axionvera_network.Base.{
  ℕ, ◌≡◌, ◌≢◌, refl, ◌⊎◌, inl, inr, true, none, some, List, [], ◌==◌, arith, Bool-cases,
  Option-cases,
}
use axionvera_network.Base.Maps.{lookup, insert, lookup-insert}
use axionvera_network.Node.Signing.{
  SigningError, ok, err, Signer, hsm_signer, SigningService, new_service, add_signer, get_signer,
  get_default_signer, set_default_signer, sign, get_public_key, invalidate_cache, or_first,
}

-- The calls that change a service.
pub data History : SigningService → Type 0 where
  start : (cache_ttl_seconds : ℕ) → History (new_service cache_ttl_seconds)
  added :
      {s s' : SigningService} (key_id : ℕ) (signer : Signer)
      → History s
      → add_signer key_id signer s ≡ ok s'
      → History s'
  chosen :
      {s s' : SigningService} (key_id : ℕ)
      → History s
      → set_default_signer key_id s ≡ ok s'
      → History s'
  looked_up :
      {s : SigningService} (now later key_id : ℕ)
      → History s
      → History (get_public_key now later key_id s).1
  invalidated : {s : SigningService} (key_id : ℕ) → History s → History (invalidate_cache key_id s)

-- Nothing is registered, or the default key is that of a registered signer; and every registered
-- signer was healthy.
record IsSound (s : SigningService) : Type 0 where
  default :
      ((s.default_signer_key ≡ none) × (s.signers ≡ []))
      ⊎ ((k : ℕ) × (signer : Signer) × (s.default_signer_key ≡ some k)
          × (lookup k s.signers ≡ some signer))
  healthy :
      (k : ℕ) (signer : Signer) → lookup k s.signers ≡ some signer → signer.health_check ≡ ok true

pub add_runs :
    (s s' : SigningService) (key_id : ℕ) (signer : Signer)
    → add_signer key_id signer s ≡ ok s'
    → (signer.health_check ≡ ok true)
      × (s'.signers ≡ insert key_id signer s.signers)
      × (s'.default_signer_key ≡ or_first s.default_signer_key key_id)
      × (s'.public_key_cache ≡ s.public_key_cache)
unfolding add_signer
add_runs s s' key_id signer e = ground arith

add-IsSound :
    (s s' : SigningService) (key_id : ℕ) (signer : Signer)
    → add_signer key_id signer s ≡ ok s'
    → IsSound s
    → IsSound s'
add-IsSound s s' key_id signer e sound =
    let (well, stored, default, cached) = add_runs s s' key_id signer e in
    record {
      default = elim sound.default [
        | inl (nobody, empty) ↦ inr (
          key_id,
          signer,
          ground arith,
          ground (arith, lookup-insert key_id key_id signer s.signers),
        )
        | inr (k, t, at_k, found) ↦ elim (Bool-cases (key_id == k)) [
          | inl same ↦
              inr (k, signer, ground arith, ground (arith, lookup-insert k key_id signer s.signers))
          | inr apart ↦
              inr (k, t, ground arith, ground (arith, lookup-insert k key_id signer s.signers))
        ]
      ];
      healthy = λ k t found.
          let law = lookup-insert k key_id signer s.signers in
          elim (Bool-cases (key_id == k)) [
            | inl same ↦ let e : t ≡ signer = ground arith in rw e well
            | inr apart ↦ sound.healthy k t (ground arith)
          ];
    }

choose-IsSound :
    (s s' : SigningService) (key_id : ℕ)
    → set_default_signer key_id s ≡ ok s'
    → IsSound s
    → IsSound s'
unfolding set_default_signer
choose-IsSound s s' key_id e sound = elim (Option-cases (lookup key_id s.signers)) [
  | inl gone ↦ absurd (ground arith)
  | inr (signer, found) ↦
      let same : s'.signers ≡ s.signers = ground arith in
      record {
        default = inr (key_id, signer, ground arith, rw same found);
        healthy = λ k t there. sound.healthy k t (rw same at there);
      }
]

look_up_keeps :
    (now later key_id : ℕ) (s : SigningService)
    → let s' = (get_public_key now later key_id s).1 in
      (s'.signers ≡ s.signers) × (s'.default_signer_key ≡ s.default_signer_key)
unfolding get_public_key
look_up_keeps now later key_id s = ground arith

History-IsSound : {s : SigningService} → History s → IsSound s
unfolding lookup
History-IsSound (start cache_ttl_seconds) = record {
  default = inl (refl, refl);
  healthy = λ k signer found. absurd (ground arith);
}
History-IsSound (added {s} {s'} key_id signer h e) =
    add-IsSound s s' key_id signer e (History-IsSound h)
History-IsSound (chosen {s} {s'} key_id h e) = choose-IsSound s s' key_id e (History-IsSound h)
History-IsSound (looked_up {s} now later key_id h) =
    let sound = History-IsSound h in
    let (same, same_default) = look_up_keeps now later key_id s in
    record {
      default = rw (same, same_default) sound.default;
      healthy = λ k t there. sound.healthy k t (rw same at there);
    }
History-IsSound (invalidated {s} key_id h) =
    let sound = History-IsSound h in record { default = sound.default; healthy = sound.healthy }

-- In every history, a service with a signer has a default one: signing a message is then what a
-- registered signer answers, one that was healthy when it was added, and never fails because a
-- signer is missing. A service without a signer refuses to sign for want of a default.
pub sign_total :
    (s : SigningService) (message : List ℕ)
    → History s
    → ((s.signers ≡ []) × (sign message s ≡ err SigningError.no_default))
      ⊎ ((k : ℕ) × (signer : Signer) × (lookup k s.signers ≡ some signer)
          × (signer.health_check ≡ ok true)
          × (sign message s ≡ signer.sign message))
unfolding sign get_default_signer get_signer
sign_total s message h =
    let sound = History-IsSound h in
    elim sound.default [
      | inl (nobody, empty) ↦ inl (empty, ground arith)
      | inr (k, signer, at_k, found) ↦
          inr (k, signer, found, sound.healthy k signer found, ground arith)
    ]

-- In every history, no placeholder for a hardware module is registered: it cannot be added.
pub hsm_never_registered :
    (s : SigningService) (k slot : ℕ)
    → History s
    → (lookup k s.signers ≢ some (hsm_signer slot))
      × (add_signer k (hsm_signer slot) s ≡ err (SigningError.not_healthy k))
unfolding add_signer
hsm_never_registered s k slot h = (
  λ found. let well = (History-IsSound h).healthy k (hsm_signer slot) found in ground arith,
  refl,
)
