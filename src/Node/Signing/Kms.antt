-- ===== src/Node/Signing/Kms.antt =====
-- network-node/src/aws_kms_signer.rs: the signer behind AWS KMS. The service is a parameter: what comes
-- back from a request, or that nothing does in time. `parse_key` reads the 32 bytes of a public key.
-- The texts of errors are numbers. The connection to the service and its set-up are left out.
use axionvera_network.Base.{
  ℕ, zero, suc, ◌≡◌, Bool, true, false, Option, none, some, List, [], ◌∷◌, length, ◌==◌,
  if◌then◌else◌, arith,
}
use axionvera_network.Node.Errors.{NetworkError}
use axionvera_network.Node.Signing.{
  SigningError, Result, ok, err, ◌>>=◌, Signer, SigningService, add_signer, or_first,
}
use axionvera_network.Base.Maps.{insert}

-- The errors of the service that are told apart.
pub data KmsError : Type 0 where
  not_found limit_exceeded dependency_timeout other : (message : ℕ) → KmsError

-- What comes back within the timeout.
pub data Sent (A : Type 0) : Type 0 where
  timed_out : (message : ℕ) → Sent A
  failed : KmsError → Sent A
  answered : A → Sent A

unfoldable pub handle_kms_error : KmsError → NetworkError
handle_kms_error (KmsError.not_found m) = NetworkError.kms m
handle_kms_error (KmsError.limit_exceeded m) = NetworkError.kms_rate_limit m
handle_kms_error (KmsError.dependency_timeout m) = NetworkError.kms_timeout m
handle_kms_error (KmsError.other m) = NetworkError.kms m

-- `timeout(…).await`, with its two errors.
abbrev pub receive : {A : Type 0} → Sent A → Result A
receive (timed_out m) = err (SigningError.passed_on (NetworkError.kms_timeout m))
receive (failed e) = err (SigningError.passed_on (handle_kms_error e))
receive (answered a) = ok a

abbrev pub kms_error : {A : Type 0} → ℕ → Result A
kms_error m = err (SigningError.passed_on (NetworkError.kms m))

-- The messages of the errors that are made here.
abbrev pub no_signature : ℕ
no_signature = 1

abbrev pub no_public_key : ℕ
no_public_key = 2

abbrev pub unexpected_length : ℕ
unexpected_length = 3

abbrev pub invalid_format : ℕ
invalid_format = 4

abbrev pub drop_bytes : ℕ → List ℕ → List ℕ
drop_bytes zero bs = bs
drop_bytes (suc n) [] = []
drop_bytes (suc n) (b ∷ bs) = drop_bytes n bs

unfoldable pub attempt_sign : (List ℕ → Sent (Option (List ℕ))) → List ℕ → Result (List ℕ)
attempt_sign send message_hash = do
  signature ← receive (send message_hash)
  elim signature [ none ↦ kms_error no_signature | some bytes ↦ ok bytes ]

unfoldable pub attempt_get_public_key : (List ℕ → Option ℕ) → Sent (Option (List ℕ)) → Result ℕ
attempt_get_public_key parse_key response = do
  public_key ← receive response
  elim public_key [
    | none ↦ kms_error no_public_key
    | some spki_bytes ↦
        if length spki_bytes == 44
        then elim (parse_key (drop_bytes 12 spki_bytes)) [
          | none ↦ kms_error invalid_format
          | some key ↦ ok key
        ]
        else kms_error unexpected_length
  ]

abbrev pub is_ok : Result ℕ → Bool
is_ok (ok key) = true
is_ok (err e) = false

abbrev pub kms_signer :
    (List ℕ → Option ℕ)
    → (key_response : Sent (Option (List ℕ))) → (List ℕ → Sent (Option (List ℕ)))
    → (key_id : ℕ) → Signer
kms_signer parse_key key_response send key_id = record {
  get_public_key = attempt_get_public_key parse_key key_response;
  sign = attempt_sign send;
  get_key_id = ok key_id;
  health_check = ok (is_ok (attempt_get_public_key parse_key key_response));
}

-- A signer behind the service is added where the service gives its public key, 44 bytes of which the
-- last 32 are one; it is refused where the service gives none, fails or is late.
pub kms_added :
    (parse_key : List ℕ → Option ℕ) (bytes : List ℕ) (send : List ℕ → Sent (Option (List ℕ)))
    (key_id key : ℕ) (s : SigningService)
    → length bytes ≡ 44
    → parse_key (drop_bytes 12 bytes) ≡ some key
    → (s' : SigningService) × (add_signer key_id
          (kms_signer parse_key (answered (some bytes)) send key_id)
          s
        ≡ ok s')
unfolding add_signer attempt_get_public_key
kms_added parse_key bytes send key_id key s long parsed = (
  record s {
    signers = insert key_id (kms_signer parse_key (answered (some bytes)) send key_id) s.signers;
    default_signer_key = or_first s.default_signer_key key_id;
  },
  ground (arith, long, parsed),
)

pub kms_refused :
    (parse_key : List ℕ → Option ℕ) (response : Sent (Option (List ℕ)))
    (send : List ℕ → Sent (Option (List ℕ))) (key_id : ℕ) (s : SigningService) (e : SigningError)
    → attempt_get_public_key parse_key response ≡ err e
    → add_signer key_id (kms_signer parse_key response send key_id) s
      ≡ err (SigningError.not_healthy key_id)
unfolding add_signer
kms_refused parse_key response send key_id s e broken = ground (arith, broken)
