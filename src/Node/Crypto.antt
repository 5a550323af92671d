-- ===== src/Node/Crypto.antt =====
-- network-node/src/crypto.rs: the pool that verifies signatures, in workers and in batches. The
-- cryptographic library is a parameter: how it parses keys and signatures and what it verifies. Bytes
-- are numbers, and identifiers and times come from outside. The queue's receiver, which the pool
-- clones although it has no clone, is one queue here, from which each request is taken once: by a
-- worker or by the batch processor. A worker's permit is not seen, since it is held within one step.
-- Logs are left out.
pub mod Batches
pub mod Accounting
use axionvera_network.Base.{
  ℕ, suc, ◌+◌, ◌-◌, Bool, true, false, not, ◌&&◌, Option, none, some, List, [], ◌∷◌, ◌++◌, length,
  leb, ◌==◌, if◌then◌else◌,
}
use axionvera_network.Base.Maps.{Map, insert}

pub record SignatureVerificationRequest : Type 0 where
  pub id : ℕ
  pub public_key : List ℕ
  pub message : List ℕ
  pub signature : List ℕ
  pub timestamp : ℕ

pub data CryptoError : Type 0 where
  invalid_public_key invalid_signature verification_failed : CryptoError

pub record SignatureVerificationResult : Type 0 where
  pub request_id : ℕ
  pub is_valid : Bool
  pub error : Option CryptoError
  pub verification_time_ms : ℕ
  pub timestamp : ℕ

pub record BatchVerificationResult : Type 0 where
  pub batch_id : ℕ
  pub total_requests : ℕ
  pub valid_signatures : ℕ
  pub invalid_signatures : ℕ
  pub failed_verifications : List ℕ
  pub total_time_ms : ℕ
  pub results : List SignatureVerificationResult
  pub timestamp : ℕ

-- What the clock says of a batch: for the verification of the request at an index its duration and
-- its end, and both for the whole.
pub record Timing : Type 0 where
  pub took_ms : ℕ → ℕ
  pub ended : ℕ → ℕ
  pub total_ms : ℕ
  pub batch_ended : ℕ

abbrev pub is_none : Option CryptoError → Bool
is_none none = true
is_none (some e) = false

abbrev pub is_empty : List SignatureVerificationRequest → Bool
is_empty [] = true
is_empty (r ∷ rs) = false

-- What the loop of `process_batch` has gathered.
pub record Tally : Type 0 where
  pub results : List SignatureVerificationResult
  pub valid_count : ℕ
  pub invalid_count : ℕ
  pub failed_verifications : List ℕ

abbrev pub no_tally : Tally
no_tally = record { results = []; valid_count = 0; invalid_count = 0; failed_verifications = [] }

-- `pending.remove(id)`
unfoldable pub remove_pending :
    ℕ → Map SignatureVerificationRequest → Map SignatureVerificationRequest
remove_pending id [] = []
remove_pending id ((k, r) ∷ m) =
    let rest = remove_pending id m in if k == id then rest else (k, r) ∷ rest

-- The pool: its queue, the requests it counts as pending, and the state of the batch processor.
pub record CryptoWorkerPool : Type 0 where
  pub queue : List SignatureVerificationRequest
  pub pending_requests : Map SignatureVerificationRequest
  pub batch : List SignatureVerificationRequest
  pub last_batch_time : ℕ
  pub sent : List BatchVerificationResult
  pub batch_size : ℕ
  pub batch_timeout_ms : ℕ

abbrev pub new_pool : ℕ → ℕ → ℕ → CryptoWorkerPool
new_pool now batch_size batch_timeout_ms = record {
  queue = [];
  pending_requests = [];
  batch = [];
  last_batch_time = now;
  sent = [];
  batch_size = batch_size;
  batch_timeout_ms = batch_timeout_ms;
}

-- The body of the loop of `verify_signature_batch`, while the queue is open.
abbrev pub submit : SignatureVerificationRequest → CryptoWorkerPool → CryptoWorkerPool
submit r p = record p {
  pending_requests = insert r.id r p.pending_requests;
  queue = p.queue ++ r ∷ [];
}

unfoldable pub verify_signature_batch :
    List SignatureVerificationRequest → CryptoWorkerPool → CryptoWorkerPool
verify_signature_batch [] p = p
verify_signature_batch (r ∷ rs) p = verify_signature_batch rs (submit r p)

module _ (Key Signature : Type 0) (parse_key : List ℕ → Option Key)
    (parse_signature : List ℕ → Option Signature) (verify : Key → List ℕ → Signature → Bool) where
  -- `none` is a valid signature.
  unfoldable pub verify_signature : SignatureVerificationRequest → Option CryptoError
  verify_signature r = elim (parse_key r.public_key) [
    | none ↦ some CryptoError.invalid_public_key
    | some key ↦ elim (parse_signature r.signature) [
      | none ↦ some CryptoError.invalid_signature
      | some signature ↦
          if verify key r.message signature then none else some CryptoError.verification_failed
    ]
  ]

  abbrev pub verification_result :
      Timing → ℕ → SignatureVerificationRequest → SignatureVerificationResult
  verification_result t i r = record {
    request_id = r.id;
    is_valid = is_none (verify_signature r);
    error = verify_signature r;
    verification_time_ms = t.took_ms i;
    timestamp = t.ended i;
  }

  abbrev pub count_result : SignatureVerificationResult → Tally → Tally
  count_result result y =
      if result.is_valid
      then record y { results = y.results ++ result ∷ []; valid_count = y.valid_count + 1 }
      else record y {
        results = y.results ++ result ∷ [];
        invalid_count = y.invalid_count + 1;
        failed_verifications = y.failed_verifications ++ result.request_id ∷ [];
      }

  -- The loop of `process_batch`, from index `i` on.
  unfoldable pub verify_all : Timing → ℕ → Tally → List SignatureVerificationRequest → Tally
  verify_all t i y [] = y
  verify_all t i y (r ∷ rs) = verify_all t (i + 1) (count_result (verification_result t i r) y) rs

  unfoldable pub process_batch :
      ℕ → Timing → List SignatureVerificationRequest → BatchVerificationResult
  process_batch uuid t batch =
      let y = verify_all t 0 no_tally batch in
      record {
        batch_id = uuid;
        total_requests = length batch;
        valid_signatures = y.valid_count;
        invalid_signatures = y.invalid_count;
        failed_verifications = y.failed_verifications;
        total_time_ms = t.total_ms;
        results = y.results;
        timestamp = t.batch_ended;
      }

  -- The batch is processed, sent and cleared. A result that nobody receives is lost.
  abbrev pub flush : ℕ → Timing → ℕ → CryptoWorkerPool → CryptoWorkerPool
  flush uuid t now p = record p {
    sent = p.sent ++ process_batch uuid t p.batch ∷ [];
    batch = [];
    last_batch_time = now;
  }

  -- The batch processor takes a request.
  unfoldable pub batch_receive :
      ℕ → Timing → ℕ → SignatureVerificationRequest → CryptoWorkerPool → CryptoWorkerPool
  batch_receive uuid t now r p =
      let pushed = record p { batch = p.batch ++ r ∷ [] } in
      if leb p.batch_size (length pushed.batch) then flush uuid t now pushed else pushed

  -- Its timer runs out at `now`.
  unfoldable pub batch_timeout : ℕ → Timing → ℕ → ℕ → CryptoWorkerPool → CryptoWorkerPool
  batch_timeout uuid t now later p =
      if not (is_empty p.batch) && leb p.batch_timeout_ms (now - p.last_batch_time)
      then flush uuid t later p
      else p

  -- A worker takes a request, verifies it and forgets the result.
  abbrev pub worker_step : SignatureVerificationRequest → CryptoWorkerPool → CryptoWorkerPool
  worker_step r p = record p { pending_requests = remove_pending r.id p.pending_requests }

pub record CryptoWorkerPoolStats : Type 0 where
  pub worker_count : ℕ
  pub pending_requests : ℕ
  pub available_workers : ℕ
  pub batch_size : ℕ
  pub batch_timeout_ms : ℕ

abbrev pub get_stats_of : ℕ → ℕ → CryptoWorkerPool → CryptoWorkerPoolStats
get_stats_of worker_count available_permits p = record {
  worker_count = worker_count;
  pending_requests = length p.pending_requests;
  available_workers = available_permits;
  batch_size = p.batch_size;
  batch_timeout_ms = p.batch_timeout_ms;
}
