-- ===== src/Node/Crypto/Accounting.antt =====
-- What becomes of the requests to the pool of network-node/src/crypto.rs.
use axionvera_network.Base.{
  ℕ, ◌+◌, ◌-◌, ◌≡◌, refl, ap, ◌∙◌, Bool, not, ◌&&◌, Option, List, [], ◌∷◌, ◌++◌, length, leb, ◌==◌,
  if◌then◌else◌, arith, inl, inr, Bool-cases,
}
use axionvera_network.Node.Crypto.{
  SignatureVerificationRequest, BatchVerificationResult, Timing, CryptoWorkerPool, new_pool, submit,
  process_batch, flush, batch_receive, batch_timeout, worker_step, is_empty,
}
use axionvera_network.Node.Crypto.Batches.{ids, result_ids, process_batch_lem}

abbrev pub answered : List BatchVerificationResult → List ℕ
answered [] = []
answered (b ∷ bs) = result_ids b.results ++ answered bs

abbrev pub occurrences : ℕ → List ℕ → ℕ
occurrences k [] = 0
occurrences k (x ∷ xs) = (if x == k then 1 else 0) + occurrences k xs

occurrences-append :
    (k : ℕ) (xs ys : List ℕ) → occurrences k (xs ++ ys) ≡ occurrences k xs + occurrences k ys
occurrences-append k [] ys = omega arith
occurrences-append k (x ∷ xs) ys = omega (arith, occurrences-append k xs ys)

occurrences-ids :
    (k : ℕ) (rs ss : List SignatureVerificationRequest)
    → occurrences k (ids (rs ++ ss)) ≡ occurrences k (ids rs) + occurrences k (ids ss)
occurrences-ids k [] ss = omega arith
occurrences-ids k (r ∷ rs) ss = omega (arith, occurrences-ids k rs ss)

occurrences-answered :
    (k : ℕ) (bs : List BatchVerificationResult) (b : BatchVerificationResult)
    → occurrences k (answered (bs ++ b ∷ []))
      ≡ occurrences k (answered bs) + occurrences k (result_ids b.results)
occurrences-answered k [] b = occurrences-append k (result_ids b.results) [] ∙ omega arith
occurrences-answered k (c ∷ bs) b = omega (
  arith,
  occurrences-append k (result_ids c.results) (answered (bs ++ b ∷ [])),
  occurrences-append k (result_ids c.results) (answered bs),
  occurrences-answered k bs b,
)

module _ (Key Signature : Type 0) (parse_key : List ℕ → Option Key)
    (parse_signature : List ℕ → Option Signature) (verify : Key → List ℕ → Signature → Bool) where
  -- The pools that come about, with the identifiers that were submitted and those that workers took.
  pub data Run (batch_size batch_timeout_ms : ℕ) : List ℕ → List ℕ → CryptoWorkerPool → Type 0 where
    started :
        (now : ℕ) → Run batch_size batch_timeout_ms [] [] (new_pool now batch_size batch_timeout_ms)
    submitted :
        {given taken : List ℕ} {p : CryptoWorkerPool} (r : SignatureVerificationRequest)
        → Run batch_size batch_timeout_ms given taken p
        → Run batch_size batch_timeout_ms (r.id ∷ given) taken (submit r p)
    worked :
        {given taken : List ℕ} {p : CryptoWorkerPool} (r : SignatureVerificationRequest)
        (rest : List SignatureVerificationRequest)
        → Run batch_size batch_timeout_ms given taken p
        → p.queue ≡ r ∷ rest
        → Run batch_size batch_timeout_ms given (r.id ∷ taken) (
            worker_step Key Signature parse_key parse_signature verify r
              (record p { queue = rest }))
    batched :
        {given taken : List ℕ} {p : CryptoWorkerPool} (uuid : ℕ) (t : Timing) (now : ℕ)
        (r : SignatureVerificationRequest) (rest : List SignatureVerificationRequest)
        → Run batch_size batch_timeout_ms given taken p
        → p.queue ≡ r ∷ rest
        → Run batch_size batch_timeout_ms given taken (
            batch_receive Key Signature parse_key parse_signature verify uuid t now r
              (record p { queue = rest }))
    timed_out :
        {given taken : List ℕ} {p : CryptoWorkerPool} (uuid : ℕ) (t : Timing) (now later : ℕ)
        → Run batch_size batch_timeout_ms given taken p
        → Run batch_size batch_timeout_ms given taken
            (batch_timeout Key Signature parse_key parse_signature verify uuid t now later p)

  -- How often a request is with the pool: answered, in the batch, or in the queue.
  abbrev held : ℕ → CryptoWorkerPool → ℕ
  held k p =
      occurrences k (answered p.sent) + occurrences k (ids p.batch) + occurrences k (ids p.queue)

  held-flush :
      (k uuid : ℕ) (t : Timing) (now : ℕ) (p : CryptoWorkerPool)
      → held k (flush Key Signature parse_key parse_signature verify uuid t now p) ≡ held k p
  held-flush k uuid t now p =
      let b = process_batch Key Signature parse_key parse_signature verify uuid t p.batch in
      let listed =
        ap (occurrences k)
          ((process_batch_lem Key Signature parse_key parse_signature verify uuid t p.batch).0) in
      omega (arith, occurrences-answered k p.sent b)

  held-batch_receive :
      (k uuid : ℕ) (t : Timing) (now : ℕ) (r : SignatureVerificationRequest) (p : CryptoWorkerPool)
      → held k (batch_receive Key Signature parse_key parse_signature verify uuid t now r p)
        ≡ held k p + (if r.id == k then 1 else 0)
  unfolding batch_receive
  held-batch_receive k uuid t now r p =
      let pushed = record p { batch = p.batch ++ r ∷ [] } in
      let more = occurrences-ids k p.batch (r ∷ []) in
      elim (Bool-cases (leb p.batch_size (length pushed.batch))) [
        | inl full ↦ rw full (held-flush k uuid t now pushed ∙ omega arith)
        | inr room ↦ rw room (omega arith)
      ]

  held-batch_timeout :
      (k uuid : ℕ) (t : Timing) (now later : ℕ) (p : CryptoWorkerPool)
      → held k (batch_timeout Key Signature parse_key parse_signature verify uuid t now later p)
        ≡ held k p
  unfolding batch_timeout
  held-batch_timeout k uuid t now later p =
      elim (Bool-cases
        (not (is_empty p.batch) && leb p.batch_timeout_ms (now - p.last_batch_time))) [
          | inl due ↦ rw due (held-flush k uuid t later p)
          | inr early ↦ rw early refl
        ]

  -- However the workers and the batch processor share the queue, each request that was
  -- submitted is, once for each submission, with a worker, in the result of a batch, in the
  -- next batch or in the queue.
  pub requests_accounted :
      {batch_size batch_timeout_ms : ℕ} {given taken : List ℕ} {p : CryptoWorkerPool} (k : ℕ)
      → Run batch_size batch_timeout_ms given taken p
      → occurrences k given
        ≡ occurrences k taken
          + occurrences k (answered p.sent)
          + occurrences k (ids p.batch)
          + occurrences k (ids p.queue)
  requests_accounted k (started now) = omega arith
  requests_accounted k (submitted {p} r run) =
      omega (arith, requests_accounted k run, occurrences-ids k p.queue (r ∷ []))
  requests_accounted k (worked {p} r rest run e) =
      let next = ap (λ q. occurrences k (ids q)) e in omega (arith, requests_accounted k run)
  requests_accounted k (batched {p} uuid t now r rest run e) =
      let next = ap (λ q. occurrences k (ids q)) e in
      omega (
        arith,
        requests_accounted k run,
        held-batch_receive k uuid t now r (record p { queue = rest }),
      )
  requests_accounted k (timed_out {p} uuid t now later run) =
      omega (arith, requests_accounted k run, held-batch_timeout k uuid t now later p)

  -- The workers can take every request, whatever the size of a batch: then no result is ever sent.
  pub workers_take_all :
      (batch_size batch_timeout_ms now : ℕ) (rs : List SignatureVerificationRequest)
      → (p : CryptoWorkerPool) × Run batch_size batch_timeout_ms (ids rs) (ids rs) p
        × (p.queue ≡ [])
        × (p.batch ≡ [])
        × (p.sent ≡ [])
  workers_take_all batch_size batch_timeout_ms now [] =
      (new_pool now batch_size batch_timeout_ms, Run.started now, refl, refl, refl)
  workers_take_all batch_size batch_timeout_ms now (r ∷ rs) =
      let (p, run, drained, nothing, silent) =
        workers_take_all batch_size batch_timeout_ms now rs in
      (
        worker_step Key Signature parse_key parse_signature verify r
            (record (submit r p) { queue = [] }),
        Run.worked r [] (Run.submitted r run) (ap (λ q. q ++ r ∷ []) drained),
        refl,
        nothing,
        silent,
      )
