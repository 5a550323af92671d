-- ===== src/Node/Crypto/Batches.antt =====
-- What the result of a batch says in network-node/src/crypto.rs.
use axionvera_network.Base.{
  ℕ, ◌+◌, ◌≡◌, refl, ap, sym, ◌∙◌, Bool, Option, List, [], ◌∷◌, ◌++◌, length, if◌then◌else◌, arith,
  inl, inr, Bool-cases,
}
use axionvera_network.Node.Crypto.{
  SignatureVerificationRequest, SignatureVerificationResult, Timing, Tally, no_tally,
  verify_signature, verification_result, count_result, verify_all, process_batch, is_none,
}

abbrev pub ids : List SignatureVerificationRequest → List ℕ
ids [] = []
ids (r ∷ rs) = r.id ∷ ids rs

abbrev pub result_ids : List SignatureVerificationResult → List ℕ
result_ids [] = []
result_ids (r ∷ rs) = r.request_id ∷ result_ids rs

result_ids-append :
    (rs : List SignatureVerificationResult) (r : SignatureVerificationResult)
    → result_ids (rs ++ r ∷ []) ≡ result_ids rs ++ r.request_id ∷ []
result_ids-append [] r = refl
result_ids-append (q ∷ rs) r = ap (λ l. q.request_id ∷ l) (result_ids-append rs r)

snoc_append : (xs : List ℕ) (x : ℕ) (ys : List ℕ) → (xs ++ x ∷ []) ++ ys ≡ xs ++ x ∷ ys
snoc_append [] x ys = refl
snoc_append (w ∷ xs) x ys = ap (λ l. w ∷ l) (snoc_append xs x ys)

append_nil : (xs : List ℕ) → xs ++ [] ≡ xs
append_nil [] = refl
append_nil (x ∷ xs) = ap (λ l. x ∷ l) (append_nil xs)

-- The requests that are not valid, in their order.
abbrev pub failures :
    (SignatureVerificationRequest → Bool) → List SignatureVerificationRequest → List ℕ
failures test [] = []
failures test (r ∷ rs) = if test r then failures test rs else r.id ∷ failures test rs

module _ (Key Signature : Type 0) (parse_key : List ℕ → Option Key)
    (parse_signature : List ℕ → Option Signature) (verify : Key → List ℕ → Signature → Bool) where
  -- Whether a request's signature is valid.
  abbrev pub is_genuine : SignatureVerificationRequest → Bool
  is_genuine r = is_none (verify_signature Key Signature parse_key parse_signature verify r)

  abbrev pub AreTallied : Tally → List SignatureVerificationRequest → Tally → Type 0
  AreTallied y rs z =
      (result_ids z.results ≡ result_ids y.results ++ ids rs)
      × (z.failed_verifications ≡ y.failed_verifications ++ failures is_genuine rs)
      × (z.valid_count + z.invalid_count ≡ y.valid_count + y.invalid_count + length rs)
      × (z.invalid_count ≡ y.invalid_count + length (failures is_genuine rs))

  count_result_ids :
      (result : SignatureVerificationResult) (y : Tally)
      → result_ids (count_result Key Signature parse_key parse_signature verify result y).results
        ≡ result_ids y.results ++ result.request_id ∷ []
  count_result_ids result y = elim (Bool-cases result.is_valid) [
    | inl good ↦ simp good (result_ids-append y.results result)
    | inr bad ↦ simp bad (result_ids-append y.results result)
  ]

  verify_all_lem :
      (t : Timing) (i : ℕ) (y : Tally) (rs : List SignatureVerificationRequest)
      → AreTallied y rs (verify_all Key Signature parse_key parse_signature verify t i y rs)
  unfolding verify_all
  verify_all_lem t i y [] = (
    sym (append_nil (result_ids y.results)),
    sym (append_nil y.failed_verifications),
    omega arith,
    omega arith,
  )
  verify_all_lem t i y (r ∷ rs) =
      let result = verification_result Key Signature parse_key parse_signature verify t i r in
      let y' = count_result Key Signature parse_key parse_signature verify result y in
      let (listed, failed, counted, invalid) = verify_all_lem t (i + 1) y' rs in
      (
        listed
            ∙ ap (λ l. l ++ ids rs) (count_result_ids result y)
            ∙ snoc_append (result_ids y.results) r.id (ids rs),
        elim (Bool-cases (is_genuine r)) [
          | inl good ↦ ground arith
          | inr bad ↦
              ground (arith, snoc_append y.failed_verifications r.id (failures is_genuine rs))
        ],
        ground arith,
        ground arith,
      )

  -- The result of a batch has a result for each of its requests, in their order; the requests
  -- that failed are those whose key or signature cannot be parsed or does not verify, the
  -- invalid are as many, and the valid are the others.
  pub process_batch_lem :
      (uuid : ℕ) (t : Timing) (batch : List SignatureVerificationRequest)
      → let b = process_batch Key Signature parse_key parse_signature verify uuid t batch in
        (result_ids b.results ≡ ids batch)
        × (b.failed_verifications ≡ failures is_genuine batch)
        × (b.invalid_signatures ≡ length (failures is_genuine batch))
        × (b.valid_signatures + b.invalid_signatures ≡ b.total_requests)
        × (b.total_requests ≡ length batch)
  unfolding process_batch
  process_batch_lem uuid t batch =
      let (listed, failed, counted, invalid) = verify_all_lem t 0 no_tally batch in
      (listed, failed, omega arith, omega arith, refl)
