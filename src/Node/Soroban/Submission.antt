-- ===== src/Node/Soroban/Submission.antt =====
-- network-node/src/soroban_service.rs: what is made of the answer to a submitted transaction. What the
-- value of an RPC answer decodes to is a parameter. Counters and logs are left out.
use Prim.Native.String.{String}
use text.Mathlib.Text.{◌==◌}
use axionvera_network.Base.{
  ℕ, ◌≡◌, refl, false, Option, none, some, List, if◌then◌else◌, arith, inl, inr, Bool-cases,
}
use axionvera_network.Node.Texts.{Text, codes, contains}
use axionvera_network.Node.Soroban.{CallError, Result, ok, err, Response, call}

pub record SendTransactionResponse : Type 0 where
  pub hash : Text
  pub status : String
  pub latest_ledger : ℕ
  pub latest_ledger_close_time : Text
  pub error_result_xdr : Option Text

pub data SubmitError : Type 0 where
  rpc : CallError → SubmitError
  transaction_expired insufficient_fee : SubmitError
  transaction_failed : (status : String) → SubmitError

pub data Submitted : Type 0 where
  accepted : SendTransactionResponse → Submitted
  rejected : SubmitError → Submitted

-- The placeholders that are looked for in the XDR of an error.
abbrev pub expired_mark : Text
expired_mark = codes "AAAAAAAAAAAAAAAB"

abbrev pub fee_mark : Text
fee_mark = codes "AAAAAAAAAAAAAAAC"

unfoldable pub parse_error : SendTransactionResponse → SubmitError
parse_error r = elim r.error_result_xdr [
  | none ↦ SubmitError.transaction_failed r.status
  | some xdr ↦
      if contains expired_mark xdr
      then SubmitError.transaction_expired
      else if contains fee_mark xdr
      then SubmitError.insufficient_fee
      else SubmitError.transaction_failed r.status
]

unfoldable pub submit_transaction :
    (ℕ → SendTransactionResponse) → (ℕ → ℕ → Response) → List ℕ → Submitted
submit_transaction decode_value post rpc_urls = elim (call post rpc_urls) [
  | Result.err e ↦ rejected (SubmitError.rpc e)
  | Result.ok value ↦
      let response = decode_value value in
      if response.status == "ERROR" then rejected (parse_error response) else accepted response
]

-- A transaction that is accepted has an answer of an endpoint that does not report an error.
pub accepted_lem :
    (decode_value : ℕ → SendTransactionResponse) (post : ℕ → ℕ → Response) (rpc_urls : List ℕ)
    (response : SendTransactionResponse)
    → submit_transaction decode_value post rpc_urls ≡ accepted response
    → (value : ℕ) × (call post rpc_urls ≡ ok value)
      × (response ≡ decode_value value)
      × ((response.status == "ERROR") ≡ false)
unfolding submit_transaction
accepted_lem decode_value post rpc_urls response e = go (call post rpc_urls) refl
  where
    go :
        (answer : Result)
        → call post rpc_urls ≡ answer
        → (value : ℕ) × (call post rpc_urls ≡ ok value)
          × (response ≡ decode_value value)
          × ((response.status == "ERROR") ≡ false)
    go (err x) eq = absurd (ground (arith, eq))
    go (ok value) eq = elim (Bool-cases ((decode_value value).status == "ERROR")) [
      | inl bad ↦ absurd (ground (arith, eq))
      | inr good ↦
          let same : response ≡ decode_value value = ground (arith, eq) in
          (value, eq, same, rw (same, good) refl)
    ]
