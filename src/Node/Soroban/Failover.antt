-- ===== src/Node/Soroban/Failover.antt =====
-- Which endpoints network-node/src/config.rs gives, and which of them answers a call of
-- network-node/src/soroban_rpc_client.rs.
use axionvera_network.Base.{
  ℕ, suc, ◌+◌, ◌≡◌, ◌≢◌, refl, ◌⊎◌, inl, inr, Bool, true, false, not, ◌&&◌, Option, none, some,
  List, [], ◌∷◌, ◌++◌, length, All, IsFresh, IsDistinct, ◌==◌, if◌then◌else◌, arith, Bool-cases,
}
use axionvera_network.Node.Soroban.{
  SorobanConfig, contains, push_urls, rpc_endpoints, or_default, Response, send_failed, response,
  CallError, Result, err, decode, has_more, call_loop, call,
}

module _ (is_blank : ℕ → Bool) (default_url : ℕ) where
  abbrev AreUsable : List ℕ → Type 0
  AreUsable = All (λ url. is_blank url ≡ false)

  contains-IsFresh : (a url : ℕ) (es : List ℕ) → a ≢ url → IsFresh a es → IsFresh a (es ++ url ∷ [])
  contains-IsFresh a url [] apart fresh = (apart, tt)
  contains-IsFresh a url (e ∷ es) apart (first, fresh) =
      (first, contains-IsFresh a url es apart fresh)

  append-IsDistinct :
      (url : ℕ) (es : List ℕ)
      → contains url es ≡ false
      → IsDistinct es
      → IsDistinct (es ++ url ∷ [])
  unfolding contains
  append-IsDistinct url [] new d = (tt, tt)
  append-IsDistinct url (e ∷ es) new (fresh, d) =
      (contains-IsFresh e url es (ground arith) fresh, append-IsDistinct url es (ground arith) d)

  append-AreUsable :
      (url : ℕ) (es : List ℕ) → is_blank url ≡ false → AreUsable es → AreUsable (es ++ url ∷ [])
  append-AreUsable url [] use_it a = (use_it, tt)
  append-AreUsable url (e ∷ es) use_it (first, a) = (first, append-AreUsable url es use_it a)

  push_urls_usable :
      (es urls : List ℕ)
      → IsDistinct es
      → AreUsable es
      → IsDistinct (push_urls is_blank default_url es urls)
        × AreUsable (push_urls is_blank default_url es urls)
  unfolding push_urls
  push_urls_usable es [] d a = (d, a)
  push_urls_usable es (url ∷ urls) d a =
      elim (Bool-cases (not (is_blank url) && not (contains url es))) [
        | inl new ↦ rw new (
            push_urls_usable (es ++ url ∷ []) urls (append-IsDistinct url es (ground arith) d)
              (append-AreUsable url es (ground arith) a))
        | inr old ↦ rw old (push_urls_usable es urls d a)
      ]

  or_default_usable :
      (es : List ℕ)
      → is_blank default_url ≡ false
      → IsDistinct es × AreUsable es
      → (or_default is_blank default_url es ≢ [])
        × IsDistinct (or_default is_blank default_url es)
        × AreUsable (or_default is_blank default_url es)
  or_default_usable [] named (d, a) = ((λ e. cc), (tt, tt), (named, tt))
  or_default_usable (e ∷ es) named (d, a) = ((λ e. cc), d, a)

  -- The endpoints are never none, no two are the same, and none is blank, where the default is not
  -- blank.
  pub rpc_endpoints_usable :
      (config : SorobanConfig)
      → is_blank default_url ≡ false
      → let endpoints = rpc_endpoints is_blank default_url config in
        (endpoints ≢ []) × IsDistinct endpoints × AreUsable endpoints
  unfolding rpc_endpoints
  rpc_endpoints_usable config named =
      let first = if not (is_blank config.rpc_url) then config.rpc_url ∷ [] else [] in
      let start : IsDistinct first × AreUsable first = elim (Bool-cases (is_blank config.rpc_url)) [
        | inl blank ↦ rw blank (tt, tt)
        | inr given ↦ rw given ((tt, tt), (given, tt))
      ] in
      or_default_usable (push_urls is_blank default_url first config.rpc_urls) named
        (push_urls_usable first config.rpc_urls start.0 start.1)

-- The answer of an endpoint that is not failed over.
abbrev pub answer : ℕ → Response → Result
answer url send_failed = err (CallError.connection url)
answer url (response status body) = decode status body

-- The call goes on to the next endpoint, if there is one.
abbrev pub fails_over : Response → Bool
fails_over send_failed = true
fails_over (response status body) = status == 503

-- The endpoints from an index on all fail over.
abbrev pub AllFail : (ℕ → ℕ → Response) → ℕ → List ℕ → Type 0
AllFail post index [] = Unit
AllFail post index (url ∷ urls) =
    (fails_over (post index url) ≡ true) × AllFail post (index + 1) urls

has_more-append : (pre : List ℕ) (url : ℕ) (rest : List ℕ) → has_more (pre ++ url ∷ rest) ≡ true
has_more-append [] url rest = refl
has_more-append (u ∷ us) url rest = refl

loop_answer :
    (post : ℕ → ℕ → Response) (index : ℕ) (last : Option CallError) (pre : List ℕ) (url : ℕ)
    (rest : List ℕ)
    → AllFail post index pre
    → (fails_over (post (index + length pre) url) ≡ false) ⊎ (rest ≡ [])
    → call_loop post index last (pre ++ url ∷ rest) ≡ answer url (post (index + length pre) url)
unfolding call_loop
loop_answer post index last [] url rest failed (inl decisive) =
    let e : index + 0 ≡ index = omega arith in ground arith
loop_answer post index last [] url rest failed (inr alone) =
    let e : index + 0 ≡ index = omega arith in ground arith
loop_answer post index last (u ∷ us) url rest (first, failed) stop =
    let e : index + suc (length us) ≡ (index + 1) + length us = omega arith in
    rw e (
      ground (
        arith,
        has_more-append us url rest,
        loop_answer post (index + 1) (some (CallError.connection u)) us url rest failed
            (rw e at stop),
        loop_answer post (index + 1) (some (CallError.unavailable u)) us url rest failed
            (rw e at stop),
      ))

-- A call returns the answer of the first endpoint that is reached and does not answer 503, and
-- where there is none that of the last.
pub call_first_answer :
    (post : ℕ → ℕ → Response) (pre : List ℕ) (url : ℕ) (rest : List ℕ)
    → AllFail post 0 pre
    → (fails_over (post (length pre) url) ≡ false) ⊎ (rest ≡ [])
    → call post (pre ++ url ∷ rest) ≡ answer url (post (length pre) url)
call_first_answer post pre url rest failed stop =
    let e : 0 + length pre ≡ length pre = omega arith in
    rw (← e) (loop_answer post 0 none pre url rest failed (rw e stop))
