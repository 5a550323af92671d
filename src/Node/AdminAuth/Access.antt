-- ===== src/Node/AdminAuth/Access.antt =====
-- Who reaches the admin routes of network-node/src/grpc/server.rs.
use axionvera_network.Base.{
  ◌≡◌, ◌≢◌, refl, sym, ◌∙◌, true, Option, none, some, [], ◌∷◌, map, arith, inl, inr, Bool-cases,
  Option-cases,
}
use axionvera_network.Node.Texts.{
  Text, codes, trim, to_ascii_lowercase, eq_text, eq_text_sound, eq_ignore_ascii_case,
  split_once_space,
}
use axionvera_network.Node.AdminAuth.{
  Request, is_admin_grpc_route, non_empty, or_else, bearer_token, and_then, extract_admin_token,
  new_interceptor, accepted, intercept,
}

non_empty_lem : (s t : Text) → non_empty s ≡ some t → (t ≡ s) × (t ≢ [])
non_empty_lem [] t e = absurd (ground arith)
non_empty_lem (c ∷ s) t e = let same : t ≡ c ∷ s = ground arith in (same, λ none_left. ground arith)

trimmed_lem : (h : Option Text) (t : Text) → and_then h (λ s. non_empty (trim s)) ≡ some t → t ≢ []
trimmed_lem none t e = absurd (ground arith)
trimmed_lem (some s) t e = (non_empty_lem (trim s) t e).1

bearer_lem : (h : Option Text) (t : Text) → and_then h bearer_token ≡ some t → t ≢ []
unfolding bearer_token
bearer_lem none t e = absurd (ground arith)
bearer_lem (some s) t e = elim (Option-cases (split_once_space (trim s))) [
  | inl whole ↦ absurd (ground arith)
  | inr ((scheme, token), split) ↦
      elim (Bool-cases (eq_ignore_ascii_case scheme (codes "bearer"))) [
        | inl bearer ↦ (non_empty_lem (trim token) t (ground arith)).1
        | inr other ↦ absurd (ground arith)
      ]
]

or_else_lem :
    (P : Text → Type 0) (g h : Option Text) (t : Text)
    → (g ≡ some t → P t)
    → (h ≡ some t → P t)
    → or_else g h ≡ some t
    → P t
or_else_lem P none h t left right e = right e
or_else_lem P (some s) h t left right e = left e

extract_lem : (r : Request) (t : Text) → extract_admin_token r ≡ some t → t ≢ []
unfolding extract_admin_token
extract_lem r t e =
    or_else_lem (λ s. s ≢ []) (and_then r.authorization bearer_token)
      (or_else (and_then r.x_api_key (λ s. non_empty (trim s)))
        (and_then r.api_key (λ s. non_empty (trim s))))
      t (bearer_lem r.authorization t)
      (or_else_lem (λ s. s ≢ []) (and_then r.x_api_key (λ s. non_empty (trim s)))
        (and_then r.api_key (λ s. non_empty (trim s))) t (trimmed_lem r.x_api_key t)
        (trimmed_lem r.api_key t))
      e

-- The hash that an interceptor expects is the one that it is given, trimmed and in lower case.
configured_lem :
    (setting : Option Text) (expected : Text)
    → (new_interceptor setting).expected_token_hash ≡ some expected
    → (hash : Text) × (setting ≡ some hash)
      × (expected ≡ map to_ascii_lowercase (trim hash))
      × (expected ≢ [])
unfolding new_interceptor
configured_lem none expected e = absurd (ground arith)
configured_lem (some hash) expected e =
    let (same, some_left) = non_empty_lem (map to_ascii_lowercase (trim hash)) expected e in
    (hash, refl, same, some_left)

-- A request to an admin route passes the interceptor only with a token that is not empty, where a
-- hash is configured, and the token's hash is this hash without the white space around it and in
-- lower case.
pub admin_needs_token :
    (sha256_hex : Text → Text) (setting : Option Text) (r r' : Request)
    → is_admin_grpc_route r.path ≡ true
    → intercept sha256_hex (new_interceptor setting) r ≡ accepted r'
    → (token hash : Text) × (extract_admin_token r ≡ some token)
      × (token ≢ [])
      × (setting ≡ some hash)
      × (sha256_hex token ≡ map to_ascii_lowercase (trim hash))
      × (sha256_hex token ≢ [])
unfolding intercept
admin_needs_token sha256_hex setting r r' admin e =
    elim (Option-cases ((new_interceptor setting).expected_token_hash)) [
      | inl open_door ↦ absurd (ground arith)
      | inr (expected, found) ↦ elim (Option-cases (extract_admin_token r)) [
        | inl silent ↦ absurd (ground arith)
        | inr (token, given) ↦ elim (Bool-cases (eq_text (sha256_hex token) expected)) [
          | inr wrong ↦ absurd (ground arith)
          | inl right ↦
              let same = eq_text_sound (sha256_hex token) expected right in
              let (hash, set, lower, some_left) = configured_lem setting expected found in
              (
                token,
                hash,
                given,
                extract_lem r token given,
                set,
                same ∙ lower,
                λ blank. some_left (sym same ∙ blank),
              )
        ]
      ]
    ]
