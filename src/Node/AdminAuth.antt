-- ===== src/Node/AdminAuth.antt =====
-- network-node/src/grpc/server.rs: the interceptor that guards the admin routes of the gRPC server.
-- The hash function is a parameter, and so is the environment. Of a request: its path, and of each
-- header that is read its first value, or `none` where there is none or it is no visible ASCII text.
pub mod Access
use Prim.Native.String.{String}
use text.Mathlib.Text.{◌==◌}
use axionvera_network.Base.{
  Bool, true, false, Option, none, some, List, [], ◌∷◌, map, ◌||◌, if◌then◌else◌,
}
use axionvera_network.Node.Texts.{
  Text, codes, is_empty, trim, to_ascii_lowercase, eq_text, eq_ignore_ascii_case, split_once_space,
}

pub record Request : Type 0 where
  pub path : String
  pub authorization : Option Text
  pub x_api_key : Option Text
  pub api_key : Option Text

abbrev pub admin_grpc_paths : List String
admin_grpc_paths =
    "/axionvera.network.NetworkService/DistributeRewards"
    ∷ "/axionvera.network.NetworkService/ParameterUpgrade"
    ∷ "/axionvera.gateway.GatewayService/DistributeRewards"
    ∷ "/axionvera.gateway.GatewayService/ParameterUpgrade" ∷ []

unfoldable pub is_listed : String → List String → Bool
is_listed path [] = false
is_listed path (p ∷ ps) = p == path || is_listed path ps

abbrev pub is_admin_grpc_route : String → Bool
is_admin_grpc_route path = is_listed path admin_grpc_paths

-- A text that is not empty.
abbrev pub non_empty : Text → Option Text
non_empty s = if is_empty s then none else some s

abbrev pub or_else : Option Text → Option Text → Option Text
or_else (some s) t = some s
or_else none t = t

-- The token of `authorization: Bearer …`.
unfoldable pub bearer_token : Text → Option Text
bearer_token header = elim (split_once_space (trim header)) [
  | none ↦ none
  | some (scheme, token) ↦
      if eq_ignore_ascii_case scheme (codes "bearer") then non_empty (trim token) else none
]

abbrev pub and_then : Option Text → (Text → Option Text) → Option Text
and_then none f = none
and_then (some s) f = f s

unfoldable pub extract_admin_token : Request → Option Text
extract_admin_token r = or_else (and_then r.authorization bearer_token) (
    or_else (and_then r.x_api_key (λ s. non_empty (trim s)))
      (and_then r.api_key (λ s. non_empty (trim s))))

pub record AdminAuthInterceptor : Type 0 where
  pub expected_token_hash : Option Text

unfoldable pub new_interceptor : Option Text → AdminAuthInterceptor
new_interceptor hash = record {
  expected_token_hash = and_then hash (λ s. non_empty (map to_ascii_lowercase (trim s)));
}

pub data Unauthenticated : Type 0 where
  not_configured missing_token invalid_token : Unauthenticated

pub data Reply : Type 0 where
  accepted : Request → Reply
  refused : Unauthenticated → Reply

unfoldable pub intercept : (Text → Text) → AdminAuthInterceptor → Request → Reply
intercept sha256_hex i r =
    if is_admin_grpc_route r.path
    then elim i.expected_token_hash [
      | none ↦ refused Unauthenticated.not_configured
      | some expected_hash ↦ elim (extract_admin_token r) [
        | none ↦ refused Unauthenticated.missing_token
        | some token ↦
            if eq_text (sha256_hex token) expected_hash
            then accepted r
            else refused Unauthenticated.invalid_token
      ]
    ]
    else accepted r
