-- ===== src/Security/Auth.antt =====
-- include/cppload/security/auth_provider.hpp and core/security/auth_provider.cpp: `AuthProvider`. The
-- network and the JSON library are parameters, times are nanoseconds, and each call holds the mutex.
pub mod Refresh
pub mod Tests
use cppload_workflow.Prelude.{
  ℕ, ◌+◌, ◌-◌, ◌*◌, Bool, true, false, not, ◌&&◌, ◌||◌, Option, none, some, List, [], ◌∷◌, ◌++◌,
  leb, ltb, ◌==◌, if◌then◌else◌, max, Bytes, bytes, is_empty, Dict, insert, Result, ok, err, Signed,
  nonneg, negative,
}
use cppload_workflow.Prelude.Json.{Json, JsonException}
use cppload_workflow.Core.Errors.{
  Err, code, message, auth_invalid_client, auth_invalid_grant, auth_server_error, auth_parse_error,
}
use cppload_workflow.Core.Url.{parse_url, url_encode}
use cppload_workflow.Net.Network.{Network, Reply}
use cppload_workflow.Security.Post.{do_sync_post}

pub data AuthType : Type 0 where
  no_auth api_key bearer_token oauth2 mtls : AuthType

pub record AuthConfig : Type 0 where
  pub auth_type : AuthType
  pub key : Bytes
  pub token : Bytes
  pub client_id : Bytes
  pub client_secret : Bytes
  pub token_endpoint : Bytes

pub record Auth : Type 0 where
  pub config : AuthConfig
  pub current_token : Bytes
  pub token_expiry : ℕ

abbrev pub second : ℕ
second = 1_000_000_000

-- The error of a status, `none` for 200 to 299.
unfoldable pub status_error : ℕ → Option Err
status_error status =
    if ltb status 200 || leb 300 status
    then (if status == 401
        then some auth_invalid_client
        else if status == 400
        then some auth_invalid_grant
        else some auth_server_error)
    else none

-- `max(expires_in - kExpiryMarginSec, 1)`, in seconds.
unfoldable pub lifetime : Signed → ℕ
lifetime (nonneg expires_in) = max (expires_in - 60) 1
lifetime negative = 1

unfoldable pub grant_body : AuthConfig → Bytes
grant_body c =
    bytes "grant_type=client_credentials"
    ++ bytes "&client_id="
    ++ url_encode c.client_id
    ++ bytes "&client_secret="
    ++ url_encode c.client_secret

abbrev pub bearer : Bytes → Bytes
bearer token = bytes "Bearer " ++ token

module _ {W S J : Type 0} (N : Network W S) (L : Json J) where
  -- The token is stored before its lifetime is read.
  unfoldable pub store_expiry :
      Auth → Result Signed JsonException → W → (Result Bool Err × Auth) × W
  store_expiry a (err e) w = ((err auth_parse_error, a), w)
  store_expiry a (ok expires_in) w =
      let (now, w') = N.now w in
      ((ok true, record a { token_expiry = now + second * lifetime expires_in }), w')

  unfoldable pub store_token :
      Auth → J → Result Bytes JsonException → W → (Result Bool Err × Auth) × W
  store_token a j (err e) w = ((err auth_parse_error, a), w)
  store_token a j (ok token) w =
      if is_empty token
      then ((err auth_invalid_grant, a), w)
      else store_expiry (record a { current_token = token }) (L.expiry_value j (bytes "expires_in"))
          w

  unfoldable pub read_token : Auth → Bytes → W → (Result Bool Err × Auth) × W
  read_token a body w = elim (L.parse body) [
    | err e ↦ ((err auth_parse_error, a), w)
    | ok j ↦ store_token a j (L.value j (bytes "access_token")) w
  ]

  unfoldable pub read_reply : Auth → Result Reply Err → W → (Result Bool Err × Auth) × W
  read_reply a (err e) w = ((err e, a), w)
  read_reply a (ok res) w = elim (status_error res.status) [
    | some e ↦ ((err e, a), w)
    | none ↦ read_token a res.body w
  ]

  unfoldable pub fetch_token : Auth → W → (Result Bool Err × Auth) × W
  fetch_token a w =
      let url = parse_url a.config.token_endpoint in
      let (res, w') =
        do_sync_post N url.host url.port url.path (grant_body a.config)
          (bytes "application/x-www-form-urlencoded") url.tls w in
      read_reply a res w'

  abbrev pub is_oauth2 : Auth → Bool
  is_oauth2 a = elim a.config.auth_type [
    | no_auth ↦ false
    | api_key ↦ false
    | bearer_token ↦ false
    | oauth2 ↦ true
    | mtls ↦ false
  ]

  -- The constructor; the error is the text of what it throws.
  unfoldable pub create : AuthConfig → W → Result Auth Bytes × W
  create c w =
      let a : Auth = record { config = c; current_token = []; token_expiry = 0 } in
      if is_oauth2 a && not (is_empty c.token_endpoint)
      then (let ((r, a'), w') = fetch_token a w in
          (elim r [ ok _ ↦ ok a' | err e ↦ err (message (code e)) ], w'))
      else (ok a, w)

  -- What it returns where the refresh failed is the previous token too, empty or not.
  unfoldable pub get_token : Auth → W → (Bytes × Auth) × W
  get_token a w =
      let (now, w') = N.now w in
      if leb a.token_expiry now
      then (let ((r, a'), w'') = fetch_token a w' in ((a'.current_token, a'), w''))
      else ((a.current_token, a), w')

  unfoldable pub apply_headers : Auth → Dict Bytes → W → (Dict Bytes × Auth) × W
  apply_headers a headers w = elim a.config.auth_type [
    | no_auth ↦ ((headers, a), w)
    | api_key ↦ ((insert (bytes "X-API-Key") a.config.key headers, a), w)
    | bearer_token ↦ ((insert (bytes "Authorization") (bearer a.config.token) headers, a), w)
    | oauth2 ↦
        let ((token, a'), w') = get_token a w in
        if is_empty token
        then ((headers, a'), w')
        else ((insert (bytes "Authorization") (bearer token) headers, a'), w')
    | mtls ↦ ((insert (bytes "X-SSL-Cert") (bytes "mtls") headers, a), w)
  ]

  unfoldable pub get_auth_header : Auth → W → (Bytes × Auth) × W
  get_auth_header a w = elim a.config.auth_type [
    | no_auth ↦ (([], a), w)
    | api_key ↦ ((bytes "X-API-Key: " ++ a.config.key, a), w)
    | bearer_token ↦ ((bytes "Authorization: Bearer " ++ a.config.token, a), w)
    | oauth2 ↦
        let ((token, a'), w') = get_token a w in
        if is_empty token
        then (([], a'), w')
        else ((bytes "Authorization: Bearer " ++ token, a'), w')
    | mtls ↦ ((bytes "X-SSL-Cert: mtls", a), w)
  ]

  unfoldable pub refresh_token : Auth → W → (Result Bool Err × Auth) × W
  refresh_token a w = if is_oauth2 a then fetch_token a w else ((ok true, a), w)

  unfoldable pub is_expired : Auth → W → Bool × W
  is_expired a w =
      if is_oauth2 a then (let (now, w') = N.now w in (leb a.token_expiry now, w')) else (false, w)
