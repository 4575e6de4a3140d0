-- ===== src/Vault/Client.antt =====
-- include/cppload/vault/vault_client.hpp and core/vault/vault_client.cpp: `VaultClient::Impl`. `dump` of what
-- a call sends throws on text that is not UTF-8, and the exception leaves the call (`none`).
pub mod Paths
use cppload_workflow.Prelude.{
  Bool, true, false, not, ◌&&◌, ◌||◌, Option, none, some, List, [], ◌∷◌, ◌++◌, ltb, leb,
  if◌then◌else◌, Bytes, bytes, is_empty, Dict, Result, ok, err,
}
use cppload_workflow.Prelude.Json.{Json}
use cppload_workflow.Core.Errors.{Err, invalid_config}
use cppload_workflow.Core.Url.{parse_url, sanitize_path}
use cppload_workflow.Net.Network.{Network, Reply, Exchange, ◌>>=◌, ◌>>◌, pure, fail}
use cppload_workflow.Vault.Requests.{do_request, check_response}
use cppload_workflow.Vault.Answers.{
  read_secret, read_secret_map, read_creds, read_approle, put_body, approle_body,
}

pub record VaultConfig : Type 0 where
  pub address : Bytes
  pub token : Bytes
  pub engine_path : Bytes

-- `last_error_` is never written, so it is left out.
pub record Vault : Type 0 where
  pub config : VaultConfig
  pub connected : Bool

-- `sanitize_path` always gives a text.
abbrev pub sanitized : Bytes → Bytes
sanitized path = elim (sanitize_path path) [ none ↦ [] | some q ↦ q ]

unfoldable pub secret_path : VaultConfig → Bytes → Bytes
secret_path c path = bytes "/v1/" ++ sanitized c.engine_path ++ bytes "/data/" ++ sanitized path

unfoldable pub creds_path : Bytes → Bytes
creds_path role_name = bytes "/v1/database/creds/" ++ sanitized role_name

unfoldable pub token_header : VaultConfig → Dict Bytes
token_header c = (bytes "X-Vault-Token", c.token) ∷ []

module _ {W S J : Type 0} (N : Network W S) (L : Json J) where
  -- A request to the server and the test of its status.
  unfoldable pub ask : VaultConfig → Bytes → Bytes → Bytes → Dict Bytes → Exchange W Reply
  ask c method target body headers =
      let url = parse_url c.address in
      do_request N method url.host url.port target body headers url.tls >>= λ res w.
      (elim (check_response res) [ ok status ↦ ok res | err e ↦ err e ], w)

  unfoldable pub get_secret : VaultConfig → Bytes → Bytes → Exchange W Bytes
  get_secret c path key =
      if is_empty path
      then fail invalid_config
      else (ask c (bytes "GET") (secret_path c path) [] (token_header c) >>= λ res w.
          (read_secret L key res.body, w))

  unfoldable pub get_secret_map : VaultConfig → Bytes → Exchange W (Dict Bytes)
  get_secret_map c path =
      if is_empty path
      then fail invalid_config
      else (ask c (bytes "GET") (secret_path c path) [] (token_header c) >>= λ res w.
          (read_secret_map L res.body, w))

  unfoldable pub put_secret : VaultConfig → Bytes → Dict Bytes → Option (Exchange W Bool)
  put_secret c path data' =
      if is_empty path then some (fail invalid_config) else elim (L.dump (put_body L data')) [
        | err e ↦ none
        | ok body ↦
            some
              (ask c (bytes "POST") (secret_path c path) body (token_header c) >>= λ res. pure true)
      ]

  unfoldable pub get_kv_secret : VaultConfig → Bytes → Bytes → Exchange W Bytes
  get_kv_secret c path key = get_secret c path key

  unfoldable pub get_database_creds : VaultConfig → Bytes → Exchange W Bytes
  get_database_creds c role_name =
      if is_empty role_name
      then fail invalid_config
      else (ask c (bytes "GET") (creds_path role_name) [] (token_header c) >>= λ res w.
          (read_creds L res.body, w))

  unfoldable pub get_approle_token : VaultConfig → Bytes → Bytes → Option (Exchange W Bytes)
  get_approle_token c role_id secret_id =
      if is_empty role_id || is_empty secret_id
      then some (fail invalid_config)
      else elim (L.dump (approle_body L role_id secret_id)) [
        | err e ↦ none
        | ok body ↦ some (
            ask c (bytes "POST") (bytes "/v1/auth/approle/login") body [] >>= λ res w.
            (read_approle L res.body, w))
      ]

  unfoldable pub is_healthy : Result Reply Err → Bool
  is_healthy (ok res) = leb 200 res.status && ltb res.status 500
  is_healthy (err e) = false

  -- The constructor, with its `health_check`.
  unfoldable pub create : VaultConfig → W → Vault × W
  create c w =
      let url = parse_url c.address in
      let headers = if is_empty c.token then [] else token_header c in
      let (res, w') =
        do_request N (bytes "GET") url.host url.port (bytes "/v1/sys/health") [] headers url.tls
          w in
      (record { config = c; connected = is_healthy res }, w')
