-- ===== src/Vault/Answers.antt =====
-- core/vault/vault_client.cpp: what each operation of `VaultClient::Impl` reads of a response, over the calls
-- of the JSON library.
use cppload_workflow.Prelude.{
  ◌&&◌, List, [], ◌∷◌, ◌++◌, map, if◌then◌else◌, Bytes, bytes, Dict, insert, Result, ok, err, ◌>>=◌,
}
use cppload_workflow.Prelude.Json.{Json, JsonException}
use cppload_workflow.Core.Errors.{Err, parse_error, vault_not_found}

-- `catch (const json::exception&)`
unfoldable pub caught : {A : Type 0} → Result A JsonException → Result A Err
caught (ok a) = ok a
caught (err e) = err parse_error

module _ {J : Type 0} (L : Json J) where
  unfoldable pub required : J → Bytes → Result J Err
  required j key = if L.contains j key then caught (L.field j key) else err parse_error

  -- `j["data"]["data"]`
  unfoldable pub secret_data : Bytes → Result J Err
  secret_data body = do
    j ← caught (L.parse body)
    data' ← required j (bytes "data")
    required data' (bytes "data")

  unfoldable pub read_secret : Bytes → Bytes → Result Bytes Err
  read_secret key body = do
    secret ← secret_data body
    (if L.is_object secret && L.contains secret key
        then (caught (L.field secret key) >>= λ v. caught (L.get_text v))
        else err vault_not_found)

  unfoldable pub read_items : List (Bytes × J) → Dict Bytes → Result (Dict Bytes) Err
  read_items [] result = ok result
  read_items ((k, v) ∷ items) result =
      caught (L.get_text v) >>= λ text. read_items items (insert k text result)

  unfoldable pub read_secret_map : Bytes → Result (Dict Bytes) Err
  read_secret_map body = do
    secret ← secret_data body
    if L.is_object secret then read_items (L.items secret) [] else ok []

  unfoldable pub read_creds : Bytes → Result Bytes Err
  read_creds body = do
    j ← caught (L.parse body)
    d ← required j (bytes "data")
    username ← caught (L.value d (bytes "username"))
    password ← caught (L.value d (bytes "password"))
    ok (username ++ bytes ":" ++ password)

  unfoldable pub read_approle : Bytes → Result Bytes Err
  read_approle body = do
    j ← caught (L.parse body)
    auth ← required j (bytes "auth")
    token ← required auth (bytes "client_token")
    caught (L.get_text token)

  abbrev pub text_field : Bytes × Bytes → Bytes × J
  text_field (k, v) = (k, L.text_json v)

  -- The body of `put_secret`; without an entry the object stays null.
  unfoldable pub put_body : Dict Bytes → J
  put_body [] = L.object ((bytes "data", L.null) ∷ [])
  put_body ((k, v) ∷ fields) =
      L.object ((bytes "data", L.object (map text_field ((k, v) ∷ fields))) ∷ [])

  unfoldable pub approle_body : Bytes → Bytes → J
  approle_body role_id secret_id =
      L.object (map text_field ((bytes "role_id", role_id) ∷ (bytes "secret_id", secret_id) ∷ []))
