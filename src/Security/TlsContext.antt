-- ===== src/Security/TlsContext.antt =====
-- include/cppload/security/tls_context.hpp and core/security/tls_context.cpp: `TlsContext`, as the calls that it
-- makes of an SSL context.
use cppload_workflow.Prelude.{
  Bool, true, false, ◌||◌, List, [], ◌∷◌, ◌++◌, if◌then◌else◌, Bytes, bytes, is_empty, Result, ok,
  err,
}

pub data TlsVersion : Type 0 where
  tls_1_2 tls_1_3 : TlsVersion

pub record TlsConfig : Type 0 where
  pub min_tls_version : TlsVersion
  pub verify_peer : Bool
  pub ca_cert_file : Bytes
  pub ca_cert_path : Bytes
  pub use_mtls : Bool
  pub cert_chain_file : Bytes
  pub private_key_file : Bytes
  pub tmp_dh_file : Bytes

pub data ContextCall : Type 0 where
  client_of : TlsVersion → ContextCall
  without_old_protocols : ContextCall
  set_verify_mode : Bool → ContextCall
  load_verify_file : Bytes → ContextCall
  add_verify_path : Bytes → ContextCall
  set_default_verify_paths : ContextCall
  use_certificate_chain_file : Bytes → ContextCall
  use_private_key_file : Bytes → ContextCall
  use_tmp_dh_file : Bytes → ContextCall

unfoldable pub verify_calls : TlsConfig → List ContextCall
verify_calls c =
    if c.verify_peer
    then set_verify_mode true
      ∷ (if is_empty c.ca_cert_file
          then (if is_empty c.ca_cert_path
              then set_default_verify_paths
              else add_verify_path c.ca_cert_path)
          else load_verify_file c.ca_cert_file)
      ∷ []
    else set_verify_mode false ∷ []

unfoldable pub mtls_calls : TlsConfig → Result (List ContextCall) Bytes
mtls_calls c =
    if c.use_mtls
    then (if is_empty c.cert_chain_file || is_empty c.private_key_file
        then err (bytes "mTLS requires cert and key files")
        else ok (
            use_certificate_chain_file c.cert_chain_file
            ∷ use_private_key_file c.private_key_file
            ∷ []))
    else ok []

unfoldable pub dh_calls : TlsConfig → List ContextCall
dh_calls c = if is_empty c.tmp_dh_file then [] else use_tmp_dh_file c.tmp_dh_file ∷ []

-- The constructor; an error is the exception that it throws.
unfoldable pub context_calls : TlsConfig → Result (List ContextCall) Bytes
context_calls c = elim (mtls_calls c) [
  | err e ↦ err e
  | ok calls ↦ ok (
      client_of c.min_tls_version ∷ without_old_protocols ∷ (verify_calls c ++ calls ++ dh_calls c))
]
