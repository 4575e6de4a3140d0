-- ===== src/Net/Factory.antt =====
-- include/cppload/net/protocol_factory.hpp and core/net/protocol_factory.cpp: `ProtocolFactory`. A function that
-- makes clients is an `F`, the settings of TLS are a `C`, and `make_context` is the constructor of `TlsContext`.
pub mod Registry
use cppload_workflow.Prelude.{
  Bool, true, Option, none, some, List, [], ◌∷◌, ◌++◌, if◌then◌else◌, Bytes, bytes, is_empty, Dict,
  lookup, insert, Result, ok, err,
}

pub record ProtocolFactory (F C T : Type 0) : Type 0 where
  pub registry : Dict F
  pub tls_config : C
  pub tls_ctx : Option T

unfoldable pub key_of : Bytes → Bytes
key_of name = if is_empty name then bytes "http1.1" else name

module _ {F : Type 0} where
  unfoldable pub names_of : Dict F → List Bytes
  names_of [] = []
  names_of ((name, f) ∷ m) = name ∷ names_of m

module _ {F : Type 0} where
  abbrev pub found : Bytes → Option F → Result F Bytes
  found name none = err (bytes "protocol \"" ++ name ++ bytes "\" is not registered")
  found name (some f) = ok f

module _ {F C T : Type 0} where
  -- The function of a protocol, which is then called; a name that is not registered is an exception.
  unfoldable pub create : ProtocolFactory F C T → Bytes → Result F Bytes
  create p name = found name (lookup (key_of name) p.registry)

  unfoldable pub register_protocol : ProtocolFactory F C T → Bytes → F → ProtocolFactory F C T
  register_protocol p name f = record p { registry = insert name f p.registry }

  unfoldable pub available_protocols : ProtocolFactory F C T → List Bytes
  available_protocols p = names_of p.registry

module _ {C T : Type 0} (make_context : C → T) where
  -- The context that is there, or a new one.
  abbrev pub context_or_new : C → Option T → T
  context_or_new c none = make_context c
  context_or_new c (some t) = t

module _ {F C T : Type 0} (make_context : C → T) where
  unfoldable pub set_tls_config : ProtocolFactory F C T → C → ProtocolFactory F C T
  set_tls_config p c = record p { tls_config = c; tls_ctx = some (make_context c) }

  unfoldable pub ssl_context : ProtocolFactory F C T → T × ProtocolFactory F C T
  ssl_context p =
      let t = context_or_new make_context p.tls_config p.tls_ctx in
      (t, record p { tls_ctx = some t })

  unfoldable pub ensure_tls_context : ProtocolFactory F C T → Bool × ProtocolFactory F C T
  ensure_tls_context p =
      (true, record p { tls_ctx = some (context_or_new make_context p.tls_config p.tls_ctx) })
