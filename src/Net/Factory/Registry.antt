-- ===== src/Net/Factory/Registry.antt =====
-- core/net/protocol_factory.cpp: what is registered is what is created, and the context is that of the settings.
use cppload_workflow.Prelude.{
  ℕ, ◌≡◌, refl, ap, Option, none, some, ◌∷◌, Bytes, lookup-insert_same, ok,
}
use cppload_workflow.Net.Factory.{
  ProtocolFactory, key_of, found, create, register_protocol, set_tls_config, context_or_new,
  ssl_context,
}

module _ {F C T : Type 0} where
  -- A protocol that was registered under a name is the one that is created for it.
  create-register_protocol :
      (p : ProtocolFactory F C T) (c : ℕ) (name : Bytes) (f : F)
      → create (register_protocol p (c ∷ name) f) (c ∷ name) ≡ ok f
  unfolding create register_protocol key_of
  create-register_protocol p c name f =
      ap (found (c ∷ name)) (lookup-insert_same (c ∷ name) f p.registry)

module _ {C T : Type 0} (make_context : C → T) where
  -- The context that is shared is the one of the settings.
  abbrev pub IsCurrent : C → Option T → Type 0
  IsCurrent c none = Unit
  IsCurrent c (some t) = t ≡ make_context c

  context_or_new_lem :
      (c : C) (t : Option T) → IsCurrent c t → context_or_new make_context c t ≡ make_context c
  context_or_new_lem c none h = refl
  context_or_new_lem c (some t) h = h

module _ {F C T : Type 0} (make_context : C → T) (p : ProtocolFactory F C T) where
  set_tls_config-IsCurrent :
      (c : C)
      → let q = set_tls_config make_context p c in IsCurrent make_context q.tls_config q.tls_ctx
  unfolding set_tls_config
  set_tls_config-IsCurrent c = refl

  ssl_context-IsCurrent :
      IsCurrent make_context p.tls_config p.tls_ctx
      → let (t, q) = ssl_context make_context p in
        (t ≡ make_context p.tls_config) × IsCurrent make_context q.tls_config q.tls_ctx
  unfolding ssl_context
  ssl_context-IsCurrent h =
      let e = context_or_new_lem make_context p.tls_config p.tls_ctx h in (e, e)
