-- ===== src/Net/Network.antt =====
-- The calls that core/security/auth_provider.cpp, core/vault/vault_client.cpp, core/otel/otlp_exporter.cpp
-- and the clients of core/net make of Boost.Asio and Boost.Beast, which are parameters: an outside world
-- `W` that each call may change, and streams `S`. Deadlines (`expires_after`) are part of the world.
pub mod Samples
pub mod Writes
use cppload_workflow.Prelude.{
  ℕ, ◌+◌, Bool, true, false, Option, none, some, List, Bytes, Dict, Result, ok, err,
}
use cppload_workflow.Core.Errors.{Err}

-- `beast::error_code`, as far as it is looked at: `timeout` is that of Beast's streams and `timed_out` that
-- of the operating system, which are two error codes.
pub data Io : Type 0 where
  done timeout timed_out end_of_stream host_not_found would_block try_again failed : Io

-- A request as it is put together: `fields` are the calls of `set` in their order, which replace a field
-- of the same name.
pub record Message : Type 0 where
  pub method : Bytes
  pub target : Bytes
  pub fields : List (Bytes × Bytes)
  pub body : Bytes
  -- `prepare_payload` was called.
  pub prepared : Bool

pub record Reply : Type 0 where
  pub status : ℕ
  pub fields : Dict Bytes
  pub body : Bytes

pub record Network (W S : Type 0) : Type 0 where
  pub resolve : Bytes → Bytes → W → Io × W
  -- The stream of a new socket; with TLS if asked for.
  pub create_stream : Bool → W → S × W
  -- `async_connect` to what a host and a port were resolved to.
  pub connect : S → Bytes → Bytes → W → Io × W
  -- `SSL_set_tlsext_host_name`
  pub set_host_name : S → Bytes → W → Bool × W
  pub handshake : S → W → Io × W
  pub write : S → Message → W → Io × W
  pub read : S → W → (Io × Reply) × W
  -- `async_write` of bytes and `async_read` of what has come, as raw sockets and WebSockets do.
  pub send : S → Bytes → W → Io × W
  pub receive : S → W → (Io × Bytes) × W
  -- The handshake of a WebSocket, with a host and a target.
  pub upgrade : S → Bytes → Bytes → W → Io × W
  -- `async_shutdown` of TLS.
  pub shutdown : S → W → W
  -- `socket().shutdown`, and `close` where it is called.
  pub close : S → W → W
  pub set_non_blocking : S → W → Io × W
  -- `receive` of one byte with `message_peek`.
  pub peek : S → W → Io × W
  pub now : W → ℕ × W
  pub sleep : ℕ → W → W

-- A call that fails with an error of the program, or gives a value.
abbrev pub Exchange : Type 0 → Type 0 → Type 0
Exchange W A = W → Result A Err × W

infixl 5 ◌>>=◌ ◌>>◌
unfoldable pub ◌>>=◌ : {W A B : Type 0} → Exchange W A → (A → Exchange W B) → Exchange W B
◌>>=◌ m f w = let (r, w') = m w in elim r [ ok a ↦ f a w' | err e ↦ (err e, w') ]

abbrev pub ◌>>◌ : {W B : Type 0} → Exchange W (Unit {0}) → Exchange W B → Exchange W B
m >> k = m >>= λ _. k

abbrev pub pure : {W A : Type 0} → A → Exchange W A
pure a w = (ok a, w)

abbrev pub fail : {W A : Type 0} → Err → Exchange W A
fail e w = (err e, w)

-- A call whose outcome is an error, none for success.
unfoldable pub check : {W : Type 0} → (Io → Option Err) → (W → Io × W) → Exchange W (Unit {0})
check f call w = let (ec, w') = call w in elim (f ec) [ none ↦ (ok tt, w') | some e ↦ (err e, w') ]

-- A call that cannot fail.
abbrev pub perform : {W : Type 0} → (W → W) → Exchange W (Unit {0})
perform call w = (ok tt, call w)

-- `if (ec)`
abbrev pub any_error : Err → Io → Option Err
any_error e done = none
any_error e timeout = some e
any_error e timed_out = some e
any_error e end_of_stream = some e
any_error e host_not_found = some e
any_error e would_block = some e
any_error e try_again = some e
any_error e failed = some e
