-- ===== src/Net/Network/Writes.antt =====
-- The requests that a client sends, counted: a network that numbers its calls of `write`.
use cppload_workflow.Prelude.{
  ℕ, suc, ◌+◌, ◌≤◌, arith, Option, Result, Result-cases, Option-cases, inl, inr,
}
use cppload_workflow.Core.Errors.{Err}
use cppload_workflow.Net.Network.{Io, Message, Network, Exchange, ◌>>=◌, ◌>>◌, check, perform, pure}

abbrev pub aside : {W A : Type 0} → (W → A × W) → W × ℕ → A × (W × ℕ)
aside call (w, n) = let (a, w') = call w in (a, (w', n))

-- The same network beside a counter of its writes.
unfoldable pub counted : {W S : Type 0} → Network W S → Network (W × ℕ) S
counted N = record {
  resolve = λ host port. aside (N.resolve host port);
  create_stream = λ tls. aside (N.create_stream tls);
  connect = λ s host port. aside (N.connect s host port);
  set_host_name = λ s host. aside (N.set_host_name s host);
  handshake = λ s. aside (N.handshake s);
  write = λ s m (w, n). let (ec, w') = N.write s m w in (ec, (w', suc n));
  read = λ s. aside (N.read s);
  send = λ s body (w, n). let (ec, w') = N.send s body w in (ec, (w', suc n));
  receive = λ s. aside (N.receive s);
  upgrade = λ s host target. aside (N.upgrade s host target);
  shutdown = λ s (w, n). (N.shutdown s w, n);
  close = λ s (w, n). (N.close s w, n);
  set_non_blocking = λ s. aside (N.set_non_blocking s);
  peek = λ s. aside (N.peek s);
  now = aside N.now;
  sleep = λ t (w, n). (N.sleep t w, n);
}

-- At most `k` writes happen in an exchange over a counted network.
abbrev pub Within : {W A : Type 0} → ℕ → Exchange (W × ℕ) A → Type 0
Within k m = (w : _) (n : ℕ) → (m (w, n)).1.1 ≤ n + k

pub >>=-Within :
    {W A B : Type 0}
    → (j k : ℕ) (m : Exchange (W × ℕ) A) (f : A → Exchange (W × ℕ) B) → Within j m
    → ((a : A) → Within k (f a))
    → Within (j + k) (m >>= f)
unfolding ◌>>=◌
>>=-Within j k m f h g w n =
    let before = h w n in
    elim (Result-cases (m (w, n)).0) [
      | inl (e, p) ↦ rw (p, ◌>>=◌) (omega (arith, before))
      | inr (a, p) ↦
          let after = g a (m (w, n)).1.0 (m (w, n)).1.1 in
          rw (p, ◌>>=◌) (omega (arith, before, after))
    ]

pub pure-Within : {W A : Type 0} (r : Result A Err) (k : ℕ) → Within {W = W} k (λ v. (r, v))
pure-Within r k w n = omega arith

-- A call beside the counter is no write.
pub check-aside-Within :
    {W : Type 0} (f : Io → Option Err) (call : W → Io × W) → Within 0 (check f (aside call))
unfolding check
check-aside-Within f call w n = elim (Option-cases (f (call w).0)) [
  | inl e ↦ rw (e, check) (omega arith)
  | inr (x, e) ↦ rw (e, check) (omega arith)
]

pub check_write-Within :
    {W S : Type 0} (f : Io → Option Err) (N : Network W S) (s : S) (m : Message)
    → Within 1 (check f ((counted N).write s m))
unfolding check counted
check_write-Within f N s m w n = elim (Option-cases (f (N.write s m w).0)) [
  | inl e ↦ rw (e, check) (omega arith)
  | inr (x, e) ↦ rw (e, check) (omega arith)
]

pub perform-Within :
    {W A : Type 0} (call : W → W) (a : A)
    → Within 0 (perform {W = W × ℕ} (λ (w, n). (call w, n)) >> pure a)
unfolding ◌>>=◌
perform-Within call a w n = omega arith
