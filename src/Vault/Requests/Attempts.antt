-- ===== src/Vault/Requests/Attempts.antt =====
-- core/vault/vault_client.cpp, `do_request`: how often a request is sent, and what can come back.
use cppload_workflow.Prelude.{
  ℕ, zero, suc, ◌+◌, ◌*◌, ◌^◌, ◌≤◌, ◌≡◌, sym, inl, inr, Bool, false, arith, ◌==◌, Bytes, Dict, ok,
  Bool-cases, Option-cases, Result-cases, ok-injective,
}
use cppload_workflow.Core.Errors.{dns_failure, write_error, tls_handshake_failed}
use cppload_workflow.Net.Network.{Message, Reply, Network, Exchange, check, any_error}
use cppload_workflow.Net.Network.Writes.{
  counted, Within, >>=-Within, check-aside-Within, check_write-Within, perform-Within,
}
use cppload_workflow.Security.Post.{connect_error, receive_error}
use cppload_workflow.Vault.Requests.{
  build_request, closing, receive, name_host, request_tls, request_plain, do_request_once, attempts,
  do_request,
}

-- A reply that says to wait never comes back.
pub attempts-not_429 :
    {W S : Type 0} (N : Network W S) (left attempt : ℕ) (once : Exchange W Reply) (w : W)
    (res : Reply)
    → (attempts N left attempt once w).0 ≡ ok res
    → (res.status == 429) ≡ false
unfolding attempts
attempts-not_429 N zero attempt once w res e = cc
attempts-not_429 N (suc left) attempt once w res e = elim (Result-cases (once w).0) [
  | inl (x, f) ↦ let g = rw (f, attempts) at e in cc
  | inr (r, f) ↦ elim (Bool-cases (r.status == 429)) [
    | inl t ↦ attempts-not_429 N left (attempt + 1) once _ res (rw (f, attempts, t) at e)
    | inr t ↦ let g = rw (f, attempts, t) at e in rw (sym (ok-injective r res g)) t
  ]
]

module _ {W S : Type 0} (N : Network W S) where
  receive-Within : (s : S) → Within 0 (receive (counted N) s)
  unfolding receive counted
  receive-Within s w n = elim (Option-cases (receive_error (N.read s w).0.0)) [
    | inl e ↦ rw (e, receive) (omega arith)
    | inr (x, e) ↦ rw (e, receive) (omega arith)
  ]

  name_host-Within : (s : S) (host : Bytes) → Within 0 (name_host (counted N) s host)
  unfolding name_host counted
  name_host-Within s host w n = omega arith

  connect-Within :
      (s : S) (host port : Bytes) → Within 0 (check connect_error ((counted N).connect s host port))
  unfolding counted
  connect-Within s host port = check-aside-Within connect_error (N.connect s host port)

  closing-Within :
      {A : Type 0} (k : ℕ) (s : S) (m : Exchange (W × ℕ) A)
      → Within k m
      → Within k (closing (counted N) s m)
  unfolding closing counted
  closing-Within k s m h w n = elim (Result-cases (m (w, n)).0) [
    | inl (x, e) ↦ rw (e, closing) (h w n)
    | inr (r, e) ↦ rw (e, closing) (h w n)
  ]

  request_plain-Within :
      (host port : Bytes) (req : Message) (s : S)
      → Within 1 (request_plain (counted N) host port req s)
  unfolding request_plain counted
  request_plain-Within host port req s =
      let write = check_write-Within (any_error write_error) N s req in
      >>=-Within 1 0 _ _
        (>>=-Within 1 0 _ _ (>>=-Within 0 1 _ _ (connect-Within s host port) (λ _. write))
          (λ _. receive-Within s))
        (λ res. perform-Within (N.close s) res)

  request_tls-Within :
      (host port : Bytes) (req : Message) (s : S)
      → Within 1 (request_tls (counted N) host port req s)
  unfolding request_tls counted
  request_tls-Within host port req s =
      let write = check_write-Within (any_error write_error) N s req in
      let greet = check-aside-Within (any_error tls_handshake_failed) (N.handshake s) in
      let connect =
        >>=-Within 0 0 _ _ (name_host-Within s host) (λ _. connect-Within s host port) in
      >>=-Within 1 0 _ _
        (closing-Within 1 s _ (
          >>=-Within 1 0 _ _
            (>>=-Within 0 1 _ _ (>>=-Within 0 0 _ _ connect (λ _. greet)) (λ _. write))
            (λ _. receive-Within s)))
        (λ res. perform-Within (λ w. N.close s (N.shutdown s w)) res)

  do_request_once-Within :
      (method host port target body : Bytes) (headers : Dict Bytes) (use_tls : Bool)
      → Within 1 (do_request_once (counted N) method host port target body headers use_tls)
  unfolding do_request_once counted
  do_request_once-Within method host port target body headers use_tls =
      let find = check-aside-Within (any_error dns_failure) (N.resolve host port) in
      let req = build_request method host target body headers in
      >>=-Within 0 1 _ _ find (λ _ w n. elim (Bool-cases use_tls) [
        | inl e ↦ rw e (request_tls-Within host port req _ _ n)
        | inr e ↦ rw e (request_plain-Within host port req _ _ n)
      ])

  pub attempts-Within :
      (left attempt : ℕ) (once : Exchange (W × ℕ) Reply)
      → Within 1 once
      → Within left (attempts (counted N) left attempt once)
  unfolding attempts counted
  attempts-Within zero attempt once h w n = omega arith
  attempts-Within (suc left) attempt once h w n =
      let first = h w n in
      let rest = λ (v : W). attempts-Within left (attempt + 1) once h v (once (w, n)).1.1 in
      elim (Result-cases (once (w, n)).0) [
        | inl (x, e) ↦ rw (e, attempts) (omega (arith, first))
        | inr (r, e) ↦ elim (Bool-cases (r.status == 429)) [
          | inr f ↦ rw (e, attempts, f) (omega (arith, first))
          | inl f ↦ elim (Bool-cases (left == 0)) [
            | inl z ↦
                let more = rest (once (w, n)).1.0 in
                rw (e, attempts, f, z) (omega (arith, first, more))
            | inr z ↦
                let more = rest (N.sleep (100 * 2 ^ attempt) (once (w, n)).1.0) in
                rw (e, attempts, f, z) (omega (arith, first, more))
          ]
        ]
      ]

-- Over any network, a request to the server is sent three times at most, and what comes back as a response
-- never has the status 429.
pub do_request_bounded :
    {W S : Type 0} (N : Network W S) (method host port target body : Bytes) (headers : Dict Bytes)
    (use_tls : Bool) (w : W) (n : ℕ)
    → let (r, (_, m)) =
        do_request (counted N) method host port target body headers use_tls (w, n) in
      (m ≤ n + 3) × ((res : Reply) → r ≡ ok res → (res.status == 429) ≡ false)
unfolding do_request
do_request_bounded N method host port target body headers use_tls w n =
    let once = do_request_once (counted N) method host port target body headers use_tls in
    let each = do_request_once-Within N method host port target body headers use_tls in
    (attempts-Within N 3 0 once each w n, λ res. attempts-not_429 (counted N) 3 0 once (w, n) res)
