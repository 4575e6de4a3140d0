-- ===== src/Security/Auth/Refresh.antt =====
-- core/security/auth_provider.cpp: what a refresh leaves of the token, and how often it is asked for.
use cppload_workflow.Prelude.{
  ℕ, ◌+◌, ◌≤◌, ◌≡◌, refl, ◌⊎◌, inl, inr, Bool, true, false, arith, leb, Bytes, Dict, bytes,
  is_empty, Result, ok, err, Signed, nonneg, negative, Bool-cases, Option-cases, Result-cases,
}
use cppload_workflow.Prelude.Json.{Json, JsonException}
use cppload_workflow.Core.Url.{parse_url}
use cppload_workflow.Core.Errors.{
  Err, auth_invalid_grant, auth_parse_error, dns_failure, write_error, tls_handshake_failed,
}
use cppload_workflow.Net.Network.{Network, Reply, Message, check, any_error}
use cppload_workflow.Net.Network.Writes.{
  counted, Within, >>=-Within, check-aside-Within, check_write-Within, perform-Within,
}
use cppload_workflow.Security.Post.{
  connect_error, receive_error, receive, name_host, send_receive, send_receive_tls, with_stream,
  do_sync_post, post_message,
}
use cppload_workflow.Security.Auth.{
  Auth, AuthType, no_auth, api_key, bearer_token, oauth2, mtls, second, lifetime, status_error,
  store_expiry, store_token, read_token, read_reply, fetch_token, get_token, apply_headers,
  grant_body, is_expired,
}

AuthType-cases :
    (t : AuthType) → (t ≡ oauth2) ⊎ (t ≡ no_auth) ⊎ (t ≡ api_key) ⊎ (t ≡ bearer_token) ⊎ (t ≡ mtls)
AuthType-cases no_auth = inr (inl refl)
AuthType-cases api_key = inr (inr (inl refl))
AuthType-cases bearer_token = inr (inr (inr (inl refl)))
AuthType-cases oauth2 = inl refl
AuthType-cases mtls = inr (inr (inr (inr refl)))

lifetime_positive : (e : Signed) → 1 ≤ lifetime e
unfolding lifetime
lifetime_positive (nonneg n) = omega arith
lifetime_positive negative = omega arith

module _ {W S J : Type 0} (N : Network W S) (L : Json J) where
  -- The token of a refresh that worked is not empty and lasts a second at least from a reading of the clock;
  -- one that failed left all as it was, unless the answer could not be read.
  unfoldable pub Refreshed : Auth → (Result Bool Err × Auth) × W → Type 0
  Refreshed a ((r, a'), w') =
      ((r ≡ ok true)
        × (is_empty a'.current_token ≡ false)
        × ((v : W) × ((N.now v).1 ≡ w') × ((N.now v).0 + second ≤ a'.token_expiry)))
      ⊎ ((e : Err) × (r ≡ err e) × ((a' ≡ a) ⊎ (e ≡ auth_parse_error)))

  store_expiry_lem :
      (b a : Auth) (r : Result Signed JsonException) (w : W)
      → is_empty a.current_token ≡ false
      → Refreshed b (store_expiry N L a r w)
  unfolding store_expiry Refreshed
  store_expiry_lem b a (err e) w t = inr (auth_parse_error, refl, inr refl)
  store_expiry_lem b a (ok s) w t =
      let h = lifetime_positive s in inl (refl, t, (w, refl, omega (arith, h)))

  store_token_lem :
      (a : Auth) (j : J) (r : Result Bytes JsonException) (w : W)
      → Refreshed a (store_token N L a j r w)
  unfolding store_token Refreshed
  store_token_lem a j (err e) w = inr (auth_parse_error, refl, inr refl)
  store_token_lem a j (ok token) w = elim (Bool-cases (is_empty token)) [
    | inl e ↦ rw e (inr (auth_invalid_grant, refl, inl refl))
    | inr e ↦ rw e (store_expiry_lem a (record a { current_token = token }) _ w e)
  ]

  read_token_lem : (a : Auth) (body : Bytes) (w : W) → Refreshed a (read_token N L a body w)
  unfolding read_token Refreshed
  read_token_lem a body w = elim (Result-cases (L.parse body)) [
    | inl (x, e) ↦ rw (e, read_token) (inr (auth_parse_error, refl, inr refl))
    | inr (j, e) ↦ rw (e, read_token) (store_token_lem a j (L.value j (bytes "access_token")) w)
  ]

  read_reply_lem : (a : Auth) (r : Result Reply Err) (w : W) → Refreshed a (read_reply N L a r w)
  unfolding read_reply Refreshed
  read_reply_lem a (err e) w = inr (e, refl, inl refl)
  read_reply_lem a (ok res) w = elim (Option-cases (status_error res.status)) [
    | inl e ↦ rw (e, read_reply) (read_token_lem a res.body w)
    | inr (x, e) ↦ rw (e, read_reply) (inr (x, refl, inl refl))
  ]

  -- A fetch of the token succeeds with a token that is not empty and an expiry a second or more after a
  -- reading of the clock, or it fails; a failure other than a parse error leaves the provider as it was.
  -- This holds for any network and any JSON library.
  pub fetch_token-Refreshed : (a : Auth) (w : W) → Refreshed a (fetch_token N L a w)
  unfolding fetch_token
  fetch_token-Refreshed a w =
      let url = parse_url a.config.token_endpoint in
      let x =
        do_sync_post N url.host url.port url.path (grant_body a.config)
          (bytes "application/x-www-form-urlencoded") url.tls w in
      read_reply_lem a x.0 x.1

module _ {W S : Type 0} (N : Network W S) where
  receive-Within : (s : S) → Within 0 (receive (counted N) s)
  unfolding receive counted
  receive-Within s w n = elim (Option-cases (receive_error (N.read s w).0.0)) [
    | inl e ↦ rw (e, receive) (omega arith)
    | inr (x, e) ↦ rw (e, receive) (omega arith)
  ]

  name_host-Within : (s : S) (host : Bytes) → Within 0 (name_host (counted N) s host)
  unfolding name_host counted
  name_host-Within s host w n = omega arith

  connect-Within :
      (s : S) (host port : Bytes) → Within 0 (check connect_error ((counted N).connect s host port))
  unfolding counted
  connect-Within s host port = check-aside-Within connect_error (N.connect s host port)

  send_receive-Within :
      (host port : Bytes) (req : Message) (s : S)
      → Within 1 (send_receive (counted N) host port req s)
  unfolding send_receive counted
  send_receive-Within host port req s =
      let write = check_write-Within (any_error write_error) N s req in
      >>=-Within 1 0 _ _
        (>>=-Within 1 0 _ _ (>>=-Within 0 1 _ _ (connect-Within s host port) (λ _. write))
          (λ _. receive-Within s))
        (λ res. perform-Within (N.close s) res)

  send_receive_tls-Within :
      (host port : Bytes) (req : Message) (s : S)
      → Within 1 (send_receive_tls (counted N) host port req s)
  unfolding send_receive_tls counted
  send_receive_tls-Within host port req s =
      let write = check_write-Within (any_error write_error) N s req in
      let greet = check-aside-Within (any_error tls_handshake_failed) (N.handshake s) in
      let connect =
        >>=-Within 0 0 _ _ (name_host-Within s host) (λ _. connect-Within s host port) in
      >>=-Within 1 0 _ _
        (>>=-Within 1 0 _ _
          (>>=-Within 0 1 _ _ (>>=-Within 0 0 _ _ connect (λ _. greet)) (λ _. write))
          (λ _. receive-Within s))
        (λ res. perform-Within (N.shutdown s) res)

  -- Each exchange writes its request once at most.
  pub do_sync_post-Within :
      (host port target body content_type : Bytes) (use_tls : Bool)
      → Within 1 (do_sync_post (counted N) host port target body content_type use_tls)
  unfolding do_sync_post with_stream counted
  do_sync_post-Within host port target body content_type use_tls =
      let find = check-aside-Within (any_error dns_failure) (N.resolve host port) in
      let req = post_message host target body content_type in
      >>=-Within 0 1 _ _ find (λ _ w n. elim (Bool-cases use_tls) [
        | inl e ↦ rw e (send_receive_tls-Within host port req _ _ n)
        | inr e ↦ rw e (send_receive-Within host port req _ _ n)
      ])

module _ {W S J : Type 0} (N : Network W S) (L : Json J) where
  store_expiry-writes :
      (a : Auth) (r : Result Signed JsonException) (w : W) (n : ℕ)
      → (store_expiry (counted N) L a r (w, n)).1.1 ≡ n
  unfolding store_expiry counted
  store_expiry-writes a (err e) w n = refl
  store_expiry-writes a (ok s) w n = refl

  store_token-writes :
      (a : Auth) (j : J) (r : Result Bytes JsonException) (w : W) (n : ℕ)
      → (store_token (counted N) L a j r (w, n)).1.1 ≡ n
  unfolding store_token
  store_token-writes a j (err e) w n = refl
  store_token-writes a j (ok token) w n = elim (Bool-cases (is_empty token)) [
    | inl e ↦ rw e refl
    | inr e ↦ rw e (store_expiry-writes (record a { current_token = token }) _ w n)
  ]

  read_reply-writes :
      (a : Auth) (r : Result Reply Err) (w : W) (n : ℕ)
      → (read_reply (counted N) L a r (w, n)).1.1 ≡ n
  unfolding read_reply read_token
  read_reply-writes a (err e) w n = refl
  read_reply-writes a (ok res) w n = elim (Option-cases (status_error res.status)) [
    | inr (x, e) ↦ rw (e, read_reply) refl
    | inl e ↦
        rw (e, read_reply)
          (elim (Result-cases (L.parse res.body)) [
            | inl (x, f) ↦ rw (f, read_token) refl
            | inr (j, f) ↦ rw (f, read_token) (store_token-writes a j _ w n)
          ])
  ]

  fetch_token-writes : (a : Auth) (w : W) (n : ℕ) → (fetch_token (counted N) L a (w, n)).1.1 ≤ n + 1
  unfolding fetch_token
  fetch_token-writes a w n =
      let url = parse_url a.config.token_endpoint in
      let form = bytes "application/x-www-form-urlencoded" in
      let x =
        do_sync_post (counted N) url.host url.port url.path (grant_body a.config) form url.tls
          (w, n) in
      let h =
        do_sync_post-Within N url.host url.port url.path (grant_body a.config) form url.tls w n in
      let e = read_reply-writes a x.0 x.1.0 x.1.1 in omega (arith, h, e)

  get_token-writes : (a : Auth) (w : W) (n : ℕ) → (get_token (counted N) L a (w, n)).1.1 ≤ n + 1
  unfolding get_token counted
  get_token-writes a w n = elim (Bool-cases (leb a.token_expiry (N.now w).0)) [
    | inl e ↦ rw e (fetch_token-writes a (N.now w).1 n)
    | inr e ↦ rw e (omega arith)
  ]

  -- Whatever the kind of authentication and the state of the token, to add the headers of a request sends
  -- one request for a token at most.
  pub apply_headers_once :
      (a : Auth) (headers : Dict Bytes) (w : W) (n : ℕ)
      → (apply_headers (counted N) L a headers (w, n)).1.1 ≤ n + 1
  unfolding apply_headers
  apply_headers_once a headers w n = elim (AuthType-cases a.config.auth_type) [
    | inl e ↦
        rw (e, apply_headers)
          (elim (Bool-cases (is_empty (get_token (counted N) L a (w, n)).0.0)) [
            | inl f ↦ rw f (get_token-writes a w n)
            | inr f ↦ rw f (get_token-writes a w n)
          ])
    | inr (inl e) ↦ rw (e, apply_headers) (omega arith)
    | inr (inr (inl e)) ↦ rw (e, apply_headers) (omega arith)
    | inr (inr (inr (inl e))) ↦ rw (e, apply_headers) (omega arith)
    | inr (inr (inr (inr e))) ↦ rw (e, apply_headers) (omega arith)
  ]

  -- Where the provider says that it is not expired, adding the headers at that moment sends no request and
  -- leaves the token and its expiry as they were.
  pub apply_headers_unexpired :
      (a : Auth) (headers : Dict Bytes) (w : W) (n : ℕ)
      → (is_expired (counted N) L a (w, n)).0 ≡ false
      → let ((_, a'), (_, m)) = apply_headers (counted N) L a headers (w, n) in
        (a'.current_token ≡ a.current_token) × (a'.token_expiry ≡ a.token_expiry) × (m ≡ n)
  unfolding apply_headers is_expired get_token counted
  apply_headers_unexpired a headers w n h = elim (AuthType-cases a.config.auth_type) [
    | inl e ↦ elim (Bool-cases (leb a.token_expiry (N.now w).0)) [
      | inl f ↦ let g = rw (e, is_expired, f) at h in cc
      | inr f ↦
          rw (e, apply_headers, f)
            (elim (Bool-cases (is_empty a.current_token)) [
              | inl g ↦ rw g (refl, refl, refl)
              | inr g ↦ rw g (refl, refl, refl)
            ])
    ]
    | inr (inl e) ↦ rw (e, apply_headers) (refl, refl, refl)
    | inr (inr (inl e)) ↦ rw (e, apply_headers) (refl, refl, refl)
    | inr (inr (inr (inl e))) ↦ rw (e, apply_headers) (refl, refl, refl)
    | inr (inr (inr (inr e))) ↦ rw (e, apply_headers) (refl, refl, refl)
  ]
