-- ===== src/Vault/Client/Paths.antt =====
-- core/vault/vault_client.cpp: the paths of the requests to the server.
use cppload_workflow.Prelude.{
  ℕ, ◌≡◌, refl, false, List, [], ◌∷◌, ◌++◌, ◌==◌, Bytes, bytes, All, All-append, Bool-cases, inl,
  inr,
}
use mathlib.Core.List.{append_assoc}
use cppload_workflow.Core.Url.{is_dots}
use cppload_workflow.Core.Url.Segments.{segments, on_head, segments-cons}
use cppload_workflow.Core.Url.Sanitize.{sanitize_path_safe}
use cppload_workflow.Vault.Client.{VaultConfig, secret_path, creds_path, sanitized}

-- No segment of the path is `.` or `..`.
abbrev pub IsClean : Bytes → Type 0
IsClean path = All (λ seg. is_dots seg ≡ false) (segments path)

abbrev slash : ℕ
slash = b'/'

on_head-append :
    (c : ℕ) (h : Bytes) (t r : List Bytes) → on_head c ((h ∷ t) ++ r) ≡ on_head c (h ∷ t) ++ r
on_head-append c h t r = refl

segments-append : (s r : Bytes) → segments (s ++ (slash ∷ r)) ≡ segments s ++ segments r
unfolding segments
segments-append [] r = refl
segments-append (c ∷ s) r =
    let (h, t, p) = segments-cons s in
    elim (Bool-cases (c == slash)) [
      | inl e ↦ rw (e, segments-append s r) refl
      | inr e ↦ rw (e, segments-append s r, p) refl
    ]

join-IsClean : (s r : Bytes) → IsClean s → IsClean r → IsClean (s ++ (slash ∷ r))
join-IsClean s r a b =
    rw (segments-append s r) (All-append (λ seg. is_dots seg ≡ false) (segments s) (segments r) a b)

sanitized-IsClean : (path : Bytes) → IsClean (sanitized path)
sanitized-IsClean path =
    let (q, e, clean, _, _) = sanitize_path_safe path in rw (e, sanitized) clean

prefix-IsClean : IsClean (bytes "/v1")
unfolding segments is_dots bytes
prefix-IsClean = (refl, (refl, tt))

data-IsClean : IsClean (bytes "data")
unfolding segments is_dots bytes
data-IsClean = (refl, tt)

creds-IsClean : IsClean (bytes "/v1/database/creds")
unfolding segments is_dots bytes
creds-IsClean = (refl, (refl, (refl, (refl, tt))))

-- Whatever the engine path, the path of the secret and the name of the role, the targets of the requests
-- for secrets and for database credentials have no segment that is `.` or `..`.
pub secret_path-IsClean :
    (c : VaultConfig) (path role_name : Bytes)
    → IsClean (secret_path c path) × IsClean (creds_path role_name)
unfolding secret_path creds_path bytes
secret_path-IsClean c path role_name =
    let tail = join-IsClean (bytes "data") (sanitized path) data-IsClean (sanitized-IsClean path) in
    let whole_path =
      join-IsClean (bytes "/v1") _ prefix-IsClean
        (join-IsClean (sanitized c.engine_path) _ (sanitized-IsClean c.engine_path) tail) in
    (
      rw (append_assoc (sanitized c.engine_path) (bytes "/data/") (sanitized path)) whole_path,
      join-IsClean (bytes "/v1/database/creds") (sanitized role_name) creds-IsClean
          (sanitized-IsClean role_name),
    )
