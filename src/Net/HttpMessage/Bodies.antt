-- ===== src/Net/HttpMessage/Bodies.antt =====
-- core/net/http_client.cpp, `populate_response`: how much of a body is kept.
use cppload_workflow.Prelude.{
  ℕ, zero, suc, ◌-◌, ◌/◌, ◌≤◌, ◌≡◌, refl, ap, inl, inr, ◌⊎◌, none, some, [], ◌∷◌, arith, ltb,
  length, take, Bytes, Bool-cases,
}
use cppload_workflow.Core.Errors.{read_error}
use cppload_workflow.Net.Network.{
  Io, done, timeout, timed_out, end_of_stream, host_not_found, would_block, try_again, failed,
  Reply,
}
use cppload_workflow.Net.Protocol.{Response}
use cppload_workflow.Net.HttpMessage.{body_cap, copy_capped, populate_response}

take_all : (n : ℕ) (s : Bytes) → length s ≤ n → take n s ≡ s
take_all zero [] h = refl
take_all zero (c ∷ s) h = ground arith
take_all (suc n) [] h = refl
take_all (suc n) (c ∷ s) h = ap (◌∷◌ c) (take_all n s (omega (arith, h)))

length-take : (n : ℕ) (s : Bytes) → length (take n s) ≤ n
length-take zero s = omega arith
length-take (suc n) [] = omega arith
length-take (suc n) (c ∷ s) = omega (arith, length-take n s)

copy_capped-body :
    (cap : ℕ) (res : Reply) (latency : ℕ) → (copy_capped cap res latency).body ≡ take cap res.body
unfolding copy_capped
copy_capped-body cap res latency = elim (Bool-cases (ltb cap (length res.body))) [
  | inl e ↦ rw e refl
  | inr e ↦ rw (e, take_all cap res.body (ground arith)) refl
]

-- A response that was read, with as much of the body as is kept, or an error and no body.
abbrev pub IsCapped : ℕ → Reply → Response → Type 0
IsCapped cap res r =
    ((r.ec ≡ none) × (r.body ≡ take cap res.body) × (r.body_truncated ≡ ltb cap (length res.body)))
    ⊎ ((r.ec ≡ some read_error) × (r.body ≡ []) × (r.status_code ≡ 0))

populate_response-IsCapped :
    (max_body_bytes : ℕ) (ec : Io) (res : Reply) (start_time end_time : ℕ)
    → IsCapped
        (body_cap max_body_bytes)
        res
        (populate_response max_body_bytes ec res start_time end_time)
unfolding populate_response copy_capped
populate_response-IsCapped m done res s e =
    inl (refl, copy_capped-body (body_cap m) res ((e - s) / 1000), refl)
populate_response-IsCapped m end_of_stream res s e =
    inl (refl, copy_capped-body (body_cap m) res ((e - s) / 1000), refl)
populate_response-IsCapped m timeout res s e = inr (refl, refl, refl)
populate_response-IsCapped m timed_out res s e = inr (refl, refl, refl)
populate_response-IsCapped m host_not_found res s e = inr (refl, refl, refl)
populate_response-IsCapped m would_block res s e = inr (refl, refl, refl)
populate_response-IsCapped m try_again res s e = inr (refl, refl, refl)
populate_response-IsCapped m failed res s e = inr (refl, refl, refl)

-- Whatever was read, the body that is kept is no longer than the limit of the client (its default for 0);
-- it is the start of the body that was read, and marked as truncated just where that was longer, or else
-- there is a read error with the status 0 and no body.
pub populate_response-length :
    (max_body_bytes : ℕ) (ec : Io) (res : Reply) (start_time end_time : ℕ)
    → let r = populate_response max_body_bytes ec res start_time end_time in
      (length r.body ≤ body_cap max_body_bytes) × IsCapped (body_cap max_body_bytes) res r
populate_response-length m ec res s e =
    let h = populate_response-IsCapped m ec res s e in
    (
      elim h [
        | inl (_, b, _) ↦ rw b (length-take (body_cap m) res.body)
        | inr (_, b, _) ↦ rw b (omega arith)
      ],
      h,
    )
