-- ===== src/Net/Settled.antt =====
-- core/net/tcp_raw_client.cpp and ws_client.cpp: what the handler of a request gets.
use cppload_workflow.Prelude.{
  ℕ, ◌≤◌, ◌≡◌, refl, ◌⊎◌, inr, Bool, true, false, some, none, [], if◌then◌else◌,
}
use cppload_workflow.Core.Errors.{Err}
use cppload_workflow.Net.Protocol.{Response, failure}

-- An answer, whose status is 1, or an error without one.
abbrev pub IsSettled : Response → Type 0
IsSettled r =
    ((r.ec ≡ none) × (r.status_code ≡ 1))
    ⊎ ((e : Err) × (r.ec ≡ some e) × (r.status_code ≡ 0) × (r.body ≡ []))

-- It is settled, and there were at most `k` writes.
abbrev pub Settles : {W : Type 0} → ℕ → Response × (W × ℕ) → Type 0
Settles k (r, (_, m)) = IsSettled r × (m ≤ k)

pub failure-Settles :
    {W : Type 0} (e : Err) (w : W) (n k : ℕ) → n ≤ k → Settles k (failure e, (w, n))
failure-Settles e w n k h = (inr (e, refl, refl, refl), h)

pub if-Settles :
    {W : Type 0} (k : ℕ) (t : Bool) (x y : Response × (W × ℕ))
    → Settles k x
    → Settles k y
    → Settles k (if t then x else y)
if-Settles k true x y h h' = h
if-Settles k false x y h h' = h'
