-- ===== src/Metrics/Embedded/Bounds.antt =====
-- core/metrics/prometheus_exporter_embedded.cpp: the port and the connections.
use cppload_workflow.Prelude.{
  ℕ, suc, ◌+◌, ◌^◌, ◌≤◌, ◌≡◌, refl, Bool, true, false, not, ◌&&◌, Option, none, some, arith, ltb,
  leb, if◌then◌else◌, take, drop, Bytes, is_empty, read_digits,
}
use cppload_workflow.Metrics.Embedded.{
  BindAddress, rfind, all_digits, port_of, bind_of, bind_at, parse_bind_address, Exporter, accepted,
}

abbrev pub IsPort : Option ℕ → Type 0
IsPort none = Unit
IsPort (some p) = (1 ≤ p) × (p ≤ 65535)

abbrev pub HasPort : Option BindAddress → Type 0
HasPort none = Unit
HasPort (some b) = (1 ≤ b.port) × (b.port ≤ 65535)

if-IsPort :
    (b : Bool) (x y : Option ℕ)
    → (b ≡ true → IsPort x)
    → (b ≡ false → IsPort y)
    → IsPort (if b then x else y)
if-IsPort true x y f g = f refl
if-IsPort false x y f g = g refl

port_bounds : (n : ℕ) → (ltb 0 n && leb n 65535) ≡ true → (1 ≤ n) × (n ≤ 65535)
port_bounds n h = ground arith

port_of-IsPort : (s : Bytes) → IsPort (port_of s)
unfolding port_of
port_of-IsPort s =
    let n = read_digits 0 s in
    let in_range = ltb 0 n && leb n 65535 in
    let kept = if in_range then some n else some 9090 in
    if-IsPort (not (is_empty s) && all_digits s) (if leb (2 ^ 64) n then none else kept) (some 9090)
      (λ _.
        if-IsPort (leb (2 ^ 64) n) none kept (λ _. tt)
          (λ _.
            if-IsPort in_range (some n) (some 9090) (port_bounds n)
              (λ _. (omega arith, omega arith))))
      (λ _. (omega arith, omega arith))

bind_of-HasPort : (host : Bytes) (p : Option ℕ) → IsPort p → HasPort (bind_of host p)
bind_of-HasPort host none h = tt
bind_of-HasPort host (some p) h = h

bind_at-HasPort : (address : Bytes) (colon : Option ℕ) → HasPort (bind_at address colon)
bind_at-HasPort address none = (omega arith, omega arith)
bind_at-HasPort address (some colon) =
    bind_of-HasPort (take colon address) (port_of (drop (suc colon) address))
      (port_of-IsPort (drop (suc colon) address))

-- Whatever the address, the port that it gives is one from 1 to 65535.
parse_bind_address-HasPort : (address : Bytes) → HasPort (parse_bind_address address)
unfolding parse_bind_address
parse_bind_address-HasPort address = bind_at-HasPort address (rfind b':' address)

one_more : (n : ℕ) → leb 100 n ≡ false → n + 1 ≤ 100
one_more n h = ground arith

module _ {F : Type 0} where
  if-active :
      (b : Bool) (x y : Exporter F × Bool)
      → (b ≡ true → x.0.active_connections ≤ 100)
      → (b ≡ false → y.0.active_connections ≤ 100)
      → (if b then x else y).0.active_connections ≤ 100
  if-active true x y f g = f refl
  if-active false x y f g = g refl

  -- No more than a hundred connections are served at once.
  accepted-bound :
      (e : Exporter F) → e.active_connections ≤ 100 → (accepted e).0.active_connections ≤ 100
  unfolding accepted
  accepted-bound e h =
      let more : Exporter F = record e { active_connections = e.active_connections + 1 } in
      if-active (leb 100 e.active_connections) (e, false) (more, true) (λ _. h)
        (λ k. one_more e.active_connections k)
