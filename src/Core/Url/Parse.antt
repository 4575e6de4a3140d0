-- ===== src/Core/Url/Parse.antt =====
-- include/cppload/core/url_parse.hpp, `parse_url`: it reads back what a URL is put together from.
use cppload_workflow.Prelude.{
  ℕ, zero, suc, ◌+◌, ◌-◌, ◌≡◌, refl, sym, ap, ◌∙◌, Bool, true, false, Option, none, some, [], ◌∷◌,
  ◌++◌, arith, ◌==◌, if◌then◌else◌, length, Bytes, bytes, eqb, find, starts_with, drop, take-append,
  drop-append, All-append,
}
use mathlib.Core.List.{append-nil, append_assoc}
use mathlib.Core.Option
use cppload_workflow.Core.Url.{
  UrlParts, parse_url, split_host, default_port, authority, path_of, is_bracketed, plain_host,
  has_port_after, port_after,
}
use cppload_workflow.Core.Url.Find.{Absent, find-append_cons, find-Absent}

-- How a host is written: as it is, or as an IPv6 literal in brackets.
pub data Form : Type 0 where
  plain bracketed : Form

abbrev pub host_text : Form → Bytes → Bytes
host_text plain host = host
host_text bracketed host = b'[' ∷ (host ++ (b']' ∷ []))

abbrev pub port_text : Option Bytes → Bytes
port_text none = []
port_text (some port) = b':' ∷ port

-- A path is given without its first slash.
abbrev pub path_text : Option Bytes → Bytes
path_text none = []
path_text (some path) = b'/' ∷ path

abbrev pub scheme : Bool → Bytes
scheme true = bytes "https"
scheme false = bytes "http"

-- scheme://host[:port][/path]
unfoldable pub format_url : Form → Bool → Bytes → Option Bytes → Option Bytes → Bytes
unfolding bytes
format_url f tls host port path =
    scheme tls ++ (b':' ∷ b'/' ∷ b'/' ∷ ((host_text f host ++ port_text port) ++ path_text path))

-- A plain host holds no colon and no opening bracket, a literal no closing one, and neither a slash.
abbrev pub IsHost : Form → Bytes → Type 0
IsHost plain host = Absent b'/' host × Absent b':' host × Absent b'[' host
IsHost bracketed host = Absent b'/' host × Absent b']' host

abbrev pub IsPort : Option Bytes → Type 0
IsPort none = Unit
IsPort (some port) = Absent b'/' port

abbrev pub port_or : Bytes → Option Bytes → Bytes
port_or default none = default
port_or default (some port) = port

abbrev pub path_or : Option Bytes → Bytes
path_or none = b'/' ∷ []
path_or (some path) = b'/' ∷ path

drop_nil : (n : ℕ) → drop {A = ℕ} n [] ≡ []
drop_nil zero = refl
drop_nil (suc n) = refl

drop-add : (m n : ℕ) (s : Bytes) → drop (m + n) s ≡ drop n (drop m s)
drop-add zero n s = ap (λ k. drop k s) (omega arith)
drop-add (suc m) n [] = drop_nil (suc m + n) ∙ sym (drop_nil n)
drop-add (suc m) n (c ∷ s) = let e : suc m + n ≡ suc (m + n) = omega arith in rw e (drop-add m n s)

-- `parse_url` behind the scheme, where the path starts at `path_start`.
build : Bool → Bytes → ℕ → Option ℕ → UrlParts
build tls url start path_start =
    let (host, port) = split_host (authority url start path_start) (default_port tls) in
    record { host = host; port = port; path = path_of url path_start; tls = tls }

build_shift :
    (tls : Bool) (url : Bytes) (k : ℕ) (o : Option ℕ)
    → build tls url k (Option.map (λ i. k + i) o) ≡ build tls (drop k url) 0 o
unfolding build
build_shift tls url k none = refl
build_shift tls url k (some i) = let e : k + i - k ≡ i - 0 = omega arith in rw (e, drop-add k i url)

parse_scheme :
    (tls : Bool) (rest : Bytes)
    → parse_url (scheme tls ++ (b':' ∷ b'/' ∷ b'/' ∷ rest)) ≡ build tls rest 0 (find b'/' rest)
unfolding parse_url build starts_with bytes eqb
parse_scheme true rest =
    build_shift true (bytes "https" ++ (b':' ∷ b'/' ∷ b'/' ∷ rest)) 8 (find b'/' rest)
parse_scheme false rest =
    build_shift false (bytes "http" ++ (b':' ∷ b'/' ∷ b'/' ∷ rest)) 7 (find b'/' rest)

Absent-host_text :
    (f : Form) (host : Bytes) (port : Option Bytes)
    → IsHost f host
    → IsPort port
    → Absent b'/' (host_text f host ++ port_text port)
Absent-host_text f host port h p =
    All-append (λ x. (x == b'/') ≡ false) (host_text f host) (port_text port) (text f h)
      (end port p)
  where
    text : (g : Form) → IsHost g host → Absent b'/' (host_text g host)
    text plain i = i.0
    text bracketed i = (refl, All-append (λ x. (x == b'/') ≡ false) host (b']' ∷ []) i.0 (refl, tt))

    end : (o : Option Bytes) → IsPort o → Absent b'/' (port_text o)
    end none q = tt
    end (some s) q = (refl, q)

not_bracketed : (c : ℕ) (s : Bytes) → (c == b'[') ≡ false → is_bracketed (c ∷ s) ≡ false
not_bracketed c [] e = refl
not_bracketed c (d ∷ s) e = e

plain_not_bracketed :
    (host s : Bytes) → Absent b'[' host → is_bracketed s ≡ false → is_bracketed (host ++ s) ≡ false
plain_not_bracketed [] s a e = e
plain_not_bracketed (c ∷ host) s a e = not_bracketed c (host ++ s) a.0

split_plain :
    (s default : Bytes) (o : Option ℕ)
    → is_bracketed s ≡ false
    → find b':' s ≡ o
    → split_host s default ≡ plain_host s default o
unfolding split_host
split_plain s default o b e = rw (b, e, split_host)

is_bracketed_literal : (host s : Bytes) → is_bracketed (b'[' ∷ (host ++ (b']' ∷ s))) ≡ true
is_bracketed_literal [] s = refl
is_bracketed_literal (c ∷ host) s = refl

drop_past : (s r : Bytes) (c : ℕ) → drop (suc (length s)) (s ++ (c ∷ r)) ≡ r
drop_past [] r c = refl
drop_past (d ∷ s) r c = drop_past s r c

split_literal :
    (host s default : Bytes)
    → Absent b']' host
    → split_host (b'[' ∷ (host ++ (b']' ∷ s))) default
      ≡ (host, if has_port_after s then port_after s else default)
unfolding split_host
split_literal host s default a =
    rw (is_bracketed_literal host s, find-append_cons b']' (b'[' ∷ host) s (refl, a), split_host)
      (let e : suc (length host) - 1 ≡ length host = omega arith in
        rw (e, take-append host (b']' ∷ s), drop_past host s b']'))

split_host_lem :
    (f : Form) (host default : Bytes) (port : Option Bytes)
    → IsHost f host
    → split_host (host_text f host ++ port_text port) default ≡ (host, port_or default port)
split_host_lem plain host default none (_, c, b) = rw append-nil (
    split_plain host default none (rw append-nil at (plain_not_bracketed host [] b refl))
      (find-Absent b':' host c))
split_host_lem plain host default (some port) (_, c, b) =
    split_plain (host ++ (b':' ∷ port)) default (some (length host))
      (plain_not_bracketed host (b':' ∷ port) b (not_bracketed b':' port refl))
      (find-append_cons b':' host port c)
    ∙ rw (take-append host (b':' ∷ port), drop_past host port b':')
split_host_lem bracketed host default none (_, c) = rw append-nil (split_literal host [] default c)
split_host_lem bracketed host default (some port) (_, c) =
    rw append_assoc (split_literal host (b':' ∷ port) default c)

-- A URL that is put together from a scheme, a host, an optional port and an optional path is read back
-- as those parts: without a port the scheme's default, without a path the root. The host may be an IPv6
-- literal in brackets, which is read back without them.
pub parse_url-format_url :
    (f : Form) (tls : Bool) (host : Bytes) (port path : Option Bytes)
    → IsHost f host
    → IsPort port
    → parse_url (format_url f tls host port path) ≡ record {
      host = host;
      port = port_or (default_port tls) port;
      path = path_or path;
      tls = tls;
    }
unfolding format_url build
parse_url-format_url f tls host port none h p =
    let text = host_text f host ++ port_text port in
    parse_scheme tls (text ++ [])
    ∙ rw (append-nil text, find-Absent b'/' text (Absent-host_text f host port h p))
        (ap (λ r. record { host = r.0; port = r.1; path = b'/' ∷ []; tls = tls })
          (split_host_lem f host (default_port tls) port h))
parse_url-format_url f tls host port (some path) h p =
    let text = host_text f host ++ port_text port in
    parse_scheme tls (text ++ (b'/' ∷ path))
    ∙ rw (find-append_cons b'/' text path (Absent-host_text f host port h p)) (
        let e : length text - 0 ≡ length text = omega arith in
        rw (e, take-append text (b'/' ∷ path), drop-append text (b'/' ∷ path))
          (ap (λ r. record { host = r.0; port = r.1; path = b'/' ∷ path; tls = tls })
            (split_host_lem f host (default_port tls) port h)))
