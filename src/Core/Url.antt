-- ===== src/Core/Url.antt =====
-- include/cppload/core/url_parse.hpp and url_encode.hpp: URLs, paths and percent-encoding, over bytes.
pub mod Find
pub mod Encode
pub mod Segments
pub mod Sanitize
pub mod Parse
pub mod Tests
use cppload_workflow.Prelude.{
  ℕ, zero, suc, ◌+◌, ◌-◌, ◌/◌, ◌%◌, Bool, true, false, ◌&&◌, ◌||◌, not, Option, none, some, List,
  [], ◌∷◌, ◌++◌, ltb, ◌==◌, if◌then◌else◌, length, take, drop, Bytes, bytes, eqb, find, find_from,
  find_word, is_alnum,
}

pub record UrlParts : Type 0 where
  pub host : Bytes
  pub port : Bytes
  pub path : Bytes
  pub tls : Bool

-- What follows the scheme, from `start` on.
abbrev pub after_scheme : Option ℕ → ℕ
after_scheme none = 0
after_scheme (some i) = i + 3

abbrev pub has_tls : Bytes → Option ℕ → Bool
has_tls url none = false
has_tls url (some i) = eqb (take i url) (bytes "https") || eqb (take i url) (bytes "wss")

unfoldable pub default_port : Bool → Bytes
unfolding bytes
default_port tls = if tls then bytes "443" else bytes "80"

-- A host with no bracket in front: the first colon splits off the port.
abbrev pub plain_host : Bytes → Bytes → Option ℕ → Bytes × Bytes
plain_host host_port default none = (host_port, default)
plain_host host_port default (some colon) = (take colon host_port, drop (suc colon) host_port)

-- A port after the closing bracket, whose position is given.
abbrev pub port_after : Bytes → Bytes
port_after [] = []
port_after (c ∷ s) = if c == b':' then s else []

abbrev pub has_port_after : Bytes → Bool
has_port_after [] = false
has_port_after (c ∷ s) = c == b':'

abbrev pub bracket_host : Bytes → Bytes → Option ℕ → Bytes × Bytes
bracket_host host_port default none = (host_port, default)
bracket_host host_port default (some close) =
    let rest = drop (suc close) host_port in
    (take (close - 1) (drop 1 host_port), if has_port_after rest then port_after rest else default)

abbrev pub is_bracketed : Bytes → Bool
is_bracketed [] = false
is_bracketed (c ∷ []) = false
is_bracketed (c ∷ d ∷ s) = c == b'['

pub split_host : Bytes → Bytes → Bytes × Bytes
split_host host_port default =
    if is_bracketed host_port
    then bracket_host host_port default (find b']' host_port)
    else plain_host host_port default (find b':' host_port)

abbrev pub path_of : Bytes → Option ℕ → Bytes
path_of url none = b'/' ∷ []
path_of url (some i) = drop i url

abbrev pub authority : Bytes → ℕ → Option ℕ → Bytes
authority url start none = drop start url
authority url start (some i) = take (i - start) (drop start url)

unfoldable pub parse_url : Bytes → UrlParts
unfolding bytes find_word find_from split_host default_port
parse_url url =
    let proto_end = find_word (bytes "://") url in
    let start = after_scheme proto_end in
    let tls = has_tls url proto_end in
    let path_start = find_from b'/' start url in
    let (host, port) = split_host (authority url start path_start) (default_port tls) in
    record { host = host; port = port; path = path_of url path_start; tls = tls }

-- The bytes that `sanitize_path` keeps.
abbrev pub is_path_byte : ℕ → Bool
is_path_byte c = c == b'/' || c == b'-' || c == b'_' || c == b'.' || c == b'~' || is_alnum c

pub keep_path_bytes : Bytes → Bytes
keep_path_bytes [] = []
keep_path_bytes (c ∷ s) = if is_path_byte c then c ∷ keep_path_bytes s else keep_path_bytes s

-- A segment that would climb or stay.
unfoldable pub is_dots : Bytes → Bool
unfolding eqb
is_dots seg = eqb seg (b'.' ∷ []) || eqb seg (b'.' ∷ b'.' ∷ [])

-- The loop over the segments of `rest`, which is what follows `pos`; each round takes one slash.
pub drop_dots : ℕ → Bytes → Bytes → Option Bytes
drop_dots zero rest out = none
drop_dots (suc fuel) rest out = elim (find b'/' rest) [
  | none ↦ some (if is_dots rest then out else out ++ rest)
  | some i ↦
      drop_dots fuel (drop (suc i) rest)
        (if is_dots (take i rest) then out else (out ++ take i rest) ++ (b'/' ∷ []))
]

-- The second half of `sanitize_path`, on the bytes kept.
pub drop_dot_segments : Bytes → Option Bytes
unfolding drop_dots is_dots
drop_dot_segments result = elim (find b'.' result) [
  | none ↦ some result
  | some _ ↦ drop_dots (suc (length result)) result []
]

-- `none` would mean that the rounds do not suffice.
pub sanitize_path : Bytes → Option Bytes
unfolding keep_path_bytes drop_dot_segments
sanitize_path path = drop_dot_segments (keep_path_bytes path)

-- `hex[n]`
unfoldable pub hex : ℕ → ℕ
hex n = if ltb n 10 then b'0' + n else b'A' + (n - 10)

pub is_unreserved : ℕ → Bool
is_unreserved c = is_alnum c || c == b'-' || c == b'_' || c == b'.' || c == b'~'

pub url_encode : Bytes → Bytes
url_encode [] = []
url_encode (c ∷ s) =
    let rest = url_encode s in
    if is_unreserved c then c ∷ rest else b'%' ∷ hex (c / 16) ∷ hex (c % 16) ∷ rest
