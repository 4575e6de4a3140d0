-- ===== src/Core/Url/Tests.antt =====
-- include/cppload/core/url_parse.hpp and url_encode.hpp at concrete inputs.
use cppload_workflow.Prelude.{
  ◌≡◌, refl, true, false, none, some, [], ◌∷◌, arith, All, Bytes, bytes, eqb, find, starts_with,
}
use cppload_workflow.Core.Url.{parse_url, url_encode, sanitize_path, hex, is_unreserved, is_dots}
use cppload_workflow.Core.Url.Encode.{decode, plain, decode-url_encode}
use cppload_workflow.Core.Url.Segments.{segments}
use cppload_workflow.Core.Url.Sanitize.{sanitize_path_safe, IsPathByte}
use cppload_workflow.Core.Url.Parse.{bracketed, format_url, parse_url-format_url}

secure_websocket :
    parse_url (bytes "wss://h/p")
    ≡ record { host = bytes "h"; port = bytes "443"; path = bytes "/p"; tls = true }
unfolding parse_url eqb starts_with find
secure_websocket = refl

no_scheme :
    parse_url (bytes "h:81")
    ≡ record { host = bytes "h"; port = bytes "81"; path = bytes "/"; tls = false }
unfolding parse_url eqb starts_with find
no_scheme = refl

traversal : sanitize_path (bytes "../../secret/./data") ≡ some (bytes "secret/data")
unfolding sanitize_path bytes find eqb
traversal = refl

amp : url_encode (bytes "a&b") ≡ bytes "a%26b"
unfolding url_encode hex is_unreserved bytes
amp = refl

abbrev literal : Bytes
literal = b':' ∷ b':' ∷ b'1' ∷ []

parse_url-format_url_example :
    parse_url (format_url bracketed true literal (some (b'8' ∷ [])) none)
    ≡ record { host = literal; port = b'8' ∷ []; path = b'/' ∷ []; tls = true }
parse_url-format_url_example =
    parse_url-format_url bracketed true literal (some (b'8' ∷ [])) none
      ((refl, (refl, (refl, tt))), (refl, (refl, (refl, tt)))) (refl, tt)

abbrev dotted : Bytes
dotted = b'.' ∷ b'.' ∷ b'/' ∷ b'a' ∷ []

sanitize_path_safe_example :
    (q : Bytes) × (sanitize_path dotted ≡ some q)
    × All (λ seg. is_dots seg ≡ false) (segments q)
    × All IsPathByte q
    × (sanitize_path q ≡ some q)
sanitize_path_safe_example = sanitize_path_safe dotted

abbrev form : Bytes
form = b'a' ∷ 10 ∷ b'=' ∷ []

decode-url_encode_example : decode plain (url_encode form) ≡ form
decode-url_encode_example = decode-url_encode form (omega arith)
