-- ===== src/Net/HttpMessage/Targets.antt =====
-- core/net/http_client.cpp, `build_request`: what can stand in the target of a request.
use cppload_workflow.Prelude.{
  ℕ, ◌/◌, ◌%◌, ◌<◌, ◌≡◌, inl, inr, true, false, ◌||◌, [], ◌∷◌, arith, ◌==◌, All, Bytes, bytes,
  Bool-cases, ap, ◌∙◌,
}
use cppload_workflow.Core.Url.{hex}
use cppload_workflow.Core.Url.Encode.{decode, plain, decode_nil, decode_plain, decode_escape}
use cppload_workflow.Net.HttpMessage.{is_target_byte, url_encode_path, strip_line_breaks, target_of}

-- No space, no line break and no other control byte, and nothing past ASCII.
abbrev pub IsPrinted : ℕ → Type 0
IsPrinted c = (32 < c) × (c < 127)

target_byte-IsPrinted : (c : ℕ) → is_target_byte c ≡ true → IsPrinted c
unfolding is_target_byte bytes
target_byte-IsPrinted c e = ground arith

hex-IsPrinted : (n : ℕ) → n < 16 → IsPrinted (hex n)
unfolding hex
hex-IsPrinted n h = ground arith

target_byte_plain : (c : ℕ) → is_target_byte c ≡ true → (c == b'%') ≡ false
unfolding is_target_byte bytes
target_byte_plain c h = ground arith

url_encode_path-IsPrinted : (s : Bytes) → All (λ c. c < 256) s → All IsPrinted (url_encode_path s)
unfolding url_encode_path
url_encode_path-IsPrinted [] b = tt
url_encode_path-IsPrinted (c ∷ s) (b, bs) =
    let rest = url_encode_path-IsPrinted s bs in
    elim (Bool-cases (is_target_byte c)) [
      | inl e ↦ rw e (target_byte-IsPrinted c e, rest)
      | inr e ↦ rw e (
        (omega arith, omega arith),
        (hex-IsPrinted (c / 16) (omega arith), (hex-IsPrinted (c % 16) (omega arith), rest)),
      )
    ]

decode-url_encode_path : (s : Bytes) → All (λ c. c < 256) s → decode plain (url_encode_path s) ≡ s
unfolding url_encode_path
decode-url_encode_path [] b = decode_nil
decode-url_encode_path (c ∷ s) (b, bs) = elim (Bool-cases (is_target_byte c)) [
  | inl e ↦
      rw e (decode_plain c _ (target_byte_plain c e) ∙ ap (◌∷◌ c) (decode-url_encode_path s bs))
  | inr e ↦ rw e (decode_escape c _ b ∙ ap (◌∷◌ c) (decode-url_encode_path s bs))
]

strip_line_breaks-All :
    (s : Bytes) → All (λ c. c < 256) s → All (λ c. c < 256) (strip_line_breaks s)
unfolding strip_line_breaks
strip_line_breaks-All [] b = tt
strip_line_breaks-All (c ∷ s) (b, bs) = elim (Bool-cases (c == 13 || c == 10)) [
  | inl e ↦ rw e (strip_line_breaks-All s bs)
  | inr e ↦ rw e (b, strip_line_breaks-All s bs)
]

-- For any path of bytes, the target of the request holds printed ASCII only, so no space and no line break,
-- and decoding it gives the path without its line breaks.
pub target_of_safe :
    (path : Bytes)
    → All (λ c. c < 256) path
    → All IsPrinted (target_of path) × (decode plain (target_of path) ≡ strip_line_breaks path)
unfolding target_of
target_of_safe path b =
    let bytes_left = strip_line_breaks-All path b in
    (url_encode_path-IsPrinted _ bytes_left, decode-url_encode_path _ bytes_left)
