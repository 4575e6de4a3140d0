-- ===== src/Core/Url/Encode.antt =====
-- include/cppload/core/url_encode.hpp: `url_encode` against a decoder of percent-encoding.
use cppload_workflow.Prelude.{
  ℕ, ◌+◌, ◌-◌, ◌*◌, ◌/◌, ◌%◌, ◌<◌, ◌≤◌, ◌≡◌, refl, true, false, ◌||◌, [], ◌∷◌, arith, ltb, ◌==◌,
  if◌then◌else◌, length, All, Bytes, Bool-cases, inl, inr, ap, ◌∙◌,
}
use cppload_workflow.Core.Url.{url_encode, hex, is_unreserved}

-- The value of an upper-case hexadecimal digit.
pub hex_value : ℕ → ℕ
hex_value c = if ltb c b'A' then c - b'0' else c - b'A' + 10

-- What a decoder has read of an escape.
pub data Escape : Type 0 where
  plain percent : Escape
  high : ℕ → Escape

pub decode : Escape → Bytes → Bytes
decode e [] = []
decode plain (c ∷ s) = elim (c == b'%') [ true ↦ decode percent s | false ↦ c ∷ decode plain s ]
decode percent (c ∷ s) = decode (high (hex_value c)) s
decode (high h) (c ∷ s) = (h * 16 + hex_value c) ∷ decode plain s

hex_value-hex : (n : ℕ) → n < 16 → hex_value (hex n) ≡ n
unfolding hex_value hex
hex_value-hex n h = ground arith

unreserved_plain : (c : ℕ) → is_unreserved c ≡ true → (c == b'%') ≡ false
unfolding is_unreserved
unreserved_plain c h = ground arith

hex_unreserved : (n : ℕ) → n < 16 → is_unreserved (hex n) ≡ true
unfolding hex is_unreserved
hex_unreserved n h = ground arith

pub decode_nil : decode plain [] ≡ []
unfolding decode
decode_nil = refl

pub decode_plain :
    (c : ℕ) (s : Bytes) → (c == b'%') ≡ false → decode plain (c ∷ s) ≡ c ∷ decode plain s
unfolding decode
decode_plain c s e = rw (e, decode) refl

pub decode_escape :
    (c : ℕ) (s : Bytes)
    → c < 256
    → decode plain (b'%' ∷ hex (c / 16) ∷ hex (c % 16) ∷ s) ≡ c ∷ decode plain s
unfolding decode
decode_escape c s b =
    let high_digit : c / 16 < 16 = omega arith in
    rw (hex_value-hex (c / 16) high_digit, hex_value-hex (c % 16) (omega arith))
      (ap (λ d. d ∷ decode plain s) (omega arith))

-- Decoding an encoded text gives the text back, whatever bytes it holds.
pub decode-url_encode : (s : Bytes) → All (λ c. c < 256) s → decode plain (url_encode s) ≡ s
unfolding url_encode
decode-url_encode [] b = decode_nil
decode-url_encode (c ∷ s) (b, bs) = elim (Bool-cases (is_unreserved c)) [
  | inl e ↦ rw e (decode_plain c _ (unreserved_plain c e) ∙ ap (◌∷◌ c) (decode-url_encode s bs))
  | inr e ↦ rw e (decode_escape c _ b ∙ ap (◌∷◌ c) (decode-url_encode s bs))
]

-- A byte that may stand in a form field: unreserved, or the percent sign.
abbrev pub IsFieldByte : ℕ → Type 0
IsFieldByte c = (is_unreserved c || c == b'%') ≡ true

-- An encoded text holds unreserved bytes and percent signs only, so no `&`, `=` or line break, and is at
-- most three times as long.
pub url_encode_safe :
    (s : Bytes)
    → All (λ c. c < 256) s
    → All IsFieldByte (url_encode s) × (length (url_encode s) ≤ 3 * length s)
unfolding url_encode
url_encode_safe [] b = (tt, omega arith)
url_encode_safe (c ∷ s) (b, bs) =
    let rest = url_encode_safe s bs in
    elim (Bool-cases (is_unreserved c)) [
      | inl e ↦ rw e ((rw e, rest.0), omega (arith, rest.1))
      | inr e ↦
          let high_digit : c / 16 < 16 = omega arith in
          rw e (
            (
              ground arith,
              (
                rw (hex_unreserved (c / 16) high_digit),
                (rw (hex_unreserved (c % 16) (omega arith)), rest.0),
              ),
            ),
            omega (arith, rest.1),
          )
    ]
