-- ===== src/Url/Escapes.antt =====
-- Percent escapes: what the encoder writes, the decoder reads.
use thttpd_rs.Base.{
  ℕ, ◌+◌, ◌*◌, ◌/◌, ◌%◌, ◌≡◌, ◌<◌, refl, ◌∙◌, ap, false, [], ◌∷◌, ◌++◌, some, Bytes, ◌==◌, All, inl,
  inr, arith, Bool-cases,
}
use thttpd_rs.Url.{
  from_hex, escape, decode, percent_decode, hex_digit, is_unreserved, encode_byte, url_encode,
  plain,
}

from_hex-digit : (n : ℕ) → n < 16 → from_hex (hex_digit n) ≡ some n
unfolding from_hex hex_digit
from_hex-digit n h = ground arith

decode-plain : (b : ℕ) (s : Bytes) → (b == b'%') ≡ false → decode (b ∷ s) ≡ plain b ∷ decode s
unfolding decode
decode-plain b [] h = refl
decode-plain b (c ∷ []) h = refl
decode-plain b (c ∷ d ∷ s) h = rw h refl

decode-escape :
    (h l v w : ℕ) (s : Bytes)
    → from_hex h ≡ some v
    → from_hex l ≡ some w
    → decode (b'%' ∷ h ∷ l ∷ s) ≡ (v * 16 + w) ∷ decode s
unfolding decode escape
decode-escape h l v w s p q = rw (p, q) refl

decode-encode_byte : (b : ℕ) (s : Bytes) → b < 256 → decode (encode_byte b ++ s) ≡ b ∷ decode s
unfolding encode_byte
decode-encode_byte b s h = elim (Bool-cases (is_unreserved b)) [
  | inl e ↦
      let no_escape : (b == b'%') ≡ false = ground arith in
      let no_plus : plain b ≡ b = ground arith in
      rw e (decode-plain b s no_escape ∙ rw no_plus refl)
  | inr e ↦
      let whole : b / 16 * 16 + b % 16 ≡ b = omega arith in
      rw e (
        decode-escape (hex_digit (b / 16)) (hex_digit (b % 16)) (b / 16) (b % 16) s
          (from_hex-digit (b / 16) (omega arith)) (from_hex-digit (b % 16) (omega arith))
        ∙ rw whole refl)
]

decode-url_encode : (s : Bytes) → All (λ b. b < 256) s → decode (url_encode s) ≡ s
unfolding url_encode
decode-url_encode [] h = unfold decode in refl
decode-url_encode (b ∷ s) (hb, hs) =
    decode-encode_byte b (url_encode s) hb ∙ ap (λ r. b ∷ r) (decode-url_encode s hs)

-- A string of bytes that `String::from_utf8_lossy` leaves as it is, as it does valid UTF-8, is decoded
-- to itself from its encoding, whatever its bytes are.
pub percent_decode-url_encode :
    (lossy : Bytes → Bytes) (s : Bytes)
    → All (λ b. b < 256) s
    → lossy s ≡ s
    → percent_decode lossy (url_encode s) ≡ s
unfolding percent_decode
percent_decode-url_encode lossy s bytes valid = rw (decode-url_encode s bytes) valid
