-- ===== src/Plan/Codec/RoundTrip.antt =====
-- Every field that `encode` writes is read back, and `decode` accepts nothing else.
use mathlib.Core.Path.{subst}
use distropica.Plan.Codec.{
  seguro, hex_digit, encode_byte, encode_bytes, encode, hex_value, decode_bytes, any_control,
  decode, is_alphanumeric,
}
use distropica.Prelude.{
  ℕ, ◌≡◌, refl, ◌↔◌, true, false, some, [], ◌∷◌, ltb, arith, equal_iff, all, Bytes,
}
use distropica.Text.Utf16.{Text, is_scalar}
use distropica.Text.Utf8.{utf8, from_utf8-utf8, is_ascii, utf8_ascii, is_byte, utf8_bytes}

decode_bytes-encode_byte :
    (b : ℕ) (t : Text) {bs : Bytes}
    → ltb b 256 ≡ true
    → decode_bytes t ≡ some bs
    → decode_bytes (encode_byte b t) ≡ some (b ∷ bs)
unfolding decode_bytes encode_byte is_alphanumeric seguro hex_digit hex_value
decode_bytes-encode_byte b [] h e = ground arith
decode_bytes-encode_byte b (c ∷ []) h e = ground arith
decode_bytes-encode_byte b (c ∷ d ∷ t) h e = ground arith

decode_bytes-encode_bytes :
    (bs : Bytes) → all is_byte bs ≡ true → decode_bytes (encode_bytes bs) ≡ some bs
unfolding encode_bytes
decode_bytes-encode_bytes [] h = unfold decode_bytes in refl
decode_bytes-encode_bytes (b ∷ bs) h =
    decode_bytes-encode_byte b (encode_bytes bs) (ground arith)
      (decode_bytes-encode_bytes bs (ground arith))

encode_bytes_ascii : (bs : Bytes) → all is_byte bs ≡ true → all is_ascii (encode_bytes bs) ≡ true
unfolding encode_bytes encode_byte is_alphanumeric seguro hex_digit
encode_bytes_ascii [] h = refl
encode_bytes_ascii (b ∷ bs) h = ground (arith, encode_bytes_ascii bs)

-- Every text without control characters is read back from its encoding.
pub decode-encode :
    (t : Text) → all is_scalar t ≡ true → any_control t ≡ false → decode (encode t) ≡ some t
unfolding decode encode
decode-encode t s c =
    rw (utf8_ascii (encode_bytes (utf8 t)) (encode_bytes_ascii (utf8 t) (utf8_bytes t s))) (
      rw (decode_bytes-encode_bytes (utf8 t) (utf8_bytes t s)) (
        rw (from_utf8-utf8 t s)
          (rw c (rw ((equal_iff (encode_bytes (utf8 t)) (encode_bytes (utf8 t))).1 refl)))))

decode_sound :
    (value t : Text) → decode value ≡ some t → (encode t ≡ value) × (any_control t ≡ false)
unfolding decode
decode_sound value t e = ground (arith, equal_iff (encode t) value)

-- `decode` accepts exactly the encodings of the texts without control characters, each as the
-- text that it encodes: no field has two spellings.
pub decode-iff-encode :
    (value t : Text)
    → all is_scalar t ≡ true
    → (decode value ≡ some t) ↔ ((encode t ≡ value) × (any_control t ≡ false))
decode-iff-encode value t s =
    (decode_sound value t, λ p. subst (λ v. decode v ≡ some t) p.0 (decode-encode t s p.1))
