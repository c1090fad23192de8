-- ===== src/Plan/Codec.antt =====
-- The percent-encoding of the fields of a PLAN_LOCK, `encode` and `decode` of
-- minitrue/src/plan.rs.
pub mod RoundTrip
use distropica.Prelude.Options.{◌>>=◌}
use distropica.Prelude.{
  ℕ, ◌+◌, ◌-◌, ◌*◌, ◌/◌, ◌%◌, Bool, true, false, not, ◌&&◌, ◌||◌, Option, none, some, List, [], ◌∷◌,
  ◌++◌, ltb, leb, ◌==◌, if◌then◌else◌, equal, Bytes,
}
use distropica.Text.Utf16.{Text}
unfoldable pub use distropica.Text.Trim.{is_control, any_control}
use distropica.Text.Utf8.{within, utf8, from_utf8}

unfoldable pub is_alphanumeric : ℕ → Bool
is_alphanumeric b = within b'a' b'z' b || within b'A' b'Z' b || within b'0' b'9' b

-- The bytes that stand for themselves; '%' is none of them.
unfoldable pub seguro : ℕ → Bool
unfolding is_alphanumeric
seguro b =
    (is_alphanumeric b
      || b == b'.'
      || b == b'_'
      || b == b':'
      || b == b'+'
      || b == b'/'
      || b == b'@'
      || b == b'='
      || b == b'-')
    && not (b == b'%')

-- One digit of `{:02X}`.
unfoldable pub hex_digit : ℕ → ℕ
hex_digit n = if ltb n 10 then b'0' + n else b'A' + (n - 10)

unfoldable pub encode_byte : ℕ → Text → Text
unfolding seguro hex_digit
encode_byte b resto =
    if seguro b then b ∷ resto else b'%' ∷ hex_digit (b / 16) ∷ hex_digit (b % 16) ∷ resto

unfoldable pub encode_bytes : Bytes → Text
encode_bytes [] = []
encode_bytes (b ∷ bs) = encode_byte b (encode_bytes bs)

unfoldable pub encode : Text → Text
encode value = encode_bytes (utf8 value)

-- `is_ascii_hexdigit` and not lower case, with the value of the digit.
unfoldable pub hex_value : ℕ → Option ℕ
hex_value b =
    if within b'0' b'9' b
    then some (b - b'0')
    else if within b'A' b'F' b
    then some (b - b'A' + 10)
    else none

abbrev poe : ℕ → Option Bytes → Option Bytes
poe b none = none
poe b (some bs) = some (b ∷ bs)

abbrev poe_par : Option ℕ → Option ℕ → Option Bytes → Option Bytes
poe_par none _ _ = none
poe_par (some h) none _ = none
poe_par (some h) (some l) r = poe (h * 16 + l) r

-- The loop of `decode` over the bytes of the field; a '%' takes the two bytes behind it.
unfoldable pub decode_bytes : Bytes → Option Bytes
unfolding hex_value
decode_bytes [] = some []
decode_bytes (b ∷ []) = if b == b'%' then none else some (b ∷ [])
decode_bytes (b ∷ c ∷ []) =
    let depois = decode_bytes (c ∷ []) in if b == b'%' then none else poe b depois
decode_bytes (b ∷ c ∷ d ∷ resto) =
    let depois = decode_bytes (c ∷ d ∷ resto) in
    let salto = decode_bytes resto in
    if b == b'%' then poe_par (hex_value c) (hex_value d) salto else poe b depois

abbrev recusa : Bool → Text → Option Text
recusa true t = none
recusa false t = some t

unfoldable pub decode : Text → Option Text
decode value = do
  bytes ← decode_bytes (utf8 value)
  lido ← from_utf8 bytes
  out ← recusa (any_control lido) lido
  recusa (not (equal (encode out) value)) out
