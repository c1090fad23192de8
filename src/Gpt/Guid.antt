-- ===== src/Gpt/Guid.antt =====
-- `random_guid` marks its bytes as a version 4 GUID of the RFC 4122 variant.
use Prim.Native.Nat.{bit_and, bit_or}
use distropica.Gpt.Regions.{Buffer, slice}
use distropica.Gpt.{random_guid}
use distropica.Prelude.Tables.{every, every_lem}
use distropica.Prelude.{ℕ, ◌+◌, ◌/◌, ◌%◌, ◌<◌, ◌≡◌, ◌≢◌, refl, true, ◌==◌, get_or, ap, arith, Bytes}

versao_table : every 256 (λ x. bit_or (bit_and x 0x0f) 0x40 == 0x40 + x % 16) ≡ true
unfolding every
versao_table = refl

variante_table : every 256 (λ x. bit_or (bit_and x 0x3f) 0x80 == 0x80 + x % 64) ≡ true
unfolding every
variante_table = refl

versao : (x : ℕ) → x < 256 → bit_or (bit_and x 0x0f) 0x40 ≡ 0x40 + x % 16
versao x h = ground (arith, every_lem _ 256 x versao_table h)

variante : (x : ℕ) → x < 256 → bit_or (bit_and x 0x3f) 0x80 ≡ 0x80 + x % 64
variante x h = ground (arith, every_lem _ 256 x variante_table h)

-- If byte 7 and byte 8 of what /dev/urandom gave are bytes, then the high nibble of byte 7 is the
-- version 4, the two high bits of byte 8 are the variant, and the low bits of both are kept.
random_guid-version :
    (raw : Buffer)
    → raw 7 < 256
    → raw 8 < 256
    → (get_or (random_guid raw) 7 0 / 16 ≡ 4)
      × (get_or (random_guid raw) 7 0 % 16 ≡ raw 7 % 16)
      × (get_or (random_guid raw) 8 0 / 64 ≡ 2)
      × (get_or (random_guid raw) 8 0 % 64 ≡ raw 8 % 64)
unfolding random_guid slice
random_guid-version raw a b = omega (arith, versao (raw 7) a, variante (raw 8) b)

-- So it is never the GUID of zeros, which a reader takes for an unused entry.
pub random_guid-ne-zero :
    (raw : Buffer) (z : Bytes) → raw 7 < 256 → get_or z 7 0 ≡ 0 → random_guid raw ≢ z
unfolding random_guid slice
random_guid-ne-zero raw z a e h = omega (arith, versao (raw 7) a, ap (λ g. get_or g 7 0) h)
