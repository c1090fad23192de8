-- ===== src/Efi/Nodes.antt =====
-- Reading back the pieces of a device path that `device_path` writes.
use distropica.Prelude.{
  ℕ, zero, suc, ◌*◌, ◌/◌, ◌%◌, ◌<◌, ◌≤◌, ◌≡◌, refl, true, Option, some, List, [], ◌∷◌, ◌++◌,
  append_assoc, append-nil, arith, ◌==◌, false, length, get_or, take, drop, all, length-append,
  take-append, drop-append, Bytes, to_le, from_le, from_le-to_le,
}
use distropica.Text.Utf16.{
  Text, encode_utf16, from_utf16, is_unit, is_char, encode_utf16_units, all-is_scalar_of_char,
  from_utf16-encode_utf16,
}
use distropica.Efi.{
  Esp, unit_bytes, hd_node, file_node, end_node, ler_rotulo, unidades_do_arquivo, ler_no, ler_nos,
}

pub length-unit_bytes : (us : List ℕ) → length (unit_bytes us) ≡ 2 * length us
unfolding unit_bytes to_le
length-unit_bytes [] = omega arith
length-unit_bytes (u ∷ us) = omega (arith, length-unit_bytes us)

is_unit→lt : (u : ℕ) → is_unit u ≡ true → u < 65536
is_unit→lt u h = ground arith

unit_back : (u : ℕ) → is_unit u ≡ true → from_le (u % 256 ∷ (u / 256) % 256 ∷ []) ≡ u
unfolding to_le
unit_back u h = from_le-to_le 2 u (is_unit→lt u h)

pub ler_rotulo-unit_bytes :
    (us acc : List ℕ) (resto : Bytes)
    → all is_unit us ≡ true
    → ler_rotulo acc (unit_bytes us ++ (to_le 2 0 ++ resto)) ≡ from_utf16 (acc ++ us)
unfolding ler_rotulo unit_bytes to_le
ler_rotulo-unit_bytes [] acc resto h = unfold from_le in rw append-nil
ler_rotulo-unit_bytes (u ∷ us) acc resto h = ground (
  arith,
  unit_back u,
  ler_rotulo-unit_bytes us (acc ++ u ∷ []) resto,
  append_assoc acc (u ∷ []) us,
)

pub unidades_do_arquivo-unit_bytes :
    (us : List ℕ) → all is_unit us ≡ true → unidades_do_arquivo (unit_bytes us ++ to_le 2 0) ≡ us
unfolding unidades_do_arquivo unit_bytes to_le
unidades_do_arquivo-unit_bytes [] h = unfold from_le in refl
unidades_do_arquivo-unit_bytes (u ∷ us) h =
    ground (arith, unit_back u, unidades_do_arquivo-unit_bytes us)

pub length-hd_node : (esp : Esp) → length esp.guid ≡ 16 → length (hd_node esp) ≡ 42
unfolding hd_node to_le
length-hd_node esp h = omega (arith, length-append esp.guid (0x02 ∷ 0x02 ∷ []))

-- The hard-drive node gives its GUID.
pub ler_no-hd_node :
    (esp : Esp) (guid : Option Bytes) (arquivo : Option Text)
    → length esp.guid ≡ 16
    → ler_no (hd_node esp) guid arquivo ≡ some (some esp.guid, arquivo)
unfolding ler_no hd_node to_le
ler_no-hd_node esp guid arquivo h =
    ground
      (arith, length-append esp.guid (0x02 ∷ 0x02 ∷ []), take-append 16 esp.guid (0x02 ∷ 0x02 ∷ []))

-- The file node gives the path that was encoded in it.
pub ler_no-file_node :
    (t : Text) (tamanho : ℕ) (guid : Option Bytes) (arquivo : Option Text)
    → all is_char t ≡ true
    → ler_no (file_node tamanho (unit_bytes (encode_utf16 t) ++ to_le 2 0)) guid arquivo
      ≡ some (guid, some t)
unfolding ler_no file_node to_le
ler_no-file_node t tamanho guid arquivo h =
    rw (unidades_do_arquivo-unit_bytes (encode_utf16 t) (encode_utf16_units t h))
      (rw (from_utf16-encode_utf16 t (all-is_scalar_of_char t h)))

-- One round of the loop over a node that announces its own length.
pub ler_nos_step :
    (fuel : ℕ) (nodo resto : Bytes) (guid guid' : Option Bytes) (arquivo arquivo' : Option Text)
    → 4 ≤ length nodo
    → from_le (take 2 (drop 2 (nodo ++ resto))) ≡ length nodo
    → (get_or (nodo ++ resto) 0 0 == 0x7f) ≡ false
    → ler_no nodo guid arquivo ≡ some (guid', arquivo')
    → ler_nos (suc fuel) (nodo ++ resto) guid arquivo ≡ ler_nos fuel resto guid' arquivo'
unfolding ler_nos
ler_nos_step fuel nodo resto guid guid' arquivo arquivo' l t k n = ground (
  arith,
  length-append nodo resto,
  take-append (length nodo) nodo resto refl,
  drop-append (length nodo) nodo resto refl,
)

pub ler_nos-end_node :
    (fuel : ℕ) (guid : Option Bytes) (arquivo : Option Text)
    → ler_nos fuel end_node guid arquivo ≡ some (guid, arquivo)
unfolding ler_nos from_le
ler_nos-end_node zero guid arquivo = refl
ler_nos-end_node (suc fuel) guid arquivo = refl
