-- ===== src/Efi/RoundTrip.antt =====
-- `le_opcao` reads back what `load_option` writes.
use distropica.Efi.Nodes.{
  length-unit_bytes, ler_rotulo-unit_bytes, length-hd_node, ler_no-hd_node, ler_no-file_node,
  ler_nos_step, ler_nos-end_node,
}
use distropica.Efi.{
  Esp, opcao_ativa, unit_bytes, hd_node, file_node, end_node, device_path, load_option, ler_rotulo,
  rotulo_de, u16_of, guarda_tamanho, get_range, ler_nos, le_opcao,
}
use distropica.Prelude.Options.{◌>>=◌}
use distropica.Prelude.{
  ℕ, zero, suc, ◌+◌, ◌*◌, ◌<◌, ◌≡◌, refl, sym, ap, ◌∙◌, true, Option, none, some, [], ◌++◌,
  append_assoc, arith, ltb, lt→ltb, take-length, ◌==◌, false, length, get_or, take, drop, all,
  length-append, drop-append, Bytes, to_le, from_le, length-to_le, from_le-to_le,
}
use distropica.Text.Utf16.{
  Text, encode_utf16, is_char, encode_utf16_units, all-is_scalar_of_char, from_utf16-encode_utf16,
}

abbrev caminho_do : Text → Bytes
caminho_do carregador = unit_bytes (encode_utf16 carregador) ++ to_le 2 0

length-caminho_do : (c : Text) → length (caminho_do c) ≡ 2 * length (encode_utf16 c) + 2
length-caminho_do c = omega (
  arith,
  length-append (unit_bytes (encode_utf16 c)) (to_le 2 0),
  length-unit_bytes (encode_utf16 c),
  length-to_le 2 0,
)

abbrev file_of : Text → Bytes
file_of c = file_node (4 + length (caminho_do c)) (caminho_do c)

length-file_of : (c : Text) → length (file_of c) ≡ 4 + length (caminho_do c)
unfolding file_node to_le
length-file_of c = omega arith

-- A loader path for which the device path fits its 16-bit length.
abbrev pub IsShort : Text → Type 0
IsShort c = 2 * length (encode_utf16 c) + 52 < 65536

module _ (esp : Esp) (c : Text) (g : length esp.guid ≡ 16) where
  abbrev path_of : Bytes
  path_of = hd_node esp ++ (file_of c ++ end_node)

  length-path_of : length path_of ≡ 2 * length (encode_utf16 c) + 52
  length-path_of = omega (
    arith,
    length-append (hd_node esp) (file_of c ++ end_node),
    length-append (file_of c) end_node,
    length-hd_node esp g,
    length-file_of c,
    length-caminho_do c,
  )

  pub device_path_lem : IsShort c → device_path esp c ≡ some path_of
  unfolding device_path
  device_path_lem s = ground (arith, length-caminho_do c)

  file_length : IsShort c → from_le (take 2 (drop 2 (file_of c ++ end_node))) ≡ length (file_of c)
  unfolding file_node to_le
  file_length s =
      from_le-to_le 2 (4 + length (caminho_do c)) (omega (arith, length-caminho_do c))
      ∙ sym (length-file_of c)

  hd_tag :
      (r : Bytes)
      → (from_le (take 2 (drop 2 (hd_node esp ++ r))) ≡ 42)
        × ((get_or (hd_node esp ++ r) 0 0 == 0x7f) ≡ false)
  unfolding hd_node to_le from_le
  hd_tag r = (refl, refl)

  file_tag : (r : Bytes) → (get_or (file_of c ++ r) 0 0 == 0x7f) ≡ false
  unfolding file_node
  file_tag r = refl

  ler_nos-path_of :
      (fuel : ℕ)
      → IsShort c
      → all is_char c ≡ true
      → ler_nos (suc (suc fuel)) path_of none none ≡ some (some esp.guid, some c)
  ler_nos-path_of fuel s h =
      ler_nos_step (suc fuel) (hd_node esp) (file_of c ++ end_node) none (some esp.guid) none none
        (omega (arith, length-hd_node esp g))
        ((hd_tag (file_of c ++ end_node)).0 ∙ sym (length-hd_node esp g))
        (hd_tag (file_of c ++ end_node)).1 (ler_no-hd_node esp none none g)
      ∙ ler_nos_step fuel (file_of c) end_node (some esp.guid) (some esp.guid) none (some c)
          (omega (arith, length-file_of c)) (file_length s) (file_tag end_node)
          (ler_no-file_node c (4 + length (caminho_do c)) (some esp.guid) none h)
      ∙ ler_nos-end_node fuel (some esp.guid) (some c)

  ler_nos_whole :
      (n : ℕ)
      → n ≡ length path_of
      → IsShort c
      → all is_char c ≡ true
      → ler_nos n path_of none none ≡ some (some esp.guid, some c)
  ler_nos_whole zero e s h = absurd (omega (arith, length-path_of))
  ler_nos_whole (suc zero) e s h = absurd (omega (arith, length-path_of))
  ler_nos_whole (suc (suc n)) e s h = ler_nos-path_of n s h

-- A load option in front of its device path: the fixed fields and the label.
abbrev cabeca : ℕ → Text → Bytes
cabeca tamanho rotulo =
    to_le 4 opcao_ativa ++ (to_le 2 tamanho ++ (unit_bytes (encode_utf16 rotulo) ++ to_le 2 0))

length-cabeca :
    (tamanho : ℕ) (rotulo : Text)
    → length (cabeca tamanho rotulo) ≡ 6 + (length (encode_utf16 rotulo) + 1) * 2
unfolding to_le
length-cabeca tamanho rotulo = omega (
  arith,
  length-append (unit_bytes (encode_utf16 rotulo)) (to_le 2 0),
  length-unit_bytes (encode_utf16 rotulo),
)

module _ (rotulo : Text) (caminho : Bytes) (tamanho : ℕ) where
  pub opcao_de : Bytes
  opcao_de = cabeca tamanho rotulo ++ caminho

  opcao_de_lem :
      to_le 4 opcao_ativa
        ++ (to_le 2 tamanho ++ (unit_bytes (encode_utf16 rotulo) ++ (to_le 2 0 ++ caminho)))
      ≡ opcao_de
  unfolding opcao_de
  opcao_de_lem = simp append_assoc

  label_field : all is_char rotulo ≡ true → ler_rotulo [] (drop 6 opcao_de) ≡ some rotulo
  unfolding opcao_de to_le
  label_field h =
      ap (ler_rotulo []) (append_assoc (unit_bytes (encode_utf16 rotulo)) (to_le 2 0) caminho)
      ∙ ler_rotulo-unit_bytes (encode_utf16 rotulo) [] caminho (encode_utf16_units rotulo h)
      ∙ from_utf16-encode_utf16 rotulo (all-is_scalar_of_char rotulo h)

  length-opcao_de : length opcao_de ≡ 6 + (length (encode_utf16 rotulo) + 1) * 2 + length caminho
  unfolding opcao_de
  length-opcao_de =
      length-append (cabeca tamanho rotulo) caminho
      ∙ ap (λ n. n + length caminho) (length-cabeca tamanho rotulo)

  long_enough : ltb (length opcao_de) 6 ≡ false
  long_enough = ground (arith, length-opcao_de)

  -- The label of any well-formed load option is read back, whatever its device path.
  pub rotulo_de-opcao_de : all is_char rotulo ≡ true → rotulo_de opcao_de ≡ some rotulo
  unfolding rotulo_de
  rotulo_de-opcao_de h = rw long_enough (label_field h)

  size_field : tamanho < 65536 → from_le (take 2 (drop 4 opcao_de)) ≡ tamanho
  unfolding opcao_de to_le
  size_field t = from_le-to_le 2 tamanho t

  path_field : drop (6 + (length (encode_utf16 rotulo) + 1) * 2) opcao_de ≡ caminho
  unfolding opcao_de
  path_field = drop-append _ (cabeca tamanho rotulo) caminho (length-cabeca tamanho rotulo)

  guarda-opcao_de : guarda_tamanho opcao_de ≡ some opcao_de
  unfolding guarda_tamanho
  guarda-opcao_de = rw long_enough

  range-opcao_de :
      tamanho ≡ length caminho
      → get_range opcao_de (6 + (length (encode_utf16 rotulo) + 1) * 2) tamanho ≡ some caminho
  unfolding get_range
  range-opcao_de e = rw path_field (ground (arith, length-opcao_de, take-length caminho))

  -- `le_opcao` of a load option is decided by the loop over its device path.
  le_opcao-opcao_de :
      {guid : Option Bytes} {arquivo : Option Text}
      → all is_char rotulo ≡ true
      → tamanho ≡ length caminho
      → tamanho < 65536
      → ler_nos (length caminho) caminho none none ≡ some (guid, arquivo)
      → le_opcao opcao_de ≡ some (record { rotulo = rotulo; guid = guid; arquivo = arquivo })
  unfolding le_opcao
  le_opcao-opcao_de h e t n =
      rw (guarda-opcao_de)
        (rw (rotulo_de-opcao_de h) (rw (size_field t) (rw (range-opcao_de e) (rw n))))

-- For a label and a loader path without NUL, a 16-byte GUID and a path that fits its length
-- field, the option is built without a panic, and reading it back gives the label, the GUID and
-- the loader path.
pub le_opcao-load_option :
    (rotulo : Text) (esp : Esp) (carregador : Text)
    → all is_char rotulo ≡ true
    → all is_char carregador ≡ true
    → length esp.guid ≡ 16
    → IsShort carregador
    → (load_option rotulo esp carregador >>= le_opcao)
      ≡ some (record { rotulo = rotulo; guid = some esp.guid; arquivo = some carregador })
unfolding load_option
le_opcao-load_option rotulo esp carregador r c g s = rw (device_path_lem esp carregador g s) (
    rw
      (lt→ltb (length (path_of esp carregador g)) 65536
        (omega (arith, length-path_of esp carregador g)))
      (rw (opcao_de_lem rotulo (path_of esp carregador g) (length (path_of esp carregador g))) (
        le_opcao-opcao_de rotulo (path_of esp carregador g) (length (path_of esp carregador g)) r
          refl (omega (arith, length-path_of esp carregador g))
          (ler_nos_whole esp carregador g _ refl s c))))

-- The label of a load option is the one it was made with.
pub rotulo_de-load_option :
    (rotulo : Text) (esp : Esp) (carregador : Text) (o : Bytes)
    → all is_char rotulo ≡ true
    → load_option rotulo esp carregador ≡ some o
    → rotulo_de o ≡ some rotulo
unfolding load_option
rotulo_de-load_option rotulo esp carregador o c h = of_path (device_path esp carregador) h
  where
    montada : Bytes → ℕ → Bytes
    montada caminho tamanho =
        to_le 4 opcao_ativa
        ++ (to_le 2 tamanho ++ (unit_bytes (encode_utf16 rotulo) ++ (to_le 2 0 ++ caminho)))

    of_size :
        (caminho : Bytes) (t : Option ℕ)
        → (t >>= λ tamanho. some (montada caminho tamanho)) ≡ some o
        → rotulo_de o ≡ some rotulo
    of_size caminho none q = cc
    of_size caminho (some t) q =
        ap rotulo_de {x = o} {y = opcao_de rotulo caminho t} (cc (opcao_de_lem rotulo caminho t))
        ∙ rotulo_de-opcao_de rotulo caminho t c

    of_path :
        (p : Option Bytes)
        → (p >>= λ caminho. u16_of (length caminho) >>= λ tamanho. some (montada caminho tamanho))
          ≡ some o
        → rotulo_de o ≡ some rotulo
    of_path none q = cc
    of_path (some caminho) q = of_size caminho (u16_of (length caminho)) q
