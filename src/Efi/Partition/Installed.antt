-- ===== src/Efi/Partition/Installed.antt =====
-- `le_esp` finds the ESP that `write_layout` wrote.
use distropica.Efi.Partition.{ler, deslocamento_de, guid_zero, esp_da_entrada, le_esp}
use distropica.Effects.{ok}
use distropica.Gpt.Regions.{
  Buffer, zeros, splice, slice, length-slice, slice-splice-slice, slice-splice_start,
  slice-splice_outside, take-drop-slice,
}
use distropica.Gpt.Written.{IsInside, tabela, primary, reserva, gravado, disco}
use distropica.Gpt.{
  Plano, LbaRange, WrittenLayout, Disco, type_esp, assinatura, random_guid, header, header_fields,
  entry, put_swap, entries_of, esp_name, mbr,
}
use distropica.Prelude.{
  ℕ, Bool, false, ◌+◌, ◌-◌, ◌*◌, ◌^◌, ◌≤◌, ◌<◌, ◌≡◌, ◌≢◌, refl, ◌∙◌, ap, inl, inr, Option, none,
  some, equal_iff, take, drop, Bytes, from_le, to_le, from_le-to_le, le→leb, arith,
}

-- The first entry of the table, whether or not there is a swap.
slice-put_swap :
    (s : Option LbaRange) (g : Bytes) (e : Buffer) (k n : ℕ)
    → k + n ≤ 128
    → slice (put_swap s g e) k n ≡ slice e k n
unfolding put_swap
slice-put_swap none g e k n h = refl
slice-put_swap (some r) g e k n h = slice-splice_outside 256 _ e k n (inl (omega arith))

slice-entries_of :
    (l : WrittenLayout) (g1 g2 g3 : Bytes) (k n : ℕ)
    → k + n ≤ 128
    → slice (entries_of l g1 g2 g3) k n
      ≡ slice (entry type_esp g1 l.esp.first l.esp.last esp_name) k n
unfolding entries_of
slice-entries_of l g1 g2 g3 k n h =
    slice-put_swap l.swap g3 _ k n h
    ∙ slice-splice_outside 128 _ _ k n (inl h)
    ∙ slice-splice_start 128 (entry type_esp g1 l.esp.first l.esp.last esp_name) zeros k n h

module _ (raw : Buffer) (first last : ℕ) where
  abbrev escrita : Buffer
  escrita = entry type_esp (random_guid raw) first last esp_name

  entry_fields :
      (slice escrita 0 16 ≡ type_esp)
      × (slice escrita 16 16 ≡ random_guid raw)
      × (slice escrita 32 8 ≡ to_le 8 first)
      × (slice escrita 40 8 ≡ to_le 8 last)
  unfolding slice entry splice random_guid to_le
  entry_fields = (refl, refl, refl, refl)

module _ (crc32 : Bytes → ℕ) (p : Plano) (sector : ℕ) (entries : Buffer) (guid : Bytes) where
  abbrev cabecalho_escrito : Buffer
  cabecalho_escrito = primary crc32 p sector entries guid

  header_fields_read :
      (slice cabecalho_escrito 0 8 ≡ assinatura)
      × (slice cabecalho_escrito 72 8 ≡ to_le 8 2)
      × (slice cabecalho_escrito 80 4 ≡ to_le 4 128)
      × (slice cabecalho_escrito 84 4 ≡ to_le 4 128)
  unfolding slice header header_fields splice to_le
  header_fields_read = (refl, refl, refl, refl)

  module _ (b : Buffer) (large : 512 ≤ sector) where
    abbrev depois_de : Buffer
    depois_de = gravado crc32 p sector entries guid b

    -- A field of the header that `le_esp` reads in LBA 1.
    header_slice :
        (k n : ℕ)
        → k + n ≤ 512
        → take n (drop k (slice depois_de sector sector)) ≡ slice cabecalho_escrito k n
    header_slice k n h =
        take-drop-slice depois_de sector sector k n (omega arith)
        ∙ slice-splice-slice sector sector cabecalho_escrito _ k n (omega arith)

    -- The first entry, that it reads in LBA 2.
    table_slice :
        (k n : ℕ)
        → k + n ≤ 128
        → take n (drop k (slice depois_de (2 * sector + 0) 128)) ≡ slice entries k n
    table_slice k n h =
        take-drop-slice depois_de (2 * sector + 0) 128 k n h
        ∙ slice-splice_outside sector _ _ (2 * sector + 0 + k) n
            (inr (omega (arith, length-slice cabecalho_escrito 0 sector)))
        ∙ slice-splice_outside 0 _ _ (2 * sector + 0 + k) n
            (inr (omega (arith, length-slice (mbr p.total_sectors) 0 sector)))
        ∙ ap
            (λ j.
              slice
                (splice (2 * sector) (tabela crc32 p sector entries guid)
                  (reserva crc32 p sector entries guid b))
                j n)
            (omega arith)
        ∙ slice-splice-slice (2 * sector) 16384 entries _ k n (omega arith)

module _ (crc32 : Bytes → ℕ) (p : Plano) (sector tamanho : ℕ) (raw : Buffer)
    (root_guid swap_guid disk_guid : Bytes) (l : ℕ → Bool) (b : Buffer)
    (legivel : (at : ℕ) → l at ≡ false) where
  abbrev escritas : Buffer
  escritas = entries_of p.layout (random_guid raw) root_guid swap_guid

  abbrev disco_gravado : Disco
  disco_gravado = disco tamanho l (gravado crc32 p sector escritas disk_guid b)

  abbrev entrada_lida : Bytes
  entrada_lida = slice (disco_gravado).bytes (2 * sector + 0) 128

  entrada_field :
      (large : 512 ≤ sector) (k n : ℕ)
      → k + n ≤ 128
      → take n (drop k entrada_lida) ≡ slice (escrita raw p.layout.esp.first p.layout.esp.last) k n
  entrada_field large k n h =
      table_slice crc32 p sector escritas disk_guid b large k n h
      ∙ slice-entries_of p.layout (random_guid raw) root_guid swap_guid k n h

  esp_lida :
      512 ≤ sector
      → random_guid raw ≢ guid_zero
      → 0 < p.layout.esp.first
      → p.layout.esp.first ≤ p.layout.esp.last
      → p.layout.esp.last < 256 ^ 8
      → esp_da_entrada 1 entrada_lida
        ≡ ok (record {
          numero = 1;
          primeiro_lba = p.layout.esp.first;
          setores = p.layout.esp.last - p.layout.esp.first + 1;
          guid = random_guid raw;
        })
  unfolding esp_da_entrada
  esp_lida large g pos o u =
      let (f0, f16, f32, f40) = entry_fields raw p.layout.esp.first p.layout.esp.last in
      rw (entrada_field large 0 16 (omega arith) ∙ f0) (
        rw
          (ap from_le (entrada_field large 32 8 (omega arith) ∙ f32)
            ∙ from_le-to_le 8 p.layout.esp.first (omega arith))
          (rw
            (ap from_le (entrada_field large 40 8 (omega arith) ∙ f40)
              ∙ from_le-to_le 8 p.layout.esp.last u)
            (rw (entrada_field large 16 16 (omega arith) ∙ f16) (
              ground (arith, equal_iff type_esp type_esp, equal_iff (random_guid raw) guid_zero)))))

  abbrev cabecalho_lido : Bytes
  cabecalho_lido = slice (disco_gravado).bytes sector sector

  header_field :
      (large : 512 ≤ sector) (k n : ℕ)
      → k + n ≤ 512
      → take n (drop k cabecalho_lido)
        ≡ slice (cabecalho_escrito crc32 p sector escritas disk_guid) k n
  header_field large k n h = header_slice crc32 p sector escritas disk_guid b large k n h

  ler_lem :
      (at n : ℕ) → at + n ≤ tamanho → ler disco_gravado at n ≡ ok (slice (disco_gravado).bytes at n)
  unfolding ler
  ler_lem at n h = rw (legivel at, le→leb (at + n) tamanho h)

  deslocamento_lem : sector ≤ 4096 → deslocamento_de 2 sector 1 128 ≡ ok (2 * sector + 0)
  unfolding deslocamento_de
  deslocamento_lem h = ground arith

  -- `le_esp` on the disk as `grava` leaves it.
  pub le_esp_gravado :
      512 ≤ sector
      → sector ≤ 4096
      → IsInside tamanho sector p
      → random_guid raw ≢ guid_zero
      → 0 < p.layout.esp.first
      → p.layout.esp.first ≤ p.layout.esp.last
      → p.layout.esp.last < 256 ^ 8
      → le_esp disco_gravado 1 sector
        ≡ ok (record {
          numero = 1;
          primeiro_lba = p.layout.esp.first;
          setores = p.layout.esp.last - p.layout.esp.first + 1;
          guid = random_guid raw;
        })
  unfolding le_esp
  le_esp_gravado large small inside g pos o u =
      let (h0, h72, h80, h84) = header_fields_read crc32 p sector escritas disk_guid in
      rw (ler_lem sector sector inside.primary_header) (
        rw (header_field large 0 8 (omega arith) ∙ h0) (
          rw ((equal_iff assinatura assinatura).1 refl) (
            rw
              (ap from_le (header_field large 72 8 (omega arith) ∙ h72)
                ∙ from_le-to_le 8 2 (omega arith))
              (rw
                (ap from_le (header_field large 80 4 (omega arith) ∙ h80)
                  ∙ from_le-to_le 4 128 (omega arith))
                (rw
                  (ap from_le (header_field large 84 4 (omega arith) ∙ h84)
                    ∙ from_le-to_le 4 128 (omega arith))
                  (rw (deslocamento_lem small) (
                    rw (ler_lem (2 * sector + 0) 128 (omega (arith, inside.primary_table)))
                      (esp_lida large g pos o u))))))))
