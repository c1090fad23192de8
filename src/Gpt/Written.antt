-- ===== src/Gpt/Written.antt =====
-- Every write of `write_layout` lies on the disk, and what the disk holds after the last.
use distropica.Effects.{ok, ◌>>=◌, ◌>>◌}
use distropica.Gpt.Layout.{by_sector}
use distropica.Gpt.Regions.{Buffer, splice, slice, length-slice}
use distropica.Gpt.{
  Plano, Disco, M, setor_valido, planeja, write_at, mbr, header, header_fields, grava, entry_count,
  entry_size, chamada, neutra, escreve,
}
use distropica.Prelude.{
  ℕ, ◌+◌, ◌-◌, ◌*◌, ◌/◌, ◌≤◌, ◌≡◌, ◌∙◌, Bool, true, refl, [], arith, length, Bytes, le→leb,
}

-- What the plan takes from the size of the disk.
pub record IsMeasured (tamanho sector : ℕ) (p : Plano) : Type 0 where
  pub sectors : p.total_sectors ≡ tamanho / sector
  pub table : p.entries_sectors ≡ (16384 + (sector - 1)) / sector
  pub room : p.entries_sectors + 2 ≤ p.total_sectors

pub planeja-IsMeasured :
    (tamanho esp_mib swap_mib sector : ℕ) {p : Plano}
    → planeja tamanho esp_mib swap_mib sector ≡ ok p
    → IsMeasured tamanho sector p
unfolding planeja
planeja-IsMeasured tamanho esp_mib swap_mib sector e = ground arith

-- The four places that are written lie on the disk.
pub record IsInside (tamanho sector : ℕ) (p : Plano) : Type 0 where
  pub backup_table : (p.total_sectors - 1 - p.entries_sectors) * sector + 16384 ≤ tamanho
  pub backup_header : (p.total_sectors - 1) * sector + sector ≤ tamanho
  pub primary_table : 2 * sector + 16384 ≤ tamanho
  pub primary_header : sector + sector ≤ tamanho

pub IsMeasured-IsInside :
    (tamanho sector : ℕ) (p : Plano)
    → setor_valido sector ≡ true
    → IsMeasured tamanho sector p
    → IsInside tamanho sector p
IsMeasured-IsInside tamanho sector p =
    by_sector (λ n. IsMeasured tamanho n p → IsInside tamanho n p) sector (λ m. omega arith)
      (λ m. omega arith) (λ m. omega arith) (λ m. omega arith)

-- A device on which no call fails within its size.
abbrev pub disco : ℕ → (ℕ → Bool) → Buffer → Disco
disco tamanho ilegivel bytes = record {
  tamanho = tamanho;
  bytes = bytes;
  ilegivel = ilegivel;
  falhas = [];
}

write_at_lem :
    (at : ℕ) (bs : Bytes) (tamanho : ℕ) (l : ℕ → Bool) (b : Buffer)
    → at + length bs ≤ tamanho
    → write_at at bs (disco tamanho l b) ≡ (ok tt, disco tamanho l (splice at bs b))
unfolding write_at chamada escreve ◌>>=◌
write_at_lem at bs tamanho l b h = rw (le→leb (at + length bs) tamanho h)

write_then :
    {A : Type 0} (at : ℕ) (bs : Bytes) (tamanho : ℕ) (l : ℕ → Bool) (b : Buffer) (next : M A)
    → at + length bs ≤ tamanho
    → (write_at at bs >> next) (disco tamanho l b) ≡ next (disco tamanho l (splice at bs b))
unfolding ◌>>=◌
write_then at bs tamanho l b next h = rw (write_at_lem at bs tamanho l b h)

sincroniza_lem :
    (tamanho : ℕ) (l : ℕ → Bool) (b : Buffer)
    → neutra (disco tamanho l b) ≡ (ok tt, disco tamanho l b)
unfolding chamada
sincroniza_lem tamanho l b = refl

module _ (crc32 : Bytes → ℕ) (p : Plano) (sector : ℕ) (entries : Buffer) (disk_guid : Bytes) where
  abbrev pub tabela : Bytes
  tabela = slice entries 0 (entry_count * entry_size)

  -- The header behind the protective MBR, and the one in the last sector.
  abbrev pub primary : Buffer
  primary = header crc32 (
      header_fields p.first_usable 1 (p.total_sectors - 1) p.last_usable 2 disk_guid (crc32 tabela))

  abbrev backup : Buffer
  backup = header crc32 (
      header_fields p.first_usable (p.total_sectors - 1) 1 p.last_usable
        (p.total_sectors - 1 - p.entries_sectors) disk_guid (crc32 tabela))

  abbrev pub reserva : Buffer → Buffer
  reserva b =
      splice ((p.total_sectors - 1) * sector) (slice backup 0 sector)
        (splice ((p.total_sectors - 1 - p.entries_sectors) * sector) tabela b)

  abbrev pub gravado : Buffer → Buffer
  gravado b =
      splice sector (slice primary 0 sector)
        (splice 0 (slice (mbr p.total_sectors) 0 sector) (splice (2 * sector) tabela (reserva b)))

  pub grava_lem :
      (tamanho : ℕ) (l : ℕ → Bool) (b : Buffer)
      → IsInside tamanho sector p
      → grava crc32 p sector entries disk_guid (disco tamanho l b)
        ≡ (ok tt, disco tamanho l (gravado b))
  unfolding grava
  grava_lem tamanho l b i =
      write_then ((p.total_sectors - 1 - p.entries_sectors) * sector) tabela tamanho l b _
        (omega (arith, i.backup_table, length-slice entries 0 16384))
      ∙ write_then ((p.total_sectors - 1) * sector) (slice backup 0 sector) tamanho l _ _
          (omega (arith, i.backup_header, length-slice backup 0 sector))
      ∙ write_then (2 * sector) tabela tamanho l _ _
          (omega (arith, i.primary_table, length-slice entries 0 16384))
      ∙ write_then 0 (slice (mbr p.total_sectors) 0 sector) tamanho l _ _
          (omega (arith, i.primary_header, length-slice (mbr p.total_sectors) 0 sector))
      ∙ write_then sector (slice primary 0 sector) tamanho l _ _
          (omega (arith, i.primary_header, length-slice primary 0 sector))
      ∙ sincroniza_lem tamanho l (gravado b)
