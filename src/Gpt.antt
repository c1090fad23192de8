-- ===== src/Gpt.antt =====
-- The GPT that the installer writes, minipax/src/partition.rs. Sector numbers and sizes are u64;
-- the products that may leave 64 bits wrap as a release build wraps them, and the sums stay far
-- below. The third-party `crc32fast` is a parameter, and so are the reads of /dev/urandom.
pub mod Regions
pub mod Layout
pub mod Guid
pub mod Written
use Prim.Native.Nat.{bit_and, bit_or}
use distropica.Effects.{Outcome, ok, err, Exec, ◌>>=◌, ◌>>◌, pure, raise, gets, guard, from_option}
use distropica.Prelude.{
  ℕ, suc, ◌+◌, ◌-◌, ◌*◌, ◌/◌, ◌%◌, ◌^◌, Bool, true, false, not, ◌&&◌, ◌||◌, Option, none, some,
  List, [], ◌∷◌, ◌++◌, min, ltb, leb, ◌==◌, if◌then◌else◌, length, take, Bytes, to_le,
}
use distropica.Text.Utf16.{Text, encode_utf16}
use Regions.{Buffer, zeros, splice, slice}

abbrev pub entry_count : ℕ
entry_count = 128

abbrev pub entry_size : ℕ
entry_size = 128

abbrev pub type_esp : Bytes
type_esp =
    0x28 ∷ 0x73 ∷ 0x2a ∷ 0xc1 ∷ 0x1f ∷ 0xf8 ∷ 0xd2 ∷ 0x11 ∷ 0xba ∷ 0x4b ∷ 0x00 ∷ 0xa0 ∷ 0xc9 ∷ 0x3e
    ∷ 0xc9 ∷ 0x3b ∷ []

abbrev pub type_linux : Bytes
type_linux =
    0xaf ∷ 0x3d ∷ 0xc6 ∷ 0x0f ∷ 0x83 ∷ 0x84 ∷ 0x72 ∷ 0x47 ∷ 0x8e ∷ 0x79 ∷ 0x3d ∷ 0x69 ∷ 0xd8 ∷ 0x47
    ∷ 0x7d ∷ 0xe4 ∷ []

abbrev pub type_swap : Bytes
type_swap =
    0x6d ∷ 0xfd ∷ 0x57 ∷ 0x06 ∷ 0xab ∷ 0xa4 ∷ 0xc4 ∷ 0x43 ∷ 0x84 ∷ 0xe5 ∷ 0x09 ∷ 0x33 ∷ 0xc8 ∷ 0x4b
    ∷ 0x4f ∷ 0x4f ∷ []

-- b"EFI PART".
abbrev pub assinatura : Bytes
assinatura = b'E' ∷ b'F' ∷ b'I' ∷ b' ' ∷ b'P' ∷ b'A' ∷ b'R' ∷ b'T' ∷ []

abbrev pub put_u32 : ℕ → ℕ → Buffer → Buffer
put_u32 at value = splice at (to_le 4 value)

abbrev pub put_u64 : ℕ → ℕ → Buffer → Buffer
put_u64 at value = splice at (to_le 8 value)

pub data Erro : Type 0 where
  setor_invalido esp_pequena disco_pequeno nao_comporta sem_guid io : Erro

-- `random_guid`: sixteen bytes as /dev/urandom gave them, with the version and the variant.
unfoldable pub random_guid : Buffer → Bytes
random_guid raw =
    slice
      (λ i.
        if i == 7
        then bit_or (bit_and (raw 7) 0x0f) 0x40
        else if i == 8
        then bit_or (bit_and (raw 8) 0x3f) 0x80
        else raw i)
      0 16

unfoldable pub header_fields : ℕ → ℕ → ℕ → ℕ → ℕ → Bytes → ℕ → Buffer
header_fields first_usable current_lba backup_lba last_usable entries_lba disk_guid entries_crc =
    put_u32 88 entries_crc (
      put_u32 84 entry_size (
        put_u32 80 entry_count (
          put_u64 72 entries_lba (
            splice 56 disk_guid (
              put_u64 48 last_usable (
                put_u64 40 first_usable (
                  put_u64 32 backup_lba (
                    put_u64 24 current_lba
                      (put_u32 12 92 (put_u32 8 0x10000 (splice 0 assinatura zeros)))))))))))

-- The units of `encode_utf16().take(36)`, two bytes each.
unfoldable pub name_bytes : List ℕ → Bytes
name_bytes [] = []
name_bytes (u ∷ us) = to_le 2 u ++ name_bytes us

unfoldable pub entry : Bytes → Bytes → ℕ → ℕ → Text → Buffer
entry kind guid first last name =
    splice 56 (name_bytes (take 36 (encode_utf16 name)))
      (put_u64 40 last (put_u64 32 first (splice 16 guid (splice 0 kind zeros))))

-- The sectors of each partition, first and last.
pub record LbaRange : Type 0 where
  pub first : ℕ
  pub last : ℕ

pub record WrittenLayout : Type 0 where
  pub esp : LbaRange
  pub root : LbaRange
  pub swap : Option LbaRange

-- What `write_layout` computes before it writes.
pub record Plano : Type 0 where
  pub total_sectors : ℕ
  pub entries_sectors : ℕ
  pub first_usable : ℕ
  pub last_usable : ℕ
  pub layout : WrittenLayout

-- `mib * 1024 * 1024` in u64.
abbrev pub mib_bytes : ℕ → ℕ
mib_bytes mib = mib * 1024 % 2 ^ 64 * 1024 % 2 ^ 64

abbrev pub setor_valido : ℕ → Bool
setor_valido sector = sector == 512 || sector == 1024 || sector == 2048 || sector == 4096

abbrev range : ℕ → ℕ → LbaRange
range first last = record { first = first; last = last }

unfoldable pub reparte : ℕ → ℕ → ℕ → ℕ → LbaRange × Option LbaRange
reparte root_first piso_raiz swap_sectors last_usable =
    if ltb 0 swap_sectors && leb (root_first + piso_raiz + swap_sectors) last_usable
    then (
      range root_first (last_usable - swap_sectors + 1 - 1),
      some (range (last_usable - swap_sectors + 1) last_usable),
    )
    else (range root_first last_usable, none)

-- The arithmetic of `write_layout`, up to the ranges of the partitions. Its first two checks
-- stand in `write_layout` itself.
unfoldable pub planeja : ℕ → ℕ → ℕ → ℕ → Outcome Erro Plano
planeja total_bytes esp_mib swap_mib sector =
    let total_sectors = total_bytes / sector in
    let esp_sectors = mib_bytes esp_mib / sector in
    let entries_sectors = (entry_count * entry_size + (sector - 1)) / sector in
    let first_usable = 1024 * 1024 / sector in
    let last_usable = total_sectors - (entries_sectors + 2) in
    let esp_last = first_usable + esp_sectors - 1 in
    let root_first = esp_last + 1 in
    let piso_raiz = 64 * 1024 * 1024 / sector in
    let swap_sectors = if swap_mib == 0 then 0 else mib_bytes swap_mib / sector in
    let (root, swap) = reparte root_first piso_raiz swap_sectors last_usable in
    if ltb total_sectors (entries_sectors + 2)
    then err disco_pequeno
    else if ltb last_usable (root_first + piso_raiz)
    then err nao_comporta
    else ok (record {
      total_sectors = total_sectors;
      entries_sectors = entries_sectors;
      first_usable = first_usable;
      last_usable = last_usable;
      layout = record { esp = range first_usable esp_last; root = root; swap = swap };
    })

-- The block device: its bytes, its size, past which a write fails, the offsets at which it cannot
-- be read, and the faults still to come: `none` lets the next call on it succeed, `some k` makes
-- it fail, a write after `k` bytes. With no fault left every call succeeds that the size allows.
pub record Disco : Type 0 where
  pub tamanho : ℕ
  pub bytes : Buffer
  pub ilegivel : ℕ → Bool
  pub falhas : List (Option ℕ)

abbrev pub M : Type 0 → Type 0
M A = Exec Disco Erro A

-- One call: `efeito` where it does not fail, and what a failure after `k` bytes leaves.
abbrev chamada_com : List (Option ℕ) → M (Unit {0}) → (ℕ → Buffer → Buffer) → M (Unit {0})
chamada_com [] efeito parcial d = efeito d
chamada_com (none ∷ fs) efeito parcial d = efeito (record d { falhas = fs })
chamada_com (some k ∷ fs) efeito parcial d =
    (err io, record d { bytes = parcial k d.bytes; falhas = fs })

unfoldable pub chamada : M (Unit {0}) → (ℕ → Buffer → Buffer) → M (Unit {0})
chamada efeito parcial d = chamada_com d.falhas efeito parcial d

-- A call that changes no byte: opening the device, `seek`, `sync_all`.
abbrev pub neutra : M (Unit {0})
neutra = chamada (λ d. (ok tt, d)) (λ _ b. b)

-- What the device takes of a write: all of it, or what lies before its end.
unfoldable pub escreve : ℕ → Bytes → M (Unit {0})
escreve at bs d =
    if leb (at + length bs) d.tamanho
    then (ok tt, record d { bytes = splice at bs d.bytes })
    else (err io, record d { bytes = splice at (take (d.tamanho - at) bs) d.bytes })

-- `seek(SeekFrom::Start(at))` and `write_all(bs)`.
unfoldable pub write_at : ℕ → Bytes → M (Unit {0})
write_at at bs = do neutra; chamada (escreve at bs) (λ k. splice at (take k bs))

abbrev pub esp_name : Text
esp_name =
    b'D' ∷ b'I' ∷ b'S' ∷ b'T' ∷ b'R' ∷ b'O' ∷ b'P' ∷ b'I' ∷ b'C' ∷ b'A' ∷ b' ' ∷ b'E' ∷ b'S' ∷ b'P'
    ∷ []

abbrev root_name : Text
root_name =
    b'D' ∷ b'I' ∷ b'S' ∷ b'T' ∷ b'R' ∷ b'O' ∷ b'P' ∷ b'I' ∷ b'C' ∷ b'A' ∷ b' ' ∷ b'R' ∷ b'O' ∷ b'O'
    ∷ b'T' ∷ []

abbrev swap_name : Text
swap_name =
    b'D' ∷ b'I' ∷ b'S' ∷ b'T' ∷ b'R' ∷ b'O' ∷ b'P' ∷ b'I' ∷ b'C' ∷ b'A' ∷ b' ' ∷ b'S' ∷ b'W' ∷ b'A'
    ∷ b'P' ∷ []

-- `entries[at..at + 128].copy_from_slice(&entry(…))`.
abbrev pub put_entry : ℕ → Buffer → Buffer → Buffer
put_entry at e = splice at (slice e 0 128)

unfoldable pub put_swap : Option LbaRange → Bytes → Buffer → Buffer
put_swap none guid entries = entries
put_swap (some r) guid entries =
    put_entry 256 (entry type_swap guid r.first r.last swap_name) entries

unfoldable pub entries_of : WrittenLayout → Bytes → Bytes → Bytes → Buffer
entries_of l esp_guid root_guid swap_guid = put_swap l.swap swap_guid (
    put_entry 128 (entry type_linux root_guid l.root.first l.root.last root_name)
      (put_entry 0 (entry type_esp esp_guid l.esp.first l.esp.last esp_name) zeros))

-- The protective MBR. `saturating_sub(1)` is the subtraction of ℕ.
unfoldable pub mbr : ℕ → Buffer
mbr total_sectors = splice 510 (0x55 ∷ 0xaa ∷ []) (
    put_u32 458 (min (total_sectors - 1) 0xffffffff) (
      put_u32 454 1 (
        splice 451 (0xff ∷ 0xff ∷ 0xff ∷ [])
          (splice 450 (0xee ∷ []) (splice 447 (0x00 ∷ 0x02 ∷ 0x00 ∷ []) zeros)))))

module _ (urandom : ℕ → Option Buffer) where
  -- `random_guid` for one of the four GUIDs, numbered ESP, root, swap, disk.
  unfoldable pub sorteia : ℕ → M Bytes
  sorteia k = from_option sem_guid (urandom k) >>= λ raw. pure (random_guid raw)

  unfoldable pub sorteia_swap : Option LbaRange → M Bytes
  sorteia_swap none = pure []
  sorteia_swap (some _) = sorteia 2

module _ (crc32 : Bytes → ℕ) where
  -- `header`: the fields, and the checksum of the first 92 bytes put in.
  unfoldable pub header : Buffer → Buffer
  header fields = put_u32 16 (crc32 (slice fields 0 92)) fields

  -- The writes, in the order of the source, and `sync_all`.
  unfoldable pub grava : Plano → ℕ → Buffer → Bytes → M (Unit {0})
  grava p sector entries disk_guid = do
    let last_lba = p.total_sectors - 1
    let backup_entries_lba = last_lba - p.entries_sectors
    let tabela = slice entries 0 (entry_count * entry_size)
    let entries_crc = crc32 tabela
    let primary =
        header (header_fields p.first_usable 1 last_lba p.last_usable 2 disk_guid entries_crc)
    let backup = header (
        header_fields p.first_usable last_lba 1 p.last_usable backup_entries_lba disk_guid
          entries_crc)
    write_at (backup_entries_lba * sector) tabela
    write_at (last_lba * sector) (slice backup 0 sector)
    write_at (2 * sector) tabela
    write_at 0 (slice (mbr p.total_sectors) 0 sector)
    write_at sector (slice primary 0 sector)
    neutra

  -- Behind the first two checks the device is opened, and its size is taken by a seek to its end.
  unfoldable pub write_layout : (ℕ → Option Buffer) → ℕ → ℕ → ℕ → M WrittenLayout
  write_layout urandom esp_mib swap_mib sector = do
    guard (setor_valido sector) setor_invalido
    guard (not (ltb esp_mib 16)) esp_pequena
    neutra
    neutra
    total_bytes ← gets (λ d. d.tamanho)
    p ← λ d. (planeja total_bytes esp_mib swap_mib sector, d)
    esp_guid ← sorteia urandom 0
    root_guid ← sorteia urandom 1
    swap_guid ← sorteia_swap urandom p.layout.swap
    disk_guid ← sorteia urandom 3
    grava p sector (entries_of p.layout esp_guid root_guid swap_guid) disk_guid
    pure p.layout
