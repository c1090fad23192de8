-- ===== src/Efi/Partition/Found.antt =====
-- From the arguments of `write_layout` to the ESP that the boot entry is made for.
use distropica.Efi.Partition.Installed.{le_esp_gravado}
use distropica.Efi.Partition.{guid_zero, le_esp}
use distropica.Effects.{ok, ◌>>=◌}
use distropica.Gpt.Guid.{random_guid-ne-zero}
use distropica.Gpt.Layout.{IsSound, SwapFollows, planeja-IsSound, by_sector}
use distropica.Gpt.Regions.{Buffer}
use distropica.Gpt.Written.{
  IsMeasured, planeja-IsMeasured, IsInside, IsMeasured-IsInside, gravado, grava_lem, disco,
}
use distropica.Gpt.{
  LbaRange, Plano, Disco, setor_valido, planeja, random_guid, entries_of, sorteia, sorteia_swap,
  write_layout, chamada,
}
use distropica.Prelude.{
  ℕ, ◌*◌, ◌/◌, ◌^◌, ◌≤◌, ◌<◌, ◌≡◌, refl, ◌∙◌, ap, Bool, true, false, Option, none, some, [], ltb,
  Bytes, arith,
}

-- The four reads of /dev/urandom succeed, with bytes.
pub record IsReady (urandom : ℕ → Option Buffer) : Type 0 where
  pub bruto : ℕ → Buffer
  pub leituras : (k : ℕ) → urandom k ≡ some (bruto k)
  pub octetos : (k i : ℕ) → bruto k i < 256

abbrev swap_guid_de : (ℕ → Buffer) → Option LbaRange → Bytes
swap_guid_de bruto none = []
swap_guid_de bruto (some _) = random_guid (bruto 2)

module _ (crc32 : Bytes → ℕ) (urandom : ℕ → Option Buffer) (u : IsReady urandom) where
  sorteia_swap_lem :
      (s : Option LbaRange) (d : Disco)
      → sorteia_swap urandom s d ≡ (ok (swap_guid_de u.bruto s), d)
  unfolding sorteia_swap sorteia ◌>>=◌
  sorteia_swap_lem none d = refl
  sorteia_swap_lem (some r) d = rw (u.leituras 2)

  sorteia_lem : (k : ℕ) (d : Disco) → sorteia urandom k d ≡ (ok (random_guid (u.bruto k)), d)
  unfolding sorteia ◌>>=◌
  sorteia_lem k d = rw (u.leituras k)

  abbrev disco_final : Plano → ℕ → Disco → Disco
  disco_final p sector d = disco d.tamanho d.ilegivel (
      gravado crc32 p sector
        (entries_of p.layout (random_guid (u.bruto 0)) (random_guid (u.bruto 1))
          (swap_guid_de u.bruto p.layout.swap))
        (random_guid (u.bruto 3)) d.bytes)

  write_layout_sadio :
      (t : ℕ) (g : ℕ → Bool) (b : Buffer) (esp_mib swap_mib sector : ℕ) (p : Plano)
      → setor_valido sector ≡ true
      → 16 ≤ esp_mib
      → planeja t esp_mib swap_mib sector ≡ ok p
      → IsInside t sector p
      → write_layout crc32 urandom esp_mib swap_mib sector (disco t g b)
        ≡ (ok p.layout, disco_final p sector (disco t g b))
  unfolding write_layout ◌>>=◌ chamada
  write_layout_sadio t g b esp_mib swap_mib sector p v l e i =
      let d = disco t g b in
      rw v (
        rw (large esp_mib l) (
          rw e (
            rw (sorteia_lem 0 d) (
              rw (sorteia_lem 1 d) (
                rw (sorteia_swap_lem p.layout.swap d) (
                  rw (sorteia_lem 3 d) (
                    rw (
                      grava_lem crc32 p sector
                        (entries_of p.layout (random_guid (u.bruto 0)) (random_guid (u.bruto 1))
                          (swap_guid_de u.bruto p.layout.swap))
                        (random_guid (u.bruto 3)) t g b i))))))))
    where
      large : (n : ℕ) → 16 ≤ n → ltb n 16 ≡ false
      large n h = ground arith

  write_layout_lem :
      (d : Disco) (esp_mib swap_mib sector : ℕ) (p : Plano)
      → setor_valido sector ≡ true
      → 16 ≤ esp_mib
      → planeja d.tamanho esp_mib swap_mib sector ≡ ok p
      → IsInside d.tamanho sector p
      → d.falhas ≡ []
      → write_layout crc32 urandom esp_mib swap_mib sector d ≡ (ok p.layout, disco_final p sector d)
  write_layout_lem d esp_mib swap_mib sector p v l e i h =
      ap (λ fs. write_layout crc32 urandom esp_mib swap_mib sector (record d { falhas = fs })) h
      ∙ write_layout_sadio d.tamanho d.ilegivel d.bytes esp_mib swap_mib sector p v l e i

sector_range : (sector : ℕ) → setor_valido sector ≡ true → (512 ≤ sector) × (sector ≤ 4096)
sector_range sector v = ground arith

root_below : (n : ℕ) (root : LbaRange) (s : Option LbaRange) → SwapFollows n root s → root.last ≤ n
root_below n root none h = omega arith
root_below n root (some r) h = omega arith

-- The last sector of the ESP has a number below 2 ^ 64.
esp_last_fits :
    (tamanho esp_mib sector : ℕ) (p : Plano)
    → setor_valido sector ≡ true
    → tamanho < 2 ^ 64
    → IsSound tamanho sector esp_mib p
    → IsMeasured tamanho sector p
    → p.layout.esp.last < 2 ^ 64
esp_last_fits tamanho esp_mib sector p =
    by_sector
      (λ n.
        tamanho < 2 ^ 64
        → IsSound tamanho n esp_mib p
        → IsMeasured tamanho n p
        → p.layout.esp.last < 2 ^ 64)
      sector
      (λ t s m. omega (arith, root_below p.last_usable p.layout.root p.layout.swap s.swap_follows))
      (λ t s m. omega (arith, root_below p.last_usable p.layout.root p.layout.swap s.swap_follows))
      (λ t s m. omega (arith, root_below p.last_usable p.layout.root p.layout.swap s.swap_follows))
      (λ t s m. omega (arith, root_below p.last_usable p.layout.root p.layout.swap s.swap_follows))

module _ (crc32 : Bytes → ℕ) (urandom : ℕ → Option Buffer) (u : IsReady urandom) (d : Disco)
    (esp_mib swap_mib sector : ℕ) {p : Plano} where
  -- For a supported sector size, an ESP of at least 16 MiB whose size does not leave 64 bits, a
  -- disk of less than 2 ^ 64 bytes on which no call fails and every offset can be read, a plan that
  -- is not refused and four successful reads of /dev/urandom, `write_layout` succeeds, and `le_esp`
  -- of partition 1 of the disk that it leaves gives the first sector of the planned ESP, the size
  -- asked for and the GUID drawn for it.
  pub le_esp-write_layout :
      setor_valido sector ≡ true
      → 16 ≤ esp_mib
      → esp_mib * 1048576 < 2 ^ 64
      → d.tamanho < 2 ^ 64
      → planeja d.tamanho esp_mib swap_mib sector ≡ ok p
      → d.falhas ≡ []
      → ((at : ℕ) → d.ilegivel at ≡ false)
      → (d' : Disco) × (write_layout crc32 urandom esp_mib swap_mib sector d ≡ (ok p.layout, d'))
        × (le_esp d' 1 sector
            ≡ ok (record {
              numero = 1;
              primeiro_lba = p.layout.esp.first;
              setores = esp_mib * 1048576 / sector;
              guid = random_guid (u.bruto 0);
            }))
  le_esp-write_layout v l f t e h g =
      let s = planeja-IsSound d.tamanho esp_mib swap_mib sector v l f e in
      let m = planeja-IsMeasured d.tamanho esp_mib swap_mib sector e in
      let i = IsMeasured-IsInside d.tamanho sector p v m in
      let (lo, hi) = sector_range sector v in
      (
        disco_final crc32 urandom u p sector d,
        write_layout_lem crc32 urandom u d esp_mib swap_mib sector p v l e i h,
        le_esp_gravado crc32 p sector d.tamanho (u.bruto 0) (random_guid (u.bruto 1))
              (swap_guid_de u.bruto p.layout.swap) (random_guid (u.bruto 3)) d.ilegivel d.bytes g lo
              hi i (random_guid-ne-zero (u.bruto 0) guid_zero (u.octetos 0 7) refl)
              (omega (arith, s.table_fits)) s.esp_nonempty
              (esp_last_fits d.tamanho esp_mib sector p v t s m)
            ∙ ap
                (λ n. ok (record {
                  numero = 1;
                  primeiro_lba = p.layout.esp.first;
                  setores = n;
                  guid = random_guid (u.bruto 0);
                }))
                (omega (arith, s.esp_size, s.esp_nonempty)),
      )
