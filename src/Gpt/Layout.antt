-- ===== src/Gpt/Layout.antt =====
-- The ranges that `write_layout` computes lie on the disk, in order, and clear of both copies of
-- the table.
use distropica.Effects.{ok}
use distropica.Gpt.{
  LbaRange, Plano, entry_count, entry_size, mib_bytes, setor_valido, reparte, planeja,
}
use distropica.Prelude.{
  ℕ, ◌+◌, ◌*◌, ◌/◌, ◌^◌, ◌≤◌, ◌<◌, ◌≡◌, ◌⊎◌, inl, inr, true, Option, none, some, arith, subst, sym,
}

-- The root ends at the last usable sector, or the swap follows it and ends there.
abbrev pub SwapFollows : ℕ → LbaRange → Option LbaRange → Type 0
SwapFollows last_usable root none = root.last ≡ last_usable
SwapFollows last_usable root (some swap) =
    (swap.first ≡ root.last + 1) × (swap.last ≡ last_usable) × (swap.first ≤ swap.last)

-- A plan for a disk of `total` bytes.
pub record IsSound (total sector esp_mib : ℕ) (p : Plano) : Type 0 where
  pub sectors : p.total_sectors ≡ total / sector
  pub table_holds : entry_count * entry_size ≤ p.entries_sectors * sector
  pub table_tight : p.entries_sectors * sector < entry_count * entry_size + sector
  pub usable : p.first_usable ≡ p.layout.esp.first
  pub esp_first : p.layout.esp.first * sector ≡ 1048576
  pub table_fits : 2 + p.entries_sectors ≤ p.layout.esp.first
  pub esp_size : p.layout.esp.last + 1 ≡ p.layout.esp.first + esp_mib * 1048576 / sector
  pub esp_nonempty : p.layout.esp.first ≤ p.layout.esp.last
  pub root_follows : p.layout.root.first ≡ p.layout.esp.last + 1
  pub root_floor : p.layout.root.first + 67108864 / sector ≤ p.layout.root.last
  pub swap_follows : SwapFollows p.last_usable p.layout.root p.layout.swap
  pub backup_fits : p.last_usable + p.entries_sectors + 2 ≡ p.total_sectors

module _ (total esp_mib swap_mib : ℕ) (large : 16 ≤ esp_mib)
    (fits : esp_mib * 1048576 < 2 ^ 64) where
  no_wrap : mib_bytes esp_mib ≡ esp_mib * 1048576
  no_wrap = omega arith

  IsSound-512 :
      {p : Plano} → planeja total esp_mib swap_mib 512 ≡ ok p → IsSound total 512 esp_mib p
  unfolding planeja reparte
  IsSound-512 e = ground (arith, no_wrap)

  IsSound-1024 :
      {p : Plano} → planeja total esp_mib swap_mib 1024 ≡ ok p → IsSound total 1024 esp_mib p
  unfolding planeja reparte
  IsSound-1024 e = ground (arith, no_wrap)

  IsSound-2048 :
      {p : Plano} → planeja total esp_mib swap_mib 2048 ≡ ok p → IsSound total 2048 esp_mib p
  unfolding planeja reparte
  IsSound-2048 e = ground (arith, no_wrap)

  IsSound-4096 :
      {p : Plano} → planeja total esp_mib swap_mib 4096 ≡ ok p → IsSound total 4096 esp_mib p
  unfolding planeja reparte
  IsSound-4096 e = ground (arith, no_wrap)

setor_cases :
    (sector : ℕ)
    → setor_valido sector ≡ true
    → (sector ≡ 512) ⊎ (sector ≡ 1024) ⊎ (sector ≡ 2048) ⊎ (sector ≡ 4096)
setor_cases sector h = ground arith

-- A claim about the four sector sizes.
pub by_sector {ℓ} :
    (P : ℕ → Type ℓ) (sector : ℕ)
    → P 512
    → P 1024
    → P 2048
    → P 4096
    → setor_valido sector ≡ true
    → P sector
by_sector P sector a b c d v = elim (setor_cases sector v) [
  | inl s ↦ subst P (sym s) a
  | inr (inl s) ↦ subst P (sym s) b
  | inr (inr (inl s)) ↦ subst P (sym s) c
  | inr (inr (inr s)) ↦ subst P (sym s) d
]

-- For a supported sector size, an ESP of at least 16 MiB whose size does not leave 64 bits, and
-- any size of swap, a plan that is not refused has: the whole sectors of the disk; as many sectors
-- for the table as its 16 KiB need; the ESP from 1 MiB on, which is the first usable sector and
-- behind the primary table, of the size asked for; the root right behind it, of more than 64 MiB;
-- the swap, if there is one, right behind the root and up to the last usable sector, which the
-- root reaches otherwise; and room for the backup table and header behind that, up to the end of
-- the disk.
pub planeja-IsSound :
    (total esp_mib swap_mib sector : ℕ) {p : Plano}
    → setor_valido sector ≡ true
    → 16 ≤ esp_mib
    → esp_mib * 1048576 < 2 ^ 64
    → planeja total esp_mib swap_mib sector ≡ ok p
    → IsSound total sector esp_mib p
planeja-IsSound total esp_mib swap_mib sector {p} v large fits =
    by_sector (λ n. planeja total esp_mib swap_mib n ≡ ok p → IsSound total n esp_mib p) sector
      (IsSound-512 total esp_mib swap_mib large fits)
      (IsSound-1024 total esp_mib swap_mib large fits)
      (IsSound-2048 total esp_mib swap_mib large fits)
      (IsSound-4096 total esp_mib swap_mib large fits) v
