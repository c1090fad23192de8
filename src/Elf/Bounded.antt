-- ===== src/Elf/Bounded.antt =====
-- The reads of `inspect` of minitrue/src/elf.rs keep to the file, and there are boundedly many.
use distropica.Elf.Ranges.{Arquivo, Load, u16le, u32le, u64le, max_string}
use distropica.Elf.Reads.{
  NaFaixa, Reads, Reads-entrega, Reads-escolhe, Reads-weaken, Reads-exige, Reads-ou_erro,
  Reads-resultado, Reads-bind, read_range-Reads,
}
use distropica.Elf.Versions.{vernaux, verneed_loop, read_verneed, verdaux, verdef_loop, read_verdef}
use distropica.Prelude.{
  ℕ, zero, suc, ◌+◌, ◌*◌, ◌/◌, ◌≤◌, min, Option, none, some, List, [], ◌∷◌, length, Bytes, arith,
  leb→le,
}
use distropica.Elf.{
  Elf, Programa, interpretador, cabecalho, cabecalhos, nomeia, segunda_passada, Tabelas, se_verneed,
  se_verdef, versoes, Entradas, com_strtab, dinamica, programa, parse_elf, inspect, max_dynamic,
  sem_entradas, primeira_passada,
}
use distropica.Text.Utf16.{Text}

min-le_right : (a b : ℕ) → min a b ≤ b
min-le_right a b = omega arith

module _ (file : Arquivo) (strtab : Bytes) where
  vernaux-Reads :
      (rounds aux_at : ℕ) (vs : List Text)
      → Reads file rounds (vernaux file strtab rounds aux_at vs)
  unfolding vernaux
  vernaux-Reads zero aux_at vs = Reads-entrega vs
  vernaux-Reads (suc rounds) aux_at vs =
      Reads-bind 1 rounds (omega arith) (read_range-Reads file aux_at 16 (omega arith)) λ aux.
        Reads-resultado _ λ nome.
          Reads-escolhe _ _ _ (λ _. Reads-entrega _)
            λ _. Reads-ou_erro _ _ λ at. vernaux-Reads rounds at _

  verneed_loop-Reads :
      (rounds at : ℕ) (out : List (Text × List Text))
      → Reads file (rounds * 4097) (verneed_loop file strtab rounds at out)
  unfolding verneed_loop
  verneed_loop-Reads zero at out = Reads-entrega out
  verneed_loop-Reads (suc rounds) at out =
      Reads-bind 1 (4096 + rounds * 4097) (omega arith) (read_range-Reads file at 16 (omega arith))
        λ vn. Reads-resultado _ λ file_name. Reads-ou_erro _ _ λ aux_at.
          Reads-bind 4096 (rounds * 4097) (omega arith)
            (Reads-weaken _ (min-le_right (u16le vn 2) 4096) (vernaux-Reads _ aux_at []))
            λ versions.
              Reads-escolhe _ _ _ (λ _. Reads-entrega _)
                λ _. Reads-ou_erro _ _ λ at'. verneed_loop-Reads rounds at' _

  verdaux-Reads :
      (at aux_rel : ℕ) (out : List Text) → Reads file 1 (verdaux file strtab at aux_rel out)
  unfolding verdaux
  verdaux-Reads at aux_rel out = Reads-ou_erro _ _ λ aux_at.
      Reads-bind 1 0 (omega arith) (read_range-Reads file aux_at 8 (omega arith))
        λ aux. Reads-resultado _ λ nome. Reads-entrega _

  verdef_loop-Reads :
      (rounds at : ℕ) (out : List Text)
      → Reads file (rounds * 2) (verdef_loop file strtab rounds at out)
  unfolding verdef_loop
  verdef_loop-Reads zero at out = Reads-entrega out
  verdef_loop-Reads (suc rounds) at out =
      Reads-bind 1 (1 + rounds * 2) (omega arith) (read_range-Reads file at 20 (omega arith)) λ vd.
        Reads-bind 1 (rounds * 2) (omega arith)
          (Reads-escolhe _ _ _ (λ _. verdaux-Reads at (u32le vd 12) out) (λ _. Reads-entrega out))
          λ out'.
            Reads-escolhe _ _ _ (λ _. Reads-entrega _)
              λ _. Reads-ou_erro _ _ λ at'. verdef_loop-Reads rounds at' _

  read_verneed-Reads :
      (loads : List Load) (va num : ℕ)
      → Reads file (4096 * 4097) (read_verneed file strtab loads va num)
  unfolding read_verneed
  read_verneed-Reads loads va num = Reads-ou_erro _ _ λ at.
      Reads-weaken (min num 4096 * 4097) (omega arith) (verneed_loop-Reads (min num 4096) at [])

  read_verdef-Reads :
      (loads : List Load) (va num : ℕ) → Reads file 8192 (read_verdef file strtab loads va num)
  unfolding read_verdef
  read_verdef-Reads loads va num =
      Reads-ou_erro _ _
        λ at. Reads-weaken (min num 4096 * 2) (omega arith) (verdef_loop-Reads (min num 4096) at [])

  nomeia-Reads : (tag val : ℕ) (r : Elf × Tabelas) → Reads file 0 (nomeia strtab tag val r)
  unfolding nomeia
  nomeia-Reads tag val (elf, t) =
      Reads-escolhe _ _ _ (λ _. Reads-resultado _ λ n. Reads-entrega _)
        λ _.
          Reads-escolhe _ _ _ (λ _. Reads-resultado _ λ n. Reads-entrega _)
            λ _.
              Reads-escolhe _ _ _ (λ _. Reads-resultado _ λ n. Reads-entrega _)
                λ _.
                  Reads-escolhe _ _ _ (λ _. Reads-resultado _ λ n. Reads-entrega _)
                    λ _. Reads-entrega _

  segunda_passada-Reads :
      (es : List (ℕ × ℕ)) (r : Elf × Tabelas) → Reads file 0 (segunda_passada strtab es r)
  unfolding segunda_passada
  segunda_passada-Reads [] r = Reads-entrega r
  segunda_passada-Reads ((tag, val) ∷ es) r =
      Reads-bind 0 0 (omega arith) (nomeia-Reads tag val r) λ r'. segunda_passada-Reads es r'

  se_verneed-Reads :
      (loads : List Load) (elf : Elf) (num : ℕ) (o : Option ℕ)
      → Reads file (4096 * 4097) (se_verneed file strtab loads elf num o)
  se_verneed-Reads loads elf num none = Reads-entrega elf
  se_verneed-Reads loads elf num (some va) =
      Reads-bind (4096 * 4097) 0 (omega arith) (read_verneed-Reads loads va num)
        λ v. Reads-entrega _

  se_verdef-Reads :
      (loads : List Load) (num : ℕ) (o : Option ℕ) (elf : Elf)
      → Reads file 8192 (se_verdef file strtab loads num o elf)
  se_verdef-Reads loads num none elf = Reads-entrega elf
  se_verdef-Reads loads num (some va) elf =
      Reads-bind 8192 0 (omega arith) (read_verdef-Reads loads va num) λ v. Reads-entrega _

  versoes-Reads :
      (loads : List Load) (r : Elf × Tabelas)
      → Reads file (4096 * 4097 + 8192) (versoes file strtab loads r)
  unfolding versoes
  versoes-Reads loads (elf, t) =
      Reads-bind (4096 * 4097) 8192 (omega arith)
        (se_verneed-Reads loads elf t.verneednum t.verneed)
        λ elf'. se_verdef-Reads loads t.verdefnum t.verdef elf'

module _ (file : Arquivo) where
  cabecalho-Reads : (ph : Bytes) (p : Programa) → Reads file 1 (cabecalho file ph p)
  unfolding cabecalho
  cabecalho-Reads ph p =
      Reads-escolhe _ _ _ (λ _. Reads-entrega _)
        λ _.
          Reads-escolhe _ _ _ (λ _. Reads-entrega _)
            λ _. Reads-escolhe _ _ _ (λ _. interpreta) λ _. Reads-entrega _
    where
      interpreta : Reads file 1 (interpretador file ph p)
      interpreta =
          Reads-bind 1 0 (omega arith)
            (read_range-Reads file (u64le ph 8) (min (u64le ph 32) max_string) (omega arith))
            λ raw. Reads-resultado _ λ nome. Reads-entrega _

  cabecalhos-Reads :
      (phoff phentsize left i : ℕ) (p : Programa)
      → Reads file (left * 2) (cabecalhos file phoff phentsize left i p)
  unfolding cabecalhos
  cabecalhos-Reads phoff phentsize zero i p = Reads-entrega p
  cabecalhos-Reads phoff phentsize (suc left) i p = Reads-ou_erro _ _ λ at.
      Reads-bind 1 (1 + left * 2) (omega arith) (read_range-Reads file at 56 (omega arith)) λ ph.
        Reads-bind 1 (left * 2) (omega arith) (cabecalho-Reads ph p)
          λ p'. cabecalhos-Reads phoff phentsize left (i + 1) p'

  com_strtab-Reads :
      (elf : Elf) (loads : List Load) (e : Entradas) (o : Option ℕ)
      → Reads file (1 + 4096 * 4097 + 8192) (com_strtab file elf loads e o)
  com_strtab-Reads elf loads e none = Reads-entrega elf
  com_strtab-Reads elf loads e (some va) = Reads-exige _ _ _ λ h. Reads-ou_erro _ _ λ at.
      Reads-bind 1 (4096 * 4097 + 8192) (omega arith)
        (read_range-Reads file at e.strsz (leb→le _ _ h))
        λ strtab.
          Reads-bind 0 (4096 * 4097 + 8192) (omega arith)
            (segunda_passada-Reads file strtab e.entries _)
            λ par. versoes-Reads file strtab loads par

  dinamica-Reads :
      (elf : Elf) (loads : List Load) (o : Option (ℕ × ℕ))
      → Reads file (2 + 4096 * 4097 + 8192) (dinamica file elf loads o)
  dinamica-Reads elf loads none = Reads-entrega elf
  dinamica-Reads elf loads (some (off, size)) = Reads-exige _ _ _ λ h.
      Reads-bind 1 (1 + 4096 * 4097 + 8192) (omega arith)
        (read_range-Reads file off (min size (max_dynamic * 16)) (omega arith))
        λ raw. com_strtab-Reads elf loads (primeira_passada (length raw / 16) raw sem_entradas) _

  programa-Reads :
      (head : Bytes) (elf : Elf) → Reads file (4096 * 4101 + 2) (programa file head elf)
  unfolding programa
  programa-Reads head elf = Reads-exige _ _ _ λ h. Reads-exige _ _ _ λ h'.
      Reads-bind (u16le head 56 * 2) (2 + 4096 * 4097 + 8192) (omega (arith, leb→le _ _ h))
        (cabecalhos-Reads (u64le head 32) (u16le head 54) (u16le head 56) 0 _)
        λ p. dinamica-Reads _ p.loads p.dynamic

  parse_elf-Reads : (head : Bytes) → Reads file (4096 * 4101 + 2) (parse_elf file head)
  unfolding parse_elf
  parse_elf-Reads head = Reads-exige _ _ _ λ h.
      Reads-escolhe _ _ _ (λ _. Reads-entrega _)
        λ _. Reads-escolhe _ _ _ (λ _. Reads-entrega _) λ _. programa-Reads head _

  inspect-Reads : Reads file (4096 * 4101 + 2) (inspect file)
  unfolding inspect
  inspect-Reads =
      Reads-escolhe _ _ _
        (λ _. Reads-bind (4096 * 4101 + 2) 0 (omega arith) (parse_elf-Reads _) λ e. Reads-entrega _)
        λ _. Reads-escolhe _ _ _ (λ _. Reads-entrega _) λ _. Reads-entrega _

  -- Every range that the reading of a file asks for after its head, whatever the file holds and
  -- whichever reads fail, ends within the file and is of 16 MiB at most.
  pub inspect-NaFaixa : NaFaixa file (inspect file []).1
  inspect-NaFaixa = inspect-Reads.ranges [] tt

  -- The reading of a file ends after at most 16797698 ranges, whatever the file holds: tables that
  -- point back at themselves are cut off.
  pub length-inspect : length (inspect file []).1 ≤ 16797698
  length-inspect = omega (arith, inspect-Reads.count [])
