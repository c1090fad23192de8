-- ===== src/Elf/Reads.antt =====
-- What a reader of minitrue/src/elf.rs has read when it ends, with a value or an error: rules for
-- each way to begin.
use distropica.Effects.Sealed.{entrega, resultado, ou_erro, escolhe, exige}
use distropica.Effects.{Outcome, ok, err, Exec, continue, ◌>>=◌}
use distropica.Elf.Ranges.{
  Arquivo, tamanho, Erro, fora_de_faixa, Rastro, checked_add, na_faixa, lido, read_range,
}
use distropica.Prelude.{
  ℕ, ◌+◌, ◌*◌, ◌≤◌, ◌≡◌, refl, Bool, true, false, Option, none, some, [], ◌∷◌, ltb, if◌then◌else◌,
  length, arith,
}

-- A range that was read lies in the file, and its buffer is of 16 MiB at most.
abbrev pub NaFaixa : Arquivo → Rastro → Type 0
NaFaixa file [] = Unit {0}
NaFaixa file ((at, len) ∷ rastro) =
    (at + len ≤ tamanho file) × (len ≤ 16 * 1024 * 1024) × NaFaixa file rastro

-- A reader that keeps to the file and reads `n` times at most.
pub record Reads (file : Arquivo) (n : ℕ) {A : Type 0} (m : Exec Rastro Erro A) : Type 0 where
  pub ranges : (rastro : Rastro) → NaFaixa file rastro → NaFaixa file (m rastro).1
  pub count : (rastro : Rastro) → length (m rastro).1 ≤ n + length rastro

module _ {file : Arquivo} {A : Type 0} {n : ℕ} where
  pub Reads-entrega : (a : A) → Reads file n (entrega a)
  unfolding entrega
  Reads-entrega a = record { ranges = λ rastro h. h; count = λ rastro. omega arith }

  pub Reads-escolhe :
      (b : Bool) (m m' : Exec Rastro Erro A)
      → (b ≡ true → Reads file n m)
      → (b ≡ false → Reads file n m')
      → Reads file n (escolhe b m m')
  unfolding escolhe
  Reads-escolhe true m m' h h' = record { ranges = (h refl).ranges; count = (h refl).count }
  Reads-escolhe false m m' h h' = record { ranges = (h' refl).ranges; count = (h' refl).count }

  pub Reads-weaken : (n' : ℕ) {m : Exec Rastro Erro A} → n' ≤ n → Reads file n' m → Reads file n m
  Reads-weaken n' le r = record {
    ranges = r.ranges;
    count = λ rastro. omega (arith, r.count rastro);
  }

module _ {file : Arquivo} {B : Type 0} {n : ℕ} where
  pub Reads-exige :
      (b : Bool) (e : Erro) (k : Unit {0} → Exec Rastro Erro B)
      → (b ≡ true → Reads file n (k tt))
      → Reads file n (exige b e >>= k)
  unfolding ◌>>=◌ exige
  Reads-exige true e k r = record { ranges = (r refl).ranges; count = (r refl).count }
  Reads-exige false e k r = record { ranges = λ rastro h. h; count = λ rastro. omega arith }

module _ {file : Arquivo} {A B : Type 0} {n : ℕ} where
  pub Reads-ou_erro :
      (e : Erro) (o : Option A) {k : A → Exec Rastro Erro B}
      → ((a : A) → Reads file n (k a))
      → Reads file n (ou_erro e o >>= k)
  unfolding ◌>>=◌ ou_erro
  Reads-ou_erro e none r = record { ranges = λ rastro h. h; count = λ rastro. omega arith }
  Reads-ou_erro e (some a) r = record { ranges = (r a).ranges; count = (r a).count }

  pub Reads-resultado :
      (o : Outcome Erro A) {k : A → Exec Rastro Erro B}
      → ((a : A) → Reads file n (k a))
      → Reads file n (resultado o >>= k)
  unfolding ◌>>=◌ resultado
  Reads-resultado (ok a) r = record { ranges = (r a).ranges; count = (r a).count }
  Reads-resultado (err e) r = record { ranges = λ rastro h. h; count = λ rastro. omega arith }

-- The first part reads `a` times at most, the rest `b` times.
module _ {file : Arquivo} {A B : Type 0} (a b : ℕ) {k : A → Exec Rastro Erro B} where
  apos-ranges :
      (r : Outcome Erro A × Rastro)
      → ((x : A) → Reads file b (k x))
      → NaFaixa file r.1
      → NaFaixa file (continue r.0 k r.1).1
  apos-ranges (ok x, s) f h = (f x).ranges s h
  apos-ranges (err e, s) f h = h

  apos-count :
      (r : Outcome Erro A × Rastro)
      → ((x : A) → Reads file b (k x))
      → length (continue r.0 k r.1).1 ≤ b + length r.1
  apos-count (ok x, s) f = (f x).count s
  apos-count (err e, s) f = omega arith

  pub Reads-bind :
      {n : ℕ} {m : Exec Rastro Erro A}
      → a + b ≤ n
      → Reads file a m
      → ((x : A) → Reads file b (k x))
      → Reads file n (m >>= k)
  unfolding ◌>>=◌
  Reads-bind {m = m} le r f = record {
    ranges = λ rastro h. apos-ranges (m rastro) f (r.ranges rastro h);
    count = λ rastro. omega (arith, r.count rastro, apos-count (m rastro) f);
  }

module _ (file : Arquivo) where
  lido-Reads :
      (at len : ℕ) (b : Bool)
      → at + len ≤ tamanho file
      → len ≤ 16 * 1024 * 1024
      → Reads file 1 (lido file at len b)
  lido-Reads at len true h le = record {
    ranges = λ rastro h'. (h, le, h');
    count = λ rastro. omega arith;
  }
  lido-Reads at len false h le = record {
    ranges = λ rastro h'. (h, le, h');
    count = λ rastro. omega arith;
  }

  recusa-Reads : {A : Type 0} {n : ℕ} (e : Erro) → Reads file n {A = A} (λ rastro. (err e, rastro))
  recusa-Reads e = record { ranges = λ rastro h. h; count = λ rastro. omega arith }

  cabe-Reads :
      (at len : ℕ) (b : Bool)
      → (b ≡ false → at + len ≤ tamanho file)
      → len ≤ 16 * 1024 * 1024
      → Reads file 1 (
          if b
          then (λ rastro. (err fora_de_faixa, rastro))
          else lido file at len (file.falha at len))
  cabe-Reads at len true h le = recusa-Reads fora_de_faixa
  cabe-Reads at len false h le = lido-Reads at len (file.falha at len) (h refl) le

  na_faixa-Reads :
      (at len : ℕ) (o : Option ℕ)
      → ((fim : ℕ) → o ≡ some fim → fim ≡ at + len)
      → len ≤ 16 * 1024 * 1024
      → Reads file 1 (na_faixa file at len o)
  na_faixa-Reads at len none h le = recusa-Reads fora_de_faixa
  na_faixa-Reads at len (some fim) h le =
      cabe-Reads at len (ltb (tamanho file) fim) (λ g. ground (arith, h fim refl)) le

  checked_add-eq : (a b fim : ℕ) → checked_add a b ≡ some fim → fim ≡ a + b
  unfolding checked_add
  checked_add-eq a b fim h = ground arith

  pub read_range-Reads :
      (at len : ℕ) → len ≤ 16 * 1024 * 1024 → Reads file 1 (read_range file at len)
  unfolding read_range
  read_range-Reads at len le =
      na_faixa-Reads at len (checked_add at len) (λ fim h. checked_add-eq at len fim h) le
