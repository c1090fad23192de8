-- ===== src/Elf/Names.antt =====
-- What the dynamic section names, and where its addresses lie in the file: the second pass of
-- `parse_elf` and `to_offset` of minitrue/src/elf.rs.
use distropica.Effects.Does.{Does, Does-bind, Does-entrega, Does-escolhe, Does-resultado}
use distropica.Effects.{Outcome, ok, err}
use distropica.Elf.Ranges.{Erro, Rastro, Load, u64_mod, cstr, to_offset}
use distropica.Elf.{Elf, Tabelas, nomeia, segunda_passada}
use distropica.Prelude.{
  get_elem?, suc, Bool-cases, inl, inr, ℕ, ◌+◌, ◌-◌, ◌<◌, ◌≤◌, ◌≡◌, refl, sym, ◌∙◌, ap, Bool, true,
  false, ◌&&◌, some, List, [], ◌∷◌, ◌++◌, map, ltb, leb, ◌==◌, if◌then◌else◌, all, Bytes, arith,
  append-nil, append_assoc, subst,
}
use distropica.Text.Utf16.{Text}

-- The libraries that the entries ask for: the name of each DT_NEEDED, in their order.
unfoldable pub exigidos : Bytes → List (ℕ × ℕ) → List (Outcome Erro Text)
exigidos strtab [] = []
exigidos strtab ((tag, val) ∷ es) =
    let resto = exigidos strtab es in if tag == 1 then cstr strtab val ∷ resto else resto

abbrev nomes : Elf → List (Outcome Erro Text)
nomes elf = map ok elf.needed

map-append :
    (xs ys : List Text) → map {B = Outcome Erro Text} ok (xs ++ ys) ≡ map ok xs ++ map ok ys
map-append [] ys = refl
map-append (x ∷ xs) ys = ap (◌∷◌ (ok x)) (map-append xs ys)

module _ (strtab : Bytes) where
  abbrev ComNomes : Elf → List (ℕ × ℕ) → Outcome Erro (Elf × Tabelas) → Rastro → Type 0
  ComNomes elf es (ok (elf', t)) s = nomes elf' ≡ nomes elf ++ exigidos strtab es
  ComNomes elf es (err e) s = Unit {0}

  nomeia-ComNomes :
      (tag val : ℕ) (elf : Elf) (t : Tabelas) (s : Rastro)
      → Does (nomeia strtab tag val (elf, t)) s (ComNomes elf ((tag, val) ∷ []))
  unfolding nomeia exigidos
  nomeia-ComNomes tag val elf t s =
      Does-escolhe _ _ _
        (λ h.
          Does-resultado _ _ (λ e _. tt)
            λ n c. Does-entrega _ (rw (h, c) (map-append elf.needed (n ∷ []))))
        λ h.
          Does-escolhe _ _ _ (λ _. Does-resultado _ _ (λ e _. tt) λ n c. Does-entrega _ (igual h))
            λ _.
              Does-escolhe _ _ _
                (λ _. Does-resultado _ _ (λ e _. tt) λ n c. Does-entrega _ (igual h))
                λ _.
                  Does-escolhe _ _ _
                    (λ _. Does-resultado _ _ (λ e _. tt) λ n c. Does-entrega _ (igual h))
                    λ _. Does-entrega _ (igual h)
    where
      igual : (tag == 1) ≡ false → nomes elf ≡ nomes elf ++ exigidos strtab ((tag, val) ∷ [])
      igual h = rw (h, append-nil (nomes elf)) refl

  exigidos-cons :
      (tag val : ℕ) (es : List (ℕ × ℕ))
      → exigidos strtab ((tag, val) ∷ es) ≡ exigidos strtab ((tag, val) ∷ []) ++ exigidos strtab es
  unfolding exigidos
  exigidos-cons tag val es = so_ou (tag == 1)
    where
      so_ou :
          (b : Bool)
          → (if b then cstr strtab val ∷ exigidos strtab es else exigidos strtab es)
            ≡ (if b then cstr strtab val ∷ [] else []) ++ exigidos strtab es
      so_ou true = refl
      so_ou false = refl

  segue :
      (tag val : ℕ) (es : List (ℕ × ℕ)) (elf elf' : Elf)
      → nomes elf' ≡ nomes elf ++ exigidos strtab ((tag, val) ∷ [])
      → (r : Outcome Erro (Elf × Tabelas) × Rastro) → ComNomes elf' es r.0 r.1
      → ComNomes elf ((tag, val) ∷ es) r.0 r.1
  segue tag val es elf elf' h (ok (elf'', t), s) g =
      g
      ∙ ap (λ ns. ns ++ exigidos strtab es) h
      ∙ append_assoc (nomes elf) (exigidos strtab ((tag, val) ∷ [])) (exigidos strtab es)
      ∙ ap (◌++◌ (nomes elf)) (sym (exigidos-cons tag val es))
  segue tag val es elf elf' h (err e, s) g = tt

  segunda_passada-ComNomes :
      (es : List (ℕ × ℕ)) (elf : Elf) (t : Tabelas) (s : Rastro)
      → Does (segunda_passada strtab es (elf, t)) s (ComNomes elf es)
  unfolding segunda_passada exigidos
  segunda_passada-ComNomes [] elf t s = Does-entrega (elf, t) (sym (append-nil (nomes elf)))
  segunda_passada-ComNomes ((tag, val) ∷ es) elf t s =
      Does-bind (ComNomes elf ((tag, val) ∷ [])) (nomeia strtab tag val (elf, t)) _ s
        (nomeia-ComNomes tag val elf t s)
        (λ (elf', t') s' h. record {
          holds =
              segue tag val es elf elf' h (segunda_passada strtab es (elf', t') s')
                (segunda_passada-ComNomes es elf' t' s').holds;
        })
        (λ e s' _. tt)

  -- After the second pass, the needed libraries are those that were there before and then the name
  -- of each DT_NEEDED entry, in the order of the entries; the pass fails if one has no name.
  pub segunda_passada-needed :
      (es : List (ℕ × ℕ)) (elf elf' : Elf) (t t' : Tabelas) (s s' : Rastro)
      → segunda_passada strtab es (elf, t) s ≡ (ok (elf', t'), s')
      → map {B = Outcome Erro Text} ok elf'.needed ≡ map ok elf.needed ++ exigidos strtab es
  segunda_passada-needed es elf elf' t t' s s' h =
      subst (λ r. ComNomes elf es r.0 r.1) h (segunda_passada-ComNomes es elf t s).holds

-- An address that is translated lies at its distance from the start of a segment, within the
-- segment's bytes of the file, where no segment ends beyond 2^64.
pub to_offset-bounds :
    (loads : List Load) (va o : ℕ)
    → all (λ l. leb (l.offset + l.filesz) u64_mod) loads ≡ true
    → to_offset loads va ≡ some o
    → (i : ℕ) × (l : Load) × (get_elem? loads i ≡ some l)
      × (va + l.offset ≡ o + l.vaddr)
      × (l.offset ≤ o)
      × (o < l.offset + l.filesz)
unfolding to_offset
to_offset-bounds [] va o w h = cc
to_offset-bounds (l ∷ loads) va o w h =
    elim (Bool-cases (leb l.vaddr va && ltb (va - l.vaddr) l.filesz)) [
      | inl c ↦
          (0, l, refl, ground (arith, h, c, w), ground (arith, h, c, w), ground (arith, h, c, w))
      | inr c ↦
          let (i, l', e, d, lo, hi) =
            to_offset-bounds loads va o (ground (arith, w)) (ground (arith, h, c)) in
          (suc i, l', e, d, lo, hi)
    ]
