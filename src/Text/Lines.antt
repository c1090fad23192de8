-- ===== src/Text/Lines.antt =====
-- `lines` and `split_once` of the standard library, with what they give back of a text that was
-- written line by line.
use distropica.Prelude.{
  ℕ, ◌≡◌, refl, sym, ◌∙◌, ap, Bool, true, false, not, ◌||◌, Option, none, some, List, [], ◌∷◌, ◌++◌,
  ◌==◌, append_assoc, ==_iff, false-ne-true, if◌then◌else◌, ambos, nega, arith,
}
use distropica.Text.Pieces.{split, split_cons, is_whitespace, sem_espaco}
use distropica.Text.Trim.{is_empty, trim_start, encurta, trim_end, trim, has}
use distropica.Text.Utf16.{Text}

abbrev com_inicio : ℕ → Option (Text × Text) → Option (Text × Text)
com_inicio c none = none
com_inicio c (some (a, b)) = some (c ∷ a, b)

-- `split_once` by a character.
unfoldable pub split_once : ℕ → Text → Option (Text × Text)
split_once sep [] = none
split_once sep (c ∷ cs) =
    let resto = com_inicio c (split_once sep cs) in if c == sep then some ([], cs) else resto

unfoldable pub sem_cr : Text → Text
sem_cr [] = []
sem_cr (c ∷ []) = if c == 0x0d then [] else c ∷ []
sem_cr (c ∷ d ∷ ds) = c ∷ sem_cr (d ∷ ds)

unfoldable pub linhas_de : List Text → List Text
linhas_de [] = []
linhas_de (p ∷ []) = if is_empty p then [] else p ∷ []
linhas_de (p ∷ q ∷ ps) = sem_cr p ∷ linhas_de (q ∷ ps)

-- `str::lines`: the pieces that a line feed ends, each without a carriage return before it, and
-- the rest if it is not empty.
unfoldable pub lines : Text → List Text
lines s = linhas_de (split 0x0a s)

pub split-line : (l r : Text) → has 0x0a l ≡ false → split 0x0a (l ++ 0x0a ∷ r) ≡ l ∷ split 0x0a r
unfolding split has
split-line [] r h = refl
split-line (c ∷ l) r h = grind (arith, split-line l r)

sem_cr-id : (l : Text) → has 0x0d l ≡ false → sem_cr l ≡ l
unfolding sem_cr has
sem_cr-id [] h = refl
sem_cr-id (c ∷ []) h = ground (arith, h)
sem_cr-id (c ∷ d ∷ ds) h = ap (◌∷◌ c) (sem_cr-id (d ∷ ds) (ground (arith, h)))

linhas_de-cons : (l r : Text) → linhas_de (l ∷ split 0x0a r) ≡ sem_cr l ∷ lines r
unfolding lines linhas_de
linhas_de-cons l r = let (p, qs, e) = split_cons 0x0a r in rw e refl

pub lines-line :
    (l r : Text) → has 0x0a l ≡ false → has 0x0d l ≡ false → lines (l ++ 0x0a ∷ r) ≡ l ∷ lines r
unfolding lines
lines-line l r h g =
    ap linhas_de (split-line l r h) ∙ linhas_de-cons l r ∙ ap (λ l'. l' ∷ lines r) (sem_cr-id l g)

pub split_once-append :
    (sep : ℕ) (c v : Text) → has sep c ≡ false → split_once sep (c ++ sep ∷ v) ≡ some (c, v)
unfolding split_once has
split_once-append sep [] v h = ground arith
split_once-append sep (d ∷ c) v h = ground (arith, split_once-append sep c v)

pub has-append : (b : ℕ) (x y : Text) → has b (x ++ y) ≡ (has b x || has b y)
unfolding has
has-append b [] y = refl
has-append b (c ∷ x) y = ground (arith, has-append b x y)

trim_start-id : (t : Text) → sem_espaco t ≡ true → trim_start t ≡ t
unfolding trim_start
trim_start-id [] h = refl
trim_start-id (c ∷ cs) h =
    let (w, _) = ambos (not (is_whitespace c)) (sem_espaco cs) h in
    rw (nega (is_whitespace c) w) refl

trim_end-id : (t : Text) → sem_espaco t ≡ true → trim_end t ≡ t
unfolding trim_end
trim_end-id [] h = refl
trim_end-id (c ∷ []) h =
    let (w, _) = ambos (not (is_whitespace c)) true h in rw (nega (is_whitespace c) w) refl
trim_end-id (c ∷ d ∷ ds) h =
    let (_, ws) = ambos (not (is_whitespace c)) (sem_espaco (d ∷ ds)) h in
    ap (encurta c) (trim_end-id (d ∷ ds) ws)

pub trim-id : (t : Text) → sem_espaco t ≡ true → trim t ≡ t
trim-id t h = ap trim_end (trim_start-id t h) ∙ trim_end-id t h

pub sem_espaco-has :
    (b : ℕ) (v : Text) → is_whitespace b ≡ true → sem_espaco v ≡ true → has b v ≡ false
unfolding has
sem_espaco-has b [] w h = refl
sem_espaco-has b (c ∷ cs) w h =
    let (n, ns) = ambos (not (is_whitespace c)) (sem_espaco cs) h in
    rw (outro_caractere (c == b) refl (nega (is_whitespace c) n), sem_espaco-has b cs w ns) refl
  where
    outro_caractere : (t : Bool) → (c == b) ≡ t → is_whitespace c ≡ false → (c == b) ≡ false
    outro_caractere false e n = e
    outro_caractere true e n =
        absurd (false-ne-true (sym n ∙ ap is_whitespace ((==_iff c b).0 e) ∙ w))

-- A line of a field and its value, and what stands behind it.
abbrev pub linha : Text → Text → Text → Text
linha campo valor resto = campo ++ b'=' ∷ (valor ++ 0x0a ∷ resto)

pub lines-linha :
    (c v r : Text)
    → has 0x0a c ≡ false
    → has 0x0d c ≡ false
    → has 0x0a v ≡ false
    → has 0x0d v ≡ false
    → lines (linha c v r) ≡ (c ++ b'=' ∷ v) ∷ lines r
unfolding has
lines-linha c v r l d l' d' =
    ap lines (sym (append_assoc c (b'=' ∷ v) (0x0a ∷ r)))
    ∙ lines-line (c ++ b'=' ∷ v) r (has-append 0x0a c (b'=' ∷ v) ∙ rw (l, l') refl)
        (has-append 0x0d c (b'=' ∷ v) ∙ rw (d, d') refl)
