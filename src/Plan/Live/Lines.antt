-- ===== src/Plan/Live/Lines.antt =====
-- The lines of a live document, `canonical_live_lines`: joined again, they are its bytes.
use distropica.Plan.Live.{canonical_live_lines, ends_with_lf, byte_alheio}
use distropica.Prelude.{
  suc, ◌-◌, ◌≡◌, refl, sym, ◌∙◌, ap, true, false, some, List, [], ◌∷◌, ◌++◌, length, take, all,
  Bytes, arith, append_assoc,
}
use distropica.Text.Pieces.{split, join, join-split, split_cons}
use distropica.Text.Utf16.{Text, is_scalar}
use distropica.Text.Utf8.{from_utf8, from_utf8-utf8, utf8_ascii, is_ascii}

-- Each line with a line feed behind it.
unfoldable pub unlines : List Text → Text
unlines [] = []
unlines (l ∷ ls) = l ++ 0x0a ∷ unlines ls

take-ends_with_lf :
    (bs : Bytes) → ends_with_lf bs ≡ true → take (length bs - 1) bs ++ 0x0a ∷ [] ≡ bs
unfolding ends_with_lf
take-ends_with_lf [] h = cc
take-ends_with_lf (b ∷ []) h = ground (arith)
take-ends_with_lf (b ∷ c ∷ cs) h =
    ap (λ n. take n (b ∷ c ∷ cs) ++ 0x0a ∷ []) {x = suc (suc (length cs)) - 1}
      {y = suc (suc (length cs) - 1)} (omega arith)
    ∙ ap (◌∷◌ b) (take-ends_with_lf (c ∷ cs) h)

unlines-join : (l : Text) (ls : List Text) → unlines (l ∷ ls) ≡ join 0x0a (l ∷ ls) ++ 0x0a ∷ []
unfolding unlines join
unlines-join l [] = refl
unlines-join l (m ∷ ls) =
    ap (λ t. l ++ 0x0a ∷ t) (unlines-join m ls)
    ∙ sym (append_assoc l (0x0a ∷ join 0x0a (m ∷ ls)) (0x0a ∷ []))

unlines-split : (s : Text) → unlines (split 0x0a s) ≡ s ++ 0x0a ∷ []
unlines-split s =
    let (p, qs, e) = split_cons 0x0a s in
    ap unlines e
    ∙ unlines-join p qs
    ∙ ap (λ t. t ++ 0x0a ∷ []) (sym (ap (join 0x0a) e) ∙ join-split 0x0a s)

byte_alheio-ascii : (bs : Bytes) → byte_alheio bs ≡ false → all is_ascii bs ≡ true
unfolding byte_alheio
byte_alheio-ascii [] h = refl
byte_alheio-ascii (b ∷ bs) h = ground (arith, byte_alheio-ascii bs)

ascii-scalar : (bs : Bytes) → all is_ascii bs ≡ true → all is_scalar bs ≡ true
ascii-scalar [] h = refl
ascii-scalar (b ∷ bs) h = ground (arith, ascii-scalar bs)

from_utf8-ascii : (bs : Bytes) → byte_alheio bs ≡ false → from_utf8 bs ≡ some bs
from_utf8-ascii bs h =
    let a = byte_alheio-ascii bs h in
    ap from_utf8 (sym (utf8_ascii bs a)) ∙ from_utf8-utf8 bs (ascii-scalar bs a)

pub unlines-canonical_live_lines :
    (bytes : Bytes) (lines : List Text)
    → canonical_live_lines bytes ≡ some lines
    → unlines lines ≡ bytes
unfolding canonical_live_lines
unlines-canonical_live_lines bytes lines h = ground (
  arith,
  unlines-split (take (length bytes - 1) bytes),
  take-ends_with_lf bytes,
  from_utf8-ascii bytes,
)
