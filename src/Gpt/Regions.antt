-- ===== src/Gpt/Regions.antt =====
-- Byte buffers by offset: `copy_from_slice` into a range, and the slice of a range.
use distropica.Prelude.{
  ℕ, zero, suc, ◌+◌, ◌-◌, ◌≤◌, ◌<◌, ◌≡◌, refl, ap, ap₂, ◌∙◌, ◌⊎◌, inl, inr, ◌&&◌, [], ◌∷◌, arith,
  ltb, leb, if◌then◌else◌, length, get_or, take, drop, Bytes,
}

abbrev pub Buffer : Type 0
Buffer = ℕ → ℕ

abbrev pub zeros : Buffer
zeros _ = 0

-- `buffer[at..at + bs.len()].copy_from_slice(bs)`.
unfoldable pub splice : ℕ → Bytes → Buffer → Buffer
splice at bs buffer i =
    if leb at i && ltb i (at + length bs) then get_or bs (i - at) 0 else buffer i

-- `buffer[at..at + n]`.
unfoldable pub slice : Buffer → ℕ → ℕ → Bytes
slice buffer at zero = []
slice buffer at (suc n) = buffer at ∷ slice buffer (suc at) n

pub length-slice : (buffer : Buffer) (at n : ℕ) → length (slice buffer at n) ≡ n
unfolding slice
length-slice buffer at zero = refl
length-slice buffer at (suc n) = ap suc (length-slice buffer (suc at) n)

get_or-slice :
    (buffer : Buffer) (at n k : ℕ) → k < n → get_or (slice buffer at n) k 0 ≡ buffer (at + k)
unfolding slice
get_or-slice buffer at zero k h = absurd (omega arith)
get_or-slice buffer at (suc n) zero h = ap buffer (omega arith)
get_or-slice buffer at (suc n) (suc k) h =
    get_or-slice buffer (suc at) n k (omega arith) ∙ ap buffer (omega arith)

-- Two buffers that agree on a range have the same slice there.
pub slice_ext :
    (f g : Buffer) (p q n : ℕ)
    → ((k : ℕ) → k < n → f (p + k) ≡ g (q + k))
    → slice f p n ≡ slice g q n
unfolding slice
slice_ext f g p q zero h = refl
slice_ext f g p q (suc n) h =
    ap₂ ◌∷◌ (ap f (omega arith) ∙ h 0 (omega arith) ∙ ap g (omega arith)) (
      slice_ext f g (suc p) (suc q) n
        (λ k l. ap f (omega arith) ∙ h (suc k) (omega arith) ∙ ap g (omega arith)))

splice_inside :
    (at : ℕ) (bs : Bytes) (buffer : Buffer) (i : ℕ)
    → at ≤ i
    → i < at + length bs
    → splice at bs buffer i ≡ get_or bs (i - at) 0
unfolding splice
splice_inside at bs buffer i l u = ground arith

splice_outside :
    (at : ℕ) (bs : Bytes) (buffer : Buffer) (i : ℕ)
    → (i < at) ⊎ (at + length bs ≤ i)
    → splice at bs buffer i ≡ buffer i
unfolding splice
splice_outside at bs buffer i o = ground arith

-- What was copied from another buffer is found again.
pub slice-splice-slice :
    (p m : ℕ) (f buffer : Buffer) (k n : ℕ)
    → k + n ≤ m
    → slice (splice p (slice f 0 m) buffer) (p + k) n ≡ slice f k n
slice-splice-slice p m f buffer k n h =
    slice_ext (splice p (slice f 0 m) buffer) f (p + k) k n λ j l.
      splice_inside p (slice f 0 m) buffer (p + k + j) (omega arith)
        (omega (arith, length-slice f 0 m))
      ∙ get_or-slice f 0 m (p + k + j - p) (omega arith)
      ∙ ap f (omega arith)

pub slice-splice_start :
    (m : ℕ) (f buffer : Buffer) (k n : ℕ)
    → k + n ≤ m
    → slice (splice 0 (slice f 0 m) buffer) k n ≡ slice f k n
slice-splice_start m f buffer k n h =
    ap (λ j. slice (splice 0 (slice f 0 m) buffer) j n) (omega arith)
    ∙ slice-splice-slice 0 m f buffer k n h

-- A copy elsewhere leaves a range as it was.
pub slice-splice_outside :
    (p : ℕ) (bs : Bytes) (buffer : Buffer) (at n : ℕ)
    → (at + n ≤ p) ⊎ (p + length bs ≤ at)
    → slice (splice p bs buffer) at n ≡ slice buffer at n
slice-splice_outside p bs buffer at n (inl h) =
    slice_ext (splice p bs buffer) buffer at at n
      λ k l. splice_outside p bs buffer (at + k) (inl (omega arith))
slice-splice_outside p bs buffer at n (inr h) =
    slice_ext (splice p bs buffer) buffer at at n
      λ k l. splice_outside p bs buffer (at + k) (inr (omega arith))

-- A slice of a slice.
pub take-drop-slice :
    (buffer : Buffer) (at m k n : ℕ)
    → k + n ≤ m
    → take n (drop k (slice buffer at m)) ≡ slice buffer (at + k) n
unfolding slice
take-drop-slice buffer at m zero zero h = refl
take-drop-slice buffer at zero zero (suc n) h = absurd (omega arith)
take-drop-slice buffer at (suc m) zero (suc n) h = ap₂ ◌∷◌ (ap buffer (omega arith)) (
    take-drop-slice buffer (suc at) m zero n (omega arith)
    ∙ ap (λ j. slice buffer j n) (omega arith))
take-drop-slice buffer at zero (suc k) n h = absurd (omega arith)
take-drop-slice buffer at (suc m) (suc k) n h =
    take-drop-slice buffer (suc at) m k n (omega arith) ∙ ap (λ j. slice buffer j n) (omega arith)
