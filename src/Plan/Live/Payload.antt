-- ===== src/Plan/Live/Payload.antt =====
-- The PAYLOAD line of a LIVE_LOCK: its pieces.
use distropica.Plan.Live.{any_empty}
use distropica.Prelude.Options.{◌>>=◌}
use distropica.Prelude.{
  Bool, true, false, Option, none, some, List, [], ◌∷◌, ◌++◌, if◌then◌else◌, ◌≡◌, refl, sym, ◌∙◌,
  ap, ◌&&◌, not, ◌==◌, length, take, drop, get_or, take-drop, drop-get_or, drop_all, arith,
}
use distropica.Text.Pieces.{texto, split, strip_prefix, join, join-split, strip_prefix_lem}
use distropica.Text.Utf16.{Text}

-- The pieces of the PAYLOAD line: the first seven, and the last four.
pub record Payload : Type 0 where
  pub fixos : List Text
  pub provenance : Text
  pub license : Text
  pub evidence : Text
  pub sha256 : Text

unfoldable pub payload_fields : List Text → Option Payload
payload_fields fields =
    if length fields == 11 && not (any_empty fields)
    then some (record {
      fixos = take 7 fields;
      provenance = get_or fields 7 [];
      license = get_or fields 8 [];
      evidence = get_or fields 9 [];
      sha256 = get_or fields 10 [];
    })
    else none

abbrev pub boot_efi_fields : List Text
boot_efi_fields =
    texto "boot-efi"
    ∷ texto "live-efi"
    ∷ texto "material"
    ∷ texto "runtime"
    ∷ texto "payload"
    ∷ texto "built-from-source"
    ∷ texto "generated:linux-efi-stub"
    ∷ []

-- The PAYLOAD line: its eleven pieces, none of them empty.
unfoldable pub ler_payload : Text → Option Payload
ler_payload payload_line =
    strip_prefix (texto "PAYLOAD=") payload_line >>= λ payload. payload_fields (split b'|' payload)

abbrev pub payload_pieces : Payload → List Text
payload_pieces p = p.fixos ++ p.provenance ∷ p.license ∷ p.evidence ∷ p.sha256 ∷ []

four_last :
    (fs : List Text)
    → length fs ≡ 11
    → drop 7 fs ≡ get_or fs 7 [] ∷ get_or fs 8 [] ∷ get_or fs 9 [] ∷ get_or fs 10 [] ∷ []
four_last fs h =
    drop-get_or 7 fs [] (omega arith)
    ∙ ap (λ l. get_or fs 7 [] ∷ l)
        (drop-get_or 8 fs [] (omega arith)
          ∙ ap (λ l. get_or fs 8 [] ∷ l)
              (drop-get_or 9 fs [] (omega arith)
                ∙ ap (λ l. get_or fs 9 [] ∷ l)
                    (drop-get_or 10 fs [] (omega arith)
                      ∙ ap (λ l. get_or fs 10 [] ∷ l) (drop_all 11 fs (omega arith)))))

payload_pieces-payload_fields :
    (fs : List Text) (p : Payload) → payload_fields fs ≡ some p → payload_pieces p ≡ fs
unfolding payload_fields
payload_pieces-payload_fields fs p h = of_test (length fs == 11 && not (any_empty fs)) refl h
  where
    leitura : Payload
    leitura = record {
      fixos = take 7 fs;
      provenance = get_or fs 7 [];
      license = get_or fs 8 [];
      evidence = get_or fs 9 [];
      sha256 = get_or fs 10 [];
    }

    of_test :
        (b : Bool)
        → (length fs == 11 && not (any_empty fs)) ≡ b
        → (if b then some leitura else none) ≡ some p
        → payload_pieces p ≡ fs
    of_test false e q = cc
    of_test true e q =
        ap payload_pieces {x = p} {y = leitura} (cc)
        ∙ ap (λ l. take 7 fs ++ l) (sym (four_last fs (ground arith)))
        ∙ take-drop 7 fs

pub ler_payload_lem :
    (line : Text) (p : Payload)
    → ler_payload line ≡ some p
    → line ≡ texto "PAYLOAD=" ++ join b'|' (payload_pieces p)
unfolding ler_payload
ler_payload_lem line p h = of_prefix (strip_prefix (texto "PAYLOAD=") line) refl h
  where
    of_prefix :
        (o : Option Text)
        → strip_prefix (texto "PAYLOAD=") line ≡ o
        → (o >>= λ payload. payload_fields (split b'|' payload)) ≡ some p
        → line ≡ texto "PAYLOAD=" ++ join b'|' (payload_pieces p)
    of_prefix none e q = cc
    of_prefix (some s) e q =
        strip_prefix_lem (texto "PAYLOAD=") line s e
        ∙ ap (λ t. texto "PAYLOAD=" ++ t)
            (sym (
              ap (join b'|') (payload_pieces-payload_fields (split b'|' s) p q)
              ∙ join-split b'|' s))
