-- ===== src/Elf/Shebang.antt =====
-- The first line of a script: `parse_shebang` of minitrue/src/elf.rs.
use distropica.Prelude.Options.{◌>>=◌}
use distropica.Prelude.{Option, none, some, List, [], ◌∷◌, ◌++◌, ◌==◌, if◌then◌else◌, Bytes}
use distropica.Text.Pieces.{texto, strip_prefix, is_whitespace}
use distropica.Text.Utf16.{Text}
use distropica.Text.Utf8.{from_utf8}

pub record Script : Type 0 where
  pub interpreter : Text
  pub argument : Option Text

-- The bytes before the first line feed, or all.
unfoldable pub primeira_linha : Bytes → Bytes
primeira_linha [] = []
primeira_linha (b ∷ bs) = let resto = primeira_linha bs in if b == 0x0a then [] else b ∷ resto

-- `split_whitespace`: `atual` is the piece being read.
abbrev pub fecha : Text → List Text → List Text
fecha [] ps = ps
fecha (c ∷ cs) ps = (c ∷ cs) ∷ ps

unfoldable pub palavras : Text → Text → List Text
palavras atual [] = fecha atual []
palavras atual (c ∷ cs) =
    let separada = fecha atual (palavras [] cs) in
    let junta = palavras (atual ++ c ∷ []) cs in if is_whitespace c then separada else junta

unfoldable pub script_de : List Text → Option Script
script_de [] = none
script_de ([] ∷ _) = none
script_de ((c ∷ cs) ∷ []) =
    if c == b'/' then some (record { interpreter = c ∷ cs; argument = none }) else none
script_de ((c ∷ cs) ∷ a ∷ _) =
    if c == b'/' then some (record { interpreter = c ∷ cs; argument = some a }) else none

unfoldable pub parse_shebang : Bytes → Option Script
parse_shebang head = do
  rest ← strip_prefix (texto "#!") head
  line ← from_utf8 (primeira_linha rest)
  script_de (palavras [] line)
