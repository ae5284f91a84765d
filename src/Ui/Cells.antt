-- ===== src/Ui/Cells.antt =====
-- The cells of a line of qubes_snitch/ui.py: parts that are shown, and escape sequences, which
-- take no room.
use qubes_snitch.Prelude.{
  ℕ, zero, suc, ◌+◌, ◌-◌, Text, Text_eq, codes, List, [], ◌∷◌, ◌++◌, length, ℕ_eq,
}
use qubes_snitch.Request.{Proto_eq}

pub data Part : Type 0 where
  shown : Text → Part
  escape : Text → Part

-- The room that the parts take, and the text that is written.
abbrev pub room : List Part → ℕ
room [] = 0
room (shown t ∷ parts) = length t + room parts
room (escape t ∷ parts) = room parts

unfoldable pub rendered : List Part → Text
rendered [] = []
rendered (shown t ∷ parts) = t ++ rendered parts
rendered (escape t ∷ parts) = t ++ rendered parts

-- The cells, each with a gap behind it.
abbrev pub gapped : List (List Part) → List Part
gapped [] = []
gapped (cell ∷ cells) = cell ++ shown (codes " ") ∷ gapped cells

-- " " * n
abbrev pub spaces : ℕ → Text
spaces zero = []
spaces (suc n) = b' ' ∷ spaces n

-- f"{t:<{width}}"
abbrev pub padded : ℕ → Text → Text
padded width t = t ++ spaces (width - length t)
