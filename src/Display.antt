-- ===== src/Display.antt =====
-- qubes_snitch/display.py: texts that are safe to show.
pub mod Safe
use qubes_snitch.Prelude.{
  ℕ, ◌-◌, Text, codes, List, [], ◌∷◌, ◌++◌, Bool, true, false, ◌||◌, ◌&&◌, not, map, length, take,
  ltb, ◌==◌, ℕ_eq, if◌then◌else◌,
}

-- What Python's Unicode tables say: a category that starts with C, and the white space of
-- str.split.
pub record Unicode : Type 0 where
  pub is_other : ℕ → Bool
  pub is_space : ℕ → Bool

unfoldable pub max_display_text : ℕ
max_display_text = 160

module _ (unicode : Unicode) where
  -- The characters that become spaces: \r, \n, \t, escape, and those of the category.
  abbrev pub is_control : ℕ → Bool
  is_control c = c == 13 || c == 10 || c == 9 || c == 27 || unicode.is_other c

  abbrev pub cleaned : ℕ → ℕ
  cleaned c = if is_control c then 32 else c

  -- str.split() and " ".join: the words, each behind a space but the first. The flag tells that a
  -- word was put out, and that a space must stand before the next.
  unfoldable pub words : Bool → Bool → Text → Text
  words started pending [] = []
  words started pending (c ∷ s) =
      let space = unicode.is_space c in
      let rest = words (not space || started) (space && started) s in
      if space then rest else if pending then 32 ∷ c ∷ rest else c ∷ rest

  -- compact[: limit - 3] + "..."
  abbrev pub shortened : ℕ → Text → Text
  shortened limit s = if ltb limit (length s) then take (limit - 3) s ++ codes "..." else s

  unfoldable pub safe_text : ℕ → Text → Text
  unfolding words
  safe_text limit s = shortened limit (words false false (map cleaned s))
