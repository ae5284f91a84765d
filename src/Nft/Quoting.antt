-- ===== src/Nft/Quoting.antt =====
-- nft_quote: what stands between the quotes.
use qubes_snitch.Prelude.{
  ℕ, ℕ_eq, ◌≡◌, refl, Text, [], ◌∷◌, ◌++◌, Bool, true, false, Option, none, some, ◌==◌,
  if◌then◌else◌, arith,
}
use qubes_snitch.Nft.Parts.{nft_quote, escape}

-- A character before what was read.
abbrev pub with_char : ℕ → Option (Text × Text) → Option (Text × Text)
with_char c none = none
with_char c (some (t, r)) = some (c ∷ t, r)

-- A text up to the quote that ends it, and what follows; the flag says that a backslash stands
-- before, which takes the next character as it is.
unfoldable pub unquoted : Bool → Text → Option (Text × Text)
unquoted escaped [] = none
unquoted true (c ∷ s) = with_char c (unquoted false s)
unquoted false (c ∷ s) =
    let plain = unquoted false s in
    let next = unquoted true s in
    if c == b'"' then some ([], s) else if c == b'\\' then next else with_char c plain

-- The text that stands in quotes at the front.
unfoldable pub read_quoted : Text → Option (Text × Text)
unfolding unquoted
read_quoted [] = none
read_quoted (c ∷ s) = if c == b'"' then unquoted false s else none

unquoted-escape : (t rest : Text) → unquoted false (escape t ++ b'"' ∷ rest) ≡ some (t, rest)
unfolding escape unquoted
unquoted-escape [] rest = ground arith
unquoted-escape (c ∷ t) rest = ground (arith, unquoted-escape t rest)

append_end : (t rest : Text) → (t ++ b'"' ∷ []) ++ rest ≡ t ++ b'"' ∷ rest
append_end [] rest = refl
append_end (c ∷ t) rest = cc (append_end t rest)

-- What nft_quote writes is read back whole by a reader that takes the character after a backslash
-- as it is, whatever characters the text has and whatever follows it.
pub read_quoted-nft_quote : (t rest : Text) → read_quoted (nft_quote t ++ rest) ≡ some (t, rest)
unfolding read_quoted nft_quote
read_quoted-nft_quote t rest = rw append_end (ground (arith, unquoted-escape t rest))
