-- ===== src/Display/Safe.antt =====
-- What is shown is short, and holds no control character.
use qubes_snitch.Prelude.{
  ℕ, zero, suc, ◌&&◌, ◌-◌, ◌≤◌, ◌≡◌, refl, Text, codes, [], ◌∷◌, Bool, true, false, not, ◌||◌, map,
  length, length-append, length-take-le, take, all, all-append, leb, ℕ_eq, arith,
}
use qubes_snitch.Display.{Unicode, is_control, cleaned, words, shortened, safe_text}

abbrev pub is_printable : ℕ → Bool
is_printable c = leb 32 c && leb c 126

-- The printable characters of ASCII are no controls.
pub record IsUnicode (unicode : Unicode) : Type 0 where
  pub printable : (c : ℕ) → is_printable c ≡ true → unicode.is_other c ≡ false

module _ (unicode : Unicode) where
  abbrev pub is_shown : ℕ → Bool
  is_shown c = not (is_control unicode c)

  all-take : (n : ℕ) (s : Text) → all is_shown s ≡ true → all is_shown (take n s) ≡ true
  unfolding take
  all-take zero s h = refl
  all-take (suc n) [] h = refl
  all-take (suc n) (c ∷ s) h = ground (arith, all-take n s)

  shortened-length : (limit : ℕ) (s : Text) → 3 ≤ limit → length (shortened unicode limit s) ≤ limit
  shortened-length limit s h = ground (
    arith,
    length-append {0} (take (limit - 3) s) (codes "..."),
    length-take-le {0} (limit - 3) s,
  )

  module _ (v : IsUnicode unicode) where
    cleaned-shown : (s : Text) → all is_shown (map (cleaned unicode) s) ≡ true
    cleaned-shown [] = refl
    cleaned-shown (c ∷ s) = ground (arith, cleaned-shown s, v.printable 32)

    words-shown :
        (started pending : Bool) (s : Text)
        → all is_shown s ≡ true
        → all is_shown (words unicode started pending s) ≡ true
    unfolding words
    words-shown a p [] h = refl
    words-shown a p (c ∷ s) h = ground (
      arith,
      words-shown (not (unicode.is_space c) || a) (unicode.is_space c && a) s,
      v.printable 32,
    )

    dots-shown : all is_shown (codes "...") ≡ true
    dots-shown = ground (arith, v.printable b'.')

    shortened-shown :
        (limit : ℕ) (s : Text)
        → all is_shown s ≡ true
        → all is_shown (shortened unicode limit s) ≡ true
    shortened-shown limit s h = ground (
      arith,
      all-append {0} is_shown (take (limit - 3) s) (codes "..."),
      all-take (limit - 3) s,
      dots-shown,
    )

    -- Whatever text comes from the network, what is shown of it has at most limit characters, and
    -- none of them is a line break, a tab, an escape or another control character. The limit is
    -- three at least, and the printable characters of ASCII are no controls.
    pub safe_text-all-is_shown :
        (limit : ℕ) (s : Text)
        → 3 ≤ limit
        → (length (safe_text unicode limit s) ≤ limit)
          × (all is_shown (safe_text unicode limit s) ≡ true)
    unfolding safe_text
    safe_text-all-is_shown limit s h = (
      shortened-length limit (words unicode false false (map (cleaned unicode) s)) h,
      shortened-shown limit (words unicode false false (map (cleaned unicode) s))
          (words-shown false false (map (cleaned unicode) s) (cleaned-shown s)),
    )

    -- A text of printable ASCII is safe as it is.
    pub printable-shown : (s : Text) → all is_printable s ≡ true → all is_shown s ≡ true
    printable-shown [] h = refl
    printable-shown (c ∷ s) h = ground (arith, printable-shown s, v.printable c)
