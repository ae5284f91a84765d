-- ===== src/Prelude/Strings.antt =====
-- The methods of Python's str that the program uses, on texts of code points.
use Prim.Native.Nat.{ℕ, ◌+◌, ◌-◌}
use mathlib.Core.Path.{◌≡◌, refl, ap}
use mathlib.Core.Bool.{Bool, true, false, ◌&&◌, ◌||◌}
use mathlib.Core.List.{List, [], ◌∷◌, ◌++◌, map}
use native.Mathlib.Omega.{arith}
use native.Mathlib.Decide.{ℕ_discrete}
use qubes_snitch.Prelude.Tests.{
  Text, Text_eq, ℕ_eq, Text-discrete as Text_dec, ◌==◌, leb, if◌then◌else◌,
}
use qubes_snitch.Prelude.Lists.{all}

-- str.lower on one code point, as far as what it gives is ASCII: the Kelvin sign becomes a k, and
-- any other code point beyond ASCII gives something beyond ASCII, for which it stands itself.
unfoldable pub lower_char : ℕ → ℕ
lower_char c = if leb b'A' c && leb c b'Z' then c + 32 else if c == 0x212a then b'k' else c

-- str.lower
abbrev pub lower : Text → Text
lower = map lower_char

abbrev pub is_digit : ℕ → Bool
is_digit c = leb b'0' c && leb c b'9'

-- str.isdigit, which is false on the empty text.
abbrev pub is_digits : Text → Bool
is_digits [] = false
is_digits (c ∷ s) = is_digit c && all is_digit s

-- s.startswith(p)
unfoldable pub starts_with : Text → Text → Bool
starts_with s [] = true
starts_with [] (c ∷ p) = false
starts_with (d ∷ s) (c ∷ p) = d == c && starts_with s p

-- s.endswith(p)
unfoldable pub ends_with : Text → Text → Bool
unfolding Text_dec
ends_with [] p = [] == p
ends_with (c ∷ s) p = (c ∷ s) == p || ends_with s p

-- s.rstrip(c) for one character.
push_kept : ℕ → ℕ → Text → Text
push_kept c x [] = if x == c then [] else x ∷ []
push_kept c x (y ∷ s) = x ∷ y ∷ s

unfoldable pub rstrip : ℕ → Text → Text
unfolding push_kept
rstrip c [] = []
rstrip c (x ∷ s) = push_kept c x (rstrip c s)

-- s.split(c) for one character: at least one part.
push_part : ℕ → List Text → List Text
push_part x [] = (x ∷ []) ∷ []
push_part x (p ∷ ps) = (x ∷ p) ∷ ps

unfoldable pub split : ℕ → Text → List Text
unfolding push_part
split c [] = [] ∷ []
split c (x ∷ s) = let rest = split c s in if x == c then [] ∷ rest else push_part x rest

-- c in s
unfoldable pub has_char : ℕ → Text → Bool
has_char c [] = false
has_char c (x ∷ s) = x == c || has_char c s

pub split_whole : (c : ℕ) (s : Text) → has_char c s ≡ false → split c s ≡ s ∷ []
unfolding split has_char
split_whole c [] h = refl
split_whole c (x ∷ s) h = ground (arith, split_whole c s)

pub split-append :
    (c : ℕ) (s t : Text) → has_char c s ≡ false → split c (s ++ c ∷ t) ≡ s ∷ split c t
unfolding split has_char
split-append c [] t h = ground arith
split-append c (x ∷ s) t h = ground (arith, split-append c s t)

-- s.split(c, 1), as the text before the first c and the text after it, if there is one.
unfoldable pub before : ℕ → Text → Text
before c [] = []
before c (x ∷ s) = if x == c then [] else x ∷ before c s

unfoldable pub after : ℕ → Text → Text
after c [] = []
after c (x ∷ s) = let rest = after c s in if x == c then s else rest

pub before-append : (c : ℕ) (s t : Text) → has_char c s ≡ false → before c (s ++ c ∷ t) ≡ s
unfolding before has_char
before-append c [] t h = ground arith
before-append c (x ∷ s) t h = ground (arith, before-append c s t)

pub after-append : (c : ℕ) (s t : Text) → has_char c s ≡ false → after c (s ++ c ∷ t) ≡ t
unfolding after has_char
after-append c [] t h = ground arith
after-append c (x ∷ s) t h = ground (arith, after-append c s t)

pub has_char-append : (c : ℕ) (s t : Text) → has_char c (s ++ t) ≡ (has_char c s || has_char c t)
unfolding has_char
has_char-append c [] t = refl
has_char-append c (x ∷ s) t = ground (arith, has_char-append c s t)

pub ends_with-append : (s p : Text) → ends_with (s ++ p) p ≡ true
unfolding ends_with
ends_with-append [] [] = refl
ends_with-append [] (x ∷ p) = ground arith
ends_with-append (x ∷ s) p = ground (arith, ends_with-append s p)

-- A text that ends with p is some text followed by p.
pub ends_with-split : (s p : Text) → ends_with s p ≡ true → (a : Text) × (s ≡ a ++ p)
unfolding ends_with
ends_with-split [] p h = ([], ground arith)
ends_with-split (x ∷ s) p h = elim (Text_dec (x ∷ s) p) [
  | yes e ↦ ([], e)
  | no e ↦ let (a, q) = ends_with-split s p (ground arith) in (x ∷ a, ap (◌∷◌ x) q)
]

-- str.upper on one code point, as far as what it gives is one of ASCII: the dotless i and the long s
-- beside the small letters. A ligature stands for itself, though str.upper takes it apart.
unfoldable pub upper_char : ℕ → ℕ
upper_char c =
    if leb b'a' c && leb c b'z'
    then c - 32
    else if c == 0x131
    then b'I'
    else if c == 0x17f
    then b'S'
    else c

-- str.upper
abbrev pub upper : Text → Text
upper = map upper_char

abbrev pub is_nonempty : Text → Bool
is_nonempty [] = false
is_nonempty (c ∷ s) = true

-- A test of every part of a list of parts but the first.
abbrev pub rest_all : (Text → Bool) → List Text → Bool
rest_all f [] = true
rest_all f (p ∷ ps) = all f ps

rest_all-push_part :
    (f : Text → Bool) (x : ℕ) (ps : List Text) → rest_all f (push_part x ps) ≡ rest_all f ps
unfolding push_part
rest_all-push_part f x [] = refl
rest_all-push_part f x (p ∷ ps) = refl

rest_all-of_all : (f : Text → Bool) (ps : List Text) → all f ps ≡ true → rest_all f ps ≡ true
rest_all-of_all f [] h = refl
rest_all-of_all f (p ∷ ps) h = ground arith

rstrip_of_rest : (c : ℕ) (s : Text) → rest_all is_nonempty (split c s) ≡ true → rstrip c s ≡ s
unfolding rstrip split
rstrip_of_rest c [] h = refl
rstrip_of_rest c (x ∷ s) h = elim (ℕ_discrete x c) [
  | yes e ↦
      rw (rstrip_of_rest c s (rest_all-of_all is_nonempty (split c s) (here e)), push_kept)
        (kept s (here e))
  | no e ↦
      rw (rstrip_of_rest c s (rw (← rest_all-push_part is_nonempty x (split c s)) (there e)))
        (single s e)
]
  where
    here : x ≡ c → all is_nonempty (split c s) ≡ true
    here e = ground arith

    there : (x ≡ c → ⊥) → rest_all is_nonempty (push_part x (split c s)) ≡ true
    there e = ground arith

    kept : (t : Text) → all is_nonempty (split c t) ≡ true → push_kept c x t ≡ x ∷ t
    kept [] k = cc
    kept (y ∷ t) k = refl

    single : (t : Text) → (x ≡ c → ⊥) → push_kept c x t ≡ x ∷ t
    single [] e = ground arith
    single (y ∷ t) e = refl

-- A text whose parts are all nonempty has no separator at its end.
pub rstrip_of_split : (c : ℕ) (s : Text) → all is_nonempty (split c s) ≡ true → rstrip c s ≡ s
rstrip_of_split c s h = rstrip_of_rest c s (rest_all-of_all is_nonempty (split c s) h)

all-push_part :
    (f : ℕ → Bool) (x : ℕ) (ps : List Text)
    → all (all f) (push_part x ps) ≡ true
    → (f x ≡ true) × (all (all f) ps ≡ true)
unfolding push_part
all-push_part f x [] h = ground arith
all-push_part f x (p ∷ ps) h = ground arith

-- What holds of the characters of every part and of the separator holds of the whole text.
pub all-split :
    (f : ℕ → Bool) (c : ℕ) (s : Text) → f c ≡ true → all (all f) (split c s) ≡ true → all f s ≡ true
unfolding split
all-split f c [] p h = refl
all-split f c (x ∷ s) p h = elim (ℕ_discrete x c) [
  | yes e ↦ ground (arith, all-split f c s p)
  | no e ↦
      let (hx, hs) = all-push_part f x (split c s) (ground arith) in
      ground (arith, all-split f c s p hs)
]

-- p in s
unfoldable pub contains : Text → Text → Bool
contains [] p = starts_with [] p
contains (c ∷ s) p = starts_with (c ∷ s) p || contains s p

-- The line breaks of str.splitlines and the white space of str.strip, among the characters of ASCII.
abbrev pub is_break : ℕ → Bool
is_break c = leb 10 c && leb c 13 || leb 28 c && leb c 30

abbrev pub is_blank : Text → Bool
is_blank s = all (λ c. leb 9 c && leb c 13 || leb 28 c && leb c 32) s

-- s.splitlines() on ASCII, with empty lines more: one between the two characters of a break by
-- carriage return and line feed, and one at the end.
unfoldable pub lines : Text → List Text
unfolding push_part
lines [] = [] ∷ []
lines (c ∷ s) = let rest = lines s in if is_break c then [] ∷ rest else push_part c rest
