-- ===== src/Prelude/Decimal.antt =====
-- int(s) on a text of digits, and str(n).
use Prim.Native.Nat.{ℕ, zero, suc, ◌+◌, ◌-◌, ◌*◌, ◌/◌, ◌%◌, ◌<◌}
use mathlib.Core.Path.{◌≡◌, refl}
use mathlib.Core.Bool.{true, false}
use mathlib.Core.List.{[], ◌∷◌, ◌++◌}
use native.Mathlib.Omega.{arith}
use qubes_snitch.Prelude.Tests.{Text, ltb, if◌then◌else◌, Bool-cases}
use mathlib.Core.Logic.{inl, inr}
use qubes_snitch.Prelude.Lists.{all, all-append}
use qubes_snitch.Prelude.Strings.{is_digit, is_digits, has_char}

read_from : ℕ → Text → ℕ
read_from acc [] = acc
read_from acc (c ∷ s) = read_from (acc * 10 + (c - b'0')) s

-- int(s)
unfoldable pub read : Text → ℕ
unfolding read_from
read s = read_from 0 s

-- One digit less of n for each unit of fuel.
show_fuel : ℕ → ℕ → Text
show_fuel zero n = []
show_fuel (suc f) n =
    let rest = show_fuel f (n / 10) in
    if ltb n 10 then (n + b'0') ∷ [] else rest ++ (n % 10 + b'0') ∷ []

-- str(n)
unfoldable pub show : ℕ → Text
unfolding show_fuel
show n = show_fuel (suc n) n

read_from-append :
    (acc : ℕ) (s : Text) (c : ℕ) → read_from acc (s ++ c ∷ []) ≡ read_from acc s * 10 + (c - b'0')
unfolding read_from
read_from-append acc [] c = refl
read_from-append acc (d ∷ s) c = read_from-append (acc * 10 + (d - b'0')) s c

read-show_fuel : (f n : ℕ) → n < f → read_from 0 (show_fuel f n) ≡ n
unfolding show_fuel
read-show_fuel zero n h = elim h [ ]
read-show_fuel (suc f) n h = elim (Bool-cases (ltb n 10)) [
  | inl small ↦ rw small (unfold read_from in omega arith)
  | inr big ↦ rw (big, read_from-append, read-show_fuel f (n / 10) (ground arith)) (omega arith)
]

-- int(str(n)) is n.
pub read-show : (n : ℕ) → read (show n) ≡ n
unfolding read show
read-show n = read-show_fuel (suc n) n (omega arith)

show_fuel-digits : (f n : ℕ) → n < f → is_digits (show_fuel f n) ≡ true
unfolding show_fuel
show_fuel-digits zero n h = elim h [ ]
show_fuel-digits (suc f) n h = elim (Bool-cases (ltb n 10)) [
  | inl small ↦ rw small (ground arith)
  | inr big ↦ rw big (
      is_digits-append (show_fuel f (n / 10)) (n % 10 + b'0')
        (show_fuel-digits f (n / 10) (ground arith)) (ground arith))
]
  where
    is_digits-append :
        (s : Text) (c : ℕ) → is_digits s ≡ true → is_digit c ≡ true → is_digits (s ++ c ∷ []) ≡ true
    is_digits-append [] c p q = cc
    is_digits-append (d ∷ s) c p q = ground (arith, all-append is_digit s (c ∷ []))

pub show-digits : (n : ℕ) → is_digits (show n) ≡ true
unfolding show
show-digits n = show_fuel-digits (suc n) n (omega arith)

all-digit-no-char :
    (c : ℕ) (s : Text) → is_digit c ≡ false → all is_digit s ≡ true → has_char c s ≡ false
unfolding has_char
all-digit-no-char c [] n h = refl
all-digit-no-char c (d ∷ s) n h = ground (arith, all-digit-no-char c s n)

-- A text of digits holds no other character.
pub has_char-digits :
    (c : ℕ) (s : Text) → is_digit c ≡ false → is_digits s ≡ true → has_char c s ≡ false
unfolding has_char
has_char-digits c [] n h = cc
has_char-digits c (d ∷ s) n h = ground (arith, all-digit-no-char c s n)

show_test : show 65535 ≡ b'6' ∷ b'5' ∷ b'5' ∷ b'3' ∷ b'5' ∷ []
unfolding show
show_test = refl
