-- ===== src/Prelude/Result.antt =====
-- What a call of the program comes to: a value, or the exception that it raises.
use mathlib.Core.Path.{◌≡◌, refl}
use mathlib.Core.Bool.{Bool, true, false}

-- ValueError, KeyError, SystemExit, by which validation aborts, OSError, and struct.error.
pub data Error : Type 0 where
  value_error key_error system_exit os_error struct_error : Error

pub data Result {ℓ} (A : Type ℓ) : Type ℓ where
  err : Error → Result A
  ok : A → Result A

module _ {ℓ κ} {A : Type ℓ} {B : Type κ} where
  infixl 5 ◌>>=◌
  abbrev pub ◌>>=◌ : Result A → (A → Result B) → Result B
  err e >>= k = err e
  ok value >>= k = k value

-- if not b: raise e
abbrev pub require : Bool → Error → Result (Unit {0})
require false e = err e
require true e = ok tt

module _ {κ} {B : Type κ} where
  infixl 5 ◌>>◌
  abbrev pub ◌>>◌ : Result (Unit {0}) → Result B → Result B
  check >> rest = check >>= λ u. rest

module _ {ℓ κ} {A : Type ℓ} {B : Type κ} where
  -- A call that returns has made both of its parts return.
  pub >>=-eq-ok :
      (first : Result A) (then_ : A → Result B) {value : B}
      → (first >>= then_) ≡ ok value
      → (middle : A) × (first ≡ ok middle) × (then_ middle ≡ ok value)
  >>=-eq-ok (err e) then_ returned = cc
  >>=-eq-ok (ok middle) then_ returned = (middle, refl, returned)

pub require-true : (b : Bool) (e : Error) {u : Unit {0}} → require b e ≡ ok u → b ≡ true
require-true true e h = refl
require-true false e h = absurd (cc)

pub ok-injective {ℓ} : {A : Type ℓ} {a b : A} → ok a ≡ ok b → a ≡ b
ok-injective h = cc
