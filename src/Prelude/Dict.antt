-- ===== src/Prelude/Dict.antt =====
-- Python's dict: an association list in insertion order.
use Prim.Native.Nat.{suc, ◌≤◌}
use qubes_snitch.Prelude.Tests.{Eq, ◌==◌, if◌then◌else◌}
use qubes_snitch.Prelude.Lists.{length, All}
use mathlib.Core.Path.{◌≡◌, refl, ap}
use mathlib.Core.Bool.{Bool, true, false, ◌||◌, ◌&&◌, not}
use mathlib.Core.Option.{Option, none, some}
use mathlib.Core.List.{List, [], ◌∷◌, ◌++◌}
use native.Mathlib.Omega.{arith}

abbrev pub Dict {ℓ κ} : Type ℓ → Type κ → Type (ℓ ⊔ κ)
Dict K V = List (K × V)

module _ {ℓ κ} {K : Type ℓ} {V : Type κ} where
  abbrev pub keys : Dict K V → List K
  keys [] = []
  keys ((k, v) ∷ m) = k ∷ keys m

  pub length-keys : (m : Dict K V) → length (keys m) ≡ length m
  length-keys [] = refl
  length-keys ((k, v) ∷ m) = ap suc (length-keys m)

module _ {ℓ} {K : Type ℓ} ⦃e : Eq K⦄ where
  -- A key is among the keys.
  abbrev pub has_key : K → List K → Bool
  has_key k [] = false
  has_key k (j ∷ js) = j == k || has_key k js

  abbrev pub IsUnique : List K → Type 0
  IsUnique [] = Unit
  IsUnique (k ∷ ks) = (has_key k ks ≡ false) × IsUnique ks

  unfoldable pub erase : K → List K → List K
  erase k [] = []
  erase k (j ∷ js) = if j == k then js else j ∷ erase k js

  pub has_key-erase :
      (j k : K) (ks : List K)
      → IsUnique ks
      → has_key j (erase k ks) ≡ (not (k == j) && has_key j ks)
  unfolding erase
  has_key-erase j k [] u = ground arith
  has_key-erase j k (i ∷ ks) u = ground (arith, has_key-erase j k ks)

  pub erase-IsUnique : (k : K) (ks : List K) → IsUnique ks → IsUnique (erase k ks)
  unfolding erase
  erase-IsUnique k [] u = tt
  erase-IsUnique k (i ∷ ks) u = ground (arith, erase-IsUnique k ks, has_key-erase i k ks)

  pub has_key-snoc : (j k : K) (ks : List K) → has_key j (ks ++ k ∷ []) ≡ (has_key j ks || k == j)
  has_key-snoc j k [] = ground arith
  has_key-snoc j k (i ∷ ks) = ground (arith, has_key-snoc j k ks)

  pub snoc-IsUnique :
      (k : K) (ks : List K) → has_key k ks ≡ false → IsUnique ks → IsUnique (ks ++ k ∷ [])
  snoc-IsUnique k [] h u = (refl, tt)
  snoc-IsUnique k (i ∷ ks) h u = ground (arith, has_key-snoc i k ks, snoc-IsUnique k ks)

  pub length-erase : (k : K) (ks : List K) → length (erase k ks) ≤ length ks
  unfolding erase
  length-erase k [] = omega arith
  length-erase k (i ∷ ks) = ground (arith, length-erase k ks)

module _ {ℓ κ} {K : Type ℓ} {V : Type κ} ⦃e : Eq K⦄ where
  -- d.get(k)
  unfoldable pub get : K → Dict K V → Option V
  get k [] = none
  get k ((j, v) ∷ m) = if j == k then some v else get k m

  -- d[k] = v
  unfoldable pub put : K → V → Dict K V → Dict K V
  put k v [] = (k, v) ∷ []
  put k v ((j, w) ∷ m) = if j == k then (j, v) ∷ m else (j, w) ∷ put k v m

  -- del d[k] where k is there; d.pop(k, None) in any case.
  unfoldable pub remove : K → Dict K V → Dict K V
  remove k [] = []
  remove k ((j, v) ∷ m) = if j == k then m else (j, v) ∷ remove k m

  -- k in d
  abbrev pub has : K → Dict K V → Bool
  has k m = has_key k (keys m)

  pub get-put :
      (k j : K) (v : V) (m : Dict K V) → get j (put k v m) ≡ (if k == j then some v else get j m)
  unfolding get put
  get-put k j v [] = refl
  get-put k j v ((i, w) ∷ m) = ground (arith, get-put k j v m)

  pub keys-remove : (k : K) (m : Dict K V) → keys (remove k m) ≡ erase k (keys m)
  unfolding remove erase
  keys-remove k [] = refl
  keys-remove k ((j, v) ∷ m) = ground (arith, keys-remove k m)

  -- A new key goes to the end.
  pub put_new : (k : K) (v : V) (m : Dict K V) → has k m ≡ false → put k v m ≡ m ++ (k, v) ∷ []
  unfolding put
  put_new k v [] h = refl
  put_new k v ((j, w) ∷ m) h = ground (arith, put_new k v m)

  pub has-put : (k j : K) (v : V) (m : Dict K V) → has j (put k v m) ≡ (k == j || has j m)
  unfolding put
  has-put k j v [] = ground arith
  has-put k j v ((i, w) ∷ m) = ground (arith, has-put k j v m)

  pub keys-put :
      (k : K) (v : V) (m : Dict K V)
      → keys (put k v m) ≡ (if has k m then keys m else keys m ++ k ∷ [])
  unfolding put
  keys-put k v [] = refl
  keys-put k v ((j, w) ∷ m) = ground (arith, keys-put k v m)

  pub get-none_of_has : (k : K) (m : Dict K V) → has k m ≡ false → get k m ≡ none
  unfolding get
  get-none_of_has k [] h = refl
  get-none_of_has k ((j, v) ∷ m) h = ground (arith, get-none_of_has k m)

  pub get-some_of_has : (k : K) (m : Dict K V) → has k m ≡ true → (v : V) × (get k m ≡ some v)
  unfolding get
  get-some_of_has k [] h = absurd (false-true h)
    where
      false-true : false ≡ true → ⊥
      false-true q = cc
  get-some_of_has k ((j, v) ∷ m) h = elim (e.dec j k) [
    | yes p ↦ (v, ground arith)
    | no p ↦ let (w, q) = get-some_of_has k m (ground arith) in (w, ground arith)
  ]

  pub get-remove :
      (k j : K) (m : Dict K V)
      → IsUnique (keys m)
      → get j (remove k m) ≡ (if k == j then none else get j m)
  unfolding get remove
  get-remove k j [] u = ground arith
  get-remove k j ((i, v) ∷ m) u =
      ground (arith, get-remove k j m, get-none_of_has k m, get-none_of_has j m)

  pub All-remove {μ} : (P : K × V → Type μ) (k : K) (m : Dict K V) → All P m → All P (remove k m)
  unfolding remove
  All-remove P k [] h = tt
  All-remove P k ((j, v) ∷ m) h = ground (arith, All-remove P k m)

  pub length-remove : (k : K) (m : Dict K V) → length (remove k m) ≤ length m
  unfolding remove
  length-remove k [] = omega arith
  length-remove k ((j, v) ∷ m) = ground (arith, length-remove k m)
