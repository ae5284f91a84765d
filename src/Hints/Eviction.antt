-- ===== src/Hints/Eviction.antt =====
-- What an eviction of qubes_snitch/dns_cache_runtime.py leaves: no more entries than the limit,
-- and those that expire last.
pub mod Limit
pub mod Soonest
use qubes_snitch.Prelude.{
  ℕ, zero, suc, ◌+◌, ◌-◌, ◌≤◌, ◌≡◌, refl, sym, ap, ◌∙◌, ◌≢◌, inl, inr, List, [], ◌∷◌, Eq, Bool,
  true, false, ◌&&◌, ◌||◌, not, Option, none, some, length, take, drop, ltb, leb, All, ◌==◌,
  ==_refl, ==_ne, if◌then◌else◌, arith, Bool-cases,
}
use qubes_snitch.Prelude.Dict
use qubes_snitch.Prelude.Dict.{
  Dict, keys, get, has_key, IsUnique, erase, keys-remove, has_key-erase, erase-IsUnique, get-remove,
  length-keys, length-remove,
}
use qubes_snitch.Hints.Evict.{picked, insert_entry, sorted, goes_first, delete_all, evicted}

module _ {ℓ} {K : Type ℓ} ⦃e : Eq K⦄ where
  has_key-take :
      (n : ℕ) (k : K) (ks : List K) → has_key k ks ≡ false → has_key k (take n ks) ≡ false
  unfolding take
  has_key-take zero k ks h = refl
  has_key-take (suc n) k [] h = refl
  has_key-take (suc n) k (j ∷ ks) h = ground (arith, has_key-take n k ks)

  take-IsUnique : (n : ℕ) (ks : List K) → IsUnique ks → IsUnique (take n ks)
  unfolding take
  take-IsUnique zero ks u = tt
  take-IsUnique (suc n) [] u = tt
  take-IsUnique (suc n) (j ∷ ks) u = (has_key-take n j ks u.0, take-IsUnique n ks u.1)

  has_key_of_take :
      (n : ℕ) (k : K) (ks : List K) → has_key k (take n ks) ≡ true → has_key k ks ≡ true
  has_key_of_take n k ks h = elim (Bool-cases (has_key k ks)) [
    | inl t ↦ t
    | inr f ↦ absurd (clash (sym h ∙ has_key-take n k ks f))
  ]
    where
      clash : true ≡ false → ⊥
      clash q = cc

  length-erase_of_has :
      (k : K) (ks : List K) → has_key k ks ≡ true → suc (length (erase k ks)) ≡ length ks
  unfolding erase
  length-erase_of_has k [] h = absurd (cc)
  length-erase_of_has k (j ∷ ks) h = ground (arith, length-erase_of_has k ks)

  -- Every key of the first list is in the second.
  abbrev AllIn : List K → List K → Type ℓ
  AllIn ks js = (k : K) → has_key k ks ≡ true → has_key k js ≡ true

  AllIn-head : (k : K) (ks js : List K) → AllIn (k ∷ ks) js → has_key k js ≡ true
  AllIn-head k ks js h = h k (rw (==_refl k) refl)

  AllIn-erase :
      (k : K) (ks js : List K)
      → has_key k ks ≡ false
      → IsUnique js
      → AllIn (k ∷ ks) js
      → AllIn ks (erase k js)
  AllIn-erase k ks js n u h j p = has_key-erase j k js u ∙ ground (arith, h j (ground arith))

module _ {ℓ κ} {K : Type ℓ} {V : Type κ} ⦃e : Eq K⦄ where
  length-remove_of_has :
      (k : K) (m : Dict K V) → has_key k (keys m) ≡ true → suc (length (Dict.remove k m)) ≡ length m
  length-remove_of_has k m h =
      ap suc (sym (length-keys (Dict.remove k m)) ∙ ap length (keys-remove k m))
      ∙ (length-erase_of_has k (keys m) h ∙ length-keys m)

  pub remove-IsUnique :
      (k : K) (m : Dict K V) → IsUnique (keys m) → IsUnique (keys (Dict.remove k m))
  remove-IsUnique k m u = rw (keys-remove k m) (erase-IsUnique k (keys m) u)

  -- Keys that are there are deleted each, and no other entry is.
  length-delete_all :
      (ks : List K) (m : Dict K V)
      → IsUnique ks
      → IsUnique (keys m)
      → AllIn ks (keys m)
      → length (delete_all ks m) + length ks ≡ length m
  unfolding delete_all
  length-delete_all [] m d u h = omega arith
  length-delete_all (k ∷ ks) m (n, d) u h = omega (
    arith,
    length-remove_of_has k m (AllIn-head k ks (keys m) h),
    length-delete_all ks (Dict.remove k m) d (remove-IsUnique k m u)
        (rw (keys-remove k m) (AllIn-erase k ks (keys m) n u h)),
  )

  pub delete_all-IsUnique :
      (ks : List K) (m : Dict K V) → IsUnique (keys m) → IsUnique (keys (delete_all ks m))
  unfolding delete_all
  delete_all-IsUnique [] m u = u
  delete_all-IsUnique (k ∷ ks) m u =
      delete_all-IsUnique ks (Dict.remove k m) (remove-IsUnique k m u)

  get-delete_all :
      (ks : List K) (j : K) (m : Dict K V)
      → IsUnique (keys m)
      → get j (delete_all ks m) ≡ (if has_key j ks then none else get j m)
  unfolding delete_all
  get-delete_all [] j m u = refl
  get-delete_all (k ∷ ks) j m u =
      ground
        (arith, get-delete_all ks j (Dict.remove k m) (remove-IsUnique k m u), get-remove k j m u)

  module _ (test : K → Bool) where
    pub has_key-picked :
        (k : K) (m : Dict K V) → has_key k (keys (picked test m)) ≡ (test k && has_key k (keys m))
    unfolding picked
    has_key-picked k [] = ground arith
    has_key-picked k ((j, v) ∷ m) = ground (arith, has_key-picked k m)

    pub picked-IsUnique : (m : Dict K V) → IsUnique (keys m) → IsUnique (keys (picked test m))
    unfolding picked
    picked-IsUnique [] u = tt
    picked-IsUnique ((j, v) ∷ m) u = ground (arith, picked-IsUnique m, has_key-picked j m)

    pub get-picked : (k : K) (m : Dict K V) → test k ≡ true → get k (picked test m) ≡ get k m
    unfolding picked get
    get-picked k [] h = refl
    get-picked k ((j, v) ∷ m) h = ground (arith, get-picked k m)

    picked-remove :
        (k : K) (m : Dict K V)
        → test k ≡ true
        → picked test (Dict.remove k m) ≡ Dict.remove k (picked test m)
    unfolding picked Dict.remove
    picked-remove k [] h = refl
    picked-remove k ((j, v) ∷ m) h = ground (arith, picked-remove k m)

    pub length-picked-remove :
        (k : K) (m : Dict K V) → length (picked test (Dict.remove k m)) ≤ length (picked test m)
    unfolding picked Dict.remove
    length-picked-remove k [] = omega arith
    length-picked-remove k ((j, v) ∷ m) = ground (arith, length-picked-remove k m)

    pub length-picked-le : (m : Dict K V) → length (picked test m) ≤ length m
    unfolding picked
    length-picked-le [] = omega arith
    length-picked-le ((j, v) ∷ m) = ground (arith, length-picked-le m)

    pub length-picked-delete_all :
        (ks : List K) (m : Dict K V)
        → length (picked test (delete_all ks m)) ≤ length (picked test m)
    unfolding delete_all
    length-picked-delete_all [] m = omega arith
    length-picked-delete_all (k ∷ ks) m =
        omega (arith, length-picked-delete_all ks (Dict.remove k m), length-picked-remove k m)

    picked-delete_all :
        (ks : List K) (m : Dict K V)
        → ((k : K) → has_key k ks ≡ true → test k ≡ true)
        → picked test (delete_all ks m) ≡ delete_all ks (picked test m)
    unfolding delete_all
    picked-delete_all [] m h = refl
    picked-delete_all (k ∷ ks) m h =
        picked-delete_all ks (Dict.remove k m) (λ j p. h j (ground arith))
        ∙ ap (delete_all ks) (picked-remove k m (h k (rw (==_refl k) refl)))

  module _ (expires : V → ℕ) (now : ℕ) where
    has_key-insert :
        (j k : K) (v : V) (m : Dict K V)
        → has_key j (keys (insert_entry expires now (k, v) m)) ≡ (k == j || has_key j (keys m))
    unfolding insert_entry
    has_key-insert j k v [] = refl
    has_key-insert j k v ((i, w) ∷ m) = ground (arith, has_key-insert j k v m)

    insert-IsUnique :
        (k : K) (v : V) (m : Dict K V)
        → has_key k (keys m) ≡ false
        → IsUnique (keys m)
        → IsUnique (keys (insert_entry expires now (k, v) m))
    unfolding insert_entry
    insert-IsUnique k v [] n u = (refl, tt)
    insert-IsUnique k v ((i, w) ∷ m) n u =
        ground (arith, insert-IsUnique k v m, has_key-insert i k v m)

    has_key-sorted :
        (j : K) (m : Dict K V) → has_key j (keys (sorted expires now m)) ≡ has_key j (keys m)
    unfolding sorted
    has_key-sorted j [] = refl
    has_key-sorted j ((k, v) ∷ m) =
        ground (arith, has_key-sorted j m, has_key-insert j k v (sorted expires now m))

    sorted-IsUnique : (m : Dict K V) → IsUnique (keys m) → IsUnique (keys (sorted expires now m))
    unfolding sorted
    sorted-IsUnique [] u = tt
    sorted-IsUnique ((k, v) ∷ m) (n, u) =
        insert-IsUnique k v (sorted expires now m) (has_key-sorted k m ∙ n) (sorted-IsUnique m u)

    length-insert :
        (k : K) (v : V) (m : Dict K V) → length (insert_entry expires now (k, v) m) ≡ suc (length m)
    unfolding insert_entry
    length-insert k v [] = refl
    length-insert k v ((i, w) ∷ m) = ground (arith, length-insert k v m)

    length-sorted : (m : Dict K V) → length (sorted expires now m) ≡ length m
    unfolding sorted
    length-sorted [] = refl
    length-sorted ((k, v) ∷ m) = length-insert k v (sorted expires now m) ∙ ap suc (length-sorted m)
