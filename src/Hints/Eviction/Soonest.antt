-- ===== src/Hints/Eviction/Soonest.antt =====
-- The sort of an eviction puts the entries in the order of their expiry.
use qubes_snitch.Prelude.{
  ℕ, zero, suc, ◌-◌, ◌≤◌, ◌≡◌, refl, sym, ◌∙◌, inl, inr, [], ◌∷◌, Eq, Bool, true, false, none, some,
  length, take, ◌==◌, if◌then◌else◌, arith, Bool-cases,
}
use qubes_snitch.Prelude.Dict.{Dict, keys, get, has_key, IsUnique}
use qubes_snitch.Hints.Evict.{picked, insert_entry, sorted, goes_first, evicted}
use qubes_snitch.Hints.Eviction.{picked-IsUnique, get-picked, has_key-sorted}
use qubes_snitch.Hints.Eviction.Limit.{deleted, get-evicted}

goes_first-le : (now a b : ℕ) → goes_first now a b ≡ true → a ≤ b
goes_first-le now a b h = ground arith

not_goes_first-le : (now a b : ℕ) → goes_first now a b ≡ false → b ≤ a
not_goes_first-le now a b h = ground arith

module _ {ℓ κ} {K : Type ℓ} {V : Type κ} ⦃e : Eq K⦄ (expires : V → ℕ) (now : ℕ) where
  abbrev Later : ℕ → Dict K V → Type 0
  Later a [] = Unit
  Later a ((k, v) ∷ m) = (a ≤ expires v) × Later a m

  abbrev IsOrdered : Dict K V → Type 0
  IsOrdered [] = Unit
  IsOrdered ((k, v) ∷ m) = Later (expires v) m × IsOrdered m

  Later-trans : (a b : ℕ) (m : Dict K V) → a ≤ b → Later b m → Later a m
  Later-trans a b [] h l = tt
  Later-trans a b ((k, v) ∷ m) h (p, l) = (omega arith, Later-trans a b m h l)

  Later-insert :
      (a : ℕ) (k : K) (v : V) (m : Dict K V)
      → a ≤ expires v
      → Later a m
      → Later a (insert_entry expires now (k, v) m)
  unfolding insert_entry
  Later-insert a k v [] h l = (h, tt)
  Later-insert a k v ((j, w) ∷ m) h (p, l) = ground (arith, Later-insert a k v m h l)

  insert-IsOrdered :
      (k : K) (v : V) (m : Dict K V) → IsOrdered m → IsOrdered (insert_entry expires now (k, v) m)
  unfolding insert_entry
  insert-IsOrdered k v [] o = (tt, tt)
  insert-IsOrdered k v ((j, w) ∷ m) (l, o) =
      elim (Bool-cases (goes_first now (expires w) (expires v))) [
        | inl t ↦ rw t (
          Later-insert (expires w) k v m (goes_first-le now (expires w) (expires v) t) l,
          insert-IsOrdered k v m o,
        )
        | inr f ↦
            let le = not_goes_first-le now (expires w) (expires v) f in
            rw f ((le, Later-trans (expires v) (expires w) m le l), (l, o))
      ]

  sorted-IsOrdered : (m : Dict K V) → IsOrdered (sorted expires now m)
  unfolding sorted
  sorted-IsOrdered [] = tt
  sorted-IsOrdered ((k, v) ∷ m) = insert-IsOrdered k v (sorted expires now m) (sorted-IsOrdered m)

  get-insert :
      (j k : K) (v : V) (m : Dict K V)
      → has_key k (keys m) ≡ false
      → get j (insert_entry expires now (k, v) m) ≡ (if k == j then some v else get j m)
  unfolding insert_entry get
  get-insert j k v [] n = refl
  get-insert j k v ((i, w) ∷ m) n = ground (arith, get-insert j k v m)

  get-sorted : (j : K) (m : Dict K V) → IsUnique (keys m) → get j (sorted expires now m) ≡ get j m
  unfolding sorted get
  get-sorted j [] u = refl
  get-sorted j ((k, v) ∷ m) (n, u) = ground (
    arith,
    get-insert j k v (sorted expires now m) (has_key-sorted expires now k m ∙ n),
    get-sorted j m u,
  )

  get-Later : (a : ℕ) (j : K) (w : V) (m : Dict K V) → Later a m → get j m ≡ some w → a ≤ expires w
  unfolding get
  get-Later a j w [] l h = absurd (cc)
  get-Later a j w ((i, x) ∷ m) (p, l) h = ground (arith, get-Later a j w m l)

  first_keys-le :
      (n : ℕ) (k j : K) (v w : V) (m : Dict K V)
      → IsOrdered m
      → has_key k (take n (keys m)) ≡ true
      → has_key j (take n (keys m)) ≡ false
      → get k m ≡ some v
      → get j m ≡ some w
      → expires v ≤ expires w
  unfolding take get
  first_keys-le zero k j v w m o p q g h = absurd (cc)
  first_keys-le (suc n) k j v w [] o p q g h = absurd (cc)
  first_keys-le (suc n) k j v w ((i, x) ∷ m) (l, o) p q g h =
      ground (arith, get-Later (expires x) j w m l, first_keys-le n k j v w m o)

  module _ (test : K → Bool) (limit : ℕ) (m : Dict K V) (u : IsUnique (keys m)) where
    deleted_of_gone :
        (k : K) (v : V)
        → get k m ≡ some v
        → get k (evicted expires now test limit m) ≡ none
        → has_key k (deleted expires now test limit m) ≡ true
    deleted_of_gone k v g h = elim (Bool-cases (has_key k (deleted expires now test limit m))) [
      | inl t ↦ t
      | inr f ↦ absurd (clash (sym h ∙ get-evicted expires now test limit m u k ∙ rw f g))
    ]
      where
        clash : none ≡ some v → ⊥
        clash q = cc

    kept_of_there :
        (j : K) (w : V)
        → get j (evicted expires now test limit m) ≡ some w
        → (has_key j (deleted expires now test limit m) ≡ false) × (get j m ≡ some w)
    kept_of_there j w h = ground (arith, get-evicted expires now test limit m u j)

    -- A deleted entry expires no later than one that the test picks and that stays.
    pub evicted_soonest :
        (k j : K) (v w : V)
        → test k ≡ true
        → test j ≡ true
        → get k m ≡ some v
        → get k (evicted expires now test limit m) ≡ none
        → get j (evicted expires now test limit m) ≡ some w
        → expires v ≤ expires w
    evicted_soonest k j v w p q g gone there =
        let (kept, h) = kept_of_there j w there in
        let c = picked test m in
        let uc = picked-IsUnique test m u in
        first_keys-le (length c - limit) k j v w (sorted expires now c) (sorted-IsOrdered c)
          (deleted_of_gone k v g gone) kept (get-sorted k c uc ∙ (get-picked test k m p ∙ g))
          (get-sorted j c uc ∙ (get-picked test j m q ∙ h))
