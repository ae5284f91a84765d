-- ===== src/Alerts/Buckets/Bounds.antt =====
-- The table of the buckets is bounded, and the last entry stays.
use qubes_snitch.Prelude.{
  ℕ, ◌≤◌, ◌≡◌, refl, [], ◌∷◌, ◌++◌, true, false, none, some, length, Eq, ◌==◌, ==_refl,
  if◌then◌else◌, arith, ap,
}
use qubes_snitch.Prelude.Dict
use qubes_snitch.Prelude.Dict.{
  Dict, keys, get, has, has_key, IsUnique, keys-remove, erase, erase-IsUnique, has_key-erase,
  snoc-IsUnique, get-remove, get-none_of_has, get-some_of_has,
}
use qubes_snitch.Alerts.Buckets.{Limits, Bucket, put_last, evict, log_allowed}

module _ {ℓ} (limits : Limits) {K : Type ℓ} where
  evict-bounded : (table : Dict K Bucket) → length (evict limits table) ≤ limits.max_entries
  unfolding evict
  evict-bounded [] = omega arith
  evict-bounded (x ∷ table) = ground (arith, evict-bounded table)

module _ {ℓ} (limits : Limits) {K : Type ℓ} ⦃e : Eq K⦄ where
  -- However many keys attackers choose, the table never holds more buckets than configured.
  pub log_allowed-bounded :
      (now : ℕ) (key : K) (table : Dict K Bucket)
      → length (log_allowed limits now key table).1 ≤ limits.max_entries
  unfolding log_allowed
  log_allowed-bounded now key table = evict-bounded limits _

  has-evict :
      (key : K) (table : Dict K Bucket) → has key (evict limits table) ≡ true → has key table ≡ true
  unfolding evict
  has-evict key [] h = h
  has-evict key ((j, b) ∷ table) h = ground (arith, has-evict key table)

  -- An eviction leaves the bucket of a key as it was, if it leaves it.
  pub get-evict :
      (key : K) (table : Dict K Bucket)
      → IsUnique (keys table)
      → has key (evict limits table) ≡ true
      → get key (evict limits table) ≡ get key table
  unfolding evict get
  get-evict key [] u h = refl
  get-evict key ((j, b) ∷ table) (new, u) h =
      ground (arith, get-evict key table u, has-evict key table)

  has_key-evict :
      (key : K) (table : Dict K Bucket)
      → has_key key (keys table) ≡ false
      → has_key key (keys (evict limits table)) ≡ false
  unfolding evict
  has_key-evict key [] h = h
  has_key-evict key ((j, b) ∷ table) h = ground (arith, has_key-evict key table)

  pub evict-IsUnique :
      (table : Dict K Bucket) → IsUnique (keys table) → IsUnique (keys (evict limits table))
  unfolding evict
  evict-IsUnique [] u = u
  evict-IsUnique ((j, b) ∷ table) (new, u) = ground (arith, evict-IsUnique table u)

  keys-snoc :
      (key : K) (b : Bucket) (table : Dict K Bucket)
      → keys (table ++ (key, b) ∷ []) ≡ keys table ++ key ∷ []
  keys-snoc key b [] = refl
  keys-snoc key b ((j, c) ∷ table) = ap (◌∷◌ j) (keys-snoc key b table)

  get-snoc :
      (key j : K) (b : Bucket) (table : Dict K Bucket)
      → get j (table ++ (key, b) ∷ [])
        ≡ (if has j table then get j table else if key == j then some b else none)
  unfolding get
  get-snoc key j b [] = ground arith
  get-snoc key j b ((i, c) ∷ table) = ground (arith, get-snoc key j b table)

  pub put_last-IsUnique :
      (key : K) (b : Bucket) (table : Dict K Bucket)
      → IsUnique (keys table)
      → IsUnique (keys (put_last limits key b table))
  put_last-IsUnique key b table u =
      rw (keys-snoc key b (Dict.remove key table), keys-remove key table)
        (snoc-IsUnique key (erase key (keys table))
          (rw (has_key-erase key key (keys table) u, ==_refl) refl)
          (erase-IsUnique key (keys table) u))

  pub get-put_last :
      (key j : K) (b : Bucket) (table : Dict K Bucket)
      → IsUnique (keys table)
      → get j (put_last limits key b table) ≡ (if key == j then some b else get j table)
  get-put_last key j b table u =
      rw
        (
          get-snoc key j b (Dict.remove key table),
          keys-remove key table,
          has_key-erase j key (keys table) u,
          get-remove key j table u,
        )
        (ground (arith, get-none_of_has j table))
