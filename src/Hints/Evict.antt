-- ===== src/Hints/Evict.antt =====
-- The four functions evict_* of qubes_snitch/dns_cache_runtime.py do the same for two caches: of
-- the entries that a test picks they delete as many as are over the limit, in the order of a
-- stable sort by (expires_at > now, expires_at).
use qubes_snitch.Prelude.{
  ℕ, ◌-◌, List, [], ◌∷◌, Eq, Bool, ◌&&◌, ◌||◌, length, take, ltb, if◌then◌else◌,
}
use qubes_snitch.Prelude.Dict
use qubes_snitch.Prelude.Dict.{Dict, keys}

module _ {ℓ κ} {K : Type ℓ} {V : Type κ} where
  -- [key for key in cache if test(key)], with the values
  unfoldable pub picked : (K → Bool) → Dict K V → Dict K V
  picked test [] = []
  picked test ((k, v) ∷ m) = let rest = picked test m in if test k then (k, v) ∷ rest else rest

-- The order of the keys of the sort, pairs whose first part is false before true.
abbrev pub goes_first : ℕ → ℕ → ℕ → Bool
goes_first now a b = if ltb now a then ltb now b && ltb a b else ltb now b || ltb a b

module _ {ℓ κ} {K : Type ℓ} {V : Type κ} (expires : V → ℕ) (now : ℕ) where
  unfoldable pub insert_entry : K × V → Dict K V → Dict K V
  insert_entry (k, v) [] = (k, v) ∷ []
  insert_entry (k, v) ((j, w) ∷ m) =
      if goes_first now (expires w) (expires v)
      then (j, w) ∷ insert_entry (k, v) m
      else (k, v) ∷ (j, w) ∷ m

  unfoldable pub sorted : Dict K V → Dict K V
  sorted [] = []
  sorted ((k, v) ∷ m) = insert_entry (k, v) (sorted m)

module _ {ℓ κ} {K : Type ℓ} {V : Type κ} ⦃e : Eq K⦄ where
  -- for key in keys: del cache[key]
  unfoldable pub delete_all : List K → Dict K V → Dict K V
  delete_all [] m = m
  delete_all (k ∷ ks) m = delete_all ks (Dict.remove k m)

  -- With nothing over the limit the list of keys is empty.
  unfoldable pub evicted : (V → ℕ) → ℕ → (K → Bool) → ℕ → Dict K V → Dict K V
  unfolding picked sorted insert_entry delete_all
  evicted expires now test limit m =
      let candidates = picked test m in
      delete_all (take (length candidates - limit) (keys (sorted expires now candidates))) m
