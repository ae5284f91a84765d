-- ===== src/Hints/Eviction/Limit.antt =====
-- What an eviction leaves: no more entries than the limit, and those that expire last.
use qubes_snitch.Prelude.{
  ℕ, ◌-◌, ◌≤◌, ◌≡◌, refl, sym, ◌∙◌, List, Eq, Bool, true, none, length, take, length-take_of_le,
  if◌then◌else◌, arith,
}
use qubes_snitch.Prelude.Dict.{Dict, keys, get, has_key, IsUnique, length-keys}
use qubes_snitch.Hints.Evict.{picked, sorted, delete_all, evicted}
use qubes_snitch.Hints.Eviction.{
  AllIn, has_key_of_take, take-IsUnique, length-delete_all, delete_all-IsUnique, get-delete_all,
  has_key-picked, picked-IsUnique, picked-delete_all, length-picked-delete_all, has_key-sorted,
  sorted-IsUnique, length-sorted,
}

module _ {ℓ κ} {K : Type ℓ} {V : Type κ} ⦃e : Eq K⦄ (expires : V → ℕ) (now : ℕ) (test : K → Bool)
    (limit : ℕ) (m : Dict K V) where
  abbrev pub candidates : Dict K V
  candidates = picked test m

  -- The keys that the eviction deletes.
  abbrev pub deleted : List K
  deleted = take (length candidates - limit) (keys (sorted expires now candidates))

  deleted-AllIn : AllIn deleted (keys candidates)
  deleted-AllIn k h =
      sym (has_key-sorted expires now k candidates)
      ∙ has_key_of_take (length candidates - limit) k (keys (sorted expires now candidates)) h

  deleted_picked : (k : K) → has_key k deleted ≡ true → test k ≡ true
  deleted_picked k h = ground (arith, deleted-AllIn k h, has_key-picked test k m)

  length-deleted : length deleted ≡ length candidates - limit
  length-deleted =
      length-take_of_le (length candidates - limit) (keys (sorted expires now candidates)) (
        omega (
          arith,
          length-keys (sorted expires now candidates),
          length-sorted expires now candidates,
        ))

  module _ (u : IsUnique (keys m)) where
    -- No more of the picked entries are left than the limit.
    pub length-picked-evicted-le : length (picked test (evicted expires now test limit m)) ≤ limit
    unfolding evicted
    length-picked-evicted-le = rw (picked-delete_all test deleted m deleted_picked) (
        omega (
          arith,
          length-deleted,
          length-delete_all deleted candidates
              (take-IsUnique (length candidates - limit) (keys (sorted expires now candidates))
                (sorted-IsUnique expires now candidates (picked-IsUnique test m u)))
              (picked-IsUnique test m u) deleted-AllIn,
        ))

    pub evicted-IsUnique : IsUnique (keys (evicted expires now test limit m))
    unfolding evicted
    evicted-IsUnique = delete_all-IsUnique deleted m u

    -- An entry is deleted or stays what it was.
    pub get-evicted :
        (k : K)
        → get k (evicted expires now test limit m) ≡ (if has_key k deleted then none else get k m)
    unfolding evicted
    get-evicted k = get-delete_all deleted k m u

  pub length-picked-evicted :
      (other : K → Bool)
      → length (picked other (evicted expires now test limit m)) ≤ length (picked other m)
  unfolding evicted
  length-picked-evicted other = length-picked-delete_all other deleted m

  -- Nothing is deleted while there are no more entries than the limit.
  pub evicted_none : length (picked test m) ≤ limit → evicted expires now test limit m ≡ m
  unfolding evicted take delete_all
  evicted_none h = rw (none_over) refl
    where
      none_over : length (picked test m) - limit ≡ 0
      none_over = omega arith
