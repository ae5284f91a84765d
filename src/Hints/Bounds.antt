-- ===== src/Hints/Bounds.antt =====
-- The memory of the hint cache is bounded, for each source and in all.
pub mod Stored
pub mod Soonest
use qubes_snitch.Prelude.{
  ℕ, suc, List, ◌+◌, ◌-◌, ◌≤◌, ◌≡◌, ◌≢◌, refl, sym, ap, ◌∙◌, inl, inr, Text, Text_eq, Text-discrete,
  [], ◌∷◌, Eq, Bool, true, false, ◌&&◌, Option, none, some, length, take, leb, ◌==◌, ==_refl, ==_ne,
  if◌then◌else◌, arith, Bool-cases,
}
use mathlib.Core.Path.{subst}
use qubes_snitch.Prelude.Dict
use qubes_snitch.Prelude.Dict.{Dict, keys, get, put, has, IsUnique, keys-put, snoc-IsUnique}
use qubes_snitch.Request.{Ip}
use qubes_snitch.Hints.Evict.{picked, sorted, delete_all, evicted}
use qubes_snitch.Hints.Eviction.{remove-IsUnique, length-picked-remove, length-picked-le}
use qubes_snitch.Hints.Eviction.Limit.{
  length-picked-evicted-le, length-picked-evicted, evicted-IsUnique, evicted_none,
}
use qubes_snitch.Hints.{
  Response, Names, ResponseKey, NamesKey, ResponseKey_eq, NamesKey_eq, Cache, CacheLimits,
  of_source, any_source, response_matches_qname, pruned, prune_qname_cache, evict_responses,
  evict_qnames, remove_owned, old_labels, remove_old_qname_ips, put_labels, with_labels,
  evict_dns_cache_for_source, evict_dns_cache_global, evict_qname_cache_for_source,
  evict_qname_cache_global, store_dns_labels,
}

-- One table: its keys differ, and neither a source nor all of them have too many entries.
pub record IsBounded {ℓ κ} {K : Type ℓ} {V : Type κ} ⦃e : Eq (Text × K)⦄ (limits : CacheLimits)
    (m : Dict (Text × K) V) : Type ℓ where
  pub unique : IsUnique (keys m)
  pub total : length m ≤ limits.max_global
  pub each : (source : Text) → length (picked (of_source source) m) ≤ limits.max_per_source

pub record IsWithin (limits : CacheLimits) (cache : Cache) : Type 0 where
  pub responses : IsBounded limits cache.responses
  pub qnames : IsBounded limits cache.qnames

module _ {ℓ κ} {K : Type ℓ} {V : Type κ} ⦃e : Eq K⦄ where
  picked-any : (test : K → Bool) (m : Dict K V) → ((k : K) → test k ≡ true) → picked test m ≡ m
  unfolding picked
  picked-any test [] h = refl
  picked-any test ((k, v) ∷ m) h = rw (h k) (ap (◌∷◌ (k, v)) (picked-any test m h))

  pub put-IsUnique :
      (k : K) (v : V) (m : Dict K V) → IsUnique (keys m) → IsUnique (keys (put k v m))
  put-IsUnique k v m u = elim (Bool-cases (has k m)) [
    | inl t ↦ subst IsUnique (sym (keys-put k v m ∙ rw t refl)) u
    | inr f ↦ subst IsUnique (sym (keys-put k v m ∙ rw f refl)) (snoc-IsUnique k (keys m) f u)
  ]

  pub length-picked-put :
      (test : K → Bool) (k : K) (v : V) (m : Dict K V)
      → test k ≡ false
      → length (picked test (put k v m)) ≡ length (picked test m)
  unfolding picked put
  length-picked-put test k v [] h = ground arith
  length-picked-put test k v ((j, w) ∷ m) h = ground (arith, length-picked-put test k v m)

-- Two evictions in a row bound a table in which only one source may have too many entries.
module _ {ℓ κ} {K : Type ℓ} {V : Type κ} ⦃e : Eq (Text × K)⦄ (expires : V → ℕ) (now : ℕ)
    (limits : CacheLimits) (source : Text) (m : Dict (Text × K) V) (u : IsUnique (keys m))
    (others : (s : Text)
      → s ≢ source
      → length (picked (of_source s) m) ≤ limits.max_per_source) where
  abbrev pub once : Dict (Text × K) V
  once = evicted expires now (of_source source) limits.max_per_source m

  once_each : (s : Text) → length (picked (of_source s) once) ≤ limits.max_per_source
  once_each s = elim (Text-discrete s source) [
    | yes p ↦
        rw p (length-picked-evicted-le expires now (of_source source) limits.max_per_source m u)
    | no n ↦ omega (
      arith,
      others s n,
      length-picked-evicted expires now (of_source source) limits.max_per_source m (of_source s),
    )
  ]

  once-IsUnique : IsUnique (keys once)
  once-IsUnique = evicted-IsUnique expires now (of_source source) limits.max_per_source m u

  pub twice-IsBounded : IsBounded limits (evicted expires now any_source limits.max_global once)
  twice-IsBounded = record {
    unique = evicted-IsUnique expires now any_source limits.max_global once once-IsUnique;
    total =
        subst (λ (l : Dict (Text × K) V). length l ≤ limits.max_global)
          (picked-any any_source (evicted expires now any_source limits.max_global once)
            (λ k. refl))
          (length-picked-evicted-le expires now any_source limits.max_global once once-IsUnique);
    each = λ s. omega (
      arith,
      once_each s,
      length-picked-evicted expires now any_source limits.max_global once (of_source s),
    );
  }

-- What an eviction makes of either table.
module _ (now : ℕ) (limit : ℕ) (cache : Cache) where
  pub responses-evict :
      (test : ResponseKey → Bool)
      → (evict_responses now test limit cache).responses
        ≡ evicted (λ (r : Response). r.expires_at) now test limit cache.responses
  unfolding evict_responses prune_qname_cache
  responses-evict test = elim (Bool-cases (leb (length (picked test cache.responses)) limit)) [
    | inl t ↦ rw t (
        sym (
          evicted_none (λ (r : Response). r.expires_at) now test limit cache.responses
            (ground arith)))
    | inr f ↦ rw f refl
  ]

  keys-pruned :
      (responses : Dict ResponseKey Response) (m : Dict NamesKey Names)
      → keys (pruned responses m) ≡ keys m
  unfolding pruned
  keys-pruned responses [] = refl
  keys-pruned responses ((k, v) ∷ m) = ap (◌∷◌ k) (keys-pruned responses m)

  pub keys_qnames-evict :
      (test : ResponseKey → Bool)
      → keys (evict_responses now test limit cache).qnames ≡ keys cache.qnames
  unfolding evict_responses prune_qname_cache
  keys_qnames-evict test = elim (Bool-cases (leb (length (picked test cache.responses)) limit)) [
    | inl t ↦ rw t refl
    | inr f ↦ rw f (
        keys-pruned (evicted (λ (r : Response). r.expires_at) now test limit cache.responses)
          cache.qnames)
  ]

-- The number of picked entries is told by the keys.
module _ {ℓ} {K : Type ℓ} (test : K → Bool) where
  abbrev pub picked_keys : List K → ℕ
  picked_keys [] = 0
  picked_keys (k ∷ ks) = if test k then suc (picked_keys ks) else picked_keys ks

module _ {ℓ κ} {K : Type ℓ} {V : Type κ} (test : K → Bool) where
  pub length-picked : (m : Dict K V) → length (picked test m) ≡ picked_keys test (keys m)
  unfolding picked
  length-picked [] = refl
  length-picked ((k, v) ∷ m) = ground (arith, length-picked m)

pub remove_owned-IsUnique :
    (key : NamesKey) (labels : Dict Ip Text) (m : Dict ResponseKey Response)
    → IsUnique (keys m)
    → IsUnique (keys (remove_owned key labels m))
unfolding remove_owned
remove_owned-IsUnique key [] m u = u
remove_owned-IsUnique (source, (qtype, qname)) ((ip, label) ∷ labels) m u =
    elim (response_matches_qname (get (source, ip) m) qname qtype label)
      as (λ b. IsUnique (
        keys (
          remove_owned (source, (qtype, qname)) labels
            (if b then Dict.remove (source, ip) m else m)))) [
              | true ↦
                  remove_owned-IsUnique (source, (qtype, qname)) labels (Dict.remove (source, ip) m)
                    (remove-IsUnique (source, ip) m u)
              | false ↦ remove_owned-IsUnique (source, (qtype, qname)) labels m u
            ]

pub length-picked-remove_owned :
    (test : ResponseKey → Bool) (key : NamesKey) (labels : Dict Ip Text)
    (m : Dict ResponseKey Response)
    → length (picked test (remove_owned key labels m)) ≤ length (picked test m)
unfolding remove_owned
length-picked-remove_owned test key [] m = omega arith
length-picked-remove_owned test (source, (qtype, qname)) ((ip, label) ∷ labels) m =
    elim (response_matches_qname (get (source, ip) m) qname qtype label)
      as (λ b.
        length (
          picked test (
            remove_owned (source, (qtype, qname)) labels
              (if b then Dict.remove (source, ip) m else m)))
        ≤ length (picked test m)) [
          | true ↦ omega (
            arith,
            length-picked-remove_owned test (source, (qtype, qname)) labels
                (Dict.remove (source, ip) m),
            length-picked-remove test (source, ip) m,
          )
          | false ↦ length-picked-remove_owned test (source, (qtype, qname)) labels m
        ]

module _ (source qtype qname : Text) (expires_at : ℕ) where
  pub put_labels-IsUnique :
      (labels : Dict Ip Text) (m : Dict ResponseKey Response)
      → IsUnique (keys m)
      → IsUnique (keys (put_labels (source, (qtype, qname)) expires_at labels m))
  unfolding put_labels
  put_labels-IsUnique [] m u = u
  put_labels-IsUnique ((ip, label) ∷ labels) m u =
      put_labels-IsUnique labels _ (put-IsUnique (source, ip) _ m u)

  pub length-picked-put_labels :
      (s : Text) (labels : Dict Ip Text) (m : Dict ResponseKey Response)
      → s ≢ source
      → length (picked (of_source s) (put_labels (source, (qtype, qname)) expires_at labels m))
        ≡ length (picked (of_source s) m)
  unfolding put_labels
  length-picked-put_labels s [] m n = refl
  length-picked-put_labels s ((ip, label) ∷ labels) m n =
      length-picked-put_labels s labels _ n
      ∙ length-picked-put (of_source s) (source, ip) _ m (==_ne source s (λ q. n (sym q)))
