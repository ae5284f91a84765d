-- ===== src/Hints/History.antt =====
-- Runs of the threads that change the hint cache of qubes_snitch/dns_cache_runtime.py: refreshes,
-- and the cleanups of qubes_snitch/policy_runtime.py. Each is one critical section.
use qubes_snitch.Prelude.{
  ℕ, zero, suc, ◌+◌, ◌*◌, ◌≤◌, ◌≡◌, refl, Text, Text_eq, List, [], ◌∷◌, Eq, Bool, false, ◌&&◌,
  Option, none, some, any, length, ltb, ◌==◌, ℕ_eq, arith,
}
use qubes_snitch.Prelude.Dict.{Dict, keys, get, has_key, IsUnique, get-none_of_has}
use qubes_snitch.Request.{Ip}
use qubes_snitch.Hints.Evict.{picked}
use qubes_snitch.Hints.{
  ResponseKey_eq, NamesKey_eq, Cache, CacheLimits, of_source, store_dns_labels,
}
use qubes_snitch.Hints.Bounds.{IsBounded, IsWithin}
use qubes_snitch.Hints.Bounds.Stored.{store_dns_labels-IsWithin}
use qubes_snitch.Hints.Refresh.{AnswerSet}
use qubes_snitch.Hints.Lookup.{labels_and_ttl}
use qubes_snitch.Runtime.{without_source, without_hints}

-- A refresh: the time of its store, the source and the rule, and what the resolver answered.
pub record Lookup : Type 0 where
  pub at : ℕ
  pub source : Text
  pub qname : Text
  pub qtype : Text
  pub answers : Option AnswerSet

-- A refresh has answered, for a source, that a name has an address, and what it answered holds.
abbrev pub has_ip : Ip → Option AnswerSet → Bool
has_ip ip none = false
has_ip ip (some answers) = any (λ a. a == ip) answers.addresses

-- The seconds that an answer holds: its time to live, or 60 where that is 0 or missing.
abbrev pub lifetime : Option ℕ → ℕ
lifetime none = 60
lifetime (some zero) = 60
lifetime (some (suc n)) = suc n

abbrev pub holds_for : Option AnswerSet → ℕ
holds_for none = 0
holds_for (some answers) = lifetime answers.ttl

abbrev pub tells : ℕ → ℕ → Text → Ip → Text → Lookup → Bool
tells second now source ip name l =
    l.source == source
    && l.qname == name
    && has_ip ip l.answers
    && ltb now (l.at + holds_for l.answers * second)

abbrev pub empty : Cache
empty = record { responses = []; qnames = [] }

module _ (limits : CacheLimits) (second : ℕ) where
  -- The store of refresh_dns_rule.
  abbrev pub after : Lookup → Cache → Cache
  after l cache =
      let (labels, ttl) = labels_and_ttl l.qname l.answers in
      store_dns_labels limits l.at l.source l.qname l.qtype labels (ttl * second) cache

  -- The caches that a run comes to, with its refreshes, the last one first.
  pub data Reach : List Lookup → Cache → Type 0 where
    start : Reach [] empty
    refreshed :
        (l : Lookup) {ls : List Lookup} {c : Cache} → Reach ls c → Reach (l ∷ ls) (after l c)
    forgotten :
        (source : Text) {ls : List Lookup} {c : Cache}
        → Reach ls c
        → Reach ls (without_hints source c)

module _ {ℓ κ} {K : Type ℓ} {V : Type κ} ⦃e : Eq (Text × K)⦄ where
  has_key-without :
      (source : Text) (k : Text × K) (m : Dict (Text × K) V)
      → has_key k (keys m) ≡ false
      → has_key k (keys (without_source source m)) ≡ false
  unfolding without_source
  has_key-without source k [] h = refl
  has_key-without source k (((s, j), v) ∷ m) h = ground (arith, has_key-without source k m)

  without-IsUnique :
      (source : Text) (m : Dict (Text × K) V)
      → IsUnique (keys m)
      → IsUnique (keys (without_source source m))
  unfolding without_source
  without-IsUnique source [] u = tt
  without-IsUnique source (((s, j), v) ∷ m) u =
      ground (arith, without-IsUnique source m, has_key-without source (s, j) m)

  pub get-without :
      (source : Text) (k : Text × K) (v : V) (m : Dict (Text × K) V)
      → IsUnique (keys m)
      → get k (without_source source m) ≡ some v
      → get k m ≡ some v
  unfolding without_source get
  get-without source k v [] u h = h
  get-without source k v (((s, j), w) ∷ m) u h = ground (
    arith,
    get-without source k v m,
    has_key-without source (s, j) m,
    get-none_of_has (s, j) (without_source source m),
  )

  length-without-le :
      (source : Text) (m : Dict (Text × K) V) → length (without_source source m) ≤ length m
  unfolding without_source
  length-without-le source [] = omega arith
  length-without-le source (((s, j), v) ∷ m) = ground (arith, length-without-le source m)

  length-picked-without-le :
      (test : Text × K → Bool) (source : Text) (m : Dict (Text × K) V)
      → length (picked test (without_source source m)) ≤ length (picked test m)
  unfolding without_source picked
  length-picked-without-le test source [] = omega arith
  length-picked-without-le test source (((s, j), v) ∷ m) =
      ground (arith, length-picked-without-le test source m)

  without-IsBounded :
      (limits : CacheLimits) (source : Text) (m : Dict (Text × K) V)
      → IsBounded limits m
      → IsBounded limits (without_source source m)
  without-IsBounded limits source m b = record {
    unique = without-IsUnique source m b.unique;
    total = omega (arith, b.total, length-without-le source m);
    each = λ s. omega (arith, b.each s, length-picked-without-le (of_source s) source m);
  }

empty-IsWithin : (limits : CacheLimits) → IsWithin limits empty
unfolding picked
empty-IsWithin limits = record {
  responses = record { unique = tt; total = omega arith; each = λ s. omega arith };
  qnames = record { unique = tt; total = omega arith; each = λ s. omega arith };
}

-- Whatever refreshes and cleanups there were, the cache is within its limits: neither table has
-- two entries of a key, more than max_global entries, or more than max_per_source of a source.
pub Reach-IsWithin :
    (limits : CacheLimits) (second : ℕ) (ls : List Lookup) (c : Cache)
    → Reach limits second ls c
    → IsWithin limits c
unfolding without_hints
Reach-IsWithin limits second _ _ start = empty-IsWithin limits
Reach-IsWithin limits second _ _ (refreshed l {ls} {c} run) =
    store_dns_labels-IsWithin limits l.at l.source l.qname l.qtype _ _ c
      (Reach-IsWithin limits second ls c run)
Reach-IsWithin limits second _ _ (forgotten source {ls} {c} run) =
    let within = Reach-IsWithin limits second ls c run in
    record {
      responses = without-IsBounded limits source c.responses within.responses;
      qnames = without-IsBounded limits source c.qnames within.qnames;
    }
