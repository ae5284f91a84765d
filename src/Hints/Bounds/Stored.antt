-- ===== src/Hints/Bounds/Stored.antt =====
-- store_dns_labels of qubes_snitch/dns_cache_runtime.py keeps the hint cache within its limits.
use qubes_snitch.Prelude.{
  ℕ, ◌+◌, ◌≤◌, ◌≡◌, ◌≢◌, sym, ap, ◌∙◌, Text, Text_eq, Bool, length, arith, ==_ne,
}
use mathlib.Core.Path.{subst}
use qubes_snitch.Prelude.Dict.{Dict, keys, get, IsUnique}
use qubes_snitch.Request.{Ip}
use qubes_snitch.Hints.Evict.{picked, evicted}
use qubes_snitch.Hints.{
  Response, Names, ResponseKey, NamesKey, ResponseKey_eq, NamesKey_eq, Cache, CacheLimits,
  of_source, any_source, evict_responses, evict_qnames, remove_owned, old_labels,
  remove_old_qname_ips, with_labels, evict_dns_cache_for_source, evict_dns_cache_global,
  evict_qname_cache_for_source, evict_qname_cache_global, store_dns_labels,
}
use qubes_snitch.Hints.Bounds.{
  IsBounded, IsWithin, put-IsUnique, length-picked-put, twice-IsBounded, responses-evict,
  keys_qnames-evict, length-picked, picked_keys, remove_owned-IsUnique, length-picked-remove_owned,
  put_labels-IsUnique, length-picked-put_labels,
}

module _ (limits : CacheLimits) (now : ℕ) (source qname qtype : Text) (labels : Dict Ip Text)
    (ttl : ℕ) (cache : Cache) (within : IsWithin limits cache) where
  abbrev key : NamesKey
  key = (source, (qtype, qname))

  abbrev stored : Cache
  stored = with_labels key (now + ttl) labels cache

  abbrev old : Dict Ip Text
  old = old_labels (get key cache.qnames)

  responses-IsUnique : IsUnique (keys stored.responses)
  unfolding with_labels remove_old_qname_ips
  responses-IsUnique =
      put_labels-IsUnique source qtype qname (now + ttl) labels _
        (remove_owned-IsUnique key old cache.responses within.responses.unique)

  responses_others :
      (s : Text)
      → s ≢ source
      → length (picked (of_source s) stored.responses) ≤ limits.max_per_source
  unfolding with_labels remove_old_qname_ips
  responses_others s n = omega (
    arith,
    length-picked-put_labels source qtype qname (now + ttl) s labels
        (remove_owned key old cache.responses) n,
    length-picked-remove_owned (of_source s) key old cache.responses,
    within.responses.each s,
  )

  qnames-IsUnique : IsUnique (keys stored.qnames)
  unfolding with_labels remove_old_qname_ips
  qnames-IsUnique = put-IsUnique key _ cache.qnames within.qnames.unique

  qnames_others :
      (s : Text) → s ≢ source → length (picked (of_source s) stored.qnames) ≤ limits.max_per_source
  unfolding with_labels remove_old_qname_ips
  qnames_others s n = omega (
    arith,
    length-picked-put (of_source s) key (record { labels = labels; expires_at = now + ttl })
        cache.qnames (==_ne source s (λ q. n (sym q))),
    within.qnames.each s,
  )

  -- The cache after the evictions of responses.
  abbrev first : Cache
  first = evict_responses now (of_source source) limits.max_per_source stored

  abbrev second : Cache
  second = evict_responses now any_source limits.max_global first

  second-IsBounded : IsBounded limits second.responses
  second-IsBounded =
      subst (λ (m : Dict ResponseKey Response). IsBounded limits m)
        (sym (
          responses-evict now limits.max_global first any_source
          ∙ ap (evicted (λ (r : Response). r.expires_at) now any_source limits.max_global)
              (responses-evict now limits.max_per_source stored (of_source source))))
        (twice-IsBounded (λ (r : Response). r.expires_at) now limits source stored.responses
          responses-IsUnique responses_others)

  same_keys : keys second.qnames ≡ keys stored.qnames
  same_keys =
      keys_qnames-evict now limits.max_global first any_source
      ∙ keys_qnames-evict now limits.max_per_source stored (of_source source)

  length_same :
      (test : NamesKey → Bool)
      → length (picked test second.qnames) ≡ length (picked test stored.qnames)
  length_same test =
      length-picked test second.qnames
      ∙ (ap (picked_keys test) same_keys ∙ sym (length-picked test stored.qnames))

  -- A store keeps the cache within its limits: its keys differ, each of the two tables has at most
  -- max_global entries, and at most max_per_source of any source.
  pub store_dns_labels-IsWithin :
      IsWithin limits (store_dns_labels limits now source qname qtype labels ttl cache)
  unfolding store_dns_labels evict_dns_cache_for_source evict_dns_cache_global
      evict_qname_cache_for_source evict_qname_cache_global evict_qnames
  store_dns_labels-IsWithin = record {
    responses = second-IsBounded;
    qnames =
        twice-IsBounded (λ (n : Names). n.expires_at) now limits source second.qnames
          (subst IsUnique (sym same_keys) qnames-IsUnique)
          (λ s n. omega (arith, length_same (of_source s), qnames_others s n));
  }
