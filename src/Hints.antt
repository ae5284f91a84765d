-- ===== src/Hints.antt =====
-- The DNS hint cache of qubes_snitch/dns_cache_runtime.py: its two tables, and the store that
-- keeps them bounded. An address is its number, as in the requests, and a time is a number of
-- ticks.
pub mod Evict
pub mod Eviction
pub mod Bounds
pub mod Refresh
pub mod Lookup
pub mod Origin
pub mod History
pub mod Shown
pub mod Answered
pub mod Enriched
use qubes_snitch.Prelude.{
  ℕ, ◌+◌, Text, Text_eq, Text-discrete, ℕ_discrete, [], ◌∷◌, Eq, Bool, true, false, ◌&&◌, Option,
  none, some, leb, length, ◌==◌, if◌then◌else◌,
}
use qubes_snitch.Prelude.Dict
use qubes_snitch.Prelude.Dict.{Dict, get, put}
use qubes_snitch.Request.{Ip}
use qubes_snitch.Hints.Evict.{picked, evicted}

-- A value of DNS_RESPONSE_CACHE.
pub record Response : Type 0 where
  pub label : Text
  pub qname : Text
  pub qtype : Text
  pub expires_at : ℕ

-- A value of DNS_QNAME_CACHE.
pub record Names : Type 0 where
  pub labels : Dict Ip Text
  pub expires_at : ℕ

-- (source, ip)
abbrev pub ResponseKey : Type 0
ResponseKey = Text × Ip

-- (source, qtype, qname)
abbrev pub NamesKey : Type 0
NamesKey = Text × (Text × Text)

unfoldable pub ResponseKey-discrete : Discrete ResponseKey
unfolding Text-discrete ℕ_discrete
ResponseKey-discrete = hlevel (Text-discrete, ℕ_discrete)

unfoldable pub NamesKey-discrete : Discrete NamesKey
unfolding Text-discrete
NamesKey-discrete = hlevel Text-discrete

instance abbrev pub ResponseKey_eq : Eq ResponseKey
ResponseKey_eq = record { dec = ResponseKey-discrete }

instance abbrev pub NamesKey_eq : Eq NamesKey
NamesKey_eq = record { dec = NamesKey-discrete }

pub record Cache : Type 0 where
  pub responses : Dict ResponseKey Response
  pub qnames : Dict NamesKey Names

-- dns_cache_max_per_source and dns_cache_max_global of the configuration
pub record CacheLimits : Type 0 where
  pub max_per_source : ℕ
  pub max_global : ℕ

unfoldable pub response_matches_qname : Option Response → Text → Text → Text → Bool
response_matches_qname none qname qtype label = false
response_matches_qname (some response) qname qtype label =
    response.qname == qname && response.qtype == qtype && response.label == label

-- The inner loop of prune_qname_cache.
unfoldable pub owned_labels : Dict ResponseKey Response → NamesKey → Dict Ip Text → Dict Ip Text
unfolding response_matches_qname
owned_labels responses key [] = []
owned_labels responses (source, (qtype, qname)) ((ip, label) ∷ labels) =
    let rest = owned_labels responses (source, (qtype, qname)) labels in
    if response_matches_qname (get (source, ip) responses) qname qtype label
    then (ip, label) ∷ rest
    else rest

unfoldable pub pruned : Dict ResponseKey Response → Dict NamesKey Names → Dict NamesKey Names
unfolding owned_labels
pruned responses [] = []
pruned responses ((key, cached) ∷ m) =
    (key, record cached { labels = owned_labels responses key cached.labels }) ∷ pruned responses m

unfoldable pub prune_qname_cache : Cache → Cache
unfolding pruned
prune_qname_cache cache = record cache { qnames = pruned cache.responses cache.qnames }

abbrev pub of_source {ℓ} : {K : Type ℓ} → Text → Text × K → Bool
of_source source (s, k) = s == source

abbrev pub any_source {ℓ} : {K : Type ℓ} → K → Bool
any_source k = true

-- evict_dns_cache_for_source and evict_dns_cache_global: the qnames are pruned only when a
-- response is deleted.
unfoldable pub evict_responses : ℕ → (ResponseKey → Bool) → ℕ → Cache → Cache
unfolding prune_qname_cache evicted picked
evict_responses now test limit cache =
    if leb (length (picked test cache.responses)) limit
    then cache
    else prune_qname_cache (record cache {
      responses = evicted (λ (r : Response). r.expires_at) now test limit cache.responses;
    })

-- evict_qname_cache_for_source and evict_qname_cache_global
unfoldable pub evict_qnames : ℕ → (NamesKey → Bool) → ℕ → Cache → Cache
unfolding evicted
evict_qnames now test limit cache = record cache {
  qnames = evicted (λ (n : Names). n.expires_at) now test limit cache.qnames;
}

unfoldable pub evict_dns_cache_for_source : CacheLimits → ℕ → Text → Cache → Cache
unfolding evict_responses
evict_dns_cache_for_source limits now source =
    evict_responses now (of_source source) limits.max_per_source

unfoldable pub evict_dns_cache_global : CacheLimits → ℕ → Cache → Cache
unfolding evict_responses
evict_dns_cache_global limits now = evict_responses now any_source limits.max_global

unfoldable pub evict_qname_cache_for_source : CacheLimits → ℕ → Text → Cache → Cache
unfolding evict_qnames
evict_qname_cache_for_source limits now source =
    evict_qnames now (of_source source) limits.max_per_source

unfoldable pub evict_qname_cache_global : CacheLimits → ℕ → Cache → Cache
unfolding evict_qnames
evict_qname_cache_global limits now = evict_qnames now any_source limits.max_global

-- The loop of remove_old_qname_ips over the labels of the last refresh.
unfoldable pub remove_owned :
    NamesKey → Dict Ip Text → Dict ResponseKey Response → Dict ResponseKey Response
unfolding response_matches_qname
remove_owned key [] responses = responses
remove_owned (source, (qtype, qname)) ((ip, label) ∷ labels) responses =
    remove_owned (source, (qtype, qname)) labels
      (if response_matches_qname (get (source, ip) responses) qname qtype label
        then Dict.remove (source, ip) responses
        else responses)

old_labels : Option Names → Dict Ip Text
old_labels none = []
old_labels (some cached) = cached.labels

unfoldable pub remove_old_qname_ips : NamesKey → Cache → Cache
unfolding remove_owned old_labels
remove_old_qname_ips key cache = record cache {
  responses = remove_owned key (old_labels (get key cache.qnames)) cache.responses;
}

-- for ip, label in labels.items(): DNS_RESPONSE_CACHE[(source, ip)] = ...
unfoldable pub put_labels :
    NamesKey → ℕ → Dict Ip Text → Dict ResponseKey Response → Dict ResponseKey Response
put_labels key expires_at [] responses = responses
put_labels (source, (qtype, qname)) expires_at ((ip, label) ∷ labels) responses =
    put_labels (source, (qtype, qname)) expires_at labels
      (put (source, ip)
        (record { label = label; qname = qname; qtype = qtype; expires_at = expires_at }) responses)

-- The tables before the evictions.
unfoldable pub with_labels : NamesKey → ℕ → Dict Ip Text → Cache → Cache
unfolding remove_old_qname_ips put_labels
with_labels key expires_at labels cache =
    let cleared = remove_old_qname_ips key cache in
    record {
      responses = put_labels key expires_at labels cleared.responses;
      qnames = put key (record { labels = labels; expires_at = expires_at }) cleared.qnames;
    }

unfoldable pub store_dns_labels :
    CacheLimits → ℕ → Text → Text → Text → Dict Ip Text → ℕ → Cache → Cache
unfolding with_labels evict_dns_cache_for_source evict_dns_cache_global evict_qname_cache_for_source
    evict_qname_cache_global
store_dns_labels limits now source qname qtype labels ttl cache =
    evict_qname_cache_global limits now (
      evict_qname_cache_for_source limits now source (
        evict_dns_cache_global limits now (
          evict_dns_cache_for_source limits now source
            (with_labels (source, (qtype, qname)) (now + ttl) labels cache))))

unfoldable pub fresh_response_label : ℕ → Text → Ip → Cache → Option Text
fresh_response_label now source ip cache = elim (get (source, ip) cache.responses) [
  | none ↦ none
  | some cached ↦ if leb cached.expires_at now then none else some cached.label
]
