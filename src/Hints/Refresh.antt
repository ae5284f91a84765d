-- ===== src/Hints/Refresh.antt =====
-- The lookups of qubes_snitch/dns_cache_runtime.py: the refresh of a name, and the search for a
-- name to show beside an address.
use qubes_snitch.Prelude.{
  ℕ, Text, Text_eq, codes, List, [], ◌∷◌, ◌++◌, Bool, true, false, ◌&&◌, ◌||◌, not, Option, none,
  some, leb, ltb, ◌==◌, ℕ_eq, if◌then◌else◌,
}
use qubes_snitch.Prelude.Dict.{Dict, get, put}
use qubes_snitch.Prelude.Strings.{lower, upper, starts_with}
use qubes_snitch.Request.{Ip}
use qubes_snitch.Dns.Rules.{DnsRule, Action, wildcard}
use qubes_snitch.Policy.{Rules}
use qubes_snitch.Hints.{ResponseKey_eq, NamesKey_eq, Cache, fresh_response_label}

-- An answer to an A query: the addresses in their order, and the ttl of the rrset, if it has one.
pub record AnswerSet : Type 0 where
  pub addresses : List Ip
  pub ttl : Option ℕ

-- What dnspython does, at a time: the A records of a name and the targets of the PTR records of an
-- address, none where it raises, each with the ticks that it takes. An answer may differ from one
-- time to another.
pub record Resolution : Type 0 where
  pub second : ℕ
  pub a_records : ℕ → Text → Option AnswerSet × ℕ
  pub ptr_records : ℕ → Ip → Option (List Text) × ℕ

-- The cache, time.monotonic(), and the calls of security_alert with their keys and messages.
pub record Hinting : Type 0 where
  pub cache : Cache
  pub clock : ℕ
  pub alerts : List (List Text × Text)

abbrev pub dns_refresh_failure_ttl : ℕ
dns_refresh_failure_ttl = 60

abbrev pub is_hint_qtype : Text → Bool
is_hint_qtype qtype = qtype == codes "A" || qtype == codes "CNAME"

unfoldable pub dns_rule_refreshable : Text → Text → Bool
dns_rule_refreshable qname qtype = is_hint_qtype qtype && not (starts_with qname wildcard)

-- A ttl of 0 counts as none.
unfoldable pub answer_ttl : Option ℕ → ℕ
answer_ttl none = 60
answer_ttl (some ttl) = if ttl == 0 then 60 else if ltb ttl 1 then 1 else ttl

-- {answer.to_text(): label for answer in answers}
unfoldable pub labels_of : Text → List Ip → Dict Ip Text → Dict Ip Text
labels_of label [] labels = labels
labels_of label (ip ∷ ips) labels = labels_of label ips (put ip label labels)

abbrev pub is_allow : Action → Bool
is_allow Action.allow = true
is_allow Action.reject = false

unfoldable pub allowed_rules : List DnsRule → List (Text × Text)
unfolding dns_rule_refreshable
allowed_rules [] = []
allowed_rules (rule ∷ rules) =
    let qname = lower rule.qname in
    let qtype = upper rule.qtype in
    let rest = allowed_rules rules in
    if is_allow rule.action && dns_rule_refreshable qname qtype then (qname, qtype) ∷ rest else rest

unfoldable pub allowed_dns_hint_rules : Rules → Text → List (Text × Text)
unfolding allowed_rules
allowed_dns_hint_rules rules source = elim (get source rules) [
  | none ↦ []
  | some r ↦ allowed_rules r.dns
]

unfoldable pub stale_response_rule : ℕ → Text → Ip → Cache → Option (Text × Text)
stale_response_rule now source ip cache = elim (get (source, ip) cache.responses) [
  | none ↦ none
  | some cached ↦ if leb cached.expires_at now then some (cached.qname, cached.qtype) else none
]

unfoldable pub cached_qname_labels : ℕ → Text → Text → Text → Cache → Option (Dict Ip Text)
cached_qname_labels now source qname qtype cache =
    elim (get (source, (qtype, qname)) cache.qnames) [
      | none ↦ none
      | some cached ↦ if leb cached.expires_at now then none else some cached.labels
    ]

-- A label that is empty is no name.
unfoldable pub a_hint : Option Text → Option Text
a_hint none = none
a_hint (some []) = none
a_hint (some (c ∷ label)) = some (codes "A " ++ c ∷ label)

-- cached_dns_name, the name that the packet callback attaches.
unfoldable pub cached_dns_name : ℕ → Cache → Text → Ip → Option Text
unfolding fresh_response_label a_hint
cached_dns_name now cache source ip = a_hint (fresh_response_label now source ip cache)
