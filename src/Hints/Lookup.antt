-- ===== src/Hints/Lookup.antt =====
-- The search for the name of an address in qubes_snitch/dns_cache_runtime.py, with its lookups.
use qubes_snitch.Prelude.{
  ℕ, ◌+◌, ◌*◌, Text, Text_eq, Text-discrete, codes, List, [], ◌∷◌, ◌++◌, Eq, Bool, true, false,
  ◌||◌, not, any, Option, none, some, ltb, ◌==◌, ℕ_eq, if◌then◌else◌,
}
use qubes_snitch.Prelude.Dict.{Dict, get}
use qubes_snitch.Prelude.Strings.{rstrip, starts_with}
use qubes_snitch.Request.{Ip, Request, Kind, net, dns, dns_error, ip_text}
use qubes_snitch.Policy.{Rules}
use qubes_snitch.Hints.{CacheLimits, store_dns_labels}
use qubes_snitch.Hints.Refresh.{
  AnswerSet, Resolution, Hinting, dns_refresh_failure_ttl, is_hint_qtype, dns_rule_refreshable,
  answer_ttl, labels_of, allowed_dns_hint_rules, stale_response_rule, cached_qname_labels,
}

-- The equality of a rule to refresh with another.
unfoldable pub Rule-discrete : Discrete (Text × Text)
unfolding Text-discrete
Rule-discrete = hlevel Text-discrete

instance abbrev pub Rule_eq : Eq (Text × Text)
Rule_eq = record { dec = Rule-discrete }

-- DNS_PTR_REJECT is refused.
pub data Found : Type 0 where
  nothing refused : Found
  name : Text → Found

-- The answer of a lookup: its labels with the seconds that they hold.
unfoldable pub labels_and_ttl : Text → Option AnswerSet → Dict Ip Text × ℕ
unfolding labels_of answer_ttl
labels_and_ttl qname none = ([], dns_refresh_failure_ttl)
labels_and_ttl qname (some answers) = (labels_of qname answers.addresses [], answer_ttl answers.ttl)

abbrev pub is_rule : Option (Text × Text) → Text × Text → Bool
is_rule none rule = false
is_rule (some stale) rule = stale == rule

abbrev pub last_match : Option Text → Option Text → Option Text
last_match (some later) first = some later
last_match none first = first

abbrev pub is_dns : Kind → Bool
is_dns (dns question) = true
is_dns net = false
is_dns (dns_error reason question) = false

abbrev pub is_other_host : Option Text → Bool
is_other_host none = false
is_other_host (some []) = false
is_other_host (some (c ∷ host)) = not (starts_with (c ∷ host) (codes "A "))

-- The first target counts.
unfoldable pub ptr_target : Text → Ip → Option (List Text) → Hinting → Found × Hinting
ptr_target source ip none st = (nothing, st)
ptr_target source ip (some []) st = (nothing, st)
ptr_target source ip (some (answer ∷ answers)) st =
    let target = rstrip b'.' answer in
    if any (λ c. ltb 127 c) target
    then (
      refused,
      record st {
        alerts =
            st.alerts
            ++ (
              codes "dns" ∷ source ∷ codes "non-ascii-ptr" ∷ ip_text ip ∷ [],
              codes "DROP PTR containing non-ASCII text SRC="
                  ++ source
                  ++ codes " DST="
                  ++ ip_text ip,
            )
              ∷ [];
      },
    )
    else (name (codes "PTR " ++ target), st)

-- The loop of lazy_dns_name over the allowed rules: those to refresh, and the last label of the
-- address among the cached ones.
unfoldable pub scan_rules :
    Text
    → Ip
    → Option (Text × Text)
    → List (Text × Text)
    → Hinting
    → List (Text × Text) × Option Text
unfolding cached_qname_labels
scan_rules source ip stale [] st = ([], none)
scan_rules source ip stale ((qname, qtype) ∷ rules) st =
    let (refresh, matched) = scan_rules source ip stale rules st in
    if is_rule stale (qname, qtype)
    then (refresh, matched)
    else elim (cached_qname_labels st.clock source qname qtype st.cache) [
      | none ↦ ((qname, qtype) ∷ refresh, matched)
      | some labels ↦ (refresh, last_match matched (get ip labels))
    ]

-- The first of the refreshed names that has the address.
unfoldable pub first_label : Ip → List (Dict Ip Text) → Option Text
first_label ip [] = none
first_label ip (labels ∷ rest) =
    let later = first_label ip rest in
    elim (get ip labels) [ none ↦ later | some label ↦ some label ]

abbrev pub a_name : Text → Found
a_name label = name (codes "A " ++ label)

-- A DNS question and a host that is no "A " hint stay as they are.
unfoldable pub keeps_host : Request → Bool
keeps_host r = is_dns r.kind || is_other_host r.host

unfoldable pub with_found : Request → Found × Hinting → Option Request × Hinting
with_found r (refused, st) = (none, st)
with_found r (nothing, st) = (some r, st)
with_found r (name host, st) = (some (record r { host = some host }), st)

module _ (limits : CacheLimits) (dns_python : Resolution) where
  -- resolve_dns_rule, whose exceptions count as no labels.
  unfoldable pub resolve_dns_rule : ℕ → Text → Text → (Dict Ip Text × ℕ) × ℕ
  unfolding labels_and_ttl
  resolve_dns_rule now qname qtype =
      let (answers, took) = dns_python.a_records now qname in
      if is_hint_qtype qtype
      then (labels_and_ttl qname answers, took)
      else (([], dns_refresh_failure_ttl), 0)

  -- What the lookup took has passed when its labels are stored.
  unfoldable pub refresh_dns_rule : Text → Text × Text → Hinting → Dict Ip Text × Hinting
  unfolding dns_rule_refreshable resolve_dns_rule store_dns_labels
  refresh_dns_rule source (qname, qtype) st =
      let ((labels, ttl), took) = resolve_dns_rule st.clock qname qtype in
      let now = st.clock + took in
      if not (dns_rule_refreshable qname qtype) then ([], st) else (
        labels,
        record st {
          clock = now;
          cache =
              store_dns_labels limits now source qname qtype labels (ttl * dns_python.second)
                st.cache;
        },
      )

  unfoldable pub qname_labels : Text → Text × Text → Hinting → Dict Ip Text × Hinting
  unfolding refresh_dns_rule
  qname_labels source (qname, qtype) st =
      elim (cached_qname_labels st.clock source qname qtype st.cache) [
        | some labels ↦ (labels, st)
        | none ↦ refresh_dns_rule source (qname, qtype) st
      ]

  -- One refresh after the other, as with one worker: each stores under DNS_CACHE_LOCK.
  unfoldable pub refresh_dns_rules :
      Text → List (Text × Text) → Hinting → List (Dict Ip Text) × Hinting
  unfolding refresh_dns_rule
  refresh_dns_rules source [] st = ([], st)
  refresh_dns_rules source (rule ∷ rules) st =
      let (labels, st') = refresh_dns_rule source rule st in
      let (rest, st'') = refresh_dns_rules source rules st' in (labels ∷ rest, st'')

  unfoldable pub ptr_name : Text → Ip → Hinting → Found × Hinting
  unfolding ptr_target
  ptr_name source ip st =
      let (answers, took) = dns_python.ptr_records st.clock ip in
      ptr_target source ip answers (record st { clock = st.clock + took })

  -- A refreshed label comes before a cached one, and that before the PTR name.
  unfoldable pub best_name : Text → Ip → Option Text → Option Text → Hinting → Found × Hinting
  unfolding ptr_name
  best_name source ip (some label) matched st = (a_name label, st)
  best_name source ip none (some label) st = (a_name label, st)
  best_name source ip none none st = ptr_name source ip st

  unfoldable pub allowed_name :
      Text → Ip → Option (Text × Text) → List (Text × Text) → Hinting → Found × Hinting
  unfolding scan_rules refresh_dns_rules first_label best_name
  allowed_name source ip stale rules st =
      let (refresh, matched) = scan_rules source ip stale rules st in
      let (refreshed, st') = refresh_dns_rules source refresh st in
      best_name source ip (first_label ip refreshed) matched st'

  -- After the refresh of the stale rule: its label, or the search through the allowed rules.
  unfoldable pub stale_name :
      Text → Ip → List (Text × Text) → Text × Text → Dict Ip Text × Hinting → Found × Hinting
  unfolding allowed_name
  stale_name source ip rules rule (labels, st) = elim (get ip labels) [
    | none ↦ allowed_name source ip (some rule) rules st
    | some label ↦ (a_name label, st)
  ]

  unfoldable pub lazy_from :
      Text → Ip → List (Text × Text) → Option (Text × Text) → Hinting → Found × Hinting
  unfolding stale_name
  lazy_from source ip rules none st = allowed_name source ip none rules st
  lazy_from source ip rules (some rule) st =
      stale_name source ip rules rule (refresh_dns_rule source rule st)

  unfoldable pub lazy_dns_name : Rules → Text → Ip → Hinting → Found × Hinting
  unfolding lazy_from allowed_dns_hint_rules stale_response_rule
  lazy_dns_name rules source ip st =
      lazy_from source ip (allowed_dns_hint_rules rules source)
        (stale_response_rule st.clock source ip st.cache) st

  unfoldable pub enrich_prompt_request : Rules → Request → Hinting → Option Request × Hinting
  unfolding keeps_host with_found lazy_dns_name
  enrich_prompt_request rules r st =
      if keeps_host r then (some r, st) else with_found r (lazy_dns_name rules r.source r.dst st)
