-- ===== src/Hints/Answered.antt =====
-- Where the names come from that the search of qubes_snitch/dns_cache_runtime.py finds.
use qubes_snitch.Prelude.{
  ℕ, ◌≤◌, ◌<◌, ◌≡◌, ap, ◌∙◌, inl, inr, Text, Text_eq, List, [], ◌∷◌, true, not, Option, none, some,
  ℕ_eq, ==_iff, arith, Bool-cases, Option-cases,
}
use mathlib.Core.Path.{subst}
use qubes_snitch.Prelude.Dict.{Dict, get}
use qubes_snitch.Request.{Ip}
use qubes_snitch.Hints.{Names, NamesKey_eq, CacheLimits}
use qubes_snitch.Hints.Refresh.{
  Resolution, Hinting, dns_rule_refreshable, is_hint_qtype, cached_qname_labels,
}
use qubes_snitch.Hints.Lookup.{
  labels_and_ttl, resolve_dns_rule, refresh_dns_rule, refresh_dns_rules, scan_rules, first_label,
  last_match, is_rule,
}
use qubes_snitch.Hints.Origin.{has_label}
use qubes_snitch.Hints.History.{has_ip}
use qubes_snitch.Hints.Shown.{has_label-labels_and_ttl}

-- A lookup of A records, not made before a time, has answered that a name has an address.
abbrev pub IsAnswered : Resolution → ℕ → Ip → Text → Type 0
IsAnswered dns_python start ip name =
    (now : ℕ) × (start ≤ now) × (has_ip ip (dns_python.a_records now name).0 ≡ true)

-- The cache has a fresh entry of a source that gives an address a label.
pub record IsCached (st : Hinting) (source : Text) (ip : Ip) (label : Text) : Type 0 where
  pub qname : Text
  pub qtype : Text
  pub names : Names
  pub found : get (source, (qtype, qname)) st.cache.qnames ≡ some names
  pub fresh : st.clock < names.expires_at
  pub labelled : get ip names.labels ≡ some label

get-has_label :
    (ip : Ip) (label : Text) (labels : Dict Ip Text)
    → get ip labels ≡ some label
    → has_label ip label labels ≡ true
unfolding get
get-has_label ip label [] h = absurd (cc)
get-has_label ip label ((i, l) ∷ labels) h = ground (arith, get-has_label ip label labels)

cached_qname_labels-IsCached :
    (source : Text) (ip : Ip) (qname qtype : Text) (st : Hinting) (label : Text)
    (labels : Dict Ip Text)
    → cached_qname_labels st.clock source qname qtype st.cache ≡ some labels
    → get ip labels ≡ some label
    → IsCached st source ip label
unfolding cached_qname_labels
cached_qname_labels-IsCached source ip qname qtype st label labels e g =
    elim (Option-cases (get (source, (qtype, qname)) st.cache.qnames)) [
      | inl n ↦ absurd (ground arith)
      | inr (names, there) ↦
          let same : names.labels ≡ labels = ground arith in
          record {
            qname = qname;
            qtype = qtype;
            names = names;
            found = there;
            fresh = ground arith;
            labelled = ap (get ip) same ∙ g;
          }
    ]

pub scan_rules-IsCached :
    (source : Text) (ip : Ip) (stale : Option (Text × Text)) (rules : List (Text × Text))
    (st : Hinting) (label : Text)
    → (scan_rules source ip stale rules st).1 ≡ some label
    → IsCached st source ip label
unfolding scan_rules
scan_rules-IsCached source ip stale [] st label h = absurd (cc)
scan_rules-IsCached source ip stale ((qname, qtype) ∷ rules) st label h =
    elim (Bool-cases (is_rule stale (qname, qtype))) [
      | inl t ↦ scan_rules-IsCached source ip stale rules st label (rw (t, scan_rules) at h)
      | inr f ↦ elim (Option-cases (cached_qname_labels st.clock source qname qtype st.cache)) [
        | inl n ↦ scan_rules-IsCached source ip stale rules st label (rw (f, n, scan_rules) at h)
        | inr (labels, e) ↦
            by_match (scan_rules source ip stale rules st).1 labels e
              (scan_rules-IsCached source ip stale rules st label) (rw (f, e, scan_rules) at h)
      ]
    ]
  where
    by_match :
        (matched : Option Text) (labels : Dict Ip Text)
        → cached_qname_labels st.clock source qname qtype st.cache ≡ some labels
        → (matched ≡ some label → IsCached st source ip label)
        → last_match matched (get ip labels) ≡ some label
        → IsCached st source ip label
    by_match none labels e later k =
        cached_qname_labels-IsCached source ip qname qtype st label labels e k
    by_match (some l) labels e later k = later k

module _ (limits : CacheLimits) (dns_python : Resolution) where
  pub refresh_dns_rule-clock :
      (source : Text) (rule : Text × Text) (st : Hinting)
      → st.clock ≤ (refresh_dns_rule limits dns_python source rule st).1.clock
  unfolding refresh_dns_rule
  refresh_dns_rule-clock source (qname, qtype) st =
      elim (Bool-cases (not (dns_rule_refreshable qname qtype))) [
        | inl t ↦ rw t (omega arith)
        | inr f ↦ rw f (omega arith)
      ]

  pub refresh_dns_rules-clock :
      (source : Text) (rules : List (Text × Text)) (st : Hinting)
      → st.clock ≤ (refresh_dns_rules limits dns_python source rules st).1.clock
  unfolding refresh_dns_rules
  refresh_dns_rules-clock source [] st = omega arith
  refresh_dns_rules-clock source (rule ∷ rules) st = omega (
    arith,
    refresh_dns_rule-clock source rule st,
    refresh_dns_rules-clock source rules (refresh_dns_rule limits dns_python source rule st).1,
  )

  IsAnswered-labels :
      (now : ℕ) (qname : Text) (ip : Ip) (label : Text)
      → get ip (labels_and_ttl qname (dns_python.a_records now qname).0).0 ≡ some label
      → IsAnswered dns_python now ip label
  IsAnswered-labels now qname ip label h =
      let told =
        has_label-labels_and_ttl ip label qname (dns_python.a_records now qname).0
          (get-has_label ip label _ h) in
      let same : qname ≡ label = ground (arith, ==_iff qname label) in
      (
        now,
        omega arith,
        subst (λ (n : Text). has_ip ip (dns_python.a_records now n).0 ≡ true) same (ground arith),
      )

  pub refresh_dns_rule-IsAnswered :
      (source : Text) (rule : Text × Text) (st : Hinting) (ip : Ip) (label : Text)
      → get ip (refresh_dns_rule limits dns_python source rule st).0 ≡ some label
      → IsAnswered dns_python st.clock ip label
  unfolding refresh_dns_rule resolve_dns_rule get
  refresh_dns_rule-IsAnswered source (qname, qtype) st ip label h =
      elim (Bool-cases (not (dns_rule_refreshable qname qtype))) [
        | inl t ↦ absurd (nothing (rw t at h))
        | inr f ↦ elim (Bool-cases (is_hint_qtype qtype)) [
          | inl t ↦ IsAnswered-labels st.clock qname ip label (rw (f, t) at h)
          | inr u ↦ absurd (nothing (rw (f, u) at h))
        ]
      ]
    where
      nothing : ◌≡◌ {A = Option Text} none (some label) → ⊥
      nothing e = cc

  pub first_label-IsAnswered :
      (source : Text) (rules : List (Text × Text)) (st : Hinting) (ip : Ip) (label : Text)
      → first_label ip (refresh_dns_rules limits dns_python source rules st).0 ≡ some label
      → IsAnswered dns_python st.clock ip label
  unfolding refresh_dns_rules first_label
  first_label-IsAnswered source [] st ip label h = absurd (cc)
  first_label-IsAnswered source (rule ∷ rules) st ip label h =
      elim (Option-cases (get ip (refresh_dns_rule limits dns_python source rule st).0)) [
        | inl n ↦
            let (now, late, told) =
              first_label-IsAnswered source rules
                (refresh_dns_rule limits dns_python source rule st).1 ip label
                (rw (n, first_label) at h) in
            (now, omega (arith, refresh_dns_rule-clock source rule st), told)
        | inr (l, e) ↦
            refresh_dns_rule-IsAnswered source rule st ip label (e ∙ (rw (e, first_label) at h))
      ]
