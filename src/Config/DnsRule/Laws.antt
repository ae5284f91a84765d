-- ===== src/Config/DnsRule/Laws.antt =====
-- What validation lets through, and that it lets every live question through.
use qubes_snitch.Prelude.{
  ℕ, ◌≤◌, ◌≡◌, refl, sym, Text, Text_eq, Text-discrete, ℕ_discrete, codes, List, [], ◌∷◌, Bool,
  true, false, ◌||◌, ◌&&◌, not, Option, none, some, length, all, any, ltb, ◌==◌, arith,
}
use qubes_snitch.Prelude.Strings.{upper, upper_char, starts_with, split, is_digits}
use qubes_snitch.Prelude.Result.{ok, system_exit, >>=-eq-ok, require-true}
use qubes_snitch.Dns.Names.{
  dot, is_supported, supported_dns_qtypes, is_bad_label, dns_qname_is_ipv6_reverse,
  normalize_dns_name, live_dns_qname_supported, are_labels, are_srv_labels,
}
use qubes_snitch.Dns.Names.Laws.{normalize_dns_name_of_supported, supported-not-wildcard}
use qubes_snitch.Dns.Rules.{Action, DnsRule}
use qubes_snitch.Config.DnsRule.{
  RdataTypes, DnsEntry, base_name, has_bad_labels, valid_qname, canonical_qtype, validate_name,
  validate_read, validate_dns_rule,
}

-- Every member of a list of texts that passes a test passes it.
any-all :
    (f : Text → Bool) (t : Text) (l : List Text)
    → all f l ≡ true
    → any (λ u. u == t) l ≡ true
    → f t ≡ true
any-all f t [] h k = absurd (false-true k)
  where
    false-true : false ≡ true → ⊥
    false-true h = cc
any-all f t (u ∷ l) h k = elim (Text-discrete u t) [
  | yes e ↦ ground arith
  | no e ↦ any-all f t l (ground arith) (ground arith)
]

-- A type name that stands for a supported type needs no change.
is_settled : Text → Bool
is_settled t =
    upper t == t && not (starts_with t (codes "TYPE") || is_digits t) && not (t == codes "AAAA")

is_supported-settled : (t : Text) → is_supported t ≡ true → is_settled t ≡ true
unfolding is_settled
is_supported-settled t h =
    any-all is_settled t supported_dns_qtypes
      (unfold starts_with upper_char Text-discrete ℕ_discrete in refl) h

-- The library's names of the supported types are read back.
pub record IsRdataTypes (types : RdataTypes) : Type 0 where
  pub read_back :
      (t : Text)
      → is_supported t ≡ true
      → (n : ℕ) × (types.from_text t ≡ some n) × (types.to_text n ≡ t)

canonical_qtype_of_supported :
    (types : RdataTypes) (t : Text)
    → IsRdataTypes types
    → is_supported t ≡ true
    → canonical_qtype types (upper t) ≡ ok t
unfolding canonical_qtype is_settled
canonical_qtype_of_supported types t w h =
    let (n, from, to) = w.read_back t h in
    let settled = is_supported-settled t h in
    let same : upper t ≡ t = ground arith in rw (same, from, to, same) (ground arith)

are_labels-two : (ls : List Text) → are_labels ls ≡ true → 2 ≤ length ls
unfolding are_labels
are_labels-two ls h = ground arith

are_srv_labels-two : (ls : List Text) → are_srv_labels ls ≡ true → 2 ≤ length ls
unfolding are_srv_labels
are_srv_labels-two [] h = absurd (cc)
are_srv_labels-two (a ∷ []) h = absurd (cc)
are_srv_labels-two (a ∷ b ∷ ls) h = omega arith

live_shape :
    (q t : Text)
    → live_dns_qname_supported q t ≡ true
    → (dns_qname_is_ipv6_reverse q || ltb 253 (length q) || has_bad_labels q ≡ false)
      × (valid_qname q t ≡ true)
unfolding live_dns_qname_supported valid_qname
live_shape q t h =
    rw (supported-not-wildcard q t h)
      (ground (arith, are_labels-two (split dot q), are_srv_labels-two (split dot q)), ground arith)

-- The name and the type of a live question pass the validation of rule files unchanged, whatever
-- the action, if the DNS library reads its names of the supported types back.
pub validate_dns_rule_of_live :
    (types : RdataTypes) (q t : Text) (a : Action)
    → IsRdataTypes types
    → is_supported t ≡ true
    → live_dns_qname_supported q t ≡ true
    → validate_dns_rule types (record { qname = some q; qtype = t; action = a })
      ≡ ok (record { qname = q; qtype = t; action = a })
unfolding validate_dns_rule
validate_dns_rule_of_live types q t a w s h =
    let (clean, valid) = live_shape q t h in
    rw (
      normalize_dns_name_of_supported q t h,
      clean,
      canonical_qtype_of_supported types t w s,
      valid,
    )

-- What a rule that passed validation holds.
pub record IsDnsRule (r : DnsRule) : Type 0 where
  pub ipv4 : dns_qname_is_ipv6_reverse r.qname ≡ false
  pub short : length r.qname ≤ 253
  pub labels : any is_bad_label (split dot (base_name r.qname)) ≡ false
  pub supported : is_supported r.qtype ≡ true
  pub valid : valid_qname r.qname r.qtype ≡ true

canonical_qtype-is_supported :
    (types : RdataTypes) (t c : Text) → canonical_qtype types t ≡ ok c → is_supported c ≡ true
unfolding canonical_qtype
canonical_qtype-is_supported types t c h = ground arith

not-true : (b : Bool) → not b ≡ true → b ≡ false
not-true true h = sym h
not-true false h = refl

validate_name-inv :
    (types : RdataTypes) (q t : Text) (a : Action) (r : DnsRule)
    → validate_name types q t a ≡ ok r
    → (dns_qname_is_ipv6_reverse q || ltb 253 (length q) || has_bad_labels q ≡ false)
      × (canonical_qtype types (upper t) ≡ ok r.qtype)
      × (valid_qname q r.qtype ≡ true)
      × (r.qname ≡ q)
      × (r.action ≡ a)
unfolding validate_name
validate_name-inv types q t a r h =
    let (_, shape, h1) = >>=-eq-ok _ _ h in
    let (c, canonical, h2) = >>=-eq-ok _ _ h1 in
    let (_, valid, h3) = >>=-eq-ok _ _ h2 in
    let same : c ≡ r.qtype = cc in
    (
      not-true _ (require-true _ system_exit shape),
      rw (← same) canonical,
      rw (← same) (require-true _ system_exit valid),
      cc,
      cc,
    )

validate_name-IsDnsRule :
    (types : RdataTypes) (q t : Text) (a : Action) (r : DnsRule)
    → validate_name types q t a ≡ ok r
    → IsDnsRule r × (r.qname ≡ q) × (r.action ≡ a)
validate_name-IsDnsRule types q t a r h =
    let (shape, canonical, valid, name, action) = validate_name-inv types q t a r h in
    (
      record {
        ipv4 = rw name (ground arith);
        short = rw name (ground arith);
        labels = rw name (ground arith);
        supported = canonical_qtype-is_supported types (upper t) r.qtype canonical;
        valid = rw name valid;
      },
      name,
      action,
    )

validate_read-IsDnsRule :
    (types : RdataTypes) (raw : Option Text) (e : DnsEntry) (r : DnsRule)
    → validate_read types raw e ≡ ok r
    → IsDnsRule r
      × (r.action ≡ e.action)
      × ((s : Text) × (raw ≡ some s) × (r.qname ≡ normalize_dns_name s))
unfolding validate_read
validate_read-IsDnsRule types none e r h = absurd (cc)
validate_read-IsDnsRule types (some s) e r h =
    let (v, name, action) =
      validate_name-IsDnsRule types (normalize_dns_name s) e.qtype e.action r h in
    (v, action, (s, refl, name))

-- A rule that passed validation has a str for a name, of which it keeps the lower case without
-- dots at the end; that name is no IPv6 reverse name, is short enough, has no punycode label and
-- has the shape that its type wants, the type is a supported one, and the action is the entry's.
pub validate_dns_rule-IsDnsRule :
    (types : RdataTypes) (e : DnsEntry) (r : DnsRule)
    → validate_dns_rule types e ≡ ok r
    → IsDnsRule r
      × (r.action ≡ e.action)
      × ((s : Text) × (e.qname ≡ some s) × (r.qname ≡ normalize_dns_name s))
unfolding validate_dns_rule
validate_dns_rule-IsDnsRule types e r h = validate_read-IsDnsRule types e.qname e r h
