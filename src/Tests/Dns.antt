-- ===== src/Tests/Dns.antt =====
-- A question for example.com, and the rules for it.
use qubes_snitch.Prelude.{
  ℕ, suc, ◌≡◌, ◌≢◌, ◌↔◌, refl, Text, Text_eq, Text-discrete, ℕ_discrete, codes, List, [], ◌∷◌, ◌++◌,
  drop, true, any, Option, none, some, ◌==◌, if◌then◌else◌, ==_ne, ==_refl, arith, get_elem?,
}
use mathlib.Core.Option
use qubes_snitch.Prelude.Strings.{
  starts_with, split, ends_with, lower_char, rstrip, upper_char, lower, upper,
}
use qubes_snitch.Prelude.Result.{ok}
use qubes_snitch.Request.{Ip, Question, dns}
use qubes_snitch.Dns.Names.{
  last, are_labels, dns_qname_is_ipv6_reverse, dot, is_supported, supported_dns_qtypes,
  live_dns_qname_supported, normalize_dns_name,
}
use qubes_snitch.Dns.Rules.{allow, DnsRule, dns_rule_matches}
use qubes_snitch.Dns.Rules.Laws.{dns_rule_matches-wildcard_iff}
use qubes_snitch.Dns.Query.{Library, Message, WireQuestion, classify}
use qubes_snitch.Dns.Query.Accepted.{IsPromptable, classify-IsPromptable_iff}
use qubes_snitch.Config.DnsRule.{RdataTypes, validate_dns_rule}
use qubes_snitch.Config.DnsRule.Laws.{
  IsRdataTypes, IsDnsRule, validate_dns_rule_of_live, validate_dns_rule-IsDnsRule,
}
use qubes_snitch.Config.Resolve.{insert, v4, Resolver, resolve_dest_dns}

abbrev pub example : Text
example = codes "example.com"

abbrev wire_question : WireQuestion
wire_question = record {
  labels = codes "Example" ∷ codes "com" ∷ [] ∷ [];
  name = codes "Example.com.";
  rdtype = 1;
  rdclass = 1;
}

-- A query with the bit RD.
abbrev query : Message
query = record {
  flags = 0x100;
  opcode = 0;
  answer = 0;
  authority = 0;
  additional = 0;
  question = wire_question ∷ [];
  edns = some 0;
  rcode = 0;
  ednsflags = 0;
}

-- A library that reads one query.
abbrev pub one_query : Library
one_query = record {
  from_wire = λ bs. some query;
  type_text = λ n. codes "A";
  class_text = λ n. codes "IN";
}

abbrev asked : Question
asked = record { qtype = codes "A"; qname = example }

classify-IsPromptable_iff_example :
    (classify one_query (0 ∷ []) ≡ dns asked) ↔ IsPromptable one_query (0 ∷ []) asked
classify-IsPromptable_iff_example = classify-IsPromptable_iff one_query (0 ∷ []) asked

classified : classify one_query (0 ∷ []) ≡ dns asked
unfolding classify Text-discrete ℕ_discrete upper_char live_dns_qname_supported
    dns_qname_is_ipv6_reverse normalize_dns_name rstrip lower_char ends_with split starts_with
    are_labels last
classified = refl

-- A wildcard rule and an exact one.
abbrev wildcard_rule : DnsRule
wildcard_rule = record { qname = codes "*.Example.com"; qtype = codes "A"; action = allow }

abbrev pub exact_rule : DnsRule
exact_rule = record { qname = example; qtype = codes "A"; action = allow }

dns_rule_matches-wildcard_iff_example : (dns_rule_matches asked wildcard_rule ≡ true) ↔ (
    (asked.qtype ≡ upper wildcard_rule.qtype)
    × ((a : Text) × (asked.qname ≡ a ++ dot ∷ drop 2 (lower wildcard_rule.qname))))
unfolding starts_with ℕ_discrete lower_char
dns_rule_matches-wildcard_iff_example = dns_rule_matches-wildcard_iff asked wildcard_rule refl

-- Types by their place in the list of the supported ones.
abbrev place : Text → List Text → Option ℕ
place t [] = none
place t (u ∷ l) = if u == t then some 0 else Option.map suc (place t l)

abbrev pub listed_types : RdataTypes
listed_types = record {
  from_text = λ t. place t supported_dns_qtypes;
  to_text = λ n. Option.get_or (get_elem? supported_dns_qtypes n) [];
}

rest :
    (u t : Text) (l : List Text)
    → u ≢ t
    → any (λ v. v == t) (u ∷ l) ≡ true
    → any (λ v. v == t) l ≡ true
rest u t l e h = ground arith

place-get :
    (t : Text) (l : List Text)
    → any (λ u. u == t) l ≡ true
    → (n : ℕ) × (place t l ≡ some n) × (Option.get_or (get_elem? l n) [] ≡ t)
place-get t [] h = absurd (cc)
place-get t (u ∷ l) h = elim (Text-discrete u t) [
  | yes e ↦ (0, rw (e, ==_refl) refl, e)
  | no e ↦
      let (n, found, got) = place-get t l (rest u t l e h) in
      (suc n, rw (==_ne u t e, found) refl, got)
]

pub listed_types-IsRdataTypes : IsRdataTypes listed_types
listed_types-IsRdataTypes = record { read_back = λ t h. place-get t supported_dns_qtypes h }

is_A : is_supported (codes "A") ≡ true
unfolding Text-discrete
is_A = refl

is_live : live_dns_qname_supported example (codes "A") ≡ true
unfolding live_dns_qname_supported dns_qname_is_ipv6_reverse Text-discrete ends_with split
    starts_with are_labels last
is_live = refl

validate_dns_rule_of_live_example :
    validate_dns_rule listed_types
      (record { qname = some example; qtype = codes "A"; action = allow })
    ≡ ok exact_rule
validate_dns_rule_of_live_example =
    validate_dns_rule_of_live listed_types example (codes "A") allow listed_types-IsRdataTypes is_A
      is_live

validated :
    validate_dns_rule listed_types
      (record { qname = some (codes "EXAMPLE.com."); qtype = codes "a"; action = allow })
    ≡ ok exact_rule
unfolding validate_dns_rule Text-discrete ℕ_discrete dns_qname_is_ipv6_reverse normalize_dns_name
    rstrip lower_char ends_with split starts_with upper_char are_labels last
validated = refl

validate_dns_rule-IsDnsRule_example :
    IsDnsRule exact_rule
    × (allow ≡ allow)
    × ((s : Text) × (some (codes "EXAMPLE.com.") ≡ some s) × (example ≡ normalize_dns_name s))
validate_dns_rule-IsDnsRule_example =
    validate_dns_rule-IsDnsRule listed_types
      (record { qname = some (codes "EXAMPLE.com."); qtype = codes "a"; action = allow }) exact_rule
      validated

-- A name with two addresses, one of them twice.
abbrev pub two_addresses : Resolver
two_addresses name = some (v4 9 ∷ v4 5 ∷ v4 9 ∷ [])

resolved : resolve_dest_dns two_addresses example ≡ ok (5 ∷ 9 ∷ [])
unfolding resolve_dest_dns insert ℕ_discrete
resolved = refl

abbrev sorted_ips : List Ip
sorted_ips = 5 ∷ 9 ∷ []
