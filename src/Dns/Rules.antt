-- ===== src/Dns/Rules.antt =====
-- dns_rule_matches of qubes_snitch/dns.py, and the rules on both layers that it serves.
pub mod Laws
use qubes_snitch.Prelude.{
  ℕ, Text, Text_eq, codes, ◌∷◌, ◌++◌, Bool, true, false, ◌&&◌, not, drop, ◌==◌, if◌then◌else◌,
}
use qubes_snitch.Prelude.Strings.{lower, upper, starts_with, ends_with}
use qubes_snitch.Dns.Names.{dot}
use qubes_snitch.Request.{Question}

pub data Action : Type 0 where
  allow reject : Action

-- An entry of the list `dns` of a rule file.
pub record DnsRule : Type 0 where
  pub qname : Text
  pub qtype : Text
  pub action : Action

abbrev pub wildcard : Text
wildcard = codes "*."

-- The two ways in which the name of a rule is read.
matches_name : Text → Text → Bool
matches_name qname rule_name =
    if starts_with rule_name wildcard
    then ends_with qname (dot ∷ drop 2 rule_name) && not (qname == drop 2 rule_name)
    else qname == rule_name

unfoldable pub dns_rule_matches : Question → DnsRule → Bool
unfolding matches_name
dns_rule_matches request rule =
    if not (request.qtype == upper rule.qtype)
    then false
    else matches_name request.qname (lower rule.qname)
