-- ===== src/Dns/Rules/Laws.antt =====
-- Which questions a rule of the list `dns` covers.
use qubes_snitch.Prelude.{
  ◌≡◌, ◌↔◌, ap, Text, Text_eq, ◌∷◌, ◌++◌, length, length-append, true, false, drop, ◌==◌, arith,
  ==_refl, ==_ne,
}
use qubes_snitch.Prelude.Strings.{lower, upper, starts_with, ends_with-append, ends_with-split}
use qubes_snitch.Dns.Names.{dot}
use qubes_snitch.Request.{Question}
use qubes_snitch.Dns.Rules.{DnsRule, wildcard, dns_rule_matches}

-- A rule whose name is no wildcard covers exactly the questions of its type and name.
pub dns_rule_matches-exact_iff :
    (request : Question) (rule : DnsRule)
    → starts_with (lower rule.qname) wildcard ≡ false
    → (dns_rule_matches request rule ≡ true)
      ↔ ((request.qtype ≡ upper rule.qtype) × (request.qname ≡ lower rule.qname))
unfolding dns_rule_matches
dns_rule_matches-exact_iff request rule h = ground arith

longer : (a s : Text) → (a ++ dot ∷ s == s) ≡ false
longer a s =
    ==_ne (a ++ dot ∷ s) s (λ e. absurd (omega (arith, length-append {0} a (dot ∷ s), ap length e)))

-- A wildcard rule *.suffix covers exactly the questions of its type whose name is some text, a
-- dot and the suffix: the bare suffix is not covered.
pub dns_rule_matches-wildcard_iff :
    (request : Question) (rule : DnsRule)
    → starts_with (lower rule.qname) wildcard ≡ true
    → (dns_rule_matches request rule ≡ true) ↔ (
        (request.qtype ≡ upper rule.qtype)
        × ((a : Text) × (request.qname ≡ a ++ dot ∷ drop 2 (lower rule.qname))))
unfolding dns_rule_matches
dns_rule_matches-wildcard_iff request rule h = (
  λ m. (ground arith, ends_with-split request.qname _ (ground arith)),
  λ (t, (a, e)). rw (h, t, ==_refl, e, ends_with-append, longer),
)
