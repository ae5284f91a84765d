-- ===== src/Tests/Policy.antt =====
-- An answer to a prompt is saved.
use qubes_snitch.Prelude.Strings.{has_char}
use qubes_snitch.Prelude.Decimal.{show}
use qubes_snitch.Prelude.Dict.{put, get}
use qubes_snitch.Prelude.{
  ℕ, ◌≡◌, ◌<◌, refl, Text_eq, Text-discrete, ℕ_discrete, codes, [], ◌∷◌, Bool, true, ◌&&◌, none,
  some, ◌==◌, arith,
}
use qubes_snitch.Prelude.Result.{Result, ok}
use qubes_snitch.Request.{Proto-discrete, tcp, Proto_eq, Request, Question}
use qubes_snitch.Packets.Ports.{port_text, text, normalize_port}
use qubes_snitch.Packets.Ports.Normal.{one, ports_text}
use qubes_snitch.Dns.Rules
use qubes_snitch.Dns.Rules.{Action}
use qubes_snitch.Policy.{
  any_dest, host, network, FlowRule, Rules, dest_matches, first_match, flow_rule_matches,
  matching_action,
}
use qubes_snitch.Policy.Matching.{covers, flow_rule_matches-covers}
use qubes_snitch.Policy.Append.{
  ptr_of, RuleFile, action_of, append_dns_rule, append_flow_rule, dests,
}
use qubes_snitch.Policy.Append.Saved.{
  append_flow_rule-keeps, append_dns_rule-keeps, append_flow_rule-decides,
}
use qubes_snitch.Queue.{allow}
use qubes_snitch.Tests.Packets.{tcp_request, https_services, https_services-IsServices}
use qubes_snitch.Tests.Dns.{listed_types, two_addresses}

-- The packet of the source "work", and one of its others.
abbrev pub request : Request
request = record tcp_request { source = codes "work" }

abbrev pub other_request : Request
other_request = record request { dst = 0x0a000001 }

-- All of 10.0.0.0/8 at the port of https is allowed.
abbrev pub allow_ten : FlowRule
allow_ten = record {
  ptr = codes "no PTR";
  dest = network 0x0a000000 8;
  proto = tcp;
  port = codes "https";
  action = Rules.allow;
}

abbrev reject_all : FlowRule
reject_all = record allow_ten { dest = any_dest; action = Rules.reject }

abbrev pub rules : Rules
rules = (codes "work", record { ip = allow_ten ∷ []; dns = [] }) ∷ []

abbrev file : RuleFile
file = record { rules4 = allow_ten ∷ []; dns = [] }

abbrev saved : RuleFile × Rules
saved =
    let rule : FlowRule = record {
      ptr = codes "no PTR";
      dest = host request.dst;
      proto = tcp;
      port = codes "443";
      action = Rules.allow;
    } in
    (
      record { rules4 = allow_ten ∷ rule ∷ []; dns = [] },
      (codes "work", record { ip = allow_ten ∷ rule ∷ []; dns = [] }) ∷ [],
    )

undecided : matching_action https_services request rules ≡ ok none
unfolding matching_action get Text-discrete flow_rule_matches Proto-discrete
undecided = refl

allowed : matching_action https_services other_request rules ≡ ok (some Rules.allow)
unfolding matching_action get Text-discrete flow_rule_matches Proto-discrete normalize_port show
    port_text has_char
allowed = refl

destinations :
    dests listed_types two_addresses request allow ≡ ok (host request.dst, host request.dst)
unfolding dests
destinations = refl

saves : append_flow_rule listed_types two_addresses request allow file rules ≡ ok saved
unfolding append_flow_rule ℕ_discrete ptr_of port_text get show Text-discrete put
saves = refl

append_flow_rule-keeps_example :
    matching_action https_services other_request saved.1 ≡ ok (some Rules.allow)
append_flow_rule-keeps_example =
    append_flow_rule-keeps https_services listed_types two_addresses request allow file rules saved
      other_request Rules.allow saves allowed

small : (n : ℕ) → request.dport ≡ some n → n < 65536
small n e = ground arith

reached : dest_matches request.dst (host request.dst) ≡ ok true
unfolding dest_matches ℕ_discrete
reached = refl

append_flow_rule-decides_example :
    matching_action https_services request saved.1 ≡ ok (some (action_of allow))
append_flow_rule-decides_example =
    append_flow_rule-decides https_services listed_types two_addresses request allow file rules
      saved (host request.dst, host request.dst) https_services-IsServices refl small undecided
      saves destinations reached

abbrev question : Question
question = record { qtype = codes "A"; qname = codes "example.com" }

append_dns_rule-keeps_example :
    matching_action https_services other_request
      (append_dns_rule (codes "work") question Rules.reject file rules).1
    ≡ ok (some Rules.allow)
append_dns_rule-keeps_example =
    append_dns_rule-keeps https_services (codes "work") question Rules.reject file rules
      other_request Rules.allow allowed

named_port : normalize_port https_services (text (codes "https")) tcp ≡ ok (ports_text (one 443))
unfolding normalize_port Text-discrete
named_port = refl

within : dest_matches 0x0a000001 (network 0x0a000000 8) ≡ ok true
unfolding dest_matches ℕ_discrete
within = refl

flow_rule_matches-covers_example :
    flow_rule_matches https_services other_request allow_ten
    ≡ ok (tcp == tcp && true && covers (one 443) other_request.dport)
unfolding ℕ_discrete
flow_rule_matches-covers_example =
    flow_rule_matches-covers https_services other_request allow_ten (one 443) true
      (omega arith, omega arith) named_port within

-- The test of a list of rules, for one request.
abbrev tests : FlowRule → Result Bool
tests = flow_rule_matches https_services other_request

abbrev actions : FlowRule → Action
actions r = r.action

first : first_match tests actions (allow_ten ∷ reject_all ∷ []) ≡ ok (some Rules.allow)
unfolding first_match flow_rule_matches Proto-discrete normalize_port Text-discrete show port_text
    has_char
first = refl

hits : tests reject_all ≡ ok true
unfolding flow_rule_matches Proto-discrete normalize_port Text-discrete show port_text has_char
hits = refl

only : first_match tests actions (allow_ten ∷ []) ≡ ok (some Rules.allow)
unfolding first_match flow_rule_matches Proto-discrete normalize_port Text-discrete show port_text
    has_char
only = refl
