-- ===== src/Policy.antt =====
-- qubes_snitch/policy.py: what a rule means. The children hold the updates and the laws.
pub mod Matching
pub mod FirstMatch
pub mod Append
use qubes_snitch.Prelude.{
  ℕ, ◌-◌, ◌/◌, ◌^◌, Text, Text_eq, List, [], ◌∷◌, Bool, true, false, ◌&&◌, not, any, Option, none,
  some, leb, ◌==◌, ℕ_eq, if◌then◌else◌,
}
use qubes_snitch.Prelude.Dict.{Dict, get}
use qubes_snitch.Prelude.Strings.{has_char, before, after}
use qubes_snitch.Prelude.Decimal.{read}
use qubes_snitch.Prelude.Result.{Result, ok, err, key_error, ◌>>=◌}
use qubes_snitch.Request.{Ip, Proto, Proto_eq, Request, Kind, net, dns, dns_error}
use qubes_snitch.Packets.Ports.{Services, text, any_port, normalize_port, request_port}
use qubes_snitch.Dns.Rules.{Action, DnsRule, dns_rule_matches}

-- The destination of a rule: "any", one address, a network of an address and a prefix length, or
-- a host name. _resolved_dests, the addresses of the name, is a key of the rules in memory alone:
-- none where it is absent.
pub data Dest : Type 0 where
  any_dest : Dest
  host : Ip → Dest
  network : Ip → ℕ → Dest
  named : Text → Option (List Ip) → Dest

-- An entry of the list `rules4` of a rule file; its port is the text of the file.
pub record FlowRule : Type 0 where
  pub ptr : Text
  pub dest : Dest
  pub proto : Proto
  pub port : Text
  pub action : Action

-- The policy of one source in memory, RULES[source].
pub record SourceRules : Type 0 where
  pub ip : List FlowRule
  pub dns : List DnsRule

abbrev pub Rules : Type 0
Rules = Dict Text SourceRules

-- address in ip_network(base/length): the leading bits are those of the network.
abbrev pub in_network : Ip → Ip → ℕ → Bool
in_network address base length = address / 2 ^ (32 - length) == base / 2 ^ (32 - length)

unfoldable pub dest_matches : Ip → Dest → Result Bool
dest_matches dst any_dest = ok true
dest_matches dst (host a) = ok (dst == a)
dest_matches dst (network a n) = ok (in_network dst a n)
dest_matches dst (named name none) = err key_error
dest_matches dst (named name (some ips)) = ok (any (λ a. a == dst) ips)

-- The comparison of port_matches, once the port of the rule is normalised.
unfoldable pub port_covers : Text → Text → Bool
port_covers port request_port_value =
    if port == any_port
    then true
    else if request_port_value == any_port
    then false
    else if has_char b'-' port
    then leb (read (before b'-' port)) (read request_port_value)
      && leb (read request_port_value) (read (after b'-' port))
    else request_port_value == port

-- The loop of matching_action over a list of rules.
unfoldable pub first_match {ℓ} :
    {R : Type ℓ} → (R → Result Bool) → (R → Action) → List R → Result (Option Action)
first_match matches action [] = ok none
first_match matches action (r ∷ rs) = do
  hit ← matches r
  if hit then ok (some (action r)) else first_match matches action rs

module _ (services : Services) where
  unfoldable pub port_matches : Request → FlowRule → Result Bool
  unfolding port_covers
  port_matches request rule = do
    port ← normalize_port services (text rule.port) request.proto
    ok (port_covers port (request_port request))

  unfoldable pub flow_rule_matches : Request → FlowRule → Result Bool
  unfolding dest_matches port_matches
  flow_rule_matches request rule = if not (rule.proto == request.proto) then ok false else (do
    hit ← dest_matches request.dst rule.dest
    if not hit then ok false else port_matches request rule)

  -- Only a request of kind "dns" is a question; any other is matched as a flow.
  matching_rules : Kind → Request → SourceRules → Result (Option Action)
  unfolding first_match
  matching_rules (dns question) request rules =
      first_match (λ r. ok (dns_rule_matches question r)) (λ r. r.action) rules.dns
  matching_rules net request rules =
      first_match (flow_rule_matches request) (λ r. r.action) rules.ip
  matching_rules (dns_error e q) request rules =
      first_match (flow_rule_matches request) (λ r. r.action) rules.ip

  matching_source : Request → Option SourceRules → Result (Option Action)
  matching_source request none = ok none
  matching_source request (some rules) = matching_rules request.kind request rules

  unfoldable pub matching_action : Request → Rules → Result (Option Action)
  unfolding matching_source matching_rules
  matching_action request rules = matching_source request (get request.source rules)
