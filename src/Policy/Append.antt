-- ===== src/Policy/Append.antt =====
-- append_dns_rule and append_flow_rule of qubes_snitch/policy.py.
pub mod Saved
use qubes_snitch.Prelude.{
  ℕ, Text, Text_eq, codes, List, [], ◌∷◌, ◌++◌, Bool, true, false, ◌&&◌, not, Option, none, some,
  drop, ◌==◌, ℕ_eq, if◌then◌else◌,
}
use qubes_snitch.Prelude.Dict.{get, put}
use qubes_snitch.Prelude.Strings.{starts_with}
use qubes_snitch.Prelude.Result.{Result, ok, err, system_exit, require, ◌>>=◌, ◌>>◌}
use qubes_snitch.Request.{Ip, Request, has_ports, Question}
use qubes_snitch.Packets.Ports.{request_port}
use qubes_snitch.Dns.Rules
use qubes_snitch.Dns.Rules.{Action, DnsRule}
use qubes_snitch.Config.DnsRule.{RdataTypes, validate_dest_dns_name}
use qubes_snitch.Config.Resolve.{Resolver, resolve_dest_dns}
use qubes_snitch.Policy.{Dest, host, named, FlowRule, SourceRules, Rules}
use qubes_snitch.Queue.{Decision, allow, allow_dns, reject, reject_dns, is_hostname}

-- The contents of one rule file.
pub record RuleFile : Type 0 where
  pub rules4 : List FlowRule
  pub dns : List DnsRule

abbrev pub no_rules : SourceRules
no_rules = record { ip = []; dns = [] }

add_to : Text → (SourceRules → SourceRules) → Rules → Option SourceRules → Rules
add_to source change rules none = put source (change no_rules) rules
add_to source change rules (some r) = put source (change r) rules

-- A change of the rules of one source, which has an empty entry if it had none.
unfoldable pub change_source : Text → (SourceRules → SourceRules) → Rules → Rules
unfolding add_to
change_source source change rules = add_to source change rules (get source rules)

abbrev pub add_dns : DnsRule → SourceRules → SourceRules
add_dns rule r = record r { dns = r.dns ++ rule ∷ [] }

abbrev pub add_flow : FlowRule → SourceRules → SourceRules
add_flow rule r = record r { ip = r.ip ++ rule ∷ [] }

unfoldable pub append_dns_rule : Text → Question → Action → RuleFile → Rules → RuleFile × Rules
unfolding change_source
append_dns_rule source q action file rules =
    let rule : DnsRule = record { qname = q.qname; qtype = q.qtype; action = action } in
    (record file { dns = file.dns ++ rule ∷ [] }, change_source source (add_dns rule) rules)

-- {"allow-dns": "allow", "reject-dns": "reject"}.get(action, action)
abbrev pub action_of : Decision → Action
action_of allow = Rules.allow
action_of allow_dns = Rules.allow
action_of reject = Rules.reject
action_of reject_dns = Rules.reject

-- request["dport"] is neither None nor 0.
abbrev pub has_dport : Option ℕ → Bool
has_dport none = false
has_dport (some n) = not (n == 0)

-- The prefix of the names that the A cache gave.
abbrev pub a_prefix : Text
a_prefix = codes "A "

abbrev pub is_a_host : Option Text → Bool
is_a_host none = false
is_a_host (some h) = starts_with h a_prefix

abbrev pub host_name : Option Text → Text
host_name none = []
host_name (some h) = drop 2 h

abbrev pub or_no_ptr : Option Text → Text
or_no_ptr none = codes "no PTR"
or_no_ptr (some []) = codes "no PTR"
or_no_ptr (some (c ∷ s)) = c ∷ s

unfoldable pub ptr_of : Decision → Option Text → Text
ptr_of d h = if is_hostname d && is_a_host h then host_name h else or_no_ptr h

-- request.get("_resolved_dests") or resolve_dest_dns("prompt", name)
pub resolved_or : Resolver → Text → List Ip → Result (List Ip)
resolved_or resolver name [] = resolve_dest_dns resolver name
resolved_or resolver name (a ∷ ips) = ok (a ∷ ips)

-- The destination on disk and the one in memory.
unfoldable pub dests : RdataTypes → Resolver → Request → Decision → Result (Dest × Dest)
unfolding resolved_or
dests types resolver r d = if not (is_hostname d) then ok (host r.dst, host r.dst) else (do
  require (is_a_host r.host) system_exit
  name ← validate_dest_dns_name types (host_name r.host)
  ips ← resolved_or resolver name r.resolved_dests
  ok (named name none, named name (some ips)))

abbrev pub flow_rule : Request → Decision → Dest → FlowRule
flow_rule r d dest = record {
  ptr = ptr_of d r.host;
  dest = dest;
  proto = r.proto;
  port = request_port r;
  action = action_of d;
}

-- The new contents of the file, and the new rules in memory.
unfoldable pub save_flow : Request → Decision → RuleFile → Rules → Dest × Dest → RuleFile × Rules
unfolding change_source
save_flow r d file rules (disk, memory) = (
  record file { rules4 = file.rules4 ++ flow_rule r d disk ∷ [] },
  change_source r.source (add_flow (flow_rule r d memory)) rules,
)

unfoldable pub append_flow_rule :
    RdataTypes → Resolver → Request → Decision → RuleFile → Rules → Result (RuleFile × Rules)
unfolding dests save_flow
append_flow_rule types resolver r d file rules =
    if has_ports r.proto && not (has_dport r.dport)
    then err system_exit
    else (dests types resolver r d >>= λ ds. ok (save_flow r d file rules ds))
