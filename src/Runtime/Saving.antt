-- ===== src/Runtime/Saving.antt =====
-- append_rule of qubes_snitch/policy_runtime.py: an answer becomes a rule on disk and in memory.
pub mod Added
pub mod Atomic
use qubes_snitch.Prelude.{
  ℕ, Text, Text_eq, codes, List, [], ◌∷◌, ◌++◌, Bool, true, false, ◌&&◌, not, Option, none, some,
  if◌then◌else◌, map,
}
use qubes_snitch.Prelude.Dict.{Dict, get, put, has}
use qubes_snitch.Prelude.Decimal.{show}
use qubes_snitch.Prelude.Result.{Result, ok, err, Error, system_exit, os_error, ◌>>=◌}
use qubes_snitch.Request.{Bytes, Request, Kind, net, dns, dns_error, ip_text, proto_text}
use qubes_snitch.Packets.Ports.{Services, any_port}
use qubes_snitch.Dns.Rules
use qubes_snitch.Dns.Rules.{Action, DnsRule}
use qubes_snitch.Config.DnsRule.{RdataTypes}
use qubes_snitch.Config.Resolve.{Resolver}
use qubes_snitch.Config.Names.{is_numbered_dispvm}
use qubes_snitch.Config.RuleFile.{
  Leaf, string, Item, entries, Section, items, Document, Network, dest_key, dest_dns_key,
  validate_rule_file,
}
use qubes_snitch.Config.Rules.{Yaml, read_yaml}
use qubes_snitch.Policy.{Dest, any_dest, host, network, named, FlowRule, Rules}
use qubes_snitch.Policy.Append.{RuleFile, append_dns_rule, append_flow_rule, action_of}
use qubes_snitch.Queue.{Decision, is_hostname}
use qubes_snitch.Runtime.{Runtime}

-- The rule file as the YAML value that is validated and written.
action_text : Action → Text
action_text Rules.allow = codes "allow"
action_text Rules.reject = codes "reject"

dest_entry : Dest → Text × Leaf
dest_entry any_dest = (dest_key, string any_port)
dest_entry (host a) = (dest_key, string (ip_text a))
dest_entry (network a n) = (dest_key, string (ip_text a ++ b'/' ∷ show n))
dest_entry (named name ips) = (dest_dns_key, string name)

flow_entries : FlowRule → Item
unfolding action_text dest_entry
flow_entries r = entries (
    (codes "ptr", string r.ptr)
    ∷ dest_entry r.dest
    ∷ (codes "proto", string (proto_text r.proto))
    ∷ (codes "port", string r.port)
    ∷ (codes "action", string (action_text r.action))
    ∷ [])

dns_entries : DnsRule → Item
unfolding action_text
dns_entries r = entries (
    (codes "qname", string r.qname)
    ∷ (codes "qtype", string r.qtype)
    ∷ (codes "action", string (action_text r.action))
    ∷ [])

unfoldable pub document_of : RuleFile → Document
unfolding flow_entries dns_entries
document_of file =
    (codes "rules4", items (map flow_entries file.rules4))
    ∷ (codes "dns", items (map dns_entries file.dns))
    ∷ []

abbrev pub empty_file : RuleFile
empty_file = record { rules4 = []; dns = [] }

-- What the save relies on: the parser and the printer of YAML, where the flag asks for the header
-- of a temporary file, and whether the write and the replacement of a file succeed.
pub record Disk : Type 0 where
  pub yaml : Yaml
  pub dump : Bool → RuleFile → Bytes
  pub writes : Text → Bytes → Bool

module _ (services : Services) (types : RdataTypes) (ip_network : Text → Network)
    (resolver : Resolver) (disk : Disk) where
  -- The contents of the file of a source, which may be missing.
  pub read_rules : Option Bytes → Result RuleFile
  read_rules none = ok empty_file
  read_rules (some raw) = do
    document ← read_yaml disk.yaml raw
    validate_rule_file services types ip_network document

  -- The answer by host name is no action of a DNS rule, and fails in the validation.
  pub with_answer : Kind → Request → Decision → RuleFile → Rules → Result (RuleFile × Rules)
  with_answer (dns q) r d file rules =
      if is_hostname d
      then err system_exit
      else ok (append_dns_rule r.source q (action_of d) file rules)
  with_answer net r d file rules = append_flow_rule types resolver r d file rules
  with_answer (dns_error e q) r d file rules = append_flow_rule types resolver r d file rules

  -- The new file, validated again, and the new rules in memory.
  next_rules : Request → Decision → Runtime → Result (RuleFile × Rules)
  unfolding read_rules with_answer document_of
  next_rules r d rt = do
    file ← read_rules (get r.source rt.files)
    added ← with_answer r.kind r d file rt.rules
    checked ← validate_rule_file services types ip_network (document_of added.0)
    ok (checked, added.1)

  -- Only after the file is written are the rules in memory replaced.
  publish : Text → RuleFile × Rules → Runtime → Runtime × Result (Unit {0})
  publish source (file, rules) rt =
      let raw = disk.dump (is_numbered_dispvm source) file in
      if disk.writes source raw
      then (record rt { files = put source raw rt.files; rules = rules }, ok tt)
      else (rt, err os_error)

  publish_or_raise : Text → Result (RuleFile × Rules) → Runtime → Runtime × Result (Unit {0})
  unfolding publish
  publish_or_raise source (err e) rt = (rt, err e)
  publish_or_raise source (ok next) rt = publish source next rt

  unfoldable pub append_rule : Request → Decision → Runtime → Runtime × Result (Unit {0})
  unfolding next_rules publish_or_raise
  append_rule r d rt =
      if is_numbered_dispvm r.source && not (has r.source rt.sources.by_name)
      then (rt, err system_exit)
      else publish_or_raise r.source (next_rules r d rt) rt
