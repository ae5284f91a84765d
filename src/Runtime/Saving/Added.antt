-- ===== src/Runtime/Saving/Added.antt =====
-- The rule that an answer becomes, in the contents of its file and in memory.
use qubes_snitch.Prelude.{
  ◌≡◌, Text, Text_eq, List, [], ◌∷◌, ◌++◌, Bool, true, false, not, none, some, ◌==◌, if◌then◌else◌,
  Bool-cases, inl, inr,
}
use mathlib.Core.Path.{subst}
use qubes_snitch.Prelude.Dict.{get}
use qubes_snitch.Prelude.Result.{
  Result, ok, err, system_exit, require, ◌>>=◌, ◌>>◌, >>=-eq-ok, ok-injective,
}
use qubes_snitch.Request.{Ip, Request, Kind, net, dns, dns_error, Question}
use qubes_snitch.Packets.Ports.{Services}
use qubes_snitch.Dns.Rules.{DnsRule}
use qubes_snitch.Config.DnsRule.{RdataTypes, validate_dest_dns_name}
use qubes_snitch.Config.Resolve.{Resolver}
use qubes_snitch.Config.RuleFile.{Network}
use qubes_snitch.Policy.{Dest, host, named, SourceRules, Rules}
use qubes_snitch.Policy.Append.{
  RuleFile, no_rules, change_source, add_dns, add_flow, append_dns_rule, action_of, is_a_host,
  host_name, resolved_or, dests, flow_rule, save_flow, append_flow_rule,
}
use qubes_snitch.Policy.Append.Saved.{get-change_source, append_flow_rule-inv}
use qubes_snitch.Queue.{Decision, is_hostname}
use qubes_snitch.Runtime.Saving.{Disk, with_answer}

-- The rules of a source, none where it has no entry.
abbrev pub entry_of : Text → Rules → SourceRules
entry_of source rules = elim (get source rules) [ none ↦ no_rules | some s ↦ s ]

-- The destinations of an answer on disk and in memory: the address, or a name and the name with
-- its addresses.
pub data IsDestined (r : Request) : Bool → Dest × Dest → Type 0 where
  to_host : IsDestined r false (host r.dst, host r.dst)
  to_name :
      (name : Text) (ips : List Ip) → IsDestined r true (named name none, named name (some ips))

-- The contents of the file and the rules in memory have one rule more than before, the last one
-- of the source, and no other source has changed.
pub data IsAdded (r : Request) (d : Decision) (file : RuleFile) (rules : Rules)
    : RuleFile × Rules → Type 0 where
  dns_added :
      (q : Question) (rules' : Rules)
      → r.kind ≡ dns q
      → is_hostname d ≡ false
      → ((s : Text)
          → get s rules' ≡ (
              if r.source == s
              then some (
                  add_dns
                    (record { qname = q.qname; qtype = q.qtype; action = action_of d })
                    (entry_of r.source rules))
              else get s rules))
      → IsAdded r d file rules (
        record file {
          dns = file.dns ++ record { qname = q.qname; qtype = q.qtype; action = action_of d } ∷ [];
        },
        rules',
      )
  flow_added :
      (ds : Dest × Dest) (rules' : Rules)
      → IsDestined r (is_hostname d) ds
      → ((s : Text)
          → get s rules' ≡ (
              if r.source == s
              then some (add_flow (flow_rule r d ds.1) (entry_of r.source rules))
              else get s rules))
      → IsAdded r d file rules
          (record file { rules4 = file.rules4 ++ flow_rule r d ds.0 ∷ [] }, rules')

dests-IsDestined :
    (types : RdataTypes) (resolver : Resolver) (r : Request) (d : Decision) (ds : Dest × Dest)
    → dests types resolver r d ≡ ok ds
    → IsDestined r (is_hostname d) ds
unfolding dests
dests-IsDestined types resolver r d ds h = by_name (is_hostname d) h
  where
    named_dests : Result (Dest × Dest)
    named_dests = do
      require (is_a_host r.host) system_exit
      name ← validate_dest_dns_name types (host_name r.host)
      ips ← resolved_or resolver name r.resolved_dests
      ok (named name none, named name (some ips))

    by_name :
        (b : Bool)
        → (if not b then ok (host r.dst, host r.dst) else named_dests) ≡ ok ds
        → IsDestined r b ds
    by_name false k = subst (IsDestined r false) (ok-injective k) to_host
    by_name true k =
        let (_, _, k1) = >>=-eq-ok (require (is_a_host r.host) system_exit) _ k in
        let (name, _, k2) = >>=-eq-ok (validate_dest_dns_name types (host_name r.host)) _ k1 in
        let (ips, _, k3) = >>=-eq-ok (resolved_or resolver name r.resolved_dests) _ k2 in
        subst (IsDestined r true) (ok-injective k3) (to_name name ips)

module _ (services : Services) (types : RdataTypes) (ip_network : Text → Network)
    (resolver : Resolver) (disk : Disk) where
  append_flow_rule-IsAdded :
      (r : Request) (d : Decision) (file : RuleFile) (rules : Rules) (next : RuleFile × Rules)
      → append_flow_rule types resolver r d file rules ≡ ok next
      → IsAdded r d file rules next
  append_flow_rule-IsAdded r d file rules next h =
      let (ds, e, same) = append_flow_rule-inv services types resolver r d file rules next h in
      subst (IsAdded r d file rules) same (
        unfold save_flow in
        flow_added ds (change_source r.source (add_flow (flow_rule r d ds.1)) rules)
          (dests-IsDestined types resolver r d ds e)
          (λ s. get-change_source r.source s (add_flow (flow_rule r d ds.1)) rules))

  pub with_answer-IsAdded :
      (k : Kind) (r : Request) (d : Decision) (file : RuleFile) (rules : Rules)
      (next : RuleFile × Rules)
      → r.kind ≡ k
      → with_answer services types ip_network resolver disk k r d file rules ≡ ok next
      → IsAdded r d file rules next
  unfolding with_answer append_dns_rule
  with_answer-IsAdded (dns q) r d file rules next e h = elim (Bool-cases (is_hostname d)) [
    | inl t ↦ absurd (clash (rw t at h))
    | inr f ↦
        subst (IsAdded r d file rules) (ok-injective (rw f at h))
          (dns_added q _ e f (λ s. get-change_source r.source s (add_dns rule) rules))
  ]
    where
      rule : DnsRule
      rule = record { qname = q.qname; qtype = q.qtype; action = action_of d }

      clash : ◌≡◌ {A = Result (RuleFile × Rules)} (err system_exit) (ok next) → ⊥
      clash p = cc
  with_answer-IsAdded net r d file rules next e h = append_flow_rule-IsAdded r d file rules next h
  with_answer-IsAdded (dns_error reason q) r d file rules next e h =
      append_flow_rule-IsAdded r d file rules next h
