-- ===== src/Config/Rules/Saved.antt =====
-- The rules that load_rules gives are ready for the packet filter.
use mathlib.Core.Path.{subst}
use qubes_snitch.Prelude.{
  ◌≡◌, refl, Text, Text_eq, List, [], ◌∷◌, ◌++◌, true, All, any, not, codes, ◌||◌, ◌==◌,
}
use qubes_snitch.Prelude.Dict.{Dict, get}
use qubes_snitch.Prelude.Result.{ok, key_error, system_exit, require, >>=-eq-ok, ok-injective}
use qubes_snitch.Request.{Ip, Bytes}
use qubes_snitch.Packets.Ports.{Services}
use qubes_snitch.Packets.Ports.Normal.{IsServices}
use qubes_snitch.Config.DnsRule.{RdataTypes, from_option}
use qubes_snitch.Config.Resolve.{Resolver}
use qubes_snitch.Config.Names.{is_source_name, reserved_sources, dispvm_policy_prefix}
use qubes_snitch.Config.RuleFile.{Network}
use qubes_snitch.Config.RuleFile.Validated.{IsValidFlow, validate_rule_file-IsValidFlow}
use qubes_snitch.Config.Rules.{
  Yaml, read_yaml, runtime_dest, runtime_flow_rule, runtime_flow_rules, resolve_dest_dns_names,
  load_file, load_files, all_names, with_resolved, load_rules,
}
use qubes_snitch.Policy.{Dest, any_dest, host, network, named, FlowRule, SourceRules, Rules}
use qubes_snitch.Policy.Append.{RuleFile}
use qubes_snitch.Nft.Verdicts.Matches.{IsSaved, is_resolved}

runtime_dest-is_resolved :
    (resolved : Dict Text (List Ip)) (d d' : Dest)
    → runtime_dest resolved d ≡ ok d'
    → is_resolved d' ≡ true
unfolding runtime_dest
runtime_dest-is_resolved resolved any_dest d' h =
    subst (λ x. is_resolved x ≡ true) (ok-injective h) refl
runtime_dest-is_resolved resolved (host a) d' h =
    subst (λ x. is_resolved x ≡ true) (ok-injective h) refl
runtime_dest-is_resolved resolved (network a n) d' h =
    subst (λ x. is_resolved x ≡ true) (ok-injective h) refl
runtime_dest-is_resolved resolved (named name ips) d' h =
    let (found, _, h1) = >>=-eq-ok (from_option (get name resolved) key_error) _ h in
    subst (λ x. is_resolved x ≡ true) (ok-injective h1) refl

module _ (services : Services) where
  runtime_flow_rule-IsSaved :
      (resolved : Dict Text (List Ip)) (rule rule' : FlowRule)
      → IsValidFlow services rule
      → runtime_flow_rule resolved rule ≡ ok rule'
      → IsSaved services rule'
  unfolding runtime_flow_rule
  runtime_flow_rule-IsSaved resolved rule rule' v h =
      let (dest, e, h1) = >>=-eq-ok (runtime_dest resolved rule.dest) _ h in
      subst (IsSaved services) (ok-injective h1) (record {
        ports = v.ports;
        in_range = v.in_range;
        normal = v.normal;
        portless = v.portless;
        resolved = runtime_dest-is_resolved resolved rule.dest dest e;
      })

  runtime_flow_rules-IsSaved :
      (resolved : Dict Text (List Ip)) (rules rules' : List FlowRule)
      → All (IsValidFlow services) rules
      → runtime_flow_rules resolved rules ≡ ok rules'
      → All (IsSaved services) rules'
  unfolding runtime_flow_rules
  runtime_flow_rules-IsSaved resolved [] rules' v h =
      subst (All (IsSaved services)) (ok-injective h) tt
  runtime_flow_rules-IsSaved resolved (r ∷ rs) rules' (v, vs) h =
      let (r', e, h1) = >>=-eq-ok (runtime_flow_rule resolved r) _ h in
      let (rs', es, h2) = >>=-eq-ok (runtime_flow_rules resolved rs) _ h1 in
      subst (All (IsSaved services)) (ok-injective h2) (
        runtime_flow_rule-IsSaved resolved r r' v e,
        runtime_flow_rules-IsSaved resolved rs rs' vs es,
      )

  module _ (w : IsServices services) (types : RdataTypes) (ip_network : Text → Network)
      (yaml : Yaml) (default : Text) where
    abbrev ValidFile : Text × RuleFile → Type 0
    ValidFile (stem, file) = All (IsValidFlow services) file.rules4

    -- The flow rules of a source are ready to be rendered.
    abbrev pub SavedSource : Text × SourceRules → Type 0
    SavedSource (source, r) = All (IsSaved services) r.ip

    load_file-valid :
        (stem : Text) (raw : Bytes) (file : RuleFile)
        → load_file services types ip_network yaml default stem raw ≡ ok file
        → All (IsValidFlow services) file.rules4
    unfolding load_file
    load_file-valid stem raw file h =
        let (_, _, h1) = >>=-eq-ok (require (is_source_name stem) system_exit) _ h in
        let (_, _, h2) =
          >>=-eq-ok (require (not (any (λ r. r == stem) reserved_sources)) system_exit) _ h1 in
        let (_, _, h3) =
          >>=-eq-ok
            (require
              (not (stem == codes "dispvm-default-dvm" || stem == dispvm_policy_prefix ++ default))
              system_exit)
            _ h2 in
        let (document, _, h4) = >>=-eq-ok (read_yaml yaml raw) _ h3 in
        validate_rule_file-IsValidFlow services w types ip_network document file h4

    load_files-valid :
        (files : List (Text × Bytes)) (loaded : Dict Text RuleFile)
        → load_files services types ip_network yaml default files ≡ ok loaded
        → All ValidFile loaded
    unfolding load_files
    load_files-valid [] loaded h = subst (All ValidFile) (ok-injective h) tt
    load_files-valid ((stem, raw) ∷ files) loaded h =
        let (file, e, h1) =
          >>=-eq-ok (load_file services types ip_network yaml default stem raw) _ h in
        let (rest, es, h2) =
          >>=-eq-ok (load_files services types ip_network yaml default files) _ h1 in
        subst (All ValidFile) (ok-injective h2)
          (load_file-valid stem raw file e, load_files-valid files rest es)

    with_resolved-saved :
        (resolved : Dict Text (List Ip)) (loaded : Dict Text RuleFile) (rules : Rules)
        → All ValidFile loaded
        → with_resolved services types ip_network yaml default resolved loaded ≡ ok rules
        → All SavedSource rules
    unfolding with_resolved
    with_resolved-saved resolved [] rules v h = subst (All SavedSource) (ok-injective h) tt
    with_resolved-saved resolved ((stem, file) ∷ files) rules (v, vs) h =
        let (ip, e, h1) = >>=-eq-ok (runtime_flow_rules resolved file.rules4) _ h in
        let (rest, es, h2) =
          >>=-eq-ok (with_resolved services types ip_network yaml default resolved files) _ h1 in
        subst (All SavedSource) (ok-injective h2) (
          runtime_flow_rules-IsSaved resolved file.rules4 ip v e,
          with_resolved-saved resolved files rest vs es,
        )

    -- Whatever the rule files hold, if load_rules accepts them then every flow rule in memory is
    -- one that the table of the packet filter can hold: normalize_port reads its port, as one
    -- port or a range of ports from 1 to 65535 or as every port, it is every port unless the rule is
    -- for TCP or UDP, and the name of its destination, if it has one, is
    -- resolved. The services are such as RFC 6335 wants them.
    pub load_rules-IsSaved :
        (resolver : Resolver) (files : List (Text × Bytes)) (rules : Rules)
        → load_rules services types ip_network yaml default resolver files ≡ ok rules
        → All SavedSource rules
    unfolding load_rules
    load_rules-IsSaved resolver files rules h =
        let (loaded, e, h1) =
          >>=-eq-ok (load_files services types ip_network yaml default files) _ h in
        let (resolved, _, h2) =
          >>=-eq-ok
            (resolve_dest_dns_names resolver
              (all_names services types ip_network yaml default loaded))
            _ h1 in
        with_resolved-saved resolved loaded rules (load_files-valid files loaded e) h2
