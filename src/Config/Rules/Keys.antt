-- ===== src/Config/Rules/Keys.antt =====
-- The sources of the rules in memory are the names of the rule files.
use qubes_snitch.Prelude.{◌≡◌, sym, ap, ◌∙◌, Text, List, [], ◌∷◌}
use qubes_snitch.Prelude.Dict.{Dict, keys}
use qubes_snitch.Prelude.Result.{ok, >>=-eq-ok, ok-injective}
use qubes_snitch.Request.{Ip, Bytes}
use qubes_snitch.Packets.Ports.{Services}
use qubes_snitch.Config.DnsRule.{RdataTypes}
use qubes_snitch.Config.Resolve.{Resolver}
use qubes_snitch.Config.RuleFile.{Network}
use qubes_snitch.Config.Rules.{
  Yaml, runtime_flow_rules, resolve_dest_dns_names, load_file, load_files, all_names, with_resolved,
  load_rules,
}
use qubes_snitch.Policy.{Rules}
use qubes_snitch.Policy.Append.{RuleFile}

module _ (services : Services) (types : RdataTypes) (ip_network : Text → Network) (yaml : Yaml)
    (default : Text) where
  keys-load_files :
      (files : List (Text × Bytes)) (loaded : Dict Text RuleFile)
      → load_files services types ip_network yaml default files ≡ ok loaded
      → keys loaded ≡ keys files
  unfolding load_files
  keys-load_files [] loaded h = ap keys (sym (ok-injective h))
  keys-load_files ((stem, raw) ∷ files) loaded h =
      let (file, _, h1) =
        >>=-eq-ok (load_file services types ip_network yaml default stem raw) _ h in
      let (rest, es, h2) =
        >>=-eq-ok (load_files services types ip_network yaml default files) _ h1 in
      ap keys (sym (ok-injective h2)) ∙ ap (◌∷◌ stem) (keys-load_files files rest es)

  keys-with_resolved :
      (resolved : Dict Text (List Ip)) (loaded : Dict Text RuleFile) (rules : Rules)
      → with_resolved services types ip_network yaml default resolved loaded ≡ ok rules
      → keys rules ≡ keys loaded
  unfolding with_resolved
  keys-with_resolved resolved [] rules h = ap keys (sym (ok-injective h))
  keys-with_resolved resolved ((stem, file) ∷ loaded) rules h =
      let (ip, _, h1) = >>=-eq-ok (runtime_flow_rules resolved file.rules4) _ h in
      let (rest, es, h2) =
        >>=-eq-ok (with_resolved services types ip_network yaml default resolved loaded) _ h1 in
      ap keys (sym (ok-injective h2)) ∙ ap (◌∷◌ stem) (keys-with_resolved resolved loaded rest es)

  pub keys-load_rules :
      (resolver : Resolver) (files : List (Text × Bytes)) (rules : Rules)
      → load_rules services types ip_network yaml default resolver files ≡ ok rules
      → keys rules ≡ keys files
  unfolding load_rules
  keys-load_rules resolver files rules h =
      let (loaded, e, h1) =
        >>=-eq-ok (load_files services types ip_network yaml default files) _ h in
      let (resolved, _, h2) =
        >>=-eq-ok
          (resolve_dest_dns_names resolver
            (all_names services types ip_network yaml default loaded))
          _ h1 in
      keys-with_resolved resolved loaded rules h2 ∙ keys-load_files files loaded e
