-- ===== src/Config/Rules.antt =====
-- read_yaml, resolve_dest_dns_names and load_rules of qubes_snitch/config.py.
pub mod Saved
pub mod Keys
use qubes_snitch.Prelude.{
  ℕ, Text, Text_eq, codes, List, [], ◌∷◌, ◌++◌, Bool, true, false, ◌||◌, not, Option, none, some,
  any, ◌==◌, if◌then◌else◌, map,
}
use qubes_snitch.Prelude.Dict.{Dict, get, put, has}
use qubes_snitch.Prelude.Result.{Result, ok, err, system_exit, key_error, require, ◌>>=◌, ◌>>◌}
use qubes_snitch.Request.{Ip, Bytes}
use qubes_snitch.Packets.Ports.{Services}
use qubes_snitch.Dns.Query.{has_non_ascii}
use qubes_snitch.Config.DnsRule.{RdataTypes, from_option}
use qubes_snitch.Config.Resolve.{Resolver, resolve_dest_dns}
use qubes_snitch.Config.Names.{is_source_name, reserved_sources, dispvm_policy_prefix}
use qubes_snitch.Config.RuleFile.{Document, Network, validate_rule_file}
use qubes_snitch.Policy.{Dest, any_dest, host, network, named, FlowRule, SourceRules, Rules}
use qubes_snitch.Policy.Append.{RuleFile}

-- yaml.load with UniqueKeyLoader: none for an exception, and for a value that is no mapping.
abbrev pub Yaml : Type 0
Yaml = Bytes → Option Document

unfoldable pub read_yaml : Yaml → Bytes → Result Document
read_yaml yaml raw = do
  require (not (has_non_ascii raw)) system_exit
  from_option (yaml raw) system_exit

-- The names of the destinations of the rules, which are resolved together.
dest_name : Dest → List Text
dest_name (named name ips) = name ∷ []
dest_name any_dest = []
dest_name (host a) = []
dest_name (network a n) = []

dest_names : List FlowRule → List Text
unfolding dest_name
dest_names [] = []
dest_names (r ∷ rs) = dest_name r.dest ++ dest_names rs

-- Each name is resolved once; the workers change no answer.
unfoldable pub resolve_dest_dns_names : Resolver → List Text → Result (Dict Text (List Ip))
resolve_dest_dns_names resolver [] = ok []
resolve_dest_dns_names resolver (name ∷ names) = do
  resolved ← resolve_dest_dns_names resolver names
  if has name resolved
      then ok resolved
      else (do ips ← resolve_dest_dns resolver name; ok (put name ips resolved))

-- The destination of a rule in memory.
runtime_dest : Dict Text (List Ip) → Dest → Result Dest
runtime_dest resolved (named name ips) = do
  found ← from_option (get name resolved) key_error
  ok (named name (some found))
runtime_dest resolved any_dest = ok any_dest
runtime_dest resolved (host a) = ok (host a)
runtime_dest resolved (network a n) = ok (network a n)

unfoldable pub runtime_flow_rule : Dict Text (List Ip) → FlowRule → Result FlowRule
unfolding runtime_dest
runtime_flow_rule resolved rule = do
  dest ← runtime_dest resolved rule.dest
  ok (record rule { dest = dest })

unfoldable pub runtime_flow_rules : Dict Text (List Ip) → List FlowRule → Result (List FlowRule)
unfolding runtime_flow_rule
runtime_flow_rules resolved [] = ok []
runtime_flow_rules resolved (r ∷ rs) = do
  first ← runtime_flow_rule resolved r
  rest ← runtime_flow_rules resolved rs
  ok (first ∷ rest)

module _ (services : Services) (types : RdataTypes) (ip_network : Text → Network) (yaml : Yaml)
    (default : Text) where
  -- A file of the rules, by its name without ".yml" and its bytes.
  unfoldable pub load_file : Text → Bytes → Result RuleFile
  unfolding is_source_name read_yaml
  load_file stem raw = do
    require (is_source_name stem) system_exit
    require (not (any (λ r. r == stem) reserved_sources)) system_exit
    require (not (stem == codes "dispvm-default-dvm" || stem == dispvm_policy_prefix ++ default))
        system_exit
    document ← read_yaml yaml raw
    validate_rule_file services types ip_network document

  unfoldable pub load_files : List (Text × Bytes) → Result (Dict Text RuleFile)
  unfolding load_file
  load_files [] = ok []
  load_files ((stem, raw) ∷ files) = do
    file ← load_file stem raw
    rest ← load_files files
    ok ((stem, file) ∷ rest)

  all_names : Dict Text RuleFile → List Text
  unfolding dest_names
  all_names [] = []
  all_names ((stem, file) ∷ rest) = dest_names file.rules4 ++ all_names rest

  with_resolved : Dict Text (List Ip) → Dict Text RuleFile → Result Rules
  unfolding runtime_flow_rules
  with_resolved resolved [] = ok []
  with_resolved resolved ((stem, file) ∷ files) = do
    ip ← runtime_flow_rules resolved file.rules4
    rest ← with_resolved resolved files
    ok ((stem, record { ip = ip; dns = file.dns }) ∷ rest)

  -- The files are those of the directory, sorted by their names.
  unfoldable pub load_rules : Resolver → List (Text × Bytes) → Result Rules
  unfolding load_files all_names resolve_dest_dns_names with_resolved
  load_rules resolver files = do
    loaded ← load_files files
    resolved ← resolve_dest_dns_names resolver (all_names loaded)
    with_resolved resolved loaded
