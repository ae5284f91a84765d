-- ===== src/Tests/Config.antt =====
-- One rule file, with a rule for a name.
use qubes_snitch.Prelude.Result.{ok}
use qubes_snitch.Prelude.Dict.{Dict, get, put}
use qubes_snitch.Config.DnsRule.{validate_dest_dns_name, canonical_qtype, valid_qname}
use qubes_snitch.Dns.Names.{
  dns_qname_is_ipv6_reverse, normalize_dns_name, are_labels, is_label, last,
}
use qubes_snitch.Prelude.Strings.{
  rstrip, lower_char, ends_with, split, starts_with, upper_char, has_char,
}
use qubes_snitch.Packets.Ports.{normalize_port}
use qubes_snitch.Config.Resolve.{resolve_dest_dns, insert}
use qubes_snitch.Config.Names.{is_source_name}
use qubes_snitch.Request.{Bytes, tcp}
use qubes_snitch.Dns.Rules
use qubes_snitch.Config.RuleFile.{
  validate_rule_file, Leaf, string, entries, items, Network, unreadable,
}
use qubes_snitch.Config.Rules.{Yaml, load_rules}
use qubes_snitch.Config.Rules.Saved.{SavedSource, load_rules-IsSaved}
use qubes_snitch.Policy.{named, Rules}
use qubes_snitch.Prelude.{
  ◌≡◌, refl, Text, codes, List, [], ◌∷◌, some, Text-discrete, ℕ_discrete, drop, All,
}
use qubes_snitch.Tests.Packets.{https_services, https_services-IsServices}
use qubes_snitch.Tests.Dns.{listed_types, two_addresses}

abbrev flow : Dict Text Leaf
flow =
    (codes "ptr", string (codes "web"))
    ∷ (codes "dest_dns", string (codes "example.com"))
    ∷ (codes "proto", string (codes "tcp"))
    ∷ (codes "port", string (codes "https"))
    ∷ (codes "action", string (codes "allow"))
    ∷ []

abbrev yaml : Yaml
yaml raw = some ((codes "rules4", items (entries flow ∷ [])) ∷ (codes "dns", items []) ∷ [])

abbrev ip_network : Text → Network
ip_network t = unreadable

abbrev files : List (Text × Bytes)
files = (codes "work", codes "rules4:") ∷ []

abbrev rules : Rules
rules =
    (
      codes "work",
      record {
        ip =
            record {
              ptr = codes "web";
              dest = named (codes "example.com") (some (5 ∷ 9 ∷ []));
              proto = tcp;
              port = codes "https";
              action = Rules.allow;
            }
            ∷ [];
        dns = [];
      },
    )
    ∷ []

load :
    load_rules https_services listed_types ip_network yaml (codes "default-dvm") two_addresses files
    ≡ ok rules
unfolding load_rules Text-discrete ℕ_discrete drop validate_rule_file get put validate_dest_dns_name
    canonical_qtype valid_qname dns_qname_is_ipv6_reverse normalize_dns_name are_labels is_label
    last rstrip lower_char ends_with split starts_with upper_char has_char normalize_port
    resolve_dest_dns insert is_source_name
load = refl

load_rules-IsSaved_example :
    All
      (SavedSource https_services https_services-IsServices listed_types ip_network yaml
        (codes "default-dvm"))
      rules
load_rules-IsSaved_example =
    load_rules-IsSaved https_services https_services-IsServices listed_types ip_network yaml
      (codes "default-dvm") two_addresses files rules load
