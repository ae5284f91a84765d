-- ===== src/Tests/Saving.antt =====
-- An answer is saved where there was no file.
use qubes_snitch.Prelude.Decimal.{read}
use qubes_snitch.Packets.Ports.{port_text}
use qubes_snitch.Packets.Ports.{normalize_port}
use qubes_snitch.Prelude.Decimal.{show}
use qubes_snitch.Request.{ip_text}
use qubes_snitch.Prelude.{Text-discrete}
use qubes_snitch.Config.RuleFile.{validate_rule_file}
use qubes_snitch.Policy.Append.{append_flow_rule}
use qubes_snitch.Prelude.Dict.{get}
use qubes_snitch.Prelude.{ℕ_discrete}
use qubes_snitch.Prelude.Strings.{starts_with}
use qubes_snitch.Config.Names.{is_numbered_dispvm}
use qubes_snitch.Prelude.Result.{ok}
use qubes_snitch.Prelude.{◌≡◌, refl, Text, codes, [], true, none}
use qubes_snitch.Config.RuleFile.{Network, ipv4}
use qubes_snitch.Config.Sources.{no_sources}
use qubes_snitch.Queue.{empty, allow}
use qubes_snitch.Runtime.{Runtime}
use qubes_snitch.Runtime.Saving.{Disk, append_rule}
use qubes_snitch.Runtime.Saving.Atomic.{Outcome, append_rule-Outcome}
use qubes_snitch.Tests.Packets.{https_services}
use qubes_snitch.Tests.Dns.{listed_types, two_addresses}
use qubes_snitch.Tests.Policy.{request, other_request, rules}

abbrev pub ip_network : Text → Network
ip_network t = ipv4 0x01010101 32

abbrev pub disk : Disk
disk = record {
  yaml = λ raw. none;
  dump = λ temporary file. codes "rules4:";
  writes = λ source raw. true;
}

abbrev before : Runtime
before = record {
  sources = no_sources;
  rules = rules;
  files = [];
  queue = empty;
  hints = record { responses = []; qnames = [] };
  last_refresh = 0;
}

append_rule-Outcome_example :
    Outcome https_services listed_types ip_network two_addresses disk request allow other_request
      before
      (append_rule https_services listed_types ip_network two_addresses disk request allow before)
append_rule-Outcome_example =
    append_rule-Outcome https_services listed_types ip_network two_addresses disk request allow
      before other_request

-- The save returns.
returns :
    (append_rule https_services listed_types ip_network two_addresses disk request allow before).1
    ≡ ok tt
unfolding append_rule is_numbered_dispvm starts_with ℕ_discrete get append_flow_rule
    validate_rule_file Text-discrete ip_text show normalize_port port_text read
returns = refl
