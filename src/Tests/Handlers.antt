-- ===== src/Tests/Handlers.antt =====
-- A call of the packet callback.
use qubes_snitch.Prelude.Strings.{has_char}
use qubes_snitch.Prelude.Decimal.{show, read}
use qubes_snitch.Packets.Ports.{port_text, normalize_port}
use qubes_snitch.Prelude.Dict.{get}
use qubes_snitch.Request.{Proto-discrete, tcp, Request}
use qubes_snitch.Packets.Parse.{parse_packet}
use qubes_snitch.Dns.Rules.{allow}
use qubes_snitch.Policy.{flow_rule_matches, matching_action, any_dest}
use qubes_snitch.Handlers.Safety.Packet.{IsPermitted, handle_packet-IsPermitted}
use qubes_snitch.Prelude.{
  some, Text-discrete, ℕ_discrete, ◌≡◌, refl, Text_eq, codes, [], ◌∷◌, true, none,
}
use qubes_snitch.Prelude.Result.{ok}
use qubes_snitch.Queue.{empty}
use qubes_snitch.Handlers
use qubes_snitch.Handlers.Monad.{◌>>=◌, Callback, accept}
use qubes_snitch.Handlers.Verdicts.{Ending, handle_packet-Ending}
use qubes_snitch.Tests.Packets.{tcp_packet, https_services}
use qubes_snitch.Tests.Dns.{one_query}

abbrev outside : Handlers.Outside
outside = record {
  services = https_services;
  library = one_query;
  queue_size = 9;
  notified = λ es e. true;
  rule_file = λ source. ok none;
  refresh = λ d. (ok tt, d);
  cached_dns_name = λ source dst. none;
  send_dns_refused = λ r. ok tt;
}

-- The packet's source is the qube "work".
abbrev start : Callback
start = record {
  daemon = record {
    sources_by_name = (codes "work", 0x0a890009 ∷ []) ∷ [];
    sources_by_ip = (0x0a890009, codes "work") ∷ [];
    source_labels = [];
    source_display_by_ip = [];
    rules = [];
    queue = empty;
    events = [];
  };
  verdicts = [];
  refused = [];
}

handle_packet-Ending_example :
    Ending start.verdicts
      (Handlers.handle_packet outside tcp_packet start).0
      (Handlers.handle_packet outside tcp_packet start).1.verdicts
handle_packet-Ending_example = handle_packet-Ending outside tcp_packet start

-- The same, where the policy allows the flow.
abbrev allowing : Callback
allowing = record start {
  daemon = record start.daemon {
    rules =
        (
          codes "work",
          record {
            ip =
                record {
                  ptr = codes "no PTR";
                  dest = any_dest;
                  proto = tcp;
                  port = codes "443";
                  action = allow;
                }
                ∷ [];
            dns = [];
          },
        )
        ∷ [];
  };
}

accepted : (Handlers.handle_packet outside tcp_packet allowing).1.verdicts ≡ accept ∷ []
unfolding Handlers.handle_packet parse_packet ℕ_discrete ◌>>=◌ Proto-discrete get Text-discrete
    matching_action flow_rule_matches normalize_port read show port_text has_char
accepted = refl

handle_packet-IsPermitted_example :
    (packet : Request) × (parse_packet tcp_packet ≡ some packet)
    × IsPermitted outside allowing.daemon packet
        (Handlers.handle_packet outside tcp_packet allowing).1.daemon
handle_packet-IsPermitted_example = handle_packet-IsPermitted outside tcp_packet allowing accepted
