-- ===== src/Lib.antt =====
-- Qubes Snitch decides, for each packet that a qube sends, whether it is accepted. nftables hands
-- packets without a rule to the daemon, whose NFQUEUE callback parses the packet, finds the qube
-- by the source address, asks the policy, and queues a question for the user where no rule
-- decides. The user's answers become rules, and the rules become the table of nftables. This
-- library models that core and proves what makes it right.
--
-- The parts, and the code that each one translates:
--
-- - Request: the request dict of qubes_snitch/packets.py and qubes_snitch/dns.py as a record. A
--   key that may be absent is an Option; an IPv4 address is its number.
-- - Packets.Parse: parse_packet of qubes_snitch/packets.py, over the bytes of the packet.
--   Packets.Ports: normalize_port and request_port.
-- - Dns.Names, Dns.Rules, Dns.Query: the names, the rules and the questions of
--   qubes_snitch/dns.py. The two regular expressions are tests of the labels of a name.
--   Dns.Checksum and Dns.Reply: the checksums and dns_reject_payload of the same file.
-- - Hints: qubes_snitch/dns_cache_runtime.py. Hints.Evict holds the sort and the deletion of an
--   eviction, Hints the two tables with what changes them, Hints.Refresh the choice of what is
--   refreshed, and Hints.Lookup the lookups of a prompt with enrich_prompt_request. Times are
--   ticks, of which the model of the resolver says how many a second has.
-- - Config: qubes_snitch/config.py. Config.DnsRule and Config.Resolve hold validate_dns_rule,
--   validate_dest_dns_name and resolve_dest_dns; Config.RuleFile validate_rule_file, on the YAML
--   value as deep as the code looks into it; Config.Rules read_yaml and load_rules; Config.Names
--   and Config.Sources the names of sources and parse_sources_output; Config.Settings read_config
--   with the widths and the colors, and Config.Settings.Values its data and parse_limit_rate.
-- - Dom0: templates/dom0/usr/local/lib/qubes-snitch/sources.py, on the elements of the file.
-- - Policy, Policy.Append: the match of requests against rules and the saving of answers, of
--   qubes_snitch/policy.py.
-- - Queue: the pending questions of qubes_snitch/queue.py. Each function is one critical section
--   under the lock of the module, so runs of the threads are sequences of them (Queue.History).
-- - Answers: the preparation and the saving of an answer, of the same file. The connection with
--   the CLI is the line that it gave, or none where it broke.
-- - Handlers: the callback of qubes_snitch/packet_handlers.py with ensure_rule_entry of
--   qubes_snitch/policy_runtime.py, on the state of the daemon and the verdicts of the packet
--   (Handlers.Monad). An exception leaves the state as it was when it was raised.
-- - Nft: qubes_snitch/nft.py. A line is a list of parts and a statement (Nft.Parts, Nft.Lines),
--   and part_text and statement_text write its words; Nft.Table is the text of the table, with
--   the chain of a source as its lines, and Nft.Load its loading. Nft.Filter states what is used
--   of nftables itself: when a part holds of a packet, and that a chain goes through its lines in
--   order, where a limit without tokens is a part that does not hold.
-- - Runtime: refresh_sources_and_nft of qubes_snitch/sources_runtime.py with the cleanups of
--   qubes_snitch/policy_runtime.py, on the sources, the rules in memory, the rule files, the
--   queue and the hint cache. Runtime.Saving: append_rule of qubes_snitch/policy_runtime.py.
--   Runtime.Start: load_policy_without_sources and refresh_sources_required in the order in which
--   main of qubes_snitch/daemon_runtime.py calls them. Runtime.Prompts: handle_cli_connection of
--   that file around the one of Answers, with the test of stale prompts.
-- - Client: the questions of qubes-snitch.py, on the keys that are pressed. Ui: the line of a
--   prompt and the header of qubes_snitch/ui.py, with the cells in Ui.Cells, as parts that take
--   room and escapes that take none, and the colors in Ui.Palette.
-- - Display: safe_text of qubes_snitch/display.py. Alerts.Buckets, Alerts.Lines, Alerts.Popups:
--   the token buckets, the log lines and the alerts of qubes_snitch/alerts_runtime.py, with the
--   pop-ups of qubes_snitch/notify.py. Each call takes the time as an argument, in ticks; a
--   token is as many parts as the period of the rate has ticks, so the fractions of the code are
--   exact.
-- - Prelude: results that may be an exception, ordered dicts, texts as lists of code points, and
--   decimal numerals. Tests: runs on small inputs.
--
-- Three functions have fuel, and all others recurse on a list of the packet, the name, the rules,
-- the files, the keys, the caches or the queue. str(n) gets one unit more than the number and so
-- more than its digits. The folding of a checksum gets one round more than the sum has units, each
-- of which makes it smaller (Dns.Checksum.Verified). vm_uses_snitch gets two rounds more than
-- there are qubes with a network qube, and meets none of them twice (Dom0.Chain).
-- The wait of next_pending_request is the answer none.
--
-- What is outside is a parameter: the services file, the DNS library and resolver with the time
-- that it takes, the names of DNS types, the YAML parser and printer, ipaddress, the hash of chain
-- names, the command nft and the writing of its file, the Unicode tables, notify-send and the
-- sending of replies; in the callback also the rule files, the refresh of the sources and the hint
-- cache. Texts of exceptions are not kept. The callback has its alerts as a list of events, each
-- of which may end the daemon, and is modelled without interleaving: the other threads take the
-- policy lock between callbacks. The refresh leaves out the log lines. An address in a rule is
-- spelled in its canonical way. The parallel refreshes of a prompt run one after another, in the
-- order of the rules. str.lower and str.upper are exact where what they give is ASCII, but for
-- ligatures; the names and types that pass the checks are ASCII.
--
-- Not modelled: the sockets, locks, signals, directories and threads of the daemon and the client,
-- the modes of the terminal, the loop of the QubesDB watcher and the call
-- of dom0, which are input and output; the installers and the tests.
pub mod Prelude
pub mod Request
pub mod Packets
pub mod Dns
pub mod Config
pub mod Policy
pub mod Queue
pub mod Handlers
pub mod Answers
pub mod Display
pub mod Alerts
pub mod Hints
pub mod Nft
pub mod Dom0
pub mod Runtime
pub mod Ui
pub mod Client
pub mod Tests
