-- ===== src/Tests/Nft.antt =====
-- Two rules for one address in the table of the packet filter.
use qubes_snitch.Prelude.Strings.{has_char}
use qubes_snitch.Prelude.{
  ℕ_discrete, ◌≡◌, refl, Text, Text_eq, Text-discrete, ℕ_eq, codes, List, [], ◌∷◌, Bool, true,
  false, ◌&&◌, Option, none, some, ◌==◌, if◌then◌else◌, all, any, All, arith, ==_refl,
}
use qubes_snitch.Prelude.Dict.{get}
use qubes_snitch.Prelude.Decimal.{show}
use qubes_snitch.Prelude.Result.{ok}
use qubes_snitch.Request.{Proto-discrete, Proto_eq, tcp, udp, icmp}
use qubes_snitch.Packets.Ports.{text, normalize_port, port_text}
use qubes_snitch.Packets.Ports.Normal.{one, ports_text}
use qubes_snitch.Dns.Rules.{allow, reject}
use qubes_snitch.Policy.{
  any_dest, host, FlowRule, SourceRules, Rules, port_covers, flow_rule_matches, matching_action,
}
use qubes_snitch.Policy.Matching.{port_covers-covers}
use qubes_snitch.Config.Resolve.{Answer, v4}
use qubes_snitch.Nft.Parts
use qubes_snitch.Nft.Parts.{Part, Line, nft_quote, line_text}
use qubes_snitch.Nft.Lines.{Settings, reject_line, reject_prefix}
use qubes_snitch.Nft.Table.{source_chain, render_nft, render_fail_closed_nft}
use qubes_snitch.Nft.Load.{Nft, Host, load_nft}
use qubes_snitch.Nft.Load.Outcome.{IsNft, Ends, load_nft-Ends}
use qubes_snitch.Nft.Filter.{
  Packet, Filter, IsFilter, ChainVerdict, accepted, part_holds, target_holds, verdict_of,
}
use qubes_snitch.Nft.Verdicts.Matches.{IsSaved}
use qubes_snitch.Nft.Verdicts.OneRule.{is_dns_packet}
use qubes_snitch.Nft.Verdicts.Chain.{decision_verdict}
use qubes_snitch.Nft.Verdicts.Agreement.{source_chain-matching_action, source_chain-over_limit}
use qubes_snitch.Nft.Verdicts.Safety.{allows, source_chain-allows}
use qubes_snitch.Tests.Packets.{https_services}
use qubes_snitch.Tests.Policy.{request}

-- A filter that compares ports as the policy does.
abbrev holds : Part → Packet → Bool
holds Parts.nfproto_ipv4 p = true
holds (Parts.saddr t) p = target_holds p.request.src t
holds (Parts.daddr t) p = target_holds p.request.dst t
holds (Parts.client_saddr ip) p = false
holds (Parts.client_daddr ip) p = false
holds (Parts.sport k port) p = k == p.request.proto && port_covers port (port_text p.request.sport)
holds (Parts.dport k port) p = k == p.request.proto && port_covers port (port_text p.request.dport)
holds (Parts.l4proto k) p = k == p.request.proto
holds Parts.protocol_icmp p = icmp == p.request.proto
holds Parts.ct_invalid p = p.invalid
holds Parts.ct_reply p = false
holds Parts.udp_dns p =
    p.request.proto == udp && port_covers (codes "53") (port_text p.request.dport)
holds Parts.local_vif p = false
holds (Parts.limit rate burst) p = true

abbrev step : Option ChainVerdict → Bool → Option ChainVerdict → Option ChainVerdict
step none matched rest = rest
step (some v) matched rest = if matched then some v else rest

run : (Line → Bool) → List Line → Packet → Option ChainVerdict
run left [] p = none
run left (l ∷ rest) p =
    step (verdict_of l.statement) (all (part_holds holds (left l) p) l.parts) (run left rest p)

abbrev filter : Filter
filter = record { holds = holds; run = run }

filter-IsFilter : IsFilter filter
unfolding run
filter-IsFilter = record {
  ipv4 = λ p. refl;
  to_target = λ t p. refl;
  to_port = λ k ps p r. rw (port_covers-covers ps k p.request.dport r) refl;
  of_proto = λ k p. refl;
  of_icmp = λ p. refl;
  is_invalid = λ p. refl;
  to_dns = λ p.
      rw (← port_covers-covers (one 53) udp p.request.dport (omega arith)) (unfold show in refl);
  at_end = λ left p. refl;
  at_line = λ left l rest p v e. rw e refl;
}

-- One address is rejected, and then all of them are allowed.
abbrev reject_one : FlowRule
reject_one = record {
  ptr = codes "no PTR";
  dest = host request.dst;
  proto = tcp;
  port = codes "https";
  action = reject;
}

abbrev allow_any : FlowRule
allow_any = record reject_one { dest = any_dest; action = allow }

abbrev rules : SourceRules
rules = record { ip = reject_one ∷ allow_any ∷ []; dns = [] }

https : normalize_port https_services (text (codes "https")) tcp ≡ ok (ports_text (one 443))
unfolding normalize_port Text-discrete
https = refl

rules-IsSaved : All (IsSaved https_services) rules.ip
rules-IsSaved = (
  record {
    ports = one 443;
    in_range = omega arith;
    normal = https;
    portless = λ h. absurd (cc);
    resolved = refl;
  },
  (
    record {
      ports = one 443;
      in_range = omega arith;
      normal = https;
      portless = λ h. absurd (cc);
      resolved = refl;
    },
    tt,
  ),
)

abbrev packet : Packet
packet = record { request = request; invalid = false }

abbrev settings : Settings
settings = record { limit_rate = codes "3/minute"; burst = 5; queue_num = 50 }

abbrev digest : Text → Text
digest source = codes "00000000"

abbrev ip_address : Text → Answer
ip_address t = v4 0

abbrev all_rules : Rules
all_rules = (codes "work", rules) ∷ []

rejected_by_policy : matching_action https_services request all_rules ≡ ok (some reject)
unfolding matching_action get Text-discrete flow_rule_matches Proto-discrete normalize_port show
    port_text has_char
rejected_by_policy = refl

matched : flow_rule_matches https_services request allow_any ≡ ok true
unfolding flow_rule_matches Proto-discrete normalize_port Text-discrete show port_text has_char
matched = refl

no_dns : is_dns_packet packet ≡ false
unfolding Proto-discrete
no_dns = refl

found : get (codes "work") all_rules ≡ some rules
unfolding get Text-discrete
found = refl

source_chain-matching_action_example :
    (chain : List Line) × (source_chain https_services digest ip_address settings
        (codes "work")
        rules.ip
      ≡ ok chain)
    × (filter.run (λ l. true) chain packet ≡ some (decision_verdict settings (some reject)))
source_chain-matching_action_example =
    source_chain-matching_action filter filter-IsFilter https_services digest ip_address settings
      packet all_rules rules (some reject) found rules-IsSaved refl refl no_dns rejected_by_policy

source_chain-over_limit_example :
    (chain : List Line) × (source_chain https_services digest ip_address settings
        (codes "work")
        rules.ip
      ≡ ok chain)
    × (filter.run (λ l. false) chain packet ≡ some accepted)
source_chain-over_limit_example =
    source_chain-over_limit filter filter-IsFilter https_services digest ip_address settings
      (codes "work") packet (reject_one ∷ []) allow_any [] rules-IsSaved refl matched refl no_dns

over_limit :
    (chain : List Line) × (source_chain https_services digest ip_address settings
        (codes "work")
        rules.ip
      ≡ ok chain)
    × (filter.run (λ l. false) chain packet ≡ some accepted)
over_limit =
    source_chain-over_limit filter filter-IsFilter https_services digest ip_address settings
      (codes "work") packet (reject_one ∷ []) allow_any [] rules-IsSaved refl matched refl no_dns

source_chain-allows_example :
    (is_dns_packet packet ≡ false) × (any (allows https_services request) rules.ip ≡ true)
source_chain-allows_example =
    source_chain-allows filter filter-IsFilter https_services (codes "work") settings digest
      ip_address rules.ip over_limit.0 (λ l. false) packet rules-IsSaved over_limit.1 over_limit.2

abbrev static : Text
static = render_fail_closed_nft settings (codes "qubes_snitch")

-- A command that loads the static table alone, and loses the table when it fails.
abbrev weak_load : Text → Option Text → Bool × Option Text
weak_load t before = if t == static then (true, some t) else (false, none)

abbrev weak_nft : Nft
weak_nft = record { write = λ t before. (true, t); check = λ t. true; load = weak_load }

weak_nft-IsNft : IsNft weak_nft static
weak_nft-IsNft = record {
  writes = λ t before h. refl;
  installs = λ t before h. ground arith;
  accepts = refl;
  loads = λ before. rw (==_refl static) refl;
}

abbrev host_before : Host
host_before = record { nft_file = []; table = some static }

load_nft-Ends_example :
    Ends weak_nft
      (some static)
      (render_nft https_services digest ip_address settings (codes "qubes_snitch") [] all_rules)
      static
      (load_nft weak_nft https_services digest ip_address settings
        (codes "qubes_snitch")
        []
        all_rules
        host_before)
load_nft-Ends_example =
    load_nft-Ends weak_nft settings (codes "qubes_snitch") weak_nft-IsNft https_services digest
      ip_address [] all_rules host_before

-- The line that the tests of the repository expect.
rendered_line :
    line_text (
      reject_line settings
        (reject_prefix (codes "app-signal"))
        (Parts.nfproto_ipv4 ∷ Parts.dport udp (codes "1000-2000") ∷ []))
    ≡ codes
        "  meta nfproto ipv4 udp dport 1000-2000 limit rate 3/minute burst 5 packets log prefix \"QUBES-SNITCH app-signal reject \" counter reject with icmpx admin-prohibited"
unfolding line_text show ℕ_discrete
rendered_line = refl
