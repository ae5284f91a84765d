-- ===== src/Nft/Lines.antt =====
-- The rules of one source in qubes_snitch/nft.py, as lines made of parts.
use qubes_snitch.Nft.Parts.{
  Target, one, net, set, Part, nfproto_ipv4, saddr, daddr, client_daddr, sport, dport, l4proto,
  protocol_icmp, ct_reply, udp_dns, limit, accept, queue, log_reject, Line,
}
use qubes_snitch.Prelude.{
  ℕ, Text, Text_eq, codes, List, [], ◌∷◌, ◌++◌, Bool, true, false, ◌&&◌, ◌||◌, not, Option, none,
  some, leb, ◌==◌, if◌then◌else◌, map,
}
use qubes_snitch.Prelude.Strings.{has_char, before, after}
use qubes_snitch.Prelude.Decimal.{read}
use qubes_snitch.Prelude.Result.{Result, ok, err, key_error, ◌>>=◌}
use qubes_snitch.Request.{Proto, Proto_eq, tcp, udp, icmp, other}
use qubes_snitch.Packets.Ports.{Services, text, any_port, normalize_port}
use qubes_snitch.Dns.Rules.{Action, allow, reject}
use qubes_snitch.Policy.{Dest, any_dest, host, network, named, FlowRule}

-- config["limit_rate"] and config["burst"], and the number of the queue.
pub record Settings : Type 0 where
  pub limit_rate : Text
  pub burst : ℕ
  pub queue_num : ℕ

abbrev pub nft_log_limit : Settings → Part
nft_log_limit settings = limit settings.limit_rate settings.burst

-- nft_value and nft_dest_match_value: none for any destination.
unfoldable pub nft_dest_match_value : Dest → Result (Option Target)
nft_dest_match_value any_dest = ok none
nft_dest_match_value (host a) = ok (some (one a))
nft_dest_match_value (network a n) = ok (some (net a n))
nft_dest_match_value (named name none) = err key_error
nft_dest_match_value (named name (some (a ∷ []))) = ok (some (one a))
nft_dest_match_value (named name (some [])) = ok (some (set []))
nft_dest_match_value (named name (some (a ∷ b ∷ ips))) = ok (some (set (a ∷ b ∷ ips)))

-- The sources of replies: a name has one line for each of its addresses.
unfoldable pub nft_reply_sources : Dest → Result (List (Option Target))
nft_reply_sources any_dest = ok (none ∷ [])
nft_reply_sources (host a) = ok (some (one a) ∷ [])
nft_reply_sources (network a n) = ok (some (net a n) ∷ [])
nft_reply_sources (named name none) = err key_error
nft_reply_sources (named name (some ips)) = ok (map (λ a. some (one a)) ips)

unfoldable pub port_or_none : Text → Option Text
port_or_none port = if port == any_port then none else some port

abbrev pub daddr_parts : Option Target → List Part
daddr_parts none = []
daddr_parts (some t) = daddr t ∷ []

abbrev pub saddr_parts : Option Target → List Part
saddr_parts none = []
saddr_parts (some t) = saddr t ∷ []

-- The protocol with the port, if both are there; ports is dport or sport.
abbrev pub transport_part : (Proto → Text → Part) → Proto → Option Text → Part
transport_part ports tcp none = l4proto tcp
transport_part ports tcp (some port) = ports tcp port
transport_part ports udp none = l4proto udp
transport_part ports udp (some port) = ports udp port
transport_part ports icmp port = protocol_icmp
transport_part ports (other n) port = l4proto (other n)

-- Whether the port of a UDP rule covers 53.
unfoldable pub includes_dns : Text → Bool
includes_dns port =
    if port == any_port || port == codes "53"
    then true
    else if not (has_char b'-' port)
    then false
    else leb (read (before b'-' port)) 53 && leb 53 (read (after b'-' port))

unfoldable pub render_dns_queue_match : FlowRule → Result (List Part)
unfolding nft_dest_match_value
render_dns_queue_match rule = do
  dest ← nft_dest_match_value rule.dest
  ok (nfproto_ipv4 ∷ daddr_parts dest ++ udp_dns ∷ [])

-- "QUBES-SNITCH {source} reject "
abbrev pub reject_prefix : Text → Text
reject_prefix source = codes "QUBES-SNITCH " ++ (source ++ codes " reject ")

abbrev pub accept_line : List Part → Line
accept_line parts = record { parts = parts; statement = accept }

abbrev pub queue_line : Settings → List Part → Line
queue_line settings parts = record { parts = parts; statement = queue settings.queue_num }

abbrev pub reject_line : Settings → Text → List Part → Line
reject_line settings prefix parts = record {
  parts = parts ++ nft_log_limit settings ∷ [];
  statement = log_reject prefix;
}

-- The line of one rule for the replies from one of its destinations.
reply_line : Text → FlowRule → Settings → List Part → Action → Line
reply_line source rule settings parts allow = accept_line parts
reply_line source rule settings parts reject = reject_line settings (reject_prefix source) parts

module _ (services : Services) where
  unfoldable pub nft_port : Text → Proto → Result (Option Text)
  unfolding port_or_none
  nft_port value proto = do
    port ← normalize_port services (text value) proto
    ok (port_or_none port)

  unfoldable pub render_match : FlowRule → Result (List Part)
  unfolding nft_dest_match_value nft_port
  render_match rule = do
    dest ← nft_dest_match_value rule.dest
    port ← nft_port rule.port rule.proto
    ok (nfproto_ipv4 ∷ daddr_parts dest ++ transport_part dport rule.proto port ∷ [])

  unfoldable pub udp_rule_includes_dns : FlowRule → Result Bool
  unfolding includes_dns
  udp_rule_includes_dns rule =
      if not (rule.proto == udp)
      then ok false
      else (do port ← normalize_port services (text rule.port) udp; ok (includes_dns port))

  -- The lines of an allow rule that covers DNS: the accept line is left out for port 53 alone.
  unfoldable pub queued_allow : Settings → FlowRule → List Part → Result (List Line)
  unfolding render_dns_queue_match
  queued_allow settings rule parts = do
    queued ← render_dns_queue_match rule
    port ← normalize_port services (text rule.port) udp
    ok (queue_line settings queued ∷ (if port == codes "53" then [] else accept_line parts ∷ []))

  unfoldable pub render_action :
      Text → FlowRule → Settings → List Part → Action → Result (List Line)
  unfolding udp_rule_includes_dns queued_allow
  render_action source rule settings parts allow = do
    broad ← udp_rule_includes_dns rule
    if broad then queued_allow settings rule parts else ok (accept_line parts ∷ [])
  render_action source rule settings parts reject =
      ok (reject_line settings (reject_prefix source) parts ∷ [])

  unfoldable pub render_rule : Text → FlowRule → Settings → Result (List Line)
  unfolding render_match render_action
  render_rule source rule settings = do
    parts ← render_match rule
    render_action source rule settings parts rule.action

  unfoldable pub render_established_reply_rule :
      Text → Text → FlowRule → Settings → Option Target → Result Line
  unfolding nft_port reply_line
  render_established_reply_rule source source_ip rule settings reply_source = do
    port ← nft_port rule.port rule.proto
    let parts =
        nfproto_ipv4 ∷ saddr_parts reply_source
        ++ client_daddr source_ip ∷ transport_part sport rule.proto port ∷ ct_reply ∷ []
    ok (reply_line source rule settings parts rule.action)
