-- ===== src/Nft/Parts.antt =====
-- The words of the lines of qubes_snitch/nft.py.
use qubes_snitch.Prelude.{ℕ, ℕ_eq, Text, codes, List, [], ◌∷◌, ◌++◌, ◌==◌, if◌then◌else◌, map}
use qubes_snitch.Prelude.Decimal.{show}
use qubes_snitch.Request.{Ip, ip_text, Proto, proto_text}

-- sep.join(parts)
unfoldable pub join : Text → List Text → Text
join sep [] = []
join sep (p ∷ []) = p
join sep (p ∷ q ∷ parts) = p ++ (sep ++ join sep (q ∷ parts))

abbrev pub space : Text
space = b' ' ∷ []

unfoldable pub escape : Text → Text
escape [] = []
escape (c ∷ s) =
    let rest = escape s in
    if c == b'\\' then b'\\' ∷ b'\\' ∷ rest else if c == b'"' then b'\\' ∷ b'"' ∷ rest else c ∷ rest

-- text.replace('\\', '\\\\').replace('"', '\\"') between quotes, in one pass.
unfoldable pub nft_quote : Text → Text
unfolding escape
nft_quote t = b'"' ∷ (escape t ++ b'"' ∷ [])

-- The addresses that a match names: one, a network, or a set.
pub data Target : Type 0 where
  one : Ip → Target
  net : Ip → ℕ → Target
  set : List Ip → Target

unfoldable pub addresses_text : Target → Text
unfolding join
addresses_text (one a) = ip_text a
addresses_text (net a n) = ip_text a ++ b'/' ∷ show n
addresses_text (set ips) = codes "{ " ++ (join (codes ", ") (map ip_text ips) ++ codes " }")

-- The expressions of the lines, with their words.
pub data Part : Type 0 where
  nfproto_ipv4 : Part
  saddr daddr : Target → Part
  client_saddr client_daddr : Text → Part
  sport dport : Proto → Text → Part
  l4proto : Proto → Part
  protocol_icmp : Part
  ct_invalid ct_reply : Part
  udp_dns : Part
  local_vif : Part
  limit : Text → ℕ → Part

unfoldable pub part_text : Part → Text
unfolding addresses_text join
part_text nfproto_ipv4 = codes "meta nfproto ipv4"
part_text (saddr t) = codes "ip saddr " ++ addresses_text t
part_text (daddr t) = codes "ip daddr " ++ addresses_text t
part_text (client_saddr ip) = codes "ip saddr " ++ ip
part_text (client_daddr ip) = codes "ip daddr " ++ ip
part_text (sport k port) = proto_text k ++ (codes " sport " ++ port)
part_text (dport k port) = proto_text k ++ (codes " dport " ++ port)
part_text (l4proto k) = codes "meta l4proto " ++ proto_text k
part_text protocol_icmp = codes "ip protocol icmp"
part_text ct_invalid = codes "ct state invalid"
part_text ct_reply = codes "ct state established,related ct direction reply"
part_text udp_dns = codes "udp dport 53"
part_text local_vif = codes "iifname \"vif*\" fib daddr type local"
part_text (limit rate burst) =
    codes "limit rate " ++ (rate ++ (codes " burst " ++ (show burst ++ codes " packets")))

-- What a line does with the packets that it matches; the prefix of the log is not yet quoted.
pub data Statement : Type 0 where
  accept : Statement
  queue : ℕ → Statement
  log_reject : Text → Statement
  jump : Text → Statement

unfoldable pub statement_text : Statement → Text
unfolding nft_quote
statement_text accept = codes "accept"
statement_text (queue n) = codes "queue num " ++ show n
statement_text (log_reject prefix) =
    codes "log prefix " ++ (nft_quote prefix ++ codes " counter reject with icmpx admin-prohibited")
statement_text (jump chain) = codes "jump " ++ chain

pub record Line : Type 0 where
  pub parts : List Part
  pub statement : Statement

unfoldable pub line_text : Line → Text
unfolding part_text statement_text
line_text l = codes "  " ++ join space (map part_text l.parts ++ statement_text l.statement ∷ [])
