-- ===== src/Nft/Filter.antt =====
-- What the proofs use of nftables: when its expressions hold of a packet, and how it goes through
-- the lines of a chain. The filter is a parameter of the theorems about the table.
use qubes_snitch.Prelude.{
  ℕ, ℕ_eq, ◌≡◌, List, [], ◌∷◌, Bool, true, ◌&&◌, Option, none, some, ◌==◌, if◌then◌else◌, all, any,
}
use qubes_snitch.Request.{Ip, Request, Proto, Proto_eq, udp, icmp}
use qubes_snitch.Packets.Ports.Normal.{Ports, ports_text, InRange}
use qubes_snitch.Policy.{in_network}
use qubes_snitch.Policy.Matching.{covers}
use qubes_snitch.Nft.Parts.{
  Target, one, net, set, Part, nfproto_ipv4, daddr, dport, l4proto, protocol_icmp, ct_invalid,
  udp_dns, limit, Statement, accept, queue, log_reject, jump, Line,
}

-- An IPv4 packet, with its request, and whether connection tracking calls it invalid.
pub record Packet : Type 0 where
  pub request : Request
  pub invalid : Bool

pub data ChainVerdict : Type 0 where
  accepted : ChainVerdict
  queued : ℕ → ChainVerdict
  rejected : ChainVerdict

-- When an expression other than a limit holds of a packet, and the verdict of the lines of a chain,
-- or none at its end; the first argument says which of the lines with a limit have tokens left.
pub record Filter : Type 0 where
  pub holds : Part → Packet → Bool
  pub run : (Line → Bool) → List Line → Packet → Option ChainVerdict

-- A limit is an expression like others: it holds while there are tokens, and where it does not
-- hold the line does not match.
abbrev pub part_holds : (Part → Packet → Bool) → Bool → Packet → Part → Bool
part_holds holds left p (limit rate burst) = left
part_holds holds left p e = holds e p

abbrev pub target_holds : Ip → Target → Bool
target_holds dst (one a) = dst == a
target_holds dst (net a n) = in_network dst a n
target_holds dst (set ips) = any (λ a. a == dst) ips

-- The statements that end a chain, with their verdicts.
abbrev pub verdict_of : Statement → Option ChainVerdict
verdict_of accept = some accepted
verdict_of (queue n) = some (queued n)
verdict_of (log_reject prefix) = some rejected
verdict_of (jump chain) = none

pub record IsFilter (f : Filter) : Type 0 where
  pub ipv4 : (p : Packet) → f.holds nfproto_ipv4 p ≡ true
  pub to_target : (t : Target) (p : Packet) → f.holds (daddr t) p ≡ target_holds p.request.dst t
  pub to_port :
      (k : Proto) (ps : Ports) (p : Packet)
      → InRange k ps
      → f.holds (dport k (ports_text ps)) p ≡ (k == p.request.proto && covers ps p.request.dport)
  pub of_proto : (k : Proto) (p : Packet) → f.holds (l4proto k) p ≡ (k == p.request.proto)
  pub of_icmp : (p : Packet) → f.holds protocol_icmp p ≡ (icmp == p.request.proto)
  pub is_invalid : (p : Packet) → f.holds ct_invalid p ≡ p.invalid
  pub to_dns :
      (p : Packet)
      → f.holds udp_dns p ≡ (p.request.proto == udp && covers (Ports.one 53) p.request.dport)
  pub at_end : (left : Line → Bool) (p : Packet) → f.run left [] p ≡ none
  pub at_line :
      (left : Line → Bool) (l : Line) (rest : List Line) (p : Packet) (v : ChainVerdict)
      → verdict_of l.statement ≡ some v
      → f.run left (l ∷ rest) p
        ≡ (if all (part_holds f.holds (left l) p) l.parts then some v else f.run left rest p)
