-- ===== src/Nft/Verdicts/Matches.antt =====
-- render_match: the packets of which the parts of a rule hold.
use qubes_snitch.Prelude.{
  ℕ, ℕ_eq, ◌≡◌, refl, ap, Text_eq, List, [], ◌∷◌, ◌++◌, Bool, true, false, ◌&&◌, Option, none, some,
  ◌==◌, all, arith, ==_refl,
}
use qubes_snitch.Prelude.Result.{ok}
use qubes_snitch.Request.{Ip, Proto, Proto_eq, tcp, udp, icmp, other, has_ports}
use qubes_snitch.Packets.Ports.{Services, text, any_port, normalize_port}
use qubes_snitch.Packets.Ports.Normal.{
  Ports, every, one, between, ports_text, InRange, one-ne-any, range-ne-any,
}
use qubes_snitch.Policy.{
  Dest, any_dest, host, network, named, FlowRule, dest_matches, flow_rule_matches,
}
use qubes_snitch.Policy.Matching.{covers, flow_rule_matches-covers}
use qubes_snitch.Nft.Parts
use qubes_snitch.Nft.Parts.{Target, Part, nfproto_ipv4, daddr, dport, udp_dns}
use qubes_snitch.Nft.Lines.{
  port_or_none, nft_port, nft_dest_match_value, daddr_parts, transport_part, render_match,
}
use qubes_snitch.Nft.Filter.{Filter, IsFilter, Packet, part_holds, target_holds}

abbrev pub is_resolved : Dest → Bool
is_resolved (named name none) = false
is_resolved _ = true

-- A rule of a file that was validated, and whose name was resolved if it has one: its port is
-- normalised to the ports `ports`, which are all of them unless it is for TCP or UDP.
pub record IsSaved (services : Services) (rule : FlowRule) : Type 0 where
  pub ports : Ports
  pub in_range : InRange rule.proto ports
  pub normal : normalize_port services (text rule.port) rule.proto ≡ ok (ports_text ports)
  pub portless : has_ports rule.proto ≡ false → ports ≡ every
  pub resolved : is_resolved rule.dest ≡ true

abbrev pub option_holds : Ip → Option Target → Bool
option_holds dst none = true
option_holds dst (some t) = target_holds dst t

-- The destination of a rule is rendered, and it names the addresses that the policy compares.
pub target_of :
    (d : Dest)
    → is_resolved d ≡ true
    → (t : Option Target) × (nft_dest_match_value d ≡ ok t)
      × ((dst : Ip) → dest_matches dst d ≡ ok (option_holds dst t))
unfolding nft_dest_match_value dest_matches
target_of any_dest h = (none, refl, λ dst. refl)
target_of (host a) h = (some (Parts.one a), refl, λ dst. refl)
target_of (network a n) h = (some (Parts.net a n), refl, λ dst. refl)
target_of (named name none) h = absurd (cc)
target_of (named name (some [])) h = (some (Parts.set []), refl, λ dst. refl)
target_of (named name (some (a ∷ []))) h = (some (Parts.one a), refl, λ dst. ground arith)
target_of (named name (some (a ∷ b ∷ ips))) h = (some (Parts.set (a ∷ b ∷ ips)), refl, λ dst. refl)

port_or_none-any : port_or_none any_port ≡ none
unfolding port_or_none
port_or_none-any = rw ==_refl

port_or_none-one : (n : ℕ) → port_or_none (ports_text (one n)) ≡ some (ports_text (one n))
unfolding port_or_none
port_or_none-one n = rw one-ne-any

port_or_none-between :
    (a b : ℕ) → port_or_none (ports_text (between a b)) ≡ some (ports_text (between a b))
unfolding port_or_none
port_or_none-between a b = rw range-ne-any

module _ (f : Filter) (v : IsFilter f) where
  with_ports :
      (k : Proto) (ps : Ports) (left : Bool) (p : Packet)
      → has_ports k ≡ true
      → InRange k ps
      → part_holds f.holds left p (transport_part dport k (port_or_none (ports_text ps)))
        ≡ (k == p.request.proto && covers ps p.request.dport)
  with_ports tcp every left p h r = rw port_or_none-any (ground (arith, v.of_proto tcp p))
  with_ports udp every left p h r = rw port_or_none-any (ground (arith, v.of_proto udp p))
  with_ports tcp (one n) left p h r = rw port_or_none-one (v.to_port tcp (one n) p r)
  with_ports udp (one n) left p h r = rw port_or_none-one (v.to_port udp (one n) p r)
  with_ports tcp (between a b) left p h r =
      rw port_or_none-between (v.to_port tcp (between a b) p r)
  with_ports udp (between a b) left p h r =
      rw port_or_none-between (v.to_port udp (between a b) p r)
  with_ports icmp ps left p h r = absurd (cc)
  with_ports (other n) ps left p h r = absurd (cc)

  transport_holds :
      (k : Proto) (ps : Ports) (left : Bool) (p : Packet)
      → InRange k ps
      → (has_ports k ≡ false → ps ≡ every)
      → part_holds f.holds left p (transport_part dport k (port_or_none (ports_text ps)))
        ≡ (k == p.request.proto && covers ps p.request.dport)
  transport_holds tcp ps left p r w = with_ports tcp ps left p refl r
  transport_holds udp ps left p r w = with_ports udp ps left p refl r
  transport_holds icmp ps left p r w = rw (w refl) (ground (arith, v.of_icmp p))
  transport_holds (other n) ps left p r w = rw (w refl) (ground (arith, v.of_proto (other n) p))

  -- The parts before the last one.
  pub parts_hold :
      (t : Option Target) (last : Part) (left : Bool) (p : Packet)
      → all (part_holds f.holds left p) (nfproto_ipv4 ∷ daddr_parts t ++ last ∷ [])
        ≡ (option_holds p.request.dst t && part_holds f.holds left p last)
  parts_hold none last left p = ground (arith, v.ipv4 p)
  parts_hold (some t) last left p = ground (arith, v.ipv4 p, v.to_target t p)

  module _ (services : Services) (rule : FlowRule) where
    -- What a rule is rendered to, and of which packets it holds.
    pub record Rendered (parts : List Part) (target : Option Target) : Type 0 where
      pub rendered : render_match services rule ≡ ok parts
      pub destination : nft_dest_match_value rule.dest ≡ ok target
      pub matched :
          (left : Bool) (p : Packet)
          → flow_rule_matches services p.request rule ≡ ok (all (part_holds f.holds left p) parts)

    module _ (s : IsSaved services rule) where
      flow_parts :
          (t : Option Target) (left : Bool) (p : Packet)
          → dest_matches p.request.dst rule.dest ≡ ok (option_holds p.request.dst t)
          → flow_rule_matches services p.request rule
            ≡ ok (
                all (part_holds f.holds left p) (
                  nfproto_ipv4 ∷ daddr_parts t
                  ++ transport_part dport rule.proto (port_or_none (ports_text s.ports)) ∷ []))
      flow_parts t left p d =
          rw
            (
              parts_hold t (transport_part dport rule.proto (port_or_none (ports_text s.ports)))
                  left p,
              transport_holds rule.proto s.ports left p s.in_range s.portless,
              flow_rule_matches-covers services p.request rule s.ports
                  (option_holds p.request.dst t) s.in_range s.normal d,
            )
            (ap ok (
              swap (rule.proto == p.request.proto) (option_holds p.request.dst t)
                (covers s.ports p.request.dport)))
        where
          swap : (a b c : Bool) → (a && b && c) ≡ (b && (a && c))
          swap a b c = ground arith

      -- A saved rule is rendered, and its parts hold of exactly the packets that the policy says it
      -- matches.
      pub render_match-Rendered :
          (parts : List Part) × (target : Option Target) × Rendered parts target
      unfolding render_match nft_port
      render_match-Rendered =
          let (t, e, d) = target_of rule.dest s.resolved in
          (
            nfproto_ipv4 ∷ daddr_parts t
                ++ transport_part dport rule.proto (port_or_none (ports_text s.ports)) ∷ [],
            t,
            record {
              rendered = rw (e, s.normal) refl;
              destination = e;
              matched = λ left p. flow_parts t left p (d p.request.dst);
            },
          )
