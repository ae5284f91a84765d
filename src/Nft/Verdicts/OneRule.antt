-- ===== src/Nft/Verdicts/OneRule.antt =====
-- render_rule: what the lines of one rule do with a packet that is not for DNS.
use qubes_snitch.Prelude.{
  ℕ, ℕ_eq, ◌≡◌, ◌≢◌, refl, ap, sym, ◌∙◌, Text, Text_eq, codes, List, [], ◌∷◌, ◌++◌, Bool, true,
  false, ◌&&◌, Option, some, ◌==◌, if◌then◌else◌, all, arith, ==_refl, ==_ne, ==_iff, Bool-cases,
  inl, inr, ℕ_discrete, Text-discrete,
}
use mathlib.Core.Path.{subst}
use qubes_snitch.Prelude.Strings.{has_char}
use qubes_snitch.Prelude.Decimal.{show, read, read-show}
use qubes_snitch.Prelude.Result.{ok, ok-injective}
use qubes_snitch.Request.{Proto_eq, Proto-discrete, udp}
use qubes_snitch.Packets.Ports.{Services, text, any_port, normalize_port}
use qubes_snitch.Packets.Ports.Normal.{Ports, every, one, between, ports_text, range-has_char}
use qubes_snitch.Dns.Rules.{Action, allow, reject}
use qubes_snitch.Policy.{FlowRule, flow_rule_matches}
use qubes_snitch.Policy.Matching.{covers, flow_rule_matches-covers}
use qubes_snitch.Nft.Parts.{Target, Part, Line, udp_dns, nfproto_ipv4}
use qubes_snitch.Nft.Lines.{
  Settings, nft_log_limit, accept_line, queue_line, reject_line, reject_prefix, daddr_parts,
  render_rule, render_action, queued_allow, udp_rule_includes_dns, includes_dns,
  render_dns_queue_match,
}
use qubes_snitch.Nft.Filter.{
  Filter, IsFilter, Packet, ChainVerdict, accepted, rejected, queued, part_holds,
}
use qubes_snitch.Nft.Verdicts.Matches.{
  IsSaved, target_of, Rendered, render_match-Rendered, parts_hold, option_holds,
}

abbrev pub is_dns_packet : Packet → Bool
is_dns_packet p = p.request.proto == udp && covers (one 53) p.request.dport

no_dash : has_char b'-' (codes "53") ≡ false
unfolding has_char ℕ_discrete
no_dash = refl

one-53 : (n : ℕ) → show n ≡ codes "53" → n ≡ 53
unfolding read
one-53 n h = sym (read-show n) ∙ ap read h

not_53 : (any_port == codes "53") ≡ false
unfolding Text-discrete ℕ_discrete
not_53 = refl

-- Port 53 alone, as a text.
covers-53 :
    (ps : Ports) (d : Option ℕ)
    → (ports_text ps == codes "53") ≡ true
    → covers ps d ≡ covers (one 53) d
covers-53 every d h = absurd (clash h)
  where
    clash : (any_port == codes "53") ≡ true → ⊥
    clash e = cc not_53
covers-53 (one n) d h = rw (one-53 n ((==_iff (show n) (codes "53")).0 h)) refl
covers-53 (between a b) d h =
    absurd (clash (ap (has_char b'-') ((==_iff (ports_text (between a b)) (codes "53")).0 h)))
  where
    clash : has_char b'-' (ports_text (between a b)) ≡ has_char b'-' (codes "53") → ⊥
    clash e = cc (range-has_char a b, no_dash)

abbrev pub action_verdict : Action → ChainVerdict
action_verdict allow = accepted
action_verdict reject = rejected

module _ (f : Filter) (v : IsFilter f) (services : Services) (source : Text)
    (settings : Settings) where
  dns_line : Option Target → Line
  dns_line t = queue_line settings (nfproto_ipv4 ∷ daddr_parts t ++ udp_dns ∷ [])

  -- A queue line for DNS is passed by every other packet.
  past_queue :
      (left : Line → Bool) (t : Option Target) (rest : List Line) (p : Packet)
      → is_dns_packet p ≡ false
      → f.run left (dns_line t ∷ rest) p ≡ f.run left rest p
  unfolding dns_line
  past_queue left t rest p n = ground (
    arith,
    v.at_line left (dns_line t) rest p (queued settings.queue_num) refl,
    parts_hold f v t udp_dns (left (dns_line t)) p,
    v.to_dns p,
  )

  all-snoc :
      (g : Part → Bool) (parts : List Part) (e : Part)
      → all g (parts ++ e ∷ []) ≡ (all g parts && g e)
  all-snoc g [] e = ground arith
  all-snoc g (x ∷ parts) e = ground (arith, all-snoc g parts e)

  -- A reject line whose tokens are used up is left out.
  abbrev pub is_kept : (Line → Bool) → Action → List Part → Bool
  is_kept left allow parts = true
  is_kept left reject parts = left (reject_line settings (reject_prefix source) parts)

  module _ (rule : FlowRule) where
    -- The lines of a rule do with a packet what its action says if the rule matches and is kept,
    -- and let every other packet that is not for DNS pass.
    abbrev pub Decide : Action → List Part → List Line → Type 0
    Decide action parts lines =
        (left : Line → Bool) (rest : List Line) (p : Packet) (b : Bool)
        → is_dns_packet p ≡ false
        → flow_rule_matches services p.request rule ≡ ok b
        → f.run left (lines ++ rest) p ≡ (
            if b && is_kept left action parts
            then some (action_verdict action)
            else f.run left rest p)

    module _ (parts : List Part) (t : Option Target) (r : Rendered f v services rule parts t) where
      same :
          (left : Bool) (p : Packet) (b : Bool)
          → flow_rule_matches services p.request rule ≡ ok b
          → all (part_holds f.holds left p) parts ≡ b
      same left p b h = ok-injective (sym (r.matched left p) ∙ h)

      accept-Decide : Decide allow parts (accept_line parts ∷ [])
      accept-Decide left rest p b n h = ground (
        arith,
        v.at_line left (accept_line parts) rest p accepted refl,
        same (left (accept_line parts)) p b h,
      )

      queued-Decide : Decide allow parts (dns_line t ∷ accept_line parts ∷ [])
      queued-Decide left rest p b n h =
          past_queue left t (accept_line parts ∷ rest) p n ∙ accept-Decide left rest p b n h

      reject-Decide : Decide reject parts (reject_line settings (reject_prefix source) parts ∷ [])
      reject-Decide left rest p b n h = ground (
        arith,
        v.at_line left (reject_line settings (reject_prefix source) parts) rest p rejected refl,
        all-snoc (part_holds f.holds (left (reject_line settings (reject_prefix source) parts)) p)
            parts (nft_log_limit settings),
        same (left (reject_line settings (reject_prefix source) parts)) p b h,
      )

    -- A saved rule is rendered to lines that decide as the rule does.
    pub record Decided (lines : List Line) (parts : List Part) : Type 0 where
      pub rendered : render_rule services source rule settings ≡ ok lines
      pub decides : Decide rule.action parts lines
      pub decided : (p : Packet) → (b : Bool) × (flow_rule_matches services p.request rule ≡ ok b)

    module _ (s : IsSaved services rule) (parts : List Part) (t : Option Target)
        (r : Rendered f v services rule parts t) where
      -- A rule for port 53 of UDP alone matches no packet that is not for DNS.
      only_dns :
          (p : Packet) (b : Bool)
          → rule.proto ≡ udp
          → (ports_text s.ports == codes "53") ≡ true
          → is_dns_packet p ≡ false
          → flow_rule_matches services p.request rule ≡ ok b
          → b ≡ false
      only_dns p b k e n h =
          let (t', _, d) = target_of rule.dest s.resolved in
          let c =
            flow_rule_matches-covers services p.request rule s.ports (option_holds p.request.dst t')
              s.in_range s.normal (d p.request.dst) in
          none_of (option_holds p.request.dst t')
            (rw (k, covers-53 s.ports p.request.dport e) at (sym h ∙ c))
        where
          none_of :
              (o : Bool)
              → ok b ≡ ok (udp == p.request.proto && o && covers (one 53) p.request.dport)
              → b ≡ false
          none_of o q = ground (arith, ok-injective q)

      dns-Decide :
          rule.proto ≡ udp
          → (ports_text s.ports == codes "53") ≡ true
          → Decide allow parts (dns_line t ∷ [])
      dns-Decide k e left rest p b n h = rw (only_dns p b k e n h) (past_queue left t rest p n)

      normal_udp :
          rule.proto ≡ udp → normalize_port services (text rule.port) udp ≡ ok (ports_text s.ports)
      normal_udp k =
          subst (λ x. normalize_port services (text rule.port) x ≡ ok (ports_text s.ports)) k
            s.normal

      includes :
          rule.proto ≡ udp
          → udp_rule_includes_dns services rule ≡ ok (includes_dns (ports_text s.ports))
      unfolding udp_rule_includes_dns
      includes k = rw (k, ==_refl, normal_udp k) refl

      queued_lines :
          rule.proto ≡ udp
          → queued_allow services settings rule parts
            ≡ ok (
                dns_line t
                ∷ (if ports_text s.ports == codes "53" then [] else accept_line parts ∷ []))
      unfolding queued_allow render_dns_queue_match dns_line
      queued_lines k = rw (r.destination, normal_udp k) refl

      narrow : rule.proto ≢ udp → udp_rule_includes_dns services rule ≡ ok false
      unfolding udp_rule_includes_dns
      narrow n = rw (==_ne rule.proto udp n) refl

      -- The lines of a rule with a given action.
      action_lines :
          (a : Action)
          → (lines : List Line) × (render_action services source rule settings parts a ≡ ok lines)
            × Decide a parts lines
      unfolding render_action
      action_lines reject =
          (reject_line settings (reject_prefix source) parts ∷ [], refl, reject-Decide parts t r)
      action_lines allow = elim (Proto-discrete rule.proto udp) [
        | no n ↦ (accept_line parts ∷ [], rw (narrow n) refl, accept-Decide parts t r)
        | yes k ↦ elim (Bool-cases (includes_dns (ports_text s.ports))) [
          | inr e ↦ (accept_line parts ∷ [], rw (includes k, e) refl, accept-Decide parts t r)
          | inl e ↦ elim (Bool-cases (ports_text s.ports == codes "53")) [
            | inl q ↦ (dns_line t ∷ [], rw (includes k, e, queued_lines k, q) refl, dns-Decide k q)
            | inr q ↦ (
              dns_line t ∷ accept_line parts ∷ [],
              rw (includes k, e, queued_lines k, q) refl,
              queued-Decide parts t r,
            )
          ]
        ]
      ]

    pub render_rule-Decided :
        IsSaved services rule → (lines : List Line) × (parts : List Part) × Decided lines parts
    unfolding render_rule
    render_rule-Decided s =
        let (parts, t, r) = render_match-Rendered f v services rule s in
        let (lines, e, d) = action_lines s parts t r rule.action in
        (
          lines,
          parts,
          record {
            rendered = rw r.rendered e;
            decides = d;
            decided = λ p. (all (part_holds f.holds true p) parts, r.matched true p);
          },
        )
