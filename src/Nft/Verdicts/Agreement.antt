-- ===== src/Nft/Verdicts/Agreement.antt =====
-- The chain of a source beside the policy of the source.
use qubes_snitch.Prelude.{
  ◌≡◌, refl, sym, ◌∙◌, Text, Text_eq, List, [], ◌∷◌, ◌++◌, Bool, true, false, Option, some, All,
  arith,
}
use qubes_snitch.Prelude.Dict.{get}
use qubes_snitch.Prelude.Result.{ok}
use qubes_snitch.Request.{net}
use qubes_snitch.Packets.Ports.{Services}
use qubes_snitch.Config.Resolve.{Answer}
use qubes_snitch.Dns.Rules.{Action, allow, reject}
use qubes_snitch.Policy.{
  FlowRule, SourceRules, Rules, first_match, flow_rule_matches, matching_action,
}
use qubes_snitch.Policy.Matching.{matching_action-net}
use qubes_snitch.Nft.Parts.{Line}
use qubes_snitch.Nft.Lines.{Settings}
use qubes_snitch.Nft.Table.{source_chain}
use qubes_snitch.Nft.Filter.{Filter, IsFilter, Packet, accepted}
use qubes_snitch.Nft.Verdicts.Matches.{IsSaved}
use qubes_snitch.Nft.Verdicts.OneRule.{is_dns_packet, render_rule-Decided}
use qubes_snitch.Nft.Verdicts.Chain.{kept, decision_verdict, chain_run}

kept-true : (rules : List FlowRule) → kept true rules ≡ rules
kept-true [] = refl
kept-true (r ∷ rs) = ground (arith, kept-true rs)

module _ (f : Filter) (v : IsFilter f) (services : Services) (digest : Text → Text)
    (ip_address : Text → Answer) (settings : Settings) where
  -- The chain of a source is rendered, and while its reject lines have tokens it does with a
  -- packet what the policy says: it accepts, it rejects, or it asks the daemon where no rule
  -- decides. The rules are saved ones (validated, with names resolved), the packet is neither
  -- invalid nor for port 53 of UDP, its request is no DNS question, and the filter is as
  -- IsFilter says.
  pub source_chain-matching_action :
      (p : Packet) (rules : Rules) (r : SourceRules) (d : Option Action)
      → get p.request.source rules ≡ some r
      → All (IsSaved services) r.ip
      → p.request.kind ≡ net
      → p.invalid ≡ false
      → is_dns_packet p ≡ false
      → matching_action services p.request rules ≡ ok d
      → (chain : List Line) × (source_chain services digest ip_address settings p.request.source
            r.ip
          ≡ ok chain)
        × (f.run (λ l. true) chain p ≡ some (decision_verdict settings d))
  source_chain-matching_action p rules r d e s k i n h =
      let (chain, c, run) =
        chain_run f v services p.request.source settings digest ip_address r.ip s true in
      (
        chain,
        c,
        run p d i n
            (rw (kept-true r.ip) (sym (matching_action-net services p.request rules r e k) ∙ h)),
      )

  -- Among the rules that allow, one that matches decides.
  allowed :
      (p : Packet) (earlier : List FlowRule) (rule : FlowRule) (later : List FlowRule)
      → All (IsSaved services) (earlier ++ rule ∷ later)
      → rule.action ≡ allow
      → flow_rule_matches services p.request rule ≡ ok true
      → first_match
          (flow_rule_matches services p.request)
          (λ r. r.action)
          (kept false (earlier ++ rule ∷ later))
        ≡ ok (some allow)
  unfolding first_match
  allowed p [] rule later (s, ss) a h = ground (arith)
  allowed p (x ∷ xs) rule later (s, ss) a h =
      let (ls, parts, r) = render_rule-Decided f v services [] settings x s in
      let (b, hb) = r.decided p in one_more x.action b refl hb (allowed p xs rule later ss a h)
    where
      one_more :
          (c : Action) (b : Bool)
          → x.action ≡ c
          → flow_rule_matches services p.request x ≡ ok b
          → first_match
              (flow_rule_matches services p.request)
              (λ r. r.action)
              (kept false (xs ++ rule ∷ later))
            ≡ ok (some allow)
          → first_match
              (flow_rule_matches services p.request)
              (λ r. r.action)
              (kept false (x ∷ (xs ++ rule ∷ later)))
            ≡ ok (some allow)
      one_more allow true q hb ih = ground (arith)
      one_more allow false q hb ih = ground (arith)
      one_more reject b q hb ih = ground (arith)

  -- While the tokens of the reject lines are used up, the chain of a source accepts every packet
  -- that any allow rule of the source matches, also where a reject rule before it matches and the
  -- policy rejects the packet. The packet and the rules are as for the agreement with the policy.
  pub source_chain-over_limit :
      (source : Text) (p : Packet) (earlier : List FlowRule) (rule : FlowRule)
      (later : List FlowRule)
      → All (IsSaved services) (earlier ++ rule ∷ later)
      → rule.action ≡ allow
      → flow_rule_matches services p.request rule ≡ ok true
      → p.invalid ≡ false
      → is_dns_packet p ≡ false
      → (chain : List Line) × (source_chain services digest ip_address settings source
            (earlier ++ rule ∷ later)
          ≡ ok chain)
        × (f.run (λ l. false) chain p ≡ some accepted)
  source_chain-over_limit source p earlier rule later s a h i n =
      let (chain, c, run) =
        chain_run f v services source settings digest ip_address (earlier ++ rule ∷ later) s
          false in
      (chain, c, run p (some allow) i n (allowed p earlier rule later s a h))
