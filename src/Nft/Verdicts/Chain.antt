-- ===== src/Nft/Verdicts/Chain.antt =====
-- source_chain: the chain of a source decides as its policy does.
use qubes_snitch.Prelude.{
  codes, ◌≡◌, refl, Text, Text_eq, List, [], ◌∷◌, ◌++◌, Bool, true, false, Option, none, some,
  if◌then◌else◌, All, arith,
}
use mathlib.Core.List.{append_assoc}
use qubes_snitch.Prelude.Result.{ok}
use qubes_snitch.Packets.Ports.{Services}
use qubes_snitch.Config.Resolve.{Answer}
use qubes_snitch.Dns.Rules.{Action, allow, reject}
use qubes_snitch.Policy.{FlowRule, first_match, flow_rule_matches}
use qubes_snitch.Nft.Parts.{Part, Line, udp_dns}
use qubes_snitch.Nft.Lines.{Settings, render_rule, queue_line, reject_line}
use qubes_snitch.Nft.Table.{each, source_chain, invalid_line}
use qubes_snitch.Nft.Filter.{Filter, IsFilter, Packet, ChainVerdict, rejected, queued}
use qubes_snitch.Nft.Verdicts.Matches.{IsSaved}
use qubes_snitch.Nft.Verdicts.OneRule.{
  is_dns_packet, action_verdict, is_kept, Decided, render_rule-Decided,
}

abbrev pub keeps : Bool → Action → Bool
keeps tokens allow = true
keeps tokens reject = tokens

-- The rules whose lines match while the limits of the reject lines have tokens, or have none.
abbrev pub kept : Bool → List FlowRule → List FlowRule
kept tokens [] = []
kept tokens (r ∷ rs) = if keeps tokens r.action then r ∷ kept tokens rs else kept tokens rs

abbrev pub decision_verdict : Settings → Option Action → ChainVerdict
decision_verdict settings none = queued settings.queue_num
decision_verdict settings (some a) = action_verdict a

module _ (f : Filter) (v : IsFilter f) (services : Services) (source : Text)
    (settings : Settings) where
  abbrev decide_or : Option ChainVerdict → Option Action → Option ChainVerdict
  decide_or rest none = rest
  decide_or rest (some a) = some (action_verdict a)

  keeps-is_kept :
      (tokens : Bool) (a : Action) (parts : List Part)
      → is_kept f v services source settings (λ l. tokens) a parts ≡ keeps tokens a
  keeps-is_kept tokens allow parts = refl
  keeps-is_kept tokens reject parts = refl

  one_more :
      (tokens : Bool) (rule : FlowRule) (rules : List FlowRule) (ls : List Line) (parts : List Part)
      (r : Decided f v services source settings rule ls parts) (lines rest : List Line) (p : Packet)
      (d : Option Action)
      → is_dns_packet p ≡ false
      → first_match
          (flow_rule_matches services p.request)
          (λ x. x.action)
          (kept tokens (rule ∷ rules))
        ≡ ok d
      → (first_match (flow_rule_matches services p.request) (λ x. x.action) (kept tokens rules)
            ≡ ok d
          → f.run (λ l. tokens) (lines ++ rest) p ≡ decide_or (f.run (λ l. tokens) rest p) d)
      → f.run (λ l. tokens) ((ls ++ lines) ++ rest) p ≡ decide_or (f.run (λ l. tokens) rest p) d
  unfolding first_match
  one_more tokens rule rules ls parts r lines rest p d n h ih =
      let (b, hb) = r.decided p in
      ground (
        arith,
        append_assoc ls lines rest,
        r.decides (λ l. tokens) (lines ++ rest) p b n hb,
        keeps-is_kept tokens rule.action parts,
        hb,
        ih,
      )

  rules_run :
      (tokens : Bool) (rules : List FlowRule)
      → All (IsSaved services) rules
      → (lines : List Line) × (each (λ rule. render_rule services source rule settings) rules
          ≡ ok lines)
        × ((rest : List Line) (p : Packet) (d : Option Action)
            → is_dns_packet p ≡ false
            → first_match (flow_rule_matches services p.request) (λ r. r.action) (kept tokens rules)
              ≡ ok d
            → f.run (λ l. tokens) (lines ++ rest) p ≡ decide_or (f.run (λ l. tokens) rest p) d)
  unfolding each first_match
  rules_run tokens [] s = ([], refl, λ rest p d n h. ground (arith))
  rules_run tokens (rule ∷ rules) (s, ss) =
      let (ls, parts, r) = render_rule-Decided f v services source settings rule s in
      let (lines, e, run) = rules_run tokens rules ss in
      (
        ls ++ lines,
        rw (r.rendered, e) refl,
        λ rest p d n h. one_more tokens rule rules ls parts r lines rest p d n h (run rest p d n),
      )

  module _ (digest : Text → Text) (ip_address : Text → Answer) (rules : List FlowRule)
      (s : All (IsSaved services) rules) where
    pub chain_run :
        (tokens : Bool)
        → (chain : List Line) × (source_chain services digest ip_address settings source rules
            ≡ ok chain)
          × ((p : Packet) (d : Option Action)
              → p.invalid ≡ false
              → is_dns_packet p ≡ false
              → first_match
                  (flow_rule_matches services p.request)
                  (λ r. r.action)
                  (kept tokens rules)
                ≡ ok d
              → f.run (λ l. tokens) chain p ≡ some (decision_verdict settings d))
    unfolding source_chain
    chain_run tokens =
        let (lines, e, run) = rules_run tokens rules s in
        (
          invalid ∷ dns ∷ (lines ++ (ask_line ∷ last_line ∷ [])),
          rw e refl,
          λ p d i n h. passed lines p d i n (run (ask_line ∷ last_line ∷ []) p d n h),
        )
      where
        invalid : Line
        invalid = invalid_line settings (codes "QUBES-SNITCH " ++ (source ++ codes " invalid "))

        dns : Line
        dns = queue_line settings (udp_dns ∷ [])

        ask_line : Line
        ask_line = queue_line settings []

        last_line : Line
        last_line = reject_line settings (codes "QUBES-SNITCH " ++ (source ++ codes " reject ")) []

        passed :
            (lines : List Line) (p : Packet) (d : Option Action)
            → p.invalid ≡ false
            → is_dns_packet p ≡ false
            → f.run (λ l. tokens) (lines ++ (ask_line ∷ last_line ∷ [])) p
              ≡ decide_or (f.run (λ l. tokens) (ask_line ∷ last_line ∷ []) p) d
            → f.run (λ l. tokens) (invalid ∷ dns ∷ (lines ++ (ask_line ∷ last_line ∷ []))) p
              ≡ some (decision_verdict settings d)
        passed lines p none i n h = ground (
          arith,
          v.at_line (λ l. tokens) invalid (dns ∷ (lines ++ (ask_line ∷ last_line ∷ []))) p rejected
              refl,
          v.is_invalid p,
          v.at_line (λ l. tokens) dns (lines ++ (ask_line ∷ last_line ∷ [])) p
              (queued settings.queue_num) refl,
          v.to_dns p,
          v.at_line (λ l. tokens) ask_line (last_line ∷ []) p (queued settings.queue_num) refl,
        )
        passed lines p (some a) i n h = ground (
          arith,
          v.at_line (λ l. tokens) invalid (dns ∷ (lines ++ (ask_line ∷ last_line ∷ []))) p rejected
              refl,
          v.is_invalid p,
          v.at_line (λ l. tokens) dns (lines ++ (ask_line ∷ last_line ∷ [])) p
              (queued settings.queue_num) refl,
          v.to_dns p,
        )
