-- ===== src/Nft/Verdicts/Safety.antt =====
-- What the chain of a source can accept, whatever is left of the limits.
use mathlib.Core.Path.{subst}
use mathlib.Core.List.{append_assoc}
use qubes_snitch.Prelude.{
  codes, ◌≡◌, ◌≢◌, refl, sym, ◌∙◌, Text, List, [], ◌∷◌, ◌++◌, Bool, true, false, ◌&&◌, some,
  if◌then◌else◌, All, any, arith, Bool-cases, inl, inr,
}
use qubes_snitch.Prelude.Result.{Result, ok, err, ok-injective}
use qubes_snitch.Request.{Request}
use qubes_snitch.Packets.Ports.{Services}
use qubes_snitch.Config.Resolve.{Answer}
use qubes_snitch.Dns.Rules.{Action, allow, reject}
use qubes_snitch.Policy.{FlowRule, flow_rule_matches}
use qubes_snitch.Nft.Parts.{Part, Line, udp_dns}
use qubes_snitch.Nft.Lines.{Settings, render_rule, queue_line, reject_line}
use qubes_snitch.Nft.Table.{each, source_chain, invalid_line}
use qubes_snitch.Nft.Filter.{Filter, IsFilter, Packet, accepted, rejected, queued}
use qubes_snitch.Nft.Verdicts.Matches.{IsSaved}
use qubes_snitch.Nft.Verdicts.OneRule.{
  is_dns_packet, action_verdict, is_kept, Decided, render_rule-Decided,
}

abbrev pub is_hit : Result Bool → Bool
is_hit (ok b) = b
is_hit (err e) = false

abbrev pub is_allow : Action → Bool
is_allow allow = true
is_allow reject = false

-- A rule that allows and matches.
abbrev pub allows : Services → Request → FlowRule → Bool
allows services request rule =
    is_allow rule.action && is_hit (flow_rule_matches services request rule)

module _ (f : Filter) (v : IsFilter f) (services : Services) (source : Text)
    (settings : Settings) where
  abbrev dns : Line
  dns = queue_line settings (udp_dns ∷ [])

  abbrev ask_line : Line
  ask_line = queue_line settings []

  abbrev last_line : Line
  last_line = reject_line settings (codes "QUBES-SNITCH " ++ (source ++ codes " reject ")) []

  one_rule :
      (rule : FlowRule) (ls : List Line) (parts : List Part)
      (r : Decided f v services source settings rule ls parts) (left : Line → Bool)
      (lines rest : List Line) (p : Packet)
      → is_dns_packet p ≡ false
      → f.run left ((ls ++ lines) ++ rest) p ≡ some accepted
      → allows services p.request rule ≡ false
      → f.run left (lines ++ rest) p ≡ some accepted
  one_rule rule ls parts r left lines rest p n h a =
      let (b, hb) = r.decided p in
      split rule.action b (is_kept f v services source settings left rule.action parts) refl hb
        (r.decides left (lines ++ rest) p b n hb)
    where
      split :
          (c : Action) (b k : Bool)
          → rule.action ≡ c
          → flow_rule_matches services p.request rule ≡ ok b
          → f.run left (ls ++ (lines ++ rest)) p
            ≡ (if b && k then some (action_verdict rule.action) else f.run left (lines ++ rest) p)
          → f.run left (lines ++ rest) p ≡ some accepted
      split allow true k q hb e = absurd (ground arith)
      split allow false k q hb e = ground (arith, append_assoc ls lines rest)
      split reject b k q hb e = ground (arith, append_assoc ls lines rest)

  rules_safe :
      (rules : List FlowRule)
      → All (IsSaved services) rules
      → (lines : List Line) × (each (λ rule. render_rule services source rule settings) rules
          ≡ ok lines)
        × ((left : Line → Bool) (rest : List Line) (p : Packet)
            → is_dns_packet p ≡ false
            → f.run left (lines ++ rest) p ≡ some accepted
            → f.run left rest p ≢ some accepted
            → any (allows services p.request) rules ≡ true)
  unfolding each
  rules_safe [] s = ([], refl, λ left rest p n h k. absurd (k h))
  rules_safe (rule ∷ rules) (s, ss) =
      let (ls, parts, r) = render_rule-Decided f v services source settings rule s in
      let (lines, e, safe) = rules_safe rules ss in
      (
        ls ++ lines,
        rw (r.rendered, e) refl,
        λ left rest p n h k. elim (Bool-cases (allows services p.request rule)) [
          | inl a ↦ rw a refl
          | inr a ↦ rw a (safe left rest p n (one_rule rule ls parts r left lines rest p n h a) k)
        ],
      )

  -- Whatever tokens are left, the chain of a source accepts only packets that are not for port 53
  -- of UDP and that some allow rule of the source matches. The rules are saved ones (validated,
  -- with names resolved), and the filter is as IsFilter says.
  pub source_chain-allows :
      (digest : Text → Text) (ip_address : Text → Answer) (rules : List FlowRule)
      (chain : List Line) (left : Line → Bool) (p : Packet)
      → All (IsSaved services) rules
      → source_chain services digest ip_address settings source rules ≡ ok chain
      → f.run left chain p ≡ some accepted
      → (is_dns_packet p ≡ false) × (any (allows services p.request) rules ≡ true)
  unfolding source_chain
  source_chain-allows digest ip_address rules chain left p s c h =
      let (lines, e, safe) = rules_safe rules s in
      let (n, k) =
        entered lines left p (subst (λ x. f.run left x p ≡ some accepted) (same lines e) h) in
      (n, safe left (ask_line ∷ last_line ∷ []) p n k (asked left p))
    where
      invalid : Line
      invalid = invalid_line settings (codes "QUBES-SNITCH " ++ (source ++ codes " invalid "))

      same :
          (lines : List Line)
          → each (λ rule. render_rule services source rule settings) rules ≡ ok lines
          → chain ≡ invalid ∷ dns ∷ (lines ++ (ask_line ∷ last_line ∷ []))
      same lines e = ok-injective (sym c ∙ rw e refl)

      entered :
          (lines : List Line) (left : Line → Bool) (p : Packet)
          → f.run left (invalid ∷ dns ∷ (lines ++ (ask_line ∷ last_line ∷ []))) p ≡ some accepted
          → (is_dns_packet p ≡ false)
            × (f.run left (lines ++ (ask_line ∷ last_line ∷ [])) p ≡ some accepted)
      entered lines left p k = ground (
        arith,
        v.at_line left invalid (dns ∷ (lines ++ (ask_line ∷ last_line ∷ []))) p rejected refl,
        v.at_line left dns (lines ++ (ask_line ∷ last_line ∷ [])) p (queued settings.queue_num)
            refl,
        v.to_dns p,
      )

      asked :
          (left : Line → Bool) (p : Packet)
          → f.run left (ask_line ∷ last_line ∷ []) p ≢ some accepted
      asked left p k =
          ground
            (arith, v.at_line left ask_line (last_line ∷ []) p (queued settings.queue_num) refl)
