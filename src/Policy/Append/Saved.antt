-- ===== src/Policy/Append/Saved.antt =====
-- What an appended rule changes: the request that it was made for, and no decision made before.
use qubes_snitch.Prelude.{
  ℕ, ◌≡◌, ◌≢◌, ◌<◌, refl, ap, sym, ◌∙◌, Text, Text_eq, Text-discrete, [], ◌∷◌, true, none, some,
  Option-cases, inl, inr, ◌==◌, ℕ_eq, if◌then◌else◌, arith, ==_refl, ==_ne,
}
use qubes_snitch.Prelude.Dict.{get, get-put}
use qubes_snitch.Prelude.Result.{ok, >>=-eq-ok, ok-injective}
use qubes_snitch.Request.{Request, Proto_eq, Kind, net, dns, dns_error, Question}
use qubes_snitch.Packets.Ports.{Services}
use qubes_snitch.Packets.Ports.Normal.{IsServices, normalize_port-port_text}
use qubes_snitch.Config.DnsRule.{RdataTypes}
use qubes_snitch.Config.Resolve.{Resolver}
use qubes_snitch.Dns.Rules.{Action, DnsRule, dns_rule_matches}
use qubes_snitch.Policy.{
  Dest, FlowRule, SourceRules, Rules, dest_matches, first_match, flow_rule_matches, matching_rules,
  matching_action,
}
use qubes_snitch.Policy.Matching.{port_covers_self}
use qubes_snitch.Policy.FirstMatch.{first_match-append, first_match-append_some}
use qubes_snitch.Policy.Append.{
  RuleFile, no_rules, add_to, change_source, add_dns, add_flow, append_dns_rule, action_of, dests,
  flow_rule, save_flow, append_flow_rule,
}
use qubes_snitch.Queue.{Decision}

pub get-change_source :
    (source s : Text) (f : SourceRules → SourceRules) (rules : Rules)
    → get s (change_source source f rules) ≡ (
        if source == s
        then some (f (elim (get source rules) [ none ↦ no_rules | some r ↦ r ]))
        else get s rules)
unfolding change_source
get-change_source source s f rules = elim (Option-cases (get source rules)) [
  | inl e ↦ rw (e, add_to) (get-put source s (f no_rules) rules)
  | inr (r, e) ↦ rw (e, add_to) (get-put source s (f r) rules)
]

module _ (services : Services) where
  -- A change that only adds rules at the end keeps every decision about one source.
  matching_rules-add_flow :
      (k : Kind) (r : Request) (rule : FlowRule) (s : SourceRules) (a : Action)
      → matching_rules services k r s ≡ ok (some a)
      → matching_rules services k r (add_flow rule s) ≡ ok (some a)
  unfolding matching_rules
  matching_rules-add_flow (dns q) r rule s a h = h
  matching_rules-add_flow net r rule s a h =
      first_match-append_some (flow_rule_matches services r) (λ x. x.action) s.ip (rule ∷ []) a h
  matching_rules-add_flow (dns_error e q) r rule s a h =
      first_match-append_some (flow_rule_matches services r) (λ x. x.action) s.ip (rule ∷ []) a h

  matching_rules-add_dns :
      (k : Kind) (r : Request) (rule : DnsRule) (s : SourceRules) (a : Action)
      → matching_rules services k r s ≡ ok (some a)
      → matching_rules services k r (add_dns rule s) ≡ ok (some a)
  unfolding matching_rules
  matching_rules-add_dns (dns q) r rule s a h =
      first_match-append_some (λ x. ok (dns_rule_matches q x)) (λ x. x.action) s.dns (rule ∷ []) a h
  matching_rules-add_dns net r rule s a h = h
  matching_rules-add_dns (dns_error e q) r rule s a h = h

  matching_action-change_source :
      (source : Text) (f : SourceRules → SourceRules) (rules : Rules) (r : Request) (a : Action)
      → ((s : SourceRules)
          → matching_rules services r.kind r s ≡ ok (some a)
          → matching_rules services r.kind r (f s) ≡ ok (some a))
      → matching_action services r rules ≡ ok (some a)
      → matching_action services r (change_source source f rules) ≡ ok (some a)
  unfolding matching_action
  matching_action-change_source source f rules r a keep h =
      elim (Option-cases (get r.source rules)) [
        | inl e ↦ absurd (unknown (rw e at h))
        | inr (s, e) ↦
            rw (get-change_source source r.source f rules) (elim (Text-discrete source r.source) [
              | yes p ↦ rw (p, ==_refl, e) (keep s (rw e at h))
              | no p ↦ rw (==_ne source r.source p, e) (rw e at h)
            ])
      ]
    where
      unknown : ok none ≡ ok (some a) → ⊥
      unknown q = cc

  pub append_flow_rule-inv :
      (types : RdataTypes) (resolver : Resolver) (request : Request) (d : Decision)
      (file : RuleFile) (rules : Rules) (saved : RuleFile × Rules)
      → append_flow_rule types resolver request d file rules ≡ ok saved
      → (ds : Dest × Dest) × (dests types resolver request d ≡ ok ds)
        × (save_flow request d file rules ds ≡ saved)
  unfolding append_flow_rule
  append_flow_rule-inv types resolver request d file rules saved h =
      let (ds, e, q) =
        >>=-eq-ok (dests types resolver request d) (λ ds. ok (save_flow request d file rules ds))
          (ground arith) in
      (ds, e, ok-injective q)

  -- Saving an answer to a flow prompt changes no decision that the policy had made for any
  -- request of any source.
  pub append_flow_rule-keeps :
      (types : RdataTypes) (resolver : Resolver) (request : Request) (d : Decision)
      (file : RuleFile) (rules : Rules) (saved : RuleFile × Rules) (r : Request) (a : Action)
      → append_flow_rule types resolver request d file rules ≡ ok saved
      → matching_action services r rules ≡ ok (some a)
      → matching_action services r saved.1 ≡ ok (some a)
  append_flow_rule-keeps types resolver request d file rules saved r a h m =
      let ((disk, memory), e, same) =
        append_flow_rule-inv types resolver request d file rules saved h in
      rw (← same) (
        unfold save_flow in
        matching_action-change_source request.source (add_flow (flow_rule request d memory)) rules r
          a (λ s k. matching_rules-add_flow r.kind r (flow_rule request d memory) s a k) m)

  -- Saving an answer to a DNS prompt changes no decision that the policy had made for any request
  -- of any source.
  pub append_dns_rule-keeps :
      (source : Text) (q : Question) (b : Action) (file : RuleFile) (rules : Rules) (r : Request)
      (a : Action)
      → matching_action services r rules ≡ ok (some a)
      → matching_action services r (append_dns_rule source q b file rules).1 ≡ ok (some a)
  unfolding append_dns_rule
  append_dns_rule-keeps source q b file rules r a m =
      matching_action-change_source source (add_dns rule) rules r a
        (λ s k. matching_rules-add_dns r.kind r rule s a k) m
    where
      rule : DnsRule
      rule = record { qname = q.qname; qtype = q.qtype; action = b }

  -- The requests that a saved answer is for: those to the one address, or to the resolved ones.
  abbrev pub IsCovered : Request → Dest → Type 0
  IsCovered r memory = dest_matches r.dst memory ≡ ok true

  flow_rule-hit :
      (r : Request) (d : Decision) (memory : Dest)
      → IsServices services
      → ((n : ℕ) → r.dport ≡ some n → n < 65536)
      → IsCovered r memory
      → flow_rule_matches services r (flow_rule r d memory) ≡ ok true
  unfolding flow_rule_matches
  flow_rule-hit r d memory s w c =
      rw (==_refl, c, normalize_port-port_text services r.proto r.dport s w)
        (ap ok (port_covers_self r.dport))

  matching_rules-added :
      (k : Kind) (r : Request) (rule : FlowRule) (s : SourceRules)
      → ((q : Question) → k ≢ dns q)
      → flow_rule_matches services r rule ≡ ok true
      → matching_rules services k r s ≡ ok none
      → matching_rules services k r (add_flow rule s) ≡ ok (some rule.action)
  unfolding matching_rules
  matching_rules-added (dns q) r rule s n hit h = absurd (n q refl)
  matching_rules-added net r rule s n hit h =
      first_match-append (flow_rule_matches services r) (λ x. x.action) s.ip rule none h hit
  matching_rules-added (dns_error e q) r rule s n hit h =
      first_match-append (flow_rule_matches services r) (λ x. x.action) s.ip rule none h hit

  matching_rules-no_rules :
      (k : Kind) (r : Request) → matching_rules services k r no_rules ≡ ok none
  unfolding matching_rules first_match
  matching_rules-no_rules (dns q) r = refl
  matching_rules-no_rules net r = refl
  matching_rules-no_rules (dns_error e q) r = refl

  -- The rules of a source in which nothing matched, or none at all.
  undecided :
      (r : Request) (rules : Rules)
      → matching_action services r rules ≡ ok none
      → matching_rules services r.kind r
          (elim (get r.source rules) [ none ↦ no_rules | some s ↦ s ])
        ≡ ok none
  unfolding matching_action
  undecided r rules h = elim (Option-cases (get r.source rules)) [
    | inl e ↦ rw e (matching_rules-no_rules r.kind r)
    | inr (s, e) ↦ rw e (rw e at h)
  ]

  -- An answer to a flow prompt takes effect: if no rule decided the request, then after the
  -- answer was saved the policy decides it by that answer. The services are such as RFC 6335
  -- wants them, the port of the request has 16 bits, and the destination that was saved covers
  -- its address: for an answer by host name, the name was resolved to that address too.
  pub append_flow_rule-decides :
      (types : RdataTypes) (resolver : Resolver) (r : Request) (d : Decision) (file : RuleFile)
      (rules : Rules) (saved : RuleFile × Rules) (ds : Dest × Dest)
      → IsServices services
      → r.kind ≡ net
      → ((n : ℕ) → r.dport ≡ some n → n < 65536)
      → matching_action services r rules ≡ ok none
      → append_flow_rule types resolver r d file rules ≡ ok saved
      → dests types resolver r d ≡ ok ds
      → dest_matches r.dst ds.1 ≡ ok true
      → matching_action services r saved.1 ≡ ok (some (action_of d))
  append_flow_rule-decides types resolver r d file rules saved ds s k w m h e c =
      let (ds', e', same) = append_flow_rule-inv types resolver r d file rules saved h in
      let eq : ds' ≡ ds = ok-injective (sym e' ∙ e) in
      rw (← same, eq)
        (unfold save_flow matching_action in
          rw (get-change_source r.source r.source (add_flow (flow_rule r d ds.1)) rules, ==_refl)
            (matching_rules-added r.kind r (flow_rule r d ds.1) _ (λ q p. flow k p)
              (flow_rule-hit r d ds.1 s w c) (undecided r rules m)))
    where
      flow : {q : Question} → r.kind ≡ net → r.kind ≡ dns q → ⊥
      flow a b = cc
