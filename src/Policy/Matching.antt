-- ===== src/Policy/Matching.antt =====
-- What a flow rule covers, without the texts in which ports are compared.
use qubes_snitch.Prelude.{
  ℕ, ◌≡◌, ◌≢◌, refl, ap, sym, ◌∙◌, Text_eq, Bool, true, false, ◌&&◌, Option, none, some, leb, ◌==◌,
  ℕ_eq, arith, ==_refl, ==_ne, ℕ_discrete,
}
use qubes_snitch.Prelude.Strings.{before-append, after-append}
use qubes_snitch.Prelude.Decimal.{show, read, read-show}
use qubes_snitch.Prelude.Result.{ok}
use qubes_snitch.Request.{Request, Proto_eq, Proto, net}
use qubes_snitch.Packets.Ports.{Services, text, any_port, normalize_port, port_text}
use qubes_snitch.Packets.Ports.Normal.{
  Ports, every, one, between, ports_text, InRange, one-ne-any, range-ne-any, range-has_char,
  show-no-dash,
}
use qubes_snitch.Prelude.Dict.{get}
use qubes_snitch.Policy.{
  FlowRule, SourceRules, Rules, dest_matches, port_covers, flow_rule_matches, first_match,
  matching_rules, matching_source, matching_action,
}

-- The ports of a rule, and the destination port of a request.
abbrev pub covers : Ports → Option ℕ → Bool
covers every d = true
covers (one n) none = false
covers (one n) (some d) = d == n
covers (between a b) none = false
covers (between a b) (some d) = leb a d && leb d b

show_eq : (a b : ℕ) → (show a == show b) ≡ (a == b)
show_eq a b = elim (ℕ_discrete a b) [
  | yes e ↦ rw (e, ==_refl, ==_refl)
  | no e ↦
      rw (==_ne a b e)
        (==_ne (show a) (show b) (λ q. e (sym (read-show a) ∙ ap read q ∙ read-show b)))
]

covers_number :
    (ps : Ports) (k : Proto) (d : ℕ)
    → InRange k ps
    → d ≢ 0
    → port_covers (ports_text ps) (show d) ≡ covers ps (some d)
unfolding port_covers
covers_number every k d h p = rw ==_refl
covers_number (one n) k d h p = rw (one-ne-any n, one-ne-any d, show-no-dash n, show_eq d n)
covers_number (between a b) k d h p = rw (
  range-ne-any a b,
  one-ne-any d,
  range-has_char a b,
  before-append b'-' (show a) (show b) (show-no-dash a),
  after-append b'-' (show a) (show b) (show-no-dash a),
  read-show a,
  read-show b,
  read-show d,
)

-- A request without a port, or with port 0, is covered by "any" alone.
covers_any : (ps : Ports) → port_covers (ports_text ps) any_port ≡ covers ps none
unfolding port_covers
covers_any every = rw ==_refl
covers_any (one n) = rw (one-ne-any n, ==_refl)
covers_any (between a b) = rw (range-ne-any a b, ==_refl)

covers-zero : (ps : Ports) (k : Proto) → InRange k ps → covers ps (some 0) ≡ covers ps none
covers-zero every k h = refl
covers-zero (one n) k h = ground arith
covers-zero (between a b) k h = ground arith

pub port_covers-covers :
    (ps : Ports) (k : Proto) (d : Option ℕ)
    → InRange k ps
    → port_covers (ports_text ps) (port_text d) ≡ covers ps d
unfolding port_text
port_covers-covers ps k none h = covers_any ps
port_covers-covers ps k (some d) h = elim (ℕ_discrete d 0) [
  | yes e ↦ rw (e, ==_refl, covers_any) (sym (covers-zero ps k h))
  | no e ↦ rw (==_ne d 0 e) (covers_number ps k d h e)
]

-- A rule whose port is normalised to the ports ps, and whose destination is resolved if it is a
-- name, never makes the match raise, and it matches exactly the requests of its protocol to its
-- destination whose port is among ps. The ports ps are in range for the protocol of the rule.
pub flow_rule_matches-covers :
    (services : Services) (request : Request) (rule : FlowRule) (ps : Ports) (b : Bool)
    → InRange rule.proto ps
    → normalize_port services (text rule.port) rule.proto ≡ ok (ports_text ps)
    → dest_matches request.dst rule.dest ≡ ok b
    → flow_rule_matches services request rule
      ≡ ok (rule.proto == request.proto && b && covers ps request.dport)
unfolding flow_rule_matches
flow_rule_matches-covers services request rule ps b h e d =
    ground (arith, port_covers-covers ps rule.proto request.dport h)

-- The port that a request shows covers the request.
pub port_covers_self : (d : Option ℕ) → port_covers (port_text d) (port_text d) ≡ true
unfolding port_covers port_text
port_covers_self none = rw ==_refl
port_covers_self (some d) = elim (ℕ_discrete d 0) [
  | yes e ↦ rw (e, ==_refl, ==_refl)
  | no e ↦ rw (==_ne d 0 e, one-ne-any d, show-no-dash d, ==_refl)
]

-- The decision about a flow is that of the flow rules of its source.
pub matching_action-net :
    (services : Services) (request : Request) (rules : Rules) (r : SourceRules)
    → get request.source rules ≡ some r
    → request.kind ≡ net
    → matching_action services request rules
      ≡ first_match (flow_rule_matches services request) (λ x. x.action) r.ip
unfolding matching_action matching_source matching_rules
matching_action-net services request rules r e k = rw (e, k) refl
