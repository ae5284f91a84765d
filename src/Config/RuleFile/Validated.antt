-- ===== src/Config/RuleFile/Validated.antt =====
-- What validate_rule_file lets through.
use mathlib.Core.Path.{subst}
use qubes_snitch.Prelude.{
  ◌≡◌, refl, sym, ◌∙◌, ap, Text, Text_eq, codes, List, [], ◌∷◌, true, false, ◌||◌, ◌==◌, ==_refl,
  All, arith,
}
use qubes_snitch.Prelude.Dict.{Dict}
use qubes_snitch.Prelude.Result.{
  Result, ok, err, system_exit, require, require-true, >>=-eq-ok, ok-injective,
}
use qubes_snitch.Request.{Proto, has_ports}
use qubes_snitch.Packets.Ports.{Services, text, any_port, normalize_port}
use qubes_snitch.Packets.Ports.Normal.{
  Ports, every, one, between, one-ne-any, range-ne-any, ports_text, InRange, IsServices,
  normalize_port-InRange,
}
use qubes_snitch.Config.DnsRule.{RdataTypes}
use qubes_snitch.Policy.{FlowRule}
use qubes_snitch.Policy.Append.{RuleFile}
use qubes_snitch.Config.RuleFile.{
  Leaf, Item, entries, no_mapping, Document, Network, str_of, at_key, has_flow_keys, has_exactly,
  action_named, proto_named, port_string, or_exit, flow_dest, validate_flow_rule,
  validate_dns_entry, each_item, section_of, validate_rule_file,
}

-- A rule whose port is normalised to ports in range, which are all of them unless it is for TCP
-- or UDP.
pub record IsValidFlow (services : Services) (rule : FlowRule) : Type 0 where
  pub ports : Ports
  pub in_range : InRange rule.proto ports
  pub normal : normalize_port services (text rule.port) rule.proto ≡ ok (ports_text ports)
  pub portless : has_ports rule.proto ≡ false → ports ≡ every

or_exit-ok {ℓ} : {A : Type ℓ} (r : Result A) (a : A) → or_exit r ≡ ok a → r ≡ ok a
or_exit-ok (ok a) b h = h
or_exit-ok (err e) b h = absurd (cc)

apart : {t : Text} → (t == any_port) ≡ false → t ≡ any_port → ⊥
apart h e = ground (arith)

every_of : (ps : Ports) → ports_text ps ≡ any_port → ps ≡ every
every_of every h = refl
every_of (one n) h = absurd (apart (one-ne-any n) h)
every_of (between a b) h = absurd (apart (range-ne-any a b) h)

normal_any :
    (services : Services) (k : Proto) → normalize_port services (text any_port) k ≡ ok any_port
unfolding normalize_port
normal_any services k = rw ==_refl refl

module _ (services : Services) (w : IsServices services) (types : RdataTypes)
    (ip_network : Text → Network) where
  valid_of :
      (rule : FlowRule) (t : Text)
      → (has_ports rule.proto || rule.port == any_port) ≡ true
      → normalize_port services (text rule.port) rule.proto ≡ ok t
      → IsValidFlow services rule
  valid_of rule t p h =
      let (ps, e, r) = normalize_port-InRange services (text rule.port) rule.proto t w h in
      record {
        ports = ps;
        in_range = r;
        normal = h ∙ ap ok e;
        portless = λ n. every_of ps (sym e ∙ same (any_of n p));
      }
    where
      any_of :
          has_ports rule.proto ≡ false
          → (has_ports rule.proto || rule.port == any_port) ≡ true
          → rule.port ≡ any_port
      any_of n q = ground (arith)

      same : rule.port ≡ any_port → t ≡ any_port
      same q = ok-injective (
          sym h
          ∙ (ap (λ x. normalize_port services (text x) rule.proto) q
              ∙ normal_any services rule.proto))

  validate_flow_rule-IsValidFlow :
      (d : Dict Text Leaf) (rule : FlowRule)
      → validate_flow_rule services types ip_network d ≡ ok rule
      → IsValidFlow services rule
  unfolding validate_flow_rule
  validate_flow_rule-IsValidFlow d rule h =
      let (_, _, h1) = >>=-eq-ok (require (has_flow_keys d) system_exit) _ h in
      let (action, _, h2) = >>=-eq-ok (at_key (codes "action") d) _ h1 in
      let (decided, _, h3) = >>=-eq-ok (action_named action) _ h2 in
      let (dest, _, h4) = >>=-eq-ok (flow_dest services types ip_network d) _ h3 in
      let (name, _, h5) = >>=-eq-ok (at_key (codes "proto") d) _ h4 in
      let (proto, _, h6) = >>=-eq-ok (proto_named (str_of name)) _ h5 in
      let (value, _, h7) = >>=-eq-ok (at_key (codes "port") d) _ h6 in
      let (port, _, h8) = >>=-eq-ok (port_string value) _ h7 in
      let (_, p, h9) = >>=-eq-ok (require (has_ports proto || port == any_port) system_exit) _ h8 in
      let (t, n, h10) = >>=-eq-ok (or_exit (normalize_port services (text port) proto)) _ h9 in
      let (ptr, _, h11) = >>=-eq-ok (at_key (codes "ptr") d) _ h10 in
      subst (IsValidFlow services) (ok-injective h11) (
        valid_of
          (record { ptr = str_of ptr; dest = dest; proto = proto; port = port; action = decided }) t
          (require-true _ _ p) (or_exit-ok _ t n))

  each-IsValidFlow :
      (items : List Item) (rules : List FlowRule)
      → each_item services types ip_network (validate_flow_rule services types ip_network) items
        ≡ ok rules
      → All (IsValidFlow services) rules
  unfolding each_item
  each-IsValidFlow [] rules h = subst (All (IsValidFlow services)) (ok-injective h) tt
  each-IsValidFlow (no_mapping ∷ items) rules h = absurd (cc)
  each-IsValidFlow (entries d ∷ items) rules h =
      let (r, valid, h1) = >>=-eq-ok (validate_flow_rule services types ip_network d) _ h in
      let (rs, rest, h2) =
        >>=-eq-ok
          (each_item services types ip_network (validate_flow_rule services types ip_network) items)
          _ h1 in
      subst (All (IsValidFlow services)) (ok-injective h2)
        (validate_flow_rule-IsValidFlow d r valid, each-IsValidFlow items rs rest)

  pub validate_rule_file-IsValidFlow :
      (document : Document) (file : RuleFile)
      → validate_rule_file services types ip_network document ≡ ok file
      → All (IsValidFlow services) file.rules4
  unfolding validate_rule_file
  validate_rule_file-IsValidFlow document file h =
      let (_, _, h1) =
        >>=-eq-ok (require (has_exactly (codes "rules4" ∷ codes "dns" ∷ []) document) system_exit) _
          h in
      let (first, _, h2) = >>=-eq-ok (at_key (codes "rules4") document) _ h1 in
      let (second, _, h3) = >>=-eq-ok (at_key (codes "dns") document) _ h2 in
      let (flows, _, h4) = >>=-eq-ok (section_of services types ip_network first) _ h3 in
      let (questions, _, h5) = >>=-eq-ok (section_of services types ip_network second) _ h4 in
      let (rules4, valid, h6) =
        >>=-eq-ok
          (each_item services types ip_network (validate_flow_rule services types ip_network) flows)
          _ h5 in
      let (dns, _, h7) =
        >>=-eq-ok
          (each_item services types ip_network (validate_dns_entry services types ip_network)
            questions)
          _ h6 in
      subst (λ (f : RuleFile). All (IsValidFlow services) f.rules4) (ok-injective h7)
        (each-IsValidFlow flows rules4 valid)
