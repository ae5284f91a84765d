-- ===== src/Config/RuleFile.antt =====
-- validate_rule_file of qubes_snitch/config.py.
pub mod Validated
use qubes_snitch.Prelude.{
  ℕ, ℕ_eq, Text, Text_eq, codes, List, [], ◌∷◌, ◌++◌, Bool, true, false, ◌&&◌, ◌||◌, not, Option,
  none, some, all, any, ltb, ◌==◌, if◌then◌else◌,
}
use qubes_snitch.Prelude.Dict.{Dict, keys, get, put, has, has_key}
use qubes_snitch.Prelude.Strings.{is_digits, has_char}
use qubes_snitch.Prelude.Result.{
  Result, ok, err, Error, system_exit, key_error, require, ◌>>=◌, ◌>>◌,
}
use qubes_snitch.Request.{Ip, Bytes, Proto, tcp, udp, icmp, has_ports}
use qubes_snitch.Packets.Ports.{Services, text, any_port, normalize_port}
use qubes_snitch.Dns.Rules
use qubes_snitch.Dns.Rules.{Action, DnsRule}
use qubes_snitch.Config.DnsRule.{
  RdataTypes, DnsEntry, from_option, validate_dns_rule, validate_dest_dns_name,
}
use qubes_snitch.Config.Resolve.{Resolver, resolve_dest_dns}
use qubes_snitch.Config.Names.{
  is_source_name, reserved_sources, dispvm_policy_prefix, default_dvm_template,
}
use qubes_snitch.Policy.{Dest, any_dest, host, network, named, FlowRule, SourceRules, Rules}
use qubes_snitch.Policy.Append.{RuleFile}

-- The value of a key in a rule: a str; another scalar, with its str(); or a list or mapping, whose
-- str() is none of the texts that are compared.
pub data Leaf : Type 0 where
  string : Text → Leaf
  scalar : Text → Leaf
  nested : Leaf

-- An entry of a list of rules: a mapping, or not.
pub data Item : Type 0 where
  entries : Dict Text Leaf → Item
  no_mapping : Item

-- The value of a key of the file: a list, or not.
pub data Section : Type 0 where
  items : List Item → Section
  no_list : Section

-- The file. A key that is no str stands as a text that is none of the keys of the schema.
abbrev pub Document : Type 0
Document = Dict Text Section

-- ipaddress.ip_network(text, strict=False).
pub data Network : Type 0 where
  ipv4 : Ip → ℕ → Network
  ipv6 : Network
  unreadable : Network

abbrev pub str_of : Leaf → Text
str_of (string t) = t
str_of (scalar t) = t
str_of nested = codes "[]"

-- set(d) == set(names)
abbrev pub has_exactly {ℓ} : {V : Type ℓ} → List Text → Dict Text V → Bool
has_exactly names d = all (λ k. has k d) names && all (λ k. has_key k names) (keys d)

-- d[k]
abbrev pub at_key {ℓ} : {V : Type ℓ} → Text → Dict Text V → Result V
at_key k d = from_option (get k d) key_error

abbrev pub flow_keys : List Text
flow_keys = codes "ptr" ∷ codes "proto" ∷ codes "port" ∷ codes "action" ∷ []

abbrev pub dest_key : Text
dest_key = codes "dest"

abbrev pub dest_dns_key : Text
dest_dns_key = codes "dest_dns"

-- The keys of a flow rule: those that it must have, one of the two of a destination, and no other.
abbrev pub has_flow_keys : Dict Text Leaf → Bool
has_flow_keys d =
    all (λ k. has k d) flow_keys
    && not (has dest_key d && has dest_dns_key d)
    && (has dest_key d || has dest_dns_key d)
    && all (λ k. has_key k (dest_key ∷ dest_dns_key ∷ flow_keys)) (keys d)

abbrev pub action_named : Leaf → Result Action
action_named (string t) =
    if t == codes "allow"
    then ok Rules.allow
    else if t == codes "reject"
    then ok Rules.reject
    else err system_exit
action_named (scalar t) = err system_exit
action_named nested = err system_exit

-- str(rule["proto"]) in FLOW_PROTOS, which has no number.
abbrev pub proto_named : Text → Result Proto
proto_named t =
    if t == codes "tcp"
    then ok tcp
    else if t == codes "udp"
    then ok udp
    else if t == codes "icmp"
    then ok icmp
    else err system_exit

-- A port is a str.
abbrev pub port_string : Leaf → Result Text
port_string (string t) = ok t
port_string (scalar t) = err system_exit
port_string nested = err system_exit

-- except (OSError, ValueError): raise SystemExit
abbrev pub or_exit {ℓ} : {A : Type ℓ} → Result A → Result A
or_exit (ok a) = ok a
or_exit (err e) = err system_exit

-- A network of every address is refused; a destination without a length is one address.
network_of : Text → Network → Result Dest
network_of t (ipv4 a n) =
    if n == 0 then err system_exit else ok (if has_char b'/' t then network a n else host a)
network_of t ipv6 = err system_exit
network_of t unreadable = err system_exit

module _ (services : Services) (types : RdataTypes) (ip_network : Text → Network) where
  dest_of : Leaf → Result Dest
  unfolding network_of
  dest_of (string t) = if t == any_port then ok any_dest else network_of t (ip_network t)
  dest_of (scalar t) = network_of t (ip_network t)
  dest_of nested = err system_exit

  dest_dns_of : Leaf → Result Dest
  dest_dns_of (string t) = do name ← validate_dest_dns_name types t; ok (named name none)
  dest_dns_of (scalar t) = err system_exit
  dest_dns_of nested = err system_exit

  flow_dest : Dict Text Leaf → Result Dest
  unfolding dest_of dest_dns_of
  flow_dest d =
      if has dest_dns_key d
      then (at_key dest_dns_key d >>= dest_dns_of)
      else (at_key dest_key d >>= dest_of)

  unfoldable pub validate_flow_rule : Dict Text Leaf → Result FlowRule
  unfolding flow_dest
  validate_flow_rule d = do
    require (has_flow_keys d) system_exit
    action ← at_key (codes "action") d
    decided ← action_named action
    dest ← flow_dest d
    name ← at_key (codes "proto") d
    proto ← proto_named (str_of name)
    value ← at_key (codes "port") d
    port ← port_string value
    require (has_ports proto || port == any_port) system_exit
    normalized ← or_exit (normalize_port services (text port) proto)
    ptr ← at_key (codes "ptr") d
    ok (record { ptr = str_of ptr; dest = dest; proto = proto; port = port; action = decided })

  abbrev pub qname_of : Leaf → Option Text
  qname_of (string t) = some t
  qname_of (scalar t) = none
  qname_of nested = none

  unfoldable pub validate_dns_entry : Dict Text Leaf → Result DnsRule
  validate_dns_entry d = do
    require (has_exactly (codes "qname" ∷ codes "qtype" ∷ codes "action" ∷ []) d) system_exit
    action ← at_key (codes "action") d
    decided ← action_named action
    qname ← at_key (codes "qname") d
    qtype ← at_key (codes "qtype") d
    validate_dns_rule types
        (record { qname = qname_of qname; qtype = str_of qtype; action = decided })

  -- Every item of a list is a mapping that validates.
  each_item {ℓ} : {R : Type ℓ} → (Dict Text Leaf → Result R) → List Item → Result (List R)
  each_item validate [] = ok []
  each_item validate (entries d ∷ rest) = do
    r ← validate d
    rs ← each_item validate rest
    ok (r ∷ rs)
  each_item validate (no_mapping ∷ rest) = err system_exit

  section_of : Section → Result (List Item)
  section_of (items l) = ok l
  section_of no_list = err system_exit

  unfoldable pub validate_rule_file : Document → Result RuleFile
  unfolding validate_flow_rule validate_dns_entry each_item section_of
  validate_rule_file document = do
    require (has_exactly (codes "rules4" ∷ codes "dns" ∷ []) document) system_exit
    first ← at_key (codes "rules4") document
    second ← at_key (codes "dns") document
    flows ← section_of first
    questions ← section_of second
    rules4 ← each_item validate_flow_rule flows
    dns ← each_item validate_dns_entry questions
    ok (record { rules4 = rules4; dns = dns })
