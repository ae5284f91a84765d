-- ===== src/Dom0.antt =====
-- The program of dom0 that lists the qubes behind the firewall,
-- templates/dom0/usr/local/lib/qubes-snitch/sources.py. The XML parser has read the file: an
-- element is its attributes and its properties.
pub mod Chain
pub mod Addresses
pub mod Lines
use qubes_snitch.Prelude.{
  ℕ, zero, suc, ◌+◌, ◌-◌, ◌/◌, ◌%◌, Text, Text_eq, codes, List, [], ◌∷◌, ◌++◌, Bool, true, false,
  ◌&&◌, ◌||◌, not, Option, none, some, length, drop, ltb, ◌==◌, ℕ_eq, if◌then◌else◌,
}
use qubes_snitch.Prelude.Dict.{Dict, get, put, has_key}
use qubes_snitch.Prelude.Strings.{starts_with, after, is_digits}
use qubes_snitch.Prelude.Decimal.{show, read}
use qubes_snitch.Prelude.Result.{Result, ok, err, value_error, ◌>>=◌}

-- A property element: its attribute ref and its text.
pub record Property : Type 0 where
  pub ref : Option Text
  pub text : Option Text

-- A domain element, with the properties by their names.
pub record Domain : Type 0 where
  pub id : Option Text
  pub class_ : Option Text
  pub properties : Dict Text Property

-- An empty text is no value.
abbrev pub or_none : Option Text → Option Text
or_none none = none
or_none (some []) = none
or_none (some (c ∷ t)) = some (c ∷ t)

abbrev pub value_of : Property → Option Text
value_of p = or_none (elim p.ref [ none ↦ p.text | some r ↦ some r ])

unfoldable pub prop : Dict Text Property → Text → Option Text
prop properties name = elim (get name properties) [ none ↦ none | some p ↦ value_of p ]

-- int(t), for the numerals without a sign that Qubes writes.
abbrev pub int_of : Text → Option ℕ
int_of t = if is_digits t then some (read t) else none

unfoldable pub qid : Option Text → Option ℕ
qid none = none
qid (some ident) = if starts_with ident (codes "domain-") then int_of (after b'-' ident) else none

-- The last two numbers of the address.
unfoldable pub octets : ℕ → ℕ × ℕ
octets value =
    if ltb value 255
    then (value / 256 % 256, value % 256)
    else ((value - 1) / 254, (value - 1) % 254 + 1)

unfoldable pub ip_from_id : Text → ℕ → Text
unfolding octets
ip_from_id prefix value =
    let (high, low) = octets value in prefix ++ b'.' ∷ (show high ++ b'.' ∷ show low)

unfoldable pub label_name : Text → Text
label_name value = if starts_with value (codes "label-") then drop 6 value else value

-- What the loop goes on with: a name that is neither empty nor "-", and was not met.
abbrev pub goes_on : List Text → Text → Bool
goes_on seen vm = not (vm == []) && not (vm == codes "-") && not (has_key vm seen)

-- The loop of vm_uses_snitch, none where the rounds are used up.
unfoldable pub follows : Text → Dict Text Text → ℕ → List Text → Option Text → Option Bool
follows snitch_vm netvms zero seen vm = none
follows snitch_vm netvms (suc fuel) seen none = some false
follows snitch_vm netvms (suc fuel) seen (some vm) =
    let rest = follows snitch_vm netvms fuel (vm ∷ seen) (get vm netvms) in
    if not (goes_on seen vm) then some false else if vm == snitch_vm then some true else rest

-- Two rounds more than there are qubes.
unfoldable pub vm_uses_snitch : Text → Text → Dict Text Text → Option Bool
unfolding follows
vm_uses_snitch snitch_vm name netvms =
    follows snitch_vm netvms (suc (suc (length netvms))) [] (some name)

pub record Row : Type 0 where
  pub name : Text
  pub ip : Option Text
  pub label : Option Text
  pub vm_class : Text
  pub template : Text

-- An unreadable number raises ValueError.
abbrev pub read_id : Option Text → Result (Option ℕ)
read_id none = ok none
read_id (some t) = elim (int_of t) [ none ↦ err value_error | some n ↦ ok (some n) ]

abbrev pub or_dash : Option Text → Text
or_dash none = codes "-"
or_dash (some t) = t

abbrev pub address_of : Text → Option ℕ → Option Text
address_of prefix none = none
address_of prefix (some value) = some (ip_from_id prefix value)

-- The address of a qube: its property, or one from the id of the disposable or the qube.
unfoldable pub row_ip : Domain → Text → Result (Option Text)
unfolding prop qid ip_from_id
row_ip domain vm_class = elim (prop domain.properties (codes "ip")) [
  | some ip ↦ ok (some ip)
  | none ↦
      if vm_class == codes "DispVM"
      then (read_id (prop domain.properties (codes "dispid")) >>= λ value.
          ok (address_of (codes "10.138") value))
      else ok (address_of (codes "10.137") (qid domain.id))
]

abbrev pub named_label : Option Text → Option Text
named_label none = none
named_label (some value) = some (label_name value)

abbrev pub put_netvm : Text → Option Text → Dict Text Text → Dict Text Text
put_netvm name none netvms = netvms
put_netvm name (some netvm) netvms = put name netvm netvms

-- The network qube of a domain: a template without one has none.
unfoldable pub netvm_of : Option Text → Domain → Text → Option Text
unfolding prop
netvm_of default_netvm domain vm_class = elim (prop domain.properties (codes "netvm")) [
  | some netvm ↦ some netvm
  | none ↦ if vm_class == codes "TemplateVM" then none else default_netvm
]

-- The rest of the loop, for a domain with a name.
unfoldable pub add_domain :
    Option Text → Domain → Text → List Row × Dict Text Text → Result (List Row × Dict Text Text)
unfolding netvm_of row_ip prop label_name
add_domain default_netvm domain name (rows, netvms) =
    let vm_class = or_dash (or_none domain.class_) in
    do
      ip ← row_ip domain vm_class
      ok (
        rows
            ++ record {
              name = name;
              ip = ip;
              label = named_label (prop domain.properties (codes "label"));
              vm_class = vm_class;
              template = or_dash (prop domain.properties (codes "template"));
            }
              ∷ [],
        put_netvm name (netvm_of default_netvm domain vm_class) netvms,
      )

unfoldable pub read_domains :
    Option Text → List Domain → List Row × Dict Text Text → Result (List Row × Dict Text Text)
unfolding add_domain prop
read_domains default_netvm [] state = ok state
read_domains default_netvm (domain ∷ domains) state = do
  next ← elim (prop domain.properties (codes "name")) [
    | none ↦ ok state
    | some name ↦
        if name == codes "dom0" then ok state else add_domain default_netvm domain name state
  ]
  read_domains default_netvm domains next

-- ipaddress.ip_address(t).version, none where it raises.
abbrev pub Version : Type 0
Version = Text → Option ℕ

abbrev pub has_text : Option Text → Bool
has_text none = false
has_text (some []) = false
has_text (some (c ∷ t)) = true

abbrev pub is_version_4 : Version → Option Text → Bool
is_version_4 version none = false
is_version_4 version (some ip) = elim (version ip) [ none ↦ false | some n ↦ n == 4 ]

abbrev pub is_found : Option Bool → Bool
is_found none = false
is_found (some b) = b

-- The tests of the second loop of main, in their order.
unfoldable pub is_printed : Version → Text → Dict Text Text → Row → Bool
unfolding vm_uses_snitch
is_printed version snitch_vm netvms row =
    has_text row.ip
    && has_text row.label
    && is_version_4 version row.ip
    && is_found (vm_uses_snitch snitch_vm row.name netvms)

abbrev pub text_of : Option Text → Text
text_of none = []
text_of (some t) = t

abbrev pub row_line : Row → Text
row_line row =
    row.name
    ++ b'|'
      ∷ (text_of row.ip
          ++ b'|' ∷ (text_of row.label ++ b'|' ∷ (row.vm_class ++ b'|' ∷ row.template)))

unfoldable pub printed : Version → Text → Dict Text Text → List Row → List Text
unfolding is_printed
printed version snitch_vm netvms [] = []
printed version snitch_vm netvms (row ∷ rows) =
    let rest = printed version snitch_vm netvms rows in
    if is_printed version snitch_vm netvms row then row_line row ∷ rest else rest

-- The lines that main prints, from the properties of the root and the domains.
unfoldable pub main_ : Version → Text → Dict Text Property → List Domain → Result (List Text)
unfolding read_domains printed prop
main_ version snitch_vm root domains = do
  (rows, netvms) ← read_domains (prop root (codes "default_netvm")) domains ([], [])
  ok (printed version snitch_vm netvms rows)
