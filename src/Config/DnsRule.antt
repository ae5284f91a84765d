-- ===== src/Config/DnsRule.antt =====
-- validate_dns_rule and validate_dest_dns_name of qubes_snitch/config.py.
pub mod Laws
use qubes_snitch.Prelude.{
  ℕ, Text, Text_eq, codes, Bool, true, false, ◌||◌, not, Option, none, some, length, any, drop, ltb,
  ◌==◌, if◌then◌else◌,
}
use qubes_snitch.Prelude.Strings.{upper, starts_with, split, is_digits}
use qubes_snitch.Prelude.Result.{Result, ok, err, Error, system_exit, require, ◌>>=◌, ◌>>◌}
use qubes_snitch.Dns.Names.{
  dot, is_supported, is_bad_label, dns_qname_is_ipv6_reverse, normalize_dns_name, live_dns_qname_re,
  live_dns_srv_qname_re,
}
use qubes_snitch.Dns.Rules.{Action, allow, DnsRule, wildcard}

-- dns.rdatatype: from_text, where none is its exception, and to_text.
pub record RdataTypes : Type 0 where
  pub from_text : Text → Option ℕ
  pub to_text : ℕ → Text

-- An entry of the list `dns` as it was read: none stands for a name that is no str.
pub record DnsEntry : Type 0 where
  pub qname : Option Text
  pub qtype : Text
  pub action : Action

-- The part of a name whose labels are checked: a wildcard loses its "*.".
abbrev pub base_name : Text → Text
base_name q = if starts_with q wildcard then drop 2 q else q

abbrev pub has_bad_labels : Text → Bool
has_bad_labels q =
    ltb (length (split dot (base_name q))) 2 || any is_bad_label (split dot (base_name q))

unfoldable pub valid_qname : Text → Text → Bool
valid_qname q qtype =
    if starts_with q wildcard
    then live_dns_qname_re (drop 2 q)
    else if qtype == codes "SRV"
    then live_dns_srv_qname_re q
    else live_dns_qname_re q

abbrev pub from_option {ℓ} : {A : Type ℓ} → Option A → Error → Result A
from_option none e = err e
from_option (some a) e = ok a

-- The type of a rule under its canonical name.
unfoldable pub canonical_qtype : RdataTypes → Text → Result Text
canonical_qtype types qtype_text = do
  require (not (starts_with qtype_text (codes "TYPE") || is_digits qtype_text)) system_exit
  value ← from_option (types.from_text qtype_text) system_exit
  let canonical = upper (types.to_text value)
  require (not (canonical == codes "AAAA" || not (is_supported canonical))) system_exit
  ok canonical

-- The checks of a name that is already stripped and in lower case.
validate_name : RdataTypes → Text → Text → Action → Result DnsRule
unfolding canonical_qtype valid_qname
validate_name types qname qtype action = do
  require (not (dns_qname_is_ipv6_reverse qname || ltb 253 (length qname) || has_bad_labels qname))
      system_exit
  canonical ← canonical_qtype types (upper qtype)
  require (valid_qname qname canonical) system_exit
  ok (record { qname = qname; qtype = canonical; action = action })

validate_read : RdataTypes → Option Text → DnsEntry → Result DnsRule
unfolding validate_name
validate_read types none e = err system_exit
validate_read types (some raw) e = validate_name types (normalize_dns_name raw) e.qtype e.action

unfoldable pub validate_dns_rule : RdataTypes → DnsEntry → Result DnsRule
unfolding validate_read
validate_dns_rule types e = validate_read types e.qname e

unfoldable pub validate_dest_dns_name : RdataTypes → Text → Result Text
unfolding validate_dns_rule
validate_dest_dns_name types value = do
  rule ← validate_dns_rule types (record { qname = some value; qtype = codes "A"; action = allow })
  require (not (starts_with rule.qname wildcard)) system_exit
  ok rule.qname
