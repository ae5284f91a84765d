-- ===== src/Dns/Query.antt =====
-- add_dns_query_fields of qubes_snitch/dns.py.
pub mod Accepted
use qubes_snitch.Prelude.{
  ℕ, ◌/◌, ◌%◌, Text, Text_eq, codes, List, [], ◌∷◌, Bool, true, false, ◌||◌, ◌&&◌, not, any, Option,
  none, some, length, ltb, ◌==◌, ℕ_eq, if◌then◌else◌,
}
use qubes_snitch.Prelude.Strings.{upper}
use mathlib.Core.Option
use qubes_snitch.Request.{
  Bytes, Proto, udp, Proto_eq, Request, Kind, dns, dns_error, Question, DnsError, empty_body,
  oversize_body, parse_failed, not_client_query, non_query_rcode, non_query_opcode, non_query_flags,
  unexpected_sections, multi_question, no_question, non_ascii_qname, unsupported_edns_version,
  unsupported_edns_flags, unsupported_qclass, unsupported_aaaa, unsupported_qtype,
  unsupported_qname,
}
use qubes_snitch.Dns.Names.{
  is_supported, normalize_dns_name, live_dns_qname_supported, max_live_dns_body_bytes,
}

-- What the program reads of a dns.message.Message and of its questions. The version of EDNS is
-- none where the library has -1; a section is the number of its records.
pub record WireQuestion : Type 0 where
  pub labels : List Bytes
  pub name : Text
  pub rdtype : ℕ
  pub rdclass : ℕ

pub record Message : Type 0 where
  pub flags : ℕ
  pub opcode : ℕ
  pub answer : ℕ
  pub authority : ℕ
  pub additional : ℕ
  pub question : List WireQuestion
  pub edns : Option ℕ
  pub rcode : ℕ
  pub ednsflags : ℕ

-- The DNS library: dns.message.from_wire, where none is its exception, and the names of types and
-- classes.
pub record Library : Type 0 where
  pub from_wire : Bytes → Option Message
  pub type_text : ℕ → Text
  pub class_text : ℕ → Text

-- The errors whose text begins with "unsupported-".
abbrev pub is_unsupported : DnsError → Bool
is_unsupported unsupported_edns_version = true
is_unsupported unsupported_edns_flags = true
is_unsupported unsupported_qclass = true
is_unsupported unsupported_aaaa = true
is_unsupported unsupported_qtype = true
is_unsupported unsupported_qname = true
is_unsupported _ = false

-- A bit of a number, by its weight.
abbrev pub has_bit : ℕ → ℕ → Bool
has_bit n weight = not (n / weight % 2 == 0)

-- flags & ~allowed_query_flags: the bits AA, TC, RA and the reserved one.
abbrev pub has_forbidden_flags : ℕ → Bool
has_forbidden_flags f = has_bit f 0x400 || has_bit f 0x200 || has_bit f 0x80 || has_bit f 0x40

-- The checks that come before the question is read.
unfoldable pub header_error : Message → Option DnsError
header_error m =
    if has_bit m.flags 0x8000
    then some not_client_query
    else if not (m.flags % 16 == 0)
    then some non_query_rcode
    else if not (m.opcode == 0)
    then some non_query_opcode
    else if has_forbidden_flags m.flags
    then some non_query_flags
    else if ltb 0 m.answer || ltb 0 m.authority || ltb 0 m.additional
    then some unexpected_sections
    else none

-- has_non_ascii of qubes_snitch/security_checks.py on bytes.
abbrev pub has_non_ascii : Bytes → Bool
has_non_ascii = any (λ b. ltb 127 b)

-- getattr(message, "edns", -1) not in (-1, 0)
abbrev pub bad_edns : Option ℕ → Bool
bad_edns none = false
bad_edns (some v) = not (v == 0)

-- udp to port 53.
abbrev pub is_dns_transport : Request → Bool
is_dns_transport r = r.proto == udp && Option.get_or r.dport 0 == 53

module _ (lib : Library) where
  abbrev pub qtype_of : WireQuestion → Text
  qtype_of w = upper (lib.type_text w.rdtype)

  abbrev pub question_of : WireQuestion → Question
  question_of w = record { qtype = qtype_of w; qname = normalize_dns_name w.name }

  -- The checks of the question.
  unfoldable pub question_error : Message → WireQuestion → Option DnsError
  question_error m w =
      if any has_non_ascii w.labels
      then some non_ascii_qname
      else if bad_edns m.edns
      then some unsupported_edns_version
      else if not (m.rcode == 0)
      then some non_query_rcode
      else if not (m.ednsflags == 0 || m.ednsflags == 0x8000)
      then some unsupported_edns_flags
      else if not (upper (lib.class_text w.rdclass) == codes "IN")
      then some unsupported_qclass
      else if qtype_of w == codes "AAAA"
      then some unsupported_aaaa
      else if not (is_supported (qtype_of w))
      then some unsupported_qtype
      else if not (live_dns_qname_supported (normalize_dns_name w.name) (qtype_of w))
      then some unsupported_qname
      else none

  one_question : Option DnsError → WireQuestion → Kind
  one_question (some e) w = dns_error e (some (question_of w))
  one_question none w = dns (question_of w)

  questions : Message → List WireQuestion → Kind
  unfolding question_error one_question
  questions m [] = dns_error no_question none
  questions m (w ∷ []) = one_question (question_error m w) w
  questions m (w ∷ x ∷ ws) = dns_error multi_question none

  checked_message : Option DnsError → Message → Kind
  unfolding questions
  checked_message (some e) m = dns_error e none
  checked_message none m = questions m m.question

  parsed : Option Message → Kind
  unfolding checked_message header_error
  parsed none = dns_error parse_failed none
  parsed (some m) = checked_message (header_error m) m

  unfoldable pub classify : Bytes → Kind
  unfolding parsed
  classify [] = dns_error empty_body none
  classify (b ∷ bs) =
      if ltb max_live_dns_body_bytes (length (b ∷ bs))
      then dns_error oversize_body none
      else parsed (lib.from_wire (b ∷ bs))

  -- none is the answer False; else the kind of the request is set.
  unfoldable pub add_dns_query_fields : Request → Option Request
  unfolding classify
  add_dns_query_fields r =
      if not (is_dns_transport r)
      then none
      else some (record r { kind = classify (Option.get_or r.body []) })
