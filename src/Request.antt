-- ===== src/Request.antt =====
-- The request that one packet becomes (qubes_snitch/packets.py, qubes_snitch/dns.py): the Python
-- dict with its optional keys as a record. An IPv4 address is its 32-bit number.
use qubes_snitch.Prelude.Decimal.{show}
use qubes_snitch.Prelude.{
  codes, ◌∷◌, ◌++◌, ◌/◌, ◌%◌, ℕ, Text, Eq, ℕ_discrete, Bool, true, false, Option, List,
}

abbrev pub Ip : Type 0
Ip = ℕ

abbrev pub Bytes : Type 0
Bytes = List ℕ

-- The protocol names "icmp", "tcp" and "udp", and the number of any other.
pub data Proto : Type 0 where
  icmp tcp udp : Proto
  other : ℕ → Proto

unfoldable pub Proto-discrete : Discrete Proto
unfolding ℕ_discrete
Proto-discrete = hlevel ℕ_discrete

instance abbrev pub Proto_eq : Eq Proto
Proto_eq = record { dec = Proto-discrete }

-- The test that a protocol is one of "tcp" and "udp".
abbrev pub has_ports : Proto → Bool
has_ports tcp = true
has_ports udp = true
has_ports icmp = false
has_ports (other n) = false

-- The values of request["malformed"].
pub data Malformed : Type 0 where
  bad_header_length total_length_mismatch reserved_flag fragments_unsupported : Malformed
  unsupported_protocol missing_icmp_header missing_ports missing_udp_header : Malformed
  source_port_zero destination_port_zero missing_tcp_header bad_tcp_offset : Malformed
  bad_udp_length : Malformed

-- The values of request["dns_error"].
pub data DnsError : Type 0 where
  empty_body oversize_body parse_failed not_client_query non_query_rcode : DnsError
  non_query_opcode non_query_flags unexpected_sections multi_question no_question : DnsError
  non_ascii_qname : DnsError
  unsupported_edns_version unsupported_edns_flags unsupported_qclass : DnsError
  unsupported_aaaa unsupported_qtype unsupported_qname : DnsError

-- A query name with the name of its type.
pub record Question : Type 0 where
  pub qtype : Text
  pub qname : Text

-- request["kind"]: absent, "dns" with its question, or "dns-error" with its reason.
pub data Kind : Type 0 where
  net : Kind
  dns : Question → Kind
  dns_error : DnsError → Option Question → Kind

pub record Request : Type 0 where
  pub src : Ip
  pub dst : Ip
  pub proto : Proto
  pub sport : Option ℕ
  pub dport : Option ℕ
  pub body : Option Bytes
  pub malformed : Option Malformed
  pub kind : Kind
  pub source : Text
  pub display_source : Text
  pub source_label : Option Text
  pub host : Option Text
  pub resolved_dests : List Ip
  pub prompt_id : Option ℕ
  pub remaining : ℕ

-- The dotted form of an address, as inet_ntop prints it.
unfoldable pub ip_text : Ip → Text
ip_text a =
    show (a / 16777216)
    ++ b'.' ∷ (show (a / 65536 % 256) ++ b'.' ∷ (show (a / 256 % 256) ++ b'.' ∷ show (a % 256)))

abbrev pub proto_text : Proto → Text
proto_text icmp = codes "icmp"
proto_text tcp = codes "tcp"
proto_text udp = codes "udp"
proto_text (other n) = show n
