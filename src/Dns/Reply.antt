-- ===== src/Dns/Reply.antt =====
-- dns_reject_payload of qubes_snitch/dns.py: the packet that answers a rejected question.
pub mod Parsed
use qubes_snitch.Prelude.{
  ℕ, ◌+◌, ◌*◌, ◌/◌, ◌%◌, List, [], ◌∷◌, ◌++◌, Bool, ◌&&◌, Option, none, some, length, leb, ltb,
  if◌then◌else◌,
}
use qubes_snitch.Prelude.Result.{Result, ok, err, key_error, struct_error, require, ◌>>=◌, ◌>>◌}
use qubes_snitch.Request.{Bytes, Ip, Request}
use qubes_snitch.Packets.Parse.{u16}
use qubes_snitch.Dns.Checksum.{two_bytes, packed, fits, inet_checksum, udp_checksum}

-- request[key]
abbrev or_key {ℓ} : {A : Type ℓ} → Option A → Result A
or_key none = err key_error
or_key (some value) = ok value

-- struct.pack("!HHHH", sport, dport, udp_length, checksum)
unfoldable pub udp_header : ℕ → ℕ → ℕ → ℕ → Result Bytes
udp_header sport dport udp_length checksum = do
  require (fits sport && fits dport && fits udp_length && fits checksum) struct_error
  ok (two_bytes sport ++ two_bytes dport ++ two_bytes udp_length ++ two_bytes checksum)

-- struct.pack("!BBHHHBBH4s4s", 0x45, 0, ..., 64, IPPROTO_UDP, checksum, src, dst)
unfoldable pub ip_header : ℕ → ℕ → ℕ → ℕ → Ip → Ip → Result Bytes
ip_header total_length query_id reply_flags checksum src dst = do
  require (fits total_length && fits query_id && fits reply_flags && fits checksum) struct_error
  ok (
      (0x45 ∷ 0 ∷ two_bytes total_length)
      ++ two_bytes query_id
      ++ two_bytes reply_flags
      ++ (64 ∷ 17 ∷ two_bytes checksum)
      ++ packed src
      ++ packed dst)

abbrev pub query_id_of : Bytes → ℕ
query_id_of payload = if leb 8 (length payload) then u16 payload 4 else 0

-- The bit of weight 0x4000, don't fragment.
abbrev pub reply_flags_of : Bytes → ℕ
reply_flags_of payload = if leb 8 (length payload) then u16 payload 6 / 0x4000 % 2 * 0x4000 else 0

-- The UDP packet with its checksum, from the resolver back to the client.
unfoldable pub udp_reply : ℕ → ℕ → Ip → Ip → Bytes → Result Bytes
unfolding udp_header udp_checksum
udp_reply sport dport src dst wire = do
  let udp_length = 8 + length wire
  header0 ← udp_header sport dport udp_length 0
  checksum ← udp_checksum src dst (header0 ++ wire)
  header ← udp_header sport dport udp_length checksum
  ok (header ++ wire)

unfoldable pub ip_reply : Bytes → Ip → Ip → Bytes → Result Bytes
unfolding ip_header inet_checksum
ip_reply payload src dst udp_packet = do
  let total_length = 20 + length udp_packet
  header0 ← ip_header total_length (query_id_of payload) (reply_flags_of payload) 0 src dst
  header ←
      ip_header total_length (query_id_of payload) (reply_flags_of payload) (inet_checksum header0)
        src dst
  ok (header ++ udp_packet)

-- respond is what dnspython makes of the body: the wire form of the response REFUSED to its query.
unfoldable pub dns_reject_payload : (Bytes → Result Bytes) → Bytes → Request → Result Bytes
unfolding udp_reply ip_reply
dns_reject_payload respond payload r = do
  body ← or_key r.body
  wire ← respond body
  dport ← or_key r.dport
  sport ← or_key r.sport
  udp_packet ← udp_reply dport sport r.dst r.src wire
  ip_reply payload r.dst r.src udp_packet
