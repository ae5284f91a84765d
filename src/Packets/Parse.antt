-- ===== src/Packets/Parse.antt =====
-- parse_packet of qubes_snitch/packets.py, over the bytes of the packet.
pub mod Sound
use qubes_snitch.Prelude.{
  ℕ, ◌+◌, ◌*◌, ◌/◌, ◌%◌, Option, none, some, Bool, true, false, ◌&&◌, ◌||◌, not, [], length,
  get_elem?, take, drop, ltb, ◌==◌, ℕ_eq, if◌then◌else◌,
}
use mathlib.Core.Option
use qubes_snitch.Request.{
  Bytes, Ip, Proto, icmp, tcp, udp, other, has_ports, Request, net, Malformed, bad_header_length,
  total_length_mismatch, reserved_flag, fragments_unsupported, unsupported_protocol,
  missing_icmp_header, missing_ports, missing_udp_header, source_port_zero, destination_port_zero,
  missing_tcp_header, bad_tcp_offset, bad_udp_length, Proto_eq,
}

-- payload[i]; the program reads it only where the length is known to reach beyond i.
abbrev pub byte : Bytes → ℕ → ℕ
byte p i = Option.get_or (get_elem? p i) 0

-- struct.unpack("!H", payload[i:i + 2])[0]
abbrev pub u16 : Bytes → ℕ → ℕ
u16 p i = byte p i * 256 + byte p (i + 1)

-- The address of payload[i:i + 4], as the number that inet_ntop prints in dotted form.
abbrev pub address : Bytes → ℕ → Ip
address p i = u16 p i * 65536 + u16 p (i + 2)

-- payload[i:j]
abbrev pub slice : Bytes → ℕ → ℕ → Bytes
slice p i j = drop i (take j p)

abbrev pub header_len : Bytes → ℕ
header_len p = byte p 0 % 16 * 4

abbrev pub total_length : Bytes → ℕ
total_length p = u16 p 2

abbrev pub fragment_field : Bytes → ℕ
fragment_field p = u16 p 6

-- {1: "icmp", 6: "tcp", 17: "udp"}.get(n, str(n))
abbrev pub proto_of : ℕ → Proto
proto_of n = if n == 1 then icmp else if n == 6 then tcp else if n == 17 then udp else other n

abbrev pub is_known : Proto → Bool
is_known (other n) = false
is_known icmp = true
is_known tcp = true
is_known udp = true

-- The checks of the IPv4 header. x & 0x8000 is the bit of weight 0x8000, x & 0x3fff what is below
-- the two upper bits.
unfoldable pub header_problem : Bytes → Option Malformed
header_problem p =
    if ltb (header_len p) 20 || ltb (length p) (header_len p)
    then some bad_header_length
    else if not (total_length p == length p)
    then some total_length_mismatch
    else if not (fragment_field p / 0x8000 % 2 == 0)
    then some reserved_flag
    else if not (fragment_field p % 0x4000 == 0)
    then some fragments_unsupported
    else if not (is_known (proto_of (byte p 9)))
    then some unsupported_protocol
    else none

fail : Request → Malformed → Request
fail r m = record r { malformed = some m }

-- The TCP part, once both ports are known to be there.
finish_tcp : Bytes → Request → Request
unfolding fail
finish_tcp p r =
    if ltb (length p) (header_len p + 20)
    then fail r missing_tcp_header
    else (let offset = byte p (header_len p + 12) / 16 * 4 in
        if ltb offset 20 || ltb (total_length p) (header_len p + offset)
        then fail r bad_tcp_offset
        else r)

-- The UDP part: the UDP length must agree with the total length.
finish_udp : Bytes → Request → Request
unfolding fail
finish_udp p r =
    let udp_length = u16 p (header_len p + 4) in
    if ltb udp_length 8 || not (header_len p + udp_length == total_length p)
    then fail r bad_udp_length
    else record r { body = some (slice p (header_len p + 8) (header_len p + udp_length)) }

abbrev is_udp : Proto → Bool
is_udp udp = true
is_udp tcp = false
is_udp icmp = false
is_udp (other n) = false

-- The part that TCP and UDP share, and then the part of each.
finish_ports : Bytes → Request → Request
unfolding fail finish_tcp finish_udp
finish_ports p r =
    if ltb (length p) (header_len p + 4)
    then fail r missing_ports
    else if is_udp r.proto && ltb (length p) (header_len p + 8)
    then fail r missing_udp_header
    else (let sport = u16 p (header_len p) in
        let dport = u16 p (header_len p + 2) in
        let r' : Request = record r { sport = some sport; dport = some dport } in
        if sport == 0
        then fail r' source_port_zero
        else if dport == 0
        then fail r' destination_port_zero
        else if is_udp r.proto
        then finish_udp p r'
        else finish_tcp p r')

-- What follows a header without a problem.
finish : Bytes → Request → Request
unfolding fail finish_ports
finish p r =
    if r.proto == icmp && ltb (length p) (header_len p + 4)
    then fail r missing_icmp_header
    else if has_ports r.proto
    then finish_ports p r
    else r

abbrev pub extracted : Bytes → Request
extracted p = record {
  src = address p 12;
  dst = address p 16;
  proto = proto_of (byte p 9);
  sport = none;
  dport = none;
  body = some [];
  malformed = none;
  kind = net;
  source = [];
  display_source = [];
  source_label = none;
  host = none;
  resolved_dests = [];
  prompt_id = none;
  remaining = 0;
}

checked : Option Malformed → Bytes → Request
unfolding fail finish
checked (some m) p = fail (extracted p) m
checked none p = finish p (extracted p)

unfoldable pub parse_packet : Bytes → Option Request
unfolding header_problem checked
parse_packet p =
    if ltb (length p) 20
    then none
    else if not (byte p 0 / 16 == 4)
    then none
    else some (checked (header_problem p) p)
