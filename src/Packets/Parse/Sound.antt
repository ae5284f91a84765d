-- ===== src/Packets/Parse/Sound.antt =====
-- Which packets parse_packet takes as clean, against the formats of IPv4, TCP and UDP.
use qubes_snitch.Prelude.{
  ℕ, ◌+◌, ◌*◌, ◌/◌, ◌%◌, ◌≤◌, ◌<◌, ◌≡◌, ◌≢◌, ◌↔◌, ◌⊎◌, refl, none, some, length, [], ℕ_eq, arith,
  inl, inr, Option-cases,
}
use qubes_snitch.Request.{Bytes, Proto, icmp, tcp, udp, other, Request, Malformed, Proto-discrete}
use qubes_snitch.Packets.Parse.{
  byte, u16, address, slice, header_len, total_length, fragment_field, proto_of, header_problem,
  finish_tcp, finish_udp, finish, checked, extracted, parse_packet,
}

-- RFC 791: a version 4 header of five words at least, the length of the whole packet in the
-- header, the reserved flag clear, and no fragment.
pub record IsHeader (p : Bytes) : Type 0 where
  pub five_words : 20 ≤ header_len p
  pub fits : header_len p ≤ length p
  pub whole : total_length p ≡ length p
  pub unreserved : fragment_field p / 0x8000 % 2 ≡ 0
  pub unfragmented : fragment_field p % 0x4000 ≡ 0

abbrev pub tcp_offset : Bytes → ℕ
tcp_offset p = byte p (header_len p + 12) / 16 * 4

abbrev pub udp_length : Bytes → ℕ
udp_length p = u16 p (header_len p + 4)

-- What the transport of each protocol must hold; no other protocol is supported.
abbrev pub IsTransport : Bytes → Proto → Type 0
IsTransport p icmp = header_len p + 4 ≤ length p
IsTransport p tcp =
    (header_len p + 20 ≤ length p)
    × (u16 p (header_len p) ≢ 0)
    × (u16 p (header_len p + 2) ≢ 0)
    × (20 ≤ tcp_offset p)
    × (header_len p + tcp_offset p ≤ length p)
IsTransport p udp =
    (header_len p + 8 ≤ length p)
    × (u16 p (header_len p) ≢ 0)
    × (u16 p (header_len p + 2) ≢ 0)
    × (8 ≤ udp_length p)
    × (header_len p + udp_length p ≡ length p)
IsTransport p (other n) = ⊥

pub record IsWellFormed (p : Bytes) : Type 0 where
  pub header : IsHeader p
  pub transport : IsTransport p (proto_of (byte p 9))

header_problem_sound : (p : Bytes) → header_problem p ≡ none → IsHeader p
unfolding header_problem
header_problem_sound p h = record {
  five_words = ground arith;
  fits = ground arith;
  whole = ground arith;
  unreserved = ground arith;
  unfragmented = ground arith;
}

supported_header : (p : Bytes) → header_problem p ≡ none → (n : ℕ) → proto_of (byte p 9) ≢ other n
unfolding header_problem
supported_header p h n e = ground arith

header_problem_complete :
    (p : Bytes) → IsHeader p → ((n : ℕ) → proto_of (byte p 9) ≢ other n) → header_problem p ≡ none
unfolding header_problem
header_problem_complete p h known = ground (arith, known (byte p 9))

-- A request that finish_tcp gets has no malformed entry yet.
finish_tcp_iff :
    (p : Bytes) (r : Request)
    → r.malformed ≡ none
    → total_length p ≡ length p
    → ((finish_tcp p r).malformed ≡ none) ↔ (
        (header_len p + 20 ≤ length p)
        × (20 ≤ tcp_offset p)
        × (header_len p + tcp_offset p ≤ length p))
unfolding finish_tcp
finish_tcp_iff p r h t = ground arith

finish_udp_iff :
    (p : Bytes) (r : Request)
    → r.malformed ≡ none
    → total_length p ≡ length p
    → ((finish_udp p r).malformed ≡ none)
      ↔ ((8 ≤ udp_length p) × (header_len p + udp_length p ≡ length p))
unfolding finish_udp
finish_udp_iff p r h t = ground arith

module _ (p : Bytes) (r : Request) (clean : r.malformed ≡ none)
    (t : total_length p ≡ length p) where
  finish_sound :
      (k : Proto)
      → r.proto ≡ k
      → ((n : ℕ) → k ≢ other n)
      → (finish p r).malformed ≡ none
      → IsTransport p k
  unfolding finish Proto-discrete
  finish_sound icmp e known h = ground arith
  finish_sound tcp e known h = ground arith
  finish_sound udp e known h = ground arith
  finish_sound (other n) e known h = known n refl

  finish_complete : (k : Proto) → r.proto ≡ k → IsTransport p k → (finish p r).malformed ≡ none
  unfolding finish Proto-discrete
  finish_complete icmp e h = ground arith
  finish_complete tcp e h = ground arith
  finish_complete udp e h = ground arith
  finish_complete (other n) e h = absurd h

checked_iff : (p : Bytes) → ((checked (header_problem p) p).malformed ≡ none) ↔ IsWellFormed p
unfolding checked
checked_iff p = (
  λ h. elim (Option-cases (header_problem p)) [
    | inl e ↦
        let header = header_problem_sound p e in
        record {
          header = header;
          transport =
              finish_sound p (extracted p) refl header.whole (proto_of (byte p 9)) refl
                (supported_header p e) (rw e at h);
        }
    | inr (m, e) ↦ absurd (some-ne (rw e at h))
  ],
  λ w.
      rw (header_problem_complete p w.header (known (proto_of (byte p 9)) w.transport)) (
        finish_complete p (extracted p) refl w.header.whole (proto_of (byte p 9)) refl w.transport),
)
  where
    some-ne : {m : Malformed} → some m ≡ none → ⊥
    some-ne h = cc

    known : (k : Proto) → IsTransport p k → (n : ℕ) → k ≢ other n
    known icmp t n e = cc
    known tcp t n e = cc
    known udp t n e = cc
    known (other m) t n e = t

-- A packet yields a request exactly when it holds a minimal header of version 4.
pub parse_packet-eq-none_iff :
    (p : Bytes) → (parse_packet p ≡ none) ↔ ((length p < 20) ⊎ (byte p 0 / 16 ≢ 4))
unfolding parse_packet
parse_packet-eq-none_iff p = ground arith

parse_packet-inv :
    (p : Bytes) (r : Request) → parse_packet p ≡ some r → checked (header_problem p) p ≡ r
unfolding parse_packet
parse_packet-inv p r h = ground arith

-- A parsed request carries no malformed mark exactly when the packet is well formed: its IPv4
-- header is complete, of the length of the packet, neither reserved nor a fragment, and its
-- transport header is complete with nonzero ports and lengths that agree.
pub parse_packet-IsWellFormed_iff :
    (p : Bytes) (r : Request) → parse_packet p ≡ some r → (r.malformed ≡ none) ↔ IsWellFormed p
parse_packet-IsWellFormed_iff p r h = rw (← parse_packet-inv p r h) (checked_iff p)

-- What a clean request holds of its packet, by protocol.
abbrev pub HasFields : Bytes → Request → Proto → Type 0
HasFields p r icmp = (r.sport ≡ none) × (r.dport ≡ none) × (r.body ≡ some [])
HasFields p r tcp =
    (r.sport ≡ some (u16 p (header_len p)))
    × (r.dport ≡ some (u16 p (header_len p + 2)))
    × (r.body ≡ some [])
HasFields p r udp =
    (r.sport ≡ some (u16 p (header_len p)))
    × (r.dport ≡ some (u16 p (header_len p + 2)))
    × (r.body ≡ some (slice p (header_len p + 8) (length p)))
HasFields p r (other n) = ⊥

finish-proto : (p : Bytes) (r : Request) → (finish p r).proto ≡ r.proto
unfolding finish
finish-proto p r = ground arith

finish-HasFields :
    (p : Bytes) (r : Request) (k : Proto)
    → total_length p ≡ length p
    → r.sport ≡ none
    → r.dport ≡ none
    → r.body ≡ some []
    → r.malformed ≡ none
    → r.proto ≡ k
    → ((n : ℕ) → k ≢ other n)
    → (finish p r).malformed ≡ none
    → HasFields p (finish p r) k
unfolding finish Proto-discrete
finish-HasFields p r icmp t s d b c e known h = ground arith
finish-HasFields p r tcp t s d b c e known h = ground arith
finish-HasFields p r udp t s d b c e known h = ground arith
finish-HasFields p r (other n) t s d b c e known h = known n refl

checked-fields :
    (p : Bytes)
    → (checked (header_problem p) p).malformed ≡ none
    → (header_problem p ≡ none) × (checked (header_problem p) p ≡ finish p (extracted p))
unfolding checked
checked-fields p h = ground arith

finish-addresses :
    (p : Bytes) (r : Request) → ((finish p r).src ≡ r.src) × ((finish p r).dst ≡ r.dst)
unfolding finish
finish-addresses p r = ground arith

finish-fields :
    (p : Bytes)
    → header_problem p ≡ none
    → (finish p (extracted p)).malformed ≡ none
    → HasFields p (finish p (extracted p)) (proto_of (byte p 9))
finish-fields p e h =
    finish-HasFields p (extracted p) (proto_of (byte p 9)) (header_problem_sound p e).whole refl
      refl refl refl refl (supported_header p e) h

-- A clean request has the two addresses and the protocol of the IPv4 header, and for TCP and UDP
-- the two ports; its body is what follows the UDP header, and empty for TCP and ICMP.
pub parse_packet-HasFields :
    (p : Bytes) (r : Request)
    → parse_packet p ≡ some r
    → r.malformed ≡ none
    → (r.src ≡ address p 12)
      × (r.dst ≡ address p 16)
      × (r.proto ≡ proto_of (byte p 9))
      × HasFields p r (proto_of (byte p 9))
parse_packet-HasFields p r h c =
    let same = parse_packet-inv p r h in
    let (e, q) = checked-fields p (rw (← same) at c) in
    rw (← same, q)
      (
        (finish-addresses p (extracted p)).0,
        (finish-addresses p (extracted p)).1,
        finish-proto p (extracted p),
        finish-fields p e (rw q at (rw (← same) at c)),
      )
