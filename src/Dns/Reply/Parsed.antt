-- ===== src/Dns/Reply/Parsed.antt =====
-- The reply to a rejected question is a packet that the client takes: parse_packet reads it as one
-- from the resolver, and its checksums are right.
use qubes_snitch.Prelude.{
  ℕ, zero, suc, All, ◌+◌, ◌/◌, ◌%◌, ◌≤◌, ◌<◌, ◌≡◌, refl, ap, ◌∙◌, [], ◌∷◌, ◌++◌, none, some, length,
  take, drop, ℕ_eq, ℕ_discrete, arith, inl, inr, Option-cases,
}
use qubes_snitch.Prelude.Result.{Result, ok}
use qubes_snitch.Request.{Bytes, Ip, Request, udp}
use qubes_snitch.Packets.Parse.{byte, u16, parse_packet}
use qubes_snitch.Packets.Parse.Sound.{
  IsWellFormed, parse_packet-eq-none_iff, parse_packet-IsWellFormed_iff, parse_packet-HasFields,
  HasFields,
}
use qubes_snitch.Dns.Checksum.{
  words, sum, two_bytes, packed, pseudo_header, inet_checksum, or_ones, udp_checksum,
}
use qubes_snitch.Dns.Checksum.Verified.{IsVerified, inet_checksum-IsVerified, or_ones-IsVerified}
use qubes_snitch.Dns.Reply.{
  udp_header, ip_header, query_id_of, reply_flags_of, udp_reply, ip_reply, dns_reject_payload,
}

udp_header-ok :
    (sport dport size checksum : ℕ)
    → sport < 65536
    → dport < 65536
    → size < 65536
    → checksum < 65536
    → udp_header sport dport size checksum
      ≡ ok (two_bytes sport ++ two_bytes dport ++ two_bytes size ++ two_bytes checksum)
unfolding udp_header
udp_header-ok sport dport size checksum s d l c = ground arith

ip_header-ok :
    (size id flags checksum : ℕ) (src dst : Ip)
    → size < 65536
    → id < 65536
    → flags < 65536
    → checksum < 65536
    → ip_header size id flags checksum src dst
      ≡ ok (
          (0x45 ∷ 0 ∷ two_bytes size)
          ++ two_bytes id
          ++ two_bytes flags
          ++ (64 ∷ 17 ∷ two_bytes checksum)
          ++ packed src
          ++ packed dst)
unfolding ip_header
ip_header-ok size id flags checksum src dst s i f c = ground arith

inet_checksum-fits : (bytes : Bytes) → inet_checksum bytes < 65536
unfolding inet_checksum
inet_checksum-fits bytes = omega arith

or_ones-fits : (n : ℕ) → n < 65536 → or_ones n < 65536
or_ones-fits n h = ground arith

udp_checksum-ok :
    (src dst : Ip) (size : ℕ) (bytes : Bytes)
    → length bytes ≡ size
    → size < 65536
    → udp_checksum src dst bytes
      ≡ ok (or_ones (inet_checksum (pseudo_header src dst size ++ bytes)))
unfolding udp_checksum
udp_checksum-ok src dst size bytes e h = rw (← e) (ground arith)

-- The UDP part, as the reply has it with a checksum.
abbrev pub udp_with : ℕ → ℕ → Bytes → ℕ → Bytes
udp_with sport dport wire checksum =
    (two_bytes sport ++ two_bytes dport ++ two_bytes (8 + length wire) ++ two_bytes checksum)
    ++ wire

module _ (sport dport : ℕ) (src dst : Ip) (wire : Bytes) where
  abbrev pub udp_bytes : ℕ → Bytes
  udp_bytes checksum = pseudo_header src dst (8 + length wire) ++ udp_with sport dport wire checksum

  abbrev pub udp_sum : ℕ
  udp_sum = or_ones (inet_checksum (udp_bytes 0))

  udp_reply-ok :
      sport < 65536
      → dport < 65536
      → length wire ≤ 65507
      → udp_reply sport dport src dst wire ≡ ok (udp_with sport dport wire udp_sum)
  unfolding udp_reply
  udp_reply-ok s d w =
      let small = or_ones-fits (inet_checksum (udp_bytes 0)) (inet_checksum-fits (udp_bytes 0)) in
      rw
        (
          udp_header-ok sport dport (8 + length wire) 0 s d (omega arith) (omega arith),
          udp_checksum-ok src dst (8 + length wire) (udp_with sport dport wire 0) (omega arith)
              (omega arith),
          udp_header-ok sport dport (8 + length wire) udp_sum s d (omega arith) small,
        )
        refl

  sum-udp_bytes :
      (checksum : ℕ) → sum (words (udp_bytes checksum)) ≡ sum (words (udp_bytes 0)) + checksum
  unfolding words sum
  sum-udp_bytes checksum = omega arith

  udp_sum-IsVerified : IsVerified (udp_bytes udp_sum)
  udp_sum-IsVerified = or_ones-IsVerified (udp_bytes 0) (udp_bytes udp_sum) (sum-udp_bytes udp_sum)

module _ (payload : Bytes) (src dst : Ip) (size : ℕ) where
  abbrev pub header_with : ℕ → Bytes
  header_with checksum =
      (0x45 ∷ 0 ∷ two_bytes size)
      ++ two_bytes (query_id_of payload)
      ++ two_bytes (reply_flags_of payload)
      ++ (64 ∷ 17 ∷ two_bytes checksum)
      ++ packed src
      ++ packed dst

  abbrev pub header_sum : ℕ
  header_sum = inet_checksum (header_with 0)

  sum-header_with :
      (checksum : ℕ) → sum (words (header_with checksum)) ≡ sum (words (header_with 0)) + checksum
  unfolding words sum
  sum-header_with checksum = omega arith

  header_sum-IsVerified : IsVerified (header_with header_sum)
  header_sum-IsVerified =
      inet_checksum-IsVerified (header_with 0) (header_with header_sum) (sum-header_with header_sum)

ip_reply-ok :
    (payload : Bytes) (src dst : Ip) (bytes : Bytes) (size : ℕ)
    → 20 + length bytes ≡ size
    → size < 65536
    → query_id_of payload < 65536
    → ip_reply payload src dst bytes
      ≡ ok (header_with payload src dst size (header_sum payload src dst size) ++ bytes)
unfolding ip_reply
ip_reply-ok payload src dst bytes size e h q =
    rw
      (
        e,
        ip_header-ok size (query_id_of payload) (reply_flags_of payload) 0 src dst h q flags
            (omega arith),
        ip_header-ok size (query_id_of payload) (reply_flags_of payload)
            (header_sum payload src dst size) src dst h q flags
            (inet_checksum-fits (header_with payload src dst size 0)),
      )
      refl
  where
    flags : reply_flags_of payload < 65536
    flags = ground arith

take-length : (bytes : Bytes) → take (length bytes) bytes ≡ bytes
unfolding take
take-length [] = refl
take-length (b ∷ bytes) = ap (◌∷◌ b) (take-length bytes)

-- A packet that a client takes as the answer of a resolver: parse_packet reads a UDP packet without
-- a flaw from src to dst with the ports and the body, and a receiver's sums over the IPv4 header
-- and over the UDP packet behind its pseudo header are all ones.
pub record IsAnswer (src dst : Ip) (sport dport : ℕ) (wire packet : Bytes) : Type 0 where
  pub parsed :
      (r : Request) × (parse_packet packet ≡ some r)
      × (r.malformed ≡ none)
      × (r.src ≡ src)
      × (r.dst ≡ dst)
      × (r.proto ≡ udp)
      × (r.sport ≡ some sport)
      × (r.dport ≡ some dport)
      × (r.body ≡ some wire)
  pub header : IsVerified (take 20 packet)
  pub transport : IsVerified (pseudo_header src dst (8 + length wire) ++ drop 20 packet)

-- The reply with its two checksums.
module _ (payload : Bytes) (src dst : Ip) (sport dport : ℕ) (wire : Bytes) where
  abbrev pub reply : Bytes
  reply =
      header_with payload src dst (28 + length wire) (header_sum payload src dst (28 + length wire))
      ++ udp_with sport dport wire (udp_sum sport dport src dst wire)

  reply-IsWellFormed :
      0 < sport
      → sport < 65536
      → 0 < dport
      → dport < 65536
      → length wire ≤ 65507
      → IsWellFormed reply
  unfolding ℕ_discrete
  reply-IsWellFormed s s' d d' w = record {
    header = record {
      five_words = omega arith;
      fits = omega arith;
      whole = omega arith;
      unreserved = flag;
      unfragmented = unfragmented_flag;
    };
    transport = (omega arith, ground arith, ground arith, omega arith, omega arith);
  }
    where
      flag : u16 reply 6 / 0x8000 % 2 ≡ 0
      flag = ground arith

      unfragmented_flag : u16 reply 6 % 0x4000 ≡ 0
      unfragmented_flag = ground arith

  reply_parses : (r : Request) × (parse_packet reply ≡ some r)
  reply_parses = elim (Option-cases (parse_packet reply)) [
    | inl n ↦ absurd (elim ((parse_packet-eq-none_iff reply).0 n) [
      | inl short ↦ omega arith
      | inr version ↦ version refl
    ])
    | inr found ↦ found
  ]

  module _ (s : 0 < sport) (s' : sport < 65536) (d : 0 < dport) (d' : dport < 65536)
      (w : length wire ≤ 65507) where
    reply-IsAnswer : IsAnswer src dst sport dport wire reply
    unfolding take drop ℕ_discrete
    reply-IsAnswer = record {
      parsed =
          let (r, found) = reply_parses in
          let clean =
            (parse_packet-IsWellFormed_iff reply r found).1 (reply-IsWellFormed s s' d d' w) in
          let (from, to, proto, fields) = parse_packet-HasFields reply r found clean in
          let ports : HasFields reply r udp = fields in
          let (sent, received, body) = ports in
          (
            r,
            found,
            clean,
            from ∙ (omega arith),
            to ∙ (omega arith),
            proto,
            sent ∙ ap some (omega arith),
            received ∙ ap some (omega arith),
            body ∙ ap some (take-length wire),
          );
      header = header_sum-IsVerified payload src dst (28 + length wire);
      transport = udp_sum-IsVerified sport dport src dst wire;
    }

byte-lt : (bytes : Bytes) (i : ℕ) → All (λ b. b < 256) bytes → byte bytes i < 256
byte-lt [] i h = omega arith
byte-lt (b ∷ bytes) zero h = h.0
byte-lt (b ∷ bytes) (suc i) h = byte-lt bytes i h.1

query_id-fits : (payload : Bytes) → All (λ b. b < 256) payload → query_id_of payload < 65536
query_id-fits payload h = ground (arith, byte-lt payload 4 h, byte-lt payload 5 h)

-- The answer to a question with ports, for which dnspython makes a wire form of no more than 65507
-- bytes, is there and is one that the client takes: a flawless UDP packet back from the resolver,
-- from the port that was asked to the port that asked, with the wire form as its body, and with
-- the checksums of both headers right.
pub dns_reject_payload-IsAnswer :
    (respond : Bytes → Result Bytes) (payload : Bytes) (r : Request) (body wire : Bytes)
    (sport dport : ℕ)
    → All (λ b. b < 256) payload
    → r.body ≡ some body
    → respond body ≡ ok wire
    → length wire ≤ 65507
    → r.sport ≡ some sport
    → 0 < sport
    → sport < 65536
    → r.dport ≡ some dport
    → 0 < dport
    → dport < 65536
    → (packet : Bytes) × (dns_reject_payload respond payload r ≡ ok packet)
      × IsAnswer r.dst r.src dport sport wire packet
unfolding dns_reject_payload
dns_reject_payload-IsAnswer respond payload r body wire sport dport bytes b a w p s s' q d d' = (
  reply payload r.dst r.src dport sport wire,
  rw
      (
        b,
        a,
        q,
        p,
        udp_reply-ok dport sport r.dst r.src wire d' s' w,
        ip_reply-ok payload r.dst r.src
            (udp_with dport sport wire (udp_sum dport sport r.dst r.src wire)) (28 + length wire)
            (omega arith) (omega arith) (query_id-fits payload bytes),
      )
      refl,
  reply-IsAnswer payload r.dst r.src dport sport wire d d' s s' w,
)
