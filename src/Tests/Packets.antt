-- ===== src/Tests/Packets.antt =====
-- A TCP packet, and ports.
use qubes_snitch.Prelude.{
  Text-discrete, ℕ_discrete, ℕ, ◌≡◌, ◌≢◌, ◌↔◌, ◌<◌, refl, ap, Text_eq, codes, [], ◌∷◌, ◌++◌, true,
  false, none, some, ◌==◌, if◌then◌else◌, ==_ne, arith,
}
use qubes_snitch.Prelude.Strings.{has_char}
use qubes_snitch.Prelude.Decimal.{show}
use qubes_snitch.Prelude.Result.{ok}
use qubes_snitch.Request.{Proto-discrete, Bytes, tcp, udp, Request}
use qubes_snitch.Packets.Parse.{extracted, parse_packet}
use qubes_snitch.Packets.Parse.Sound.{IsWellFormed, parse_packet-IsWellFormed_iff}
use qubes_snitch.Packets.Ports.{Services, text, normalize_port, port_text}
use qubes_snitch.Packets.Ports.Normal.{IsServices, range-has_char, normalize_port-port_text}

-- 10.137.0.9:40000 opens a connection to 1.1.1.1:443.
abbrev pub tcp_packet : Bytes
tcp_packet =
    0x45 ∷ 0 ∷ 0 ∷ 40 ∷ 0 ∷ 1 ∷ 0x40 ∷ 0 ∷ 64 ∷ 6 ∷ 0 ∷ 0 ∷ 10 ∷ 137 ∷ 0 ∷ 9 ∷ 1 ∷ 1 ∷ 1 ∷ 1 ∷ 156
    ∷ 64 ∷ 1 ∷ 187 ∷ 0 ∷ 0 ∷ 0 ∷ 0 ∷ 0 ∷ 0 ∷ 0 ∷ 0 ∷ 0x50 ∷ 2 ∷ 0 ∷ 0 ∷ 0 ∷ 0 ∷ 0 ∷ 0 ∷ []

abbrev pub tcp_request : Request
tcp_request = record (extracted tcp_packet) { sport = some 40000; dport = some 443 }

parses : parse_packet tcp_packet ≡ some tcp_request
unfolding parse_packet ℕ_discrete Proto-discrete
parses = refl

parse_packet-IsWellFormed_iff_example : (tcp_request.malformed ≡ none) ↔ IsWellFormed tcp_packet
parse_packet-IsWellFormed_iff_example = parse_packet-IsWellFormed_iff tcp_packet tcp_request parses

abbrev pub https_services : Services
https_services t k = if t == codes "https" then some 443 else none

no_dash : (a b : ℕ) → show a ++ b'-' ∷ show b ≢ codes "https"
unfolding has_char ℕ_discrete
no_dash a b e = absurd (clash (range-has_char a b) (ap (has_char b'-') e))
  where
    clash :
        has_char b'-' (show a ++ b'-' ∷ show b) ≡ true
        → has_char b'-' (show a ++ b'-' ∷ show b) ≡ false
        → ⊥
    clash h k = cc

pub https_services-IsServices : IsServices https_services
https_services-IsServices = record {
  in_range = λ t k n e. ground arith;
  no_range = λ a b k. rw (==_ne (show a ++ b'-' ∷ show b) (codes "https") (no_dash a b)) refl;
}

names_443 : normalize_port https_services (text (codes "https")) tcp ≡ ok (codes "443")
unfolding normalize_port Text-discrete show
names_443 = refl

small_port : (n : ℕ) → some 443 ≡ some n → n < 65536
small_port n e = ground arith

normalize_port-port_text_example :
    normalize_port https_services (text (port_text (some 443))) udp ≡ ok (port_text (some 443))
normalize_port-port_text_example =
    normalize_port-port_text https_services udp (some 443) https_services-IsServices small_port
