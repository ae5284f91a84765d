-- ===== src/Dns/Checksum.antt =====
-- inet_checksum and udp_checksum of qubes_snitch/dns.py.
pub mod Verified
use qubes_snitch.Prelude.{
  ℕ, zero, suc, ◌+◌, ◌-◌, ◌*◌, ◌/◌, ◌%◌, List, [], ◌∷◌, ◌++◌, Bool, length, ltb, ◌==◌, ℕ_eq,
  if◌then◌else◌,
}
use qubes_snitch.Prelude.Result.{Result, ok, err, struct_error, require, ◌>>=◌, ◌>>◌}
use qubes_snitch.Request.{Bytes, Ip}

-- The 16-bit words of the bytes in network order, behind a zero byte if their number is odd.
unfoldable pub words : Bytes → List ℕ
words [] = []
words (a ∷ []) = a * 256 ∷ []
words (a ∷ b ∷ rest) = (a * 256 + b) ∷ words rest

unfoldable pub sum : List ℕ → ℕ
sum [] = 0
sum (x ∷ xs) = x + sum xs

-- while total >> 16: total = (total & 0xffff) + (total >> 16)
unfoldable pub folded : ℕ → ℕ → ℕ
folded zero total = total
folded (suc fuel) total =
    let rest = folded fuel (total % 65536 + total / 65536) in
    if ltb total 65536 then total else rest

-- One round more than the sum has units.
unfoldable pub folded_sum : Bytes → ℕ
unfolding words sum folded
folded_sum bytes = folded (suc (sum (words bytes))) (sum (words bytes))

-- (~total) & 0xffff
unfoldable pub inet_checksum : Bytes → ℕ
unfolding folded_sum
inet_checksum bytes = 65535 - folded_sum bytes % 65536

-- struct.pack("!H", n) of a number that fits.
abbrev pub two_bytes : ℕ → Bytes
two_bytes n = n / 256 ∷ n % 256 ∷ []

-- ipaddress.ip_address(a).packed
abbrev pub packed : Ip → Bytes
packed a = a / 16777216 ∷ a / 65536 % 256 ∷ a / 256 % 256 ∷ a % 256 ∷ []

-- A number that struct.pack writes as "H".
abbrev pub fits : ℕ → Bool
fits n = ltb n 65536

abbrev pub pseudo_header : Ip → Ip → ℕ → Bytes
pseudo_header src dst size = packed src ++ packed dst ++ 0 ∷ 17 ∷ two_bytes size

abbrev pub or_ones : ℕ → ℕ
or_ones checksum = if checksum == 0 then 65535 else checksum

-- Every address of a request is one of IPv4.
unfoldable pub udp_checksum : Ip → Ip → Bytes → Result ℕ
unfolding inet_checksum
udp_checksum src dst udp_packet = do
  require (fits (length udp_packet)) struct_error
  ok (or_ones (inet_checksum (pseudo_header src dst (length udp_packet) ++ udp_packet)))
