-- ===== src/Dns/Names.antt =====
-- The DNS names and query types that qubes_snitch/dns.py supports.
pub mod Laws
use qubes_snitch.Prelude.{
  ℕ, suc, Text, Text_eq, Text-discrete, codes, List, [], ◌∷◌, length, Bool, true, false, ◌&&◌, ◌||◌,
  all, any, ltb, leb, ◌==◌, if◌then◌else◌,
}
use qubes_snitch.Prelude.Strings.{lower, rstrip, split, starts_with, ends_with}

abbrev pub dot : ℕ
dot = b'.'

-- [a-z0-9]
abbrev pub is_alnum : ℕ → Bool
is_alnum c = leb b'a' c && leb c b'z' || leb b'0' c && leb c b'9'

-- [a-z0-9-]
abbrev pub is_inner : ℕ → Bool
is_inner c = is_alnum c || leb b'-' c && leb c b'-'

-- The last character of a nonempty text, given its first one.
unfoldable pub last : ℕ → Text → ℕ
last c [] = c
last c (d ∷ s) = last d s

-- [a-z0-9]([a-z0-9-]{0,61}[a-z0-9])? of the two regular expressions.
unfoldable pub is_label : Text → Bool
is_label [] = false
is_label (c ∷ s) = is_alnum c && leb (length s) 62 && all is_inner s && is_alnum (last c s)

-- _ and a label.
unfoldable pub is_service_label : Text → Bool
unfolding is_label
is_service_label [] = false
is_service_label (c ∷ s) = leb b'_' c && leb c b'_' && is_label s

-- LIVE_DNS_QNAME_RE on the parts of the name: two labels at least.
unfoldable pub are_labels : List Text → Bool
unfolding is_label
are_labels labels = leb 2 (length labels) && all is_label labels

-- LIVE_DNS_SRV_QNAME_RE on the parts of the name.
unfoldable pub are_srv_labels : List Text → Bool
unfolding is_service_label are_labels
are_srv_labels (a ∷ b ∷ labels) = is_service_label a && is_service_label b && are_labels labels
are_srv_labels (a ∷ []) = false
are_srv_labels [] = false

abbrev pub live_dns_qname_re : Text → Bool
live_dns_qname_re s = are_labels (split dot s)

abbrev pub live_dns_srv_qname_re : Text → Bool
live_dns_srv_qname_re s = are_srv_labels (split dot s)

abbrev pub max_live_dns_body_bytes : ℕ
max_live_dns_body_bytes = 1232

abbrev pub supported_dns_qtypes : List Text
supported_dns_qtypes =
    codes "A"
    ∷ codes "CNAME"
    ∷ codes "MX"
    ∷ codes "TXT"
    ∷ codes "SRV"
    ∷ codes "PTR"
    ∷ codes "CAA"
    ∷ codes "NS"
    ∷ codes "SOA"
    ∷ codes "HTTPS"
    ∷ codes "SVCB"
    ∷ codes "NAPTR"
    ∷ codes "DS"
    ∷ codes "DNSKEY"
    ∷ codes "RRSIG"
    ∷ codes "NSEC"
    ∷ codes "NSEC3"
    ∷ []

abbrev pub is_supported : Text → Bool
is_supported t = any (λ u. u == t) supported_dns_qtypes

unfoldable pub dns_qname_is_ipv6_reverse : Text → Bool
dns_qname_is_ipv6_reverse q = q == codes "ip6.arpa" || ends_with q (codes ".ip6.arpa")

-- str(name).rstrip(".").lower()
unfoldable pub normalize_dns_name : Text → Text
normalize_dns_name s = lower (rstrip dot s)

-- A label that no policy takes: too long, or the punycode of an IDN label.
abbrev pub is_bad_label : Text → Bool
is_bad_label l = ltb 63 (length l) || starts_with l (codes "xn--")

unfoldable pub live_dns_qname_supported : Text → Text → Bool
live_dns_qname_supported q t =
    if dns_qname_is_ipv6_reverse q || ltb 253 (length q) || any is_bad_label (split dot q)
    then false
    else if t == codes "SRV"
    then live_dns_srv_qname_re q
    else live_dns_qname_re q
