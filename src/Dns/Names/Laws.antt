-- ===== src/Dns/Names/Laws.antt =====
-- Supported names are in normal form, and none of them reads as a wildcard.
use qubes_snitch.Prelude.{
  ℕ, ◌≡◌, refl, Text, Text_eq, codes, List, [], ◌∷◌, Bool, true, false, ◌&&◌, ◌||◌, all, leb, arith,
}
use qubes_snitch.Prelude.Strings.{
  lower, lower_char, rstrip, split, starts_with, is_nonempty, rstrip_of_split, all-split,
}
use qubes_snitch.Dns.Names.{
  dot, is_inner, is_label, is_service_label, are_labels, are_srv_labels, normalize_dns_name,
  live_dns_qname_supported,
}

-- The characters of a supported name.
abbrev is_name_char : ℕ → Bool
is_name_char c = is_inner c || leb b'_' c && leb c b'_' || leb dot c && leb c dot

all_weaken :
    (f g : ℕ → Bool)
    → ((c : ℕ) → f c ≡ true → g c ≡ true)
    → (s : Text) → all f s ≡ true
    → all g s ≡ true
all_weaken f g h [] k = refl
all_weaken f g h (c ∷ s) k = ground (arith, h c, all_weaken f g h s)

inner-name_char : (c : ℕ) → is_inner c ≡ true → is_name_char c ≡ true
inner-name_char c h = ground arith

-- Only the shape matters to what follows: a nonempty text of name characters.
abbrev is_plain : Text → Bool
is_plain l = is_nonempty l && all is_name_char l

is_label-plain : (l : Text) → is_label l ≡ true → is_plain l ≡ true
unfolding is_label
is_label-plain [] h = h
is_label-plain (c ∷ s) h = ground (arith, all_weaken is_inner is_name_char inner-name_char s)

is_service_label-plain : (l : Text) → is_service_label l ≡ true → is_plain l ≡ true
unfolding is_service_label
is_service_label-plain [] h = h
is_service_label-plain (c ∷ s) h = ground (arith, is_label-plain s)

all_labels-plain : (ls : List Text) → all is_label ls ≡ true → all is_plain ls ≡ true
all_labels-plain [] h = refl
all_labels-plain (l ∷ ls) h = ground (arith, is_label-plain l, all_labels-plain ls)

are_labels-plain : (ls : List Text) → are_labels ls ≡ true → all is_plain ls ≡ true
unfolding are_labels
are_labels-plain ls h = ground (arith, all_labels-plain ls)

are_srv_labels-plain : (ls : List Text) → are_srv_labels ls ≡ true → all is_plain ls ≡ true
unfolding are_srv_labels
are_srv_labels-plain [] h = refl
are_srv_labels-plain (a ∷ []) h = cc
are_srv_labels-plain (a ∷ b ∷ ls) h =
    ground (arith, is_service_label-plain a, is_service_label-plain b, are_labels-plain ls)

plain_nonempty : (ls : List Text) → all is_plain ls ≡ true → all is_nonempty ls ≡ true
plain_nonempty [] h = refl
plain_nonempty (l ∷ ls) h = ground (arith, plain_nonempty ls)

plain_chars : (ls : List Text) → all is_plain ls ≡ true → all (all is_name_char) ls ≡ true
plain_chars [] h = refl
plain_chars (l ∷ ls) h = ground (arith, plain_chars ls)

supported-plain :
    (q t : Text) → live_dns_qname_supported q t ≡ true → all is_plain (split dot q) ≡ true
unfolding live_dns_qname_supported
supported-plain q t h =
    ground (arith, are_labels-plain (split dot q), are_srv_labels-plain (split dot q))

lower_name : (s : Text) → all is_name_char s ≡ true → lower s ≡ s
unfolding lower_char
lower_name [] h = refl
lower_name (c ∷ s) h = ground (arith, lower_name s)

pub supported-lower : (q t : Text) → live_dns_qname_supported q t ≡ true → lower q ≡ q
supported-lower q t h =
    lower_name q
      (all-split is_name_char dot q refl (plain_chars (split dot q) (supported-plain q t h)))

pub supported-rstrip : (q t : Text) → live_dns_qname_supported q t ≡ true → rstrip dot q ≡ q
supported-rstrip q t h =
    rstrip_of_split dot q (plain_nonempty (split dot q) (supported-plain q t h))

-- A supported name is its own normal form.
pub normalize_dns_name_of_supported :
    (q t : Text) → live_dns_qname_supported q t ≡ true → normalize_dns_name q ≡ q
unfolding normalize_dns_name
normalize_dns_name_of_supported q t h = rw (supported-rstrip q t h) (supported-lower q t h)

no_star : (s : Text) → all is_name_char s ≡ true → starts_with s (codes "*.") ≡ false
unfolding starts_with
no_star [] h = refl
no_star (c ∷ s) h = ground arith

-- A supported name is no wildcard.
pub supported-not-wildcard :
    (q t : Text) → live_dns_qname_supported q t ≡ true → starts_with q (codes "*.") ≡ false
supported-not-wildcard q t h =
    no_star q
      (all-split is_name_char dot q refl (plain_chars (split dot q) (supported-plain q t h)))
