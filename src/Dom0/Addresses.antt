-- ===== src/Dom0/Addresses.antt =====
-- The addresses that sources.py of dom0 computes.
use qubes_snitch.Prelude.{ℕ, ◌≤◌, ◌<◌, ◌≡◌, refl, sym, ap, ◌∙◌, Text, [], ◌∷◌, ◌++◌, false, arith}
use qubes_snitch.Prelude.Strings.{before, after, has_char, before-append, after-append}
use qubes_snitch.Prelude.Decimal.{show, read, read-show, show-digits, has_char-digits}
use qubes_snitch.Dom0.{octets, ip_from_id}

-- The numbers of an address are bytes, for the ids whose quotient fits; the second is never 0
-- where the first is not.
pub octets-lt : (value : ℕ) → value ≤ 65024 → ((octets value).0 < 256) × ((octets value).1 < 256)
unfolding octets
octets-lt value h = ground arith

octets-injective : (a b : ℕ) → (octets a).0 ≡ (octets b).0 → (octets a).1 ≡ (octets b).1 → a ≡ b
unfolding octets
octets-injective a b h k = ground arith

drop_prefix : (prefix a b : Text) → prefix ++ a ≡ prefix ++ b → a ≡ b
drop_prefix [] a b h = h
drop_prefix (c ∷ prefix) a b h = drop_prefix prefix a b (cc)

no_dot : (n : ℕ) → has_char b'.' (show n) ≡ false
no_dot n = has_char-digits b'.' (show n) refl (show-digits n)

show-injective : (a b : ℕ) → show a ≡ show b → a ≡ b
show-injective a b h = sym (read-show a) ∙ (ap read h ∙ read-show b)

-- Under one prefix two ids never have the same address.
pub ip_from_id-injective :
    (prefix : Text) (a b : ℕ) → ip_from_id prefix a ≡ ip_from_id prefix b → a ≡ b
unfolding ip_from_id
ip_from_id-injective prefix a b h =
    let dotted = drop_prefix prefix _ _ h in
    let tail = tail_eq dotted in
    octets-injective a b
      (show-injective (octets a).0 (octets b).0 (
        sym (before-append b'.' (show (octets a).0) (show (octets a).1) (no_dot (octets a).0))
        ∙ (ap (before b'.') tail
            ∙ before-append b'.' (show (octets b).0) (show (octets b).1) (no_dot (octets b).0))))
      (show-injective (octets a).1 (octets b).1 (
        sym (after-append b'.' (show (octets a).0) (show (octets a).1) (no_dot (octets a).0))
        ∙ (ap (after b'.') tail
            ∙ after-append b'.' (show (octets b).0) (show (octets b).1) (no_dot (octets b).0))))
  where
    tail_eq : {c : ℕ} {s t : Text} → c ∷ s ≡ c ∷ t → s ≡ t
    tail_eq q = cc
