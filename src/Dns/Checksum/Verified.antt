-- ===== src/Dns/Checksum/Verified.antt =====
-- The checksums of qubes_snitch/dns.py are those that a receiver expects.
use qubes_snitch.Prelude.{
  ℕ, zero, suc, ◌+◌, ◌-◌, ◌/◌, ◌%◌, ◌≤◌, ◌<◌, ◌≡◌, ap, ◌∙◌, ◌==◌, ℕ_eq, if◌then◌else◌, arith,
}
use qubes_snitch.Request.{Bytes}
use qubes_snitch.Dns.Checksum.{words, sum, folded, folded_sum, inet_checksum, or_ones}

-- The remainder modulo 65535, from 1 to 65535, except for 0.
abbrev pub reduced : ℕ → ℕ
reduced total = if total == 0 then 0 else (total - 1) % 65535 + 1

reduced-step : (t : ℕ) → 65536 ≤ t → reduced (t % 65536 + t / 65536) ≡ reduced t
reduced-step t h = ground arith

-- With more rounds than the total has units the loop of the checksum ends by its own test, and
-- its result is the total modulo 65535, with 65535 for a positive multiple of it.
pub folded-reduced :
    (fuel total : ℕ)
    → total < fuel
    → (folded fuel total ≡ reduced total) × (folded fuel total < 65536)
unfolding folded
folded-reduced zero total h = absurd (omega arith)
folded-reduced (suc fuel) total h =
    ground (arith, reduced-step total, folded-reduced fuel (total % 65536 + total / 65536))

verified_sum : (s : ℕ) → reduced (s + (65535 - reduced s % 65536)) ≡ 65535
verified_sum s = ground arith

verified_ones : (s : ℕ) → reduced (s + or_ones (65535 - reduced s % 65536)) ≡ 65535
verified_ones s = ground arith

folded_sum-reduced : (bytes : Bytes) → folded_sum bytes ≡ reduced (sum (words bytes))
unfolding folded_sum
folded_sum-reduced bytes =
    (folded-reduced (suc (sum (words bytes))) (sum (words bytes)) (omega arith)).0

-- A receiver accepts bytes whose sum with the checksum in it is all ones.
abbrev pub IsVerified : Bytes → Type 0
IsVerified bytes = folded_sum bytes ≡ 65535

-- Bytes that add the checksum of others to their sum are accepted.
pub inet_checksum-IsVerified :
    (empty_field filled : Bytes)
    → sum (words filled) ≡ sum (words empty_field) + inet_checksum empty_field
    → IsVerified filled
unfolding inet_checksum
inet_checksum-IsVerified empty_field filled h =
    folded_sum-reduced filled
    ∙ (ap reduced (
          h
          ∙ ap (λ (n : ℕ). sum (words empty_field) + (65535 - n % 65536))
              (folded_sum-reduced empty_field))
        ∙ verified_sum (sum (words empty_field)))

pub or_ones-IsVerified :
    (empty_field filled : Bytes)
    → sum (words filled) ≡ sum (words empty_field) + or_ones (inet_checksum empty_field)
    → IsVerified filled
unfolding inet_checksum
or_ones-IsVerified empty_field filled h =
    folded_sum-reduced filled
    ∙ (ap reduced (
          h
          ∙ ap (λ (n : ℕ). sum (words empty_field) + or_ones (65535 - n % 65536))
              (folded_sum-reduced empty_field))
        ∙ verified_ones (sum (words empty_field)))
