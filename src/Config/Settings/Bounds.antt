-- ===== src/Config/Settings/Bounds.antt =====
-- What holds of every configuration that read_config accepts.
use mathlib.Core.Path.{subst}
use qubes_snitch.Prelude.{ℕ, ◌≤◌, ◌≡◌, Text, Text_eq, codes, ℕ_eq, arith}
use qubes_snitch.Prelude.Dict.{Dict, get, keys}
use qubes_snitch.Prelude.Result.{
  Result, ok, system_exit, key_error, require, ◌>>=◌, >>=-eq-ok, ok-injective,
}
use qubes_snitch.Config.DnsRule.{from_option}
use qubes_snitch.Config.Settings.Values.{
  Scalar, string, integer, boolean, negative, no_scalar, Member, Value, leaf, mapping, no_value,
  Widths, same_keys, number_in, scalar_of,
}
use qubes_snitch.Config.Settings.{width_in, width_keys, validate_prompt_column_widths, no_less_than}

-- A number from one to another.
abbrev pub InRange : ℕ → ℕ → ℕ → Type 0
InRange minimum maximum n = (minimum ≤ n) × (n ≤ maximum)

pub number_in-InRange :
    (minimum maximum : ℕ) (s : Scalar) (n : ℕ)
    → number_in minimum maximum s ≡ ok n
    → InRange minimum maximum n
number_in-InRange minimum maximum (integer k) n h = ground arith
number_in-InRange minimum maximum (string t) n h = absurd (cc)
number_in-InRange minimum maximum (boolean b) n h = absurd (cc)
number_in-InRange minimum maximum negative n h = absurd (cc)
number_in-InRange minimum maximum no_scalar n h = absurd (cc)

pub no_less_than-le :
    (minimum : ℕ) (s : Scalar) (n : ℕ) → no_less_than minimum s ≡ ok n → minimum ≤ n
no_less_than-le minimum (integer k) n h = ground arith
no_less_than-le minimum (string t) n h = absurd (cc)
no_less_than-le minimum (boolean b) n h = absurd (cc)
no_less_than-le minimum negative n h = absurd (cc)
no_less_than-le minimum no_scalar n h = absurd (cc)

module _ {ℓ κ} {A : Type ℓ} {B : Type κ} where
  -- What the second of two calls gives holds of their result.
  pub second-holds {μ} :
      (P : B → Type μ) (first : Result A) (then_ : A → Result B) {b : B}
      → ((a : A) → then_ a ≡ ok b → P b)
      → (first >>= then_) ≡ ok b
      → P b
  second-holds P first then_ each h = let (a, _, h') = >>=-eq-ok first then_ h in each a h'

width_in-InRange :
    (value : Dict Text Member) (key : Text) (minimum maximum n : ℕ)
    → width_in value key minimum maximum ≡ ok n
    → InRange minimum maximum n
unfolding width_in
width_in-InRange value key minimum maximum n =
    second-holds (InRange minimum maximum) (from_option (get key value) key_error) _ (λ m.
      second-holds (InRange minimum maximum) (scalar_of m) _
        (λ s. number_in-InRange minimum maximum s n))

-- The ranges of the columns.
pub record IsWidths (w : Widths) : Type 0 where
  pub queue : InRange 1 20 w.queue
  pub source : InRange 5 80 w.source
  pub target : InRange 10 200 w.target
  pub dns : InRange 10 200 w.dns
  pub service : InRange 5 80 w.service

pub validate_prompt_column_widths-IsWidths :
    (value : Value) (w : Widths) → validate_prompt_column_widths value ≡ ok w → IsWidths w
unfolding validate_prompt_column_widths
validate_prompt_column_widths-IsWidths (leaf s) w h = absurd (cc)
validate_prompt_column_widths-IsWidths no_value w h = absurd (cc)
validate_prompt_column_widths-IsWidths (mapping value) w h =
    let (_, _, h1) = >>=-eq-ok (require (same_keys (keys value) width_keys) system_exit) _ h in
    let (queue, q, h2) = >>=-eq-ok (width_in value (codes "queue") 1 20) _ h1 in
    let (source, s, h3) = >>=-eq-ok (width_in value (codes "source") 5 80) _ h2 in
    let (target, t, h4) = >>=-eq-ok (width_in value (codes "target") 10 200) _ h3 in
    let (dns, d, h5) = >>=-eq-ok (width_in value (codes "dns") 10 200) _ h4 in
    let (service, v, h6) = >>=-eq-ok (width_in value (codes "service") 5 80) _ h5 in
    subst IsWidths (ok-injective h6) (record {
      queue = width_in-InRange value (codes "queue") 1 20 queue q;
      source = width_in-InRange value (codes "source") 5 80 source s;
      target = width_in-InRange value (codes "target") 10 200 target t;
      dns = width_in-InRange value (codes "dns") 10 200 dns d;
      service = width_in-InRange value (codes "service") 5 80 service v;
    })
