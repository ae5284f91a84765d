-- ===== src/Config/Settings/Values.antt =====
-- The values of config.yml, qubes_snitch/config.py: scalars with their checks, and rates.
use qubes_snitch.Prelude.{
  ℕ, Text, Text_eq, codes, List, Bool, ◌&&◌, not, Option, none, some, all, leb, ◌==◌, ℕ_eq,
  if◌then◌else◌,
}
use qubes_snitch.Prelude.Dict.{Dict, has_key}
use qubes_snitch.Prelude.Strings.{before, after, has_char, is_digits, starts_with}
use qubes_snitch.Prelude.Decimal.{read}
use qubes_snitch.Prelude.Result.{Result, ok, err, system_exit, value_error, require, ◌>>=◌, ◌>>◌}
use qubes_snitch.Config.DnsRule.{from_option}

-- A value without parts; a number below 0 is negative.
pub data Scalar : Type 0 where
  string : Text → Scalar
  integer : ℕ → Scalar
  boolean : Bool → Scalar
  negative no_scalar : Scalar

-- An entry of a list of protocols.
pub data Entry : Type 0 where
  fields : Dict Text Scalar → Entry
  no_fields : Entry

-- A value of an inner mapping, and one of config.yml.
pub data Member : Type 0 where
  single : Scalar → Member
  sequence : List Entry → Member
  no_member : Member

pub data Value : Type 0 where
  leaf : Scalar → Value
  mapping : Dict Text Member → Value
  no_value : Value

pub record Widths : Type 0 where
  pub queue : ℕ
  pub source : ℕ
  pub target : ℕ
  pub dns : ℕ
  pub service : ℕ

-- The pairs of a protocol and a port.
pub record Colors : Type 0 where
  pub encrypted : List (Text × ℕ)
  pub unencrypted : List (Text × ℕ)

-- set(d) == expected
abbrev pub same_keys : List Text → List Text → Bool
same_keys ks expected = all (λ k. has_key k expected) ks && all (λ k. has_key k ks) expected

-- The seconds of a unit of a rate.
unfoldable pub period_of : Text → Option ℕ
period_of unit =
    if unit == codes "second"
    then some 1
    else if unit == codes "minute"
    then some 60
    else if unit == codes "hour"
    then some 3600
    else if unit == codes "day"
    then some 86400
    else none

-- ([1-9][0-9]*)/(second|minute|hour|day)
unfoldable pub parse_limit_rate : Text → Result (ℕ × ℕ)
unfolding period_of
parse_limit_rate text = do
  let number = before b'/' text
  require (is_digits number && not (starts_with number (codes "0")) && has_char b'/' text)
      value_error
  period ← from_option (period_of (after b'/' text)) value_error
  ok (read number, period)

abbrev pub number_in : ℕ → ℕ → Scalar → Result ℕ
number_in minimum maximum (integer n) = do
  require (leb minimum n && leb n maximum) system_exit
  ok n
number_in minimum maximum (string t) = err system_exit
number_in minimum maximum (boolean b) = err system_exit
number_in minimum maximum negative = err system_exit
number_in minimum maximum no_scalar = err system_exit

abbrev pub text_in : Scalar → Result Text
text_in (string t) = ok t
text_in (integer n) = err system_exit
text_in (boolean b) = err system_exit
text_in negative = err system_exit
text_in no_scalar = err system_exit

abbrev pub scalar_of : Member → Result Scalar
scalar_of (single s) = ok s
scalar_of (sequence es) = ok no_scalar
scalar_of no_member = ok no_scalar
