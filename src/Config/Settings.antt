-- ===== src/Config/Settings.antt =====
-- read_config of qubes_snitch/config.py, on the YAML value of config.yml as deep as the code looks
-- into it.
pub mod Values
pub mod Bounds
pub mod Accepted
use qubes_snitch.Prelude.{
  ℕ, Text, Text_eq, codes, List, [], ◌∷◌, ◌++◌, Bool, true, false, ◌&&◌, ◌||◌, not, Option, none,
  some, all, any, leb, ◌==◌, ℕ_eq, if◌then◌else◌,
}
use qubes_snitch.Prelude.Dict.{Dict, get, keys, has_key}
use qubes_snitch.Prelude.Strings.{before, after, has_char, is_digits, starts_with}
use qubes_snitch.Prelude.Decimal.{show, read}
use qubes_snitch.Prelude.Result.{
  Result, ok, err, system_exit, key_error, value_error, require, ◌>>=◌, ◌>>◌,
}
use qubes_snitch.Config.DnsRule.{from_option}
use qubes_snitch.Config.Names.{validate_source_name, validate_qubes_vm_name}
use qubes_snitch.Config.Settings.Values.{
  Scalar, Entry, Member, Value, Widths, Colors, same_keys, period_of, parse_limit_rate, number_in,
  text_in, scalar_of, string, integer, boolean, negative, no_scalar, fields, no_fields, single,
  sequence, no_member, leaf, mapping, no_value,
}

pub record Settings : Type 0 where
  pub theme : Text
  pub notify_send : Bool
  pub notify_send_timeout : ℕ
  pub pending_queue_size : ℕ
  pub dns_cache_max_per_source : ℕ
  pub dns_cache_max_global : ℕ
  pub dns_cache_refresh_workers : ℕ
  pub default_disposable_vm_name : Text
  pub limit_rate : Text
  pub burst : ℕ
  pub log_bucket_max_entries : ℕ
  pub prompt_column_widths : Widths
  pub prompt_protocol_colors : Colors

-- One width, by its key and its range.
unfoldable pub width_in : Dict Text Member → Text → ℕ → ℕ → Result ℕ
width_in value key minimum maximum = do
  member ← from_option (get key value) key_error
  width ← scalar_of member
  number_in minimum maximum width

abbrev pub width_keys : List Text
width_keys = codes "queue" ∷ codes "source" ∷ codes "target" ∷ codes "dns" ∷ codes "service" ∷ []

unfoldable pub validate_prompt_column_widths : Value → Result Widths
unfolding width_in
validate_prompt_column_widths (leaf s) = err system_exit
validate_prompt_column_widths no_value = err system_exit
validate_prompt_column_widths (mapping value) = do
  require (same_keys (keys value) width_keys) system_exit
  queue ← width_in value (codes "queue") 1 20
  source ← width_in value (codes "source") 5 80
  target ← width_in value (codes "target") 10 200
  dns ← width_in value (codes "dns") 10 200
  service ← width_in value (codes "service") 5 80
  ok (record { queue = queue; source = source; target = target; dns = dns; service = service })

-- The key of an entry: a protocol and a port.
unfoldable pub color_key : Entry → Result (Text × ℕ)
color_key no_fields = err system_exit
color_key (fields entry) = do
  require (same_keys (keys entry) (codes "proto" ∷ codes "port" ∷ [])) system_exit
  proto ← from_option (get (codes "proto") entry) key_error
  port ← from_option (get (codes "port") entry) key_error
  name ← text_in proto
  require (name == codes "tcp" || name == codes "udp") system_exit
  number ← number_in 1 65535 port
  ok (name, number)

abbrev pub is_used : Text × ℕ → List (Text × ℕ) → Bool
is_used (proto, port) used = any (λ u. u.0 == proto && u.1 == port) used

-- The keys of a group; none may be used before, in this group or in another.
unfoldable pub color_keys : List (Text × ℕ) → List Entry → Result (List (Text × ℕ))
unfolding color_key
color_keys used [] = ok []
color_keys used (entry ∷ entries) = do
  key ← color_key entry
  require (not (is_used key used)) system_exit
  rest ← color_keys (key ∷ used) entries
  ok (key ∷ rest)

unfoldable pub color_group : List (Text × ℕ) → Member → Result (List (Text × ℕ))
unfolding color_keys
color_group used (sequence entries) = color_keys used entries
color_group used (single s) = err system_exit
color_group used no_member = err system_exit

unfoldable pub validate_prompt_protocol_colors : Value → Result Colors
unfolding color_group
validate_prompt_protocol_colors (leaf s) = err system_exit
validate_prompt_protocol_colors no_value = err system_exit
validate_prompt_protocol_colors (mapping value) = do
  require (same_keys (keys value) (codes "encrypted" ∷ codes "unencrypted" ∷ [])) system_exit
  first ← from_option (get (codes "encrypted") value) key_error
  encrypted ← color_group [] first
  second ← from_option (get (codes "unencrypted") value) key_error
  unencrypted ← color_group encrypted second
  ok (record { encrypted = encrypted; unencrypted = unencrypted })

abbrev pub config_keys : List Text
config_keys =
    codes "theme"
    ∷ codes "notify_send"
    ∷ codes "notify_send_timeout"
    ∷ codes "pending_queue_size"
    ∷ codes "dns_cache_max_per_source"
    ∷ codes "dns_cache_max_global"
    ∷ codes "dns_cache_refresh_workers"
    ∷ codes "default_disposable_vm_name"
    ∷ codes "limit_rate"
    ∷ codes "burst"
    ∷ codes "log_bucket_max_entries"
    ∷ codes "prompt_column_widths"
    ∷ codes "prompt_protocol_colors"
    ∷ []

abbrev pub leaf_of : Value → Scalar
leaf_of (leaf s) = s
leaf_of (mapping m) = no_scalar
leaf_of no_value = no_scalar

abbrev pub bool_in : Scalar → Result Bool
bool_in (boolean b) = ok b
bool_in (string t) = err system_exit
bool_in (integer n) = err system_exit
bool_in negative = err system_exit
bool_in no_scalar = err system_exit

abbrev pub no_less_than : ℕ → Scalar → Result ℕ
no_less_than minimum (integer n) = do require (leb minimum n) system_exit; ok n
no_less_than minimum (string t) = err system_exit
no_less_than minimum (boolean b) = err system_exit
no_less_than minimum negative = err system_exit
no_less_than minimum no_scalar = err system_exit

-- except ValueError: raise SystemExit
abbrev pub rate_checked : Result (ℕ × ℕ) → Result (Unit {0})
rate_checked (ok rate) = ok tt
rate_checked (err e) = err system_exit

unfoldable pub theme_in : Scalar → Result Text
theme_in value = do
  theme ← text_in value
  require (theme == codes "dark" || theme == codes "light") system_exit
  ok theme

unfoldable pub dispvm_name_in : Scalar → Result Text
unfolding validate_source_name validate_qubes_vm_name
dispvm_name_in value = do
  name ← text_in value
  validate_source_name name
  validate_qubes_vm_name name (codes "TemplateVM")
  ok name

-- No other value has a "/" in str(value).
unfoldable pub rate_in : Scalar → Result Text
unfolding parse_limit_rate
rate_in value = do rate ← text_in value; rate_checked (parse_limit_rate rate); ok rate

abbrev pub value_at : Dict Text Value → Text → Result Value
value_at config key = from_option (get key config) key_error

abbrev pub leaf_at : Dict Text Value → Text → Result Scalar
leaf_at config key = value_at config key >>= λ v. ok (leaf_of v)

unfoldable pub read_config : Dict Text Value → Result Settings
unfolding theme_in dispvm_name_in rate_in validate_prompt_column_widths
    validate_prompt_protocol_colors
read_config config = do
  require (same_keys (keys config) config_keys) system_exit
  theme ← leaf_at config (codes "theme") >>= theme_in
  notify_send ← leaf_at config (codes "notify_send") >>= bool_in
  notify_send_timeout ← leaf_at config (codes "notify_send_timeout") >>= number_in 1000 3600000
  pending_queue_size ← leaf_at config (codes "pending_queue_size") >>= number_in 1 10000
  max_per_source ← leaf_at config (codes "dns_cache_max_per_source") >>= number_in 1 1000000
  max_global ← leaf_at config (codes "dns_cache_max_global") >>= no_less_than max_per_source
  workers ← leaf_at config (codes "dns_cache_refresh_workers") >>= number_in 1 1024
  default ← leaf_at config (codes "default_disposable_vm_name") >>= dispvm_name_in
  limit_rate ← leaf_at config (codes "limit_rate") >>= rate_in
  burst ← leaf_at config (codes "burst") >>= number_in 1 10000
  max_entries ← leaf_at config (codes "log_bucket_max_entries") >>= number_in 1 1000000
  widths ← value_at config (codes "prompt_column_widths") >>= validate_prompt_column_widths
  colors ← value_at config (codes "prompt_protocol_colors") >>= validate_prompt_protocol_colors
  ok (record {
    theme = theme;
    notify_send = notify_send;
    notify_send_timeout = notify_send_timeout;
    pending_queue_size = pending_queue_size;
    dns_cache_max_per_source = max_per_source;
    dns_cache_max_global = max_global;
    dns_cache_refresh_workers = workers;
    default_disposable_vm_name = default;
    limit_rate = limit_rate;
    burst = burst;
    log_bucket_max_entries = max_entries;
    prompt_column_widths = widths;
    prompt_protocol_colors = colors;
  })
