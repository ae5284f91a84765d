-- ===== src/Tests/Settings.antt =====
-- A configuration like the one that comes with the program.
use qubes_snitch.Prelude.Decimal.{read}
use qubes_snitch.Prelude.Strings.{after, has_char, before, contains, starts_with}
use qubes_snitch.Prelude.{ℕ_discrete, Text-discrete, ◌≡◌, refl, Text, Text_eq, codes, [], ◌∷◌, true}
use qubes_snitch.Prelude.Dict.{get, Dict}
use qubes_snitch.Prelude.Result.{ok}
use qubes_snitch.Config.Settings.Values.{
  string, integer, boolean, fields, single, sequence, Value, leaf, mapping, parse_limit_rate,
}
use qubes_snitch.Config.Settings.{Settings, read_config}
use qubes_snitch.Config.Settings.Accepted.{IsSettings, read_config-IsSettings}

abbrev pub config : Dict Text Value
config =
    (codes "theme", leaf (string (codes "dark")))
    ∷ (codes "notify_send", leaf (boolean true))
    ∷ (codes "notify_send_timeout", leaf (integer 10000))
    ∷ (codes "pending_queue_size", leaf (integer 100))
    ∷ (codes "dns_cache_max_per_source", leaf (integer 1000))
    ∷ (codes "dns_cache_max_global", leaf (integer 5000))
    ∷ (codes "dns_cache_refresh_workers", leaf (integer 8))
    ∷ (codes "default_disposable_vm_name", leaf (string (codes "default-dvm")))
    ∷ (codes "limit_rate", leaf (string (codes "3/minute")))
    ∷ (codes "burst", leaf (integer 5))
    ∷ (codes "log_bucket_max_entries", leaf (integer 1000))
    ∷ (
      codes "prompt_column_widths",
      mapping (
          (codes "queue", single (integer 10))
          ∷ (codes "source", single (integer 18))
          ∷ (codes "target", single (integer 25))
          ∷ (codes "dns", single (integer 42))
          ∷ (codes "service", single (integer 22))
          ∷ []),
    )
    ∷ (
      codes "prompt_protocol_colors",
      mapping (
          (
            codes "encrypted",
            sequence (
                fields ((codes "proto", string (codes "tcp")) ∷ (codes "port", integer 443) ∷ [])
                ∷ []),
          )
          ∷ (codes "unencrypted", sequence [])
          ∷ []),
    )
    ∷ []

abbrev pub settings : Settings
settings = record {
  theme = codes "dark";
  notify_send = true;
  notify_send_timeout = 10000;
  pending_queue_size = 100;
  dns_cache_max_per_source = 1000;
  dns_cache_max_global = 5000;
  dns_cache_refresh_workers = 8;
  default_disposable_vm_name = codes "default-dvm";
  limit_rate = codes "3/minute";
  burst = 5;
  log_bucket_max_entries = 1000;
  prompt_column_widths = record { queue = 10; source = 18; target = 25; dns = 42; service = 22 };
  prompt_protocol_colors = record { encrypted = (codes "tcp", 443) ∷ []; unencrypted = [] };
}

pub config_read : read_config config ≡ ok settings
unfolding read_config Text-discrete get starts_with contains before has_char after
config_read = refl

rate : parse_limit_rate (codes "3/minute") ≡ ok (3, 60)
unfolding parse_limit_rate before ℕ_discrete starts_with has_char Text-discrete after read
rate = refl

read_config-IsSettings_example : IsSettings settings
read_config-IsSettings_example = read_config-IsSettings config settings config_read
