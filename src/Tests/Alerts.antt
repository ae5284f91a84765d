-- ===== src/Tests/Alerts.antt =====
-- A name with an escape, and two rejects of one key.
use qubes_snitch.Prelude.{
  ℕ, ℕ_eq, ◌+◌, ◌-◌, ◌*◌, ◌≤◌, ◌≡◌, refl, Text, codes, List, [], ◌∷◌, ◌++◌, true, some, length, ltb,
  ◌==◌, all, arith,
}
use qubes_snitch.Prelude.Dict.{remove, Dict, get}
use qubes_snitch.Display.{Unicode, safe_text}
use qubes_snitch.Display.Safe.{IsUnicode, is_shown, safe_text-all-is_shown}
use qubes_snitch.Alerts.Buckets.{Limits, Bucket, log_allowed}
use qubes_snitch.Alerts.Buckets.Rate.{Trace, IsStaying, times_allowed, times_allowed-le}
use qubes_snitch.Alerts.Lines.{Log, LogKey, LogKey_eq, LogKey-discrete, Means}
use qubes_snitch.Alerts.Lines.Clean
use qubes_snitch.Alerts.Lines.Clean.{IsClean, LogCall, after_all, after_all-IsClean}
use qubes_snitch.Tests.Policy.{request}

abbrev unicode : Unicode
unicode = record { is_other = λ c. ltb c 32; is_space = λ c. c == 32 }

unicode-IsUnicode : IsUnicode unicode
unicode-IsUnicode = record { printable = λ c h. ground arith }

abbrev name : Text
name = codes "a" ++ (27 ∷ codes "[2Jb")

safe_text-all-is_shown_example :
    (length (safe_text unicode 160 name) ≤ 160)
    × (all (is_shown unicode) (safe_text unicode 160 name) ≡ true)
safe_text-all-is_shown_example =
    safe_text-all-is_shown unicode unicode-IsUnicode 160 name (omega arith)

-- Three in a minute, and five at once.
abbrev limits : Limits
limits = record { count = 3; period = 60; burst = 5; max_entries = 2 }

abbrev table : Dict LogKey Bucket
table = ((codes "work" ∷ []), record { tokens = 60; updated = 10 }) ∷ []

abbrev trace : Trace limits (codes "work" ∷ [])
trace = (10, codes "work" ∷ []) ∷ (15, codes "work" ∷ []) ∷ []

found : get (codes "work" ∷ []) table ≡ some (record { tokens = 60; updated = 10 })
unfolding get LogKey-discrete
found = refl

staying : IsStaying limits (codes "work" ∷ []) trace table
unfolding log_allowed remove LogKey-discrete
staying = (refl, (refl, tt))

times_allowed-le_example :
    times_allowed limits (codes "work" ∷ []) trace table * 60 ≤ 60 + (30 - 10) * 3
times_allowed-le_example =
    times_allowed-le limits (codes "work" ∷ []) trace table (record { tokens = 60; updated = 10 })
      30 (refl, tt) found (omega arith, (omega arith, omega arith)) staying

abbrev means : Means
means = record { unicode = unicode; limits = limits; notify_send = true; pops_up = λ t. true }

abbrev no_log : Log
no_log = record { buckets = []; syslog = []; shown = [] }

abbrev log_calls : List (ℕ × LogCall means unicode-IsUnicode)
log_calls = (3, Clean.prompt request) ∷ (4, Clean.alert (codes "dns" ∷ []) name) ∷ []

no_log-IsClean : IsClean means unicode-IsUnicode no_log
no_log-IsClean = record { lines = tt; pops = tt }

after_all-IsClean_example :
    IsClean means unicode-IsUnicode (after_all means unicode-IsUnicode log_calls no_log)
after_all-IsClean_example =
    after_all-IsClean means unicode-IsUnicode log_calls no_log no_log-IsClean
