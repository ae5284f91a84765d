-- ===== src/Runtime.antt =====
-- The refresh of the sources in qubes_snitch/sources_runtime.py, with the cleanups of
-- qubes_snitch/policy_runtime.py.
pub mod Forgotten
pub mod Saving
pub mod Refreshed
pub mod Start
pub mod Prompts
use qubes_snitch.Prelude.{
  ℕ, ◌-◌, Text, Text_eq, codes, List, [], ◌∷◌, Eq, Bool, true, false, ◌&&◌, ◌||◌, not, Option, none,
  some, all, any, ltb, leb, length, take, drop, ◌==◌, if◌then◌else◌,
}
use qubes_snitch.Prelude.Dict
use qubes_snitch.Prelude.Dict.{Dict, keys, get, put, has}
use qubes_snitch.Prelude.Strings.{starts_with, is_digits}
use qubes_snitch.Prelude.Result.{Result, ok, err, system_exit, ◌>>=◌}
use qubes_snitch.Request.{Bytes, Request}
use qubes_snitch.Config.Names.{is_numbered_dispvm}
use qubes_snitch.Config.Sources.{Sources}
use qubes_snitch.Policy.{SourceRules, Rules}
use qubes_snitch.Policy.Append.{RuleFile, no_rules}
use qubes_snitch.Hints.{Cache}
use qubes_snitch.Queue.{Queue, remove_pending_for_source}
use qubes_snitch.Alerts.Lines.{LogKey_eq}

-- The state that the refresh changes: the sources, RULES, the files of RULES_DIR by their names
-- without ".yml", the queue, and DNS_RESPONSE_CACHE with DNS_QNAME_CACHE, whose keys begin with a
-- source.
pub record Runtime : Type 0 where
  pub sources : Sources
  pub rules : Rules
  pub files : Dict Text Bytes
  pub queue : Queue
  pub hints : Cache
  pub last_refresh : ℕ

-- The entries of a cache that are not of a source.
unfoldable pub without_source {ℓ κ} :
    {K : Type ℓ} {V : Type κ} → Text → Dict (Text × K) V → Dict (Text × K) V
without_source source [] = []
without_source source (((s, k), v) ∷ cache) =
    let rest = without_source source cache in if s == source then rest else ((s, k), v) ∷ rest

unfoldable pub without_hints : Text → Cache → Cache
unfolding without_source
without_hints source cache = record {
  responses = without_source source cache.responses;
  qnames = without_source source cache.qnames;
}

-- What a cleanup does for one source.
unfoldable pub forget : Text → Runtime → Runtime
unfolding without_hints
forget source rt = record rt {
  rules = Dict.remove source rt.rules;
  queue = remove_pending_for_source source rt.queue;
  hints = without_hints source rt.hints;
  files = Dict.remove source rt.files;
}

-- The loop of a cleanup over the sources that it goes through.
unfoldable pub forget_all : (Text → Bool) → List Text → Runtime → Runtime
unfolding forget
forget_all test [] rt = rt
forget_all test (source ∷ rest) rt =
    forget_all test rest (if test source then forget source rt else rt)

abbrev pub has_vanished : Sources → Text → Bool
has_vanished sources source = not (has source sources.by_name) && is_numbered_dispvm source

-- The addresses are others than before.
abbrev pub differs : Option (List Text) → Option (List Text) → Bool
differs none new = false
differs (some old) none = false
differs (some old) (some new) = not (new == old)

abbrev pub is_reused : Dict Text (List Text) → Sources → Text → Bool
is_reused old sources source =
    is_numbered_dispvm source && differs (get source old) (get source sources.by_name)

unfoldable pub cleanup_disposable_rule_entries : Runtime → Runtime
unfolding forget_all
cleanup_disposable_rule_entries rt = forget_all (has_vanished rt.sources) (keys rt.rules) rt

unfoldable pub cleanup_reused_numbered_dispvm_entries : Dict Text (List Text) → Runtime → Runtime
unfolding forget_all
cleanup_reused_numbered_dispvm_entries old rt = forget_all (is_reused old rt.sources) (keys old) rt

-- Both cleanups, in their order, under the new sources.
unfoldable pub cleaned_up : Sources → Runtime → Runtime
unfolding cleanup_reused_numbered_dispvm_entries cleanup_disposable_rule_entries
cleaned_up new rt =
    cleanup_disposable_rule_entries
      (cleanup_reused_numbered_dispvm_entries rt.sources.by_name (record rt { sources = new }))

-- The equality of two dicts: the same keys with the same values, in any order.
abbrev pub has_entry {ℓ} : {V : Type ℓ} ⦃e : Eq V⦄ → V → Option V → Bool
has_entry v none = false
has_entry v (some w) = w == v

abbrev pub is_part {ℓ} : {V : Type ℓ} ⦃e : Eq V⦄ → Dict Text V → Dict Text V → Bool
is_part [] n = true
is_part ((k, v) ∷ m) n = has_entry v (get k n) && is_part m n

abbrev pub same_dict {ℓ} : {V : Type ℓ} ⦃e : Eq V⦄ → Dict Text V → Dict Text V → Bool
same_dict m n = is_part m n && is_part n m

unfoldable pub same_sources : Sources → Sources → Bool
same_sources s t =
    same_dict s.by_name t.by_name
    && same_dict s.by_ip t.by_ip
    && same_dict s.labels t.labels
    && same_dict s.display_by_ip t.display_by_ip

-- The rest of a loop, unless what came before raised.
abbrev unless_raised :
    (Runtime → Runtime × Result (Unit {0}))
    → Runtime × Result (Unit {0})
    → Runtime × Result (Unit {0})
unless_raised rest (rt, ok u) = rest rt
unless_raised rest (rt, err e) = (rt, err e)

-- read is read_yaml and validate_rule_file on the bytes of a file; load is load_nft.
module _ (read : Bytes → Result RuleFile) (load : Runtime → Result (Unit {0})) (interval : ℕ) where
  -- ensure_rule_entry: an entry without rules where there is no file.
  unfoldable pub entered_file : Text → Runtime → Result RuleFile → Runtime × Result (Unit {0})
  entered_file source rt (err e) = (rt, err e)
  entered_file source rt (ok file) = (
    record rt { rules = put source (record { ip = file.rules4; dns = file.dns }) rt.rules },
    ok tt,
  )

  unfoldable pub entered_source : Text → Runtime → Option Bytes → Runtime × Result (Unit {0})
  unfolding entered_file
  entered_source source rt none = (record rt { rules = put source no_rules rt.rules }, ok tt)
  entered_source source rt (some raw) = entered_file source rt (read raw)

  -- ensure_all_known_rule_entries over the sources that are left.
  unfoldable pub ensure_entries : List Text → Runtime → Runtime × Result (Unit {0})
  unfolding entered_source
  ensure_entries [] rt = (rt, ok tt)
  ensure_entries (source ∷ rest) rt =
      unless_raised (ensure_entries rest) (
        if has source rt.rules then (rt, ok tt) else entered_source source rt (get source rt.files))

  -- The last steps under the lock: the entries, and the table of the packet filter.
  unfoldable pub published : Runtime × Result (Unit {0}) → Runtime × Result Bool
  published (rt, err e) = (rt, err e)
  published (rt, ok u) = (rt, (load rt >>= λ w. ok true))

  refreshed : ℕ → Sources → Runtime → Runtime × Result Bool
  unfolding cleaned_up ensure_entries published same_sources
  refreshed now new rt =
      let seen : Runtime = record rt { last_refresh = now } in
      if same_sources new rt.sources
      then (seen, ok false)
      else published (ensure_entries (keys new.by_name) (cleaned_up new seen))

  -- answer is that of query_dom0_sources; a failure of it ends the daemon after its alert.
  unfoldable pub refresh_sources_and_nft :
      ℕ → Bool → Result Sources → Runtime → Runtime × Result Bool
  unfolding refreshed
  refresh_sources_and_nft now force answer rt =
      if not force && ltb (now - rt.last_refresh) interval
      then (rt, ok false)
      else elim answer [ err e ↦ (rt, err e) | ok new ↦ refreshed now new rt ]
