-- ===== src/Runtime/Start.antt =====
-- The start of the daemon: cleanup_numbered_dispvm_files and load_policy_without_sources of
-- qubes_snitch/policy_runtime.py, refresh_sources_required of qubes_snitch/sources_runtime.py, and
-- main of qubes_snitch/daemon_runtime.py as far as it changes the state.
pub mod Clean
use qubes_snitch.Prelude.{ℕ, Text, Text_eq, codes, List, [], ◌∷◌, Bool, ◌||◌, ◌==◌, if◌then◌else◌}
use qubes_snitch.Prelude.Dict
use qubes_snitch.Prelude.Dict.{Dict, keys}
use qubes_snitch.Prelude.Strings.{starts_with}
use qubes_snitch.Prelude.Result.{Result, ok, err, ◌>>=◌}
use qubes_snitch.Request.{Bytes}
use qubes_snitch.Packets.Ports.{Services}
use qubes_snitch.Config.DnsRule.{RdataTypes}
use qubes_snitch.Config.Resolve.{Resolver}
use qubes_snitch.Config.Names.{is_numbered_dispvm}
use qubes_snitch.Config.RuleFile.{Network}
use qubes_snitch.Config.Rules.{Yaml, load_rules}
use qubes_snitch.Config.Settings.Values.{Value}
use qubes_snitch.Config.Settings.{Settings, read_config}
use qubes_snitch.Config.Sources.{Sources}
use qubes_snitch.Policy.{Rules}
use qubes_snitch.Policy.Append.{RuleFile}
use qubes_snitch.Runtime.{Runtime, cleanup_disposable_rule_entries, ensure_entries, published}

-- The loop of cleanup_numbered_dispvm_files over the names of the files: every name that the
-- expression fits also fits the pattern of glob.
unfoldable pub delete_numbered_dispvm_files : List Text → Runtime → Runtime
delete_numbered_dispvm_files [] rt = rt
delete_numbered_dispvm_files (stem ∷ stems) rt = delete_numbered_dispvm_files stems (
    if is_numbered_dispvm stem
    then record rt { files = Dict.remove stem rt.files; rules = Dict.remove stem rt.rules }
    else rt)

unfoldable pub cleanup_numbered_dispvm_files : Runtime → Runtime
unfolding delete_numbered_dispvm_files
cleanup_numbered_dispvm_files rt = delete_numbered_dispvm_files (keys rt.files) rt

-- Which events of QubesDB make the watcher refresh the sources.
unfoldable pub qubesdb_source_event : Text → Bool
qubesdb_source_event path =
    path == codes "/connected-ips" || starts_with path (codes "/qubes-firewall/")

module _ (services : Services) (types : RdataTypes) (ip_network : Text → Network) (yaml : Yaml)
    (resolver : Resolver) where
  -- The rules of the files that are left; the files stand in the order of their names.
  unfoldable pub with_loaded : Settings → Runtime → Runtime × Result Settings
  with_loaded settings rt =
      elim (load_rules services types ip_network yaml settings.default_disposable_vm_name resolver
        rt.files) [ err e ↦ (rt, err e) | ok rules ↦ (record rt { rules = rules }, ok settings) ]

  -- A configuration that is not accepted ends the daemon before a file is touched.
  unfoldable pub load_policy_without_sources : Dict Text Value → Runtime → Runtime × Result Settings
  unfolding with_loaded cleanup_numbered_dispvm_files
  load_policy_without_sources config rt = elim (read_config config) [
    | err e ↦ (rt, err e)
    | ok settings ↦ with_loaded settings (cleanup_numbered_dispvm_files rt)
  ]

-- read is read_yaml and validate_rule_file on the bytes of a file; load is load_nft.
module _ (read : Bytes → Result RuleFile) (load : Runtime → Result (Unit {0})) (interval : ℕ) where
  -- answer is that of query_dom0_sources; a failure of it ends the daemon after its alert.
  unfoldable pub refresh_sources_required : ℕ → Result Sources → Runtime → Runtime × Result Bool
  unfolding ensure_entries published cleanup_disposable_rule_entries
  refresh_sources_required now (err e) rt = (rt, err e)
  refresh_sources_required now (ok new) rt = published read load interval (
      ensure_entries read load interval (keys new.by_name)
        (cleanup_disposable_rule_entries (record rt { sources = new; last_refresh = now })))

  module _ (services : Services) (types : RdataTypes) (ip_network : Text → Network) (yaml : Yaml)
      (resolver : Resolver) where
    -- After the policy the sources, unless the policy is not accepted.
    unfoldable pub started : ℕ → Result Sources → Runtime × Result Settings → Runtime × Result Bool
    unfolding refresh_sources_required
    started now answer (rt, err e) = (rt, err e)
    started now answer (rt, ok settings) = refresh_sources_required now answer rt

    unfoldable pub start : Dict Text Value → ℕ → Result Sources → Runtime → Runtime × Result Bool
    unfolding started load_policy_without_sources
    start config now answer rt =
        started now answer
          (load_policy_without_sources services types ip_network yaml resolver config rt)
