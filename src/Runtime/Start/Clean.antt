-- ===== src/Runtime/Start/Clean.antt =====
-- Nothing of a numbered disposable survives a restart of the daemon.
use mathlib.Core.Path.{subst}
use qubes_snitch.Prelude.{
  ℕ, ◌≡◌, refl, sym, ap, ◌∙◌, inl, inr, Text, Text_eq, Text-discrete, List, [], ◌∷◌, Bool, true,
  false, ◌&&◌, not, ◌==◌, ==_refl, if◌then◌else◌, arith, Bool-cases,
}
use qubes_snitch.Prelude.Dict
use qubes_snitch.Prelude.Dict.{Dict, keys, get, has, has_key, IsUnique, get-none_of_has}
use qubes_snitch.Prelude.Result.{Result, ok, err}
use qubes_snitch.Request.{Bytes}
use qubes_snitch.Packets.Ports.{Services}
use qubes_snitch.Config.DnsRule.{RdataTypes}
use qubes_snitch.Config.Resolve.{Resolver}
use qubes_snitch.Config.Names.{is_numbered_dispvm}
use qubes_snitch.Config.RuleFile.{Network}
use qubes_snitch.Config.Rules.{Yaml, load_rules}
use qubes_snitch.Config.Rules.Keys.{keys-load_rules}
use qubes_snitch.Config.Settings.Values.{Value}
use qubes_snitch.Config.Settings.{Settings, read_config}
use qubes_snitch.Config.Sources.{Sources, no_sources}
use qubes_snitch.Policy.{Rules}
use qubes_snitch.Policy.Append.{RuleFile}
use qubes_snitch.Queue.{empty}
use qubes_snitch.Queue.Invariant.{empty-IsQueue}
use qubes_snitch.Runtime.{
  Runtime, has_vanished, forget_all, cleanup_disposable_rule_entries, ensure_entries,
}
use qubes_snitch.Runtime.Forgotten.{
  IsFresh, IsForgotten, IsTidy, has-remove, remove-IsUnique, forget_all-stays,
}
use qubes_snitch.Runtime.Refreshed.{ensure-IsForgotten, published-same}
use qubes_snitch.Runtime.Start.{
  delete_numbered_dispvm_files, cleanup_numbered_dispvm_files, with_loaded,
  load_policy_without_sources, refresh_sources_required, started, start,
}

-- The state of a new process, with the files that it finds.
abbrev pub initial : Dict Text Bytes → Runtime
initial files = record {
  sources = no_sources;
  rules = [];
  files = files;
  queue = empty;
  hints = record { responses = []; qnames = [] };
  last_refresh = 0;
}

-- A process that has not seen a packet yet.
record IsIdle (rt : Runtime) : Type 0 where
  queue : rt.queue ≡ empty
  responses : rt.hints.responses ≡ []
  qnames : rt.hints.qnames ≡ []
  files : IsUnique (keys rt.files)

delete_one-has :
    (x stem : Text) (b : Bool) (rt : Runtime)
    → IsIdle rt
    → has x
        (if b
          then record rt { files = Dict.remove stem rt.files; rules = Dict.remove stem rt.rules }
          else rt).files
      ≡ (not (b && stem == x) && has x rt.files)
delete_one-has x stem true rt v = has-remove x stem rt.files v.files
delete_one-has x stem false rt v = refl

delete_one-IsIdle :
    (stem : Text) (b : Bool) (rt : Runtime)
    → IsIdle rt
    → IsIdle (
        if b
        then record rt { files = Dict.remove stem rt.files; rules = Dict.remove stem rt.rules }
        else rt)
delete_one-IsIdle stem true rt v = record {
  queue = v.queue;
  responses = v.responses;
  qnames = v.qnames;
  files = remove-IsUnique stem rt.files v.files;
}
delete_one-IsIdle stem false rt v = v

delete-IsIdle :
    (stems : List Text) (rt : Runtime) → IsIdle rt → IsIdle (delete_numbered_dispvm_files stems rt)
unfolding delete_numbered_dispvm_files
delete-IsIdle [] rt v = v
delete-IsIdle (stem ∷ stems) rt v =
    delete-IsIdle stems _ (delete_one-IsIdle stem (is_numbered_dispvm stem) rt v)

delete_keeps_none :
    (x : Text) (stems : List Text) (rt : Runtime)
    → IsIdle rt
    → has x rt.files ≡ false
    → has x (delete_numbered_dispvm_files stems rt).files ≡ false
unfolding delete_numbered_dispvm_files
delete_keeps_none x [] rt v h = h
delete_keeps_none x (stem ∷ stems) rt v h =
    delete_keeps_none x stems _ (delete_one-IsIdle stem (is_numbered_dispvm stem) rt v)
      (delete_one-has x stem (is_numbered_dispvm stem) rt v ∙ ground arith)

-- The file of a numbered disposable is deleted when the loop meets it.
delete_removes :
    (x : Text) (stems : List Text) (rt : Runtime)
    → IsIdle rt
    → is_numbered_dispvm x ≡ true
    → has_key x stems ≡ true
    → has x (delete_numbered_dispvm_files stems rt).files ≡ false
unfolding delete_numbered_dispvm_files
delete_removes x [] rt v n h = absurd (cc)
delete_removes x (stem ∷ stems) rt v n h = elim (Text-discrete stem x) [
  | yes e ↦
      delete_keeps_none x stems _ (delete_one-IsIdle stem (is_numbered_dispvm stem) rt v)
        (delete_one-has x stem (is_numbered_dispvm stem) rt v ∙ (rw (e, n, ==_refl x) refl))
  | no m ↦
      delete_removes x stems _ (delete_one-IsIdle stem (is_numbered_dispvm stem) rt v) n
        (ground arith)
]

cleanup-IsIdle : (rt : Runtime) → IsIdle rt → IsIdle (cleanup_numbered_dispvm_files rt)
unfolding cleanup_numbered_dispvm_files
cleanup-IsIdle rt v = delete-IsIdle (keys rt.files) rt v

cleanup-no_file :
    (x : Text) (rt : Runtime)
    → IsIdle rt
    → is_numbered_dispvm x ≡ true
    → has x (cleanup_numbered_dispvm_files rt).files ≡ false
unfolding cleanup_numbered_dispvm_files
cleanup-no_file x rt v n = elim (Bool-cases (has x rt.files)) [
  | inl t ↦ delete_removes x (keys rt.files) rt v n t
  | inr f ↦ delete_keeps_none x (keys rt.files) rt v f
]

-- Nothing is left of a source after the policy is loaded.
loaded-IsForgotten :
    (x : Text) (rt : Runtime)
    → IsIdle rt
    → has x rt.files ≡ false
    → (rules : Rules) → keys rules ≡ keys rt.files
    → IsForgotten x (record rt { rules = rules })
loaded-IsForgotten x rt v n rules same = record {
  rules = subst IsFresh (sym (get-none_of_has x rules (ap (has_key x) same ∙ n))) tt;
  files = n;
  pending = rw v.queue refl;
  responses = rw v.responses refl;
  qnames = rw v.qnames refl;
}

loaded-IsTidy :
    (rt : Runtime) (rules : Rules)
    → IsIdle rt
    → keys rules ≡ keys rt.files
    → IsTidy 1 (record rt { rules = rules })
loaded-IsTidy rt rules v same = record {
  rules = subst IsUnique (sym same) v.files;
  files = v.files;
  queue = rw v.queue (empty-IsQueue 1);
}

module _ (read : Bytes → Result RuleFile) (load : Runtime → Result (Unit {0})) (interval : ℕ)
    (services : Services) (types : RdataTypes) (ip_network : Text → Network) (yaml : Yaml)
    (resolver : Resolver) (x : Text) where
  refreshed-IsForgotten :
      (now : ℕ) (new : Sources) (rt rt' : Runtime)
      → IsTidy 1 rt
      → IsForgotten x rt
      → refresh_sources_required read load interval now (ok new) rt ≡ (rt', ok true)
      → IsForgotten x rt'
  unfolding refresh_sources_required cleanup_disposable_rule_entries
  refreshed-IsForgotten now new rt rt' v f h =
      let seen : Runtime = record rt { sources = new; last_refresh = now } in
      let clean = forget_all (has_vanished new) (keys rt.rules) seen in
      let ensured = ensure_entries read load interval (keys new.by_name) clean in
      subst (IsForgotten x)
        (sym (published-same read load interval x ensured)
          ∙ ap (λ (p : Runtime × Result Bool). p.0) h)
        (ensure-IsForgotten read load interval x (keys new.by_name) clean (
          forget_all-stays 1 (has_vanished new) x (keys rt.rules) seen
            (record { rules = v.rules; files = v.files; queue = v.queue })
            (record {
              rules = f.rules;
              files = f.files;
              pending = f.pending;
              responses = f.responses;
              qnames = f.qnames;
            })))

  by_answer :
      (now : ℕ) (answer : Result Sources) (rt rt' : Runtime)
      → IsTidy 1 rt
      → IsForgotten x rt
      → refresh_sources_required read load interval now answer rt ≡ (rt', ok true)
      → IsForgotten x rt'
  unfolding refresh_sources_required
  by_answer now (err e) rt rt' v f h = absurd (cc)
  by_answer now (ok new) rt rt' v f h = refreshed-IsForgotten now new rt rt' v f h

  loaded-start :
      (now : ℕ) (answer : Result Sources) (settings : Settings) (rt rt' : Runtime)
      (o : Result Rules)
      → IsIdle rt
      → has x rt.files ≡ false
      → ((rules : Rules) → o ≡ ok rules → keys rules ≡ keys rt.files)
      → started read load interval services types ip_network yaml resolver now answer
          (elim o [ err e ↦ (rt, err e) | ok rules ↦ (record rt { rules = rules }, ok settings) ])
        ≡ (rt', ok true)
      → IsForgotten x rt'
  unfolding started
  loaded-start now answer settings rt rt' (err e) v n same h = absurd (cc)
  loaded-start now answer settings rt rt' (ok rules) v n same h =
      by_answer now answer (record rt { rules = rules }) rt'
        (loaded-IsTidy rt rules v (same rules refl))
        (loaded-IsForgotten x rt v n rules (same rules refl)) h

  configured-start :
      (now : ℕ) (answer : Result Sources) (o : Result Settings) (rt rt' : Runtime)
      → IsIdle rt
      → is_numbered_dispvm x ≡ true
      → started read load interval services types ip_network yaml resolver now answer (elim o [
        | err e ↦ (rt, err e)
        | ok settings ↦
            with_loaded services types ip_network yaml resolver settings
              (cleanup_numbered_dispvm_files rt)
      ])
        ≡ (rt', ok true)
      → IsForgotten x rt'
  unfolding started with_loaded
  configured-start now answer (err e) rt rt' v n h = absurd (cc)
  configured-start now answer (ok settings) rt rt' v n h =
      let rt1 = cleanup_numbered_dispvm_files rt in
      loaded-start now answer settings rt1 rt'
        (load_rules services types ip_network yaml settings.default_disposable_vm_name resolver
          rt1.files)
        (cleanup-IsIdle rt v) (cleanup-no_file x rt v n)
        (λ rules e.
          keys-load_rules services types ip_network yaml settings.default_disposable_vm_name
            resolver rt1.files rules e)
        h

  -- However the daemon starts, once it has published its first table there is nothing of a
  -- numbered disposable: no rule, no file, no question and no cached name, whatever files earlier
  -- processes left. No two of the files have one name.
  pub start-IsForgotten :
      (config : Dict Text Value) (now : ℕ) (answer : Result Sources) (files : Dict Text Bytes)
      (rt' : Runtime)
      → IsUnique (keys files)
      → is_numbered_dispvm x ≡ true
      → start read load interval services types ip_network yaml resolver config now answer
          (initial files)
        ≡ (rt', ok true)
      → IsForgotten x rt'
  unfolding start load_policy_without_sources
  start-IsForgotten config now answer files rt' u n =
      configured-start now answer (read_config config) (initial files) rt'
        (record { queue = refl; responses = refl; qnames = refl; files = u }) n
