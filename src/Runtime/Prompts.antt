-- ===== src/Runtime/Prompts.antt =====
-- handle_cli_connection of qubes_snitch/daemon_runtime.py: the callbacks that it gives to the queue,
-- with prompt_source_current of qubes_snitch/policy_runtime.py.
pub mod Stale
use qubes_snitch.Prelude.{
  Text, Text_eq, Bool, true, false, ◌&&◌, any, not, Option, none, some, ◌==◌, if◌then◌else◌,
}
use qubes_snitch.Prelude.Dict.{get}
use qubes_snitch.Prelude.Result.{Result, ok, err, system_exit}
use qubes_snitch.Request.{Request, ip_text}
use qubes_snitch.Packets.Ports.{Services}
use qubes_snitch.Config.DnsRule.{RdataTypes}
use qubes_snitch.Config.Resolve.{Resolver}
use qubes_snitch.Config.RuleFile.{Network}
use qubes_snitch.Config.Sources.{Sources}
use qubes_snitch.Queue.{Key, Queue, Decision}
use qubes_snitch.Answers
use qubes_snitch.Answers.{Callbacks}
use qubes_snitch.Runtime.{Runtime}
use qubes_snitch.Runtime.Saving.{Disk, append_rule}

-- The source is known and has the address of the prompt; src is never empty.
unfoldable pub prompt_source_current : Sources → Request → Bool
prompt_source_current sources r = elim (get r.source sources.by_name) [
  | none ↦ false
  | some ips ↦ any (λ ip. ip == ip_text r.src) ips
]

-- The sources are those before and after the lookups, and enriched is what these gave.
unfoldable pub enrich_request : Sources → Sources → Request → Option Request → Option Request
unfolding prompt_source_current
enrich_request before after r enriched =
    if not (prompt_source_current before r)
    then none
    else if not (prompt_source_current after r)
    then none
    else enriched

module _ (services : Services) (types : RdataTypes) (ip_network : Text → Network)
    (resolver : Resolver) (disk : Disk) (load : Runtime → Result (Unit {0})) where
  abbrev swapped : Runtime × Result (Unit {0}) → Result (Unit {0}) × Runtime
  swapped (rt, result) = (result, rt)

  -- A stale prompt writes no rule.
  unfoldable pub save_rule : Request → Decision → Runtime → Result (Unit {0}) × Runtime
  unfolding prompt_source_current append_rule
  save_rule r d rt =
      if not (prompt_source_current rt.sources r)
      then (ok tt, rt)
      else swapped (append_rule services types ip_network resolver disk r d rt)

  unfoldable pub runtime_calls : Callbacks Runtime
  unfolding save_rule
  runtime_calls = record { append_rule = save_rule; load_nft = λ rt. (load rt, rt) }

  -- Any exception ends the daemon, after its alert.
  abbrev pub or_fatal : Result (Unit {0}) → Result (Unit {0})
  or_fatal (ok u) = ok u
  or_fatal (err e) = err system_exit

  abbrev pub with_queue : Result (Unit {0}) × Queue × Runtime → Result (Unit {0}) × Runtime
  with_queue (result, q, rt) = (or_fatal result, record rt { queue = q })

  -- The state is the one that the thread meets after the exchange with the CLI.
  unfoldable pub handle_cli_connection :
      Key → Request → Option Request → Option Text → Runtime → Result (Unit {0}) × Runtime
  unfolding runtime_calls Answers.handle_cli_connection
  handle_cli_connection key r enriched line rt =
      with_queue
        (Answers.handle_cli_connection runtime_calls types resolver key r enriched line rt.queue rt)
