-- ===== src/Runtime/Prompts/Stale.antt =====
-- A prompt whose source has vanished or has another address changes no rule.
use qubes_snitch.Prelude.{◌≡◌, refl, ap, Text, Text_eq, false, Option, none, some, arith}
use qubes_snitch.Prelude.Result.{Result}
use qubes_snitch.Request.{Request}
use qubes_snitch.Packets.Ports.{Services}
use qubes_snitch.Config.DnsRule.{RdataTypes}
use qubes_snitch.Config.Resolve.{Resolver}
use qubes_snitch.Config.RuleFile.{Network}
use qubes_snitch.Config.Sources.{Sources}
use qubes_snitch.Queue.{Key, Decision}
use qubes_snitch.Answers.Kept.{prepare_hostname_decision-source, handle_cli_connection-kept}
use qubes_snitch.Runtime.{Runtime}
use qubes_snitch.Runtime.Saving.{Disk}
use qubes_snitch.Runtime.Prompts.{
  prompt_source_current, save_rule, runtime_calls, handle_cli_connection,
}

-- Whether a prompt is current depends on its source and its address alone.
prompt_source_current-same :
    (sources : Sources) (r x : Request)
    → x.source ≡ r.source
    → x.src ≡ r.src
    → prompt_source_current sources r ≡ false
    → prompt_source_current sources x ≡ false
unfolding prompt_source_current
prompt_source_current-same sources r x p q h = rw (p, q) h

-- The source of the prompt is gone, or has another address.
abbrev pub IsStale : Sources → Option Request → Type 0
IsStale sources none = Unit
IsStale sources (some r) = prompt_source_current sources r ≡ false

module _ (services : Services) (types : RdataTypes) (ip_network : Text → Network)
    (resolver : Resolver) (disk : Disk) (load : Runtime → Result (Unit {0})) (rt : Runtime) where
  save_rule_stale :
      (r : Request) (d : Decision)
      → prompt_source_current rt.sources r ≡ false
      → (save_rule services types ip_network resolver disk load r d rt).1 ≡ rt
  unfolding save_rule
  save_rule_stale r d h = rw h refl

  stale_at :
      (enriched : Option Request) (e : Request)
      → IsStale rt.sources enriched
      → enriched ≡ some e
      → prompt_source_current rt.sources e ≡ false
  stale_at none e h q = absurd (cc)
  stale_at (some r) e h q = ground arith

  -- An answer to a prompt whose source is gone, or has another address when the answer comes,
  -- changes nothing but the queue, whatever the CLI sends.
  pub handle_cli_connection-stale :
      (key : Key) (r : Request) (enriched : Option Request) (line : Option Text)
      → IsStale rt.sources enriched
      → (handle_cli_connection services types ip_network resolver disk load key r enriched line
          rt).1
        ≡ record rt {
          queue =
              (handle_cli_connection services types ip_network resolver disk load key r enriched
                line rt).1.queue;
        }
  unfolding handle_cli_connection runtime_calls
  handle_cli_connection-stale key r enriched line h =
      ap
        (λ (w : Runtime). record w {
          queue =
              (handle_cli_connection services types ip_network resolver disk load key r enriched
                line rt).1.queue;
        })
        (handle_cli_connection-kept (runtime_calls services types ip_network resolver disk load)
          types resolver rt refl key r enriched line rt.queue
          (λ e q d x p.
            let (s, a) = prepare_hostname_decision-source types resolver e x d p in
            save_rule_stale x d
              (prompt_source_current-same rt.sources e x s a (stale_at enriched e h q))))
