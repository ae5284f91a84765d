-- ===== src/Tests/Start.antt =====
-- A start with the file of an old disposable, and an answer for one that has moved.
use qubes_snitch.Prelude.Decimal.{show}
use qubes_snitch.Config.Names.{is_numbered_dispvm}
use qubes_snitch.Config.Rules.{load_rules}
use qubes_snitch.Prelude.Strings.{after, has_char, before, contains, starts_with}
use qubes_snitch.Prelude.Dict.{put, remove, get}
use qubes_snitch.Config.Settings.{read_config}
use qubes_snitch.Prelude.{
  drop, ◌≡◌, refl, Text_eq, Text-discrete, codes, [], ◌∷◌, true, false, Option, none, some,
}
use qubes_snitch.Prelude.Result.{ok}
use qubes_snitch.Request.{ip_text, Bytes, Request}
use qubes_snitch.Config.RuleFile.{Document}
use qubes_snitch.Policy.Append.{no_rules}
use qubes_snitch.Queue.{empty, question_key}
use qubes_snitch.Runtime.{Runtime}
use qubes_snitch.Runtime.Forgotten.{IsForgotten}
use qubes_snitch.Runtime.Start.{start}
use qubes_snitch.Runtime.Start.Clean.{initial, start-IsForgotten}
use qubes_snitch.Runtime.Prompts.{prompt_source_current, handle_cli_connection}
use qubes_snitch.Runtime.Prompts.Stale.{handle_cli_connection-stale}
use qubes_snitch.Tests.Packets.{https_services}
use qubes_snitch.Tests.Dns.{listed_types, two_addresses}
use qubes_snitch.Tests.Policy.{request}
use qubes_snitch.Tests.Settings.{config}
use qubes_snitch.Tests.Saving.{ip_network, disk}
use qubes_snitch.Tests.Runtime.{disp12, sources_at, read, load, numbered}

abbrev no_yaml : Bytes → Option Document
no_yaml raw = none

abbrev running : Runtime
running = record {
  sources = sources_at (codes "10.138.0.4");
  rules = (disp12, no_rules) ∷ [];
  files = [];
  queue = empty;
  hints = record { responses = []; qnames = [] };
  last_refresh = 3;
}

starts :
    start read load 5 https_services listed_types ip_network no_yaml two_addresses config 3
      (ok (sources_at (codes "10.138.0.4")))
      (initial ((disp12, codes "rules4:") ∷ []))
    ≡ (running, ok true)
unfolding start read_config Text-discrete get starts_with contains before has_char after load_rules
    is_numbered_dispvm drop remove put
starts = refl

start-IsForgotten_example : IsForgotten disp12 running
start-IsForgotten_example =
    start-IsForgotten read load 5 https_services listed_types ip_network no_yaml two_addresses
      disp12 config 3 (ok (sources_at (codes "10.138.0.4"))) ((disp12, codes "rules4:") ∷ [])
      running (refl, tt) numbered starts

abbrev prompt : Request
prompt = record request { source = disp12; src = 0x0a8a0003; body = none; prompt_id = some 1 }

moved : prompt_source_current running.sources prompt ≡ false
unfolding prompt_source_current get Text-discrete ip_text show
moved = refl

handle_cli_connection-stale_example :
    (handle_cli_connection https_services listed_types ip_network two_addresses disk load
      (question_key prompt)
      prompt
      (some prompt)
      (some (codes "allow"))
      running).1
    ≡ record running {
      queue =
          (handle_cli_connection https_services listed_types ip_network two_addresses disk load
            (question_key prompt)
            prompt
            (some prompt)
            (some (codes "allow"))
            running).1.queue;
    }
handle_cli_connection-stale_example =
    handle_cli_connection-stale https_services listed_types ip_network two_addresses disk load
      running (question_key prompt) prompt (some prompt) (some (codes "allow")) moved
