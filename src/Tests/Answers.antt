-- ===== src/Tests/Answers.antt =====
-- An answer by host name, for all addresses of example.com.
use qubes_snitch.Config.Resolve.{resolve_dest_dns, insert}
use qubes_snitch.Dns.Names.{dns_qname_is_ipv6_reverse, normalize_dns_name, are_labels, last}
use qubes_snitch.Config.DnsRule.{validate_dest_dns_name}
use qubes_snitch.Prelude.Strings.{starts_with, rstrip, lower_char, ends_with, split, upper_char}
use qubes_snitch.Prelude.Decimal.{show}
use qubes_snitch.Packets.Ports.{port_text}
use qubes_snitch.Prelude.Dict.{get, put}
use qubes_snitch.Prelude.{
  ℕ_discrete, drop, Text-discrete, ◌≡◌, ◌≢◌, refl, Text_eq, codes, List, [], ◌∷◌, ◌++◌, none, some,
}
use qubes_snitch.Prelude.Result.{ok}
use qubes_snitch.Request.{Request}
use qubes_snitch.Queue.{
  Option_ℕ-discrete, Key-discrete, claim, Queue, empty, Decision, allow, allow_dns, queue_question,
  question_key,
}
use qubes_snitch.Queue.Invariant.{IsQueue}
use qubes_snitch.Queue.History.{here, next, ask, Reach-empty-IsQueue}
use qubes_snitch.Answers.{decision_of, Callbacks, prepare_hostname_decision, handle_cli_connection}
use qubes_snitch.Answers.Effects.{IsTaken, handle_cli_connection-IsTaken}
use qubes_snitch.Answers.Prepared.{IsNamed, prepare_hostname_decision-IsNamed}
use qubes_snitch.Tests.Policy.{request}
use qubes_snitch.Tests.Dns.{listed_types, two_addresses}

-- Callbacks that write the decisions down.
abbrev notebook : Callbacks (List Decision)
notebook = record { append_rule = λ r d w. (ok tt, w ++ d ∷ []); load_nft = λ w. (ok tt, w) }

abbrev waiting : Queue
waiting = (queue_question 9 request empty).2

waiting-IsQueue : IsQueue 9 waiting
waiting-IsQueue = Reach-empty-IsQueue 9 waiting (next here (ask request refl))

abbrev sent_prompt : Request
sent_prompt = record request { body = none; prompt_id = some 1 }

noted :
    (handle_cli_connection notebook listed_types two_addresses
      (question_key request)
      sent_prompt
      (some sent_prompt)
      (some (codes "allow"))
      waiting
      []).2
    ≡ allow ∷ []
unfolding handle_cli_connection decision_of Text-discrete prepare_hostname_decision claim
    queue_question put Key-discrete port_text show Option_ℕ-discrete get
noted = refl

changed :
    (handle_cli_connection notebook listed_types two_addresses
      (question_key request)
      sent_prompt
      (some sent_prompt)
      (some (codes "allow"))
      waiting
      []).2
    ≢ []
changed e = cc noted

handle_cli_connection-IsTaken_example :
    IsTaken notebook listed_types two_addresses
      (question_key request)
      (some sent_prompt)
      (some (codes "allow"))
      waiting
handle_cli_connection-IsTaken_example =
    handle_cli_connection-IsTaken notebook listed_types two_addresses (question_key request)
      sent_prompt (some sent_prompt) (some (codes "allow")) waiting [] changed

-- A prompt whose address the name has.
abbrev named_prompt : Request
named_prompt = record sent_prompt { dst = 9; host = some (codes "A example.com") }

abbrev prepared_prompt : Request
prepared_prompt = record named_prompt { resolved_dests = 5 ∷ 9 ∷ [] }

prepares :
    prepare_hostname_decision listed_types two_addresses named_prompt allow_dns ≡ ok prepared_prompt
unfolding prepare_hostname_decision starts_with ℕ_discrete validate_dest_dns_name
    dns_qname_is_ipv6_reverse Text-discrete normalize_dns_name rstrip drop lower_char ends_with
    split upper_char are_labels last resolve_dest_dns insert
prepares = refl

prepare_hostname_decision-IsNamed_example : IsNamed listed_types prepared_prompt allow_dns
prepare_hostname_decision-IsNamed_example =
    prepare_hostname_decision-IsNamed listed_types two_addresses named_prompt prepared_prompt
      allow_dns refl prepares
