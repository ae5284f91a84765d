-- ===== src/Handlers.antt =====
-- qubes_snitch/packet_handlers.py: one call of the NFQUEUE callback, and the parts of
-- qubes_snitch/policy_runtime.py and qubes_snitch/dns_cache_runtime.py that it runs.
pub mod Monad
pub mod Verdicts
pub mod Safety
use qubes_snitch.Prelude.{
  ℕ, Text, Text_eq, List, [], ◌∷◌, ◌++◌, Bool, true, false, ◌||◌, ◌&&◌, not, any, Option, none,
  some, ◌==◌, ℕ_eq, if◌then◌else◌,
}
use qubes_snitch.Prelude.Dict.{Dict, get, put, has}
use qubes_snitch.Prelude.Result.{Result, ok, err, Error, key_error, system_exit}
use qubes_snitch.Request.{
  Malformed, Bytes, Ip, Request, Kind, net, dns, dns_error, Question, DnsError,
}
use qubes_snitch.Packets.Parse.{parse_packet}
use qubes_snitch.Packets.Ports.{Services}
use qubes_snitch.Dns.Rules.{Action, allow, reject}
use qubes_snitch.Dns.Query.{Library, is_dns_transport, add_dns_query_fields, is_unsupported}
use qubes_snitch.Policy.{SourceRules, Rules, matching_action}
use qubes_snitch.Policy.Append.{no_rules}
use qubes_snitch.Queue.{
  Queue, Call, log_queue_full, log_pending, notify, queue_question, request_without_body,
}
use qubes_snitch.Handlers.Monad.{
  Verdict, accept, drop, Event, flow_reject, dns_reject, malformed_dns, unparsed, malformed_packet,
  unknown_source, pending, queue_full, prompt, Daemon, Callback, Exec, pure, raise, lift, gets,
  change, verdict, refuse, ◌>>=◌, ◌>>◌,
}

-- What the callback meets outside of the modelled code.
pub record Outside : Type 0 where
  -- /etc/services and the DNS library
  pub services : Services
  pub library : Library
  -- CONFIG["pending_queue_size"]
  pub queue_size : ℕ
  -- The call of alerts_runtime for an event after the events before it: false where notify-send
  -- fails, which ends the daemon.
  pub notified : List Event → Event → Bool
  -- The rule file of a source, read and validated; none where there is no file.
  pub rule_file : Text → Result (Option SourceRules)
  -- sources_runtime.refresh_sources_and_nft(ctx, force=True)
  pub refresh : Daemon → Result (Unit {0}) × Daemon
  -- dns_cache_runtime.cached_dns_name at the time of the call
  pub cached_dns_name : Text → Ip → Option Text
  -- The sending of a REFUSED reply: ok where it was sent or failed by an OSError
  pub send_dns_refused : Request → Result (Unit {0})

module _ (out : Outside) where
  report_to : Daemon → Event → Exec (Unit {0})
  report_to d e =
      if out.notified d.events e
      then change (λ x. record x { events = x.events ++ e ∷ [] })
      else raise system_exit

  unfoldable pub report : Event → Exec (Unit {0})
  unfolding report_to
  report e = do d ← gets (λ x. x); report_to d e

  -- RULES[source] = ...
  enter : Text → Option SourceRules → Exec (Unit {0})
  enter source none = change (λ x. record x { rules = put source no_rules x.rules })
  enter source (some r) = change (λ x. record x { rules = put source r x.rules })

  -- ensure_rule_entry of policy_runtime.py, whose result is not used here.
  unfoldable pub ensure_rule_entry : Text → Exec (Unit {0})
  unfolding enter
  ensure_rule_entry source = do
    d ← gets (λ x. x)
    if has source d.rules
        then pure tt
        else (do file ← lift (out.rule_file source); enter source file)

  unfoldable pub match : Request → Exec (Option Action)
  match r = do d ← gets (λ x. x); lift (matching_action out.services r d.rules)

  event_of : Call → Event
  event_of (log_queue_full r) = queue_full r
  event_of (log_pending r) = pending r
  event_of (notify r) = prompt r

  -- The callbacks of queue_question, in their order.
  run_calls : List Call → Exec (Unit {0})
  unfolding report event_of
  run_calls [] = pure tt
  run_calls (c ∷ cs) = do report (event_of c); run_calls cs

  unfoldable pub ask : Request → Exec (Unit {0})
  unfolding run_calls
  ask r = do
    d ← gets (λ x. x)
    let (outcome, calls, q) = queue_question out.queue_size r d.queue
    change (λ x. record x { queue = q })
    run_calls calls

  -- The source is known and still has the address of the packet.
  is_known_source : Option (List Ip) → Ip → Bool
  is_known_source none src = false
  is_known_source (some ips) src = any (λ a. a == src) ips

  ask_unless : Request → Option Action → Exec (Option Action)
  unfolding ask
  ask_unless r (some a) = pure (some a)
  ask_unless r none = do ask r; pure none

  -- queue_prompt: the action that a rule made meanwhile, or none where the packet is left to the
  -- prompt or its source has vanished.
  unfoldable pub queue_prompt : Request → Exec (Option Action)
  unfolding match ask_unless is_known_source ensure_rule_entry
  queue_prompt r = do
    d ← gets (λ x. x)
    if not (is_known_source (get r.source d.sources_by_name) r.src)
        then pure none
        else (do ensure_rule_entry r.source; action ← match r; ask_unless r action)

  -- A flow reject is logged before the drop.
  unfoldable pub reject_flow : Request → Exec (Unit {0})
  unfolding report
  reject_flow r = do report (flow_reject r); verdict drop

  -- try: send; except OSError: log; finally: drop. What the send raises goes on after the drop.
  sent : Request → Result (Unit {0}) → Exec (Unit {0})
  sent r (ok u) = do refuse r; verdict drop
  sent r (err e) = do verdict drop; raise e

  unfoldable pub answer_rejected_dns : Request → Exec (Unit {0})
  unfolding report sent
  answer_rejected_dns r = do report (dns_reject r); sent r (out.send_dns_refused r)

  unfoldable pub answer_malformed_dns : Request → Exec (Unit {0})
  unfolding report
  answer_malformed_dns r = do report (malformed_dns r); verdict drop

  -- The answer of queue_prompt for a question.
  queued_domain : Request → Option Action → Exec (Unit {0})
  unfolding answer_rejected_dns
  queued_domain r (some allow) = verdict accept
  queued_domain r (some reject) = answer_rejected_dns r
  queued_domain r none = verdict drop

  decided_domain : Request → Option Action → Exec (Unit {0})
  unfolding queued_domain queue_prompt
  decided_domain r (some allow) = verdict accept
  decided_domain r (some reject) = answer_rejected_dns r
  decided_domain r none = do queued ← queue_prompt r; queued_domain r queued

  by_kind : Kind → Request → Exec (Unit {0})
  unfolding decided_domain answer_malformed_dns match
  by_kind (dns_error e q) r =
      if is_unsupported e then answer_rejected_dns r else answer_malformed_dns r
  by_kind (dns q) r = do action ← match r; decided_domain r action
  by_kind net r = do action ← match r; decided_domain r action

  domain_of : Option Request → Exec (Unit {0})
  unfolding by_kind
  domain_of none = verdict drop
  domain_of (some r) = by_kind r.kind r

  unfoldable pub handle_dns_domain : Request → Exec (Unit {0})
  unfolding domain_of
  handle_dns_domain r = domain_of (add_dns_query_fields out.library r)

  queued_transport : Request → Option Action → Exec (Unit {0})
  unfolding handle_dns_domain reject_flow
  queued_transport r (some allow) = handle_dns_domain r
  queued_transport r (some reject) = reject_flow r
  queued_transport r none = verdict drop

  decided_transport : Request → Option Action → Exec (Unit {0})
  unfolding queued_transport queue_prompt
  decided_transport r (some reject) = reject_flow r
  decided_transport r (some allow) = handle_dns_domain r
  decided_transport r none = do queued ← queue_prompt r; queued_transport r queued

  unfoldable pub handle_dns_transport : Request → Exec (Unit {0})
  unfolding decided_transport match
  handle_dns_transport r = do action ← match r; decided_transport r action

  apply_flow_verdict : Action → Exec (Unit {0})
  apply_flow_verdict allow = verdict accept
  apply_flow_verdict reject = verdict drop

  queued_flow : Option Action → Exec (Unit {0})
  unfolding apply_flow_verdict
  queued_flow (some a) = apply_flow_verdict a
  queued_flow none = apply_flow_verdict reject

  decided_flow : Request → Option Action → Exec (Unit {0})
  unfolding queued_flow queue_prompt
  decided_flow r (some a) = apply_flow_verdict a
  decided_flow r none = do queued ← queue_prompt r; queued_flow queued

  -- add_cached_dns_name: a name only where the cache has one, shown behind "A ".
  abbrev pub with_cached_name : Option Text → Request → Request
  with_cached_name none r = r
  with_cached_name (some name) r = record r { host = some name }

  abbrev pub flow_request : Request → Request
  flow_request r = with_cached_name (out.cached_dns_name r.source r.dst) (request_without_body r)

  unfoldable pub handle_flow_packet : Request → Exec (Unit {0})
  unfolding decided_flow match
  handle_flow_packet r = do action ← match (flow_request r); decided_flow (flow_request r) action

  run_refresh : Exec (Unit {0})
  run_refresh c = let (result, d) = out.refresh c.daemon in (result, record c { daemon = d })

  -- request["display_source"] and the label of a source that is known.
  abbrev pub or_source : Text → Option Text → Text
  or_source source none = source
  or_source source (some shown) = shown

  unfoldable pub with_source : Request → Text → Daemon → Request
  with_source r source d = record r {
    source = source;
    display_source = or_source source (get r.src d.source_display_by_ip);
    source_label = get source d.source_labels;
    host = none;
  }

  -- SOURCES_BY_IP[src], with a KeyError where it is absent.
  source_fields : Request → Option Text → Exec (Option Request)
  unfolding ensure_rule_entry with_source
  source_fields r none = raise key_error
  source_fields r (some source) = do
    d ← gets (λ x. x)
    ensure_rule_entry source
    pure (some (with_source r source d))

  -- After the refresh: a known source is rejected this once, an unknown one ends the daemon.
  refreshed_fields : Request → Option Text → Exec (Option Request)
  unfolding report with_source
  refreshed_fields r (some source) = do
    d ← gets (λ x. x)
    report (
        flow_reject
          (record (with_source r source d) { source_label = r.source_label; host = r.host }))
    pure none
  refreshed_fields r none = do report (unknown_source r); raise system_exit

  -- none is the answer False.
  unfoldable pub add_runtime_request_fields : Request → Exec (Option Request)
  unfolding source_fields refreshed_fields run_refresh
  add_runtime_request_fields r = do
    d ← gets (λ x. x)
    if has r.src d.sources_by_ip then source_fields r (get r.src d.sources_by_ip) else (do
      run_refresh
      fresh ← gets (λ x. x)
      refreshed_fields r (get r.src fresh.sources_by_ip))

  -- The dispatch of a request whose source is known.
  unfoldable pub handle_clean : Request → Exec (Unit {0})
  unfolding handle_dns_transport handle_flow_packet
  handle_clean r = if is_dns_transport r then handle_dns_transport r else handle_flow_packet r

  handle_marked : Option Malformed → Request → Exec (Unit {0})
  unfolding handle_clean report
  handle_marked (some m) r = do report (malformed_packet r); verdict drop
  handle_marked none r = handle_clean r

  handle_known : Request → Exec (Unit {0})
  unfolding handle_marked
  handle_known r = handle_marked r.malformed r

  handle_fields : Option Request → Exec (Unit {0})
  unfolding handle_known
  handle_fields none = verdict drop
  handle_fields (some r) = handle_known r

  handle_request : Option Request → Exec (Unit {0})
  unfolding handle_fields add_runtime_request_fields report
  handle_request none = do report unparsed; verdict drop
  handle_request (some r) = do fields ← add_runtime_request_fields r; handle_fields fields

  unfoldable pub handle_packet : Bytes → Exec (Unit {0})
  unfolding handle_request
  handle_packet payload = handle_request (parse_packet payload)
