-- ===== src/Handlers/Verdicts.antt =====
-- Every packet gets exactly one verdict.
use qubes_snitch.Prelude.{
  ◌≡◌, refl, ◌∙◌, ◌⊎◌, inl, inr, Text, List, [], ◌∷◌, ◌++◌, Bool, true, false, Option, none, some,
  if◌then◌else◌,
}
use qubes_snitch.Prelude.Result.{Result, ok, err, Error}
use qubes_snitch.Packets.Parse.{parse_packet}
use qubes_snitch.Request.{Malformed, Bytes, Request, Kind, net, dns, dns_error}
use qubes_snitch.Dns.Rules.{Action, allow, reject}
use qubes_snitch.Policy.{SourceRules}
use qubes_snitch.Queue.{Call}
use qubes_snitch.Handlers.Monad.{
  Verdict, accept, drop, Event, Daemon, Callback, Exec, pure, raise, lift, gets, change, verdict,
  refuse, continue, ◌>>=◌,
}
use qubes_snitch.Handlers

-- An action that gives no verdict.
pub record Quiet {ℓ} {A : Type ℓ} (m : Exec A) : Type ℓ where
  pub at : (c : Callback) → (m c).1.verdicts ≡ c.verdicts

-- The verdicts after an action that started with those of vs: one more, or, if it raised, at most
-- a drop.
abbrev pub Ending : List Verdict → Result (Unit {0}) → List Verdict → Type 0
Ending vs (ok u) vs' = (v : Verdict) × (vs' ≡ vs ++ v ∷ [])
Ending vs (err e) vs' = (vs' ≡ vs) ⊎ (vs' ≡ vs ++ drop ∷ [])

pub record Ends (m : Exec (Unit {0})) : Type 0 where
  pub at : (c : Callback) → Ending c.verdicts (m c).0 (m c).1.verdicts

module _ {ℓ} {A : Type ℓ} where
  Quiet-pure : (a : A) → Quiet (pure a)
  unfolding pure
  Quiet-pure a = record { at = λ c. refl }

  Quiet-raise : (e : Error) → Quiet (raise {A = A} e)
  unfolding raise
  Quiet-raise e = record { at = λ c. refl }

  Quiet-lift : (r : Result A) → Quiet (lift r)
  unfolding lift
  Quiet-lift r = record { at = λ c. refl }

  pub Quiet-gets : (f : Daemon → A) → Quiet (gets f)
  unfolding gets
  Quiet-gets f = record { at = λ c. refl }

  Quiet-if : (b : Bool) (m n : Exec A) → Quiet m → Quiet n → Quiet (if b then m else n)
  Quiet-if true m n km kn = km
  Quiet-if false m n km kn = kn

Quiet-change : (f : Daemon → Daemon) → Quiet (change f)
unfolding change
Quiet-change f = record { at = λ c. refl }

pub Quiet-refuse : (r : Request) → Quiet (refuse r)
unfolding refuse
Quiet-refuse r = record { at = λ c. refl }

module _ {ℓ κ} {A : Type ℓ} {B : Type κ} where
  continue-Quiet :
      (r : Result A) (f : A → Exec B) (c : Callback)
      → ((a : A) → Quiet (f a))
      → (continue r f c).1.verdicts ≡ c.verdicts
  continue-Quiet (ok a) f c k = (k a).at c
  continue-Quiet (err e) f c k = refl

  pub Quiet-bind :
      (m : Exec A) (f : A → Exec B) → Quiet m → ((a : A) → Quiet (f a)) → Quiet (m >>= f)
  unfolding ◌>>=◌
  Quiet-bind m f km kf = record { at = λ c. continue-Quiet (m c).0 f (m c).1 kf ∙ km.at c }

ruleset quiet = (
  Quiet-pure, Quiet-raise, Quiet-lift, Quiet-gets, Quiet-if, Quiet-change, Quiet-refuse, Quiet-bind,
)

Ends-verdict : (v : Verdict) → Ends (verdict v)
unfolding verdict
Ends-verdict v = record { at = λ c. (v, refl) }

Ends-raise : (e : Error) → Ends (raise e)
unfolding raise
Ends-raise e = record { at = λ c. inl refl }

Ends-if : (b : Bool) (m n : Exec (Unit {0})) → Ends m → Ends n → Ends (if b then m else n)
Ends-if true m n km kn = km
Ends-if false m n km kn = kn

module _ {ℓ} {A : Type ℓ} where
  continue-Ends :
      (r : Result A) (f : A → Exec (Unit {0})) (c : Callback) (vs : List Verdict)
      → c.verdicts ≡ vs
      → ((a : A) → Ends (f a))
      → Ending vs (continue r f c).0 (continue r f c).1.verdicts
  continue-Ends (ok a) f c vs e k = rw (← e) ((k a).at c)
  continue-Ends (err x) f c vs e k = inl e

  Ends-bind :
      (m : Exec A) (f : A → Exec (Unit {0})) → Quiet m → ((a : A) → Ends (f a)) → Ends (m >>= f)
  unfolding ◌>>=◌
  Ends-bind m f km kf = record { at = λ c. continue-Ends (m c).0 f (m c).1 c.verdicts (km.at c) kf }

ruleset ends = (Ends-verdict, Ends-raise, Ends-if, Ends-bind)

module _ (out : Handlers.Outside) where
  pub report-Quiet : (e : Event) → Quiet (Handlers.report out e)
  unfolding Handlers.report
  report-Quiet e = search quiet

  pub ensure_rule_entry-Quiet : (source : Text) → Quiet (Handlers.ensure_rule_entry out source)
  unfolding Handlers.ensure_rule_entry
  ensure_rule_entry-Quiet source = search (quiet, enter-Quiet)
    where
      enter-Quiet : (o : Option SourceRules) → Quiet (Handlers.enter out source o)
      enter-Quiet none = search quiet
      enter-Quiet (some r) = search quiet

  pub match-Quiet : (r : Request) → Quiet (Handlers.match out r)
  unfolding Handlers.match
  match-Quiet r = search quiet

  run_calls-Quiet : (cs : List Call) → Quiet (Handlers.run_calls out cs)
  unfolding Handlers.run_calls
  run_calls-Quiet [] = search quiet
  run_calls-Quiet (x ∷ cs) =
      Quiet-bind (Handlers.report out (Handlers.event_of out x)) (λ u. Handlers.run_calls out cs)
        (report-Quiet (Handlers.event_of out x)) (λ u. run_calls-Quiet cs)

  ask-Quiet : (r : Request) → Quiet (Handlers.ask out r)
  unfolding Handlers.ask
  ask-Quiet r = search (quiet, run_calls-Quiet)

  ask_unless-Quiet : (r : Request) (o : Option Action) → Quiet (Handlers.ask_unless out r o)
  unfolding Handlers.ask_unless
  ask_unless-Quiet r (some a) = search quiet
  ask_unless-Quiet r none = search (quiet, ask-Quiet)

  pub queue_prompt-Quiet : (r : Request) → Quiet (Handlers.queue_prompt out r)
  unfolding Handlers.queue_prompt
  queue_prompt-Quiet r = search (quiet, ensure_rule_entry-Quiet, match-Quiet, ask_unless-Quiet)

  run_refresh-Quiet : Quiet (Handlers.run_refresh out)
  unfolding Handlers.run_refresh
  run_refresh-Quiet = record { at = λ c. refl }

  source_fields-Quiet : (r : Request) (o : Option Text) → Quiet (Handlers.source_fields out r o)
  unfolding Handlers.source_fields
  source_fields-Quiet r none = search quiet
  source_fields-Quiet r (some s) = search (quiet, ensure_rule_entry-Quiet)

  refreshed_fields-Quiet :
      (r : Request) (o : Option Text) → Quiet (Handlers.refreshed_fields out r o)
  unfolding Handlers.refreshed_fields
  refreshed_fields-Quiet r none = search (quiet, report-Quiet)
  refreshed_fields-Quiet r (some s) = search (quiet, report-Quiet)

  pub add_runtime_request_fields-Quiet :
      (r : Request) → Quiet (Handlers.add_runtime_request_fields out r)
  unfolding Handlers.add_runtime_request_fields
  add_runtime_request_fields-Quiet r =
      search (quiet, source_fields-Quiet, refreshed_fields-Quiet, run_refresh-Quiet)

  reject_flow-Ends : (r : Request) → Ends (Handlers.reject_flow out r)
  unfolding Handlers.reject_flow
  reject_flow-Ends r = search (ends, report-Quiet)

  sent-Ends : (r : Request) (o : Result (Unit {0})) → Ends (Handlers.sent out r o)
  unfolding Handlers.sent
  sent-Ends r (ok u) = search (ends, quiet)
  sent-Ends r (err e) = unfold ◌>>=◌ in record { at = λ c. inr refl }

  answer_rejected_dns-Ends : (r : Request) → Ends (Handlers.answer_rejected_dns out r)
  unfolding Handlers.answer_rejected_dns
  answer_rejected_dns-Ends r = search (ends, report-Quiet, sent-Ends)

  answer_malformed_dns-Ends : (r : Request) → Ends (Handlers.answer_malformed_dns out r)
  unfolding Handlers.answer_malformed_dns
  answer_malformed_dns-Ends r = search (ends, report-Quiet)

  queued_domain-Ends : (r : Request) (o : Option Action) → Ends (Handlers.queued_domain out r o)
  unfolding Handlers.queued_domain
  queued_domain-Ends r (some allow) = Ends-verdict accept
  queued_domain-Ends r (some reject) = answer_rejected_dns-Ends r
  queued_domain-Ends r none = Ends-verdict drop

  decided_domain-Ends : (r : Request) (o : Option Action) → Ends (Handlers.decided_domain out r o)
  unfolding Handlers.decided_domain
  decided_domain-Ends r (some allow) = Ends-verdict accept
  decided_domain-Ends r (some reject) = answer_rejected_dns-Ends r
  decided_domain-Ends r none = search (ends, queue_prompt-Quiet, queued_domain-Ends)

  by_kind-Ends : (k : Kind) (r : Request) → Ends (Handlers.by_kind out k r)
  unfolding Handlers.by_kind
  by_kind-Ends (dns_error e q) r =
      search (ends, answer_rejected_dns-Ends, answer_malformed_dns-Ends)
  by_kind-Ends (dns q) r = search (ends, match-Quiet, decided_domain-Ends)
  by_kind-Ends net r = search (ends, match-Quiet, decided_domain-Ends)

  domain_of-Ends : (o : Option Request) → Ends (Handlers.domain_of out o)
  unfolding Handlers.domain_of
  domain_of-Ends none = Ends-verdict drop
  domain_of-Ends (some r) = by_kind-Ends r.kind r

  handle_dns_domain-Ends : (r : Request) → Ends (Handlers.handle_dns_domain out r)
  unfolding Handlers.handle_dns_domain
  handle_dns_domain-Ends r = search domain_of-Ends

  queued_transport-Ends :
      (r : Request) (o : Option Action) → Ends (Handlers.queued_transport out r o)
  unfolding Handlers.queued_transport
  queued_transport-Ends r (some allow) = handle_dns_domain-Ends r
  queued_transport-Ends r (some reject) = reject_flow-Ends r
  queued_transport-Ends r none = Ends-verdict drop

  decided_transport-Ends :
      (r : Request) (o : Option Action) → Ends (Handlers.decided_transport out r o)
  unfolding Handlers.decided_transport
  decided_transport-Ends r (some allow) = handle_dns_domain-Ends r
  decided_transport-Ends r (some reject) = reject_flow-Ends r
  decided_transport-Ends r none = search (ends, queue_prompt-Quiet, queued_transport-Ends)

  handle_dns_transport-Ends : (r : Request) → Ends (Handlers.handle_dns_transport out r)
  unfolding Handlers.handle_dns_transport
  handle_dns_transport-Ends r = search (ends, match-Quiet, decided_transport-Ends)

  apply-Ends : (a : Action) → Ends (Handlers.apply_flow_verdict out a)
  unfolding Handlers.apply_flow_verdict
  apply-Ends allow = Ends-verdict accept
  apply-Ends reject = Ends-verdict drop

  queued_flow-Ends : (o : Option Action) → Ends (Handlers.queued_flow out o)
  unfolding Handlers.queued_flow
  queued_flow-Ends (some a) = apply-Ends a
  queued_flow-Ends none = apply-Ends reject

  decided_flow-Ends : (r : Request) (o : Option Action) → Ends (Handlers.decided_flow out r o)
  unfolding Handlers.decided_flow
  decided_flow-Ends r (some a) = apply-Ends a
  decided_flow-Ends r none = search (ends, queue_prompt-Quiet, queued_flow-Ends)

  handle_flow_packet-Ends : (r : Request) → Ends (Handlers.handle_flow_packet out r)
  unfolding Handlers.handle_flow_packet
  handle_flow_packet-Ends r = search (ends, match-Quiet, decided_flow-Ends)

  handle_marked-Ends : (m : Option Malformed) (r : Request) → Ends (Handlers.handle_marked out m r)
  unfolding Handlers.handle_marked Handlers.handle_clean
  handle_marked-Ends none r = search (ends, handle_dns_transport-Ends, handle_flow_packet-Ends)
  handle_marked-Ends (some m) r = search (ends, report-Quiet)

  handle_fields-Ends : (o : Option Request) → Ends (Handlers.handle_fields out o)
  unfolding Handlers.handle_fields Handlers.handle_known
  handle_fields-Ends none = Ends-verdict drop
  handle_fields-Ends (some r) = handle_marked-Ends r.malformed r

  handle_request-Ends : (o : Option Request) → Ends (Handlers.handle_request out o)
  unfolding Handlers.handle_request
  handle_request-Ends none = search (ends, report-Quiet)
  handle_request-Ends (some r) = search (ends, add_runtime_request_fields-Quiet, handle_fields-Ends)

  -- A call of the packet callback that returns has given its packet exactly one verdict, and one
  -- that raises has given it none, or a drop: a packet is never accepted and then left to an
  -- exception.
  pub handle_packet-Ending :
      (payload : Bytes) (c : Callback)
      → Ending c.verdicts
          (Handlers.handle_packet out payload c).0
          (Handlers.handle_packet out payload c).1.verdicts
  unfolding Handlers.handle_packet
  handle_packet-Ending payload c = (handle_request-Ends (parse_packet payload)).at c
