-- ===== src/Handlers/Safety/Accepted.antt =====
-- The policy under which a packet is accepted.
use qubes_snitch.Prelude.{◌≡◌, ◌≢◌, refl, Text_eq, ℕ_eq, [], Option, none, some, arith}
use qubes_snitch.Prelude.Result.{Result, ok, err, Error}
use qubes_snitch.Request.{Request, Question, Kind, net, dns, dns_error}
use qubes_snitch.Dns.Rules.{Action, allow, reject}
use mathlib.Core.Option
use qubes_snitch.Dns.Query.Accepted.{classify_ne_net}
use qubes_snitch.Dns.Query.{add_dns_query_fields}
use qubes_snitch.Policy.{Rules}
use qubes_snitch.Handlers.Monad.{
  Verdict, accept, drop, Event, Daemon, Callback, Exec, pure, raise, lift, gets, change, verdict,
  refuse, continue, ◌>>=◌,
}
use qubes_snitch.Handlers
use qubes_snitch.Handlers.Verdicts.{
  Quiet, Quiet-refuse, report-Quiet, match-Quiet, queue_prompt-Quiet,
}
use qubes_snitch.Handlers.Safety.{Grants, Grants-accept, Grants-drop, Grants-if, Grants-bind}
use qubes_snitch.Handlers.Safety.Prompt.{
  IsKept, Allows, Decided, Settled, match-Gives, queue_prompt-Gives,
}

module _ (out : Handlers.Outside) {Q P : Daemon → Type 0} where
  drop_after : (m : Exec (Unit {0})) → Quiet m → Grants Q P (m >>= λ u. verdict drop)
  drop_after m quiet =
      Grants-bind {R = λ u d. Unit} m _ quiet (record { at = λ c a q e. tt }) (λ u. Grants-drop)

  drop_before : (x : Error) → Grants Q P (verdict drop >>= λ u. raise x)
  unfolding ◌>>=◌
  drop_before x = record { at = λ c q e. dropped.at c q e }
    where
      dropped : Grants Q P (verdict drop)
      dropped = Grants-drop

module _ (out : Handlers.Outside) {Q P : Daemon → Type 0} where
  sent-Grants : (r : Request) (o : Result (Unit {0})) → Grants Q P (Handlers.sent out r o)
  unfolding Handlers.sent
  sent-Grants r (ok u) = drop_after out (refuse r) (Quiet-refuse r)
  sent-Grants r (err x) = drop_before out x

  answer_malformed_dns-Grants : (r : Request) → Grants Q P (Handlers.answer_malformed_dns out r)
  unfolding Handlers.answer_malformed_dns
  answer_malformed_dns-Grants r = drop_after out _ (report-Quiet out _)

  pub reject_flow-Grants : (r : Request) → Grants Q P (Handlers.reject_flow out r)
  unfolding Handlers.reject_flow
  reject_flow-Grants r = drop_after out _ (report-Quiet out _)

module _ (out : Handlers.Outside) {Q P : Daemon → Type 0} where
  answer_rejected_dns-Grants : (r : Request) → Grants Q P (Handlers.answer_rejected_dns out r)
  unfolding Handlers.answer_rejected_dns
  answer_rejected_dns-Grants r =
      Grants-bind {R = λ u d. Unit} (Handlers.report out (Handlers.Monad.dns_reject r)) _
        (report-Quiet out _) (record { at = λ c a q e. tt })
        (λ u. sent-Grants out r (out.send_dns_refused r))

module _ (out : Handlers.Outside) {K : Rules → Type 0} (k : IsKept K) where
  abbrev Both : Request → Daemon → Type 0
  Both r d = K d.rules × Allows out r d.rules

  queued_domain-Grants :
      (r : Request) (o : Option Action)
      → Grants (Settled out K r o) (Both r) (Handlers.queued_domain out r o)
  unfolding Handlers.queued_domain
  queued_domain-Grants r (some allow) = Grants-accept (λ d q. q)
  queued_domain-Grants r (some reject) = answer_rejected_dns-Grants out r
  queued_domain-Grants r none = Grants-drop

  decided_domain-Grants :
      (r : Request) (o : Option Action)
      → Grants (Decided out K r o) (Both r) (Handlers.decided_domain out r o)
  unfolding Handlers.decided_domain
  decided_domain-Grants r (some allow) = Grants-accept (λ d q. q)
  decided_domain-Grants r (some reject) = answer_rejected_dns-Grants out r
  decided_domain-Grants r none =
      Grants-bind (Handlers.queue_prompt out r) _ (queue_prompt-Quiet out r)
        (queue_prompt-Gives out k r) (queued_domain-Grants r)

  by_kind-Grants :
      (kind : Kind) (r : Request) → Grants (λ d. K d.rules) (Both r) (Handlers.by_kind out kind r)
  unfolding Handlers.by_kind
  by_kind-Grants (dns_error e q) r =
      Grants-if _ _ _ (answer_rejected_dns-Grants out r) (answer_malformed_dns-Grants out r)
  by_kind-Grants (dns q) r =
      Grants-bind (Handlers.match out r) _ (match-Quiet out r) (match-Gives out k r)
        (decided_domain-Grants r)
  by_kind-Grants net r =
      Grants-bind (Handlers.match out r) _ (match-Quiet out r) (match-Gives out k r)
        (decided_domain-Grants r)

  -- The request is a question that the policy allows.
  abbrev pub Answered : Request → Daemon → Type 0
  Answered r d =
      (asked : Request) × (add_dns_query_fields out.library r ≡ some asked)
      × ((q : Question) × (asked.kind ≡ dns q))
      × K d.rules
      × Allows out asked d.rules

  has_kind :
      (r asked : Request) → add_dns_query_fields out.library r ≡ some asked → asked.kind ≢ net
  unfolding add_dns_query_fields
  has_kind r asked e h = classify_ne_net out.library (Option.get_or r.body []) (ground arith)

  domain_of-Answered :
      (r asked : Request) (kind : Kind)
      → add_dns_query_fields out.library r ≡ some asked
      → asked.kind ≡ kind
      → Grants (λ d. K d.rules) (Answered r) (Handlers.by_kind out kind asked)
  domain_of-Answered r asked net e h = absurd (has_kind r asked e h)
  domain_of-Answered r asked (dns q) e h = record {
    at = λ c k v.
        let both = (by_kind-Grants (dns q) asked).at c k v in (asked, e, (q, h), both.0, both.1);
  }
  domain_of-Answered r asked (dns_error x q) e h =
      unfold Handlers.by_kind in
      Grants-if _ _ _ (answer_rejected_dns-Grants out asked) (answer_malformed_dns-Grants out asked)

  domain_of-Grants :
      (r : Request) (o : Option Request)
      → add_dns_query_fields out.library r ≡ o
      → Grants (λ d. K d.rules) (Answered r) (Handlers.domain_of out o)
  unfolding Handlers.domain_of
  domain_of-Grants r none e = Grants-drop
  domain_of-Grants r (some asked) e = domain_of-Answered r asked asked.kind e refl

  pub handle_dns_domain-Grants :
      (r : Request) → Grants (λ d. K d.rules) (Answered r) (Handlers.handle_dns_domain out r)
  unfolding Handlers.handle_dns_domain
  handle_dns_domain-Grants r = domain_of-Grants r (add_dns_query_fields out.library r) refl
