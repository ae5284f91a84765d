-- ===== src/Handlers/Safety/Packet.antt =====
-- A packet is accepted only where the policy allows it.
use qubes_snitch.Prelude.{
  ◌≡◌, refl, ap, sym, ◌∙◌, Text, Text_eq, ℕ_eq, [], ◌∷◌, ◌++◌, Bool, true, false, Option, none,
  some, if◌then◌else◌,
}
use qubes_snitch.Prelude.Dict.{get}
use qubes_snitch.Prelude.Result.{ok-injective}
use qubes_snitch.Request.{Bytes, Request, Malformed}
use qubes_snitch.Packets.Parse.{parse_packet}
use qubes_snitch.Dns.Rules.{Action, allow, reject}
use qubes_snitch.Dns.Query.{is_dns_transport}
use qubes_snitch.Policy.{Rules}
use qubes_snitch.Handlers.Monad.{accept, Daemon, Callback, gets}
use qubes_snitch.Handlers
use qubes_snitch.Handlers.Verdicts.{
  report-Quiet, match-Quiet, queue_prompt-Quiet, add_runtime_request_fields-Quiet,
}
use qubes_snitch.Handlers.Safety.{
  Gives, Grants, Grants-accept, Grants-drop, Grants-bind, Gives-pure, Gives-raise, Gives-if,
  Gives-bind,
}
use qubes_snitch.Handlers.Safety.Prompt.{
  IsKept, Allows, Decided, Settled, Allows-IsKept, match-Gives, queue_prompt-Gives,
}
use qubes_snitch.Handlers.Safety.Accepted.{Answered, reject_flow-Grants, handle_dns_domain-Grants}

-- Nothing.
abbrev Any : Rules → Type 0
Any rules = Unit

Any-IsKept : IsKept Any
Any-IsKept = record { enter = λ rules source s h k. tt }

module _ (out : Handlers.Outside) where
  -- The layers of a request of UDP to port 53: the resolver, and the question.
  abbrev Layers : Request → Daemon → Type 0
  Layers r d = Answered out (Allows-IsKept out r) r d

  domain_after :
      (r : Request)
      → Grants (λ d. Unit × Allows out r d.rules) (Layers r) (Handlers.handle_dns_domain out r)
  domain_after r = record {
    at = λ c q e. (handle_dns_domain-Grants out (Allows-IsKept out r) r).at c q.1 e;
  }

  queued_transport-Grants :
      (r : Request) (o : Option Action)
      → Grants (Settled out Any r o) (Layers r) (Handlers.queued_transport out r o)
  unfolding Handlers.queued_transport
  queued_transport-Grants r (some allow) = domain_after r
  queued_transport-Grants r (some reject) = reject_flow-Grants out r
  queued_transport-Grants r none = Grants-drop

  decided_transport-Grants :
      (r : Request) (o : Option Action)
      → Grants (Decided out Any r o) (Layers r) (Handlers.decided_transport out r o)
  unfolding Handlers.decided_transport
  decided_transport-Grants r (some allow) = domain_after r
  decided_transport-Grants r (some reject) = reject_flow-Grants out r
  decided_transport-Grants r none =
      Grants-bind (Handlers.queue_prompt out r) _ (queue_prompt-Quiet out r)
        (queue_prompt-Gives out Any-IsKept r) (queued_transport-Grants r)

  handle_dns_transport-Grants :
      (r : Request) → Grants (λ d. Unit) (Layers r) (Handlers.handle_dns_transport out r)
  unfolding Handlers.handle_dns_transport
  handle_dns_transport-Grants r =
      Grants-bind (Handlers.match out r) _ (match-Quiet out r) (match-Gives out Any-IsKept r)
        (decided_transport-Grants r)

  queued_flow-Grants :
      (r : Request) (o : Option Action)
      → Grants (Settled out Any r o) (λ d. Allows out r d.rules) (Handlers.queued_flow out o)
  unfolding Handlers.queued_flow Handlers.apply_flow_verdict
  queued_flow-Grants r (some allow) = Grants-accept (λ d q. q.1)
  queued_flow-Grants r (some reject) = Grants-drop
  queued_flow-Grants r none = Grants-drop

  decided_flow-Grants :
      (r : Request) (o : Option Action)
      → Grants (Decided out Any r o) (λ d. Allows out r d.rules) (Handlers.decided_flow out r o)
  unfolding Handlers.decided_flow Handlers.apply_flow_verdict
  decided_flow-Grants r (some allow) = Grants-accept (λ d q. q.1)
  decided_flow-Grants r (some reject) = Grants-drop
  decided_flow-Grants r none =
      Grants-bind (Handlers.queue_prompt out r) _ (queue_prompt-Quiet out r)
        (queue_prompt-Gives out Any-IsKept r) (queued_flow-Grants r)

  handle_flow_packet-Grants :
      (r : Request)
      → Grants
          (λ d. Unit)
          (λ d. Allows out (Handlers.flow_request out r) d.rules)
          (Handlers.handle_flow_packet out r)
  unfolding Handlers.handle_flow_packet
  handle_flow_packet-Grants r =
      Grants-bind (Handlers.match out (Handlers.flow_request out r)) _
        (match-Quiet out (Handlers.flow_request out r))
        (match-Gives out Any-IsKept (Handlers.flow_request out r))
        (decided_flow-Grants (Handlers.flow_request out r))

  -- What the policy must allow: for UDP to port 53 the flow to the resolver and the question, and
  -- else the flow.
  abbrev pub Permits : Bool → Request → Daemon → Type 0
  Permits true r d = Layers r d
  Permits false r d = Allows out (Handlers.flow_request out r) d.rules

  clean-Grants :
      (b : Bool) (r : Request)
      → Grants
          (λ d. Unit)
          (Permits b r)
          (if b then Handlers.handle_dns_transport out r else Handlers.handle_flow_packet out r)
  clean-Grants true r = handle_dns_transport-Grants r
  clean-Grants false r = handle_flow_packet-Grants r

  -- The request, without a malformed mark, is permitted.
  abbrev Clean : Request → Daemon → Type 0
  Clean r d = (r.malformed ≡ none) × Permits (is_dns_transport r) r d

  handle_marked-Grants :
      (m : Option Malformed) (r : Request)
      → r.malformed ≡ m
      → Grants (λ d. Unit) (Clean r) (Handlers.handle_marked out m r)
  unfolding Handlers.handle_marked Handlers.handle_clean
  handle_marked-Grants none r e = record {
    at = λ c q h. (e, (clean-Grants (is_dns_transport r) r).at c q h);
  }
  handle_marked-Grants (some m) r e =
      Grants-bind {R = λ u d. Unit} _ _ (report-Quiet out _) (record { at = λ c a q h. tt })
        (λ u. Grants-drop)

  module _ (start : Daemon) where
    -- The source of the request, as it was known at the start.
    abbrev Known : Request → Option Request → Daemon → Type 0
    Known r none d = Unit
    Known r (some known) d =
        (source : Text) × (get r.src start.sources_by_ip ≡ some source)
        × (known ≡ Handlers.with_source out r source start)

    gets-Gives : Gives (λ d. d ≡ start) (λ x d. (x ≡ start) × (d ≡ start)) (gets (λ x. x))
    unfolding gets
    gets-Gives = record { at = λ c a q h. (sym (ok-injective h) ∙ q, q) }

    source_fields-Gives :
        (r : Request) (o : Option Text)
        → get r.src start.sources_by_ip ≡ o
        → Gives (λ d. d ≡ start) (Known r) (Handlers.source_fields out r o)
    unfolding Handlers.source_fields
    source_fields-Gives r none e = Gives-raise _
    source_fields-Gives r (some source) e =
        Gives-bind {S = λ x d. (x ≡ start) × (d ≡ start)} _ _ gets-Gives (λ x.
          Gives-bind {S = λ u d. x ≡ start} _ _ (record { at = λ c a q h. q.0 })
            (λ u. Gives-pure _ (λ d q. (source, e, ap (Handlers.with_source out r source) q))))

    refreshed_fields-Gives :
        (r : Request) (o : Option Text)
        → Gives (λ d. Unit) (Known r) (Handlers.refreshed_fields out r o)
    unfolding Handlers.refreshed_fields
    refreshed_fields-Gives r none =
        Gives-bind {S = λ u d. Unit} _ _ (record { at = λ c a q h. tt }) (λ u. Gives-raise _)
    refreshed_fields-Gives r (some source) =
        Gives-bind {S = λ u d. Unit} _ _ (record { at = λ c a q h. tt })
          (λ x.
            Gives-bind {S = λ u d. Unit} _ _ (record { at = λ c a q h. tt })
              (λ u. Gives-pure none (λ d q. tt)))

    add_runtime_request_fields-Gives :
        (r : Request) → Gives (λ d. d ≡ start) (Known r) (Handlers.add_runtime_request_fields out r)
    unfolding Handlers.add_runtime_request_fields
    add_runtime_request_fields-Gives r =
        Gives-bind {S = λ x d. (x ≡ start) × (d ≡ start)} (gets (λ d. d)) _ gets-Gives (λ x.
          Gives-if _ _ _
            (record {
              at = λ c a q h.
                  (source_fields-Gives r (get r.src x.sources_by_ip)
                      (ap (λ d. get r.src d.sources_by_ip) (sym q.0))).at
                    c a q.1 h;
            })
            (Gives-bind {S = λ u d. Unit} (Handlers.run_refresh out) _
              (record { at = λ c a q h. tt })
              (λ u.
                Gives-bind {S = λ u d. Unit} (gets (λ d. d)) _ (record { at = λ c a q h. tt })
                  (λ y. refreshed_fields-Gives r (get r.src y.sources_by_ip)))))

    -- What an accepted packet stands for.
    abbrev pub IsPermitted : Request → Daemon → Type 0
    IsPermitted packet d =
        (packet.malformed ≡ none)
        × ((source : Text) × (get packet.src start.sources_by_ip ≡ some source)
            × Permits (is_dns_transport packet) (Handlers.with_source out packet source start) d)

    permitted :
        (r x : Request) (source : Text) (d : Daemon)
        → x ≡ Handlers.with_source out r source start
        → Clean x d
        → (r.malformed ≡ none)
          × Permits (is_dns_transport r) (Handlers.with_source out r source start) d
    unfolding Handlers.with_source
    permitted r x source d same k = rw same at k

    fields-Grants :
        (r : Request) (o : Option Request)
        → Grants (Known r o) (IsPermitted r) (Handlers.handle_fields out o)
    unfolding Handlers.handle_fields Handlers.handle_known
    fields-Grants r none = Grants-drop
    fields-Grants r (some x) = record {
      at = λ c (source, e, same) h.
          let (clean, permits) =
            permitted r x source (Handlers.handle_marked out x.malformed x c).1.daemon same
              ((handle_marked-Grants x.malformed x refl).at c tt h) in
          (clean, (source, e, permits));
    }

    handle_request-Grants :
        (o : Option Request)
        → Grants
            (λ d. d ≡ start)
            (λ d. (packet : Request) × (o ≡ some packet) × IsPermitted packet d)
            (Handlers.handle_request out o)
    unfolding Handlers.handle_request
    handle_request-Grants none =
        Grants-bind {R = λ u d. Unit} _ _ (report-Quiet out _) (record { at = λ c a q h. tt })
          (λ u. Grants-drop)
    handle_request-Grants (some r) = record { at = λ c q h. (r, refl, grants.at c q h) }
      where
        grants : Grants (λ d. d ≡ start) (IsPermitted r) (Handlers.handle_request out (some r))
        grants =
            Grants-bind (Handlers.add_runtime_request_fields out r) _
              (add_runtime_request_fields-Quiet out r) (add_runtime_request_fields-Gives r)
              (fields-Grants r)

  -- A packet is accepted only where it parses to a request without a malformed mark, from a source
  -- that was known when it came, and the policy after the call allows it: for UDP to port 53 both
  -- the flow to the resolver and the supported question, and else the flow.
  pub handle_packet-IsPermitted :
      (payload : Bytes) (c : Callback)
      → (Handlers.handle_packet out payload c).1.verdicts ≡ c.verdicts ++ accept ∷ []
      → (packet : Request) × (parse_packet payload ≡ some packet)
        × IsPermitted c.daemon packet (Handlers.handle_packet out payload c).1.daemon
  unfolding Handlers.handle_packet
  handle_packet-IsPermitted payload c h =
      (handle_request-Grants c.daemon (parse_packet payload)).at c refl h
