-- ===== src/Answers/Kept.antt =====
-- An answer whose callback does nothing leaves the rules as they are.
use qubes_snitch.Prelude.{
  ◌≡◌, refl, sym, ap, ◌∙◌, inl, inr, Text, Option, none, some, false, Bool-cases,
}
use qubes_snitch.Prelude.Result.{Result, ok, err, ok-injective}
use qubes_snitch.Request.{Request}
use qubes_snitch.Config.DnsRule.{RdataTypes}
use qubes_snitch.Config.Resolve.{Resolver}
use qubes_snitch.Queue.{Key, Queue, Decision, is_hostname, claim}
use qubes_snitch.Answers.{
  Callbacks, prepare_hostname_decision, decision_of, loaded, claimed, prepared,
  save_pending_decision, decided, answered, handle_cli_connection,
}
use qubes_snitch.Answers.Prepared.{prepared-inv}

prepared-plain :
    (types : RdataTypes) (resolver : Resolver) (r x : Request) (d : Decision)
    → is_hostname d ≡ false
    → prepare_hostname_decision types resolver r d ≡ ok x
    → x ≡ r
unfolding prepare_hostname_decision
prepared-plain types resolver r x d f h = sym (ok-injective (rw f at h))

-- The preparation keeps where the packet of the prompt came from.
pub prepare_hostname_decision-source :
    (types : RdataTypes) (resolver : Resolver) (r x : Request) (d : Decision)
    → prepare_hostname_decision types resolver r d ≡ ok x
    → (x.source ≡ r.source) × (x.src ≡ r.src)
prepare_hostname_decision-source types resolver r x d h = elim (Bool-cases (is_hostname d)) [
  | inl t ↦
      let (name, (ips, _, _, _, same)) = prepared-inv types resolver r x d t h in
      (ap (λ (r : Request). r.source) same, ap (λ (r : Request). r.src) same)
  | inr f ↦
      let same = prepared-plain types resolver r x d f h in
      (ap (λ (r : Request). r.source) same, ap (λ (r : Request). r.src) same)
]

module _ {W : Type 0} (calls : Callbacks W) (types : RdataTypes) (resolver : Resolver) (w : W)
    (loads : (calls.load_nft w).1 ≡ w) where
  loaded-kept : (q : Queue) (result : Result (Unit {0})) → (loaded calls q (result, w)).2 ≡ w
  unfolding loaded
  loaded-kept q (ok u) = loads
  loaded-kept q (err e) = refl

  -- The callback does nothing for the requests that an answer may be prepared to.
  abbrev pub DoesNothing : Request → Type 0
  DoesNothing r =
      (d : Decision) (x : Request)
      → prepare_hostname_decision types resolver r d ≡ ok x
      → (calls.append_rule x d w).1 ≡ w

  claimed-kept :
      (r : Request) (d : Decision) (o : Option Queue) (q : Queue)
      → (calls.append_rule r d w).1 ≡ w
      → (claimed calls r d o q w).2 ≡ w
  unfolding claimed
  claimed-kept r d none q h = refl
  claimed-kept r d (some q') q h =
      ap (λ (v : W). (loaded calls q' ((calls.append_rule r d w).0, v)).2) h
      ∙ loaded-kept q' (calls.append_rule r d w).0

  prepared-kept :
      (key : Key) (o : Result Request) (d : Decision) (q : Queue)
      → ((x : Request) → o ≡ ok x → (calls.append_rule x d w).1 ≡ w)
      → (prepared calls key o d q w).2 ≡ w
  unfolding prepared
  prepared-kept key (err e) d q h = refl
  prepared-kept key (ok x) d q h = claimed-kept x d (claim key x d q) q (h x refl)

  decided-kept :
      (key : Key) (r : Request) (o : Option Decision) (q : Queue)
      → DoesNothing r
      → (decided calls types resolver key r o q w).2 ≡ w
  unfolding decided save_pending_decision
  decided-kept key r none q h = refl
  decided-kept key r (some d) q h =
      prepared-kept key (prepare_hostname_decision types resolver r d) d q (h d)

  pub handle_cli_connection-kept :
      (key : Key) (r : Request) (enriched : Option Request) (line : Option Text) (q : Queue)
      → ((e : Request) → enriched ≡ some e → DoesNothing e)
      → (handle_cli_connection calls types resolver key r enriched line q w).2 ≡ w
  unfolding handle_cli_connection answered
  handle_cli_connection-kept key r none line q h = refl
  handle_cli_connection-kept key r (some e) none q h = refl
  handle_cli_connection-kept key r (some e) (some line) q h =
      decided-kept key e (decision_of line) q (h e refl)
