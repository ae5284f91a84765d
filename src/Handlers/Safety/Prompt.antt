-- ===== src/Handlers/Safety/Prompt.antt =====
-- What a prompt leaves of the rules, and what the policy says after it.
use qubes_snitch.Prelude.{
  ◌≡◌, refl, Text, Text_eq, Text-discrete, ==_ne, ℕ_eq, Bool, true, false, Option, none, some,
  if◌then◌else◌,
}
use qubes_snitch.Prelude.Dict.{put, has, get-put, get-none_of_has}
use qubes_snitch.Prelude.Result.{Result, ok, err}
use qubes_snitch.Request.{Request}
use qubes_snitch.Dns.Rules.{Action, allow, reject}
use qubes_snitch.Policy.{SourceRules, Rules, matching_action}
use qubes_snitch.Policy.Append.{no_rules}
use qubes_snitch.Handlers.Monad.{Daemon, Callback, pure, lift, gets, change, continue, ◌>>=◌}
use qubes_snitch.Handlers
use qubes_snitch.Handlers.Safety.{Gives, Gives-pure, Gives-if, Gives-bind}

-- A fact about the rules, kept when a source without rules gets its entry.
pub record IsKept (K : Rules → Type 0) : Type 0 where
  pub enter :
      (rules : Rules) (source : Text) (s : SourceRules)
      → has source rules ≡ false
      → K rules
      → K (put source s rules)

module _ (out : Handlers.Outside) where
  abbrev pub Allows : Request → Rules → Type 0
  Allows r rules = matching_action out.services r rules ≡ ok (some allow)

  -- What is known after an action that decides: the fact, and that the policy allows, if it does.
  abbrev pub Decided : (Rules → Type 0) → Request → Option Action → Daemon → Type 0
  Decided K r none d = K d.rules
  Decided K r (some reject) d = Unit
  Decided K r (some allow) d = K d.rules × Allows r d.rules

  -- The same after a prompt: nothing is said where none is the answer.
  abbrev pub Settled : (Rules → Type 0) → Request → Option Action → Daemon → Type 0
  Settled K r none d = Unit
  Settled K r (some reject) d = Unit
  Settled K r (some allow) d = K d.rules × Allows r d.rules

  pub Allows-IsKept : (r : Request) → IsKept (Allows r)
  unfolding matching_action
  Allows-IsKept r = record { enter = λ rules source s h k. kept rules source s h k }
    where
      nothing : ok none ≡ ok (some allow) → ⊥
      nothing e = cc

      kept :
          (rules : Rules) (source : Text) (s : SourceRules)
          → has source rules ≡ false
          → Allows r rules
          → Allows r (put source s rules)
      kept rules source s h k = elim (Text-discrete source r.source) [
        | yes e ↦ absurd (nothing (rw (get-none_of_has r.source rules (rw (← e) h)) at k))
        | no e ↦ rw (get-put source r.source s rules, ==_ne source r.source e) k
      ]

  module _ {K : Rules → Type 0} (k : IsKept K) where
    entered :
        (source : Text) (f : Result (Option SourceRules)) (c : Callback)
        → has source c.daemon.rules ≡ false
        → K c.daemon.rules
        → K (continue f (Handlers.enter out source) c).1.daemon.rules
    unfolding Handlers.enter change
    entered source (ok none) c h q = k.enter c.daemon.rules source no_rules h q
    entered source (ok (some s)) c h q = k.enter c.daemon.rules source s h q
    entered source (err e) c h q = q

    ensured :
        (source : Text) (b : Bool) (c : Callback)
        → has source c.daemon.rules ≡ b
        → K c.daemon.rules
        → K
            ((if b then pure tt else (lift (out.rule_file source) >>= Handlers.enter out source))
              c).1.daemon.rules
    unfolding ◌>>=◌
    ensured source true c h q = q
    ensured source false c h q = entered source (out.rule_file source) c h q

    ensure_rule_entry-Gives :
        (source : Text)
        → Gives (λ d. K d.rules) (λ u d. K d.rules) (Handlers.ensure_rule_entry out source)
    unfolding Handlers.ensure_rule_entry ◌>>=◌
    ensure_rule_entry-Gives source = record {
      at = λ c a q e. ensured source (has source c.daemon.rules) c refl q;
    }

    decided :
        (r : Request) (o : Option Action) (d : Daemon)
        → K d.rules
        → matching_action out.services r d.rules ≡ ok o
        → Decided K r o d
    decided r none d q e = q
    decided r (some reject) d q e = tt
    decided r (some allow) d q e = (q, e)

    pub match-Gives : (r : Request) → Gives (λ d. K d.rules) (Decided K r) (Handlers.match out r)
    unfolding Handlers.match ◌>>=◌
    match-Gives r = record { at = λ c a q e. decided r a c.daemon q e }

    ask_unless-Gives :
        (r : Request) (o : Option Action)
        → Gives (Decided K r o) (Settled K r) (Handlers.ask_unless out r o)
    unfolding Handlers.ask_unless
    ask_unless-Gives r (some allow) = Gives-pure (some allow) (λ d q. q)
    ask_unless-Gives r (some reject) = Gives-pure (some reject) (λ d q. q)
    ask_unless-Gives r none =
        Gives-bind {S = λ u d. Unit} (Handlers.ask out r) (λ u. pure none)
          (record { at = λ c a q e. tt }) (λ u. Gives-pure none (λ d q. tt))

    gets-Gives : Gives (λ d. K d.rules) (λ x d. K d.rules) (gets (λ x. x))
    unfolding gets
    gets-Gives = record { at = λ c a q e. q }

    pub queue_prompt-Gives :
        (r : Request) → Gives (λ d. K d.rules) (Settled K r) (Handlers.queue_prompt out r)
    unfolding Handlers.queue_prompt
    queue_prompt-Gives r = Gives-bind {S = λ x d. K d.rules} (gets (λ x. x)) _ gets-Gives (λ d.
        Gives-if _ _ _ (Gives-pure none (λ d q. tt)) (
          Gives-bind (Handlers.ensure_rule_entry out r.source) _ (ensure_rule_entry-Gives r.source)
            (λ u. Gives-bind (Handlers.match out r) _ (match-Gives r) (λ o. ask_unless-Gives r o))))
