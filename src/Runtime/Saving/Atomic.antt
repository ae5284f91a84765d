-- ===== src/Runtime/Saving/Atomic.antt =====
-- A save happens whole or not at all.
use qubes_snitch.Prelude.{
  ◌≡◌, refl, sym, ap, ◌∙◌, Text, Text_eq, Bool, true, false, ◌&&◌, not, Option, none, some, ◌==◌,
  if◌then◌else◌,
}
use mathlib.Core.Path.{subst}
use qubes_snitch.Prelude.Dict.{get, put, has, get-put}
use qubes_snitch.Prelude.Result.{Result, ok, err, system_exit, >>=-eq-ok, ok-injective}
use qubes_snitch.Request.{Request, Kind, net, dns, dns_error}
use qubes_snitch.Packets.Ports.{Services}
use qubes_snitch.Dns.Rules.{Action}
use qubes_snitch.Config.DnsRule.{RdataTypes}
use qubes_snitch.Config.Resolve.{Resolver}
use qubes_snitch.Config.Names.{is_numbered_dispvm}
use qubes_snitch.Config.RuleFile.{Network, validate_rule_file}
use qubes_snitch.Policy.{Rules, matching_action}
use qubes_snitch.Policy.Append.{RuleFile, append_dns_rule, action_of}
use qubes_snitch.Policy.Append.Saved.{append_flow_rule-keeps, append_dns_rule-keeps}
use qubes_snitch.Queue.{Decision, is_hostname}
use qubes_snitch.Runtime.{Runtime}
use qubes_snitch.Runtime.Saving.{
  Disk, document_of, read_rules, with_answer, next_rules, publish, publish_or_raise, append_rule,
}
use qubes_snitch.Runtime.Saving.Added.{IsAdded, with_answer-IsAdded}

-- A decision is made still.
abbrev pub Stands : Result (Option Action) → Result (Option Action) → Type 0
Stands (ok (some a)) after = after ≡ ok (some a)
Stands (ok none) after = Unit
Stands (err e) after = Unit

stands :
    (before after : Result (Option Action))
    → ((a : Action) → before ≡ ok (some a) → after ≡ ok (some a))
    → Stands before after
stands (ok (some a)) after keep = keep a refl
stands (ok none) after keep = tt
stands (err e) after keep = tt

module _ (services : Services) (types : RdataTypes) (ip_network : Text → Network)
    (resolver : Resolver) (disk : Disk) where
  with_answer-keeps :
      (k : Kind) (r : Request) (d : Decision) (file : RuleFile) (rules : Rules)
      (saved : RuleFile × Rules) (other : Request) (a : Action)
      → with_answer services types ip_network resolver disk k r d file rules ≡ ok saved
      → matching_action services other rules ≡ ok (some a)
      → matching_action services other saved.1 ≡ ok (some a)
  unfolding with_answer
  with_answer-keeps (dns q) r d file rules saved other a h m = by_name (is_hostname d) h
    where
      by_name :
          (b : Bool)
          → (if b
              then err system_exit
              else ok (append_dns_rule r.source q (action_of d) file rules))
            ≡ ok saved
          → matching_action services other saved.1 ≡ ok (some a)
      by_name true k = absurd (cc)
      by_name false k =
          subst (λ (s : RuleFile × Rules). matching_action services other s.1 ≡ ok (some a))
            (ok-injective k)
            (append_dns_rule-keeps services r.source q (action_of d) file rules other a m)
  with_answer-keeps net r d file rules saved other a h m =
      append_flow_rule-keeps services types resolver r d file rules saved other a h m
  with_answer-keeps (dns_error e q) r d file rules saved other a h m =
      append_flow_rule-keeps services types resolver r d file rules saved other a h m

  next_rules-keeps :
      (r : Request) (d : Decision) (rt : Runtime) (next : RuleFile × Rules) (other : Request)
      (a : Action)
      → next_rules services types ip_network resolver disk r d rt ≡ ok next
      → matching_action services other rt.rules ≡ ok (some a)
      → matching_action services other next.1 ≡ ok (some a)
  unfolding next_rules
  next_rules-keeps r d rt next other a h m =
      let (file, _, h1) =
        >>=-eq-ok (read_rules services types ip_network resolver disk (get r.source rt.files)) _
          h in
      let (added, e, h2) =
        >>=-eq-ok (with_answer services types ip_network resolver disk r.kind r d file rt.rules) _
          h1 in
      let (checked, _, h3) =
        >>=-eq-ok (validate_rule_file services types ip_network (document_of added.0)) _ h2 in
      subst (λ (s : RuleFile × Rules). matching_action services other s.1 ≡ ok (some a))
        (ok-injective h3) (with_answer-keeps r.kind r d file rt.rules added other a e m)

  -- What a save that returns has done: it has read the contents of the file and added the answer
  -- to them and to the rules in memory, and the file holds them after a new validation.
  pub record IsWhole (r : Request) (d : Decision) (other : Request) (rt rt' : Runtime)
      : Type 0 where
    pub file : RuleFile
    pub next : RuleFile × Rules
    pub checked : RuleFile
    pub read : read_rules services types ip_network resolver disk (get r.source rt.files) ≡ ok file
    pub added : IsAdded r d file rt.rules next
    pub validated : validate_rule_file services types ip_network (document_of next.0) ≡ ok checked
    pub files :
        (s : Text)
        → get s rt'.files ≡ (
            if r.source == s
            then some (disk.dump (is_numbered_dispvm r.source) checked)
            else get s rt.files)
    pub rules : rt'.rules ≡ next.1
    pub keeps :
        Stands (matching_action services other rt.rules) (matching_action services other rt'.rules)
    pub queue : rt'.queue ≡ rt.queue
    pub sources : rt'.sources ≡ rt.sources

  -- How a save ends: whole, or with nothing changed.
  abbrev pub Outcome : Request → Decision → Request → Runtime → Runtime × Result (Unit {0}) → Type 0
  Outcome r d other rt (rt', err e) = rt' ≡ rt
  Outcome r d other rt (rt', ok u) = IsWhole r d other rt rt'

  next_rules-IsWhole :
      (r : Request) (d : Decision) (other : Request) (rt : Runtime) (next : RuleFile × Rules)
      → next_rules services types ip_network resolver disk r d rt ≡ ok next
      → IsWhole r d other rt (record rt {
        files = put r.source (disk.dump (is_numbered_dispvm r.source) next.0) rt.files;
        rules = next.1;
      })
  unfolding next_rules
  next_rules-IsWhole r d other rt next h =
      let (file, e, h1) =
        >>=-eq-ok (read_rules services types ip_network resolver disk (get r.source rt.files)) _
          h in
      let (added, e1, h2) =
        >>=-eq-ok (with_answer services types ip_network resolver disk r.kind r d file rt.rules) _
          h1 in
      let (checked, e2, h3) =
        >>=-eq-ok (validate_rule_file services types ip_network (document_of added.0)) _ h2 in
      let same : (checked, added.1) ≡ next = ok-injective h3 in
      record {
        file = file;
        next = added;
        checked = checked;
        read = e;
        added =
            with_answer-IsAdded services types ip_network resolver disk r.kind r d file rt.rules
              added refl e1;
        validated = e2;
        files = λ s.
            get-put r.source s (disk.dump (is_numbered_dispvm r.source) next.0) rt.files
            ∙ ap
                (λ (x : RuleFile × Rules).
                  if r.source == s
                  then some (disk.dump (is_numbered_dispvm r.source) x.0)
                  else get s rt.files)
                (sym same);
        rules = ap (λ (x : RuleFile × Rules). x.1) (sym same);
        keeps =
            stands (matching_action services other rt.rules) (matching_action services other next.1)
              (λ a m. next_rules-keeps r d rt next other a h m);
        queue = refl;
        sources = refl;
      }

  published-Outcome :
      (r : Request) (d : Decision) (rt : Runtime) (next : RuleFile × Rules) (other : Request)
      (b : Bool)
      → disk.writes r.source (disk.dump (is_numbered_dispvm r.source) next.0) ≡ b
      → next_rules services types ip_network resolver disk r d rt ≡ ok next
      → Outcome r d other rt (publish services types ip_network resolver disk r.source next rt)
  unfolding publish
  published-Outcome r d rt (file, rules) other true w h =
      rw w (next_rules-IsWhole r d other rt (file, rules) h)
  published-Outcome r d rt (file, rules) other false w h = rw w refl

  or_raise-Outcome :
      (r : Request) (d : Decision) (rt : Runtime) (next : Result (RuleFile × Rules))
      (other : Request)
      → next_rules services types ip_network resolver disk r d rt ≡ next
      → Outcome r d other rt
          (publish_or_raise services types ip_network resolver disk r.source next rt)
  unfolding publish_or_raise
  or_raise-Outcome r d rt (err e) other h = refl
  or_raise-Outcome r d rt (ok next) other h = published-Outcome r d rt next other _ refl h

  -- An answer is saved whole or not at all. Where append_rule returns, it has read what the file
  -- of the source held, the new rule stands behind the old ones in the rules of the source in
  -- memory and, after a new validation, in the text that is now the file; no other file and no
  -- other source has changed, every decision that the policy had made for any request stands, and
  -- the queue and the sources are as before. Where it raises, in the reading, the rule, the
  -- validation or the write, the files and the rules in memory are as before too.
  pub append_rule-Outcome :
      (r : Request) (d : Decision) (rt : Runtime) (other : Request)
      → Outcome r d other rt (append_rule services types ip_network resolver disk r d rt)
  unfolding append_rule
  append_rule-Outcome r d rt other =
      guarded (is_numbered_dispvm r.source && not (has r.source rt.sources.by_name))
    where
      guarded :
          (b : Bool)
          → Outcome r d other rt (
              if b
              then (rt, err system_exit)
              else publish_or_raise services types ip_network resolver disk r.source
                  (next_rules services types ip_network resolver disk r d rt)
                  rt)
      guarded true = refl
      guarded false =
          or_raise-Outcome r d rt (next_rules services types ip_network resolver disk r d rt) other
            refl
