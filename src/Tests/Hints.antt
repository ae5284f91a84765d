-- ===== src/Tests/Hints.antt =====
-- A cache of two addresses for each source, as refreshes fill it.
use qubes_snitch.Prelude.{
  ℕ, ◌≤◌, ◌≡◌, refl, Text, Text_eq, ℕ_discrete, codes, [], ◌∷◌, true, any, none, some, take,
}
use qubes_snitch.Prelude.Dict
use qubes_snitch.Prelude.Dict.{get, put}
use qubes_snitch.Prelude.Strings.{lower_char, upper_char, rstrip, starts_with}
use qubes_snitch.Request.{Request, tcp, net}
use qubes_snitch.Dns.Rules.{Action}
use qubes_snitch.Policy.{Rules}
use qubes_snitch.Hints.{
  NamesKey-discrete, ResponseKey-discrete, Response, Cache, CacheLimits, of_source, evict_responses,
  store_dns_labels, fresh_response_label,
}
use qubes_snitch.Hints.Bounds.{IsWithin}
use qubes_snitch.Hints.Bounds.Soonest.{evict_responses_soonest}
use qubes_snitch.Hints.Refresh.{Resolution, Hinting}
use qubes_snitch.Hints.Lookup.{labels_and_ttl, enrich_prompt_request}
use qubes_snitch.Hints.History.{
  Lookup, Reach, start, refreshed, after, empty, tells, Reach-IsWithin,
}
use qubes_snitch.Hints.Shown.{fresh_response_label-Told}

abbrev limits : CacheLimits
limits = record { max_per_source = 2; max_global = 3 }

abbrev work : Text
work = codes "work"

abbrev mail : Text
mail = codes "mail.org"

abbrev web : Text
web = codes "web.org"

abbrev first : Lookup
first = record {
  at = 10;
  source = work;
  qname = mail;
  qtype = codes "A";
  answers = some (record { addresses = 1 ∷ 2 ∷ []; ttl = some 5 });
}

-- A third address: one of the first two has to go.
abbrev second : Lookup
second = record {
  at = 12;
  source = work;
  qname = web;
  qtype = codes "A";
  answers = some (record { addresses = 3 ∷ []; ttl = none });
}

abbrev full : Cache
full = after limits 1 second (after limits 1 first empty)

abbrev run : Reach limits 1 (second ∷ first ∷ []) full
run = refreshed second (refreshed first start)

full_responses :
    full.responses
    ≡ ((work, 2), record { label = mail; qname = mail; qtype = codes "A"; expires_at = 15 })
      ∷ ((work, 3), record { label = web; qname = web; qtype = codes "A"; expires_at = 72 })
      ∷ []
unfolding store_dns_labels labels_and_ttl put get take ℕ_discrete ResponseKey-discrete
    NamesKey-discrete Dict.remove
full_responses = refl

Reach-IsWithin_example : IsWithin limits full
Reach-IsWithin_example = Reach-IsWithin limits 1 (second ∷ first ∷ []) full run

shown : fresh_response_label 14 work 2 full ≡ some mail
unfolding fresh_response_label get store_dns_labels labels_and_ttl put take ℕ_discrete
    ResponseKey-discrete NamesKey-discrete Dict.remove
shown = refl

fresh_response_label-Told_example : any (tells 1 14 work 2 mail) (second ∷ first ∷ []) ≡ true
fresh_response_label-Told_example =
    fresh_response_label-Told limits 1 14 work 2 (second ∷ first ∷ []) full mail run shown

-- Its name is out of date.
no_hint : fresh_response_label 15 work 2 full ≡ none
unfolding fresh_response_label get store_dns_labels labels_and_ttl put take ℕ_discrete
    ResponseKey-discrete NamesKey-discrete Dict.remove
no_hint = refl

abbrev entry : Text → ℕ → Response
entry name expires_at = record {
  label = name;
  qname = name;
  qtype = codes "A";
  expires_at = expires_at;
}

abbrev crowded : Cache
crowded = record {
  responses =
      ((work, 1), entry mail 15) ∷ ((work, 2), entry web 9) ∷ ((work, 3), entry web 72) ∷ [];
  qnames = [];
}

evict_responses_soonest_example : 9 ≤ 15
unfolding ResponseKey-discrete get evict_responses take Dict.remove
evict_responses_soonest_example =
    evict_responses_soonest 12 2 (of_source work) crowded (work, 2) (work, 1) (entry web 9)
      (entry mail 15) (refl, (refl, (refl, tt))) refl refl refl refl refl

-- An address that no rule knows, and a PTR record with a letter beyond ASCII.
abbrev resolver : Resolution
resolver = record {
  second = 1;
  a_records = λ now qname. (none, 3);
  ptr_records = λ now ip. (some ((0xe9 ∷ codes ".org.") ∷ []), 1);
}

abbrev prompt : Request
prompt = record {
  src = 7;
  dst = 9;
  proto = tcp;
  sport = some 5;
  dport = some 443;
  body = none;
  malformed = none;
  kind = net;
  source = work;
  display_source = work;
  source_label = none;
  host = none;
  resolved_dests = [];
  prompt_id = some 1;
  remaining = 0;
}

abbrev rules : Rules
rules =
    (
      work,
      record {
        ip = [];
        dns = record { qname = codes "Web.org"; qtype = codes "a"; action = Action.allow } ∷ [];
      },
    )
    ∷ []

abbrev before : Hinting
before = record { cache = full; clock = 100; alerts = [] }

-- The lookup of the rule takes 3 ticks and fails for 60 seconds; the PTR record is refused.
enriched : (enrich_prompt_request limits resolver rules prompt before).0 ≡ none
unfolding enrich_prompt_request get put take ℕ_discrete ResponseKey-discrete NamesKey-discrete
    Dict.remove upper_char starts_with lower_char rstrip
enriched = refl
