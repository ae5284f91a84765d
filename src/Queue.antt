-- ===== src/Queue.antt =====
-- qubes_snitch/queue.py: the questions that wait for an answer. PENDING_QUESTIONS and
-- PENDING_PROMPT_IDS are two dicts, as in the program; each function is one critical section.
pub mod Invariant
pub mod Claims
pub mod History
use qubes_snitch.Prelude.{
  ℕ, suc, ◌+◌, ◌-◌, Text, Text_eq, Text-discrete, Eq, ℕ_discrete, List, [], ◌∷◌, Bool, true, false,
  ◌&&◌, ◌||◌, not, any, Option, none, some, length, leb, ◌==◌, ℕ_eq, if◌then◌else◌,
}
use qubes_snitch.Prelude.Dict
use qubes_snitch.Prelude.Dict.{Dict, get, put, has}
use qubes_snitch.Request.{
  Ip, Proto, Proto_eq, Proto-discrete, Request, Kind, Question, net, dns, dns_error,
}
use qubes_snitch.Packets.Ports.{request_port}

-- The key by which questions are deduplicated.
pub data Key : Type 0 where
  dns_key : Text → Text → Text → Key
  net_key : Text → Ip → Proto → Text → Key

unfoldable pub Key-discrete : Discrete Key
unfolding Text-discrete Proto-discrete ℕ_discrete
Key-discrete = hlevel (Text-discrete, Proto-discrete, ℕ_discrete)

instance abbrev pub Key_eq : Eq Key
Key_eq = record { dec = Key-discrete }

abbrev pub key_source : Key → Text
key_source (dns_key source qtype qname) = source
key_source (net_key source dst proto port) = source

key_of : Kind → Request → Key
key_of (dns q) r = dns_key r.source q.qtype q.qname
key_of net r = net_key r.source r.dst r.proto (request_port r)
key_of (dns_error e q) r = net_key r.source r.dst r.proto (request_port r)

unfoldable pub question_key : Request → Key
unfolding key_of
question_key r = key_of r.kind r

-- request_without_body of qubes_snitch/packets.py.
abbrev pub request_without_body : Request → Request
request_without_body r = record r { body = none }

pub record Queue : Type 0 where
  pub questions : Dict Key Request
  pub ids : Dict Key ℕ
  pub next_id : ℕ

abbrev pub empty : Queue
empty = record { questions = []; ids = []; next_id = 1 }

-- The string that queue_question returns.
pub data Queued : Type 0 where
  full queued duplicate : Queued

-- The calls that queue_question makes of its callbacks, with the request.
pub data Call : Type 0 where
  log_queue_full log_pending notify : Request → Call

calls : Queued → Request → List Call
calls full r = log_queue_full r ∷ []
calls queued r = log_pending r ∷ notify r ∷ []
calls duplicate r = log_pending r ∷ []

-- The part of queue_question under the lock.
enqueue : ℕ → Key → Request → Queue → Queued × Queue
enqueue size key r q =
    if has key q.questions
    then (duplicate, q)
    else if leb size (length q.questions)
    then (full, q)
    else (
      queued,
      record {
        questions = put key r q.questions;
        ids = put key q.next_id q.ids;
        next_id = q.next_id + 1;
      },
    )

unfoldable pub queue_question : ℕ → Request → Queue → Queued × List Call × Queue
unfolding calls enqueue question_key
queue_question size request q =
    let r = request_without_body request in
    let (outcome, q') = enqueue size (question_key r) r q in (outcome, calls outcome r, q')

-- The oldest question with its prompt id and the number of those behind it; none while it waits
-- for one.
first_pending : Dict Key Request → Queue → Option (Key × Request)
first_pending [] q = none
first_pending ((key, r) ∷ rest) q =
    some (key, record r { prompt_id = get key q.ids; remaining = length q.questions - 1 })

unfoldable pub next_pending_request : Queue → Option (Key × Request)
unfolding first_pending
next_pending_request q = first_pending q.questions q

-- del PENDING_QUESTIONS[key]; PENDING_PROMPT_IDS.pop(key, None)
unfoldable pub delete : Key → Queue → Queue
delete key q = record q { questions = Dict.remove key q.questions; ids = Dict.remove key q.ids }

-- The loops over a copy of the questions that delete some of them.
unfoldable pub sweep : (Key → Request → Bool) → Dict Key Request → Queue → Queue
sweep test [] q = q
sweep test ((key, r) ∷ rest) q = sweep test rest (if test key r then delete key q else q)

unfoldable pub remove_pending_for_source : Text → Queue → Queue
unfolding sweep
remove_pending_for_source source q = sweep (λ key r. key_source key == source) q.questions q

unfoldable pub Option_ℕ-discrete : Discrete (Option ℕ)
unfolding ℕ_discrete
Option_ℕ-discrete = hlevel ℕ_discrete

instance abbrev pub Option_ℕ_eq : Eq (Option ℕ)
Option_ℕ_eq = record { dec = Option_ℕ-discrete }

-- The prompt is still the one that was sent: its key waits, under the same id.
abbrev pub is_current : Key → Request → Queue → Bool
is_current key request q = has key q.questions && get key q.ids == request.prompt_id

unfoldable pub discard_pending_decision : Key → Request → Queue → Queue
unfolding delete
discard_pending_decision key request q = if is_current key request q then delete key q else q

-- The four answers of the CLI.
pub data Decision : Type 0 where
  allow allow_dns reject reject_dns : Decision

abbrev pub is_hostname : Decision → Bool
is_hostname allow = false
is_hostname allow_dns = true
is_hostname reject = false
is_hostname reject_dns = true

-- The pending questions that an answer for a whole set of addresses covers.
abbrev sibling : Request → Kind → Request → Bool
sibling request (dns q) pending = false
sibling request net pending =
    pending.source == request.source
    && pending.proto == request.proto
    && request_port pending == request_port request
    && any (λ a. a == pending.dst) request.resolved_dests
sibling request (dns_error e q) pending =
    pending.source == request.source
    && pending.proto == request.proto
    && request_port pending == request_port request
    && any (λ a. a == pending.dst) request.resolved_dests

abbrev pub is_sibling : Request → Request → Bool
is_sibling request pending = sibling request pending.kind pending

unfoldable pub remove_pending_hostname_set : Request → Decision → Queue → Queue
unfolding sweep
remove_pending_hostname_set request decision q =
    if is_hostname decision then sweep (λ key r. is_sibling request r) q.questions q else q

-- The critical section of save_pending_decision: none where the decision is stale, and else the
-- queue without the prompt and without those that the same answer covers.
unfoldable pub claim : Key → Request → Decision → Queue → Option Queue
unfolding delete remove_pending_hostname_set
claim key request decision q =
    if not (is_current key request q)
    then none
    else some (remove_pending_hostname_set request decision (delete key q))
