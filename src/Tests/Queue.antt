-- ===== src/Tests/Queue.antt =====
-- Two prompts wait, and one is answered.
use qubes_snitch.Prelude.Decimal.{show}
use qubes_snitch.Packets.Ports.{port_text}
use qubes_snitch.Prelude.Dict.{remove, get, put}
use qubes_snitch.Prelude.{◌≡◌, refl, Text_eq, codes, [], ◌∷◌, none, some, if◌then◌else◌}
use qubes_snitch.Request.{Request}
use qubes_snitch.Queue.{
  Option_ℕ-discrete, Key-discrete, Key, net_key, Queue, empty, queue_question, next_pending_request,
  allow, reject, allow_dns, is_hostname, is_sibling, remove_pending_hostname_set, claim,
}
use qubes_snitch.Queue.Invariant.{IsQueue}
use qubes_snitch.Queue.Claims.{without, remove_pending_hostname_set-without}
use qubes_snitch.Queue.History.{Reach, here, next, ask, Reach-empty-IsQueue, claim_once}
use qubes_snitch.Tests.Policy.{request}

abbrev second_request : Request
second_request = record request { dst = 5 }

abbrev one_waits : Queue
one_waits = (queue_question 9 request empty).2

abbrev pub two_wait : Queue
two_wait = (queue_question 9 second_request one_waits).2

filled : Reach 9 empty two_wait
filled = next (next here (ask request refl)) (ask second_request refl)

Reach-empty-IsQueue_example : IsQueue 9 two_wait
Reach-empty-IsQueue_example = Reach-empty-IsQueue 9 two_wait filled

two_wait-IsQueue : IsQueue 9 two_wait
two_wait-IsQueue = Reach-empty-IsQueue 9 two_wait filled

abbrev resolved_request : Request
resolved_request = record request { resolved_dests = 5 ∷ request.dst ∷ [] }

remove_pending_hostname_set-without_example :
    (remove_pending_hostname_set resolved_request allow_dns two_wait).questions ≡ (
      if is_hostname allow_dns
      then without (λ key r. is_sibling resolved_request r) two_wait.questions
      else two_wait.questions)
remove_pending_hostname_set-without_example =
    remove_pending_hostname_set-without 9 resolved_request allow_dns two_wait two_wait-IsQueue

-- The prompt that is sent for the first packet.
abbrev key : Key
key = net_key (codes "work") request.dst request.proto (codes "443")

abbrev prompt : Request
prompt = record request { body = none; prompt_id = some 1; remaining = 1 }

sends : next_pending_request two_wait ≡ some (key, prompt)
unfolding next_pending_request queue_question put Key-discrete port_text get show
sends = refl

-- The queue after the answer.
abbrev one_left : Queue
one_left = record {
  questions =
      (net_key (codes "work") 5 request.proto (codes "443"), record second_request { body = none })
      ∷ [];
  ids = (net_key (codes "work") 5 request.proto (codes "443"), 2) ∷ [];
  next_id = 3;
}

taken : claim key prompt allow two_wait ≡ some one_left
unfolding claim queue_question put Key-discrete port_text show Option_ℕ-discrete get remove
taken = refl

-- The same question is asked again before the second answer.
claim_once_example : claim key prompt reject (queue_question 9 request one_left).2 ≡ none
claim_once_example =
    claim_once 9 1 key key prompt prompt allow reject two_wait one_left
      (queue_question 9 request one_left).2 two_wait-IsQueue refl refl taken
      (next here (ask request refl))
