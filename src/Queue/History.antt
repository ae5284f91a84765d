-- ===== src/Queue/History.antt =====
-- Runs of the queue: the packet callbacks, the source watcher and the CLI thread take its lock in
-- any order.
use qubes_snitch.Prelude.{
  ℕ, ◌<◌, ◌≡◌, ◌≢◌, ◌∙◌, Text, Text_eq, [], ◌∷◌, Bool, true, false, none, some, length, All,
  All-append, leb, arith, Bool-cases, inl, inr,
}
use qubes_snitch.Prelude.Dict
use qubes_snitch.Prelude.Dict.{
  Dict, keys, get, put, has, has_key, IsUnique, keys-put, put_new, All-remove,
}
use qubes_snitch.Request.{Request}
use qubes_snitch.Queue.{
  Key, Key_eq, Queue, empty, enqueue, queue_question, delete, sweep, remove_pending_for_source,
  Decision, is_hostname, is_current, discard_pending_decision, remove_pending_hostname_set, claim,
  Option_ℕ_eq,
}
use qubes_snitch.Queue.Invariant.{
  IsQueue, Rising, queue_question-IsQueue, remove_pending_for_source-IsQueue,
  discard_pending_decision-IsQueue, claim-IsQueue, claim-inv, empty-IsQueue,
}

-- One critical section: a packet asks, a source vanishes, a prompt is discarded, or an answer is
-- taken.
pub data Step (size : ℕ) (q q' : Queue) : Type 0 where
  ask : (r : Request) → q' ≡ (queue_question size r q).2 → Step size q q'
  vanish : (source : Text) → q' ≡ remove_pending_for_source source q → Step size q q'
  discard : (key : Key) (r : Request) → q' ≡ discard_pending_decision key r q → Step size q q'
  answer : (key : Key) (r : Request) (d : Decision) → claim key r d q ≡ some q' → Step size q q'

pub data Reach (size : ℕ) (q : Queue) : Queue → Type 0 where
  here : Reach size q q
  next : {t u : Queue} → Reach size q t → Step size t u → Reach size q u

Step-IsQueue : {size : ℕ} {q q' : Queue} → Step size q q' → IsQueue size q → IsQueue size q'
Step-IsQueue {size} {q} (ask r e) v = rw e (queue_question-IsQueue size r q v)
Step-IsQueue {size} {q} (vanish s e) v = rw e (remove_pending_for_source-IsQueue size s q v)
Step-IsQueue {size} {q} (discard k r e) v = rw e (discard_pending_decision-IsQueue size k r q v)
Step-IsQueue {size} {q} {q'} (answer k r d e) v = claim-IsQueue size k r d q q' v e

Reach-IsQueue : {size : ℕ} {q q' : Queue} → IsQueue size q → Reach size q q' → IsQueue size q'
Reach-IsQueue v here = v
Reach-IsQueue v (next r s) = Step-IsQueue s (Reach-IsQueue v r)

-- Whatever happens after the start of the daemon, the queue is well formed; above all it never
-- holds more than size questions.
pub Reach-empty-IsQueue : (size : ℕ) (q : Queue) → Reach size empty q → IsQueue size q
Reach-empty-IsQueue size q r = Reach-IsQueue (empty-IsQueue size) r

-- An id that was given out and stands for no pending question.
pub record IsDead (i : ℕ) (q : Queue) : Type 0 where
  pub issued : i < q.next_id
  pub gone : All (λ e. e.1 ≢ i) q.ids

delete-IsDead : (i : ℕ) (key : Key) (q : Queue) → IsDead i q → IsDead i (delete key q)
unfolding delete
delete-IsDead i key q d = record {
  issued = d.issued;
  gone = All-remove (λ e. e.1 ≢ i) key q.ids d.gone;
}

sweep-IsDead :
    (i : ℕ) (test : Key → Request → Bool) (m : Dict Key Request) (q : Queue)
    → IsDead i q
    → IsDead i (sweep test m q)
unfolding sweep
sweep-IsDead i test [] q d = d
sweep-IsDead i test ((k, r) ∷ m) q d = elim (Bool-cases (test k r)) [
  | inl hit ↦ rw hit (sweep-IsDead i test m (delete k q) (delete-IsDead i k q d))
  | inr miss ↦ rw miss (sweep-IsDead i test m q d)
]

All-put_new :
    (i : ℕ) (k : Key) (n : ℕ) (m : Dict Key ℕ)
    → has k m ≡ false
    → n ≢ i
    → All (λ e. e.1 ≢ i) m
    → All (λ e. e.1 ≢ i) (put k n m)
All-put_new i k n m h ne a =
    rw (put_new k n m h) (All-append (λ e. e.1 ≢ i) m ((k, n) ∷ []) a (ne, tt))

enqueue-IsDead :
    (i size : ℕ) (key : Key) (r : Request) (q : Queue)
    → keys q.questions ≡ keys q.ids
    → IsDead i q
    → IsDead i (enqueue size key r q).1
unfolding enqueue
enqueue-IsDead i size key r q same d = elim (Bool-cases (has key q.questions)) [
  | inl old ↦ rw old d
  | inr new ↦ elim (Bool-cases (leb size (length q.questions))) [
    | inl full ↦ rw (new, full) d
    | inr room ↦
        rw (new, room)
          (record {
            issued = omega (arith, d.issued);
            gone =
                All-put_new i key q.next_id q.ids (rw (← same) new) (omega (arith, d.issued))
                  d.gone;
          })
  ]
]

hostname-IsDead :
    (i : ℕ) (r : Request) (d : Decision) (q : Queue)
    → IsDead i q
    → IsDead i (remove_pending_hostname_set r d q)
unfolding remove_pending_hostname_set
hostname-IsDead i r d q x = elim (Bool-cases (is_hostname d)) [
  | inl h ↦ rw h (sweep-IsDead i _ q.questions q x)
  | inr h ↦ rw h x
]

Step-IsDead :
    {size i : ℕ} {q q' : Queue} → Step size q q' → IsQueue size q → IsDead i q → IsDead i q'
unfolding queue_question remove_pending_for_source discard_pending_decision
Step-IsDead {size} {i} {q} (ask r e) v d = rw e (enqueue-IsDead i size _ _ q v.same_keys d)
Step-IsDead {size} {i} {q} (vanish s e) v d = rw e (sweep-IsDead i _ q.questions q d)
Step-IsDead {size} {i} {q} (discard k r e) v d = elim (Bool-cases (is_current k r q)) [
  | inl c ↦ rw (e, c) (delete-IsDead i k q d)
  | inr c ↦ rw (e, c) d
]
Step-IsDead {size} {i} {q} {q'} (answer k r x e) v d =
    rw (← (claim-inv k r x q q' e).1) (hostname-IsDead i r x (delete k q) (delete-IsDead i k q d))

Reach-IsDead :
    {size i : ℕ} {q q' : Queue} → Reach size q q' → IsQueue size q → IsDead i q → IsDead i q'
Reach-IsDead here v d = d
Reach-IsDead (next r s) v d = Step-IsDead s (Reach-IsQueue v r) (Reach-IsDead r v d)

-- The entries of a rising dict differ, so the one that is deleted leaves no other with its id.
above-ne : (i : ℕ) (m : Dict Key ℕ) → All (λ e. i < e.1) m → All (λ e. e.1 ≢ i) m
above-ne i [] h = tt
above-ne i ((k, j) ∷ m) (h, hs) = (omega arith, above-ne i m hs)

get-above : (i n : ℕ) (k : Key) (m : Dict Key ℕ) → All (λ e. n < e.1) m → get k m ≡ some i → n < i
unfolding get
get-above i n k [] h e = absurd (cc)
get-above i n k ((j, x) ∷ m) (h, hs) e = ground (arith, get-above i n k m hs)

remove-gone :
    (i : ℕ) (k : Key) (m : Dict Key ℕ)
    → Rising m
    → get k m ≡ some i
    → All (λ e. e.1 ≢ i) (Dict.remove k m)
unfolding get Dict.remove
remove-gone i k [] r e = tt
remove-gone i k ((j, x) ∷ m) (above, r) e =
    ground (arith, remove-gone i k m r, above-ne x m above, get-above i x k m above)

get-below : (i n : ℕ) (k : Key) (m : Dict Key ℕ) → All (λ e. e.1 < n) m → get k m ≡ some i → i < n
unfolding get
get-below i n k [] h e = absurd (cc)
get-below i n k ((j, x) ∷ m) (h, hs) e = ground (arith, get-below i n k m hs)

get-gone : (i : ℕ) (k : Key) (m : Dict Key ℕ) → All (λ e. e.1 ≢ i) m → get k m ≢ some i
unfolding get
get-gone i k [] h e = absurd (cc)
get-gone i k ((j, x) ∷ m) (h, hs) e = ground (arith, get-gone i k m hs)

current-get :
    (key : Key) (r : Request) (q : Queue) → is_current key r q ≡ true → get key q.ids ≡ r.prompt_id
current-get key r q h = ground arith

IsDead-claim :
    (i : ℕ) (key : Key) (r : Request) (d : Decision) (q : Queue)
    → r.prompt_id ≡ some i
    → IsDead i q
    → claim key r d q ≡ none
unfolding claim
IsDead-claim i key r d q e x = elim (Bool-cases (is_current key r q)) [
  | inl c ↦ absurd (get-gone i key q.ids x.gone (current-get key r q c ∙ e))
  | inr c ↦ rw c
]

claim-IsDead :
    (size i : ℕ) (key : Key) (r : Request) (d : Decision) (q q' : Queue)
    → IsQueue size q
    → r.prompt_id ≡ some i
    → claim key r d q ≡ some q'
    → IsDead i q'
claim-IsDead size i key r d q q' v e h =
    let (c, same) = claim-inv key r d q q' h in
    let got : get key q.ids ≡ some i = current-get key r q c ∙ e in
    rw (← same) (
      hostname-IsDead i r d (delete key q) (
        unfold delete in
        record {
          issued = get-below i q.next_id key q.ids v.fresh got;
          gone = remove-gone i key q.ids v.rising got;
        }))

-- An answer is taken at most once: after a prompt of a well-formed queue was answered, no answer
-- that bears its id is ever taken again, whatever packets ask, sources vanish or other prompts are
-- answered in between, and even if the same question is queued anew.
pub claim_once :
    (size i : ℕ) (key key' : Key) (r r' : Request) (d d' : Decision) (q q' q'' : Queue)
    → IsQueue size q
    → r.prompt_id ≡ some i
    → r'.prompt_id ≡ some i
    → claim key r d q ≡ some q'
    → Reach size q' q''
    → claim key' r' d' q'' ≡ none
claim_once size i key key' r r' d d' q q' q'' v e e' h run = IsDead-claim i key' r' d' q'' e' (
    Reach-IsDead run (claim-IsQueue size key r d q q' v h) (claim-IsDead size i key r d q q' v e h))
