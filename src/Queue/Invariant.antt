-- ===== src/Queue/Invariant.antt =====
-- The queue's invariant, and that every critical section keeps it.
use qubes_snitch.Prelude.{
  ℕ, ◌+◌, ◌≤◌, ◌<◌, ◌≡◌, refl, ap, Text, Text_eq, [], ◌∷◌, ◌++◌, Bool, true, false, none, some,
  length, length-append, All, All-append, leb, arith, Bool-cases, inl, inr,
}
use qubes_snitch.Prelude.Dict
use qubes_snitch.Prelude.Dict.{
  Dict, keys, get, put, has, has_key, IsUnique, erase, keys-remove, put_new, keys-put,
  snoc-IsUnique, erase-IsUnique, All-remove, length-remove,
}
use qubes_snitch.Request.{Request}
use qubes_snitch.Queue.{
  Key, Key_eq, question_key, request_without_body, Queue, empty, enqueue, queue_question, delete,
  sweep, remove_pending_for_source, Decision, is_current, discard_pending_decision,
  remove_pending_hostname_set, is_hostname, claim,
}

-- Prompt ids rise in the order of the questions.
abbrev pub Rising : Dict Key ℕ → Type 0
Rising [] = Unit
Rising ((k, i) ∷ m) = All (λ e. i < e.1) m × Rising m

abbrev pub IsNamed : Key × Request → Type 0
IsNamed e = (question_key e.1 ≡ e.0) × (e.1.body ≡ none)

-- Both dicts hold the same keys in the same order, each once and at most size of them; each
-- question stands under its own key, without packet bytes; ids rise and are below the next one.
pub record IsQueue (size : ℕ) (q : Queue) : Type 0 where
  pub same_keys : keys q.questions ≡ keys q.ids
  pub unique : IsUnique (keys q.questions)
  pub bounded : length q.questions ≤ size
  pub named : All IsNamed q.questions
  pub rising : Rising q.ids
  pub fresh : All (λ e. e.1 < q.next_id) q.ids

Rising-snoc :
    (m : Dict Key ℕ) (k : Key) (n : ℕ) → Rising m → All (λ e. e.1 < n) m → Rising (m ++ (k, n) ∷ [])
Rising-snoc [] k n r f = (tt, tt)
Rising-snoc ((j, i) ∷ m) k n (above, r) (below, f) =
    (All-append (λ e. i < e.1) m ((k, n) ∷ []) above (below, tt), Rising-snoc m k n r f)

All-lt_suc : (m : Dict Key ℕ) (n : ℕ) → All (λ e. e.1 < n) m → All (λ e. e.1 < n + 1) m
All-lt_suc [] n h = tt
All-lt_suc ((k, i) ∷ m) n (h, hs) = (omega arith, All-lt_suc m n hs)

Rising-remove : (k : Key) (m : Dict Key ℕ) → Rising m → Rising (Dict.remove k m)
unfolding Dict.remove
Rising-remove k [] h = tt
Rising-remove k ((j, i) ∷ m) (above, h) =
    ground (arith, Rising-remove k m h, All-remove (λ e. i < e.1) k m above)

enqueue-IsQueue :
    (size : ℕ) (key : Key) (r : Request) (q : Queue)
    → IsNamed (key, r)
    → IsQueue size q
    → IsQueue size (enqueue size key r q).1
unfolding enqueue
enqueue-IsQueue size key r q n v = elim (Bool-cases (has key q.questions)) [
  | inl old ↦ rw old v
  | inr new ↦ elim (Bool-cases (leb size (length q.questions))) [
    | inl full ↦ rw (new, full) v
    | inr room ↦
        let new_id : has key q.ids ≡ false = rw (← v.same_keys) new in
        rw (new, room)
          (record {
            same_keys =
                rw (keys-put key r q.questions, keys-put key q.next_id q.ids, new, new_id)
                  (ap (λ ks. ks ++ key ∷ []) v.same_keys);
            unique =
                rw (keys-put key r q.questions, new)
                  (snoc-IsUnique key (keys q.questions) new v.unique);
            bounded =
                rw (put_new key r q.questions new)
                  (ground (arith, length-append {0} q.questions ((key, r) ∷ [])));
            named =
                rw (put_new key r q.questions new)
                  (All-append IsNamed q.questions ((key, r) ∷ []) v.named (n, tt));
            rising =
                rw (put_new key q.next_id q.ids new_id)
                  (Rising-snoc q.ids key q.next_id v.rising v.fresh);
            fresh = rw (put_new key q.next_id q.ids new_id) (
                All-append (λ e. e.1 < q.next_id + 1) q.ids ((key, q.next_id) ∷ [])
                  (All-lt_suc q.ids q.next_id v.fresh) (omega arith));
          })
  ]
]

-- A well-formed queue stays so when a packet asks.
pub queue_question-IsQueue :
    (size : ℕ) (request : Request) (q : Queue)
    → IsQueue size q
    → IsQueue size (queue_question size request q).2
unfolding queue_question
queue_question-IsQueue size request q v =
    enqueue-IsQueue size (question_key (request_without_body request))
      (request_without_body request) q (refl, refl) v

pub delete-IsQueue :
    (size : ℕ) (key : Key) (q : Queue) → IsQueue size q → IsQueue size (delete key q)
unfolding delete
delete-IsQueue size key q v = record {
  same_keys = rw (keys-remove key q.questions, keys-remove key q.ids) (ap (erase key) v.same_keys);
  unique = rw (keys-remove key q.questions) (erase-IsUnique key (keys q.questions) v.unique);
  bounded = omega (arith, v.bounded, length-remove key q.questions);
  named = All-remove IsNamed key q.questions v.named;
  rising = Rising-remove key q.ids v.rising;
  fresh = All-remove (λ e. e.1 < q.next_id) key q.ids v.fresh;
}

sweep-IsQueue :
    (size : ℕ) (test : Key → Request → Bool) (snapshot : Dict Key Request) (q : Queue)
    → IsQueue size q
    → IsQueue size (sweep test snapshot q)
unfolding sweep
sweep-IsQueue size test [] q v = v
sweep-IsQueue size test ((key, r) ∷ rest) q v = elim (Bool-cases (test key r)) [
  | inl hit ↦ rw hit (sweep-IsQueue size test rest (delete key q) (delete-IsQueue size key q v))
  | inr miss ↦ rw miss (sweep-IsQueue size test rest q v)
]

-- The cleanup of a source keeps the invariant.
pub remove_pending_for_source-IsQueue :
    (size : ℕ) (source : Text) (q : Queue)
    → IsQueue size q
    → IsQueue size (remove_pending_for_source source q)
unfolding remove_pending_for_source
remove_pending_for_source-IsQueue size source q v = sweep-IsQueue size _ q.questions q v

-- So does the discarding of a prompt.
pub discard_pending_decision-IsQueue :
    (size : ℕ) (key : Key) (request : Request) (q : Queue)
    → IsQueue size q
    → IsQueue size (discard_pending_decision key request q)
unfolding discard_pending_decision
discard_pending_decision-IsQueue size key request q v =
    elim (Bool-cases (is_current key request q)) [
      | inl c ↦ rw c (delete-IsQueue size key q v)
      | inr c ↦ rw c v
    ]

remove_pending_hostname_set-IsQueue :
    (size : ℕ) (request : Request) (decision : Decision) (q : Queue)
    → IsQueue size q
    → IsQueue size (remove_pending_hostname_set request decision q)
unfolding remove_pending_hostname_set
remove_pending_hostname_set-IsQueue size request decision q v =
    elim (Bool-cases (is_hostname decision)) [
      | inl h ↦ rw h (sweep-IsQueue size _ q.questions q v)
      | inr h ↦ rw h v
    ]

-- A taken answer was for the prompt that waits under that key.
pub claim-inv :
    (key : Key) (request : Request) (decision : Decision) (q q' : Queue)
    → claim key request decision q ≡ some q'
    → (is_current key request q ≡ true)
      × (remove_pending_hostname_set request decision (delete key q) ≡ q')
unfolding claim
claim-inv key request decision q q' h = ground arith

-- And so does an answer that is taken.
pub claim-IsQueue :
    (size : ℕ) (key : Key) (request : Request) (decision : Decision) (q q' : Queue)
    → IsQueue size q
    → claim key request decision q ≡ some q'
    → IsQueue size q'
claim-IsQueue size key request decision q q' v h =
    rw (← (claim-inv key request decision q q' h).1) (
      remove_pending_hostname_set-IsQueue size request decision (delete key q)
        (delete-IsQueue size key q v))

-- The empty queue of the start of the daemon is well formed.
pub empty-IsQueue : (size : ℕ) → IsQueue size empty
empty-IsQueue size = record {
  same_keys = refl;
  unique = tt;
  bounded = omega arith;
  named = tt;
  rising = tt;
  fresh = tt;
}
