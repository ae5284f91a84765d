-- ===== src/Queue/Claims.antt =====
-- What the loops delete, and the prompt that the CLI is sent.
use qubes_snitch.Prelude.{
  ℕ, ◌+◌, ◌≤◌, ◌<◌, ◌≡◌, ◌≢◌, ◌↔◌, refl, sym, ◌∙◌, Text, Text_eq, [], ◌∷◌, ◌++◌, Bool, true, false,
  none, some, length, All, ◌==◌, if◌then◌else◌, arith, Bool-cases, inl, inr, ==_refl,
}
use qubes_snitch.Prelude.Dict
use qubes_snitch.Prelude.Dict.{Dict, keys, get, has, has_key, IsUnique, keys-remove, erase-IsUnique}
use mathlib.Core.List.{append_assoc}
use qubes_snitch.Request.{Request}
use qubes_snitch.Queue.{
  Key, Key_eq, key_source, Queue, delete, sweep, remove_pending_for_source, Decision, is_hostname,
  is_sibling, remove_pending_hostname_set, is_current, next_pending_request, Option_ℕ_eq,
}
use qubes_snitch.Queue.Invariant.{IsQueue, Rising}

-- The entries that a test does not pick, in their order.
unfoldable pub without : (Key → Request → Bool) → Dict Key Request → Dict Key Request
without test [] = []
without test ((k, r) ∷ m) = if test k r then without test m else (k, r) ∷ without test m

remove-middle :
    (done : Dict Key Request) (k : Key) (r : Request) (rest : Dict Key Request)
    → IsUnique (keys (done ++ (k, r) ∷ rest))
    → Dict.remove k (done ++ (k, r) ∷ rest) ≡ done ++ rest
unfolding Dict.remove
remove-middle [] k r rest u = rw ==_refl
remove-middle ((j, s) ∷ done) k r rest u =
    ground (arith, remove-middle done k r rest, not-last (keys_middle done))
  where
    keys_middle : (d : Dict Key Request) → has_key k (keys (d ++ (k, r) ∷ rest)) ≡ true
    keys_middle [] = ground arith
    keys_middle ((i, t) ∷ d) = ground (arith, keys_middle d)

    not-last : has_key k (keys (done ++ (k, r) ∷ rest)) ≡ true → j ≢ k
    not-last h e = ground arith

remove-middle-IsUnique :
    (done : Dict Key Request) (k : Key) (r : Request) (rest : Dict Key Request)
    → IsUnique (keys (done ++ (k, r) ∷ rest))
    → IsUnique (keys (done ++ rest))
remove-middle-IsUnique done k r rest u =
    rw (← remove-middle done k r rest u, keys-remove k (done ++ (k, r) ∷ rest))
      (erase-IsUnique k (keys (done ++ (k, r) ∷ rest)) u)

snoc-append :
    (done : Dict Key Request) (e : Key × Request) (rest : Dict Key Request)
    → (done ++ e ∷ []) ++ rest ≡ done ++ e ∷ rest
snoc-append done e rest = append_assoc done (e ∷ []) rest

sweep-hit :
    (test : Key → Request → Bool) (k : Key) (r : Request) (rest : Dict Key Request) (q : Queue)
    → test k r ≡ true
    → sweep test ((k, r) ∷ rest) q ≡ sweep test rest (delete k q)
unfolding sweep
sweep-hit test k r rest q h = rw h

sweep-miss :
    (test : Key → Request → Bool) (k : Key) (r : Request) (rest : Dict Key Request) (q : Queue)
    → test k r ≡ false
    → sweep test ((k, r) ∷ rest) q ≡ sweep test rest q
unfolding sweep
sweep-miss test k r rest q h = rw h

sweep-without :
    (test : Key → Request → Bool) (done rest : Dict Key Request) (q : Queue)
    → q.questions ≡ done ++ rest
    → IsUnique (keys (done ++ rest))
    → (sweep test rest q).questions ≡ done ++ without test rest
unfolding without
sweep-without test done [] q e u = unfold sweep in e
sweep-without test done ((k, r) ∷ rest) q e u = elim (Bool-cases (test k r)) [
  | inl hit ↦
      rw (sweep-hit test k r rest q hit, hit)
        (sweep-without test done rest (delete k q)
          (unfold delete in rw e (remove-middle done k r rest u))
          (remove-middle-IsUnique done k r rest u))
  | inr miss ↦
      rw (sweep-miss test k r rest q miss, miss)
        (sweep-without test (done ++ (k, r) ∷ []) rest q (e ∙ sym (snoc-append done (k, r) rest))
            (rw snoc-append u)
          ∙ snoc-append done (k, r) (without test rest))
]

-- When a source vanishes, its questions and no others leave a well-formed queue; the others keep
-- their order.
pub remove_pending_for_source-without :
    (size : ℕ) (source : Text) (q : Queue)
    → IsQueue size q
    → (remove_pending_for_source source q).questions
      ≡ without (λ key r. key_source key == source) q.questions
unfolding remove_pending_for_source
remove_pending_for_source-without size source q v =
    sweep-without (λ key r. key_source key == source) [] q.questions q refl v.unique

-- An answer for a set of addresses removes the pending flow questions of the same source,
-- protocol and port to those addresses from a well-formed queue, and no others; an answer for one
-- address removes none.
pub remove_pending_hostname_set-without :
    (size : ℕ) (request : Request) (decision : Decision) (q : Queue)
    → IsQueue size q
    → (remove_pending_hostname_set request decision q).questions ≡ (
        if is_hostname decision
        then without (λ key r. is_sibling request r) q.questions
        else q.questions)
unfolding remove_pending_hostname_set
remove_pending_hostname_set-without size request decision q v =
    elim (Bool-cases (is_hostname decision)) [
      | inl h ↦ rw h (sweep-without (λ key r. is_sibling request r) [] q.questions q refl v.unique)
      | inr h ↦ rw h
    ]

-- The prompt that is sent.
pub record IsSent (key : Key) (request : Request) (q : Queue) : Type 0 where
  pub id : ℕ
  pub shown : request.prompt_id ≡ some id
  pub oldest : All (λ e. id ≤ e.1) q.ids
  pub current : is_current key request q ≡ true
  pub behind : length q.questions ≡ request.remaining + 1

All-le_of_lt : (i : ℕ) (m : Dict Key ℕ) → All (λ e. i < e.1) m → All (λ e. i ≤ e.1) m
All-le_of_lt i [] h = tt
All-le_of_lt i ((k, j) ∷ m) (h, hs) = (omega arith, All-le_of_lt i m hs)

-- The queue by its fields.
sent :
    (ks : Dict Key Request) (ids : Dict Key ℕ) (n : ℕ) (key : Key) (request : Request)
    → keys ks ≡ keys ids
    → Rising ids
    → next_pending_request (record { questions = ks; ids = ids; next_id = n }) ≡ some (key, request)
    → IsSent key request (record { questions = ks; ids = ids; next_id = n })
unfolding next_pending_request get
sent [] ids n key request s r h = absurd (cc)
sent ((k, x) ∷ ks) [] n key request s r h = absurd (cc)
sent ((k, x) ∷ ks) ((j, i) ∷ ids) n key request s (above, r) h = record {
  id = i;
  shown = ground arith;
  oldest = (omega arith, All-le_of_lt i ids above);
  current = ground arith;
  behind = ground arith;
}

-- In a well-formed queue the CLI is sent the oldest question under its own id, which is then a
-- current prompt, with the number of the questions behind it.
pub next_pending_request-IsSent :
    (size : ℕ) (q : Queue) (key : Key) (request : Request)
    → IsQueue size q
    → next_pending_request q ≡ some (key, request)
    → IsSent key request q
next_pending_request-IsSent size q key request v h =
    sent q.questions q.ids q.next_id key request v.same_keys v.rising h

-- The CLI waits exactly while nothing is pending.
pub next_pending_request-eq-none_iff :
    (q : Queue) → (next_pending_request q ≡ none) ↔ (q.questions ≡ [])
unfolding next_pending_request
next_pending_request-eq-none_iff q = ground arith
