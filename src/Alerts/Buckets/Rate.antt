-- ===== src/Alerts/Buckets/Rate.antt =====
-- How often a key is allowed.
use qubes_snitch.Prelude.{
  ℕ, ◌+◌, ◌-◌, ◌*◌, ◌≤◌, ◌≡◌, refl, List, [], ◌∷◌, Bool, true, false, some, Eq, ◌==◌, ==_refl,
  ==_ne, if◌then◌else◌, arith, ap, ◌∙◌, ◌&&◌,
}
use qubes_snitch.Prelude.Dict.{Dict, keys, get, has, IsUnique}
use qubes_snitch.Alerts.Buckets.{Limits, Bucket, take_token, bucket_or_full, log_allowed}
use qubes_snitch.Alerts.Buckets.Bounds.{get-evict, evict-IsUnique, put_last-IsUnique, get-put_last}
use native.Mathlib.Nat.{add-mul}

abbrev as_number : Bool → ℕ
as_number true = 1
as_number false = 0

module _ (limits : Limits) where
  -- A decision takes its token out of what the time since the last one has brought.
  take_token-pays :
      (now : ℕ) (b : Bucket)
      → as_number (take_token limits now b).0 * limits.period + (take_token limits now b).1.tokens
        ≤ b.tokens + (now - b.updated) * limits.count
  unfolding take_token
  take_token-pays now b = ground arith

  take_token-updated : (now : ℕ) (b : Bucket) → (take_token limits now b).1.updated ≡ now
  unfolding take_token
  take_token-updated now b = ground arith

  spread :
      (from now until : ℕ)
      → from ≤ now
      → now ≤ until
      → (until - from) * limits.count ≡ (now - from) * limits.count + (until - now) * limits.count
  spread from now until h k =
      ap (λ n. n * limits.count) (omega arith) ∙ add-mul (now - from) (until - now) limits.count

fewer :
    (same allowed taken : Bool) (p : ℕ)
    → allowed ≡ taken
    → as_number (same && allowed) * p ≤ as_number taken * p
fewer true allowed taken p e = rw e (omega arith)
fewer false allowed taken p e = omega arith

counted :
    (limits : Limits) (same allowed taken : Bool) (rest : ℕ) (b b' : Bucket) (now until : ℕ)
    → allowed ≡ taken
    → as_number taken * limits.period + b'.tokens ≤ b.tokens + (now - b.updated) * limits.count
    → b'.updated ≡ now
    → rest * limits.period ≤ b'.tokens + (until - b'.updated) * limits.count
    → b.updated ≤ now
    → now ≤ until
    → (as_number (same && allowed) + rest) * limits.period
      ≤ b.tokens + (until - b.updated) * limits.count
counted limits same allowed taken rest b b' now until e pays at_now later h k = omega (
  arith,
  add-mul (as_number (same && allowed)) rest limits.period,
  fewer same allowed taken limits.period e,
  pays,
  rw at_now at later,
  spread limits b.updated now until h k,
)

module _ {ℓ} (limits : Limits) {K : Type ℓ} ⦃e : Eq K⦄ (key : K) where
  -- A run of the log: the times at which keys ask.
  abbrev pub Trace : Type ℓ
  Trace = List (ℕ × K)

  -- The clock does not go back, and stands at until in the end.
  abbrev pub IsTimely : ℕ → ℕ → Trace → Type 0
  IsTimely from until [] = from ≤ until
  IsTimely from until ((now, j) ∷ trace) = (from ≤ now) × IsTimely now until trace

  -- The bucket of the key is never evicted.
  abbrev pub IsStaying : Trace → Dict K Bucket → Type 0
  IsStaying [] table = Unit
  IsStaying ((now, j) ∷ trace) table =
      (has key (log_allowed limits now j table).1 ≡ true)
      × IsStaying trace (log_allowed limits now j table).1

  -- How often the key is allowed in a run.
  abbrev pub times_allowed : Trace → Dict K Bucket → ℕ
  times_allowed [] table = 0
  times_allowed ((now, j) ∷ trace) table =
      as_number (j == key && (log_allowed limits now j table).0)
      + times_allowed trace (log_allowed limits now j table).1

  IsTimely-le : (from until : ℕ) (trace : Trace) → IsTimely from until trace → from ≤ until
  IsTimely-le from until [] h = h
  IsTimely-le from until ((now, j) ∷ trace) (h, t) = omega (arith, IsTimely-le now until trace t)

  log_allowed-IsUnique :
      (now : ℕ) (j : K) (table : Dict K Bucket)
      → IsUnique (keys table)
      → IsUnique (keys (log_allowed limits now j table).1)
  unfolding log_allowed
  log_allowed-IsUnique now j table u =
      evict-IsUnique limits _ (put_last-IsUnique limits j _ table u)

  -- What a call leaves in the bucket of the key.
  log_allowed-get :
      (now : ℕ) (j : K) (table : Dict K Bucket)
      → IsUnique (keys table)
      → has key (log_allowed limits now j table).1 ≡ true
      → get key (log_allowed limits now j table).1 ≡ (
          if j == key
          then some (take_token limits now (bucket_or_full limits now (get j table))).1
          else get key table)
  unfolding log_allowed
  log_allowed-get now j table u h =
      get-evict limits key _ (put_last-IsUnique limits j _ table u) h
      ∙ get-put_last limits j key _ table u

  log_allowed-decides :
      (now : ℕ) (j : K) (table : Dict K Bucket)
      → (log_allowed limits now j table).0
        ≡ (take_token limits now (bucket_or_full limits now (get j table))).0
  unfolding log_allowed
  log_allowed-decides now j table = refl

  paid :
      (trace : Trace) (table : Dict K Bucket) (b : Bucket) (from until : ℕ)
      → IsUnique (keys table)
      → get key table ≡ some b
      → b.updated ≤ from
      → IsTimely from until trace
      → IsStaying trace table
      → times_allowed trace table * limits.period ≤ b.tokens + (until - b.updated) * limits.count
  paid [] table b from until u g o t s = omega arith
  paid ((now, j) ∷ trace) table b from until u g o (h, t) (here, s) = elim (e.dec j key) [
    | yes same ↦
        let got : get j table ≡ some b = rw same g in
        let b' : Bucket = (take_token limits now b).1 in
        let later : get key (log_allowed limits now j table).1 ≡ some b' =
          log_allowed-get now j table u here ∙ (rw (same, ==_refl, g) refl) in
        let rest =
          paid trace (log_allowed limits now j table).1 b' now until
            (log_allowed-IsUnique now j table u) later
            (omega (arith, take_token-updated limits now b)) t s in
        let end : now ≤ until = IsTimely-le now until trace t in
        counted limits (j == key) (log_allowed limits now j table).0 (take_token limits now b).0
          (times_allowed trace (log_allowed limits now j table).1) b b' now until
          (log_allowed-decides now j table ∙ (rw got refl)) (take_token-pays limits now b)
          (take_token-updated limits now b) rest (omega arith) end
    | no other ↦
        let rest =
          paid trace (log_allowed limits now j table).1 b now until
            (log_allowed-IsUnique now j table u)
            (log_allowed-get now j table u here ∙ (rw (==_ne j key other) g)) (omega arith) t s in
        rw (==_ne j key other) (omega (arith, rest))
  ]

  -- Beyond the tokens that the bucket of a key holds, the key is allowed no more often than the
  -- rate says for the time since, whatever other keys ask in between; as long as its bucket is not
  -- evicted, the clock does not go back, and each key has one bucket.
  pub times_allowed-le :
      (trace : Trace) (table : Dict K Bucket) (b : Bucket) (until : ℕ)
      → IsUnique (keys table)
      → get key table ≡ some b
      → IsTimely b.updated until trace
      → IsStaying trace table
      → times_allowed trace table * limits.period ≤ b.tokens + (until - b.updated) * limits.count
  times_allowed-le trace table b until u g t s =
      paid trace table b b.updated until u g (omega arith) t s
