-- ===== src/Alerts/Buckets.antt =====
-- log_allowed of qubes_snitch/alerts_runtime.py: a token bucket for each key of the log.
pub mod Bounds
pub mod Rate
use qubes_snitch.Prelude.{
  ℕ, ◌+◌, ◌-◌, ◌*◌, List, [], ◌∷◌, ◌++◌, Bool, true, false, Option, none, some, length, leb, Eq,
  ◌==◌, if◌then◌else◌,
}
use qubes_snitch.Prelude.Dict
use qubes_snitch.Prelude.Dict.{Dict, get}

-- CONFIG["limit_rate"], CONFIG["burst"] and CONFIG["log_bucket_max_entries"]: count tokens in each
-- period. Times are numbers of a tick of the monotonic clock, and period the ticks of the
-- period of the rate. The tokens of a bucket, which are fractions of one token, are numbers of
-- its period-th part, so that a whole token is period.
pub record Limits : Type 0 where
  pub count : ℕ
  pub period : ℕ
  pub burst : ℕ
  pub max_entries : ℕ

pub record Bucket : Type 0 where
  pub tokens : ℕ
  pub updated : ℕ

abbrev pub least : ℕ → ℕ → ℕ
least a b = if leb a b then a else b

module _ (limits : Limits) where
  -- min(burst, tokens + (now - updated) * count / seconds)
  abbrev pub refilled : ℕ → Bucket → ℕ
  refilled now b =
      least (limits.burst * limits.period) (b.tokens + (now - b.updated) * limits.count)

  -- The decision, and the bucket after it.
  unfoldable pub take_token : ℕ → Bucket → Bool × Bucket
  take_token now b =
      let tokens = refilled now b in
      if leb limits.period tokens
      then (true, record { tokens = tokens - limits.period; updated = now })
      else (false, record { tokens = tokens; updated = now })

  -- LOG_BUCKETS.get(key, (burst, now))
  abbrev pub bucket_or_full : ℕ → Option Bucket → Bucket
  bucket_or_full now none = record { tokens = limits.burst * limits.period; updated = now }
  bucket_or_full now (some b) = b

  module _ {ℓ} {K : Type ℓ} ⦃e : Eq K⦄ where
    -- LOG_BUCKETS[key] = ...; LOG_BUCKETS.move_to_end(key)
    abbrev pub put_last : K → Bucket → Dict K Bucket → Dict K Bucket
    put_last key b table = Dict.remove key table ++ (key, b) ∷ []

  module _ {ℓ} {K : Type ℓ} where
    -- while len(LOG_BUCKETS) > max: LOG_BUCKETS.popitem(last=False)
    unfoldable pub evict : Dict K Bucket → Dict K Bucket
    evict [] = []
    evict (x ∷ table) =
        let rest = evict table in
        if leb (length (x ∷ table)) limits.max_entries then x ∷ table else rest

  module _ {ℓ} {K : Type ℓ} ⦃e : Eq K⦄ where
    unfoldable pub log_allowed : ℕ → K → Dict K Bucket → Bool × Dict K Bucket
    unfolding take_token evict
    log_allowed now key table =
        let (allowed, b) = take_token now (bucket_or_full now (get key table)) in
        (allowed, evict (put_last key b table))
