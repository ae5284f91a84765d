-- ===== src/Hints/Bounds/Soonest.antt =====
-- The evictions of responses in qubes_snitch/dns_cache_runtime.py keep what holds longest.
use qubes_snitch.Prelude.{ℕ, ◌≤◌, ◌≡◌, sym, ap, ◌∙◌, Bool, true, none, some}
use qubes_snitch.Prelude.Dict.{get, keys, IsUnique}
use qubes_snitch.Hints.Eviction.Soonest.{evicted_soonest}
use qubes_snitch.Hints.{Response, ResponseKey, ResponseKey_eq, Cache, evict_responses}
use qubes_snitch.Hints.Bounds.{responses-evict}

-- An eviction of responses, for a source or for all, deletes none that expires later than one of
-- the same source, or of all, that stays; so no fresh entry goes while a stale one stays.
pub evict_responses_soonest :
    (now limit : ℕ) (test : ResponseKey → Bool) (cache : Cache) (k j : ResponseKey)
    (gone stays : Response)
    → IsUnique (keys cache.responses)
    → test k ≡ true
    → test j ≡ true
    → get k cache.responses ≡ some gone
    → get k (evict_responses now test limit cache).responses ≡ none
    → get j (evict_responses now test limit cache).responses ≡ some stays
    → gone.expires_at ≤ stays.expires_at
evict_responses_soonest now limit test cache k j gone stays u p q was out left =
    let same = responses-evict now limit cache test in
    evicted_soonest (λ (r : Response). r.expires_at) now test limit cache.responses u k j gone stays
      p q was (ap (get k) (sym same) ∙ out) (ap (get j) (sym same) ∙ left)
