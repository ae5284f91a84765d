-- ===== src/Hints/Enriched.antt =====
-- What a prompt of the CLI becomes in enrich_prompt_request of
-- qubes_snitch/dns_cache_runtime.py.
use qubes_snitch.Prelude.{
  ℕ, ◌≤◌, true, ℕ_eq, ◌+◌, ◌*◌, ◌≡◌, refl, inl, inr, Text, codes, List, [], ◌∷◌, ◌++◌, Bool, false,
  not, any, Option, none, some, ltb, Bool-cases, Option-cases,
}
use qubes_snitch.Prelude.Strings.{rstrip}
use qubes_snitch.Request.{Request, ip_text}
use qubes_snitch.Hints.{CacheLimits}
use qubes_snitch.Hints.Bounds.{IsWithin}
use qubes_snitch.Hints.Bounds.Stored.{store_dns_labels-IsWithin}
use qubes_snitch.Hints.Refresh.{
  Resolution, Hinting, dns_rule_refreshable, stale_response_rule, cached_qname_labels,
}
use qubes_snitch.Hints.Answered.{IsAnswered, IsCached}
use qubes_snitch.Hints.Lookup.{
  Found, resolve_dns_rule, refresh_dns_rule, keeps_host, with_found, qname_labels,
}

abbrev pub Alerts : Type 0
Alerts = List (List Text × Text)

abbrev pub is_beyond_ascii : Text → Bool
is_beyond_ascii = any (λ c. ltb 127 c)

-- What the alert says of a name with other characters than those of ASCII.
abbrev pub ptr_alert : Request → List Text × Text
ptr_alert r = (
  codes "dns" ∷ r.source ∷ codes "non-ascii-ptr" ∷ ip_text r.dst ∷ [],
  codes "DROP PTR containing non-ASCII text SRC=" ++ r.source ++ codes " DST=" ++ ip_text r.dst,
)

abbrev pub no_target : Option (List Text) → Bool
no_target none = true
no_target (some []) = true
no_target (some (answer ∷ answers)) = false

module _ (limits : CacheLimits) (dns_python : Resolution) (r : Request) where
  -- The states in which the search looks into the cache: the first one, or the one behind the
  -- refresh of the rule of a stale entry for the address.
  pub data IsLookedInto (st : Hinting) : Hinting → Type 0 where
    first : IsLookedInto st st
    behind :
        (rule : Text × Text)
        → stale_response_rule st.clock r.source r.dst st.cache ≡ some rule
        → IsLookedInto st (refresh_dns_rule limits dns_python r.source rule st).1

  -- A prompt stays what it was where its host is kept, and where the address has no name. It gets
  -- as its host the name of an A record: one that a lookup made now has answered with its address,
  -- or the one that a fresh entry of its source in the cache has for its address. Or it gets the
  -- name of the first PTR record of its address, if that is ASCII, and it is discarded with one
  -- alert if it is not.
  pub data IsEnriched (st : Hinting) : Option Request → Alerts → Type 0 where
    kept : keeps_host r ≡ true → IsEnriched st (some r) st.alerts
    nameless :
        (now : ℕ)
        → st.clock ≤ now
        → no_target (dns_python.ptr_records now r.dst).0 ≡ true
        → IsEnriched st (some r) st.alerts
    answered :
        (label : Text)
        → IsAnswered dns_python st.clock r.dst label
        → IsEnriched st (some (record r { host = some (codes "A " ++ label) })) st.alerts
    cached :
        (label : Text) (seen : Hinting)
        → IsLookedInto st seen
        → IsCached seen r.source r.dst label
        → IsEnriched st (some (record r { host = some (codes "A " ++ label) })) st.alerts
    ptr_named :
        (now : ℕ) (answer : Text) (answers : List Text)
        → st.clock ≤ now
        → (dns_python.ptr_records now r.dst).0 ≡ some (answer ∷ answers)
        → is_beyond_ascii (rstrip b'.' answer) ≡ false
        → IsEnriched st
            (some (record r { host = some (codes "PTR " ++ rstrip b'.' answer) }))
            st.alerts
    discarded :
        (now : ℕ) (answer : Text) (answers : List Text)
        → st.clock ≤ now
        → (dns_python.ptr_records now r.dst).0 ≡ some (answer ∷ answers)
        → is_beyond_ascii (rstrip b'.' answer) ≡ true
        → IsEnriched st none (st.alerts ++ ptr_alert r ∷ [])

  -- What a search for the name of the prompt's address leaves of a good state.
  record IsSearched (st : Hinting) (result : Found × Hinting) : Type 0 where
    enriched : IsEnriched st (with_found r result).0 (with_found r result).1.alerts
    within : IsWithin limits (with_found r result).1.cache

  refresh_dns_rule-IsWithin :
      (source : Text) (rule : Text × Text) (st : Hinting)
      → IsWithin limits st.cache
      → IsWithin limits (refresh_dns_rule limits dns_python source rule st).1.cache
        × ((refresh_dns_rule limits dns_python source rule st).1.alerts ≡ st.alerts)
  unfolding refresh_dns_rule
  refresh_dns_rule-IsWithin source (qname, qtype) st w =
      elim (Bool-cases (not (dns_rule_refreshable qname qtype))) [
        | inl t ↦ rw t (w, refl)
        | inr f ↦
            let ((labels, ttl), took) = resolve_dns_rule limits dns_python st.clock qname qtype in
            rw f (
              store_dns_labels-IsWithin limits (st.clock + took) source qname qtype labels
                  (ttl * dns_python.second) st.cache w,
              refl,
            )
      ]

  qname_labels-IsWithin :
      (source : Text) (rule : Text × Text) (st : Hinting)
      → IsWithin limits st.cache
      → IsWithin limits (qname_labels limits dns_python source rule st).1.cache
  unfolding qname_labels
  qname_labels-IsWithin source (qname, qtype) st w =
      elim (Option-cases (cached_qname_labels st.clock source qname qtype st.cache)) [
        | inl n ↦ rw (qname_labels, n) ((refresh_dns_rule-IsWithin source (qname, qtype) st w).0)
        | inr (labels, g) ↦ rw (qname_labels, g) w
      ]
