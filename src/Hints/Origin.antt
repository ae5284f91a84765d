-- ===== src/Hints/Origin.antt =====
-- Where a name of the hint cache comes from.
use qubes_snitch.Prelude.{
  ℕ, ◌+◌, ◌≡◌, refl, sym, ap, ◌∙◌, ◌⊎◌, inl, inr, Text, Text_eq, [], ◌∷◌, Eq, Bool, true, false,
  ◌&&◌, ◌||◌, some, ◌==◌, ℕ_eq, ==_refl, if◌then◌else◌, arith, Bool-cases,
}
use mathlib.Core.Path.{subst}
use qubes_snitch.Prelude.Dict
use qubes_snitch.Prelude.Dict.{Dict, keys, get, put, IsUnique, get-put, get-remove}
use qubes_snitch.Request.{Ip}
use qubes_snitch.Hints.Evict.{evicted}
use qubes_snitch.Hints.Eviction.Limit.{get-evicted, evicted-IsUnique}
use qubes_snitch.Hints.Eviction.{remove-IsUnique}
use qubes_snitch.Hints.{
  Response, ResponseKey, NamesKey, ResponseKey_eq, NamesKey_eq, Cache, CacheLimits, of_source,
  any_source, response_matches_qname, evict_responses, evict_qnames, remove_owned, old_labels,
  remove_old_qname_ips, put_labels, with_labels, evict_dns_cache_for_source, evict_dns_cache_global,
  evict_qname_cache_for_source, evict_qname_cache_global, store_dns_labels,
}
use qubes_snitch.Hints.Bounds.{responses-evict, remove_owned-IsUnique, put_labels-IsUnique}

-- The labels have an address with a label.
abbrev pub has_label : Ip → Text → Dict Ip Text → Bool
has_label ip label [] = false
has_label ip label ((i, l) ∷ labels) = (i == ip && l == label) || has_label ip label labels

-- An entry is that of a store.
pub record IsOf (ip : Ip) (expires_at : ℕ) (labels : Dict Ip Text) (r : Response) : Type 0 where
  pub has : has_label ip r.label labels ≡ true
  pub expiry : r.expires_at ≡ expires_at

module _ {ℓ κ} {K : Type ℓ} {V : Type κ} ⦃e : Eq K⦄ where
  -- An entry that is left has been there.
  get-evicted-some :
      (expires : V → ℕ) (now : ℕ) (test : K → Bool) (limit : ℕ) (k : K) (v : V) (m : Dict K V)
      → IsUnique (keys m)
      → get k (evicted expires now test limit m) ≡ some v
      → get k m ≡ some v
  get-evicted-some expires now test limit k v m u h =
      ground (arith, get-evicted expires now test limit m u k)

get-remove_owned :
    (key : NamesKey) (labels : Dict Ip Text) (k : ResponseKey) (r : Response)
    (m : Dict ResponseKey Response)
    → IsUnique (keys m)
    → get k (remove_owned key labels m) ≡ some r
    → get k m ≡ some r
unfolding remove_owned
get-remove_owned key [] k r m u h = h
get-remove_owned (source, (qtype, qname)) ((ip, label) ∷ labels) k r m u h =
    elim (Bool-cases (response_matches_qname (get (source, ip) m) qname qtype label)) [
      | inl t ↦
          let g =
            get-remove_owned (source, (qtype, qname)) labels k r (Dict.remove (source, ip) m)
              (remove-IsUnique (source, ip) m u) (rw t at h) in
          ground (arith, get-remove (source, ip) k m u)
      | inr f ↦ get-remove_owned (source, (qtype, qname)) labels k r m u (rw f at h)
    ]

has_label-cons :
    (ip : Ip) (l : Text) (i : Ip) (label : Text) (labels : Dict Ip Text)
    → has_label ip l labels ≡ true
    → has_label ip l ((i, label) ∷ labels) ≡ true
has_label-cons ip l i label labels h = ground arith

has_label_self :
    (ip : Ip) (label : Text) (labels : Dict Ip Text)
    → has_label ip label ((ip, label) ∷ labels) ≡ true
has_label_self ip label labels = rw (==_refl ip, ==_refl label) refl

-- An entry after the puts is one of the store or an old one.
get-put_labels :
    (source qtype qname : Text) (expires_at : ℕ) (labels : Dict Ip Text) (s : Text) (ip : Ip)
    (r : Response) (m : Dict ResponseKey Response)
    → get (s, ip) (put_labels (source, (qtype, qname)) expires_at labels m) ≡ some r
    → ((s ≡ source) × IsOf ip expires_at labels r) ⊎ (get (s, ip) m ≡ some r)
unfolding put_labels
get-put_labels source qtype qname expires_at [] s ip r m h = inr h
get-put_labels source qtype qname expires_at ((i, label) ∷ labels) s ip r m h =
    elim (get-put_labels source qtype qname expires_at labels s ip r _ h) [
      | inl (same, own) ↦ inl (
        same,
        record { has = has_label-cons ip r.label i label labels own.has; expiry = own.expiry },
      )
      | inr g ↦ placed (e.dec (source, i) (s, ip)) (sym (get-put (source, i) (s, ip) new m) ∙ g)
    ]
  where
    e : Eq ResponseKey
    e = ResponseKey_eq

    new : Response
    new = record { label = label; qname = qname; qtype = qtype; expires_at = expires_at }

    placed :
        (d : Dec (◌≡◌ {A = ResponseKey} (source, i) (s, ip)))
        → (if elim d [ yes p ↦ true | no p ↦ false ] then some new else get (s, ip) m) ≡ some r
        → ((s ≡ source) × IsOf ip expires_at ((i, label) ∷ labels) r) ⊎ (get (s, ip) m ≡ some r)
    placed (no n) q = inr q
    placed (yes p) q =
        let same : new ≡ r = cc in
        let at : i ≡ ip = ap (λ (k : ResponseKey). k.1) p in
        inl (
          ap (λ (k : ResponseKey). k.0) (sym p),
          record {
            has = rw at (
                subst (λ (r : Response). has_label ip r.label ((ip, label) ∷ labels) ≡ true) same
                  (has_label_self ip label labels));
            expiry = ap (λ (r : Response). r.expires_at) (sym same);
          },
        )

module _ (limits : CacheLimits) (now : ℕ) (source qname qtype : Text) (labels : Dict Ip Text)
    (ttl : ℕ) (cache : Cache) (u : IsUnique (keys cache.responses)) where
  abbrev stored : Cache
  stored = with_labels (source, (qtype, qname)) (now + ttl) labels cache

  abbrev left : Dict Ip Text
  left = old_labels (get (source, (qtype, qname)) cache.qnames)

  abbrev expires : Response → ℕ
  expires r = r.expires_at

  unique_left : IsUnique (keys (remove_owned (source, (qtype, qname)) left cache.responses))
  unique_left = remove_owned-IsUnique (source, (qtype, qname)) left cache.responses u

  unique_stored : IsUnique (keys stored.responses)
  unfolding with_labels remove_old_qname_ips
  unique_stored = put_labels-IsUnique source qtype qname (now + ttl) labels _ unique_left

  stored_responses :
      (store_dns_labels limits now source qname qtype labels ttl cache).responses
      ≡ evicted expires now any_source limits.max_global
          (evicted expires now (of_source source) limits.max_per_source stored.responses)
  unfolding store_dns_labels evict_dns_cache_for_source evict_dns_cache_global
      evict_qname_cache_for_source evict_qname_cache_global evict_qnames
  stored_responses =
      responses-evict now limits.max_global
        (evict_responses now (of_source source) limits.max_per_source stored) any_source
      ∙ ap (evicted expires now any_source limits.max_global)
          (responses-evict now limits.max_per_source stored (of_source source))

  pub get-stored :
      (s : Text) (ip : Ip) (r : Response)
      → get (s, ip) (store_dns_labels limits now source qname qtype labels ttl cache).responses
        ≡ some r
      → ((s ≡ source) × IsOf ip (now + ttl) labels r) ⊎ (get (s, ip) cache.responses ≡ some r)
  unfolding with_labels remove_old_qname_ips
  get-stored s ip r h = elim (get-put_labels source qtype qname (now + ttl) labels s ip r _ found) [
    | inl p ↦ inl p
    | inr g ↦ inr (get-remove_owned (source, (qtype, qname)) left (s, ip) r cache.responses u g)
  ]
    where
      found : get (s, ip) stored.responses ≡ some r
      found =
          get-evicted-some expires now (of_source source) limits.max_per_source (s, ip) r
            stored.responses unique_stored
            (get-evicted-some expires now any_source limits.max_global (s, ip) r _
              (evicted-IsUnique expires now (of_source source) limits.max_per_source
                stored.responses unique_stored)
              (rw (← stored_responses) h))
