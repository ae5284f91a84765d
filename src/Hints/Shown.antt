-- ===== src/Hints/Shown.antt =====
-- What stands behind the name that the packet callback attaches to a request.
use qubes_snitch.Prelude.{
  ℕ, zero, suc, refl, ap, ◌∙◌, ◌+◌, ◌*◌, ◌<◌, ◌≡◌, inl, inr, Text, Text_eq, List, [], ◌∷◌, true,
  ◌&&◌, ◌||◌, Option, none, some, any, ◌==◌, ℕ_eq, ==_refl, arith, Option-cases,
}
use qubes_snitch.Prelude.Dict.{Dict, get, put}
use qubes_snitch.Request.{Ip}
use qubes_snitch.Hints.{Response, ResponseKey_eq, Cache, CacheLimits, fresh_response_label}
use qubes_snitch.Hints.Refresh.{AnswerSet, answer_ttl, labels_of}
use qubes_snitch.Hints.Lookup.{labels_and_ttl}
use qubes_snitch.Hints.Origin.{has_label, get-stored}
use qubes_snitch.Hints.History.{
  Lookup, Reach, start, refreshed, forgotten, has_ip, tells, lifetime, holds_for, get-without,
  Reach-IsWithin,
}
use qubes_snitch.Runtime.{without_hints}

has_label-put :
    (ip i : Ip) (label l : Text) (labels : Dict Ip Text)
    → has_label ip label (put i l labels) ≡ true
    → ((i == ip && l == label) || has_label ip label labels) ≡ true
unfolding put
has_label-put ip i label l [] h = h
has_label-put ip i label l ((j, k) ∷ labels) h = ground (arith, has_label-put ip i label l labels)

has_label-labels_of :
    (ip : Ip) (label qname : Text) (ips : List Ip) (labels : Dict Ip Text)
    → has_label ip label (labels_of qname ips labels) ≡ true
    → ((qname == label && any (λ a. a == ip) ips) || has_label ip label labels) ≡ true
unfolding labels_of
has_label-labels_of ip label qname [] labels h = ground arith
has_label-labels_of ip label qname (a ∷ ips) labels h = ground (
  arith,
  has_label-labels_of ip label qname ips (put a qname labels) h,
  has_label-put ip a label qname labels,
)

-- The labels of a refresh are its name, at the addresses of the answer.
pub has_label-labels_and_ttl :
    (ip : Ip) (label qname : Text) (answers : Option AnswerSet)
    → has_label ip label (labels_and_ttl qname answers).0 ≡ true
    → (qname == label && has_ip ip answers) ≡ true
unfolding labels_and_ttl
has_label-labels_and_ttl ip label qname none h = absurd (cc)
has_label-labels_and_ttl ip label qname (some answers) h =
    ground (arith, has_label-labels_of ip label qname answers.addresses [] h)

answer_ttl-lifetime : (t : Option ℕ) → answer_ttl t ≡ lifetime t
unfolding answer_ttl
answer_ttl-lifetime none = refl
answer_ttl-lifetime (some zero) = ground arith
answer_ttl-lifetime (some (suc n)) = ground arith

-- An answer that has an address is stored for its time to live.
ttl-holds_for :
    (ip : Ip) (label qname : Text) (answers : Option AnswerSet)
    → (qname == label && has_ip ip answers) ≡ true
    → (labels_and_ttl qname answers).1 ≡ holds_for answers
unfolding labels_and_ttl
ttl-holds_for ip label qname none h = absurd (ground arith)
ttl-holds_for ip label qname (some answers) h = answer_ttl-lifetime answers.ttl

module _ (limits : CacheLimits) (second : ℕ) where
  entry-told :
      (now : ℕ) (source : Text) (ip : Ip) (r : Response) (ls : List Lookup) (c : Cache)
      → Reach limits second ls c
      → get (source, ip) c.responses ≡ some r
      → now < r.expires_at
      → any (tells second now source ip r.label) ls ≡ true
  unfolding without_hints get
  entry-told now source ip r _ _ start g fresh = absurd (cc)
  entry-told now source ip r _ _ (refreshed l {ls} {c} run) g fresh =
      elim (get-stored limits l.at l.source l.qname l.qtype labels (ttl * second) c
        (Reach-IsWithin limits second ls c run).responses.unique source ip r g) [
          | inl (same, own) ↦
              let named = has_label-labels_and_ttl ip r.label l.qname l.answers own.has in
              let expiry : r.expires_at ≡ l.at + holds_for l.answers * second =
                own.expiry
                ∙ ap (λ t. l.at + t * second) (ttl-holds_for ip r.label l.qname l.answers named) in
              ground (arith, ==_refl source)
          | inr old ↦ ground (arith, entry-told now source ip r ls c run old fresh)
        ]
    where
      labels : Dict Ip Text
      labels = (labels_and_ttl l.qname l.answers).0

      ttl : ℕ
      ttl = (labels_and_ttl l.qname l.answers).1
  entry-told now source ip r _ _ (forgotten gone {ls} {c} run) g fresh =
      entry-told now source ip r ls c run
        (get-without gone (source, ip) r c.responses
          (Reach-IsWithin limits second ls c run).responses.unique g)
        fresh

  fresh_entry :
      (now : ℕ) (source : Text) (ip : Ip) (c : Cache) (label : Text)
      → fresh_response_label now source ip c ≡ some label
      → (r : Response) × (get (source, ip) c.responses ≡ some r)
        × (now < r.expires_at)
        × (r.label ≡ label)
  unfolding fresh_response_label
  fresh_entry now source ip c label h = elim (Option-cases (get (source, ip) c.responses)) [
    | inl n ↦ absurd (ground arith)
    | inr (r, g) ↦ (r, g, ground arith, ground arith)
  ]

  -- In every run of refreshes and cleanups, a name that the packet callback may attach to a
  -- packet of a source to an address is one that a refresh for that source itself has asked for,
  -- that was answered with the address, and whose time to live is not over. That is the one of
  -- the answer; an answer without one, or with 0, counts for 60 seconds.
  pub fresh_response_label-Told :
      (now : ℕ) (source : Text) (ip : Ip) (ls : List Lookup) (c : Cache) (label : Text)
      → Reach limits second ls c
      → fresh_response_label now source ip c ≡ some label
      → any (tells second now source ip label) ls ≡ true
  fresh_response_label-Told now source ip ls c label run h =
      let (r, g, fresh, same) = fresh_entry now source ip c label h in
      rw (← same) (entry-told now source ip r ls c run g fresh)
