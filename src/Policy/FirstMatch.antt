-- ===== src/Policy/FirstMatch.antt =====
-- The first matching rule decides.
use qubes_snitch.Prelude.{
  ◌≡◌, ◌↔◌, refl, ap, List, [], ◌∷◌, ◌++◌, Bool, true, false, Option, none, some, All, arith,
  if◌then◌else◌,
}
use qubes_snitch.Prelude.Result.{Result, ok, err, ◌>>=◌}
use qubes_snitch.Dns.Rules.{Action}
use qubes_snitch.Policy.{first_match}

module _ {ℓ} {R : Type ℓ} (matches : R → Result Bool) (action : R → Action) where
  -- The rule that decides, with the rules before it, none of which matches.
  pub record Decides (a : Action) (rules : List R) : Type ℓ where
    pub earlier : List R
    pub rule : R
    pub later : List R
    pub listed : rules ≡ earlier ++ rule ∷ later
    pub missed : All (λ r. matches r ≡ ok false) earlier
    pub hit : matches rule ≡ ok true
    pub decision : action rule ≡ a

  Decides-head :
      {a : Action} (r : R) (rs : List R) → matches r ≡ ok true → action r ≡ a → Decides a (r ∷ rs)
  Decides-head r rs h e = record {
    earlier = [];
    rule = r;
    later = rs;
    listed = refl;
    missed = tt;
    hit = h;
    decision = e;
  }

  Decides-tail :
      {a : Action} {r : R} {rs : List R} → matches r ≡ ok false → Decides a rs → Decides a (r ∷ rs)
  Decides-tail {r} h d = record {
    earlier = r ∷ d.earlier;
    rule = d.rule;
    later = d.later;
    listed = ap (◌∷◌ r) d.listed;
    missed = (h, d.missed);
    hit = d.hit;
    decision = d.decision;
  }

  -- A decision comes from a rule of the list that matches, and no rule before it does.
  pub first_match-Decides :
      (a : Action) (rules : List R)
      → first_match matches action rules ≡ ok (some a)
      → Decides a rules
  unfolding first_match
  first_match-Decides a [] h = absurd (nothing h)
    where
      nothing : ok none ≡ ok (some a) → ⊥
      nothing k = cc
  first_match-Decides a (r ∷ rs) h = split (matches r) refl (first_match-Decides a rs) h
    where
      split :
          (m : Result Bool)
          → matches r ≡ m
          → (first_match matches action rs ≡ ok (some a) → Decides a rs)
          → (m >>= λ hit. if hit then ok (some (action r)) else first_match matches action rs)
            ≡ ok (some a)
          → Decides a (r ∷ rs)
      split (ok true) e ih k = Decides-head r rs e (cc)
      split (ok false) e ih k = Decides-tail e (ih k)
      split (err x) e ih k = absurd (cc)

  pub Decides-first_match :
      (a : Action) (earlier : List R) (rule : R) (later : List R)
      → All (λ r. matches r ≡ ok false) earlier
      → matches rule ≡ ok true
      → first_match matches action (earlier ++ rule ∷ later) ≡ ok (some (action rule))
  unfolding first_match
  Decides-first_match a [] rule later missed hit = rw hit
  Decides-first_match a (r ∷ rs) rule later (here, missed) hit =
      rw here (Decides-first_match a rs rule later missed hit)

  -- No rule decides exactly when each of them is tested and misses.
  pub first_match-none_iff :
      (rules : List R)
      → (first_match matches action rules ≡ ok none) ↔ All (λ r. matches r ≡ ok false) rules
  unfolding first_match
  first_match-none_iff [] = (λ h. tt, λ h. refl)
  first_match-none_iff (r ∷ rs) = ground (arith, first_match-none_iff rs)

  -- A rule that matches and is added at the end decides where no rule decided before, and changes
  -- nothing where one did.
  pub first_match-append :
      (rules : List R) (rule : R) (d : Option Action)
      → first_match matches action rules ≡ ok d
      → matches rule ≡ ok true
      → first_match matches action (rules ++ rule ∷ [])
        ≡ ok (elim d [ none ↦ some (action rule) | some a ↦ some a ])
  unfolding first_match
  first_match-append [] rule d h hit = ground arith
  first_match-append (r ∷ rs) rule d h hit = ground (arith, first_match-append rs rule d)

  -- A decision stands whatever is added after the rules.
  pub first_match-append_some :
      (rules added : List R) (a : Action)
      → first_match matches action rules ≡ ok (some a)
      → first_match matches action (rules ++ added) ≡ ok (some a)
  unfolding first_match
  first_match-append_some [] added a h = absurd (cc)
  first_match-append_some (r ∷ rs) added a h = ground (arith, first_match-append_some rs added a)
