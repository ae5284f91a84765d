-- ===== src/Runtime/Forgotten.antt =====
-- Nothing of a numbered disposable that vanished or was reused survives a refresh.
use qubes_snitch.Prelude.{
  ℕ, ◌≡◌, ◌≢◌, refl, sym, ap, ◌∙◌, inl, inr, Text, Text_eq, Text-discrete, List, [], ◌∷◌, Bool,
  true, false, ◌&&◌, ◌||◌, not, Option, none, some, ◌==◌, ==_refl, ==_ne, ==_iff, if◌then◌else◌,
  arith, Bool-cases,
}
use mathlib.Core.Path.{subst}
use qubes_snitch.Prelude.Dict
use qubes_snitch.Prelude.Dict.{
  Dict, keys, get, put, has, has_key, IsUnique, erase, keys-remove, has_key-erase, erase-IsUnique,
  get-put, get-none_of_has, get-some_of_has, get-remove,
}
use qubes_snitch.Request.{Request}
use qubes_snitch.Config.Names.{is_numbered_dispvm}
use qubes_snitch.Config.Sources.{Sources}
use qubes_snitch.Policy.{SourceRules}
use qubes_snitch.Policy.Append.{no_rules}
use qubes_snitch.Queue.{Key, key_source, remove_pending_for_source}
use qubes_snitch.Queue.Invariant.{IsQueue, remove_pending_for_source-IsQueue}
use qubes_snitch.Queue.Claims.{without, remove_pending_for_source-without}
use qubes_snitch.Alerts.Lines.{LogKey_eq}
use qubes_snitch.Runtime.{
  Runtime, without_source, without_hints, forget, forget_all, has_vanished, is_reused, cleaned_up,
  cleanup_disposable_rule_entries, cleanup_reused_numbered_dispvm_entries,
}

-- A cache or the queue has an entry of a source.
abbrev pub has_pending : Text → Dict Key Request → Bool
has_pending source [] = false
has_pending source ((k, r) ∷ m) = key_source k == source || has_pending source m

abbrev pub has_cached {ℓ κ} : {K : Type ℓ} {V : Type κ} → Text → Dict (Text × K) V → Bool
has_cached source [] = false
has_cached source (((s, k), v) ∷ m) = s == source || has_cached source m

-- No rule at all.
abbrev pub IsFresh : Option SourceRules → Type 0
IsFresh none = Unit
IsFresh (some r) = r ≡ no_rules

-- No rule, no file, no question and no cached name of a source is left.
pub record IsForgotten (source : Text) (rt : Runtime) : Type 0 where
  pub rules : IsFresh (get source rt.rules)
  pub files : has source rt.files ≡ false
  pub pending : has_pending source rt.queue.questions ≡ false
  pub responses : has_cached source rt.hints.responses ≡ false
  pub qnames : has_cached source rt.hints.qnames ≡ false

-- Each source has at most one entry of rules and one file, and the queue is well formed.
pub record IsTidy (size : ℕ) (rt : Runtime) : Type 0 where
  pub rules : IsUnique (keys rt.rules)
  pub files : IsUnique (keys rt.files)
  pub queue : IsQueue size rt.queue

pub has-remove {ℓ} :
    {V : Type ℓ} (x y : Text) (m : Dict Text V)
    → IsUnique (keys m)
    → has x (Dict.remove y m) ≡ (not (y == x) && has x m)
has-remove x y m u = rw (keys-remove y m) (has_key-erase x y (keys m) u)

pub remove-IsUnique {ℓ} :
    {V : Type ℓ} (y : Text) (m : Dict Text V)
    → IsUnique (keys m)
    → IsUnique (keys (Dict.remove y m))
remove-IsUnique y m u = rw (keys-remove y m) (erase-IsUnique y (keys m) u)

has_pending-without :
    (x y : Text) (m : Dict Key Request)
    → has_pending x (without (λ k r. key_source k == y) m) ≡ (not (y == x) && has_pending x m)
unfolding without
has_pending-without x y [] = ground arith
has_pending-without x y ((k, r) ∷ m) = ground (arith, has_pending-without x y m)

has_cached-without {ℓ κ} :
    {K : Type ℓ} {V : Type κ} (x y : Text) (m : Dict (Text × K) V)
    → has_cached x (without_source y m) ≡ (not (y == x) && has_cached x m)
unfolding without_source
has_cached-without x y [] = ground arith
has_cached-without x y (((s, k), v) ∷ m) = ground (arith, has_cached-without x y m)

none_left {ℓ} :
    {V : Type ℓ} (x : Text) (m : Dict Text V) → IsUnique (keys m) → get x (Dict.remove x m) ≡ none
none_left x m u = get-remove x x m u ∙ (rw (==_refl x) refl)

module _ (size : ℕ) where
  forget-IsTidy : (y : Text) (rt : Runtime) → IsTidy size rt → IsTidy size (forget y rt)
  unfolding forget
  forget-IsTidy y rt v = record {
    rules = remove-IsUnique y rt.rules v.rules;
    files = remove-IsUnique y rt.files v.files;
    queue = remove_pending_for_source-IsQueue size y rt.queue v.queue;
  }

  pending-forget :
      (x y : Text) (rt : Runtime)
      → IsTidy size rt
      → has_pending x (remove_pending_for_source y rt.queue).questions
        ≡ (not (y == x) && has_pending x rt.queue.questions)
  pending-forget x y rt v =
      rw (remove_pending_for_source-without size y rt.queue v.queue)
        (has_pending-without x y rt.queue.questions)

  forget-IsForgotten : (x : Text) (rt : Runtime) → IsTidy size rt → IsForgotten x (forget x rt)
  unfolding forget without_hints
  forget-IsForgotten x rt v = record {
    rules = subst IsFresh (sym (none_left x rt.rules v.rules)) tt;
    files = has-remove x x rt.files v.files ∙ (rw (==_refl x) refl);
    pending = pending-forget x x rt v ∙ (rw (==_refl x) refl);
    responses = has_cached-without x x rt.hints.responses ∙ (rw (==_refl x) refl);
    qnames = has_cached-without x x rt.hints.qnames ∙ (rw (==_refl x) refl);
  }

  if-IsFresh : (b : Bool) (o : Option SourceRules) → IsFresh o → IsFresh (if b then none else o)
  if-IsFresh true o h = tt
  if-IsFresh false o h = h

  keep_false : (b c : Bool) → c ≡ false → (b && c) ≡ false
  keep_false b c h = ground arith

  forget_other-IsForgotten :
      (x y : Text) (rt : Runtime) → IsTidy size rt → IsForgotten x rt → IsForgotten x (forget y rt)
  unfolding forget without_hints
  forget_other-IsForgotten x y rt v f = record {
    rules =
        subst IsFresh (sym (get-remove y x rt.rules v.rules))
          (if-IsFresh (y == x) (get x rt.rules) f.rules);
    files = has-remove x y rt.files v.files ∙ keep_false _ _ f.files;
    pending = pending-forget x y rt v ∙ keep_false _ _ f.pending;
    responses = has_cached-without x y rt.hints.responses ∙ keep_false _ _ f.responses;
    qnames = has_cached-without x y rt.hints.qnames ∙ keep_false _ _ f.qnames;
  }

  module _ (test : Text → Bool) where
    abbrev one : Text → Runtime → Runtime
    one y rt = if test y then forget y rt else rt

    one-IsTidy : (y : Text) (rt : Runtime) → IsTidy size rt → IsTidy size (one y rt)
    one-IsTidy y rt v = elim (test y) as (λ b. IsTidy size (if b then forget y rt else rt)) [
      | true ↦ forget-IsTidy y rt v
      | false ↦ v
    ]

    one-stays :
        (x y : Text) (rt : Runtime) → IsTidy size rt → IsForgotten x rt → IsForgotten x (one y rt)
    one-stays x y rt v f = elim (test y) as (λ b. IsForgotten x (if b then forget y rt else rt)) [
      | true ↦ forget_other-IsForgotten x y rt v f
      | false ↦ f
    ]

    forget_all-IsTidy :
        (names : List Text) (rt : Runtime) → IsTidy size rt → IsTidy size (forget_all test names rt)
    unfolding forget_all
    forget_all-IsTidy [] rt v = v
    forget_all-IsTidy (y ∷ names) rt v = forget_all-IsTidy names (one y rt) (one-IsTidy y rt v)

    pub forget_all-stays :
        (x : Text) (names : List Text) (rt : Runtime)
        → IsTidy size rt
        → IsForgotten x rt
        → IsForgotten x (forget_all test names rt)
    unfolding forget_all
    forget_all-stays x [] rt v f = f
    forget_all-stays x (y ∷ names) rt v f =
        forget_all-stays x names (one y rt) (one-IsTidy y rt v) (one-stays x y rt v f)

    -- The loop forgets the sources that it meets and that the test picks.
    forget_all-IsForgotten :
        (x : Text) (names : List Text) (rt : Runtime)
        → IsTidy size rt
        → has_key x names ≡ true
        → test x ≡ true
        → IsForgotten x (forget_all test names rt)
    unfolding forget_all
    forget_all-IsForgotten x [] rt v h t = absurd (cc)
    forget_all-IsForgotten x (y ∷ names) rt v h t = elim (Text-discrete y x) [
      | yes e ↦
          forget_all-stays x names (one y rt) (one-IsTidy y rt v)
            (rw (e, t) (forget-IsForgotten x rt v))
      | no n ↦ forget_all-IsForgotten x names (one y rt) (one-IsTidy y rt v) (ground arith) t
    ]

    -- A source that the test does not pick keeps its rules, and the sources do not change.
    forget_all-has :
        (x : Text) (names : List Text) (rt : Runtime)
        → IsTidy size rt
        → test x ≡ false
        → has x rt.rules ≡ true
        → has x (forget_all test names rt).rules ≡ true
    unfolding forget_all
    forget_all-has x [] rt v t h = h
    forget_all-has x (y ∷ names) rt v t h =
        forget_all-has x names (one y rt) (one-IsTidy y rt v) t (one_has (test y) refl)
      where
        other : test y ≡ true → y ≡ x → ⊥
        other e q = cc

        one_has : (b : Bool) → test y ≡ b → has x (if b then forget y rt else rt).rules ≡ true
        one_has false e = h
        one_has true e = has-remove x y rt.rules v.rules ∙ (rw (==_ne y x (other e)) h)

    forget_all-sources :
        (names : List Text) (rt : Runtime) → (forget_all test names rt).sources ≡ rt.sources
    unfolding forget_all
    forget_all-sources [] rt = refl
    forget_all-sources (y ∷ names) rt = forget_all-sources names (one y rt) ∙ same (test y)
      where
        same : (b : Bool) → (if b then forget y rt else rt).sources ≡ rt.sources
        same true = refl
        same false = refl

  -- After both cleanups nothing of a numbered disposable is left, if it had an entry of rules and
  -- its addresses are others than before or it has none any more.
  pub cleaned-IsForgotten :
      (new : Sources) (rt : Runtime) (x : Text)
      → IsTidy size rt
      → is_numbered_dispvm x ≡ true
      → has x rt.sources.by_name ≡ true
      → has x rt.rules ≡ true
      → get x new.by_name ≢ get x rt.sources.by_name
      → IsForgotten x (cleaned_up new rt)
  unfolding cleaned_up cleanup_reused_numbered_dispvm_entries cleanup_disposable_rule_entries
  cleaned-IsForgotten new rt x v n old known other =
      let seen : Runtime = record rt { sources = new } in
      let tidy : IsTidy size seen = record { rules = v.rules; files = v.files; queue = v.queue } in
      let test = is_reused rt.sources.by_name new in
      let names = keys rt.sources.by_name in
      let first = forget_all test names seen in
      let tidy' = forget_all-IsTidy test names seen tidy in
      elim (Bool-cases (test x)) [
        | inl e ↦
            forget_all-stays (has_vanished first.sources) x (keys first.rules) first tidy'
              (forget_all-IsForgotten test x names seen tidy old e)
        | inr e ↦
            forget_all-IsForgotten (has_vanished first.sources) x (keys first.rules) first tidy'
              (forget_all-has test x names seen tidy e known)
              (subst (λ s. has_vanished s x ≡ true) (sym (forget_all-sources test names seen))
                (gone e))
      ]
    where
      clash :
          (ips ips' : List Text)
          → get x rt.sources.by_name ≡ some ips
          → get x new.by_name ≡ some ips'
          → is_reused rt.sources.by_name new x ≡ false
          → ⊥
      clash ips ips' p q e = other (q ∙ (ap some ((==_iff ips' ips).0 (ground arith)) ∙ sym p))

      gone : is_reused rt.sources.by_name new x ≡ false → has_vanished new x ≡ true
      gone e = elim (Bool-cases (has x new.by_name)) [
        | inr h ↦ rw (h, n) refl
        | inl h ↦
            let (ips, p) = get-some_of_has x rt.sources.by_name old in
            let (ips', q) = get-some_of_has x new.by_name h in absurd (clash ips ips' p q e)
      ]
