-- ===== src/Runtime/Refreshed.antt =====
-- The whole refresh, for a numbered disposable that vanished or was reused.
use mathlib.Core.Path.{subst}
use qubes_snitch.Prelude.{
  ℕ, ◌-◌, ◌≡◌, ◌≢◌, refl, sym, ap, ◌∙◌, Text, Text_eq, List, [], ◌∷◌, Bool, true, false, ◌&&◌, not,
  Option, none, some, ltb, ◌==◌, if◌then◌else◌, arith, Bool-cases, inl, inr,
}
use qubes_snitch.Prelude.Dict.{keys, get, put, has, get-put, get-none_of_has}
use qubes_snitch.Prelude.Result.{Result, ok, err}
use qubes_snitch.Request.{Bytes}
use qubes_snitch.Config.Names.{is_numbered_dispvm}
use qubes_snitch.Config.Sources.{Sources}
use qubes_snitch.Policy.{SourceRules}
use qubes_snitch.Policy.Append.{RuleFile, no_rules}
use qubes_snitch.Runtime.{
  Runtime, entered_file, entered_source, unless_raised, ensure_entries, published, cleaned_up,
  same_sources, refreshed, refresh_sources_and_nft,
}
use qubes_snitch.Runtime.Forgotten.{IsForgotten, IsFresh, IsTidy, cleaned-IsForgotten}

if-IsFresh :
    (b : Bool) (r : SourceRules) (o : Option SourceRules)
    → (b ≡ true → r ≡ no_rules)
    → IsFresh o
    → IsFresh (if b then some r else o)
if-IsFresh true r o e h = e refl
if-IsFresh false r o e h = h

-- An entry of a source changes no other; an empty one for the source itself is fresh.
put-IsForgotten :
    (x y : Text) (r : SourceRules) (rt : Runtime)
    → ((y == x) ≡ true → r ≡ no_rules)
    → IsForgotten x rt
    → IsForgotten x (record rt { rules = put y r rt.rules })
put-IsForgotten x y r rt e f = record {
  rules =
      subst IsFresh (sym (get-put y x r rt.rules))
        (if-IsFresh (y == x) r (get x rt.rules) e f.rules);
  files = f.files;
  pending = f.pending;
  responses = f.responses;
  qnames = f.qnames;
}

module _ (read : Bytes → Result RuleFile) (load : Runtime → Result (Unit {0})) (interval : ℕ)
    (x : Text) where
  entered-IsForgotten :
      (y : Text) (rt : Runtime) (o : Option Bytes)
      → get y rt.files ≡ o
      → IsForgotten x rt
      → IsForgotten x (entered_source read load interval y rt o).0
  unfolding entered_source
  entered-IsForgotten y rt none e f = put-IsForgotten x y no_rules rt (λ q. refl) f
  entered-IsForgotten y rt (some raw) e f = by_file (read raw)
    where
      other : (y == x) ≡ true → ⊥
      other q = ground (arith, get-none_of_has x rt.files f.files)

      by_file : (r : Result RuleFile) → IsForgotten x (entered_file read load interval y rt r).0
      by_file (err e) = f
      by_file (ok file) =
          put-IsForgotten x y (record { ip = file.rules4; dns = file.dns }) rt
            (λ q. absurd (other q)) f

  unless-IsForgotten :
      (rest : Runtime → Runtime × Result (Unit {0})) (p : Runtime × Result (Unit {0}))
      → ((rt : Runtime) → IsForgotten x rt → IsForgotten x (rest rt).0)
      → IsForgotten x p.0
      → IsForgotten x (unless_raised rest p).0
  unless-IsForgotten rest (rt, ok u) k f = k rt f
  unless-IsForgotten rest (rt, err e) k f = f

  pub ensure-IsForgotten :
      (names : List Text) (rt : Runtime)
      → IsForgotten x rt
      → IsForgotten x (ensure_entries read load interval names rt).0
  unfolding ensure_entries
  ensure-IsForgotten [] rt f = f
  ensure-IsForgotten (y ∷ names) rt f =
      unless-IsForgotten (ensure_entries read load interval names) _ (ensure-IsForgotten names)
        (first (has y rt.rules))
    where
      first :
          (b : Bool)
          → IsForgotten x
              (if b then (rt, ok tt) else entered_source read load interval y rt (get y rt.files)).0
      first true = f
      first false = entered-IsForgotten y rt (get y rt.files) refl f

  pub published-same : (p : Runtime × Result (Unit {0})) → (published read load interval p).0 ≡ p.0
  unfolding published
  published-same (rt, ok u) = refl
  published-same (rt, err e) = refl

  -- A refresh that publishes a new table leaves nothing of a numbered disposable which was known
  -- before with other addresses, or which is gone: no rule, no file, no question and no cached
  -- name, so that none of them serves a later qube of the same name. It had an entry of rules
  -- before, every source had one entry and one file at most, and the queue was well formed.
  pub refresh_sources_and_nft-IsForgotten :
      (size now : ℕ) (force : Bool) (new : Sources) (rt rt' : Runtime)
      → IsTidy size rt
      → is_numbered_dispvm x ≡ true
      → has x rt.sources.by_name ≡ true
      → has x rt.rules ≡ true
      → get x new.by_name ≢ get x rt.sources.by_name
      → refresh_sources_and_nft read load interval now force (ok new) rt ≡ (rt', ok true)
      → IsForgotten x rt'
  unfolding refresh_sources_and_nft refreshed
  refresh_sources_and_nft-IsForgotten size now force new rt rt' v n old known other h =
      elim (Bool-cases (not force && ltb (now - rt.last_refresh) interval)) [
        | inl e ↦ absurd (clash rt (rw e at h))
        | inr e ↦ elim (Bool-cases (same_sources new rt.sources)) [
          | inl s ↦ absurd (clash seen (rw (e, s) at h))
          | inr s ↦ done (rw (e, s) at h)
        ]
      ]
    where
      seen : Runtime
      seen = record rt { last_refresh = now }

      clash : (r : Runtime) → ◌≡◌ {A = Runtime × Result Bool} (r, ok false) (rt', ok true) → ⊥
      clash r q = cc

      ensured : Runtime × Result (Unit {0})
      ensured = ensure_entries read load interval (keys new.by_name) (cleaned_up new seen)

      done : published read load interval ensured ≡ (rt', ok true) → IsForgotten x rt'
      done q = subst (IsForgotten x) (sym (published-same ensured) ∙ ap (λ p. p.0) q) (
          ensure-IsForgotten (keys new.by_name) (cleaned_up new seen) (
            cleaned-IsForgotten size new seen x
              (record { rules = v.rules; files = v.files; queue = v.queue }) n old known other))
