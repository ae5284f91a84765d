-- ===== src/Handlers/Safety.antt =====
-- A packet is accepted only where the policy allows it.
pub mod Prompt
pub mod Accepted
pub mod Packet
use qubes_snitch.Prelude.{
  ◌≡◌, ◌≢◌, refl, ap, sym, ◌∙◌, suc, ◌+◌, Text, Text_eq, List, [], ◌∷◌, ◌++◌, length, length-append,
  Bool, true, false, not, Option, none, some, if◌then◌else◌, Bool-cases, inl, inr, arith,
  Option-cases,
}
use qubes_snitch.Prelude.Result.{Result, ok, err, Error, ok-injective}
use qubes_snitch.Handlers.Monad.{
  Verdict, accept, drop, Event, Daemon, Callback, Exec, pure, raise, lift, gets, change, verdict,
  refuse, continue, ◌>>=◌,
}
use qubes_snitch.Handlers.Verdicts.{Quiet}

snoc-ne : (vs : List Verdict) (v : Verdict) → vs ≢ vs ++ v ∷ []
snoc-ne vs v e = omega (arith, length-append {0} vs (v ∷ []), ap length e)

snoc-injective : (vs : List Verdict) (v w : Verdict) → vs ++ v ∷ [] ≡ vs ++ w ∷ [] → v ≡ w
snoc-injective [] v w e = cc
snoc-injective (x ∷ vs) v w e = snoc-injective vs v w (cc)

-- From a state with Q, the action gives no verdict, and a value that it returns stands in R to the
-- state after it.
pub record Gives {ℓ} {A : Type ℓ} (Q : Daemon → Type 0) (R : A → Daemon → Type 0) (m : Exec A)
    : Type ℓ where
  pub at : (c : Callback) (a : A) → Q c.daemon → (m c).0 ≡ ok a → R a (m c).1.daemon

-- From a state with Q, the action accepts the packet only in a state with P.
pub record Grants (Q P : Daemon → Type 0) (m : Exec (Unit {0})) : Type 0 where
  pub at :
      (c : Callback) → Q c.daemon → (m c).1.verdicts ≡ c.verdicts ++ accept ∷ [] → P (m c).1.daemon

module _ {Q P : Daemon → Type 0} where
  pub Grants-accept : ((d : Daemon) → Q d → P d) → Grants Q P (verdict accept)
  unfolding verdict
  Grants-accept h = record { at = λ c q e. h c.daemon q }

  pub Grants-drop : Grants Q P (verdict drop)
  unfolding verdict
  Grants-drop = record { at = λ c q e. absurd (distinct (snoc-injective c.verdicts drop accept e)) }
    where
      distinct : drop ≡ accept → ⊥
      distinct e = cc

  pub Grants-Quiet : (m : Exec (Unit {0})) → Quiet m → Grants Q P m
  Grants-Quiet m h = record { at = λ c q e. absurd (snoc-ne c.verdicts accept (sym (h.at c) ∙ e)) }

  pub Grants-if :
      (b : Bool) (m n : Exec (Unit {0}))
      → Grants Q P m
      → Grants Q P n
      → Grants Q P (if b then m else n)
  Grants-if true m n gm gn = gm
  Grants-if false m n gm gn = gn

module _ {ℓ} {A : Type ℓ} {P : Daemon → Type 0} {R : A → Daemon → Type 0} where
  continue-Grants :
      (r : Result A) (f : A → Exec (Unit {0})) (c : Callback)
      → ((a : A) → r ≡ ok a → R a c.daemon)
      → ((a : A) → Grants (R a) P (f a))
      → (continue r f c).1.verdicts ≡ c.verdicts ++ accept ∷ []
      → P (continue r f c).1.daemon
  continue-Grants (ok a) f c h g e = (g a).at c (h a refl) e
  continue-Grants (err x) f c h g e = absurd (snoc-ne c.verdicts accept e)

module _ {ℓ} {A : Type ℓ} {Q P : Daemon → Type 0} {R : A → Daemon → Type 0} where
  pub Grants-bind :
      (m : Exec A) (f : A → Exec (Unit {0}))
      → Quiet m
      → Gives Q R m
      → ((a : A) → Grants (R a) P (f a))
      → Grants Q P (m >>= f)
  unfolding ◌>>=◌
  Grants-bind m f quiet gives g = record {
    at = λ c q e.
        continue-Grants (m c).0 f (m c).1 (λ a h. gives.at c a q h) g
          (e ∙ ap (λ vs. vs ++ accept ∷ []) (sym (quiet.at c)));
  }

module _ {ℓ} {A : Type ℓ} {Q : Daemon → Type 0} {R : A → Daemon → Type 0} where
  pub Gives-pure : (a : A) → ((d : Daemon) → Q d → R a d) → Gives Q R (pure a)
  unfolding pure
  Gives-pure a h = record { at = λ c b q e. rw (← ok-injective e) (h c.daemon q) }

  pub Gives-raise : (e : Error) → Gives Q R (raise e)
  unfolding raise
  Gives-raise e = record { at = λ c b q h. absurd (cc) }

  pub Gives-if :
      (b : Bool) (m n : Exec A) → Gives Q R m → Gives Q R n → Gives Q R (if b then m else n)
  Gives-if true m n gm gn = gm
  Gives-if false m n gm gn = gn

module _ {ℓ κ} {A : Type ℓ} {B : Type κ} {S : A → Daemon → Type 0} {R : B → Daemon → Type 0} where
  continue-Gives :
      (r : Result A) (f : A → Exec B) (c : Callback) (b : B)
      → ((a : A) → r ≡ ok a → S a c.daemon)
      → ((a : A) → Gives (S a) R (f a))
      → (continue r f c).0 ≡ ok b
      → R b (continue r f c).1.daemon
  continue-Gives (ok a) f c b h g e = (g a).at c b (h a refl) e
  continue-Gives (err x) f c b h g e = absurd (cc)

module _ {ℓ κ} {A : Type ℓ} {B : Type κ} {Q : Daemon → Type 0} {S : A → Daemon → Type 0}
    {R : B → Daemon → Type 0} where
  pub Gives-bind :
      (m : Exec A) (f : A → Exec B)
      → Gives Q S m
      → ((a : A) → Gives (S a) R (f a))
      → Gives Q R (m >>= f)
  unfolding ◌>>=◌
  Gives-bind m f gives g = record {
    at = λ c b q e. continue-Gives (m c).0 f (m c).1 b (λ a h. gives.at c a q h) g e;
  }
