-- ===== src/Handlers/Monad.antt =====
-- The state of the daemon that a packet callback reads and writes, and actions on it that may
-- raise. The state comes back beside an exception too.
use qubes_snitch.Prelude.{Text, List, [], ◌∷◌, ◌++◌}
use qubes_snitch.Prelude.Dict.{Dict}
use qubes_snitch.Prelude.Result.{Result, ok, err, Error}
use qubes_snitch.Request.{Ip, Request}
use qubes_snitch.Policy.{Rules}
use qubes_snitch.Queue.{Queue}

-- packet.accept() and packet.drop()
pub data Verdict : Type 0 where
  accept drop : Verdict

-- The calls of alerts_runtime.
pub data Event : Type 0 where
  flow_reject dns_reject malformed_dns malformed_packet unknown_source : Request → Event
  pending queue_full prompt : Request → Event
  unparsed : Event

pub record Daemon : Type 0 where
  pub sources_by_name : Dict Text (List Ip)
  pub sources_by_ip : Dict Ip Text
  pub source_labels : Dict Text Text
  pub source_display_by_ip : Dict Ip Text
  pub rules : Rules
  pub queue : Queue
  pub events : List Event

-- One call of the callback: the daemon, the verdicts that the packet was given, and the requests
-- that were answered by REFUSED.
pub record Callback : Type 0 where
  pub daemon : Daemon
  pub verdicts : List Verdict
  pub refused : List Request

abbrev pub Exec {ℓ} : Type ℓ → Type ℓ
Exec A = Callback → Result A × Callback

module _ {ℓ} {A : Type ℓ} where
  unfoldable pub pure : A → Exec A
  pure a c = (ok a, c)

  unfoldable pub raise : Error → Exec A
  raise e c = (err e, c)

  unfoldable pub lift : Result A → Exec A
  lift r c = (r, c)

  unfoldable pub gets : (Daemon → A) → Exec A
  gets f c = (ok (f c.daemon), c)

unfoldable pub change : (Daemon → Daemon) → Exec (Unit {0})
change f c = (ok tt, record c { daemon = f c.daemon })

unfoldable pub verdict : Verdict → Exec (Unit {0})
verdict v c = (ok tt, record c { verdicts = c.verdicts ++ v ∷ [] })

unfoldable pub refuse : Request → Exec (Unit {0})
refuse r c = (ok tt, record c { refused = c.refused ++ r ∷ [] })

module _ {ℓ κ} {A : Type ℓ} {B : Type κ} where
  abbrev pub continue : Result A → (A → Exec B) → Exec B
  continue (ok a) f c = f a c
  continue (err e) f c = (err e, c)

  infixl 5 ◌>>=◌
  -- Opening this opens the actions above too.
  unfoldable pub ◌>>=◌ : Exec A → (A → Exec B) → Exec B
  unfolding pure raise lift gets change verdict refuse
  ◌>>=◌ m f c = let (r, c') = m c in continue r f c'

infixl 5 ◌>>◌
abbrev pub ◌>>◌ {κ} : {B : Type κ} → Exec (Unit {0}) → Exec B → Exec B
m >> k = m >>= λ _. k
