-- ===== src/Answers/Effects.antt =====
-- What an answer changes.
use qubes_snitch.Prelude.{ℕ, ◌≡◌, ◌≢◌, refl, Text, Text_eq, Option, none, some}
use qubes_snitch.Prelude.Result.{Result, ok, err}
use qubes_snitch.Request.{Request}
use qubes_snitch.Config.DnsRule.{RdataTypes}
use qubes_snitch.Config.Resolve.{Resolver}
use qubes_snitch.Queue.{Key, Queue, Decision, claim}
use qubes_snitch.Queue.Invariant.{IsQueue, claim-IsQueue, discard_pending_decision-IsQueue}
use qubes_snitch.Answers.{
  Callbacks, prepare_hostname_decision, decision_of, loaded, claimed, prepared,
  save_pending_decision, decided, answered, handle_cli_connection,
}

module _ {W : Type 0} (calls : Callbacks W) (types : RdataTypes) (resolver : Resolver) where
  loaded-same : (q : Queue) (o : Result (Unit {0}) × W) → (loaded calls q o).1 ≡ q
  unfolding loaded
  loaded-same q (ok u, w) = refl
  loaded-same q (err e, w) = refl

  claimed-IsQueue :
      (size : ℕ) (key : Key) (r : Request) (d : Decision) (o : Option Queue) (q : Queue) (w : W)
      → IsQueue size q
      → claim key r d q ≡ o
      → IsQueue size (claimed calls r d o q w).1
  unfolding claimed
  claimed-IsQueue size key r d none q w v e = v
  claimed-IsQueue size key r d (some q') q w v e =
      rw (loaded-same q' (calls.append_rule r d w)) (claim-IsQueue size key r d q q' v e)

  prepared-IsQueue :
      (size : ℕ) (key : Key) (p : Result Request) (d : Decision) (q : Queue) (w : W)
      → IsQueue size q
      → IsQueue size (prepared calls key p d q w).1
  unfolding prepared
  prepared-IsQueue size key (err e) d q w v = v
  prepared-IsQueue size key (ok r) d q w v =
      claimed-IsQueue size key r d (claim key r d q) q w v refl

  decided-IsQueue :
      (size : ℕ) (key : Key) (r : Request) (o : Option Decision) (q : Queue) (w : W)
      → IsQueue size q
      → IsQueue size (decided calls types resolver key r o q w).1
  unfolding decided save_pending_decision
  decided-IsQueue size key r none q w v = v
  decided-IsQueue size key r (some d) q w v =
      prepared-IsQueue size key (prepare_hostname_decision types resolver r d) d q w v

  -- Whatever the CLI sends, a connection leaves a well-formed queue well formed.
  pub handle_cli_connection-IsQueue :
      (size : ℕ) (key : Key) (r : Request) (enriched : Option Request) (line : Option Text)
      (q : Queue) (w : W)
      → IsQueue size q
      → IsQueue size (handle_cli_connection calls types resolver key r enriched line q w).1
  unfolding handle_cli_connection answered
  handle_cli_connection-IsQueue size key r none line q w v =
      discard_pending_decision-IsQueue size key r q v
  handle_cli_connection-IsQueue size key r (some x) none q w v = v
  handle_cli_connection-IsQueue size key r (some x) (some l) q w v =
      decided-IsQueue size key x (decision_of l) q w v

  -- An answer that was taken: one of the four words, and a claim of the prepared request.
  abbrev pub IsTaken : Key → Option Request → Option Text → Queue → Type 0
  IsTaken key none line q = ⊥
  IsTaken key (some r) none q = ⊥
  IsTaken key (some r) (some l) q =
      (d : Decision) × (decision_of l ≡ some d)
      × ((x : Request) × (prepare_hostname_decision types resolver r d ≡ ok x)
          × ((q' : Queue) × (claim key x d q ≡ some q')))

  claimed-taken :
      (key : Key) (r : Request) (d : Decision) (o : Option Queue) (q : Queue) (w : W)
      → claim key r d q ≡ o
      → (claimed calls r d o q w).2 ≢ w
      → (q' : Queue) × (claim key r d q ≡ some q')
  unfolding claimed
  claimed-taken key r d none q w e h = absurd (h refl)
  claimed-taken key r d (some q') q w e h = (q', e)

  prepared-taken :
      (key : Key) (p : Result Request) (d : Decision) (q : Queue) (w : W)
      → (prepared calls key p d q w).2 ≢ w
      → (x : Request) × (p ≡ ok x) × ((q' : Queue) × (claim key x d q ≡ some q'))
  unfolding prepared
  prepared-taken key (err e) d q w h = absurd (h refl)
  prepared-taken key (ok r) d q w h = (r, refl, claimed-taken key r d (claim key r d q) q w refl h)

  decided-taken :
      (key : Key) (r : Request) (o : Option Decision) (q : Queue) (w : W)
      → (decided calls types resolver key r o q w).2 ≢ w
      → (d : Decision) × (o ≡ some d)
        × ((x : Request) × (prepare_hostname_decision types resolver r d ≡ ok x)
            × ((q' : Queue) × (claim key x d q ≡ some q')))
  unfolding decided save_pending_decision
  decided-taken key r none q w h = absurd (h refl)
  decided-taken key r (some d) q w h =
      (d, refl, prepared-taken key (prepare_hostname_decision types resolver r d) d q w h)

  -- The rules change only by an answer that is one of the four words, could be prepared, and
  -- claims its prompt: a broken connection, another line, an empty one and a stale answer leave
  -- the policy as it was.
  pub handle_cli_connection-IsTaken :
      (key : Key) (r : Request) (enriched : Option Request) (line : Option Text) (q : Queue) (w : W)
      → (handle_cli_connection calls types resolver key r enriched line q w).2 ≢ w
      → IsTaken key enriched line q
  unfolding handle_cli_connection answered
  handle_cli_connection-IsTaken key r none line q w h = absurd (h refl)
  handle_cli_connection-IsTaken key r (some x) none q w h = absurd (h refl)
  handle_cli_connection-IsTaken key r (some x) (some l) q w h =
      decided-taken key x (decision_of l) q w h
