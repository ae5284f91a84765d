-- ===== src/Answers.antt =====
-- The CLI's side of qubes_snitch/queue.py: an answer is read, prepared and saved.
pub mod Effects
pub mod Prepared
pub mod Kept
use qubes_snitch.Prelude.{
  ℕ, Text, Text_eq, codes, List, [], ◌∷◌, Bool, true, false, ◌&&◌, not, any, Option, none, some,
  length, leb, ◌==◌, ℕ_eq, if◌then◌else◌,
}
use qubes_snitch.Prelude.Result.{Result, ok, err, system_exit, require, ◌>>=◌, ◌>>◌}
use qubes_snitch.Request.{Ip, Request}
use qubes_snitch.Config.DnsRule.{RdataTypes, validate_dest_dns_name}
use qubes_snitch.Config.Resolve.{Resolver, resolve_dest_dns}
use qubes_snitch.Policy.Append.{is_a_host, host_name}
use qubes_snitch.Queue.{
  Key, Queue, Decision, allow, allow_dns, reject, reject_dns, is_hostname, claim,
  discard_pending_decision,
}

-- The rules in memory and on disk and the loaded table, as the callbacks change them:
-- append_rule and load_nft of policy_runtime.py.
pub record Callbacks (W : Type 0) : Type 0 where
  pub append_rule : Request → Decision → W → Result (Unit {0}) × W
  pub load_nft : W → Result (Unit {0}) × W

-- The request with the addresses of the name: several of them, with its own.
with_ips : Request → List Ip → Result Request
with_ips r ips = do
  require (leb 2 (length ips) && any (λ a. a == r.dst) ips) system_exit
  ok (record r { resolved_dests = ips })

with_name : Resolver → Request → Text → Result Request
unfolding with_ips
with_name resolver r name = resolve_dest_dns resolver name >>= with_ips r

-- The request gets the addresses of its name, for an answer by name.
unfoldable pub prepare_hostname_decision :
    RdataTypes → Resolver → Request → Decision → Result Request
unfolding with_name
prepare_hostname_decision types resolver r d = if not (is_hostname d) then ok r else (do
  require (is_a_host r.host) system_exit
  name ← validate_dest_dns_name types (host_name r.host)
  with_name resolver r name)

-- The four words of the CLI.
unfoldable pub decision_of : Text → Option Decision
decision_of t =
    if t == codes "allow"
    then some allow
    else if t == codes "allow-dns"
    then some allow_dns
    else if t == codes "reject"
    then some reject
    else if t == codes "reject-dns"
    then some reject_dns
    else none

module _ {W : Type 0} (calls : Callbacks W) where
  loaded : Queue → Result (Unit {0}) × W → Result (Unit {0}) × Queue × W
  loaded q (err e, w) = (err e, q, w)
  loaded q (ok u, w) = let (result, w') = calls.load_nft w in (result, q, w')

  -- After the claim: a stale answer is ignored.
  claimed : Request → Decision → Option Queue → Queue → W → Result (Unit {0}) × Queue × W
  unfolding loaded
  claimed r d none q w = (ok tt, q, w)
  claimed r d (some q') q w = loaded q' (calls.append_rule r d w)

  prepared : Key → Result Request → Decision → Queue → W → Result (Unit {0}) × Queue × W
  unfolding claimed
  prepared key (err e) d q w = (err e, q, w)
  prepared key (ok r) d q w = claimed r d (claim key r d q) q w

  module _ (types : RdataTypes) (resolver : Resolver) where
    unfoldable pub save_pending_decision :
        Key → Request → Decision → Queue → W → Result (Unit {0}) × Queue × W
    unfolding prepared
    save_pending_decision key r d q w =
        prepared key (prepare_hostname_decision types resolver r d) d q w

    -- What is no answer leaves the prompt in the queue.
    decided : Key → Request → Option Decision → Queue → W → Result (Unit {0}) × Queue × W
    unfolding save_pending_decision
    decided key r none q w = (ok tt, q, w)
    decided key r (some d) q w = save_pending_decision key r d q w

    -- The line that the CLI sent, stripped: none where the connection broke.
    answered : Key → Request → Option Text → Queue → W → Result (Unit {0}) × Queue × W
    unfolding decided
    answered key r none q w = (ok tt, q, w)
    answered key r (some line) q w = decided key r (decision_of line) q w

    -- handle_cli_connection after its wait: the key and the request are those that
    -- next_pending_request gave, enriched is what enrich_request made of the request, and the
    -- queue is the one that the thread meets after the exchange with the CLI.
    unfoldable pub handle_cli_connection :
        Key → Request → Option Request → Option Text → Queue → W → Result (Unit {0}) × Queue × W
    unfolding answered
    handle_cli_connection key r none line q w = (ok tt, discard_pending_decision key r q, w)
    handle_cli_connection key r (some enriched) line q w = answered key enriched line q w
