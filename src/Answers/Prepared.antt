-- ===== src/Answers/Prepared.antt =====
-- An answer by host name.
use qubes_snitch.Prelude.{
  ◌≡◌, ◌≤◌, refl, Text, Text_eq, List, [], ◌∷◌, true, ◌&&◌, any, none, some, length, leb, ◌==◌,
  ℕ_eq, arith,
}
use qubes_snitch.Prelude.Result.{ok, system_exit, require, ◌>>=◌, >>=-eq-ok, require-true}
use qubes_snitch.Request.{Ip, Request}
use qubes_snitch.Config.DnsRule.{RdataTypes, validate_dest_dns_name}
use qubes_snitch.Config.Resolve.{Resolver, resolve_dest_dns}
use qubes_snitch.Policy.{named, dest_matches}
use qubes_snitch.Policy.Append.{is_a_host, host_name, dests}
use qubes_snitch.Queue.{Decision, is_hostname}
use qubes_snitch.Answers.{with_ips, with_name, prepare_hostname_decision}

-- The destinations that an answer by name is saved with: the name on disk, which is the one that
-- the A hint shows and which was validated, and in memory two addresses at least. They do not
-- depend on what the resolver of the saving would answer.
pub record IsNamed (types : RdataTypes) (r : Request) (d : Decision) : Type 0 where
  pub name : Text
  pub hint : is_a_host r.host ≡ true
  pub validated : validate_dest_dns_name types (host_name r.host) ≡ ok name
  pub ips : List Ip
  pub several : 2 ≤ length ips
  pub destinations :
      (later : Resolver) → dests types later r d ≡ ok (named name none, named name (some ips))
  pub covers : dest_matches r.dst (named name (some ips)) ≡ ok true

module _ (types : RdataTypes) (resolver : Resolver) where
  with_ips-inv :
      (r x : Request) (ips : List Ip)
      → with_ips r ips ≡ ok x
      → ((leb 2 (length ips) && any (λ a. a == r.dst) ips) ≡ true)
        × (x ≡ record r { resolved_dests = ips })
  unfolding with_ips
  with_ips-inv r x ips e = (ground arith, ground arith)

  with_name-inv :
      (r x : Request) (name : Text)
      → with_name resolver r name ≡ ok x
      → (ips : List Ip) × ((leb 2 (length ips) && any (λ a. a == r.dst) ips) ≡ true)
        × (x ≡ record r { resolved_dests = ips })
  unfolding with_name
  with_name-inv r x name e =
      let (ips, resolved, e1) = >>=-eq-ok (resolve_dest_dns resolver name) (with_ips r) e in
      let (c, same) = with_ips-inv r x ips e1 in (ips, c, same)

  pub prepared-inv :
      (r x : Request) (d : Decision)
      → is_hostname d ≡ true
      → prepare_hostname_decision types resolver r d ≡ ok x
      → (name : Text) × ((ips : List Ip) × (is_a_host r.host ≡ true)
          × (validate_dest_dns_name types (host_name r.host) ≡ ok name)
          × ((leb 2 (length ips) && any (λ a. a == r.dst) ips) ≡ true)
          × (x ≡ record r { resolved_dests = ips }))
  unfolding prepare_hostname_decision
  prepared-inv r x d h e =
      let (u, a, e1) =
        >>=-eq-ok (require (is_a_host r.host) system_exit)
          (λ u. validate_dest_dns_name types (host_name r.host) >>= with_name resolver r)
          (rw h at e) in
      let (name, valid, e2) =
        >>=-eq-ok (validate_dest_dns_name types (host_name r.host)) (with_name resolver r) e1 in
      let (ips, c, same) = with_name-inv r x name e2 in
      (name, (ips, require-true (is_a_host r.host) system_exit a, valid, c, same))

  saved :
      (r : Request) (d : Decision) (name : Text) (ips : List Ip)
      → is_hostname d ≡ true
      → is_a_host r.host ≡ true
      → validate_dest_dns_name types (host_name r.host) ≡ ok name
      → (leb 2 (length ips) && any (λ a. a == r.dst) ips) ≡ true
      → IsNamed types (record r { resolved_dests = ips }) d
  saved r d name [] h a v c = absurd (cc)
  saved r d name (i ∷ ips) h a v c = record {
    name = name;
    ips = i ∷ ips;
    several = ground arith;
    hint = a;
    validated = v;
    destinations = λ later. unfold dests in rw (h, a, v) refl;
    covers = unfold dest_matches in ground arith;
  }

  -- An answer by host name that could be prepared is saved with the name behind the "A " of the
  -- hint, as validate_dest_dns_name gives it, and in memory with two addresses at least, the one of
  -- the request among them; the saving gives the same whatever its resolver would answer.
  pub prepare_hostname_decision-IsNamed :
      (r x : Request) (d : Decision)
      → is_hostname d ≡ true
      → prepare_hostname_decision types resolver r d ≡ ok x
      → IsNamed types x d
  prepare_hostname_decision-IsNamed r x d h e =
      let (name, (ips, a, v, c, same)) = prepared-inv r x d h e in
      rw same (saved r d name ips h a v c)
