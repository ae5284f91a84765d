-- ===== src/Config/Resolve.antt =====
-- resolve_dest_dns of qubes_snitch/config.py.
pub mod Sorted
use qubes_snitch.Prelude.{
  ℕ, Text, List, [], ◌∷◌, Bool, Option, none, some, ltb, leb, ◌==◌, ℕ_eq, if◌then◌else◌,
}
use qubes_snitch.Prelude.Result.{Result, ok, err, system_exit, ◌>>=◌}
use qubes_snitch.Request.{Ip}

-- An answer of the resolver, as ipaddress reads its text.
pub data Answer : Type 0 where
  v4 : Ip → Answer
  v6 : Answer
  unreadable : Answer

-- dns.resolver.resolve(name, "A", lifetime=3.0), where none is any exception of it.
abbrev pub Resolver : Type 0
Resolver = Text → Option (List Answer)

-- sorted(set(ips), key=ipaddress.ip_address), one address at a time.
unfoldable pub insert : Ip → List Ip → List Ip
insert a [] = a ∷ []
insert a (b ∷ bs) = if a == b then b ∷ bs else if ltb a b then a ∷ b ∷ bs else b ∷ insert a bs

unfoldable pub sorted_set : List Ip → List Ip
sorted_set [] = []
sorted_set (a ∷ as_) = insert a (sorted_set as_)

-- Any answer that is no IPv4 address aborts.
unfoldable pub ipv4_answers : List Answer → Result (List Ip)
ipv4_answers [] = ok []
ipv4_answers (v4 a ∷ answers) = do ips ← ipv4_answers answers; ok (a ∷ ips)
ipv4_answers (v6 ∷ answers) = err system_exit
ipv4_answers (unreadable ∷ answers) = err system_exit

some_ips : List Ip → Result (List Ip)
some_ips [] = err system_exit
some_ips (a ∷ ips) = ok (a ∷ ips)

resolved_answers : Option (List Answer) → Result (List Ip)
unfolding sorted_set ipv4_answers some_ips
resolved_answers none = err system_exit
resolved_answers (some answers) = do ips ← ipv4_answers answers; some_ips (sorted_set ips)

unfoldable pub resolve_dest_dns : Resolver → Text → Result (List Ip)
unfolding resolved_answers
resolve_dest_dns resolver name = resolved_answers (resolver name)
