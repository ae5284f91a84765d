-- ===== src/Client.antt =====
-- The questions of the command line client, src/qubes-snitch.py.
pub mod Decides
use qubes_snitch.Prelude.{
  ℕ, Text, Text_eq, codes, List, [], ◌∷◌, ◌++◌, Bool, true, false, ◌&&◌, not, any, Option, none,
  some, drop, leb, length, ◌==◌, ℕ_eq, if◌then◌else◌,
}
use qubes_snitch.Prelude.Strings.{starts_with}
use qubes_snitch.Prelude.Result.{Result, ok, err, value_error, ◌>>=◌}
use qubes_snitch.Request.{Ip, Request}
use qubes_snitch.Config.Settings.{Settings}
use qubes_snitch.Ui.{Terminal, packet_line}
use qubes_snitch.Config.DnsRule.{RdataTypes, from_option, validate_dest_dns_name}
use qubes_snitch.Config.Resolve.{Answer, v4, v6, unreadable, Resolver, sorted_set}

-- The IPv4 addresses among the answers; what is no address raises ValueError.
unfoldable pub v4_ips : List Answer → Result (List Ip)
v4_ips [] = ok []
v4_ips (v4 a ∷ answers) = do ips ← v4_ips answers; ok (a ∷ ips)
v4_ips (v6 ∷ answers) = v4_ips answers
v4_ips (unreadable ∷ answers) = err value_error

unfoldable pub resolve_hostname_ips : Resolver → Text → Result (List Ip)
unfolding v4_ips sorted_set
resolve_hostname_ips resolver hostname = do
  answers ← from_option (resolver hostname) value_error
  ips ← v4_ips answers
  ok (sorted_set ips)

-- Any exception leaves the request as it is; several addresses, the own one among them, do not.
abbrev pub with_choices : Request → Result (List Ip) → Request
with_choices r (err e) = r
with_choices r (ok ips) =
    if leb 2 (length ips) && any (λ a. a == r.dst) ips then record r { resolved_dests = ips } else r

abbrev pub prefixed_a : Option Text → Bool
prefixed_a none = false
prefixed_a (some host) = starts_with host (codes "A ")

abbrev pub after_a : Option Text → Text
after_a none = []
after_a (some host) = drop 2 host

unfoldable pub add_hostname_choices : RdataTypes → Resolver → Request → Request
unfolding resolve_hostname_ips
add_hostname_choices types resolver r =
    if not (prefixed_a r.host)
    then r
    else with_choices r
        (validate_dest_dns_name types (after_a r.host) >>= resolve_hostname_ips resolver)

-- "_resolved_dests" in request: the list has two addresses at least where it is there.
abbrev pub has_choices : Request → Bool
has_choices r = elim r.resolved_dests [ [] ↦ false | ip ∷ ips ↦ true ]

-- The answer of a key, if it is one of those that the prompt shows.
unfoldable pub answer_of : Request → ℕ → Option Text
answer_of r key =
    if key == b'a'
    then some (codes "allow")
    else if key == b'r'
    then some (codes "reject")
    else if key == b'A' && has_choices r
    then some (codes "allow-dns")
    else if key == b'R' && has_choices r
    then some (codes "reject-dns")
    else none

-- What an ask comes to: the answer with the keys that are left, none while no key has decided, or
-- an exception; and what is written.
abbrev pub Asked : Type 0
Asked = Result (Option (Text × List ℕ)) × Text

-- The prompt is shown, unless packet_line raises.
abbrev pub with_line : Result Text → (Text → Asked) → Asked
with_line (err e) rest = (err e, [])
with_line (ok line) rest = rest line

-- A key behind the prompt: its answer, or the next round.
abbrev pub after_key : Request → ℕ → List ℕ → Asked → Text → Asked
after_key r key keys (answer, written) line = elim (answer_of r key) [
  | some word ↦ (ok (some (word, keys)), line ++ key ∷ 10 ∷ [])
  | none ↦ (answer, line ++ 10 ∷ written)
]

module _ (terminal : Terminal) (config : Settings) where
  -- The loop over the keys that are pressed.
  unfoldable pub ask_loop : Request → List ℕ → Asked
  unfolding answer_of packet_line
  ask_loop r [] = with_line (packet_line terminal config r) (λ line. (ok none, line))
  ask_loop r (key ∷ keys) =
      with_line (packet_line terminal config r) (after_key r key keys (ask_loop r keys))

  unfoldable pub ask : RdataTypes → Resolver → Request → List ℕ → Asked
  unfolding ask_loop add_hostname_choices
  ask types resolver r keys = ask_loop (add_hostname_choices types resolver r) keys

  -- The line that is sent back.
  abbrev sent : Asked → Result (Option Text)
  sent (err e, written) = err e
  sent (ok none, written) = ok none
  sent (ok (some (word, rest)), written) = ok (some (word ++ 10 ∷ []))

  -- One connection, where nothing is sent back if no request came.
  unfoldable pub handle_request :
      RdataTypes → Resolver → Option Request → List ℕ → Result (Option Text)
  unfolding ask
  handle_request types resolver none keys = ok none
  handle_request types resolver (some r) keys = sent (ask types resolver r keys)
