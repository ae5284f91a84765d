-- ===== src/Client/Decides.antt =====
-- A key of the prompt decides, and the daemon takes the answer.
use qubes_snitch.Prelude.{
  ◌||◌, ℕ, ◌≡◌, refl, Text, Text_eq, codes, List, [], ◌∷◌, Bool, true, ◌&&◌, any, Option, none,
  some, leb, length, ◌==◌, ℕ_eq, if◌then◌else◌,
}
use qubes_snitch.Prelude.Result.{Result, Error, err}
use qubes_snitch.Request.{Request}
use qubes_snitch.Config.Settings.{Settings}
use qubes_snitch.Ui.{Terminal, packet_line}
use qubes_snitch.Config.DnsRule.{RdataTypes}
use qubes_snitch.Config.Resolve.{Resolver}
use qubes_snitch.Queue.{Decision, is_hostname}
use qubes_snitch.Answers.{decision_of}
use qubes_snitch.Client.{add_hostname_choices, has_choices, ask_loop, ask}

-- The choice among the four keys.
pick : Bool → Bool → Bool → Bool → Option Text
pick b1 b2 b3 b4 =
    if b1
    then some (codes "allow")
    else if b2
    then some (codes "reject")
    else if b3
    then some (codes "allow-dns")
    else if b4
    then some (codes "reject-dns")
    else none

-- What an answer of the client is for the daemon.
abbrev IsAnswer : Request → Text → Type 0
IsAnswer r word =
    (d : Decision) × (decision_of word ≡ some d) × (is_hostname d ≡ true → has_choices r ≡ true)

-- The two keys that every prompt shows.
abbrev pub always_shown : ℕ → Bool
always_shown key = key == b'a' || key == b'r'

-- The request has two addresses at least, its own among them.
abbrev pub HasSeveral : Request → Type 0
HasSeveral r = (leb 2 (length r.resolved_dests) && any (λ a. a == r.dst) r.resolved_dests) ≡ true

-- Where the line cannot be shown, the client ends without an answer, whatever is pressed.
ask_raises :
    (terminal : Terminal) (config : Settings) (types : RdataTypes) (resolver : Resolver)
    (r : Request) (keys : List ℕ) (e : Error)
    → packet_line terminal config (add_hostname_choices types resolver r) ≡ err e
    → ask terminal config types resolver r keys ≡ (err e, [])
unfolding ask ask_loop
ask_raises terminal config types resolver r [] e h = rw h refl
ask_raises terminal config types resolver r (key ∷ keys) e h = rw h refl
