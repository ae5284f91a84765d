-- ===== src/Packets/Ports.antt =====
-- normalize_port and request_port of qubes_snitch/packets.py.
pub mod Normal
use qubes_snitch.Prelude.{
  ℕ, ◌+◌, Text, Text_eq, codes, ◌∷◌, ◌++◌, Bool, true, false, ◌&&◌, Option, none, some, leb, ◌==◌,
  if◌then◌else◌, not, ℕ_eq,
}
use qubes_snitch.Prelude.Strings.{is_digits, has_char, before, after}
use qubes_snitch.Prelude.Decimal.{show, read}
use qubes_snitch.Prelude.Result.{Result, ok, err, value_error}
use qubes_snitch.Request.{Proto, has_ports, Request}

-- A port as a rule gives it: a bool, an int that is at least 0, one below, or a str.
pub data PortValue : Type 0 where
  flag : Bool → PortValue
  number : ℕ → PortValue
  negative : ℕ → PortValue
  text : Text → PortValue

-- socket.getservbyname(name, proto), where none is its OSError.
abbrev pub Services : Type 0
Services = Text → Proto → Option ℕ

abbrev pub any_port : Text
any_port = codes "any"

normalize_number : ℕ → Result Text
normalize_number n = if leb 1 n && leb n 65535 then ok (show n) else err value_error

normalize_range : ℕ → ℕ → Result Text
normalize_range a b =
    if leb 1 a && leb a b && leb b 65535 then ok (show a ++ b'-' ∷ show b) else err value_error

-- A text that is neither "any" nor a number, for a protocol with ports.
normalize_name : Option ℕ → Text → Result Text
unfolding normalize_range
normalize_name (some n) t = ok (show n)
normalize_name none t =
    if has_char b'-' t && (is_digits (before b'-' t) && is_digits (after b'-' t))
    then normalize_range (read (before b'-' t)) (read (after b'-' t))
    else err value_error

unfoldable pub normalize_port : Services → PortValue → Proto → Result Text
unfolding normalize_number normalize_name
normalize_port services (flag b) proto = err value_error
normalize_port services (number n) proto = normalize_number n
normalize_port services (negative n) proto = err value_error
normalize_port services (text t) proto =
    if t == any_port
    then ok any_port
    else if is_digits t
    then normalize_number (read t)
    else if not (has_ports proto)
    then err value_error
    else normalize_name (services t proto) t

-- str(request["dport"] or "any"): an absent port and port 0 are both "any".
unfoldable pub port_text : Option ℕ → Text
port_text none = any_port
port_text (some n) = if n == 0 then any_port else show n

abbrev pub request_port : Request → Text
request_port r = port_text r.dport
