-- ===== src/Ui/Palette.antt =====
-- The colors of qubes_snitch/ui.py.
use qubes_snitch.Prelude.{
  ℕ, Text, Text_eq, codes, [], ◌∷◌, ◌++◌, Option, none, some, ◌==◌, ℕ_eq, if◌then◌else◌,
}
use qubes_snitch.Prelude.Strings.{starts_with}
use qubes_snitch.Prelude.Dict.{Dict, get}
use qubes_snitch.Prelude.Result.{Result, ok, err, system_exit}
use qubes_snitch.Request.{Ip, Proto, icmp, Request, proto_text, Proto_eq}
use qubes_snitch.Config.Settings.Values.{Colors}
use qubes_snitch.Config.Settings.{is_used}

-- "\033[...m"
abbrev pub ansi : Text → Text
ansi t = 27 ∷ b'[' ∷ (t ++ codes "m")

abbrev pub reset : Text
reset = ansi (codes "0")

abbrev pub default_foreground : Text
default_foreground = ansi (codes "39")

abbrev pub unknown_source_color : Text
unknown_source_color = ansi (codes "1;91")

abbrev pub encrypted_protocol_color : Text
encrypted_protocol_color = ansi (codes "92")

abbrev pub unencrypted_protocol_color : Text
unencrypted_protocol_color = ansi (codes "93")

abbrev pub unlisted_protocol_color : Text
unlisted_protocol_color = ansi (codes "91")

abbrev pub qubes_internal_dns : Dict Ip Text
qubes_internal_dns =
    (0x0a8b0101, codes "qubes.dns-1.internal") ∷ (0x0a8b0102, codes "qubes.dns-2.internal") ∷ []

abbrev pub dark_label_colors : Dict Text Text
dark_label_colors =
    (codes "red", ansi (codes "91"))
    ∷ (codes "orange", ansi (codes "93"))
    ∷ (codes "yellow", ansi (codes "93"))
    ∷ (codes "green", ansi (codes "92"))
    ∷ (codes "gray", ansi (codes "97"))
    ∷ (codes "blue", ansi (codes "94"))
    ∷ (codes "purple", ansi (codes "95"))
    ∷ (codes "black", ansi (codes "97"))
    ∷ []

abbrev pub light_label_colors : Dict Text Text
light_label_colors =
    (codes "red", ansi (codes "31"))
    ∷ (codes "orange", ansi (codes "33"))
    ∷ (codes "yellow", ansi (codes "33"))
    ∷ (codes "green", ansi (codes "32"))
    ∷ (codes "gray", ansi (codes "90"))
    ∷ (codes "blue", ansi (codes "34"))
    ∷ (codes "purple", ansi (codes "35"))
    ∷ (codes "black", ansi (codes "30"))
    ∷ []

-- A label without a color ends the client.
unfoldable pub label_color : Text → Text → Result Text
label_color theme label =
    if label == codes "unknown"
    then ok default_foreground
    else elim (get label
        (if theme == codes "dark" then dark_label_colors else light_label_colors)) [
          | none ↦ err system_exit
          | some color ↦ ok color
        ]

unfoldable pub dns_kind_color : Text → Text
dns_kind_color theme = if theme == codes "dark" then ansi (codes "96") else ansi (codes "34")

unfoldable pub dns_traffic_color : Text → Request → Text
unfolding dns_kind_color
dns_traffic_color theme r = elim (get r.dst qubes_internal_dns) [
  | some name ↦ dns_kind_color theme
  | none ↦ unlisted_protocol_color
]

abbrev pub host_color : Option Text → Text
host_color none = unlisted_protocol_color
host_color (some []) = unlisted_protocol_color
host_color (some (c ∷ host)) =
    if starts_with (c ∷ host) (codes "A ")
    then encrypted_protocol_color
    else if starts_with (c ∷ host) (codes "PTR ")
    then unencrypted_protocol_color
    else default_foreground

unfoldable pub dns_color : Text → Request → Text
unfolding dns_kind_color
dns_color theme r = elim (get r.dst qubes_internal_dns) [
  | some name ↦ dns_kind_color theme
  | none ↦ host_color r.host
]

unfoldable pub protocol_color : Colors → Proto → Option ℕ → Text
protocol_color colors icmp port = unlisted_protocol_color
protocol_color colors proto none = default_foreground
protocol_color colors proto (some port) =
    if is_used (proto_text proto, port) colors.encrypted
    then encrypted_protocol_color
    else if is_used (proto_text proto, port) colors.unencrypted
    then unencrypted_protocol_color
    else unlisted_protocol_color
