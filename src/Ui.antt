-- ===== src/Ui.antt =====
-- The line of a prompt in the terminal, qubes_snitch/ui.py.
pub mod Palette
pub mod Cells
pub mod Layout
pub mod Shown
use qubes_snitch.Prelude.{
  ℕ, zero, suc, ◌+◌, ◌-◌, Text, Text_eq, codes, List, [], ◌∷◌, ◌++◌, Bool, true, false, ◌&&◌, ◌||◌,
  not, any, Option, none, some, length, ltb, ◌==◌, ℕ_eq, if◌then◌else◌,
}
use qubes_snitch.Prelude.Strings.{starts_with, rstrip}
use qubes_snitch.Prelude.Decimal.{show}
use qubes_snitch.Prelude.Dict.{Dict, get}
use qubes_snitch.Prelude.Result.{Result, ok, err, system_exit, value_error, ◌>>=◌}
use qubes_snitch.Request.{
  Ip, Proto, icmp, tcp, udp, other, Request, Kind, Question, net, dns, dns_error, ip_text,
  proto_text, Proto_eq,
}
use qubes_snitch.Config.Settings.Values.{Widths, Colors}
use qubes_snitch.Config.Settings.{Settings, is_used}
use qubes_snitch.Display.{Unicode, safe_text, max_display_text}
use qubes_snitch.Ui.Cells.{Part, room, rendered, gapped, spaces, padded, shown, escape}
use qubes_snitch.Ui.Palette.{
  ansi, reset, default_foreground, unknown_source_color, encrypted_protocol_color,
  unencrypted_protocol_color, unlisted_protocol_color, qubes_internal_dns, dark_label_colors,
  light_label_colors, label_color, dns_kind_color, dns_traffic_color, host_color, dns_color,
  protocol_color,
}

unfoldable pub source_label : Request → Text
source_label r = elim r.source_label [ none ↦ codes "unknown" | some label ↦ label ]

unfoldable pub service_width : Widths → Text → Text → Text → ℕ
service_width widths target name service =
    let free = widths.service - (length target - widths.target) - (length name - widths.dns) in
    if ltb free (length service) then length service else free

-- request.get("dport") or "-"
abbrev pub port_of : Option ℕ → Option ℕ
port_of none = none
port_of (some port) = if port == 0 then none else some port

-- A flow with a port of DNS over UDP.
unfoldable pub is_dns_transport : Request → Bool
is_dns_transport r = r.proto == udp && elim r.dport [ none ↦ false | some port ↦ port == 53 ]

-- The names of the columns, each in the room of its cells.
unfoldable pub header_cells : Widths → List Part
header_cells widths = gapped (
    (shown (padded widths.queue (codes "Q")) ∷ [])
    ∷ (shown (padded widths.source (codes "SOURCE")) ∷ [])
    ∷ (shown (padded widths.target (codes "TARGET")) ∷ [])
    ∷ (shown (padded widths.dns (codes "DNS")) ∷ [])
    ∷ (shown (padded widths.service (codes "SERVICE")) ∷ [])
    ∷ [])

unfoldable pub header_line : Widths → Text
unfolding header_cells rendered
header_line widths =
    ansi (codes "1") ++ rendered (header_cells widths) ++ codes "ACTION" ++ reset ++ 10 ∷ []

-- The prompt keys: by name only where several addresses are known.
unfoldable pub action_prompt : Request → Text
action_prompt r = elim r.resolved_dests [ [] ↦ codes "[a/r] " | ip ∷ ips ↦ codes "[a/r/A/R] " ]

-- The texts of a row with the colors of its last three cells.
pub record Fields : Type 0 where
  pub target : Text
  pub name : Text
  pub service : Text
  pub target_color : Text
  pub name_color : Text
  pub service_color : Text

-- [ip for ip in resolved if ip != target]
abbrev pub others : Text → List Ip → List Text
others target [] = []
others target (ip ∷ ips) =
    let rest = others target ips in if ip_text ip == target then rest else ip_text ip ∷ rest

-- The Unicode tables and /etc/services.
pub record Terminal : Type 0 where
  pub unicode : Unicode
  pub getservbyport : ℕ → Text → Option Text

module _ (terminal : Terminal) where
  abbrev pub safe : Text → Text
  safe = safe_text terminal.unicode max_display_text

  -- No PTR where there is no host.
  unfoldable pub host_text : Request → Text
  unfolding safe_text
  host_text r = elim r.host [
    | none ↦ safe (codes "no PTR")
    | some host ↦ if host == [] then safe (codes "no PTR") else safe host
  ]

  unfoldable pub dns_text : Request → Text
  unfolding host_text
  dns_text r = elim (get r.dst qubes_internal_dns) [ some name ↦ name | none ↦ host_text r ]

  -- int("-") raises ValueError; ICMP has no port.
  unfoldable pub service_label : Proto → Option ℕ → Result Text
  service_label icmp port = ok (codes "icmp")
  service_label proto none = err value_error
  service_label proto (some port) =
      let pair = show port ++ b'/' ∷ proto_text proto in
      ok (elim (terminal.getservbyport port (proto_text proto)) [
        | none ↦ pair
        | some [] ↦ pair
        | some (c ∷ service) ↦ c ∷ service ++ b' ' ∷ pair
      ])

  -- The row of a flow with the text of its service.
  unfoldable pub with_service : Text → Colors → Request → Text → Fields
  unfolding dns_text is_dns_transport dns_traffic_color dns_color protocol_color
  with_service theme colors r service =
      let color = dns_traffic_color theme r in
      if is_dns_transport r
      then record {
        target = ip_text r.dst;
        name = dns_text r;
        service = service;
        target_color = color;
        name_color = color;
        service_color = color;
      }
      else record {
        target = ip_text r.dst;
        name = dns_text r;
        service = service;
        target_color = default_foreground;
        name_color = dns_color theme r;
        service_color = protocol_color colors r.proto (port_of r.dport);
      }

  unfoldable pub flow_fields : Text → Colors → Request → Result Fields
  unfolding service_label with_service
  flow_fields theme colors r = service_label r.proto (port_of r.dport) >>= λ service.
      ok (with_service theme colors r service)

  unfoldable pub dns_fields : Text → Request → Question → Fields
  unfolding dns_traffic_color
  dns_fields theme r q =
      let color = dns_traffic_color theme r in
      record {
        target = ip_text r.dst;
        name = q.qname;
        service = codes "DNS " ++ q.qtype;
        target_color = color;
        name_color = color;
        service_color = color;
      }

  unfoldable pub prompt_fields : Text → Colors → Request → Result Fields
  unfolding flow_fields dns_fields
  prompt_fields theme colors r = elim r.kind [
    | dns q ↦ ok (dns_fields theme r q)
    | net ↦ flow_fields theme colors r
    | dns_error e q ↦ flow_fields theme colors r
  ]

  -- No request has the key source_unknown.
  unfoldable pub colored_source : Text → ℕ → Request → Result (List Part)
  unfolding label_color source_label
  colored_source theme width r = do
    color ← label_color theme (source_label r)
    ok (escape color ∷ shown (padded width (safe r.display_source)) ∷ escape reset ∷ [])

  unfoldable pub color_cell : Text → ℕ → Text → List Part
  unfolding safe_text
  color_cell t width color =
      escape color ∷ shown (safe t) ∷ escape reset ∷ shown (spaces (width - length (safe t))) ∷ []

  -- The first line up to the column of the action.
  unfoldable pub first_line : Widths → ℕ → List Part → Fields → List Part
  unfolding color_cell service_width
  first_line widths remaining source f = gapped (
      (shown (padded widths.queue (show (remaining + 1))) ∷ [])
      ∷ source
      ∷ color_cell f.target widths.target f.target_color
      ∷ color_cell f.name widths.dns f.name_color
      ∷ color_cell f.service (service_width widths f.target f.name f.service) f.service_color
      ∷ [])

  unfoldable pub continuation_prefix : Widths → Text
  continuation_prefix widths = spaces widths.queue ++ b' ' ∷ (spaces widths.source ++ codes " ")

  unfoldable pub action_padding : Widths → Text → Text → Text → ℕ
  unfolding service_width
  action_padding widths target name service =
      (widths.target - length target)
      + 1
      + widths.dns
      + 1
      + service_width widths target name service
      + 1

  -- A line of a further address up to the column of the action.
  unfoldable pub extra_line : Widths → Fields → Text → Text
  unfolding continuation_prefix action_padding
  extra_line widths f ip =
      continuation_prefix widths ++ (ip ++ spaces (action_padding widths ip f.name f.service))

  -- The lines of the other addresses, the last with the keys.
  unfoldable pub extra_lines : Widths → Fields → Text → List Text → Text
  unfolding extra_line
  extra_lines widths f keys_ [] = []
  extra_lines widths f keys_ (ip ∷ []) = 10 ∷ (extra_line widths f ip ++ keys_)
  extra_lines widths f keys_ (ip ∷ next ∷ ips) =
      10 ∷ (extra_line widths f ip ++ extra_lines widths f keys_ (next ∷ ips))

  -- Behind its last cell the first line has no blank but spaces.
  unfoldable pub packet_line : Settings → Request → Result Text
  unfolding prompt_fields colored_source first_line extra_lines rendered action_prompt
  packet_line config r = do
    let widths = config.prompt_column_widths
    f ← prompt_fields config.theme config.prompt_protocol_colors r
    source ← colored_source config.theme widths.source r
    let line = rendered (first_line widths r.remaining source f)
    ok (elim (others f.target r.resolved_dests) [
      | [] ↦ line ++ action_prompt r
      | ip ∷ ips ↦ rstrip b' ' line ++ extra_lines widths f (action_prompt r) (ip ∷ ips)
    ])
