-- ===== src/Ui/Shown.antt =====
-- Whether the line of a prompt can be shown does not depend on its further addresses.
use qubes_snitch.Prelude.{◌≡◌, refl, ◌∙◌, Text, List}
use qubes_snitch.Prelude.Result.{Result, ok, >>=-eq-ok, ◌>>=◌}
use qubes_snitch.Request.{Ip, Request}
use qubes_snitch.Config.Settings.{Settings}
use qubes_snitch.Ui.{
  Terminal, source_label, is_dns_transport, host_text, dns_text, with_service, flow_fields,
  dns_fields, prompt_fields, colored_source, packet_line,
}
use qubes_snitch.Ui.Palette.{dns_traffic_color, dns_color}

>>=-is_ok {ℓ κ} :
    {A : Type ℓ} {B : Type κ} (m : Result A) (f : A → Result B) (a : A)
    → m ≡ ok a
    → (b : B) × (f a ≡ ok b)
    → (b : B) × ((m >>= f) ≡ ok b)
>>=-is_ok m f a e (b, h) = (b, rw e h)

module _ (terminal : Terminal) (config : Settings) (r : Request) (ips : List Ip) where
  prompt_fields-resolved :
      prompt_fields terminal config.theme config.prompt_protocol_colors
        (record r { resolved_dests = ips })
      ≡ prompt_fields terminal config.theme config.prompt_protocol_colors r
  unfolding prompt_fields flow_fields dns_fields with_service dns_text host_text is_dns_transport
      dns_traffic_color dns_color
  prompt_fields-resolved = refl

  colored_source-resolved :
      colored_source terminal config.theme config.prompt_column_widths.source
        (record r { resolved_dests = ips })
      ≡ colored_source terminal config.theme config.prompt_column_widths.source r
  unfolding colored_source source_label
  colored_source-resolved = refl

  pub packet_line-resolved :
      (line : Text)
      → packet_line terminal config r ≡ ok line
      → (shown : Text) × (packet_line terminal config (record r { resolved_dests = ips })
          ≡ ok shown)
  unfolding packet_line
  packet_line-resolved line h =
      let (f, e, h1) =
        >>=-eq-ok (prompt_fields terminal config.theme config.prompt_protocol_colors r) _ h in
      let (source, e1, _) =
        >>=-eq-ok (colored_source terminal config.theme config.prompt_column_widths.source r) _
          h1 in
      >>=-is_ok
        (prompt_fields terminal config.theme config.prompt_protocol_colors
          (record r { resolved_dests = ips }))
        _ f (prompt_fields-resolved ∙ e)
        (>>=-is_ok
          (colored_source terminal config.theme config.prompt_column_widths.source
            (record r { resolved_dests = ips }))
          _ source (colored_source-resolved ∙ e1) (_, refl))
