-- ===== src/Alerts/Popups.antt =====
-- The pop-ups and the alerts of qubes_snitch/alerts_runtime.py and qubes_snitch/notify.py.
use qubes_snitch.Prelude.{
  ℕ, Text, Text_eq, codes, [], ◌∷◌, ◌++◌, Bool, true, false, Option, none, some, ◌==◌,
  if◌then◌else◌,
}
use qubes_snitch.Prelude.Result.{Result, ok, err, system_exit}
use qubes_snitch.Prelude.Decimal.{show}
use qubes_snitch.Request.{Request, Kind, net, dns, dns_error, ip_text, proto_text}
use qubes_snitch.Packets.Ports.{request_port}
use qubes_snitch.Display.{safe_text}
use qubes_snitch.Alerts.Buckets.{log_allowed}
use qubes_snitch.Alerts.Lines.{LogKey, LogKey_eq, Log, Means, joined, safe}

module _ (means : Means) where
  -- A call of notify-send; fail_daemon where it fails.
  unfoldable pub pop_up : Text → Log → Result (Unit {0}) × Log
  pop_up text log =
      if means.pops_up text
      then (ok tt, record log { shown = log.shown ++ text ∷ [] })
      else (err system_exit, log)

  -- request_text of notify.py.
  unfoldable pub request_proto : Option ℕ → Request → Text
  request_proto none r = proto_text r.proto
  request_proto (some p) r = proto_text r.proto ++ b'/' ∷ show p

  unfoldable pub popup_text : Kind → Request → Text
  unfolding request_proto joined
  popup_text (dns q) r = joined (
      safe means r.display_source
      ∷ codes " DNS "
      ∷ safe means q.qtype
      ∷ codes " "
      ∷ safe means q.qname
      ∷ [])
  popup_text net r = joined (
      safe means r.display_source
      ∷ codes " -> "
      ∷ safe means (ip_text r.dst)
      ∷ codes " "
      ∷ safe means (request_proto r.dport r)
      ∷ [])
  popup_text (dns_error e q) r = joined (
      safe means r.display_source
      ∷ codes " -> "
      ∷ safe means (ip_text r.dst)
      ∷ codes " "
      ∷ safe means (request_proto r.dport r)
      ∷ [])

  unfoldable pub request_text : Request → Text
  unfolding popup_text
  request_text r = popup_text r.kind r

  unfoldable pub notify_prompt : Request → Log → Result (Unit {0}) × Log
  unfolding pop_up request_text
  notify_prompt r log = if means.notify_send then pop_up (request_text r) log else (ok tt, log)

  abbrev pub shown_alert : Result (Unit {0}) × Log → Result Bool × Log
  shown_alert (ok u, log) = (ok true, log)
  shown_alert (err e, log) = (err e, log)

  -- After the throttling of an alert.
  unfoldable pub raised : Bool → Text → Log → Result Bool × Log
  unfolding pop_up
  raised false message log = (ok false, log)
  raised true message log =
      let line = codes "QUBES-SNITCH SECURITY " ++ safe_text means.unicode 300 message in
      shown_alert (
        pop_up (safe_text means.unicode 300 message)
          (record log { syslog = log.syslog ++ line ∷ [] }))

  -- True where the alert was logged and shown, and the end of the daemon where it could not be
  -- shown.
  unfoldable pub security_alert : ℕ → LogKey → Text → Log → Result Bool × Log
  unfolding raised
  security_alert now key message log =
      let (allowed, buckets) = log_allowed means.limits now (codes "security" ∷ key) log.buckets in
      raised allowed message (record log { buckets = buckets })

  -- Whatever the alert comes to, the daemon ends.
  unfoldable pub fatal_security_alert : ℕ → LogKey → Text → Log → Result (Unit {0}) × Log
  unfolding security_alert
  fatal_security_alert now key message log =
      let (result, log') = security_alert now key message log in (err system_exit, log')

  unfoldable pub log_unparsed_packet : ℕ → Log → Result Bool × Log
  unfolding security_alert
  log_unparsed_packet now =
      security_alert now (codes "malformed" ∷ codes "unparsed" ∷ [])
        (codes "REJECT malformed packet REASON=cannot extract prompt fields")

  -- The source is the name of the address, or the address; the reason is the value of the mark.
  unfoldable pub log_malformed_packet : ℕ → Text → Request → Text → Log → Result Bool × Log
  unfolding security_alert joined
  log_malformed_packet now source r reason =
      security_alert now (codes "malformed" ∷ source ∷ proto_text r.proto ∷ reason ∷ []) (
        joined (
          codes "REJECT malformed "
          ∷ proto_text r.proto
          ∷ codes " SRC="
          ∷ source
          ∷ codes " IP="
          ∷ ip_text r.src
          ∷ codes " DST="
          ∷ ip_text r.dst
          ∷ codes " REASON="
          ∷ reason
          ∷ []))

  -- The three messages of log_dns_formerr, by the value of request["dns_error"].
  unfoldable pub formerr_text : Request → Text → Text
  unfolding joined
  formerr_text r reason =
      if reason == codes "non-ascii-qname"
      then joined (
          codes "DROP DNS containing non-ASCII qname SRC="
          ∷ r.source
          ∷ codes " IP="
          ∷ ip_text r.src
          ∷ codes " DST="
          ∷ ip_text r.dst
          ∷ [])
      else if reason == codes "unsupported-aaaa"
      then joined (
          codes "REJECT unsupported DNS qtype SRC="
          ∷ r.source
          ∷ codes " IP="
          ∷ ip_text r.src
          ∷ codes " DST="
          ∷ ip_text r.dst
          ∷ codes " QTYPE=AAAA"
          ∷ [])
      else joined (
          codes "REJECT malformed DNS SRC="
          ∷ r.source
          ∷ codes " IP="
          ∷ ip_text r.src
          ∷ codes " DST="
          ∷ ip_text r.dst
          ∷ codes " REASON="
          ∷ reason
          ∷ [])

  unfoldable pub log_dns_formerr : ℕ → Request → Text → Log → Result Bool × Log
  unfolding security_alert formerr_text
  log_dns_formerr now r reason =
      security_alert now (codes "dns" ∷ r.source ∷ reason ∷ []) (formerr_text r reason)

  unfoldable pub unknown_source_alert : ℕ → Request → Log → Result Bool × Log
  unfolding security_alert joined
  unknown_source_alert now r =
      security_alert now
        (codes "unknown-source"
          ∷ ip_text r.src
          ∷ ip_text r.dst
          ∷ proto_text r.proto
          ∷ request_port r
          ∷ [])
        (joined (
          codes "REJECT source IP unknown to Qubes SRC="
          ∷ ip_text r.src
          ∷ codes " DST="
          ∷ ip_text r.dst
          ∷ codes " PROTO="
          ∷ proto_text r.proto
          ∷ codes " DPORT="
          ∷ request_port r
          ∷ []))
