-- ===== src/Alerts/Lines.antt =====
-- The log lines of qubes_snitch/alerts_runtime.py.
pub mod Clean
use qubes_snitch.Prelude.{
  ℕ, Text, Text_eq, Text-discrete, Eq, codes, List, [], ◌∷◌, ◌++◌, Bool, true, false, Option, none,
  some, ◌==◌, if◌then◌else◌,
}
use qubes_snitch.Prelude.Dict.{Dict}
use qubes_snitch.Prelude.Result.{Result, ok, err, system_exit}
use qubes_snitch.Request.{
  Ip, Proto, Request, Kind, net, dns, dns_error, Question, ip_text, proto_text,
}
use qubes_snitch.Packets.Ports.{request_port}
use qubes_snitch.Prelude.Decimal.{show}
use qubes_snitch.Display.{Unicode, safe_text, max_display_text}
use qubes_snitch.Alerts.Buckets.{Limits, Bucket, log_allowed}

-- A key of the log: a tuple of texts.
abbrev pub LogKey : Type 0
LogKey = List Text

unfoldable pub LogKey-discrete : Discrete LogKey
unfolding Text-discrete
LogKey-discrete = hlevel Text-discrete

instance abbrev pub LogKey_eq : Eq LogKey
LogKey_eq = record { dec = LogKey-discrete }

-- LOG_BUCKETS, the lines of the system log, and the pop-ups that were asked for.
pub record Log : Type 0 where
  pub buckets : Dict LogKey Bucket
  pub syslog : List Text
  pub shown : List Text

-- The Unicode tables, the limits of the configuration and its notify_send, and notify-send:
-- false where the call fails.
pub record Means : Type 0 where
  pub unicode : Unicode
  pub limits : Limits
  pub notify_send : Bool
  pub pops_up : Text → Bool

unfoldable pub joined : List Text → Text
joined [] = []
joined (s ∷ parts) = s ++ joined parts

module _ (means : Means) where
  abbrev pub safe : Text → Text
  safe = safe_text means.unicode 160

  -- log_allowed, and the line if it is allowed.
  unfoldable pub log_line : ℕ → LogKey → Text → Log → Log
  log_line now key line log =
      let (allowed, buckets) = log_allowed means.limits now key log.buckets in
      record log { buckets = buckets; syslog = log.syslog ++ (if allowed then line ∷ [] else []) }

  unfoldable pub log_dns_reject : ℕ → Request → Question → Text → Log → Log
  unfolding log_line joined
  log_dns_reject now r q reason = log_line now (r.source ∷ codes "dns" ∷ q.qtype ∷ reason ∷ []) (
      joined (
        codes "QUBES-SNITCH "
        ∷ safe r.display_source
        ∷ codes " reject DNS SRC="
        ∷ ip_text r.src
        ∷ codes " DST="
        ∷ ip_text r.dst
        ∷ codes " QTYPE="
        ∷ safe q.qtype
        ∷ codes " QNAME="
        ∷ safe q.qname
        ∷ codes " REASON="
        ∷ safe reason
        ∷ []))

  unfoldable pub log_flow_reject : ℕ → Request → Text → Log → Log
  unfolding log_line joined
  log_flow_reject now r reason =
      log_line now
        (r.source
          ∷ codes "flow"
          ∷ ip_text r.dst
          ∷ proto_text r.proto
          ∷ request_port r
          ∷ reason
          ∷ [])
        (joined (
          codes "QUBES-SNITCH "
          ∷ safe r.display_source
          ∷ codes " reject NET DST="
          ∷ safe (ip_text r.dst)
          ∷ codes " PROTO="
          ∷ safe (proto_text r.proto)
          ∷ codes " DPORT="
          ∷ safe (request_port r)
          ∷ codes " REASON="
          ∷ safe reason
          ∷ []))

  -- request.get("kind", "net")
  abbrev pub kind_text : Kind → Text
  kind_text net = codes "net"
  kind_text (dns q) = codes "dns"
  kind_text (dns_error e q) = codes "dns-error"

  net_text : Request → Text
  unfolding joined
  net_text r = joined (
      codes "NET DST="
      ∷ safe (ip_text r.dst)
      ∷ codes " PROTO="
      ∷ safe (proto_text r.proto)
      ∷ codes " DPORT="
      ∷ safe (request_port r)
      ∷ [])

  -- The text of a question or of a flow.
  target_text : Kind → Request → Text
  unfolding net_text
  target_text (dns q) r =
      joined (codes "DNS QTYPE=" ∷ safe q.qtype ∷ codes " QNAME=" ∷ safe q.qname ∷ [])
  target_text net r = net_text r
  target_text (dns_error e q) r = net_text r

  unfoldable pub log_pending_reject : ℕ → Request → Log → Log
  unfolding log_line target_text
  log_pending_reject now r = log_line now (r.source ∷ kind_text r.kind ∷ codes "pending" ∷ []) (
      joined (
        codes "QUBES-SNITCH "
        ∷ safe r.display_source
        ∷ codes " reject pending "
        ∷ target_text r.kind r
        ∷ []))

  unfoldable pub log_queue_full_reject : ℕ → Request → Log → Log
  unfolding log_line target_text
  log_queue_full_reject now r =
      log_line now (r.source ∷ kind_text r.kind ∷ codes "queue-full" ∷ []) (
        joined (
          codes "QUBES-SNITCH "
          ∷ safe r.display_source
          ∷ codes " reject queue-full "
          ∷ target_text r.kind r
          ∷ []))
