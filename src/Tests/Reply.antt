-- ===== src/Tests/Reply.antt =====
-- The reply to a question from port 1234.
use qubes_snitch.Prelude.{◌≡◌, refl, [], ◌∷◌, none, some, arith}
use qubes_snitch.Prelude.Result.{Result, ok}
use qubes_snitch.Request.{Bytes, Request, udp, net}
use qubes_snitch.Dns.Checksum.{inet_checksum}
use qubes_snitch.Dns.Reply.{dns_reject_payload}
use qubes_snitch.Dns.Reply.Parsed.{IsAnswer, dns_reject_payload-IsAnswer}

abbrev question : Request
question = record {
  src = 0x0a890005;
  dst = 0x0a8b0101;
  proto = udp;
  sport = some 1234;
  dport = some 53;
  body = some (7 ∷ 8 ∷ []);
  malformed = none;
  kind = net;
  source = [];
  display_source = [];
  source_label = none;
  host = none;
  resolved_dests = [];
  prompt_id = none;
  remaining = 0;
}

abbrev respond : Bytes → Result Bytes
respond body = ok (1 ∷ 2 ∷ 3 ∷ [])

abbrev payload : Bytes
payload = 69 ∷ 0 ∷ 0 ∷ 30 ∷ 18 ∷ 52 ∷ 64 ∷ 0 ∷ []

dns_reject_payload-IsAnswer_example :
    (packet : Bytes) × (dns_reject_payload respond payload question ≡ ok packet)
    × IsAnswer 0x0a8b0101 0x0a890005 53 1234 (1 ∷ 2 ∷ 3 ∷ []) packet
dns_reject_payload-IsAnswer_example =
    dns_reject_payload-IsAnswer respond payload question (7 ∷ 8 ∷ []) (1 ∷ 2 ∷ 3 ∷ []) 1234 53
      (omega arith) refl refl (omega arith) refl (omega arith) (omega arith) refl (omega arith)
      (omega arith)

-- The words of 0x1234, 0x5678 and 0x9a00.
odd_bytes : inet_checksum (18 ∷ 52 ∷ 86 ∷ 120 ∷ 154 ∷ []) ≡ 64850
unfolding inet_checksum
odd_bytes = refl
