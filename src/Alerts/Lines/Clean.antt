-- ===== src/Alerts/Lines/Clean.antt =====
-- No text of the network breaks a line of the log.
use qubes_snitch.Prelude.{
  ℕ, ◌/◌, ◌%◌, ◌≡◌, refl, Text, Text_eq, codes, List, [], ◌∷◌, ◌++◌, Bool, true, false, all,
  all-append, All, All-append, arith, if◌then◌else◌,
}
use qubes_snitch.Prelude.Strings.{is_digit, is_digits}
use qubes_snitch.Prelude.Decimal.{show, show-digits}
use qubes_snitch.Prelude.Result.{Result, ok, err}
use qubes_snitch.Request.{Ip, Request, Kind, net, dns, dns_error, Question, ip_text}
use qubes_snitch.Display.{safe_text}
use qubes_snitch.Display.Safe.{
  is_shown, is_printable, IsUnicode, safe_text-all-is_shown, printable-shown,
}
use qubes_snitch.Alerts.Buckets.{log_allowed}
use qubes_snitch.Alerts.Lines.{
  LogKey, LogKey_eq, Log, Means, joined, safe, log_line, log_dns_reject, log_flow_reject, net_text,
  target_text, log_pending_reject, log_queue_full_reject,
}
use qubes_snitch.Alerts.Popups.{
  pop_up, popup_text, request_text, notify_prompt, raised, shown_alert, security_alert,
}

all-digits_printable : (s : Text) → all is_digit s ≡ true → all is_printable s ≡ true
all-digits_printable [] h = refl
all-digits_printable (c ∷ s) h = ground (arith, all-digits_printable s)

show-printable : (n : ℕ) → all is_printable (show n) ≡ true
show-printable n = digits (show n) (show-digits n)
  where
    digits : (s : Text) → is_digits s ≡ true → all is_printable s ≡ true
    digits [] h = refl
    digits (c ∷ s) h = ground (arith, all-digits_printable s)

ip_text-printable : (a : Ip) → all is_printable (ip_text a) ≡ true
unfolding ip_text
ip_text-printable a =
    dotted (a / 16777216) _
      (dotted (a / 65536 % 256) _ (dotted (a / 256 % 256) _ (show-printable (a % 256))))
  where
    dotted :
        (n : ℕ) (s : Text)
        → all is_printable s ≡ true
        → all is_printable (show n ++ b'.' ∷ s) ≡ true
    dotted n s h = all-append is_printable (show n) (b'.' ∷ s) (show-printable n) h

module _ (means : Means) (v : IsUnicode means.unicode) where
  abbrev Shown : Text → Type 0
  Shown s = all (is_shown means.unicode) s ≡ true

  plain : (s : Text) → all is_printable s ≡ true → Shown s
  plain s h = printable-shown means.unicode v s h

  joined-nil : Shown (joined [])
  unfolding joined
  joined-nil = refl

  joined-cons :
      (s : Text) (parts : List Text) → Shown s → Shown (joined parts) → Shown (joined (s ∷ parts))
  unfolding joined
  joined-cons s parts h t = all-append (is_shown means.unicode) s (joined parts) h t

  address_shown : (a : Ip) → Shown (ip_text a)
  address_shown a = plain (ip_text a) (ip_text-printable a)

  safe_shown : (s : Text) → Shown (safe means s)
  safe_shown s = (safe_text-all-is_shown means.unicode v 160 s (omega arith)).1

  -- What the log and the pop-ups hold so far shows no control character.
  pub record IsClean (log : Log) : Type 0 where
    pub lines : All Shown log.syslog
    pub pops : All Shown log.shown

  log_line-IsClean :
      (now : ℕ) (key : LogKey) (line : Text) (log : Log)
      → Shown line
      → IsClean log
      → IsClean (log_line means now key line log)
  unfolding log_line
  log_line-IsClean now key line log h c = record {
    lines =
        All-append Shown log.syslog _ c.lines
          (maybe (log_allowed means.limits now key log.buckets).0);
    pops = c.pops;
  }
    where
      maybe : (b : Bool) → All Shown (if b then line ∷ [] else [])
      maybe true = (h, tt)
      maybe false = tt

  ruleset shown = (joined-nil, joined-cons, plain, safe_shown, address_shown)

  net_text-shown : (r : Request) → Shown (net_text means r)
  unfolding net_text
  net_text-shown r = search shown depth 20

  target_text-shown : (k : Kind) (r : Request) → Shown (target_text means k r)
  unfolding target_text
  target_text-shown (dns q) r = search shown depth 20
  target_text-shown net r = net_text-shown r
  target_text-shown (dns_error e q) r = net_text-shown r

  popup_text-shown : (k : Kind) (r : Request) → Shown (popup_text means k r)
  unfolding popup_text
  popup_text-shown (dns q) r = search shown depth 20
  popup_text-shown net r = search shown depth 20
  popup_text-shown (dns_error e q) r = search shown depth 20

  if-IsClean :
      (b : Bool) (x y : Result (Unit {0}) × Log)
      → IsClean x.1
      → IsClean y.1
      → IsClean (if b then x else y).1
  if-IsClean true x y h k = h
  if-IsClean false x y h k = k

  pop_up-IsClean :
      (text : Text) (log : Log) → Shown text → IsClean log → IsClean (pop_up means text log).1
  unfolding pop_up
  pop_up-IsClean text log h c =
      if-IsClean (means.pops_up text) _ _
        (record { lines = c.lines; pops = All-append Shown log.shown (text ∷ []) c.pops (h, tt) }) c

  -- The calls of the module; every other one is an alert.
  pub data LogCall : Type 0 where
    dns_reject : Request → Question → Text → LogCall
    flow_reject : Request → Text → LogCall
    pending queue_full prompt : Request → LogCall
    alert : LogKey → Text → LogCall

  abbrev pub after : ℕ → LogCall → Log → Log
  after now (dns_reject r q reason) log = log_dns_reject means now r q reason log
  after now (flow_reject r reason) log = log_flow_reject means now r reason log
  after now (pending r) log = log_pending_reject means now r log
  after now (queue_full r) log = log_queue_full_reject means now r log
  after now (prompt r) log = (notify_prompt means r log).1
  after now (alert key message) log = (security_alert means now key message log).1

  raised_after : (x : Result (Unit {0}) × Log) → IsClean x.1 → IsClean (shown_alert means x).1
  raised_after (ok u, log) c = c
  raised_after (err e, log) c = c

  raised-IsClean :
      (b : Bool) (message : Text) (log : Log) → IsClean log → IsClean (raised means b message log).1
  unfolding raised
  raised-IsClean false message log c = c
  raised-IsClean true message log c = raised_after _ (
      pop_up-IsClean _ _ safe_message (record {
        lines = All-append Shown log.syslog _ c.lines (
          all-append (is_shown means.unicode) (codes "QUBES-SNITCH SECURITY ")
              (safe_text means.unicode 300 message) (plain (codes "QUBES-SNITCH SECURITY ") refl)
              safe_message,
          tt,
        );
        pops = c.pops;
      }))
    where
      safe_message : Shown (safe_text means.unicode 300 message)
      safe_message = (safe_text-all-is_shown means.unicode v 300 message (omega arith)).1

  notify_prompt-IsClean :
      (r : Request) (log : Log) → IsClean log → IsClean (notify_prompt means r log).1
  unfolding notify_prompt request_text
  notify_prompt-IsClean r log c =
      if-IsClean means.notify_send _ _ (pop_up-IsClean _ log (popup_text-shown r.kind r) c) c

  after-IsClean :
      (now : ℕ) (call : LogCall) (log : Log) → IsClean log → IsClean (after now call log)
  unfolding log_dns_reject log_flow_reject log_pending_reject log_queue_full_reject security_alert
  after-IsClean now (dns_reject r q reason) log c =
      search (shown, log_line-IsClean, target_text-shown) depth 20
  after-IsClean now (flow_reject r reason) log c =
      search (shown, log_line-IsClean, target_text-shown) depth 20
  after-IsClean now (pending r) log c = search (shown, log_line-IsClean, target_text-shown) depth 20
  after-IsClean now (queue_full r) log c =
      search (shown, log_line-IsClean, target_text-shown) depth 20
  after-IsClean now (prompt r) log c = notify_prompt-IsClean r log c
  after-IsClean now (alert key message) log c =
      let answer = log_allowed means.limits now (codes "security" ∷ key) log.buckets in
      raised-IsClean answer.0 message (record log { buckets = answer.1 })
        (record { lines = c.lines; pops = c.pops })

  abbrev pub after_all : List (ℕ × LogCall) → Log → Log
  after_all [] log = log
  after_all ((now, call) ∷ calls) log = after_all calls (after now call log)

  -- Whatever names, addresses and messages the calls carry, the lines of the log and the pop-ups
  -- hold no line break and no other control character, if they held none before and the printable
  -- characters of ASCII are no controls.
  pub after_all-IsClean :
      (calls : List (ℕ × LogCall)) (log : Log) → IsClean log → IsClean (after_all calls log)
  after_all-IsClean [] log c = c
  after_all-IsClean ((now, call) ∷ calls) log c =
      after_all-IsClean calls (after now call log) (after-IsClean now call log c)
