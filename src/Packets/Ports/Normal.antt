-- ===== src/Packets/Ports/Normal.antt =====
-- The normal form of a port: "any", a number or a range.
use qubes_snitch.Prelude.{
  ℕ, ◌≤◌, ◌<◌, ◌≡◌, inl, inr, refl, Text, Text_eq, ◌∷◌, ◌++◌, true, false, Option, none, some, ◌==◌,
  arith, Option-cases, Bool-cases, ℕ_discrete, ==-eq-false_by, ==_refl, ==_ne,
}
use qubes_snitch.Prelude.Strings.{
  is_digits, has_char, before, after, before-append, after-append, has_char-append,
}
use qubes_snitch.Prelude.Decimal.{show, read, read-show, show-digits, has_char-digits}
use qubes_snitch.Prelude.Result.{ok}
use qubes_snitch.Request.{Proto, has_ports}
use qubes_snitch.Packets.Ports.{
  PortValue, flag, number, negative, text, Services, any_port, normalize_number, normalize_range,
  normalize_name, normalize_port, port_text,
}

-- The ports that a rule can name.
pub data Ports : Type 0 where
  every : Ports
  one : ℕ → Ports
  between : ℕ → ℕ → Ports

abbrev pub ports_text : Ports → Text
ports_text every = any_port
ports_text (one n) = show n
ports_text (between a b) = show a ++ b'-' ∷ show b

-- Only TCP and UDP have ranges.
abbrev pub InRange : Proto → Ports → Type 0
InRange k every = Unit
InRange k (one n) = (1 ≤ n) × (n ≤ 65535)
InRange k (between a b) = (has_ports k ≡ true) × (1 ≤ a) × (a ≤ b) × (b ≤ 65535)

-- What is used of /etc/services: ports are numbers of 16 bits other than 0, and no service has a
-- name of digits and a dash (RFC 6335 wants a letter).
pub record IsServices (services : Services) : Type 0 where
  pub in_range : (t : Text) (k : Proto) (n : ℕ) → services t k ≡ some n → (1 ≤ n) × (n ≤ 65535)
  pub no_range : (a b : ℕ) (k : Proto) → services (ports_text (between a b)) k ≡ none

abbrev Normal : Proto → Text → Type 0
Normal k t = (ps : Ports) × (t ≡ ports_text ps) × InRange k ps

normalize_number-Normal : (n : ℕ) (k : Proto) (t : Text) → normalize_number n ≡ ok t → Normal k t
unfolding normalize_number
normalize_number-Normal n k t h = (one n, ground arith, ground arith)

normalize_range-Normal :
    (a b : ℕ) (k : Proto) (t : Text) → has_ports k ≡ true → normalize_range a b ≡ ok t → Normal k t
unfolding normalize_range
normalize_range-Normal a b k t p h =
    (between a b, ground arith, (p, ground arith, ground arith, ground arith))

normalize_name-Normal :
    {services : Services} (s : IsServices services) (u t : Text) (k : Proto)
    → has_ports k ≡ true
    → normalize_name (services u k) u ≡ ok t
    → Normal k t
unfolding normalize_name
normalize_name-Normal {services} s u t k p h = elim (Option-cases (services u k)) [
  | inl e ↦ normalize_range-Normal (read (before b'-' u)) (read (after b'-' u)) k t p (ground arith)
  | inr (n, e) ↦ (one n, ground arith, s.in_range u k n e)
]

-- Every port that normalize_port lets through is in normal form: any, a number from 1 to 65535,
-- or, for TCP and UDP alone, a nonempty range of such; if the services are such as RFC 6335 wants
-- them.
pub normalize_port-InRange :
    (services : Services) (v : PortValue) (k : Proto) (t : Text)
    → IsServices services
    → normalize_port services v k ≡ ok t
    → (ps : Ports) × (t ≡ ports_text ps) × InRange k ps
unfolding normalize_port
normalize_port-InRange services (flag b) k t s h = cc
normalize_port-InRange services (number n) k t s h = normalize_number-Normal n k t h
normalize_port-InRange services (negative n) k t s h = cc
normalize_port-InRange services (text u) k t s h = elim (Bool-cases (u == any_port)) [
  | inl e ↦ (every, ground arith, tt)
  | inr e ↦ elim (Bool-cases (is_digits u)) [
    | inl d ↦ normalize_number-Normal (read u) k t (ground arith)
    | inr d ↦ normalize_name-Normal s u t k (ground arith) (ground arith)
  ]
]

pub one-ne-any : (n : ℕ) → (show n == any_port) ≡ false
one-ne-any n = ==-eq-false_by is_digits (show n) any_port (show-digits n) refl

pub range-has_char : (a b : ℕ) → has_char b'-' (ports_text (between a b)) ≡ true
range-has_char a b = rw has_char-append (unfold has_char in ground arith)

pub range-ne-any : (a b : ℕ) → (ports_text (between a b) == any_port) ≡ false
range-ne-any a b =
    ==-eq-false_by (has_char b'-') (ports_text (between a b)) any_port (range-has_char a b)
      (unfold has_char ℕ_discrete in refl)

range-not-digits : (a b : ℕ) → is_digits (ports_text (between a b)) ≡ false
range-not-digits a b = elim (Bool-cases (is_digits (ports_text (between a b)))) [
  | inl e ↦ absurd (clash (has_char-digits b'-' (ports_text (between a b)) refl e))
  | inr e ↦ e
]
  where
    clash : has_char b'-' (ports_text (between a b)) ≡ false → ⊥
    clash h = cc (range-has_char a b)

pub show-no-dash : (n : ℕ) → has_char b'-' (show n) ≡ false
show-no-dash n = has_char-digits b'-' (show n) refl (show-digits n)

normalize_range-text :
    (a b : ℕ) (k : Proto)
    → InRange k (between a b)
    → normalize_name none (ports_text (between a b)) ≡ ok (ports_text (between a b))
unfolding normalize_name
normalize_range-text a b k h =
    rw
      (
        range-has_char a b,
        before-append b'-' (show a) (show b) (show-no-dash a),
        after-append b'-' (show a) (show b) (show-no-dash a),
        show-digits a,
        show-digits b,
        read-show a,
        read-show b,
      )
      (ground arith)

-- A port in normal form is its own normal form.
pub normalize_port-ports_text :
    (services : Services) (k : Proto) (ps : Ports)
    → IsServices services
    → InRange k ps
    → normalize_port services (text (ports_text ps)) k ≡ ok (ports_text ps)
unfolding normalize_port
normalize_port-ports_text services k every s h = rw ==_refl
normalize_port-ports_text services k (one n) s h =
    rw (one-ne-any n, show-digits n, read-show n) (unfold normalize_number in ground arith)
normalize_port-ports_text services k (between a b) s h =
    rw (range-ne-any a b, range-not-digits a b, h.0, s.no_range a b k)
      (normalize_range-text a b k h)

-- normalize_port is idempotent: normalising a normalised port for the same protocol changes
-- nothing, if the services are such as RFC 6335 wants them.
pub normalize_port_idem :
    (services : Services) (v : PortValue) (k : Proto) (t : Text)
    → IsServices services
    → normalize_port services v k ≡ ok t
    → normalize_port services (text t) k ≡ ok t
normalize_port_idem services v k t s h =
    let (ps, e, r) = normalize_port-InRange services v k t s h in
    rw e (normalize_port-ports_text services k ps s r)

-- The port that a request shows is one that normalize_port lets through unchanged, whatever its
-- protocol, if it is a number of 16 bits and the services are such as RFC 6335 wants them.
pub normalize_port-port_text :
    (services : Services) (k : Proto) (p : Option ℕ)
    → IsServices services
    → ((n : ℕ) → p ≡ some n → n < 65536)
    → normalize_port services (text (port_text p)) k ≡ ok (port_text p)
unfolding port_text
normalize_port-port_text services k none s h = normalize_port-ports_text services k every s tt
normalize_port-port_text services k (some n) s h = elim (ℕ_discrete n 0) [
  | yes e ↦ rw (e, ==_refl) (normalize_port-ports_text services k every s tt)
  | no e ↦
      rw (==_ne n 0 e)
        (normalize_port-ports_text services k (one n) s (ground arith, ground (arith, h n refl)))
]
