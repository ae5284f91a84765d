-- ===== src/Config/Settings/Accepted.antt =====
-- Every configuration that read_config accepts is within its bounds.
use mathlib.Core.Path.{subst}
use qubes_snitch.Prelude.{
  ℕ, ◌≤◌, ◌≡◌, refl, ◌⊎◌, Text, Text_eq, codes, List, [], ◌∷◌, true, false, ◌||◌, not, All, ◌==◌,
  ℕ_eq, arith,
}
use qubes_snitch.Prelude.Dict.{Dict, get, keys}
use qubes_snitch.Prelude.Result.{
  Result, ok, err, system_exit, key_error, require, ◌>>=◌, >>=-eq-ok, ok-injective, require-true,
}
use qubes_snitch.Config.DnsRule.{from_option}
use qubes_snitch.Config.Names.{is_source_name, validate_source_name, validate_qubes_vm_name}
use qubes_snitch.Config.Settings.Values.{
  Scalar, Entry, fields, no_fields, Member, single, sequence, no_member, Value, leaf, mapping,
  no_value, Colors, same_keys, parse_limit_rate, number_in, text_in,
}
use qubes_snitch.Config.Settings.{
  Settings, validate_prompt_column_widths, color_key, is_used, color_keys, color_group,
  validate_prompt_protocol_colors, config_keys, bool_in, no_less_than, rate_checked, theme_in,
  dispvm_name_in, rate_in, value_at, leaf_at, read_config,
}
use qubes_snitch.Config.Settings.Bounds.{
  InRange, IsWidths, number_in-InRange, no_less_than-le, second-holds,
  validate_prompt_column_widths-IsWidths,
}

-- A protocol with ports and a port.
abbrev pub IsColor : Text × ℕ → Type 0
IsColor (proto, port) = ((proto ≡ codes "tcp") ⊎ (proto ≡ codes "udp")) × InRange 1 65535 port

-- None of the keys is used before it, nor among the first ones.
abbrev pub AreNew : List (Text × ℕ) → List (Text × ℕ) → Type 0
AreNew used [] = Unit
AreNew used (key ∷ rest) = (is_used key used ≡ false) × AreNew (key ∷ used) rest

pub record IsColors (c : Colors) : Type 0 where
  pub encrypted : All IsColor c.encrypted
  pub unencrypted : All IsColor c.unencrypted
  pub once : AreNew [] c.encrypted
  pub apart : AreNew c.encrypted c.unencrypted

tcp_or_udp :
    (name : Text) {u : Unit {0}}
    → require (name == codes "tcp" || name == codes "udp") system_exit ≡ ok u
    → (name ≡ codes "tcp") ⊎ (name ≡ codes "udp")
tcp_or_udp name h = ground arith

color_key-IsColor : (entry : Entry) (key : Text × ℕ) → color_key entry ≡ ok key → IsColor key
unfolding color_key
color_key-IsColor no_fields key h = absurd (cc)
color_key-IsColor (fields entry) key h =
    let (_, _, h1) =
      >>=-eq-ok (require (same_keys (keys entry) (codes "proto" ∷ codes "port" ∷ [])) system_exit) _
        h in
    let (proto, _, h2) = >>=-eq-ok (from_option (get (codes "proto") entry) key_error) _ h1 in
    let (port, _, h3) = >>=-eq-ok (from_option (get (codes "port") entry) key_error) _ h2 in
    let (name, _, h4) = >>=-eq-ok (text_in proto) _ h3 in
    let (_, known, h5) =
      >>=-eq-ok (require (name == codes "tcp" || name == codes "udp") system_exit) _ h4 in
    let (number, range, h6) = >>=-eq-ok (number_in 1 65535 port) _ h5 in
    subst IsColor (ok-injective h6)
      (tcp_or_udp name known, number_in-InRange 1 65535 port number range)

color_keys-AreNew :
    (used : List (Text × ℕ)) (entries : List Entry) (ks : List (Text × ℕ))
    → color_keys used entries ≡ ok ks
    → All IsColor ks × AreNew used ks
unfolding color_keys
color_keys-AreNew used [] ks h =
    subst (λ (ks : List (Text × ℕ)). All IsColor ks × AreNew used ks) (ok-injective h) (tt, tt)
color_keys-AreNew used (entry ∷ entries) ks h =
    let (key, k, h1) = >>=-eq-ok (color_key entry) _ h in
    let (_, fresh, h2) = >>=-eq-ok (require (not (is_used key used)) system_exit) _ h1 in
    let (rest, r, h3) = >>=-eq-ok (color_keys (key ∷ used) entries) _ h2 in
    let (valid, new) = color_keys-AreNew (key ∷ used) entries rest r in
    let not_used = require-true (not (is_used key used)) system_exit fresh in
    subst (λ (ks : List (Text × ℕ)). All IsColor ks × AreNew used ks) (ok-injective h3)
      ((color_key-IsColor entry key k, valid), (ground arith, new))

color_group-AreNew :
    (used : List (Text × ℕ)) (m : Member) (ks : List (Text × ℕ))
    → color_group used m ≡ ok ks
    → All IsColor ks × AreNew used ks
unfolding color_group
color_group-AreNew used (sequence entries) ks h = color_keys-AreNew used entries ks h
color_group-AreNew used (single s) ks h = absurd (cc)
color_group-AreNew used no_member ks h = absurd (cc)

validate_prompt_protocol_colors-IsColors :
    (value : Value) (c : Colors) → validate_prompt_protocol_colors value ≡ ok c → IsColors c
unfolding validate_prompt_protocol_colors
validate_prompt_protocol_colors-IsColors (leaf s) c h = absurd (cc)
validate_prompt_protocol_colors-IsColors no_value c h = absurd (cc)
validate_prompt_protocol_colors-IsColors (mapping value) c h =
    let (_, _, h1) =
      >>=-eq-ok
        (require (same_keys (keys value) (codes "encrypted" ∷ codes "unencrypted" ∷ []))
          system_exit)
        _ h in
    let (first, _, h2) = >>=-eq-ok (from_option (get (codes "encrypted") value) key_error) _ h1 in
    let (encrypted, e, h3) = >>=-eq-ok (color_group [] first) _ h2 in
    let (second, _, h4) =
      >>=-eq-ok (from_option (get (codes "unencrypted") value) key_error) _ h3 in
    let (unencrypted, u, h5) = >>=-eq-ok (color_group encrypted second) _ h4 in
    let (valid, once) = color_group-AreNew [] first encrypted e in
    let (valid', apart) = color_group-AreNew encrypted second unencrypted u in
    subst IsColors (ok-injective h5)
      (record { encrypted = valid; unencrypted = valid'; once = once; apart = apart })

-- What the program relies on: every number is in its range, and no bound is 0.
pub record IsSettings (s : Settings) : Type 0 where
  pub theme : (s.theme ≡ codes "dark") ⊎ (s.theme ≡ codes "light")
  pub notify_send_timeout : InRange 1000 3600000 s.notify_send_timeout
  pub pending_queue_size : InRange 1 10000 s.pending_queue_size
  pub dns_cache_max_per_source : InRange 1 1000000 s.dns_cache_max_per_source
  pub dns_cache_max_global : s.dns_cache_max_per_source ≤ s.dns_cache_max_global
  pub dns_cache_refresh_workers : InRange 1 1024 s.dns_cache_refresh_workers
  pub default_disposable_vm_name : is_source_name s.default_disposable_vm_name ≡ true
  pub limit_rate : (rate : ℕ × ℕ) × (parse_limit_rate s.limit_rate ≡ ok rate)
  pub burst : InRange 1 10000 s.burst
  pub log_bucket_max_entries : InRange 1 1000000 s.log_bucket_max_entries
  pub prompt_column_widths : IsWidths s.prompt_column_widths
  pub prompt_protocol_colors : IsColors s.prompt_protocol_colors

theme_in-known :
    (v : Scalar) (t : Text) → theme_in v ≡ ok t → (t ≡ codes "dark") ⊎ (t ≡ codes "light")
unfolding theme_in
theme_in-known v t =
    second-holds (λ t. (t ≡ codes "dark") ⊎ (t ≡ codes "light")) (text_in v) _ (λ a h. ground arith)

dispvm_name_in-valid : (v : Scalar) (t : Text) → dispvm_name_in v ≡ ok t → is_source_name t ≡ true
unfolding dispvm_name_in validate_source_name
dispvm_name_in-valid v t =
    second-holds (λ t. is_source_name t ≡ true) (text_in v) _
      (λ a h.
        let (_, n, h1) = >>=-eq-ok (validate_source_name a) _ h in
        let (_, _, h2) = >>=-eq-ok (validate_qubes_vm_name a (codes "TemplateVM")) _ h1 in
        let (_, q, _) = >>=-eq-ok (require (is_source_name a) system_exit) _ n in
        subst (λ t. is_source_name t ≡ true) (ok-injective h2)
          (require-true (is_source_name a) system_exit q))

rate_checked-ok :
    (r : Result (ℕ × ℕ)) {u : Unit {0}} → rate_checked r ≡ ok u → (rate : ℕ × ℕ) × (r ≡ ok rate)
rate_checked-ok (ok rate) h = (rate, refl)
rate_checked-ok (err e) h = absurd (cc)

rate_in-ok :
    (v : Scalar) (t : Text) → rate_in v ≡ ok t → (rate : ℕ × ℕ) × (parse_limit_rate t ≡ ok rate)
unfolding rate_in
rate_in-ok v t =
    second-holds (λ t. (rate : ℕ × ℕ) × (parse_limit_rate t ≡ ok rate)) (text_in v) _
      (λ a h.
        let (_, c, h') = >>=-eq-ok (rate_checked (parse_limit_rate a)) _ h in
        subst (λ t. (rate : ℕ × ℕ) × (parse_limit_rate t ≡ ok rate)) (ok-injective h')
          (rate_checked-ok (parse_limit_rate a) c))

module _ {ℓ κ} {B : Type ℓ} (config : Dict Text Value) (key : Text) (P : Type κ) (b : B) where
  -- What a check of a value gives holds of its result.
  at_leaf :
      (check : Scalar → Result B)
      → ((v : Scalar) → check v ≡ ok b → P)
      → (leaf_at config key >>= check) ≡ ok b
      → P
  at_leaf check each h = let (v, _, h') = >>=-eq-ok (leaf_at config key) check h in each v h'

  at_value :
      (check : Value → Result B)
      → ((v : Value) → check v ≡ ok b → P)
      → (value_at config key >>= check) ≡ ok b
      → P
  at_value check each h = let (v, _, h') = >>=-eq-ok (value_at config key) check h in each v h'

-- A configuration that is accepted has a known theme, every number in its range, a cache for all
-- sources no smaller than that for one, a default disposable with a source's name, a rate that
-- parse_limit_rate reads, columns in their ranges, and protocols for the colors that are TCP or UDP
-- with a port from 1 to 65535 and of which none is listed twice.
pub read_config-IsSettings :
    (config : Dict Text Value) (s : Settings) → read_config config ≡ ok s → IsSettings s
unfolding read_config
read_config-IsSettings config s h =
    let (_, _, h1) = >>=-eq-ok (require (same_keys (keys config) config_keys) system_exit) _ h in
    let (theme, p1, h2) = >>=-eq-ok (leaf_at config (codes "theme") >>= theme_in) _ h1 in
    let (_, _, h3) = >>=-eq-ok (leaf_at config (codes "notify_send") >>= bool_in) _ h2 in
    let (timeout, p3, h4) =
      >>=-eq-ok (leaf_at config (codes "notify_send_timeout") >>= number_in 1000 3600000) _ h3 in
    let (size, p4, h5) =
      >>=-eq-ok (leaf_at config (codes "pending_queue_size") >>= number_in 1 10000) _ h4 in
    let (per, p5, h6) =
      >>=-eq-ok (leaf_at config (codes "dns_cache_max_per_source") >>= number_in 1 1000000) _ h5 in
    let (all_, p6, h7) =
      >>=-eq-ok (leaf_at config (codes "dns_cache_max_global") >>= no_less_than per) _ h6 in
    let (workers, p7, h8) =
      >>=-eq-ok (leaf_at config (codes "dns_cache_refresh_workers") >>= number_in 1 1024) _ h7 in
    let (name, p8, h9) =
      >>=-eq-ok (leaf_at config (codes "default_disposable_vm_name") >>= dispvm_name_in) _ h8 in
    let (rate, p9, h10) = >>=-eq-ok (leaf_at config (codes "limit_rate") >>= rate_in) _ h9 in
    let (burst, p10, h11) =
      >>=-eq-ok (leaf_at config (codes "burst") >>= number_in 1 10000) _ h10 in
    let (entries, p11, h12) =
      >>=-eq-ok (leaf_at config (codes "log_bucket_max_entries") >>= number_in 1 1000000) _ h11 in
    let (widths, p12, h13) =
      >>=-eq-ok (value_at config (codes "prompt_column_widths") >>= validate_prompt_column_widths) _
        h12 in
    let (colors, p13, h14) =
      >>=-eq-ok
        (value_at config (codes "prompt_protocol_colors") >>= validate_prompt_protocol_colors) _
        h13 in
    subst IsSettings (ok-injective h14) (record {
      theme = at_leaf config _ _ _ theme_in (λ v. theme_in-known v theme) p1;
      notify_send_timeout =
          at_leaf config _ _ _ (number_in 1000 3600000)
            (λ v. number_in-InRange 1000 3600000 v timeout) p3;
      pending_queue_size =
          at_leaf config _ _ _ (number_in 1 10000) (λ v. number_in-InRange 1 10000 v size) p4;
      dns_cache_max_per_source =
          at_leaf config _ _ _ (number_in 1 1000000) (λ v. number_in-InRange 1 1000000 v per) p5;
      dns_cache_max_global =
          at_leaf config _ _ _ (no_less_than per) (λ v. no_less_than-le per v all_) p6;
      dns_cache_refresh_workers =
          at_leaf config _ _ _ (number_in 1 1024) (λ v. number_in-InRange 1 1024 v workers) p7;
      default_disposable_vm_name =
          at_leaf config _ _ _ dispvm_name_in (λ v. dispvm_name_in-valid v name) p8;
      limit_rate = at_leaf config _ _ _ rate_in (λ v. rate_in-ok v rate) p9;
      burst = at_leaf config _ _ _ (number_in 1 10000) (λ v. number_in-InRange 1 10000 v burst) p10;
      log_bucket_max_entries =
          at_leaf config _ _ _ (number_in 1 1000000) (λ v. number_in-InRange 1 1000000 v entries)
            p11;
      prompt_column_widths =
          at_value config _ _ _ validate_prompt_column_widths
            (λ v. validate_prompt_column_widths-IsWidths v widths) p12;
      prompt_protocol_colors =
          at_value config _ _ _ validate_prompt_protocol_colors
            (λ v. validate_prompt_protocol_colors-IsColors v colors) p13;
    })
