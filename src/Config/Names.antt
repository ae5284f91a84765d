-- ===== src/Config/Names.antt =====
-- The names of sources in qubes_snitch/config.py.
pub mod Safe
use qubes_snitch.Prelude.{
  ℕ, Text, Text_eq, codes, List, [], ◌∷◌, ◌++◌, Bool, true, false, ◌&&◌, ◌||◌, not, Option, none,
  some, all, any, drop, length, leb, ◌==◌, ℕ_eq, if◌then◌else◌,
}
use qubes_snitch.Prelude.Strings.{is_digits, starts_with, contains}
use qubes_snitch.Prelude.Result.{Result, ok, err, Error, system_exit, require, ◌>>=◌, ◌>>◌}
use qubes_snitch.Dns.Names.{last}

-- [A-Za-z0-9]
abbrev pub is_letter : ℕ → Bool
is_letter c = leb b'A' c && leb c b'Z' || leb b'a' c && leb c b'z' || leb b'0' c && leb c b'9'

-- [A-Za-z0-9_.-]
abbrev is_name_part : ℕ → Bool
is_name_part c = is_letter c || c == b'_' || c == b'.' || c == b'-'

-- SOURCE_NAME_RE
unfoldable pub is_source_name : Text → Bool
unfolding last
is_source_name [] = false
is_source_name (c ∷ s) = is_letter c && all is_name_part s && is_letter (last c s)

abbrev pub reserved_sources : List Text
reserved_sources = codes "unknown" ∷ []

abbrev pub dispvm_policy_prefix : Text
dispvm_policy_prefix = codes "dispvm-"

abbrev pub default_dvm_template : Text
default_dvm_template = codes "default-dvm"

-- NUMBERED_DISPVM_RE
unfoldable pub is_numbered_dispvm : Text → Bool
is_numbered_dispvm s =
    starts_with s (codes "disp") && is_digits (drop 4 s) && leb (length (drop 4 s)) 4

unfoldable pub validate_source_name : Text → Result (Unit {0})
unfolding is_source_name
validate_source_name source = do
  require (is_source_name source) system_exit
  require (not (any (λ r. r == source) reserved_sources || starts_with source dispvm_policy_prefix))
      system_exit

abbrev pub dispvm : Text
dispvm = codes "DispVM"

unfoldable pub validate_qubes_vm_name : Text → Text → Result (Unit {0})
validate_qubes_vm_name source vm_class = do
  require (not (contains source (codes "unknown"))) system_exit
  require (not (contains source (codes "disp") && not (vm_class == dispvm))) system_exit

-- The source of a row of a generic disposable, if its name is numbered.
generic_source : Text → Option Text
unfolding is_numbered_dispvm
generic_source source = if is_numbered_dispvm source then some source else none

-- The policy source of a row: none for a row that is left out.
unfoldable pub dispvm_policy_source : Text → Text → Text → Text → Result (Option Text)
unfolding validate_source_name validate_qubes_vm_name generic_source
dispvm_policy_source source vm_class template default =
    if not (vm_class == dispvm) then ok (some source) else (do
      validate_source_name template
      validate_qubes_vm_name template (codes "TemplateVM")
      if template == default || template == default_dvm_template
          then ok (generic_source source)
          else ok (some (dispvm_policy_prefix ++ template)))

unfoldable pub dispvm_display_source : Text → Text → Text → Text
dispvm_display_source source vm_class template =
    if not (vm_class == dispvm) then source else source ++ b'(' ∷ (template ++ b')' ∷ [])
