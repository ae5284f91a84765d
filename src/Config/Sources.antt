-- ===== src/Config/Sources.antt =====
-- parse_sources_output of qubes_snitch/config.py: the table that dom0 sends.
pub mod Consistent
use qubes_snitch.Prelude.{
  ℕ, Text, Text_eq, codes, List, [], ◌∷◌, ◌++◌, Bool, true, false, ◌&&◌, ◌||◌, not, Option, none,
  some, all, any, leb, ltb, ◌==◌, ℕ_eq, if◌then◌else◌,
}
use qubes_snitch.Prelude.Dict.{Dict, get, put, has}
use qubes_snitch.Prelude.Strings.{split, lines, is_blank}
use qubes_snitch.Prelude.Result.{
  Result, ok, err, Error, system_exit, value_error, require, ◌>>=◌, ◌>>◌,
}
use qubes_snitch.Config.Names.{
  validate_source_name, validate_qubes_vm_name, dispvm, dispvm_policy_source, dispvm_display_source,
}
use qubes_snitch.Config.Resolve.{Answer, v4, v6, unreadable}

-- The four maps. Addresses are the texts that dom0 sent.
pub record Sources : Type 0 where
  pub by_name : Dict Text (List Text)
  pub by_ip : Dict Text Text
  pub labels : Dict Text Text
  pub display_by_ip : Dict Text Text

abbrev pub no_sources : Sources
no_sources = record { by_name = []; by_ip = []; labels = []; display_by_ip = [] }

pub record Row : Type 0 where
  pub source : Text
  pub ip : Text
  pub label : Text
  pub vm_class : Text
  pub template : Text

-- The parts of a line between its bars.
unfoldable pub row_of : List Text → Result Row
row_of (source ∷ ip ∷ label ∷ vm_class ∷ template ∷ []) =
    ok
      (record { source = source; ip = ip; label = label; vm_class = vm_class; template = template })
row_of _ = err system_exit

abbrev pub vm_classes : List Text
vm_classes = codes "AppVM" ∷ codes "TemplateVM" ∷ codes "StandaloneVM" ∷ dispvm ∷ []

-- A column that is empty or a dash.
abbrev pub is_missing : Text → Bool
is_missing t = t == [] || t == b'-' ∷ []

abbrev pub or_none_yet : Option (List Text) → List Text
or_none_yet none = []
or_none_yet (some ips) = ips

-- policy_source in labels and labels[policy_source] != label
abbrev pub conflicts : Option Text → Text → Bool
conflicts none label = false
conflicts (some old) label = not (old == label)

unfoldable pub added : Text → Row → Sources → Sources
added policy_source row s = record {
  by_name = put policy_source (or_none_yet (get policy_source s.by_name) ++ row.ip ∷ []) s.by_name;
  by_ip = put row.ip policy_source s.by_ip;
  labels = put policy_source row.label s.labels;
  display_by_ip =
      put row.ip (dispvm_display_source row.source row.vm_class row.template) s.display_by_ip;
}

-- ipaddress.ip_address: what is no address raises ValueError.
unfoldable pub version_4 : Answer → Result (Unit {0})
version_4 (v4 a) = ok tt
version_4 v6 = err system_exit
version_4 unreadable = err value_error

module _ (ip_address : Text → Answer) (default : Text) where
  add_source : Option Text → Row → Sources → Result Sources
  unfolding added version_4
  add_source none row s = ok s
  add_source (some policy_source) row s = do
    version_4 (ip_address row.ip)
    require (not (has row.ip s.by_ip)) system_exit
    require (not (conflicts (get policy_source s.labels) row.label)) system_exit
    ok (added policy_source row s)

  add_row : Row → Sources → Result Sources
  unfolding add_source
  add_row row s = if is_missing row.ip then ok s else (do
    validate_source_name row.source
    validate_qubes_vm_name row.source row.vm_class
    require (any (λ c. c == row.vm_class) vm_classes) system_exit
    require (not (row.vm_class == dispvm && is_missing row.template)) system_exit
    policy_source ← dispvm_policy_source row.source row.vm_class row.template default
    add_source policy_source row s)

  add_line : Text → Sources → Result Sources
  unfolding row_of add_row
  add_line line s =
      if is_blank line then ok s else (row_of (split b'|' line) >>= λ row. add_row row s)

  add_lines : List Text → Sources → Result Sources
  unfolding add_line
  add_lines [] s = ok s
  add_lines (line ∷ rest) s = add_line line s >>= add_lines rest

  unfoldable pub parse_sources_output : Text → Result Sources
  unfolding add_lines
  parse_sources_output text = do
    require (not (any (λ c. ltb 127 c) text)) system_exit
    add_lines (lines text) no_sources
