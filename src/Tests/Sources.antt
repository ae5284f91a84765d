-- ===== src/Tests/Sources.antt =====
-- The table of two qubes, one of them a numbered disposable.
use qubes_snitch.Prelude.Dict.{put, get}
use qubes_snitch.Config.Names.{
  dispvm_display_source, dispvm_policy_source, validate_qubes_vm_name, validate_source_name,
}
use qubes_snitch.Prelude.Strings.{contains, starts_with, split, lines}
use qubes_snitch.Prelude.{drop, Text-discrete, ℕ_discrete, ◌≡◌, refl, Text, codes, [], ◌∷◌, ◌++◌}
use qubes_snitch.Prelude.Result.{ok}
use qubes_snitch.Config.Resolve.{Answer, v4}
use qubes_snitch.Config.Sources.{Sources, parse_sources_output}
use qubes_snitch.Config.Sources.Consistent.{IsConsistent, parse_sources_output-IsConsistent}

abbrev ip_address : Text → Answer
ip_address t = v4 9

abbrev table : Text
table =
    codes "work|10.137.0.9|red|AppVM|-"
    ++ (10 ∷ (codes "disp12|10.138.0.3|red|DispVM|default-dvm" ++ 10 ∷ []))

abbrev sources : Sources
sources = record {
  by_name =
      (codes "work", codes "10.137.0.9" ∷ []) ∷ (codes "disp12", codes "10.138.0.3" ∷ []) ∷ [];
  by_ip = (codes "10.137.0.9", codes "work") ∷ (codes "10.138.0.3", codes "disp12") ∷ [];
  labels = (codes "work", codes "red") ∷ (codes "disp12", codes "red") ∷ [];
  display_by_ip =
      (codes "10.137.0.9", codes "work") ∷ (codes "10.138.0.3", codes "disp12(default-dvm)") ∷ [];
}

parsed_table : parse_sources_output ip_address (codes "default-dvm") table ≡ ok sources
unfolding parse_sources_output lines split ℕ_discrete Text-discrete validate_source_name starts_with
    validate_qubes_vm_name contains dispvm_policy_source get drop put dispvm_display_source
parsed_table = refl

parse_sources_output-IsConsistent_example : IsConsistent sources
parse_sources_output-IsConsistent_example =
    parse_sources_output-IsConsistent ip_address (codes "default-dvm") table sources parsed_table
