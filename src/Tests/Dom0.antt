-- ===== src/Tests/Dom0.antt =====
-- Two qubes whose network goes in a circle, and one behind the firewall.
use qubes_snitch.Prelude.Decimal.{show}
use qubes_snitch.Prelude.{
  Text-discrete, ◌≡◌, ◌↔◌, refl, ℕ_discrete, Text, Text_eq, codes, [], ◌∷◌, Bool, true, false, some,
}
use qubes_snitch.Prelude.Dict.{get, Dict}
use qubes_snitch.Prelude.Strings.{split, has_char}
use qubes_snitch.Prelude.Result.{ok}
use qubes_snitch.Config.Sources.{row_of}
use qubes_snitch.Dom0.{Row, row_line, vm_uses_snitch, ip_from_id}
use qubes_snitch.Dom0.Chain.{Uses, vm_uses_snitch-Uses}
use qubes_snitch.Dom0.Lines.{row_of-row_line}

abbrev firewall : Text
firewall = codes "sys-snitch"

abbrev netvms : Dict Text Text
netvms =
    (codes "a", codes "b")
    ∷ (codes "b", codes "a")
    ∷ (codes "work", firewall)
    ∷ (firewall, codes "sys-net")
    ∷ []

circle : vm_uses_snitch firewall (codes "a") netvms ≡ some false
unfolding vm_uses_snitch Text-discrete get
circle = refl

behind : vm_uses_snitch firewall (codes "work") netvms ≡ some true
unfolding vm_uses_snitch Text-discrete get
behind = refl

vm_uses_snitch-Uses_example :
    (b : Bool) × (vm_uses_snitch firewall (codes "work") netvms ≡ some b)
    × ((b ≡ true) ↔ Uses firewall netvms (codes "work"))
vm_uses_snitch-Uses_example = vm_uses_snitch-Uses firewall netvms (codes "work")

first_address : ip_from_id (codes "10.137") 300 ≡ codes "10.137.1.46"
unfolding ip_from_id show
first_address = refl

abbrev row : Row
row = record {
  name = codes "work";
  ip = some (codes "10.137.0.9");
  label = some (codes "blue");
  vm_class = codes "AppVM";
  template = codes "debian-12";
}

no_bar_name : has_char b'|' (codes "work") ≡ false
unfolding has_char ℕ_discrete
no_bar_name = refl

no_bar_ip : has_char b'|' (codes "10.137.0.9") ≡ false
unfolding has_char ℕ_discrete
no_bar_ip = refl

no_bar_label : has_char b'|' (codes "blue") ≡ false
unfolding has_char ℕ_discrete
no_bar_label = refl

no_bar_class : has_char b'|' (codes "AppVM") ≡ false
unfolding has_char ℕ_discrete
no_bar_class = refl

no_bar_template : has_char b'|' (codes "debian-12") ≡ false
unfolding has_char ℕ_discrete
no_bar_template = refl

row_of-row_line_example :
    row_of (split b'|' (row_line row))
    ≡ ok (record {
      source = codes "work";
      ip = codes "10.137.0.9";
      label = codes "blue";
      vm_class = codes "AppVM";
      template = codes "debian-12";
    })
row_of-row_line_example =
    row_of-row_line row (codes "10.137.0.9") (codes "blue") refl refl no_bar_name no_bar_ip
      no_bar_label no_bar_class no_bar_template
