-- ===== src/Tests/Client.antt =====
-- A prompt for a name with two addresses, and a wrong key before the answer.
use qubes_snitch.Prelude.{
  Text-discrete, ℕ_discrete, ◌≡◌, ◌≤◌, ◌+◌, refl, Text, codes, List, [], ◌∷◌, ◌++◌, false, ◌==◌,
  ℕ_eq, none, length, arith,
}
use qubes_snitch.Config.Settings.Values.{Widths}
use qubes_snitch.Ui.Layout.{AreSafe, columns}
use qubes_snitch.Prelude.Decimal.{show}
use qubes_snitch.Prelude.Result.{ok, err}
use qubes_snitch.Display.{max_display_text, safe_text}
use qubes_snitch.Ui.Cells.{Part, escape, shown, room, padded}
use qubes_snitch.Ui.Palette.{default_foreground, reset}
use qubes_snitch.Ui.{
  Terminal, Fields, first_line, extra_line, colored_source, safe, header_line, packet_line,
}
use qubes_snitch.Tests.Policy.{request}
use qubes_snitch.Tests.Settings.{settings}

abbrev terminal : Terminal
terminal = record {
  unicode = record { is_other = λ c. false; is_space = λ c. c == 32 };
  getservbyport = λ port proto. none;
}

abbrev prompt_line : Text
prompt_line = elim (packet_line terminal settings request) [ ok line ↦ line | err e ↦ [] ]

abbrev widths : Widths
widths = record { queue = 10; source = 18; target = 25; dns = 42; service = 22 }

-- Four letters more than the column of the name has.
abbrev long_name : Text
long_name = codes "A-a-very-long-name-for-a-server.in.example.org"

abbrev fields : Fields
fields = record {
  target = codes "10.1.2.3";
  name = long_name;
  service = codes "https";
  target_color = default_foreground;
  name_color = default_foreground;
  service_color = default_foreground;
}

abbrev source : List Part
source = escape default_foreground ∷ shown (padded 18 []) ∷ escape reset ∷ []

source_cell : colored_source terminal (codes "dark") 18 request ≡ ok source
unfolding colored_source Text-discrete safe_text max_display_text
source_cell = refl

all_safe : AreSafe terminal widths fields
unfolding safe_text max_display_text ℕ_discrete
all_safe = record { target = safe_target; name = safe_name; service = safe_service }
  where
    safe_target : safe terminal fields.target ≡ fields.target
    safe_target = refl

    safe_name : safe terminal fields.name ≡ fields.name
    safe_name = refl

    safe_service : safe terminal fields.service ≡ fields.service
    safe_service = refl

one_question : length (show 1) ≤ 10
unfolding show
one_question = omega arith

blank_source : length (safe terminal []) ≤ 18
unfolding safe_text max_display_text
blank_source = omega arith

header :
    header_line (record { queue = 3; source = 8; target = 8; dns = 4; service = 8 })
    ≡ 27 ∷ codes "[1mQ   SOURCE   TARGET   DNS  SERVICE  ACTION" ++ 27 ∷ (codes "[0m" ++ 10 ∷ [])
unfolding header_line
header = refl

-- The action of the second line stands four places before its column.
columns_example :
    (room (first_line terminal widths 0 source fields) ≡ 122)
    × (length (extra_line terminal widths fields (codes "10.1.2.4")) + 4 ≡ 122)
columns_example =
    columns terminal widths fields request (codes "dark") (codes "10.1.2.4") source one_question
      source_cell blank_source all_safe (omega arith) (omega arith)
