-- ===== src/Dom0/Lines.antt =====
-- The lines that sources.py of dom0 prints, as parse_sources_output of qubes_snitch/config.py
-- reads them.
use qubes_snitch.Prelude.{◌≡◌, refl, Text, false, some, ℕ_eq}
use qubes_snitch.Prelude.Strings.{split, split-append, split_whole, has_char}
use qubes_snitch.Prelude.Result.{ok}
use qubes_snitch.Config.Sources.{row_of}
use qubes_snitch.Dom0.{Row, row_line}

-- A text without the bar between the columns.
abbrev pub IsColumn : Text → Type 0
IsColumn t = has_char b'|' t ≡ false

-- The daemon reads a printed line as the columns of its row, where no column has a bar.
pub row_of-row_line :
    (row : Row) (ip label : Text)
    → row.ip ≡ some ip
    → row.label ≡ some label
    → IsColumn row.name
    → IsColumn ip
    → IsColumn label
    → IsColumn row.vm_class
    → IsColumn row.template
    → row_of (split b'|' (row_line row))
      ≡ ok (record {
        source = row.name;
        ip = ip;
        label = label;
        vm_class = row.vm_class;
        template = row.template;
      })
unfolding row_of
row_of-row_line row ip label p q n i l c t =
    rw
      (
        p,
        q,
        split-append b'|' row.name _ n,
        split-append b'|' ip _ i,
        split-append b'|' label _ l,
        split-append b'|' row.vm_class _ c,
        split_whole b'|' row.template t,
      )
      refl
