-- ===== src/Ui/Layout.antt =====
-- Where the column of the action stands in the lines of a prompt.
use qubes_snitch.Prelude.{
  ℕ, zero, suc, ◌+◌, ◌-◌, ◌≤◌, ◌≡◌, refl, sym, ap, ◌∙◌, Text, codes, List, [], ◌∷◌, ◌++◌, length,
  arith, length-append,
}
use qubes_snitch.Prelude.Decimal.{show}
use qubes_snitch.Config.Settings.Values.{Widths}
use qubes_snitch.Prelude.Result.{ok, >>=-eq-ok, ok-injective}
use qubes_snitch.Request.{Request}
use qubes_snitch.Ui.Cells.{Part, shown, escape, room, spaces, padded, gapped}
use qubes_snitch.Ui.Palette.{label_color}
use qubes_snitch.Ui.{
  colored_source, source_label, Fields, Terminal, safe, color_cell, first_line, service_width,
  continuation_prefix, action_padding, extra_line, header_cells,
}

length-spaces : (n : ℕ) → length (spaces n) ≡ n
length-spaces zero = refl
length-spaces (suc n) = omega (arith, length-spaces n)

length-padded : (width : ℕ) (t : Text) → length t ≤ width → length (padded width t) ≡ width
length-padded width t h =
    omega (arith, length-append t (spaces (width - length t)), length-spaces (width - length t))

room-append : (xs ys : List Part) → room (xs ++ ys) ≡ room xs + room ys
room-append [] ys = omega arith
room-append (shown t ∷ xs) ys = omega (arith, room-append xs ys)
room-append (escape t ∷ xs) ys = room-append xs ys

room-gapped :
    (a b c d e : List Part)
    → room (gapped (a ∷ b ∷ c ∷ d ∷ e ∷ [])) ≡ room a + room b + room c + room d + room e + 5
room-gapped a b c d e = omega (
  arith,
  room-append a (shown (codes " ") ∷ gapped (b ∷ c ∷ d ∷ e ∷ [])),
  room-append b (shown (codes " ") ∷ gapped (c ∷ d ∷ e ∷ [])),
  room-append c (shown (codes " ") ∷ gapped (d ∷ e ∷ [])),
  room-append d (shown (codes " ") ∷ gapped (e ∷ [])),
  room-append e (shown (codes " ") ∷ []),
)

-- The column of the action where every cell fits.
abbrev pub action_column : Widths → ℕ
action_column w = w.queue + w.source + w.target + w.dns + w.service + 5

-- The header has the name of the last column in the column of the action, where no column is
-- narrower than its name.
header_cells-column :
    (w : Widths)
    → 1 ≤ w.queue
    → 6 ≤ w.source
    → 6 ≤ w.target
    → 3 ≤ w.dns
    → 7 ≤ w.service
    → room (header_cells w) ≡ action_column w
unfolding header_cells
header_cells-column w q s t d v = omega (
  arith,
  length-padded w.queue (codes "Q") q,
  length-padded w.source (codes "SOURCE") s,
  length-padded w.target (codes "TARGET") t,
  length-padded w.dns (codes "DNS") d,
  length-padded w.service (codes "SERVICE") v,
)

module _ (terminal : Terminal) where
  room-color_cell :
      (t color : Text) (width : ℕ)
      → room (color_cell terminal t width color)
        ≡ length (safe terminal t) + (width - length (safe terminal t))
  unfolding color_cell
  room-color_cell t color width = omega (arith, length-spaces (width - length (safe terminal t)))

  room-source :
      (r : Request) (theme : Text) (width : ℕ) (source : List Part)
      → colored_source terminal theme width r ≡ ok source
      → length (safe terminal r.display_source) ≤ width
      → room source ≡ width
  unfolding colored_source
  room-source r theme width source h fits =
      let (color, _, h1) = >>=-eq-ok (label_color theme (source_label r)) _ h in
      sym (ap room (ok-injective h1))
      ∙ omega (arith, length-padded width (safe terminal r.display_source) fits)

  module _ (w : Widths) (f : Fields) where
    -- The excess of the cells before the service fits into its free room.
    abbrev pub IsRoomy : Text → Type 0
    IsRoomy target =
        (length target - w.target) + (length f.name - w.dns) + length f.service ≤ w.service

    width_lem :
        (target : Text)
        → IsRoomy target
        → service_width w target f.name f.service
            + (length target - w.target)
            + (length f.name - w.dns)
          ≡ w.service
    unfolding service_width
    width_lem target h = ground arith

    -- Every text of the row is such as it is shown.
    pub record AreSafe : Type 0 where
      pub target : safe terminal f.target ≡ f.target
      pub name : safe terminal f.name ≡ f.name
      pub service : safe terminal f.service ≡ f.service

    cell_lem :
        (t color : Text) (width : ℕ)
        → safe terminal t ≡ t
        → room (color_cell terminal t width color) ≡ length t + (width - length t)
    cell_lem t color width e =
        room-color_cell t color width ∙ ap (λ (s : Text). length s + (width - length s)) e

    service_width-le : (target : Text) → length f.service ≤ service_width w target f.name f.service
    unfolding service_width
    service_width-le target = ground arith

    first_line-column :
        (remaining : ℕ) (source : List Part)
        → length (show (remaining + 1)) ≤ w.queue
        → room source ≡ w.source
        → AreSafe
        → IsRoomy f.target
        → room (first_line terminal w remaining source f) ≡ action_column w
    unfolding first_line
    first_line-column remaining source q s safe_ h =
        let target = color_cell terminal f.target w.target f.target_color in
        let name = color_cell terminal f.name w.dns f.name_color in
        let width = service_width w f.target f.name f.service in
        let service = color_cell terminal f.service width f.service_color in
        room-gapped (shown (padded w.queue (show (remaining + 1))) ∷ []) source target name service
        ∙ omega (
          arith,
          length-padded w.queue (show (remaining + 1)) q,
          s,
          cell_lem f.target f.target_color w.target safe_.target,
          cell_lem f.name f.name_color w.dns safe_.name,
          cell_lem f.service f.service_color width safe_.service,
          width_lem f.target h,
          service_width-le f.target,
        )

    length-prefix : length (continuation_prefix terminal w) ≡ w.queue + w.source + 2
    unfolding continuation_prefix
    length-prefix = omega (
      arith,
      length-append (spaces w.queue) (b' ' ∷ (spaces w.source ++ codes " ")),
      length-append (spaces w.source) (codes " "),
      length-spaces w.queue,
      length-spaces w.source,
    )

    padding_lem :
        (ip : Text)
        → IsRoomy ip
        → length ip + action_padding terminal w ip f.name f.service + (length f.name - w.dns)
          ≡ w.target + w.dns + w.service + 3
    unfolding action_padding
    padding_lem ip h = omega (arith, width_lem ip h)

    extra_line-column :
        (ip : Text)
        → IsRoomy ip
        → length (extra_line terminal w f ip) + (length f.name - w.dns) ≡ action_column w
    unfolding extra_line
    extra_line-column ip h =
        let pad = action_padding terminal w ip f.name f.service in
        let e : length (extra_line terminal w f ip)
            ≡ length (continuation_prefix terminal w) + length (ip ++ spaces pad) =
          length-append (continuation_prefix terminal w) (ip ++ spaces pad) in
        omega (
          arith,
          e,
          length-append ip (spaces pad),
          length-spaces pad,
          length-prefix,
          padding_lem ip h,
        )

    -- Where the texts are shown as they are, the queue and the source fit into their columns, and
    -- the service has room for what the target and the name take too much, the action of the first
    -- line stands in its column, and the action behind a further address stands before it by what
    -- the name is longer than its column.
    pub columns :
        (r : Request) (theme ip : Text) (source : List Part)
        → length (show (r.remaining + 1)) ≤ w.queue
        → colored_source terminal theme w.source r ≡ ok source
        → length (safe terminal r.display_source) ≤ w.source
        → AreSafe
        → IsRoomy f.target
        → IsRoomy ip
        → (room (first_line terminal w r.remaining source f) ≡ action_column w)
          × (length (extra_line terminal w f ip) + (length f.name - w.dns) ≡ action_column w)
    columns r theme ip source q s fits safe_ h k = (
      first_line-column r.remaining source q (room-source r theme w.source source s fits) safe_ h,
      extra_line-column ip k,
    )
